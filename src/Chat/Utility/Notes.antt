-- ===== src/Chat/Utility/Notes.antt =====
-- src/modules/chat/usecase/group-utilities.ts: notes.
use chat_be.Base.{ℕ, Option, none, some, List, lookup, insert, delete, values, adjust}
use chat_be.Chat.Model.{Result, Action, throw, GroupNote, Store, note_not_found}
use chat_be.Chat.Settings.{or_default, GroupUtility}
use chat_be.Chat.Utility.Reminders.{permission_error, manager_error, rows_of, read_by_member}
use chat_be.Chat.Group.Ownership.{on_group}

unfoldable pub create_group_note : ℕ → ℕ → ℕ → ℕ → ℕ → Action (Unit {0})
create_group_note note_id group_id user_id title content s =
    on_group group_id
      (λ c. permission_error GroupUtility.note (lookup user_id (s.members group_id)) c)
      (λ s. record s {
        notes =
            insert note_id
              (record {
                id = note_id;
                conversation_id = group_id;
                title = title;
                content = content;
                created_by = user_id;
                updated_by = none;
              })
              s.notes;
      })
      s

unfoldable pub list_group_notes : ℕ → ℕ → Store → Result (List GroupNote)
list_group_notes group_id user_id =
    read_by_member group_id user_id
      (λ s. rows_of (λ n. n.conversation_id) group_id (values s.notes))

-- A handler on a note that must exist, by a manager of its group.
abbrev pub on_note : ℕ → ℕ → (Store → Store) → Action (Unit {0})
on_note note_id user_id act s = elim (lookup note_id s.notes) [
  | none ↦ (throw note_not_found, s)
  | some n ↦
      on_group n.conversation_id
        (λ c. manager_error (lookup user_id (s.members n.conversation_id)) c) act s
]

unfoldable pub update_group_note : ℕ → ℕ → Option ℕ → Option ℕ → Action (Unit {0})
update_group_note note_id user_id title content = on_note note_id user_id (λ s. record s {
  notes =
      adjust note_id
        (λ n. record n {
          title = or_default title n.title;
          content = or_default content n.content;
          updated_by = some user_id;
        })
        s.notes;
})

unfoldable pub delete_group_note : ℕ → ℕ → Action (Unit {0})
delete_group_note note_id user_id =
    on_note note_id user_id (λ s. record s { notes = delete note_id s.notes })
