-- ===== src/Chat/Utility/Permission.antt =====
-- src/modules/chat/usecase/group-utilities.ts: who changes a reminder, and what stays.
use chat_be.Base.{
  ℕ, ◌≡◌, refl, ◌≢◌, ◌⊎◌, inl, inr, Bool, true, ◌||◌, Option, none, some, arith, ◌==◌, Option-cases,
  lookup, adjust, lookup-adjust_self, lookup-adjust_ne, ap, ◌∙◌, Bool-cases,
}
use chat_be.Chat.Model.{
  Action, throw, ok, Conversation, ConversationMember, Message, GroupReminder, Store, ChatError,
  group_not_found, GroupReminderStatus,
}
use chat_be.Chat.Settings.{is_active_member}
use chat_be.Chat.Utility.Activity.{adjust_message, create_quiet_message}
use chat_be.Chat.Utility.Reminders.{
  utility_guard, creator_error, on_reminder, ReminderChange, update_group_reminder,
  delete_group_reminder, pin_group_reminder, changes_text, changed_reminder, write_change,
  write_cancel, pinned_reminder, write_pin,
}
use chat_be.Chat.Group.Roster.{is_manager}
use chat_be.Chat.Poll.Vote.{create_conversation_activity_message}

-- What a user asks of a reminder that exists.
pub data ReminderAction : Type 0 where
  changes : ReminderChange → ReminderAction
  drops : ReminderAction
  pins : Bool → ReminderAction

unfoldable pub run_action : ℕ → ℕ → ℕ → ℕ → ReminderAction → Action (Unit {0})
run_action fresh now id u (changes change) = update_group_reminder fresh now id u change
run_action fresh now id u drops = delete_group_reminder fresh now id u
run_action fresh now id u (pins pinned) = pin_group_reminder pinned fresh now id u

creator_error-none :
    (created_by u : ℕ) (member : Option ConversationMember) (c : Conversation)
    → creator_error created_by u member c ≡ none
    → (is_active_member member ≡ true) × ((created_by == u || is_manager member c) ≡ true)
unfolding utility_guard
creator_error-none created_by u member c e = (ground arith, ground arith)

-- A handler on a reminder, whatever it does once it may.
on_reminder-cases :
    (id u : ℕ) (act : GroupReminder → Store → Store) (r : GroupReminder) (s : Store)
    → lookup id s.reminders ≡ some r
    → ((e : ChatError) × (on_reminder id u act s ≡ (throw e, s)))
      ⊎ ((c : Conversation) × (lookup r.conversation_id s.conversations ≡ some c)
          × (is_active_member (lookup u (s.members r.conversation_id)) ≡ true)
          × ((r.created_by == u || is_manager (lookup u (s.members r.conversation_id)) c) ≡ true)
          × (on_reminder id u act s ≡ (ok tt, act r s)))
on_reminder-cases id u act r s found =
    let member = lookup u (s.members r.conversation_id) in
    elim (Option-cases (lookup r.conversation_id s.conversations)) [
      | inl absent ↦ inl (group_not_found, ground arith)
      | inr (c, at_c) ↦ elim (Option-cases (creator_error r.created_by u member c)) [
        | inr (e, fails) ↦ inl (e, ground arith)
        | inl passes ↦
            let (active, may) = creator_error-none r.created_by u member c passes in
            inr (c, at_c, active, may, ground arith)
      ]
    ]

adjusted_text :
    (id : Option ℕ) (f : Message → Message) (s : Store)
    → (adjust_message id f s).reminders ≡ s.reminders
adjusted_text none f s = refl
adjusted_text (some id) f s = refl

-- An update of the row of a reminder that keeps its creator and its conversation.
pub record IsSameReminder (id : ℕ) (r : GroupReminder) (s t : Store) : Type 0 where
  pub row : GroupReminder
  pub found : lookup id t.reminders ≡ some row
  pub creator : row.created_by ≡ r.created_by
  pub conversation : row.conversation_id ≡ r.conversation_id
  pub others : (k : ℕ) → k ≢ id → lookup k t.reminders ≡ lookup k s.reminders

updated-IsSameReminder :
    (id : ℕ) (f : GroupReminder → GroupReminder) (r : GroupReminder) (s t : Store)
    → lookup id s.reminders ≡ some r
    → t.reminders ≡ adjust id f s.reminders
    → (f r).created_by ≡ r.created_by
    → (f r).conversation_id ≡ r.conversation_id
    → IsSameReminder id r s t
updated-IsSameReminder id f r s t found written creator conversation = record {
  row = f r;
  found = rw written (lookup-adjust_self id f r s.reminders found);
  creator = creator;
  conversation = conversation;
  others = λ k ne. rw written (lookup-adjust_ne k id f s.reminders ne);
}

changed-IsSameReminder :
    (fresh now id u : ℕ) (change : ReminderChange) (r : GroupReminder) (s : Store)
    → lookup id s.reminders ≡ some r
    → IsSameReminder id r s (write_change fresh now id u change r s)
unfolding write_change changed_reminder create_conversation_activity_message
changed-IsSameReminder fresh now id u change r s found =
    updated-IsSameReminder id (changed_reminder change) r s _ found
      (elim (Bool-cases (changes_text change)) [
        | inl text ↦ rw text (adjusted_text r.message_id _ _)
        | inr quiet ↦ rw quiet refl
      ])
      refl refl

cancelled-IsSameReminder :
    (fresh now id u : ℕ) (r : GroupReminder) (s : Store)
    → lookup id s.reminders ≡ some r
    → IsSameReminder id r s (write_cancel fresh now id u r s)
unfolding write_cancel create_conversation_activity_message
cancelled-IsSameReminder fresh now id u r s found =
    updated-IsSameReminder id (λ r. record r { status = GroupReminderStatus.cancelled }) r s _ found
      refl refl refl

pinned-IsSameReminder :
    (pinned : Bool) (fresh now id u : ℕ) (r : GroupReminder) (s : Store)
    → lookup id s.reminders ≡ some r
    → IsSameReminder id r s (write_pin pinned fresh now id u r s)
unfolding write_pin create_quiet_message
pinned-IsSameReminder pinned fresh now id u r s found =
    updated-IsSameReminder id (pinned_reminder pinned now u) r s _ found
      (adjusted_text r.message_id _ _) refl refl

-- The writes of an action.
write_action : ℕ → ℕ → ℕ → ℕ → ReminderAction → GroupReminder → Store → Store
write_action fresh now id u (changes change) = write_change fresh now id u change
write_action fresh now id u drops = write_cancel fresh now id u
write_action fresh now id u (pins pinned) = write_pin pinned fresh now id u

run-on_reminder :
    (fresh now id u : ℕ) (action : ReminderAction) (s : Store)
    → run_action fresh now id u action s ≡ on_reminder id u (write_action fresh now id u action) s
unfolding run_action write_action update_group_reminder delete_group_reminder pin_group_reminder
run-on_reminder fresh now id u (changes change) s = refl
run-on_reminder fresh now id u drops s = refl
run-on_reminder fresh now id u (pins pinned) s = refl

written-IsSameReminder :
    (fresh now id u : ℕ) (action : ReminderAction) (r : GroupReminder) (s : Store)
    → lookup id s.reminders ≡ some r
    → IsSameReminder id r s (write_action fresh now id u action r s)
unfolding write_action
written-IsSameReminder fresh now id u (changes change) r s found =
    changed-IsSameReminder fresh now id u change r s found
written-IsSameReminder fresh now id u drops r s found =
    cancelled-IsSameReminder fresh now id u r s found
written-IsSameReminder fresh now id u (pins pinned) r s found =
    pinned-IsSameReminder pinned fresh now id u r s found

-- To update, delete, pin or unpin a reminder throws and changes nothing, or the user is an active
-- member of its conversation, and its creator or a manager; then the reminder keeps its creator and
-- its conversation, and the other reminders stay.
pub run_action-IsSameReminder :
    (fresh now id u : ℕ) (action : ReminderAction) (r : GroupReminder) (s : Store)
    → lookup id s.reminders ≡ some r
    → ((e : ChatError) × (run_action fresh now id u action s ≡ (throw e, s)))
      ⊎ ((c : Conversation) × (lookup r.conversation_id s.conversations ≡ some c)
          × (is_active_member (lookup u (s.members r.conversation_id)) ≡ true)
          × ((r.created_by == u || is_manager (lookup u (s.members r.conversation_id)) c) ≡ true)
          × ((run_action fresh now id u action s).0 ≡ ok tt)
          × IsSameReminder id r s (run_action fresh now id u action s).1)
run_action-IsSameReminder fresh now id u action r s found =
    let ran = run-on_reminder fresh now id u action s in
    elim (on_reminder-cases id u (write_action fresh now id u action) r s found) [
      | inl (e, thrown) ↦ inl (e, ran ∙ thrown)
      | inr (c, at_c, active, may, done) ↦ inr (
        c,
        at_c,
        active,
        may,
        ap (λ p. p.0) (ran ∙ done),
        rw (ran, done) (written-IsSameReminder fresh now id u action r s found),
      )
    ]
