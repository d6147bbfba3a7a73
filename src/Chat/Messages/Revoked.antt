-- ===== src/Chat/Messages/Revoked.antt =====
-- src/modules/chat/usecase/revoke-message.ts: a revoked message.
use chat_be.Base.{
  ℕ, ◌+◌, ◌≤◌, ◌≡◌, ◌≢◌, refl, ap, ◌∙◌, ◌⊎◌, inl, inr, true, false, Option, some, [], arith, ◌==◌,
  eq_of_==, ==_self, Bool-cases, Option-cases, lookup, lookup-adjust_self, lookup-adjust_ne,
  lookup-adjust_cases,
}
use chat_be.Chat.Model.{
  throw, LastMessage, Conversation, ConversationMember, Message, Store, ChatError, not_a_member,
  message_not_found, not_sender, already_deleted, tombstone,
}
use chat_be.Chat.Settings.{is_active_member}
use chat_be.Chat.Messages.Pins.{pin_guard, pin_message}
use chat_be.Chat.Messages.Actions.{
  is_gone, one_day_ms, on_message, revoke_guard, revoked_message, shows_message, with_tombstone,
  write_revoked, revoke_message, delete_message_for_everyone, edit_guard, edit_message,
}
use chat_be.Privacy.Profile.{shown}

-- A handler on a message that is gone, whose guard refuses such.
gone_throws :
    (id u : ℕ) (guard : Message → Option ConversationMember → Option ChatError)
    (act : Message → Store → Store) (m : Message) (s : Store)
    → lookup id s.messages ≡ some m
    → ((e : ChatError) × (guard m (lookup u (s.members m.conversation_id)) ≡ some e))
    → (e : ChatError) × (on_message id u guard act s ≡ (throw e, s))
gone_throws id u guard act m s found refuses = let (e, fails) = refuses in (e, ground arith)

gone_revoke :
    (now u : ℕ) (m : Message) (member : Option ConversationMember)
    → is_gone m ≡ true
    → (e : ChatError) × (revoke_guard now u m member ≡ some e)
unfolding revoke_guard
gone_revoke now u m member gone = elim (Bool-cases (is_active_member member)) [
  | inr stranger ↦ (not_a_member, ground arith)
  | inl there ↦ elim (Bool-cases (m.sender_id == u)) [
    | inr other ↦ (not_sender, ground arith)
    | inl mine ↦ (already_deleted, ground arith)
  ]
]

gone_edit :
    (now u : ℕ) (limit : Option ℕ) (m : Message) (member : Option ConversationMember)
    → is_gone m ≡ true
    → (e : ChatError) × (edit_guard now u limit m member ≡ some e)
unfolding edit_guard
gone_edit now u limit m member gone = elim (Bool-cases (is_active_member member)) [
  | inr stranger ↦ (not_a_member, ground arith)
  | inl there ↦ elim (Bool-cases (m.sender_id == u)) [
    | inr other ↦ (not_sender, ground arith)
    | inl mine ↦ (already_deleted, ground arith)
  ]
]

gone_pin :
    (fresh now id u : ℕ) (name : ℕ → Option ℕ) (m : Message) (s : Store)
    → lookup id s.messages ≡ some m
    → is_gone m ≡ true
    → pin_message fresh now name id u s ≡ (throw message_not_found, s)
unfolding pin_message pin_guard
gone_pin fresh now id u name m s found gone = ground arith

-- What anyone may try on the message later.
pub record IsFinal (id : ℕ) (s : Store) : Type 0 where
  pub revoke : (now u : ℕ) → (e : ChatError) × (revoke_message now id u s ≡ (throw e, s))
  pub delete :
      (now u : ℕ) → (e : ChatError) × (delete_message_for_everyone now id u s ≡ (throw e, s))
  pub edit :
      (now u text : ℕ) (limit : Option ℕ)
      → (e : ChatError) × (edit_message now id u text limit s ≡ (throw e, s))
  pub pin :
      (fresh now u : ℕ) (name : ℕ → Option ℕ)
      → (e : ChatError) × (pin_message fresh now name id u s ≡ (throw e, s))

gone-IsFinal :
    (id : ℕ) (m : Message) (s : Store)
    → lookup id s.messages ≡ some m
    → is_gone m ≡ true
    → IsFinal id s
unfolding revoke_message delete_message_for_everyone edit_message
gone-IsFinal id m s found gone = record {
  revoke = λ now u.
      gone_throws id u (revoke_guard now u) (write_revoked now id u) m s found
        (gone_revoke now u m (lookup u (s.members m.conversation_id)) gone);
  delete = λ now u.
      gone_throws id u (revoke_guard now u) (write_revoked now id u) m s found
        (gone_revoke now u m (lookup u (s.members m.conversation_id)) gone);
  edit = λ now u text limit.
      gone_throws id u (edit_guard now u limit) _ m s found
        (gone_edit now u limit m (lookup u (s.members m.conversation_id)) gone);
  pin = λ fresh now u name. (message_not_found, gone_pin fresh now id u name m s found gone);
}

-- The row of a revoked message has the tombstone for its text, no media and no links, and the preview
-- of its conversation has the tombstone, if it is one of that message; the other messages, the polls
-- and the members are what they were.
pub record IsRevoked (id : ℕ) (m : Message) (s t : Store) : Type 0 where
  pub row : Message
  pub found : lookup id t.messages ≡ some row
  pub text : row.text ≡ tombstone
  pub media : row.media ≡ []
  pub links : row.links ≡ []
  pub preview :
      (c : Conversation) (l : LastMessage)
      → lookup m.conversation_id t.conversations ≡ some c
      → c.last_message ≡ some l
      → l.message_id ≡ m.id
      → l.text_preview ≡ tombstone
  pub others : (i : ℕ) → i ≢ id → lookup i t.messages ≡ lookup i s.messages
  pub polls : t.polls ≡ s.polls
  pub members : t.members ≡ s.members
  pub final : IsFinal id t

tombstone_preview :
    (m : Message) (c : Conversation) (l : LastMessage)
    → (with_tombstone m c).last_message ≡ some l
    → l.message_id ≡ m.id
    → l.text_preview ≡ tombstone
tombstone_preview m c l e named = elim (Bool-cases (shows_message m.id c.last_message)) [
  | inl shown ↦ let new = rw shown at e in ground arith
  | inr hidden ↦
      let old = rw hidden at e in
      let same : shows_message m.id c.last_message ≡ l.message_id == m.id = rw old refl in
      let self : l.message_id == m.id ≡ true = rw named (==_self m.id) in absurd (ground arith)
]

written-IsRevoked :
    (now id u : ℕ) (m : Message) (s : Store)
    → lookup id s.messages ≡ some m
    → IsRevoked id m s (write_revoked now id u m s)
unfolding write_revoked revoked_message
written-IsRevoked now id u m s found =
    let written = lookup-adjust_self id (revoked_message now u) m s.messages found in
    record {
      row = revoked_message now u m;
      found = written;
      text = refl;
      media = refl;
      links = refl;
      preview = λ c l at_c last named.
          (elim (lookup-adjust_cases m.conversation_id m.conversation_id (with_tombstone m) c
            s.conversations at_c) [
              | inr (other, old) ↦ absurd (other refl)
              | inl (self, o, at_o, same) ↦
                  tombstone_preview m o l (ap (λ c. c.last_message) same ∙ last) named
            ]);
      others = λ i other. lookup-adjust_ne i id (revoked_message now u) s.messages other;
      polls = refl;
      members = refl;
      final = gone-IsFinal id (revoked_message now u m) _ written refl;
    }

-- `revokeMessage` throws and changes nothing, or its user is an active member of the conversation who
-- sent the message not more than a day ago, when it was not revoked; then its row has the tombstone
-- for its text, no media and no links, a preview of it in its conversation has the tombstone, the other
-- messages are what they were, and `revokeMessage`, `deleteMessageForEveryone`, `editMessage` and
-- `pinMessage` of it throw and change nothing, for anyone at any time.
pub revoke_message-IsRevoked :
    (now id u : ℕ) (m : Message) (s : Store)
    → lookup id s.messages ≡ some m
    → ((e : ChatError) × (revoke_message now id u s ≡ (throw e, s)))
      ⊎ ((is_active_member (lookup u (s.members m.conversation_id)) ≡ true)
          × (m.sender_id ≡ u)
          × (is_gone m ≡ false)
          × (now ≤ m.created_at + one_day_ms)
          × IsRevoked id m s (revoke_message now id u s).1)
unfolding revoke_message revoke_guard
revoke_message-IsRevoked now id u m s found =
    elim (Option-cases (revoke_guard now u m (lookup u (s.members m.conversation_id)))) [
      | inr (e, fails) ↦ inl (e, ground arith)
      | inl passes ↦
          let done : (revoke_message now id u s).1 ≡ write_revoked now id u m s = ground arith in
          let mine : m.sender_id == u ≡ true = ground arith in
          inr (
            ground arith,
            eq_of_== m.sender_id u mine,
            ground arith,
            ground arith,
            rw done (written-IsRevoked now id u m s found),
          )
    ]
