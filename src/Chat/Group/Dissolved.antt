-- ===== src/Chat/Group/Dissolved.antt =====
-- src/modules/chat/usecase/dissolve-group.ts: what is left of a group.
use chat_be.Base.{
  ℕ, ◌≡◌, refl, ◌⊎◌, inl, inr, Bool, true, not, ◌&&◌, ◌||◌, none, some, [], ◌∷◌, arith, ◌==◌,
  if◌then◌else◌, Option-cases, any, Dict, lookup, values, lookup-delete,
}
use chat_be.Chat.Model.{throw, Conversation, Store, ChatError}
use chat_be.Chat.Settings.{is_active_member}
use chat_be.Chat.Group.Dissolving.{
  may_dissolve, dissolve_guard, delete_of, delete_group, dissolve_group,
}

any-delete_of :
    {V : Type 0} (of : V → ℕ) (g h : ℕ) (d : Dict V)
    → any (λ w. of w == h) (values (delete_of of g d))
      ≡ (not (h == g) && any (λ w. of w == h) (values d))
any-delete_of of g h [] = ground arith
any-delete_of of g h ((k, v) ∷ d) = ground (arith, any-delete_of of g h d)

-- No row of a table names the group.
abbrev pub has_rows_of : ℕ → Store → Bool
has_rows_of g s =
    any (λ m. m.conversation_id == g) (values s.messages)
    || any (λ p. p.conversation_id == g) (values s.polls)

-- The tables that the handler has no repository of.
pub record IsSameBeside (s t : Store) : Type 0 where
  pub group_blocks : t.group_blocks ≡ s.group_blocks
  pub invite_links : t.invite_links ≡ s.invite_links
  pub reminders : t.reminders ≡ s.reminders
  pub notes : t.notes ≡ s.notes

deleted-IsSameBeside : (g : ℕ) (s : Store) → IsSameBeside s (delete_group g s)
unfolding delete_group
deleted-IsSameBeside g s = record {
  group_blocks = refl;
  invite_links = refl;
  reminders = refl;
  notes = refl;
}

deleted_rows :
    (g h : ℕ) (s : Store) → has_rows_of h (delete_group g s) ≡ (not (h == g) && has_rows_of h s)
unfolding delete_group
deleted_rows g h s =
    let messages = any-delete_of (λ m. m.conversation_id) g h s.messages in
    let polls = any-delete_of (λ p. p.conversation_id) g h s.polls in ground arith

deleted_members :
    (g h : ℕ) (s : Store) → (delete_group g s).members h ≡ (if h == g then [] else s.members h)
unfolding delete_group
deleted_members g h s = refl

deleted_conversations :
    (g h : ℕ) (s : Store)
    → lookup h (delete_group g s).conversations
      ≡ (if h == g then none else lookup h s.conversations)
unfolding delete_group
deleted_conversations g h s = lookup-delete h g s.conversations

-- `dissolveGroup` throws and changes nothing, or its requester is an active member who owns the group
-- or stands in its admins; then neither the conversation nor a member, a message or a poll of the
-- group is left, the conversations and members of all others are what they were, and so is whether
-- they have messages or polls. The blocks, invite links, reminders and notes stay, those of the group
-- with them.
pub dissolve_group-effect :
    (g requester : ℕ) (c : Conversation) (s : Store)
    → lookup g s.conversations ≡ some c
    → ((e : ChatError) × (dissolve_group g requester s ≡ (throw e, s)))
      ⊎ ((is_active_member (lookup requester (s.members g)) ≡ true)
          × (may_dissolve (lookup requester (s.members g)) requester c ≡ true)
          × ((h : ℕ)
              → lookup h (dissolve_group g requester s).1.conversations
                ≡ (if h == g then none else lookup h s.conversations))
          × ((h : ℕ)
              → (dissolve_group g requester s).1.members h ≡ (if h == g then [] else s.members h))
          × ((h : ℕ)
              → has_rows_of h (dissolve_group g requester s).1 ≡ (not (h == g) && has_rows_of h s))
          × IsSameBeside s (dissolve_group g requester s).1)
unfolding dissolve_group
dissolve_group-effect g requester c s found =
    let row = lookup requester (s.members g) in
    elim (Option-cases (dissolve_guard c row requester)) [
      | inr (e, fails) ↦ inl (e, ground arith)
      | inl passes ↦
          let done : (dissolve_group g requester s).1 ≡ delete_group g s = ground arith in
          inr (
            ground arith,
            ground arith,
            λ h. rw done (deleted_conversations g h s),
            λ h. rw done (deleted_members g h s),
            λ h. rw done (deleted_rows g h s),
            rw done (deleted-IsSameBeside g s),
          )
    ]
