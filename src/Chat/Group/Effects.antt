-- ===== src/Chat/Group/Effects.antt =====
-- src/modules/chat/usecase/remove-member-from-group.ts and group-block.ts: who is a member, and who
-- is blocked, after them.
use chat_be.Base.{
  ℕ, ◌≡◌, refl, ◌∙◌, ◌⊎◌, inl, inr, Bool, true, not, ◌&&◌, ◌||◌, Option, none, some, arith, ◌==◌,
  if◌then◌else◌, ==_self, Bool-cases, Option-cases, Dict, lookup, sym, ap, false,
}
use chat_be.Chat.Model.{
  ok, throw, Conversation, ConversationMember, Store, ChatError, not_a_member, Result,
  group_not_found,
}
use chat_be.Chat.Settings.{is_active_member}
use chat_be.Chat.Group.Ownership.{post_system_message, is_owner_of}
use chat_be.Chat.Group.Barrings.{enter_group-blocked}
use chat_be.Chat.Group.Roster.{
  is_manager, has_admin_role, remove_guard, expel, is_user_blocked, block_removed, removal_text,
  remove_member,
}
use chat_be.Chat.Group.Joining.{enter_group}
use chat_be.Chat.Group.Expelled.{
  posted_active, expelled_active, block_removed_blocked, without_activity, departed, posted_row,
  expelled_row, out_elsewhere, block_removed_members, out_blocks,
}

-- The tests that `removeMember` makes on the three who take part.
abbrev pub may_remove : ℕ → ℕ → Conversation → Dict ConversationMember → Bool
may_remove requester u c ms =
    is_active_member (lookup requester ms)
    && (is_manager (lookup requester ms) c || requester == u)
    && (is_active_member (lookup u ms) && not (is_owner_of (lookup u ms) c))

remove_guard-may :
    (c : Conversation) (requester target : Option ConversationMember) (is_self : Bool)
    → remove_guard c requester target is_self ≡ none
    → is_active_member requester ≡ true
    → (is_active_member requester
        && (is_manager requester c || is_self)
        && (is_active_member target && not (is_owner_of target c)))
      ≡ true
unfolding remove_guard
remove_guard-may c requester target is_self e there = ground arith

-- `removeMember` throws and changes nothing, or: the requester is an active member, and a manager or
-- the target himself; the target was an active member and not the owner; afterwards the target is no
-- active member and the others are members as before; the rows of the group differ from those before in
-- the times of the last activity alone, but for the time at which the target left; no row of another
-- group has changed; and blocked are those who were, and the target if the call asks for it.
pub remove_member-effect :
    (fresh now g requester u : ℕ) (name : ℕ → Option ℕ) (block : Bool) (c : Conversation)
    (s : Store)
    → lookup g s.conversations ≡ some c
    → ((e : ChatError) × (remove_member fresh now name g requester u block s ≡ (throw e, s)))
      ⊎ (((remove_member fresh now name g requester u block s).0 ≡ ok tt)
          × (may_remove requester u c (s.members g) ≡ true)
          × ((w : ℕ)
              → is_active_member
                  (lookup w ((remove_member fresh now name g requester u block s).1.members g))
                ≡ (not (w == u) && is_active_member (lookup w (s.members g))))
          × ((w : ℕ)
              → without_activity
                  (lookup w ((remove_member fresh now name g requester u block s).1.members g))
                ≡ without_activity (
                    if w == u
                    then departed now (lookup w (s.members g))
                    else lookup w (s.members g)))
          × ((h : ℕ)
              → h == g ≡ false
              → (remove_member fresh now name g requester u block s).1.members h ≡ s.members h)
          × ((w : ℕ)
              → is_user_blocked g w (remove_member fresh now name g requester u block s).1
                ≡ ((block && w == u) || is_user_blocked g w s)))
unfolding remove_member
remove_member-effect fresh now g requester u name block c s found =
    let row = lookup requester (s.members g) in
    let target = lookup u (s.members g) in
    elim (Bool-cases (is_active_member row)) [
      | inr stranger ↦ inl (not_a_member, ground arith)
      | inl there ↦ elim (Option-cases (remove_guard c row target (requester == u))) [
        | inr (e, fails) ↦ inl (e, ground arith)
        | inl passes ↦
            let may = remove_guard-may c row target (requester == u) passes there in
            let active : is_active_member target ≡ true = ground arith in
            let text = removal_text (requester == u) (name requester) (name u) in
            let out = expel now g u (has_admin_role target) s in
            let posted = post_system_message fresh now g requester text out in
            let done : remove_member fresh now name g requester u block s
                ≡ (ok tt, block_removed block now g u requester posted) =
              ground arith in
            inr (
              rw done refl,
              may,
              λ w.
                  rw (done, block_removed_members block now g u requester posted)
                    (posted_active fresh now g requester w text out
                      ∙ expelled_active now g u w (has_admin_role target) s active),
              λ w.
                  rw (done, block_removed_members block now g u requester posted)
                    (posted_row fresh now g requester w text out
                      ∙ ap without_activity
                          (expelled_row now g u w (has_admin_role target) s active)),
              λ h other.
                  rw (done, block_removed_members block now g u requester posted)
                    (out_elsewhere fresh now g requester u h (has_admin_role target) text s other),
              λ w. rw done (
                  block_removed_blocked block now g u requester w posted
                  ∙ rw (out_blocks fresh now g requester u (has_admin_role target) text s) refl),
            )
      ]
    ]

remove_member-absent :
    (fresh now g requester u : ℕ) (name : ℕ → Option ℕ) (block : Bool) (s : Store)
    → lookup g s.conversations ≡ none
    → (e : ChatError) × (remove_member fresh now name g requester u block s ≡ (throw e, s))
unfolding remove_member
remove_member-absent fresh now g requester u name block s absent =
    elim (Bool-cases (is_active_member (lookup requester (s.members g)))) [
      | inr stranger ↦ (not_a_member, ground arith)
      | inl there ↦ (group_not_found, ground arith)
    ]

abbrev is_ok : {A : Type 0} → Result A → Bool
is_ok (ok a) = true
is_ok (throw e) = false

-- What throws is not what succeeds.
pub threw_ne :
    {A : Type 0} (e : ChatError) (a : A) (run : Result A × Store) (s : Store)
    → run ≡ (throw e, s)
    → ¬ (run.0 ≡ ok a)
threw_ne e a run s thrown done =
    let bad : false ≡ true = ap is_ok (sym (ap (λ p. p.0) thrown) ∙ done) in ground arith

-- Who is removed with a block cannot come back by an invite link: it throws and changes nothing.
pub remove_member-bars :
    (fresh now g requester u : ℕ) (name : ℕ → Option ℕ) (s : Store) (other row_id later : ℕ)
    → (remove_member fresh now name g requester u true s).0 ≡ ok tt
    → (e : ChatError) × (enter_group other row_id later name g u
          (remove_member fresh now name g requester u true s).1
        ≡ (throw e, (remove_member fresh now name g requester u true s).1))
remove_member-bars fresh now g requester u name s other row_id later done =
    let t = (remove_member fresh now name g requester u true s).1 in
    enter_group-blocked other row_id later g u name t
      (elim (Option-cases (lookup g s.conversations)) [
        | inl absent ↦
            let (e, thrown) = remove_member-absent fresh now g requester u name true s absent in
            absurd (threw_ne e tt _ s thrown done)
        | inr (c, found) ↦ elim (remove_member-effect fresh now g requester u name true c s found) [
          | inl (e, thrown) ↦ absurd (threw_ne e tt _ s thrown done)
          | inr (fine, may, active, rows, elsewhere, blocked) ↦
              blocked u ∙ ground (arith, ==_self u)
        ]
      ])
