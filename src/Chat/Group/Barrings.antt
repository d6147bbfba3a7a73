-- ===== src/Chat/Group/Barrings.antt =====
-- src/modules/chat/usecase/group-block.ts: the owner and the count of a group after a block, and
-- what a block is good for.
use chat_be.Base.{
  ℕ, ◌≡◌, refl, ◌≢◌, inl, inr, Bool, true, false, ◌&&◌, Option, none, arith, Option-cases, lookup,
}
use chat_be.Chat.Model.{
  ok, throw, MessageText, Conversation, ConversationMember, Store, ChatError, group_not_found,
  member_blocked,
}
use chat_be.Chat.Settings.{is_active_member, owns}
use chat_be.Chat.Group.Counted.{IsKept, same-IsKept, posted-IsKept}
use chat_be.Chat.Group.Rosters.{expel-IsKept, barred-IsKept}
use chat_be.Chat.Group.Roster.{has_admin_role, is_user_blocked, insert_block}
use chat_be.Chat.Group.Joining.{join_guard, enter_group}
use chat_be.Chat.Group.Barring.{
  has_owner_role, block_member_guard, expel_if, block_group_member, unblock_guard, delete_block,
  unblock_group_member,
}

block_member_guard-passes :
    (c : Conversation) (requester target : Option ConversationMember) (is_blocked : Bool)
    → block_member_guard c requester target is_blocked ≡ none
    → (is_active_member target && has_owner_role target) ≡ false
unfolding block_member_guard
block_member_guard-passes c requester target is_blocked e = ground arith

plain_target :
    (o : Option ConversationMember)
    → is_active_member o ≡ true
    → (is_active_member o && has_owner_role o) ≡ false
    → has_owner_role o ≡ false
plain_target o there e = ground arith

owner_role_ne :
    (g v u : ℕ) (s : Store) → IsKept g v s → has_owner_role (lookup u (s.members g)) ≡ false → u ≢ v
owner_role_ne g v u s h plain uv =
    let (m, at_v, active, owns) = h.owned.owned.present in
    let known = rw uv at plain in absurd (ground arith)

expel_if-IsKept :
    (b : Bool) (fresh now g v requester u : ℕ) (was_admin : Bool) (text : MessageText) (s : Store)
    → IsKept g v s
    → is_active_member (lookup u (s.members g)) ≡ b
    → (is_active_member (lookup u (s.members g)) && has_owner_role (lookup u (s.members g))) ≡ false
    → IsKept g v (expel_if b fresh now g requester u was_admin text s)
unfolding expel_if
expel_if-IsKept false fresh now g v requester u was_admin text s h there e = h
expel_if-IsKept true fresh now g v requester u was_admin text s h there e =
    let ne = owner_role_ne g v u s h (plain_target (lookup u (s.members g)) there e) in
    posted-IsKept fresh now g v requester text _ (expel-IsKept now g v u was_admin s h ne there)

-- `blockGroupMember` keeps the owner of a group, and its count that of the active members.
pub block_group_member-IsKept :
    (fresh now g v requester u : ℕ) (name : ℕ → Option ℕ) (s : Store)
    → IsKept g v s
    → IsKept g v (block_group_member fresh now name g requester u s).1
unfolding block_group_member
block_group_member-IsKept fresh now g v requester u name s h =
    let c = h.owned.conversation in
    let found = h.owned.found in
    let row = lookup requester (s.members g) in
    let target = lookup u (s.members g) in
    elim (Option-cases (block_member_guard c row target (is_user_blocked g u s))) [
      | inr (e, fails) ↦
          let thrown : block_group_member fresh now name g requester u s ≡ (throw e, s) =
            ground arith in
          rw thrown h
      | inl passes ↦
          let free = block_member_guard-passes c row target (is_user_blocked g u s) passes in
          let text = member_blocked (name requester) (name u) in
          let t =
            expel_if (is_active_member target) fresh now g requester u (has_admin_role target) text
              s in
          let done : block_group_member fresh now name g requester u s
              ≡ (ok tt, insert_block now g u requester t) =
            ground arith in
          rw done (
            barred-IsKept now g v u requester t (
              expel_if-IsKept (is_active_member target) fresh now g v requester u
                (has_admin_role target) text s h refl free))
    ]

-- `unblockGroupMember` keeps the owner of a group, and its count that of the active members.
pub unblock_group_member-IsKept :
    (g v requester u : ℕ) (s : Store)
    → IsKept g v s
    → IsKept g v (unblock_group_member g requester u s).1
unfolding unblock_group_member delete_block
unblock_group_member-IsKept g v requester u s h =
    let found = h.owned.found in
    elim (Option-cases (unblock_guard (lookup requester (s.members g)) (is_user_blocked g u s))) [
      | inr (e, fails) ↦
          let thrown : unblock_group_member g requester u s ≡ (throw e, s) = ground arith in
          rw thrown h
      | inl passes ↦
          let done : unblock_group_member g requester u s ≡ (ok tt, delete_block g u s) =
            ground arith in
          rw done (same-IsKept g v s _ refl refl h)
    ]

-- Whoever is blocked from a group is refused by an invite link of it, and nothing changes.
pub enter_group-blocked :
    (fresh row_id now g u : ℕ) (name : ℕ → Option ℕ) (s : Store)
    → is_user_blocked g u s ≡ true
    → (e : ChatError) × (enter_group fresh row_id now name g u s ≡ (throw e, s))
unfolding enter_group
enter_group-blocked fresh row_id now g u name s blocked =
    elim (Option-cases (lookup g s.conversations)) [
      | inl absent ↦ (group_not_found, ground arith)
      | inr (c, found) ↦ elim (Option-cases (join_guard c (is_user_blocked g u s))) [
        | inr (e, fails) ↦ (e, ground arith)
        | inl passes ↦ absurd (ground arith)
      ]
    ]
