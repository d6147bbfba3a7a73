-- ===== src/Chat/Group/Barring.antt =====
-- src/modules/chat/usecase/group-block.ts. `fresh`, `now` and `name` are as in Ownership.
use chat_be.Base.{
  ℕ, Bool, true, false, not, ◌&&◌, ◌||◌, Option, none, some, List, [], ◌∷◌, map, ◌==◌,
  if◌then◌else◌, lookup, delete, values,
}
use chat_be.Chat.Model.{
  Result, Action, ok, throw, MessageText, Conversation, ConversationMember, GroupBlock, Store,
  ChatError, not_a_member, group_not_found, not_a_group, only_managers_block, only_managers_unblock,
  cannot_block_owner, already_blocked, not_blocked, member_blocked,
}
use chat_be.Chat.Settings.{is_active_member, is_owner_role}
use chat_be.Chat.Poll.Vote.{first_error}
use chat_be.Chat.Group.Ownership.{is_group, post_system_message, on_group}
use chat_be.Chat.Group.Roster.{has_admin_role, expel, is_user_blocked, insert_block}

abbrev pub has_owner_role : Option ConversationMember → Bool
has_owner_role none = false
has_owner_role (some m) = is_owner_role m.role

-- `role !== OWNER && role !== ADMIN`, negated
abbrev pub leads : Option ConversationMember → Bool
leads m = has_owner_role m || has_admin_role m

unfoldable pub block_member_guard :
    Conversation → Option ConversationMember → Option ConversationMember → Bool → Option ChatError
block_member_guard conversation requester target is_blocked = first_error (
    (not (is_group conversation.type), not_a_group)
    ∷ (not (is_active_member requester), not_a_member)
    ∷ (not (leads requester), only_managers_block)
    ∷ (is_blocked, already_blocked)
    ∷ (is_active_member target && has_owner_role target, cannot_block_owner)
    ∷ [])

-- The target is put out only if he is an active member.
unfoldable pub expel_if : Bool → ℕ → ℕ → ℕ → ℕ → ℕ → Bool → MessageText → Store → Store
expel_if false fresh now group_id requester_id target_id was_admin text s = s
expel_if true fresh now group_id requester_id target_id was_admin text s =
    post_system_message fresh now group_id requester_id text
      (expel now group_id target_id was_admin s)

unfoldable pub block_group_member : ℕ → ℕ → (ℕ → Option ℕ) → ℕ → ℕ → ℕ → Action (Unit {0})
block_group_member fresh now name group_id requester_id target_id s =
    let target = lookup target_id (s.members group_id) in
    on_group group_id
      (λ c.
        block_member_guard c (lookup requester_id (s.members group_id)) target
          (is_user_blocked group_id target_id s))
      (λ s. insert_block now group_id target_id requester_id (
        expel_if (is_active_member target) fresh now group_id requester_id target_id
          (has_admin_role target) (member_blocked (name requester_id) (name target_id)) s))
      s

unfoldable pub unblock_guard : Option ConversationMember → Bool → Option ChatError
unblock_guard requester is_blocked = first_error (
    (not (is_active_member requester), not_a_member)
    ∷ (not (leads requester), only_managers_unblock)
    ∷ (not is_blocked, not_blocked)
    ∷ [])

unfoldable pub delete_block : ℕ → ℕ → Store → Store
delete_block group_id user_id s = record s {
  group_blocks = λ c. if c == group_id then delete user_id (s.group_blocks c) else s.group_blocks c;
}

unfoldable pub unblock_group_member : ℕ → ℕ → ℕ → Action (Unit {0})
unblock_group_member group_id requester_id target_id s =
    on_group group_id
      (λ c.
        unblock_guard (lookup requester_id (s.members group_id))
          (is_user_blocked group_id target_id s))
      (delete_block group_id target_id) s

-- Each block with the display name of its user.
unfoldable pub get_group_blocks :
    (ℕ → Option ℕ) → ℕ → ℕ → Store → Result (List (GroupBlock × Option ℕ))
get_group_blocks name group_id requester_id s = elim (lookup group_id s.conversations) [
  | none ↦ throw group_not_found
  | some c ↦
      let requester = lookup requester_id (s.members group_id) in
      if is_active_member requester
      then if leads requester
        then ok (map (λ b. (b, name b.user_id)) (values (s.group_blocks group_id)))
        else throw only_managers_block
      else throw not_a_member
]
