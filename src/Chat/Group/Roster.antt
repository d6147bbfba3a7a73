-- ===== src/Chat/Group/Roster.antt =====
-- src/modules/chat/usecase/remove-member-from-group.ts, approve-member.ts and reject-member.ts.
-- `fresh`, `now` and `name` are as in Ownership.
use chat_be.Base.{
  ℕ, ◌+◌, Bool, true, false, not, ◌&&◌, Option, none, some, [], ◌∷◌, ◌==◌, if◌then◌else◌, is_some,
  lookup, insert,
}
use chat_be.Chat.Model.{
  Action, throw, ConversationMemberStatus, MessageText, Conversation, ConversationMember, Store,
  ChatError, not_a_member, not_a_group, target_not_member, only_managers_remove,
  only_managers_approve, only_managers_reject, cannot_remove_owner, member_not_found,
  already_active, was_rejected, already_rejected, active_not_rejected, left_by_self, member_removed,
  member_approved, member_rejected,
}
use chat_be.Chat.Settings.{
  normalize_group_settings, is_active_status, is_active_member, is_admin_role, is_group_manager,
}
use chat_be.Chat.Poll.Vote.{first_error}
use chat_be.Chat.Group.Ownership.{
  is_group, update_member, update_conversation, post_system_message, admins_of, is_owner_of,
  on_group,
}
use chat_be.Chat.Group.Leaving.{without_user, one_less}

-- `isGroupManager` of a member who may be missing
abbrev pub is_manager : Option ConversationMember → Conversation → Bool
is_manager none conversation = false
is_manager (some m) conversation = is_group_manager m (some conversation)

abbrev pub has_admin_role : Option ConversationMember → Bool
has_admin_role none = false
has_admin_role (some m) = is_admin_role m.role

unfoldable pub remove_guard :
    Conversation → Option ConversationMember → Option ConversationMember → Bool → Option ChatError
remove_guard conversation requester target is_self = first_error (
    (not (is_manager requester conversation) && not is_self, only_managers_remove)
    ∷ (not (is_active_member target), target_not_member)
    ∷ (is_owner_of target conversation, cannot_remove_owner)
    ∷ [])

-- The writes on a member who is put out, and on the conversation.
unfoldable pub expel : ℕ → ℕ → ℕ → Bool → Store → Store
expel now group_id user_id was_admin s =
    update_conversation group_id
      (λ c. record c {
        admins = if was_admin then some (without_user user_id (admins_of c.admins)) else c.admins;
        members_count = one_less c.members_count;
      })
      (update_member group_id user_id (λ m. record m { left_at = some now }) s)

-- `isUserBlocked` of the group
abbrev pub is_user_blocked : ℕ → ℕ → Store → Bool
is_user_blocked group_id user_id s = is_some (lookup user_id (s.group_blocks group_id))

unfoldable pub insert_block : ℕ → ℕ → ℕ → ℕ → Store → Store
insert_block now group_id user_id blocked_by s = record s {
  group_blocks = λ c.
      if c == group_id
      then insert user_id
          (record {
            conversation_id = group_id;
            user_id = user_id;
            blocked_by = blocked_by;
            created_at = now;
          })
          (s.group_blocks c)
      else s.group_blocks c;
}

unfoldable pub block_removed : Bool → ℕ → ℕ → ℕ → ℕ → Store → Store
block_removed block now group_id user_id blocked_by s =
    if block && not (is_user_blocked group_id user_id s)
    then insert_block now group_id user_id blocked_by s
    else s

abbrev pub removal_text : Bool → Option ℕ → Option ℕ → MessageText
removal_text true by target = left_by_self target
removal_text false by target = member_removed by target

unfoldable pub remove_member : ℕ → ℕ → (ℕ → Option ℕ) → ℕ → ℕ → ℕ → Bool → Action (Unit {0})
remove_member fresh now name group_id requester_id target_id block s =
    let requester = lookup requester_id (s.members group_id) in
    let target = lookup target_id (s.members group_id) in
    let is_self = requester_id == target_id in
    if is_active_member requester
    then on_group group_id (λ c. remove_guard c requester target is_self)
        (λ s. block_removed block now group_id target_id requester_id (
          post_system_message fresh now group_id requester_id
            (removal_text is_self (name requester_id) (name target_id))
            (expel now group_id target_id (has_admin_role target) s)))
        s
    else (throw not_a_member, s)

abbrev pub is_active_manager : Option ConversationMember → Conversation → Bool
is_active_manager requester conversation =
    is_active_member requester && is_manager requester conversation

abbrev pub is_rejected_status : ConversationMemberStatus → Bool
is_rejected_status ConversationMemberStatus.rejected = true
is_rejected_status ConversationMemberStatus.active = false
is_rejected_status ConversationMemberStatus.pending = false

abbrev pub has_status : (ConversationMemberStatus → Bool) → Option ConversationMember → Bool
has_status is none = false
has_status is (some m) = is m.status

unfoldable pub approve_guard :
    Conversation → Option ConversationMember → Option ConversationMember → Option ChatError
approve_guard conversation requester member = first_error (
    (not (is_group conversation.type), not_a_group)
    ∷ (not (is_active_manager requester conversation), only_managers_approve)
    ∷ (not (is_some member), member_not_found)
    ∷ (has_status is_active_status member, already_active)
    ∷ (has_status is_rejected_status member, was_rejected)
    ∷ [])

-- What an update with `canView ? undefined : now` leaves: the repository skips undefined.
abbrev pub history_after : Bool → ℕ → Option ℕ → Option ℕ
history_after true now old = old
history_after false now old = some now

abbrev pub one_more_member : Conversation → Conversation
one_more_member c = record c { members_count = c.members_count + 1 }

unfoldable pub approve : ℕ → ℕ → ℕ → Bool → Store → Store
approve now group_id user_id can_view_history s = update_conversation group_id one_more_member (
    update_member group_id user_id
      (λ m. record m {
        status = ConversationMemberStatus.active;
        history_visible_from = history_after can_view_history now m.history_visible_from;
      })
      s)

abbrev pub can_view_history : Option Conversation → Bool
can_view_history none = true
can_view_history (some c) = (normalize_group_settings c.settings).new_member_can_view_history

unfoldable pub approve_member : ℕ → ℕ → (ℕ → Option ℕ) → ℕ → ℕ → ℕ → Action (Unit {0})
approve_member fresh now name group_id user_id requester_id s =
    on_group group_id
      (λ c.
        approve_guard c (lookup requester_id (s.members group_id))
          (lookup user_id (s.members group_id)))
      (λ s.
        post_system_message fresh now group_id requester_id
          (member_approved (name requester_id) (name user_id))
          (approve now group_id user_id (can_view_history (lookup group_id s.conversations)) s))
      s

unfoldable pub reject_guard :
    Conversation → Option ConversationMember → Option ConversationMember → Option ChatError
reject_guard conversation requester member = first_error (
    (not (is_group conversation.type), not_a_group)
    ∷ (not (is_active_manager requester conversation), only_managers_reject)
    ∷ (not (is_some member), member_not_found)
    ∷ (has_status is_rejected_status member, already_rejected)
    ∷ (has_status is_active_status member, active_not_rejected)
    ∷ [])

unfoldable pub reject : ℕ → ℕ → Store → Store
reject group_id user_id =
    update_member group_id user_id (λ m. record m { status = ConversationMemberStatus.rejected })

unfoldable pub reject_member : ℕ → ℕ → (ℕ → Option ℕ) → ℕ → ℕ → ℕ → Action (Unit {0})
reject_member fresh now name group_id user_id requester_id s =
    on_group group_id
      (λ c.
        reject_guard c (lookup requester_id (s.members group_id))
          (lookup user_id (s.members group_id)))
      (λ s.
        post_system_message fresh now group_id requester_id
          (member_rejected (name requester_id) (name user_id)) (reject group_id user_id s))
      s
