-- ===== src/Chat/Group/Ownership.antt =====
-- src/modules/chat/usecase/transfer-owner.ts and set-admin.ts. `fresh` is the id of the message that
-- v7() gives, `now` the time of the call, and `name` the display name of a user, if he is found.
use chat_be.Base.{
  ℕ, Bool, true, false, not, ◌&&◌, Option, none, some, List, [], ◌∷◌, ◌++◌, ◌==◌, if◌then◌else◌,
  is_some, filter, unique, Dict, lookup, insert, map_values, adjust,
}
use chat_be.Chat.Model.{
  ConversationType, ConversationMemberRole, MessageType, MessageText, Message, Conversation,
  ConversationMember, Store, ChatError, group_not_found, not_a_group, only_owner, target_not_member,
  target_left, cannot_change_owner, owner_transferred, admin_set, admin_removed, Action, ok, throw,
  MessageStatus,
}
use chat_be.Chat.Poll.Vote.{guarded, first_error, set_last_message}
use chat_be.Chat.Settings.{is_active, is_active_member, is_owner_member}

abbrev pub is_group : ConversationType → Bool
is_group ConversationType.group = true
is_group ConversationType.private = false

-- `touchActivityForConversation`, on a member
abbrev pub touch : ℕ → ConversationMember → ConversationMember
touch now m = if is_some m.left_at then m else record m { last_activity_at = some now }

abbrev pub update_members : ℕ → (Dict ConversationMember → Dict ConversationMember) → Store → Store
update_members conversation_id f s = record s {
  members = λ c. if c == conversation_id then f (s.members c) else s.members c;
}

-- `conversationMemberCommandRepo.update(member.id, …)`: a member is found by his user
abbrev pub update_member : ℕ → ℕ → (ConversationMember → ConversationMember) → Store → Store
update_member conversation_id user_id f = update_members conversation_id (adjust user_id f)

abbrev pub set_role : ConversationMemberRole → ConversationMember → ConversationMember
set_role role m = record m { role = role }

abbrev pub update_conversation : ℕ → (Conversation → Conversation) → Store → Store
update_conversation conversation_id f s = record s {
  conversations = adjust conversation_id f s.conversations;
}

-- The message of the system at the end of each handler, and what follows from it.
unfoldable pub post_system_message : ℕ → ℕ → ℕ → ℕ → MessageText → Store → Store
post_system_message fresh now conversation_id sender_id text s =
    let message : Message = record {
      id = fresh;
      conversation_id = conversation_id;
      sender_id = sender_id;
      type = MessageType.system;
      text = text;
      poll_id = none;
      reminder_id = none;
      media = [];
      links = [];
      message_status = MessageStatus.active;
      deleted_by = none;
      revoked_at = none;
      deleted_at = none;
      deleted_for_user_ids = [];
      edited_at = none;
      pinned = false;
      pinned_at = none;
      created_at = now;
    } in
    record s {
      messages = insert fresh message s.messages;
      conversations =
          set_last_message message (lookup conversation_id s.conversations) s.conversations;
      members =
          λ c. if c == conversation_id then map_values (touch now) (s.members c) else s.members c;
    }

abbrev pub admins_of : Option (List ℕ) → List ℕ
admins_of none = []
admins_of (some admins) = admins

-- An active member who owns the group.
abbrev pub is_active_owner : Option ConversationMember → Conversation → Bool
is_active_owner none conversation = false
is_active_owner (some m) conversation = is_active m && is_owner_member m (some conversation)

abbrev pub is_owner_of : Option ConversationMember → Conversation → Bool
is_owner_of none conversation = false
is_owner_of (some m) conversation = is_owner_member m (some conversation)

unfoldable pub transfer_guard :
    Conversation → Option ConversationMember → Option ConversationMember → Option ChatError
transfer_guard conversation requester target = first_error (
    (not (is_group conversation.type), not_a_group)
    ∷ (not (is_active_owner requester conversation), only_owner)
    ∷ (not (is_some target), target_not_member)
    ∷ (not (is_active_member target), target_left)
    ∷ [])

unfoldable pub hand_over : ℕ → ℕ → ℕ → Store → Store
hand_over group_id requester_id new_owner_id s =
    update_member group_id new_owner_id (set_role ConversationMemberRole.owner) (
      update_member group_id requester_id (set_role ConversationMemberRole.admin) (
        update_conversation group_id
          (λ c. record c {
            owner_id = some new_owner_id;
            admins = some (
                unique (
                  filter (λ u. not (u == new_owner_id)) (admins_of c.admins) ++ requester_id ∷ []));
          })
          s))

-- A handler on a conversation that must exist; what it returns is the conversation read again.
abbrev pub on_group : ℕ → (Conversation → Option ChatError) → (Store → Store) → Action (Unit {0})
on_group group_id guard act s = elim (lookup group_id s.conversations) [
  | none ↦ (throw group_not_found, s)
  | some c ↦ guarded (guard c) (λ s. (ok tt, act s)) s
]

unfoldable pub transfer_owner : ℕ → ℕ → (ℕ → Option ℕ) → ℕ → ℕ → ℕ → Action (Unit {0})
transfer_owner fresh now name group_id requester_id new_owner_id s =
    on_group group_id
      (λ c.
        transfer_guard c (lookup requester_id (s.members group_id))
          (lookup new_owner_id (s.members group_id)))
      (λ s.
        post_system_message fresh now group_id requester_id
          (owner_transferred (name requester_id) (name new_owner_id))
          (hand_over group_id requester_id new_owner_id s))
      s

unfoldable pub set_admin_guard :
    Conversation → Option ConversationMember → Option ConversationMember → Option ChatError
set_admin_guard conversation requester target = first_error (
    (not (is_group conversation.type), not_a_group)
    ∷ (not (is_active_owner requester conversation), only_owner)
    ∷ (not (is_some target), target_not_member)
    ∷ (not (is_active_member target), target_left)
    ∷ (is_owner_of target conversation, cannot_change_owner)
    ∷ [])

abbrev pub next_admins : Bool → ℕ → List ℕ → List ℕ
next_admins true target_id admins = unique (admins ++ target_id ∷ [])
next_admins false target_id admins = filter (λ u. not (u == target_id)) admins

abbrev pub admin_role : Bool → ConversationMemberRole
admin_role true = ConversationMemberRole.admin
admin_role false = ConversationMemberRole.member

abbrev pub admin_text : Bool → Option ℕ → Option ℕ → MessageText
admin_text true by target = admin_set by target
admin_text false by target = admin_removed by target

unfoldable pub change_admin : ℕ → ℕ → Bool → Store → Store
change_admin group_id target_id is_admin s =
    update_conversation group_id
      (λ c. record c { admins = some (next_admins is_admin target_id (admins_of c.admins)) })
      (update_member group_id target_id (set_role (admin_role is_admin)) s)

unfoldable pub set_admin : ℕ → ℕ → (ℕ → Option ℕ) → ℕ → ℕ → ℕ → Bool → Action (Unit {0})
set_admin fresh now name group_id requester_id target_id is_admin s =
    on_group group_id
      (λ c.
        set_admin_guard c (lookup requester_id (s.members group_id))
          (lookup target_id (s.members group_id)))
      (λ s.
        post_system_message fresh now group_id requester_id
          (admin_text is_admin (name requester_id) (name target_id))
          (change_admin group_id target_id is_admin s))
      s
