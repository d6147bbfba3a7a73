-- ===== src/Chat/Group/Info.antt =====
-- src/modules/chat/usecase/update-group-settings.ts and update-group-info.ts.
use chat_be.Base.{ℕ, Bool, false, not, Option, none, some, [], ◌∷◌, lookup, insert}
use chat_be.Chat.Model.{
  Action, MessageType, UtilityPermissions, GroupSettings, StoredUtilityPermissions, StoredSettings,
  Conversation, ConversationMember, Store, ChatError, not_a_member, not_a_group, cannot_update_info,
  only_managers_settings, avatar_changed, group_renamed,
}
use chat_be.Chat.Settings.{
  or_default, normalize_group_settings, is_active_member, can_update_group_info,
}
use chat_be.Chat.Poll.Vote.{first_error}
use chat_be.Chat.Utility.Activity.{utility_message}
use chat_be.Chat.Group.Ownership.{is_group, update_conversation, post_system_message, on_group}
use chat_be.Chat.Group.Roster.{is_manager}
use chat_be.Chat.Group.Founding.{stored_settings}

-- The stored settings after a change: what is not given stays as `normalizeGroupSettings` reads it.
abbrev pub changed_permissions :
    Option StoredUtilityPermissions → UtilityPermissions → UtilityPermissions
changed_permissions none p = p
changed_permissions (some change) p = record {
  poll = or_default change.poll p.poll;
  reminder = or_default change.reminder p.reminder;
  note = or_default change.note p.note;
}

unfoldable pub changed_settings : StoredSettings → GroupSettings → GroupSettings
changed_settings change s = record {
  allow_send_link = or_default change.allow_send_link s.allow_send_link;
  require_approval = or_default change.require_approval s.require_approval;
  allow_member_invite = or_default change.allow_member_invite s.allow_member_invite;
  who_can_send_messages = or_default change.who_can_send_messages s.who_can_send_messages;
  who_can_add_members = or_default change.who_can_add_members s.who_can_add_members;
  who_can_update_group_info =
      or_default change.who_can_update_group_info s.who_can_update_group_info;
  who_can_pin_messages = or_default change.who_can_pin_messages s.who_can_pin_messages;
  new_member_can_view_history =
      or_default change.new_member_can_view_history s.new_member_can_view_history;
  utility_permissions = changed_permissions change.utility_permissions s.utility_permissions;
}

abbrev pub settings_guard : Conversation → Option ConversationMember → Option ChatError
settings_guard conversation member = first_error (
    (not (is_group conversation.type), not_a_group)
    ∷ (not (is_active_member member), not_a_member)
    ∷ (not (is_manager member conversation), only_managers_settings)
    ∷ [])

unfoldable pub update_group_settings : ℕ → ℕ → StoredSettings → Action (Unit {0})
update_group_settings group_id requester_id change s =
    on_group group_id (λ c. settings_guard c (lookup requester_id (s.members group_id)))
      (update_conversation group_id (λ c. record c {
        settings =
            some (stored_settings (changed_settings change (normalize_group_settings c.settings)));
      }))
      s

abbrev pub may_update_info : Option ConversationMember → Conversation → Bool
may_update_info none conversation = false
may_update_info (some m) conversation =
    can_update_group_info (normalize_group_settings conversation.settings) m (some conversation)

abbrev pub info_guard : Conversation → Option ConversationMember → Option ChatError
info_guard conversation member = first_error (
    (not (is_group conversation.type), not_a_group)
    ∷ (not (is_active_member member), not_a_member)
    ∷ (not (may_update_info member conversation), cannot_update_info)
    ∷ [])

abbrev pub given : Option ℕ → Option ℕ → Option ℕ
given none old = old
given (some a) old = some a

abbrev pub name_of : Option Conversation → Option ℕ
name_of none = none
name_of (some c) = c.name

unfoldable pub write_info : ℕ → Option ℕ → Option ℕ → Store → Store
write_info group_id new_name new_avatar =
    update_conversation group_id
      (λ c. record c { name = given new_name c.name; avatar_url = given new_avatar c.avatar_url })

-- The messages on the new name and the new avatar, the last of which is that of the conversation.
unfoldable pub announce_info :
    ℕ → ℕ → ℕ → Option ℕ → Option ℕ → ℕ → ℕ → Option ℕ → Option ℕ → Store → Store
announce_info fresh next_fresh now by old g u none none s = s
announce_info fresh next_fresh now by old g u (some new_name) none s =
    post_system_message fresh now g u (group_renamed by old new_name) s
announce_info fresh next_fresh now by old g u none (some new_avatar) s =
    post_system_message next_fresh now g u (avatar_changed by) s
announce_info fresh next_fresh now by old g u (some new_name) (some new_avatar) s =
    post_system_message next_fresh now g u (avatar_changed by) (record s {
      messages =
          insert fresh
            (utility_message fresh now g u MessageType.system (group_renamed by old new_name) none
              none)
            s.messages;
    })

unfoldable pub update_group_info :
    ℕ → ℕ → ℕ → (ℕ → Option ℕ) → ℕ → ℕ → Option ℕ → Option ℕ → Action (Unit {0})
update_group_info fresh next_fresh now name group_id requester_id new_name new_avatar s =
    on_group group_id (λ c. info_guard c (lookup requester_id (s.members group_id)))
      (λ s.
        announce_info fresh next_fresh now (name requester_id)
          (name_of (lookup group_id s.conversations)) group_id requester_id new_name new_avatar
          (write_info group_id new_name new_avatar s))
      s
