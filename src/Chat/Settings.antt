-- ===== src/Chat/Settings.antt =====
-- src/modules/chat/usecase/group-permissions.ts: the settings of a group and what a member may do.
use chat_be.Base.{ℕ, Bool, true, false, not, ◌&&◌, ◌||◌, Option, none, some, ◌==◌, is_some}
use chat_be.Chat.Model.{
  ConversationMemberRole, ConversationMemberStatus, WhoCan, UtilityPermissions, GroupSettings,
  Conversation, ConversationMember, StoredUtilityPermissions, StoredSettings,
}

abbrev pub default_group_settings : GroupSettings
default_group_settings = record {
  allow_send_link = true;
  require_approval = false;
  allow_member_invite = true;
  who_can_send_messages = WhoCan.everybody;
  who_can_add_members = WhoCan.everybody;
  who_can_update_group_info = WhoCan.admins;
  who_can_pin_messages = WhoCan.admins;
  new_member_can_view_history = true;
  utility_permissions = record {
    poll = WhoCan.everybody;
    reminder = WhoCan.everybody;
    note = WhoCan.everybody;
  };
}

-- A stored setting wins over the default.
abbrev pub or_default : {A : Type 0} → Option A → A → A
or_default none a = a
or_default (some b) a = b

abbrev pub merge_utility_permissions : Option StoredUtilityPermissions → UtilityPermissions
merge_utility_permissions none = default_group_settings.utility_permissions
merge_utility_permissions (some p) = record {
  poll = or_default p.poll default_group_settings.utility_permissions.poll;
  reminder = or_default p.reminder default_group_settings.utility_permissions.reminder;
  note = or_default p.note default_group_settings.utility_permissions.note;
}

unfoldable pub normalize_group_settings : Option StoredSettings → GroupSettings
normalize_group_settings none = default_group_settings
normalize_group_settings (some s) = record {
  allow_send_link = or_default s.allow_send_link default_group_settings.allow_send_link;
  require_approval = or_default s.require_approval default_group_settings.require_approval;
  allow_member_invite = or_default s.allow_member_invite default_group_settings.allow_member_invite;
  who_can_send_messages =
      or_default s.who_can_send_messages default_group_settings.who_can_send_messages;
  who_can_add_members = or_default s.who_can_add_members default_group_settings.who_can_add_members;
  who_can_update_group_info =
      or_default s.who_can_update_group_info default_group_settings.who_can_update_group_info;
  who_can_pin_messages =
      or_default s.who_can_pin_messages default_group_settings.who_can_pin_messages;
  new_member_can_view_history =
      or_default s.new_member_can_view_history default_group_settings.new_member_can_view_history;
  utility_permissions = merge_utility_permissions s.utility_permissions;
}

abbrev pub is_active_status : ConversationMemberStatus → Bool
is_active_status ConversationMemberStatus.active = true
is_active_status ConversationMemberStatus.pending = false
is_active_status ConversationMemberStatus.rejected = false

abbrev pub is_active : ConversationMember → Bool
is_active m = not (is_some m.left_at) && is_active_status m.status

abbrev pub is_active_member : Option ConversationMember → Bool
is_active_member none = false
is_active_member (some m) = is_active m

abbrev pub is_owner_role : ConversationMemberRole → Bool
is_owner_role ConversationMemberRole.owner = true
is_owner_role _ = false

abbrev pub is_admin_role : ConversationMemberRole → Bool
is_admin_role ConversationMemberRole.admin = true
is_admin_role _ = false

-- `conversation.ownerId || conversation.createdBy`
abbrev pub owner_or_creator : Option ℕ → Option ℕ → Option ℕ
owner_or_creator none created_by = created_by
owner_or_creator (some u) created_by = some u

abbrev pub is_user : Option ℕ → ℕ → Bool
is_user none u = false
is_user (some v) u = u == v

abbrev pub owns : Option Conversation → ℕ → Bool
owns none u = false
owns (some c) u = is_user (owner_or_creator c.owner_id c.created_by) u

unfoldable pub is_owner_member : ConversationMember → Option Conversation → Bool
is_owner_member m conversation = is_owner_role m.role || owns conversation m.user_id

unfoldable pub is_group_manager : ConversationMember → Option Conversation → Bool
is_group_manager m conversation = is_owner_member m conversation || is_admin_role m.role

abbrev pub is_everybody : WhoCan → Bool
is_everybody WhoCan.everybody = true
is_everybody WhoCan.admins = false

unfoldable pub can_update_group_info :
    GroupSettings → ConversationMember → Option Conversation → Bool
can_update_group_info s m c = is_everybody s.who_can_update_group_info || is_group_manager m c

unfoldable pub can_pin_messages : GroupSettings → ConversationMember → Option Conversation → Bool
can_pin_messages s m c = is_everybody s.who_can_pin_messages || is_group_manager m c

unfoldable pub can_add_members : GroupSettings → ConversationMember → Option Conversation → Bool
can_add_members s m c =
    s.allow_member_invite && (is_everybody s.who_can_add_members || is_group_manager m c)

pub data GroupUtility : Type 0 where
  poll reminder note : GroupUtility

abbrev pub permission_for : GroupUtility → UtilityPermissions → WhoCan
permission_for GroupUtility.poll p = p.poll
permission_for GroupUtility.reminder p = p.reminder
permission_for GroupUtility.note p = p.note

unfoldable pub can_use_group_utility :
    GroupSettings → GroupUtility → ConversationMember → Option Conversation → Bool
can_use_group_utility s utility m c =
    is_everybody (permission_for utility s.utility_permissions) || is_group_manager m c
