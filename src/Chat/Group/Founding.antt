-- ===== src/Chat/Group/Founding.antt =====
-- src/modules/chat/usecase/create-group.ts, without the parsing of the input and the undoing of writes
-- that fail. `row_id` gives the id of the row of a member.
use chat_be.Base.{
  ℕ, ◌+◌, false, Option, none, some, List, [], ◌∷◌, ◌==◌, if◌then◌else◌, length, Dict, insert,
}
use chat_be.Chat.Model.{
  Action, throw, ok, ConversationType, ConversationMemberRole, ConversationMemberStatus,
  MessageType, UtilityPermissions, GroupSettings, StoredUtilityPermissions, StoredSettings,
  Conversation, ConversationMember, Message, Store, invalid_members, group_created,
}
use chat_be.Chat.Access.{Directory, Validated, validate_create_group_members, valid, refused}
use chat_be.Chat.Settings.{default_group_settings}
use chat_be.Chat.Utility.Activity.{utility_message}
use chat_be.Chat.Group.Joining.{new_row}
use chat_be.Chat.Group.Adding.{insert_all}

-- `DEFAULT_GROUP_SETTINGS`, or any settings, as they are stored whole.
abbrev pub stored_utility_permissions : UtilityPermissions → StoredUtilityPermissions
stored_utility_permissions p = record {
  poll = some p.poll;
  reminder = some p.reminder;
  note = some p.note;
}

abbrev pub stored_settings : GroupSettings → StoredSettings
stored_settings s = record {
  allow_send_link = some s.allow_send_link;
  require_approval = some s.require_approval;
  allow_member_invite = some s.allow_member_invite;
  who_can_send_messages = some s.who_can_send_messages;
  who_can_add_members = some s.who_can_add_members;
  who_can_update_group_info = some s.who_can_update_group_info;
  who_can_pin_messages = some s.who_can_pin_messages;
  new_member_can_view_history = some s.new_member_can_view_history;
  utility_permissions = some (stored_utility_permissions s.utility_permissions);
}

abbrev pub founder_row : ℕ → ℕ → ℕ → ConversationMember
founder_row row_id now creator_id = record {
  id = row_id;
  user_id = creator_id;
  role = ConversationMemberRole.owner;
  status = ConversationMemberStatus.active;
  joined_at = now;
  left_at = none;
  unread_count = 0;
  archived = false;
  hidden = false;
  history_visible_from = none;
  last_activity_at = some now;
}

abbrev pub founding_rows : (ℕ → ℕ) → ℕ → ℕ → List ℕ → Dict ConversationMember
founding_rows row_id now creator_id ids =
    insert_all (λ u. new_row (row_id u) u ConversationMemberStatus.active now) ids
      ((creator_id, founder_row (row_id creator_id) now creator_id) ∷ [])

abbrev pub founded_conversation : ℕ → ℕ → ℕ → Option ℕ → Option ℕ → ℕ → Message → Conversation
founded_conversation now group_id creator_id group_name avatar_url count message = record {
  id = group_id;
  type = ConversationType.group;
  name = group_name;
  avatar_url = avatar_url;
  created_by = some creator_id;
  owner_id = some creator_id;
  admins = some [];
  members_count = count;
  settings = some (stored_settings default_group_settings);
  last_message = some (record {
    message_id = message.id;
    sender_id = creator_id;
    type = MessageType.system;
    text_preview = message.text;
    created_at = now;
  });
  last_message_at = some now;
}

-- The writes; the id of the group is new, so that it has no members before.
unfoldable pub found_group :
    ℕ → (ℕ → ℕ) → ℕ → (ℕ → Option ℕ) → ℕ → ℕ → Option ℕ → Option ℕ → List ℕ → Store → Store
found_group fresh row_id now name group_id creator_id group_name avatar_url ids s =
    let message =
      utility_message fresh now group_id creator_id MessageType.system
        (group_created (name creator_id)) none none in
    record s {
      conversations =
          insert group_id
            (founded_conversation now group_id creator_id group_name avatar_url (length ids + 1)
              message)
            s.conversations;
      members = λ c. if c == group_id then founding_rows row_id now creator_id ids else s.members c;
      messages = insert fresh message s.messages;
    }

abbrev pub found_valid :
    ℕ → (ℕ → ℕ) → ℕ → (ℕ → Option ℕ) → ℕ → ℕ → Option ℕ → Option ℕ → Validated → Action (Unit {0})
found_valid fresh row_id now name group_id creator_id group_name avatar_url (refused e) s =
    (throw (invalid_members e), s)
found_valid fresh row_id now name group_id creator_id group_name avatar_url (valid ids) s =
    (ok tt, found_group fresh row_id now name group_id creator_id group_name avatar_url ids s)

unfoldable pub create_group :
    ℕ
    → (ℕ → ℕ)
    → ℕ
    → (ℕ → Option ℕ)
    → Directory
    → ℕ
    → ℕ
    → Option ℕ
    → Option ℕ
    → List ℕ
    → Action (Unit {0})
create_group fresh row_id now name dir group_id creator_id group_name avatar_url ids =
    found_valid fresh row_id now name group_id creator_id group_name avatar_url
      (validate_create_group_members dir creator_id ids)
