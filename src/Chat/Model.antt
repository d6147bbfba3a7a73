-- ===== src/Chat/Model.antt =====
-- src/modules/chat/model/model.ts: the data of conversations, members, messages and polls. A date
-- is a number and an optional one an Option; of each row the fields are kept that the modelled code
-- reads or writes, save those of the pin that hides a conversation (hiddenAt, hiddenPinHash,
-- hiddenUserIds), the `pinned` of a member and `updatedAt`, which no modelled code reads.
use chat_be.Base.{ℕ, Bool, Option, List, Dict}
use chat_be.Chat.Access.{AccessError}

pub data ConversationType : Type 0 where
  private group : ConversationType

pub data ConversationMemberRole : Type 0 where
  owner member admin : ConversationMemberRole

pub data ConversationMemberStatus : Type 0 where
  active pending rejected : ConversationMemberStatus

pub data MessageType : Type 0 where
  text image file link video voice : MessageType
  sticker gif call system profile_card poll reminder : MessageType

-- The texts of the messages that the code writes; `plain` is any other. A display name that is
-- missing stands for the words Unknown User.
pub data MessageText : Type 0 where
  plain : ℕ → MessageText
  one_voted : (question : ℕ) → MessageText
  many_voted : (count question : ℕ) → MessageText
  owner_transferred : (by new_owner : Option ℕ) → MessageText
  admin_set : (by target : Option ℕ) → MessageText
  admin_removed : (by target : Option ℕ) → MessageText
  member_left : (name : Option ℕ) → MessageText
  owner_left : (name new_owner : Option ℕ) → MessageText
  tombstone : MessageText
  message_pinned message_unpinned : (by : Option ℕ) → MessageText
  group_created avatar_changed : (by : Option ℕ) → MessageText
  group_renamed : (by old : Option ℕ) (new : ℕ) → MessageText
  left_by_self : (name : Option ℕ) → MessageText
  member_removed member_blocked : (by target : Option ℕ) → MessageText
  member_approved member_rejected : (by target : Option ℕ) → MessageText
  joined_by_invite : (name : Option ℕ) → MessageText
  poll_opened poll_locked poll_over poll_pinned poll_unpinned : (question : ℕ) → MessageText
  option_added : (text question : ℕ) → MessageText
  reminder_set reminder_changed reminder_dropped : (title : ℕ) → MessageText
  reminder_pinned reminder_unpinned reminder_now : (title : ℕ) → MessageText
  reminder_soon : (title remind_at : ℕ) → MessageText
  members_added : (by : Option ℕ) (names : List (Option ℕ)) → MessageText

pub record LastMessage : Type 0 where
  pub message_id : ℕ
  pub sender_id : ℕ
  pub type : MessageType
  pub text_preview : MessageText
  pub created_at : ℕ

pub data WhoCan : Type 0 where
  everybody admins : WhoCan

pub record UtilityPermissions : Type 0 where
  pub poll : WhoCan
  pub reminder : WhoCan
  pub note : WhoCan

pub record GroupSettings : Type 0 where
  pub allow_send_link : Bool
  pub require_approval : Bool
  pub allow_member_invite : Bool
  pub who_can_send_messages : WhoCan
  pub who_can_add_members : WhoCan
  pub who_can_update_group_info : WhoCan
  pub who_can_pin_messages : WhoCan
  pub new_member_can_view_history : Bool
  pub utility_permissions : UtilityPermissions

-- The settings as they are stored: each may be missing.
pub record StoredUtilityPermissions : Type 0 where
  pub poll : Option WhoCan
  pub reminder : Option WhoCan
  pub note : Option WhoCan

pub record StoredSettings : Type 0 where
  pub allow_send_link : Option Bool
  pub require_approval : Option Bool
  pub allow_member_invite : Option Bool
  pub who_can_send_messages : Option WhoCan
  pub who_can_add_members : Option WhoCan
  pub who_can_update_group_info : Option WhoCan
  pub who_can_pin_messages : Option WhoCan
  pub new_member_can_view_history : Option Bool
  pub utility_permissions : Option StoredUtilityPermissions

pub record Conversation : Type 0 where
  pub id : ℕ
  pub type : ConversationType
  pub name : Option ℕ
  pub avatar_url : Option ℕ
  pub created_by : Option ℕ
  pub owner_id : Option ℕ
  pub admins : Option (List ℕ)
  pub members_count : ℕ
  pub settings : Option StoredSettings
  pub last_message : Option LastMessage
  pub last_message_at : Option ℕ

pub record ConversationMember : Type 0 where
  pub id : ℕ
  pub user_id : ℕ
  pub role : ConversationMemberRole
  pub status : ConversationMemberStatus
  pub joined_at : ℕ
  pub left_at : Option ℕ
  pub unread_count : ℕ
  pub archived : Bool
  pub hidden : Bool
  pub history_visible_from : Option ℕ
  pub last_activity_at : Option ℕ

pub data MessageStatus : Type 0 where
  active revoked : MessageStatus

-- `systemAction` is left out: the text tells it. Media and links are ids. No modelled handler reads or
-- writes what is quoted, forwarded or mentioned, the card of a profile and the metadata of a call, so
-- they are left out; a message that is revoked keeps them.
pub record Message : Type 0 where
  pub id : ℕ
  pub conversation_id : ℕ
  pub sender_id : ℕ
  pub type : MessageType
  pub text : MessageText
  pub poll_id : Option ℕ
  pub reminder_id : Option ℕ
  pub media : List ℕ
  pub links : List ℕ
  pub message_status : MessageStatus
  pub deleted_by : Option ℕ
  pub revoked_at : Option ℕ
  pub deleted_at : Option ℕ
  pub deleted_for_user_ids : List ℕ
  pub edited_at : Option ℕ
  pub pinned : Bool
  pub pinned_at : Option ℕ
  pub created_at : ℕ

pub data PollStatus : Type 0 where
  active closed : PollStatus

pub record PollOption : Type 0 where
  pub id : ℕ
  pub text : ℕ
  pub vote_count : ℕ
  pub voted_user_ids : List ℕ
  pub added_by : Option ℕ

pub record Poll : Type 0 where
  pub id : ℕ
  pub conversation_id : ℕ
  pub question : ℕ
  pub options : List PollOption
  pub created_by : ℕ
  pub is_multiple_choice : Bool
  pub allow_add_option : Bool
  pub allow_change_vote : Bool
  pub show_results_before_close : Bool
  pub hide_voters : Bool
  pub status : PollStatus
  pub expires_at : Option ℕ
  pub total_votes : ℕ
  pub last_vote_activity_at : Option ℕ
  pub last_vote_activity_message_id : Option ℕ
  pub vote_activity_count : ℕ
  pub message_id : Option ℕ
  pub closed_at : Option ℕ
  pub closed_by : Option ℕ
  pub pinned : Bool
  pub pinned_at : Option ℕ
  pub pinned_by : Option ℕ

pub record GroupBlock : Type 0 where
  pub conversation_id : ℕ
  pub user_id : ℕ
  pub blocked_by : ℕ
  pub created_at : ℕ

pub data GroupInviteLinkStatus : Type 0 where
  active revoked : GroupInviteLinkStatus

pub record GroupInviteLink : Type 0 where
  pub token : ℕ
  pub conversation_id : ℕ
  pub status : GroupInviteLinkStatus
  pub created_by : ℕ
  pub revoked_by : Option ℕ
  pub created_at : ℕ
  pub revoked_at : Option ℕ
  pub expires_at : Option ℕ

pub data GroupReminderStatus : Type 0 where
  active done cancelled : GroupReminderStatus

-- `never` is NONE.
pub data GroupReminderRepeatRule : Type 0 where
  never daily weekly monthly : GroupReminderRepeatRule

pub record GroupReminder : Type 0 where
  pub id : ℕ
  pub conversation_id : ℕ
  pub message_id : Option ℕ
  pub title : ℕ
  pub description : Option ℕ
  pub remind_at : ℕ
  pub repeat_rule : GroupReminderRepeatRule
  pub notify_before_minutes : ℕ
  pub next_notify_at : Option ℕ
  pub last_notified_at : Option ℕ
  pub status : GroupReminderStatus
  pub pinned : Bool
  pub pinned_at : Option ℕ
  pub pinned_by : Option ℕ
  pub created_by : ℕ

pub record GroupNote : Type 0 where
  pub id : ℕ
  pub conversation_id : ℕ
  pub title : ℕ
  pub content : ℕ
  pub created_by : ℕ
  pub updated_by : Option ℕ

-- The tables: the members and the blocks of a conversation by the user.
pub record Store : Type 0 where
  pub polls : Dict Poll
  pub conversations : Dict Conversation
  pub members : ℕ → Dict ConversationMember
  pub messages : Dict Message
  pub group_blocks : ℕ → Dict GroupBlock
  pub invite_links : Dict GroupInviteLink
  pub reminders : Dict GroupReminder
  pub notes : Dict GroupNote

pub data ChatError : Type 0 where
  poll_not_found poll_expired poll_closed not_a_member : ChatError
  poll_has_no_options option_not_found only_one_option cannot_change_vote : ChatError
  group_not_found not_a_group only_owner : ChatError
  target_not_member target_left cannot_change_owner : ChatError
  invalid_new_owner no_active_admin new_owner_required : ChatError
  only_managers_remove only_managers_approve only_managers_reject : ChatError
  only_managers_block only_managers_unblock only_managers_dissolve only_managers_add : ChatError
  cannot_remove_owner cannot_block_owner : ChatError
  member_not_found already_active was_rejected already_rejected active_not_rejected : ChatError
  link_not_found link_revoked link_expired : ChatError
  message_not_found not_sender already_deleted recall_time_expired : ChatError
  cannot_edit edit_time_expired not_admin already_pinned not_pinned too_many_pinned : ChatError
  no_active_link cannot_add_members cannot_update_info only_managers_settings : ChatError
  invites_disabled blocked_from_group already_blocked not_blocked : ChatError
  invalid_members : AccessError → ChatError
  only_managers_poll only_managers_poll_action too_few_options : ChatError
  adding_not_allowed option_exists : ChatError
  reminder_not_found note_not_found only_managers_utility : ChatError
  only_managers_item only_creator_or_managers : ChatError
  group_blocked already_member : ℕ → ChatError

pub data Result (A : Type 0) : Type 0 where
  ok : A → Result A
  throw : ChatError → Result A

abbrev pub Action : Type 0 → Type 0
Action A = Store → Result A × Store
