-- ===== src/Chat/Utility/Activity.antt =====
-- src/modules/chat/usecase/utility-messages.ts: the messages that handlers of utilities write. That
-- which counts as unread is in Poll/Vote.
use chat_be.Base.{
  ℕ, Bool, false, Option, none, some, ◌==◌, if◌then◌else◌, lookup, insert, map_values, adjust, [],
}
use chat_be.Chat.Model.{MessageType, MessageText, Message, Store, MessageStatus}
use chat_be.Chat.Poll.Vote.{set_last_message}
use chat_be.Chat.Group.Ownership.{touch}

-- A message as `createConversationActivityMessage` makes it.
abbrev pub utility_message :
    ℕ → ℕ → ℕ → ℕ → MessageType → MessageText → Option ℕ → Option ℕ → Message
utility_message fresh now conversation_id sender_id type text poll_id reminder_id = record {
  id = fresh;
  conversation_id = conversation_id;
  sender_id = sender_id;
  type = type;
  text = text;
  poll_id = poll_id;
  reminder_id = reminder_id;
  media = [];
  links = [];
  message_status = MessageStatus.active;
  deleted_by = none;
  revoked_at = none;
  deleted_at = none;
  deleted_for_user_ids = [];
  edited_at = none;
  pinned = false;
  pinned_at = none;
  created_at = now;
}

-- `createConversationActivityMessage` with `incrementUnread: false`
unfoldable pub create_quiet_message : Message → Store → Store
create_quiet_message message s = record s {
  messages = insert message.id message s.messages;
  conversations =
      set_last_message message (lookup message.conversation_id s.conversations) s.conversations;
  members = λ c.
      if c == message.conversation_id
      then map_values (touch message.created_at) (s.members c)
      else s.members c;
}

abbrev pub adjust_message : Option ℕ → (Message → Message) → Store → Store
adjust_message none f s = s
adjust_message (some id) f s = record s { messages = adjust id f s.messages }

-- The update of the message of an item that is pinned or unpinned.
abbrev pub pin_item_message : Bool → ℕ → Option ℕ → Store → Store
pin_item_message pinned now id =
    adjust_message id
      (λ m. record m { pinned = pinned; pinned_at = if pinned then some now else none })
