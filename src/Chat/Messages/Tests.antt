-- ===== src/Chat/Messages/Tests.antt =====
-- A message of member 2 in the private conversation 8, which its preview shows.
use chat_be.Base.{ℕ, ◌+◌, ◌≤◌, ◌≡◌, refl, ◌⊎◌, true, false, Option, none, some, [], ◌∷◌, lookup}
use chat_be.Chat.Model.{
  plain, throw, ok, ConversationType, ConversationMemberRole, ConversationMemberStatus, MessageType,
  Conversation, ConversationMember, MessageStatus, Message, Store, ChatError,
}
use chat_be.Chat.Settings.{is_active_member}
use chat_be.Chat.Utility.Activity.{pin_item_message}
use chat_be.Chat.Messages.Pins.{pinned_count, pin_guard, pin_message}
use chat_be.Chat.Messages.Actions.{is_gone, one_day_ms, revoke_guard, revoke_message}
use chat_be.Chat.Messages.Revoked.{IsRevoked, revoke_message-IsRevoked}

abbrev hello : Message
hello = record {
  id = 41;
  conversation_id = 8;
  sender_id = 2;
  type = MessageType.text;
  text = plain 1;
  poll_id = none;
  reminder_id = none;
  media = 9 ∷ [];
  links = [];
  message_status = MessageStatus.active;
  deleted_by = none;
  revoked_at = none;
  deleted_at = none;
  deleted_for_user_ids = [];
  edited_at = none;
  pinned = false;
  pinned_at = none;
  created_at = 100;
}

abbrev pair : Conversation
pair = record {
  id = 8;
  type = ConversationType.private;
  name = none;
  avatar_url = none;
  created_by = some 1;
  owner_id = none;
  admins = none;
  members_count = 2;
  settings = none;
  last_message = some (record {
    message_id = 41;
    sender_id = 2;
    type = MessageType.text;
    text_preview = plain 1;
    created_at = 100;
  });
  last_message_at = some 100;
}

abbrev friend : ConversationMember
friend = record {
  id = 52;
  user_id = 2;
  role = ConversationMemberRole.member;
  status = ConversationMemberStatus.active;
  joined_at = 1;
  left_at = none;
  unread_count = 0;
  archived = false;
  hidden = false;
  history_visible_from = none;
  last_activity_at = none;
}

abbrev chat : Store
chat = record {
  polls = [];
  conversations = (8, pair) ∷ [];
  members = λ c. (2, friend) ∷ [];
  messages = (41, hello) ∷ [];
  group_blocks = λ c. [];
  invite_links = [];
  reminders = [];
  notes = [];
}

abbrev nameless : ℕ → Option ℕ
nameless u = none

revoke_message-IsRevoked_example :
    ((e : ChatError) × (revoke_message 200 41 2 chat ≡ (throw e, chat)))
    ⊎ ((is_active_member (lookup 2 (chat.members 8)) ≡ true)
        × (◌≡◌ {A = ℕ} 2 2)
        × (is_gone hello ≡ false)
        × (200 ≤ hello.created_at + one_day_ms)
        × IsRevoked 41 hello chat (revoke_message 200 41 2 chat).1)
revoke_message-IsRevoked_example = revoke_message-IsRevoked 200 41 2 hello chat refl

revokes : (revoke_message 200 41 2 chat).0 ≡ ok tt
unfolding revoke_message revoke_guard
revokes = refl

pins_it : (pin_message 90 200 nameless 41 2 chat).0 ≡ ok tt
unfolding pin_message pin_guard
pins_it = refl

-- A message of a poll or a reminder is pinned whatever is pinned already.
abbrev pinned_row : ℕ → Message
pinned_row i = record hello { id = i; pinned = true }

abbrev crowded : Store
crowded = record chat {
  messages =
      (1, pinned_row 1)
      ∷ (2, pinned_row 2)
      ∷ (3, pinned_row 3)
      ∷ (4, pinned_row 4)
      ∷ (5, pinned_row 5)
      ∷ (41, hello)
      ∷ [];
}

pins_sixth : pinned_count 8 (pin_item_message true 200 (some 41) crowded).messages ≡ 6
pins_sixth = refl

refuses_sixth : (pin_message 90 200 nameless 41 2 crowded).0 ≡ throw ChatError.too_many_pinned
unfolding pin_message pin_guard
refuses_sixth = refl
