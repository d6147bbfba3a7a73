-- ===== src/Chat/Messages/Pins.antt =====
-- src/modules/chat/usecase/pin-message.ts and unpin-message.ts, without the parsing of the input.
-- No message of the model expires.
use chat_be.Base.{
  ℕ, ◌+◌, Bool, true, false, not, ◌&&◌, Option, none, some, [], ◌∷◌, leb, ◌==◌, if◌then◌else◌,
  is_some, Dict, lookup, insert, adjust,
}
use chat_be.Chat.Model.{
  Action, throw, ok, MessageType, MessageText, StoredSettings, Conversation, ConversationMember,
  Message, Store, ChatError, not_a_member, message_not_found, not_admin, already_pinned, not_pinned,
  too_many_pinned, message_pinned, message_unpinned,
}
use chat_be.Chat.Settings.{normalize_group_settings, is_active_member, can_pin_messages}
use chat_be.Chat.Poll.Vote.{first_error, guarded}
use chat_be.Chat.Utility.Activity.{utility_message}
use chat_be.Chat.Group.Ownership.{is_group, post_system_message}
use chat_be.Chat.Messages.Actions.{is_gone}

abbrev pub max_pinned_messages : ℕ
max_pinned_messages = 5

-- `findPinnedMessages`
abbrev pub is_pinned_in : ℕ → Message → Bool
is_pinned_in conversation_id m =
    m.conversation_id == conversation_id && (m.pinned && not (is_gone m))

abbrev pub pinned_count : ℕ → Dict Message → ℕ
pinned_count conversation_id [] = 0
pinned_count conversation_id ((i, m) ∷ d) =
    (if is_pinned_in conversation_id m then 1 else 0) + pinned_count conversation_id d

abbrev pub is_group_conversation : Option Conversation → Bool
is_group_conversation none = false
is_group_conversation (some c) = is_group c.type

abbrev pub settings_of : Option Conversation → Option StoredSettings
settings_of none = none
settings_of (some c) = c.settings

abbrev pub member_may_pin : Option ConversationMember → Option Conversation → Bool
member_may_pin none conversation = false
member_may_pin (some m) conversation =
    can_pin_messages (normalize_group_settings (settings_of conversation)) m conversation

unfoldable pub pin_guard :
    Message → Option ConversationMember → Option Conversation → ℕ → Option ChatError
pin_guard message member conversation pinned = first_error (
    (is_gone message, message_not_found)
    ∷ (not (is_active_member member), not_a_member)
    ∷ (is_group_conversation conversation && not (member_may_pin member conversation), not_admin)
    ∷ (message.pinned, already_pinned)
    ∷ (leb max_pinned_messages pinned, too_many_pinned)
    ∷ [])

-- The message of the system, and what follows from it if the conversation is there.
unfoldable pub post_pin_message : ℕ → ℕ → ℕ → ℕ → MessageText → Store → Store
post_pin_message fresh now conversation_id user_id text s =
    if is_some (lookup conversation_id s.conversations)
    then post_system_message fresh now conversation_id user_id text s
    else record s {
      messages =
          insert fresh
            (utility_message fresh now conversation_id user_id MessageType.system text none none)
            s.messages;
    }

unfoldable pub pin_message : ℕ → ℕ → (ℕ → Option ℕ) → ℕ → ℕ → Action (Unit {0})
pin_message fresh now name message_id user_id s = elim (lookup message_id s.messages) [
  | none ↦ (throw message_not_found, s)
  | some m ↦
      guarded
        (pin_guard m (lookup user_id (s.members m.conversation_id))
          (lookup m.conversation_id s.conversations) (pinned_count m.conversation_id s.messages))
        (λ s. (
          ok tt,
          post_pin_message fresh now m.conversation_id user_id (message_pinned (name user_id))
              (record s {
                messages =
                    adjust message_id (λ m. record m { pinned = true; pinned_at = some now })
                      s.messages;
              }),
        ))
        s
]

unfoldable pub unpin_guard :
    Message → Option ConversationMember → Option Conversation → Option ChatError
unpin_guard message member conversation = first_error (
    (not (is_active_member member), not_a_member)
    ∷ (is_gone message, message_not_found)
    ∷ (is_group_conversation conversation && not (member_may_pin member conversation), not_admin)
    ∷ (not message.pinned, not_pinned)
    ∷ [])

unfoldable pub unpin_message : ℕ → ℕ → (ℕ → Option ℕ) → ℕ → ℕ → Action (Unit {0})
unpin_message fresh now name message_id user_id s = elim (lookup message_id s.messages) [
  | none ↦ (throw message_not_found, s)
  | some m ↦
      guarded
        (unpin_guard m (lookup user_id (s.members m.conversation_id))
          (lookup m.conversation_id s.conversations))
        (λ s. (
          ok tt,
          post_pin_message fresh now m.conversation_id user_id (message_unpinned (name user_id))
              (record s {
                messages =
                    adjust message_id (λ m. record m { pinned = false; pinned_at = none })
                      s.messages;
              }),
        ))
        s
]
