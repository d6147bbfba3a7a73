-- ===== src/Chat/Messages/Actions.antt =====
-- src/modules/chat/usecase/revoke-message.ts, delete-message-for-everyone.ts,
-- delete-message-for-me.ts, delete-messages-bulk.ts and edit-message.ts, without the parsing of the
-- input and the table of classifications. `now` is the time of the call.
use chat_be.Base.{
  ℕ, ◌+◌, ◌*◌, Bool, true, false, not, ◌&&◌, ◌||◌, Option, none, some, List, [], ◌∷◌, ◌++◌, ltb,
  ◌==◌, if◌then◌else◌, is_some, length, filter, includes, unique, Dict, lookup, adjust,
}
use chat_be.Chat.Model.{
  plain, Action, throw, ok, MessageType, LastMessage, Conversation, ConversationMember,
  MessageStatus, Message, Store, ChatError, not_a_member, message_not_found, not_sender,
  already_deleted, recall_time_expired, cannot_edit, edit_time_expired, tombstone,
}
use chat_be.Chat.Settings.{or_default, is_active_member}
use chat_be.Chat.Poll.Vote.{first_error, guarded}

abbrev pub is_revoked_message : MessageStatus → Bool
is_revoked_message MessageStatus.revoked = true
is_revoked_message MessageStatus.active = false

-- `message.deletedAt || message.messageStatus === REVOKED`
abbrev pub is_gone : Message → Bool
is_gone m = is_some m.deleted_at || is_revoked_message m.message_status

abbrev pub one_day_ms : ℕ
one_day_ms = 24 * 60 * 60 * 1000

-- `now - createdAt > limit`, both as times in milliseconds
abbrev pub is_too_late : ℕ → ℕ → Message → Bool
is_too_late now limit m = ltb (m.created_at + limit) now

-- A handler on a message that must exist, with the member of its conversation who acts.
abbrev pub on_message :
    ℕ
    → ℕ
    → (Message → Option ConversationMember → Option ChatError)
    → (Message → Store → Store)
    → Action (Unit {0})
on_message message_id user_id guard act s = elim (lookup message_id s.messages) [
  | none ↦ (throw message_not_found, s)
  | some m ↦
      guarded (guard m (lookup user_id (s.members m.conversation_id))) (λ s. (ok tt, act m s)) s
]

unfoldable pub revoke_guard : ℕ → ℕ → Message → Option ConversationMember → Option ChatError
revoke_guard now user_id message member = first_error (
    (not (is_active_member member), not_a_member)
    ∷ (not (message.sender_id == user_id), not_sender)
    ∷ (is_gone message, already_deleted)
    ∷ (is_too_late now one_day_ms message, recall_time_expired)
    ∷ [])

unfoldable pub revoked_message : ℕ → ℕ → Message → Message
revoked_message now user_id m = record m {
  text = tombstone;
  media = [];
  links = [];
  message_status = MessageStatus.revoked;
  deleted_by = some user_id;
  revoked_at = some now;
  deleted_at = some now;
}

-- The preview of the conversation, if it shows the message.
abbrev pub shows_message : ℕ → Option LastMessage → Bool
shows_message id none = false
shows_message id (some l) = l.message_id == id

abbrev pub with_tombstone : Message → Conversation → Conversation
with_tombstone m c =
    if shows_message m.id c.last_message
    then record c {
      last_message = some (record {
        message_id = m.id;
        sender_id = m.sender_id;
        type = m.type;
        text_preview = tombstone;
        created_at = m.created_at;
      });
      last_message_at = some m.created_at;
    }
    else c

unfoldable pub write_revoked : ℕ → ℕ → ℕ → Message → Store → Store
write_revoked now message_id user_id m s = record s {
  messages = adjust message_id (revoked_message now user_id) s.messages;
  conversations = adjust m.conversation_id (with_tombstone m) s.conversations;
}

-- `revokeMessage`; `deleteMessageForEveryone` does the same.
unfoldable pub revoke_message : ℕ → ℕ → ℕ → Action (Unit {0})
revoke_message now message_id user_id =
    on_message message_id user_id (revoke_guard now user_id) (write_revoked now message_id user_id)

unfoldable pub delete_message_for_everyone : ℕ → ℕ → ℕ → Action (Unit {0})
delete_message_for_everyone now message_id user_id =
    on_message message_id user_id (revoke_guard now user_id) (write_revoked now message_id user_id)

abbrev pub hidden_for : ℕ → Message → Message
hidden_for user_id m =
    if includes user_id m.deleted_for_user_ids
    then m
    else record m { deleted_for_user_ids = unique m.deleted_for_user_ids ++ user_id ∷ [] }

unfoldable pub delete_message_for_me : ℕ → ℕ → Action (Unit {0})
delete_message_for_me message_id user_id =
    on_message message_id user_id
      (λ m member. first_error ((not (is_active_member member), not_a_member) ∷ []))
      (λ m s. record s { messages = adjust message_id (hidden_for user_id) s.messages })

-- The messages that a bulk deletion by ids is about: those of the user in the conversation.
abbrev pub is_own_in : ℕ → ℕ → Option Message → Bool
is_own_in conversation_id user_id none = false
is_own_in conversation_id user_id (some m) =
    m.conversation_id == conversation_id && m.sender_id == user_id

abbrev pub own_ids : ℕ → ℕ → List ℕ → Dict Message → List ℕ
own_ids conversation_id user_id ids messages =
    filter (λ i. is_own_in conversation_id user_id (lookup i messages)) ids

-- Each message is written with the ids that were read before, and the user after them.
abbrev pub hide_all : ℕ → List ℕ → Dict Message → Dict Message → Dict Message
hide_all user_id [] read messages = messages
hide_all user_id (i ∷ ids) read messages = hide_all user_id ids read (
    adjust i
      (λ m. record m {
        deleted_for_user_ids = elim (lookup i read) [
          | none ↦ m.deleted_for_user_ids
          | some old ↦ old.deleted_for_user_ids ++ user_id ∷ []
        ];
      })
      messages)

-- By ids, of which there is at least one; what it returns is how many. Without ids, when the source
-- lists the messages of a span of time, it is not modelled.
unfoldable pub delete_messages_bulk : ℕ → ℕ → ℕ → List ℕ → Action ℕ
delete_messages_bulk conversation_id user_id message_id message_ids s =
    let own = own_ids conversation_id user_id (message_id ∷ message_ids) s.messages in
    if is_some (lookup user_id (s.members conversation_id))
    then (ok (length own), record s { messages = hide_all user_id own s.messages s.messages })
    else (throw not_a_member, s)

abbrev pub is_text : MessageType → Bool
is_text MessageType.text = true
is_text _ = false

-- `EDIT_TIME_LIMIT_MS`
abbrev pub edit_time_limit_ms : ℕ
edit_time_limit_ms = 15 * 60 * 1000

unfoldable pub edit_guard :
    ℕ → ℕ → Option ℕ → Message → Option ConversationMember → Option ChatError
edit_guard now user_id time_limit_ms message member = first_error (
    (not (is_active_member member), not_a_member)
    ∷ (not (message.sender_id == user_id), not_sender)
    ∷ (is_gone message, already_deleted)
    ∷ (not (is_text message.type), cannot_edit)
    ∷ (is_too_late now (or_default time_limit_ms edit_time_limit_ms) message, edit_time_expired)
    ∷ [])

unfoldable pub edit_message : ℕ → ℕ → ℕ → ℕ → Option ℕ → Action (Unit {0})
edit_message now message_id user_id text time_limit_ms =
    on_message message_id user_id (edit_guard now user_id time_limit_ms) (λ m s. record s {
      messages =
          adjust message_id (λ m. record m { text = plain text; edited_at = some now }) s.messages;
    })
