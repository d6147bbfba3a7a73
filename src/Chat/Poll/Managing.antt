-- ===== src/Chat/Poll/Managing.antt =====
-- src/modules/chat/usecase/manage-poll.ts.
use chat_be.Base.{
  ℕ, Bool, true, false, not, ◌&&◌, Option, none, some, [], ◌∷◌, ◌==◌, if◌then◌else◌, lookup, delete,
}
use chat_be.Chat.Model.{
  Action, throw, ok, MessageType, MessageText, Conversation, ConversationMember, PollStatus, Poll,
  Store, ChatError, poll_not_found, not_a_member, only_managers_poll_action, poll_locked,
  poll_pinned, poll_unpinned,
}
use chat_be.Chat.Settings.{is_active_member, is_group_manager}
use chat_be.Chat.Poll.Vote.{first_error, create_conversation_activity_message, guarded}
use chat_be.Chat.Poll.View.{is_closed}
use chat_be.Chat.Poll.Making.{update_poll}
use chat_be.Chat.Utility.Activity.{
  utility_message, create_quiet_message, adjust_message, pin_item_message,
}

abbrev pub manages : Option ConversationMember → Option Conversation → Bool
manages none conversation = false
manages (some m) conversation = is_group_manager m conversation

unfoldable pub manage_poll_guard :
    Poll → Option Conversation → Option ConversationMember → ℕ → Option ChatError
manage_poll_guard poll conversation member user_id = first_error (
    (not (is_active_member member), not_a_member)
    ∷ (
      not (manages member conversation) && not (poll.created_by == user_id),
      only_managers_poll_action,
    )
    ∷ [])

-- A handler on a poll that must exist, past `assertManager`.
abbrev pub on_poll : ℕ → ℕ → (Poll → Store → Store) → Action (Unit {0})
on_poll poll_id user_id act s = elim (lookup poll_id s.polls) [
  | none ↦ (throw poll_not_found, s)
  | some poll ↦
      guarded
        (manage_poll_guard poll (lookup poll.conversation_id s.conversations)
          (lookup user_id (s.members poll.conversation_id)) user_id)
        (λ s. (ok tt, act poll s)) s
]

unfoldable pub lock_poll : ℕ → ℕ → ℕ → ℕ → Poll → Store → Store
lock_poll fresh now poll_id user_id poll s =
    if is_closed poll.status
    then s
    else create_conversation_activity_message
        (utility_message fresh now poll.conversation_id user_id MessageType.system
          (poll_locked poll.question) (some poll.id) none)
        (update_poll poll_id
          (λ p. record p {
            status = PollStatus.closed;
            closed_at = some now;
            closed_by = some user_id;
          })
          s)

unfoldable pub close_poll : ℕ → ℕ → ℕ → ℕ → Action (Unit {0})
close_poll fresh now poll_id user_id = on_poll poll_id user_id (lock_poll fresh now poll_id user_id)

abbrev pub pin_poll_text : Bool → ℕ → MessageText
pin_poll_text true question = poll_pinned question
pin_poll_text false question = poll_unpinned question

-- The handlers that pin and unpin.
unfoldable pub pin_poll : Bool → ℕ → ℕ → ℕ → ℕ → Action (Unit {0})
pin_poll pinned fresh now poll_id user_id = on_poll poll_id user_id (λ poll s.
    create_quiet_message
      (utility_message fresh now poll.conversation_id user_id MessageType.system
        (pin_poll_text pinned poll.question) (some poll.id) none)
      (pin_item_message pinned now poll.message_id (
        update_poll poll_id
          (λ p. record p {
            pinned = pinned;
            pinned_at = if pinned then some now else none;
            pinned_by = if pinned then some user_id else none;
          })
          s)))

unfoldable pub delete_poll : ℕ → ℕ → Action (Unit {0})
delete_poll poll_id user_id = on_poll poll_id user_id (λ poll s.
    let t =
      if poll.pinned
      then adjust_message poll.message_id (λ m. record m { pinned = false; pinned_at = none }) s
      else s in
    record t { polls = delete poll_id t.polls })
