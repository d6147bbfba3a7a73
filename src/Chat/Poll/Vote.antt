-- ===== src/Chat/Poll/Vote.antt =====
-- src/modules/chat/usecase/vote-poll.ts. `now` is the time of the call and `fresh` the id that v7()
-- gives in it. A poll is read as the repository keeps it: without double votes, and counted.
use chat_be.Base.{
  ℕ, ◌+◌, ◌*◌, min, max, Bool, true, false, not, ◌&&◌, Option, none, some, List, [], ◌∷◌, map, ltb,
  leb, ◌==◌, if◌then◌else◌, is_some, length, all, includes, Dict, lookup, insert, map_values,
  unique,
}
use chat_be.Chat.Model.{
  MessageType, Message, Conversation, ConversationMember, Poll, PollOption, Store, ChatError,
  poll_not_found, poll_expired, poll_closed, not_a_member, poll_has_no_options, option_not_found,
  only_one_option, cannot_change_vote, one_voted, many_voted, Action, ok, throw, Result,
  MessageStatus,
}
use chat_be.Chat.Settings.{is_active_member}
use chat_be.Chat.Poll.View.{is_closed, is_past}
use chat_be.Chat.Poll.Ballot.{
  normalize_poll_options, count_unique_voters, option_ids, get_selected_option_ids,
  have_same_selection, vote_option,
}

-- The guards up to the test for a changed selection, in the order of the code.
abbrev pub first_error : List (Bool × ChatError) → Option ChatError
first_error [] = none
first_error ((test, e) ∷ guards) = if test then some e else first_error guards

abbrev pub is_empty : List PollOption → Bool
is_empty [] = true
is_empty (o ∷ os) = false

unfoldable pub vote_guard : ℕ → Poll → Option ConversationMember → List ℕ → Option ChatError
vote_guard now poll member requested = first_error (
    (is_past now poll.expires_at, poll_expired)
    ∷ (is_closed poll.status, poll_closed)
    ∷ (not (is_active_member member), not_a_member)
    ∷ (is_empty poll.options, poll_has_no_options)
    ∷ (not (all (λ i. includes i (option_ids poll.options)) requested), option_not_found)
    ∷ (not poll.is_multiple_choice && ltb 1 (length requested), only_one_option)
    ∷ [])

-- `POLL_VOTE_ACTIVITY_WINDOW_MS`
abbrev pub poll_vote_activity_window_ms : ℕ
poll_vote_activity_window_ms = 5 * 60 * 1000

-- `now - last <= window`, both as times in milliseconds
abbrev pub is_within_window : ℕ → Option ℕ → Bool
is_within_window now none = false
is_within_window now (some last) = leb now (last + poll_vote_activity_window_ms)

pub record VoteActivity : Type 0 where
  pub message : Message
  pub updated : Bool
  pub count : ℕ

-- The message that the activity may be merged into.
abbrev pub mergeable : Bool → Option ℕ → Dict Message → Option Message
mergeable false id messages = none
mergeable true none messages = none
mergeable true (some id) messages = lookup id messages

-- `incrementUnreadCountForConversation` and `touchActivityForConversation`, on a member: those who
-- have left are passed over, and the sender's count stays.
abbrev pub bump : ℕ → ℕ → ConversationMember → ConversationMember
bump now sender_id m =
    if is_some m.left_at
    then m
    else if m.user_id == sender_id
    then record m { last_activity_at = some now }
    else record m { last_activity_at = some now; unread_count = m.unread_count + 1 }

abbrev pub set_last_message : Message → Option Conversation → Dict Conversation → Dict Conversation
set_last_message message none conversations = conversations
set_last_message message (some c) conversations =
    insert c.id
      (record c {
        last_message = some (record {
          message_id = message.id;
          sender_id = message.sender_id;
          type = message.type;
          text_preview = message.text;
          created_at = message.created_at;
        });
        last_message_at = some message.created_at;
      })
      conversations

-- `createConversationActivityMessage` that counts as unread. The conversation is there: its poll is.
unfoldable pub create_conversation_activity_message : Message → Store → Store
create_conversation_activity_message message s = record s {
  messages = insert message.id message s.messages;
  conversations =
      set_last_message message (lookup message.conversation_id s.conversations) s.conversations;
  members = λ c.
      if c == message.conversation_id
      then map_values (bump message.created_at message.sender_id) (s.members c)
      else s.members c;
}

-- `poll.voteActivityCount || 1`
abbrev pub or_one : ℕ → ℕ
or_one n = if n == 0 then 1 else n

unfoldable pub write_vote_activity : ℕ → ℕ → Poll → ℕ → ℕ → Store → VoteActivity × Store
write_vote_activity fresh now poll user_id total_votes s =
    elim (mergeable (is_within_window now poll.last_vote_activity_at)
      poll.last_vote_activity_message_id s.messages) [
        | some existing ↦
            let count = min total_votes (max 1 (or_one poll.vote_activity_count + 1)) in
            let message = record existing { text = many_voted count poll.question } in
            (
              record { message = message; updated = true; count = count },
              record s { messages = insert existing.id message s.messages },
            )
        | none ↦
            let message : Message = record {
              id = fresh;
              conversation_id = poll.conversation_id;
              sender_id = user_id;
              type = MessageType.system;
              text = one_voted poll.question;
              poll_id = some poll.id;
              reminder_id = none;
              media = [];
              links = [];
              message_status = MessageStatus.active;
              deleted_by = none;
              revoked_at = none;
              deleted_at = none;
              deleted_for_user_ids = [];
              edited_at = none;
              pinned = false;
              pinned_at = none;
              created_at = now;
            } in
            (
              record { message = message; updated = false; count = 1 },
              create_conversation_activity_message message s,
            )
      ]

pub record VoteResult : Type 0 where
  pub poll : Poll
  pub vote_changed : Bool
  pub activity : Option VoteActivity

-- What `pollCommandRepo.update` makes of a poll; it normalizes the options once more.
abbrev pub voted_poll : Poll → List PollOption → Option VoteActivity → Poll
voted_poll poll options none = record poll {
  options = normalize_poll_options options;
  total_votes = count_unique_voters (normalize_poll_options options);
}
voted_poll poll options (some a) = record poll {
  options = normalize_poll_options options;
  total_votes = count_unique_voters (normalize_poll_options options);
  last_vote_activity_at = some a.message.created_at;
  last_vote_activity_message_id = some a.message.id;
  vote_activity_count = a.count;
}

abbrev pub save_poll : ℕ → Poll → Option VoteActivity → Store → Result VoteResult × Store
save_poll poll_id poll activity s = (
  ok (record { poll = poll; vote_changed = true; activity = activity }),
  record s { polls = insert poll_id poll s.polls },
)

unfoldable pub next_options : Poll → ℕ → List ℕ → List PollOption
next_options poll user_id requested =
    map (vote_option poll.is_multiple_choice user_id requested)
      (normalize_poll_options poll.options)

-- `execute` from the write on.
unfoldable pub cast_vote : ℕ → ℕ → ℕ → Poll → ℕ → List ℕ → Bool → Action VoteResult
cast_vote fresh now poll_id poll user_id requested voted_before s =
    let options = next_options poll user_id requested in
    let written = write_vote_activity fresh now poll user_id (count_unique_voters options) s in
    if voted_before
    then save_poll poll_id (voted_poll poll options none) none s
    else save_poll poll_id (voted_poll poll options (some written.0)) (some written.0) written.1

-- `execute` past its first guards.
unfoldable pub vote : ℕ → ℕ → ℕ → Poll → ℕ → List ℕ → Action VoteResult
vote fresh now poll_id poll user_id requested s =
    let options = normalize_poll_options poll.options in
    let current = get_selected_option_ids options user_id in
    if have_same_selection current requested
    then (
      ok (record {
        poll = record poll { options = options; total_votes = count_unique_voters options };
        vote_changed = false;
        activity = none;
      }),
      s,
    )
    else if ltb 0 (length current) && not poll.allow_change_vote
    then (throw cannot_change_vote, s)
    else cast_vote fresh now poll_id poll user_id requested (ltb 0 (length current)) s

abbrev pub guarded : {A : Type 0} → Option ChatError → Action A → Action A
guarded none act s = act s
guarded (some e) act s = (throw e, s)

unfoldable pub vote_poll : ℕ → ℕ → ℕ → ℕ → List ℕ → Action VoteResult
vote_poll fresh now poll_id user_id chosen s = elim (lookup poll_id s.polls) [
  | none ↦ (throw poll_not_found, s)
  | some poll ↦
      let requested = unique chosen in
      let member = lookup user_id (s.members poll.conversation_id) in
      guarded (vote_guard now poll member requested) (vote fresh now poll_id poll user_id requested)
        s
]
