-- ===== src/Chat/Poll/Making.antt =====
-- src/modules/chat/usecase/create-poll.ts and add-poll-option.ts, without the parsing of the input.
-- `option_id` gives the ids of v7() for the options, in their order. What trim() makes of a text and
-- whether two texts are equal past trim() and toLowerCase() are parameters.
use chat_be.Base.{
  ℕ, suc, Bool, false, not, ◌||◌, Option, none, some, List, [], ◌∷◌, ◌++◌, ltb, length, any, lookup,
  insert, adjust,
}
use chat_be.Chat.Model.{
  Action, throw, ok, MessageType, Conversation, ConversationMember, PollStatus, PollOption, Poll,
  Store, ChatError, poll_not_found, not_a_member, not_a_group, only_managers_poll, too_few_options,
  adding_not_allowed, option_exists, poll_opened, option_added,
}
use chat_be.Chat.Settings.{
  normalize_group_settings, is_active_member, GroupUtility, can_use_group_utility,
}
use chat_be.Chat.Poll.Vote.{first_error, create_conversation_activity_message, guarded}
use chat_be.Chat.Poll.Ballot.{normalize_poll_options, count_unique_voters}
use chat_be.Chat.Poll.View.{is_closed, is_past}
use chat_be.Chat.Utility.Activity.{utility_message, create_quiet_message}
use chat_be.Chat.Group.Ownership.{is_group, on_group}

pub record Texts : Type 0 where
  pub trim : ℕ → ℕ
  pub same : ℕ → ℕ → Bool

pub record PollInput : Type 0 where
  pub question : ℕ
  pub options : List ℕ
  pub is_multiple_choice : Bool
  pub allow_add_option : Bool
  pub allow_change_vote : Bool
  pub show_results_before_close : Bool
  pub hide_voters : Bool
  pub expires_at : Option ℕ

abbrev pub new_options : (ℕ → ℕ) → ℕ → List ℕ → List PollOption
new_options option_id i [] = []
new_options option_id i (text ∷ texts) =
    record { id = option_id i; text = text; vote_count = 0; voted_user_ids = []; added_by = none }
    ∷ new_options option_id (suc i) texts

-- The poll as the repository keeps it.
unfoldable pub new_poll : (ℕ → ℕ) → ℕ → ℕ → ℕ → ℕ → PollInput → Poll
new_poll option_id poll_id message_id conversation_id creator_id input = record {
  id = poll_id;
  conversation_id = conversation_id;
  question = input.question;
  options = normalize_poll_options (new_options option_id 0 input.options);
  created_by = creator_id;
  is_multiple_choice = input.is_multiple_choice;
  allow_add_option = input.allow_add_option;
  allow_change_vote = input.allow_change_vote;
  show_results_before_close = input.show_results_before_close;
  hide_voters = input.hide_voters;
  status = PollStatus.active;
  expires_at = input.expires_at;
  total_votes =
      count_unique_voters (normalize_poll_options (new_options option_id 0 input.options));
  last_vote_activity_at = none;
  last_vote_activity_message_id = none;
  vote_activity_count = 0;
  message_id = some message_id;
  closed_at = none;
  closed_by = none;
  pinned = false;
  pinned_at = none;
  pinned_by = none;
}

abbrev pub may_create_poll : Option ConversationMember → Conversation → Bool
may_create_poll none conversation = false
may_create_poll (some m) conversation =
    can_use_group_utility (normalize_group_settings conversation.settings) GroupUtility.poll m
      (some conversation)

unfoldable pub create_poll_guard :
    Conversation → Option ConversationMember → List ℕ → Option ChatError
create_poll_guard conversation member options = first_error (
    (not (is_group conversation.type), not_a_group)
    ∷ (not (is_active_member member), not_a_member)
    ∷ (not (may_create_poll member conversation), only_managers_poll)
    ∷ (ltb (length options) 2, too_few_options)
    ∷ [])

unfoldable pub create_poll : (ℕ → ℕ) → ℕ → ℕ → ℕ → ℕ → ℕ → PollInput → Action (Unit {0})
create_poll option_id fresh poll_id now conversation_id creator_id input s =
    on_group conversation_id
      (λ c. create_poll_guard c (lookup creator_id (s.members conversation_id)) input.options)
      (λ s.
        let t =
          create_conversation_activity_message
            (utility_message fresh now conversation_id creator_id MessageType.poll
              (poll_opened input.question) (some poll_id) none)
            s in
        record t {
          polls =
              insert poll_id (new_poll option_id poll_id fresh conversation_id creator_id input)
                t.polls;
        })
      s

unfoldable pub add_option_guard :
    Texts → ℕ → Poll → Option ConversationMember → ℕ → Option ChatError
add_option_guard texts now poll member text = first_error (
    (not poll.allow_add_option, adding_not_allowed)
    ∷ (is_closed poll.status || is_past now poll.expires_at, ChatError.poll_closed)
    ∷ (not (is_active_member member), not_a_member)
    ∷ (any (λ o. texts.same o.text text) poll.options, option_exists)
    ∷ [])

abbrev pub with_option : ℕ → ℕ → ℕ → Poll → Poll
with_option option_id text user_id p =
    let added : PollOption = record {
      id = option_id;
      text = text;
      vote_count = 0;
      voted_user_ids = [];
      added_by = some user_id;
    } in
    let options = normalize_poll_options (p.options ++ added ∷ []) in
    record p { options = options; total_votes = count_unique_voters options }

abbrev pub update_poll : ℕ → (Poll → Poll) → Store → Store
update_poll poll_id f s = record s { polls = adjust poll_id f s.polls }

unfoldable pub add_poll_option : Texts → ℕ → ℕ → ℕ → ℕ → ℕ → ℕ → Action (Unit {0})
add_poll_option texts option_id fresh now poll_id user_id text s = elim (lookup poll_id s.polls) [
  | none ↦ (throw poll_not_found, s)
  | some poll ↦
      guarded
        (add_option_guard texts now poll (lookup user_id (s.members poll.conversation_id)) text)
        (λ s. (
          ok tt,
          create_quiet_message
              (utility_message fresh now poll.conversation_id user_id MessageType.system
                (option_added (texts.trim text) poll.question) (some poll.id) none)
              (update_poll poll_id (with_option option_id (texts.trim text) user_id) s),
        ))
        s
]
