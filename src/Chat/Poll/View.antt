-- ===== src/Chat/Poll/View.antt =====
-- src/modules/chat/usecase/group-permissions.ts: what a member sees of a poll.
use chat_be.Base.{
  ℕ, Bool, true, false, not, ◌||◌, Option, none, some, List, [], ◌∷◌, map, ltb, ◌==◌, if◌then◌else◌,
  any, includes,
}
use chat_be.Chat.Model.{Poll, PollOption, PollStatus, ConversationMember, Conversation}
use chat_be.Chat.Settings.{is_group_manager}

abbrev pub is_closed : PollStatus → Bool
is_closed PollStatus.closed = true
is_closed PollStatus.active = false

-- `!!expiresAt && now > expiresAt`
abbrev pub is_past : ℕ → Option ℕ → Bool
is_past now none = false
is_past now (some t) = ltb t now

unfoldable pub is_poll_closed : ℕ → Poll → Bool
is_poll_closed now poll = is_closed poll.status || is_past now poll.expires_at

-- The viewer alone, if he voted for the option.
abbrev pub own_vote : ℕ → PollOption → List ℕ
own_vote viewer_id option = if includes viewer_id option.voted_user_ids then viewer_id ∷ [] else []

abbrev pub without_voters : ℕ → PollOption → PollOption
without_voters viewer_id option = record option { voted_user_ids = own_vote viewer_id option }

abbrev pub without_results : ℕ → PollOption → PollOption
without_results viewer_id option = record option {
  vote_count = if includes viewer_id option.voted_user_ids then 1 else 0;
  voted_user_ids = own_vote viewer_id option;
}

unfoldable pub can_see_voters : Poll → ConversationMember → Option Conversation → Bool
can_see_voters poll viewer conversation =
    not poll.hide_voters
    || poll.created_by == viewer.user_id
    || is_group_manager viewer conversation

unfoldable pub can_see_results : ℕ → Poll → ConversationMember → Option Conversation → Bool
can_see_results now poll viewer conversation =
    poll.show_results_before_close
    || is_poll_closed now poll
    || poll.created_by == viewer.user_id
    || is_group_manager viewer conversation

unfoldable pub sanitize_poll_for_viewer : ℕ → Poll → ConversationMember → Option Conversation → Poll
sanitize_poll_for_viewer now poll viewer conversation =
    let u = viewer.user_id in
    if can_see_results now poll viewer conversation
    then (if can_see_voters poll viewer conversation
        then poll
        else record poll { options = map (without_voters u) poll.options })
    else record poll {
      options = map (without_results u) poll.options;
      total_votes = if any (λ o. includes u o.voted_user_ids) poll.options then 1 else 0;
    }
