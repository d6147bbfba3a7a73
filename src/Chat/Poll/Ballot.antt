-- ===== src/Chat/Poll/Ballot.antt =====
-- src/modules/chat/usecase/vote-poll.ts: the options of a poll, and what a vote makes of them.
use chat_be.Base.{
  ℕ, Bool, not, ◌&&◌, List, [], ◌∷◌, ◌++◌, map, ◌==◌, if◌then◌else◌, length, all, filter, includes,
  unique,
}
use chat_be.Chat.Model.{PollOption}

abbrev pub normalize_option : PollOption → PollOption
normalize_option option = record option {
  voted_user_ids = unique option.voted_user_ids;
  vote_count = length (unique option.voted_user_ids);
}

abbrev pub normalize_poll_options : List PollOption → List PollOption
normalize_poll_options = map normalize_option

abbrev pub all_voters : List PollOption → List ℕ
all_voters [] = []
all_voters (o ∷ os) = o.voted_user_ids ++ all_voters os

unfoldable pub count_unique_voters : List PollOption → ℕ
count_unique_voters options = length (unique (all_voters options))

abbrev pub option_ids : List PollOption → List ℕ
option_ids = map (λ o. o.id)

unfoldable pub get_selected_option_ids : List PollOption → ℕ → List ℕ
get_selected_option_ids options user_id =
    option_ids (filter (λ o. includes user_id o.voted_user_ids) options)

unfoldable pub have_same_selection : List ℕ → List ℕ → Bool
have_same_selection current requested =
    length current == length requested && all (λ i. includes i requested) current

abbrev pub without : ℕ → List ℕ → List ℕ
without user_id voted = filter (λ v. not (v == user_id)) voted

-- The new `votedUserIds` of an option.
unfoldable pub next_voters : Bool → Bool → Bool → ℕ → List ℕ → List ℕ
next_voters is_multiple will_vote was_voted user_id voted =
    if is_multiple
    then (if will_vote && not was_voted
        then voted ++ user_id ∷ []
        else if not will_vote && was_voted
        then without user_id voted
        else voted)
    else if will_vote
    then without user_id voted ++ user_id ∷ []
    else without user_id voted

unfoldable pub vote_option : Bool → ℕ → List ℕ → PollOption → PollOption
vote_option is_multiple user_id selected option =
    let voted =
      next_voters is_multiple (includes option.id selected) (includes user_id option.voted_user_ids)
        user_id option.voted_user_ids in
    record option { voted_user_ids = voted; vote_count = length voted }
