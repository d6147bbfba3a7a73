-- ===== src/Chat/Poll/Counting.antt =====
-- src/modules/chat/usecase/vote-poll.ts: the options of a poll after a vote.
use chat_be.Base.{
  ℕ, ◌≡◌, refl, ◌∙◌, Bool, true, List, [], ◌∷◌, map, arith, ◌==◌, if◌then◌else◌, length, filter,
  includes, unique, includes-unique,
}
use chat_be.Chat.Model.{PollOption}
use chat_be.Chat.Poll.Voters.{is_distinct, unique-is_distinct, includes-next_voters}
use chat_be.Chat.Poll.Ballot.{
  normalize_option, normalize_poll_options, option_ids, get_selected_option_ids, next_voters,
  vote_option,
}

-- An option `p` after the vote of `u` for the options `requested`, which was `o` before it.
pub record IsVotedOption (u : ℕ) (requested : List ℕ) (o p : PollOption) : Type 0 where
  pub id : p.id ≡ o.id
  pub text : p.text ≡ o.text
  pub voters :
      (w : ℕ)
      → includes w p.voted_user_ids
        ≡ (if w == u then includes o.id requested else includes w o.voted_user_ids)
  pub distinct : is_distinct p.voted_user_ids ≡ true
  pub counted : p.vote_count ≡ length p.voted_user_ids

pub data AreVoted (u : ℕ) (requested : List ℕ) : List PollOption → List PollOption → Type 0 where
  none_left : AreVoted u requested [] []
  one_more :
      {o p : PollOption} {os ps : List PollOption}
      → IsVotedOption u requested o p
      → AreVoted u requested os ps
      → AreVoted u requested (o ∷ os) (p ∷ ps)

abbrev pub stored : Bool → ℕ → List ℕ → PollOption → PollOption
stored multiple u requested o =
    normalize_option (vote_option multiple u requested (normalize_option o))

stored-IsVotedOption :
    (multiple : Bool) (u : ℕ) (requested : List ℕ) (o : PollOption)
    → IsVotedOption u requested o (stored multiple u requested o)
unfolding vote_option
stored-IsVotedOption multiple u requested o =
    let before = unique o.voted_user_ids in
    let voted = next_voters multiple (includes o.id requested) (includes u before) u before in
    record {
      id = refl;
      text = refl;
      voters = λ w.
          includes-unique w voted
          ∙ includes-next_voters multiple (includes o.id requested) u w before
          ∙ rw (includes-unique w o.voted_user_ids) refl;
      distinct = unique-is_distinct voted;
      counted = refl;
    }

pub stored-AreVoted :
    (multiple : Bool) (u : ℕ) (requested : List ℕ) (os : List PollOption)
    → AreVoted u requested os (
        normalize_poll_options (map (vote_option multiple u requested) (normalize_poll_options os)))
stored-AreVoted multiple u requested [] = none_left
stored-AreVoted multiple u requested (o ∷ os) =
    one_more (stored-IsVotedOption multiple u requested o) (stored-AreVoted multiple u requested os)

-- The options of a user are those that he chose, in the order of the poll.
pub selected_of_votes :
    (u : ℕ) (requested : List ℕ) {os ps : List PollOption}
    → AreVoted u requested os ps
    → get_selected_option_ids ps u ≡ filter (λ i. includes i requested) (option_ids os)
unfolding get_selected_option_ids
selected_of_votes u requested none_left = refl
selected_of_votes u requested (one_more {o} {p} {os} {ps} h hs) =
    let rest = selected_of_votes u requested hs in
    let same = h.id in let mine = h.voters u in ground arith
