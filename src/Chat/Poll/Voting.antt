-- ===== src/Chat/Poll/Voting.antt =====
-- src/modules/chat/usecase/vote-poll.ts: what a vote does, and what it refuses.
use chat_be.Base.{
  ℕ, ◌≡◌, refl, Bool, true, false, not, ◌&&◌, Option, none, some, List, arith, ltb, length, filter,
  includes, lookup, lookup-insert_self, ◌⊎◌, inl, inr, Bool-cases, Option-cases, unique,
}
use chat_be.Chat.Model.{ConversationMember, Poll, Store, ok, throw, Result, ChatError}
use chat_be.Chat.Poll.Vote.{
  VoteResult, VoteActivity, vote_guard, voted_poll, save_poll, next_options, cast_vote, vote,
  vote_poll, write_vote_activity,
}
use chat_be.Chat.Settings.{is_active_member}
use chat_be.Chat.Poll.View.{is_poll_closed}
use chat_be.Chat.Poll.Counting.{AreVoted, stored-AreVoted, selected_of_votes}
use chat_be.Chat.Poll.Ballot.{
  normalize_poll_options, count_unique_voters, option_ids, get_selected_option_ids,
  have_same_selection,
}

-- After the vote of `u` for `requested` in `poll`: the poll `q` is stored, its options are those of
-- before with the votes of `u` changed to `requested` and nobody else's, without doubles and counted,
-- and the total is the number of those who voted.
pub record IsVoted (poll_id u : ℕ) (requested : List ℕ) (poll q : Poll) (t : Store) : Type 0 where
  pub found : lookup poll_id t.polls ≡ some q
  pub options : AreVoted u requested poll.options q.options
  pub selected :
      get_selected_option_ids q.options u
      ≡ filter (λ i. includes i requested) (option_ids poll.options)
  pub total : q.total_votes ≡ count_unique_voters q.options

abbrev pub IsCast : ℕ → ℕ → List ℕ → Poll → Result VoteResult × Store → Type 0
IsCast poll_id u requested poll out =
    (r : VoteResult) × (out.0 ≡ ok r)
    × (r.vote_changed ≡ true)
    × IsVoted poll_id u requested poll r.poll out.1

voted_poll-IsVoted :
    (poll_id u : ℕ) (requested : List ℕ) (poll : Poll) (a : Option VoteActivity) (s : Store)
    → IsCast poll_id u requested poll
        (save_poll poll_id (voted_poll poll (next_options poll u requested) a) a s)
unfolding next_options
voted_poll-IsVoted poll_id u requested poll none s =
    let votes = stored-AreVoted poll.is_multiple_choice u requested poll.options in
    (
      _,
      refl,
      refl,
      record {
        found = lookup-insert_self poll_id _ s.polls;
        options = votes;
        selected = selected_of_votes u requested votes;
        total = refl;
      },
    )
voted_poll-IsVoted poll_id u requested poll (some a) s =
    let votes = stored-AreVoted poll.is_multiple_choice u requested poll.options in
    (
      _,
      refl,
      refl,
      record {
        found = lookup-insert_self poll_id _ s.polls;
        options = votes;
        selected = selected_of_votes u requested votes;
        total = refl;
      },
    )

cast_vote-IsCast :
    (fresh now poll_id u : ℕ) (requested : List ℕ) (poll : Poll) (before : Bool) (s : Store)
    → IsCast poll_id u requested poll (cast_vote fresh now poll_id poll u requested before s)
unfolding cast_vote
cast_vote-IsCast fresh now poll_id u requested poll true s =
    voted_poll-IsVoted poll_id u requested poll none s
cast_vote-IsCast fresh now poll_id u requested poll false s =
    let options = next_options poll u requested in
    let written = write_vote_activity fresh now poll u (count_unique_voters options) s in
    voted_poll-IsVoted poll_id u requested poll (some written.0) written.1

-- The user's options before the vote.
abbrev pub current_options : Poll → ℕ → List ℕ
current_options poll u = get_selected_option_ids (normalize_poll_options poll.options) u

passes_guard :
    (now : ℕ) (poll : Poll) (member : Option ConversationMember) (requested : List ℕ)
    → vote_guard now poll member requested ≡ none
    → (is_active_member member ≡ true) × (is_poll_closed now poll ≡ false)
unfolding vote_guard is_poll_closed
passes_guard now poll member requested h = (ground arith, ground arith)

-- A vote that passes the guards, changes the selection of the user, and is his first or may be
-- changed, succeeds and is cast.
pub vote_poll-IsCast :
    (fresh now poll_id u : ℕ) (chosen : List ℕ) (poll : Poll) (s : Store)
    → lookup poll_id s.polls ≡ some poll
    → vote_guard now poll (lookup u (s.members poll.conversation_id)) (unique chosen) ≡ none
    → have_same_selection (current_options poll u) (unique chosen) ≡ false
    → (ltb 0 (length (current_options poll u)) && not poll.allow_change_vote) ≡ false
    → IsCast poll_id u (unique chosen) poll (vote_poll fresh now poll_id u chosen s)
unfolding vote vote_poll
vote_poll-IsCast fresh now poll_id u chosen poll s found passes changes may =
    let before = ltb 0 (length (current_options poll u)) in
    let done : vote_poll fresh now poll_id u chosen s
        ≡ cast_vote fresh now poll_id poll u (unique chosen) before s =
      ground arith in
    rw done (cast_vote-IsCast fresh now poll_id u (unique chosen) poll before s)

-- A vote throws and changes nothing, or finds the user's selection as it is and changes nothing, or
-- is cast by an active member in a poll that is open.
pub vote_poll-cases :
    (fresh now poll_id u : ℕ) (chosen : List ℕ) (s : Store)
    → ((e : ChatError) × (vote_poll fresh now poll_id u chosen s ≡ (throw e, s)))
      ⊎ (((r : VoteResult) × (vote_poll fresh now poll_id u chosen s ≡ (ok r, s))
            × (r.vote_changed ≡ false))
          ⊎ ((poll : Poll) × (lookup poll_id s.polls ≡ some poll)
              × (is_active_member (lookup u (s.members poll.conversation_id)) ≡ true)
              × (is_poll_closed now poll ≡ false)
              × IsCast poll_id u (unique chosen) poll (vote_poll fresh now poll_id u chosen s)))
unfolding vote vote_poll
vote_poll-cases fresh now poll_id u chosen s = elim (Option-cases (lookup poll_id s.polls)) [
  | inl absent ↦ inl (ChatError.poll_not_found, ground arith)
  | inr (poll, found) ↦
      let requested = unique chosen in
      let member = lookup u (s.members poll.conversation_id) in
      elim (Option-cases (vote_guard now poll member requested)) [
        | inr (e, fails) ↦ inl (e, ground arith)
        | inl passes ↦ elim (Bool-cases (have_same_selection (current_options poll u) requested)) [
          | inl same ↦ inr (
              inl (
                record {
                  poll = record poll {
                    options = normalize_poll_options poll.options;
                    total_votes = count_unique_voters (normalize_poll_options poll.options);
                  };
                  vote_changed = false;
                  activity = none;
                },
                ground arith,
                refl,
              ))
          | inr changes ↦
              elim (Bool-cases
                (ltb 0 (length (current_options poll u)) && not poll.allow_change_vote)) [
                  | inl stuck ↦ inl (ChatError.cannot_change_vote, ground arith)
                  | inr may ↦ inr (
                      inr (
                        poll,
                        found,
                        (let e = passes_guard now poll member requested passes in e.0),
                        (let e = passes_guard now poll member requested passes in e.1),
                        vote_poll-IsCast fresh now poll_id u chosen poll s found passes changes may,
                      ))
                ]
        ]
      ]
]
