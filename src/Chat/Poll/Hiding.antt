-- ===== src/Chat/Poll/Hiding.antt =====
-- What a member cannot learn from a poll whose results or voters are hidden from him.
use chat_be.Base.{ℕ, ◌≡◌, refl, List, [], ◌∷◌, map, includes, ap, ◌∙◌, false, Option, arith, any}
use chat_be.Chat.Model.{PollOption, Conversation, ConversationMember, Poll}
use chat_be.Chat.Poll.View.{
  without_results, is_poll_closed, can_see_results, sanitize_poll_for_viewer,
}

-- Two options that differ in the votes of others at most.
pub record IsSameFor (u : ℕ) (o p : PollOption) : Type 0 where
  pub id : o.id ≡ p.id
  pub text : o.text ≡ p.text
  pub added_by : o.added_by ≡ p.added_by
  pub own : includes u o.voted_user_ids ≡ includes u p.voted_user_ids

pub data AreSameFor (u : ℕ) : List PollOption → List PollOption → Type 0 where
  none_left : AreSameFor u [] []
  one_more :
      {o p : PollOption} {os ps : List PollOption}
      → IsSameFor u o p
      → AreSameFor u os ps
      → AreSameFor u (o ∷ os) (p ∷ ps)

without_results-option :
    (u : ℕ) (o p : PollOption) → IsSameFor u o p → without_results u o ≡ without_results u p
without_results-option u o p h = rw (h.id, h.text, h.added_by, h.own) refl

without_results-same :
    (u : ℕ) {os ps : List PollOption}
    → AreSameFor u os ps
    → map (without_results u) os ≡ map (without_results u) ps
without_results-same u none_left = refl
without_results-same u (one_more {o} {p} {os} {ps} h hs) =
    ap (λ x. x ∷ map (without_results u) os) (without_results-option u o p h)
    ∙ ap (λ xs. without_results u p ∷ xs) (without_results-same u hs)

any_own-same :
    (u : ℕ) {os ps : List PollOption}
    → AreSameFor u os ps
    → any (λ o. includes u o.voted_user_ids) os ≡ any (λ o. includes u o.voted_user_ids) ps
any_own-same u none_left = refl
any_own-same u (one_more h hs) = let e = h.own in let rest = any_own-same u hs in ground arith

-- A poll that differs from another in the votes of others at most: in the options so, and in what is
-- counted and noted of votes in any way.
abbrev pub with_votes : List PollOption → ℕ → Option ℕ → Option ℕ → ℕ → Poll → Poll
with_votes options total at message count poll = record poll {
  options = options;
  total_votes = total;
  last_vote_activity_at = at;
  last_vote_activity_message_id = message;
  vote_activity_count = count;
}

-- A member who may not see the results of a poll is shown the same options and the same total, however
-- others vote. Of two polls that differ in the votes of others, in the total and in what the poll notes
-- of its last vote, the views differ in those notes alone, which `sanitizePollForViewer` passes on.
pub sanitize_poll-hides :
    (now total count : ℕ) (at message : Option ℕ) (poll : Poll) (options : List PollOption)
    (viewer : ConversationMember) (c : Option Conversation)
    → can_see_results now poll viewer c ≡ false
    → AreSameFor viewer.user_id poll.options options
    → sanitize_poll_for_viewer now (with_votes options total at message count poll) viewer c
      ≡ record (sanitize_poll_for_viewer now poll viewer c) {
        last_vote_activity_at = at;
        last_vote_activity_message_id = message;
        vote_activity_count = count;
      }
unfolding sanitize_poll_for_viewer can_see_results is_poll_closed
sanitize_poll-hides now total count at message poll options viewer c hidden same =
    let e = without_results-same viewer.user_id same in
    let f = any_own-same viewer.user_id same in rw (hidden, e, f) refl
