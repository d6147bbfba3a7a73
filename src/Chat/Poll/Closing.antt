-- ===== src/Chat/Poll/Closing.antt =====
-- src/modules/chat/usecase/manage-poll.ts, vote-poll.ts and add-poll-option.ts: a closed poll.
use chat_be.Base.{
  ℕ, ◌≡◌, refl, ◌⊎◌, inl, inr, true, ◌||◌, Option, some, List, arith, ◌==◌, Bool-cases,
  Option-cases, unique, lookup, lookup-adjust_self,
}
use chat_be.Chat.Model.{throw, ConversationMember, Poll, Store, ChatError, PollStatus}
use chat_be.Chat.Settings.{is_active_member}
use chat_be.Chat.Poll.Managing.{manages, manage_poll_guard, lock_poll, close_poll}
use chat_be.Chat.Poll.Vote.{vote_guard, create_conversation_activity_message, vote_poll}
use chat_be.Chat.Poll.View.{is_closed, is_past}
use chat_be.Chat.Poll.Making.{Texts, add_option_guard, add_poll_option}

closed_guard :
    (now : ℕ) (poll : Poll) (member : Option ConversationMember) (requested : List ℕ)
    → is_closed poll.status ≡ true
    → (e : ChatError) × (vote_guard now poll member requested ≡ some e)
unfolding vote_guard
closed_guard now poll member requested closed = elim (Bool-cases (is_past now poll.expires_at)) [
  | inl past ↦ (ChatError.poll_expired, ground arith)
  | inr running ↦ (ChatError.poll_closed, ground arith)
]

closed_vote :
    (fresh now id u : ℕ) (chosen : List ℕ) (p : Poll) (s : Store)
    → lookup id s.polls ≡ some p
    → is_closed p.status ≡ true
    → (e : ChatError) × (vote_poll fresh now id u chosen s ≡ (throw e, s))
unfolding vote_poll
closed_vote fresh now id u chosen p s found closed =
    let (e, fails) =
      closed_guard now p (lookup u (s.members p.conversation_id)) (unique chosen) closed in
    (e, ground arith)

closed_add_guard :
    (texts : Texts) (now : ℕ) (poll : Poll) (member : Option ConversationMember) (text : ℕ)
    → is_closed poll.status ≡ true
    → (e : ChatError) × (add_option_guard texts now poll member text ≡ some e)
unfolding add_option_guard
closed_add_guard texts now poll member text closed = elim (Bool-cases poll.allow_add_option) [
  | inl allowed ↦ (ChatError.poll_closed, ground arith)
  | inr fixed ↦ (ChatError.adding_not_allowed, ground arith)
]

closed_add :
    (texts : Texts) (option_id fresh now id u text : ℕ) (p : Poll) (s : Store)
    → lookup id s.polls ≡ some p
    → is_closed p.status ≡ true
    → (e : ChatError) × (add_poll_option texts option_id fresh now id u text s ≡ (throw e, s))
unfolding add_poll_option
closed_add texts option_id fresh now id u text p s found closed =
    let (e, fails) =
      closed_add_guard texts now p (lookup u (s.members p.conversation_id)) text closed in
    (e, ground arith)

locked :
    (fresh now id u : ℕ) (p : Poll) (s : Store)
    → lookup id s.polls ≡ some p
    → (q : Poll) × (lookup id (lock_poll fresh now id u p s).polls ≡ some q)
      × (is_closed q.status ≡ true)
unfolding lock_poll create_conversation_activity_message
locked fresh now id u p s found = elim (Bool-cases (is_closed p.status)) [
  | inl closed ↦ (p, rw closed found, closed)
  | inr running ↦
      let lock : Poll → Poll =
        λ p. record p { status = PollStatus.closed; closed_at = some now; closed_by = some u } in
      (lock p, rw running (lookup-adjust_self id lock p s.polls found), refl)
]

-- `closePoll` throws and changes nothing, or its user is an active member of the conversation of the
-- poll and its manager or the creator of the poll; then, at any later time and by anyone, `votePoll`
-- and `addPollOption` on the poll throw and change nothing.
pub close_poll-ends :
    (fresh now id u : ℕ) (p : Poll) (s : Store) (later fresh_later voter option_id text : ℕ)
    (chosen : List ℕ) (texts : Texts)
    → lookup id s.polls ≡ some p
    → ((e : ChatError) × (close_poll fresh now id u s ≡ (throw e, s)))
      ⊎ ((is_active_member (lookup u (s.members p.conversation_id)) ≡ true)
          × ((manages
                  (lookup u (s.members p.conversation_id))
                  (lookup p.conversation_id s.conversations)
                || p.created_by == u)
              ≡ true)
          × ((e : ChatError) × (vote_poll fresh_later later id voter chosen
                  (close_poll fresh now id u s).1
                ≡ (throw e, (close_poll fresh now id u s).1)))
          × ((e : ChatError) × (add_poll_option texts option_id fresh_later later id voter text
                  (close_poll fresh now id u s).1
                ≡ (throw e, (close_poll fresh now id u s).1))))
unfolding close_poll manage_poll_guard
close_poll-ends fresh now id u p s later fresh_later voter option_id text chosen texts found =
    let member = lookup u (s.members p.conversation_id) in
    let conversation = lookup p.conversation_id s.conversations in
    elim (Option-cases (manage_poll_guard p conversation member u)) [
      | inr (e, fails) ↦ inl (e, ground arith)
      | inl passes ↦
          let t = lock_poll fresh now id u p s in
          let done : (close_poll fresh now id u s).1 ≡ t = ground arith in
          let (q, at_q, closed) = locked fresh now id u p s found in
          inr (
            ground arith,
            ground arith,
            rw done (closed_vote fresh_later later id voter chosen q t at_q closed),
            rw done (closed_add texts option_id fresh_later later id voter text q t at_q closed),
          )
    ]
