-- ===== src/Call/Sound.antt =====
-- The writes to one session keep it sound.
use chat_be.Base.{
  ℕ, ◌≡◌, refl, inl, inr, true, false, Option, some, arith, is_some, lookup, map_values,
  lookup-insert_cases, any_of_lookup, any-insert, lookup-map_values, any-map_values, Option-cases,
}
use chat_be.Call.Model.{
  CallV2ParticipantStatus, CallV2SessionStatus, EndedBy, CallV2Participant, CallV2Session,
}
use chat_be.Call.Service.{
  is_terminal_status, is_terminal, is_callee_that_joined, has_ever_joined_callee,
}
use chat_be.Call.Moves.{end_participant, close_session, join_session}
use chat_be.Call.Ends.{end_for_participant, miss_participant}
use chat_be.Call.Invariant.{IsSound}

end_participant-answered :
    (now u c : ℕ) (st : CallV2ParticipantStatus) (la : Option ℕ) (p : CallV2Participant)
    (x : CallV2Session)
    → IsSound c x
    → lookup u x.participants ≡ some p
    → has_ever_joined_callee (end_participant now u st la p x) ≡ true
    → is_some x.answered_at ≡ true
unfolding end_participant
end_participant-answered now u c st la p x h found joined =
    elim (any-insert (is_callee_that_joined x.caller_id) u _ x.participants joined) [
      | inl this ↦
          h.answered
            (any_of_lookup (is_callee_that_joined x.caller_id) u p x.participants found this)
      | inr other ↦ h.answered other
    ]

pub end_participant-IsSound :
    (now u c : ℕ) (st : CallV2ParticipantStatus) (la : Option ℕ) (p : CallV2Participant)
    (x : CallV2Session)
    → IsSound c x
    → lookup u x.participants ≡ some p
    → IsSound c (end_participant now u st la p x)
unfolding end_participant
end_participant-IsSound now u c st la p x h found = record {
  keyed = h.keyed;
  named = λ v q e. elim (lookup-insert_cases v u _ q x.participants e) [
    | inl (same, new) ↦ ground (arith, h.named u p found)
    | inr (_, old) ↦ h.named v q old
  ];
  closed_at = h.closed_at;
  closed_by = h.closed_by;
  timer = h.timer;
  answered = unfold end_participant in end_participant-answered now u c st la p x h found;
  in_call_answered = h.in_call_answered;
}

-- The session is over, and its timer is cleared.
pub close_session-IsSound :
    (now c : ℕ) (st : CallV2SessionStatus) (by : EndedBy) (x : CallV2Session)
    → IsSound c x
    → is_terminal_status st ≡ true
    → IsSound c (record (close_session now st by x) { timeout_handle = false })
unfolding close_session
close_session-IsSound now c st by x h over = record {
  keyed = h.keyed;
  named = h.named;
  closed_at = over;
  closed_by = over;
  timer = λ _. refl;
  answered = h.answered;
  in_call_answered = λ e. ground arith;
}

-- A loop over the participants that keeps their ids and join times.
module _ (f : CallV2Participant → CallV2Participant)
    (keeps_id : (p : CallV2Participant) → (f p).user_id ≡ p.user_id)
    (keeps_join : (p : CallV2Participant) → (f p).joined_at ≡ p.joined_at) where
  map_participants-IsSound :
      (c : ℕ) (x : CallV2Session)
      → IsSound c x
      → IsSound c (record x { participants = map_values f x.participants })
  map_participants-IsSound c x h = record {
    keyed = h.keyed;
    named = λ u p e. elim (Option-cases (lookup u x.participants)) [
      | inl absent ↦ ground (arith, lookup-map_values f u x.participants)
      | inr (q, found) ↦
          ground (arith, lookup-map_values f u x.participants, h.named u q found, keeps_id q)
    ];
    closed_at = h.closed_at;
    closed_by = h.closed_by;
    timer = h.timer;
    answered =
        rw
          (any-map_values (is_callee_that_joined x.caller_id) f x.participants
            (λ p. ground (arith, keeps_id p, keeps_join p)))
          h.answered;
    in_call_answered = h.in_call_answered;
  }

pub end_for_participant-IsSound :
    (now c : ℕ) (x : CallV2Session)
    → IsSound c x
    → IsSound c (record x { participants = map_values (end_for_participant now) x.participants })
unfolding end_for_participant
end_for_participant-IsSound now =
    map_participants-IsSound (end_for_participant now) (λ p. ground arith) (λ p. ground arith)

pub miss_participant-IsSound :
    (now c : ℕ) (x : CallV2Session)
    → IsSound c x
    → IsSound c (record x { participants = map_values (miss_participant now) x.participants })
unfolding miss_participant
miss_participant-IsSound now =
    map_participants-IsSound (miss_participant now) (λ p. ground arith) (λ p. ground arith)

pub join_session-IsSound :
    (now u c : ℕ) (x : CallV2Session)
    → IsSound c x
    → is_terminal x ≡ false
    → IsSound c (join_session now u x)
unfolding join_session
join_session-IsSound now u c x h open_x = record {
  keyed = h.keyed;
  named = λ v q e. elim (lookup-insert_cases v u _ q x.participants e) [
    | inl (same, new) ↦ elim (Option-cases (lookup u x.participants)) [
      | inl absent ↦ ground arith
      | inr (p, found) ↦ ground (arith, h.named u p found)
    ]
    | inr (_, old) ↦ h.named v q old
  ];
  closed_at = ground (arith, h.closed_at);
  closed_by = ground (arith, h.closed_by);
  timer = λ e. cc;
  answered = λ _. ground arith;
  in_call_answered = λ _. ground arith;
}
