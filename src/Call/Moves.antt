-- ===== src/Call/Moves.antt =====
-- src/modules/call/usecase/call-v2.service.ts: the methods that act on a call that was created.
-- A throw stands above every write, as in the source.
use chat_be.Base.{
  ℕ, Bool, true, false, not, ◌&&◌, ◌||◌, Option, none, some, ◌==◌, if◌then◌else◌, is_some, Dict,
  lookup, insert,
}
use chat_be.Call.Model.{
  CallV2ParticipantStatus, CallV2SessionStatus, EndedBy, CallV2Participant, CallV2Session, ok,
  user_is_busy, Action, fail_if, ◌>>=◌, ◌>>◌,
}
use chat_be.Call.Service.{
  has_joined_participant, has_ringing_participant, release_user, write_session, release_session,
  require_call, assert_participant, assert_not_terminal,
}

abbrev pub or_now : Option ℕ → ℕ → Option ℕ
or_now none now = some now
or_now (some t) now = some t

abbrev pub found_or : Option CallV2Participant → CallV2Participant → CallV2Participant
found_or none p = p
found_or (some q) p = q

-- The participant that `joinCall` writes: the one on record, or a new one.
unfoldable pub joining_participant : ℕ → ℕ → Dict CallV2Participant → CallV2Participant
joining_participant now user_id ps =
    let p = found_or (lookup user_id ps) (record {
      user_id = user_id;
      status = CallV2ParticipantStatus.invited;
      invited_at = some now;
      joined_at = none;
      left_at = none;
      ended_at = none;
    }) in
    record p {
      status = CallV2ParticipantStatus.joined;
      joined_at = or_now p.joined_at now;
      left_at = none;
      ended_at = none;
    }

unfoldable pub join_session : ℕ → ℕ → CallV2Session → CallV2Session
unfolding joining_participant
join_session now user_id session = record session {
  participants =
      insert user_id (joining_participant now user_id session.participants) session.participants;
  answered_at = or_now session.answered_at now;
  status = CallV2SessionStatus.in_call;
}

-- `busyCallId && busyCallId !== callId`
abbrev pub is_other_call : Option ℕ → ℕ → Bool
is_other_call none call_id = false
is_other_call (some busy_call_id) call_id = not (busy_call_id == call_id)

unfoldable pub join_call : ℕ → ℕ → ℕ → Action CallV2Session
unfolding join_session
join_call now call_id user_id = do
  session ← require_call call_id
  assert_not_terminal session
  λ s. fail_if (is_other_call (lookup user_id s.user_calls) call_id) user_is_busy s
  λ s.
      let joined = join_session now user_id session in
      (
        ok joined,
        record s {
          active_calls = insert call_id joined s.active_calls;
          user_calls = insert user_id call_id s.user_calls;
        },
      )

-- The three checks that open `rejectCall`, `markMissed`, `leaveCall` and `endCall`.
unfoldable pub open_session : ℕ → ℕ → Action (CallV2Session × CallV2Participant)
open_session call_id user_id = do
  session ← require_call call_id
  participant ← assert_participant session user_id
  assert_not_terminal session
  λ s. (ok (session, participant), s)

-- `session.participants[userId] = { ...session.participants[userId], status, endedAt: now }`
unfoldable pub end_participant :
    ℕ → ℕ → CallV2ParticipantStatus → Option ℕ → CallV2Participant → CallV2Session → CallV2Session
end_participant now user_id status left_at p session = record session {
  participants =
      insert user_id (record p { status = status; left_at = left_at; ended_at = some now })
        session.participants;
}

unfoldable pub close_session : ℕ → CallV2SessionStatus → EndedBy → CallV2Session → CallV2Session
close_session now status ended_by session = record session {
  status = status;
  ended_at = some now;
  ended_by = some ended_by;
}

-- What follows once a participant is out: `releaseUser`, and the end of the call if it is over.
-- Where it is not, the writes to the session object are all that happens to it.
unfoldable pub settle :
    ℕ → ℕ → ℕ → CallV2SessionStatus → CallV2Session → Bool → Action (CallV2Session × Bool)
unfolding close_session
settle now call_id user_id status session terminal s =
    let s' = record s { user_calls = release_user user_id call_id s.user_calls } in
    let closed = close_session now status (EndedBy.user user_id) session in
    if terminal
    then (ok (record closed { timeout_handle = false }, true), release_session call_id closed s')
    else (ok (session, false), write_session call_id session s')

-- Nobody but the caller has joined, and nobody rings; a call between two is over at once.
unfoldable pub is_over_after_refusal : CallV2Session → Bool
is_over_after_refusal session =
    not session.is_group
    || (not (has_joined_participant session false) && not (has_ringing_participant session))

-- `rejectCall` and `markMissed` differ in the two statuses that they write.
unfoldable pub refuse_call :
    CallV2ParticipantStatus → CallV2SessionStatus → ℕ → ℕ → ℕ → Action (CallV2Session × Bool)
refuse_call status final now call_id user_id = do
  (session, p) ← open_session call_id user_id
  let changed = end_participant now user_id status p.left_at p session
  settle now call_id user_id final changed (is_over_after_refusal changed)

unfoldable pub reject_call : ℕ → ℕ → ℕ → Action (CallV2Session × Bool)
unfolding refuse_call
reject_call = refuse_call CallV2ParticipantStatus.declined CallV2SessionStatus.rejected

unfoldable pub mark_missed : ℕ → ℕ → ℕ → Action (CallV2Session × Bool)
unfolding refuse_call
mark_missed = refuse_call CallV2ParticipantStatus.missed CallV2SessionStatus.missed

-- `session.answeredAt ? ENDED : CANCELLED`
abbrev pub final_status : CallV2Session → CallV2SessionStatus
final_status session =
    if is_some session.answered_at then CallV2SessionStatus.ended else CallV2SessionStatus.cancelled

unfoldable pub is_over_after_leaving : CallV2Session → Bool
is_over_after_leaving session = not (has_joined_participant session true) || not session.is_group

unfoldable pub leave_call : ℕ → ℕ → ℕ → Action (CallV2Session × Bool)
leave_call now call_id user_id = do
  (session, p) ← open_session call_id user_id
  let changed = end_participant now user_id CallV2ParticipantStatus.left (some now) p session
  settle now call_id user_id (final_status changed) changed (is_over_after_leaving changed)
