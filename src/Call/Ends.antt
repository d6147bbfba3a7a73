-- ===== src/Call/Ends.antt =====
-- src/modules/call/usecase/call-v2.service.ts: the end of a call, its timeout, and the rest.
use chat_be.Base.{
  ℕ, Bool, true, false, Option, none, some, List, [], ◌∷◌, if◌then◌else◌, Dict, lookup, map_values,
}
use chat_be.Call.Model.{
  CallStatus, CallV2ParticipantStatus, CallV2SessionStatus, EndedBy, CallV2Participant,
  CallV2Session, CallV2Service, ok, Action, ◌>>=◌,
}
use chat_be.Call.Service.{
  is_terminal, is_ringing, is_joined, has_ever_joined_callee, release_users, write_session,
  release_session,
}
use chat_be.Call.Moves.{open_session, close_session, final_status}

-- The body of the loop of `endCall`.
unfoldable pub end_for_participant : ℕ → CallV2Participant → CallV2Participant
end_for_participant now p =
    if is_ringing p.status
    then record p { status = CallV2ParticipantStatus.missed; ended_at = some now }
    else if is_joined p.status
    then record p { status = CallV2ParticipantStatus.left; left_at = some now; ended_at = some now }
    else p

unfoldable pub end_call : ℕ → ℕ → ℕ → Action CallV2Session
end_call now call_id user_id = do
  (session, p) ← open_session call_id user_id
  let ended = record session {
    participants = map_values (end_for_participant now) session.participants;
  }
  let closed = close_session now (final_status ended) (EndedBy.user user_id) ended
  λ s. (ok (record closed { timeout_handle = false }), release_session call_id closed s)

unfoldable pub miss_participant : ℕ → CallV2Participant → CallV2Participant
miss_participant now p =
    if is_ringing p.status
    then record p { status = CallV2ParticipantStatus.missed; ended_at = some now }
    else p

-- `missedUserIds` of the loop of `handleTimeout`
unfoldable pub ringing_users : Dict CallV2Participant → List ℕ
ringing_users [] = []
ringing_users ((u, p) ∷ ps) =
    if is_ringing p.status then p.user_id ∷ ringing_users ps else ringing_users ps

-- What `handleTimeout` hands to the timeout handler.
pub record TimeoutNotice : Type 0 where
  pub session : CallV2Session
  pub missed_user_ids : List ℕ
  pub terminal : Bool

-- `handleTimeout` on a session that goes on. The writes of its loop are to the participants and to
-- `userCalls`, so the two are written apart.
unfoldable pub time_out :
    ℕ → ℕ → CallV2Session → CallV2Service → Option TimeoutNotice × CallV2Service
time_out now call_id session s =
    let missed = ringing_users session.participants in
    let changed = record session {
      participants = map_values (miss_participant now) session.participants;
    } in
    let s' = record s { user_calls = release_users missed call_id s.user_calls } in
    let closed = close_session now CallV2SessionStatus.missed EndedBy.timeout changed in
    let ongoing = record changed { status = CallV2SessionStatus.in_call } in
    if has_ever_joined_callee changed
    then (
      some (record { session = ongoing; missed_user_ids = missed; terminal = false }),
      write_session call_id ongoing s',
    )
    else (
      some (record {
        session = record closed { timeout_handle = false };
        missed_user_ids = missed;
        terminal = true;
      }),
      release_session call_id closed s',
    )

unfoldable pub handle_timeout : ℕ → ℕ → CallV2Service → Option TimeoutNotice × CallV2Service
handle_timeout now call_id s = elim (lookup call_id s.active_calls) [
  | none ↦ (none, s)
  | some session ↦ if is_terminal session then (none, s) else time_out now call_id session s
]

unfoldable pub mark_logged : ℕ → ℕ → CallV2Service → CallV2Service
mark_logged call_id message_id s = elim (lookup call_id s.active_calls) [
  | none ↦ s
  | some session ↦ write_session call_id (record session { logged_message_id = some message_id }) s
]

unfoldable pub reset_for_tests : CallV2Service → CallV2Service
reset_for_tests s = record { active_calls = []; conversation_calls = []; user_calls = [] }

unfoldable pub to_legacy_status : CallV2SessionStatus → CallStatus
to_legacy_status CallV2SessionStatus.in_call = CallStatus.answered
to_legacy_status CallV2SessionStatus.ended = CallStatus.ended
to_legacy_status CallV2SessionStatus.missed = CallStatus.missed
to_legacy_status CallV2SessionStatus.rejected = CallStatus.rejected
to_legacy_status CallV2SessionStatus.cancelled = CallStatus.cancelled
to_legacy_status CallV2SessionStatus.ringing = CallStatus.ringing
