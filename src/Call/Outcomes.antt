-- ===== src/Call/Outcomes.antt =====
-- What each method does on its branches.
use chat_be.Base.{ℕ, ◌≡◌, refl, inl, inr, Bool, true, false, none, some, arith, lookup}
use chat_be.Call.Model.{
  CallV2ParticipantStatus, CallV2SessionStatus, CallV2Participant, CallV2Session, CallV2Service,
  CreateCallV2Input, CallError, Result, ok, throw,
}
use chat_be.Call.Service.{is_terminal}
use chat_be.Call.Create.{create_call}
use chat_be.Call.Moves.{
  open_session, join_call, reject_call, mark_missed, refuse_call, leave_call, settle,
}
use chat_be.Call.Ends.{end_call, handle_timeout}
use chat_be.Call.Preservation.{open_session-cases}
use chat_be.Call.Joining.{join_call-cases}
use chat_be.Call.Registration.{create_call-cases}

-- A method that threw left the service as it was.
abbrev pub IsAtomic : {A : Type 0} → CallV2Service → Result A × CallV2Service → Type 0
IsAtomic s (ok a, t) = Unit
IsAtomic s (throw e, t) = t ≡ s

settle-IsAtomic :
    (now c u : ℕ) (final : CallV2SessionStatus) (x : CallV2Session) (over : Bool)
    (s t : CallV2Service)
    → IsAtomic t (settle now c u final x over s)
unfolding settle
settle-IsAtomic now c u final x true s t = tt
settle-IsAtomic now c u final x false s t = tt

refuse_call-IsAtomic :
    (st : CallV2ParticipantStatus) (final : CallV2SessionStatus) (now c u : ℕ) (s : CallV2Service)
    → IsAtomic s (refuse_call st final now c u s)
unfolding refuse_call
refuse_call-IsAtomic st final now c u s = elim (open_session-cases c u s) [
  | inl (e, failed) ↦ rw (failed, refuse_call) refl
  | inr (x, p, opened, _, _, _) ↦ rw (opened, refuse_call) (settle-IsAtomic now c u final _ _ s s)
]

leave_call-IsAtomic : (now c u : ℕ) (s : CallV2Service) → IsAtomic s (leave_call now c u s)
unfolding leave_call
leave_call-IsAtomic now c u s = elim (open_session-cases c u s) [
  | inl (e, failed) ↦ rw (failed, leave_call) refl
  | inr (x, p, opened, _, _, _) ↦ rw (opened, leave_call) (settle-IsAtomic now c u _ _ _ s s)
]

end_call-IsAtomic : (now c u : ℕ) (s : CallV2Service) → IsAtomic s (end_call now c u s)
unfolding end_call
end_call-IsAtomic now c u s = elim (open_session-cases c u s) [
  | inl (e, failed) ↦ rw (failed, end_call) refl
  | inr (x, p, opened, _, _, _) ↦ rw (opened, end_call) tt
]

join_call-IsAtomic : (now c u : ℕ) (s : CallV2Service) → IsAtomic s (join_call now c u s)
join_call-IsAtomic now c u s = elim (join_call-cases now c u s) [
  | inl (e, failed) ↦ rw failed refl
  | inr (x, joined, _, _, _) ↦ rw joined tt
]

create_call-IsAtomic :
    (now c : ℕ) (input : CreateCallV2Input) (s : CallV2Service)
    → IsAtomic s (create_call now c input s)
create_call-IsAtomic now c input s = elim (create_call-cases now c input s) [
  | inl (_, failed) ↦ rw failed refl
  | inr (_, done) ↦ rw done tt
]

-- Every method that throws leaves the service as it was: createCall, joinCall, rejectCall,
-- markMissed, leaveCall and endCall.
pub throw_changes_nothing :
    (now c u : ℕ) (input : CreateCallV2Input) (s : CallV2Service)
    → IsAtomic s (create_call now c input s)
      × IsAtomic s (join_call now c u s)
      × IsAtomic s (reject_call now c u s)
      × IsAtomic s (mark_missed now c u s)
      × IsAtomic s (leave_call now c u s)
      × IsAtomic s (end_call now c u s)
unfolding reject_call mark_missed
throw_changes_nothing now c u input s = (
  create_call-IsAtomic now c input s,
  join_call-IsAtomic now c u s,
  refuse_call-IsAtomic CallV2ParticipantStatus.declined CallV2SessionStatus.rejected now c u s,
  refuse_call-IsAtomic CallV2ParticipantStatus.missed CallV2SessionStatus.missed now c u s,
  leave_call-IsAtomic now c u s,
  end_call-IsAtomic now c u s,
)

open_session-ended :
    (c u : ℕ) (x : CallV2Session) (p : CallV2Participant) (s : CallV2Service)
    → lookup c s.active_calls ≡ some x
    → lookup u x.participants ≡ some p
    → is_terminal x ≡ true
    → open_session c u s ≡ (throw CallError.call_has_ended, s)
unfolding open_session
open_session-ended c u x p s found member over = ground arith

-- On a call that is over every method of a participant throws, with the message that the call has
-- ended, and a timer that fires does nothing.
pub terminal_absorbs :
    (now c u : ℕ) (x : CallV2Session) (p : CallV2Participant) (s : CallV2Service)
    → lookup c s.active_calls ≡ some x
    → lookup u x.participants ≡ some p
    → is_terminal x ≡ true
    → (join_call now c u s ≡ (throw CallError.call_has_ended, s))
      × (reject_call now c u s ≡ (throw CallError.call_has_ended, s))
      × (mark_missed now c u s ≡ (throw CallError.call_has_ended, s))
      × (leave_call now c u s ≡ (throw CallError.call_has_ended, s))
      × (end_call now c u s ≡ (throw CallError.call_has_ended, s))
      × (handle_timeout now c s ≡ (none, s))
unfolding join_call reject_call mark_missed refuse_call leave_call end_call handle_timeout
terminal_absorbs now c u x p s found member over =
    let ended = open_session-ended c u x p s found member over in
    (
      ground arith,
      rw (ended, reject_call),
      rw (ended, mark_missed),
      rw (ended, leave_call),
      rw (ended, end_call),
      ground arith,
    )
