-- ===== src/Call/Service.antt =====
-- src/modules/call/usecase/call-v2.service.ts: the tests on a session, the look-ups, the guards and
-- the releases that the methods share.
use chat_be.Base.{
  ℕ, Bool, true, false, not, ◌&&◌, Option, none, some, List, [], ◌∷◌, ◌==◌, if◌then◌else◌, is_some,
  any, Dict, lookup, insert, delete, keys, values,
}
use chat_be.Call.Model.{
  CallV2ParticipantStatus, CallV2SessionStatus, CallV2Participant, CallV2Session, CallV2Service,
  call_already_active, not_a_participant, call_has_ended, call_not_found, Action, fail_if, or_throw,
}

abbrev pub is_terminal_status : CallV2SessionStatus → Bool
is_terminal_status CallV2SessionStatus.ended = true
is_terminal_status CallV2SessionStatus.missed = true
is_terminal_status CallV2SessionStatus.rejected = true
is_terminal_status CallV2SessionStatus.cancelled = true
is_terminal_status CallV2SessionStatus.ringing = false
is_terminal_status CallV2SessionStatus.in_call = false

abbrev pub is_terminal : CallV2Session → Bool
is_terminal session = is_terminal_status session.status

abbrev pub is_joined : CallV2ParticipantStatus → Bool
is_joined CallV2ParticipantStatus.joined = true
is_joined _ = false

-- ringing or invited
abbrev pub is_ringing : CallV2ParticipantStatus → Bool
is_ringing CallV2ParticipantStatus.ringing = true
is_ringing CallV2ParticipantStatus.invited = true
is_ringing _ = false

abbrev pub counts_as_joined : ℕ → Bool → CallV2Participant → Bool
counts_as_joined caller_id include_caller p =
    if not include_caller && p.user_id == caller_id then false else is_joined p.status

abbrev pub has_joined_participant : CallV2Session → Bool → Bool
has_joined_participant session include_caller =
    any (counts_as_joined session.caller_id include_caller) (values session.participants)

abbrev pub is_callee_that_joined : ℕ → CallV2Participant → Bool
is_callee_that_joined caller_id p = not (p.user_id == caller_id) && is_some p.joined_at

abbrev pub has_ever_joined_callee : CallV2Session → Bool
has_ever_joined_callee session =
    any (is_callee_that_joined session.caller_id) (values session.participants)

abbrev pub has_ringing_participant : CallV2Session → Bool
has_ringing_participant session = any (λ p. is_ringing p.status) (values session.participants)

-- `getCall`
unfoldable pub get_call : ℕ → CallV2Service → Option CallV2Session
get_call call_id s = lookup call_id s.active_calls

unfoldable pub get_active_call_by_conversation : ℕ → CallV2Service → Option CallV2Session
get_active_call_by_conversation conversation_id s =
    elim (lookup conversation_id s.conversation_calls) [
      | none ↦ none
      | some call_id ↦ lookup call_id s.active_calls
    ]

abbrev pub is_live : Option CallV2Session → Bool
is_live none = false
is_live (some session) = not (is_terminal session)

unfoldable pub is_user_busy : CallV2Service → ℕ → Bool
is_user_busy s user_id = elim (lookup user_id s.user_calls) [
  | none ↦ false
  | some call_id ↦ is_live (lookup call_id s.active_calls)
]

-- `releaseUser`, on the map `userCalls`
abbrev pub is_in_call : Option ℕ → ℕ → Bool
is_in_call none call_id = false
is_in_call (some c) call_id = c == call_id

unfoldable pub release_user : ℕ → ℕ → Dict ℕ → Dict ℕ
release_user user_id call_id calls =
    if is_in_call (lookup user_id calls) call_id then delete user_id calls else calls

-- The loop of `releaseSession`.
unfoldable pub release_users : List ℕ → ℕ → Dict ℕ → Dict ℕ
release_users [] call_id calls = calls
release_users (u ∷ us) call_id calls = release_users us call_id (release_user u call_id calls)

-- A write to the fields of the session object of a call.
abbrev pub write_session : ℕ → CallV2Session → CallV2Service → CallV2Service
write_session call_id session s = record s { active_calls = insert call_id session s.active_calls }

-- `releaseSession`, on a session whose fields have been written; it also clears the timer.
abbrev pub release_session : ℕ → CallV2Session → CallV2Service → CallV2Service
release_session call_id session s = record {
  active_calls = insert call_id (record session { timeout_handle = false }) s.active_calls;
  conversation_calls = delete session.conversation_id s.conversation_calls;
  user_calls = release_users (keys session.participants) session.call_id s.user_calls;
}

abbrev pub assert_no_active_conversation_call : ℕ → Action (Unit {0})
assert_no_active_conversation_call conversation_id s =
    fail_if (is_live (get_active_call_by_conversation conversation_id s)) call_already_active s

abbrev pub require_call : ℕ → Action CallV2Session
require_call call_id s = or_throw (lookup call_id s.active_calls) call_not_found s

abbrev pub assert_participant : CallV2Session → ℕ → Action CallV2Participant
assert_participant session user_id =
    or_throw (lookup user_id session.participants) not_a_participant

abbrev pub assert_not_terminal : CallV2Session → Action (Unit {0})
assert_not_terminal session = fail_if (is_terminal session) call_has_ended
