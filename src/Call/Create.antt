-- ===== src/Call/Create.antt =====
-- src/modules/call/usecase/call-v2.service.ts: `createCall`. `now` is what Date.now() answers in
-- the call, and `call_id` what uuidv4() gives. The timer that it starts is a later call of
-- `handle_timeout`.
use chat_be.Base.{
  ℕ, Bool, not, ◌&&◌, Option, none, some, List, [], ◌∷◌, ltb, if◌then◌else◌, length, filter,
  includes, Dict, insert,
}
use chat_be.Call.Model.{
  LivekitProvider, CallV2ParticipantStatus, CallV2SessionStatus, EndedBy, RoomName,
  CallV2Participant, CallV2Session, CreateCallV2Input, CreateCallV2Result, CallV2Service, ok,
  Action, ◌>>◌,
}
use chat_be.Call.Service.{is_user_busy, assert_no_active_conversation_call}

abbrev pub caller_participant : ℕ → ℕ → CallV2Participant
caller_participant now user_id = record {
  user_id = user_id;
  status = CallV2ParticipantStatus.joined;
  invited_at = none;
  joined_at = some now;
  left_at = none;
  ended_at = none;
}

abbrev pub invited_participant : ℕ → ℕ → CallV2Participant
invited_participant now user_id = record {
  user_id = user_id;
  status = CallV2ParticipantStatus.ringing;
  invited_at = some now;
  joined_at = none;
  left_at = none;
  ended_at = none;
}

abbrev pub busy_participant : ℕ → ℕ → CallV2Participant
busy_participant now user_id = record {
  user_id = user_id;
  status = CallV2ParticipantStatus.busy;
  invited_at = some now;
  joined_at = none;
  left_at = none;
  ended_at = some now;
}

-- `for (const userId of ids) participants[userId] = …`
unfoldable pub add_participants :
    (ℕ → CallV2Participant) → List ℕ → Dict CallV2Participant → Dict CallV2Participant
add_participants make [] ps = ps
add_participants make (u ∷ us) ps = add_participants make us (insert u (make u) ps)

-- `for (const userId of ids) this.userCalls.set(userId, callId)`
unfoldable pub set_user_calls : List ℕ → ℕ → Dict ℕ → Dict ℕ
set_user_calls [] call_id calls = calls
set_user_calls (u ∷ us) call_id calls = set_user_calls us call_id (insert u call_id calls)

abbrev pub provider_or_cloud : Option LivekitProvider → LivekitProvider
provider_or_cloud none = LivekitProvider.cloud
provider_or_cloud (some p) = p

unfoldable pub busy_users : CreateCallV2Input → CallV2Service → List ℕ
busy_users input s = filter (is_user_busy s) input.callee_ids

unfoldable pub invited_users : CreateCallV2Input → CallV2Service → List ℕ
unfolding busy_users
invited_users input s = filter (λ u. not (includes u (busy_users input s))) input.callee_ids

-- Somebody of a call between two is busy, so nobody rings.
unfoldable pub is_private_busy : CreateCallV2Input → CallV2Service → Bool
unfolding busy_users
is_private_busy input s = not input.is_group && ltb 0 (length (busy_users input s))

unfoldable pub new_session : ℕ → ℕ → CreateCallV2Input → CallV2Service → CallV2Session
unfolding busy_users invited_users is_private_busy add_participants
new_session now call_id input s = record {
  call_id = call_id;
  caller_id = input.caller_id;
  conversation_id = input.conversation_id;
  type = input.type;
  is_group = input.is_group;
  livekit_provider = provider_or_cloud input.livekit_provider;
  room_name = RoomName.call_v1 input.conversation_id call_id;
  status =
      if is_private_busy input s then CallV2SessionStatus.missed else CallV2SessionStatus.ringing;
  created_at = now;
  answered_at = none;
  ended_at = if is_private_busy input s then some now else none;
  ended_by = if is_private_busy input s then some (EndedBy.user input.caller_id) else none;
  callee_ids = input.callee_ids;
  participants = add_participants (busy_participant now) (busy_users input s) (
      add_participants (invited_participant now) (invited_users input s)
        (insert input.caller_id (caller_participant now input.caller_id) []));
  busy_user_ids = busy_users input s;
  logged_message_id = none;
  timeout_handle = not (is_private_busy input s);
}

-- The three `set`s of `createCall`.
unfoldable pub register_session :
    ℕ → CreateCallV2Input → List ℕ → CallV2Session → CallV2Service → CallV2Service
unfolding set_user_calls
register_session call_id input invited session s = record {
  active_calls = insert call_id session s.active_calls;
  conversation_calls = insert input.conversation_id call_id s.conversation_calls;
  user_calls = set_user_calls invited call_id (insert input.caller_id call_id s.user_calls);
}

unfoldable pub create_call : ℕ → ℕ → CreateCallV2Input → Action CreateCallV2Result
create_call now call_id input = do
  assert_no_active_conversation_call input.conversation_id
  λ s.
      let session = new_session now call_id input s in
      (
        ok (record {
          session = session;
          invited_user_ids = invited_users input s;
          busy_user_ids = busy_users input s;
        }),
        if is_private_busy input s
            then s
            else register_session call_id input (invited_users input s) session s,
      )
