-- ===== src/Call/Tests.antt =====
-- A group call: user 1 calls 2 and 3 in conversation 5, 2 joins, the timer fires, 1 ends the call.
use chat_be.Base.{
  ℕ, ◌≡◌, refl, true, false, none, some, [], ◌∷◌, lookup, is_some, ◌⊎◌, List, length,
}
use chat_be.Call.Model.{
  CallType, CallV2SessionStatus, CallV2Session, CallV2Service, CreateCallV2Input,
  CreateCallV2Result, CallError, throw, ok,
}
use chat_be.Call.Service.{
  is_terminal, is_user_busy, get_active_call_by_conversation, is_live, release_user, release_users,
}
use chat_be.Call.Create.{
  create_call, new_session, register_session, caller_participant, is_private_busy,
}
use chat_be.Call.Moves.{
  join_call, reject_call, mark_missed, leave_call, refuse_call, open_session, settle, close_session,
  is_over_after_refusal, end_participant, join_session,
}
use chat_be.Call.Ends.{end_call, end_for_participant, ringing_users, time_out, handle_timeout}
use chat_be.Call.Invariant.{IsValid}
use chat_be.Call.Reach.{
  Reach, here, next, create, join, finish, initial, Reach-IsValid, live_call_unique,
  is_user_busy_iff, get_active_call-is_live,
}
use chat_be.Call.Outcomes.{IsAtomic, throw_changes_nothing}
use chat_be.Call.Opening.{IsCreated, create_call-outcome}
use chat_be.Call.Endings.{IsEnded, end_call-IsEnded, IsTimedOut, handle_timeout-IsTimedOut}
use chat_be.Call.Invitees.{
  invited, resolve_private_invitees, resolve_group_invitees, IsFit, invitees-IsFit,
}
use chat_be.Call.Frames.{StaysAs, Step-StaysAs}

-- Unfolds what a run needs.
calls : Unit {0}
unfolding create_call new_session register_session is_private_busy is_user_busy
    get_active_call_by_conversation join_call join_session reject_call refuse_call open_session
    settle is_over_after_refusal end_participant end_call end_for_participant handle_timeout
    time_out close_session ringing_users release_users release_user
calls = tt

abbrev group_input : CreateCallV2Input
group_input = record {
  caller_id = 1;
  conversation_id = 5;
  type = CallType.audio;
  callee_ids = 2 ∷ 3 ∷ [];
  is_group = true;
  livekit_provider = none;
}

abbrev ringing : CallV2Service
ringing = (create_call 10 100 group_input initial).1

abbrev ringing_call : CallV2Session
ringing_call = new_session 10 100 group_input initial

ringing-Reach : Reach initial ringing
ringing-Reach = next here (create 10 100 group_input refl refl)

abbrev talking : CallV2Service
talking = (join_call 11 100 2 ringing).1

abbrev over : CallV2Service
over = (end_call 12 100 1 talking).1

ringing-call : lookup 100 ringing.active_calls ≡ some ringing_call
unfolding calls
ringing-call = refl

Reach-IsValid_example : IsValid over
Reach-IsValid_example = Reach-IsValid (next (next ringing-Reach (join 11 100 2)) (finish 12 100 1))

live_call_unique_example : ◌≡◌ {A = ℕ} 100 100
live_call_unique_example =
    live_call_unique 100 100 ringing_call ringing_call ringing-Reach ringing-call ringing-call
      (unfold calls in refl) (unfold calls in refl) refl

is_user_busy_iff_example : is_user_busy ringing 3 ≡ is_some (lookup 3 ringing.user_calls)
is_user_busy_iff_example = is_user_busy_iff 3 ringing-Reach

get_active_call-is_live_example :
    (is_terminal ringing_call ≡ false) × (ringing_call.conversation_id ≡ 5)
get_active_call-is_live_example =
    get_active_call-is_live 5 ringing_call ringing-Reach (unfold calls in refl)

throw_changes_nothing_example :
    IsAtomic ringing (create_call 13 101 group_input ringing)
    × IsAtomic ringing (join_call 13 101 9 ringing)
    × IsAtomic ringing (reject_call 13 101 9 ringing)
    × IsAtomic ringing (mark_missed 13 101 9 ringing)
    × IsAtomic ringing (leave_call 13 101 9 ringing)
    × IsAtomic ringing (end_call 13 101 9 ringing)
throw_changes_nothing_example = throw_changes_nothing 13 101 9 group_input ringing

-- Both callees decline, so the call is over.
abbrev declined : CallV2Service
declined = (reject_call 12 100 3 (reject_call 11 100 2 ringing).1).1

declined_call :
    (x : CallV2Session) × (lookup 100 declined.active_calls ≡ some x)
    × (x.status ≡ CallV2SessionStatus.rejected)
unfolding calls
declined_call = (_, refl, refl)

end_call-IsEnded_example :
    (y : CallV2Session) × ((end_call 12 100 1 ringing).0 ≡ ok y)
    × (y.status ≡ CallV2SessionStatus.cancelled)
    × IsEnded 100 5 y (end_call 12 100 1 ringing).1
unfolding calls
end_call-IsEnded_example =
    end_call-IsEnded 12 100 1 ringing_call (caller_participant 10 1) ringing
      (Reach-IsValid ringing-Reach) ringing-call refl refl

handle_timeout-IsTimedOut_example :
    (y : CallV2Session) × ((handle_timeout 70 100 ringing).0
      ≡ some (record { session = y; missed_user_ids = 2 ∷ 3 ∷ []; terminal = true }))
    × IsTimedOut 100 ringing_call y (2 ∷ 3 ∷ []) (handle_timeout 70 100 ringing).1
unfolding calls
handle_timeout-IsTimedOut_example =
    handle_timeout-IsTimedOut 70 100 ringing_call ringing (Reach-IsValid ringing-Reach) ringing-call
      refl

create_call-outcome_example :
    ((is_live (get_active_call_by_conversation 5 ringing) ≡ true)
      × (create_call 13 101 group_input ringing ≡ (throw CallError.call_already_active, ringing)))
    ⊎ ((is_live (get_active_call_by_conversation 5 ringing) ≡ false)
        × ((r : CreateCallV2Result) × ((create_call 13 101 group_input ringing).0 ≡ ok r)
            × IsCreated group_input ringing r (create_call 13 101 group_input ringing).1))
create_call-outcome_example = create_call-outcome 13 101 group_input ringing

Step-StaysAs_example :
    StaysAs declined_call.0 (lookup 100 (end_call 13 100 1 declined).1.active_calls)
unfolding calls
Step-StaysAs_example =
    Step-StaysAs {s = declined} 100 declined_call.0 declined_call.1 (unfold declined_call in refl)
      (finish 13 100 1)

invitees-IsFit_example :
    IsFit 1 (1 ∷ 2 ∷ []) (resolve_private_invitees 1 (1 ∷ 2 ∷ []))
    × IsFit 1 (1 ∷ 2 ∷ []) (resolve_group_invitees 1 (1 ∷ 2 ∷ []) (some (2 ∷ 2 ∷ 1 ∷ [])) false)
    × ((ids : List ℕ) → resolve_private_invitees 1 (1 ∷ 2 ∷ []) ≡ invited ids → length ids ≡ 1)
invitees-IsFit_example = invitees-IsFit 1 (1 ∷ 2 ∷ []) (some (2 ∷ 2 ∷ 1 ∷ [])) false
