-- ===== src/Call/Opening.antt =====
-- What `createCall` answers and registers.
use chat_be.Base.{
  ℕ, ◌≡◌, refl, ◌⊎◌, inl, inr, true, false, not, ◌&&◌, some, arith, if◌then◌else◌, includes, lookup,
  Bool-cases, lookup-insert_self, ap,
}
use chat_be.Call.Model.{
  CallV2SessionStatus, CallV2Participant, CallV2Service, CreateCallV2Input, CreateCallV2Result,
  CallError, ok, throw,
}
use chat_be.Call.Service.{is_user_busy, is_live, get_active_call_by_conversation, is_ringing}
use chat_be.Call.Create.{
  register_session, create_call, new_session, is_private_busy, invited_users, busy_users,
}
use chat_be.Call.Creation.{lookup-new_session, includes-busy_users, includes_callee}
use chat_be.Call.Registration.{create_call-cases}

-- The answer of `createCall`: the callees who were busy, and the others, who ring; of a call between
-- two with a busy callee nothing is registered and it is missed.
pub record IsCreated (input : CreateCallV2Input) (s : CallV2Service) (r : CreateCallV2Result)
    (t : CallV2Service) : Type 0 where
  pub busy :
      (u : ℕ) → includes u r.busy_user_ids ≡ (includes u input.callee_ids && is_user_busy s u)
  pub invited :
      (u : ℕ)
      → includes u r.invited_user_ids ≡ (includes u input.callee_ids && not (is_user_busy s u))
  pub rung :
      (u : ℕ) (p : CallV2Participant)
      → lookup u r.session.participants ≡ some p
      → is_ringing p.status ≡ includes u r.invited_user_ids
  pub status : r.session.status ≡ (
      if is_private_busy input s then CallV2SessionStatus.missed else CallV2SessionStatus.ringing)
  pub state :
      if is_private_busy input s
      then t ≡ s
      else (lookup r.session.call_id t.active_calls ≡ some r.session)
        × (lookup input.conversation_id t.conversation_calls ≡ some r.session.call_id)

created :
    (now c : ℕ) (input : CreateCallV2Input) (s : CallV2Service)
    → IsCreated input s
        (record {
          session = new_session now c input s;
          invited_user_ids = invited_users input s;
          busy_user_ids = busy_users input s;
        })
        (if is_private_busy input s
          then s
          else register_session c input (invited_users input s) (new_session now c input s) s)
unfolding register_session
created now c input s = record {
  busy = λ u. includes-busy_users u input s;
  invited = λ u. ground (arith, includes_callee u input s, includes-busy_users u input s);
  rung = λ u p e. ground (arith, lookup-new_session now c u input s, includes_callee u input s);
  status = unfold new_session in refl;
  state = elim (Bool-cases (is_private_busy input s)) [
    | inl busy ↦ rw busy refl
    | inr rings ↦ rw rings (
      unfold new_session in lookup-insert_self c (new_session now c input s) s.active_calls,
      unfold new_session in lookup-insert_self input.conversation_id c s.conversation_calls,
    )
  ];
}

-- `createCall` throws exactly if the conversation has a call that goes on; otherwise the callees
-- are split into the busy ones and the ones that ring, and a call that rings is registered.
pub create_call-outcome :
    (now c : ℕ) (input : CreateCallV2Input) (s : CallV2Service)
    → ((is_live (get_active_call_by_conversation input.conversation_id s) ≡ true)
        × (create_call now c input s ≡ (throw CallError.call_already_active, s)))
      ⊎ ((is_live (get_active_call_by_conversation input.conversation_id s) ≡ false)
          × ((r : CreateCallV2Result) × ((create_call now c input s).0 ≡ ok r)
              × IsCreated input s r (create_call now c input s).1))
create_call-outcome now c input s = elim (create_call-cases now c input s) [
  | inl failed ↦ inl failed
  | inr (free, done) ↦ inr (free, (_, ap (λ q. q.0) done, rw done (created now c input s)))
]
