-- ===== src/Call/Creation.antt =====
-- The participants and the record of a new call.
use chat_be.Base.{
  ℕ, ◌≡◌, refl, inl, inr, Bool, true, false, not, ◌&&◌, none, some, List, [], ◌∷◌, arith, ◌==◌,
  is_some, if◌then◌else◌, any, includes, includes-filter, Dict, lookup, insert, values, Bool-cases,
  lookup-insert, any-insert,
}
use chat_be.Call.Model.{CallV2Participant, CallV2Service, CreateCallV2Input}
use chat_be.Call.Service.{is_callee_that_joined, has_ever_joined_callee, is_user_busy}
use chat_be.Call.Create.{
  add_participants, set_user_calls, busy_users, invited_users, new_session, caller_participant,
  invited_participant, busy_participant,
}
use chat_be.Call.Invariant.{IsSound}

-- The loops of `createCall`.
lookup-add_participants :
    (make : ℕ → CallV2Participant) (us : List ℕ) (w : ℕ) (ps : Dict CallV2Participant)
    → lookup w (add_participants make us ps)
      ≡ (if includes w us then some (make w) else lookup w ps)
unfolding add_participants
lookup-add_participants make [] w ps = refl
lookup-add_participants make (u ∷ us) w ps =
    rw (lookup-add_participants make us w (insert u (make u) ps))
      (ground (arith, lookup-insert w u (make u) ps))

pub lookup-set_user_calls :
    (us : List ℕ) (c w : ℕ) (m : Dict ℕ)
    → lookup w (set_user_calls us c m) ≡ (if includes w us then some c else lookup w m)
unfolding set_user_calls
lookup-set_user_calls [] c w m = refl
lookup-set_user_calls (u ∷ us) c w m =
    rw (lookup-set_user_calls us c w (insert u c m)) (ground (arith, lookup-insert w u c m))

any-add_participants :
    (f : CallV2Participant → Bool) (make : ℕ → CallV2Participant) (us : List ℕ)
    (ps : Dict CallV2Participant)
    → ((u : ℕ) → f (make u) ≡ false)
    → any f (values ps) ≡ false
    → any f (values (add_participants make us ps)) ≡ false
unfolding add_participants
any-add_participants f make [] ps h e = e
any-add_participants f make (u ∷ us) ps h e =
    any-add_participants f make us (insert u (make u) ps) h
      (elim (Bool-cases (any f (values (insert u (make u) ps)))) [
        | inl yes_any ↦ elim (any-insert f u (make u) ps yes_any) [
          | inl a ↦ ground (arith, h u)
          | inr b ↦ cc
        ]
        | inr none_any ↦ none_any
      ])

pub includes_callee :
    (u : ℕ) (input : CreateCallV2Input) (s : CallV2Service)
    → includes u (invited_users input s)
      ≡ (includes u input.callee_ids && not (includes u (busy_users input s)))
unfolding invited_users
includes_callee u input s =
    includes-filter (λ w. not (includes w (busy_users input s))) u input.callee_ids

pub includes-busy_users :
    (u : ℕ) (input : CreateCallV2Input) (s : CallV2Service)
    → includes u (busy_users input s) ≡ (includes u input.callee_ids && is_user_busy s u)
unfolding busy_users
includes-busy_users u input s = includes-filter (is_user_busy s) u input.callee_ids

-- A participant of a new call: busy, invited, the caller, or nobody.
pub lookup-new_session :
    (now c w : ℕ) (input : CreateCallV2Input) (s : CallV2Service)
    → lookup w (new_session now c input s).participants ≡ (
        if includes w (busy_users input s)
        then some (busy_participant now w)
        else if includes w (invited_users input s)
        then some (invited_participant now w)
        else if w == input.caller_id
        then some (caller_participant now input.caller_id)
        else none)
unfolding new_session
lookup-new_session now c w input s = simp lookup-add_participants

module _ (now c : ℕ) (input : CreateCallV2Input) (s : CallV2Service) where
  new_session-named :
      (w : ℕ) (p : CallV2Participant)
      → lookup w (new_session now c input s).participants ≡ some p
      → p.user_id ≡ w
  new_session-named w p e = ground (arith, lookup-new_session now c w input s)

  new_session-nobody_joined : has_ever_joined_callee (new_session now c input s) ≡ false
  unfolding new_session
  new_session-nobody_joined =
      let f = is_callee_that_joined input.caller_id in
      let base = insert input.caller_id (caller_participant now input.caller_id) [] in
      any-add_participants f (busy_participant now) (busy_users input s)
        (add_participants (invited_participant now) (invited_users input s) base)
        (λ u. ground arith)
        (any-add_participants f (invited_participant now) (invited_users input s) base
          (λ u. ground arith) (ground arith))

  new_session-answered :
      has_ever_joined_callee (new_session now c input s) ≡ true
      → is_some (new_session now c input s).answered_at ≡ true
  new_session-answered e = cc new_session-nobody_joined

  pub new_session-IsSound : IsSound c (new_session now c input s)
  unfolding new_session
  new_session-IsSound = record {
    keyed = refl;
    named = new_session-named;
    closed_at = ground arith;
    closed_by = ground arith;
    timer = λ e. ground arith;
    answered = new_session-answered;
    in_call_answered = λ e. ground arith;
  }
