-- ===== src/Call/Invariant.antt =====
-- What holds of the service between two method calls.
use chat_be.Base.{
  ℕ, ◌≡◌, ◌≢◌, ◌⊎◌, inl, inr, Bool, true, false, some, arith, ◌==◌, is_some, Bool-cases, eq_of_==,
  ne_of_==, Dict, lookup, insert, delete, lookup-insert, lookup-insert_cases, lookup-insert_self,
  lookup-insert_ne, lookup-delete, lookup-delete_cases, ◌∙◌,
}
use chat_be.Call.Model.{
  CallV2ParticipantStatus, CallV2SessionStatus, CallV2Participant, CallV2Session, CallV2Service,
}
use chat_be.Call.Service.{is_terminal, has_ever_joined_callee}

-- The participant is in the call or is being rung.
abbrev pub is_engaged : CallV2ParticipantStatus → Bool
is_engaged CallV2ParticipantStatus.joined = true
is_engaged CallV2ParticipantStatus.ringing = true
is_engaged _ = false

abbrev pub IsEngaged : ℕ → CallV2Session → Type 0
IsEngaged u x =
    (p : CallV2Participant) × (lookup u x.participants ≡ some p) × (is_engaged p.status ≡ true)

-- A session under its id: who ended it and when is known exactly if it is over, its timer is then
-- cleared, each participant stands under its own id, and a call that a callee joined was answered.
pub record IsSound (c : ℕ) (x : CallV2Session) : Type 0 where
  pub keyed : x.call_id ≡ c
  pub named : (u : ℕ) (p : CallV2Participant) → lookup u x.participants ≡ some p → p.user_id ≡ u
  pub closed_at : is_terminal x ≡ is_some x.ended_at
  pub closed_by : is_terminal x ≡ is_some x.ended_by
  pub timer : is_terminal x ≡ true → x.timeout_handle ≡ false
  pub answered : has_ever_joined_callee x ≡ true → is_some x.answered_at ≡ true
  pub in_call_answered : x.status ≡ CallV2SessionStatus.in_call → is_some x.answered_at ≡ true

-- The three maps fit together: a user is taken by a call that goes on and has him joined or ringing,
-- and a conversation holds exactly the one call of it that goes on.
pub record IsValid (s : CallV2Service) : Type 0 where
  pub sound : (c : ℕ) (x : CallV2Session) → lookup c s.active_calls ≡ some x → IsSound c x
  pub taken :
      (u c : ℕ)
      → lookup u s.user_calls ≡ some c
      → (x : CallV2Session) × (lookup c s.active_calls ≡ some x)
        × (is_terminal x ≡ false)
        × IsEngaged u x
  pub held :
      (v c : ℕ)
      → lookup v s.conversation_calls ≡ some c
      → (x : CallV2Session) × (lookup c s.active_calls ≡ some x)
        × (is_terminal x ≡ false)
        × (x.conversation_id ≡ v)
  pub live :
      (c : ℕ) (x : CallV2Session)
      → lookup c s.active_calls ≡ some x
      → is_terminal x ≡ false
      → lookup x.conversation_id s.conversation_calls ≡ some c

-- An entry of the new `userCalls` is an old one of another call, or one of the changed session.
abbrev pub UsersFit : ℕ → CallV2Session → Dict ℕ → Dict ℕ → Type 0
UsersFit c x old new =
    (u d : ℕ)
    → lookup u new ≡ some d
    → ((d ≢ c) × (lookup u old ≡ some d)) ⊎ ((d ≡ c) × IsEngaged u x)

-- One session changes, and goes on.
module _ (s : CallV2Service) (c : ℕ) (x x' : CallV2Session) (users : Dict ℕ) (h : IsValid s)
    (found : lookup c s.active_calls ≡ some x) (open_x : is_terminal x ≡ false)
    (sound' : IsSound c x') (open_x' : is_terminal x' ≡ false)
    (same : x'.conversation_id ≡ x.conversation_id) (fit : UsersFit c x' s.user_calls users) where
  changed-IsSound :
      (d : ℕ) (y : CallV2Session) → lookup d (insert c x' s.active_calls) ≡ some y → IsSound d y
  changed-IsSound d y e = elim (lookup-insert_cases d c x' y s.active_calls e) [
    | inl (here, xy) ↦ rw here (rw (← xy) sound')
    | inr (_, old) ↦ h.sound d y old
  ]

  changed-taken :
      (u d : ℕ)
      → lookup u users ≡ some d
      → (y : CallV2Session) × (lookup d (insert c x' s.active_calls) ≡ some y)
        × (is_terminal y ≡ false)
        × IsEngaged u y
  changed-taken u d e = elim (fit u d e) [
    | inl (ne, old) ↦
        let (y, at_d, goes_on, engaged) = h.taken u d old in
        (y, lookup-insert_ne d c x' s.active_calls ne ∙ at_d, goes_on, engaged)
    | inr (eq, engaged) ↦ (x', rw eq (lookup-insert_self c x' s.active_calls), open_x', engaged)
  ]

  changed-held :
      (v d : ℕ)
      → lookup v s.conversation_calls ≡ some d
      → (y : CallV2Session) × (lookup d (insert c x' s.active_calls) ≡ some y)
        × (is_terminal y ≡ false)
        × (y.conversation_id ≡ v)
  changed-held v d e =
      let (y, at_d, goes_on, of_v) = h.held v d e in
      elim (Bool-cases (d == c)) [
        | inl here ↦ (
          x',
          rw (eq_of_== d c here) (lookup-insert_self c x' s.active_calls),
          open_x',
          ground (arith, eq_of_== d c here),
        )
        | inr other ↦
            (y, lookup-insert_ne d c x' s.active_calls (ne_of_== d c other) ∙ at_d, goes_on, of_v)
      ]

  changed-live :
      (d : ℕ) (y : CallV2Session)
      → lookup d (insert c x' s.active_calls) ≡ some y
      → is_terminal y ≡ false
      → lookup y.conversation_id s.conversation_calls ≡ some d
  changed-live d y e o = ground (arith, lookup-insert d c x' s.active_calls, h.live d y, h.live c x)

  pub changed-IsValid :
      IsValid (record s { active_calls = insert c x' s.active_calls; user_calls = users })
  changed-IsValid = record {
    sound = changed-IsSound;
    taken = changed-taken;
    held = changed-held;
    live = changed-live;
  }

-- One session is over: its conversation and its users are released.
module _ (s : CallV2Service) (c : ℕ) (x x' : CallV2Session) (users : Dict ℕ) (h : IsValid s)
    (found : lookup c s.active_calls ≡ some x) (open_x : is_terminal x ≡ false)
    (sound' : IsSound c x') (over : is_terminal x' ≡ true)
    (released : (u d : ℕ)
      → lookup u users ≡ some d
      → (d ≢ c) × (lookup u s.user_calls ≡ some d)) where
  closed-IsSound :
      (d : ℕ) (y : CallV2Session) → lookup d (insert c x' s.active_calls) ≡ some y → IsSound d y
  closed-IsSound d y e = elim (lookup-insert_cases d c x' y s.active_calls e) [
    | inl (here, xy) ↦ rw here (rw (← xy) sound')
    | inr (_, old) ↦ h.sound d y old
  ]

  closed-taken :
      (u d : ℕ)
      → lookup u users ≡ some d
      → (y : CallV2Session) × (lookup d (insert c x' s.active_calls) ≡ some y)
        × (is_terminal y ≡ false)
        × IsEngaged u y
  closed-taken u d e =
      let (ne, old) = released u d e in
      let (y, at_d, goes_on, engaged) = h.taken u d old in
      (y, lookup-insert_ne d c x' s.active_calls ne ∙ at_d, goes_on, engaged)

  closed-held :
      (v d : ℕ)
      → lookup v (delete x.conversation_id s.conversation_calls) ≡ some d
      → (y : CallV2Session) × (lookup d (insert c x' s.active_calls) ≡ some y)
        × (is_terminal y ≡ false)
        × (y.conversation_id ≡ v)
  closed-held v d e =
      let (ne, old) = lookup-delete_cases v x.conversation_id d s.conversation_calls e in
      let (y, at_d, goes_on, of_v) = h.held v d old in
      let other : d ≢ c = λ eq. ne (ground arith) in
      (y, lookup-insert_ne d c x' s.active_calls other ∙ at_d, goes_on, of_v)

  closed-live :
      (d : ℕ) (y : CallV2Session)
      → lookup d (insert c x' s.active_calls) ≡ some y
      → is_terminal y ≡ false
      → lookup y.conversation_id (delete x.conversation_id s.conversation_calls) ≡ some d
  closed-live d y e o = ground (
    arith,
    lookup-insert d c x' s.active_calls,
    lookup-delete y.conversation_id x.conversation_id s.conversation_calls,
    h.live d y,
    h.live c x,
  )

  pub closed-IsValid : IsValid (record s {
    active_calls = insert c x' s.active_calls;
    conversation_calls = delete x.conversation_id s.conversation_calls;
    user_calls = users;
  })
  closed-IsValid = record {
    sound = closed-IsSound;
    taken = closed-taken;
    held = closed-held;
    live = closed-live;
  }
