-- ===== src/Call/Registration.antt =====
-- A new call keeps the maps of the service together.
use chat_be.Base.{
  ℕ, ◌≡◌, refl, ◌≢◌, ◌⊎◌, inl, inr, true, false, none, some, arith, if◌then◌else◌, includes, lookup,
  insert, Bool-cases, ◌∙◌, sym, lookup-insert_self, lookup-insert_ne, lookup-insert_cases,
}
use chat_be.Call.Model.{CallV2Session, CallV2Service, CreateCallV2Input, CallError, ok, throw}
use chat_be.Call.Service.{is_terminal, is_live, get_active_call_by_conversation}
use chat_be.Call.Create.{
  set_user_calls, busy_users, invited_users, is_private_busy, new_session, register_session,
  create_call, caller_participant, invited_participant,
}
use chat_be.Call.Invariant.{IsEngaged, IsValid}
use chat_be.Call.Creation.{
  lookup-set_user_calls, includes_callee, includes-busy_users, lookup-new_session,
  new_session-IsSound,
}

-- A call that rings: its id is new, its conversation has no call that goes on, and its caller is
-- none of the callees.
module _ (now c : ℕ) (input : CreateCallV2Input) (s : CallV2Service) (h : IsValid s)
    (fresh : lookup c s.active_calls ≡ none)
    (free : is_live (get_active_call_by_conversation input.conversation_id s) ≡ false)
    (apart : includes input.caller_id input.callee_ids ≡ false)
    (rings : is_private_busy input s ≡ false) where
  rings-is_terminal : is_terminal (new_session now c input s) ≡ false
  unfolding new_session
  rings-is_terminal = rw rings refl

  invited-IsEngaged :
      (u : ℕ) → includes u (invited_users input s) ≡ true → IsEngaged u (new_session now c input s)
  invited-IsEngaged u e = (
    invited_participant now u,
    ground (arith, lookup-new_session now c u input s, includes_callee u input s),
    refl,
  )

  caller-IsEngaged : IsEngaged input.caller_id (new_session now c input s)
  caller-IsEngaged = (
    caller_participant now input.caller_id,
    ground (
      arith,
      lookup-new_session now c input.caller_id input s,
      includes_callee input.caller_id input s,
      includes-busy_users input.caller_id input s,
    ),
    refl,
  )

  not_fresh : (d : ℕ) (y : CallV2Session) → lookup d s.active_calls ≡ some y → d ≢ c
  not_fresh d y at_d eq = ground arith

  other_conversation :
      (d : ℕ) (y : CallV2Session)
      → lookup d s.active_calls ≡ some y
      → is_terminal y ≡ false
      → y.conversation_id ≢ input.conversation_id
  unfolding get_active_call_by_conversation
  other_conversation d y at_d goes_on eq = ground (arith, h.live d y at_d goes_on)

  new_session-conversation : (new_session now c input s).conversation_id ≡ input.conversation_id
  unfolding new_session
  new_session-conversation = refl

  user_calls-cases :
      (u d : ℕ)
      → lookup u (set_user_calls (invited_users input s) c (insert input.caller_id c s.user_calls))
        ≡ some d
      → ((d ≡ c) × IsEngaged u (new_session now c input s)) ⊎ (lookup u s.user_calls ≡ some d)
  user_calls-cases u d e =
      let in_new =
        lookup-set_user_calls (invited_users input s) c u (insert input.caller_id c s.user_calls) in
      elim (Bool-cases (includes u (invited_users input s))) [
        | inl called ↦ inl (ground arith, invited-IsEngaged u called)
        | inr other ↦ elim (lookup-insert_cases u input.caller_id c d s.user_calls (ground arith)) [
          | inl (caller, eq) ↦ inl (sym eq, rw caller caller-IsEngaged)
          | inr (_, old) ↦ inr old
        ]
      ]

  pub register_session-IsValid :
      IsValid (register_session c input (invited_users input s) (new_session now c input s) s)
  unfolding register_session
  register_session-IsValid =
      let x = new_session now c input s in
      record {
        sound = λ d y e. elim (lookup-insert_cases d c x y s.active_calls e) [
          | inl (here, xy) ↦ rw here (rw (← xy) (new_session-IsSound now c input s))
          | inr (_, old) ↦ h.sound d y old
        ];
        taken = λ u d e. elim (user_calls-cases u d e) [
          | inl (dc, engaged) ↦
              (x, rw dc (lookup-insert_self c x s.active_calls), rings-is_terminal, engaged)
          | inr old ↦
              let (y, at_d, goes_on, engaged) = h.taken u d old in
              (
                y,
                lookup-insert_ne d c x s.active_calls (not_fresh d y at_d) ∙ at_d,
                goes_on,
                engaged,
              )
        ];
        held = λ v d e.
            elim (lookup-insert_cases v input.conversation_id c d s.conversation_calls e) [
              | inl (here, cd) ↦ (
                x,
                rw (← cd) (lookup-insert_self c x s.active_calls),
                rings-is_terminal,
                new_session-conversation ∙ sym here,
              )
              | inr (_, old) ↦
                  let (y, at_d, goes_on, of_v) = h.held v d old in
                  (
                    y,
                    lookup-insert_ne d c x s.active_calls (not_fresh d y at_d) ∙ at_d,
                    goes_on,
                    of_v,
                  )
            ];
        live = λ d y e o. elim (lookup-insert_cases d c x y s.active_calls e) [
          | inl (here, xy) ↦ rw (← xy) (
              rw (new_session-conversation, here)
                (lookup-insert_self input.conversation_id c s.conversation_calls))
          | inr (_, old) ↦
              lookup-insert_ne y.conversation_id input.conversation_id c s.conversation_calls
                (other_conversation d y old o)
              ∙ h.live d y old o
        ];
      }

-- `createCall` throws, or answers with the new session; nothing is registered where it is private
-- and somebody is busy.
pub create_call-cases :
    (now c : ℕ) (input : CreateCallV2Input) (s : CallV2Service)
    → ((is_live (get_active_call_by_conversation input.conversation_id s) ≡ true)
        × (create_call now c input s ≡ (throw CallError.call_already_active, s)))
      ⊎ ((is_live (get_active_call_by_conversation input.conversation_id s) ≡ false)
          × (create_call now c input s ≡ (
            ok (record {
              session = new_session now c input s;
              invited_user_ids = invited_users input s;
              busy_user_ids = busy_users input s;
            }),
            if is_private_busy input s
                then s
                else register_session c input (invited_users input s) (new_session now c input s) s,
          )))
unfolding create_call
create_call-cases now c input s =
    elim (Bool-cases (is_live (get_active_call_by_conversation input.conversation_id s))) [
      | inl taken ↦ inl (taken, rw taken refl)
      | inr free ↦ inr (free, rw free refl)
    ]

pub create_call-IsValid :
    (now c : ℕ) (input : CreateCallV2Input) (s : CallV2Service)
    → lookup c s.active_calls ≡ none
    → includes input.caller_id input.callee_ids ≡ false
    → IsValid s
    → IsValid (create_call now c input s).1
create_call-IsValid now c input s fresh apart h = elim (create_call-cases now c input s) [
  | inl (_, failed) ↦ rw failed h
  | inr (free, done) ↦ rw done (elim (Bool-cases (is_private_busy input s)) [
    | inl busy ↦ rw busy h
    | inr rings ↦ rw rings (register_session-IsValid now c input s h fresh free apart rings)
  ])
]
