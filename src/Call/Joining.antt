-- ===== src/Call/Joining.antt =====
-- A user who joins keeps the maps of the service together.
use chat_be.Base.{
  ℕ, ◌≡◌, refl, ◌≢◌, ◌⊎◌, inl, inr, false, some, arith, ◌==◌, lookup, insert, Bool-cases,
  Option-cases, eq_of_==, ne_of_==, ◌∙◌, sym, lookup-insert_self, lookup-insert_ne,
  lookup-insert_cases,
}
use chat_be.Call.Model.{CallV2Session, CallV2Service, CallError, ok, throw}
use chat_be.Call.Service.{is_terminal}
use chat_be.Call.Moves.{join_session, join_call, is_other_call, joining_participant}
use chat_be.Call.Invariant.{IsEngaged, IsValid, UsersFit, changed-IsValid}
use chat_be.Call.Sound.{join_session-IsSound}

-- `joinCall` throws and changes nothing, or finds a session that goes on and a user who is free.
pub join_call-cases :
    (now c u : ℕ) (s : CallV2Service)
    → ((e : CallError) × (join_call now c u s ≡ (throw e, s)))
      ⊎ ((x : CallV2Session) × (join_call now c u s ≡ (
        ok (join_session now u x),
        record s {
          active_calls = insert c (join_session now u x) s.active_calls;
          user_calls = insert u c s.user_calls;
        },
      ))
          × (lookup c s.active_calls ≡ some x)
          × (is_terminal x ≡ false)
          × (is_other_call (lookup u s.user_calls) c ≡ false))
unfolding join_call
join_call-cases now c u s = elim (Option-cases (lookup c s.active_calls)) [
  | inl absent ↦ inl (CallError.call_not_found, ground arith)
  | inr (x, found) ↦ elim (Bool-cases (is_terminal x)) [
    | inl over ↦ inl (CallError.call_has_ended, ground arith)
    | inr goes_on ↦ elim (Bool-cases (is_other_call (lookup u s.user_calls) c)) [
      | inl elsewhere ↦ inl (CallError.user_is_busy, ground arith)
      | inr free ↦ inr (x, ground arith, found, goes_on, free)
    ]
  ]
]

module _ (s : CallV2Service) (now c u : ℕ) (x : CallV2Session) (h : IsValid s)
    (found : lookup c s.active_calls ≡ some x) where
  joining-IsEngaged : IsEngaged u (join_session now u x)
  unfolding join_session
  joining-IsEngaged = (
    joining_participant now u x.participants,
    lookup-insert_self u _ x.participants,
    ground arith,
  )

  joined-IsEngaged : (w : ℕ) → w ≢ u → IsEngaged w x → IsEngaged w (join_session now u x)
  unfolding join_session
  joined-IsEngaged w ne (p, at_w, busy) = (p, lookup-insert_ne w u _ x.participants ne ∙ at_w, busy)

  joined-fit : UsersFit c (join_session now u x) s.user_calls (insert u c s.user_calls)
  joined-fit w d e = elim (lookup-insert_cases w u c d s.user_calls e) [
    | inl (same, new) ↦ inr (sym new, rw same joining-IsEngaged)
    | inr (ne, old) ↦ elim (Bool-cases (d == c)) [
      | inl dc ↦
          let (y, at_d, _, engaged) = h.taken w d old in
          let cd = eq_of_== d c dc in
          let xy : y ≡ x = ground arith in inr (cd, joined-IsEngaged w ne (rw xy at engaged))
      | inr other ↦ inl (ne_of_== d c other, old)
    ]
  ]

pub join_call-IsValid :
    (now c u : ℕ) (s : CallV2Service) → IsValid s → IsValid (join_call now c u s).1
join_call-IsValid now c u s h = elim (join_call-cases now c u s) [
  | inl (e, failed) ↦ rw failed h
  | inr (x, joined, found, goes_on, free) ↦ rw joined (
      changed-IsValid s c x (join_session now u x) (insert u c s.user_calls) h found goes_on
        (join_session-IsSound now u c x (h.sound c x found) goes_on) (unfold join_session in refl)
        (unfold join_session in refl) (joined-fit s now c u x h found))
]
