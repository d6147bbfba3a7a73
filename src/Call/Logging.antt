-- ===== src/Call/Logging.antt =====
-- A log entry keeps the maps of the service together.
use chat_be.Base.{
  ℕ, ◌≡◌, inl, inr, some, arith, ◌==◌, lookup, Bool-cases, Option-cases, eq_of_==, ne_of_==,
  lookup-insert, ◌∙◌, lookup-insert_self, lookup-insert_ne, lookup-insert_cases,
}
use chat_be.Call.Model.{CallV2Session, CallV2Service}
use chat_be.Call.Ends.{mark_logged}
use chat_be.Call.Invariant.{IsSound, IsValid}

logged-IsSound :
    (c m : ℕ) (x : CallV2Session)
    → IsSound c x
    → IsSound c (record x { logged_message_id = some m })
logged-IsSound c m x h = record {
  keyed = h.keyed;
  named = h.named;
  closed_at = h.closed_at;
  closed_by = h.closed_by;
  timer = h.timer;
  answered = h.answered;
  in_call_answered = h.in_call_answered;
}

-- The message id of a log is written to a session that is over too.
pub mark_logged-IsValid : (c m : ℕ) (s : CallV2Service) → IsValid s → IsValid (mark_logged c m s)
unfolding mark_logged
mark_logged-IsValid c m s h = elim (Option-cases (lookup c s.active_calls)) [
  | inl absent ↦ rw (absent, mark_logged) h
  | inr (x, found) ↦
      let x' : CallV2Session = record x { logged_message_id = some m } in
      rw (found, mark_logged)
        (record {
          sound = λ d y e. elim (lookup-insert_cases d c x' y s.active_calls e) [
            | inl (here, xy) ↦ rw here (rw (← xy) (logged-IsSound c m x (h.sound c x found)))
            | inr (_, old) ↦ h.sound d y old
          ];
          taken = λ u d e.
              let (y, at_d, goes_on, engaged) = h.taken u d e in
              elim (Bool-cases (d == c)) [
                | inl here ↦
                    let dc = eq_of_== d c here in
                    let xy : y ≡ x = ground arith in
                    (
                      x',
                      rw dc (lookup-insert_self c x' s.active_calls),
                      rw xy at goes_on,
                      rw xy at engaged,
                    )
                | inr other ↦ (
                  y,
                  lookup-insert_ne d c x' s.active_calls (ne_of_== d c other) ∙ at_d,
                  goes_on,
                  engaged,
                )
              ];
          held = λ v d e.
              let (y, at_d, goes_on, of_v) = h.held v d e in
              elim (Bool-cases (d == c)) [
                | inl here ↦
                    let dc = eq_of_== d c here in
                    let xy : y ≡ x = ground arith in
                    (
                      x',
                      rw dc (lookup-insert_self c x' s.active_calls),
                      rw xy at goes_on,
                      rw xy at of_v,
                    )
                | inr other ↦ (
                  y,
                  lookup-insert_ne d c x' s.active_calls (ne_of_== d c other) ∙ at_d,
                  goes_on,
                  of_v,
                )
              ];
          live = λ d y e o.
              ground (arith, lookup-insert d c x' s.active_calls, h.live d y, h.live c x);
        })
]
