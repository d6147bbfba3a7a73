-- ===== src/Call/Frames.antt =====
-- A method leaves every other call alone, so what is over stays as it is.
use chat_be.Base.{
  ℕ, ◌≡◌, refl, ◌≢◌, inl, inr, Bool, true, false, Option, none, some, arith, ◌==◌, ◌∙◌, ap,
  map_values, lookup, Bool-cases, Option-cases, lookup-insert_ne, lookup-insert_self, eq_of_==,
  ne_of_==,
}
use chat_be.Call.Model.{
  CallV2ParticipantStatus, CallV2SessionStatus, CallV2Session, CallV2Service, CreateCallV2Input,
  CallError, throw,
}
use chat_be.Call.Service.{is_terminal, has_ever_joined_callee}
use chat_be.Call.Create.{create_call, register_session, is_private_busy}
use chat_be.Call.Moves.{
  join_call, reject_call, mark_missed, refuse_call, leave_call, settle, open_session,
}
use chat_be.Call.Ends.{end_call, handle_timeout, time_out, mark_logged, miss_participant}
use chat_be.Call.Preservation.{open_session-cases}
use chat_be.Call.Joining.{join_call-cases}
use chat_be.Call.Registration.{create_call-cases}
use chat_be.Call.Reach.{Step, create, join, reject, miss, leave, finish, timeout, log}

-- The entry of a call in a state.
abbrev at_call : ℕ → CallV2Service → Option CallV2Session
at_call c s = lookup c s.active_calls

module _ (s : CallV2Service) (now c d u : ℕ) (ne : c ≢ d) where
  settle-frame :
      (final : CallV2SessionStatus) (x : CallV2Session) (over : Bool)
      → at_call c (settle now d u final x over s).1 ≡ at_call c s
  unfolding settle
  settle-frame final x true = lookup-insert_ne c d _ s.active_calls ne
  settle-frame final x false = lookup-insert_ne c d _ s.active_calls ne

  refuse_call-frame :
      (st : CallV2ParticipantStatus) (final : CallV2SessionStatus)
      → at_call c (refuse_call st final now d u s).1 ≡ at_call c s
  unfolding refuse_call
  refuse_call-frame st final = elim (open_session-cases d u s) [
    | inl (e, failed) ↦ rw (failed, refuse_call) refl
    | inr (x, p, opened, _, _, _) ↦ rw (opened, refuse_call) (settle-frame final _ _)
  ]

  leave_call-frame : at_call c (leave_call now d u s).1 ≡ at_call c s
  unfolding leave_call
  leave_call-frame = elim (open_session-cases d u s) [
    | inl (e, failed) ↦ rw (failed, leave_call) refl
    | inr (x, p, opened, _, _, _) ↦ rw (opened, leave_call) (settle-frame _ _ _)
  ]

  end_call-frame : at_call c (end_call now d u s).1 ≡ at_call c s
  unfolding end_call
  end_call-frame = elim (open_session-cases d u s) [
    | inl (e, failed) ↦ rw (failed, end_call) refl
    | inr (x, p, opened, _, _, _) ↦ rw (opened, end_call) (lookup-insert_ne c d _ s.active_calls ne)
  ]

  join_call-frame : at_call c (join_call now d u s).1 ≡ at_call c s
  join_call-frame = elim (join_call-cases now d u s) [
    | inl (e, failed) ↦ rw failed refl
    | inr (x, joined, _, _, _) ↦ rw joined (lookup-insert_ne c d _ s.active_calls ne)
  ]

  time_out-frame : (x : CallV2Session) → at_call c (time_out now d x s).1 ≡ at_call c s
  unfolding time_out
  time_out-frame x =
      let changed : CallV2Session = record x {
        participants = map_values (miss_participant now) x.participants;
      } in
      elim (Bool-cases (has_ever_joined_callee changed)) [
        | inl joined ↦ rw joined (lookup-insert_ne c d _ s.active_calls ne)
        | inr nobody ↦ rw nobody (lookup-insert_ne c d _ s.active_calls ne)
      ]

  handle_timeout-frame : at_call c (handle_timeout now d s).1 ≡ at_call c s
  unfolding handle_timeout
  handle_timeout-frame = elim (Option-cases (lookup d s.active_calls)) [
    | inl absent ↦ rw (absent, handle_timeout) refl
    | inr (x, found) ↦ elim (Bool-cases (is_terminal x)) [
      | inl over ↦ rw (found, handle_timeout) (rw over refl)
      | inr goes_on ↦ rw (found, handle_timeout) (rw goes_on (time_out-frame x))
    ]
  ]

-- On a call that is over nothing is written.
module _ (s : CallV2Service) (now c u : ℕ) (x : CallV2Session)
    (found : lookup c s.active_calls ≡ some x) (over : is_terminal x ≡ true) where
  open_session-fails : (e : CallError) × (open_session c u s ≡ (throw e, s))
  open_session-fails = elim (open_session-cases c u s) [
    | inl failed ↦ failed
    | inr (y, p, _, at_c, _, goes_on) ↦ let xy : y ≡ x = ground arith in absurd (ground arith)
  ]

  refuse_call-over :
      (st : CallV2ParticipantStatus) (final : CallV2SessionStatus)
      → (refuse_call st final now c u s).1 ≡ s
  unfolding refuse_call
  refuse_call-over st final = let (e, failed) = open_session-fails in rw (failed, refuse_call) refl

  leave_call-over : (leave_call now c u s).1 ≡ s
  unfolding leave_call
  leave_call-over = let (e, failed) = open_session-fails in rw (failed, leave_call) refl

  end_call-over : (end_call now c u s).1 ≡ s
  unfolding end_call
  end_call-over = let (e, failed) = open_session-fails in rw (failed, end_call) refl

  join_call-over : (join_call now c u s).1 ≡ s
  join_call-over = elim (join_call-cases now c u s) [
    | inl (e, failed) ↦ rw failed refl
    | inr (y, _, at_c, goes_on, _) ↦ let xy : y ≡ x = ground arith in absurd (ground arith)
  ]

  handle_timeout-over : (handle_timeout now c s).1 ≡ s
  unfolding handle_timeout
  handle_timeout-over = rw (found, handle_timeout) (rw over refl)

-- The session, with another id of a logged message or the same.
abbrev pub StaysAs : CallV2Session → Option CallV2Session → Type 0
StaysAs x o = (m : Option ℕ) × (o ≡ some (record x { logged_message_id = m }))

module _ (s : CallV2Service) (c : ℕ) (x : CallV2Session) (found : lookup c s.active_calls ≡ some x)
    (over : is_terminal x ≡ true) where
  unchanged : {o : Option CallV2Session} → o ≡ at_call c s → StaysAs x o
  unchanged e = (x.logged_message_id, e ∙ found)

  -- A method that writes nothing on a call that is over, and only to its own call.
  by_frame :
      (d : ℕ) (t : CallV2Service)
      → (c ≢ d → at_call c t ≡ at_call c s)
      → (c ≡ d → t ≡ s)
      → StaysAs x (at_call c t)
  by_frame d t elsewhere same = elim (Bool-cases (c == d)) [
    | inl here ↦ unchanged (ap (at_call c) (same (eq_of_== c d here)))
    | inr other ↦ unchanged (elsewhere (ne_of_== c d other))
  ]

  create-StaysAs :
      (now d : ℕ) (input : CreateCallV2Input)
      → lookup d s.active_calls ≡ none
      → StaysAs x (at_call c (create_call now d input s).1)
  unfolding register_session
  create-StaysAs now d input fresh =
      let ne : c ≢ d = λ eq. ground arith in
      elim (create_call-cases now d input s) [
        | inl (_, failed) ↦ unchanged (ap (λ r. at_call c r.1) failed)
        | inr (_, done) ↦ rw done (elim (Bool-cases (is_private_busy input s)) [
          | inl busy ↦ rw busy (unchanged refl)
          | inr rings ↦ rw rings (unchanged (lookup-insert_ne c d _ s.active_calls ne))
        ])
      ]

  mark_logged-StaysAs : (d m : ℕ) → StaysAs x (at_call c (mark_logged d m s))
  unfolding mark_logged
  mark_logged-StaysAs d m = elim (Option-cases (lookup d s.active_calls)) [
    | inl absent ↦ rw (absent, mark_logged) (unchanged refl)
    | inr (y, at_d) ↦
        rw (at_d, mark_logged)
          (elim (Bool-cases (c == d)) [
            | inl here ↦
                let cd = eq_of_== c d here in
                let yx : y ≡ x = ground arith in
                (some m, rw (← cd, yx) (lookup-insert_self c _ s.active_calls))
            | inr other ↦ unchanged (lookup-insert_ne c d _ s.active_calls (ne_of_== c d other))
          ])
  ]

-- Whatever is called next, and whichever timer fires, the record of a call that is over stays as it
-- is, but for the id of the message that logs it.
pub Step-StaysAs :
    {s t : CallV2Service} (c : ℕ) (x : CallV2Session)
    → lookup c s.active_calls ≡ some x
    → is_terminal x ≡ true
    → Step s t
    → StaysAs x (lookup c t.active_calls)
unfolding reject_call mark_missed
Step-StaysAs {s} c x found over (create now d input fresh apart) =
    create-StaysAs s c x found over now d input fresh
Step-StaysAs {s} c x found over (join now d u) =
    by_frame s c x found over d (join_call now d u s).1 (join_call-frame s now c d u)
      (λ cd. join_call-over s now d u x (rw cd at found) over)
Step-StaysAs {s} c x found over (reject now d u) =
    let st = CallV2ParticipantStatus.declined in
    let final = CallV2SessionStatus.rejected in
    by_frame s c x found over d (reject_call now d u s).1
      (λ ne. refuse_call-frame s now c d u ne st final)
      (λ cd. refuse_call-over s now d u x (rw cd at found) over st final)
Step-StaysAs {s} c x found over (miss now d u) =
    let st = CallV2ParticipantStatus.missed in
    let final = CallV2SessionStatus.missed in
    by_frame s c x found over d (mark_missed now d u s).1
      (λ ne. refuse_call-frame s now c d u ne st final)
      (λ cd. refuse_call-over s now d u x (rw cd at found) over st final)
Step-StaysAs {s} c x found over (leave now d u) =
    by_frame s c x found over d (leave_call now d u s).1 (leave_call-frame s now c d u)
      (λ cd. leave_call-over s now d u x (rw cd at found) over)
Step-StaysAs {s} c x found over (finish now d u) =
    by_frame s c x found over d (end_call now d u s).1 (end_call-frame s now c d u)
      (λ cd. end_call-over s now d u x (rw cd at found) over)
Step-StaysAs {s} c x found over (timeout now d) =
    by_frame s c x found over d (handle_timeout now d s).1 (handle_timeout-frame s now c d d)
      (λ cd. handle_timeout-over s now d d x (rw cd at found) over)
Step-StaysAs {s} c x found over (log d m) = mark_logged-StaysAs s c x found over d m
