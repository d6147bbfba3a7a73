-- ===== src/Call/Endings.antt =====
-- What a method that succeeds has done.
use chat_be.Base.{
  ℕ, ◌≡◌, refl, ◌≢◌, inl, inr, true, false, not, none, some, List, arith, is_some, if◌then◌else◌,
  includes, Dict, lookup, keys, map_values, Bool-cases, Option-cases, lookup-insert_self,
  lookup-map_values, lookup-delete, any-map_values, ◌∙◌,
}
use chat_be.Call.Model.{
  CallV2SessionStatus, EndedBy, CallV2Participant, CallV2Session, CallV2Service, ok,
}
use chat_be.Call.Service.{
  is_terminal, is_ringing, release_users, has_ever_joined_callee, is_callee_that_joined,
}
use chat_be.Call.Moves.{open_session, close_session, final_status}
use chat_be.Call.Ends.{
  end_call, end_for_participant, miss_participant, handle_timeout, time_out, ringing_users,
}
use chat_be.Call.Invariant.{IsValid, is_engaged}
use chat_be.Call.Release.{lookup-release_users}
use chat_be.Call.Preservation.{release_users-apart}
use chat_be.Call.Lifecycle.{engaged-listed, includes-ringing_users}

open_session-opens :
    (c u : ℕ) (x : CallV2Session) (p : CallV2Participant) (s : CallV2Service)
    → lookup c s.active_calls ≡ some x
    → lookup u x.participants ≡ some p
    → is_terminal x ≡ false
    → open_session c u s ≡ (ok (x, p), s)
unfolding open_session
open_session-opens c u x p s found member goes_on = ground arith

-- What is left of a call: it is recorded as `y`, its conversation is free, nobody is held by it and
-- nobody in it is joined or ringing.
pub record IsEnded (c v : ℕ) (y : CallV2Session) (t : CallV2Service) : Type 0 where
  pub recorded : lookup c t.active_calls ≡ some y
  pub over : is_terminal y ≡ true
  pub freed : lookup v t.conversation_calls ≡ none
  pub released : (w : ℕ) → lookup w t.user_calls ≢ some c
  pub silent :
      (w : ℕ) (q : CallV2Participant)
      → lookup w y.participants ≡ some q
      → is_engaged q.status ≡ false

-- `endCall` by a participant of a call that goes on, in a valid state: the call is ended if it was
-- answered and cancelled if not, it releases its conversation and everybody, and nobody in it is
-- joined or ringing.
pub end_call-IsEnded :
    (now c u : ℕ) (x : CallV2Session) (p : CallV2Participant) (s : CallV2Service)
    → IsValid s
    → lookup c s.active_calls ≡ some x
    → lookup u x.participants ≡ some p
    → is_terminal x ≡ false
    → (y : CallV2Session) × ((end_call now c u s).0 ≡ ok y)
      × (y.status ≡ (
          if is_some x.answered_at
          then CallV2SessionStatus.ended
          else CallV2SessionStatus.cancelled))
      × IsEnded c x.conversation_id y (end_call now c u s).1
unfolding end_call close_session end_for_participant
end_call-IsEnded now c u x p s h found member goes_on =
    let f = end_for_participant now in
    let opened = open_session-opens c u x p s found member goes_on in
    let ended : CallV2Session = record x { participants = map_values f x.participants } in
    (
      record (close_session now (final_status ended) (EndedBy.user u) ended) {
        timeout_handle = false;
      },
      rw (opened, end_call) refl,
      refl,
      rw (opened, end_call)
          (record {
            recorded = lookup-insert_self c _ s.active_calls;
            over = ground arith;
            freed =
                ground
                  (arith, lookup-delete x.conversation_id x.conversation_id s.conversation_calls);
            released = λ w e.
                (release_users-apart s c x.call_id x (keys (map_values f x.participants))
                    s.user_calls (h.sound c x found).keyed h found (engaged-listed f x) (λ v d k. k)
                    w c e).0
                  refl;
            silent = λ w q e. elim (Option-cases (lookup w x.participants)) [
              | inl absent ↦ ground (arith, lookup-map_values f w x.participants)
              | inr (r, at_w) ↦ ground (arith, lookup-map_values f w x.participants)
            ];
          }),
    )

-- What a timeout leaves of a call that went on: recorded as `y`, nobody rings, and the notice lists
-- everybody who rang.
pub record IsTimedOut (c : ℕ) (x y : CallV2Session) (missed : List ℕ) (t : CallV2Service)
    : Type 0 where
  pub recorded : lookup c t.active_calls ≡ some y
  pub status : y.status ≡ (
      if has_ever_joined_callee x then CallV2SessionStatus.in_call else CallV2SessionStatus.missed)
  pub silent :
      (w : ℕ) (q : CallV2Participant)
      → lookup w y.participants ≡ some q
      → is_ringing q.status ≡ false
  pub listed :
      (w : ℕ) (q : CallV2Participant)
      → lookup w x.participants ≡ some q
      → is_ringing q.status ≡ true
      → includes w missed ≡ true
  pub let_go : (w : ℕ) → includes w missed ≡ true → lookup w t.user_calls ≢ some c

miss_participant-silent :
    (now : ℕ) (x : CallV2Session) (w : ℕ) (q : CallV2Participant)
    → lookup w (map_values (miss_participant now) x.participants) ≡ some q
    → is_ringing q.status ≡ false
unfolding miss_participant
miss_participant-silent now x w q e = elim (Option-cases (lookup w x.participants)) [
  | inl absent ↦ ground (arith, lookup-map_values (miss_participant now) w x.participants)
  | inr (r, at_w) ↦ ground (arith, lookup-map_values (miss_participant now) w x.participants)
]

miss_participant-joined :
    (now : ℕ) (x : CallV2Session)
    → has_ever_joined_callee
        (record x { participants = map_values (miss_participant now) x.participants })
      ≡ has_ever_joined_callee x
unfolding miss_participant
miss_participant-joined now x =
    any-map_values (is_callee_that_joined x.caller_id) (miss_participant now) x.participants
      (λ p. ground arith)

handle_timeout-opens :
    (now c : ℕ) (x : CallV2Session) (s : CallV2Service)
    → lookup c s.active_calls ≡ some x
    → is_terminal x ≡ false
    → handle_timeout now c s ≡ time_out now c x s
unfolding handle_timeout
handle_timeout-opens now c x s found goes_on = rw (found, handle_timeout) (rw goes_on refl)

-- Who was missed is let go.
missed-released :
    (w c : ℕ) (us : List ℕ) (m : Dict ℕ)
    → includes w us ≡ true
    → lookup w (release_users us c m) ≢ some c
missed-released w c us m listed e =
    let (_, apart) = lookup-release_users w us c c m e in ground arith

-- A timer that fires on a call that goes on, in a valid state: nobody rings any more, all those who
-- rang are reported and let go, and the call is missed unless a callee has joined it.
pub handle_timeout-IsTimedOut :
    (now c : ℕ) (x : CallV2Session) (s : CallV2Service)
    → IsValid s
    → lookup c s.active_calls ≡ some x
    → is_terminal x ≡ false
    → (y : CallV2Session) × ((handle_timeout now c s).0
        ≡ some (record {
          session = y;
          missed_user_ids = ringing_users x.participants;
          terminal = not (has_ever_joined_callee x);
        }))
      × IsTimedOut c x y (ringing_users x.participants) (handle_timeout now c s).1
unfolding time_out close_session
handle_timeout-IsTimedOut now c x s h found goes_on =
    let missed = ringing_users x.participants in
    let ps = map_values (miss_participant now) x.participants in
    let changed : CallV2Session = record x { participants = ps } in
    let same = miss_participant-joined now x in
    let opens = handle_timeout-opens now c x s found goes_on in
    let listed =
      λ (w : ℕ) (q : CallV2Participant) (at_w : lookup w x.participants ≡ some q)
          (ring : is_ringing q.status ≡ true).
        includes-ringing_users w q x.participants at_w ring ((h.sound c x found).named w q at_w) in
    elim (Bool-cases (has_ever_joined_callee x)) [
      | inl joined ↦ (
        record changed { status = CallV2SessionStatus.in_call },
        rw (opens, same ∙ joined, joined) refl,
        rw (opens, same ∙ joined)
            (record {
              recorded = lookup-insert_self c _ s.active_calls;
              status = rw joined refl;
              silent = miss_participant-silent now x;
              listed = listed;
              let_go = λ w l. missed-released w c missed s.user_calls l;
            }),
      )
      | inr nobody ↦ (
        record (close_session now CallV2SessionStatus.missed EndedBy.timeout changed) {
          timeout_handle = false;
        },
        rw (opens, same ∙ nobody, nobody) refl,
        rw (opens, same ∙ nobody)
            (record {
              recorded = lookup-insert_self c _ s.active_calls;
              status = rw nobody refl;
              silent = miss_participant-silent now x;
              listed = listed;
              let_go = λ w l e.
                  missed-released w c missed s.user_calls l
                    (lookup-release_users w (keys ps) x.call_id c
                      (release_users missed c s.user_calls) e).0;
            }),
      )
    ]
