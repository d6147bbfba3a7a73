-- ===== src/Call/Lifecycle.antt =====
-- The end of a call and its timeout keep the maps of the service together.
use chat_be.Base.{
  ℕ, ◌≡◌, refl, inl, inr, true, false, some, [], ◌∷◌, arith, ◌==◌, includes, Dict, lookup, keys,
  map_values, Bool-cases, Option-cases, eq_of_==, ne_of_==, includes-keys, keys-map_values,
  lookup-map_values,
}
use chat_be.Call.Model.{
  CallV2SessionStatus, EndedBy, CallV2Participant, CallV2Session, CallV2Service,
}
use chat_be.Call.Service.{is_terminal, is_ringing, release_users, has_ever_joined_callee}
use chat_be.Call.Moves.{close_session, final_status}
use chat_be.Call.Ends.{
  end_call, end_for_participant, miss_participant, ringing_users, time_out, handle_timeout,
}
use chat_be.Call.Invariant.{
  IsEngaged, IsSound, IsValid, UsersFit, is_engaged, changed-IsValid, closed-IsValid,
}
use chat_be.Call.Release.{lookup-release_users}
use chat_be.Call.Sound.{
  close_session-IsSound, end_for_participant-IsSound, miss_participant-IsSound,
}
use chat_be.Call.Preservation.{open_session-cases, release_users-apart, final_status-terminal}

-- A loop over the participants loses no key.
pub engaged-listed :
    (f : CallV2Participant → CallV2Participant) (x : CallV2Session) (w : ℕ)
    → IsEngaged w x
    → includes w (keys (map_values f x.participants)) ≡ true
engaged-listed f x w (p, found, _) = simp (keys-map_values, includes-keys) (ground arith)

pub end_call-IsValid :
    (now c u : ℕ) (s : CallV2Service) → IsValid s → IsValid (end_call now c u s).1
unfolding end_call close_session
end_call-IsValid now c u s h = elim (open_session-cases c u s) [
  | inl (e, failed) ↦ rw (failed, end_call) h
  | inr (x, p, opened, found, member, goes_on) ↦
      let f = end_for_participant now in
      let ended : CallV2Session = record x { participants = map_values f x.participants } in
      rw (opened, end_call)
        (closed-IsValid s c x _ _ h found goes_on
          (close_session-IsSound now c (final_status ended) (EndedBy.user u) ended
            (end_for_participant-IsSound now c x (h.sound c x found)) (final_status-terminal ended))
          (final_status-terminal ended)
          (release_users-apart s c x.call_id x (keys (map_values f x.participants)) s.user_calls
            (h.sound c x found).keyed h found (engaged-listed f x) (λ w d e. e)))
]

-- Who rings is in the list of the missed, under the id of the entry.
pub includes-ringing_users :
    (w : ℕ) (p : CallV2Participant) (ps : Dict CallV2Participant)
    → lookup w ps ≡ some p
    → is_ringing p.status ≡ true
    → p.user_id ≡ w
    → includes w (ringing_users ps) ≡ true
unfolding ringing_users
includes-ringing_users w p [] found ring same = cc
includes-ringing_users w p ((u, q) ∷ ps) found ring same =
    ground (arith, includes-ringing_users w p ps)

engaged_of_missed :
    (now : ℕ) (p : CallV2Participant)
    → is_engaged p.status ≡ true
    → is_ringing p.status ≡ false
    → is_engaged (miss_participant now p).status ≡ true
unfolding miss_participant
engaged_of_missed now p e r = ground arith

module _ (s : CallV2Service) (now c : ℕ) (x : CallV2Session) (h : IsValid s)
    (found : lookup c s.active_calls ≡ some x) (goes_on : is_terminal x ≡ false) where
  abbrev after : Dict CallV2Participant
  after = map_values (miss_participant now) x.participants

  still_engaged :
      (w : ℕ)
      → IsEngaged w x
      → includes w (ringing_users x.participants) ≡ false
      → (p : CallV2Participant) × (lookup w after ≡ some p) × (is_engaged p.status ≡ true)
  still_engaged w (p, at_w, busy) apart = elim (Bool-cases (is_ringing p.status)) [
    | inl ring ↦ absurd (
        ground (
          arith,
          includes-ringing_users w p x.participants at_w ring ((h.sound c x found).named w p at_w),
        ))
    | inr still ↦ (
      miss_participant now p,
      ground (arith, lookup-map_values (miss_participant now) w x.participants),
      engaged_of_missed now p busy still,
    )
  ]

  missed-fit :
      UsersFit c
        (record x { participants = after; status = CallV2SessionStatus.in_call })
        s.user_calls
        (release_users (ringing_users x.participants) c s.user_calls)
  missed-fit w d e =
      let us = ringing_users x.participants in
      let (old, apart) = lookup-release_users w us c d s.user_calls e in
      elim (Bool-cases (d == c)) [
        | inl same ↦
            let (y, at_d, _, engaged) = h.taken w d old in
            let dc = eq_of_== d c same in
            let xy : y ≡ x = ground arith in
            inr (dc, still_engaged w (rw xy at engaged) (ground arith))
        | inr other ↦ inl (ne_of_== d c other, old)
      ]

  ongoing-IsSound :
      has_ever_joined_callee (record x { participants = after }) ≡ true
      → IsSound c (record x { participants = after; status = CallV2SessionStatus.in_call })
  ongoing-IsSound joined =
      let now_sound = miss_participant-IsSound now c x (h.sound c x found) in
      record {
        keyed = now_sound.keyed;
        named = now_sound.named;
        closed_at = ground (arith, now_sound.closed_at);
        closed_by = ground (arith, now_sound.closed_by);
        timer = λ e. cc;
        answered = now_sound.answered;
        in_call_answered = λ _. now_sound.answered joined;
      }

  pub time_out-IsValid : IsValid (time_out now c x s).1
  unfolding time_out close_session
  time_out-IsValid =
      let missed = ringing_users x.participants in
      let changed : CallV2Session = record x { participants = after } in
      elim (Bool-cases (has_ever_joined_callee changed)) [
        | inl joined ↦ rw joined (
            changed-IsValid s c x _ _ h found goes_on (ongoing-IsSound joined) refl refl missed-fit)
        | inr nobody ↦ rw nobody (
            closed-IsValid s c x _ _ h found goes_on
              (close_session-IsSound now c CallV2SessionStatus.missed EndedBy.timeout changed
                (miss_participant-IsSound now c x (h.sound c x found)) refl)
              refl
              (release_users-apart s c x.call_id x (keys after)
                (release_users missed c s.user_calls) (h.sound c x found).keyed h found
                (engaged-listed (miss_participant now) x)
                (λ w d e. (lookup-release_users w missed c d s.user_calls e).0)))
      ]

-- A timeout of any id at any time.
pub handle_timeout-IsValid :
    (now c : ℕ) (s : CallV2Service) → IsValid s → IsValid (handle_timeout now c s).1
unfolding handle_timeout
handle_timeout-IsValid now c s h = elim (Option-cases (lookup c s.active_calls)) [
  | inl absent ↦ rw (absent, handle_timeout) h
  | inr (x, found) ↦ elim (Bool-cases (is_terminal x)) [
    | inl over ↦ rw (found, handle_timeout) (rw over h)
    | inr goes_on ↦
        rw (found, handle_timeout) (rw goes_on (time_out-IsValid s now c x h found goes_on))
  ]
]
