-- ===== src/Call/Preservation.antt =====
-- Every method that acts on a call keeps the maps of the service together.
use chat_be.Base.{
  ℕ, ◌≡◌, refl, ◌≢◌, ◌⊎◌, inl, inr, Bool, true, false, Option, some, List, arith, ◌==◌, includes,
  Dict, lookup, keys, Bool-cases, Option-cases, eq_of_==, ne_of_==, includes-keys, lookup-insert,
  ◌∙◌, lookup-insert_ne,
}
use chat_be.Call.Model.{
  CallV2ParticipantStatus, CallV2SessionStatus, EndedBy, CallV2Participant, CallV2Session,
  CallV2Service, CallError, ok, throw,
}
use chat_be.Call.Service.{is_terminal_status, is_terminal, release_user, release_users}
use chat_be.Call.Moves.{
  open_session, end_participant, close_session, settle, refuse_call, leave_call,
  is_over_after_refusal, is_over_after_leaving, final_status,
}
use chat_be.Call.Invariant.{IsEngaged, IsValid, UsersFit, changed-IsValid, closed-IsValid}
use chat_be.Call.Release.{lookup-release_user, lookup-release_users}
use chat_be.Call.Sound.{end_participant-IsSound, close_session-IsSound}

-- The checks throw and change nothing, or give the session, which goes on, and the participant.
pub open_session-cases :
    (c u : ℕ) (s : CallV2Service)
    → ((e : CallError) × (open_session c u s ≡ (throw e, s)))
      ⊎ ((x : CallV2Session) × (p : CallV2Participant) × (open_session c u s ≡ (ok (x, p), s))
          × (lookup c s.active_calls ≡ some x)
          × (lookup u x.participants ≡ some p)
          × (is_terminal x ≡ false))
unfolding open_session
open_session-cases c u s = elim (Option-cases (lookup c s.active_calls)) [
  | inl absent ↦ inl (CallError.call_not_found, ground arith)
  | inr (x, found) ↦ elim (Option-cases (lookup u x.participants)) [
    | inl stranger ↦ inl (CallError.not_a_participant, ground arith)
    | inr (p, member) ↦ elim (Bool-cases (is_terminal x)) [
      | inl over ↦ inl (CallError.call_has_ended, ground arith)
      | inr goes_on ↦ inr (x, p, ground arith, found, member, goes_on)
    ]
  ]
]

-- Whom `releaseSession` leaves is in another call, if it runs through everybody who was engaged.
pub release_users-apart :
    (s : CallV2Service) (c k : ℕ) (x : CallV2Session) (us : List ℕ) (m : Dict ℕ)
    → k ≡ c
    → IsValid s
    → lookup c s.active_calls ≡ some x
    → ((w : ℕ) → IsEngaged w x → includes w us ≡ true)
    → ((w d : ℕ) → lookup w m ≡ some d → lookup w s.user_calls ≡ some d)
    → (w d : ℕ) → lookup w (release_users us k m) ≡ some d
    → (d ≢ c) × (lookup w s.user_calls ≡ some d)
release_users-apart s c k x us m kc h found all_listed from_s w d e =
    let (in_m, apart) = lookup-release_users w us k d m e in
    let old = from_s w d in_m in
    let (y, at_d, _, engaged) = h.taken w d old in
    (
      λ eq.
          let xy : y ≡ x = ground arith in
          let listed = all_listed w (rw xy at engaged) in ground arith,
      old,
    )

pub final_status-terminal : (x : CallV2Session) → is_terminal_status (final_status x) ≡ true
final_status-terminal x = ground arith

-- A participant is out of a call that went on.
module _ (s : CallV2Service) (now c u : ℕ) (st : CallV2ParticipantStatus) (la : Option ℕ)
    (x : CallV2Session) (p : CallV2Participant) (h : IsValid s)
    (found : lookup c s.active_calls ≡ some x) (member : lookup u x.participants ≡ some p)
    (goes_on : is_terminal x ≡ false) where
  released-fit :
      UsersFit c (end_participant now u st la p x) s.user_calls (release_user u c s.user_calls)
  unfolding end_participant
  released-fit w d e =
      let (old, apart) = lookup-release_user w u c d s.user_calls e in
      elim (Bool-cases (d == c)) [
        | inl same ↦
            let (y, at_d, _, engaged) = h.taken w d old in
            let dc = eq_of_== d c same in
            let xy : y ≡ x = ground arith in
            let (q, in_x, busy) = rw xy at engaged in
            let other : w ≢ u = ground arith in
            inr (dc, (q, lookup-insert_ne w u _ x.participants other ∙ in_x, busy))
        | inr other ↦ inl (ne_of_== d c other, old)
      ]

  -- Everybody who was engaged is a key of the participants.
  engaged-listed :
      (w : ℕ)
      → IsEngaged w x
      → includes w (keys (end_participant now u st la p x).participants) ≡ true
  unfolding end_participant
  engaged-listed w (q, in_x, busy) = simp (includes-keys, lookup-insert) (ground arith)

  pub settle-IsValid :
      (final : CallV2SessionStatus) (over : Bool)
      → is_terminal_status final ≡ true
      → IsValid (settle now c u final (end_participant now u st la p x) over s).1
  unfolding settle close_session end_participant
  settle-IsValid final true terminal =
      closed-IsValid s c x _ _ h found goes_on
        (close_session-IsSound now c final (EndedBy.user u) (end_participant now u st la p x)
          (end_participant-IsSound now u c st la p x (h.sound c x found) member) terminal)
        terminal
        (release_users-apart s c x.call_id x (keys (end_participant now u st la p x).participants)
          (release_user u c s.user_calls) (h.sound c x found).keyed h found engaged-listed
          (λ w d e. (lookup-release_user w u c d s.user_calls e).0))
  settle-IsValid final false terminal =
      changed-IsValid s c x (end_participant now u st la p x) (release_user u c s.user_calls) h
        found goes_on (end_participant-IsSound now u c st la p x (h.sound c x found) member) goes_on
        refl released-fit

pub refuse_call-IsValid :
    (st : CallV2ParticipantStatus) (final : CallV2SessionStatus) (now c u : ℕ) (s : CallV2Service)
    → is_terminal_status final ≡ true
    → IsValid s
    → IsValid (refuse_call st final now c u s).1
unfolding refuse_call
refuse_call-IsValid st final now c u s t h = elim (open_session-cases c u s) [
  | inl (e, failed) ↦ rw (failed, refuse_call) h
  | inr (x, p, opened, found, member, goes_on) ↦
      rw (opened, refuse_call)
        (settle-IsValid s now c u st p.left_at x p h found member goes_on final
          (is_over_after_refusal (end_participant now u st p.left_at p x)) t)
]

pub leave_call-IsValid :
    (now c u : ℕ) (s : CallV2Service) → IsValid s → IsValid (leave_call now c u s).1
unfolding leave_call
leave_call-IsValid now c u s h = elim (open_session-cases c u s) [
  | inl (e, failed) ↦ rw (failed, leave_call) h
  | inr (x, p, opened, found, member, goes_on) ↦
      let changed = end_participant now u CallV2ParticipantStatus.left (some now) p x in
      rw (opened, leave_call)
        (settle-IsValid s now c u CallV2ParticipantStatus.left (some now) x p h found member goes_on
          (final_status changed) (is_over_after_leaving changed) (final_status-terminal changed))
]
