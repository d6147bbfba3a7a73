-- ===== src/Call/Reach.antt =====
-- The service as its methods are called, in any order, and its timers fire.
use chat_be.Base.{
  ℕ, ◌≡◌, refl, inl, inr, false, none, some, [], arith, is_some, includes, lookup, Option-cases,
}
use chat_be.Call.Model.{
  CallV2ParticipantStatus, CallV2SessionStatus, CallV2Session, CallV2Service, CreateCallV2Input,
}
use chat_be.Call.Service.{is_terminal, is_user_busy, get_active_call_by_conversation}
use chat_be.Call.Create.{create_call}
use chat_be.Call.Moves.{join_call, reject_call, mark_missed, leave_call}
use chat_be.Call.Ends.{end_call, handle_timeout, mark_logged}
use chat_be.Call.Invariant.{IsValid}
use chat_be.Call.Preservation.{refuse_call-IsValid, leave_call-IsValid}
use chat_be.Call.Lifecycle.{end_call-IsValid, handle_timeout-IsValid}
use chat_be.Call.Joining.{join_call-IsValid}
use chat_be.Call.Logging.{mark_logged-IsValid}
use chat_be.Call.Registration.{create_call-IsValid}

-- One method call, or a timer that fires. A new id is in no use (uuidv4), and the controller leaves
-- the caller out of the callees (call-v2.controller.ts, resolvePrivateInvitees and
-- resolveGroupInvitees).
pub data Step (s : CallV2Service) : CallV2Service → Type 0 where
  create :
      (now c : ℕ) (input : CreateCallV2Input)
      → lookup c s.active_calls ≡ none
      → includes input.caller_id input.callee_ids ≡ false
      → Step s (create_call now c input s).1
  join : (now c u : ℕ) → Step s (join_call now c u s).1
  reject : (now c u : ℕ) → Step s (reject_call now c u s).1
  miss : (now c u : ℕ) → Step s (mark_missed now c u s).1
  leave : (now c u : ℕ) → Step s (leave_call now c u s).1
  finish : (now c u : ℕ) → Step s (end_call now c u s).1
  timeout : (now c : ℕ) → Step s (handle_timeout now c s).1
  log : (c m : ℕ) → Step s (mark_logged c m s)

pub data Reach (s : CallV2Service) : CallV2Service → Type 0 where
  here : Reach s s
  next : {t u : CallV2Service} → Reach s t → Step t u → Reach s u

-- The service as it is constructed.
abbrev pub initial : CallV2Service
initial = record { active_calls = []; conversation_calls = []; user_calls = [] }

initial-IsValid : IsValid initial
initial-IsValid = record {
  sound = λ c x e. cc;
  taken = λ u c e. cc;
  held = λ v c e. cc;
  live = λ c x e o. cc;
}

Step-IsValid : {s t : CallV2Service} → IsValid s → Step s t → IsValid t
unfolding reject_call mark_missed
Step-IsValid {s} h (create now c input fresh apart) =
    create_call-IsValid now c input s fresh apart h
Step-IsValid {s} h (join now c u) = join_call-IsValid now c u s h
Step-IsValid {s} h (reject now c u) =
    refuse_call-IsValid CallV2ParticipantStatus.declined CallV2SessionStatus.rejected now c u s refl
      h
Step-IsValid {s} h (miss now c u) =
    refuse_call-IsValid CallV2ParticipantStatus.missed CallV2SessionStatus.missed now c u s refl h
Step-IsValid {s} h (leave now c u) = leave_call-IsValid now c u s h
Step-IsValid {s} h (finish now c u) = end_call-IsValid now c u s h
Step-IsValid {s} h (timeout now c) = handle_timeout-IsValid now c s h
Step-IsValid {s} h (log c m) = mark_logged-IsValid c m s h

-- Whatever calls of the methods are made, the three maps fit together.
pub Reach-IsValid : {s : CallV2Service} → Reach initial s → IsValid s
Reach-IsValid here = initial-IsValid
Reach-IsValid (next r st) = Step-IsValid (Reach-IsValid r) st

-- In every state that is reached, two calls of one conversation that both go on are one call.
pub live_call_unique :
    {s : CallV2Service} (c d : ℕ) (x y : CallV2Session)
    → Reach initial s
    → lookup c s.active_calls ≡ some x
    → lookup d s.active_calls ≡ some y
    → is_terminal x ≡ false
    → is_terminal y ≡ false
    → x.conversation_id ≡ y.conversation_id
    → c ≡ d
live_call_unique c d x y r at_c at_d ox oy same =
    let h = Reach-IsValid r in ground (arith, h.live c x at_c ox, h.live d y at_d oy)

-- In every state that is reached, a user is busy exactly if `userCalls` has an entry for him: no
-- entry is stale.
pub is_user_busy_iff :
    {s : CallV2Service} (u : ℕ)
    → Reach initial s
    → is_user_busy s u ≡ is_some (lookup u s.user_calls)
unfolding is_user_busy
is_user_busy_iff {s} u r = elim (Option-cases (lookup u s.user_calls)) [
  | inl free ↦ ground arith
  | inr (c, taken) ↦ let (x, at_c, goes_on, _) = (Reach-IsValid r).taken u c taken in ground arith
]

-- In every state that is reached, the call of a conversation is a call of that conversation that
-- goes on.
pub get_active_call-is_live :
    {s : CallV2Service} (v : ℕ) (x : CallV2Session)
    → Reach initial s
    → get_active_call_by_conversation v s ≡ some x
    → (is_terminal x ≡ false) × (x.conversation_id ≡ v)
unfolding get_active_call_by_conversation
get_active_call-is_live {s} v x r e = elim (Option-cases (lookup v s.conversation_calls)) [
  | inl no_call ↦ absurd (ground arith)
  | inr (c, held) ↦
      let (y, at_c, goes_on, of_v) = (Reach-IsValid r).held v c held in
      let yx : y ≡ x = ground arith in (rw yx at goes_on, rw yx at of_v)
]
