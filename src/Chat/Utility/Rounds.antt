-- ===== src/Chat/Utility/Rounds.antt =====
-- src/modules/chat/usecase/group-utility-worker.ts: what runs of the worker come to.
use chat_be.Base.{
  ℕ, ◌<◌, ◌≡◌, refl, sym, ap, ◌∙◌, ◌⊎◌, inl, inr, Bool, true, false, ◌&&◌, Option, none, some,
  arith, ltb, leb, ◌==◌, if◌then◌else◌, ==_self, Bool-cases, lookup, lookup-adjust_self, ◌||◌, List,
  [], ◌∷◌, eq_of_==, ne_of_==, any, adjust, lookup-adjust_ne,
}
use chat_be.Chat.Model.{Message, PollStatus, Poll, GroupReminder, Store, GroupReminderStatus}
use chat_be.Chat.Poll.Vote.{create_conversation_activity_message}
use chat_be.Chat.Utility.Schedule.{
  Calendar, IsForward, get_next_repeated_reminder_at, is_never, get_next_repeated_reminder_at-ends,
}
use chat_be.Chat.Utility.Worker.{
  is_due_at, is_due, repeated, notified, same_date, may_update, process_due_reminder, may_close,
  close_expired_poll, close_expired_polls,
}
use chat_be.Chat.Group.Leaving.{first}

activity_reminders :
    (message : Message) (s : Store)
    → (create_conversation_activity_message message s).reminders ≡ s.reminders
unfolding create_conversation_activity_message
activity_reminders message s = refl

activity_polls :
    (message : Message) (s : Store)
    → (create_conversation_activity_message message s).polls ≡ s.polls
unfolding create_conversation_activity_message
activity_polls message s = refl

-- What one turn of the worker makes of a reminder.
turn : Calendar → ℕ → GroupReminder → GroupReminder
turn cal now r = if is_due now r then notified cal now r r else r

same_date_self : (o : Option ℕ) (now : ℕ) → is_due_at now o ≡ true → same_date o o ≡ true
same_date_self none now e = absurd (ground arith)
same_date_self (some t) now e = ==_self t

due-updates : (now : ℕ) (r : GroupReminder) → is_due now r ≡ true → may_update r (some r) ≡ true
unfolding is_due
due-updates now r e = let same = same_date_self r.next_notify_at now (ground arith) in ground arith

process-turn :
    (fresh : ℕ → ℕ) (cal : Calendar) (now : ℕ) (r : GroupReminder) (s : Store)
    → lookup r.id s.reminders ≡ some r
    → lookup r.id (process_due_reminder fresh cal now r s).reminders ≡ some (turn cal now r)
unfolding process_due_reminder turn
process-turn fresh cal now r s found = elim (Bool-cases (is_due now r)) [
  | inr idle ↦ rw idle found
  | inl due ↦
      let may : may_update r (lookup r.id s.reminders) ≡ true = rw found (due-updates now r due) in
      rw (due, may)
        (ap (lookup r.id) (activity_reminders _ _)
          ∙ lookup-adjust_self r.id (notified cal now r) r s.reminders found)
]

repeated-id :
    (now minutes : ℕ) (o : Option ℕ) (r : GroupReminder) → (repeated now minutes o r).id ≡ r.id
unfolding repeated
repeated-id now minutes none r = refl
repeated-id now minutes (some t) r = refl

turn-id : (cal : Calendar) (now : ℕ) (r : GroupReminder) → (turn cal now r).id ≡ r.id
unfolding turn notified
turn-id cal now r = elim (Bool-cases (is_due now r)) [
  | inr idle ↦ rw idle refl
  | inl due ↦ elim (Bool-cases (ltb now r.remind_at)) [
    | inl early ↦ rw (due, early) refl
    | inr late ↦ elim (Bool-cases (is_never r.repeat_rule)) [
      | inl once ↦ rw (due, late, once) refl
      | inr repeats ↦ rw (due, late, repeats) (repeated-id now _ _ r)
    ]
  ]
]

-- Before its event a reminder is due no more after a turn.
early_turn :
    (cal : Calendar) (now : ℕ) (r : GroupReminder)
    → now < r.remind_at
    → is_due now (turn cal now r) ≡ false
unfolding turn notified is_due
early_turn cal now r early = elim (Bool-cases (is_due now r)) [
  | inr idle ↦ rw idle idle
  | inl due ↦
      let test : ltb now r.remind_at ≡ true = ground arith in
      let past : leb r.remind_at now ≡ false = ground arith in rw (due, test) (ground arith)
]

repeated_turn :
    (cal : Calendar) (now : ℕ) (r : GroupReminder)
    → IsForward cal
    → is_never r.repeat_rule ≡ false
    → now
      < (repeated now r.notify_before_minutes
          (get_next_repeated_reminder_at cal r.remind_at r.repeat_rule now)
          r).remind_at
unfolding repeated
repeated_turn cal now r forward repeats =
    let (t, e, first) =
      get_next_repeated_reminder_at-ends cal r.remind_at r.repeat_rule now forward repeats in
    let (k, here, lt, before) = first in rw e lt

done_idle :
    (now : ℕ) (r : GroupReminder)
    → is_due now (record r { status = GroupReminderStatus.done; last_notified_at = some now })
      ≡ false
unfolding is_due
done_idle now r = refl

idle_turn :
    (cal : Calendar) (now : ℕ) (r : GroupReminder)
    → is_due now r ≡ false
    → is_due now (turn cal now r) ≡ false
unfolding turn
idle_turn cal now r idle = rw idle idle

-- A turn leaves a reminder that is due no more, or one before its event.
turn_cases :
    (cal : Calendar) (now : ℕ) (r : GroupReminder)
    → IsForward cal
    → (is_due now (turn cal now r) ≡ false) ⊎ (now < (turn cal now r).remind_at)
unfolding turn notified
turn_cases cal now r forward = elim (Bool-cases (is_due now r)) [
  | inr idle ↦ inl (rw idle idle)
  | inl due ↦ elim (Bool-cases (ltb now r.remind_at)) [
    | inl early ↦ inl (early_turn cal now r (ground arith))
    | inr late ↦ elim (Bool-cases (is_never r.repeat_rule)) [
      | inl once ↦ inl (rw (due, late, once) (done_idle now r))
      | inr repeats ↦ inr (rw (due, late, repeats) (repeated_turn cal now r forward repeats))
    ]
  ]
]

two_turns :
    (cal : Calendar) (now : ℕ) (r : GroupReminder)
    → IsForward cal
    → is_due now (turn cal now (turn cal now r)) ≡ false
two_turns cal now r forward = elim (turn_cases cal now r forward) [
  | inr early ↦ early_turn cal now (turn cal now r) early
  | inl idle ↦ idle_turn cal now (turn cal now r) idle
]

-- If a day, a week and a month later is later: after the worker has processed a reminder as its row
-- holds it, and then once more as the row then holds it, at the same time, the reminder is not due.
pub process_due_reminder-settles :
    (fresh later : ℕ → ℕ) (cal : Calendar) (now : ℕ) (r : GroupReminder) (s : Store)
    → IsForward cal
    → lookup r.id s.reminders ≡ some r
    → (q : GroupReminder) × (last : GroupReminder) × (lookup r.id
          (process_due_reminder fresh cal now r s).reminders
        ≡ some q)
      × (lookup r.id
            (process_due_reminder later cal now q
              (process_due_reminder fresh cal now r s)).reminders
          ≡ some last)
      × (is_due now last ≡ false)
process_due_reminder-settles fresh later cal now r s forward found =
    let q = turn cal now r in
    let t = process_due_reminder fresh cal now r s in
    let first = process-turn fresh cal now r s found in
    let named = turn-id cal now r in
    let second = process-turn later cal now q t (ap (λ k. lookup k t.reminders) named ∙ first) in
    (
      q,
      turn cal now q,
      first,
      ap (λ k. lookup k (process_due_reminder later cal now q t).reminders) (sym named) ∙ second,
      two_turns cal now r forward,
    )

-- What the worker makes of a poll.
abbrev pub closed_by_time : ℕ → Poll → Poll
closed_by_time now p = record p { status = PollStatus.closed; closed_at = some now }

abbrev pub is_found : ℕ → ℕ → Poll → Bool
is_found now k q = q.id == k && may_close now (some q)

abbrev close_if : ℕ → Bool → Poll → Poll
close_if now found p = if found && may_close now (some p) then closed_by_time now p else p

close_if-unfit :
    (now : ℕ) (p : Poll) → may_close now (some p) ≡ false → (b : Bool) → close_if now b p ≡ p
close_if-unfit now p unfit b = ground arith

close_one :
    (fresh : ℕ → ℕ) (now k : ℕ) (q p : Poll) (s : Store)
    → lookup k s.polls ≡ some p
    → lookup k (close_expired_poll fresh now q s).polls ≡ some (close_if now (is_found now k q) p)
unfolding close_expired_poll
close_one fresh now k q p s found =
    let close : Poll → Poll = λ p. record p { status = PollStatus.closed; closed_at = some now } in
    elim (Bool-cases (may_close now (some q) && may_close now (lookup q.id s.polls))) [
      | inr unfit ↦ elim (Bool-cases (is_found now k q)) [
        | inr unfound ↦ rw (unfit, unfound) found
        | inl mine ↦
            let qk = eq_of_== q.id k (ground arith) in
            let at_q : lookup q.id s.polls ≡ some p = ap (λ j. lookup j s.polls) qk ∙ found in
            let known = rw at_q at unfit in
            let stays = close_if-unfit now p (ground arith) (is_found now k q) in
            rw unfit (found ∙ ap some (sym stays))
      ]
      | inl fit ↦ elim (Bool-cases (q.id == k)) [
        | inl same ↦
            let qk = eq_of_== q.id k same in
            let at_q : lookup q.id s.polls ≡ some p = ap (λ j. lookup j s.polls) qk ∙ found in
            let known = rw at_q at fit in
            let closes : close_if now (is_found now k q) p ≡ close p = ground arith in
            rw fit (
              ap (lookup k) (activity_polls _ _)
              ∙ (ap (λ j. lookup j (adjust q.id close s.polls)) (sym qk)
                  ∙ lookup-adjust_self q.id close p s.polls at_q)
              ∙ ap some (sym closes))
        | inr other ↦
            let ne = ne_of_== q.id k other in
            let stays : close_if now (is_found now k q) p ≡ p = ground arith in
            rw fit (
              ap (lookup k) (activity_polls _ _)
              ∙ lookup-adjust_ne k q.id close s.polls (λ e. ne (sym e))
              ∙ found
              ∙ ap some (sym stays))
      ]
    ]

closed_stays :
    (now : ℕ) (c : Bool) (p : Poll) → close_if now c (closed_by_time now p) ≡ closed_by_time now p
closed_stays now true p = refl
closed_stays now false p = refl

-- Once closed, a poll is not closed again; one that may not be closed stays as it is.
close_if_twice :
    (now : ℕ) (b c : Bool) (p : Poll) → close_if now c (close_if now b p) ≡ close_if now (b || c) p
close_if_twice now b c p = elim (Bool-cases (may_close now (some p))) [
  | inr unfit ↦
      rw (close_if-unfit now p unfit b)
        (close_if-unfit now p unfit c ∙ sym (close_if-unfit now p unfit (b || c)))
  | inl fit ↦ elim (Bool-cases b) [
    | inl once ↦ rw (once, fit) (closed_stays now c p)
    | inr never ↦ rw never refl
  ]
]

-- The worker closes a poll of the table exactly if the query finds a poll with its id that is active
-- and past its date, and its row is so too; it writes the time, and leaves other polls as they are.
pub close_expired_polls-closes :
    (fresh : ℕ → ℕ) (now k : ℕ) (polls : List Poll) (p : Poll) (s : Store)
    → lookup k s.polls ≡ some p
    → lookup k (close_expired_polls fresh now polls s).polls
      ≡ some
          (if any (is_found now k) polls && may_close now (some p) then closed_by_time now p else p)
unfolding close_expired_polls
close_expired_polls-closes fresh now k [] p s found = found
close_expired_polls-closes fresh now k (q ∷ qs) p s found =
    let one = close_one fresh now k q p s found in
    close_expired_polls-closes fresh now k qs (close_if now (is_found now k q) p)
      (close_expired_poll fresh now q s) one
    ∙ ap some (close_if_twice now (is_found now k q) (any (is_found now k) qs) p)
