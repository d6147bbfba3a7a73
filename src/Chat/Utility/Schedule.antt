-- ===== src/Chat/Utility/Schedule.antt =====
-- src/modules/chat/usecase/utility-messages.ts: when a reminder is due. `setDate` and `setMonth` of
-- Date are parameters: what a date is some days or a month later.
use chat_be.Base.{
  ℕ, zero, suc, ◌+◌, ◌-◌, ◌*◌, ◌≤◌, ◌<◌, max, ◌≡◌, refl, inl, inr, Bool, true, false, Option, none,
  some, arith, leb, if◌then◌else◌, Bool-cases,
}
use chat_be.Chat.Model.{GroupReminderRepeatRule}
use chat_be.Chat.Group.Leaving.{first}

pub record Calendar : Type 0 where
  pub add_days : ℕ → ℕ → ℕ
  pub add_month : ℕ → ℕ

-- A day, a week and a month later is later.
pub record IsForward (cal : Calendar) : Type 0 where
  pub day : (t : ℕ) → t < cal.add_days 1 t
  pub week : (t : ℕ) → t < cal.add_days 7 t
  pub month : (t : ℕ) → t < cal.add_month t

-- A date before that of 0 stands as 0.
unfoldable pub get_initial_next_notify_at : ℕ → ℕ → ℕ
get_initial_next_notify_at remind_at notify_before_minutes =
    remind_at - max 0 notify_before_minutes * 60000

unfoldable pub add_reminder_interval : Calendar → GroupReminderRepeatRule → ℕ → ℕ
add_reminder_interval cal GroupReminderRepeatRule.never t = t
add_reminder_interval cal GroupReminderRepeatRule.daily t = cal.add_days 1 t
add_reminder_interval cal GroupReminderRepeatRule.weekly t = cal.add_days 7 t
add_reminder_interval cal GroupReminderRepeatRule.monthly t = cal.add_month t

-- `while (next <= now)`, with fuel for the tests of the loop
unfoldable pub advance_past : ℕ → (ℕ → ℕ) → ℕ → ℕ → Option ℕ
advance_past zero step now next = none
advance_past (suc fuel) step now next =
    let rest = advance_past fuel step now (step next) in if leb next now then rest else some next

-- Each turn is at least a millisecond later, so that one test more than `now` is enough.
unfoldable pub get_next_repeated_reminder_at : Calendar → ℕ → GroupReminderRepeatRule → ℕ → Option ℕ
get_next_repeated_reminder_at cal current_remind_at repeat_rule now =
    advance_past (suc (suc now)) (add_reminder_interval cal repeat_rule) now
      (add_reminder_interval cal repeat_rule current_remind_at)

abbrev pub is_never : GroupReminderRepeatRule → Bool
is_never GroupReminderRepeatRule.never = true
is_never GroupReminderRepeatRule.daily = false
is_never GroupReminderRepeatRule.weekly = false
is_never GroupReminderRepeatRule.monthly = false

pub add_reminder_interval_lt :
    (cal : Calendar) (rule : GroupReminderRepeatRule) (t : ℕ)
    → IsForward cal
    → is_never rule ≡ false
    → t < add_reminder_interval cal rule t
unfolding add_reminder_interval
add_reminder_interval_lt cal GroupReminderRepeatRule.never t h e = absurd (ground arith)
add_reminder_interval_lt cal GroupReminderRepeatRule.daily t h e = h.day t
add_reminder_interval_lt cal GroupReminderRepeatRule.weekly t h e = h.week t
add_reminder_interval_lt cal GroupReminderRepeatRule.monthly t h e = h.month t

abbrev pub iterate : (ℕ → ℕ) → ℕ → ℕ → ℕ
iterate step zero t = t
iterate step (suc k) t = iterate step k (step t)

-- The loop ends at the first of the dates `next`, `step next`, ... that is past `now`.
abbrev pub IsFirstPast : (ℕ → ℕ) → ℕ → ℕ → ℕ → Type 0
IsFirstPast step now next t =
    (k : ℕ) × (t ≡ iterate step k next) × (now < t) × ((j : ℕ) → j < k → iterate step j next ≤ now)

earlier :
    (step : ℕ → ℕ) (now next k j : ℕ)
    → next ≤ now
    → ((i : ℕ) → i < k → iterate step i (step next) ≤ now)
    → j < suc k
    → iterate step j next ≤ now
earlier step now next k zero h rest lt = h
earlier step now next k (suc j) h rest lt = rest j (omega arith)

-- Enough fuel: more than what is left up to `now`.
advance_past-ends :
    (fuel : ℕ) (step : ℕ → ℕ) (now next : ℕ)
    → ((t : ℕ) → t < step t)
    → now + 1 < fuel + next
    → 0 < fuel
    → (t : ℕ) × (advance_past fuel step now next ≡ some t) × IsFirstPast step now next t
unfolding advance_past
advance_past-ends zero step now next forward enough positive = absurd (omega arith)
advance_past-ends (suc fuel) step now next forward enough positive =
    elim (Bool-cases (leb next now)) [
      | inr past ↦
          let later : now < next = ground arith in
          (next, rw past refl, (0, refl, later, λ j lt. absurd (omega arith)))
      | inl due ↦
          let le : next ≤ now = ground arith in
          let on = forward next in
          let (t, e, first) =
            advance_past-ends fuel step now (step next) forward (omega arith) (omega arith) in
          let (k, here, lt, before) = first in
          (t, rw due e, (suc k, here, lt, λ j h. earlier step now next k j le before h))
    ]

-- If a day, a week and a month later is later, then for a rule that repeats the loop ends, and gives
-- the first date past `now` among those that the rule gives after the current one.
pub get_next_repeated_reminder_at-ends :
    (cal : Calendar) (current : ℕ) (rule : GroupReminderRepeatRule) (now : ℕ)
    → IsForward cal
    → is_never rule ≡ false
    → (t : ℕ) × (get_next_repeated_reminder_at cal current rule now ≡ some t)
      × IsFirstPast (add_reminder_interval cal rule) now (add_reminder_interval cal rule current) t
unfolding get_next_repeated_reminder_at
get_next_repeated_reminder_at-ends cal current rule now forward repeats =
    advance_past-ends (suc (suc now)) (add_reminder_interval cal rule) now
      (add_reminder_interval cal rule current)
      (λ t. add_reminder_interval_lt cal rule t forward repeats)
      (let first = add_reminder_interval_lt cal rule current forward repeats in omega arith)
      (omega arith)
