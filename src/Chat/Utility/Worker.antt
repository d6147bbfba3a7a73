-- ===== src/Chat/Utility/Worker.antt =====
-- src/modules/chat/usecase/group-utility-worker.ts: one run of the worker. The lists are what the
-- queries of the repository find; `fresh` gives the id of the message on an item.
use chat_be.Base.{
  ℕ, Bool, true, false, not, ◌&&◌, Option, none, some, List, [], ◌∷◌, ltb, leb, ◌==◌, if◌then◌else◌,
  lookup, adjust,
}
use chat_be.Chat.Model.{
  MessageType, MessageText, PollStatus, Poll, GroupReminderStatus, GroupReminder, Store, poll_over,
  reminder_now, reminder_soon,
}
use chat_be.Chat.Poll.Vote.{create_conversation_activity_message}
use chat_be.Chat.Poll.View.{is_closed}
use chat_be.Chat.Utility.Activity.{utility_message}
use chat_be.Chat.Utility.Reminders.{update_reminder}
use chat_be.Chat.Utility.Schedule.{
  Calendar, get_initial_next_notify_at, get_next_repeated_reminder_at, is_never,
}

abbrev pub is_due_at : ℕ → Option ℕ → Bool
is_due_at now none = false
is_due_at now (some t) = leb t now

abbrev pub is_active_reminder : GroupReminderStatus → Bool
is_active_reminder GroupReminderStatus.active = true
is_active_reminder GroupReminderStatus.done = false
is_active_reminder GroupReminderStatus.cancelled = false

unfoldable pub is_due : ℕ → GroupReminder → Bool
is_due now r = is_active_reminder r.status && is_due_at now r.next_notify_at

-- The update of a reminder that repeats; that `none` does not occur is a theorem of Schedule.
unfoldable pub repeated : ℕ → ℕ → Option ℕ → GroupReminder → GroupReminder
repeated now minutes none r = r
repeated now minutes (some next) r = record r {
  remind_at = next;
  next_notify_at = some (get_initial_next_notify_at next minutes);
  last_notified_at = some now;
}

-- `getReminderNotificationUpdate` of a reminder, written to its row
unfoldable pub notified : Calendar → ℕ → GroupReminder → GroupReminder → GroupReminder
notified cal now reminder r =
    if ltb now reminder.remind_at
    then record r { next_notify_at = some reminder.remind_at; last_notified_at = some now }
    else if is_never reminder.repeat_rule
    then record r { status = GroupReminderStatus.done; last_notified_at = some now }
    else repeated now reminder.notify_before_minutes
        (get_next_repeated_reminder_at cal reminder.remind_at reminder.repeat_rule now) r

abbrev pub same_date : Option ℕ → Option ℕ → Bool
same_date none b = false
same_date (some a) none = false
same_date (some a) (some b) = a == b

-- The condition of `updateDueReminder` on the row.
abbrev pub may_update : GroupReminder → Option GroupReminder → Bool
may_update reminder none = false
may_update reminder (some r) =
    is_active_reminder r.status && same_date r.next_notify_at reminder.next_notify_at

abbrev pub notice_text : ℕ → GroupReminder → MessageText
notice_text now r =
    if ltb now r.remind_at then reminder_soon r.title r.remind_at else reminder_now r.title

unfoldable pub process_due_reminder : (ℕ → ℕ) → Calendar → ℕ → GroupReminder → Store → Store
process_due_reminder fresh cal now reminder s =
    if is_due now reminder && may_update reminder (lookup reminder.id s.reminders)
    then create_conversation_activity_message
        (utility_message (fresh reminder.id) now reminder.conversation_id reminder.created_by
          MessageType.system (notice_text now reminder) none (some reminder.id))
        (update_reminder reminder.id (notified cal now reminder) s)
    else s

unfoldable pub process_due_reminders : (ℕ → ℕ) → Calendar → ℕ → List GroupReminder → Store → Store
process_due_reminders fresh cal now [] s = s
process_due_reminders fresh cal now (r ∷ rs) s =
    process_due_reminders fresh cal now rs (process_due_reminder fresh cal now r s)

-- The condition of `closeExpired` on the row.
abbrev pub may_close : ℕ → Option Poll → Bool
may_close now none = false
may_close now (some p) = not (is_closed p.status) && is_due_at now p.expires_at

unfoldable pub close_expired_poll : (ℕ → ℕ) → ℕ → Poll → Store → Store
close_expired_poll fresh now poll s =
    if may_close now (some poll) && may_close now (lookup poll.id s.polls)
    then create_conversation_activity_message
        (utility_message (fresh poll.id) now poll.conversation_id poll.created_by MessageType.system
          (poll_over poll.question) (some poll.id) none)
        (record s {
          polls =
              adjust poll.id (λ p. record p { status = PollStatus.closed; closed_at = some now })
                s.polls;
        })
    else s

unfoldable pub close_expired_polls : (ℕ → ℕ) → ℕ → List Poll → Store → Store
close_expired_polls fresh now [] s = s
close_expired_polls fresh now (p ∷ ps) s =
    close_expired_polls fresh now ps (close_expired_poll fresh now p s)

-- `runOnce`; `running` guards a run that has not ended, which a run as one step cannot meet.
unfoldable pub run_once :
    (ℕ → ℕ) → (ℕ → ℕ) → Calendar → ℕ → List Poll → List GroupReminder → Store → Store
run_once poll_fresh reminder_fresh cal now polls reminders s =
    process_due_reminders reminder_fresh cal now reminders
      (close_expired_polls poll_fresh now polls s)
