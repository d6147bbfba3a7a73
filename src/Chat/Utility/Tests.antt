-- ===== src/Chat/Utility/Tests.antt =====
-- A reminder of group 5 and a poll of it.
use chat_be.Base.{
  ℕ, suc, ◌+◌, ◌-◌, ◌*◌, ◌≡◌, refl, true, false, ◌&&◌, none, some, [], ◌∷◌, map, arith,
  if◌then◌else◌, any, lookup, values, ◌⊎◌, ◌||◌, ◌==◌,
}
use chat_be.Chat.Utility.Permission.{drops, run_action, IsSameReminder, run_action-IsSameReminder}
use chat_be.Chat.Model.{
  PollStatus, Poll, GroupReminderStatus, GroupReminderRepeatRule, GroupReminder, Store, ok, throw,
  ConversationType, ConversationMemberRole, ConversationMemberStatus, Conversation,
  ConversationMember, ChatError,
}
use chat_be.Chat.Poll.Vote.{create_conversation_activity_message}
use chat_be.Chat.Utility.Rounds.{
  process_due_reminder-settles, closed_by_time, is_found, close_expired_polls-closes,
}
use chat_be.Chat.Utility.Schedule.{
  Calendar, IsForward, add_reminder_interval, advance_past, get_next_repeated_reminder_at,
  IsFirstPast, get_next_repeated_reminder_at-ends,
}
use chat_be.Chat.Utility.Worker.{
  is_due, repeated, notified, process_due_reminder, may_close, close_expired_polls,
}
use chat_be.Chat.Settings.{is_active_member, is_owner_member, is_group_manager}
use chat_be.Chat.Utility.Reminders.{
  utility_guard, ReminderChange, changed_reminder, write_cancel, delete_group_reminder,
}
use chat_be.Chat.Group.Roster.{is_manager}

-- A day has 86 400 000 milliseconds, and a month 30 days.
abbrev plain_calendar : Calendar
plain_calendar = record {
  add_days = λ n t. t + suc (86399999 + 86400000 * (n - 1));
  add_month = λ t. t + 2592000000;
}

plain_calendar-IsForward : IsForward plain_calendar
plain_calendar-IsForward = record {
  day = λ t. omega arith;
  week = λ t. omega arith;
  month = λ t. omega arith;
}

get_next_repeated_reminder_at-ends_example :
    (t : ℕ) × (get_next_repeated_reminder_at plain_calendar 1000 GroupReminderRepeatRule.daily 9000
      ≡ some t)
    × IsFirstPast
        (add_reminder_interval plain_calendar GroupReminderRepeatRule.daily)
        9000
        (add_reminder_interval plain_calendar GroupReminderRepeatRule.daily 1000)
        t
get_next_repeated_reminder_at-ends_example =
    get_next_repeated_reminder_at-ends plain_calendar 1000 GroupReminderRepeatRule.daily 9000
      plain_calendar-IsForward refl

abbrev standup : GroupReminder
standup = record {
  id = 31;
  conversation_id = 5;
  message_id = none;
  title = 4;
  description = none;
  remind_at = 1000;
  repeat_rule = GroupReminderRepeatRule.daily;
  notify_before_minutes = 0;
  next_notify_at = some 1000;
  last_notified_at = none;
  status = GroupReminderStatus.active;
  pinned = false;
  pinned_at = none;
  pinned_by = none;
  created_by = 2;
}

abbrev lunch : Poll
lunch = record {
  id = 7;
  conversation_id = 5;
  question = 3;
  options = [];
  created_by = 1;
  is_multiple_choice = false;
  allow_add_option = false;
  allow_change_vote = true;
  show_results_before_close = false;
  hide_voters = false;
  status = PollStatus.active;
  expires_at = some 8000;
  total_votes = 0;
  last_vote_activity_at = none;
  last_vote_activity_message_id = none;
  vote_activity_count = 0;
  message_id = none;
  closed_at = none;
  closed_by = none;
  pinned = false;
  pinned_at = none;
  pinned_by = none;
}

abbrev crew : Conversation
crew = record {
  id = 5;
  type = ConversationType.group;
  name = none;
  avatar_url = none;
  created_by = some 1;
  owner_id = some 1;
  admins = none;
  members_count = 1;
  settings = none;
  last_message = none;
  last_message_at = none;
}

abbrev mate : ConversationMember
mate = record {
  id = 52;
  user_id = 2;
  role = ConversationMemberRole.member;
  status = ConversationMemberStatus.active;
  joined_at = 1;
  left_at = none;
  unread_count = 0;
  archived = false;
  hidden = false;
  history_visible_from = none;
  last_activity_at = none;
}

abbrev busy_office : Store
busy_office = record {
  polls = (7, lunch) ∷ [];
  conversations = (5, crew) ∷ [];
  members = λ c. (2, mate) ∷ [];
  messages = [];
  group_blocks = λ c. [];
  invite_links = [];
  reminders = (31, standup) ∷ [];
  notes = [];
}

abbrev fresh_ids : ℕ → ℕ
fresh_ids i = 200 + i

process_due_reminder-settles_example :
    (q : GroupReminder) × (last : GroupReminder) × (lookup 31
        (process_due_reminder fresh_ids plain_calendar 9000 standup busy_office).reminders
      ≡ some q)
    × (lookup 31
          (process_due_reminder fresh_ids plain_calendar 9000 q
            (process_due_reminder fresh_ids plain_calendar 9000 standup busy_office)).reminders
        ≡ some last)
    × (is_due 9000 last ≡ false)
process_due_reminder-settles_example =
    process_due_reminder-settles fresh_ids fresh_ids plain_calendar 9000 standup busy_office
      plain_calendar-IsForward refl

close_expired_polls-closes_example :
    lookup 7 (close_expired_polls fresh_ids 9000 (lunch ∷ []) busy_office).polls
    ≡ some (
        if any (is_found 9000 7) (lunch ∷ []) && may_close 9000 (some lunch)
        then closed_by_time 9000 lunch
        else lunch)
close_expired_polls-closes_example =
    close_expired_polls-closes fresh_ids 9000 7 (lunch ∷ []) lunch busy_office refl

-- The reminder moves on by a day.
moves_on :
    map
      (λ r. r.remind_at)
      (values (process_due_reminder fresh_ids plain_calendar 9000 standup busy_office).reminders)
    ≡ (86401000 ∷ [])
unfolding process_due_reminder is_due notified get_next_repeated_reminder_at advance_past
    add_reminder_interval repeated create_conversation_activity_message
moves_on = refl

run_action-IsSameReminder_example :
    ((e : ChatError) × (run_action 90 10 31 2 drops busy_office ≡ (throw e, busy_office)))
    ⊎ ((c : Conversation) × (lookup 5 busy_office.conversations ≡ some c)
        × (is_active_member (lookup 2 (busy_office.members 5)) ≡ true)
        × ((standup.created_by == 2 || is_manager (lookup 2 (busy_office.members 5)) c) ≡ true)
        × ((run_action 90 10 31 2 drops busy_office).0 ≡ ok tt)
        × IsSameReminder 31 standup busy_office (run_action 90 10 31 2 drops busy_office).1)
run_action-IsSameReminder_example =
    run_action-IsSameReminder 90 10 31 2 drops standup busy_office refl

-- The creator deletes the reminder, whose row stays; a description is not cleared by an empty one.
drops_it : (run_action 90 10 31 2 drops busy_office).0 ≡ ok tt
unfolding run_action delete_group_reminder utility_guard write_cancel
    create_conversation_activity_message is_group_manager is_owner_member
drops_it = refl

abbrev empty_description : ReminderChange
empty_description = record {
  title = none;
  description = some none;
  remind_at = none;
  repeat_rule = none;
  notify_before_minutes = none;
  status = none;
}

keeps_description :
    (changed_reminder empty_description (record standup { description = some 8 })).description
    ≡ some 8
unfolding changed_reminder
keeps_description = refl
