-- ===== src/Chat/Utility/Reminders.antt =====
-- src/modules/chat/usecase/group-utilities.ts: reminders. `fresh` is the id of the message that v7()
-- gives, `now` the time of the call.
use chat_be.Base.{
  ℕ, Bool, true, false, not, ◌||◌, Option, none, some, List, [], ◌∷◌, ◌==◌, if◌then◌else◌, is_some,
  filter, lookup, insert, values, adjust,
}
use chat_be.Chat.Model.{
  Result, Action, throw, ok, MessageType, MessageText, Conversation, ConversationMember,
  GroupReminderStatus, GroupReminderRepeatRule, GroupReminder, Store, ChatError, not_a_member,
  group_not_found, not_a_group, reminder_not_found, only_managers_utility, only_managers_item,
  only_creator_or_managers, reminder_set, reminder_changed, reminder_dropped, reminder_pinned,
  reminder_unpinned,
}
use chat_be.Chat.Settings.{
  or_default, normalize_group_settings, is_active_member, GroupUtility, can_use_group_utility,
}
use chat_be.Chat.Poll.Vote.{first_error, create_conversation_activity_message}
use chat_be.Chat.Utility.Activity.{
  utility_message, create_quiet_message, adjust_message, pin_item_message,
}
use chat_be.Chat.Utility.Schedule.{get_initial_next_notify_at}
use chat_be.Chat.Group.Ownership.{is_group, on_group}
use chat_be.Chat.Group.Roster.{is_manager}

abbrev pub may_use_utility : GroupUtility → Option ConversationMember → Conversation → Bool
may_use_utility utility none conversation = false
may_use_utility utility (some m) conversation =
    can_use_group_utility (normalize_group_settings conversation.settings) utility m
      (some conversation)

-- `assertMember` past the conversation, and a last test of the three checks that begin with it.
unfoldable pub utility_guard :
    Conversation → Option ConversationMember → Bool → ChatError → Option ChatError
utility_guard conversation member allowed e = first_error (
    (not (is_group conversation.type), not_a_group)
    ∷ (not (is_active_member member), not_a_member)
    ∷ (not allowed, e)
    ∷ [])

-- `assertUtilityPermission`, `assertManager` and `assertCreatorOrManager`
abbrev pub permission_error :
    GroupUtility → Option ConversationMember → Conversation → Option ChatError
permission_error utility member c =
    utility_guard c member (may_use_utility utility member c) only_managers_utility

abbrev pub manager_error : Option ConversationMember → Conversation → Option ChatError
manager_error member c = utility_guard c member (is_manager member c) only_managers_item

abbrev pub creator_error : ℕ → ℕ → Option ConversationMember → Conversation → Option ChatError
creator_error created_by user_id member c =
    utility_guard c member (created_by == user_id || is_manager member c) only_creator_or_managers

pub record ReminderInput : Type 0 where
  pub title : ℕ
  pub description : Option ℕ
  pub remind_at : ℕ
  pub repeat_rule : Option GroupReminderRepeatRule
  pub notify_before_minutes : Option ℕ

unfoldable pub new_reminder : ℕ → ℕ → ℕ → ℕ → ReminderInput → GroupReminder
new_reminder reminder_id message_id group_id user_id input =
    let minutes = or_default input.notify_before_minutes 0 in
    record {
      id = reminder_id;
      conversation_id = group_id;
      message_id = some message_id;
      title = input.title;
      description = input.description;
      remind_at = input.remind_at;
      repeat_rule = or_default input.repeat_rule GroupReminderRepeatRule.never;
      notify_before_minutes = minutes;
      next_notify_at = some (get_initial_next_notify_at input.remind_at minutes);
      last_notified_at = none;
      status = GroupReminderStatus.active;
      pinned = false;
      pinned_at = none;
      pinned_by = none;
      created_by = user_id;
    }

unfoldable pub create_group_reminder : ℕ → ℕ → ℕ → ℕ → ℕ → ReminderInput → Action (Unit {0})
create_group_reminder fresh reminder_id now group_id user_id input s =
    on_group group_id
      (λ c. permission_error GroupUtility.reminder (lookup user_id (s.members group_id)) c)
      (λ s.
        let t =
          create_conversation_activity_message
            (utility_message fresh now group_id user_id MessageType.reminder
              (reminder_set input.title) none (some reminder_id))
            s in
        record t {
          reminders =
              insert reminder_id (new_reminder reminder_id fresh group_id user_id input)
                t.reminders;
        })
      s

abbrev pub rows_of {ℓ} : {V : Type ℓ} → (V → ℕ) → ℕ → List V → List V
rows_of conversation_of g rows = filter (λ r. conversation_of r == g) rows

-- A query of a member: what it reads, or the error of `assertMember`.
abbrev pub read_by_member : {A : Type 0} → ℕ → ℕ → (Store → A) → Store → Result A
read_by_member group_id user_id read s = elim (lookup group_id s.conversations) [
  | none ↦ throw group_not_found
  | some c ↦ elim (utility_guard c (lookup user_id (s.members group_id)) true not_a_member) [
    | some e ↦ throw e
    | none ↦ ok (read s)
  ]
]

unfoldable pub list_group_reminders : ℕ → ℕ → Store → Result (List GroupReminder)
list_group_reminders group_id user_id =
    read_by_member group_id user_id
      (λ s. rows_of (λ r. r.conversation_id) group_id (values s.reminders))

-- A handler on a reminder that must exist, by its creator or a manager.
abbrev pub on_reminder : ℕ → ℕ → (GroupReminder → Store → Store) → Action (Unit {0})
on_reminder reminder_id user_id act s = elim (lookup reminder_id s.reminders) [
  | none ↦ (throw reminder_not_found, s)
  | some r ↦
      on_group r.conversation_id
        (λ c. creator_error r.created_by user_id (lookup user_id (s.members r.conversation_id)) c)
        (act r) s
]

abbrev pub update_reminder : ℕ → (GroupReminder → GroupReminder) → Store → Store
update_reminder reminder_id f s = record s { reminders = adjust reminder_id f s.reminders }

-- What is given in a change; a description that is given and empty is `some none`.
pub record ReminderChange : Type 0 where
  pub title : Option ℕ
  pub description : Option (Option ℕ)
  pub remind_at : Option ℕ
  pub repeat_rule : Option GroupReminderRepeatRule
  pub notify_before_minutes : Option ℕ
  pub status : Option GroupReminderStatus

-- The repository skips the undefined that an empty description becomes.
abbrev pub description_after : Option (Option ℕ) → Option ℕ → Option ℕ
description_after (some (some d)) old = some d
description_after (some none) old = old
description_after none old = old

abbrev pub changes_time : ReminderChange → Bool
changes_time change =
    is_some change.remind_at || is_some change.notify_before_minutes || is_some change.repeat_rule

abbrev pub changes_text : ReminderChange → Bool
changes_text change = is_some change.title || is_some change.description || is_some change.remind_at

unfoldable pub changed_reminder : ReminderChange → GroupReminder → GroupReminder
changed_reminder change r =
    let remind_at = or_default change.remind_at r.remind_at in
    let minutes = or_default change.notify_before_minutes r.notify_before_minutes in
    record r {
      title = or_default change.title r.title;
      description = description_after change.description r.description;
      remind_at = remind_at;
      repeat_rule = or_default change.repeat_rule r.repeat_rule;
      notify_before_minutes = minutes;
      next_notify_at =
          if changes_time change
          then some (get_initial_next_notify_at remind_at minutes)
          else r.next_notify_at;
      status = or_default change.status r.status;
    }

-- The writes of a change.
unfoldable pub write_change : ℕ → ℕ → ℕ → ℕ → ReminderChange → GroupReminder → Store → Store
write_change fresh now reminder_id user_id change r s =
    let updated = changed_reminder change r in
    let t = update_reminder reminder_id (changed_reminder change) s in
    create_conversation_activity_message
      (utility_message fresh now updated.conversation_id user_id MessageType.system
        (reminder_changed updated.title) none (some updated.id))
      (if changes_text change
        then adjust_message updated.message_id (λ m. record m { text = reminder_set updated.title })
            t
        else t)

unfoldable pub update_group_reminder : ℕ → ℕ → ℕ → ℕ → ReminderChange → Action (Unit {0})
update_group_reminder fresh now reminder_id user_id change =
    on_reminder reminder_id user_id (write_change fresh now reminder_id user_id change)

-- The writes of a deletion: the row stays.
unfoldable pub write_cancel : ℕ → ℕ → ℕ → ℕ → GroupReminder → Store → Store
write_cancel fresh now reminder_id user_id r s =
    create_conversation_activity_message
      (utility_message fresh now r.conversation_id user_id MessageType.system
        (reminder_dropped r.title) none (some r.id))
      (update_reminder reminder_id (λ r. record r { status = GroupReminderStatus.cancelled }) s)

unfoldable pub delete_group_reminder : ℕ → ℕ → ℕ → ℕ → Action (Unit {0})
delete_group_reminder fresh now reminder_id user_id =
    on_reminder reminder_id user_id (write_cancel fresh now reminder_id user_id)

abbrev pub pin_text : Bool → ℕ → MessageText
pin_text true title = reminder_pinned title
pin_text false title = reminder_unpinned title

abbrev pub pinned_reminder : Bool → ℕ → ℕ → GroupReminder → GroupReminder
pinned_reminder pinned now user_id r = record r {
  pinned = pinned;
  pinned_at = if pinned then some now else none;
  pinned_by = if pinned then some user_id else none;
}

-- The writes of the handlers that pin and unpin.
unfoldable pub write_pin : Bool → ℕ → ℕ → ℕ → ℕ → GroupReminder → Store → Store
write_pin pinned fresh now reminder_id user_id r s =
    create_quiet_message
      (utility_message fresh now r.conversation_id user_id MessageType.system
        (pin_text pinned r.title) none (some r.id))
      (pin_item_message pinned now r.message_id
        (update_reminder reminder_id (pinned_reminder pinned now user_id) s))

unfoldable pub pin_group_reminder : Bool → ℕ → ℕ → ℕ → ℕ → Action (Unit {0})
pin_group_reminder pinned fresh now reminder_id user_id =
    on_reminder reminder_id user_id (write_pin pinned fresh now reminder_id user_id)
