-- ===== src/Chat/Group/Adding.antt =====
-- src/modules/chat/usecase/add-members-to-group.ts, without the parsing of the input and without the
-- undoing of writes that fail. `row_id` gives the id of the new row of a user; `dir` is what the
-- access policy asks.
use chat_be.Base.{
  ℕ, ◌+◌, Bool, true, false, not, ◌&&◌, Option, none, some, List, [], ◌∷◌, ◌++◌, map, ltb, ◌==◌,
  if◌then◌else◌, is_some, length, filter, Dict, lookup, insert, adjust,
}
use chat_be.Chat.Model.{
  Action, ok, throw, ConversationMemberRole, ConversationMemberStatus, Conversation,
  ConversationMember, Store, ChatError, not_a_member, group_not_found, not_a_group,
  only_managers_add, invites_disabled, invalid_members, group_blocked, already_member,
  members_added,
}
use chat_be.Chat.Access.{Directory, Validated, validate_add_group_members, valid, refused}
use chat_be.Chat.Settings.{
  normalize_group_settings, is_active_status, is_active_member, is_everybody,
}
use chat_be.Chat.Poll.Vote.{first_error, guarded}
use chat_be.Chat.Group.Ownership.{
  is_group, update_members, update_conversation, post_system_message,
}
use chat_be.Chat.Group.Roster.{is_manager, is_user_blocked, history_after}
use chat_be.Chat.Group.Joining.{new_row}

abbrev pub add_guard : Conversation → Option ConversationMember → Option ChatError
add_guard conversation requester = first_error (
    (not (is_group conversation.type), not_a_group)
    ∷ (not (is_active_member requester), not_a_member)
    ∷ (not (normalize_group_settings conversation.settings).allow_member_invite, invites_disabled)
    ∷ (
      not (is_everybody (normalize_group_settings conversation.settings).who_can_add_members)
          && not (is_manager requester conversation),
      only_managers_add,
    )
    ∷ [])

-- The first id of a loop for which a test holds.
abbrev pub first_id : (ℕ → Bool) → List ℕ → Option ℕ
first_id p [] = none
first_id p (u ∷ us) = if p u then some u else first_id p us

-- A row without `leftAt`.
abbrev pub is_present : Option ConversationMember → Bool
is_present none = false
is_present (some m) = not (is_some m.left_at)

-- The errors of the two loops before the writes.
abbrev pub blocked_error : Option ℕ → Option ℕ → Option ChatError
blocked_error (some u) present = some (group_blocked u)
blocked_error none (some u) = some (already_member u)
blocked_error none none = none

abbrev pub loop_error : ℕ → List ℕ → Store → Option ChatError
loop_error group_id ids s =
    blocked_error (first_id (λ u. is_user_blocked group_id u s) ids)
      (first_id (λ u. is_present (lookup u (s.members group_id))) ids)

abbrev pub default_status : Bool → ConversationMemberStatus
default_status true = ConversationMemberStatus.pending
default_status false = ConversationMemberStatus.active

abbrev pub rejoined : Bool → ConversationMemberStatus → ℕ → ConversationMember → ConversationMember
rejoined can_view status now m = record m {
  role = ConversationMemberRole.member;
  status = status;
  joined_at = now;
  left_at = none;
  unread_count = 0;
  archived = false;
  hidden = false;
  history_visible_from = history_after can_view now m.history_visible_from;
  last_activity_at = some now;
}

-- `membersToInsert` and `membersToUpdate`, by their users
abbrev pub to_insert : Dict ConversationMember → List ℕ → List ℕ
to_insert members ids = filter (λ u. not (is_some (lookup u members))) ids

abbrev pub to_update : Dict ConversationMember → List ℕ → List ℕ
to_update members ids = filter (λ u. is_some (lookup u members)) ids

abbrev pub insert_all :
    (ℕ → ConversationMember) → List ℕ → Dict ConversationMember → Dict ConversationMember
insert_all row [] members = members
insert_all row (u ∷ us) members = insert_all row us (insert u (row u) members)

abbrev pub adjust_all :
    (ConversationMember → ConversationMember)
    → List ℕ
    → Dict ConversationMember
    → Dict ConversationMember
adjust_all f [] members = members
adjust_all f (u ∷ us) members = adjust_all f us (adjust u f members)

abbrev pub write_members :
    (ℕ → ℕ)
    → ℕ
    → Bool
    → ConversationMemberStatus
    → List ℕ
    → Dict ConversationMember
    → Dict ConversationMember
write_members row_id now can_view status ids members =
    adjust_all (rejoined can_view status now) (to_update members ids)
      (insert_all (λ u. new_row (row_id u) u status now) (to_insert members ids) members)

abbrev pub added_count : ConversationMemberStatus → Dict ConversationMember → List ℕ → ℕ
added_count status members ids =
    if is_active_status status
    then length (to_insert members ids) + length (to_update members ids)
    else 0

unfoldable pub write_added :
    ℕ
    → (ℕ → ℕ)
    → ℕ
    → (ℕ → Option ℕ)
    → ℕ
    → ℕ
    → Bool
    → ConversationMemberStatus
    → List ℕ
    → Action (List ℕ)
write_added fresh row_id now name group_id requester_id can_view status ids s =
    let members = s.members group_id in
    let written = update_members group_id (write_members row_id now can_view status ids) s in
    let count = added_count status members ids in
    let counted =
      if ltb 0 count
      then update_conversation group_id (λ c. record c { members_count = c.members_count + count })
          written
      else written in
    let added = to_insert members ids ++ to_update members ids in
    if length added == 0 then (ok [], counted) else (
      ok added,
      post_system_message fresh now group_id requester_id
          (members_added (name requester_id) (map name added)) counted,
    )

-- The ids that the access policy passes, or the error.
abbrev pub add_valid :
    ℕ
    → (ℕ → ℕ)
    → ℕ
    → (ℕ → Option ℕ)
    → ℕ
    → ℕ
    → Bool
    → ConversationMemberStatus
    → Validated
    → Action (List ℕ)
add_valid fresh row_id now name group_id requester_id can_view status (refused e) s =
    (throw (invalid_members e), s)
add_valid fresh row_id now name group_id requester_id can_view status (valid ids) s =
    guarded (loop_error group_id ids s)
      (write_added fresh row_id now name group_id requester_id can_view status ids) s

-- What it returns is the users of the new members.
unfoldable pub add_members_to_group :
    ℕ → (ℕ → ℕ) → ℕ → (ℕ → Option ℕ) → Directory → ℕ → ℕ → List ℕ → Action (List ℕ)
add_members_to_group fresh row_id now name dir group_id requester_id ids s =
    elim (lookup group_id s.conversations) [
      | none ↦ (throw group_not_found, s)
      | some c ↦
          let requester = lookup requester_id (s.members group_id) in
          let settings = normalize_group_settings c.settings in
          guarded (add_guard c requester)
            (add_valid fresh row_id now name group_id requester_id
              settings.new_member_can_view_history
              (default_status (settings.require_approval && not (is_manager requester c)))
              (validate_add_group_members dir requester_id ids c.members_count))
            s
    ]
