-- ===== src/Chat/Group/Joining.antt =====
-- src/modules/chat/usecase/join-group-by-invite.ts. `row_id` is the id that v7() gives to a new row,
-- `fresh` that of the message.
use chat_be.Base.{
  ℕ, Bool, true, false, not, Option, none, some, [], ◌∷◌, ltb, if◌then◌else◌, lookup, insert,
}
use chat_be.Chat.Model.{
  Action, ok, throw, ConversationMemberRole, ConversationMemberStatus, GroupSettings, Conversation,
  ConversationMember, GroupInviteLinkStatus, GroupInviteLink, Store, ChatError, group_not_found,
  not_a_group, link_not_found, link_revoked, link_expired, invites_disabled, blocked_from_group,
  joined_by_invite,
}
use chat_be.Chat.Settings.{normalize_group_settings, is_active_member}
use chat_be.Chat.Poll.Vote.{first_error, guarded}
use chat_be.Chat.Group.Ownership.{
  is_group, update_members, update_conversation, post_system_message,
}
use chat_be.Chat.Group.Roster.{is_user_blocked, history_after, one_more_member}

abbrev pub is_revoked : GroupInviteLinkStatus → Bool
is_revoked GroupInviteLinkStatus.revoked = true
is_revoked GroupInviteLinkStatus.active = false

-- The row that an insert of a new member stores: `beforeInsert` of
-- src/modules/chat/infras/repository/dynamodb/member-repo.ts writes no `historyVisibleFrom`, whatever
-- the handler has put there, and the present time where `lastActivityAt` is missing.
abbrev pub new_row : ℕ → ℕ → ConversationMemberStatus → ℕ → ConversationMember
new_row row_id user_id status now = record {
  id = row_id;
  user_id = user_id;
  role = ConversationMemberRole.member;
  status = status;
  joined_at = now;
  left_at = none;
  unread_count = 0;
  archived = false;
  hidden = false;
  history_visible_from = none;
  last_activity_at = some now;
}

abbrev pub write_row : ℕ → ℕ → ConversationMember → Store → Store
write_row group_id user_id m = update_members group_id (insert user_id m)

-- The row of one who waits for approval: one who comes back keeps his role.
abbrev pub pending_row : ℕ → ℕ → ℕ → Option ConversationMember → ConversationMember
pending_row row_id now user_id none = new_row row_id user_id ConversationMemberStatus.pending now
pending_row row_id now user_id (some m) = record m {
  status = ConversationMemberStatus.pending;
  left_at = none;
}

abbrev pub joined_row : Bool → ℕ → ℕ → ℕ → Option ConversationMember → ConversationMember
joined_row can_view row_id now user_id none =
    new_row row_id user_id ConversationMemberStatus.active now
joined_row can_view row_id now user_id (some m) = record m {
  role = ConversationMemberRole.member;
  status = ConversationMemberStatus.active;
  joined_at = now;
  left_at = none;
  unread_count = 0;
  archived = false;
  hidden = false;
  history_visible_from = history_after can_view now m.history_visible_from;
}

-- What the handler returns, without the row of the member.
pub record JoinResult : Type 0 where
  pub conversation_id : ℕ
  pub is_pending : Bool
  pub already_member : Bool

abbrev pub join_guard : Conversation → Bool → Option ChatError
join_guard conversation is_blocked = first_error (
    (not (is_group conversation.type), not_a_group)
    ∷ (not (normalize_group_settings conversation.settings).allow_member_invite, invites_disabled)
    ∷ (is_blocked, blocked_from_group)
    ∷ [])

-- The writes of one who was no active member.
unfoldable pub admit :
    ℕ
    → ℕ
    → ℕ
    → (ℕ → Option ℕ)
    → ℕ
    → ℕ
    → GroupSettings
    → Option ConversationMember
    → Action JoinResult
admit fresh row_id now name group_id user_id settings existing s =
    if settings.require_approval
    then (
      ok (record { conversation_id = group_id; is_pending = true; already_member = false }),
      write_row group_id user_id (pending_row row_id now user_id existing) s,
    )
    else (
      ok (record { conversation_id = group_id; is_pending = false; already_member = false }),
      post_system_message fresh now group_id user_id (joined_by_invite (name user_id)) (
          update_conversation group_id one_more_member (
            write_row group_id user_id
              (joined_row settings.new_member_can_view_history row_id now user_id existing) s)),
    )

unfoldable pub join_as :
    ℕ
    → ℕ
    → ℕ
    → (ℕ → Option ℕ)
    → ℕ
    → ℕ
    → GroupSettings
    → Option ConversationMember
    → Action JoinResult
join_as fresh row_id now name group_id user_id settings existing s =
    if is_active_member existing
    then (ok (record { conversation_id = group_id; is_pending = false; already_member = true }), s)
    else admit fresh row_id now name group_id user_id settings existing s

-- `execute` from the conversation of the link on.
unfoldable pub enter_group : ℕ → ℕ → ℕ → (ℕ → Option ℕ) → ℕ → ℕ → Action JoinResult
enter_group fresh row_id now name group_id user_id s = elim (lookup group_id s.conversations) [
  | none ↦ (throw group_not_found, s)
  | some c ↦
      guarded (join_guard c (is_user_blocked group_id user_id s))
        (join_as fresh row_id now name group_id user_id (normalize_group_settings c.settings)
          (lookup user_id (s.members group_id)))
        s
]

-- `link.expiresAt && new Date() > link.expiresAt`
abbrev pub is_over : ℕ → Option ℕ → Bool
is_over now none = false
is_over now (some expires_at) = ltb expires_at now

abbrev pub link_guard : ℕ → GroupInviteLink → Option ChatError
link_guard now link =
    first_error
      ((is_revoked link.status, link_revoked) ∷ (is_over now link.expires_at, link_expired) ∷ [])

unfoldable pub join_group_by_invite : ℕ → ℕ → ℕ → (ℕ → Option ℕ) → ℕ → ℕ → Action JoinResult
join_group_by_invite fresh row_id now name token user_id s = elim (lookup token s.invite_links) [
  | none ↦ (throw link_not_found, s)
  | some link ↦
      guarded (link_guard now link) (enter_group fresh row_id now name link.conversation_id user_id)
        s
]
