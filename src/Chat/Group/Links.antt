-- ===== src/Chat/Group/Links.antt =====
-- src/modules/chat/usecase/get-group-invite-link.ts. `fresh` is the token that v7() gives.
use chat_be.Base.{
  ℕ, Bool, false, not, ◌&&◌, Option, none, some, List, [], ◌∷◌, ◌==◌, if◌then◌else◌, lookup, insert,
  values, adjust,
}
use chat_be.Chat.Model.{
  Result, Action, throw, ok, Conversation, ConversationMember, GroupInviteLinkStatus,
  GroupInviteLink, Store, ChatError, not_a_member, group_not_found, link_not_found, no_active_link,
  cannot_add_members,
}
use chat_be.Chat.Settings.{normalize_group_settings, is_active_member, can_add_members}
use chat_be.Chat.Poll.Vote.{first_error, guarded}
use chat_be.Chat.Group.Joining.{is_revoked, link_guard}

abbrev pub may_add : Option ConversationMember → Conversation → Bool
may_add none conversation = false
may_add (some m) conversation =
    can_add_members (normalize_group_settings conversation.settings) m (some conversation)

abbrev pub invite_link_guard : Conversation → Option ConversationMember → Option ChatError
invite_link_guard conversation member = first_error (
    (not (is_active_member member), not_a_member)
    ∷ (not (may_add member conversation), cannot_add_members)
    ∷ [])

abbrev pub is_active_link_of : ℕ → GroupInviteLink → Bool
is_active_link_of g link = link.conversation_id == g && not (is_revoked link.status)

-- `findActiveByConversationId`, the first in the order of the table
abbrev pub find_active_link : ℕ → List GroupInviteLink → Option GroupInviteLink
find_active_link g [] = none
find_active_link g (link ∷ links) =
    if is_active_link_of g link then some link else find_active_link g links

abbrev pub insert_link : ℕ → ℕ → ℕ → ℕ → Store → Store
insert_link fresh now group_id requester_id s = record s {
  invite_links =
      insert fresh
        (record {
          token = fresh;
          conversation_id = group_id;
          status = GroupInviteLinkStatus.active;
          created_by = requester_id;
          revoked_by = none;
          created_at = now;
          revoked_at = none;
          expires_at = none;
        })
        s.invite_links;
}

abbrev pub revoke_link : ℕ → ℕ → GroupInviteLink → Store → Store
revoke_link now requester_id link s = record s {
  invite_links =
      adjust link.token
        (λ l. record l {
          status = GroupInviteLinkStatus.revoked;
          revoked_by = some requester_id;
          revoked_at = some now;
        })
        s.invite_links;
}

-- A handler on a group for one who may add members to it.
abbrev pub on_link : {A : Type 0} → ℕ → ℕ → (Option GroupInviteLink → Action A) → Action A
on_link group_id requester_id act s = elim (lookup group_id s.conversations) [
  | none ↦ (throw group_not_found, s)
  | some c ↦
      guarded (invite_link_guard c (lookup requester_id (s.members group_id)))
        (act (find_active_link group_id (values s.invite_links))) s
]

-- What they return is the token.
abbrev pub token_or_new : ℕ → ℕ → ℕ → ℕ → Option GroupInviteLink → Action ℕ
token_or_new fresh now group_id requester_id (some link) s = (ok link.token, s)
token_or_new fresh now group_id requester_id none s =
    (ok fresh, insert_link fresh now group_id requester_id s)

unfoldable pub get_group_invite_link : ℕ → ℕ → ℕ → ℕ → Action ℕ
get_group_invite_link fresh now group_id requester_id =
    on_link group_id requester_id (token_or_new fresh now group_id requester_id)

abbrev pub renew : ℕ → ℕ → ℕ → ℕ → Option GroupInviteLink → Action ℕ
renew fresh now group_id requester_id none s =
    (ok fresh, insert_link fresh now group_id requester_id s)
renew fresh now group_id requester_id (some link) s =
    (ok fresh, insert_link fresh now group_id requester_id (revoke_link now requester_id link s))

unfoldable pub regenerate_group_invite_link : ℕ → ℕ → ℕ → ℕ → Action ℕ
regenerate_group_invite_link fresh now group_id requester_id =
    on_link group_id requester_id (renew fresh now group_id requester_id)

abbrev pub revoke_found : ℕ → ℕ → Option GroupInviteLink → Action (Unit {0})
revoke_found now requester_id none s = (throw no_active_link, s)
revoke_found now requester_id (some link) s = (ok tt, revoke_link now requester_id link s)

unfoldable pub revoke_group_invite_link : ℕ → ℕ → ℕ → Action (Unit {0})
revoke_group_invite_link now group_id requester_id =
    on_link group_id requester_id (revoke_found now requester_id)

-- What the preview of an invite shows.
pub record InvitePreview : Type 0 where
  pub conversation_id : ℕ
  pub name : Option ℕ
  pub avatar_url : Option ℕ
  pub members_count : ℕ
  pub created_by : Option ℕ

abbrev pub creator_name : (ℕ → Option ℕ) → Option ℕ → Option ℕ
creator_name name none = none
creator_name name (some u) = name u

abbrev pub preview_conversation : (ℕ → Option ℕ) → ℕ → Option Conversation → Result InvitePreview
preview_conversation name g none = throw group_not_found
preview_conversation name g (some c) = ok (record {
  conversation_id = g;
  name = c.name;
  avatar_url = c.avatar_url;
  members_count = c.members_count;
  created_by = creator_name name c.created_by;
})

unfoldable pub preview_invite : (ℕ → Option ℕ) → ℕ → ℕ → Store → Result InvitePreview
preview_invite name now token s = elim (lookup token s.invite_links) [
  | none ↦ throw link_not_found
  | some link ↦ elim (link_guard now link) [
    | some e ↦ throw e
    | none ↦
        preview_conversation name link.conversation_id (lookup link.conversation_id s.conversations)
  ]
]
