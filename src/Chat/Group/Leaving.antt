-- ===== src/Chat/Group/Leaving.antt =====
-- src/modules/chat/usecase/leave-group.ts.
use chat_be.Base.{
  ℕ, ◌-◌, Bool, true, false, not, Option, none, some, List, [], ◌∷◌, ◌==◌, if◌then◌else◌, is_some,
  filter, Dict, lookup, values,
}
use chat_be.Chat.Poll.Vote.{guarded, first_error}
use chat_be.Chat.Model.{
  ConversationMemberRole, ConversationMember, Conversation, Store, ChatError, group_not_found,
  not_a_group, not_a_member, invalid_new_owner, no_active_admin, new_owner_required, member_left,
  owner_left, Result, Action, ok, throw,
}
use chat_be.Chat.Settings.{is_active, is_active_member, is_admin_role}
use chat_be.Chat.Group.Ownership.{
  is_group, update_member, set_role, update_conversation, post_system_message, admins_of,
  is_owner_of,
}

abbrev pub first : List ConversationMember → Option ConversationMember
first [] = none
first (m ∷ ms) = some m

-- The new owner, or the error: by the id that the owner names, or else by `autoTransferOwner`. The
-- query of the latter asks for an active admin, but the repository reads the conversation alone and
-- gives its first member.
abbrev pub named_owner : Option ConversationMember → Result ConversationMember
named_owner none = throw invalid_new_owner
named_owner (some m) = if is_active m then ok m else throw invalid_new_owner

abbrev pub automatic_owner : Option ConversationMember → Result ConversationMember
automatic_owner none = throw no_active_admin
automatic_owner (some m) = if is_some m.left_at then throw no_active_admin else ok m

unfoldable pub next_owner : Option ℕ → Bool → Dict ConversationMember → Result ConversationMember
next_owner (some new_owner_id) auto members = named_owner (lookup new_owner_id members)
next_owner none true members = automatic_owner (first (values members))
next_owner none false members = throw new_owner_required

abbrev pub without_user : ℕ → List ℕ → List ℕ
without_user user_id admins = filter (λ u. not (u == user_id)) admins

-- `nextAdmins` past the choice of the owner: a named owner is taken out only if he is an admin.
abbrev pub admins_after : Option ℕ → ConversationMember → List ℕ → List ℕ
admins_after none m admins = without_user m.user_id admins
admins_after (some id) m admins =
    if is_admin_role m.role then without_user m.user_id admins else admins

-- `Math.max(0, (membersCount || 1) - 1)`
abbrev pub one_less : ℕ → ℕ
one_less n = n - 1

-- The writes for a member who is not the owner.
unfoldable pub depart : ℕ → ℕ → ℕ → Store → Store
depart now group_id user_id s =
    update_conversation group_id
      (λ c. record c {
        admins = some (without_user user_id (admins_of c.admins));
        members_count = one_less c.members_count;
      })
      (update_member group_id user_id (λ m. record m { left_at = some now }) s)

-- The writes for the owner, whom `m` follows.
unfoldable pub depart_as_owner : ℕ → ℕ → ℕ → Option ℕ → ConversationMember → Store → Store
depart_as_owner now group_id user_id new_owner_id m s =
    update_conversation group_id
      (λ c. record c {
        owner_id = some m.user_id;
        admins = some (admins_after new_owner_id m (without_user user_id (admins_of c.admins)));
        members_count = one_less c.members_count;
      })
      (update_member group_id user_id
        (λ m. record m { left_at = some now; role = ConversationMemberRole.admin })
        (update_member group_id m.user_id (set_role ConversationMemberRole.owner) s))

unfoldable pub leave_as_owner :
    ℕ → ℕ → (ℕ → Option ℕ) → ℕ → ℕ → Option ℕ → Result ConversationMember → Action (Unit {0})
leave_as_owner fresh now name group_id user_id new_owner_id (throw e) s = (throw e, s)
leave_as_owner fresh now name group_id user_id new_owner_id (ok m) s = (
  ok tt,
  post_system_message fresh now group_id user_id (owner_left (name user_id) (name m.user_id))
      (depart_as_owner now group_id user_id new_owner_id m s),
)

abbrev pub leave_guard : Conversation → Option ConversationMember → Option ChatError
leave_guard c m =
    first_error
      ((not (is_group c.type), not_a_group) ∷ (not (is_active_member m), not_a_member) ∷ [])

unfoldable pub leave_group : ℕ → ℕ → (ℕ → Option ℕ) → ℕ → ℕ → Option ℕ → Bool → Action (Unit {0})
leave_group fresh now name group_id user_id new_owner_id auto s =
    elim (lookup group_id s.conversations) [
      | none ↦ (throw group_not_found, s)
      | some c ↦
          let member = lookup user_id (s.members group_id) in
          guarded (leave_guard c member)
            (λ s.
              if is_owner_of member c
              then leave_as_owner fresh now name group_id user_id new_owner_id
                  (next_owner new_owner_id auto (s.members group_id)) s
              else (
                ok tt,
                post_system_message fresh now group_id user_id (member_left (name user_id))
                    (depart now group_id user_id s),
              ))
            s
    ]
