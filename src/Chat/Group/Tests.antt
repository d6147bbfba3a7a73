-- ===== src/Chat/Group/Tests.antt =====
-- Group 5 with the owner 1 and the member 2.
use chat_be.Base.{
  ℕ, ◌+◌, ◌≡◌, refl, ◌⊎◌, inl, inr, true, false, ◌&&◌, ◌||◌, Option, none, some, [], ◌∷◌, arith,
  ◌==◌, eq_of_==, Bool-cases, is_some, Dict, lookup,
}
use chat_be.Chat.Model.{
  ConversationType, ConversationMemberRole, ConversationMemberStatus, Conversation,
  ConversationMember, Store, ChatError, ok, throw,
}
use chat_be.Chat.Settings.{is_owner_role, is_owner_member}
use chat_be.Chat.Group.Ownership.{
  post_system_message, transfer_guard, hand_over, transfer_owner, set_admin_guard, change_admin,
  set_admin,
}
use chat_be.Chat.Group.Keeping.{transfer_owner-IsOwned}
use chat_be.Chat.Group.Transfer.{IsOwned}
use chat_be.Chat.Group.Parting.{is_error, leave_group-IsOwned}
use chat_be.Chat.Group.Leaving.{
  next_owner, depart, depart_as_owner, leave_as_owner, leave_guard, leave_group,
}

-- Unfolds what a run needs.
groups : Unit {0}
unfolding transfer_owner transfer_guard hand_over set_admin set_admin_guard change_admin leave_group
    next_owner leave_as_owner depart depart_as_owner post_system_message is_owner_member
groups = tt

abbrev pub office_row : ℕ → ConversationMemberRole → ConversationMemberStatus → ConversationMember
office_row u role status = record {
  id = 50 + u;
  user_id = u;
  role = role;
  status = status;
  joined_at = 1;
  left_at = none;
  unread_count = 0;
  archived = false;
  hidden = false;
  history_visible_from = none;
  last_activity_at = none;
}

abbrev pub team : Conversation
team = record {
  id = 5;
  type = ConversationType.group;
  name = none;
  avatar_url = none;
  created_by = some 1;
  owner_id = some 1;
  admins = none;
  members_count = 2;
  settings = none;
  last_message = none;
  last_message_at = none;
}

abbrev pub office_rows : Dict ConversationMember
office_rows =
    (1, office_row 1 ConversationMemberRole.owner ConversationMemberStatus.active)
    ∷ (2, office_row 2 ConversationMemberRole.member ConversationMemberStatus.active)
    ∷ []

abbrev pub office : Store
office = record {
  polls = [];
  conversations = (5, team) ∷ [];
  members = λ c. office_rows;
  messages = [];
  group_blocks = λ c. [];
  invite_links = [];
  reminders = [];
  notes = [];
}

abbrev pub no_name : ℕ → Option ℕ
no_name u = none

pub office_rows-RowFits :
    (w : ℕ) (m : ConversationMember)
    → lookup w office_rows ≡ some m
    → (m.user_id ≡ w) × (is_owner_role m.role ≡ true → w ≡ 1)
office_rows-RowFits w m e = elim (Bool-cases (w == 1)) [
  | inl one ↦ (let w1 = eq_of_== w 1 one in (ground arith, λ r. w1))
  | inr other ↦ elim (Bool-cases (w == 2)) [
    | inl two ↦ (let w2 = eq_of_== w 2 two in (ground arith, λ r. absurd (ground arith)))
    | inr another ↦ absurd (ground arith)
  ]
]

office-IsOwned : IsOwned 5 1 office
office-IsOwned = record {
  conversation = team;
  found = refl;
  id = refl;
  owner_id = refl;
  owned = record { present = (_, refl, refl, refl); rows = office_rows-RowFits };
}

transfer_owner-IsOwned_example :
    ((e : ChatError) × (transfer_owner 90 10 no_name 5 1 2 office ≡ (throw e, office)))
    ⊎ ((◌≡◌ {A = ℕ} 1 1)
        × ((transfer_owner 90 10 no_name 5 1 2 office).0 ≡ ok tt)
        × IsOwned 5 2 (transfer_owner 90 10 no_name 5 1 2 office).1)
transfer_owner-IsOwned_example = transfer_owner-IsOwned 90 10 5 1 1 2 no_name office office-IsOwned

leave_group-IsOwned_example :
    (((is_some (leave_guard team (lookup 1 (office.members 5)))
          || (1 == 1 && is_error (next_owner (some 2) false (office.members 5))))
        ≡ true)
      × ((e : ChatError) × (leave_group 90 10 no_name 5 1 (some 2) false office
            ≡ (throw e, office))))
    ⊎ (((is_some (leave_guard team (lookup 1 (office.members 5)))
            || (1 == 1 && is_error (next_owner (some 2) false (office.members 5))))
          ≡ false)
        × ((leave_group 90 10 no_name 5 1 (some 2) false office).0 ≡ ok tt)
        × IsOwned 5 2 (leave_group 90 10 no_name 5 1 (some 2) false office).1)
unfolding groups office-IsOwned
leave_group-IsOwned_example =
    leave_group-IsOwned 90 10 5 1 1 (some 2) no_name false office office-IsOwned refl

transfers : (transfer_owner 90 10 no_name 5 1 2 office).0 ≡ ok tt
unfolding groups
transfers = refl

-- An owner who names himself leaves, and the group still names him as its owner.
abbrev left_to_himself : Store
left_to_himself = (leave_group 90 10 no_name 5 1 (some 1) false office).1

names_who_left :
    (c : Conversation) × (m : ConversationMember) × (lookup 5 left_to_himself.conversations
      ≡ some c)
    × (c.owner_id ≡ some 1)
    × (lookup 1 (left_to_himself.members 5) ≡ some m)
    × (m.left_at ≡ some 10)
unfolding groups
names_who_left = (_, _, refl, refl, refl, refl)

-- An owner who leaves the choice to the code is himself chosen, if he is the first member.
chooses_who_leaves :
    (leave_group 90 10 no_name 5 1 none true office).1.members 5 ≡ left_to_himself.members 5
unfolding groups
chooses_who_leaves = refl
