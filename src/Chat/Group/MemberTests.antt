-- ===== src/Chat/Group/MemberTests.antt =====
-- Group 5 of Tests, with its owner 1 and its member 2, and a group that lets in after approval.
use chat_be.Base.{
  ℕ, ◌+◌, ◌≤◌, ◌≡◌, refl, ◌⊎◌, inl, inr, true, false, not, ◌&&◌, ◌||◌, Bool, Option, none, some,
  List, [], ◌∷◌, map, arith, ◌==◌, if◌then◌else◌, Bool-cases, lookup, values,
}
use chat_be.Chat.Group.Reach.{
  adds, removes, joins, sets_admin, transfers, leaves, blocks, approves, Context, GroupCommand,
  run_command, run_commands, run_commands-IsKept,
}
use chat_be.Chat.Model.{
  throw, ok, StoredSettings, Conversation, ConversationMember, Store, ChatError,
}
use chat_be.Chat.Access.{
  UserStatus, Directory, assert_active_user, assert_not_blocked_between, add_error,
  validate_add_group_members, create_error, validate_create_group_members,
}
use chat_be.Chat.Settings.{
  normalize_group_settings, is_active, is_active_member, is_admin_role, is_owner_member,
  is_group_manager,
}
use chat_be.Chat.Group.Approving.{AsksApproval, approve_member-lets_in}
use chat_be.Chat.Group.Unbarring.{block_group_member-unblock}
use chat_be.Chat.Group.Ownership.{
  post_system_message, transfer_guard, hand_over, transfer_owner, set_admin_guard, change_admin,
  set_admin,
}
use chat_be.Chat.Group.Expelled.{without_activity, departed}
use chat_be.Chat.Group.Effects.{may_remove, remove_member-effect, remove_member-bars}
use chat_be.Chat.Group.Dissolved.{has_rows_of, IsSameBeside, dissolve_group-effect}
use chat_be.Chat.Group.Counted.{count_active, is_settled, IsKept}
use chat_be.Chat.Group.Roster.{
  remove_guard, expel, is_user_blocked, insert_block, block_removed, remove_member,
  is_active_manager, approve_guard, approve, approve_member, reject_guard, reject, reject_member,
}
use chat_be.Chat.Group.Joining.{admit, join_as, enter_group, join_group_by_invite}
use chat_be.Chat.Group.Size.{add_members_to_group-size}
use chat_be.Chat.Group.Dissolving.{may_dissolve, delete_group, dissolve_group}
use chat_be.Chat.Group.Barring.{
  block_member_guard, expel_if, block_group_member, unblock_guard, delete_block,
  unblock_group_member,
}
use chat_be.Chat.Group.Adding.{write_added, add_members_to_group}
use chat_be.Chat.Group.Leaving.{next_owner, depart, depart_as_owner, leave_as_owner, leave_group}
use chat_be.Chat.Group.Tests.{team, office_rows, office, no_name, office_rows-RowFits}
use chat_be.Chat.Group.Founded.{create_group-IsKept}
use chat_be.Chat.Group.Founding.{create_group}

-- Unfolds what a run needs.
handlers : Unit {0}
unfolding run_command run_commands transfer_owner transfer_guard hand_over set_admin set_admin_guard
    change_admin leave_group next_owner leave_as_owner depart depart_as_owner post_system_message
    is_owner_member is_group_manager remove_member remove_guard expel insert_block block_removed
    approve_member approve_guard approve reject_member reject_guard reject block_group_member
    block_member_guard expel_if unblock_group_member unblock_guard delete_block enter_group join_as
    admit join_group_by_invite add_members_to_group write_added validate_add_group_members add_error
    assert_active_user assert_not_blocked_between dissolve_group delete_group
    normalize_group_settings
handlers = tt

office_rows-is_settled :
    (w : ℕ) (m : ConversationMember) → lookup w office_rows ≡ some m → is_settled m ≡ true
office_rows-is_settled w m e = elim (Bool-cases (w == 1)) [
  | inl one ↦ ground arith
  | inr other ↦ elim (Bool-cases (w == 2)) [
    | inl two ↦ ground arith
    | inr another ↦ absurd (ground arith)
  ]
]

office-IsKept : IsKept 5 1 office
office-IsKept = record {
  owned = record {
    conversation = team;
    found = refl;
    id = refl;
    owner_id = refl;
    owned = record { present = (_, refl, refl, refl); rows = office_rows-RowFits };
  };
  counted = refl;
  settled = office_rows-is_settled;
}

abbrev everybody_active : Directory
everybody_active = record { user = λ u. some UserStatus.active; blocks = λ a b. false }

abbrev at_ten : Context
at_ten = record {
  fresh = 90;
  next_fresh = 91;
  row_id = λ u. 50 + u;
  now = 10;
  name = no_name;
  dir = everybody_active;
}

-- 1 adds 3 and 4 and removes 3 with a block, who tries to come back; 1 makes 2 an admin and the
-- owner, and leaves.
abbrev calls : List (Context × GroupCommand)
calls =
    (at_ten, adds 1 (3 ∷ 4 ∷ []))
    ∷ (at_ten, removes 1 3 true)
    ∷ (at_ten, joins 3)
    ∷ (at_ten, sets_admin 1 2 true)
    ∷ (at_ten, transfers 1 2)
    ∷ (at_ten, leaves 1 none)
    ∷ []

run_commands-IsKept_example : (w : ℕ) × IsKept 5 w (run_commands 5 calls office)
run_commands-IsKept_example = run_commands-IsKept 5 1 calls office office-IsKept refl

two_left : count_active ((run_commands 5 calls office).members 5) ≡ 2
unfolding handlers
two_left = refl

remove_member-effect_example :
    ((e : ChatError) × (remove_member 90 10 no_name 5 1 2 true office ≡ (throw e, office)))
    ⊎ (((remove_member 90 10 no_name 5 1 2 true office).0 ≡ ok tt)
        × (may_remove 1 2 team (office.members 5) ≡ true)
        × ((w : ℕ)
            → is_active_member
                (lookup w ((remove_member 90 10 no_name 5 1 2 true office).1.members 5))
              ≡ (not (w == 2) && is_active_member (lookup w (office.members 5))))
        × ((w : ℕ)
            → without_activity
                (lookup w ((remove_member 90 10 no_name 5 1 2 true office).1.members 5))
              ≡ without_activity (
                  if w == 2
                  then departed 10 (lookup w (office.members 5))
                  else lookup w (office.members 5)))
        × ((h : ℕ)
            → h == 5 ≡ false
            → (remove_member 90 10 no_name 5 1 2 true office).1.members h ≡ office.members h)
        × ((w : ℕ)
            → is_user_blocked 5 w (remove_member 90 10 no_name 5 1 2 true office).1
              ≡ ((true && w == 2) || is_user_blocked 5 w office)))
remove_member-effect_example = remove_member-effect 90 10 5 1 2 no_name true team office refl

removes_two : (remove_member 90 10 no_name 5 1 2 true office).0 ≡ ok tt
unfolding handlers
removes_two = refl

remove_member-bars_example :
    (e : ChatError) × (enter_group 91 52 11 no_name 5 2
        (remove_member 90 10 no_name 5 1 2 true office).1
      ≡ (throw e, (remove_member 90 10 no_name 5 1 2 true office).1))
remove_member-bars_example = remove_member-bars 90 10 5 1 2 no_name office 91 52 11 removes_two

blocks_two : (block_group_member 90 10 no_name 5 1 2 office).0 ≡ ok tt
unfolding handlers
blocks_two = refl

block_group_member-unblock_example :
    ((unblock_group_member 5 1 2 (block_group_member 90 10 no_name 5 1 2 office).1).0 ≡ ok tt)
    × ((w : ℕ)
        → lookup w (
            (unblock_group_member 5 1 2
                (block_group_member 90 10 no_name 5 1 2 office).1).1.group_blocks
              5)
          ≡ lookup w (office.group_blocks 5))
block_group_member-unblock_example =
    block_group_member-unblock 90 10 5 1 2 no_name office (λ e. absurd (omega arith)) blocks_two

-- An admin may block himself: he is put out, and is no member any more who could end the block.
abbrev blocked_himself : Store
blocked_himself = run_commands 5 ((at_ten, sets_admin 1 2 true) ∷ (at_ten, blocks 2 2) ∷ []) office

cannot_unblock_himself :
    (is_user_blocked 5 2 blocked_himself ≡ true)
    × ((unblock_group_member 5 2 2 blocked_himself).0 ≡ throw ChatError.not_a_member)
unfolding handlers
cannot_unblock_himself = (refl, refl)

adds_two :
    (add_members_to_group 90 (λ u. 50 + u) 10 no_name everybody_active 5 1 (3 ∷ 4 ∷ []) office).0
    ≡ ok (3 ∷ 4 ∷ [])
unfolding handlers
adds_two = refl

add_members_to_group-size_example :
    count_active (
      (add_members_to_group 90
          (λ u. 50 + u)
          10
          no_name
          everybody_active
          5
          1
          (3 ∷ 4 ∷ [])
          office).1.members
        5)
    ≤ 50
add_members_to_group-size_example =
    add_members_to_group-size 90 (λ u. 50 + u) 10 5 1 1 no_name everybody_active (3 ∷ 4 ∷ [])
      (3 ∷ 4 ∷ []) office office-IsKept adds_two

dissolve_group-effect_example :
    ((e : ChatError) × (dissolve_group 5 1 office ≡ (throw e, office)))
    ⊎ ((is_active_member (lookup 1 (office.members 5)) ≡ true)
        × (may_dissolve (lookup 1 (office.members 5)) 1 team ≡ true)
        × ((h : ℕ)
            → lookup h (dissolve_group 5 1 office).1.conversations
              ≡ (if h == 5 then none else lookup h office.conversations))
        × ((h : ℕ)
            → (dissolve_group 5 1 office).1.members h ≡ (if h == 5 then [] else office.members h))
        × ((h : ℕ)
            → has_rows_of h (dissolve_group 5 1 office).1 ≡ (not (h == 5) && has_rows_of h office))
        × IsSameBeside office (dissolve_group 5 1 office).1)
dissolve_group-effect_example = dissolve_group-effect 5 1 team office refl

dissolves : (dissolve_group 5 1 office).0 ≡ ok (1 ∷ 2 ∷ [])
unfolding handlers
dissolves = refl

abbrev after_approval : StoredSettings
after_approval = record {
  allow_send_link = none;
  require_approval = some true;
  allow_member_invite = none;
  who_can_send_messages = none;
  who_can_add_members = none;
  who_can_update_group_info = none;
  who_can_pin_messages = none;
  new_member_can_view_history = none;
  utility_permissions = none;
}

abbrev closed_team : Conversation
closed_team = record team { settings = some after_approval }

abbrev club : Store
club = record office { conversations = (5, closed_team) ∷ [] }

closed_team-AsksApproval : AsksApproval closed_team
unfolding handlers
closed_team-AsksApproval = record { group = refl; invites = refl; approval = refl }

owner_manages : is_active_manager (lookup 1 (club.members 5)) closed_team ≡ true
unfolding handlers
owner_manages = refl

approve_member-lets_in_example :
    (is_active_member (lookup 3 ((enter_group 90 53 10 no_name 5 3 club).1.members 5)) ≡ false)
    × ((approve_member 91 11 no_name 5 3 1 (enter_group 90 53 10 no_name 5 3 club).1).0 ≡ ok tt)
    × (is_active_member (
          lookup 3 (
            (approve_member 91 11 no_name 5 3 1 (enter_group 90 53 10 no_name 5 3 club).1).1.members
              5))
        ≡ true)
approve_member-lets_in_example =
    approve_member-lets_in 90 53 10 5 3 1 11 91 no_name closed_team club refl
      closed_team-AsksApproval refl refl owner_manages

-- A new member of a group that hides its history from new members has no time from which he sees it,
-- for the insert does not store the one that the handler has set.
abbrev discreet : Store
discreet = record office {
  conversations =
      (
        5,
        record team {
          settings = some (record after_approval {
            require_approval = none;
            new_member_can_view_history = some false;
          });
        },
      )
      ∷ [];
}

sees_history :
    map {B = Bool × Option ℕ}
      (λ m. (is_active m, m.history_visible_from))
      (values ((enter_group 90 53 10 no_name 5 3 discreet).1.members 5))
    ≡ ((true, none) ∷ (true, none) ∷ (true, none) ∷ [])
unfolding handlers
sees_history = refl

-- Who asks to join and is then blocked is let in by an approval, for it does not look at the blocks.
abbrev blocked_and_approved : Store
blocked_and_approved =
    run_commands 5 ((at_ten, joins 3) ∷ (at_ten, blocks 1 3) ∷ (at_ten, approves 3 1) ∷ []) club

lets_in_blocked :
    (is_user_blocked 5 3 blocked_and_approved ≡ true)
    × (is_active_member (lookup 3 (blocked_and_approved.members 5)) ≡ true)
unfolding handlers
lets_in_blocked = (refl, refl)

-- An admin who is removed, asks to join again and is let in is an admin again, whom the conversation
-- does not name.
admin_again :
    map
      (λ m. is_admin_role m.role && is_active m)
      (values (
        (run_commands 5
            ((at_ten, sets_admin 1 2 true)
              ∷ (at_ten, removes 1 2 false)
              ∷ (at_ten, joins 2)
              ∷ (at_ten, approves 2 1)
              ∷ [])
            club).members
          5))
    ≡ (false ∷ true ∷ [])
unfolding handlers
admin_again = refl

-- The limit of 50 members holds for those who are added, not for those who join.
abbrev full : Store
full = record office { conversations = (5, record team { members_count = 50 }) ∷ [] }

joins_full :
    map (λ c. c.members_count) (values (enter_group 90 53 10 no_name 5 3 full).1.conversations)
    ≡ (51 ∷ [])
unfolding handlers
joins_full = refl

create_group-IsKept_example :
    ((e : ChatError) × (create_group 90
          (λ u. 50 + u)
          10
          no_name
          everybody_active
          6
          1
          none
          none
          (2 ∷ 3 ∷ [])
          office
        ≡ (throw e, office)))
    ⊎ (((create_group 90
            (λ u. 50 + u)
            10
            no_name
            everybody_active
            6
            1
            none
            none
            (2 ∷ 3 ∷ [])
            office).0
          ≡ ok tt)
        × IsKept 6 1
            (create_group 90
              (λ u. 50 + u)
              10
              no_name
              everybody_active
              6
              1
              none
              none
              (2 ∷ 3 ∷ [])
              office).1)
create_group-IsKept_example =
    create_group-IsKept 90 (λ u. 50 + u) 10 no_name everybody_active 6 1 none none (2 ∷ 3 ∷ [])
      office

creates :
    (create_group 90 (λ u. 50 + u) 10 no_name everybody_active 6 1 none none (2 ∷ 3 ∷ []) office).0
    ≡ ok tt
unfolding create_group validate_create_group_members create_error assert_active_user
    assert_not_blocked_between
creates = refl
