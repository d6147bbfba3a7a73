-- ===== src/Chat/Tests.antt =====
-- A poll of conversation 5 with two options, in which members 1 and 2 may choose one each.
use chat_be.Base.{
  ℕ, ◌+◌, ◌≡◌, refl, ◌⊎◌, true, false, none, some, [], ◌∷◌, lookup, unique, ◌≤◌, ◌&&◌, ◌==◌,
  if◌then◌else◌, inl, inr, arith, eq_of_==, Bool-cases, includes, ◌||◌,
}
use chat_be.Chat.Model.{
  ConversationMember, ConversationMemberRole, ConversationMemberStatus, Poll, PollOption,
  PollStatus, Store, ChatError, ok, throw,
}
use chat_be.Chat.Access.{
  Directory, UserStatus, AccessError, refused, assert_active_user, assert_not_blocked_between,
  create_error, add_error, validate_create_group_members, validate_add_group_members,
}
use chat_be.Chat.Poll.Hiding.{one_more, none_left, with_votes, sanitize_poll-hides}
use chat_be.Chat.Poll.Vote.{
  VoteResult, vote_guard, vote, vote_poll, create_conversation_activity_message,
}
use chat_be.Chat.Settings.{is_active_member, is_owner_member, is_group_manager}
use chat_be.Chat.Poll.Voting.{IsCast, vote_poll-IsCast, vote_poll-cases}
use chat_be.Chat.Poll.View.{is_poll_closed, can_see_results, sanitize_poll_for_viewer}
use chat_be.Chat.Admission.{IsAdmitted, validate_create-IsAdmitted, validate_add-IsAdmitted}
use chat_be.Chat.Membership.{
  assert_active_member, get_active_member_user_ids, has_passed, IsKeyed,
  get_active_members-IsActive,
}
use chat_be.Chat.Poll.Ballot.{get_selected_option_ids, have_same_selection}
use chat_be.Chat.Poll.Managing.{manages, manage_poll_guard, lock_poll, close_poll}
use chat_be.Chat.Poll.Closing.{close_poll-ends}
use chat_be.Chat.Poll.Making.{Texts, add_poll_option}

abbrev plain_member : ℕ → ConversationMember
plain_member u = record {
  id = 50 + u;
  user_id = u;
  role = ConversationMemberRole.member;
  status = ConversationMemberStatus.active;
  joined_at = 1;
  left_at = none;
  unread_count = 0;
  archived = false;
  hidden = false;
  history_visible_from = none;
  last_activity_at = none;
}

abbrev tea : PollOption
tea = record { id = 71; text = 1; vote_count = 1; voted_user_ids = 2 ∷ []; added_by = none }

abbrev coffee : PollOption
coffee = record { id = 72; text = 2; vote_count = 0; voted_user_ids = []; added_by = none }

abbrev drinks : Poll
drinks = record {
  id = 7;
  conversation_id = 5;
  question = 3;
  options = tea ∷ coffee ∷ [];
  created_by = 3;
  is_multiple_choice = false;
  allow_add_option = false;
  allow_change_vote = true;
  show_results_before_close = false;
  hide_voters = true;
  status = PollStatus.active;
  expires_at = none;
  total_votes = 1;
  last_vote_activity_at = none;
  last_vote_activity_message_id = none;
  vote_activity_count = 0;
  message_id = none;
  closed_at = none;
  closed_by = none;
  pinned = false;
  pinned_at = none;
  pinned_by = none;
}

abbrev room : Store
room = record {
  polls = (7, drinks) ∷ [];
  conversations = [];
  members = λ c. (1, plain_member 1) ∷ (2, plain_member 2) ∷ [];
  messages = [];
  group_blocks = λ c. [];
  invite_links = [];
  reminders = [];
  notes = [];
}

-- Unfolds what a run needs.
votes : Unit {0}
unfolding vote_poll vote vote_guard get_selected_option_ids have_same_selection can_see_results
    is_poll_closed is_group_manager is_owner_member
votes = tt

vote_poll-IsCast_example : IsCast 7 1 (72 ∷ []) drinks (vote_poll 90 10 7 1 (72 ∷ []) room)
unfolding votes
vote_poll-IsCast_example = vote_poll-IsCast 90 10 7 1 (72 ∷ []) drinks room refl refl refl refl

vote_poll-cases_example :
    ((e : ChatError) × (vote_poll 90 10 7 1 (72 ∷ []) room ≡ (throw e, room)))
    ⊎ (((r : VoteResult) × (vote_poll 90 10 7 1 (72 ∷ []) room ≡ (ok r, room))
          × (r.vote_changed ≡ false))
        ⊎ ((poll : Poll) × (lookup 7 room.polls ≡ some poll)
            × (is_active_member (lookup 1 (room.members poll.conversation_id)) ≡ true)
            × (is_poll_closed 10 poll ≡ false)
            × IsCast 7 1 (unique (72 ∷ [])) poll (vote_poll 90 10 7 1 (72 ∷ []) room)))
vote_poll-cases_example = vote_poll-cases 90 10 7 1 (72 ∷ []) room

-- Somebody else has voted for coffee too.
abbrev liked_coffee : PollOption
liked_coffee = record coffee { vote_count = 1; voted_user_ids = 3 ∷ [] }

sanitize_poll-hides_example :
    sanitize_poll_for_viewer 10
      (with_votes (tea ∷ liked_coffee ∷ []) 2 (some 9) (some 8) 2 drinks)
      (plain_member 1)
      none
    ≡ record (sanitize_poll_for_viewer 10 drinks (plain_member 1) none) {
      last_vote_activity_at = some 9;
      last_vote_activity_message_id = some 8;
      vote_activity_count = 2;
    }
unfolding votes
sanitize_poll-hides_example =
    sanitize_poll-hides 10 2 2 (some 9) (some 8) drinks (tea ∷ liked_coffee ∷ []) (plain_member 1)
      none refl
      (one_more (record { id = refl; text = refl; added_by = refl; own = refl })
        (one_more (record { id = refl; text = refl; added_by = refl; own = refl }) none_left))

-- Everybody is active, but user 9, and user 4 blocks user 1.
abbrev people : Directory
people = record {
  user = λ u. if u == 9 then some UserStatus.disabled else some UserStatus.active;
  blocks = λ a b. a == 4 && b == 1;
}

admits : Unit {0}
unfolding validate_create_group_members create_error validate_add_group_members add_error
    assert_active_user assert_not_blocked_between
admits = tt

validate_create-IsAdmitted_example :
    IsAdmitted people 1 1 (2 ∷ 3 ∷ []) (2 ∷ 3 ∷ [])
    × (◌≤◌ 3 3)
    × (people.user 1 ≡ some UserStatus.active)
unfolding admits
validate_create-IsAdmitted_example =
    validate_create-IsAdmitted people 1 (2 ∷ 3 ∷ []) (2 ∷ 3 ∷ []) refl

validate_add-IsAdmitted_example : IsAdmitted people 1 40 (2 ∷ []) (2 ∷ []) × (◌≤◌ 1 1)
unfolding admits
validate_add-IsAdmitted_example = validate_add-IsAdmitted people 1 40 (2 ∷ []) (2 ∷ []) refl

refuses_a_block :
    validate_create_group_members people 1 (2 ∷ 4 ∷ []) ≡ refused AccessError.users_are_blocked
unfolding admits
refuses_a_block = refl

room-IsKeyed : IsKeyed (room.members 5)
room-IsKeyed = record {
  distinct = refl;
  named = λ w m e. elim (Bool-cases (w == 1)) [
    | inl one ↦ (let w1 = eq_of_== w 1 one in ground arith)
    | inr other ↦ elim (Bool-cases (w == 2)) [
      | inl two ↦ (let w2 = eq_of_== w 2 two in ground arith)
      | inr another ↦ absurd (ground arith)
    ]
  ];
}

get_active_members-IsActive_example :
    includes 2 (get_active_member_user_ids room 5 (some 1))
    ≡ (has_passed (assert_active_member room 5 2) && true)
get_active_members-IsActive_example = get_active_members-IsActive room 5 2 (some 1) room-IsKeyed

abbrev plain_texts : Texts
plain_texts = record { trim = λ t. t; same = λ a b. a == b }

-- The creator of the poll closes it.
abbrev creator_room : Store
creator_room = record room { members = λ c. (3, plain_member 3) ∷ [] }

close_poll-ends_example :
    ((e : ChatError) × (close_poll 90 10 7 3 creator_room ≡ (throw e, creator_room)))
    ⊎ ((is_active_member (lookup 3 (creator_room.members 5)) ≡ true)
        × ((manages (lookup 3 (creator_room.members 5)) (lookup 5 creator_room.conversations)
              || drinks.created_by == 3)
            ≡ true)
        × ((e : ChatError) × (vote_poll 91 20 7 1 (71 ∷ []) (close_poll 90 10 7 3 creator_room).1
              ≡ (throw e, (close_poll 90 10 7 3 creator_room).1)))
        × ((e : ChatError) × (add_poll_option plain_texts 73 91 20 7 1 6
                (close_poll 90 10 7 3 creator_room).1
              ≡ (throw e, (close_poll 90 10 7 3 creator_room).1))))
close_poll-ends_example =
    close_poll-ends 90 10 7 3 drinks creator_room 20 91 1 73 6 (71 ∷ []) plain_texts refl

closes : (close_poll 90 10 7 3 creator_room).0 ≡ ok tt
unfolding close_poll manage_poll_guard lock_poll create_conversation_activity_message
    is_group_manager is_owner_member
closes = refl
