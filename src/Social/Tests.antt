-- ===== src/Social/Tests.antt =====
-- User 1 asks user 2, who accepts; then 2 blocks 1.
use chat_be.Base.{ℕ, ◌+◌, ◌≡◌, refl, Bool, true, ◌||◌, none, some, arith, ◌==◌, filter, values}
use chat_be.Social.Model.{FriendRequestStatus, Tables, ok}
use chat_be.Privacy.Model.{User, UserInfoVisibility}
use chat_be.Privacy.Policy.{can_view_field}
use chat_be.Social.Invariant.{IsValid}
use chat_be.Social.Outcomes.{
  repositories, blocked_email-none, can_view_field-friends, is_pending_request, find_request-finds,
}
use chat_be.Social.Reach.{here, next, send, accept, block, Reach, tables-IsValid, empty}
use chat_be.Privacy.Profile.{build_public_profile_detail}
use chat_be.Social.Blocks.{block_guard, add_block, block_user}
use chat_be.Social.Requests.{
  is_blocked_between, are_friends, send_guard, send_friend_request, new_conversation,
  create_conversation_for_friendship, befriend, accept_guard, accept_friend_request,
}
use chat_be.Social.Tables.{
  head, query_by_sender_id, find_request, list_pending, soft_delete_friendship, restore_friendship,
  delete_requests,
}
use chat_be.Social.Accepting.{IsBefriended, accept-IsBefriended}

-- Unfolds what a run needs.
runs : Unit {0}
unfolding send_friend_request send_guard accept_friend_request accept_guard befriend block_user
    block_guard add_block is_blocked_between are_friends create_conversation_for_friendship
    new_conversation soft_delete_friendship restore_friendship delete_requests list_pending
    find_request query_by_sender_id
runs = tt

abbrev everybody : ℕ → Bool
everybody u = true

abbrev ids : ℕ → ℕ → ℕ
ids n k = n + k

abbrev asked : Tables
asked = (send_friend_request everybody (ids 10) 1 1 2 empty).1

abbrev friends : Tables
friends = (accept_friend_request (ids 20) 2 10 2 asked).1

abbrev parted : Tables
parted = (block_user everybody (ids 30) 3 2 1 friends).1

parted-Reach : Reach empty parted
parted-Reach =
    next (next (next here (send everybody (ids 10) 1 1 2)) (accept (ids 20) 2 10 2))
      (block everybody (ids 30) 3 2 1)

friends_first : are_friends 1 2 friends ≡ true
unfolding runs
friends_first = refl

tables-IsValid_example : IsValid parted
tables-IsValid_example = tables-IsValid parted-Reach

accept-IsBefriended_example :
    ((accept_friend_request (ids 20) 2 10 2 asked).0 ≡ ok true)
    × IsBefriended 2 asked friends (record {
      id = 10;
      from_user_id = 1;
      to_user_id = 2;
      status = FriendRequestStatus.pending;
      created_at = 1;
      responded_at = none;
    })
unfolding runs
accept-IsBefriended_example = accept-IsBefriended (ids 20) 2 10 2 _ asked refl refl refl refl refl

abbrev member : User
member = record {
  id = 2;
  display_name = some 20;
  username = some 21;
  email = some 22;
  phone = none;
  avatar_url = none;
  cover_url = none;
  bio = none;
  birthday = none;
  gender = none;
  verified = 0;
  privacy = none;
}

blocked_email-none_example :
    (build_public_profile_detail (repositories (λ u. some member) parted) 1 member).email ≡ none
unfolding runs
blocked_email-none_example =
    blocked_email-none (λ u. some member) 1 member parted-Reach (λ e. absurd (omega arith)) refl

can_view_field-friends_example :
    can_view_field
      (repositories (λ u. some member) parted)
      (some 1)
      member
      (some UserInfoVisibility.friends)
    ≡ (1 == 2 || are_friends 1 2 parted)
can_view_field-friends_example = can_view_field-friends (λ u. some member) 1 member parted-Reach

find_request-finds_example :
    find_request 1 2 FriendRequestStatus.pending asked.requests
    ≡ head (filter (is_pending_request 1 2) (values asked.requests))
unfolding runs
find_request-finds_example = find_request-finds 1 2 asked.requests (omega arith)

-- The query reads two requests of the sender before it filters them: behind two others, a pending
-- request to user 4 is not found, and a second one is made.
abbrev busy : Tables
busy =
    (send_friend_request everybody (ids 12) 1 1 4
      (send_friend_request everybody (ids 11) 1 1 3 asked).1).1

second_request : (send_friend_request everybody (ids 13) 2 1 4 busy).0 ≡ ok 13
unfolding runs
second_request = refl
