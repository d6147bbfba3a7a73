-- ===== src/Privacy/Tests.antt =====
-- User 2 shows his avatar to everyone and his phone to friends; user 1 is his friend, and user 3 is
-- blocked by him.
use chat_be.Base.{◌≡◌, refl, true, false, ◌&&◌, none, some, ◌==◌, if◌then◌else◌}
use chat_be.Privacy.Model.{FriendshipStatus, Friendship, User, Repositories}
use chat_be.Privacy.Policy.{has_any_block, apply_presence_visibility, can_view_journal}
use chat_be.Privacy.Profile.{sanitize_public_profile, build_public_profile_detail}
use chat_be.Privacy.Blocks.{IsHidden, block-IsHidden}

abbrev lan : User
lan = record {
  id = 2;
  display_name = some 20;
  username = some 21;
  email = some 22;
  phone = some 23;
  avatar_url = some 24;
  cover_url = none;
  bio = none;
  birthday = some 25;
  gender = none;
  verified = 0;
  privacy = none;
}

abbrev friendship : Friendship
friendship = record {
  id = some 9;
  user_a = 1;
  user_b = 2;
  status = FriendshipStatus.active;
  created_at = some 1;
}

abbrev repo : Repositories
repo = record {
  get_user = λ u. if u == 0 then none else some (record lan { id = u });
  find_friendship = λ a b. if a == 1 && b == 2 then some friendship else none;
  find_block = λ a b. a == 2 && b == 3;
}

block-IsHidden_example :
    IsHidden
      (sanitize_public_profile repo (some 3) lan)
      (build_public_profile_detail repo 3 lan)
      (apply_presence_visibility repo 3 2 true none)
    × (can_view_journal repo 3 2 ≡ false)
unfolding has_any_block
block-IsHidden_example = block-IsHidden repo 3 lan true none refl
