-- ===== src/Privacy/Model.antt =====
-- src/modules/user/model, src/modules/friendships/model and the types of the privacy policy. A text
-- or a date that the policy only hands on is a number.
use chat_be.Base.{ℕ, Bool, true, false, Option}

pub data UserInfoVisibility : Type 0 where
  everyone friends only_me : UserInfoVisibility

pub data FriendshipStatus : Type 0 where
  active deleted : FriendshipStatus

-- A row that a soft delete has made lacks the id and the date.
pub record Friendship : Type 0 where
  pub id : Option ℕ
  pub user_a : ℕ
  pub user_b : ℕ
  pub status : FriendshipStatus
  pub created_at : Option ℕ

pub record UserPrivacy : Type 0 where
  pub searchable_by_email : Bool
  pub searchable_by_phone : Bool
  pub searchable_by_username : Bool
  pub birthday_visibility : UserInfoVisibility
  pub phone_visibility : UserInfoVisibility
  pub avatar_visibility : UserInfoVisibility
  pub show_online : Bool
  pub show_last_seen : Bool
  pub block_messages_from_strangers : Bool

-- The settings as they are stored: an older user lacks some of them.
pub record StoredPrivacy : Type 0 where
  pub searchable_by_email : Option Bool
  pub searchable_by_phone : Option Bool
  pub searchable_by_username : Option Bool
  pub birthday_visibility : Option UserInfoVisibility
  pub phone_visibility : Option UserInfoVisibility
  pub avatar_visibility : Option UserInfoVisibility
  pub show_online : Option Bool
  pub show_last_seen : Option Bool
  pub block_messages_from_strangers : Option Bool

-- The fields of a user that the policy reads.
pub record User : Type 0 where
  pub id : ℕ
  pub display_name : Option ℕ
  pub username : Option ℕ
  pub email : Option ℕ
  pub phone : Option ℕ
  pub avatar_url : Option ℕ
  pub cover_url : Option ℕ
  pub bio : Option ℕ
  pub birthday : Option ℕ
  pub gender : Option ℕ
  pub verified : ℕ
  pub privacy : Option StoredPrivacy

-- The three repositories, as they answer during a call: `userRepo.get`, `friendshipRepo.findByCond`
-- on a pair, and whether `blockRepo.findByCond` finds a block of a blocker on a user.
pub record Repositories : Type 0 where
  pub get_user : ℕ → Option User
  pub find_friendship : ℕ → ℕ → Option Friendship
  pub find_block : ℕ → ℕ → Bool

pub data RelationshipStatus : Type 0 where
  self friend blocked_by_me blocking_me nothing : RelationshipStatus

pub record PublicProfileRelationship : Type 0 where
  pub status : RelationshipStatus
  pub is_self : Bool
  pub is_friend : Bool
  pub is_blocked_by_me : Bool
  pub is_blocking_me : Bool

pub data FieldVisibility : Type 0 where
  visible hidden : FieldVisibility

pub record PublicProfileFieldVisibility : Type 0 where
  pub avatar_url : FieldVisibility
  pub cover_url : FieldVisibility
  pub birthday : FieldVisibility
  pub phone : FieldVisibility
  pub email : FieldVisibility

pub record VisiblePresence : Type 0 where
  pub user_id : ℕ
  pub visibility : FieldVisibility
  pub is_online : Bool
  pub last_seen : Option ℕ

abbrev pub default_user_privacy : UserPrivacy
default_user_privacy = record {
  searchable_by_email = true;
  searchable_by_phone = true;
  searchable_by_username = true;
  birthday_visibility = UserInfoVisibility.friends;
  phone_visibility = UserInfoVisibility.friends;
  avatar_visibility = UserInfoVisibility.everyone;
  show_online = true;
  show_last_seen = true;
  block_messages_from_strangers = false;
}
