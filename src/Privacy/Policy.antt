-- ===== src/Privacy/Policy.antt =====
-- The tests of RelationshipPrivacyPolicyV2, on what the repositories answer.
use chat_be.Base.{
  ℕ, min, max, Bool, true, false, not, ◌&&◌, ◌||◌, Option, none, some, ◌==◌, if◌then◌else◌,
}
use chat_be.Privacy.Model.{
  UserInfoVisibility, FriendshipStatus, Friendship, UserPrivacy, StoredPrivacy, User, Repositories,
  RelationshipStatus, PublicProfileRelationship, FieldVisibility, VisiblePresence,
  default_user_privacy,
}

-- A stored setting wins over the default.
abbrev pub setting : {A : Type 0} → Option A → A → A
setting none a = a
setting (some b) a = b

abbrev pub merge_privacy : StoredPrivacy → UserPrivacy
merge_privacy p = record {
  searchable_by_email = setting p.searchable_by_email default_user_privacy.searchable_by_email;
  searchable_by_phone = setting p.searchable_by_phone default_user_privacy.searchable_by_phone;
  searchable_by_username =
      setting p.searchable_by_username default_user_privacy.searchable_by_username;
  birthday_visibility = setting p.birthday_visibility default_user_privacy.birthday_visibility;
  phone_visibility = setting p.phone_visibility default_user_privacy.phone_visibility;
  avatar_visibility = setting p.avatar_visibility default_user_privacy.avatar_visibility;
  show_online = setting p.show_online default_user_privacy.show_online;
  show_last_seen = setting p.show_last_seen default_user_privacy.show_last_seen;
  block_messages_from_strangers =
      setting p.block_messages_from_strangers default_user_privacy.block_messages_from_strangers;
}

unfoldable pub normalize_privacy : User → UserPrivacy
normalize_privacy user = elim user.privacy [
  | none ↦ default_user_privacy
  | some p ↦ merge_privacy p
]

abbrev pub is_active_friendship : Option Friendship → Bool
is_active_friendship none = false
is_active_friendship (some f) = elim f.status [
  | FriendshipStatus.active ↦ true
  | FriendshipStatus.deleted ↦ false
]

unfoldable pub are_active_friends : Repositories → ℕ → ℕ → Bool
are_active_friends repo user_a user_b =
    if user_a == user_b
    then true
    else is_active_friendship (repo.find_friendship (min user_a user_b) (max user_a user_b))

unfoldable pub has_any_block : Repositories → ℕ → ℕ → Bool
has_any_block repo user_a user_b =
    if user_a == user_b
    then false
    else repo.find_block user_a user_b || repo.find_block user_b user_a

-- `canViewField` by a viewer who is logged in: the last test only where the field is for friends
abbrev pub is_for : UserInfoVisibility → Bool → Bool
is_for UserInfoVisibility.everyone is_friend = true
is_for UserInfoVisibility.only_me is_friend = false
is_for UserInfoVisibility.friends is_friend = is_friend

abbrev pub is_everyone : Option UserInfoVisibility → Bool
is_everyone (some UserInfoVisibility.everyone) = true
is_everyone _ = false

unfoldable pub can_view_field : Repositories → Option ℕ → User → Option UserInfoVisibility → Bool
can_view_field repo none target visibility = is_everyone visibility
can_view_field repo (some viewer_id) target visibility =
    if viewer_id == target.id
    then true
    else if has_any_block repo viewer_id target.id
    then false
    else is_for (setting visibility UserInfoVisibility.everyone)
        (are_active_friends repo viewer_id target.id)

unfoldable pub get_relationship : Repositories → ℕ → ℕ → PublicProfileRelationship
get_relationship repo viewer_id target_id =
    let is_self = viewer_id == target_id in
    let by_me = if is_self then false else repo.find_block viewer_id target_id in
    let of_me = if is_self then false else repo.find_block target_id viewer_id in
    let is_friend = if is_self then true else are_active_friends repo viewer_id target_id in
    record {
      status =
          if is_self
          then RelationshipStatus.self
          else if by_me
          then RelationshipStatus.blocked_by_me
          else if of_me
          then RelationshipStatus.blocking_me
          else if is_friend
          then RelationshipStatus.friend
          else RelationshipStatus.nothing;
      is_self = is_self;
      is_friend = is_friend;
      is_blocked_by_me = by_me;
      is_blocking_me = of_me;
    }

abbrev pub shows_presence : UserPrivacy → Bool
shows_presence p = p.show_online && p.show_last_seen

-- The tests of `canViewPresence` between two users, of whom one may block the other.
abbrev pub shows_between : Bool → Option User → Option User → Bool
shows_between blocked none target = false
shows_between blocked (some viewer) none = false
shows_between blocked (some viewer) (some target) =
    if blocked
    then false
    else shows_presence (normalize_privacy viewer) && shows_presence (normalize_privacy target)

unfoldable pub can_view_presence : Repositories → ℕ → ℕ → Bool
can_view_presence repo viewer_id target_id =
    if viewer_id == target_id
    then true
    else shows_between (has_any_block repo viewer_id target_id) (repo.get_user viewer_id)
        (repo.get_user target_id)

unfoldable pub apply_presence_visibility : Repositories → ℕ → ℕ → Bool → Option ℕ → VisiblePresence
apply_presence_visibility repo viewer_id target_id is_online last_seen =
    if can_view_presence repo viewer_id target_id
    then record {
      user_id = target_id;
      visibility = FieldVisibility.visible;
      is_online = is_online;
      last_seen = last_seen;
    }
    else record {
      user_id = target_id;
      visibility = FieldVisibility.hidden;
      is_online = false;
      last_seen = none;
    }

abbrev pub takes_strangers : Option User → Bool
takes_strangers none = false
takes_strangers (some receiver) = not (normalize_privacy receiver).block_messages_from_strangers

unfoldable pub can_receive_stranger_message : Repositories → ℕ → ℕ → Bool
can_receive_stranger_message repo sender_id receiver_id =
    if are_active_friends repo sender_id receiver_id
    then true
    else takes_strangers (repo.get_user receiver_id)

unfoldable pub can_view_journal : Repositories → ℕ → ℕ → Bool
can_view_journal repo viewer_id author_id =
    if viewer_id == author_id then true else not (has_any_block repo viewer_id author_id)

unfoldable pub can_send_message : Repositories → ℕ → ℕ → PublicProfileRelationship → Bool
can_send_message repo viewer_id target_id r =
    if r.is_self || r.is_blocked_by_me || r.is_blocking_me
    then false
    else if r.is_friend
    then true
    else can_receive_stranger_message repo viewer_id target_id
