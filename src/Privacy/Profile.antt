-- ===== src/Privacy/Profile.antt =====
-- The profiles that RelationshipPrivacyPolicyV2 hands out.
use chat_be.Base.{ℕ, Bool, true, false, ◌||◌, Option, none, some}
use chat_be.Privacy.Model.{
  User, Repositories, PublicProfileRelationship, FieldVisibility, PublicProfileFieldVisibility,
}
use chat_be.Privacy.Policy.{can_send_message, normalize_privacy, can_view_field, get_relationship}

pub record PublicProfile : Type 0 where
  pub id : ℕ
  pub display_name : Option ℕ
  pub username : Option ℕ
  pub avatar_url : Option ℕ
  pub cover_url : Option ℕ
  pub bio : Option ℕ
  pub birthday : Option ℕ
  pub gender : Option ℕ
  pub phone : Option ℕ
  pub verified : ℕ

pub record PublicProfileDetail : Type 0 where
  pub id : ℕ
  pub display_name : Option ℕ
  pub username : Option ℕ
  pub avatar_url : Option ℕ
  pub cover_url : Option ℕ
  pub bio : Option ℕ
  pub birthday : Option ℕ
  pub gender : Option ℕ
  pub phone : Option ℕ
  pub email : Option ℕ
  pub verified : ℕ
  pub relationship : PublicProfileRelationship
  pub field_visibility : PublicProfileFieldVisibility
  pub can_send_message : Bool

-- `can ? value : undefined`
abbrev pub shown : Bool → Option ℕ → Option ℕ
shown true value = value
shown false value = none

abbrev pub to_field_visibility : Bool → FieldVisibility
to_field_visibility true = FieldVisibility.visible
to_field_visibility false = FieldVisibility.hidden

unfoldable pub sanitize_public_profile : Repositories → Option ℕ → User → PublicProfile
sanitize_public_profile repo viewer_id target =
    let privacy = normalize_privacy target in
    let avatar = can_view_field repo viewer_id target (some privacy.avatar_visibility) in
    let phone = can_view_field repo viewer_id target (some privacy.phone_visibility) in
    let birthday = can_view_field repo viewer_id target (some privacy.birthday_visibility) in
    record {
      id = target.id;
      display_name = target.display_name;
      username = target.username;
      avatar_url = shown avatar target.avatar_url;
      cover_url = shown avatar target.cover_url;
      bio = target.bio;
      birthday = shown birthday target.birthday;
      gender = target.gender;
      phone = shown phone target.phone;
      verified = target.verified;
    }

unfoldable pub build_public_profile_detail : Repositories → ℕ → User → PublicProfileDetail
build_public_profile_detail repo viewer_id target =
    let privacy = normalize_privacy target in
    let relationship = get_relationship repo viewer_id target.id in
    let avatar = can_view_field repo (some viewer_id) target (some privacy.avatar_visibility) in
    let phone = can_view_field repo (some viewer_id) target (some privacy.phone_visibility) in
    let birthday = can_view_field repo (some viewer_id) target (some privacy.birthday_visibility) in
    let email = relationship.is_self || relationship.is_friend in
    record {
      id = target.id;
      display_name = target.display_name;
      username = target.username;
      avatar_url = shown avatar target.avatar_url;
      cover_url = shown avatar target.cover_url;
      bio = target.bio;
      birthday = shown birthday target.birthday;
      gender = target.gender;
      phone = shown phone target.phone;
      email = shown email target.email;
      verified = target.verified;
      relationship = relationship;
      field_visibility = record {
        avatar_url = to_field_visibility avatar;
        cover_url = to_field_visibility avatar;
        birthday = to_field_visibility birthday;
        phone = to_field_visibility phone;
        email = to_field_visibility email;
      };
      can_send_message = can_send_message repo viewer_id target.id relationship;
    }
