-- ===== src/Privacy/Blocks.antt =====
-- What a block between two users hides.
use chat_be.Base.{
  ℕ, ◌≡◌, refl, Bool, true, false, Option, none, some, arith, inl, inr, Option-cases,
}
use chat_be.Privacy.Model.{UserInfoVisibility, User, Repositories, VisiblePresence}
use chat_be.Privacy.Profile.{
  PublicProfile, PublicProfileDetail, sanitize_public_profile, build_public_profile_detail,
}
use chat_be.Privacy.Policy.{
  normalize_privacy, has_any_block, can_view_field, get_relationship, can_view_presence,
  apply_presence_visibility, can_view_journal, can_send_message,
}

pub has_any_block_comm :
    (repo : Repositories) (a b : ℕ) → has_any_block repo a b ≡ has_any_block repo b a
unfolding has_any_block
has_any_block_comm repo a b = ground arith

-- The fields of a profile that its settings govern are left out.
pub record IsHidden (p : PublicProfile) (d : PublicProfileDetail) (presence : VisiblePresence)
    : Type 0 where
  pub avatar : (p.avatar_url ≡ none) × (d.avatar_url ≡ none)
  pub cover : (p.cover_url ≡ none) × (d.cover_url ≡ none)
  pub birthday : (p.birthday ≡ none) × (d.birthday ≡ none)
  pub phone : (p.phone ≡ none) × (d.phone ≡ none)
  pub silenced : d.can_send_message ≡ false
  pub offline : (presence.is_online ≡ false) × (presence.last_seen ≡ none)

blocked-can_view_field :
    (repo : Repositories) (v : ℕ) (target : User) (f : Option UserInfoVisibility)
    → has_any_block repo v target.id ≡ true
    → can_view_field repo (some v) target f ≡ false
unfolding can_view_field has_any_block
blocked-can_view_field repo v target f h = ground arith

blocked-can_send_message :
    (repo : Repositories) (v t : ℕ)
    → has_any_block repo v t ≡ true
    → can_send_message repo v t (get_relationship repo v t) ≡ false
unfolding can_send_message get_relationship has_any_block
blocked-can_send_message repo v t h = ground arith

blocked-can_view_presence :
    (repo : Repositories) (v t : ℕ)
    → has_any_block repo v t ≡ true
    → can_view_presence repo v t ≡ false
unfolding can_view_presence has_any_block
blocked-can_view_presence repo v t h = elim (Option-cases (repo.get_user v)) [
  | inl absent ↦ ground arith
  | inr (x, found) ↦ elim (Option-cases (repo.get_user t)) [
    | inl absent ↦ ground arith
    | inr (y, at_t) ↦ ground arith
  ]
]

blocked-can_view_journal :
    (repo : Repositories) (v t : ℕ)
    → has_any_block repo v t ≡ true
    → can_view_journal repo v t ≡ false
unfolding can_view_journal has_any_block
blocked-can_view_journal repo v t h = ground arith

-- Between two users one of whom blocks the other, each way: no profile that the policy builds has
-- the avatar, the cover, the birthday or the phone, no message may be sent, no presence and no
-- journal is seen.
pub block-IsHidden :
    (repo : Repositories) (v : ℕ) (target : User) (online : Bool) (seen : Option ℕ)
    → has_any_block repo v target.id ≡ true
    → IsHidden
        (sanitize_public_profile repo (some v) target)
        (build_public_profile_detail repo v target)
        (apply_presence_visibility repo v target.id online seen)
      × (can_view_journal repo v target.id ≡ false)
unfolding sanitize_public_profile build_public_profile_detail apply_presence_visibility
block-IsHidden repo v target online seen h =
    let hides = λ (f : UserInfoVisibility). blocked-can_view_field repo v target (some f) h in
    let privacy = normalize_privacy target in
    let away = blocked-can_view_presence repo v target.id h in
    (
      record {
        avatar = rw (hides privacy.avatar_visibility) (refl, refl);
        cover = rw (hides privacy.avatar_visibility) (refl, refl);
        birthday = rw (hides privacy.birthday_visibility) (refl, refl);
        phone = rw (hides privacy.phone_visibility) (refl, refl);
        silenced = blocked-can_send_message repo v target.id h;
        offline = rw away (refl, refl);
      },
      blocked-can_view_journal repo v target.id h,
    )
