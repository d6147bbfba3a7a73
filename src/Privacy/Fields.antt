-- ===== src/Privacy/Fields.antt =====
-- Who sees the email of a user.
use chat_be.Base.{ℕ, ◌≡◌, inl, inr, arith, ◌==◌, Bool-cases, none, if◌then◌else◌}
use chat_be.Privacy.Model.{User, Repositories}
use chat_be.Privacy.Policy.{are_active_friends, get_relationship}
use chat_be.Privacy.Profile.{build_public_profile_detail}

-- The detail shows the email, which no setting governs, to the user and to his active friends, and
-- to those also where one of the two blocks the other.
pub email-shown :
    (repo : Repositories) (v : ℕ) (target : User)
    → (build_public_profile_detail repo v target).email
      ≡ (if are_active_friends repo v target.id then target.email else none)
unfolding build_public_profile_detail get_relationship are_active_friends
email-shown repo v target = elim (Bool-cases (v == target.id)) [
  | inl same ↦ ground arith
  | inr other ↦ ground arith
]
