-- ===== src/Privacy/Presence.antt =====
-- Who sees whether a user is online.
use chat_be.Base.{
  ℕ, ◌≡◌, refl, ◌≢◌, ◌⊎◌, inl, inr, Bool, true, false, ◌&&◌, Option, none, some, arith, ◌==◌,
  eq_of_==, ne_of_==, Bool-cases, not,
}
use chat_be.Privacy.Model.{User, Repositories, FieldVisibility}
use chat_be.Privacy.Policy.{
  normalize_privacy, has_any_block, shows_presence, can_view_presence, apply_presence_visibility,
  shows_between,
}
use chat_be.Privacy.Blocks.{has_any_block_comm}

-- The user exists, and shows both whether he is online and when he last was.
abbrev pub shows : Option User → Bool
shows none = false
shows (some x) = shows_presence (normalize_privacy x)

shows_between-shows :
    (b : Bool) (x y : Option User) → shows_between b x y ≡ (not b && (shows x && shows y))
shows_between-shows b none y = ground arith
shows_between-shows b (some x) none = ground arith
shows_between-shows b (some x) (some y) = ground arith

-- Presence is mutual: each of two users sees the other's, or neither does.
pub can_view_presence_comm :
    (repo : Repositories) (a b : ℕ) → can_view_presence repo a b ≡ can_view_presence repo b a
unfolding can_view_presence
can_view_presence_comm repo a b =
    let ab = shows_between-shows (has_any_block repo a b) (repo.get_user a) (repo.get_user b) in
    let ba = shows_between-shows (has_any_block repo b a) (repo.get_user b) (repo.get_user a) in
    ground (arith, has_any_block_comm repo a b)

-- A viewer is told of the presence of a user exactly if it is his own, or nobody blocks the other
-- and both show theirs; if not, he is told that the user is offline and was never seen.
pub presence-cases :
    (repo : Repositories) (v t : ℕ) (online : Bool) (seen : Option ℕ)
    → (((v ≡ t)
          ⊎ ((has_any_block repo v t ≡ false)
              × (shows (repo.get_user v) ≡ true)
              × (shows (repo.get_user t) ≡ true)))
        × (apply_presence_visibility repo v t online seen ≡ record {
          user_id = t;
          visibility = FieldVisibility.visible;
          is_online = online;
          last_seen = seen;
        }))
      ⊎ ((v ≢ t)
          × ((has_any_block repo v t ≡ true)
              ⊎ ((shows (repo.get_user v) ≡ false) ⊎ (shows (repo.get_user t) ≡ false)))
          × (apply_presence_visibility repo v t online seen ≡ record {
            user_id = t;
            visibility = FieldVisibility.hidden;
            is_online = false;
            last_seen = none;
          }))
unfolding apply_presence_visibility can_view_presence
presence-cases repo v t online seen =
    let both = shows_between-shows (has_any_block repo v t) (repo.get_user v) (repo.get_user t) in
    elim (Bool-cases (v == t)) [
      | inl same ↦ inl (inl (eq_of_== v t same), rw same refl)
      | inr other ↦ elim (Bool-cases (has_any_block repo v t)) [
        | inl blocked ↦ inr (ne_of_== v t other, inl blocked, rw (other, both, blocked) refl)
        | inr free ↦ elim (Bool-cases (shows (repo.get_user v))) [
          | inl mine ↦ elim (Bool-cases (shows (repo.get_user t))) [
            | inl his ↦ inl (inr (free, mine, his), rw (other, both, free, mine, his) refl)
            | inr his ↦
                inr (ne_of_== v t other, inr (inr his), rw (other, both, free, mine, his) refl)
          ]
          | inr mine ↦ inr (ne_of_== v t other, inr (inl mine), rw (other, both, free, mine) refl)
        ]
      ]
    ]
