-- ===== src/Social/Outcomes.antt =====
-- What a call of the use cases does: its errors, the new friendship, the block, and what a profile
-- then shows.
use chat_be.Base.{
  ℕ, zero, suc, ◌≤◌, min, max, ◌≡◌, refl, ap, ◌∙◌, ◌≢◌, inl, inr, Bool, true, false, not, ◌&&◌,
  ◌||◌, Option, none, some, List, [], ◌∷◌, arith, ◌==◌, Bool-cases, is_some, length, filter, Dict,
  values,
}
use chat_be.Social.Model.{FriendRequest, FriendRequestStatus, Tables}
use chat_be.Privacy.Model.{User, Repositories, UserInfoVisibility}
use chat_be.Social.Invariant.{IsValid}
use chat_be.Social.Reach.{Reach, tables-IsValid, empty}
use chat_be.Privacy.Policy.{are_active_friends, has_any_block, can_view_field}
use chat_be.Privacy.Profile.{build_public_profile_detail}
use chat_be.Privacy.Fields.{email-shown}
use chat_be.Social.Requests.{is_blocked_between, are_friends}
use chat_be.Social.Tables.{take, head, is_status, query_by_sender_id, find_request}

-- What `blockUser` of `a` makes of the tables `s`: its row stands, and names `a` as the one who blocks
-- `b`; no other row of a block and no other friendship has changed; and the two are no active friends.
pub record IsParted (id now a b : ℕ) (s t : Tables) : Type 0 where
  pub row :
      t.blocks a b
      ≡ some (record { id = id; blocker_id = a; blocked_user_id = b; created_at = now })
  pub blocks : (x y : ℕ) → is_some (t.blocks x y) ≡ ((x == a && y == b) || is_some (s.blocks x y))
  pub friends :
      (x y : ℕ)
      → are_friends x y t ≡ (not (min x y == min a b && max x y == max a b) && are_friends x y s)

abbrev pub repositories : (ℕ → Option User) → Tables → Repositories
repositories users s = record {
  get_user = users;
  find_friendship = s.friendships;
  find_block = λ a b. is_some (s.blocks a b);
}

apart_of_block :
    (a b : ℕ) (s : Tables) → IsValid s → is_blocked_between a b s ≡ true → are_friends a b s ≡ false
unfolding IsValid is_blocked_between are_friends
apart_of_block a b s h blocked = elim (Bool-cases (is_some (s.blocks a b))) [
  | inl mine ↦ h a b mine
  | inr his ↦
      let lo : min b a ≡ min a b = omega arith in
      let hi : max b a ≡ max a b = omega arith in let e = h b a (ground arith) in rw (lo, hi) at e
]

-- In every state that the use cases reach, where one of two different users blocks the other, the
-- detail of the profile of either, as the other sees it, has no email.
pub blocked_email-none :
    {s : Tables} (users : ℕ → Option User) (v : ℕ) (target : User)
    → Reach empty s
    → v ≢ target.id
    → is_blocked_between v target.id s ≡ true
    → (build_public_profile_detail (repositories users s) v target).email ≡ none
unfolding are_active_friends are_friends
blocked_email-none {s} users v target r ne blocked =
    let apart = apart_of_block v target.id s (tables-IsValid r) blocked in
    email-shown (repositories users s) v target ∙ ground arith

-- In every state that the use cases reach, a user who is logged in sees a field that is for friends
-- exactly if it is his own or he is an active friend of its user: the test of the blocks hides it from
-- no friend, since nobody stays a friend past a block.
pub can_view_field-friends :
    {s : Tables} (users : ℕ → Option User) (v : ℕ) (target : User)
    → Reach empty s
    → can_view_field (repositories users s) (some v) target (some UserInfoVisibility.friends)
      ≡ (v == target.id || are_friends v target.id s)
unfolding can_view_field has_any_block are_active_friends are_friends is_blocked_between
can_view_field-friends {s} users v target r = elim (Bool-cases (v == target.id)) [
  | inl same ↦ ground arith
  | inr other ↦ elim (Bool-cases (is_blocked_between v target.id s)) [
    | inl blocked ↦
        let apart = apart_of_block v target.id s (tables-IsValid r) blocked in ground arith
    | inr free ↦ ground arith
  ]
]

take_all : {A : Type 0} (n : ℕ) (xs : List A) → length xs ≤ n → take n xs ≡ xs
take_all zero [] h = refl
take_all zero (x ∷ xs) h = absurd (omega arith)
take_all (suc n) [] h = refl
take_all (suc n) (x ∷ xs) h = ap (λ ys. x ∷ ys) (take_all n xs (omega arith))

filter-filter :
    (p q : FriendRequest → Bool) (xs : List FriendRequest)
    → filter q (filter p xs) ≡ filter (λ r. p r && q r) xs
filter-filter p q [] = refl
filter-filter p q (x ∷ xs) = ground (arith, filter-filter p q xs)

abbrev pub is_pending_request : ℕ → ℕ → FriendRequest → Bool
is_pending_request from to r =
    r.from_user_id == from && (to == r.to_user_id && is_status FriendRequestStatus.pending r.status)

-- Where the sender has at most two requests in the table, `findByCond` gives the first of all requests
-- that is a pending one of his to the receiver, and nothing exactly if there is none.
pub find_request-finds :
    (from to : ℕ) (requests : Dict FriendRequest)
    → length (filter (λ r. r.from_user_id == from) (values requests)) ≤ 2
    → find_request from to FriendRequestStatus.pending requests
      ≡ head (filter (is_pending_request from to) (values requests))
unfolding find_request query_by_sender_id
find_request-finds from to requests few =
    rw (take_all 2 (filter (λ r. r.from_user_id == from) (values requests)) few) (
      ap head (
        filter-filter (λ r. r.from_user_id == from)
          (λ r. to == r.to_user_id && is_status FriendRequestStatus.pending r.status)
          (values requests)))
