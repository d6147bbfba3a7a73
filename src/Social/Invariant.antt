-- ===== src/Social/Invariant.antt =====
-- What holds of the tables at all times.
use chat_be.Base.{
  ℕ, min, max, ◌≡◌, inl, inr, true, false, ◌&&◌, arith, ◌==◌, if◌then◌else◌, Bool-cases, is_some,
  refl, ◌∙◌, Option, none, some, Option-cases,
}
use chat_be.Social.Model.{Tables, FriendRequestStatus, FriendRequest}
use chat_be.Privacy.Model.{FriendshipStatus, Friendship}
use chat_be.Social.Requests.{
  is_blocked_between, are_friends, create_conversation_for_friendship, insert_friendship, befriend,
}
use chat_be.Social.Guards.{are_friends-update, pair-cases, are_friends-conversation}
use chat_be.Social.Tables.{soft_delete_friendship, restore_friendship, respond}

-- A user who blocks another is not an active friend of his.
unfoldable pub IsValid : Tables → Type 0
IsValid s = (a b : ℕ) → is_some (s.blocks a b) ≡ true → are_friends a b s ≡ false

pub soft_delete-IsValid :
    (a b : ℕ) (s : Tables) → IsValid s → IsValid (soft_delete_friendship a b s)
unfolding IsValid soft_delete_friendship
soft_delete-IsValid a b s h x y blocked =
    ground (arith, are_friends-update FriendshipStatus.deleted a b x y s, h x y blocked)

-- Two users neither of whom blocks the other may become friends.
pub befriended-IsValid :
    (a b : ℕ) (s t : Tables)
    → IsValid s
    → is_blocked_between a b s ≡ false
    → t.blocks ≡ s.blocks
    → ((x y : ℕ)
        → are_friends x y t
          ≡ (if min x y == min a b && max x y == max a b then true else are_friends x y s))
    → IsValid t
unfolding IsValid is_blocked_between
befriended-IsValid a b s t h free same made x y blocked =
    elim (Bool-cases (min x y == min a b && max x y == max a b)) [
      | inr other ↦ ground (arith, made x y, h x y (rw same at blocked))
      | inl pair ↦
          let now : is_some (s.blocks x y) ≡ true = rw same at blocked in
          absurd (elim (pair-cases a b x y (ground arith) (ground arith)) [
            | inl (xa, yb) ↦ (let e = rw (xa, yb) at now in ground arith)
            | inr (xb, ya) ↦ (let e = rw (xb, ya) at now in ground arith)
          ])
    ]

restored-are_friends :
    (a b x y : ℕ) (s : Tables)
    → are_friends x y (restore_friendship (min a b) (max a b) s)
      ≡ (if min x y == min a b && max x y == max a b then true else are_friends x y s)
unfolding restore_friendship
restored-are_friends a b x y s =
    let lo : min (min a b) (max a b) ≡ min a b = omega arith in
    let hi : max (min a b) (max a b) ≡ max a b = omega arith in
    are_friends-update FriendshipStatus.active (min a b) (max a b) x y s ∙ rw (lo, hi) refl

inserted-are_friends :
    (id now a b x y : ℕ) (s : Tables)
    → are_friends x y (insert_friendship id now (min a b) (max a b) s)
      ≡ (if min x y == min a b && max x y == max a b then true else are_friends x y s)
unfolding are_friends
inserted-are_friends id now a b x y s =
    elim (Bool-cases (min x y == min a b && max x y == max a b)) [
      | inl same ↦ rw same refl
      | inr other ↦ rw other refl
    ]

-- `acceptFriendRequest` past its guards makes the two active friends, and nobody else.
pub befriend-are_friends :
    (fresh : ℕ → ℕ) (now x y : ℕ) (r : FriendRequest) (o : Option Friendship) (s : Tables)
    → are_friends x y (befriend fresh now r o s) ≡ (
        if min x y == min r.from_user_id r.to_user_id && max x y == max r.from_user_id r.to_user_id
        then true
        else are_friends x y s)
unfolding befriend are_friends
befriend-are_friends fresh now x y r (some f) s =
    let a = min r.from_user_id r.to_user_id in
    let b = max r.from_user_id r.to_user_id in
    are_friends-conversation fresh 0 now a b x y (restore_friendship a b s)
    ∙ restored-are_friends r.from_user_id r.to_user_id x y s
befriend-are_friends fresh now x y r none s =
    let a = min r.from_user_id r.to_user_id in
    let b = max r.from_user_id r.to_user_id in
    let t = respond FriendRequestStatus.accepted now r s in
    are_friends-conversation fresh 1 now a b x y (insert_friendship (fresh 0) now a b t)
    ∙ inserted-are_friends (fresh 0) now r.from_user_id r.to_user_id x y t

conversation-blocks :
    (fresh : ℕ → ℕ) (n now a b : ℕ) (s : Tables)
    → (create_conversation_for_friendship fresh n now a b s).blocks ≡ s.blocks
unfolding create_conversation_for_friendship
conversation-blocks fresh n now a b s = elim (Option-cases (s.conversations (min a b) (max a b))) [
  | inl absent ↦ rw (create_conversation_for_friendship, absent) refl
  | inr (c, found) ↦ rw (create_conversation_for_friendship, found) refl
]

pub befriend-blocks :
    (fresh : ℕ → ℕ) (now : ℕ) (r : FriendRequest) (o : Option Friendship) (s : Tables)
    → (befriend fresh now r o s).blocks ≡ s.blocks
unfolding befriend restore_friendship
befriend-blocks fresh now r (some f) s = conversation-blocks fresh 0 now _ _ _
befriend-blocks fresh now r none s = conversation-blocks fresh 1 now _ _ _
