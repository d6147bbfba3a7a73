-- ===== src/Social/Guards.antt =====
-- What a call that passes its guards has found, and the pairs that a table is read at.
use chat_be.Base.{
  ℕ, min, max, ◌≡◌, refl, ◌⊎◌, inl, inr, true, false, ◌&&◌, Option, none, some, arith, ◌==◌,
  if◌then◌else◌, eq_of_==, ne_of_==, Bool-cases, Option-cases, lookup, ap, ◌∙◌, Bool,
}
use chat_be.Social.Model.{FriendRequest, Tables, SocialError, ok, throw, FriendRequestStatus}
use chat_be.Privacy.Model.{Friendship, FriendshipStatus}
use chat_be.Social.Requests.{
  is_blocked_between, is_pending, are_friends, create_conversation_for_friendship, befriend,
  accept_guard, accept_friend_request, respond_guard, reject_friend_request, cancel_friend_request,
}
use chat_be.Social.Tables.{put_status, update_friendship, respond}
use chat_be.Privacy.Policy.{is_active_friendship}

-- Two ordered pairs that are equal hold the same two users.
pub pair-cases :
    (a b x y : ℕ)
    → min x y ≡ min a b
    → max x y ≡ max a b
    → ((x ≡ a) × (y ≡ b)) ⊎ ((x ≡ b) × (y ≡ a))
pair-cases a b x y lo hi = elim (Bool-cases (x == a)) [
  | inl same ↦ inl (eq_of_== x a same, (let e = eq_of_== x a same in omega arith))
  | inr other ↦
      inr
        ((let ne = ne_of_== x a other in omega arith), (let ne = ne_of_== x a other in omega arith))
]

abbrev pub is_active_status : FriendshipStatus → Bool
is_active_status FriendshipStatus.active = true
is_active_status FriendshipStatus.deleted = false

is_active-status : (f : Friendship) → is_active_friendship (some f) ≡ is_active_status f.status
is_active-status f =
    elim f.status
      as (λ x.
        elim x [ FriendshipStatus.active ↦ true | FriendshipStatus.deleted ↦ false ]
        ≡ is_active_status x) [ FriendshipStatus.active ↦ refl | FriendshipStatus.deleted ↦ refl ]

put_status-status :
    (status : FriendshipStatus) (a b : ℕ) (o : Option Friendship)
    → (put_status status a b o).status ≡ status
put_status-status status a b none = refl
put_status-status status a b (some f) = refl

is_active-put_status :
    (status : FriendshipStatus) (a b : ℕ) (o : Option Friendship)
    → is_active_friendship (some (put_status status a b o)) ≡ is_active_status status
is_active-put_status status a b o =
    is_active-status (put_status status a b o)
    ∙ ap is_active_status (put_status-status status a b o)

-- An updated friendship is active exactly if it was made so; the others stay.
pub are_friends-update :
    (status : FriendshipStatus) (a b x y : ℕ) (s : Tables)
    → are_friends x y (update_friendship status a b s) ≡ (
        if min x y == min a b && max x y == max a b
        then is_active_status status
        else are_friends x y s)
unfolding are_friends
are_friends-update status a b x y s =
    let e = is_active-put_status status (min a b) (max a b) (s.friendships (min a b) (max a b)) in
    elim (Bool-cases (min x y == min a b && max x y == max a b)) [
      | inl same ↦ rw same e
      | inr other ↦ rw other refl
    ]

pub are_friends-conversation :
    (fresh : ℕ → ℕ) (n now a b x y : ℕ) (s : Tables)
    → are_friends x y (create_conversation_for_friendship fresh n now a b s) ≡ are_friends x y s
unfolding are_friends create_conversation_for_friendship
are_friends-conversation fresh n now a b x y s =
    elim (Option-cases (s.conversations (min a b) (max a b))) [
      | inl absent ↦ rw (create_conversation_for_friendship, absent) refl
      | inr (c, found) ↦ rw (create_conversation_for_friendship, found) refl
    ]

-- `acceptFriendRequest` throws and changes nothing, or answers a pending request to its receiver,
-- where nobody blocks the other and the two are not friends.
pub accept-cases :
    (fresh : ℕ → ℕ) (now i u : ℕ) (s : Tables)
    → ((e : SocialError) × (accept_friend_request fresh now i u s ≡ (throw e, s)))
      ⊎ ((r : FriendRequest) × (lookup i s.requests ≡ some r)
          × (r.to_user_id ≡ u)
          × (is_pending r ≡ true)
          × (is_blocked_between r.from_user_id r.to_user_id s ≡ false)
          × (are_friends r.from_user_id r.to_user_id s ≡ false)
          × (accept_friend_request fresh now i u s ≡ (
            ok true,
            befriend fresh now r
                (s.friendships (min r.from_user_id r.to_user_id) (max r.from_user_id r.to_user_id))
                s,
          )))
unfolding accept_friend_request accept_guard
accept-cases fresh now i u s = elim (Option-cases (lookup i s.requests)) [
  | inl absent ↦ inl (SocialError.request_not_found, ground arith)
  | inr (r, found) ↦ elim (Bool-cases (r.to_user_id == u)) [
    | inr stranger ↦ inl (SocialError.not_authorized, ground arith)
    | inl mine ↦ elim (Bool-cases (is_pending r)) [
      | inr done ↦ inl (SocialError.not_pending, ground arith)
      | inl waits ↦ elim (Bool-cases (is_blocked_between r.from_user_id r.to_user_id s)) [
        | inl blocked ↦ inl (SocialError.user_blocked, ground arith)
        | inr free ↦ elim (Bool-cases (are_friends r.from_user_id r.to_user_id s)) [
          | inl friends ↦ inl (SocialError.already_friends, ground arith)
          | inr apart ↦
              inr (r, found, eq_of_== r.to_user_id u mine, waits, free, apart, ground arith)
        ]
      ]
    ]
  ]
]

-- `rejectFriendRequest` throws and changes nothing, or rejects a pending request as its receiver.
pub reject-cases :
    (now i u : ℕ) (s : Tables)
    → ((e : SocialError) × (reject_friend_request now i u s ≡ (throw e, s)))
      ⊎ ((r : FriendRequest) × (lookup i s.requests ≡ some r)
          × (r.to_user_id ≡ u)
          × (is_pending r ≡ true)
          × (reject_friend_request now i u s
              ≡ (ok true, respond FriendRequestStatus.rejected now r s)))
unfolding reject_friend_request respond_guard
reject-cases now i u s = elim (Option-cases (lookup i s.requests)) [
  | inl absent ↦ inl (SocialError.request_not_found, ground arith)
  | inr (r, found) ↦ elim (Bool-cases (r.to_user_id == u)) [
    | inr stranger ↦ inl (SocialError.not_authorized, ground arith)
    | inl mine ↦ elim (Bool-cases (is_pending r)) [
      | inr done ↦ inl (SocialError.not_pending, ground arith)
      | inl waits ↦ inr (r, found, eq_of_== r.to_user_id u mine, waits, ground arith)
    ]
  ]
]

-- `cancelFriendRequest` throws and changes nothing, or cancels a pending request as its sender.
pub cancel-cases :
    (now i u : ℕ) (s : Tables)
    → ((e : SocialError) × (cancel_friend_request now i u s ≡ (throw e, s)))
      ⊎ ((r : FriendRequest) × (lookup i s.requests ≡ some r)
          × (r.from_user_id ≡ u)
          × (is_pending r ≡ true)
          × (cancel_friend_request now i u s
              ≡ (ok true, respond FriendRequestStatus.canceled now r s)))
unfolding cancel_friend_request respond_guard
cancel-cases now i u s = elim (Option-cases (lookup i s.requests)) [
  | inl absent ↦ inl (SocialError.request_not_found, ground arith)
  | inr (r, found) ↦ elim (Bool-cases (r.from_user_id == u)) [
    | inr stranger ↦ inl (SocialError.not_authorized, ground arith)
    | inl mine ↦ elim (Bool-cases (is_pending r)) [
      | inr done ↦ inl (SocialError.not_pending, ground arith)
      | inl waits ↦ inr (r, found, eq_of_== r.from_user_id u mine, waits, ground arith)
    ]
  ]
]
