-- ===== src/Social/Tables.antt =====
-- The dynamodb-repo files of src/modules/friend-requests, src/modules/friendships and
-- src/modules/blocks: what the use cases call of them. A query of DynamoDB reads at most `Limit`
-- items before it filters them, and an update of a key that is absent makes its item.
use chat_be.Base.{
  ℕ, zero, suc, min, max, Bool, true, false, ◌&&◌, Option, none, some, List, [], ◌∷◌, ◌==◌,
  if◌then◌else◌, filter, Dict, insert, delete, values,
}
use chat_be.Social.Model.{FriendRequestStatus, FriendRequest, Tables}
use chat_be.Privacy.Model.{Friendship, FriendshipStatus}

module _ {ℓ} {A : Type ℓ} where
  abbrev pub take : ℕ → List A → List A
  take zero xs = []
  take (suc n) [] = []
  take (suc n) (x ∷ xs) = x ∷ take n xs

  -- `items[0] || null`
  abbrev pub head : List A → Option A
  head [] = none
  head (x ∷ xs) = some x

  -- `Limit`, which may be left out
  abbrev pub limited : Option ℕ → List A → List A
  limited none xs = xs
  limited (some n) xs = take n xs

abbrev pub is_status : FriendRequestStatus → FriendRequestStatus → Bool
is_status FriendRequestStatus.pending FriendRequestStatus.pending = true
is_status FriendRequestStatus.accepted FriendRequestStatus.accepted = true
is_status FriendRequestStatus.rejected FriendRequestStatus.rejected = true
is_status FriendRequestStatus.canceled FriendRequestStatus.canceled = true
is_status a b = false

-- A filter that may be left out.
abbrev pub passes_id : Option ℕ → ℕ → Bool
passes_id none b = true
passes_id (some a) b = a == b

abbrev pub passes_status : Option FriendRequestStatus → FriendRequestStatus → Bool
passes_status none b = true
passes_status (some a) b = is_status a b

unfoldable pub query_by_sender_id :
    ℕ → Option ℕ → Option FriendRequestStatus → Option ℕ → Dict FriendRequest → List FriendRequest
query_by_sender_id sender_id receiver_id status limit requests =
    filter (λ r. passes_id receiver_id r.to_user_id && passes_status status r.status)
      (limited limit (filter (λ r. r.from_user_id == sender_id) (values requests)))

unfoldable pub query_by_receiver_id :
    ℕ → Option FriendRequestStatus → Option ℕ → Dict FriendRequest → List FriendRequest
query_by_receiver_id receiver_id status limit requests =
    filter (λ r. passes_status status r.status)
      (limited limit (filter (λ r. r.to_user_id == receiver_id) (values requests)))

-- `findByCond` on a sender, a receiver and a status
unfoldable pub find_request :
    ℕ → ℕ → FriendRequestStatus → Dict FriendRequest → Option FriendRequest
find_request from_user_id to_user_id status requests =
    head (query_by_sender_id from_user_id (some to_user_id) (some status) (some 2) requests)

-- `list` on a sender, a receiver and the status pending
unfoldable pub list_pending : ℕ → ℕ → ℕ → Dict FriendRequest → List FriendRequest
list_pending limit from_user_id to_user_id requests =
    query_by_sender_id from_user_id (some to_user_id) (some FriendRequestStatus.pending)
      (some limit) requests

-- A table whose entry at an ordered pair is written.
abbrev pub set_pair : {A : Type 0} → ℕ → ℕ → A → (ℕ → ℕ → A) → ℕ → ℕ → A
set_pair a b v table x y = if x == a && y == b then v else table x y

-- `UpdateCommand` that sets the status of a friendship
abbrev pub put_status : FriendshipStatus → ℕ → ℕ → Option Friendship → Friendship
put_status status a b none = record {
  id = none;
  user_a = a;
  user_b = b;
  status = status;
  created_at = none;
}
put_status status a b (some f) = record f { status = status }

abbrev pub update_friendship : FriendshipStatus → ℕ → ℕ → Tables → Tables
update_friendship status user_a user_b s = record s {
  friendships =
      set_pair (min user_a user_b) (max user_a user_b)
        (some (
          put_status status (min user_a user_b) (max user_a user_b)
            (s.friendships (min user_a user_b) (max user_a user_b))))
        s.friendships;
}

unfoldable pub soft_delete_friendship : ℕ → ℕ → Tables → Tables
soft_delete_friendship = update_friendship FriendshipStatus.deleted

unfoldable pub restore_friendship : ℕ → ℕ → Tables → Tables
restore_friendship = update_friendship FriendshipStatus.active

-- `repository.update(requestId, { status, respondedAt })` of a request that was read
abbrev pub respond : FriendRequestStatus → ℕ → FriendRequest → Tables → Tables
respond status now request s = record s {
  requests =
      insert request.id (record request { status = status; responded_at = some now }) s.requests;
}

-- The deletes of a list of requests.
unfoldable pub delete_requests : List FriendRequest → Dict FriendRequest → Dict FriendRequest
delete_requests [] requests = requests
delete_requests (r ∷ rs) requests = delete_requests rs (delete r.id requests)
