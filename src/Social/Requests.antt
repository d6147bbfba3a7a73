-- ===== src/Social/Requests.antt =====
-- src/modules/friend-requests/usecase: FriendRequestUseCase. `exists` says whether the user
-- repository has a user, `now` is the time of the call, and `fresh n` the n-th id that v7() gives in it.
use chat_be.Base.{
  ℕ, ◌+◌, min, max, Bool, true, not, ◌||◌, Option, none, some, [], ◌∷◌, ◌==◌, is_some, lookup,
  insert,
}
use chat_be.Social.Model.{
  FriendRequestStatus, FriendRequest, FriendMessage, PrivateConversation, Tables, self_request,
  sender_not_found, target_not_found, user_blocked, already_friends, request_exists,
  request_not_found, not_authorized, not_pending, Action, first_error, guarded, ok, throw,
  SocialError,
}
use chat_be.Privacy.Model.{Friendship, FriendshipStatus}
use chat_be.Privacy.Policy.{is_active_friendship}
use chat_be.Social.Tables.{is_status, find_request, set_pair, restore_friendship, respond}

unfoldable pub is_blocked_between : ℕ → ℕ → Tables → Bool
is_blocked_between a b s = is_some (s.blocks a b) || is_some (s.blocks b a)

abbrev pub is_pending : FriendRequest → Bool
is_pending r = is_status r.status FriendRequestStatus.pending

unfoldable pub are_friends : ℕ → ℕ → Tables → Bool
are_friends a b s = is_active_friendship (s.friendships (min a b) (max a b))

unfoldable pub send_guard : (ℕ → Bool) → ℕ → ℕ → Tables → Option SocialError
send_guard exists from to s = first_error (
    (from == to, self_request)
    ∷ (not (exists from), sender_not_found)
    ∷ (not (exists to), target_not_found)
    ∷ (is_blocked_between from to s, user_blocked)
    ∷ (are_friends from to s, already_friends)
    ∷ (is_some (find_request from to FriendRequestStatus.pending s.requests), request_exists)
    ∷ (is_some (find_request to from FriendRequestStatus.pending s.requests), request_exists)
    ∷ [])

unfoldable pub send_friend_request : (ℕ → Bool) → (ℕ → ℕ) → ℕ → ℕ → ℕ → Action ℕ
send_friend_request exists fresh now from to s =
    guarded (send_guard exists from to s)
      (λ s. (
        ok (fresh 0),
        record s {
          requests =
              insert (fresh 0)
                (record {
                  id = fresh 0;
                  from_user_id = from;
                  to_user_id = to;
                  status = FriendRequestStatus.pending;
                  created_at = now;
                  responded_at = none;
                })
                s.requests;
        },
      ))
      s

-- The conversation of two new friends; its ids are the calls of v7() from the n-th on.
unfoldable pub new_conversation : (ℕ → ℕ) → ℕ → ℕ → ℕ → ℕ → PrivateConversation
new_conversation fresh n now user_a user_b =
    let greeting : FriendMessage = record {
      id = fresh (n + 3);
      sender_id = user_a;
      created_at = now;
    } in
    record {
      id = fresh n;
      members_count = 2;
      created_at = now;
      members =
          record { id = fresh (n + 1); user_id = user_a; joined_at = now }
          ∷ record { id = fresh (n + 2); user_id = user_b; joined_at = now }
          ∷ [];
      messages = greeting ∷ [];
      last_message = some greeting;
    }

unfoldable pub create_conversation_for_friendship : (ℕ → ℕ) → ℕ → ℕ → ℕ → ℕ → Tables → Tables
create_conversation_for_friendship fresh n now user_a user_b s =
    elim (s.conversations (min user_a user_b) (max user_a user_b)) [
      | some existing ↦ s
      | none ↦ record s {
        conversations =
            set_pair (min user_a user_b) (max user_a user_b)
              (some (new_conversation fresh n now user_a user_b)) s.conversations;
      }
    ]

abbrev pub insert_friendship : ℕ → ℕ → ℕ → ℕ → Tables → Tables
insert_friendship id now user_a user_b s = record s {
  friendships =
      set_pair user_a user_b
        (some (record {
          id = some id;
          user_a = user_a;
          user_b = user_b;
          status = FriendshipStatus.active;
          created_at = some now;
        }))
        s.friendships;
}

-- `acceptFriendRequest` past its guards, by the friendship that the pair has.
unfoldable pub befriend : (ℕ → ℕ) → ℕ → FriendRequest → Option Friendship → Tables → Tables
befriend fresh now request (some f) s =
    let a = min request.from_user_id request.to_user_id in
    let b = max request.from_user_id request.to_user_id in
    respond FriendRequestStatus.accepted now request
      (create_conversation_for_friendship fresh 0 now a b (restore_friendship a b s))
befriend fresh now request none s =
    let a = min request.from_user_id request.to_user_id in
    let b = max request.from_user_id request.to_user_id in
    create_conversation_for_friendship fresh 1 now a b
      (insert_friendship (fresh 0) now a b (respond FriendRequestStatus.accepted now request s))

unfoldable pub accept_guard : FriendRequest → ℕ → Tables → Option SocialError
accept_guard request user_id s = first_error (
    (not (request.to_user_id == user_id), not_authorized)
    ∷ (not (is_pending request), not_pending)
    ∷ (is_blocked_between request.from_user_id request.to_user_id s, user_blocked)
    ∷ (are_friends request.from_user_id request.to_user_id s, already_friends)
    ∷ [])

-- A method on a request that must exist.
abbrev pub with_request : ℕ → (FriendRequest → Action Bool) → Action Bool
with_request request_id act s = elim (lookup request_id s.requests) [
  | none ↦ (throw request_not_found, s)
  | some request ↦ act request s
]

unfoldable pub accept_friend_request : (ℕ → ℕ) → ℕ → ℕ → ℕ → Action Bool
accept_friend_request fresh now request_id user_id = with_request request_id (λ request s.
    guarded (accept_guard request user_id s)
      (λ s. (
        ok true,
        befriend fresh now request
            (s.friendships (min request.from_user_id request.to_user_id)
              (max request.from_user_id request.to_user_id))
            s,
      ))
      s)

unfoldable pub respond_guard : ℕ → FriendRequest → ℕ → Option SocialError
respond_guard responder request user_id =
    first_error
      ((not (responder == user_id), not_authorized) ∷ (not (is_pending request), not_pending) ∷ [])

unfoldable pub reject_friend_request : ℕ → ℕ → ℕ → Action Bool
reject_friend_request now request_id user_id = with_request request_id (λ request s.
    guarded (respond_guard request.to_user_id request user_id)
      (λ s. (ok true, respond FriendRequestStatus.rejected now request s)) s)

unfoldable pub cancel_friend_request : ℕ → ℕ → ℕ → Action Bool
cancel_friend_request now request_id user_id = with_request request_id (λ request s.
    guarded (respond_guard request.from_user_id request user_id)
      (λ s. (ok true, respond FriendRequestStatus.canceled now request s)) s)
