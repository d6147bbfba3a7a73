-- ===== src/Social/Accepting.antt =====
-- src/modules/friend-requests/usecase: what `acceptFriendRequest` leaves.
use chat_be.Base.{
  ℕ, min, max, ◌≡◌, refl, ap, ◌∙◌, inl, inr, true, false, ◌&&◌, Option, none, some, arith, ◌==◌,
  if◌then◌else◌, Option-cases, is_some, lookup, lookup-insert_self,
}
use chat_be.Social.Model.{FriendRequest, FriendRequestStatus, Tables, ok}
use chat_be.Privacy.Model.{Friendship}
use chat_be.Social.Requests.{
  is_blocked_between, is_pending, are_friends, create_conversation_for_friendship, befriend,
  accept_guard, accept_friend_request,
}
use chat_be.Social.Invariant.{befriend-are_friends, befriend-blocks}
use chat_be.Social.Tables.{restore_friendship}

-- After the request `r` was accepted in `s`: its two users are active friends and nobody else has
-- become or ceased to be one, the request is recorded as accepted, the two have a conversation, and
-- the blocks are the same.
pub record IsBefriended (now : ℕ) (s t : Tables) (r : FriendRequest) : Type 0 where
  pub friends :
      (x y : ℕ)
      → are_friends x y t ≡ (
          if min x y == min r.from_user_id r.to_user_id
            && max x y == max r.from_user_id r.to_user_id
          then true
          else are_friends x y s)
  pub answered :
      lookup r.id t.requests
      ≡ some (record r { status = FriendRequestStatus.accepted; responded_at = some now })
  pub acquainted :
      is_some (t.conversations (min r.from_user_id r.to_user_id) (max r.from_user_id r.to_user_id))
      ≡ true
  pub blocks : t.blocks ≡ s.blocks

conversation-opens :
    (fresh : ℕ → ℕ) (n now a b : ℕ) (s : Tables)
    → is_some (
        (create_conversation_for_friendship fresh n now (min a b) (max a b) s).conversations
          (min a b)
          (max a b))
      ≡ true
unfolding create_conversation_for_friendship
conversation-opens fresh n now a b s =
    let lo : min (min a b) (max a b) ≡ min a b = omega arith in
    let hi : max (min a b) (max a b) ≡ max a b = omega arith in
    elim (Option-cases (s.conversations (min a b) (max a b))) [
      | inl absent ↦ rw (create_conversation_for_friendship, lo, hi, absent) (ground arith)
      | inr (c, found) ↦ rw (create_conversation_for_friendship, lo, hi, found) (rw found refl)
    ]

conversation-requests :
    (fresh : ℕ → ℕ) (n now a b : ℕ) (s : Tables)
    → (create_conversation_for_friendship fresh n now a b s).requests ≡ s.requests
unfolding create_conversation_for_friendship
conversation-requests fresh n now a b s =
    elim (Option-cases (s.conversations (min a b) (max a b))) [
      | inl absent ↦ rw (create_conversation_for_friendship, absent) refl
      | inr (c, found) ↦ rw (create_conversation_for_friendship, found) refl
    ]

befriend-IsBefriended :
    (fresh : ℕ → ℕ) (now : ℕ) (r : FriendRequest) (o : Option Friendship) (s : Tables)
    → IsBefriended now s (befriend fresh now r o s) r
unfolding befriend restore_friendship
befriend-IsBefriended fresh now r (some f) s = record {
  friends = λ x y. befriend-are_friends fresh now x y r (some f) s;
  answered = lookup-insert_self r.id _ _;
  acquainted = conversation-opens fresh 0 now r.from_user_id r.to_user_id _;
  blocks = befriend-blocks fresh now r (some f) s;
}
befriend-IsBefriended fresh now r none s = record {
  friends = λ x y. befriend-are_friends fresh now x y r none s;
  answered =
      ap (lookup r.id) (conversation-requests fresh 1 now _ _ _)
      ∙ lookup-insert_self r.id _ s.requests;
  acquainted = conversation-opens fresh 1 now r.from_user_id r.to_user_id _;
  blocks = befriend-blocks fresh now r none s;
}

-- `acceptFriendRequest` of a pending request by its receiver, where neither of the two blocks the
-- other and they are not yet friends, succeeds and makes them friends.
pub accept-IsBefriended :
    (fresh : ℕ → ℕ) (now i u : ℕ) (r : FriendRequest) (s : Tables)
    → lookup i s.requests ≡ some r
    → r.to_user_id ≡ u
    → is_pending r ≡ true
    → is_blocked_between r.from_user_id r.to_user_id s ≡ false
    → are_friends r.from_user_id r.to_user_id s ≡ false
    → ((accept_friend_request fresh now i u s).0 ≡ ok true)
      × IsBefriended now s (accept_friend_request fresh now i u s).1 r
unfolding accept_friend_request accept_guard
accept-IsBefriended fresh now i u r s found mine waits free apart =
    let o = s.friendships (min r.from_user_id r.to_user_id) (max r.from_user_id r.to_user_id) in
    let done : accept_friend_request fresh now i u s ≡ (ok true, befriend fresh now r o s) =
      ground arith in
    rw done (refl, befriend-IsBefriended fresh now r o s)
