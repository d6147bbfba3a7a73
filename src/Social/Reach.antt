-- ===== src/Social/Reach.antt =====
-- Whatever users do, the tables stay valid.
use chat_be.Base.{
  ℕ, inl, inr, Bool, none, [], Option-cases, ◌∙◌, ◌&&◌, arith, ◌==◌, eq_of_==, Bool-cases,
}
use chat_be.Social.Model.{Tables, FriendRequest, FriendRequestStatus}
use chat_be.Social.Invariant.{
  IsValid, befriended-IsValid, befriend-are_friends, befriend-blocks, soft_delete-IsValid,
}
use chat_be.Social.Blocks.{
  block_user, unblock_user, unfriend, block_guard, add_block, unfriend_guard,
}
use chat_be.Social.Requests.{
  are_friends, send_guard, send_friend_request, accept_friend_request, reject_friend_request,
  cancel_friend_request,
}
use chat_be.Social.Guards.{accept-cases, are_friends-update, reject-cases, cancel-cases}
use chat_be.Privacy.Model.{FriendshipStatus}
use chat_be.Social.Tables.{soft_delete_friendship, respond}

-- A call of a method of one of the three use cases.
pub data Step : Tables → Tables → Type 0 where
  send :
      {s : Tables} (exists : ℕ → Bool) (fresh : ℕ → ℕ) (now from to : ℕ)
      → Step s (send_friend_request exists fresh now from to s).1
  accept :
      {s : Tables} (fresh : ℕ → ℕ) (now id user : ℕ)
      → Step s (accept_friend_request fresh now id user s).1
  reject : {s : Tables} (now id user : ℕ) → Step s (reject_friend_request now id user s).1
  cancel : {s : Tables} (now id user : ℕ) → Step s (cancel_friend_request now id user s).1
  block :
      {s : Tables} (exists : ℕ → Bool) (fresh : ℕ → ℕ) (now blocker blocked : ℕ)
      → Step s (block_user exists fresh now blocker blocked s).1
  unblock : {s : Tables} (blocker blocked : ℕ) → Step s (unblock_user blocker blocked s).1
  part :
      {s : Tables} (exists : ℕ → Bool) (user friend : ℕ) → Step s (unfriend exists user friend s).1

pub data Reach (s : Tables) : Tables → Type 0 where
  here : Reach s s
  next : {t u : Tables} → Reach s t → Step t u → Reach s u

abbrev pub empty : Tables
empty = record {
  friendships = λ a b. none;
  conversations = λ a b. none;
  blocks = λ a b. none;
  requests = [];
}

send-IsValid :
    (exists : ℕ → Bool) (fresh : ℕ → ℕ) (now from to : ℕ) (s : Tables)
    → IsValid s
    → IsValid (send_friend_request exists fresh now from to s).1
unfolding send_friend_request IsValid are_friends
send-IsValid exists fresh now from to s h = elim (Option-cases (send_guard exists from to s)) [
  | inl passes ↦ rw passes h
  | inr (e, fails) ↦ rw fails h
]

accept-IsValid :
    (fresh : ℕ → ℕ) (now i u : ℕ) (s : Tables)
    → IsValid s
    → IsValid (accept_friend_request fresh now i u s).1
accept-IsValid fresh now i u s h = elim (accept-cases fresh now i u s) [
  | inl (e, failed) ↦ rw failed h
  | inr (r, found, mine, waits, free, apart, done) ↦ rw done (
      befriended-IsValid r.from_user_id r.to_user_id s _ h free (befriend-blocks fresh now r _ s)
        (λ x y. befriend-are_friends fresh now x y r _ s))
]

respond-IsValid :
    (status : FriendRequestStatus) (now : ℕ) (r : FriendRequest) (s : Tables)
    → IsValid s
    → IsValid (respond status now r s)
unfolding IsValid are_friends
respond-IsValid status now r s h = h

reject-IsValid :
    (now i u : ℕ) (s : Tables) → IsValid s → IsValid (reject_friend_request now i u s).1
reject-IsValid now i u s h = elim (reject-cases now i u s) [
  | inl (e, failed) ↦ rw failed h
  | inr (r, found, mine, waits, done) ↦
      rw done (respond-IsValid FriendRequestStatus.rejected now r s h)
]

cancel-IsValid :
    (now i u : ℕ) (s : Tables) → IsValid s → IsValid (cancel_friend_request now i u s).1
cancel-IsValid now i u s h = elim (cancel-cases now i u s) [
  | inl (e, failed) ↦ rw failed h
  | inr (r, found, mine, waits, done) ↦
      rw done (respond-IsValid FriendRequestStatus.canceled now r s h)
]

add_block-IsValid : (id now a b : ℕ) (s : Tables) → IsValid s → IsValid (add_block id now a b s)
unfolding add_block IsValid soft_delete_friendship are_friends
add_block-IsValid id now a b s h x y blocked = elim (Bool-cases (x == a && y == b)) [
  | inl pair ↦
      let xa = eq_of_== x a (ground arith) in
      let yb = eq_of_== y b (ground arith) in
      rw (xa, yb) (are_friends-update FriendshipStatus.deleted a b a b s ∙ ground arith)
  | inr other ↦ soft_delete-IsValid a b s h x y (rw other at blocked)
]

block-IsValid :
    (exists : ℕ → Bool) (fresh : ℕ → ℕ) (now a b : ℕ) (s : Tables)
    → IsValid s
    → IsValid (block_user exists fresh now a b s).1
unfolding block_user
block-IsValid exists fresh now a b s h = elim (Option-cases (block_guard exists a b s)) [
  | inl passes ↦ rw passes (add_block-IsValid (fresh 0) now a b s h)
  | inr (e, fails) ↦ rw fails h
]

unblock-IsValid : (a b : ℕ) (s : Tables) → IsValid s → IsValid (unblock_user a b s).1
unfolding unblock_user IsValid are_friends
unblock-IsValid a b s h x y blocked = elim (Bool-cases (x == a && y == b)) [
  | inl pair ↦ absurd (ground arith)
  | inr other ↦ h x y (rw other at blocked)
]

unfriend-IsValid :
    (exists : ℕ → Bool) (u f : ℕ) (s : Tables) → IsValid s → IsValid (unfriend exists u f s).1
unfolding unfriend IsValid are_friends
unfriend-IsValid exists u f s h = elim (Option-cases (unfriend_guard exists u f s)) [
  | inl passes ↦ rw passes (soft_delete-IsValid u f s h)
  | inr (e, fails) ↦ rw fails h
]

Step-IsValid : {s t : Tables} → IsValid s → Step s t → IsValid t
Step-IsValid h (send exists fresh now from to) = send-IsValid exists fresh now from to _ h
Step-IsValid h (accept fresh now i u) = accept-IsValid fresh now i u _ h
Step-IsValid h (reject now i u) = reject-IsValid now i u _ h
Step-IsValid h (cancel now i u) = cancel-IsValid now i u _ h
Step-IsValid h (block exists fresh now a b) = block-IsValid exists fresh now a b _ h
Step-IsValid h (unblock a b) = unblock-IsValid a b _ h
Step-IsValid h (part exists u f) = unfriend-IsValid exists u f _ h

empty-IsValid : IsValid empty
unfolding IsValid
empty-IsValid a b h = absurd (ground arith)

-- In every state that the use cases reach from empty tables, a user who blocks another is not an
-- active friend of his.
pub tables-IsValid : {s : Tables} → Reach empty s → IsValid s
tables-IsValid here = empty-IsValid
tables-IsValid (next r st) = Step-IsValid (tables-IsValid r) st
