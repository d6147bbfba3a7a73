-- ===== src/Social/Blocks.antt =====
-- src/modules/blocks/usecase and src/modules/friendships/usecase: the methods that part two users.
use chat_be.Base.{
  ℕ, Bool, true, not, ◌&&◌, ◌||◌, Option, none, some, [], ◌∷◌, ◌++◌, ◌==◌, is_some, filter,
}
use chat_be.Social.Model.{
  FriendRequest, Tables, cannot_block_yourself, blocked_user_not_found, already_blocked,
  friend_not_found, friendship_not_found, Action, first_error, guarded, ok, SocialError,
}
use chat_be.Social.Requests.{is_pending, are_friends}
use chat_be.Social.Tables.{
  query_by_sender_id, query_by_receiver_id, list_pending, set_pair, soft_delete_friendship,
  delete_requests,
}

unfoldable pub block_guard : (ℕ → Bool) → ℕ → ℕ → Tables → Option SocialError
block_guard exists blocker blocked s = first_error (
    (blocker == blocked, cannot_block_yourself)
    ∷ (not (exists blocked), blocked_user_not_found)
    ∷ (is_some (s.blocks blocker blocked), already_blocked)
    ∷ [])

-- `blockUser` past its guards.
unfoldable pub add_block : ℕ → ℕ → ℕ → ℕ → Tables → Tables
add_block id now blocker blocked s =
    let parted = soft_delete_friendship blocker blocked s in
    record parted {
      requests =
          delete_requests
            (list_pending 100 blocker blocked s.requests
              ++ list_pending 100 blocked blocker s.requests)
            s.requests;
      blocks =
          set_pair blocker blocked
            (some (record {
              id = id;
              blocker_id = blocker;
              blocked_user_id = blocked;
              created_at = now;
            }))
            s.blocks;
    }

unfoldable pub block_user : (ℕ → Bool) → (ℕ → ℕ) → ℕ → ℕ → ℕ → Action ℕ
block_user exists fresh now blocker blocked s =
    guarded (block_guard exists blocker blocked s)
      (λ s. (ok (fresh 0), add_block (fresh 0) now blocker blocked s)) s

-- `deleteByCondition` of the blocks answers true, so `unblockUser` never throws.
unfoldable pub unblock_user : ℕ → ℕ → Action Bool
unblock_user blocker blocked s =
    (ok true, record s { blocks = set_pair blocker blocked none s.blocks })

unfoldable pub unfriend_guard : (ℕ → Bool) → ℕ → ℕ → Tables → Option SocialError
unfriend_guard exists user friend s = first_error (
    (not (exists friend), friend_not_found)
    ∷ (not (are_friends user friend s), friendship_not_found)
    ∷ [])

abbrev pub is_pending_with : ℕ → FriendRequest → Bool
is_pending_with friend r = is_pending r && (r.from_user_id == friend || r.to_user_id == friend)

unfoldable pub unfriend : (ℕ → Bool) → ℕ → ℕ → Action Bool
unfriend exists user friend s =
    guarded (unfriend_guard exists user friend s)
      (λ s. (
        ok true,
        record (soft_delete_friendship user friend s) {
          requests =
              delete_requests
                (filter (is_pending_with friend) (
                  query_by_sender_id user none none none s.requests
                  ++ query_by_receiver_id user none none s.requests))
                s.requests;
        },
      ))
      s
