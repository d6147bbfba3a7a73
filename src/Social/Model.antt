-- ===== src/Social/Model.antt =====
-- The data of friend requests and blocks, the state of the tables, and what the use cases throw.
use chat_be.Base.{ℕ, Bool, Option, none, some, List, [], ◌∷◌, if◌then◌else◌, Dict}
use chat_be.Privacy.Model.{Friendship}

pub data FriendRequestStatus : Type 0 where
  pending accepted rejected canceled : FriendRequestStatus

pub record FriendRequest : Type 0 where
  pub id : ℕ
  pub from_user_id : ℕ
  pub to_user_id : ℕ
  pub status : FriendRequestStatus
  pub created_at : ℕ
  pub responded_at : Option ℕ

pub record Block : Type 0 where
  pub id : ℕ
  pub blocker_id : ℕ
  pub blocked_user_id : ℕ
  pub created_at : ℕ

-- A member and the message of the conversation that a friendship opens: each is a plain member, and
-- the text of the message is fixed.
pub record FriendMember : Type 0 where
  pub id : ℕ
  pub user_id : ℕ
  pub joined_at : ℕ

pub record FriendMessage : Type 0 where
  pub id : ℕ
  pub sender_id : ℕ
  pub created_at : ℕ

pub record PrivateConversation : Type 0 where
  pub id : ℕ
  pub members_count : ℕ
  pub created_at : ℕ
  pub members : List FriendMember
  pub messages : List FriendMessage
  pub last_message : Option FriendMessage

-- The tables: friendships and private conversations by an ordered pair, blocks by the blocker and
-- the blocked, and the requests in the order in which a query meets them.
pub record Tables : Type 0 where
  pub friendships : ℕ → ℕ → Option Friendship
  pub conversations : ℕ → ℕ → Option PrivateConversation
  pub blocks : ℕ → ℕ → Option Block
  pub requests : Dict FriendRequest

pub data SocialError : Type 0 where
  self_request sender_not_found target_not_found user_blocked : SocialError
  already_friends request_exists request_not_found not_authorized : SocialError
  not_pending cannot_block_yourself blocked_user_not_found : SocialError
  already_blocked friend_not_found friendship_not_found : SocialError

pub status_code : SocialError → ℕ
status_code self_request = 400
status_code sender_not_found = 404
status_code target_not_found = 404
status_code user_blocked = 400
status_code already_friends = 400
status_code request_exists = 400
status_code request_not_found = 404
status_code not_authorized = 403
status_code not_pending = 400
status_code cannot_block_yourself = 400
status_code blocked_user_not_found = 404
status_code already_blocked = 400
status_code friend_not_found = 404
status_code friendship_not_found = 404

pub data Result (A : Type 0) : Type 0 where
  ok : A → Result A
  throw : SocialError → Result A

abbrev pub Action : Type 0 → Type 0
Action A = Tables → Result A × Tables

-- The guards of a method, each a test and what it throws, in the order of the code.
abbrev pub first_error : List (Bool × SocialError) → Option SocialError
first_error [] = none
first_error ((test, e) ∷ guards) = if test then some e else first_error guards

abbrev pub guarded : {A : Type 0} → Option SocialError → Action A → Action A
guarded none act s = act s
guarded (some e) act s = (throw e, s)
