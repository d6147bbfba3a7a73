-- ===== src/Call/Model.antt =====
-- src/modules/call/model: the data of the calls, and the state of the service of version 2.
-- A time is the number that Date.now() gives, which is never 0; an optional one is an Option.
use chat_be.Base.{ℕ, Bool, true, false, Option, none, some, List, Dict}

pub data CallType : Type 0 where
  audio video : CallType

pub data LivekitProvider : Type 0 where
  self_hosted cloud : LivekitProvider

pub data CallStatus : Type 0 where
  ringing answered rejected cancelled ended missed : CallStatus

pub data CallV2ParticipantStatus : Type 0 where
  invited ringing joined declined missed left busy : CallV2ParticipantStatus

pub data CallV2SessionStatus : Type 0 where
  ringing in_call ended missed rejected cancelled : CallV2SessionStatus

-- `endedBy` is the id of a user, or the word that the timeout writes.
pub data EndedBy : Type 0 where
  user : ℕ → EndedBy
  timeout : EndedBy

-- The text call-v1-, the conversation, a dash and the first eight characters of the call's id.
pub data RoomName : Type 0 where
  call_v1 : (conversation_id call_id : ℕ) → RoomName

pub record CallV2Participant : Type 0 where
  pub user_id : ℕ
  pub status : CallV2ParticipantStatus
  pub invited_at : Option ℕ
  pub joined_at : Option ℕ
  pub left_at : Option ℕ
  pub ended_at : Option ℕ

-- Of the timer only this is kept: whether `timeoutHandle` holds one.
pub record CallV2Session : Type 0 where
  pub call_id : ℕ
  pub caller_id : ℕ
  pub conversation_id : ℕ
  pub type : CallType
  pub is_group : Bool
  pub livekit_provider : LivekitProvider
  pub room_name : RoomName
  pub status : CallV2SessionStatus
  pub created_at : ℕ
  pub answered_at : Option ℕ
  pub ended_at : Option ℕ
  pub ended_by : Option EndedBy
  pub callee_ids : List ℕ
  pub participants : Dict CallV2Participant
  pub busy_user_ids : List ℕ
  pub logged_message_id : Option ℕ
  pub timeout_handle : Bool

pub record CreateCallV2Input : Type 0 where
  pub caller_id : ℕ
  pub conversation_id : ℕ
  pub type : CallType
  pub callee_ids : List ℕ
  pub is_group : Bool
  pub livekit_provider : Option LivekitProvider

pub record CreateCallV2Result : Type 0 where
  pub session : CallV2Session
  pub invited_user_ids : List ℕ
  pub busy_user_ids : List ℕ

-- The three maps of the service. A session object is reached through `activeCalls` alone, so a
-- write to its fields is a write to the entry of that map.
pub record CallV2Service : Type 0 where
  pub active_calls : Dict CallV2Session
  pub conversation_calls : Dict ℕ
  pub user_calls : Dict ℕ

-- What the service throws, each message with the status code of `status_code`.
pub data CallError : Type 0 where
  call_already_active user_is_busy not_a_participant call_has_ended call_not_found : CallError

pub status_code : CallError → ℕ
status_code call_already_active = 409
status_code user_is_busy = 409
status_code not_a_participant = 403
status_code call_has_ended = 400
status_code call_not_found = 404

pub data Result (A : Type 0) : Type 0 where
  ok : A → Result A
  throw : CallError → Result A

-- A method of the service: the state comes back after a throw too, as it then is.
abbrev pub Action : Type 0 → Type 0
Action A = CallV2Service → Result A × CallV2Service

abbrev pub pure : {A : Type 0} → A → Action A
pure a s = (ok a, s)

abbrev pub fail_if : Bool → CallError → Action (Unit {0})
fail_if true e s = (throw e, s)
fail_if false e s = (ok tt, s)

abbrev pub or_throw : {A : Type 0} → Option A → CallError → Action A
or_throw none e s = (throw e, s)
or_throw (some a) e s = (ok a, s)

abbrev pub modify : (CallV2Service → CallV2Service) → Action (Unit {0})
modify f s = (ok tt, f s)

abbrev pub resume :
    {A B : Type 0} → (A → Action B) → Result A × CallV2Service → Result B × CallV2Service
resume f (ok a, s) = f a s
resume f (throw e, s) = (throw e, s)

infixl 5 ◌>>=◌ ◌>>◌
abbrev pub ◌>>=◌ : {A B : Type 0} → Action A → (A → Action B) → Action B
◌>>=◌ m f s = resume f (m s)

abbrev pub ◌>>◌ : {A B : Type 0} → Action A → Action B → Action B
m >> k = m >>= λ _. k
