-- ===== src/Chat/Access.antt =====
-- src/modules/chat/usecase/chat-access-policy.ts. `user` finds the status of a user, and `blocks a b`
-- says whether a block of `a` on `b` is found.
use chat_be.Base.{
  ℕ, ◌+◌, Bool, not, ◌||◌, Option, none, some, List, [], ◌∷◌, ltb, ◌==◌, if◌then◌else◌, length,
  includes, unique,
}

pub data UserStatus : Type 0 where
  active disabled : UserStatus

pub data AccessError : Type 0 where
  user_not_found user_is_disabled : ℕ → AccessError
  users_are_blocked too_few_members too_many_members duplicate_members : AccessError
  self_included not_active_member conversation_not_found not_group : AccessError

abbrev pub error_status : AccessError → ℕ
error_status (user_not_found u) = 404
error_status (user_is_disabled u) = 400
error_status users_are_blocked = 403
error_status too_few_members = 400
error_status too_many_members = 400
error_status duplicate_members = 400
error_status self_included = 400
error_status not_active_member = 403
error_status conversation_not_found = 404
error_status not_group = 400

-- What the repositories answer.
pub record Directory : Type 0 where
  pub user : ℕ → Option UserStatus
  pub blocks : ℕ → ℕ → Bool

-- The first error of two checks that follow each other, and of a loop of checks.
abbrev pub or_else : Option AccessError → Option AccessError → Option AccessError
or_else none next = next
or_else (some e) next = some e

abbrev pub fails_if : Bool → AccessError → Option AccessError
fails_if test e = if test then some e else none

abbrev pub for_each : (ℕ → Option AccessError) → List ℕ → Option AccessError
for_each check [] = none
for_each check (u ∷ us) = or_else (check u) (for_each check us)

abbrev pub user_error : ℕ → Option UserStatus → Option AccessError
user_error u none = some (user_not_found u)
user_error u (some UserStatus.active) = none
user_error u (some UserStatus.disabled) = some (user_is_disabled u)

unfoldable pub assert_active_user : Directory → ℕ → Option AccessError
assert_active_user dir u = user_error u (dir.user u)

unfoldable pub assert_not_blocked_between : Directory → ℕ → ℕ → Option AccessError
assert_not_blocked_between dir a b =
    if a == b then none else fails_if (dir.blocks a b || dir.blocks b a) users_are_blocked

unfoldable pub assert_can_start_private_conversation : Directory → ℕ → ℕ → Option AccessError
assert_can_start_private_conversation dir current target =
    or_else (assert_active_user dir current)
      (or_else (assert_active_user dir target) (assert_not_blocked_between dir current target))

-- The checks that end in `uniqueMemberIds`, which must not have the requester.
abbrev pub list_error : ℕ → List ℕ → Option AccessError
list_error requester members =
    or_else (fails_if (not (length (unique members) == length members)) duplicate_members)
      (fails_if (includes requester (unique members)) self_included)

unfoldable pub create_error : Directory → ℕ → List ℕ → Option AccessError
create_error dir creator members = or_else (fails_if (ltb (length members) 2) too_few_members) (
    or_else (fails_if (ltb 49 (length members)) too_many_members) (
      or_else (list_error creator members) (
        or_else (assert_active_user dir creator) (
          or_else (for_each (assert_active_user dir) (unique members))
            (for_each (assert_not_blocked_between dir creator) (unique members))))))

unfoldable pub add_error : Directory → ℕ → List ℕ → ℕ → Option AccessError
add_error dir requester members current_count =
    or_else (fails_if (ltb (length members) 1) too_few_members) (
      or_else
        (fails_if (ltb 49 (length members) || ltb 50 (current_count + length members))
          too_many_members)
        (or_else (list_error requester members) (
          for_each
            (λ u. or_else (assert_active_user dir u) (assert_not_blocked_between dir requester u))
            (unique members))))

pub data Validated : Type 0 where
  valid : List ℕ → Validated
  refused : AccessError → Validated

abbrev pub validated : Option AccessError → List ℕ → Validated
validated none ids = valid ids
validated (some e) ids = refused e

unfoldable pub validate_create_group_members : Directory → ℕ → List ℕ → Validated
validate_create_group_members dir creator members =
    validated (create_error dir creator members) (unique members)

unfoldable pub validate_add_group_members : Directory → ℕ → List ℕ → ℕ → Validated
validate_add_group_members dir requester members current_count =
    validated (add_error dir requester members current_count) (unique members)
