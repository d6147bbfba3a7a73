-- ===== src/Call/Invitees.antt =====
-- src/modules/call/infras/transport/http/call-v2.controller.ts: whom a call invites. `members` are
-- the ids of the active members of the conversation, `chosen` the ids that the caller names, if any.
use chat_be.Base.{
  ℕ, ◌≡◌, inl, inr, Bool, true, false, not, Option, none, some, List, [], ◌∷◌, arith, ltb, ◌==◌,
  if◌then◌else◌, Bool-cases, length, filter, includes, includes-filter, unique, refl,
}

pub data InviteError : Type 0 where
  needs_one_callee : InviteError
  not_members : List ℕ → InviteError

pub data Invitees : Type 0 where
  invited : List ℕ → Invitees
  refused : InviteError → Invitees

abbrev pub others : ℕ → List ℕ → List ℕ
others caller_id ids = filter (λ u. not (u == caller_id)) ids

unfoldable pub resolve_private_invitees : ℕ → List ℕ → Invitees
resolve_private_invitees caller_id members =
    let callee_ids = others caller_id members in
    if not (length callee_ids == 1) then refused needs_one_callee else invited callee_ids

-- The part of `resolveGroupInvitees` for named invitees.
unfoldable pub resolve_named_invitees : ℕ → List ℕ → List ℕ → Invitees
resolve_named_invitees caller_id members chosen =
    let unique_invitees = others caller_id (unique chosen) in
    let invalid = filter (λ u. not (includes u members)) unique_invitees in
    if ltb 0 (length invalid) then refused (not_members invalid) else invited unique_invitees

unfoldable pub resolve_group_invitees : ℕ → List ℕ → Option (List ℕ) → Bool → Invitees
resolve_group_invitees caller_id members none invite_all = invited (others caller_id members)
resolve_group_invitees caller_id members (some []) invite_all = invited (others caller_id members)
resolve_group_invitees caller_id members (some (u ∷ us)) invite_all =
    if invite_all
    then invited (others caller_id members)
    else resolve_named_invitees caller_id members (u ∷ us)

-- The invited are members of the conversation, and the caller is not among them.
pub IsFit : ℕ → List ℕ → Invitees → Type 0
IsFit caller_id members (refused e) = Unit {0}
IsFit caller_id members (invited ids) =
    (includes caller_id ids ≡ false) × ((u : ℕ) → includes u ids ≡ true → includes u members ≡ true)

others-IsFit :
    (caller_id : ℕ) (members : List ℕ)
    → IsFit caller_id members (invited (others caller_id members))
unfolding IsFit
others-IsFit c ms = (
  (let e = includes-filter (λ u. not (u == c)) c ms in ground arith),
  λ u m. (let e = includes-filter (λ v. not (v == c)) u ms in ground arith),
)

includes-length : (u : ℕ) (xs : List ℕ) → ltb 0 (length xs) ≡ false → includes u xs ≡ false
includes-length u [] h = refl
includes-length u (x ∷ xs) h = absurd (ground arith)

-- An empty filter leaves nobody who passes it.
includes-rest :
    (p : ℕ → Bool) (u : ℕ) (xs : List ℕ)
    → ltb 0 (length (filter p xs)) ≡ false
    → includes u xs ≡ true
    → p u ≡ false
includes-rest p u xs none_passes m =
    let e = includes-filter p u xs in
    elim (Bool-cases (p u)) [
      | inl passes ↦
          absurd (let none_there = includes-length u (filter p xs) none_passes in ground arith)
      | inr fails ↦ fails
    ]

named-IsFit :
    (caller_id : ℕ) (members chosen : List ℕ)
    → IsFit caller_id members (resolve_named_invitees caller_id members chosen)
unfolding IsFit resolve_named_invitees
named-IsFit c ms chosen =
    let ids = others c (unique chosen) in
    let invalid = filter (λ u. not (includes u ms)) ids in
    elim (Bool-cases (ltb 0 (length invalid))) [
      | inl some_invalid ↦ rw some_invalid tt
      | inr fine ↦ rw fine (
        (let e = includes-filter (λ u. not (u == c)) c (unique chosen) in ground arith),
        λ u m. (let e = includes-rest (λ v. not (includes v ms)) u ids fine m in ground arith),
      )
    ]

group-IsFit :
    (caller_id : ℕ) (members : List ℕ) (chosen : Option (List ℕ)) (invite_all : Bool)
    → IsFit caller_id members (resolve_group_invitees caller_id members chosen invite_all)
unfolding resolve_group_invitees
group-IsFit c ms none invite_all = others-IsFit c ms
group-IsFit c ms (some []) invite_all = others-IsFit c ms
group-IsFit c ms (some (u ∷ us)) true = others-IsFit c ms
group-IsFit c ms (some (u ∷ us)) false = named-IsFit c ms (u ∷ us)

private-IsFit :
    (caller_id : ℕ) (members : List ℕ)
    → IsFit caller_id members (resolve_private_invitees caller_id members)
unfolding IsFit resolve_private_invitees
private-IsFit c ms = elim (Bool-cases (length (others c ms) == 1)) [
  | inl one ↦ rw one (unfold IsFit in others-IsFit c ms)
  | inr more ↦ rw more tt
]

private-one :
    (caller_id : ℕ) (members ids : List ℕ)
    → resolve_private_invitees caller_id members ≡ invited ids
    → length ids ≡ 1
unfolding resolve_private_invitees
private-one c ms ids e = ground arith

-- Whatever the caller asks for, in a private call and in a group the invited are members of the
-- conversation, and the caller is not among them; in a private call there is exactly one.
pub invitees-IsFit :
    (caller_id : ℕ) (members : List ℕ) (chosen : Option (List ℕ)) (invite_all : Bool)
    → IsFit caller_id members (resolve_private_invitees caller_id members)
      × IsFit caller_id members (resolve_group_invitees caller_id members chosen invite_all)
      × ((ids : List ℕ) → resolve_private_invitees caller_id members ≡ invited ids → length ids ≡ 1)
invitees-IsFit c ms chosen invite_all =
    (private-IsFit c ms, group-IsFit c ms chosen invite_all, private-one c ms)
