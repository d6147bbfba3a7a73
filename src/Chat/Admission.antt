-- ===== src/Chat/Admission.antt =====
-- src/modules/chat/usecase/chat-access-policy.ts: whom the policy lets into a group.
use chat_be.Base.{
  ℕ, ◌+◌, ◌≤◌, ◌≡◌, refl, ap, ◌∙◌, ◌≢◌, inl, inr, Bool, true, false, not, Option, none, some, List,
  [], ◌∷◌, arith, ◌==◌, eq_of_==, Bool-cases, Option-cases, length, filter, length-filter_le,
  includes, unique, ◌||◌, ltb,
}
use chat_be.Chat.Access.{
  valid, Directory, UserStatus, AccessError, for_each, assert_active_user,
  assert_not_blocked_between, or_else, fails_if, list_error, create_error, add_error, validated,
  validate_create_group_members, validate_add_group_members,
}
use chat_be.Chat.Poll.Voters.{is_distinct, unique-is_distinct}

-- `ids` may come into a group at the wish of `u`, and leave it with at most fifty members.
pub record IsAdmitted (dir : Directory) (u before : ℕ) (members ids : List ℕ) : Type 0 where
  pub same : ids ≡ members
  pub distinct : is_distinct ids ≡ true
  pub others : includes u ids ≡ false
  pub bounded : before + length ids ≤ 50
  pub active : (v : ℕ) → includes v ids ≡ true → dir.user v ≡ some UserStatus.active
  pub unblocked :
      (v : ℕ) → includes v ids ≡ true → (dir.blocks u v ≡ false) × (dir.blocks v u ≡ false)

length-filter_same :
    (p : ℕ → Bool) (xs : List ℕ) → length (filter p xs) ≡ length xs → filter p xs ≡ xs
length-filter_same p [] e = refl
length-filter_same p (x ∷ xs) e =
    let short = length-filter_le p xs in
    elim (Bool-cases (p x)) [
      | inl passes ↦
          let rest = length-filter_same p xs (ground arith) in rw passes (ap (λ ys. x ∷ ys) rest)
      | inr fails ↦ absurd (ground arith)
    ]

length-unique_le : (xs : List ℕ) → length (unique xs) ≤ length xs
length-unique_le [] = omega arith
length-unique_le (x ∷ xs) =
    let a = length-filter_le (λ y. not (y == x)) (unique xs) in
    let b = length-unique_le xs in omega arith

length-unique_same : (xs : List ℕ) → length (unique xs) ≡ length xs → unique xs ≡ xs
length-unique_same [] e = refl
length-unique_same (x ∷ xs) e =
    let a = length-filter_le (λ y. not (y == x)) (unique xs) in
    let b = length-unique_le xs in
    let rest = length-unique_same xs (omega arith) in
    let kept = length-filter_same (λ y. not (y == x)) (unique xs) (omega arith) in
    ap (λ ys. x ∷ ys) (kept ∙ rest)

for_each-passes :
    (check : ℕ → Option AccessError) (us : List ℕ) (v : ℕ)
    → for_each check us ≡ none
    → includes v us ≡ true
    → check v ≡ none
for_each-passes check [] v e m = absurd (ground arith)
for_each-passes check (u ∷ us) v e m = elim (Bool-cases (v == u)) [
  | inl same ↦ (let vu = eq_of_== v u same in rw vu (ground arith))
  | inr other ↦ for_each-passes check us v (ground arith) (ground arith)
]

active-user :
    (dir : Directory) (v : ℕ)
    → assert_active_user dir v ≡ none
    → dir.user v ≡ some UserStatus.active
unfolding assert_active_user
active-user dir v e = elim (Option-cases (dir.user v)) [
  | inl absent ↦ absurd (ground arith)
  | inr (UserStatus.active, found) ↦ found
  | inr (UserStatus.disabled, found) ↦ absurd (ground arith)
]

apart_of :
    (dir : Directory) (u v : ℕ)
    → u ≢ v
    → assert_not_blocked_between dir u v ≡ none
    → (dir.blocks u v ≡ false) × (dir.blocks v u ≡ false)
unfolding assert_not_blocked_between
apart_of dir u v ne e = (ground arith, ground arith)

or_else-passes : (a b : Option AccessError) → or_else a b ≡ none → (a ≡ none) × (b ≡ none)
or_else-passes none b e = (refl, e)
or_else-passes (some x) b e = absurd (ground arith)

fails_if-passes : (b : Bool) (e : AccessError) → fails_if b e ≡ none → b ≡ false
fails_if-passes true e h = absurd (ground arith)
fails_if-passes false e h = refl

validated-valid :
    (e : Option AccessError) (us ids : List ℕ)
    → validated e us ≡ valid ids
    → (e ≡ none) × (ids ≡ us)
validated-valid none us ids h = (refl, ground arith)
validated-valid (some e) us ids h = absurd (ground arith)

list_error-passes :
    (u : ℕ) (members : List ℕ)
    → list_error u members ≡ none
    → (unique members ≡ members) × (includes u (unique members) ≡ false)
list_error-passes u members e =
    let (a, b) =
      or_else-passes
        (fails_if (not (length (unique members) == length members)) AccessError.duplicate_members)
        (fails_if (includes u (unique members)) AccessError.self_included) e in
    let same = fails_if-passes (not (length (unique members) == length members)) _ a in
    (
      length-unique_same members
          (eq_of_== (length (unique members)) (length members) (ground arith)),
      fails_if-passes (includes u (unique members)) _ b,
    )

admitted :
    (dir : Directory) (u before : ℕ) (members : List ℕ)
    → list_error u members ≡ none
    → before + length members ≤ 50
    → ((v : ℕ) → includes v (unique members) ≡ true → assert_active_user dir v ≡ none)
    → ((v : ℕ) → includes v (unique members) ≡ true → assert_not_blocked_between dir u v ≡ none)
    → IsAdmitted dir u before members (unique members)
admitted dir u before members passes few active free =
    let (same, others) = list_error-passes u members passes in
    record {
      same = same;
      distinct = unique-is_distinct members;
      others = others;
      bounded = rw same few;
      active = λ v m. active-user dir v (active v m);
      unblocked = λ v m.
          apart_of dir u v (λ e. (let mine = rw e at others in absurd (ground arith))) (free v m);
    }

-- A group that `validateCreateGroupMembers` lets `u` create has, with him, three to fifty different
-- members, as they were asked for; all are active, and nobody of them blocks him or is blocked by him.
pub validate_create-IsAdmitted :
    (dir : Directory) (u : ℕ) (members ids : List ℕ)
    → validate_create_group_members dir u members ≡ valid ids
    → IsAdmitted dir u 1 members ids × (3 ≤ 1 + length ids) × (dir.user u ≡ some UserStatus.active)
unfolding validate_create_group_members create_error
validate_create-IsAdmitted dir u members ids h =
    let (passes, same) = validated-valid _ (unique members) ids h in
    let (a, e1) = or_else-passes (fails_if (ltb (length members) 2) _) _ passes in
    let (b, e2) = or_else-passes (fails_if (ltb 49 (length members)) _) _ e1 in
    let (c, e3) = or_else-passes (list_error u members) _ e2 in
    let (d, e4) = or_else-passes (assert_active_user dir u) _ e3 in
    let (f, g) = or_else-passes (for_each (assert_active_user dir) (unique members)) _ e4 in
    let many = fails_if-passes (ltb (length members) 2) _ a in
    let few = fails_if-passes (ltb 49 (length members)) _ b in
    let (unchanged, _) = list_error-passes u members c in
    (
      rw same (
          admitted dir u 1 members c (ground arith)
            (λ v m. for_each-passes (assert_active_user dir) (unique members) v f m)
            (λ v m. for_each-passes (assert_not_blocked_between dir u) (unique members) v g m)),
      rw (same, unchanged) (ground arith),
      active-user dir u d,
    )

-- Those whom `validateAddGroupMembers` lets `u` add to a group of `n` members are at least one and
-- different, as they were asked for, and the group then has fifty members at most; all are active,
-- and nobody of them blocks him or is blocked by him.
pub validate_add-IsAdmitted :
    (dir : Directory) (u n : ℕ) (members ids : List ℕ)
    → validate_add_group_members dir u members n ≡ valid ids
    → IsAdmitted dir u n members ids × (1 ≤ length ids)
unfolding validate_add_group_members add_error
validate_add-IsAdmitted dir u n members ids h =
    let (passes, same) = validated-valid _ (unique members) ids h in
    let (a, e1) = or_else-passes (fails_if (ltb (length members) 1) _) _ passes in
    let (b, e2) =
      or_else-passes (fails_if (ltb 49 (length members) || ltb 50 (n + length members)) _) _ e1 in
    let (c, e3) = or_else-passes (list_error u members) _ e2 in
    let many = fails_if-passes (ltb (length members) 1) _ a in
    let few = fails_if-passes (ltb 49 (length members) || ltb 50 (n + length members)) _ b in
    let (unchanged, _) = list_error-passes u members c in
    let each = λ (v : ℕ) (m : includes v (unique members) ≡ true).
      or_else-passes (assert_active_user dir v) (assert_not_blocked_between dir u v) (
        for_each-passes
          (λ w. or_else (assert_active_user dir w) (assert_not_blocked_between dir u w))
          (unique members) v e3 m) in
    (
      rw same
          (admitted dir u n members c (ground arith) (λ v m. (each v m).0) (λ v m. (each v m).1)),
      rw (same, unchanged) (ground arith),
    )
