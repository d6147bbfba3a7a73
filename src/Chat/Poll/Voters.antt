-- ===== src/Chat/Poll/Voters.antt =====
-- The voters of an option, before and after a vote.
use chat_be.Base.{
  ℕ, ◌≡◌, refl, ap, inl, inr, Bool, true, false, not, ◌&&◌, List, [], ◌∷◌, ◌++◌, arith, ◌==◌,
  if◌then◌else◌, Bool-cases, filter, includes, includes-filter, includes-append, unique,
}
use chat_be.Chat.Poll.Ballot.{without, next_voters}

-- No id stands twice in the list.
abbrev pub is_distinct : List ℕ → Bool
is_distinct [] = true
is_distinct (x ∷ xs) = not (includes x xs) && is_distinct xs

pub filter-is_distinct :
    (p : ℕ → Bool) (xs : List ℕ) → is_distinct xs ≡ true → is_distinct (filter p xs) ≡ true
filter-is_distinct p [] h = h
filter-is_distinct p (x ∷ xs) h =
    let e = includes-filter p x xs in
    let rest = filter-is_distinct p xs (ground arith) in ground arith

pub unique-is_distinct : (xs : List ℕ) → is_distinct (unique xs) ≡ true
unique-is_distinct [] = refl
unique-is_distinct (x ∷ xs) =
    let e = includes-filter (λ y. not (y == x)) x (unique xs) in
    let rest = filter-is_distinct (λ y. not (y == x)) (unique xs) (unique-is_distinct xs) in
    ground arith

filter_all : (x : ℕ) (xs : List ℕ) → includes x xs ≡ false → filter (λ y. not (y == x)) xs ≡ xs
filter_all x [] h = refl
filter_all x (y ∷ ys) h = let rest = filter_all x ys (ground arith) in ground arith

-- A list without doubles stays as it is.
pub unique_id : (xs : List ℕ) → is_distinct xs ≡ true → unique xs ≡ xs
unique_id [] h = refl
unique_id (x ∷ xs) h =
    let rest = unique_id xs (ground arith) in
    rw rest (ap (λ ys. x ∷ ys) (filter_all x xs (ground arith)))

append-is_distinct :
    (u : ℕ) (xs : List ℕ)
    → is_distinct xs ≡ true
    → includes u xs ≡ false
    → is_distinct (xs ++ u ∷ []) ≡ true
append-is_distinct u [] h new = refl
append-is_distinct u (x ∷ xs) h new =
    let e = includes-append x xs (u ∷ []) in
    let rest = append-is_distinct u xs (ground arith) (ground arith) in ground arith

-- After a vote the user is among the voters of an option exactly if he chose it; others stay.
pub includes-next_voters :
    (multiple will : Bool) (u w : ℕ) (voted : List ℕ)
    → includes w (next_voters multiple will (includes u voted) u voted)
      ≡ (if w == u then will else includes w voted)
unfolding next_voters
includes-next_voters multiple will u w voted =
    let e = includes-append w voted (u ∷ []) in
    let f = includes-filter (λ v. not (v == u)) w voted in
    let g = includes-append w (without u voted) (u ∷ []) in ground arith

pub next_voters-is_distinct :
    (multiple will : Bool) (u : ℕ) (voted : List ℕ)
    → is_distinct voted ≡ true
    → is_distinct (next_voters multiple will (includes u voted) u voted) ≡ true
unfolding next_voters
next_voters-is_distinct multiple will u voted h =
    let f = filter-is_distinct (λ v. not (v == u)) voted h in
    let e = includes-filter (λ v. not (v == u)) u voted in
    let g = append-is_distinct u (without u voted) f (ground arith) in
    elim (Bool-cases (includes u voted)) [
      | inl was ↦ ground arith
      | inr new ↦ let k = append-is_distinct u voted h new in ground arith
    ]
