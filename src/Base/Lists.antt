-- ===== src/Base/Lists.antt =====
-- Array methods of JavaScript on lists, with tests into Bool.
use Prim.Native.Nat.{ℕ, suc, ◌≤◌}
use mathlib.Core.Path.{◌≡◌, refl}
use mathlib.Core.Logic.{inl, inr}
use mathlib.Core.Bool.{Bool, true, false, not, ◌&&◌, ◌||◌}
use mathlib.Core.List.{List, [], ◌∷◌, ◌++◌}
use native.Mathlib.Omega.{arith}
use chat_be.Base.Tests.{if◌then◌else◌, ◌==◌, Bool-cases, eq_of_==}

module _ {ℓ} {A : Type ℓ} where
  abbrev pub length : List A → ℕ
  length [] = 0
  length (x ∷ xs) = suc (length xs)

  -- `some` of an array
  abbrev pub any : (A → Bool) → List A → Bool
  any p [] = false
  any p (x ∷ xs) = p x || any p xs

  -- `every` of an array
  abbrev pub all : (A → Bool) → List A → Bool
  all p [] = true
  all p (x ∷ xs) = p x && all p xs

  abbrev pub filter : (A → Bool) → List A → List A
  filter p [] = []
  filter p (x ∷ xs) = if p x then x ∷ filter p xs else filter p xs

  pub length-filter_le : (p : A → Bool) (xs : List A) → length (filter p xs) ≤ length xs
  length-filter_le p [] = omega arith
  length-filter_le p (x ∷ xs) = ground (arith, length-filter_le p xs)

-- `includes` of an array of ids
abbrev pub includes : ℕ → List ℕ → Bool
includes a [] = false
includes a (x ∷ xs) = a == x || includes a xs

pub includes-filter :
    (p : ℕ → Bool) (a : ℕ) (xs : List ℕ) → includes a (filter p xs) ≡ (includes a xs && p a)
includes-filter p a [] = refl
includes-filter p a (x ∷ xs) = ground (arith, includes-filter p a xs)

pub includes-append :
    (a : ℕ) (xs ys : List ℕ) → includes a (xs ++ ys) ≡ (includes a xs || includes a ys)
includes-append a [] ys = refl
includes-append a (x ∷ xs) ys = ground (arith, includes-append a xs ys)

-- `Array.from(new Set(ids))`
abbrev pub unique : List ℕ → List ℕ
unique [] = []
unique (x ∷ xs) = x ∷ filter (λ y. not (y == x)) (unique xs)

pub includes-unique : (a : ℕ) (xs : List ℕ) → includes a (unique xs) ≡ includes a xs
includes-unique a [] = refl
includes-unique a (x ∷ xs) =
    let e = includes-filter (λ y. not (y == x)) a (unique xs) in
    let rest = includes-unique a xs in ground arith

-- Who is in a list that all pass, passes.
pub includes-all :
    (p : ℕ → Bool) (a : ℕ) (xs : List ℕ) → all p xs ≡ true → includes a xs ≡ true → p a ≡ true
includes-all p a (x ∷ xs) h m = elim (Bool-cases (a == x)) [
  | inl same ↦ (let e = eq_of_== a x same in rw e (ground arith))
  | inr other ↦ includes-all p a xs (ground arith) (ground arith)
]
includes-all p a [] h m = absurd (ground arith)
