-- ===== src/Base/Maps.antt =====
-- A JavaScript Map, or an object used as one, as the list of its entries in insertion order.
use Prim.Native.Nat.{ℕ}
use mathlib.Core.Path.{◌≡◌, refl, sym}
use mathlib.Core.Logic.{◌⊎◌, ◌≢◌, inl, inr}
use mathlib.Core.Bool.{Bool, true}
use mathlib.Core.Option.{Option, none, some}
use mathlib.Core.List.{List, [], ◌∷◌}
use native.Mathlib.Omega.{arith}
use chat_be.Base.Tests.{if◌then◌else◌, ◌==◌, is_some, Bool-cases, Option-cases, eq_of_==, ne_of_==}
use chat_be.Base.Lists.{includes, any}

abbrev pub Dict {ℓ} : Type ℓ → Type ℓ
Dict V = List (ℕ × V)

module _ {ℓ} {V : Type ℓ} where
  -- `map.get(k)`
  abbrev pub lookup : ℕ → Dict V → Option V
  lookup k [] = none
  lookup k ((j, v) ∷ d) = if k == j then some v else lookup k d

  -- `map.set(k, v)`: a known key keeps its place
  abbrev pub insert : ℕ → V → Dict V → Dict V
  insert k v [] = (k, v) ∷ []
  insert k v ((j, w) ∷ d) = if k == j then (j, v) ∷ d else (j, w) ∷ insert k v d

  -- `map.delete(k)`
  abbrev pub delete : ℕ → Dict V → Dict V
  delete k [] = []
  delete k ((j, w) ∷ d) = if k == j then delete k d else (j, w) ∷ delete k d

  abbrev pub keys : Dict V → List ℕ
  keys [] = []
  keys ((j, w) ∷ d) = j ∷ keys d

  -- `Object.values`
  abbrev pub values : Dict V → List V
  values [] = []
  values ((j, w) ∷ d) = w ∷ values d

  abbrev pub map_values : (V → V) → Dict V → Dict V
  map_values f [] = []
  map_values f ((j, w) ∷ d) = (j, f w) ∷ map_values f d

  pub lookup-insert :
      (j k : ℕ) (v : V) (d : Dict V)
      → lookup j (insert k v d) ≡ (if j == k then some v else lookup j d)
  lookup-insert j k v [] = refl
  lookup-insert j k v ((i, w) ∷ d) = ground (arith, lookup-insert j k v d)

  pub lookup-delete :
      (j k : ℕ) (d : Dict V) → lookup j (delete k d) ≡ (if j == k then none else lookup j d)
  lookup-delete j k [] = ground arith
  lookup-delete j k ((i, w) ∷ d) = ground (arith, lookup-delete j k d)

  pub includes-keys : (k : ℕ) (d : Dict V) → includes k (keys d) ≡ is_some (lookup k d)
  includes-keys k [] = refl
  includes-keys k ((i, w) ∷ d) = ground (arith, includes-keys k d)

  pub lookup-map_values :
      (f : V → V) (k : ℕ) (d : Dict V)
      → lookup k (map_values f d) ≡ elim (lookup k d) [ none ↦ none | some v ↦ some (f v) ]
  lookup-map_values f k [] = refl
  lookup-map_values f k ((i, w) ∷ d) = ground (arith, lookup-map_values f k d)

  pub keys-map_values : (f : V → V) (d : Dict V) → keys (map_values f d) ≡ keys d
  keys-map_values f [] = refl
  keys-map_values f ((i, w) ∷ d) = cc (keys-map_values f d)

  -- What one value passes, some value passes.
  pub any_of_lookup :
      (p : V → Bool) (k : ℕ) (v : V) (d : Dict V)
      → lookup k d ≡ some v
      → p v ≡ true
      → any p (values d) ≡ true
  any_of_lookup p k v [] e h = cc
  any_of_lookup p k v ((i, w) ∷ d) e h = ground (arith, any_of_lookup p k v d)

  -- A value of the changed map is the new one or an old one.
  pub any-insert :
      (p : V → Bool) (k : ℕ) (v : V) (d : Dict V)
      → any p (values (insert k v d)) ≡ true
      → (p v ≡ true) ⊎ (any p (values d) ≡ true)
  any-insert p k v [] h = ground arith
  any-insert p k v ((i, w) ∷ d) h = ground (arith, any-insert p k v d)

  pub any-map_values :
      (p : V → Bool) (f : V → V) (d : Dict V)
      → ((v : V) → p (f v) ≡ p v)
      → any p (values (map_values f d)) ≡ any p (values d)
  any-map_values p f [] h = refl
  any-map_values p f ((i, w) ∷ d) h = ground (arith, any-map_values p f d h, h w)

  -- An entry of the changed map is the new one, or an old one under another key.
  pub lookup-insert_cases :
      (j k : ℕ) (v w : V) (d : Dict V)
      → lookup j (insert k v d) ≡ some w
      → ((j ≡ k) × (v ≡ w)) ⊎ ((j ≢ k) × (lookup j d ≡ some w))
  lookup-insert_cases j k v w d e = elim (Bool-cases (j == k)) [
    | inl same ↦ inl (eq_of_== j k same, ground (arith, lookup-insert j k v d))
    | inr other ↦ inr (ne_of_== j k other, ground (arith, lookup-insert j k v d))
  ]

  pub lookup-insert_self : (k : ℕ) (v : V) (d : Dict V) → lookup k (insert k v d) ≡ some v
  lookup-insert_self k v d = ground (arith, lookup-insert k k v d)

  pub lookup-insert_ne :
      (j k : ℕ) (v : V) (d : Dict V) → j ≢ k → lookup j (insert k v d) ≡ lookup j d
  lookup-insert_ne j k v d h = ground (arith, lookup-insert j k v d)

  pub lookup-delete_cases :
      (j k : ℕ) (w : V) (d : Dict V)
      → lookup j (delete k d) ≡ some w
      → (j ≢ k) × (lookup j d ≡ some w)
  lookup-delete_cases j k w d e = ground (arith, lookup-delete j k d)

-- An update of the entry of a key, if there is one.
abbrev pub adjust_found {ℓ} : {V : Type ℓ} → ℕ → (V → V) → Option V → Dict V → Dict V
adjust_found k f none d = d
adjust_found k f (some v) d = insert k (f v) d

module _ {ℓ} {V : Type ℓ} where
  abbrev pub adjust : ℕ → (V → V) → Dict V → Dict V
  adjust k f d = adjust_found k f (lookup k d) d

  pub lookup-adjust_self :
      (k : ℕ) (f : V → V) (v : V) (d : Dict V)
      → lookup k d ≡ some v
      → lookup k (adjust k f d) ≡ some (f v)
  lookup-adjust_self k f v d e = rw e (lookup-insert_self k (f v) d)

  pub lookup-adjust_ne :
      (j k : ℕ) (f : V → V) (d : Dict V) → j ≢ k → lookup j (adjust k f d) ≡ lookup j d
  lookup-adjust_ne j k f d ne = elim (Option-cases (lookup k d)) [
    | inl absent ↦ rw absent refl
    | inr (v, found) ↦ rw found (lookup-insert_ne j k (f v) d ne)
  ]

  -- An entry after an update is the updated one, or an old one under another key.
  pub lookup-adjust_cases :
      (j k : ℕ) (f : V → V) (w : V) (d : Dict V)
      → lookup j (adjust k f d) ≡ some w
      → ((j ≡ k) × (v : V) × (lookup k d ≡ some v) × (f v ≡ w)) ⊎ ((j ≢ k) × (lookup j d ≡ some w))
  lookup-adjust_cases j k f w d e = elim (Bool-cases (j == k)) [
    | inr other ↦
        let ne = ne_of_== j k other in inr (ne, ground (arith, lookup-adjust_ne j k f d ne))
    | inl same ↦ elim (Option-cases (lookup k d)) [
      | inl absent ↦
          let jk = eq_of_== j k same in
          let stays : lookup j (adjust k f d) ≡ lookup k d = rw (jk, absent) absent in
          absurd (ground arith)
      | inr (v, found) ↦
          let jk = eq_of_== j k same in
          let new = lookup-adjust_self k f v d found in
          inl (jk, v, found, ground (arith, rw (sym jk) at new))
    ]
  ]

  pub lookup-map_values_cases :
      (k : ℕ) (f : V → V) (w : V) (d : Dict V)
      → lookup k (map_values f d) ≡ some w
      → (v : V) × (lookup k d ≡ some v) × (f v ≡ w)
  lookup-map_values_cases k f w d e = elim (Option-cases (lookup k d)) [
    | inl absent ↦ absurd (ground (arith, lookup-map_values f k d))
    | inr (v, found) ↦ (v, found, ground (arith, lookup-map_values f k d))
  ]
