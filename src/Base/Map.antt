-- ===== src/Base/Map.antt =====
-- Finite maps: association lists with at most one entry that a lookup sees, for Go's `map`.
use mathlib.Core.Path.{◌≡◌, refl}
use mathlib.Core.Bool.{Bool}
use mathlib.Core.Option.{Option, none, some}
use mathlib.Core.List.{List, [], ◌∷◌}
use native.Mathlib.Omega.{arith}
use vm_orbit.Base.Tests.{if◌then◌else◌}
use vm_orbit.Base.Equality.{Eq, ◌==◌}

abbrev pub Map {ℓ κ} : Type ℓ → Type κ → Type (ℓ ⊔ κ)
Map K V = List (K × V)

abbrev pub keep_option {κ} : {V : Type κ} → (V → Bool) → Option V → Option V
keep_option p none = none
keep_option p (some v) = if p v then some v else none

module _ {ℓ κ} {K : Type ℓ} {V : Type κ} ⦃e : Eq K⦄ where
  -- m[k]
  unfoldable pub lookup : K → Map K V → Option V
  lookup wanted [] = none
  lookup wanted ((key, value) ∷ m) = if key == wanted then some value else lookup wanted m

  -- m[k] = v
  unfoldable pub insert : K → V → Map K V → Map K V
  insert key value [] = (key, value) ∷ []
  insert key value (entry ∷ m) =
      let rest = insert key value m in if entry.0 == key then (key, value) ∷ m else entry ∷ rest

  -- delete(m, k)
  unfoldable pub remove : K → Map K V → Map K V
  remove k [] = []
  remove k ((j, w) ∷ m) = let rest = remove k m in if j == k then rest else (j, w) ∷ rest

  pub lookup-insert :
      (k j : K) (v : V) (m : Map K V)
      → lookup j (insert k v m) ≡ (if k == j then some v else lookup j m)
  unfolding lookup insert
  lookup-insert k j v [] = refl
  lookup-insert k j v (entry ∷ m) =
      ground
        (arith, lookup-insert k j v m, e.same_iff entry.0 j, e.same_iff entry.0 k, e.same_iff k j)

  pub lookup-remove :
      (k j : K) (m : Map K V) → lookup j (remove k m) ≡ (if k == j then none else lookup j m)
  unfolding lookup remove
  lookup-remove k j [] = ground arith
  lookup-remove k j ((i, w) ∷ m) =
      ground (arith, e.same_iff k j, e.same_iff i k, e.same_iff i j, lookup-remove k j m)

  -- No key stands twice, as in a Go map.
  abbrev pub Unique : Map K V → Type κ
  Unique [] = Unit
  Unique ((k, v) ∷ m) = (lookup k m ≡ none) × Unique m

  pub insert-Unique : (k : K) (v : V) (m : Map K V) → Unique m → Unique (insert k v m)
  unfolding insert lookup
  insert-Unique k v [] u = (refl, tt)
  insert-Unique k v ((j, w) ∷ m) u =
      ground (arith, e.same_iff j k, e.same_iff k j, insert-Unique k v m u.1, lookup-insert k j v m)

  pub remove-Unique : (k : K) (m : Map K V) → Unique m → Unique (remove k m)
  unfolding remove lookup
  remove-Unique k [] u = tt
  remove-Unique k ((j, w) ∷ m) u = ground (arith, remove-Unique k m u.1, lookup-remove k j m)

  -- The entries that pass a test: a loop that deletes the others.
  unfoldable pub keep : (V → Bool) → Map K V → Map K V
  keep p [] = []
  keep p ((j, w) ∷ m) = let rest = keep p m in if p w then (j, w) ∷ rest else rest

  pub lookup-keep-none :
      (p : V → Bool) (k : K) (m : Map K V) → lookup k m ≡ none → lookup k (keep p m) ≡ none
  unfolding keep lookup
  lookup-keep-none p k [] h = refl
  lookup-keep-none p k ((j, w) ∷ m) h = ground (arith, lookup-keep-none p k m)

  pub lookup-keep :
      (p : V → Bool) (k : K) (m : Map K V)
      → Unique m
      → lookup k (keep p m) ≡ keep_option p (lookup k m)
  unfolding keep lookup
  lookup-keep p k [] u = refl
  lookup-keep p k ((j, w) ∷ m) u =
      ground (arith, e.same_iff j k, lookup-keep p k m u.1, lookup-keep-none p k m)

  pub keep-Unique : (p : V → Bool) (m : Map K V) → Unique m → Unique (keep p m)
  unfolding keep
  keep-Unique p [] u = tt
  keep-Unique p ((j, w) ∷ m) u = ground (arith, keep-Unique p m u.1, lookup-keep-none p j m u.0)
