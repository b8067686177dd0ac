-- ===== src/Environment/Machines.antt =====
-- The machines of an environment by their identifiers, and counts of lists that were sorted.
use vm_orbit.Base.{
  ℕ, ◌+◌, ◌≤◌, ◌≡◌, refl, sym, ap, ◌∙◌, inl, inr, Bool, true, false, not, ◌&&◌, ◌||◌, Option, some,
  List, [], ◌∷◌, arith, ltb, if◌then◌else◌, nat_beq_iff, Bool-cases, is_some, or_else, ◌==◌, nat_eq,
  string_eq, beq_refl, count_if, keep_if,
}
use vm_orbit.Base.{member, Distinct}
use vm_orbit.Environment.{EnvironmentVm, vm_map, vm_at, set, zero_vm}
use vm_orbit.Environment.Lists.{occurrences}
use vm_orbit.Environment.Loop.{ids}

pub occurrences-member : (v : ℕ) (xs : List ℕ) → member v xs ≡ ltb 0 (occurrences v xs)
unfolding member
occurrences-member v [] = refl
occurrences-member v (x ∷ xs) = ground (arith, occurrences-member v xs)

pub occurrences-Distinct : (xs : List ℕ) → Distinct xs → (v : ℕ) → occurrences v xs ≤ 1
occurrences-Distinct [] d v = omega arith
occurrences-Distinct (x ∷ xs) d v = elim (Bool-cases (x == v)) [
  | inl same ↦ ground (
    arith,
    occurrences-Distinct xs d.1 v,
    occurrences-member v xs,
    ap (λ y. member y xs) ((nat_beq_iff x v).0 same),
  )
  | inr other ↦ ground (arith, occurrences-Distinct xs d.1 v)
]

pub Distinct-occurrences : (xs : List ℕ) → ((v : ℕ) → occurrences v xs ≤ 1) → Distinct xs
Distinct-occurrences [] h = tt
Distinct-occurrences (x ∷ xs) h = ground (
  arith,
  Distinct-occurrences xs (λ v. ground (arith, h v)),
  h x,
  occurrences-member x xs,
  beq_refl x,
)

pub occurrences-keep_if :
    (p : ℕ → Bool) (v : ℕ) (xs : List ℕ)
    → occurrences v (keep_if p xs) ≡ (if p v then occurrences v xs else 0)
occurrences-keep_if p v [] = ground arith
occurrences-keep_if p v (x ∷ xs) = elim (Bool-cases (x == v)) [
  | inl same ↦ ground (arith, occurrences-keep_if p v xs, ap p ((nat_beq_iff x v).0 same))
  | inr other ↦ ground (arith, occurrences-keep_if p v xs)
]

module _ {ℓ} {A : Type ℓ} where
  -- A test splits a count in two.
  pub count_if-split :
      (p q : A → Bool) (xs : List A)
      → count_if (λ x. p x && q x) xs + count_if p (keep_if (λ x. not (q x)) xs) ≡ count_if p xs
  count_if-split p q [] = omega arith
  count_if-split p q (x ∷ xs) = ground (arith, count_if-split p q xs)

vm_map_other :
    (evs : List EnvironmentVm) (m : ℕ → Option EnvironmentVm) (x : ℕ)
    → member x (ids evs) ≡ false
    → vm_map evs m x ≡ m x
unfolding vm_map member
vm_map_other [] m x h = refl
vm_map_other (ev ∷ evs) m x h = ground (arith, vm_map_other evs (set ev.vm_id (some ev) m) x)

pub vm_map-known :
    (evs : List EnvironmentVm) (m : ℕ → Option EnvironmentVm) (x : ℕ)
    → is_some (vm_map evs m x) ≡ (member x (ids evs) || is_some (m x))
unfolding vm_map member
vm_map-known [] m x = refl
vm_map-known (ev ∷ evs) m x = ground (arith, vm_map-known evs (set ev.vm_id (some ev) m) x)

pub vm_map-vm_id :
    (evs : List EnvironmentVm) (m : ℕ → Option EnvironmentVm) (x : ℕ)
    → member x (ids evs) ≡ true
    → (vm_at (vm_map evs m) x).vm_id ≡ x
unfolding vm_map member
vm_map-vm_id [] m x h = ground arith
vm_map-vm_id (ev ∷ evs) m x h = elim (Bool-cases (member x (ids evs))) [
  | inl later ↦ vm_map-vm_id evs (set ev.vm_id (some ev) m) x later
  | inr here ↦ elim (Bool-cases (ev.vm_id == x)) [
    | inl same ↦ ground (
      arith,
      ap (λ o. (or_else o zero_vm).vm_id) (vm_map_other evs (set ev.vm_id (some ev) m) x here),
      (nat_beq_iff ev.vm_id x).0 same,
    )
    | inr other ↦ absurd (ground arith)
  ]
]

-- Among machines with distinct identifiers, one that is looked up is counted once.
pub count_if-vm_at :
    (evs : List EnvironmentVm) (m : ℕ → Option EnvironmentVm) (p : EnvironmentVm → Bool) (x : ℕ)
    → Distinct (ids evs)
    → count_if (λ ev. p ev && (ev.vm_id == x)) evs
      ≡ (if member x (ids evs) then (if p (vm_at (vm_map evs m) x) then 1 else 0) else 0)
unfolding vm_map member
count_if-vm_at [] m p x d = refl
count_if-vm_at (ev ∷ evs) m p x d = elim (Bool-cases (ev.vm_id == x)) [
  | inl same ↦
      let absent = ap (λ y. member y (ids evs)) (sym ((nat_beq_iff ev.vm_id x).0 same)) ∙ d.0 in
      ground (
        arith,
        count_if-vm_at evs (set ev.vm_id (some ev) m) p x d.1,
        absent,
        ap (λ o. p (or_else o zero_vm)) (vm_map_other evs (set ev.vm_id (some ev) m) x absent),
      )
  | inr other ↦ ground (arith, count_if-vm_at evs (set ev.vm_id (some ev) m) p x d.1)
]
