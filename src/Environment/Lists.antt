-- ===== src/Environment/Lists.antt =====
-- Lists of distinct identifiers: appending, and how many fit into another list.
use vm_orbit.Base.{
  ℕ, ◌≤◌, ◌<◌, ◌≡◌, refl, true, false, ◌||◌, List, [], ◌∷◌, ◌++◌, arith, nat_beq_iff, ◌==◌, nat_eq,
  string_eq, beq_refl, length, count_if,
}
use vm_orbit.Base.{member, delete, Distinct, member-delete}

abbrev pub occurrences : ℕ → List ℕ → ℕ
occurrences v xs = count_if (λ x. x == v) xs

pub member-append : (a : ℕ) (xs ys : List ℕ) → member a (xs ++ ys) ≡ (member a xs || member a ys)
unfolding member
member-append a [] ys = refl
member-append a (x ∷ xs) ys = ground (arith, member-append a xs ys)

pub member-last : (a b : ℕ) (xs : List ℕ) → member a (xs ++ b ∷ []) ≡ (member a xs || (b == a))
unfolding member
member-last a b [] = ground arith
member-last a b (x ∷ xs) = ground (arith, member-last a b xs)

pub append-Distinct :
    (xs : List ℕ) (a : ℕ) → Distinct xs → member a xs ≡ false → Distinct (xs ++ a ∷ [])
unfolding member
append-Distinct [] a d h = (refl, tt)
append-Distinct (x ∷ xs) a d h =
    ground (arith, append-Distinct xs a d.1, member-last x a xs, nat_beq_iff a x, nat_beq_iff x a)

pub prefix-Distinct : (xs ys : List ℕ) → Distinct (xs ++ ys) → Distinct xs
prefix-Distinct [] ys d = tt
prefix-Distinct (x ∷ xs) ys d = ground (arith, member-append x xs ys, prefix-Distinct xs ys d.1)

-- An element between two lists is in neither the first, nor missing from the whole.
pub middle-Distinct :
    (xs : List ℕ) (a : ℕ) (ys : List ℕ)
    → Distinct (xs ++ a ∷ ys)
    → (member a xs ≡ false) × (member a (xs ++ a ∷ ys) ≡ true)
unfolding member
middle-Distinct [] a ys d = (refl, ground (arith, beq_refl a))
middle-Distinct (x ∷ xs) a ys d = ground (
  arith,
  middle-Distinct xs a ys d.1,
  member-append x xs (a ∷ ys),
  nat_beq_iff x a,
  nat_beq_iff a x,
)

length-delete : (a : ℕ) (xs : List ℕ) → member a xs ≡ true → length (delete a xs) < length xs
unfolding member delete
length-delete a [] h = ground arith
length-delete a (x ∷ xs) h = ground (arith, length-delete a xs, length-delete_le a xs)
  where
    length-delete_le : (a : ℕ) (xs : List ℕ) → length (delete a xs) ≤ length xs
    length-delete_le a [] = omega arith
    length-delete_le a (x ∷ xs) = ground (arith, length-delete_le a xs)

-- Distinct elements of a list are no more than it has.
pub length-Distinct :
    (xs ys : List ℕ)
    → Distinct xs
    → ((a : ℕ) → member a xs ≡ true → member a ys ≡ true)
    → length xs ≤ length ys
unfolding member
length-Distinct [] ys d h = omega arith
length-Distinct (x ∷ xs) ys d h =
    let shorter = length-delete x ys (h x (ground (arith, beq_refl x))) in
    let rest =
      length-Distinct xs (delete x ys) d.1
        (λ a m. ground (arith, h a, member-delete x a ys, nat_beq_iff x a)) in
    omega (arith, shorter, rest)
