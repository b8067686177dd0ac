-- ===== src/Task/Bulk/Poll.antt =====
-- The poll of a bulk task: when it ends, and which children it calls failed.
use vm_orbit.Base.{
  ℕ, suc, ◌≡◌, refl, sym, ap, ◌∙◌, inl, inr, Bool, true, false, not, ◌&&◌, ◌||◌, List, [], ◌∷◌,
  ◌++◌, arith, if◌then◌else◌, Bool-cases, if_false, nat_eq, string_eq, length, keep_if, all,
}
use vm_orbit.Base.{member}
use mathlib.Core.List.{append_assoc, append-nil}
use vm_orbit.Task.Model.{Task}
use vm_orbit.Task.Bulk.{
  BulkWrite, BulkEnd, finished, Round, ChildEnd, under_way, succeeded, failed, child_end, Children,
  check_child, check_children, check_round, is_nil, poll, child_ids, children_loaded,
  handle_bulk_parent,
}

abbrev is_under_way : ChildEnd → Bool
is_under_way under_way = true
is_under_way succeeded = false
is_under_way failed = false

abbrev is_failed : ChildEnd → Bool
is_failed under_way = false
is_failed succeeded = false
is_failed failed = true

abbrev still : Round → ℕ → Bool
still q child = is_under_way (child_end (q.row child))

abbrev failing : Round → ℕ → Bool
failing q child = is_failed (child_end (q.row child))

-- The child is seen to have ended in some round.
abbrev pub ends : List Round → ℕ → Bool
ends [] child = false
ends (q ∷ rounds) child = not (still q child) || ends rounds child

-- In the first round where the child is seen to have ended, it has failed, was cancelled or timed out.
abbrev pub ends_badly : List Round → ℕ → Bool
ends_badly [] child = false
ends_badly (q ∷ rounds) child = if still q child then ends_badly rounds child else failing q child

-- Nothing interrupts the poll.
abbrev pub is_calm : Round → Bool
is_calm q = not q.is_cancelled && not q.context_done

member-append : (x : ℕ) (xs ys : List ℕ) → member x (xs ++ ys) ≡ (member x xs || member x ys)
unfolding member
member-append x [] ys = refl
member-append x (y ∷ xs) ys = ground (arith, member-append x xs ys)

member-keep_if :
    (p : ℕ → Bool) (x : ℕ) (xs : List ℕ) → member x (keep_if p xs) ≡ (member x xs && p x)
unfolding member
member-keep_if p x [] = ground arith
member-keep_if p x (y ∷ xs) = ground (arith, member-keep_if p x xs, nat_eq.same_iff y x)

check_child_lem :
    (e : ChildEnd) (child : ℕ) (c : Children)
    → ((check_child e child c).remaining
        ≡ c.remaining ++ (if is_under_way e then child ∷ [] else []))
      × ((check_child e child c).failed ≡ c.failed ++ (if is_failed e then child ∷ [] else []))
unfolding check_child
check_child_lem under_way child c = (refl, sym (append-nil c.failed))
check_child_lem succeeded child c = (sym (append-nil c.remaining), sym (append-nil c.failed))
check_child_lem failed child c = (sym (append-nil c.remaining), refl)

append-if :
    (b : Bool) (x : ℕ) (xs ys : List ℕ)
    → (xs ++ (if b then x ∷ [] else [])) ++ ys ≡ xs ++ (if b then x ∷ ys else ys)
append-if true x xs ys = append_assoc xs (x ∷ []) ys
append-if false x xs ys = ap (λ zs. zs ++ ys) (append-nil xs)

check_children_lem :
    (q : Round) (children : List ℕ) (c : Children)
    → ((check_children q.row children c).remaining ≡ c.remaining ++ keep_if (still q) children)
      × ((check_children q.row children c).failed ≡ c.failed ++ keep_if (failing q) children)
unfolding check_children
check_children_lem q [] c = (sym (append-nil c.remaining), sym (append-nil c.failed))
check_children_lem q (child ∷ children) c =
    let (r, f) = check_child_lem (child_end (q.row child)) child c in
    let (rs, fs) = check_children_lem q children (check_child (child_end (q.row child)) child c) in
    (
      rs
          ∙ ap (λ x. x ++ keep_if (still q) children) r
          ∙ append-if (still q child) child c.remaining (keep_if (still q) children),
      fs
          ∙ ap (λ x. x ++ keep_if (failing q) children) f
          ∙ append-if (failing q child) child c.failed (keep_if (failing q) children),
    )

check_round_lem :
    (q : Round) (c : Children)
    → ((check_round q c).remaining ≡ keep_if (still q) c.remaining)
      × ((check_round q c).failed ≡ c.failed ++ keep_if (failing q) c.remaining)
unfolding check_round
check_round_lem q c = check_children_lem q c.remaining _

all-keep_if :
    (q : Round) (rounds : List Round) (xs : List ℕ)
    → all (ends (q ∷ rounds)) xs ≡ true
    → all (ends rounds) (keep_if (still q) xs) ≡ true
all-keep_if q rounds [] h = refl
all-keep_if q rounds (x ∷ xs) h = ground (arith, all-keep_if q rounds xs)

member_nil : (x : ℕ) (xs : List ℕ) → is_nil xs ≡ true → member x xs ≡ false
unfolding member
member_nil x [] h = refl
member_nil x (y ∷ ys) h = absurd (ground arith)

all_nil : (xs : List ℕ) → all (ends []) xs ≡ true → is_nil xs ≡ true
all_nil [] h = refl
all_nil (x ∷ xs) h = absurd (ground arith)

failed_once :
    (old left : Bool) (e : ChildEnd) (later : Bool)
    → ((old || (left && is_failed e)) || ((left && is_under_way e) && later))
      ≡ (old || (left && (if is_under_way e then later else is_failed e)))
failed_once old left under_way later = ground arith
failed_once old left succeeded later = ground arith
failed_once old left failed later = ground arith

module _ (share : ℕ → ℕ → ℕ) (total : ℕ) where
  poll-finishes :
      (rounds : List Round) (c : Children)
      → all is_calm rounds ≡ true
      → all (ends rounds) c.remaining ≡ true
      → (bad : List ℕ) × ((poll share total rounds c).1 ≡ finished bad)
        × ((id : ℕ)
            → member id bad
              ≡ (member id c.failed || (member id c.remaining && ends_badly rounds id)))
  unfolding poll
  poll-finishes [] c calm over = (
    c.failed,
    rw (all_nil c.remaining over) refl,
    λ id. ground (arith, member_nil id c.remaining (all_nil c.remaining over)),
  )
  poll-finishes (q ∷ rounds) c calm over = elim (Bool-cases (is_nil c.remaining)) [
    | inl e ↦ (c.failed, rw e refl, λ id. ground (arith, member_nil id c.remaining e))
    | inr e ↦
        let (r, f) = check_round_lem q c in
        let (bad, ended, same) =
          poll-finishes rounds (check_round q c) (ground arith)
            (ap (all (ends rounds)) r ∙ all-keep_if q rounds c.remaining over) in
        (
          bad,
          ap (λ (x : List BulkWrite × BulkEnd). x.1)
                (if_false (is_nil c.remaining) _ _ e
                  ∙ if_false q.is_cancelled _ _ (ground arith)
                  ∙ if_false (not (is_nil (check_round q c).remaining) && q.context_done) _ _
                      (ground arith))
              ∙ ended,
          λ id.
              same id
              ∙ rw
                  (
                    f,
                    r,
                    member-append id c.failed (keep_if (failing q) c.remaining),
                    member-keep_if (failing q) id c.remaining,
                    member-keep_if (still q) id c.remaining,
                  )
                  (failed_once (member id c.failed) (member id c.remaining) (child_end (q.row id))
                    (ends_badly rounds id)),
        )
  ]

-- When nothing interrupts the poll of a bulk task, and each of its children is seen to have ended
-- in some round, the parent finishes, and the children that it calls failed are exactly those that
-- were first seen to have ended in a status other than completed.
pub handle_bulk_parent-finishes :
    (share : ℕ → ℕ → ℕ) (enqueues : ℕ → Bool) (rounds : List Round) (first : Task)
    (rest : List Task)
    → all is_calm rounds ≡ true
    → all (ends rounds) (child_ids (first ∷ rest)) ≡ true
    → (bad : List ℕ) × ((handle_bulk_parent share enqueues false rounds (inr (first ∷ rest))).1
        ≡ finished bad)
      × ((id : ℕ) → member id bad ≡ (member id (child_ids (first ∷ rest)) && ends_badly rounds id))
unfolding handle_bulk_parent children_loaded member
handle_bulk_parent-finishes share enqueues rounds first rest calm over =
    poll-finishes share (suc (length rest)) rounds
      (record { remaining = child_ids (first ∷ rest); failed = []; completed = 0 }) calm over
