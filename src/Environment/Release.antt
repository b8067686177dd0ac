-- ===== src/Environment/Release.antt =====
-- What taking a machine does to the degrees and the queue.
use vm_orbit.Base.{
  ℕ, ◌-◌, ◌≡◌, refl, ap, inl, inr, true, false, ◌&&◌, ◌||◌, List, [], ◌∷◌, ◌++◌, arith, ltb, leb,
  if◌then◌else◌, nat_beq_iff, Bool-cases, ◌==◌, nat_eq, string_eq,
}
use vm_orbit.Base.{member, Distinct}
use vm_orbit.Environment.{release, set}
use mathlib.Core.List.{append_assoc}
use vm_orbit.Environment.Lists.{occurrences, member-last, append-Distinct}

pub release-degree :
    (ns : List ℕ) (d : ℕ → ℕ) (q : List ℕ) (v : ℕ) → (release ns d q).0 v ≡ d v - occurrences v ns
unfolding release
release-degree [] d q v = omega arith
release-degree (n ∷ ns) d q v = ground (
  arith,
  release-degree ns (set n (d n - 1) d) (if d n == 1 then q ++ n ∷ [] else q) v,
  nat_beq_iff n v,
)

-- Queued are also those whose degree comes down to 0.
pub release-member :
    (ns : List ℕ) (d : ℕ → ℕ) (q : List ℕ) (v : ℕ)
    → member v (release ns d q).1 ≡ (member v q || (ltb 0 (d v) && leb (d v) (occurrences v ns)))
unfolding release
release-member [] d q v = ground arith
release-member (n ∷ ns) d q v = ground (
  arith,
  release-member ns (set n (d n - 1) d) (if d n == 1 then q ++ n ∷ [] else q) v,
  nat_beq_iff n v,
  member-last v n q,
)

release_last :
    (n : ℕ) (ns : List ℕ) (d : ℕ → ℕ) (q : List ℕ)
    → (d n == 1) ≡ true
    → release (n ∷ ns) d q ≡ release ns (set n (d n - 1) d) (q ++ n ∷ [])
unfolding release
release_last n ns d q e = ap (λ b. release ns (set n (d n - 1) d) (if b then q ++ n ∷ [] else q)) e

release_more :
    (n : ℕ) (ns : List ℕ) (d : ℕ → ℕ) (q : List ℕ)
    → (d n == 1) ≡ false
    → release (n ∷ ns) d q ≡ release ns (set n (d n - 1) d) q
unfolding release
release_more n ns d q e = ap (λ b. release ns (set n (d n - 1) d) (if b then q ++ n ∷ [] else q)) e

pub release-Distinct :
    (ns : List ℕ) (d : ℕ → ℕ) (q : List ℕ)
    → Distinct q
    → ((v : ℕ) → member v q ≡ true → d v ≡ 0)
    → Distinct (release ns d q).1
release-Distinct [] d q u h = unfold release in u
release-Distinct (n ∷ ns) d q u h = elim (Bool-cases (d n == 1)) [
  | inl last ↦ rw (release_last n ns d q last) (
      release-Distinct ns (set n (d n - 1) d) (q ++ n ∷ [])
        (append-Distinct q n u (ground (arith, h n)))
        (λ v m. ground (arith, h v, member-last v n q)))
  | inr more ↦
      rw (release_more n ns d q more)
        (release-Distinct ns (set n (d n - 1) d) q u (λ v m. ground (arith, h v, h n)))
]

pub release-append :
    (ns : List ℕ) (d : ℕ → ℕ) (p q : List ℕ) → (release ns d (p ++ q)).1 ≡ p ++ (release ns d q).1
release-append [] d p q = unfold release in refl
release-append (n ∷ ns) d p q = elim (Bool-cases (d n == 1)) [
  | inl last ↦
      rw (release_last n ns d (p ++ q) last, release_last n ns d q last, append_assoc p q (n ∷ []))
        (release-append ns (set n (d n - 1) d) p (q ++ n ∷ []))
  | inr more ↦
      rw (release_more n ns d (p ++ q) more, release_more n ns d q more)
        (release-append ns (set n (d n - 1) d) p q)
]
