-- ===== src/Environment/Edges.antt =====
-- The graph that the loop over the edges builds, and how many edges a machine still waits for.
use vm_orbit.Base.{
  ℕ, suc, ◌+◌, ◌≡◌, refl, ap, inl, inr, Bool, false, not, ◌&&◌, List, [], ◌∷◌, ◌++◌, arith,
  if◌then◌else◌, nat_beq_iff, Bool-cases, ◌==◌, nat_eq, string_eq, count_if, keep_if,
}
use vm_orbit.Base.{member}
use vm_orbit.Environment.{Edge, Graph, add_edges, set}
use vm_orbit.Environment.Lists.{occurrences, member-last}

abbrev pub is_local : (ℕ → Bool) → Edge → Bool
is_local known e = known e.from && known e.to

-- The edges between machines of the environment.
abbrev pub local_edges : (ℕ → Bool) → List Edge → List Edge
local_edges known es = keep_if (is_local known) es

abbrev pub joins : ℕ → ℕ → List Edge → ℕ
joins u v es = count_if (λ e. (e.from == u) && (e.to == v)) es

-- Edges into a machine from ones that were not taken.
abbrev pub waiting : List ℕ → ℕ → List Edge → ℕ
waiting taken v es = count_if (λ e. (e.to == v) && not (member e.from taken)) es

occurrences-append :
    (v a : ℕ) (xs : List ℕ)
    → occurrences v (xs ++ a ∷ []) ≡ occurrences v xs + (if a == v then 1 else 0)
occurrences-append v a [] = ground arith
occurrences-append v a (x ∷ xs) = ground (arith, occurrences-append v a xs)

abbrev added : Edge → Graph → Graph
added e g = record {
  adj = set e.from (g.adj e.from ++ e.to ∷ []) g.adj;
  in_degree = set e.to (suc (g.in_degree e.to)) g.in_degree;
}

added_adj :
    (e : Edge) (g : Graph) (u v : ℕ)
    → occurrences v ((added e g).adj u)
      ≡ occurrences v (g.adj u) + (if (e.from == u) && (e.to == v) then 1 else 0)
added_adj e g u v = elim (Bool-cases (e.from == u)) [
  | inl same ↦
      rw (same, ap g.adj ((nat_beq_iff e.from u).0 same)) (occurrences-append v e.to (g.adj u))
  | inr other ↦ rw other (omega arith)
]

pub adj-add_edges :
    (known : ℕ → Bool) (es : List Edge) (g : Graph) (u v : ℕ)
    → occurrences v ((add_edges known es g).adj u)
      ≡ occurrences v (g.adj u) + joins u v (local_edges known es)
unfolding add_edges
adj-add_edges known [] g u v = omega arith
adj-add_edges known (e ∷ es) g u v = elim (Bool-cases (is_local known e)) [
  | inl near ↦
      rw (ap (λ b. add_edges known es (if b then added e g else g)) near, near)
        (ground (arith, adj-add_edges known es (added e g) u v, added_adj e g u v))
  | inr far ↦ rw (far, add_edges) (adj-add_edges known es g u v)
]

pub in_degree-add_edges :
    (known : ℕ → Bool) (es : List Edge) (g : Graph) (v : ℕ)
    → (add_edges known es g).in_degree v ≡ g.in_degree v + waiting [] v (local_edges known es)
unfolding add_edges member
in_degree-add_edges known [] g v = omega arith
in_degree-add_edges known (e ∷ es) g v = elim (Bool-cases (is_local known e)) [
  | inl near ↦ rw (near, add_edges) (ground (arith, in_degree-add_edges known es (added e g) v))
  | inr far ↦ rw (far, add_edges) (in_degree-add_edges known es g v)
]

pub waiting-take :
    (taken : List ℕ) (cur v : ℕ) (es : List Edge)
    → member cur taken ≡ false
    → waiting (taken ++ cur ∷ []) v es + joins cur v es ≡ waiting taken v es
waiting-take taken cur v [] h = omega arith
waiting-take taken cur v (e ∷ es) h = ground (
  arith,
  waiting-take taken cur v es h,
  member-last e.from cur taken,
  nat_beq_iff e.from cur,
  nat_beq_iff cur e.from,
)

-- Nothing waits for an edge that leaves the environment.
pub waiting-known :
    (known : ℕ → Bool) (taken : List ℕ) (v : ℕ) (es : List Edge)
    → known v ≡ false
    → waiting taken v (local_edges known es) ≡ 0
waiting-known known taken v [] h = refl
waiting-known known taken v (e ∷ es) h = elim (Bool-cases (e.to == v)) [
  | inl same ↦
      let off : is_local known e ≡ false = ground (arith, ap known ((nat_beq_iff e.to v).0 same)) in
      rw off (waiting-known known taken v es h)
  | inr other ↦ ground (arith, waiting-known known taken v es h)
]
