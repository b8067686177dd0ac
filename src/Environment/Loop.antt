-- ===== src/Environment/Loop.antt =====
-- The loop that takes machines: its invariant, and what holds when it ends.
use vm_orbit.Base.{
  ℕ, zero, suc, ◌+◌, ◌≤◌, ◌≡◌, refl, sym, ap, ◌∙◌, Bool, true, false, not, ◌&&◌, ◌||◌, Option, some,
  List, [], ◌∷◌, ◌++◌, map, arith, ◌==◌, nat_eq, string_eq, length, length-append, all,
}
use mathlib.Core.List.{append-nil, append_assoc}
use vm_orbit.Base.{member, Distinct}
use vm_orbit.Environment.{EnvironmentVm, Edge, SortSlice, vm_at, starts_before, release, take_all}
use vm_orbit.Environment.Lists.{occurrences, prefix-Distinct, length-Distinct, middle-Distinct}
use vm_orbit.Environment.Release.{release-degree, release-member, release-Distinct, release-append}
use vm_orbit.Environment.Edges.{joins, waiting, waiting-take}

-- Each element stands behind all that its edges come from; `seen` is what stands before the list.
unfoldable pub respects : List Edge → List ℕ → List ℕ → Bool
respects es seen [] = true
respects es seen (x ∷ xs) =
    all (λ e. not (e.to == x) || member e.from seen) es && respects es (seen ++ x ∷ []) xs

all_waiting :
    (es : List Edge) (taken : List ℕ) (x : ℕ)
    → waiting taken x es ≡ 0
    → all (λ e. not (e.to == x) || member e.from taken) es ≡ true
all_waiting [] taken x h = refl
all_waiting (e ∷ es) taken x h = ground (arith, all_waiting es taken x)

respects-last :
    (es : List Edge) (seen xs : List ℕ) (x : ℕ)
    → respects es seen xs ≡ true
    → waiting (seen ++ xs) x es ≡ 0
    → respects es seen (xs ++ x ∷ []) ≡ true
unfolding respects
respects-last es seen [] x h w = ground (arith, all_waiting es seen x (rw (append-nil seen) at w))
respects-last es seen (y ∷ xs) x h w =
    let behind : respects es (seen ++ y ∷ []) xs ≡ true = ground arith in
    ground
      (arith, respects-last es (seen ++ y ∷ []) xs x behind (rw (append_assoc seen (y ∷ []) xs) w))

-- `taken` are the machines that the loop has taken, `queue` those that wait to be taken.
pub record Fair (known : ℕ → Bool) (es : List Edge) (taken queue : List ℕ) (degree : ℕ → ℕ)
    : Type 0 where
  pub distinct : Distinct (taken ++ queue)
  pub degrees : (v : ℕ) → degree v ≡ waiting taken v es
  pub ready : (v : ℕ) → member v (taken ++ queue) ≡ (known v && (degree v == 0))
  pub ordered : respects es [] taken ≡ true

module _ (known : ℕ → Bool) (es : List Edge) (adj : ℕ → List ℕ)
    (adjacent : (u v : ℕ) → occurrences v (adj u) ≡ joins u v es)
    (inside : (taken : List ℕ) (v : ℕ) → known v ≡ false → waiting taken v es ≡ 0) where
  take-Fair :
      (taken rest ns : List ℕ) (cur : ℕ) (degree : ℕ → ℕ)
      → ((v : ℕ) → occurrences v ns ≡ occurrences v (adj cur))
      → Fair known es taken (cur ∷ rest) degree
      → let (degree', queue') = release ns degree rest in
        Fair known es (taken ++ cur ∷ []) queue' degree'
  take-Fair taken rest ns cur degree sorted f =
      let whole = taken ++ cur ∷ rest in
      let queue' = (release ns degree rest).1 in
      let joined : (taken ++ cur ∷ []) ++ queue' ≡ (release ns degree whole).1 =
        sym (release-append ns degree (taken ++ cur ∷ []) rest)
        ∙ ap (λ q. (release ns degree q).1) (append_assoc taken (cur ∷ []) rest) in
      let (fresh, present) = middle-Distinct taken cur rest f.distinct in
      let later : (v : ℕ)
          → waiting (taken ++ cur ∷ []) v es + occurrences v ns ≡ waiting taken v es =
        λ v.
          ap (λ n. waiting (taken ++ cur ∷ []) v es + n) (sorted v ∙ adjacent cur v)
          ∙ waiting-take taken cur v es fresh in
      record {
        distinct =
            rw joined
              (release-Distinct ns degree whole f.distinct (λ v m. ground (arith, f.ready v)));
        degrees = λ v. omega (arith, release-degree ns degree rest v, f.degrees v, later v);
        ready = λ v. rw joined (
            ground (
              arith,
              release-member ns degree whole v,
              release-degree ns degree rest v,
              f.ready v,
              f.degrees v,
              inside taken v,
            ));
        ordered =
            respects-last es [] taken cur f.ordered
              (ground (arith, f.ready cur, f.degrees cur, present));
      }

abbrev pub ids : List EnvironmentVm → List ℕ
ids evs = map (λ ev. ev.vm_id) evs

-- How the loop ends: it has taken the machines `taken`, in order, and each that it did not take
-- waits for another one.
pub record Ended (known : ℕ → Bool) (es : List Edge) (vms : ℕ → Option EnvironmentVm)
    (result : List EnvironmentVm) (taken : List ℕ) : Type 0 where
  pub is_result : result ≡ map (vm_at vms) taken
  pub distinct_taken : Distinct taken
  pub known_taken : (v : ℕ) → member v taken ≡ (known v && (waiting taken v es == 0))
  pub ordered_taken : respects es [] taken ≡ true

map-last :
    (vms : ℕ → Option EnvironmentVm) (xs : List ℕ) (x : ℕ)
    → map (vm_at vms) (xs ++ x ∷ []) ≡ map (vm_at vms) xs ++ vm_at vms x ∷ []
map-last vms [] x = refl
map-last vms (y ∷ xs) x = ap (λ l. vm_at vms y ∷ l) (map-last vms xs x)

module _ (s : SortSlice) (known : ℕ → Bool) (es : List Edge) (adj : ℕ → List ℕ)
    (vms : ℕ → Option EnvironmentVm) (all_ids : List ℕ) where
  module _ (adjacent : (u v : ℕ) → occurrences v (adj u) ≡ joins u v es)
      (inside : (taken : List ℕ) (v : ℕ) → known v ≡ false → waiting taken v es ≡ 0)
      (among : (v : ℕ) → known v ≡ true → member v all_ids ≡ true) where
    ended :
        (taken : List ℕ) (degree : ℕ → ℕ)
        → Fair known es taken [] degree
        → Ended known es vms (map (vm_at vms) taken) taken
    ended taken degree f = record {
      is_result = refl;
      distinct_taken = prefix-Distinct taken [] f.distinct;
      known_taken =
          λ v. ground (arith, f.ready v, f.degrees v, ap (λ l. member v l) (append-nil taken));
      ordered_taken = f.ordered;
    }

    -- With as much fuel as machines are still to be taken, the loop ends.
    pub take_all-Ended :
        (fuel : ℕ) (taken queue : List ℕ) (degree : ℕ → ℕ)
        → length all_ids ≤ length taken + fuel
        → Fair known es taken queue degree
        → (result : List EnvironmentVm) × (last : List ℕ) × (take_all s fuel vms adj queue degree
              (map (vm_at vms) taken)
            ≡ some result)
          × Ended known es vms result last
    unfolding take_all
    take_all-Ended zero taken [] degree h f =
        (map (vm_at vms) taken, taken, refl, ended taken degree f)
    take_all-Ended (suc fuel) taken [] degree h f =
        (map (vm_at vms) taken, taken, refl, ended taken degree f)
    take_all-Ended zero taken (cur ∷ rest) degree h f =
        let fits =
          length-Distinct (taken ++ cur ∷ rest) all_ids f.distinct
            (λ a m. among a (ground (arith, f.ready a))) in
        absurd (omega (arith, fits, length-append taken (cur ∷ rest)))
    take_all-Ended (suc fuel) taken (cur ∷ rest) degree h f =
        let less = λ (i j : ℕ). starts_before (vm_at vms i) (vm_at vms j) in
        let ns = s.sort less (adj cur) in
        let f' =
          take-Fair known es adj adjacent inside taken rest ns cur degree
            (λ v. s.count-sort less (λ x. x == v) (adj cur)) f in
        let (degree', queue') = release ns degree rest in
        let (result, last, e, done) =
          take_all-Ended fuel (taken ++ cur ∷ []) queue' degree'
            (omega (arith, h, length-append taken (cur ∷ []))) f' in
        (
          result,
          last,
          ap (λ r. take_all s fuel vms adj queue' degree' r) (sym (map-last vms taken cur)) ∙ e,
          done,
        )
