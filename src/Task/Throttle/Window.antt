-- ===== src/Task/Throttle/Window.antt =====
-- Which operations the deduplicator holds back.
use vm_orbit.Base.{ℕ, ◌+◌, ◌-◌, ◌≤◌, String, ◌≡◌, ◌≢◌, false, not, arith, ltb, string_eq, beq_refl}
use vm_orbit.Base.Map.{insert, lookup-insert, lookup-remove, Unique, lookup-keep, insert-Unique}
use vm_orbit.Task.Model.{TaskType}
use vm_orbit.Task.Throttle.{Deduplicator, cleanup, dedup_key, is_duplicate, release}

-- An operation that was let through for a non-empty scope is a duplicate exactly until the window ends,
-- also if the cleanup loop ticks between; and it is let through again once released.
is_duplicate_again :
    (type : TaskType) (scope : String) (first tick second : ℕ) (d : Deduplicator)
    → Unique d.inflight
    → scope ≢ ""
    → first ≤ tick
    → tick ≤ second
    → (is_duplicate type scope first d).1 ≡ false
    → let d' = (is_duplicate type scope first d).0 in
      ((is_duplicate type scope second d').1 ≡ ltb second (first + d.window))
      × ((is_duplicate type scope second (cleanup tick d')).1 ≡ ltb second (first + d.window))
      × ((is_duplicate type scope second (release type scope d')).1 ≡ false)
unfolding is_duplicate cleanup release
is_duplicate_again type scope first tick second d u named before after new =
    let key = dedup_key type scope in
    let m = insert key first d.inflight in
    let found = lookup-insert key key first d.inflight in
    let same = beq_refl key in
    let kept =
      lookup-keep (λ t. not (ltb d.window (tick - t))) key m
        (insert-Unique key first d.inflight u) in
    let gone = lookup-remove key key m in ground (arith, string_eq.same_iff scope "")
