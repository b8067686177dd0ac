-- ===== src/Provider/Score/Snapshots.antt =====
-- What the score says of a provider, and how snapshots follow each other.
use vm_orbit.Base.{
  ℕ, suc, ◌+◌, ◌≤◌, ◌≡◌, refl, sym, ap, ◌∙◌, inl, inr, Bool, true, false, not, ◌&&◌, Option-cases,
  Option, none, some, List, [], ◌∷◌, ◌++◌, arith, leb, if◌then◌else◌, leb→le, Bool-cases, if_false,
  if_true, is_some, nat_eq, string_eq, length, all,
}
use vm_orbit.Provider.Score.{
  unhealthy, Latencies, ProviderHealth, offline_penalty, latency_penalty, task_penalty,
  stale_penalty, auth_penalty, compute_health_score, score_to_status, carried, pinged, scored,
  build_snapshot, run_checks, Check, run_check,
}

module _ (L : Latencies) where
  penalties_le :
      (s : ProviderHealth L)
      → (latency_penalty L s ≤ 20)
        × (task_penalty L s ≤ 20)
        × (stale_penalty L s ≤ 10)
        × (auth_penalty L s ≤ 10)
  unfolding latency_penalty task_penalty stale_penalty auth_penalty
  penalties_le s = (ground arith, ground arith, ground arith, ground arith)

  online_score :
      (s : ProviderHealth L)
      → s.online ≡ true
      → (compute_health_score L s ≤ 100) × (40 ≤ compute_health_score L s)
  unfolding compute_health_score offline_penalty
  online_score s on = (ground arith, rw on (ground (arith, penalties_le s)))

  offline_score : (s : ProviderHealth L) → s.online ≡ false → compute_health_score L s ≤ 60
  unfolding compute_health_score offline_penalty
  offline_score s off = rw off (ground arith)

  down_status :
      (s : ProviderHealth L)
      → s.online ≡ false
      → 3 ≤ s.consecutive_fails
      → score_to_status L (compute_health_score L s) ≡ unhealthy
  unfolding compute_health_score offline_penalty score_to_status
  down_status s off fails = rw off (ground arith)

  -- The score of a snapshot after a successful connection lies between 40 and 100, and after a
  -- failed one it is at most 60.
  build_snapshot-score :
      (now : ℕ) (existing : Option (ProviderHealth L)) (connection : Option L.Latency)
      (total failed auth : ℕ)
      → ((build_snapshot L now existing connection total failed auth).health_score
          ≤ (if is_some connection then 100 else 60))
        × ((if is_some connection then 40 else 0)
            ≤ (build_snapshot L now existing connection total failed auth).health_score)
  unfolding build_snapshot scored pinged
  build_snapshot-score now existing none total failed auth = (offline_score _ refl, ground arith)
  build_snapshot-score now existing (some l) total failed auth = online_score _ refl

  -- The queries of the check succeed, and it gets no connection.
  abbrev pub is_down : Check L → Bool
  is_down c = c.found && (c.reads && (c.writes && not (is_some c.connection)))

  abbrev pub fails_of : Option (ProviderHealth L) → ℕ
  fails_of none = 0
  fails_of (some s) = s.consecutive_fails

  -- What a run of failed checks leaves: the number of failures, no time of a last contact, and the
  -- status that follows from three failures on.
  abbrev pub IsDown : ℕ → ProviderHealth L → Type 0
  IsDown n s =
      (s.consecutive_fails ≡ n)
      × (s.online ≡ false)
      × (s.last_seen_at ≡ none)
      × (s.status ≡ (if leb 3 n then unhealthy else s.status))

  -- From three failures on, the status of a scored snapshot that is offline.
  down_or_same :
      (s : ProviderHealth L)
      → s.online ≡ false
      → score_to_status L (compute_health_score L s) ≡ (
          if leb 3 s.consecutive_fails
          then unhealthy
          else score_to_status L (compute_health_score L s))
  down_or_same s off = elim (Bool-cases (leb 3 s.consecutive_fails)) [
    | inl b ↦ down_status s off (leb→le 3 _ b) ∙ sym (if_true _ _ _ b)
    | inr b ↦ sym (if_false _ _ _ b)
  ]

  build_snapshot-IsDown :
      (now : ℕ) (existing : Option (ProviderHealth L)) (total failed auth : ℕ)
      → IsDown (suc (fails_of existing)) (build_snapshot L now existing none total failed auth)
  unfolding build_snapshot scored pinged carried
  build_snapshot-IsDown now none total failed auth = (refl, refl, refl, refl)
  build_snapshot-IsDown now (some s) total failed auth = (refl, refl, refl, down_or_same _ refl)

  IsDown-of_same : (m n : ℕ) (s : ProviderHealth L) → m ≡ n → IsDown m s → IsDown n s
  IsDown-of_same m n s e d = rw e at d

  run_check-IsDown :
      (c : Check L) (existing : Option (ProviderHealth L))
      → is_down c ≡ true
      → (s : ProviderHealth L) × ((run_check L c existing).1 ≡ some s)
        × IsDown (suc (fails_of existing)) s
  unfolding run_check
  run_check-IsDown c existing down = elim (Option-cases c.connection) [
    | inr (l, e) ↦ absurd (ground (arith, e, down))
    | inl e ↦
        let found : c.found ≡ true = ground (arith, down) in
        let reads : c.reads ≡ true = ground (arith, down) in
        let writes : c.writes ≡ true = ground (arith, down) in
        (
          build_snapshot L c.now existing none c.total c.failed_tasks c.auth_failures,
          rw (found, reads, writes, e, run_check) refl,
          build_snapshot-IsDown c.now existing c.total c.failed_tasks c.auth_failures,
        )
  ]

  -- Checks in a row whose queries succeed and which get no connection, one at least, leave a stored
  -- snapshot that counts them on top of the failures before, is offline, has lost the time when the
  -- provider was last seen, and is unhealthy from three failures on.
  pub run_checks-IsDown :
      (checks : List (Check L)) (last : Check L) (existing : Option (ProviderHealth L))
      → all is_down (checks ++ (last ∷ [])) ≡ true
      → (s : ProviderHealth L) × (run_checks L (checks ++ (last ∷ [])) existing ≡ some s)
        × IsDown (fails_of existing + suc (length checks)) s
  unfolding run_checks
  run_checks-IsDown [] last existing down =
      let (s, e, d) = run_check-IsDown last existing (ground arith) in
      (s, e, IsDown-of_same _ _ s (ground arith) d)
  run_checks-IsDown (c ∷ checks) last existing down =
      let (first, e, d) = run_check-IsDown c existing (ground arith) in
      let (s, e', d') = run_checks-IsDown checks last (some first) (ground arith) in
      (
        s,
        ap (run_checks L (checks ++ (last ∷ []))) e ∙ e',
        IsDown-of_same _ _ s (ground (arith, d.0)) d',
      )
