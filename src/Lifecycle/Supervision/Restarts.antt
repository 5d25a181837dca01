-- ===== src/Lifecycle/Supervision/Restarts.antt =====
-- lifecycle/supervision.py: how often a service is restarted while its health checks fail.
use robotsix_agent_comm.Prelude.{
  ℕ, suc, ◌+◌, ◌≤◌, Bool, true, false, List, [], ◌∷◌, ◌++◌, if◌then◌else◌, ◌==◌, or_else, All, ◌≡◌,
  refl, ◌∙◌, arith, Bool-cases, ◌⊎◌, inl, inr,
}
use robotsix_agent_comm.Prelude.Int.{pos, leb_ℤ}
use robotsix_agent_comm.Lifecycle.Supervision.{
  SupervisionConfig, Texts, Look, Effect, stop, start, emit, Watch, cooling, health_check, fail,
  waiting, restart, attempt_restart, escalate, degrade, react, unhealthy, poll_watch,
}
use robotsix_agent_comm.Lifecycle.Supervision.Service.{IsValid, IsWatched, poll_watch-IsWatched}

-- the calls of `backend.start`
unfoldable pub starts : List Effect → ℕ
starts [] = 0
starts (start name ∷ es) = suc (starts es)
starts (stop name ∷ es) = starts es
starts (emit i ∷ es) = starts es

starts-append : (xs ys : List Effect) → starts (xs ++ ys) ≡ starts xs + starts ys
unfolding starts
starts-append [] ys = omega arith
starts-append (start name ∷ es) ys = omega (arith, starts-append es ys)
starts-append (stop name ∷ es) ys = omega (arith, starts-append es ys)
starts-append (emit i ∷ es) ys = omega (arith, starts-append es ys)

-- polls of one service, one after the other
unfoldable pub run_watch : SupervisionConfig → Texts → List Look → Watch → Watch × List Effect
run_watch c texts [] w = (w, [])
run_watch c texts (k ∷ ks) w =
    let (w1, e1) = poll_watch c texts k w in
    let (w2, e2) = run_watch c texts ks w1 in (w2, e1 ++ e2)

-- none of the polls finds the service healthy
abbrev pub Sick : SupervisionConfig → List Look → Type 0
Sick c = All (λ k. health_check c k ≡ false)

-- What one such poll does: a service that is escalated stays so and is left alone; another is
-- escalated, or its failures grow by at least the restarts.
data Progress (w : Watch) (x : Watch × List Effect) : Type 0 where
  resting : x.0.state.is_escalated ≡ true → starts x.1 ≡ 0 → Progress w x
  working :
      w.state.is_escalated ≡ false
      → x.0.state.is_escalated ≡ false
      → w.state.consecutive_failures + starts x.1 ≤ x.0.state.consecutive_failures
      → Progress w x

Progress-if :
    (b : Bool) (w : Watch) (x y : Watch × List Effect)
    → (b ≡ true → Progress w x)
    → (b ≡ false → Progress w y)
    → Progress w (if b then x else y)
Progress-if true w x y h k = h refl
Progress-if false w x y h k = k refl

module _ (c : SupervisionConfig) (texts : Texts) (now : ℕ) where
  attempt_restart_lem :
      (w : Watch)
      → ((attempt_restart c texts now w).0.state.is_escalated ≡ w.state.is_escalated)
        × ((attempt_restart c texts now w).0.state.consecutive_failures
            ≡ w.state.consecutive_failures)
        × (starts (attempt_restart c texts now w).1 ≤ 1)
  unfolding attempt_restart restart starts
  attempt_restart_lem w =
      elim (Bool-cases (waiting now w.state.last_restart (or_else w.backoff (pos 0)))) [
        | inl e ↦ rw (e) (refl, refl, omega arith)
        | inr e ↦ rw (e) (refl, refl, omega arith)
      ]

  react_lem :
      (w : Watch)
      → w.state.is_escalated ≡ false
      → (((react c texts now w).0.state.is_escalated ≡ true) × (starts (react c texts now w).1 ≡ 0))
        ⊎ (((react c texts now w).0.state.is_escalated ≡ false)
            × ((react c texts now w).0.state.consecutive_failures ≡ w.state.consecutive_failures)
            × (starts (react c texts now w).1 ≤ 1))
  unfolding react escalate starts
  react_lem w calm =
      elim (Bool-cases (leb_ℤ (pos w.state.consecutive_failures) c.max_restart_attempts)) [
        | inl e ↦ let l = attempt_restart_lem w in rw (e) (inr (l.0 ∙ calm, l.1, l.2))
        | inr e ↦ rw (e) (inl (refl, refl))
      ]

  degrade_lem :
      (w : Watch)
      → ((degrade c texts now w).0.state.is_escalated ≡ w.state.is_escalated)
        × ((degrade c texts now w).0.state.consecutive_failures ≡ w.state.consecutive_failures)
        × (starts (degrade c texts now w).1 ≡ 0)
  unfolding degrade starts
  degrade_lem w = elim (Bool-cases (w.state.consecutive_failures == 1)) [
    | inl e ↦ rw (e) (refl, refl, refl)
    | inr e ↦ rw (e) (refl, refl, refl)
  ]

  calm_Progress :
      (w : Watch)
      → w.state.is_escalated ≡ false
      → (let w' : Watch = record w { state = fail now w.state } in
          let (w1, e1) = degrade c texts now w' in
          let (w2, e2) = react c texts now w1 in Progress w (w2, e1 ++ e2))
  unfolding fail
  calm_Progress w calm =
      let w' : Watch = record w { state = fail now w.state } in
      let w1 = (degrade c texts now w').0 in
      let d = degrade_lem w' in
      let s = starts-append (degrade c texts now w').1 (react c texts now w1).1 in
      elim (react_lem w1 (d.0 ∙ calm)) [
        | inl (e, z) ↦ resting e (omega (arith, s, d.2, z))
        | inr (e, f, z) ↦ working calm e (omega (arith, s, d.1, d.2, f, z))
      ]

  unhealthy-Progress : (w : Watch) → Progress w (unhealthy c texts now w)
  unfolding unhealthy fail starts
  unhealthy-Progress w =
      Progress-if w.state.is_escalated w _ _ (λ e. resting e refl) (calm_Progress w)

module _ (c : SupervisionConfig) (texts : Texts) where
  skip_Progress : (w : Watch) → Progress w (w, [])
  unfolding starts
  skip_Progress w = elim (Bool-cases w.state.is_escalated) [
    | inl e ↦ resting e refl
    | inr e ↦ working e e (omega arith)
  ]

  poll_Progress :
      (k : Look) (w : Watch) → health_check c k ≡ false → Progress w (poll_watch c texts k w)
  unfolding poll_watch
  poll_Progress k w sick =
      Progress-if (cooling k.now w.deadline) w _ _ (λ _. skip_Progress w)
        (λ _. rw (sick) (unhealthy-Progress c texts k.now w))

  -- A service that is escalated is not restarted again, and stays escalated, until a health check
  -- succeeds, however often it is polled and long after its cooldown.
  pub run_watch_escalated :
      (ks : List Look) (w : Watch)
      → Sick c ks
      → w.state.is_escalated ≡ true
      → (starts (run_watch c texts ks w).1 ≡ 0)
        × ((run_watch c texts ks w).0.state.is_escalated ≡ true)
  unfolding run_watch starts
  run_watch_escalated [] w sick e = (refl, e)
  run_watch_escalated (k ∷ ks) w sick e = elim (poll_Progress k w sick.0) [
    | resting r z ↦
        let rest = run_watch_escalated ks _ sick.1 r in
        let s =
          starts-append (poll_watch c texts k w).1
            (run_watch c texts ks (poll_watch c texts k w).0).1 in
        (omega (arith, s, z, rest.0), rest.1)
    | working calm d n ↦ absurd (ground (arith, e, calm))
  ]

module _ (c : SupervisionConfig) (valid : IsValid c) (texts : Texts) where
  run_watch_bound :
      (ks : List Look) (w : Watch)
      → Sick c ks
      → IsWatched c w
      → w.state.is_escalated ≡ false
      → leb_ℤ
          (pos (w.state.consecutive_failures + starts (run_watch c texts ks w).1))
          c.max_restart_attempts
        ≡ true
  unfolding run_watch starts
  run_watch_bound [] w sick i calm = ground (arith, i.bounded calm)
  run_watch_bound (k ∷ ks) w sick i calm =
      let w1 = (poll_watch c texts k w).0 in
      let e1 = (poll_watch c texts k w).1 in
      let i1 = poll_watch-IsWatched c valid texts k w i in
      let s = starts-append e1 (run_watch c texts ks w1).1 in
      elim (poll_Progress c texts k w sick.0) [
        | resting r z ↦
            let rest = run_watch_escalated c texts ks w1 sick.1 r in
            ground (arith, i.bounded calm, s, z, rest.0)
        | working was d n ↦
            let rest = run_watch_bound ks w1 sick.1 i1 d in ground (arith, rest, s, n)
      ]

  -- From a healthy service on, and as long as no health check succeeds, the service is restarted at
  -- most as often as the configured maximum.
  pub run_watch_restarts :
      (ks : List Look) (w : Watch)
      → Sick c ks
      → IsWatched c w
      → w.state.healthy ≡ true
      → leb_ℤ (pos (starts (run_watch c texts ks w).1)) c.max_restart_attempts ≡ true
  run_watch_restarts ks w sick i well = elim (Bool-cases w.state.is_escalated) [
    | inl e ↦ absurd (ground (arith, i.failed e, well))
    | inr calm ↦ ground (arith, run_watch_bound ks w sick i calm)
  ]
