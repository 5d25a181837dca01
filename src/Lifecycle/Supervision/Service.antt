-- ===== src/Lifecycle/Supervision/Service.antt =====
-- lifecycle/supervision.py: what holds of the state of one service between two polls.
use robotsix_agent_comm.Prelude.{
  String, ℕ, suc, Bool, true, false, none, some, List, if◌then◌else◌, ◌==◌, or_else, is_some, ◌≡◌,
  refl, arith, Bool-cases, Option-cases, inl, inr,
}
use robotsix_agent_comm.Prelude.Int.{ℤ, pos, leb_ℤ, +ℤ_parts}
use robotsix_agent_comm.Lifecycle.Supervision.{
  SupervisionConfig, validate, Texts, Look, Effect, Watch, new_state, cooling, health_check,
  recover, fail, waiting, next_backoff, restart, attempt_restart, escalate, degrade, react,
  unhealthy, poll_watch,
}

-- A configuration that `validate` accepts.
abbrev pub IsValid : SupervisionConfig → Type 0
IsValid c = validate c ≡ none

-- A service is healthy exactly when it has no failure on count; it has a cooldown exactly when it is
-- escalated, and then no backoff; short of that it has failed at most as often as the maximum; a
-- backoff lies between the base and the cap.
pub record IsWatched (c : SupervisionConfig) (w : Watch) : Type 0 where
  pub counted : w.state.healthy ≡ (w.state.consecutive_failures == 0)
  pub cooled : is_some w.deadline ≡ w.state.is_escalated
  pub failed : w.state.is_escalated ≡ true → w.state.healthy ≡ false
  pub cleared : w.state.is_escalated ≡ true → w.backoff ≡ none
  pub bounded :
      w.state.is_escalated ≡ false
      → leb_ℤ (pos w.state.consecutive_failures) c.max_restart_attempts ≡ true
  pub paced :
      (b : ℤ)
      → w.backoff ≡ some b
      → (leb_ℤ c.backoff_base b ≡ true) × (leb_ℤ b c.backoff_max ≡ true)

abbrev pub new_watch : String → Watch
new_watch name = record { state = new_state name; backoff = none; deadline = none }

module _ (c : SupervisionConfig) (valid : IsValid c) where
  attempts_natural : leb_ℤ (pos 0) c.max_restart_attempts ≡ true
  unfolding validate
  attempts_natural = ground arith

  base_positive : leb_ℤ c.backoff_base (pos 0) ≡ false
  unfolding validate
  base_positive = ground arith

  base_capped : leb_ℤ c.backoff_base c.backoff_max ≡ true
  unfolding validate
  base_capped = ground arith

  pub new_watch-IsWatched : (name : String) → IsWatched c (new_watch name)
  unfolding new_state
  new_watch-IsWatched name = record {
    counted = refl;
    cooled = refl;
    failed = λ e. cc;
    cleared = λ e. refl;
    bounded = λ e. attempts_natural;
    paced = λ b e. cc;
  }

  next_backoff-paced :
      (b : ℤ)
      → (leb_ℤ c.backoff_base b ≡ true)
      → (leb_ℤ c.backoff_base (next_backoff c b) ≡ true)
        × (leb_ℤ (next_backoff c b) c.backoff_max ≡ true)
  unfolding next_backoff
  next_backoff-paced b h = ground (arith, base_positive, base_capped, +ℤ_parts b b)

  recover-IsWatched : (now : ℕ) (w : Watch) → IsWatched c (recover now w)
  unfolding recover
  recover-IsWatched now w = record {
    counted = refl;
    cooled = refl;
    failed = λ e. cc;
    cleared = λ e. refl;
    bounded = λ e. attempts_natural;
    paced = λ b e. cc;
  }

  module _ (texts : Texts) (now : ℕ) where
    escalate-IsWatched :
        (w : Watch) (n : ℕ)
        → w.state.healthy ≡ false
        → w.state.consecutive_failures ≡ suc n
        → IsWatched c (escalate c texts now w).0
    unfolding escalate
    escalate-IsWatched w n h f = record {
      counted = ground (arith, h, f);
      cooled = refl;
      failed = λ e. h;
      cleared = λ e. refl;
      bounded = λ e. cc;
      paced = λ b e. cc;
    }

    -- an unhealthy service that is not escalated, between the count and the reaction
    record IsFailing (w : Watch) : Type 0 where
      sick : w.state.healthy ≡ false
      times : ℕ
      count : w.state.consecutive_failures ≡ suc times
      calm : w.state.is_escalated ≡ false
      free : w.deadline ≡ none
      pace :
          (b : ℤ)
          → w.backoff ≡ some b
          → (leb_ℤ c.backoff_base b ≡ true) × (leb_ℤ b c.backoff_max ≡ true)

    next-paced :
        (w : Watch)
        → IsFailing w
        → (leb_ℤ c.backoff_base (next_backoff c (or_else w.backoff (pos 0))) ≡ true)
          × (leb_ℤ (next_backoff c (or_else w.backoff (pos 0))) c.backoff_max ≡ true)
    next-paced w i = elim (Option-cases w.backoff) [
      | inl e ↦ rw (e) (unfold next_backoff in (ground (arith), base_capped))
      | inr (b, e) ↦ rw (e) (next_backoff-paced b (i.pace b e).0)
    ]

    IsFailing-IsWatched :
        (w : Watch)
        → IsFailing w
        → leb_ℤ (pos w.state.consecutive_failures) c.max_restart_attempts ≡ true
        → IsWatched c w
    IsFailing-IsWatched w i h = record {
      counted = ground (arith, i.sick, i.count);
      cooled = ground (arith, i.calm, i.free);
      failed = λ e. i.sick;
      cleared = λ e. ground (arith, e, i.calm);
      bounded = λ e. h;
      paced = i.pace;
    }

    restart-IsWatched :
        (w : Watch)
        → IsFailing w
        → leb_ℤ (pos w.state.consecutive_failures) c.max_restart_attempts ≡ true
        → IsWatched c (restart c texts now w).0
    unfolding restart
    restart-IsWatched w i h = record {
      counted = ground (arith, i.sick, i.count);
      cooled = ground (arith, i.calm, i.free);
      failed = λ e. i.sick;
      cleared = λ e. ground (arith, e, i.calm);
      bounded = λ e. h;
      paced = λ b e. let p = next-paced w i in ground (arith, p.0, p.1, e);
    }

    attempt_restart-IsWatched :
        (w : Watch)
        → IsFailing w
        → leb_ℤ (pos w.state.consecutive_failures) c.max_restart_attempts ≡ true
        → IsWatched c (attempt_restart c texts now w).0
    unfolding attempt_restart
    attempt_restart-IsWatched w i h =
        elim (Bool-cases (waiting now w.state.last_restart (or_else w.backoff (pos 0)))) [
          | inl e ↦ rw (e) (IsFailing-IsWatched w i h)
          | inr e ↦ rw (e) (restart-IsWatched w i h)
        ]

    react-IsWatched : (w : Watch) → IsFailing w → IsWatched c (react c texts now w).0
    unfolding react
    react-IsWatched w i =
        elim (Bool-cases (leb_ℤ (pos w.state.consecutive_failures) c.max_restart_attempts)) [
          | inl e ↦ rw (e) (attempt_restart-IsWatched w i e)
          | inr e ↦ rw (e) (escalate-IsWatched w i.times i.sick i.count)
        ]

    degrade-IsFailing : (w : Watch) → IsFailing w → IsFailing (degrade c texts now w).0
    unfolding degrade
    degrade-IsFailing w i = elim (Bool-cases (w.state.consecutive_failures == 1)) [
      | inl e ↦ rw (e) (record {
        sick = i.sick;
        times = i.times;
        count = i.count;
        calm = i.calm;
        free = i.free;
        pace = i.pace;
      })
      | inr e ↦ rw (e) i
    ]

    fail-IsFailing :
        (w : Watch)
        → IsWatched c w
        → w.state.is_escalated ≡ false
        → IsFailing (record w { state = fail now w.state })
    unfolding fail
    fail-IsFailing w i calm = record {
      sick = refl;
      times = w.state.consecutive_failures;
      count = refl;
      calm = calm;
      free = ground (arith, i.cooled, calm);
      pace = i.paced;
    }

    IsWatched-if :
        (b : Bool) (x y : Watch × List Effect)
        → (b ≡ true → IsWatched c x.0)
        → (b ≡ false → IsWatched c y.0)
        → IsWatched c (if b then x else y).0
    IsWatched-if true x y h k = h refl
    IsWatched-if false x y h k = k refl

    fail-IsWatched :
        (w : Watch)
        → IsWatched c w
        → w.state.is_escalated ≡ true
        → IsWatched c (record w { state = fail now w.state })
    unfolding fail
    fail-IsWatched w i e = record {
      counted = ground arith;
      cooled = i.cooled;
      failed = λ x. refl;
      cleared = i.cleared;
      bounded = λ x. ground (arith, x, e);
      paced = i.paced;
    }

    unhealthy-IsWatched : (w : Watch) → IsWatched c w → IsWatched c (unhealthy c texts now w).0
    unfolding unhealthy fail
    unhealthy-IsWatched w i =
        IsWatched-if w.state.is_escalated _ _ (fail-IsWatched w i)
          (λ e. react-IsWatched _ (degrade-IsFailing _ (fail-IsFailing w i e)))

  -- Whatever a poll of a service meets, a state that is consistent stays so.
  pub poll_watch-IsWatched :
      (texts : Texts) (k : Look) (w : Watch)
      → IsWatched c w
      → IsWatched c (poll_watch c texts k w).0
  unfolding poll_watch
  poll_watch-IsWatched texts k w i = elim (Bool-cases (cooling k.now w.deadline)) [
    | inl e ↦ rw (e) i
    | inr e ↦ rw (e) (elim (Bool-cases (health_check c k)) [
      | inl h ↦ rw (h) (recover-IsWatched k.now w)
      | inr h ↦ rw (h) (unhealthy-IsWatched texts k.now w i)
    ])
  ]
