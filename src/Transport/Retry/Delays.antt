-- ===== src/Transport/Retry/Delays.antt =====
-- The pauses of the backoff.
use robotsix_agent_comm.Prelude.{ℕ, zero, suc, ◌-◌, ◌*◌, ◌^◌, ◌≤◌, ◌<◌, ◌≡◌, arith}
use native.Mathlib.Nat.{pow-suc}
use robotsix_agent_comm.Transport.Retry.{RetryPolicy, delay_for}

grow : (b x f : ℕ) → 0 < f → b * x ≤ b * (x * f)
grow b x zero h = elim h [ ]
grow b x (suc f) h = omega arith

delay_grows :
    (p : RetryPolicy) (n : ℕ)
    → 0 < p.backoff_factor
    → p.base_delay * p.backoff_factor ^ (suc n - 1)
      ≤ p.base_delay * p.backoff_factor ^ (suc (suc n) - 1)
delay_grows p n h =
    let e : suc n - 1 ≡ n = omega arith in
    let e' : suc (suc n) - 1 ≡ suc n = omega arith in
    rw (e, e') (rw pow-suc (grow p.base_delay (p.backoff_factor ^ n) p.backoff_factor h))

-- No pause is longer than the cap, and with a factor of at least 1 no pause is shorter than the one
-- before it.
pub delay_bounds :
    (p : RetryPolicy) (attempt : ℕ)
    → 0 < p.backoff_factor
    → 0 < attempt
    → (delay_for p attempt ≤ p.max_delay) × (delay_for p attempt ≤ delay_for p (suc attempt))
unfolding delay_for
delay_bounds p zero h pos = elim pos [ ]
delay_bounds p (suc n) h pos = (omega arith, omega (arith, delay_grows p n h))
