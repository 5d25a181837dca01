-- ===== src/Tests/Network.antt =====
-- The theorems on the registry and on retries, at concrete policies and endpoints.
use robotsix_agent_comm.Prelude.{ℕ, zero, suc, ◌+◌, ◌≡◌, ◌<◌, refl, arith}
use robotsix_agent_comm.Transport.Endpoints.{timed_out}
use robotsix_agent_comm.Transport.Retry.{Outcome, returned, raised, delivered, retry_call}
use robotsix_agent_comm.Transport.Retry.Attempts.{Raises, delays, retry_call_success}
use robotsix_agent_comm.Tests.Data.{policy}

-- fails twice, then returns the number of the attempt
abbrev third : ℕ → Outcome ℕ
third (suc (suc (suc n))) = returned 3
third _ = raised timed_out

third-Raises : (i : ℕ) → i < 2 → Raises third (i + 1)
third-Raises zero h = (timed_out, refl)
third-Raises (suc zero) h = (timed_out, refl)
third-Raises (suc (suc i)) h = absurd (omega (arith, h))

retry_call_success_example :
    retry_call third policy ≡ record { result = delivered 3; calls = 3; sleeps = delays policy 1 2 }
retry_call_success_example = retry_call_success policy third 2 3 (omega arith) third-Raises refl
