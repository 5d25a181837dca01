-- ===== src/Transport/Retry.antt =====
-- transport/retry.py. Seconds are whole ticks, and the backoff factor a whole number: a `float` has
-- no counterpart here, and the default policies use powers of two times a base.
pub mod Delays
pub mod Attempts
use Prim.Native.Nat.{min}
use robotsix_agent_comm.Prelude.{
  ℕ, zero, suc, ◌+◌, ◌-◌, ◌*◌, ◌^◌, Option, none, some, List, [], ◌∷◌, leb, Bool, true, false,
}
use robotsix_agent_comm.Protocol.Errors.{Fault}
use robotsix_agent_comm.Transport.Endpoints.{TransportError, DeliveryError}

-- A negative `max_attempts` has the effect of 0.
pub record RetryPolicy : Type 0 where
  pub max_attempts : ℕ
  pub base_delay : ℕ
  pub max_delay : ℕ
  pub backoff_factor : ℕ

unfoldable pub delay_for : RetryPolicy → ℕ → ℕ
delay_for p attempt = min (p.base_delay * p.backoff_factor ^ (attempt - 1)) p.max_delay

-- One call of `func`: it returns, raises a `TransportError`, or raises something else.
pub data Outcome (A : Type 0) : Type 0 where
  returned : A → Outcome A
  raised : TransportError → Outcome A
  escaped : Fault → Outcome A

-- What `retry_call` comes to, the number of calls of `func`, and the arguments of `sleep`.
pub data Delivery (A : Type 0) : Type 0 where
  delivered : A → Delivery A
  failed : DeliveryError → Delivery A
  crashed : Fault → Delivery A

pub record Run (A : Type 0) : Type 0 where
  pub result : Delivery A
  pub calls : ℕ
  pub sleeps : List ℕ

module _ {A : Type 0} where
  -- a call and a pause before what follows
  abbrev pub after : ℕ → Run A → Run A
  after delay r = record { result = r.result; calls = suc r.calls; sleeps = delay ∷ r.sleeps }

  abbrev pub last_call : Delivery A → Run A
  last_call d = record { result = d; calls = 1; sleeps = [] }

  abbrev pub give_up : RetryPolicy → Option TransportError → Delivery A
  give_up p e = failed (record { attempts = p.max_attempts; cause = e })

  -- The loop from an attempt on, with the rounds of `range` that are left. `func attempt` is the
  -- outcome of the call that the attempt makes.
  pub attempts : RetryPolicy → (ℕ → Outcome A) → ℕ → ℕ → Option TransportError → Run A
  attempts p func attempt zero last = record { result = give_up p last; calls = 0; sleeps = [] }
  attempts p func attempt (suc rounds) last = elim (func attempt) [
    | returned a ↦ last_call (delivered a)
    | escaped f ↦ last_call (crashed f)
    | raised e ↦ elim (leb p.max_attempts attempt) [
      | true ↦ last_call (give_up p (some e))
      | false ↦ after (delay_for p attempt) (attempts p func (suc attempt) rounds (some e))
    ]
  ]

  unfoldable pub retry_call : (ℕ → Outcome A) → RetryPolicy → Run A
  unfolding attempts
  retry_call func p = attempts p func 1 p.max_attempts none
