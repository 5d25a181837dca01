-- ===== src/Transport/Retry/Attempts.antt =====
-- How often `retry_call` calls, what it returns, and how long it pauses.
use robotsix_agent_comm.Prelude.{
  ℕ, zero, suc, ◌+◌, ◌≤◌, ◌<◌, ◌≡◌, Option, none, some, List, [], ◌∷◌, arith, leb, true, false, ap,
  ◌∙◌,
}
use robotsix_agent_comm.Transport.Endpoints.{TransportError}
use robotsix_agent_comm.Transport.Retry.{
  RetryPolicy, delay_for, Outcome, returned, raised, delivered, attempts, retry_call, give_up,
}

-- the pauses after `n` attempts that fail, the first of them attempt `a`
unfoldable pub delays : RetryPolicy → ℕ → ℕ → List ℕ
delays p a zero = []
delays p a (suc n) = delay_for p a ∷ delays p (suc a) n

shift : (k a : ℕ) → k + suc a ≡ suc k + a
shift k a = omega arith

module _ {A : Type 0} where
  abbrev pub Raises : (ℕ → Outcome A) → ℕ → Type 0
  Raises func i = (e : TransportError) × (func i ≡ raised e)

  Raises-shift :
      (func : ℕ → Outcome A) (i a : ℕ) → Raises func (suc i + a) → Raises func (i + suc a)
  Raises-shift func i a (e, h) = (e, ap func (shift i a) ∙ h)

  module _ (p : RetryPolicy) (func : ℕ → Outcome A) where
    attempts-success :
        (k a rounds : ℕ) (last : Option TransportError) (v : A)
        → a + rounds ≡ suc p.max_attempts
        → k < rounds
        → ((i : ℕ) → i < k → Raises func (i + a))
        → func (k + a) ≡ returned v
        → attempts p func a rounds last
          ≡ record { result = delivered v; calls = suc k; sleeps = delays p a k }
    unfolding attempts delays
    attempts-success zero a zero last v e h _ r = elim h [ ]
    attempts-success zero a (suc rounds) last v e h _ r =
        let here : func a ≡ returned v = ap func (omega arith) ∙ r in ground (arith, here)
    attempts-success (suc k) a zero last v e h _ r = elim h [ ]
    attempts-success (suc k) a (suc rounds) last v e h f r =
        let (x, first) = f 0 (omega arith) in
        let first' : func a ≡ raised x = ap func (omega arith) ∙ first in
        let more : leb p.max_attempts a ≡ false = ground arith in
        let rest =
          attempts-success k (suc a) rounds (some x) v (omega arith) (omega arith)
            (λ i lt. Raises-shift func i a (f (suc i) (omega arith))) (ap func (shift k a) ∙ r) in
        ground (arith, first', more, rest)

    attempts-failure :
        (k a : ℕ) (last : Option TransportError) (x : TransportError)
        → suc k + a ≡ suc p.max_attempts
        → ((i : ℕ) → i ≤ k → Raises func (i + a))
        → func (k + a) ≡ raised x
        → attempts p func a (suc k) last
          ≡ record { result = give_up p (some x); calls = suc k; sleeps = delays p a k }
    unfolding attempts delays
    attempts-failure zero a last x e f r =
        let here : func a ≡ raised x = ap func (omega arith) ∙ r in
        let end : leb p.max_attempts a ≡ true = ground arith in ground (arith, here, end)
    attempts-failure (suc k) a last x e f r =
        let (y, first) = f 0 (omega arith) in
        let first' : func a ≡ raised y = ap func (omega arith) ∙ first in
        let more : leb p.max_attempts a ≡ false = ground arith in
        let rest =
          attempts-failure k (suc a) (some y) x (omega arith)
            (λ i lt. Raises-shift func i a (f (suc i) (omega arith))) (ap func (shift k a) ∙ r) in
        ground (arith, first', more, rest)

    calls-le :
        (rounds a : ℕ) (last : Option TransportError)
        → (attempts p func a rounds last).calls ≤ rounds
    unfolding attempts
    calls-le zero a last = omega arith
    calls-le (suc rounds) a last =
        grind (arith, λ (e : TransportError). calls-le rounds (suc a) (some e))

    -- If call `k` is the first that returns, within the attempts of the policy, `retry_call`
    -- returns its value after exactly `k` calls and the pauses of the `k - 1` attempts before it.
    pub retry_call_success :
        (k : ℕ) (v : A)
        → k < p.max_attempts
        → ((i : ℕ) → i < k → Raises func (i + 1))
        → func (k + 1) ≡ returned v
        → retry_call func p ≡ record { result = delivered v; calls = suc k; sleeps = delays p 1 k }
    unfolding retry_call
    retry_call_success k v h f r = attempts-success k 1 p.max_attempts none v (omega arith) h f r

    -- If every attempt raises a transport error, `retry_call` raises a `DeliveryError` with the
    -- last one as its cause, after all the attempts and a pause after each but the last.
    pub retry_call_failure :
        (k : ℕ) (x : TransportError)
        → p.max_attempts ≡ suc k
        → ((i : ℕ) → i ≤ k → Raises func (i + 1))
        → func (k + 1) ≡ raised x
        → retry_call func p
          ≡ record { result = give_up p (some x); calls = suc k; sleeps = delays p 1 k }
    unfolding retry_call
    retry_call_failure k x h f r =
        ap (λ (n : ℕ). attempts p func 1 n none) h ∙ attempts-failure k 1 none x (omega arith) f r

    -- Whatever `func` does, it is called at most `max_attempts` times.
    pub retry_call_calls : (retry_call func p).calls ≤ p.max_attempts
    unfolding retry_call
    retry_call_calls = calls-le p.max_attempts 1 none
