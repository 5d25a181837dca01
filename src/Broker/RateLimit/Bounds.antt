-- ===== src/Broker/RateLimit/Bounds.antt =====
-- What a token bucket lets through.
use robotsix_agent_comm.Prelude.{
  ℕ, suc, ◌+◌, ◌-◌, ◌*◌, ◌≤◌, ◌<◌, ◌≡◌, refl, false, List, [], ◌∷◌, arith, ap, ◌∙◌, if◌then◌else◌,
}
use robotsix_agent_comm.Broker.RateLimit.{TokenBucket, token, second, new_bucket, consume}

-- the number of calls that are let through, at the given readings of the clock
unfoldable pub allowed : List ℕ → TokenBucket → ℕ
allowed [] b = 0
allowed (t ∷ ts) b =
    let (passed, b') = consume t b in let rest = allowed ts b' in if passed then suc rest else rest

-- clock readings that do not fall, from `t` to `u`
abbrev pub Ascending : ℕ → List ℕ → ℕ → Type 0
Ascending t [] u = t ≤ u
Ascending t (x ∷ xs) u = (t ≤ x) × Ascending x xs u

-- one call: a token costs what the refill since the last call has brought
consume_step :
    (t : ℕ) (b : TokenBucket)
    → (consume t b).1.tokens + (if (consume t b).0 then token else 0)
      ≤ b.tokens + (t - b.last_refill) * b.rate
unfolding consume
consume_step t b = ground arith

consume_keeps :
    (t : ℕ) (b : TokenBucket) → ((consume t b).1.rate ≡ b.rate) × ((consume t b).1.last_refill ≡ t)
unfolding consume
consume_keeps t b = (ground arith, ground arith)

Ascending-le : (t : ℕ) (ts : List ℕ) (u : ℕ) → Ascending t ts u → t ≤ u
Ascending-le t [] u h = h
Ascending-le t (x ∷ xs) u h = omega (arith, Ascending-le x xs u h.1)

consume_slow :
    (t : ℕ) (b : TokenBucket)
    → b.capacity < token
    → ((consume t b).0 ≡ false) × ((consume t b).1.capacity ≡ b.capacity)
unfolding consume
consume_slow t b h = (ground arith, ground arith)

-- `elapsed * rate` over two stretches of time
distrib : (x y r : ℕ) → x * r + y * r ≡ (x + y) * r
distrib x y r = omega arith

stretch : (r a b c : ℕ) → a ≤ b → b ≤ c → (b - a) * r + (c - b) * r ≡ (c - a) * r
stretch r a b c h k = distrib (b - a) (c - b) r ∙ ap (λ (t : ℕ). t * r) (omega (arith, h, k))

allowed_from :
    (ts : List ℕ) (b : TokenBucket) (a u : ℕ)
    → b.last_refill ≡ a
    → Ascending a ts u
    → allowed ts b * token ≤ b.tokens + (u - a) * b.rate
unfolding allowed
allowed_from [] b a u e h = omega arith
allowed_from (t ∷ ts) b a u e h =
    let b' = (consume t b).1 in
    let rest = allowed_from ts b' t u (consume_keeps t b).1 h.1 in
    let step = consume_step t b in
    ground
      (arith, rest, step, (consume_keeps t b).0, stretch b.rate a t u h.0 (Ascending-le t ts u h.1))

-- Of the calls on a new bucket, at clock readings that do not fall, no more are let through than
-- what the capacity and the refill of the time that has passed pay for.
pub allowed_bound :
    (ts : List ℕ) (rate start u : ℕ)
    → Ascending start ts u
    → allowed ts (new_bucket rate start) * token ≤ rate * second + (u - start) * rate
unfolding new_bucket
allowed_bound ts rate start u h = allowed_from ts (new_bucket rate start) start u refl h

-- A bucket whose capacity is below one token, as the server's buckets are at a rate below one
-- request a second, lets no call through, ever.
pub allowed_slow : (ts : List ℕ) (b : TokenBucket) → b.capacity < token → allowed ts b ≡ 0
unfolding allowed
allowed_slow [] b h = refl
allowed_slow (t ∷ ts) b h =
    ground
      (arith, consume_slow t b h, allowed_slow ts (consume t b).1 (rw (consume_slow t b h).1 h))
