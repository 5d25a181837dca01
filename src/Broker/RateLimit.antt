-- ===== src/Broker/RateLimit.antt =====
-- broker/_rate_limit.py. Time is counted in ticks of a microsecond, a rate in thousandths of a token
-- a second, and tokens in grains: a tick at rate 1 refills one grain, and a token is 10^9 grains.
pub mod Bounds
use Prim.Native.Nat.{min}
use robotsix_agent_comm.Prelude.{ℕ, ◌+◌, ◌-◌, ◌*◌, Bool, true, false, leb, if◌then◌else◌}

abbrev pub second : ℕ
second = 1_000_000

abbrev pub token : ℕ
token = 1_000_000_000

pub record TokenBucket : Type 0 where
  pub rate : ℕ
  pub capacity : ℕ
  pub tokens : ℕ
  pub last_refill : ℕ

-- `_TokenBucket(rate)`: the capacity is what a second refills
unfoldable pub new_bucket : ℕ → ℕ → TokenBucket
new_bucket rate now = record {
  rate = rate;
  capacity = rate * second;
  tokens = rate * second;
  last_refill = now;
}

-- the tokens after the refill, before any is taken
unfoldable pub refilled : ℕ → TokenBucket → ℕ
refilled now b = min b.capacity (b.tokens + (now - b.last_refill) * b.rate)

-- `consume()` of one token at a reading of the monotonic clock, which never falls below
-- `last_refill`
unfoldable pub consume : ℕ → TokenBucket → Bool × TokenBucket
unfolding refilled
consume now b =
    let level = refilled now b in
    if leb token level
    then (true, record b { tokens = level - token; last_refill = now })
    else (false, record b { tokens = level; last_refill = now })
