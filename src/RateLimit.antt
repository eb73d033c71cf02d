-- ===== src/RateLimit.antt =====
-- ratelimit.py: `TokenBucket` and `RateLimiterRegistry`.
-- The clock counts ticks. One token is `unit` = 60 times the ticks of a second, so a bucket of
-- `rpm` gains `rpm` for each tick. The source's tokens, rate and waits are floats: `elapsed *
-- self.rate`, the sum and `deficit / self.rate` are rounded there and exact here.
-- A rate or a burst below 0 acts in the source as 0 does.
pub mod Bucket
pub mod Registry
use ciallo_ms_365_open_ai_pr.Prelude.{
  ℕ, ◌+◌, ◌-◌, ◌*◌, min, max, Bool, true, false, ◌||◌, not, Option, none, some, ltb, leb, eqb,
  if◌then◌else◌,
}
use ciallo_ms_365_open_ai_pr.Prelude.Text.{Text, text_key}
use ciallo_ms_365_open_ai_pr.Dict.{Dict, get, put}

pub record TokenBucket : Type 0 where
  pub rpm : ℕ
  pub capacity : ℕ
  pub tokens : ℕ
  pub updated : ℕ

-- `(True, 0.0)`, or `(False, retry_after)` with the wait in ticks as the fraction `deficit / rate`.
pub data Verdict : Type 0 where
  allowed : Verdict
  refused : ℕ → ℕ → Verdict

-- The registry's entries: the limits that a bucket was made for, and the bucket.
abbrev pub Buckets : Type 0
Buckets = Dict Text (ℕ × ℕ × TokenBucket)

module _ (unit : ℕ) where
  -- `TokenBucket(rpm, burst)` at the time `now`
  unfoldable pub bucket : ℕ → ℕ → ℕ → TokenBucket
  bucket now rpm burst = record {
    rpm = rpm;
    capacity = max 1 burst;
    tokens = max 1 burst * unit;
    updated = now;
  }

  unfoldable pub refill : ℕ → TokenBucket → TokenBucket
  refill now b =
      if ltb b.updated now
      then record b {
        tokens = min (b.capacity * unit) (b.tokens + (now - b.updated) * b.rpm);
        updated = now;
      }
      else b

  -- The body of `try_acquire` after `_refill`.
  unfoldable pub spend : TokenBucket → Verdict × TokenBucket
  spend b =
      if leb unit b.tokens
      then (allowed, record b { tokens = b.tokens - unit })
      else (refused (unit - b.tokens) b.rpm, b)

  unfoldable pub try_acquire : ℕ → TokenBucket → Verdict × TokenBucket
  try_acquire now b = if eqb b.rpm 0 then (allowed, b) else spend (refill now b)

  -- The part of the registry's `try_acquire` under its lock.
  unfoldable pub choose : ℕ → Option (ℕ × ℕ × TokenBucket) → ℕ → ℕ → TokenBucket
  choose now none rpm burst = bucket now rpm burst
  choose now (some (r, n, b)) rpm burst =
      if not (eqb r rpm) || not (eqb n burst) then bucket now rpm burst else b

  unfoldable pub acquire_for : ℕ → Text → ℕ → ℕ → Buckets → Verdict × Buckets
  acquire_for now identity rpm burst buckets =
      if eqb rpm 0
      then (allowed, buckets)
      else let (verdict, b) = try_acquire now (choose now (get identity buckets) rpm burst) in
        (verdict, put identity (rpm, burst, b) buckets)
