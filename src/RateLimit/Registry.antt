-- ===== src/RateLimit/Registry.antt =====
-- One bucket for each identity: what a call does to the others, and what a new limit does.
use ciallo_ms_365_open_ai_pr.Prelude.{ℕ, ◌≡◌, ◌≢◌, some, arith, ◌⊎◌}
use ciallo_ms_365_open_ai_pr.Prelude.Text.{Text, text_key, text_eq_iff}
use ciallo_ms_365_open_ai_pr.Dict.{get, get-put}
use ciallo_ms_365_open_ai_pr.RateLimit.{
  TokenBucket, Buckets, bucket, try_acquire, choose, acquire_for,
}

-- The limits that the entry of `identity` was made for, with its bucket.
abbrev pub Holds : Buckets → Text → ℕ → ℕ → TokenBucket → Type 0
Holds buckets identity rpm burst b = get identity buckets ≡ some (rpm, burst, b)

module _ (unit : ℕ) where
  -- A call under other limits than those of the entry spends from a new, full bucket.
  pub acquire_for_changed :
      (now : ℕ) (identity : Text) (rpm burst r n : ℕ) (b : TokenBucket) (buckets : Buckets)
      → rpm ≢ 0
      → Holds buckets identity r n b
      → (r ≢ rpm) ⊎ (n ≢ burst)
      → (acquire_for unit now identity rpm burst buckets).0
        ≡ (try_acquire unit now (bucket unit now rpm burst)).0
  unfolding acquire_for choose
  acquire_for_changed now identity rpm burst r n b buckets on h changed = ground (arith, h)

  -- No call touches the entry of another identity.
  pub acquire_for_other :
      (now : ℕ) (identity other : Text) (rpm burst : ℕ) (buckets : Buckets)
      → other ≢ identity
      → get other (acquire_for unit now identity rpm burst buckets).1 ≡ get other buckets
  unfolding acquire_for
  acquire_for_other now identity other rpm burst buckets ne = ground (
    arith,
    get-put identity other
        (rpm, burst, (try_acquire unit now (choose unit now (get identity buckets) rpm burst)).1)
        buckets,
    text_eq_iff identity other,
  )

  choose_same :
      (now rpm burst : ℕ) (b : TokenBucket) → choose unit now (some (rpm, burst, b)) rpm burst ≡ b
  unfolding choose
  choose_same now rpm burst b = ground arith

  -- The next call under the same limits goes on from the bucket that this call left.
  pub acquire_for_twice :
      (now later : ℕ) (identity : Text) (rpm burst : ℕ) (buckets : Buckets)
      → rpm ≢ 0
      → (acquire_for unit later identity rpm burst
          (acquire_for unit now identity rpm burst buckets).1).0
        ≡ (try_acquire unit later
            (try_acquire unit now (choose unit now (get identity buckets) rpm burst)).1).0
  unfolding acquire_for
  acquire_for_twice now later identity rpm burst buckets on = ground (
    arith,
    get-put identity identity
        (rpm, burst, (try_acquire unit now (choose unit now (get identity buckets) rpm burst)).1)
        buckets,
    text_eq_iff identity identity,
    choose_same later rpm burst
        (try_acquire unit now (choose unit now (get identity buckets) rpm burst)).1,
  )
