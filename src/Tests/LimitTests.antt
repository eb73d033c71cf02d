-- ===== src/Tests/LimitTests.antt =====
-- ratelimit.py on small inputs: ten ticks a second, so one token is 600.
use ciallo_ms_365_open_ai_pr.Prelude.{◌+◌, ◌-◌, ◌*◌, ◌≡◌, ◌≤◌, max, refl, [], ◌∷◌, arith}
use ciallo_ms_365_open_ai_pr.Prelude.Text.{codes, text_eq, text_key, text_eq_iff}
use ciallo_ms_365_open_ai_pr.Dict.{get, put}
use ciallo_ms_365_open_ai_pr.RateLimit.{
  TokenBucket, Buckets, bucket, refill, spend, try_acquire, choose, acquire_for,
}
use ciallo_ms_365_open_ai_pr.RateLimit.Bucket
use ciallo_ms_365_open_ai_pr.RateLimit.Registry

program : Unit {0}
unfolding text_eq get put bucket refill spend try_acquire choose acquire_for Bucket.run
program = tt

-- Three calls at once on a burst of two at 60 a minute, and one a second later.
three_calls : (Bucket.run 600 (bucket 600 0 60 2) (0 ∷ 0 ∷ 0 ∷ 10 ∷ [])).0 ≡ 3
unfolding program
three_calls = refl

run_budget_example :
    (Bucket.run 600 (bucket 600 0 60 2) (0 ∷ 0 ∷ 0 ∷ 10 ∷ [])).0 * 600
    ≤ max 1 2 * 600 + (10 - 0) * 60
run_budget_example =
    Bucket.run_budget 600 0 60 2 (0 ∷ 0 ∷ 0 ∷ 10 ∷ []) 10 (omega arith) (omega arith) (omega arith)

abbrev spent : TokenBucket
spent = record { rpm = 60; capacity = 2; tokens = 300; updated = 4 }

abbrev buckets : Buckets
buckets = (codes "key_1", (60, 2, spent)) ∷ (codes "key_2", (30, 1, spent)) ∷ []

acquire_for_other_example :
    get (codes "key_2") (acquire_for 600 9 (codes "key_1") 60 2 buckets).1
    ≡ get (codes "key_2") buckets
unfolding text_eq
acquire_for_other_example =
    Registry.acquire_for_other 600 9 (codes "key_1") (codes "key_2") 60 2 buckets
      (λ e. cc ((text_eq_iff (codes "key_2") (codes "key_1")).1 e))
