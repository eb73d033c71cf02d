-- ===== src/RateLimit/Bucket.antt =====
-- The bucket never overflows, and over any time it lets through at most a burst and the rate.
use ciallo_ms_365_open_ai_pr.Prelude.{
  ℕ, ◌+◌, ◌-◌, ◌*◌, ◌≤◌, max, ◌≡◌, ◌≢◌, ap, Bool, true, false, List, [], ◌∷◌, if◌then◌else◌, arith,
  All,
}
use native.Mathlib.Nat.{le_refl, mul-le-mul_right}
use ciallo_ms_365_open_ai_pr.RateLimit.{
  TokenBucket, Verdict, allowed, refused, bucket, refill, spend, try_acquire,
}

abbrev pub is_allowed : Verdict → Bool
is_allowed allowed = true
is_allowed (refused d r) = false

module _ (unit : ℕ) where
  -- Calls at the given times; the number that was let through, and the bucket.
  unfoldable pub run : TokenBucket → List ℕ → ℕ × TokenBucket
  run b [] = (0, b)
  run b (now ∷ times) =
      let (verdict, b') = try_acquire unit now b in
      let (n, last) = run b' times in ((if is_allowed verdict then n + 1 else n), last)

  abbrev pub IsBounded : TokenBucket → Type 0
  IsBounded b = b.tokens ≤ b.capacity * unit

  refill_gain :
      (now : ℕ) (b : TokenBucket)
      → IsBounded b
      → IsBounded (refill unit now b)
        × ((refill unit now b).tokens
            ≤ b.tokens + ((refill unit now b).updated - b.updated) * b.rpm)
        × (b.updated ≤ (refill unit now b).updated)
        × ((refill unit now b).updated ≤ max b.updated now)
        × ((refill unit now b).rpm ≡ b.rpm)
  unfolding refill
  refill_gain now b h = ground arith

  -- One call pays for what it lets through.
  try_acquire_pays :
      (now : ℕ) (b : TokenBucket)
      → IsBounded b
      → b.rpm ≢ 0
      → IsBounded (try_acquire unit now b).1
        × ((if is_allowed (try_acquire unit now b).0 then unit else 0)
              + (try_acquire unit now b).1.tokens
            ≤ b.tokens + ((try_acquire unit now b).1.updated - b.updated) * b.rpm)
        × (b.updated ≤ (try_acquire unit now b).1.updated)
        × ((try_acquire unit now b).1.updated ≤ max b.updated now)
        × ((try_acquire unit now b).1.rpm ≡ b.rpm)
  unfolding try_acquire spend
  try_acquire_pays now b h on = ground (arith, refill_gain now b h)

  gap_split : (u v w r : ℕ) → u ≤ v → v ≤ w → (w - v) * r + (v - u) * r ≡ (w - u) * r
  gap_split u v w r h k =
      let e : w - v + (v - u) ≡ w - u = omega arith in omega (arith, ap (λ (t : ℕ). t * r) e)

  pays_step :
      (v : Bool) (n t t' t'' u u' u'' r : ℕ)
      → (if v then unit else 0) + t' ≤ t + (u' - u) * r
      → n * unit + t'' ≤ t' + (u'' - u') * r
      → u ≤ u'
      → u' ≤ u''
      → (if v then n + 1 else n) * unit + t'' ≤ t + (u'' - u) * r
  pays_step true n t t' t'' u u' u'' r h k le le' = omega (arith, gap_split u u' u'' r le le')
  pays_step false n t t' t'' u u' u'' r h k le le' = omega (arith, gap_split u u' u'' r le le')

  run_pays :
      (b : TokenBucket) (times : List ℕ)
      → IsBounded b
      → b.rpm ≢ 0
      → ((run b times).0 * unit + (run b times).1.tokens
          ≤ b.tokens + ((run b times).1.updated - b.updated) * b.rpm)
        × (b.updated ≤ (run b times).1.updated)
  unfolding run
  run_pays b [] h on = (omega arith, omega arith)
  run_pays b (now ∷ times) h on =
      let (bounded, pays, up, _, same) = try_acquire_pays now b h on in
      let b' = (try_acquire unit now b).1 in
      let (ih, up') = run_pays b' times bounded (rw same on) in
      let ih' = rw same at ih in
      let last = (run b' times).1 in
      (
        pays_step (is_allowed (try_acquire unit now b).0) (run b' times).0 b.tokens b'.tokens
            last.tokens b.updated b'.updated last.updated b.rpm pays ih' up up',
        omega arith,
      )

  run-updated-le :
      (b : TokenBucket) (times : List ℕ) (last : ℕ)
      → IsBounded b
      → b.rpm ≢ 0
      → b.updated ≤ last
      → All (λ t. t ≤ last) times
      → (run b times).1.updated ≤ last
  unfolding run
  run-updated-le b [] last h on le all = le
  run-updated-le b (now ∷ times) last h on le all =
      let (bounded, _, _, up, same) = try_acquire_pays now b h on in
      run-updated-le (try_acquire unit now b).1 times last bounded (rw same on) (omega arith) all.1

  -- A bucket made at `start` lets through, up to any later time `last`, at most its burst and
  -- `rpm` requests a minute, in whatever order and number the calls come.
  pub run_budget :
      (start rpm burst : ℕ) (times : List ℕ) (last : ℕ)
      → rpm ≢ 0
      → start ≤ last
      → All (λ t. t ≤ last) times
      → (run (bucket unit start rpm burst) times).0 * unit
        ≤ max 1 burst * unit + (last - start) * rpm
  unfolding bucket
  run_budget start rpm burst times last on le all =
      let b = bucket unit start rpm burst in
      let (pays, up) = run_pays b times (le_refl (max 1 burst * unit)) on in
      let below = run-updated-le b times last (le_refl (max 1 burst * unit)) on le all in
      let more : (run b times).1.updated - start ≤ last - start = omega arith in
      omega (arith, mul-le-mul_right rpm more)
