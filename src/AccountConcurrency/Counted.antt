-- ===== src/AccountConcurrency/Counted.antt =====
-- The counts of an account are the turns that wait and the turns in the body.
use ciallo_ms_365_open_ai_pr.Prelude.{
  ℕ, zero, suc, ◌+◌, ◌-◌, ◌≡◌, refl, ap, inl, inr, Bool, true, false, Option, none, some, List, [],
  ◌∷◌, eqb, ltb, arith, if◌then◌else◌, Bool-cases,
}
use ciallo_ms_365_open_ai_pr.Prelude.Int.{ℤ, pos_part}
use ciallo_ms_365_open_ai_pr.Prelude.Text.{Text, text_key, text_eq}
use ciallo_ms_365_open_ai_pr.Dict.{Dict, get, put, get-put}
use ciallo_ms_365_open_ai_pr.AccountConcurrency.{
  Gate, Task, waits, runs, AccountConcurrency, account_concurrency, at, replace_at, remove_at,
  count_or_zero, count_of, count_up, count_down, install, gate_at, gate, wait_for, enter,
  take_permit, acquire_at, leave_at, Event, entered, acquired, left, step, run,
}

abbrev pub one_if : Bool → ℕ
one_if true = 1
one_if false = 0

unfoldable pub count : (Task → Bool) → List Task → ℕ
count p [] = 0
count p (x ∷ ts) = one_if (p x) + count p ts

abbrev pub is_waiting : Text → Task → Bool
is_waiting account_id (waits a g) = text_eq a account_id
is_waiting account_id (runs a g) = false

abbrev pub is_running : Text → Task → Bool
is_running account_id (waits a g) = false
is_running account_id (runs a g) = text_eq a account_id

pub count-replace_at :
    (p : Task → Bool) (i : ℕ) (x y : Task) (ts : List Task)
    → at i ts ≡ some x
    → count p (replace_at i y ts) + one_if (p x) ≡ count p ts + one_if (p y)
unfolding count at replace_at
count-replace_at p i x y [] h = cc
count-replace_at p zero x y (z ∷ ts) h = let z≡x : z ≡ x = cc in rw z≡x (omega arith)
count-replace_at p (suc i) x y (z ∷ ts) h = omega (arith, count-replace_at p i x y ts h)

pub count-remove_at :
    (p : Task → Bool) (i : ℕ) (x : Task) (ts : List Task)
    → at i ts ≡ some x
    → count p (remove_at i ts) + one_if (p x) ≡ count p ts
unfolding count at remove_at
count-remove_at p i x [] h = cc
count-remove_at p zero x (z ∷ ts) h = let z≡x : z ≡ x = cc in rw z≡x (omega arith)
count-remove_at p (suc i) x (z ∷ ts) h = omega (arith, count-remove_at p i x ts h)

count_of-put :
    (a b : Text) (n : ℕ) (d : Dict Text ℕ)
    → count_of b (put a n d) ≡ (if text_eq a b then n else count_of b d)
unfolding count_of count_or_zero
count_of-put a b n d = elim (Bool-cases (text_eq a b)) [
  | inl same ↦ rw (get-put a b n d, same)
  | inr other ↦ rw (get-put a b n d, other)
]

count_of-count_up :
    (a b : Text) (d : Dict Text ℕ) → count_of b (count_up a d) ≡ one_if (text_eq a b) + count_of b d
unfolding count_up
count_of-count_up a b d = elim (Bool-cases (text_eq a b)) [
  | inl same ↦
      let a≡b : a ≡ b = (text_key.same_iff a b).0 same in
      rw (count_of-put a b (count_of a d + 1) d, same, ap (λ k. count_of k d) a≡b) (omega arith)
  | inr other ↦ rw (count_of-put a b (count_of a d + 1) d, other) (omega arith)
]

count_of-count_down :
    (a b : Text) (d : Dict Text ℕ)
    → count_of b (count_down a d) ≡ count_of b d - one_if (text_eq a b)
unfolding count_down
count_of-count_down a b d = elim (Bool-cases (text_eq a b)) [
  | inl same ↦
      let a≡b : a ≡ b = (text_key.same_iff a b).0 same in
      rw (count_of-put a b (count_of a d - 1) d, same, ap (λ k. count_of k d) a≡b) (omega arith)
  | inr other ↦ rw (count_of-put a b (count_of a d - 1) d, other) (omega arith)
]

-- Of the account: what is counted is what there is.
abbrev pub AreCounted : Text → AccountConcurrency → Type 0
AreCounted b s =
    (count_of b s.waiting ≡ count (is_waiting b) s.tasks)
    × (count_of b s.inflight ≡ count (is_running b) s.tasks)

gate_at-AreCounted :
    (b a : Text) (limit : ℕ) (entry : Option (ℕ × ℕ)) (s : AccountConcurrency)
    → AreCounted b s
    → AreCounted b (gate_at a limit entry s).1
unfolding gate_at install
gate_at-AreCounted b a limit none s h = h
gate_at-AreCounted b a limit (some (known, g)) s h = elim (Bool-cases (eqb known limit)) [
  | inl same ↦ rw same h
  | inr other ↦ rw other h
]

wait_for-AreCounted :
    (b a : Text) (entered : ℕ × AccountConcurrency)
    → AreCounted b entered.1
    → AreCounted b (wait_for a entered)
unfolding wait_for count
wait_for-AreCounted b a (g, s) h =
    (omega (arith, count_of-count_up a b s.waiting, h.0), omega (arith, h.1))

enter-AreCounted :
    (b a : Text) (limit : ℤ) (s : AccountConcurrency)
    → AreCounted b s
    → AreCounted b (enter a limit s)
unfolding enter gate count
enter-AreCounted b a limit s h = elim (Bool-cases (ltb 0 (pos_part limit))) [
  | inl limited ↦ rw limited (
      wait_for-AreCounted b a (gate a (pos_part limit) s)
        (gate_at-AreCounted b a (pos_part limit) (get a s.gates) s h))
  | inr free ↦ rw free (omega (arith, h.0), omega (arith, count_of-count_up a b s.inflight, h.1))
]

take_permit-AreCounted :
    (b : Text) (i : ℕ) (a : Text) (g : ℕ) (semaphore : Option Gate) (s : AccountConcurrency)
    → at i s.tasks ≡ some (waits a g)
    → AreCounted b s
    → AreCounted b (take_permit i a g semaphore s)
unfolding take_permit
take_permit-AreCounted b i a g none s here h = h
take_permit-AreCounted b i a g (some semaphore) s here h =
    elim (Bool-cases (ltb 0 semaphore.free)) [
      | inl open_gate ↦ rw open_gate (
        omega (
          arith,
          count_of-count_down a b s.waiting,
          h.0,
          count-replace_at (is_waiting b) i (waits a g) (runs a (some g)) s.tasks here,
        ),
        omega (
          arith,
          count_of-count_up a b s.inflight,
          h.1,
          count-replace_at (is_running b) i (waits a g) (runs a (some g)) s.tasks here,
        ),
      )
      | inr full ↦ rw full h
    ]

acquire_at-AreCounted :
    (b : Text) (i : ℕ) (task : Option Task) (s : AccountConcurrency)
    → at i s.tasks ≡ task
    → AreCounted b s
    → AreCounted b (acquire_at i task s)
unfolding acquire_at
acquire_at-AreCounted b i none s here h = h
acquire_at-AreCounted b i (some (runs a g)) s here h = h
acquire_at-AreCounted b i (some (waits a g)) s here h =
    take_permit-AreCounted b i a g (at g s.made) s here h

leave_at-AreCounted :
    (b : Text) (i : ℕ) (task : Option Task) (s : AccountConcurrency)
    → at i s.tasks ≡ task
    → AreCounted b s
    → AreCounted b (leave_at i task s)
unfolding leave_at
leave_at-AreCounted b i none s here h = h
leave_at-AreCounted b i (some (waits a g)) s here h = (
  omega (
    arith,
    count_of-count_down a b s.waiting,
    h.0,
    count-remove_at (is_waiting b) i (waits a g) s.tasks here,
  ),
  omega (arith, h.1, count-remove_at (is_running b) i (waits a g) s.tasks here),
)
leave_at-AreCounted b i (some (runs a g)) s here h = (
  omega (arith, h.0, count-remove_at (is_waiting b) i (runs a g) s.tasks here),
  omega (
    arith,
    count_of-count_down a b s.inflight,
    h.1,
    count-remove_at (is_running b) i (runs a g) s.tasks here,
  ),
)

step-AreCounted :
    (b : Text) (e : Event) (s : AccountConcurrency) → AreCounted b s → AreCounted b (step e s)
unfolding step
step-AreCounted b (entered a limit) s h = enter-AreCounted b a limit s h
step-AreCounted b (acquired i) s h = acquire_at-AreCounted b i (at i s.tasks) s refl h
step-AreCounted b (left i) s h = leave_at-AreCounted b i (at i s.tasks) s refl h

run-AreCounted :
    (b : Text) (events : List Event) (s : AccountConcurrency)
    → AreCounted b s
    → AreCounted b (run events s)
unfolding run
run-AreCounted b [] s h = h
run-AreCounted b (e ∷ events) s h = run-AreCounted b events (step e s) (step-AreCounted b e s h)

empty-AreCounted : (b : Text) → AreCounted b account_concurrency
unfolding count_of count_or_zero get count
empty-AreCounted b = (refl, refl)

-- However turns enter, get their permits and leave, by an end, an error or cancellation, the counts of
-- an account are exactly its turns that wait and its turns in the body.
pub run-count_of :
    (events : List Event) (account_id : Text)
    → (count_of account_id (run events account_concurrency).waiting
        ≡ count (is_waiting account_id) (run events account_concurrency).tasks)
      × (count_of account_id (run events account_concurrency).inflight
          ≡ count (is_running account_id) (run events account_concurrency).tasks)
run-count_of events account_id =
    run-AreCounted account_id events account_concurrency (empty-AreCounted account_id)
