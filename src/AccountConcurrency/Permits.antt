-- ===== src/AccountConcurrency/Permits.antt =====
-- The permits of the gates: the turns in the body that hold a gate never exceed its limit.
use ciallo_ms_365_open_ai_pr.Prelude.{
  ℕ, ◌+◌, ◌-◌, ◌≤◌, ◌<◌, ◌≡◌, refl, sym, ◌∙◌, ap, inl, inr, Bool, true, false, Option, none, some,
  List, [], ◌∷◌, eqb, ltb, arith, if◌then◌else◌, length, length-append, Bool-cases,
}
use mathlib.Core.Path.{subst}
use ciallo_ms_365_open_ai_pr.Prelude.Int.{ℤ, pos_part}
use ciallo_ms_365_open_ai_pr.Prelude.Text.{Text, text_key, text_eq}
use ciallo_ms_365_open_ai_pr.Dict.{Dict, get, put, get-put}
use ciallo_ms_365_open_ai_pr.AccountConcurrency.{
  Gate, Task, waits, runs, AccountConcurrency, account_concurrency, at, replace_at, remove_at,
  install, gate_at, gate, wait_for, enter, take_permit, acquire_at, give_back, release, leave_at,
  count_up, count_down, Event, entered, acquired, left, step, run,
}
use ciallo_ms_365_open_ai_pr.AccountConcurrency.Gates.{
  gate_free, gate_limit, at-append, at-length, length-replace_at, limit-replace_at, free-replace_at,
  free_here,
}
use ciallo_ms_365_open_ai_pr.AccountConcurrency.Counted.{count, count-replace_at, count-remove_at}

-- A turn in the body that holds the gate.
abbrev pub holds : ℕ → Task → Bool
holds g (waits a h) = false
holds g (runs a none) = false
holds g (runs a (some h)) = eqb h g

abbrev entry_limit : Option (ℕ × ℕ) → ℕ
entry_limit none = 0
entry_limit (some e) = e.0

abbrev entry_gate : Option (ℕ × ℕ) → ℕ
entry_gate none = 0
entry_gate (some e) = e.1

-- Each gate has as many permits as its limit: the free ones and those of the turns that hold it.
abbrev ArePermitted : AccountConcurrency → Type 0
ArePermitted s =
    ((g : ℕ) → gate_free (at g s.made) + count (holds g) s.tasks ≡ gate_limit (at g s.made))
    × ((a : Text) (l g : ℕ)
        → get a s.gates ≡ some (l, g)
        → (g < length s.made) × (gate_limit (at g s.made) ≡ l))

-- A gate with another number of free permits, as the turns that hold it are more or fewer.
ArePermitted-replace_at :
    (s : AccountConcurrency) (g : ℕ) (x y : Gate) (tasks : List Task)
    (waiting inflight : Dict Text ℕ)
    → at g s.made ≡ some x
    → y.limit ≡ x.limit
    → ((k : ℕ)
        → count (holds k) tasks + (if eqb g k then y.free else gate_free (at k s.made))
          ≡ count (holds k) s.tasks + gate_free (at k s.made))
    → ArePermitted s
    → ArePermitted (record s {
      made = replace_at g y s.made;
      waiting = waiting;
      inflight = inflight;
      tasks = tasks;
    })
ArePermitted-replace_at s g x y tasks waiting inflight here same moved h = (
  λ k. omega (
    arith,
    free-replace_at k g x y s.made here,
    limit-replace_at k g x y s.made here same,
    moved k,
    h.0 k,
  ),
  λ a l k found. (
    rw (length-replace_at g y s.made) (h.1 a l k found).0,
    limit-replace_at k g x y s.made here same ∙ (h.1 a l k found).1,
  ),
)

install-ArePermitted :
    (a : Text) (limit : ℕ) (s : AccountConcurrency)
    → ArePermitted s
    → ArePermitted (install a limit s).1
unfolding install
install-ArePermitted a limit s h = (
  λ k. elim (Bool-cases (eqb k (length s.made))) [
    | inl new ↦
        let count_none : count (holds k) s.tasks ≡ 0 =
          none_held k (at-length k s.made (ground arith)) in
        rw (at-append k fresh s.made, new, count_none) (omega arith)
    | inr old ↦ rw (at-append k fresh s.made, old) (h.0 k)
  ],
  λ b l k found. elim (Bool-cases (text_eq a b)) [
    | inl same ↦
        let stored : some (limit, length s.made) ≡ some (l, k) =
          sym (rw (get-put a b (limit, length s.made) s.gates, same)) ∙ found in
        let k≡ : length s.made ≡ k = ap entry_gate stored in
        let new : eqb k (length s.made) ≡ true = ground (arith, k≡) in
        (
          rw (length-append s.made (fresh ∷ [])) (omega (arith, k≡)),
          rw (at-append k fresh s.made, new) (ap entry_limit stored),
        )
    | inr other ↦
        let kept : get b (put a (limit, length s.made) s.gates) ≡ get b s.gates =
          rw (get-put a b (limit, length s.made) s.gates, other) in
        let old = h.1 b l k (sym kept ∙ found) in
        let differs : eqb k (length s.made) ≡ false = ground (arith, old.0) in
        (
          rw (length-append s.made (fresh ∷ [])) (omega (arith, old.0)),
          rw (at-append k fresh s.made, differs) old.1,
        )
  ],
)
  where
    fresh : Gate
    fresh = record { limit = limit; free = limit }

    none_held : (k : ℕ) → at k s.made ≡ none → count (holds k) s.tasks ≡ 0
    none_held k empty =
        let total : 0 + count (holds k) s.tasks ≡ 0 =
          subst (λ (x : Option Gate). gate_free x + count (holds k) s.tasks ≡ gate_limit x) empty
            (h.0 k) in
        omega (arith, total)

gate_at-ArePermitted :
    (a : Text) (limit : ℕ) (entry : Option (ℕ × ℕ)) (s : AccountConcurrency)
    → ArePermitted s
    → ArePermitted (gate_at a limit entry s).1
unfolding gate_at
gate_at-ArePermitted a limit none s h = install-ArePermitted a limit s h
gate_at-ArePermitted a limit (some (known, g)) s h = elim (Bool-cases (eqb known limit)) [
  | inl same ↦ rw same h
  | inr other ↦ rw other (install-ArePermitted a limit s h)
]

wait_for-ArePermitted :
    (a : Text) (entered : ℕ × AccountConcurrency)
    → ArePermitted entered.1
    → ArePermitted (wait_for a entered)
unfolding wait_for count
wait_for-ArePermitted a (g, s) h = (λ k. omega (arith, h.0 k), h.1)

enter-ArePermitted :
    (a : Text) (limit : ℤ) (s : AccountConcurrency)
    → ArePermitted s
    → ArePermitted (enter a limit s)
unfolding enter gate count
enter-ArePermitted a limit s h = elim (Bool-cases (ltb 0 (pos_part limit))) [
  | inl limited ↦ rw limited (
      wait_for-ArePermitted a (gate a (pos_part limit) s)
        (gate_at-ArePermitted a (pos_part limit) (get a s.gates) s h))
  | inr free ↦ rw free (λ k. omega (arith, h.0 k), h.1)
]

take_permit-ArePermitted :
    (i : ℕ) (a : Text) (g : ℕ) (semaphore : Option Gate) (s : AccountConcurrency)
    → at g s.made ≡ semaphore
    → at i s.tasks ≡ some (waits a g)
    → ArePermitted s
    → ArePermitted (take_permit i a g semaphore s)
unfolding take_permit
take_permit-ArePermitted i a g none s gate_here here h = h
take_permit-ArePermitted i a g (some x) s gate_here here h = elim (Bool-cases (ltb 0 x.free)) [
  | inl open_gate ↦ rw open_gate (
      ArePermitted-replace_at s g x (record x { free = x.free - 1 })
        (replace_at i (runs a (some g)) s.tasks) (count_down a s.waiting) (count_up a s.inflight)
        gate_here refl (λ k. taken k open_gate) h)
  | inr full ↦ rw full h
]
  where
    taken :
        (k : ℕ)
        → ltb 0 x.free ≡ true
        → count (holds k) (replace_at i (runs a (some g)) s.tasks)
            + (if eqb g k then x.free - 1 else gate_free (at k s.made))
          ≡ count (holds k) s.tasks + gate_free (at k s.made)
    taken k positive =
        let moved = count-replace_at (holds k) i (waits a g) (runs a (some g)) s.tasks here in
        elim (Bool-cases (eqb g k)) [
          | inl same ↦ ground (arith, moved, free_here g k x s.made gate_here (ground arith))
          | inr other ↦ ground (arith, moved)
        ]

-- A turn leaves the body: its permit is free again.
give_back-ArePermitted :
    (i : ℕ) (a : Text) (g : ℕ) (semaphore : Option Gate) (inflight : Dict Text ℕ)
    (s : AccountConcurrency)
    → at g s.made ≡ semaphore
    → at i s.tasks ≡ some (runs a (some g))
    → ArePermitted s
    → ArePermitted (record s {
      made = give_back g semaphore s.made;
      inflight = inflight;
      tasks = remove_at i s.tasks;
    })
unfolding give_back
give_back-ArePermitted i a g none inflight s gate_here here h = absurd (omega (arith, total, gone))
  where
    total : 0 + count (holds g) s.tasks ≡ 0
    total =
        subst (λ (x : Option Gate). gate_free x + count (holds g) s.tasks ≡ gate_limit x) gate_here
          (h.0 g)

    gone : count (holds g) (remove_at i s.tasks) + 1 ≡ count (holds g) s.tasks
    gone =
        let less = count-remove_at (holds g) i (runs a (some g)) s.tasks here in
        ground (arith, less)
give_back-ArePermitted i a g (some x) inflight s gate_here here h =
    ArePermitted-replace_at s g x (record x { free = x.free + 1 }) (remove_at i s.tasks) s.waiting
      inflight gate_here refl freed h
  where
    freed :
        (k : ℕ)
        → count (holds k) (remove_at i s.tasks)
            + (if eqb g k then x.free + 1 else gate_free (at k s.made))
          ≡ count (holds k) s.tasks + gate_free (at k s.made)
    freed k =
        let less = count-remove_at (holds k) i (runs a (some g)) s.tasks here in
        elim (Bool-cases (eqb g k)) [
          | inl same ↦ ground (arith, less, free_here g k x s.made gate_here (ground arith))
          | inr other ↦ ground (arith, less)
        ]

leave_at-ArePermitted :
    (i : ℕ) (task : Option Task) (s : AccountConcurrency)
    → at i s.tasks ≡ task
    → ArePermitted s
    → ArePermitted (leave_at i task s)
unfolding leave_at release
leave_at-ArePermitted i none s here h = h
leave_at-ArePermitted i (some (waits a g)) s here h =
    (λ k. omega (arith, h.0 k, count-remove_at (holds k) i (waits a g) s.tasks here), h.1)
leave_at-ArePermitted i (some (runs a none)) s here h =
    (λ k. omega (arith, h.0 k, count-remove_at (holds k) i (runs a none) s.tasks here), h.1)
leave_at-ArePermitted i (some (runs a (some g))) s here h =
    give_back-ArePermitted i a g (at g s.made) (count_down a s.inflight) s refl here h

acquire_at-ArePermitted :
    (i : ℕ) (task : Option Task) (s : AccountConcurrency)
    → at i s.tasks ≡ task
    → ArePermitted s
    → ArePermitted (acquire_at i task s)
unfolding acquire_at
acquire_at-ArePermitted i none s here h = h
acquire_at-ArePermitted i (some (runs a g)) s here h = h
acquire_at-ArePermitted i (some (waits a g)) s here h =
    take_permit-ArePermitted i a g (at g s.made) s refl here h

step-ArePermitted : (e : Event) (s : AccountConcurrency) → ArePermitted s → ArePermitted (step e s)
unfolding step
step-ArePermitted (entered a limit) s h = enter-ArePermitted a limit s h
step-ArePermitted (acquired i) s h = acquire_at-ArePermitted i (at i s.tasks) s refl h
step-ArePermitted (left i) s h = leave_at-ArePermitted i (at i s.tasks) s refl h

run-ArePermitted :
    (events : List Event) (s : AccountConcurrency) → ArePermitted s → ArePermitted (run events s)
unfolding run
run-ArePermitted [] s h = h
run-ArePermitted (e ∷ events) s h = run-ArePermitted events (step e s) (step-ArePermitted e s h)

empty-ArePermitted : ArePermitted account_concurrency
unfolding get count at
empty-ArePermitted = (λ k. refl, λ a l g found. cc)

-- However turns enter, get their permits and leave, the turns in the body that hold the current gate
-- of an account are at most the limit that the gate was made with.
pub run-holds :
    (events : List Event) (account_id : Text) (limit g : ℕ)
    → get account_id (run events account_concurrency).gates ≡ some (limit, g)
    → count (holds g) (run events account_concurrency).tasks ≤ limit
run-holds events account_id limit g current =
    let kept = run-ArePermitted events account_concurrency empty-ArePermitted in
    omega (arith, kept.0 g, (kept.1 account_id limit g current).1)
