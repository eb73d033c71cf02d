-- ===== src/AccountConcurrency.antt =====
-- account_concurrency.py: `AccountConcurrency`, the gates of the accounts and the counts of turns, with
-- the turns themselves as tasks. A semaphore has a limit and the permits that are free; a gate is
-- known by its place in the list of all that were made. Which waiting turn a free permit goes to is
-- the event's choice. The wrapper `ThrottledClient` holds the gate for the whole turn.
pub mod Counted
pub mod Gates
pub mod Permits
use ciallo_ms_365_open_ai_pr.Prelude.{
  ℕ, zero, suc, ◌+◌, ◌-◌, Bool, true, false, Option, none, some, List, [], ◌∷◌, ◌++◌, eqb, ltb,
  if◌then◌else◌, length,
}
use ciallo_ms_365_open_ai_pr.Prelude.Int.{ℤ, pos_part}
use ciallo_ms_365_open_ai_pr.Prelude.Text.{Text, text_key}
use ciallo_ms_365_open_ai_pr.Dict.{Dict, get, put}

-- An `asyncio.Semaphore`: what it was made with, and its counter.
pub record Gate : Type 0 where
  pub limit : ℕ
  pub free : ℕ

-- A turn inside `hold`: it waits for its gate, or it is in the body, with a gate or without.
pub data Task : Type 0 where
  waits : Text → ℕ → Task
  runs : Text → Option ℕ → Task

pub record AccountConcurrency : Type 0 where
  pub made : List Gate
  pub gates : Dict Text (ℕ × ℕ)
  pub inflight : Dict Text ℕ
  pub waiting : Dict Text ℕ
  pub tasks : List Task

abbrev pub account_concurrency : AccountConcurrency
account_concurrency = record { made = []; gates = []; inflight = []; waiting = []; tasks = [] }

module _ {ℓ} {A : Type ℓ} where
  unfoldable pub at : ℕ → List A → Option A
  at n [] = none
  at zero (x ∷ xs) = some x
  at (suc n) (x ∷ xs) = at n xs

  unfoldable pub replace_at : ℕ → A → List A → List A
  replace_at n y [] = []
  replace_at zero y (x ∷ xs) = y ∷ xs
  replace_at (suc n) y (x ∷ xs) = x ∷ replace_at n y xs

  unfoldable pub remove_at : ℕ → List A → List A
  remove_at n [] = []
  remove_at zero (x ∷ xs) = xs
  remove_at (suc n) (x ∷ xs) = x ∷ remove_at n xs

-- `counts.get(account_id, 0)`
unfoldable pub count_or_zero : Option ℕ → ℕ
count_or_zero none = 0
count_or_zero (some n) = n

unfoldable pub count_of : Text → Dict Text ℕ → ℕ
unfolding get count_or_zero
count_of account_id counts = count_or_zero (get account_id counts)

-- `counts[account_id] = counts.get(account_id, 0) + 1`
unfoldable pub count_up : Text → Dict Text ℕ → Dict Text ℕ
unfolding put count_of
count_up account_id counts = put account_id (count_of account_id counts + 1) counts

-- `counts[account_id] -= 1`
unfoldable pub count_down : Text → Dict Text ℕ → Dict Text ℕ
unfolding put count_of
count_down account_id counts = put account_id (count_of account_id counts - 1) counts

-- `_gate` where a fresh semaphore is installed.
unfoldable pub install : Text → ℕ → AccountConcurrency → ℕ × AccountConcurrency
unfolding put
install account_id limit s = (
  length s.made,
  record s {
    made = s.made ++ record { limit = limit; free = limit } ∷ [];
    gates = put account_id (limit, length s.made) s.gates;
  },
)

-- `_gate`, by the entry of the account.
unfoldable pub gate_at : Text → ℕ → Option (ℕ × ℕ) → AccountConcurrency → ℕ × AccountConcurrency
unfolding install
gate_at account_id limit none s = install account_id limit s
gate_at account_id limit (some (known, gate)) s =
    if eqb known limit then (gate, s) else install account_id limit s

unfoldable pub gate : Text → ℕ → AccountConcurrency → ℕ × AccountConcurrency
unfolding get gate_at
gate account_id limit s = gate_at account_id limit (get account_id s.gates) s

-- A turn that starts to wait.
unfoldable pub wait_for : Text → ℕ × AccountConcurrency → AccountConcurrency
unfolding count_up
wait_for account_id (g, s) = record s {
  waiting = count_up account_id s.waiting;
  tasks = waits account_id g ∷ s.tasks;
}

-- `hold` up to `gate.acquire()`, and into its body where there is no gate.
unfoldable pub enter : Text → ℤ → AccountConcurrency → AccountConcurrency
unfolding gate wait_for count_up
enter account_id limit s =
    if ltb 0 (pos_part limit)
    then wait_for account_id (gate account_id (pos_part limit) s)
    else record s {
      inflight = count_up account_id s.inflight;
      tasks = runs account_id none ∷ s.tasks;
    }

-- `gate.acquire()` returns where a permit is free: the turn is no longer waiting, and in the body.
unfoldable pub take_permit : ℕ → Text → ℕ → Option Gate → AccountConcurrency → AccountConcurrency
unfolding replace_at count_up count_down
take_permit i account_id g none s = s
take_permit i account_id g (some semaphore) s =
    if ltb 0 semaphore.free
    then record s {
      made = replace_at g (record semaphore { free = semaphore.free - 1 }) s.made;
      waiting = count_down account_id s.waiting;
      inflight = count_up account_id s.inflight;
      tasks = replace_at i (runs account_id (some g)) s.tasks;
    }
    else s

unfoldable pub acquire_at : ℕ → Option Task → AccountConcurrency → AccountConcurrency
unfolding at take_permit
acquire_at i none s = s
acquire_at i (some (runs account_id g)) s = s
acquire_at i (some (waits account_id g)) s = take_permit i account_id g (at g s.made) s

-- `gate.release()`
unfoldable pub give_back : ℕ → Option Gate → List Gate → List Gate
unfolding replace_at
give_back g none made = made
give_back g (some semaphore) made =
    replace_at g (record semaphore { free = semaphore.free + 1 }) made

-- `if gate is not None: gate.release()`
unfoldable pub release : Option ℕ → List Gate → List Gate
unfolding at give_back
release none made = made
release (some g) made = give_back g (at g made) made

-- The two `finally` blocks: a turn leaves its wait or its body, by its end, an error or cancellation.
unfoldable pub leave_at : ℕ → Option Task → AccountConcurrency → AccountConcurrency
unfolding remove_at count_down release
leave_at i none s = s
leave_at i (some (waits account_id g)) s = record s {
  waiting = count_down account_id s.waiting;
  tasks = remove_at i s.tasks;
}
leave_at i (some (runs account_id g)) s = record s {
  made = release g s.made;
  inflight = count_down account_id s.inflight;
  tasks = remove_at i s.tasks;
}

-- What may happen next: a turn enters, the waiting turn at a place gets a permit, a turn leaves.
pub data Event : Type 0 where
  entered : Text → ℤ → Event
  acquired : ℕ → Event
  left : ℕ → Event

unfoldable pub step : Event → AccountConcurrency → AccountConcurrency
unfolding enter at acquire_at leave_at
step (entered account_id limit) s = enter account_id limit s
step (acquired i) s = acquire_at i (at i s.tasks) s
step (left i) s = leave_at i (at i s.tasks) s

unfoldable pub run : List Event → AccountConcurrency → AccountConcurrency
unfolding step
run [] s = s
run (e ∷ events) s = run events (step e s)
