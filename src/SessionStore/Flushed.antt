-- ===== src/SessionStore/Flushed.antt =====
-- The coalesced writes: what is counted, and that a change that waits has its timer.
use ciallo_ms_365_open_ai_pr.Prelude.{
  ℕ, ◌+◌, ◌≤◌, ◌≡◌, refl, inl, inr, Bool, true, false, not, ◌&&◌, ◌||◌, Option, none, some, List,
  [], ◌∷◌, arith, if◌then◌else◌, is_some, Bool-cases, ltb, eqb,
}
use ciallo_ms_365_open_ai_pr.Prelude.Text.{Text, text_key, is_empty}
use ciallo_ms_365_open_ai_pr.Dict.{Dict, get, pop}
use ciallo_ms_365_open_ai_pr.Session.{Session}
use ciallo_ms_365_open_ai_pr.SessionStore.{
  PersistentSessionStore, session_store, write_now, save, evict_overflow, touch, old_keys, scope_of,
  get_session, get_at, existing_at, get_existing, remove, reset_session, pop_all, prune,
  flush_changes, on_flush_timer, schedule_flush, schedule_at, discard,
}
use ciallo_ms_365_open_ai_pr.SessionStore.Calls.{
  Call, get_call, existing_call, remove_call, reset_call, prune_call, change_call, flush_call,
  timer_call, step, run,
}

abbrev pub pending : Bool → ℕ
pending true = 1
pending false = 0

-- The disk takes what the call writes.
unfoldable pub succeeds : Call → Bool
succeeds (get_call now c cl ok key) = ok
succeeds (existing_call now key) = true
succeeds (remove_call ok key) = ok
succeeds (reset_call now c cl ok key) = ok
succeeds (prune_call now prefix older newest protected ok) = ok
succeeds (flush_call ok) = ok
succeeds (change_call ok) = ok
succeeds (timer_call ok timer) = ok

unfoldable pub all_succeed : List Call → Bool
all_succeed [] = true
all_succeed (c ∷ calls) = succeeds c && all_succeed calls

-- What sessions do not matter for, and saving and flushing keep, every call keeps. With `free` the
-- disk may fail.
module _ {Context : Type 0} (P : PersistentSessionStore Context → Type 0) (free : Bool)
    (moved : (d : Dict Text (Session Context)) (s : PersistentSessionStore Context)
      → P s
      → P (record s { sessions = d }))
    (saved : (ok : Bool) (s : PersistentSessionStore Context)
      → (ok || free) ≡ true
      → P s
      → P (save ok s))
    (flushed : (ok : Bool) (s : PersistentSessionStore Context)
      → (ok || free) ≡ true
      → P s
      → P (flush_changes ok s))
    (fired : (ok : Bool) (timer : ℕ) (s : PersistentSessionStore Context)
      → (ok || free) ≡ true
      → P s
      → P (on_flush_timer ok (record s { timers = discard timer s.timers }))) where
  keeps-get_at :
      (now : ℕ) (c cl key : Text) (ok : Bool) (s : PersistentSessionStore Context)
      (o : Option (Session Context))
      → (ok || free) ≡ true
      → P s
      → P (get_at now c cl ok key s o).1
  unfolding get_at evict_overflow touch
  keeps-get_at now c cl key ok s none f h = saved ok _ f (moved _ s h)
  keeps-get_at now c cl key ok s (some x) f h = moved _ s h

  keeps-existing_at :
      (now : ℕ) (key : Text) (s : PersistentSessionStore Context) (o : Option (Session Context))
      → P s
      → P (existing_at now key s o).1
  unfolding existing_at touch
  keeps-existing_at now key s none h = h
  keeps-existing_at now key s (some x) h = moved _ s h

  keeps-remove :
      (ok : Bool) (key : Text) (s : PersistentSessionStore Context)
      → (ok || free) ≡ true
      → P s
      → P (remove ok key s).1
  unfolding remove
  keeps-remove ok key s f h = elim (Bool-cases (is_some (get key s.sessions))) [
    | inl known ↦ rw known (saved ok _ f (moved (pop key s.sessions) s h))
    | inr unknown ↦ rw unknown h
  ]

  keeps-prune :
      (now : ℕ) (prefix : Text) (older newest : ℕ) (protected : List Text) (ok : Bool)
      (s : PersistentSessionStore Context)
      → (ok || free) ≡ true
      → P s
      → P (prune now prefix older newest protected ok s).1
  unfolding prune
  keeps-prune now prefix older newest protected ok s f h =
      go (old_keys now older newest 0 (scope_of prefix protected s))
    where
      go :
          (r : List Text)
          → P (
              if is_empty r
              then record s { sessions = pop_all r s.sessions }
              else save ok (record s { sessions = pop_all r s.sessions }))
      go [] = moved (pop_all [] s.sessions) s h
      go (k ∷ r) = saved ok _ f (moved (pop_all (k ∷ r) s.sessions) s h)

  keeps-step :
      (s : PersistentSessionStore Context) (c : Call)
      → (succeeds c || free) ≡ true
      → P s
      → P (step s c)
  unfolding step succeeds get_session get_existing reset_session evict_overflow
  keeps-step s (get_call now c cl ok key) f h =
      keeps-get_at now c cl key ok s (get key s.sessions) f h
  keeps-step s (existing_call now key) f h = keeps-existing_at now key s (get key s.sessions) h
  keeps-step s (remove_call ok key) f h = keeps-remove ok key s f h
  keeps-step s (reset_call now c cl ok key) f h = saved ok _ f (moved _ s h)
  keeps-step s (prune_call now prefix older newest protected ok) f h =
      keeps-prune now prefix older newest protected ok s f h
  keeps-step s (flush_call ok) f h = flushed ok s f h
  keeps-step s (change_call ok) f h = saved ok s f h
  keeps-step s (timer_call ok timer) f h = fired ok timer s f h

  keeps-run :
      (s : PersistentSessionStore Context) (calls : List Call)
      → (all_succeed calls || free) ≡ true
      → P s
      → P (run s calls)
  unfolding run all_succeed
  keeps-run s [] f h = h
  keeps-run s (c ∷ calls) f h =
      keeps-run (step s c) calls (ground arith) (keeps-step s c (ground arith) h)

unfoldable pub is_running : ℕ → List ℕ → Bool
is_running timer [] = false
is_running timer (t ∷ timers) = eqb t timer || is_running timer timers

-- A timer that is named and will fire.
unfoldable pub is_armed : Option ℕ → List ℕ → Bool
is_armed none timers = false
is_armed (some timer) timers = is_running timer timers

module _ {Context : Type 0} where
  -- Each write answers a change of its own, and so does the one that waits.
  abbrev Counted : PersistentSessionStore Context → Type 0
  Counted s = s.writes + pending s.dirty ≤ s.changes

  -- Where a change waits or a timer is named, the named timer will fire.
  abbrev Armed : PersistentSessionStore Context → Type 0
  Armed s = (not (s.dirty || is_some s.flush_timer) || is_armed s.flush_timer s.timers) ≡ true

  flush_changes-Counted :
      (ok : Bool) (s : PersistentSessionStore Context) → Counted s → Counted (flush_changes ok s)
  unfolding flush_changes write_now
  flush_changes-Counted ok s h = ground arith

  schedule_flush-Counted :
      (s : PersistentSessionStore Context) → Counted s → Counted (schedule_flush s)
  unfolding schedule_flush
  schedule_flush-Counted s h = go s.flush_timer
    where
      go : (o : Option ℕ) → Counted (schedule_at o s)
      go none = unfold schedule_at in h
      go (some timer) = unfold schedule_at in h

  save-Counted : (ok : Bool) (s : PersistentSessionStore Context) → Counted s → Counted (save ok s)
  unfolding save
  save-Counted ok s h =
      let changed = record s { persisted = true; changes = s.changes + 1; dirty = true } in
      let more : s.writes + 1 ≤ s.changes + 1 = ground arith in
      elim (Bool-cases s.persisted) [
        | inr p ↦ rw p h
        | inl p ↦ rw p (elim (Bool-cases (ltb 0 s.flush_interval)) [
          | inl i ↦ rw i (schedule_flush-Counted changed more)
          | inr i ↦ rw i (flush_changes-Counted ok changed more)
        ])
      ]

  flush_changes-Armed :
      (ok : Bool) (s : PersistentSessionStore Context)
      → (ok || false) ≡ true
      → Armed (flush_changes ok s)
  unfolding flush_changes write_now
  flush_changes-Armed ok s f = ground arith

  -- The timer that is set is running; one that was set before still is.
  schedule_flush-Armed :
      (s : PersistentSessionStore Context)
      → (not (is_some s.flush_timer) || is_armed s.flush_timer s.timers) ≡ true
      → Armed (schedule_flush s)
  unfolding schedule_flush
  schedule_flush-Armed s h = go s.flush_timer refl
    where
      go : (o : Option ℕ) → s.flush_timer ≡ o → Armed (schedule_at o s)
      go none e = unfold schedule_at is_armed is_running in ground arith
      go (some timer) e = unfold schedule_at in grind arith

  save-Armed :
      (ok : Bool) (s : PersistentSessionStore Context)
      → (ok || false) ≡ true
      → Armed s
      → Armed (save ok s)
  unfolding save
  save-Armed ok s f h =
      let changed = record s { persisted = true; changes = s.changes + 1; dirty = true } in
      elim (Bool-cases s.persisted) [
        | inr p ↦ rw p h
        | inl p ↦ rw p (elim (Bool-cases (ltb 0 s.flush_interval)) [
          | inl i ↦ rw i (schedule_flush-Armed changed (ground (arith, h)))
          | inr i ↦ rw i (flush_changes-Armed ok changed f)
        ])
      ]

-- While the disk takes every write, after any calls a change that waits has its timer: the one that
-- the store names was started, and has neither fired nor been cancelled.
pub run-timer :
    (Context : Type 0) (n interval : ℕ) (persisted : Bool) (calls : List Call)
    → all_succeed calls ≡ true
    → (run (session_store {Context = Context} n persisted interval) calls).dirty ≡ true
    → is_armed
        (run (session_store {Context = Context} n persisted interval) calls).flush_timer
        (run (session_store {Context = Context} n persisted interval) calls).timers
      ≡ true
unfolding on_flush_timer
run-timer Context n interval persisted calls h waits =
    let armed =
      keeps-run {Context = Context} Armed false (λ d s a. a) save-Armed
        (λ ok s f a. flush_changes-Armed ok s f) (λ ok timer s f a. flush_changes-Armed ok _ f)
        (session_store n persisted interval) calls (ground arith) refl in
    ground (arith, armed)

-- Whatever the calls and whatever the disk does, there are at most as many writes as changes, and
-- at least one fewer while a change waits.
pub run-writes :
    (Context : Type 0) (n interval : ℕ) (persisted : Bool) (calls : List Call)
    → (run (session_store {Context = Context} n persisted interval) calls).writes
        + pending (run (session_store {Context = Context} n persisted interval) calls).dirty
      ≤ (run (session_store {Context = Context} n persisted interval) calls).changes
unfolding on_flush_timer
run-writes Context n interval persisted calls =
    keeps-run Counted true (λ d s h. h) (λ ok s f h. save-Counted ok s h)
      (λ ok s f h. flush_changes-Counted ok s h) (λ ok timer s f h. flush_changes-Counted ok _ h)
      (session_store n persisted interval) calls (ground arith) (omega arith)
