-- ===== src/SessionStore.antt =====
-- session_store.py: `PersistentSessionStore`, without loading and without what is written. The
-- outcome of the disk is the argument `ok` of each call that may write. A timer is a number:
-- `flush_timer` is the one that `_flush_timer` names, `timers` are those that were started and have
-- neither fired nor been cancelled. `prune` compares idle times; logging is left out.
pub mod Kept
pub mod Evict
pub mod Calls
pub mod Bounded
pub mod Pruned
pub mod Flushed
use ciallo_ms_365_open_ai_pr.Prelude.{
  ℕ, zero, suc, ◌+◌, ◌-◌, Bool, true, false, not, ◌&&◌, ◌||◌, Option, none, some, List, [], ◌∷◌,
  ltb, leb, if◌then◌else◌, length, drop, contains, select, is_some, eqb,
}
use ciallo_ms_365_open_ai_pr.Prelude.Text.{Text, text_key, starts_with, is_empty}
use ciallo_ms_365_open_ai_pr.Dict.{Dict, keys, get, put, pop, put_last}
use ciallo_ms_365_open_ai_pr.Session.{Session, session}

pub record PersistentSessionStore (Context : Type 0) : Type 0 where
  pub sessions : Dict Text (Session Context)
  pub max_sessions : ℕ
  pub persisted : Bool
  pub flush_interval : ℕ
  pub dirty : Bool
  pub flush_timer : Option ℕ
  pub timers : List ℕ
  pub next_timer : ℕ
  pub changes : ℕ
  pub writes : ℕ

-- Without the timer.
unfoldable pub discard : ℕ → List ℕ → List ℕ
discard timer [] = []
discard timer (t ∷ timers) =
    let rest = discard timer timers in if eqb t timer then rest else t ∷ rest

-- `timer.cancel()`, if there is one: it will not fire.
unfoldable pub cancel : Option ℕ → List ℕ → List ℕ
cancel none timers = timers
cancel (some timer) timers = discard timer timers

module _ {Context : Type 0} where
  -- `PersistentSessionStore(...)` with no file to load
  abbrev pub session_store : ℕ → Bool → ℕ → PersistentSessionStore Context
  session_store n persisted interval = record {
    sessions = [];
    max_sessions = n;
    persisted = persisted;
    flush_interval = interval;
    dirty = false;
    flush_timer = none;
    timers = [];
    next_timer = 0;
    changes = 0;
    writes = 0;
  }

  -- `_write_now`
  unfoldable pub write_now : Bool → PersistentSessionStore Context → PersistentSessionStore Context
  write_now ok s =
      if not s.persisted
      then s
      else if ok
      then record s { writes = s.writes + 1 }
      else record s { dirty = true }

  -- `flush`
  unfoldable pub flush_changes :
      Bool → PersistentSessionStore Context → PersistentSessionStore Context
  flush_changes ok s =
      let timers = cancel s.flush_timer s.timers in
      if not s.dirty
      then record s { flush_timer = none; timers = timers }
      else write_now ok (record s { flush_timer = none; timers = timers; dirty = false })

  -- `_on_flush_timer`
  unfoldable pub on_flush_timer :
      Bool → PersistentSessionStore Context → PersistentSessionStore Context
  on_flush_timer ok s = flush_changes ok (record s { flush_timer = none })

  -- `_schedule_flush`, by what `self._flush_timer` is
  unfoldable pub schedule_at :
      Option ℕ → PersistentSessionStore Context → PersistentSessionStore Context
  schedule_at (some timer) s = s
  schedule_at none s = record s {
    flush_timer = some s.next_timer;
    timers = s.next_timer ∷ s.timers;
    next_timer = s.next_timer + 1;
  }

  unfoldable pub schedule_flush : PersistentSessionStore Context → PersistentSessionStore Context
  schedule_flush s = schedule_at s.flush_timer s

  -- `_save`
  unfoldable pub save : Bool → PersistentSessionStore Context → PersistentSessionStore Context
  save ok s =
      if not s.persisted
      then s
      else if ltb 0 s.flush_interval
      then schedule_flush (record s { changes = s.changes + 1; dirty = true })
      else flush_changes ok (record s { changes = s.changes + 1; dirty = true })

  -- `_evict_overflow`
  unfoldable pub evict_overflow : PersistentSessionStore Context → PersistentSessionStore Context
  evict_overflow s = record s { sessions = drop (length s.sessions - s.max_sessions) s.sessions }

  -- `get`, `get_existing` of a known key
  unfoldable pub touch :
      ℕ → Text → Session Context → PersistentSessionStore Context → PersistentSessionStore Context
  touch now key x s = record s {
    sessions = put_last key (record x { last_accessed = now }) s.sessions;
  }

  -- `get`, by what `self._sessions.get(key)` is: the session with its new time, or a fresh one.
  unfoldable pub get_at :
      ℕ
      → Text
      → Text
      → Bool
      → Text
      → PersistentSessionStore Context
      → Option (Session Context)
      → Session Context × PersistentSessionStore Context
  get_at now conversation client ok key s none =
      let fresh = session now conversation client in
      (fresh, save ok (evict_overflow (record s { sessions = put key fresh s.sessions })))
  get_at now conversation client ok key s (some x) =
      (record x { last_accessed = now }, touch now key x s)

  unfoldable pub get_session :
      ℕ
      → Text
      → Text
      → Bool
      → Text
      → PersistentSessionStore Context
      → Session Context × PersistentSessionStore Context
  get_session now conversation client ok key s =
      get_at now conversation client ok key s (get key s.sessions)

  unfoldable pub existing_at :
      ℕ
      → Text
      → PersistentSessionStore Context
      → Option (Session Context)
      → Option (Session Context) × PersistentSessionStore Context
  existing_at now key s none = (none, s)
  existing_at now key s (some x) = (some (record x { last_accessed = now }), touch now key x s)

  unfoldable pub get_existing :
      ℕ
      → Text
      → PersistentSessionStore Context
      → Option (Session Context) × PersistentSessionStore Context
  get_existing now key s = existing_at now key s (get key s.sessions)

  unfoldable pub remove :
      Bool → Text → PersistentSessionStore Context → Bool × PersistentSessionStore Context
  remove ok key s =
      if is_some (get key s.sessions)
      then (true, save ok (record s { sessions = pop key s.sessions }))
      else (false, s)

  -- `reset`
  unfoldable pub reset_session :
      ℕ
      → Text
      → Text
      → Bool
      → Text
      → PersistentSessionStore Context
      → Session Context × PersistentSessionStore Context
  reset_session now conversation client ok key s =
      let fresh = session now conversation client in
      (fresh, save ok (evict_overflow (record s { sessions = put_last key fresh s.sessions })))

  unfoldable pub in_scope : Text → List Text → Text × Session Context → Bool
  in_scope prefix protected (key, x) = starts_with prefix key && not (contains key protected)

  -- `scoped.sort(key=last_accessed, reverse=True)`, which keeps the order of equal times
  unfoldable pub insert_newest :
      Text × Session Context → Dict Text (Session Context) → Dict Text (Session Context)
  insert_newest x [] = x ∷ []
  insert_newest x (y ∷ ys) =
      let rest = insert_newest x ys in
      if leb y.1.last_accessed x.1.last_accessed then x ∷ y ∷ ys else y ∷ rest

  unfoldable pub newest_first : Dict Text (Session Context) → Dict Text (Session Context)
  newest_first [] = []
  newest_first (x ∷ xs) = insert_newest x (newest_first xs)

  unfoldable pub is_old : ℕ → ℕ → ℕ → ℕ → Session Context → Bool
  is_old now older_than keep_newest index x =
      (ltb 0 older_than && ltb older_than (now - x.last_accessed))
      || (ltb 0 keep_newest && leb keep_newest index)

  -- `removed`, from the index on
  unfoldable pub old_keys : ℕ → ℕ → ℕ → ℕ → Dict Text (Session Context) → List Text
  old_keys now older_than keep_newest index [] = []
  old_keys now older_than keep_newest index ((key, x) ∷ xs) =
      let rest = old_keys now older_than keep_newest (index + 1) xs in
      if is_old now older_than keep_newest index x then key ∷ rest else rest

  -- `for key in removed: del self._sessions[key]`
  unfoldable pub pop_all : List Text → Dict Text (Session Context) → Dict Text (Session Context)
  pop_all [] sessions = sessions
  pop_all (key ∷ removed) sessions = pop_all removed (pop key sessions)

  unfoldable pub scope_of :
      Text → List Text → PersistentSessionStore Context → Dict Text (Session Context)
  scope_of prefix protected s = newest_first (select (in_scope prefix protected) s.sessions)

  unfoldable pub prune :
      ℕ
      → Text
      → ℕ
      → ℕ
      → List Text
      → Bool
      → PersistentSessionStore Context
      → List Text × PersistentSessionStore Context
  prune now prefix older_than keep_newest protected ok s =
      let removed = old_keys now older_than keep_newest 0 (scope_of prefix protected s) in
      let pruned = record s { sessions = pop_all removed s.sessions } in
      (removed, if is_empty removed then pruned else save ok pruned)
