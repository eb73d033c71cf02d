-- ===== src/SessionStore/Calls.antt =====
-- The store as a machine: any sequence of calls.
use ciallo_ms_365_open_ai_pr.Prelude.{ℕ, Bool, List, [], ◌∷◌}
use ciallo_ms_365_open_ai_pr.Prelude.Text.{Text, text_key}
use ciallo_ms_365_open_ai_pr.SessionStore.{
  PersistentSessionStore, get_session, get_existing, remove, reset_session, prune, flush_changes,
  save, discard, on_flush_timer,
}

-- The calls on a store, with their times, identities and disk outcomes. A `change_call` is a session
-- of the store that calls its `_on_change`, which is the store's `_save`; what the session's own
-- method does to its fields is in Session. A `timer_call` is a timer that fires.
pub data Call : Type 0 where
  get_call : ℕ → Text → Text → Bool → Text → Call
  existing_call : ℕ → Text → Call
  remove_call : Bool → Text → Call
  reset_call : ℕ → Text → Text → Bool → Text → Call
  prune_call : ℕ → Text → ℕ → ℕ → List Text → Bool → Call
  change_call : Bool → Call
  flush_call : Bool → Call
  timer_call : Bool → ℕ → Call

module _ {Context : Type 0} where
  unfoldable pub step : PersistentSessionStore Context → Call → PersistentSessionStore Context
  step s (get_call now c cl ok key) = (get_session now c cl ok key s).1
  step s (existing_call now key) = (get_existing now key s).1
  step s (remove_call ok key) = (remove ok key s).1
  step s (reset_call now c cl ok key) = (reset_session now c cl ok key s).1
  step s (prune_call now prefix older newest protected ok) =
      (prune now prefix older newest protected ok s).1
  step s (flush_call ok) = flush_changes ok s
  step s (change_call ok) = save ok s
  step s (timer_call ok timer) = on_flush_timer ok (record s { timers = discard timer s.timers })

  unfoldable pub run : PersistentSessionStore Context → List Call → PersistentSessionStore Context
  run s [] = s
  run s (c ∷ calls) = run (step s c) calls
