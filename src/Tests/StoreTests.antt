-- ===== src/Tests/StoreTests.antt =====
-- The store of session_store.py on small inputs.
use ciallo_ms_365_open_ai_pr.Prelude.{
  ℕ, ◌≡◌, ◌≤◌, ◌+◌, refl, true, List, [], ◌∷◌, some, length, arith, contains,
}
use ciallo_ms_365_open_ai_pr.Prelude.Text.{Text, codes, text_eq, text_key, starts_with}
use ciallo_ms_365_open_ai_pr.Dict.{get, put, pop, put_last}
use ciallo_ms_365_open_ai_pr.Session.{session}
use ciallo_ms_365_open_ai_pr.SessionStore.{
  PersistentSessionStore, session_store, write_now, flush_changes, on_flush_timer, save,
  schedule_flush, schedule_at, cancel, discard, evict_overflow, touch, get_at, get_session,
  existing_at, get_existing, remove, reset_session, in_scope, insert_newest, newest_first, is_old,
  old_keys, pop_all, scope_of, prune,
}
use ciallo_ms_365_open_ai_pr.SessionStore.Calls.{
  Call, get_call, existing_call, flush_call, change_call, step, run,
}
use ciallo_ms_365_open_ai_pr.SessionStore.Evict
use ciallo_ms_365_open_ai_pr.SessionStore.Pruned
use ciallo_ms_365_open_ai_pr.SessionStore.Bounded
use ciallo_ms_365_open_ai_pr.SessionStore.Flushed

program : Unit {0}
unfolding text_eq get put pop put_last contains starts_with session write_now flush_changes
    on_flush_timer save schedule_flush schedule_at cancel discard evict_overflow touch get_at
    get_session existing_at get_existing remove reset_session in_scope insert_newest newest_first
    is_old old_keys pop_all scope_of prune step run Flushed.succeeds Flushed.all_succeed
program = tt

abbrev calls : List Call
calls =
    get_call 1 (codes "c1") (codes "i1") true (codes "k:a")
    ∷ get_call 2 (codes "c2") (codes "i2") true (codes "k:b")
    ∷ existing_call 3 (codes "k:a")
    ∷ []

abbrev store : PersistentSessionStore ℕ
store = run (session_store 2 true 5) calls

abbrev pruned : List Text × PersistentSessionStore ℕ
pruned = prune 9 (codes "k:") 0 1 [] true store

newest_stays : pruned.0 ≡ codes "k:b" ∷ []
unfolding program
newest_stays = refl

get-get_session_example :
    (get (codes "k:c") (get_session 4 (codes "c3") (codes "i3") true (codes "k:c") store).1.sessions
      ≡ some (get_session 4 (codes "c3") (codes "i3") true (codes "k:c") store).0)
    × (get
          (codes "k:c")
          (reset_session 4 (codes "c3") (codes "i3") true (codes "k:c") store).1.sessions
        ≡ some (reset_session 4 (codes "c3") (codes "i3") true (codes "k:c") store).0)
unfolding program
get-get_session_example =
    Evict.get-get_session 4 (codes "c3") (codes "i3") true (codes "k:c") store (omega arith)

run-bounded_sessions_example :
    length (run (session_store {Context = ℕ} 2 true 5) calls).sessions ≤ 2
run-bounded_sessions_example = Bounded.run-bounded_sessions ℕ 2 5 true calls

prune_spares_example :
    get (codes "k:b") (prune 9 (codes "k:") 0 1 (codes "k:b" ∷ []) true store).1.sessions
    ≡ get (codes "k:b") store.sessions
unfolding program
prune_spares_example =
    Pruned.prune_spares 9 (codes "k:") 0 1 (codes "k:b" ∷ []) true store (codes "k:b") refl

-- A change that waits is written by `flush`, which cancels its timer; a session then changes again.
abbrev later : List Call
later =
    get_call 4 (codes "c") (codes "i") true (codes "k:a") ∷ flush_call true ∷ change_call true ∷ []

later_timer :
    ((run (session_store {Context = ℕ} 2 true 5) later).flush_timer ≡ some 1)
    × ((run (session_store {Context = ℕ} 2 true 5) later).timers ≡ 1 ∷ [])
unfolding program
later_timer = (refl, refl)

run-timer_example :
    Flushed.is_armed
      (run (session_store {Context = ℕ} 2 true 5) later).flush_timer
      (run (session_store {Context = ℕ} 2 true 5) later).timers
    ≡ true
unfolding program
run-timer_example = Flushed.run-timer ℕ 2 5 true later refl refl

run-writes_example :
    (run (session_store {Context = ℕ} 2 true 0) later).writes
      + Flushed.pending (run (session_store {Context = ℕ} 2 true 0) later).dirty
    ≤ (run (session_store {Context = ℕ} 2 true 0) later).changes
run-writes_example = Flushed.run-writes ℕ 2 0 true later
