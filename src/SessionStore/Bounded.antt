-- ===== src/SessionStore/Bounded.antt =====
-- The bound on the number of sessions.
use ciallo_ms_365_open_ai_pr.Prelude.{
  ℕ, ◌-◌, ◌≤◌, ◌≡◌, refl, sym, ◌∙◌, ap, inl, inr, Bool, Option, none, some, List, [], ◌∷◌, arith,
  if◌then◌else◌, length, length-append, length-drop, is_some, Bool-cases,
}
use mathlib.Core.Path.{subst}
use ciallo_ms_365_open_ai_pr.Prelude.Text.{Text, text_key, is_empty}
use ciallo_ms_365_open_ai_pr.Dict.{Dict, get, put, pop, put_last}
use ciallo_ms_365_open_ai_pr.Dict.Laws.{length-pop-le, length-pop-lt, contains-keys}
use ciallo_ms_365_open_ai_pr.Session.{Session, session}
use ciallo_ms_365_open_ai_pr.SessionStore.{
  PersistentSessionStore, session_store, save, evict_overflow, touch, old_keys, scope_of,
  get_session, get_at, existing_at, get_existing, remove, reset_session, pop_all, prune,
  flush_changes, on_flush_timer,
}
use ciallo_ms_365_open_ai_pr.SessionStore.Calls.{
  Call, get_call, existing_call, remove_call, reset_call, prune_call, change_call, flush_call,
  timer_call, step, run,
}
use ciallo_ms_365_open_ai_pr.SessionStore.Kept.{save-Kept, flush_changes-Kept}

abbrev pub Small : {Context : Type 0} → ℕ → PersistentSessionStore Context → Type 0
Small n s = (length s.sessions ≤ n) × (s.max_sessions ≡ n)

module _ {Context : Type 0} where
  save-Small :
      (n : ℕ) (ok : Bool) (s : PersistentSessionStore Context) → Small n s → Small n (save ok s)
  save-Small n ok s h =
      let kept = save-Kept ok s in
      (subst (λ (d : Dict Text (Session Context)). length d ≤ n) (sym kept.0) h.0, kept.1 ∙ h.1)

  flush_changes-Small :
      (n : ℕ) (ok : Bool) (s : PersistentSessionStore Context)
      → Small n s
      → Small n (flush_changes ok s)
  flush_changes-Small n ok s h =
      let kept = flush_changes-Kept ok s in
      (subst (λ (d : Dict Text (Session Context)). length d ≤ n) (sym kept.0) h.0, kept.1 ∙ h.1)

  evict_overflow-Small :
      (n : ℕ) (s : PersistentSessionStore Context) → s.max_sessions ≡ n → Small n (evict_overflow s)
  unfolding evict_overflow
  evict_overflow-Small n s h =
      (omega (arith, length-drop (length s.sessions - s.max_sessions) s.sessions), h)

  touch-Small :
      (n now : ℕ) (key : Text) (x : Session Context) (s : PersistentSessionStore Context)
      → get key s.sessions ≡ some x
      → Small n s
      → Small n (touch now key x s)
  unfolding touch put_last
  touch-Small n now key x s e h = (
    omega (
      arith,
      length-append (pop key s.sessions) ((key, record x { last_accessed = now }) ∷ []),
      length-pop-lt key s.sessions
          (contains-keys key s.sessions ∙ ap (λ (o : Option (Session Context)). is_some o) e),
      h.0,
    ),
    h.1,
  )

  length-pop_all :
      (removed : List Text) (d : Dict Text (Session Context))
      → length (pop_all removed d) ≤ length d
  unfolding pop_all
  length-pop_all [] d = omega arith
  length-pop_all (k ∷ removed) d =
      omega (arith, length-pop_all removed (pop k d), length-pop-le k d)

  remove-Small :
      (n : ℕ) (ok : Bool) (key : Text) (s : PersistentSessionStore Context)
      → Small n s
      → Small n (remove ok key s).1
  unfolding remove
  remove-Small n ok key s h = elim (Bool-cases (is_some (get key s.sessions))) [
    | inl known ↦ rw known (
        save-Small n ok (record s { sessions = pop key s.sessions })
          (omega (arith, length-pop-le key s.sessions, h.0), h.1))
    | inr unknown ↦ rw unknown h
  ]

  prune-Small :
      (n now : ℕ) (prefix : Text) (older_than keep_newest : ℕ) (protected : List Text) (ok : Bool)
      (s : PersistentSessionStore Context)
      → Small n s
      → Small n (prune now prefix older_than keep_newest protected ok s).1
  unfolding prune
  prune-Small n now prefix older_than keep_newest protected ok s h =
      go (old_keys now older_than keep_newest 0 (scope_of prefix protected s))
    where
      go :
          (r : List Text)
          → Small n (
              if is_empty r
              then record s { sessions = pop_all r s.sessions }
              else save ok (record s { sessions = pop_all r s.sessions }))
      go [] = unfold pop_all in h
      go (k ∷ r) =
          save-Small n ok (record s { sessions = pop_all (k ∷ r) s.sessions })
            (omega (arith, length-pop_all (k ∷ r) s.sessions, h.0), h.1)

  step-Small :
      (n : ℕ) (s : PersistentSessionStore Context) (c : Call) → Small n s → Small n (step s c)
  unfolding step
  step-Small n s (get_call now c cl ok key) h = unfold get_session in at (get key s.sessions) refl
    where
      at :
          (o : Option (Session Context))
          → get key s.sessions ≡ o
          → Small n (get_at now c cl ok key s o).1
      at none e =
          unfold get_at in
          save-Small n ok
            (evict_overflow (record s { sessions = put key (session now c cl) s.sessions }))
            (evict_overflow-Small n (record s { sessions = put key (session now c cl) s.sessions })
              h.1)
      at (some x) e = unfold get_at in touch-Small n now key x s e h
  step-Small n s (existing_call now key) h = unfold get_existing in at (get key s.sessions) refl
    where
      at :
          (o : Option (Session Context))
          → get key s.sessions ≡ o
          → Small n (existing_at now key s o).1
      at none e = unfold existing_at in h
      at (some x) e = unfold existing_at in touch-Small n now key x s e h
  step-Small n s (remove_call ok key) h = remove-Small n ok key s h
  step-Small n s (reset_call now c cl ok key) h =
      unfold reset_session in
      save-Small n ok
        (evict_overflow (record s { sessions = put_last key (session now c cl) s.sessions }))
        (evict_overflow-Small n (record s { sessions = put_last key (session now c cl) s.sessions })
          h.1)
  step-Small n s (prune_call now prefix older newest protected ok) h =
      prune-Small n now prefix older newest protected ok s h
  step-Small n s (flush_call ok) h = flush_changes-Small n ok s h
  step-Small n s (change_call ok) h = save-Small n ok s h
  step-Small n s (timer_call ok timer) h =
      unfold on_flush_timer in flush_changes-Small n ok _ (h.0, h.1)

  run-Small :
      (n : ℕ) (s : PersistentSessionStore Context) (calls : List Call)
      → Small n s
      → Small n (run s calls)
  unfolding run
  run-Small n s [] h = h
  run-Small n s (c ∷ calls) h = run-Small n (step s c) calls (step-Small n s c h)

-- Whatever the calls, a store holds at most `max_sessions` sessions.
pub run-bounded_sessions :
    (Context : Type 0) (n interval : ℕ) (persisted : Bool) (calls : List Call)
    → length (run (session_store {Context = Context} n persisted interval) calls).sessions ≤ n
run-bounded_sessions Context n interval persisted calls =
    (run-Small n (session_store n persisted interval) calls (omega arith, refl)).0
