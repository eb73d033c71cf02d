-- ===== src/SessionStore/Evict.antt =====
-- The bound on sessions, and that the session that was asked for is never the one it drops.
use ciallo_ms_365_open_ai_pr.Prelude.{
  ℕ, zero, ◌≤◌, ◌≡◌, refl, ◌∙◌, ap, Bool, Option, none, some, arith, same_refl,
}
use ciallo_ms_365_open_ai_pr.Prelude.Text.{Text, text_key}
use ciallo_ms_365_open_ai_pr.Dict.{Dict, get, put, pop, put_last, get-pop}
use ciallo_ms_365_open_ai_pr.Dict.Laws.{put-new, pop-absent}
use ciallo_ms_365_open_ai_pr.Dict.Values.{get-evict_last, get-drop_last}
use ciallo_ms_365_open_ai_pr.Session.{Session, session}
use ciallo_ms_365_open_ai_pr.SessionStore.{
  PersistentSessionStore, save, evict_overflow, touch, get_session, get_at, reset_session,
}
use ciallo_ms_365_open_ai_pr.SessionStore.Kept.{save-Kept}

module _ {Context : Type 0} where
  get-put_last :
      (k : Text) (v : Session Context) (d : Dict Text (Session Context))
      → get k (put_last k v d) ≡ some v
  unfolding put_last
  get-put_last k v d =
      get-drop_last zero k v (pop k d) (ground (arith, get-pop k k d, same_refl k)) (omega arith)

  put-last :
      (k : Text) (v : Session Context) (d : Dict Text (Session Context))
      → get k d ≡ none
      → put k v d ≡ put_last k v d
  unfolding put_last
  put-last k v d h = put-new k v d h ∙ rw (pop-absent k d h) refl

  -- What `get` and `reset` leave under the key, after the bound, is the session they return.
  pub get-get_session :
      (now : ℕ) (conversation client : Text) (ok : Bool) (key : Text)
      (s : PersistentSessionStore Context)
      → 1 ≤ s.max_sessions
      → (get key (get_session now conversation client ok key s).1.sessions
          ≡ some (get_session now conversation client ok key s).0)
        × (get key (reset_session now conversation client ok key s).1.sessions
            ≡ some (reset_session now conversation client ok key s).0)
  unfolding get_session reset_session evict_overflow
  get-get_session now conversation client ok key s h = (found (get key s.sessions) refl, stored)
    where
      fresh : Session Context
      fresh = session now conversation client

      t : PersistentSessionStore Context
      t = record s { sessions = put_last key fresh s.sessions }

      stored : get key (save ok (evict_overflow t)).sessions ≡ some fresh
      stored =
          ap (λ (d : Dict Text (Session Context)). get key d) (save-Kept ok (evict_overflow t)).0
          ∙ get-evict_last s.max_sessions key fresh s.sessions h

      found :
          (o : Option (Session Context))
          → get key s.sessions ≡ o
          → get key (get_at now conversation client ok key s o).1.sessions
            ≡ some (get_at now conversation client ok key s o).0
      found none e = unfold get_at in rw (put-last key fresh s.sessions e) stored
      found (some x) e =
          unfold get_at touch in get-put_last key (record x { last_accessed = now }) s.sessions
