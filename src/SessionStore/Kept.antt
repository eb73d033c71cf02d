-- ===== src/SessionStore/Kept.antt =====
-- Writing, now or later, changes no session.
use ciallo_ms_365_open_ai_pr.Prelude.{
  ◌+◌, ◌≡◌, refl, inl, inr, Bool, Option, none, some, ℕ, true, ltb, Bool-cases,
}
use ciallo_ms_365_open_ai_pr.SessionStore.{
  PersistentSessionStore, write_now, flush_changes, save, schedule_at, schedule_flush,
}

module _ {Context : Type 0} where
  abbrev pub Kept : PersistentSessionStore Context → PersistentSessionStore Context → Type 0
  Kept t s = (t.sessions ≡ s.sessions) × (t.max_sessions ≡ s.max_sessions)

  pub write_now-Kept : (ok : Bool) (s : PersistentSessionStore Context) → Kept (write_now ok s) s
  unfolding write_now
  write_now-Kept ok s = elim (Bool-cases s.persisted) [
    | inr p ↦ rw p (refl, refl)
    | inl p ↦ rw p (elim (Bool-cases ok) [ inl o ↦ rw o (refl, refl) | inr o ↦ rw o (refl, refl) ])
  ]

  pub flush_changes-Kept :
      (ok : Bool) (s : PersistentSessionStore Context) → Kept (flush_changes ok s) s
  unfolding flush_changes
  flush_changes-Kept ok s = elim (Bool-cases s.dirty) [
    | inl d ↦ rw d (write_now-Kept ok _)
    | inr d ↦ rw d (refl, refl)
  ]

  schedule_flush-Kept : (s : PersistentSessionStore Context) → Kept (schedule_flush s) s
  unfolding schedule_flush
  schedule_flush-Kept s = go s.flush_timer
    where
      go : (o : Option ℕ) → Kept (schedule_at o s) s
      go none = unfold schedule_at in (refl, refl)
      go (some timer) = unfold schedule_at in (refl, refl)

  pub save-Kept : (ok : Bool) (s : PersistentSessionStore Context) → Kept (save ok s) s
  unfolding save
  save-Kept ok s = elim (Bool-cases s.persisted) [
    | inr p ↦ rw p (refl, refl)
    | inl p ↦ rw p (elim (Bool-cases (ltb 0 s.flush_interval)) [
      | inl i ↦ rw i (
          schedule_flush-Kept
            (record s { persisted = true; changes = s.changes + 1; dirty = true }))
      | inr i ↦ rw i (
          flush_changes-Kept ok
            (record s { persisted = true; changes = s.changes + 1; dirty = true }))
    ])
  ]
