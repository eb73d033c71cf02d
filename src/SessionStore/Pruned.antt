-- ===== src/SessionStore/Pruned.antt =====
-- Which sessions `prune` removes.
use ciallo_ms_365_open_ai_pr.Prelude.{
  ℕ, ◌+◌, ◌≡◌, refl, sym, ◌∙◌, ap, inl, inr, Bool, true, false, not, ◌&&◌, ◌||◌, none, List, [],
  ◌∷◌, arith, leb, if◌then◌else◌, ◌==◌, contains, select, Bool-cases,
}
use mathlib.Core.Path.{subst}
use ciallo_ms_365_open_ai_pr.Prelude.Text.{Text, text_key, starts_with, is_empty}
use ciallo_ms_365_open_ai_pr.Dict.{Dict, keys, get, pop, get-pop}
use ciallo_ms_365_open_ai_pr.Session.{Session}
use ciallo_ms_365_open_ai_pr.SessionStore.Kept.{save-Kept}
use ciallo_ms_365_open_ai_pr.SessionStore.{
  PersistentSessionStore, save, in_scope, insert_newest, newest_first, old_keys, pop_all, scope_of,
  prune,
}

module _ {Context : Type 0} where
  get-pop_all :
      (k : Text) (removed : List Text) (d : Dict Text (Session Context))
      → get k (pop_all removed d) ≡ (if contains k removed then none else get k d)
  unfolding pop_all contains
  get-pop_all k [] d = refl
  get-pop_all k (j ∷ removed) d = ground (arith, get-pop_all k removed (pop j d), get-pop j k d)

  contains-insert_newest :
      (k : Text) (x : Text × Session Context) (d : Dict Text (Session Context))
      → contains k (keys (insert_newest x d)) ≡ (x.0 == k || contains k (keys d))
  unfolding insert_newest contains keys
  contains-insert_newest k x [] = refl
  contains-insert_newest k x (y ∷ d) = elim (Bool-cases (leb y.1.last_accessed x.1.last_accessed)) [
    | inl newer ↦ rw newer refl
    | inr older ↦ rw older (ground (arith, contains-insert_newest k x d))
  ]

  contains-newest_first :
      (k : Text) (d : Dict Text (Session Context))
      → contains k (keys (newest_first d)) ≡ contains k (keys d)
  unfolding newest_first contains keys
  contains-newest_first k [] = refl
  contains-newest_first k ((j, x) ∷ d) =
      contains-insert_newest k (j, x) (newest_first d) ∙ ground (arith, contains-newest_first k d)

  contains-old_keys :
      (k : Text) (now older_than keep_newest index : ℕ) (d : Dict Text (Session Context))
      → contains k (old_keys now older_than keep_newest index d) ≡ true
      → contains k (keys d) ≡ true
  unfolding old_keys contains keys
  contains-old_keys k now older_than keep_newest index [] h = h
  contains-old_keys k now older_than keep_newest index ((j, x) ∷ d) h =
      ground (arith, contains-old_keys k now older_than keep_newest (index + 1) d)

  contains-select :
      (k prefix : Text) (protected : List Text) (d : Dict Text (Session Context))
      → contains k (keys (select (in_scope prefix protected) d)) ≡ true
      → (starts_with prefix k && not (contains k protected)) ≡ true
  unfolding keys contains
  contains-select k prefix protected [] h = absurd cc
  contains-select k prefix protected ((j, x) ∷ d) h =
      elim (Bool-cases (in_scope prefix protected (j, x))) [
        | inr out ↦ contains-select k prefix protected d (
            subst (λ (b : Bool). contains k (keys (if b then (j, x) ∷ rest else rest)) ≡ true) out
              h)
        | inl out ↦
            let h' : contains k (keys ((j, x) ∷ rest)) ≡ true =
              subst (λ (b : Bool). contains k (keys (if b then (j, x) ∷ rest else rest)) ≡ true) out
                h in
            elim (Bool-cases (j == k)) [
              | inl same ↦
                  subst (λ (i : Text). (starts_with prefix i && not (contains i protected)) ≡ true)
                    ((text_key.same_iff j k).0 same) (unfold in_scope in out)
              | inr other ↦ contains-select k prefix protected d (ground (arith, h', other))
            ]
      ]
    where
      rest : Dict Text (Session Context)
      rest = select (in_scope prefix protected) d

  prune-sessions :
      (now : ℕ) (prefix : Text) (older_than keep_newest : ℕ) (protected : List Text) (ok : Bool)
      (s : PersistentSessionStore Context)
      → (prune now prefix older_than keep_newest protected ok s).1.sessions
        ≡ pop_all (prune now prefix older_than keep_newest protected ok s).0 s.sessions
  unfolding prune
  prune-sessions now prefix older_than keep_newest protected ok s = go removed
    where
      removed : List Text
      removed = old_keys now older_than keep_newest 0 (scope_of prefix protected s)

      pruned : PersistentSessionStore Context
      pruned = record s { sessions = pop_all removed s.sessions }

      go :
          (r : List Text)
          → (if is_empty r then pruned else save ok pruned).sessions ≡ pruned.sessions
      go [] = refl
      go (k ∷ r) = (save-Kept ok pruned).0

  -- The list that `prune` returns is exactly what it removed: those keys are gone, and every other
  -- key has the session it had.
  pub get-prune :
      (now : ℕ) (prefix : Text) (older_than keep_newest : ℕ) (protected : List Text) (ok : Bool)
      (s : PersistentSessionStore Context) (k : Text)
      → get k (prune now prefix older_than keep_newest protected ok s).1.sessions ≡ (
          if contains k (prune now prefix older_than keep_newest protected ok s).0
          then none
          else get k s.sessions)
  get-prune now prefix older_than keep_newest protected ok s k =
      ap (λ (d : Dict Text (Session Context)). get k d)
        (prune-sessions now prefix older_than keep_newest protected ok s)
      ∙ get-pop_all k (prune now prefix older_than keep_newest protected ok s).0 s.sessions

  -- A session under another prefix, or a protected one, is never removed by `prune`.
  pub prune_spares :
      (now : ℕ) (prefix : Text) (older_than keep_newest : ℕ) (protected : List Text) (ok : Bool)
      (s : PersistentSessionStore Context) (k : Text)
      → (starts_with prefix k && not (contains k protected)) ≡ false
      → get k (prune now prefix older_than keep_newest protected ok s).1.sessions ≡ get k s.sessions
  prune_spares now prefix older_than keep_newest protected ok s k h =
      get-prune now prefix older_than keep_newest protected ok s k ∙ rw spared refl
    where
      spared : contains k (prune now prefix older_than keep_newest protected ok s).0 ≡ false
      spared =
          unfold prune scope_of in
          elim (Bool-cases (
            contains k (
              old_keys now older_than keep_newest 0
                (newest_first (select (in_scope prefix protected) s.sessions))))) [
                  | inr no' ↦ no'
                  | inl removed ↦
                      let scoped = contains-select k prefix protected s.sessions (
                        sym
                          (contains-newest_first k (select (in_scope prefix protected) s.sessions))
                        ∙ contains-old_keys k now older_than keep_newest 0 _ removed) in
                      absurd (ground (arith, h, scoped))
                ]
