-- ===== src/Dict/Values.antt =====
-- What moves and drops entries, and what it keeps: a property of all of them, and the last one.
use ciallo_ms_365_open_ai_pr.Prelude.{
  none, ◌-◌, ◌≤◌, length, length-append, same_refl, ℕ, zero, suc, ◌≡◌, some, [], ◌∷◌, ◌++◌, arith,
  Key, ◌==◌, All, drop, Bool-cases, inl, inr,
}
use mathlib.Core.Path.{subst}
use ciallo_ms_365_open_ai_pr.Dict.{Dict, get-pop, get, pop, put_last}

module _ {ℓ κ} {K : Type ℓ} {V : Type κ} ⦃e : Key K⦄ where
  pub All-drop {ι} : (P : K × V → Type ι) (n : ℕ) (d : Dict K V) → All P d → All P (drop n d)
  All-drop P zero d h = h
  All-drop P (suc n) [] h = h
  All-drop P (suc n) (x ∷ d) h = All-drop P n d h.1

  pub All-pop {ι} : (P : K × V → Type ι) (k : K) (d : Dict K V) → All P d → All P (pop k d)
  unfolding pop
  All-pop P k [] h = tt
  All-pop P k ((j, w) ∷ d) h = elim (Bool-cases (j == k)) [
    | inl same ↦ rw same (All-pop P k d h.1)
    | inr other ↦ rw other (h.0, All-pop P k d h.1)
  ]

  All-snoc {ι} :
      (P : K × V → Type ι) (x : K × V) (d : Dict K V) → All P d → P x → All P (d ++ x ∷ [])
  All-snoc P x [] h p = (p, tt)
  All-snoc P x (y ∷ d) h p = (h.0, All-snoc P x d h.1 p)

  pub All-put_last {ι} :
      (P : K × V → Type ι) (k : K) (v : V) (d : Dict K V)
      → All P d
      → P (k, v)
      → All P (put_last k v d)
  unfolding put_last
  All-put_last P k v d h p = All-snoc P (k, v) (pop k d) (All-pop P k d h) p

  pub All-get {ι} :
      (P : K × V → Type ι) (k : K) (v : V) (d : Dict K V) → All P d → get k d ≡ some v → P (k, v)
  unfolding get
  All-get P k v [] h g = absurd cc
  All-get P k v ((j, w) ∷ d) h g = elim (Bool-cases (j == k)) [
    | inl same ↦
        let path : (j, w) ≡ (k, v) = grind (arith, (e.same_iff j k).0 same, same) in
        subst P path h.0
    | inr other ↦ All-get P k v d h.1 (ground (arith, other))
  ]

  -- The entry at the end survives a drop from the front.
  pub get-drop_last :
      (n : ℕ) (k : K) (v : V) (d : Dict K V)
      → get k d ≡ none
      → n ≤ length d
      → get k (drop n (d ++ (k, v) ∷ [])) ≡ some v
  unfolding get
  get-drop_last zero k v [] g h = ground (arith, same_refl k)
  get-drop_last zero k v ((j, w) ∷ d) g h = ground (arith, get-drop_last zero k v d)
  get-drop_last (suc n) k v [] g h = absurd (omega arith)
  get-drop_last (suc n) k v ((j, w) ∷ d) g h = get-drop_last n k v d (ground arith) (omega arith)

  -- So does the entry that was just put last, under a bound of at least one.
  pub get-evict_last :
      (n : ℕ) (k : K) (v : V) (d : Dict K V)
      → 1 ≤ n
      → get k (drop (length (put_last k v d) - n) (put_last k v d)) ≡ some v
  unfolding put_last
  get-evict_last n k v d h =
      get-drop_last (length (pop k d ++ (k, v) ∷ []) - n) k v (pop k d)
        (ground (arith, get-pop k k d, same_refl k))
        (omega (arith, length-append (pop k d) ((k, v) ∷ [])))
