-- ===== src/Dict/Laws.antt =====
-- Sizes and keys of a `dict`.
use ciallo_ms_365_open_ai_pr.Prelude.{
  suc, ◌+◌, ◌≤◌, ◌<◌, ◌≡◌, refl, ap, true, false, none, List, [], ◌∷◌, ◌++◌, arith, if◌then◌else◌,
  Key, ◌==◌, length, contains, Bool-cases, same_refl, inl, inr, is_some,
}
use ciallo_ms_365_open_ai_pr.Dict.{Dict, keys, get, put, pop}

-- No key stands twice.
abbrev pub Distinct {ℓ} : {K : Type ℓ} ⦃e : Key K⦄ → List K → Type 0
Distinct [] = Unit
Distinct (k ∷ ks) = (contains k ks ≡ false) × Distinct ks

module _ {ℓ κ} {K : Type ℓ} {V : Type κ} ⦃e : Key K⦄ where
  -- `k in d`
  pub contains-keys : (k : K) (d : Dict K V) → contains k (keys d) ≡ is_some (get k d)
  unfolding contains keys get
  contains-keys k [] = refl
  contains-keys k ((j, v) ∷ d) = ground (arith, contains-keys k d)

  pub contains-put :
      (k j : K) (v : V) (d : Dict K V)
      → contains j (keys (put k v d)) ≡ (if k == j then true else contains j (keys d))
  unfolding contains keys put
  contains-put k j v [] = ground arith
  contains-put k j v ((i, w) ∷ d) =
      ground (arith, e.same_iff k j, e.same_iff i k, e.same_iff i j, contains-put k j v d)

  pub contains-pop :
      (k j : K) (d : Dict K V)
      → contains j (keys (pop k d)) ≡ (if k == j then false else contains j (keys d))
  unfolding contains keys pop
  contains-pop k j [] = ground arith
  contains-pop k j ((i, w) ∷ d) =
      ground (arith, e.same_iff k j, e.same_iff i k, e.same_iff i j, contains-pop k j d)

  pub put-Distinct :
      (k : K) (v : V) (d : Dict K V) → Distinct (keys d) → Distinct (keys (put k v d))
  unfolding keys put
  put-Distinct k v [] h = (unfold contains in refl, tt)
  put-Distinct k v ((j, w) ∷ d) h = elim (Bool-cases (j == k)) [
    | inl same ↦ rw same h
    | inr other ↦ rw other (
      ground (arith, contains-put k j v d, e.same_iff k j, e.same_iff j k, h.0),
      put-Distinct k v d h.1,
    )
  ]

  pub pop-Distinct : (k : K) (d : Dict K V) → Distinct (keys d) → Distinct (keys (pop k d))
  unfolding keys pop
  pop-Distinct k [] h = tt
  pop-Distinct k ((j, w) ∷ d) h = elim (Bool-cases (j == k)) [
    | inl same ↦ rw same (pop-Distinct k d h.1)
    | inr other ↦ rw other (
      ground (arith, contains-pop k j d, e.same_iff k j, e.same_iff j k, h.0),
      pop-Distinct k d h.1,
    )
  ]

  -- A known key keeps the size, a new one adds one at the end.
  pub put-known :
      (k : K) (v : V) (d : Dict K V) → is_some (get k d) ≡ true → keys (put k v d) ≡ keys d
  unfolding get put keys
  put-known k v [] h = cc
  put-known k v ((j, w) ∷ d) h = ground (arith, e.same_iff j k, put-known k v d)

  pub put-new : (k : K) (v : V) (d : Dict K V) → get k d ≡ none → put k v d ≡ d ++ (k, v) ∷ []
  unfolding get put
  put-new k v [] h = refl
  put-new k v ((j, w) ∷ d) h = ground (arith, put-new k v d)

  pub length-put-le : (k : K) (v : V) (d : Dict K V) → length (put k v d) ≤ length d + 1
  unfolding put
  length-put-le k v [] = omega arith
  length-put-le k v ((j, w) ∷ d) = ground (arith, length-put-le k v d)

  pub length-pop-le : (k : K) (d : Dict K V) → length (pop k d) ≤ length d
  unfolding pop
  length-pop-le k [] = omega arith
  length-pop-le k ((j, w) ∷ d) = ground (arith, length-pop-le k d)

  pub length-pop-lt :
      (k : K) (d : Dict K V) → contains k (keys d) ≡ true → length (pop k d) < length d
  unfolding pop contains keys
  length-pop-lt k [] h = cc
  length-pop-lt k ((j, w) ∷ d) h = ground (arith, length-pop-lt k d, length-pop-le k d)

  pub pop-absent : (k : K) (d : Dict K V) → get k d ≡ none → pop k d ≡ d
  unfolding pop get
  pop-absent k [] h = refl
  pop-absent k ((j, w) ∷ d) h = ground (arith, pop-absent k d)

  pub pop-put : (k : K) (v : V) (d : Dict K V) → get k d ≡ none → pop k (put k v d) ≡ d
  unfolding pop get put
  pop-put k v [] h = ground (arith, same_refl k)
  pop-put k v ((j, w) ∷ d) h = ground (arith, pop-put k v d)

  pub length-keys : (d : Dict K V) → length (keys d) ≡ length d
  unfolding keys
  length-keys [] = refl
  length-keys ((j, w) ∷ d) = ap suc (length-keys d)
