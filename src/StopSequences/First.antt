-- ===== src/StopSequences/First.antt =====
-- `apply_stop` cuts at the first stop, and for one stop the cut does not depend on the deltas.
use ciallo_ms_365_open_ai_pr.Prelude.{
  ℕ, zero, suc, ◌<◌, ◌≤◌, ◌≡◌, refl, ap, ◌⊎◌, true, false, Option, none, some, List, [], ◌∷◌, ◌++◌,
  arith, length, take, length-take, All, select, not, inl, inr, contains, same_refl, Bool-cases,
  Option-cases, ◌∙◌, sym,
}
use ciallo_ms_365_open_ai_pr.Prelude.Text.{
  Text, text_eq, text_eq_iff, text_key, is_empty, starts_with, find,
}
use ciallo_ms_365_open_ai_pr.StopSequences.{
  better_hit, best_hit, cut_at, apply_stop, trimmer, deliver,
}
use ciallo_ms_365_open_ai_pr.StopSequences.Apply.{
  NonEmpty, find-lt-length, apply_stop-miss, apply_stop_lem, All-find-nil,
}
use ciallo_ms_365_open_ai_pr.StopSequences.Stream.{stop_after, deliver-stop_after, select-NonEmpty}
use mathlib.Core.Path.{subst}

starts_with-take : (s t : Text) (n : ℕ) → starts_with s (take n t) ≡ true → starts_with s t ≡ true
unfolding starts_with
starts_with-take [] t n h = refl
starts_with-take (x ∷ s) t zero h = cc
starts_with-take (x ∷ s) [] (suc n) h = cc
starts_with-take (x ∷ s) (y ∷ t) (suc n) h = ground (arith, starts_with-take s t n)

find-take-later :
    (s : Text) (y : ℕ) (t : Text) (n j : ℕ)
    → starts_with s (y ∷ t) ≡ false
    → (starts_with s (take n (y ∷ t)) ≡ true → starts_with s (y ∷ t) ≡ true)
    → find s (take n (y ∷ t)) ≡ some j
    → ((m k : ℕ) → find s (take m t) ≡ some k → (i : ℕ) × (find s t ≡ some i) × (i ≤ k))
    → (i : ℕ) × (find s (y ∷ t) ≡ some i) × (i ≤ j)
unfolding find
find-take-later s y t zero j apart whole h ih = absurd (ground arith)
find-take-later s y t (suc n) j apart whole h ih = elim (Option-cases (find s (take n t))) [
  | inl miss ↦ absurd (ground arith)
  | inr (k, hit) ↦ let (i, at, le) = ih n k hit in (suc i, ground arith, ground arith)
]

find-take :
    (s t : Text) (n j : ℕ) → find s (take n t) ≡ some j → (i : ℕ) × (find s t ≡ some i) × (i ≤ j)
unfolding find
find-take s [] zero j h = (j, h, omega arith)
find-take s [] (suc n) j h = (j, h, omega arith)
find-take s (y ∷ t) n j h = elim (Bool-cases (starts_with s (y ∷ t))) [
  | inl here ↦ (0, rw here, omega arith)
  | inr apart ↦ find-take-later s y t n j apart (starts_with-take s (y ∷ t) n) h (find-take s t)
]

-- `best` is at or before every hit of `s`, and at the same place it is at least as long.
abbrev pub Leads : Text → ℕ × Text → Text → Type 0
Leads text best s =
    (i : ℕ) → find s text ≡ some i → (best.0 ≤ i) × (best.0 ≡ i → length s ≤ length best.1)

better_hit-Leads :
    (text s : Text) (best : ℕ × Text) → Leads text (better_hit (find s text) best s) s
unfolding better_hit
better_hit-Leads text s best i h = ground arith

better_hit-Leads_old :
    (text s t : Text) (best : ℕ × Text)
    → Leads text best t
    → Leads text (better_hit (find s text) best s) t
unfolding better_hit
better_hit-Leads_old text s t best lead i h = elim (Option-cases (find s text)) [
  | inl miss ↦ rw (miss) (lead i h)
  | inr (j, hit) ↦ ground (arith, lead i h)
]

better_hit-hit :
    (text s : Text) (best : ℕ × Text)
    → (better_hit (find s text) best s ≡ best)
      ⊎ ((find (better_hit (find s text) best s).1 text ≡ some (better_hit (find s text) best s).0)
          × ((better_hit (find s text) best s).1 ≡ s))
unfolding better_hit
better_hit-hit text s best = elim (Option-cases (find s text)) [
  | inl miss ↦ inl (rw miss)
  | inr (j, hit) ↦ ground arith
]

best_hit-Leads :
    (text : Text) (stops : List Text) (best : ℕ × Text)
    → All (Leads text (best_hit text best stops)) stops
      × ((t : Text) → Leads text best t → Leads text (best_hit text best stops) t)
unfolding best_hit
best_hit-Leads text [] best = (tt, λ t h. h)
best_hit-Leads text (s ∷ stops) best =
    let next = better_hit (find s text) best s in
    let (rest, old) = best_hit-Leads text stops next in
    (
      (old s (better_hit-Leads text s best), rest),
      λ t h. old t (better_hit-Leads_old text s t best h),
    )

best_hit-hit :
    (text : Text) (stops : List Text) (best : ℕ × Text)
    → (best_hit text best stops ≡ best)
      ⊎ ((find (best_hit text best stops).1 text ≡ some (best_hit text best stops).0)
          × (contains (best_hit text best stops).1 stops ≡ true))
unfolding best_hit contains
best_hit-hit text [] best = inl refl
best_hit-hit text (s ∷ stops) best =
    elim (best_hit-hit text stops (better_hit (find s text) best s)) [
      | inr later ↦ inr (later.0, ground (arith, later.1))
      | inl same ↦ elim (better_hit-hit text s best) [
        | inl old ↦ inl (same ∙ old)
        | inr new ↦ inr (rw same new.0, rw (same, new.1, same_refl s))
      ]
    ]

-- `best` against a stop that is found at `hit`, or not at all.
abbrev pub LeadsAt : Option ℕ → ℕ → Text → Text → Type 0
LeadsAt none index m s = Unit
LeadsAt (some i) index m s = (index < i) ⊎ ((index ≡ i) × (length s ≤ length m))

Leads→LeadsAt :
    (text : Text) (index : ℕ) (m s : Text)
    → Leads text (index, m) s
    → LeadsAt (find s text) index m s
Leads→LeadsAt text index m s lead = elim (Option-cases (find s text)) [
  | inl miss ↦ rw miss tt
  | inr (i, hit) ↦ rw hit (grind (arith, lead i hit))
]

Leads→LeadsAt-All :
    (text : Text) (index : ℕ) (m : Text) (stops : List Text)
    → All (Leads text (index, m)) stops
    → All (λ s. LeadsAt (find s text) index m s) stops
Leads→LeadsAt-All text index m [] h = tt
Leads→LeadsAt-All text index m (s ∷ stops) h =
    (Leads→LeadsAt text index m s h.0, Leads→LeadsAt-All text index m stops h.1)

-- What a hit says: the reported stop is one of the list, it stands in the text at the cut, the
-- cut is at or before the first place of every stop, and of two stops there it is the longer.
pub record FirstHit (text : Text) (stops : List Text) (result : Text × Text) : Type 0 where
  pub index : ℕ
  pub cuts : result.0 ≡ take index text
  pub stands : find result.1 text ≡ some index
  pub listed : contains result.1 stops ≡ true
  pub leads : All (λ s. LeadsAt (find s text) index result.1 s) stops

cut_at-hit :
    (text : Text) (best : ℕ × Text)
    → is_empty (cut_at text best).1 ≡ false
    → (cut_at text best ≡ (take best.0 text, best.1)) × (is_empty best.1 ≡ false)
unfolding cut_at
cut_at-hit text best h = ground arith

apply_stop-text : (stops : List Text) → is_empty (apply_stop [] stops).1 ≡ true
unfolding apply_stop
apply_stop-text stops = refl

-- `apply_stop` cuts at the first stop of the text, the longest there.
pub apply_stop-FirstHit :
    (text : Text) (stops : List Text)
    → is_empty (apply_stop text stops).1 ≡ false
    → FirstHit text stops (apply_stop text stops)
apply_stop-FirstHit [] stops h = cc (apply_stop-text stops)
apply_stop-FirstHit (c ∷ t) stops h =
    let text : Text = c ∷ t in
    let best = best_hit text (length text, []) stops in
    let e = apply_stop_lem text stops refl in
    let (cuts, some_stop) = cut_at-hit text best (rw e at h) in
    let result = e ∙ cuts in
    elim (best_hit-hit text stops (length text, [])) [
      | inl none_found ↦ cc (ap (λ (b : ℕ × Text). is_empty b.1) none_found, some_stop)
      | inr found ↦ subst (FirstHit text stops) (sym result) (record {
        index = best.0;
        cuts = refl;
        stands = found.0;
        listed = found.1;
        leads =
            Leads→LeadsAt-All text best.0 best.1 stops
              (best_hit-Leads text stops (length text, [])).0;
      })
    ]

find-take-none :
    (s text : Text) (n : ℕ)
    → NonEmpty s
    → (m : Text) → LeadsAt (find s text) n m s
    → find s (take n text) ≡ none
find-take-none s text n ne m lead = elim (Option-cases (find s (take n text))) [
  | inl miss ↦ miss
  | inr (j, hit) ↦
      let (i, at, le) = find-take s text n j hit in
      let lt = find-lt-length s (take n text) ne hit in
      absurd (ground (arith, at, lead, length-take n text))
]

find-take-none-All :
    (stops : List Text) (text : Text) (n : ℕ) (m : Text)
    → All NonEmpty stops
    → All (λ s. LeadsAt (find s text) n m s) stops
    → All (λ s. find s (take n text) ≡ none) stops
find-take-none-All [] text n m ne lead = tt
find-take-none-All (s ∷ stops) text n m ne lead =
    (find-take-none s text n ne.0 m lead.0, find-take-none-All stops text n m ne.1 lead.1)

-- What `apply_stop` lets through holds none of the stops.
pub apply_stop_clean :
    (text : Text) (stops : List Text)
    → All NonEmpty stops
    → All (λ s. find s (apply_stop text stops).0 ≡ none) stops
apply_stop_clean text stops ne = elim (Bool-cases (is_empty (apply_stop text stops).1)) [
  | inl miss ↦ let (whole, gone) = apply_stop-miss text stops ne miss in rw whole gone
  | inr hit ↦
      let f = apply_stop-FirstHit text stops hit in
      rw f.cuts (find-take-none-All stops text f.index (apply_stop text stops).1 ne f.leads)
]

stop_after_clean :
    (stops : List Text) (acc : Text) (ds : List Text)
    → All NonEmpty stops
    → All (λ s. find s acc ≡ none) stops
    → All (λ s. find s (stop_after stops acc ds).0 ≡ none) stops
unfolding stop_after
stop_after_clean stops acc [] ne clean = clean
stop_after_clean stops acc (d ∷ ds) ne clean =
    elim (Bool-cases (is_empty (apply_stop (acc ++ d) stops).1)) [
      | inl miss ↦
          rw miss
            (stop_after_clean stops (acc ++ d) ds ne (apply_stop-miss (acc ++ d) stops ne miss).1)
      | inr hit ↦ rw hit (apply_stop_clean (acc ++ d) stops ne)
    ]

select-contains :
    (P : Text → Type 0) (s : Text) (stops : List Text)
    → NonEmpty s
    → contains s stops ≡ true
    → All P (select (λ t. not (is_empty t)) stops)
    → P s
unfolding contains
select-contains P s [] ne h all = cc
select-contains P s ([] ∷ stops) ne h all =
    select-contains P s stops ne (ground (arith, text_eq_iff [] s)) all
select-contains P s ((c ∷ t) ∷ stops) ne h all = elim (Bool-cases (text_eq (c ∷ t) s)) [
  | inl same ↦ subst P ((text_eq_iff (c ∷ t) s).0 same) all.0
  | inr other ↦ select-contains P s stops ne (ground arith) all.1
]

-- Whatever the deltas, no nonempty stop of the list stands in the text that the client gets.
pub deliver_clean :
    (stops deltas : List Text) (s : Text)
    → NonEmpty s
    → contains s stops ≡ true
    → find s (deliver (trimmer stops) deltas).1 ≡ none
deliver_clean stops deltas s nonempty listed =
    let kept = select (λ t. not (is_empty t)) stops in
    let ne = select-NonEmpty stops in
    let e = ap (λ (x : Text × Text). x.0) (deliver-stop_after stops deltas).0 in
    select-contains (λ t. find t (deliver (trimmer stops) deltas).1 ≡ none) s stops nonempty listed
      (subst (λ out. All (λ t. find t out ≡ none) kept) (sym e)
        (unfold trimmer in stop_after_clean kept [] deltas ne (All-find-nil kept ne)))
