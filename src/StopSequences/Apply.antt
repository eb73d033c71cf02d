-- ===== src/StopSequences/Apply.antt =====
-- `apply_stop`: what a hit and a miss say, and how it moves over a text that no stop starts in.
use ciallo_ms_365_open_ai_pr.Prelude.{
  ℕ, ◌+◌, ◌<◌, ◌≡◌, refl, ap, true, false, Option, none, some, List, [], ◌∷◌, ◌++◌, arith, length,
  take, length-append, All, Option-cases, inl, inr,
}
use ciallo_ms_365_open_ai_pr.Prelude.Text.{Text, is_empty, find}
use ciallo_ms_365_open_ai_pr.StopSequences.{better_hit, best_hit, cut_at, apply_stop}
use mathlib.Core.Option
use native.Mathlib.Nat.{zero-add, suc-add}

abbrev pub NonEmpty : Text → Type 0
NonEmpty s = is_empty s ≡ false

-- A hit of a nonempty needle lies inside the text.
pub find-lt-length : (s t : Text) {i : ℕ} → NonEmpty s → find s t ≡ some i → i < length t
unfolding find
find-lt-length [] t n h = cc
find-lt-length (x ∷ s) [] n h = cc
find-lt-length (x ∷ s) (y ∷ t) n h = elim (Option-cases (find (x ∷ s) t)) [
  | inl miss ↦ ground arith
  | inr (j, hit) ↦ ground (arith, find-lt-length (x ∷ s) t n hit)
]

-- No stop starts in `r`, whatever follows `p`.
abbrev pub Shift : Text → Text → Text → Type 0
Shift s r p = (e : Text) → find s (r ++ (p ++ e)) ≡ Option.map (λ i. length r + i) (find s (p ++ e))

better_hit-shift :
    (n : ℕ) (o : Option ℕ) (i : ℕ) (b s : Text)
    → better_hit (Option.map (λ j. n + j) o) (n + i, b) s
      ≡ (n + (better_hit o (i, b) s).0, (better_hit o (i, b) s).1)
unfolding better_hit
better_hit-shift n none i b s = refl
better_hit-shift n (some j) i b s = ground arith

-- The first hit of `r ++ q` is that of `q`, moved by `r`, if no stop starts in `r`.
pub best_hit-shift :
    (r q : Text) (stops : List Text) (best : ℕ × Text)
    → All (λ s. find s (r ++ q) ≡ Option.map (λ i. length r + i) (find s q)) stops
    → best_hit (r ++ q) (length r + best.0, best.1) stops
      ≡ (length r + (best_hit q best stops).0, (best_hit q best stops).1)
unfolding best_hit
best_hit-shift r q [] best h = refl
best_hit-shift r q (s ∷ stops) best h =
    rw (h.0, better_hit-shift) (best_hit-shift r q stops (better_hit (find s q) best s) h.1)

pub better_hit-miss :
    (text : Text) (best : ℕ × Text) (s : Text)
    → NonEmpty s
    → (is_empty best.1 ≡ true → best.0 ≡ length text)
    → is_empty (better_hit (find s text) best s).1 ≡ true
    → (is_empty best.1 ≡ true)
      × (find s text ≡ none)
      × ((better_hit (find s text) best s).0 ≡ length text)
unfolding better_hit
better_hit-miss text best s n start h = elim (Option-cases (find s text)) [
  | inl miss ↦ ground arith
  | inr (j, hit) ↦ ground (arith, find-lt-length s text n hit)
]

-- A miss says that no stop is in the text.
pub best_hit-miss :
    (text : Text) (stops : List Text) (best : ℕ × Text)
    → All NonEmpty stops
    → (is_empty best.1 ≡ true → best.0 ≡ length text)
    → is_empty (best_hit text best stops).1 ≡ true
    → (is_empty best.1 ≡ true) × All (λ s. find s text ≡ none) stops
unfolding best_hit
best_hit-miss text [] best n start h = (h, tt)
best_hit-miss text (s ∷ stops) best n start h =
    let ih = best_hit-miss text stops (better_hit (find s text) best s) n.1 in
    let (e, later) = ih (λ k. (better_hit-miss text best s n.0 start k).2) h in
    let m = better_hit-miss text best s n.0 start e in (m.0, (m.1, later))

pub find-nil : (s : Text) → NonEmpty s → find s [] ≡ none
unfolding find
find-nil [] n = cc
find-nil (x ∷ s) n = refl

pub All-find-nil : (stops : List Text) → All NonEmpty stops → All (λ s. find s [] ≡ none) stops
All-find-nil [] n = tt
All-find-nil (s ∷ stops) n = (find-nil s n.0, All-find-nil stops n.1)

-- On a text that is not empty the guards of `apply_stop` change nothing.
pub apply_stop_lem :
    (text : Text) (stops : List Text)
    → is_empty text ≡ false
    → apply_stop text stops ≡ cut_at text (best_hit text (length text, []) stops)
unfolding apply_stop
apply_stop_lem [] stops h = cc
apply_stop_lem (c ∷ text) [] h = unfold best_hit cut_at in refl
apply_stop_lem (c ∷ text) (s ∷ stops) h = refl

cut_at-miss :
    (text : Text) (best : ℕ × Text)
    → is_empty (cut_at text best).1 ≡ true
    → ((cut_at text best).0 ≡ text) × (is_empty best.1 ≡ true)
unfolding cut_at
cut_at-miss text (i, b) h = ground arith

-- Without a hit the text comes back whole, and no stop is in it.
pub apply_stop-miss :
    (text : Text) (stops : List Text)
    → All NonEmpty stops
    → is_empty (apply_stop text stops).1 ≡ true
    → ((apply_stop text stops).0 ≡ text) × All (λ s. find s text ≡ none) stops
apply_stop-miss [] stops n h = (unfold apply_stop in refl, All-find-nil stops n)
apply_stop-miss (c ∷ text) stops n h =
    let t : Text = c ∷ text in
    let best = best_hit t (length t, []) stops in
    let (whole, miss) = cut_at-miss t best (rw (apply_stop_lem t stops refl) at h) in
    (
      rw (apply_stop_lem t stops refl) whole,
      (best_hit-miss t stops (length t, []) n (λ _. refl) miss).1,
    )

take-append_right : (r q : Text) (i : ℕ) → take (length r + i) (r ++ q) ≡ r ++ take i q
take-append_right [] q i = rw zero-add
take-append_right (x ∷ r) q i = rw suc-add (ap (◌∷◌ x) (take-append_right r q i))

cut_at-shift :
    (r q : Text) (best : ℕ × Text)
    → cut_at (r ++ q) (length r + best.0, best.1) ≡ (r ++ (cut_at q best).0, (cut_at q best).1)
unfolding cut_at
cut_at-shift r q (i, b) = ground (arith, take-append_right r q i)

pub is_empty-append : (r q : Text) → is_empty q ≡ false → is_empty (r ++ q) ≡ false
is_empty-append [] q h = h
is_empty-append (x ∷ r) q h = refl

Shift-at :
    (stops : List Text) (r p e : Text)
    → All (λ s. Shift s r p) stops
    → All (λ s. find s (r ++ (p ++ e)) ≡ Option.map (λ i. length r + i) (find s (p ++ e))) stops
Shift-at [] r p e h = tt
Shift-at (s ∷ stops) r p e h = (h.0 e, Shift-at stops r p e h.1)

-- What no stop starts in goes through: a hit after it is the hit of the whole text.
pub apply_stop-Shift :
    (stops : List Text) (r p e : Text)
    → is_empty (p ++ e) ≡ false
    → All (λ s. Shift s r p) stops
    → apply_stop (r ++ (p ++ e)) stops
      ≡ (r ++ (apply_stop (p ++ e) stops).0, (apply_stop (p ++ e) stops).1)
apply_stop-Shift stops r p e n h =
    let t : Text = p ++ e in
    rw
      (
        apply_stop_lem (r ++ t) stops (is_empty-append r t n),
        apply_stop_lem t stops n,
        length-append r t,
        best_hit-shift r t stops (length t, []) (Shift-at stops r p e h),
      )
      (cut_at-shift r t (best_hit t (length t, []) stops))

pub apply_stop-no_stops : (text : Text) → is_empty (apply_stop text []).1 ≡ true
unfolding apply_stop
apply_stop-no_stops [] = refl
apply_stop-no_stops (c ∷ text) = refl
