-- ===== src/AccountConcurrency/Gates.antt =====
-- Lists of gates by their places: what replacing one and adding one leaves of the others.
use ciallo_ms_365_open_ai_pr.Prelude.{
  ℕ, zero, suc, ◌≤◌, ◌≡◌, refl, sym, ◌∙◌, ap, inl, inr, Option, none, some, List, [], ◌∷◌, ◌++◌,
  eqb, arith, if◌then◌else◌, length, Bool-cases,
}
use ciallo_ms_365_open_ai_pr.Prelude.Text.{text_key}
use ciallo_ms_365_open_ai_pr.AccountConcurrency.{Gate, at, replace_at}

abbrev pub gate_free : Option Gate → ℕ
gate_free none = 0
gate_free (some x) = x.free

abbrev pub gate_limit : Option Gate → ℕ
gate_limit none = 0
gate_limit (some x) = x.limit

pub at-append :
    (k : ℕ) (x : Gate) (made : List Gate)
    → at k (made ++ x ∷ []) ≡ (if eqb k (length made) then some x else at k made)
unfolding at
at-append zero x [] = refl
at-append (suc k) x [] = ground arith
at-append zero x (y ∷ made) = ground arith
at-append (suc k) x (y ∷ made) = at-append k x made ∙ ground arith

pub at-length : (k : ℕ) (made : List Gate) → length made ≤ k → at k made ≡ none
unfolding at
at-length k [] h = refl
at-length zero (y ∷ made) h = ground arith
at-length (suc k) (y ∷ made) h = at-length k made (omega (arith, h))

pub at-replace_at :
    (k g : ℕ) (x y : Gate) (made : List Gate)
    → at g made ≡ some x
    → at k (replace_at g y made) ≡ (if eqb g k then some y else at k made)
unfolding at replace_at
at-replace_at k g x y [] h = cc
at-replace_at zero zero x y (z ∷ made) h = refl
at-replace_at (suc k) zero x y (z ∷ made) h = ground arith
at-replace_at zero (suc g) x y (z ∷ made) h = ground arith
at-replace_at (suc k) (suc g) x y (z ∷ made) h = at-replace_at k g x y made h ∙ ground arith

pub length-replace_at :
    (g : ℕ) (y : Gate) (made : List Gate) → length (replace_at g y made) ≡ length made
unfolding replace_at
length-replace_at g y [] = refl
length-replace_at zero y (z ∷ made) = refl
length-replace_at (suc g) y (z ∷ made) = ap suc (length-replace_at g y made)

pub limit-replace_at :
    (k g : ℕ) (x y : Gate) (made : List Gate)
    → at g made ≡ some x
    → y.limit ≡ x.limit
    → gate_limit (at k (replace_at g y made)) ≡ gate_limit (at k made)
limit-replace_at k g x y made h same = elim (Bool-cases (eqb g k)) [
  | inl here ↦
      let g≡k : g ≡ k = ground arith in rw (at-replace_at k g x y made h, here, sym g≡k, h, same)
  | inr other ↦ rw (at-replace_at k g x y made h, other)
]

pub free-replace_at :
    (k g : ℕ) (x y : Gate) (made : List Gate)
    → at g made ≡ some x
    → gate_free (at k (replace_at g y made)) ≡ (if eqb g k then y.free else gate_free (at k made))
free-replace_at k g x y made h = elim (Bool-cases (eqb g k)) [
  | inl here ↦ rw (at-replace_at k g x y made h, here)
  | inr other ↦ rw (at-replace_at k g x y made h, other)
]

pub free_here :
    (g k : ℕ) (x : Gate) (made : List Gate)
    → at g made ≡ some x
    → g ≡ k
    → gate_free (at k made) ≡ x.free
free_here g k x made h same = rw (sym same, h)
