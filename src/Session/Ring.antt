-- ===== src/Session/Ring.antt =====
-- The two bounded collections: the responses that can be continued, and those that were.
use ciallo_ms_365_open_ai_pr.Prelude.{
  ℕ, zero, suc, ◌+◌, ◌-◌, ◌≤◌, ◌≡◌, ap, ◌∙◌, inl, inr, true, false, none, List, [], ◌∷◌, ◌++◌,
  arith, ◌==◌, length, drop, contains, same_refl, length-append, length-drop, Option-cases,
}
use native.Mathlib.Decide.{dec_lt}
use ciallo_ms_365_open_ai_pr.Prelude.Text.{Text, text_key}
use ciallo_ms_365_open_ai_pr.Dict.{Dict, keys, get, put, pop}
use ciallo_ms_365_open_ai_pr.Dict.Laws.{put-known, put-new, length-keys, length-pop-lt}
use ciallo_ms_365_open_ai_pr.Session.{
  Session, max_responses, expire_first, expire, expire_overflow, consume,
}

pub length-consume :
    (id : Text) (consumed : List Text) → length (consume id consumed) ≤ max_responses
unfolding consume
length-consume id consumed =
    omega (arith, length-drop (length (consumed ++ id ∷ []) - max_responses) (consumed ++ id ∷ []))

contains-drop_last :
    (n : ℕ) (xs : List Text) (id : Text)
    → n ≤ length xs
    → contains id (drop n (xs ++ id ∷ [])) ≡ true
unfolding contains
contains-drop_last zero [] id h = ground (arith, same_refl id)
contains-drop_last zero (x ∷ xs) id h = ground (arith, contains-drop_last zero xs id)
contains-drop_last (suc n) [] id h = absurd (omega arith)
contains-drop_last (suc n) (x ∷ xs) id h = contains-drop_last n xs id (omega arith)

-- What was just consumed is never what the bound drops.
pub contains-consume : (id : Text) (consumed : List Text) → contains id (consume id consumed) ≡ true
unfolding consume
contains-consume id consumed =
    contains-drop_last (length (consumed ++ id ∷ []) - max_responses) consumed id
      (omega (arith, length-append consumed (id ∷ [])))

module _ {Context : Type 0} where
  -- A session without one of its responses.
  abbrev pub without_response : Text → Session Context → Session Context
  without_response k s = record s {
    issued_calls = pop k s.issued_calls;
    issued_read_only = pop k s.issued_read_only;
    issued_contexts = pop k s.issued_contexts;
  }

  -- After one more response either all fit, or one other is dropped.
  pub data Fits (id : Text) (t : Session Context) : Type 0 where
    whole : length t.issued_calls ≤ max_responses → expire_overflow t ≡ t → Fits id t
    dropped :
        (k : Text)
        → (k == id) ≡ false
        → length (pop k t.issued_calls) ≤ max_responses
        → expire_overflow t ≡ without_response k t
        → Fits id t

  whole-Fits : (id : Text) (t : Session Context) → length t.issued_calls ≤ max_responses → Fits id t
  whole-Fits id t h = whole h (
      unfold expire_overflow expire in
      ap (λ (n : ℕ). expire n t)
        (let e : length t.issued_calls - max_responses ≡ 0 = omega arith in e))

  dropped-Fits :
      (id : Text) (calls : List Text) (d : Dict Text (List Text)) (t : Session Context)
      → t.issued_calls ≡ d ++ (id, calls) ∷ []
      → get id d ≡ none
      → length d ≡ max_responses
      → Fits id t
  dropped-Fits id calls [] t e new h = absurd (omega arith)
  dropped-Fits id calls ((k, v) ∷ d) t e new h =
      let size : length t.issued_calls ≡ max_responses + 1 = omega (
        arith,
        ap (λ (x : Dict Text (List Text)). length x) e,
        length-append d ((id, calls) ∷ []),
      ) in
      let one : length t.issued_calls - max_responses ≡ 1 = omega arith in
      let first : contains k (keys t.issued_calls) ≡ true =
        rw e (unfold keys contains in ground (arith, same_refl k)) in
      dropped k (unfold get in ground arith) (omega (arith, length-pop-lt k t.issued_calls first)) (
        unfold expire_overflow expire expire_first in
        ap (λ (n : ℕ). expire n t) one ∙ ap (λ (x : Dict Text (List Text)). expire_first x t) e)

  pub issue-Fits :
      (id : Text) (calls : List Text) (d : Dict Text (List Text)) (t : Session Context)
      → t.issued_calls ≡ put id calls d
      → length d ≤ max_responses
      → Fits id t
  issue-Fits id calls d t e h = elim (Option-cases (get id d)) [
    | inr (old, known) ↦ whole-Fits id t (
        omega (
          arith,
          ap (λ (x : Dict Text (List Text)). length x) e,
          length-keys d,
          length-keys (put id calls d),
          ap (λ (x : List Text). length x) (put-known id calls d (rw known)),
        ))
    | inl new ↦
        let e' : t.issued_calls ≡ d ++ (id, calls) ∷ [] = e ∙ put-new id calls d new in
        let size : length t.issued_calls ≡ length d + 1 = omega (
          arith,
          ap (λ (x : Dict Text (List Text)). length x) e',
          length-append d ((id, calls) ∷ []),
        ) in
        elim (dec_lt (length d) max_responses) [
          | yes room ↦ whole-Fits id t (omega arith)
          | no full ↦ dropped-Fits id calls d t e' new (omega arith)
        ]
  ]
