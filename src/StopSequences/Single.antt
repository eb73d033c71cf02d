-- ===== src/StopSequences/Single.antt =====
-- For one stop the way the text is cut into deltas does not matter.
use ciallo_ms_365_open_ai_pr.Prelude.{
  ℕ, zero, suc, ◌+◌, ◌≤◌, ◌≡◌, refl, ap, true, none, some, List, [], ◌∷◌, ◌++◌, arith, length, take,
  inl, inr, Bool-cases, Option-cases, append_assoc, ◌∙◌, append-nil,
}
use ciallo_ms_365_open_ai_pr.Prelude.Text.{Text, text_key, starts_with, find, join}
use ciallo_ms_365_open_ai_pr.StopSequences.{
  better_hit, best_hit, cut_at, apply_stop, trimmer, deliver,
}
use ciallo_ms_365_open_ai_pr.StopSequences.Apply.{
  NonEmpty, find-lt-length, apply_stop_lem, find-nil,
}
use ciallo_ms_365_open_ai_pr.StopSequences.Held.{starts_with-split}
use ciallo_ms_365_open_ai_pr.StopSequences.Stream.{stop_after, deliver-stop_after}

starts_with-append : (s t e : Text) → starts_with s t ≡ true → starts_with s (t ++ e) ≡ true
unfolding starts_with
starts_with-append [] t e h = refl
starts_with-append (x ∷ s) [] e h = cc
starts_with-append (x ∷ s) (y ∷ t) e h = ground (arith, starts_with-append s t e)

starts_with-le : (s t : Text) → starts_with s t ≡ true → length s ≤ length t
unfolding starts_with
starts_with-le [] t h = omega arith
starts_with-le (x ∷ s) [] h = cc
starts_with-le (x ∷ s) (y ∷ t) h = ground (arith, starts_with-le s t)

-- A hit leaves room for the whole needle.
find-room : (s t : Text) (i : ℕ) → find s t ≡ some i → i + length s ≤ length t
unfolding find
find-room s [] i h = ground (arith, starts_with-le s [])
find-room s (y ∷ t) i h = elim (Option-cases (find s t)) [
  | inl miss ↦ ground (arith, starts_with-le s (y ∷ t))
  | inr (j, hit) ↦ ground (arith, starts_with-le s (y ∷ t), find-room s t j hit)
]

-- The first place of a needle stays the first, whatever follows.
find-append : (s t e : Text) (i : ℕ) → find s t ≡ some i → find s (t ++ e) ≡ some i
unfolding find
find-append [] [] [] i h = h
find-append [] [] (c ∷ e) i h = ground arith
find-append (x ∷ s) [] e i h = cc
find-append s (y ∷ t) e i h = elim (Bool-cases (starts_with s (y ∷ t))) [
  | inl here ↦ rw (starts_with-append s (y ∷ t) e here) (rw here at h)
  | inr apart ↦ elim (Option-cases (find s t)) [
    | inl miss ↦ absurd (ground arith)
    | inr (j, hit) ↦
        let room = find-room s t j hit in
        let apart' = starts_with-split s (y ∷ t) e apart (inr (omega arith)) in
        rw (apart', find-append s t e j hit) (ground arith)
  ]
]

take-append_left : (n : ℕ) (t e : Text) → n ≤ length t → take n (t ++ e) ≡ take n t
take-append_left zero t e h = refl
take-append_left (suc n) [] e h = absurd (omega arith)
take-append_left (suc n) (c ∷ t) e h = ap (◌∷◌ c) (take-append_left n t e (omega arith))

module _ (s : Text) (ne : NonEmpty s) where
  abbrev only : List Text
  only = s ∷ []

  apply_stop-hit : (t : Text) (i : ℕ) → find s t ≡ some i → apply_stop t only ≡ (take i t, s)
  apply_stop-hit [] i h = absurd (omega (arith, find-lt-length s [] ne h))
  apply_stop-hit (c ∷ t) i h =
      let lt = find-lt-length s (c ∷ t) ne h in
      rw (apply_stop_lem (c ∷ t) only refl)
        (unfold best_hit better_hit cut_at in rw h (ground arith))

  apply_stop-none : (t : Text) → find s t ≡ none → apply_stop t only ≡ (t, [])
  apply_stop-none [] h = unfold apply_stop in refl
  apply_stop-none (c ∷ t) h =
      rw (apply_stop_lem (c ∷ t) only refl) (unfold best_hit better_hit cut_at in rw h)

  stop_after-single :
      (acc : Text) (ds : List Text)
      → find s acc ≡ none
      → stop_after only acc ds ≡ apply_stop (acc ++ join ds) only
  unfolding stop_after join
  stop_after-single acc [] h = rw (append-nil, apply_stop-none acc h)
  stop_after-single acc (d ∷ ds) h = elim (Option-cases (find s (acc ++ d))) [
    | inl miss ↦
        rw (apply_stop-none (acc ++ d) miss, ← append_assoc acc d (join ds))
          (stop_after-single (acc ++ d) ds miss)
    | inr (i, hit) ↦
        rw
          (
            apply_stop-hit (acc ++ d) i hit,
            ← append_assoc acc d (join ds),
            apply_stop-hit (acc ++ d ++ join ds) i (find-append s (acc ++ d) (join ds) i hit),
          )
          (rw (
            ne,
            take-append_left i (acc ++ d) (join ds)
                (omega (arith, find-lt-length s (acc ++ d) ne hit)),
          ))
  ]

  kept_alone : (trimmer only).stops ≡ only
  unfolding trimmer
  kept_alone = rw ne

  -- With one stop, a streamed turn delivers and reports what `apply_stop` makes of the whole
  -- text, however the text is cut into deltas.
  pub deliver_single :
      (deltas : List Text)
      → ((deliver (trimmer only) deltas).1, (deliver (trimmer only) deltas).0.matched)
        ≡ apply_stop (join deltas) only
  deliver_single deltas =
      (deliver-stop_after only deltas).0
      ∙ rw kept_alone (stop_after-single [] deltas (find-nil s ne))
