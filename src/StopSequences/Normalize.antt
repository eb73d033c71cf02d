-- ===== src/StopSequences/Normalize.antt =====
-- `normalize_stop` against a description by lists: the first eight of the distinct, nonempty texts.
use ciallo_ms_365_open_ai_pr.Prelude.{
  ℕ, zero, suc, ◌+◌, ◌-◌, ◌<◌, ◌≡◌, refl, ap, List, [], ◌∷◌, ◌++◌, arith, if◌then◌else◌, length,
  take, length-append, contains, Bool-cases, inl, inr, append_assoc, append-nil, leb,
}
use ciallo_ms_365_open_ai_pr.Prelude.Text.{Text, text_key, is_empty}
use ciallo_ms_365_open_ai_pr.StopSequences.{
  StopValue, str, not_str, RawStop, null, one, many, not_list, normalize_values, normalize_stop,
  max_stop_sequences,
}

-- The texts of a request, as a list.
unfoldable pub texts : List StopValue → List Text
texts [] = []
texts (str s ∷ values) = s ∷ texts values
texts (not_str ∷ values) = texts values

unfoldable pub raw_texts : RawStop → List Text
raw_texts null = []
raw_texts (one s) = s ∷ []
raw_texts (many values) = texts values
raw_texts not_list = []

-- The nonempty ones that are not in `seen`, each at its first place.
unfoldable pub fresh : List Text → List Text → List Text
fresh seen [] = []
fresh seen (s ∷ rest) =
    let skipped = fresh seen rest in
    let added = s ∷ fresh (seen ++ s ∷ []) rest in
    if is_empty s then skipped else if contains s seen then skipped else added

take_nil : (n : ℕ) → take {A = Text} n [] ≡ []
take_nil zero = refl
take_nil (suc n) = refl

take_suc : (s : Text) (n : ℕ) (rest : List Text) → 0 < n → take n (s ∷ rest) ≡ s ∷ take (n - 1) rest
take_suc s zero rest h = absurd (omega arith)
take_suc s (suc n) rest h = ap (λ m. s ∷ take m rest) (omega arith)

-- The branch that appends: the `break`, or the rest of the loop.
added :
    (out : List Text) (s : Text) (values : List StopValue)
    → length out < max_stop_sequences
    → (length (out ++ s ∷ []) < max_stop_sequences
        → normalize_values (out ++ s ∷ []) values
          ≡ out
            ++ s ∷ []
            ++ take
                (max_stop_sequences - length (out ++ s ∷ []))
                (fresh (out ++ s ∷ []) (texts values)))
    → (if leb max_stop_sequences (length (out ++ s ∷ []))
        then out ++ s ∷ []
        else normalize_values (out ++ s ∷ []) values)
      ≡ out ++ s ∷ take (max_stop_sequences - length out - 1) (fresh (out ++ s ∷ []) (texts values))
added out s values h ih =
    let grown : length (out ++ s ∷ []) ≡ length out + 1 =
      omega (arith, length-append out (s ∷ [])) in
    let f = fresh (out ++ s ∷ []) (texts values) in
    elim (Bool-cases (leb max_stop_sequences (length (out ++ s ∷ [])))) [
      | inl full ↦ let e : max_stop_sequences - length out - 1 ≡ 0 = ground arith in rw (full, e)
      | inr room ↦
          let e : max_stop_sequences - length out - 1
              ≡ max_stop_sequences - length (out ++ s ∷ []) =
            omega arith in
          rw (room, e, ih (ground arith))
            (append_assoc out (s ∷ []) (take (max_stop_sequences - length (out ++ s ∷ [])) f))
    ]

normalize_values_lem :
    (out : List Text) (values : List StopValue)
    → length out < max_stop_sequences
    → normalize_values out values
      ≡ out ++ take (max_stop_sequences - length out) (fresh out (texts values))
unfolding normalize_values texts fresh
normalize_values_lem out [] h = rw (take_nil (max_stop_sequences - length out), append-nil)
normalize_values_lem out (not_str ∷ values) h = normalize_values_lem out values h
normalize_values_lem out (str s ∷ values) h = elim (Bool-cases (is_empty s)) [
  | inl blank ↦ rw blank (normalize_values_lem out values h)
  | inr text ↦ elim (Bool-cases (contains s out)) [
    | inl old ↦ rw (text, old) (normalize_values_lem out values h)
    | inr new ↦
        rw
          (
            text,
            new,
            take_suc s (max_stop_sequences - length out) (fresh (out ++ s ∷ []) (texts values))
                (omega arith),
          )
          (added out s values h (normalize_values_lem (out ++ s ∷ []) values))
  ]
]

-- `normalize_stop` keeps the first eight distinct nonempty texts of the request, in order.
pub normalize_stop-take :
    (raw : RawStop) → normalize_stop raw ≡ take max_stop_sequences (fresh [] (raw_texts raw))
unfolding normalize_stop raw_texts fresh
normalize_stop-take null = refl
normalize_stop-take (one s) = unfold texts in normalize_values_lem [] (str s ∷ []) (omega arith)
normalize_stop-take (many values) = normalize_values_lem [] values (omega arith)
normalize_stop-take not_list = refl
