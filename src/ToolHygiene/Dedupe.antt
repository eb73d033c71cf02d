-- ===== src/ToolHygiene/Dedupe.antt =====
-- What the two deduplications keep.
use ciallo_ms_365_open_ai_pr.Prelude.{
  ℕ, zero, suc, ◌≡◌, ◌⊎◌, ◌↔◌, refl, ap, ◌∙◌, inl, inr, Bool, true, false, not, ◌&&◌, List, [], ◌∷◌,
  arith, if◌then◌else◌, ◌==◌, contains, Bool-cases,
}
use mathlib.Core.Path.{subst}
use ciallo_ms_365_open_ai_pr.Prelude.Text.{Text, text_key, is_empty}
use ciallo_ms_365_open_ai_pr.ToolHygiene.{
  ToolCall, tool_call_id, dedupe_ids, dedupe_tool_call_ids, tool_call_payload, same_payload,
  payload_seen, dedupe_payloads, dedupe_tool_call_payloads,
}

-- How many of the calls have the id, and the payload.
unfoldable pub count_id : Text → List ToolCall → ℕ
count_id i [] = 0
count_id i (call ∷ calls) =
    let rest = count_id i calls in if tool_call_id call == i then suc rest else rest

unfoldable pub count_payload : Text × Text → List ToolCall → ℕ
count_payload p [] = 0
count_payload p (call ∷ calls) =
    let rest = count_payload p calls in
    if same_payload (tool_call_payload call) p then suc rest else rest

abbrev pub one_if : Bool → ℕ
one_if true = 1
one_if false = 0

abbrev pub present : ℕ → Bool
present zero = false
present (suc n) = true

-- A call that is skipped, or kept, and the count of an id.
skip_id :
    (j i : Text) (seen : List Text) (n k : ℕ)
    → (is_empty j ≡ true) ⊎ (contains j seen ≡ true)
    → k ≡ one_if (present n && not (is_empty i) && not (contains i seen))
    → k
      ≡ one_if (present (if j == i then suc n else n) && not (is_empty i) && not (contains i seen))
skip_id j i seen n k why h = elim (Bool-cases (j == i)) [
  | inr other ↦ ground (arith, other, h)
  | inl same ↦
      let path : j ≡ i = (text_key.same_iff j i).0 same in
      let why' : (is_empty i ≡ true) ⊎ (contains i seen ≡ true) =
        subst (λ (x : Text). (is_empty x ≡ true) ⊎ (contains x seen ≡ true)) path why in
      ground (arith, same, h, why')
]

keep_id :
    (j i : Text) (seen : List Text) (n k : ℕ)
    → is_empty j ≡ false
    → contains j seen ≡ false
    → k ≡ one_if (present n && not (is_empty i) && not (contains i (j ∷ seen)))
    → (if j == i then suc k else k)
      ≡ one_if (present (if j == i then suc n else n) && not (is_empty i) && not (contains i seen))
unfolding contains
keep_id j i seen n k full new h = elim (Bool-cases (j == i)) [
  | inr other ↦ ground (arith, other, h)
  | inl same ↦
      let path : j ≡ i = (text_key.same_iff j i).0 same in
      let full' : is_empty i ≡ false = subst (λ (x : Text). is_empty x ≡ false) path full in
      let new' : contains i seen ≡ false = subst (λ (x : Text). contains x seen ≡ false) path new in
      ground (arith, same, h, full', new')
]

-- Of the calls with one id, exactly one is kept if there is any, the id is not blank and it was not
-- seen.
dedupe_ids-count :
    (i : Text) (seen : List Text) (calls : List ToolCall)
    → count_id i (dedupe_ids seen calls).0
      ≡ one_if (present (count_id i calls) && not (is_empty i) && not (contains i seen))
unfolding count_id dedupe_ids contains
dedupe_ids-count i seen [] = refl
dedupe_ids-count i seen (call ∷ calls) =
    let j = tool_call_id call in
    let eq = text_key.same_iff j i in
    let same = dedupe_ids-count i seen calls in
    let more = dedupe_ids-count i (j ∷ seen) calls in
    elim (Bool-cases (is_empty j)) [
      | inl blank ↦ rw blank (skip_id j i seen (count_id i calls) _ (inl blank) same)
      | inr full ↦ elim (Bool-cases (contains j seen)) [
        | inl known ↦ rw (full, known) (skip_id j i seen (count_id i calls) _ (inr known) same)
        | inr new ↦ rw (full, new) (keep_id j i seen (count_id i calls) _ full new more)
      ]
    ]

-- Each id that is not blank is kept exactly once if the calls have it, and a blank one never.
pub dedupe_tool_call_ids-count :
    (i : Text) (calls : List ToolCall)
    → count_id i (dedupe_tool_call_ids calls).0
      ≡ one_if (present (count_id i calls) && not (is_empty i))
unfolding dedupe_tool_call_ids
dedupe_tool_call_ids-count i calls = dedupe_ids-count i [] calls ∙ (unfold contains in ground arith)

same_payload_iff : (p q : Text × Text) → (same_payload p q ≡ true) ↔ (p ≡ q)
unfolding same_payload
same_payload_iff (n, a) (m, b) = (
  λ h. grind (arith, text_key.same_iff n m, text_key.same_iff a b),
  λ e. ground (
    arith,
    (text_key.same_iff n m).1 (ap (λ (x : Text × Text). x.0) e),
    (text_key.same_iff a b).1 (ap (λ (x : Text × Text). x.1) e),
  ),
)

skip_payload :
    (q p : Text × Text) (seen : List (Text × Text)) (n k : ℕ)
    → payload_seen q seen ≡ true
    → k ≡ one_if (present n && not (payload_seen p seen))
    → k ≡ one_if (present (if same_payload q p then suc n else n) && not (payload_seen p seen))
skip_payload q p seen n k known h = elim (Bool-cases (same_payload q p)) [
  | inr other ↦ ground (arith, other, h)
  | inl same ↦
      let known' : payload_seen p seen ≡ true =
        subst (λ (x : Text × Text). payload_seen x seen ≡ true) ((same_payload_iff q p).0 same)
          known in
      ground (arith, same, h, known')
]

keep_payload :
    (q p : Text × Text) (seen : List (Text × Text)) (n k : ℕ)
    → payload_seen q seen ≡ false
    → k ≡ one_if (present n && not (payload_seen p (q ∷ seen)))
    → (if same_payload q p then suc k else k)
      ≡ one_if (present (if same_payload q p then suc n else n) && not (payload_seen p seen))
unfolding payload_seen
keep_payload q p seen n k new h = elim (Bool-cases (same_payload q p)) [
  | inr other ↦ ground (arith, other, h)
  | inl same ↦
      let new' : payload_seen p seen ≡ false =
        subst (λ (x : Text × Text). payload_seen x seen ≡ false) ((same_payload_iff q p).0 same)
          new in
      ground (arith, same, h, new')
]

dedupe_payloads-count :
    (p : Text × Text) (seen : List (Text × Text)) (calls : List ToolCall)
    → count_payload p (dedupe_payloads seen calls).0
      ≡ one_if (present (count_payload p calls) && not (payload_seen p seen))
unfolding count_payload dedupe_payloads
dedupe_payloads-count p seen [] = refl
dedupe_payloads-count p seen (call ∷ calls) =
    let q = tool_call_payload call in
    let same = dedupe_payloads-count p seen calls in
    let more = dedupe_payloads-count p (q ∷ seen) calls in
    elim (Bool-cases (payload_seen q seen)) [
      | inl known ↦ rw known (skip_payload q p seen (count_payload p calls) _ known same)
      | inr new ↦ rw new (keep_payload q p seen (count_payload p calls) _ new more)
    ]

-- Each name with its arguments is delivered exactly once if the calls have it.
pub dedupe_tool_call_payloads-count :
    (p : Text × Text) (calls : List ToolCall)
    → count_payload p (dedupe_tool_call_payloads calls).0 ≡ one_if (present (count_payload p calls))
unfolding dedupe_tool_call_payloads
dedupe_tool_call_payloads-count p calls =
    dedupe_payloads-count p [] calls ∙ (unfold payload_seen in ground arith)
