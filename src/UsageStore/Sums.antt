-- ===== src/UsageStore/Sums.antt =====
-- The totals against the models' own counts.
use ciallo_ms_365_open_ai_pr.Prelude.{
  ℕ, ◌+◌, ◌≡◌, refl, ◌∙◌, inl, inr, List, [], ◌∷◌, arith, if◌then◌else◌, ◌==◌, Bool-cases,
}
use ciallo_ms_365_open_ai_pr.Prelude.Int.{ℤ, pos}
use ciallo_ms_365_open_ai_pr.Prelude.Text.{Text, text_key}
use ciallo_ms_365_open_ai_pr.Dict.{Dict, get, put}
use ciallo_ms_365_open_ai_pr.UsageStore.{
  ModelData, empty_model_data, add_model_data, bounded_model_bucket, Usage, empty_data, item_of,
  item_or_empty, count_in, record_usage,
}

-- A sum over the models.
unfoldable pub sum_of : (ModelData → ℕ) → Dict Text ModelData → ℕ
sum_of f [] = 0
sum_of f ((name, item) ∷ models) = f item + sum_of f models

item_of-cons :
    (f : ModelData → ℕ) (name j : Text) (old : ModelData) (models : Dict Text ModelData)
    → f (item_of name ((j, old) ∷ models)) ≡ (if j == name then f old else f (item_of name models))
unfolding item_of item_or_empty get
item_of-cons f name j old models = elim (Bool-cases (j == name)) [
  | inl same ↦ rw same refl
  | inr other ↦ rw other refl
]

sum_of-put :
    (f : ModelData → ℕ) (name : Text) (item : ModelData) (models : Dict Text ModelData)
    → f empty_model_data ≡ 0
    → sum_of f (put name item models) + f (item_of name models) ≡ sum_of f models + f item
unfolding sum_of put
sum_of-put f name item [] z =
    let none' : f (item_of name []) ≡ 0 = unfold item_of item_or_empty get in z in
    omega (arith, none')
sum_of-put f name item ((j, old) ∷ models) z = elim (Bool-cases (j == name)) [
  | inl same ↦
      let here : f (item_of name ((j, old) ∷ models)) ≡ f old =
        item_of-cons f name j old models ∙ rw same refl in
      rw same (omega (arith, here))
  | inr other ↦
      let here : f (item_of name ((j, old) ∷ models)) ≡ f (item_of name models) =
        item_of-cons f name j old models ∙ rw other refl in
      rw other (omega (arith, here, sum_of-put f name item models z))
]

-- The totals are the sums of the models' counts, and all tokens are the input and the output.
pub record Adds (u : Usage) : Type 0 where
  pub of_calls : sum_of (λ item. item.calls) u.models ≡ u.calls_total
  pub of_input : sum_of (λ item. item.input_tokens) u.models ≡ u.input_tokens
  pub of_output : sum_of (λ item. item.output_tokens) u.models ≡ u.output_tokens
  pub of_total : sum_of (λ item. item.total_tokens) u.models ≡ u.total_tokens
  pub both : u.input_tokens + u.output_tokens ≡ u.total_tokens

record_usage-Adds :
    (model : Text) (input output : ℤ) (u : Usage)
    → Adds u
    → Adds (record_usage model input output u).1
unfolding record_usage count_in add_model_data
record_usage-Adds model input output u a =
    let name = bounded_model_bucket u.models model in
    let item = add_model_data (pos 1) input output (item_of name u.models) in
    record {
      of_calls = omega (arith, a.of_calls, sum_of-put (λ x. x.calls) name item u.models refl);
      of_input =
          omega (arith, a.of_input, sum_of-put (λ x. x.input_tokens) name item u.models refl);
      of_output =
          omega (arith, a.of_output, sum_of-put (λ x. x.output_tokens) name item u.models refl);
      of_total =
          omega (arith, a.of_total, sum_of-put (λ x. x.total_tokens) name item u.models refl);
      both = omega (arith, a.both);
    }

-- The calls on a store: a completed call with its model and its tokens, or `clear`.
pub data Call : Type 0 where
  record_call : Text → ℤ → ℤ → Call
  clear_call : Call

unfoldable pub run : Usage → List Call → Usage
run u [] = u
run u (record_call model input output ∷ calls) = run (record_usage model input output u).1 calls
run u (clear_call ∷ calls) = run empty_data calls

empty_data-Adds : Adds empty_data
unfolding sum_of
empty_data-Adds = record {
  of_calls = refl;
  of_input = refl;
  of_output = refl;
  of_total = refl;
  both = omega arith;
}

from-Adds : (u : Usage) (calls : List Call) → Adds u → Adds (run u calls)
unfolding run
from-Adds u [] a = a
from-Adds u (record_call model input output ∷ calls) a =
    from-Adds (record_usage model input output u).1 calls (record_usage-Adds model input output u a)
from-Adds u (clear_call ∷ calls) a = from-Adds empty_data calls empty_data-Adds

-- After any calls on a store that began empty, the totals of calls, input, output and all tokens
-- are the sums of the models' counts, and all tokens are the input and the output.
pub run-Adds : (calls : List Call) → Adds (run empty_data calls)
run-Adds calls = from-Adds empty_data calls empty_data-Adds
