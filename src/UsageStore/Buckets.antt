-- ===== src/UsageStore/Buckets.antt =====
-- How many models are counted apart.
use ciallo_ms_365_open_ai_pr.Prelude.{
  suc, ◌≤◌, ◌<◌, ◌≡◌, refl, inl, inr, false, ◌||◌, List, [], ◌∷◌, arith, ltb, if◌then◌else◌, ◌==◌,
  length, contains, is_some, Bool-cases, same_refl,
}
use ciallo_ms_365_open_ai_pr.Prelude.Int.{ℤ, pos}
use ciallo_ms_365_open_ai_pr.Prelude.Text.{Text, text_key}
use ciallo_ms_365_open_ai_pr.Dict.{Dict, keys, get, put}
use ciallo_ms_365_open_ai_pr.Dict.Laws.{Distinct, put-Distinct}
use mathlib.Core.Path.{subst}
use ciallo_ms_365_open_ai_pr.UsageStore.{
  ModelData, add_model_data, model_name, other_model, max_model_buckets, specific_count,
  bounded_model_bucket, Usage, empty_data, item_of, count_in, record_usage,
}
use ciallo_ms_365_open_ai_pr.UsageStore.Sums.{Call, record_call, clear_call, run}

specific_count-put :
    (name : Text) (item : ModelData) (models : Dict Text ModelData)
    → specific_count (put name item models) ≡ (
        if is_some (get name models) || name == other_model
        then specific_count models
        else suc (specific_count models))
unfolding specific_count put get
specific_count-put name item [] = ground arith
specific_count-put name item ((j, old) ∷ models) =
    ground (arith, specific_count-put name item models, text_key.same_iff j name)

-- One place is left for the models that are not counted apart.
bucket-fits :
    (models : Dict Text ModelData) (model : Text) (item : ModelData)
    → specific_count models < max_model_buckets
    → specific_count (put (bounded_model_bucket models model) item models) < max_model_buckets
unfolding bounded_model_bucket
bucket-fits models model item h =
    let name = model_name model in
    elim (Bool-cases (is_some (get name models) || name == other_model)) [
      | inl apart ↦ rw apart (rw (specific_count-put name item models) (rw apart h))
      | inr new ↦ elim (Bool-cases (ltb (suc (specific_count models)) max_model_buckets)) [
        | inl room ↦
            rw (new, room)
              (rw (specific_count-put name item models) (rw new (ground (arith, room))))
        | inr full ↦
            rw (new, full)
              (rw (specific_count-put other_model item models)
                (ground (arith, h, same_refl other_model)))
      ]
    ]

-- The keys of a usage, at most one of which is "other".
length-specific_count :
    (models : Dict Text ModelData)
    → contains other_model (keys models) ≡ false
    → length models ≡ specific_count models
unfolding contains keys specific_count
length-specific_count [] h = refl
length-specific_count ((j, item) ∷ models) h = ground (arith, length-specific_count models)

length-le-specific_count :
    (models : Dict Text ModelData)
    → Distinct (keys models)
    → length models ≤ suc (specific_count models)
unfolding keys specific_count
length-le-specific_count [] d = omega arith
length-le-specific_count ((j, item) ∷ models) d = elim (Bool-cases (j == other_model)) [
  | inl same ↦
      let apart : contains other_model (keys models) ≡ false =
        subst (λ (x : Text). contains x (keys models) ≡ false)
          ((text_key.same_iff j other_model).0 same) d.0 in
      rw same (omega (arith, length-specific_count models apart))
  | inr other ↦ rw other (omega (arith, length-le-specific_count models d.1))
]

abbrev Apart : Usage → Type 0
Apart u = (specific_count u.models < max_model_buckets) × Distinct (keys u.models)

record_usage-Apart :
    (model : Text) (input output : ℤ) (u : Usage)
    → Apart u
    → Apart (record_usage model input output u).1
unfolding record_usage count_in
record_usage-Apart model input output u h =
    let name = bounded_model_bucket u.models model in
    let item = add_model_data (pos 1) input output (item_of name u.models) in
    (bucket-fits u.models model item h.0, put-Distinct name item u.models h.1)

empty_data-Apart : Apart empty_data
unfolding specific_count keys
empty_data-Apart = (omega arith, tt)

run-Apart : (u : Usage) (calls : List Call) → Apart u → Apart (run u calls)
unfolding run
run-Apart u [] h = h
run-Apart u (record_call model input output ∷ calls) h =
    run-Apart (record_usage model input output u).1 calls
      (record_usage-Apart model input output u h)
run-Apart u (clear_call ∷ calls) h = run-Apart empty_data calls empty_data-Apart

-- After any calls on a store that began empty there are at most 25 buckets, the one for all other
-- models included.
pub run-bounded_buckets :
    (calls : List Call) → length (run empty_data calls).models ≤ max_model_buckets
run-bounded_buckets calls =
    let h = run-Apart empty_data calls empty_data-Apart in
    omega (arith, h.0, length-le-specific_count (run empty_data calls).models h.1)
