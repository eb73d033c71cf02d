-- ===== src/Tests/UsageTests.antt =====
-- usage_store.py on small inputs.
use ciallo_ms_365_open_ai_pr.Prelude.{◌≡◌, ◌≤◌, refl, false, List, [], ◌∷◌, length}
use ciallo_ms_365_open_ai_pr.Prelude.Int.{pos, negsuc}
use ciallo_ms_365_open_ai_pr.Prelude.Text.{Text, codes, text_eq, is_space}
use ciallo_ms_365_open_ai_pr.Dict.{get, put}
use ciallo_ms_365_open_ai_pr.UsageStore.{
  count_ascii, count_other, estimate_text_tokens, squeeze, or_unknown, model_name, add_model_data,
  specific_count, bounded_model_bucket, empty_data, max_model_buckets, item_or_empty, item_of,
  count_in, record_usage,
}
use ciallo_ms_365_open_ai_pr.UsageStore.Sums.{Call, record_call, run, Adds, run-Adds}
use ciallo_ms_365_open_ai_pr.UsageStore.Buckets.{run-bounded_buckets}

program : Unit {0}
unfolding text_eq is_space get put count_ascii count_other estimate_text_tokens squeeze or_unknown
    model_name add_model_data specific_count bounded_model_bucket item_or_empty item_of count_in
    record_usage run
program = tt

abbrev calls : List Call
calls =
    record_call (codes " gpt  5 ") (pos 7) (pos 2)
    ∷ record_call (codes "gpt 5") (negsuc 0) (pos 1)
    ∷ []

one_bucket : length (run empty_data calls).models ≡ 1
unfolding program
one_bucket = refl

run-Adds_example : Adds (run empty_data calls)
run-Adds_example = run-Adds calls

run-bounded_buckets_example : length (run empty_data calls).models ≤ max_model_buckets
run-bounded_buckets_example = run-bounded_buckets calls

abbrev long : Text
long = codes "0123456789012345678901234567890123456789012345678901234567890123456789012345678 b"

-- A name that is cut behind a space is another name when it is read again.
read_again : text_eq (model_name (model_name long)) (model_name long) ≡ false
unfolding program
read_again = refl
