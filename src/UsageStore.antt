-- ===== src/UsageStore.antt =====
-- usage_store.py: the token estimate and `UsageStore`, without its file. A count that a caller
-- gives is a whole number, which `_nonnegative_int` cuts at zero; a model's name is a text.
pub mod Sums
pub mod Buckets
use ciallo_ms_365_open_ai_pr.Prelude.{
  ℕ, zero, suc, ◌+◌, ◌/◌, Bool, true, false, not, ◌||◌, Option, none, some, List, [], ◌∷◌, ◌++◌,
  ltb, if◌then◌else◌, ◌==◌, length, take, is_some,
}
use ciallo_ms_365_open_ai_pr.Prelude.Int.{ℤ, pos, pos_part}
use ciallo_ms_365_open_ai_pr.Prelude.Text.{Text, codes, text_key, is_space, is_empty}
use ciallo_ms_365_open_ai_pr.Dict.{Dict, get, put}

unfoldable pub count_ascii : Text → ℕ
count_ascii [] = 0
count_ascii (c ∷ text) = let rest = count_ascii text in if ltb c 128 then suc rest else rest

unfoldable pub count_other : Text → ℕ
count_other [] = 0
count_other (c ∷ text) = let rest = count_other text in if ltb c 128 then rest else suc rest

-- `estimate_text_tokens` of a text, with `math.ceil(ascii / 4)`
unfoldable pub estimate_text_tokens : Text → ℕ
estimate_text_tokens text = (count_ascii text + 3) / 4 + count_other text

-- `" ".join(text.split())`, with whether a word stands before and whether a space waits
unfoldable pub squeeze : Bool → Bool → Text → Text
squeeze started waiting [] = []
squeeze started waiting (c ∷ text) =
    let skip = squeeze started started text in
    let next = squeeze true false text in
    if is_space c then skip else if waiting then 32 ∷ c ∷ next else c ∷ next

-- `name or "unknown"`
unfoldable pub or_unknown : Text → Text
or_unknown name = if is_empty name then codes "unknown" else name

unfoldable pub model_name : Text → Text
model_name value = take 80 (or_unknown (squeeze false false value))

abbrev pub other_model : Text
other_model = codes "other"

abbrev pub max_model_buckets : ℕ
max_model_buckets = 25

pub record ModelData : Type 0 where
  pub calls : ℕ
  pub input_tokens : ℕ
  pub output_tokens : ℕ
  pub total_tokens : ℕ

abbrev pub empty_model_data : ModelData
empty_model_data = record { calls = 0; input_tokens = 0; output_tokens = 0; total_tokens = 0 }

unfoldable pub add_model_data : ℤ → ℤ → ℤ → ModelData → ModelData
add_model_data calls input output target = record {
  calls = target.calls + pos_part calls;
  input_tokens = target.input_tokens + pos_part input;
  output_tokens = target.output_tokens + pos_part output;
  total_tokens = target.total_tokens + (pos_part input + pos_part output);
}

-- `sum(1 for existing in models if existing != _OTHER_MODEL)`
unfoldable pub specific_count : Dict Text ModelData → ℕ
specific_count [] = 0
specific_count ((name, item) ∷ models) =
    let rest = specific_count models in if name == other_model then rest else suc rest

unfoldable pub bounded_model_bucket : Dict Text ModelData → Text → Text
bounded_model_bucket models model =
    if is_some (get (model_name model) models) || model_name model == other_model
    then model_name model
    else if ltb (suc (specific_count models)) max_model_buckets
    then model_name model
    else other_model

pub record Usage : Type 0 where
  pub calls_total : ℕ
  pub input_tokens : ℕ
  pub output_tokens : ℕ
  pub total_tokens : ℕ
  pub models : Dict Text ModelData

-- `_empty_data()`
abbrev pub empty_data : Usage
empty_data = record {
  calls_total = 0;
  input_tokens = 0;
  output_tokens = 0;
  total_tokens = 0;
  models = [];
}

unfoldable pub item_or_empty : Option ModelData → ModelData
item_or_empty none = empty_model_data
item_or_empty (some item) = item

unfoldable pub item_of : Text → Dict Text ModelData → ModelData
item_of name models = item_or_empty (get name models)

-- The items' `setdefault` and `_add_model_data`.
unfoldable pub count_in : Text → ℤ → ℤ → ℤ → Dict Text ModelData → Dict Text ModelData
count_in name calls input output models =
    put name (add_model_data calls input output (item_of name models)) models

-- `UsageStore.record`, whose result is the two counts and their sum
unfoldable pub record_usage : Text → ℤ → ℤ → Usage → (ℕ × ℕ × ℕ) × Usage
record_usage model input output u = (
  (pos_part input, pos_part output, pos_part input + pos_part output),
  record {
    calls_total = u.calls_total + 1;
    input_tokens = u.input_tokens + pos_part input;
    output_tokens = u.output_tokens + pos_part output;
    total_tokens = u.total_tokens + (pos_part input + pos_part output);
    models = count_in (bounded_model_bucket u.models model) (pos 1) input output u.models;
  },
)
