-- ===== src/Tests/HygieneTests.antt =====
-- tool_hygiene.py on small inputs.
use ciallo_ms_365_open_ai_pr.Prelude.{◌≡◌, refl, List, [], ◌∷◌, none, some, contains}
use ciallo_ms_365_open_ai_pr.Prelude.Text.{codes, text_eq, strip, lstrip, is_space, is_empty}
use ciallo_ms_365_open_ai_pr.ToolHygiene.{
  ToolCall, Message, stripped, tool_call_id, text_or_empty, function_name, function_arguments,
  tool_call_label, dedupe_ids, dedupe_tool_call_ids, tool_call_payload, same_payload, payload_seen,
  dedupe_payloads, dedupe_tool_call_payloads, nonempty_id, call_ids, use_ids, declared_call_ids,
  result_ids, is_tool, answered_ids, judge, orphans_from, orphan_tool_results,
}
use ciallo_ms_365_open_ai_pr.ToolHygiene.Dedupe
use ciallo_ms_365_open_ai_pr.ToolHygiene.Orphans

program : Unit {0}
unfolding text_eq strip lstrip is_space contains stripped tool_call_id text_or_empty function_name
    function_arguments tool_call_label dedupe_ids dedupe_tool_call_ids tool_call_payload
    same_payload payload_seen dedupe_payloads dedupe_tool_call_payloads nonempty_id call_ids use_ids
    declared_call_ids result_ids is_tool answered_ids judge orphans_from orphan_tool_results
    Dedupe.count_id Dedupe.count_payload Orphans.declared_by Orphans.all_known Orphans.well_answered
program = tt

abbrev bash : ToolCall
bash = record {
  id = some (codes " a ");
  function = some (record { name = some (codes "Bash"); arguments = some (codes "{}") });
}

abbrev unnamed : ToolCall
unnamed = record { id = none; function = none }

abbrev calls : List ToolCall
calls = bash ∷ unnamed ∷ bash ∷ []

abbrev transcript : List Message
transcript =
    record {
      role = some (codes "assistant");
      tool_call_id_field = none;
      tool_calls = bash ∷ [];
      content = [];
    }
    ∷ record {
      role = some (codes "tool");
      tool_call_id_field = some (codes "a");
      tool_calls = [];
      content = [];
    }
    ∷ []

kept_once : (dedupe_tool_call_ids calls).0 ≡ bash ∷ []
unfolding program
kept_once = refl

answered : orphan_tool_results transcript ≡ []
unfolding program
answered = refl

dedupe_tool_call_payloads-count_example :
    Dedupe.count_payload (codes "Bash", codes "{}") (dedupe_tool_call_payloads calls).0
    ≡ Dedupe.one_if (Dedupe.present (Dedupe.count_payload (codes "Bash", codes "{}") calls))
dedupe_tool_call_payloads-count_example =
    Dedupe.dedupe_tool_call_payloads-count (codes "Bash", codes "{}") calls

orphan_tool_results-well_answered_example :
    is_empty (orphan_tool_results transcript) ≡ Orphans.well_answered [] transcript
orphan_tool_results-well_answered_example = Orphans.orphan_tool_results-well_answered transcript
