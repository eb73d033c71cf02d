-- ===== src/Tests/ReasoningTests.antt =====
-- The streams of reasoning_stream.py on small inputs.
use ciallo_ms_365_open_ai_pr.Prelude.{◌≡◌, refl, some, List, [], ◌∷◌, ◌++◌}
use ciallo_ms_365_open_ai_pr.Prelude.Text.{codes, text_eq}
use ciallo_ms_365_open_ai_pr.Dict.{get, put}
use ciallo_ms_365_open_ai_pr.Reasoning.{
  ReasoningDelta, collector, separator, collected, add, same_kind, content_stream, closing, close,
  start, reasoning_event, text_event, tool_event,
}
use ciallo_ms_365_open_ai_pr.Reasoning.Collect
use ciallo_ms_365_open_ai_pr.Reasoning.Protocol.{
  Call, reasoning_call, text_call, tool_call, read_all, nothing, step, run, run-close-read,
}
use ciallo_ms_365_open_ai_pr.Reasoning.Content

program : Unit {0}
unfolding text_eq get put separator collected add same_kind closing close start reasoning_event
    text_event tool_event step run Collect.texts Collect.add_all Content.text_of Content.said
program = tt

abbrev delta : ReasoningDelta
delta = record { item_id = codes "rs_1"; text = codes "hm" }

abbrev calls : List Call
calls =
    reasoning_call delta
    ∷ text_call (codes "a")
    ∷ tool_call (codes "t") (codes "ls") (codes "{}")
    ∷ text_call (codes "b")
    ∷ []

run-close-read_example :
    read_all
      ((run calls content_stream).0 ++ (close (run calls content_stream).1).0)
      (some (nothing, 0))
    ≡ some (nothing, (run calls content_stream).1.next_index)
run-close-read_example = run-close-read calls

four_blocks : (run calls content_stream).1.next_index ≡ 4
unfolding program
four_blocks = refl

text_of-run_example : Content.text_of (run calls content_stream).0 ≡ Content.said calls
text_of-run_example = Content.text_of-run calls content_stream

collected-add_all_example :
    collected (codes "rs_1") (Collect.add_all (delta ∷ delta ∷ []) collector).items
    ≡ collected (codes "rs_1") collector.items ++ Collect.texts (codes "rs_1") (delta ∷ delta ∷ [])
collected-add_all_example = Collect.collected-add_all (codes "rs_1") (delta ∷ delta ∷ []) collector
