-- ===== src/Tests/StopTests.antt =====
-- stop_sequences.py on small texts.
use ciallo_ms_365_open_ai_pr.Prelude.{◌≡◌, refl, List, [], ◌∷◌, none, contains, take}
use ciallo_ms_365_open_ai_pr.Prelude.Text.{Text, codes, text_eq, find, join}
use ciallo_ms_365_open_ai_pr.StopSequences.{
  str, not_str, many, normalize_values, normalize_stop, better_hit, best_hit, cut_at, apply_stop,
  held_scan, held_stops, held_suffix_len, release, feed_pending, feed, flush, trimmer, deliver,
  max_stop_sequences,
}
use ciallo_ms_365_open_ai_pr.StopSequences.First
use ciallo_ms_365_open_ai_pr.StopSequences.First.{FirstHit}
use ciallo_ms_365_open_ai_pr.StopSequences.Normalize.{normalize_stop-take, fresh, raw_texts}
use ciallo_ms_365_open_ai_pr.StopSequences.Single
use ciallo_ms_365_open_ai_pr.StopSequences.Stream.{stop_after, deliver-stop_after}

program : Unit {0}
unfolding text_eq contains find better_hit best_hit cut_at apply_stop held_scan held_stops
    held_suffix_len release feed_pending feed flush trimmer deliver normalize_values normalize_stop
program = tt

abbrev stops : List Text
stops = codes "STOP" ∷ codes "" ∷ codes "END" ∷ []

-- A stop that comes in two deltas is cut out, and nothing after it is delivered.
split_stop : (deliver (trimmer stops) (codes "ab ST" ∷ codes "OP cd" ∷ [])).1 ≡ codes "ab "
unfolding program
split_stop = refl

-- A tail that only looks like the front of a stop is delivered by the flush.
held_tail : (deliver (trimmer stops) (codes "the EN" ∷ [])).1 ≡ codes "the EN"
unfolding program
held_tail = refl

held : held_suffix_len (codes "xSTST") (codes "STOP" ∷ codes "STSTZ" ∷ []) ≡ 4
unfolding program
held = refl

-- With two stops the cut may depend on the deltas: the shorter stop completes first.
abbrev nested : List Text
nested = codes "abc" ∷ codes "b" ∷ []

nested_streamed : (deliver (trimmer nested) (codes "ab" ∷ codes "c" ∷ [])).1 ≡ codes "a"
unfolding program
nested_streamed = refl

nested_whole : (apply_stop (codes "abc") nested).0 ≡ []
unfolding program
nested_whole = refl

normalized :
    normalize_stop
      (many (str (codes "x") ∷ not_str ∷ str [] ∷ str (codes "x") ∷ str (codes "y") ∷ []))
    ≡ codes "x" ∷ codes "y" ∷ []
unfolding program
normalized = refl

deliver-stop_after_example :
    ((
      (deliver (trimmer stops) (codes "a ST" ∷ codes "OP" ∷ [])).1,
      (deliver (trimmer stops) (codes "a ST" ∷ codes "OP" ∷ [])).0.matched,
    )
      ≡ stop_after (trimmer stops).stops [] (codes "a ST" ∷ codes "OP" ∷ []))
    × ((deliver (trimmer stops) (codes "a ST" ∷ codes "OP" ∷ [])).0.released
        ≡ (deliver (trimmer stops) (codes "a ST" ∷ codes "OP" ∷ [])).1)
deliver-stop_after_example = deliver-stop_after stops (codes "a ST" ∷ codes "OP" ∷ [])

deliver_single_example :
    (
      (deliver (trimmer (codes "END" ∷ [])) (codes "the E" ∷ codes "ND" ∷ [])).1,
      (deliver (trimmer (codes "END" ∷ [])) (codes "the E" ∷ codes "ND" ∷ [])).0.matched,
    )
    ≡ apply_stop (join (codes "the E" ∷ codes "ND" ∷ [])) (codes "END" ∷ [])
deliver_single_example = Single.deliver_single (codes "END") refl (codes "the E" ∷ codes "ND" ∷ [])

deliver_clean_example :
    find (codes "END") (deliver (trimmer stops) (codes "the E" ∷ codes "ND" ∷ [])).1 ≡ none
unfolding program
deliver_clean_example =
    First.deliver_clean stops (codes "the E" ∷ codes "ND" ∷ []) (codes "END") refl refl

apply_stop-FirstHit_example : FirstHit (codes "xabc") nested (apply_stop (codes "xabc") nested)
unfolding program
apply_stop-FirstHit_example = First.apply_stop-FirstHit (codes "xabc") nested refl

normalize_stop-take_example :
    normalize_stop (many (str (codes "x") ∷ not_str ∷ []))
    ≡ take max_stop_sequences (fresh [] (raw_texts (many (str (codes "x") ∷ not_str ∷ []))))
normalize_stop-take_example = normalize_stop-take (many (str (codes "x") ∷ not_str ∷ []))
