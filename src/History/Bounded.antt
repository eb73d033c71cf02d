-- ===== src/History/Bounded.antt =====
-- How many entries the index holds.
use ciallo_ms_365_open_ai_pr.Prelude.{
  ℕ, ◌-◌, ◌≤◌, ◌≡◌, refl, ap, ◌∙◌, true, Option, none, some, List, [], ◌∷◌, arith, length,
  length-append, length-drop, contains, is_some,
}
use ciallo_ms_365_open_ai_pr.Prelude.Text.{Text, text_key}
use ciallo_ms_365_open_ai_pr.Dict.{Dict, keys, put_last, pop}
use ciallo_ms_365_open_ai_pr.Dict.Laws.{length-pop-lt, contains-keys}
use ciallo_ms_365_open_ai_pr.History.{
  Index, entry, add_owner, owners_of, longest, unique, evict, record_digests, match_digests, settle,
  answer, record_last, last_of, chain, match_history, record_history,
}
use ciallo_ms_365_open_ai_pr.History.Recorded.{
  Event, record_event, match_event, longest-found, step, run,
}

abbrev pub Small : ℕ → Index → Type 0
Small n i = (length i.entries ≤ n) × (i.max_entries ≡ n)

length-evict : (n : ℕ) (d : Dict Text (List Text)) → length (evict n d) ≤ n
unfolding evict
length-evict n d = omega (arith, length-drop (length d - n) d)

record_last-Small :
    (n : ℕ) (tenant key : Text) (i : Index) (o : Option Text)
    → Small n i
    → Small n (record_last tenant key i o)
unfolding record_last
record_last-Small n tenant key i none h = h
record_last-Small n tenant key i (some d) h = (
  omega (
    arith,
    h.1,
    length-evict i.max_entries (
        put_last (entry tenant d) (add_owner key (owners_of (entry tenant d) i.entries)) i.entries),
  ),
  h.1,
)

settle-Small : (n : ℕ) (i : Index) (o : Option Text) → Small n i → Small n (settle i o).1
unfolding settle
settle-Small n i none h = h
settle-Small n i (some key) h = h

answer-Small :
    (n : ℕ) (tenant : Text) (digests : List Text) (i : Index) (o : Option (Text × List Text))
    → longest tenant i.entries digests ≡ o
    → Small n i
    → Small n (answer i o).1
unfolding answer put_last
answer-Small n tenant digests i none e h = h
answer-Small n tenant digests i (some (k, owners)) e h =
    settle-Small n (record i { entries = put_last k owners i.entries }) (unique owners)
      (
        omega (
          arith,
          length-append (pop k i.entries) ((k, owners) ∷ []),
          length-pop-lt k i.entries there,
          h.0,
        ),
        h.1,
      )
  where
    there : contains k (keys i.entries) ≡ true
    there =
        contains-keys k i.entries
        ∙ ap (λ (x : Option (List Text)). is_some x)
            (longest-found tenant k i.entries digests owners e).3

module _ (sha256 utf8 : Text → Text) where
  step-Small : (n : ℕ) (i : Index) (event : Event) → Small n i → Small n (step sha256 utf8 i event)
  unfolding step record_history record_digests match_history match_digests
  step-Small n i (record_event tenant pairs key) h =
      record_last-Small n tenant key i (last_of (chain sha256 utf8 pairs)) h
  step-Small n i (match_event tenant pairs) h =
      answer-Small n tenant (chain sha256 utf8 pairs) i _ refl h

  pub run-Small : (n : ℕ) (events : List Event) → Small n (run sha256 utf8 n events)
  unfolding run
  run-Small n [] = (omega arith, refl)
  run-Small n (event ∷ events) = step-Small n (run sha256 utf8 n events) event (run-Small n events)

  -- Whatever the calls, the index holds at most `max_entries` entries.
  pub run-bounded_entries :
      (n : ℕ) (events : List Event) → length (run sha256 utf8 n events).entries ≤ n
  run-bounded_entries n events = (run-Small n events).0
