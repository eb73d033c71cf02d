-- ===== src/Tests/HistoryTests.antt =====
-- The history index of history_index.py on small inputs, with hashes that keep the bytes.
use ciallo_ms_365_open_ai_pr.Prelude.{
  ◌≡◌, ◌≤◌, refl, true, List, [], ◌∷◌, ◌++◌, none, some, length, arith, contains,
}
use ciallo_ms_365_open_ai_pr.Prelude.Text.{Text, codes, text_eq, text_key}
use ciallo_ms_365_open_ai_pr.Dict.{get, pop, put_last}
use ciallo_ms_365_open_ai_pr.History.{
  Pair, index, entry, last_of, longest, unique, add_owner, owners_of, evict, record_last,
  record_digests, settle, answer, match_digests, chain_from, chain, match_history, record_history,
}
use ciallo_ms_365_open_ai_pr.History.Continue
use ciallo_ms_365_open_ai_pr.History.Recorded.{
  Event, record_event, match_event, no_nul, clean_tenants, but_last, step, run, recorded,
}
use ciallo_ms_365_open_ai_pr.History.Tenants
use ciallo_ms_365_open_ai_pr.History.Shared
use ciallo_ms_365_open_ai_pr.History.Bounded

program : Unit {0}
unfolding text_eq get pop put_last contains entry last_of longest unique add_owner owners_of evict
    record_last record_digests settle answer match_digests chain_from chain match_history
    record_history no_nul clean_tenants but_last step run recorded Shared.names
    Shared.recorded_since
program = tt

abbrev same_bytes : Text → Text
same_bytes s = s

abbrev hi : Pair
hi = (codes "user", codes "hi")

abbrev reply : Pair
reply = (codes "assistant", codes "yes")

match_history-unique_example :
    (match_history same_bytes same_bytes
      (codes "t1")
      (hi ∷ reply ∷ [])
      (record_history same_bytes same_bytes (codes "t1") (hi ∷ []) (codes "s1") (index 4))).0
    ≡ some (codes "s1")
match_history-unique_example =
    Continue.match_history_unique same_bytes same_bytes (codes "t1") (codes "s1") hi [] reply
      (index 4) (omega arith) (λ d e. unfold get in refl)

-- Two sessions with one history, other calls between and after.
abbrev shared : List Event
shared =
    match_event (codes "t1") (hi ∷ reply ∷ [])
    ∷ record_event (codes "t1") (hi ∷ []) (codes "s2")
    ∷ record_event (codes "t1") (reply ∷ []) (codes "s3")
    ∷ record_event (codes "t1") (hi ∷ []) (codes "s1")
    ∷ []

match_history-ambiguous_example :
    (match_history same_bytes same_bytes
      (codes "t1")
      (hi ∷ reply ∷ [])
      (run same_bytes same_bytes 4 shared)).0
    ≡ none
unfolding program
match_history-ambiguous_example =
    Shared.match_history-ambiguous same_bytes same_bytes 4 shared (codes "t1")
      (codes "user" ++ 0 ∷ codes "hi" ++ 0 ∷ []) (codes "s1") (codes "s2") (hi ∷ []) reply
      (omega arith) refl refl refl refl

-- With room for one entry, the record of another history evicts the first one: the session that
-- records it again is alone.
evicted_unique :
    (match_history same_bytes same_bytes
      (codes "t1")
      (hi ∷ reply ∷ [])
      (run same_bytes same_bytes 1 shared)).0
    ≡ some (codes "s2")
unfolding program
evicted_unique = refl

abbrev events : List Event
events =
    match_event (codes "t2") (hi ∷ reply ∷ [])
    ∷ record_event (codes "t1") (hi ∷ []) (codes "s1")
    ∷ []

match_history-recorded_example :
    (d : Text) × (contains d (but_last (chain same_bytes same_bytes (hi ∷ reply ∷ []))) ≡ true)
    × (recorded same_bytes same_bytes (codes "t1") d (codes "s1") events ≡ true)
unfolding program
match_history-recorded_example =
    Tenants.match_history-recorded same_bytes same_bytes 4 events (codes "t1") (codes "s1")
      (hi ∷ reply ∷ []) refl refl refl

run-bounded_entries_example : length (run same_bytes same_bytes 4 events).entries ≤ 4
run-bounded_entries_example = Bounded.run-bounded_entries same_bytes same_bytes 4 events

-- A NUL in a text makes two histories hash alike, whatever the hash: their bytes are the same.
nul_collides :
    last_of (
      chain same_bytes same_bytes
        ((codes "user", codes "a" ++ 0 ∷ codes "assistant" ++ 0 ∷ codes "b") ∷ []))
    ≡ last_of (
        chain same_bytes same_bytes
          ((codes "user", codes "a") ∷ (codes "assistant", codes "b") ∷ []))
unfolding program
nul_collides = refl
