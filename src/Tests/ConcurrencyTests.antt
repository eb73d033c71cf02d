-- ===== src/Tests/ConcurrencyTests.antt =====
-- The gates of account_concurrency.py on small runs.
use ciallo_ms_365_open_ai_pr.Prelude.{◌≡◌, ◌≤◌, refl, List, [], ◌∷◌}
use ciallo_ms_365_open_ai_pr.Prelude.Text.{Text, codes, text_eq, text_key}
use ciallo_ms_365_open_ai_pr.Prelude.Int.{pos}
use ciallo_ms_365_open_ai_pr.Dict.{get, put}
use ciallo_ms_365_open_ai_pr.AccountConcurrency.{
  AccountConcurrency, account_concurrency, Event, entered, acquired, left, run, count_of,
}
use ciallo_ms_365_open_ai_pr.AccountConcurrency.Counted
use ciallo_ms_365_open_ai_pr.AccountConcurrency.Counted.{count, is_waiting, is_running}
use ciallo_ms_365_open_ai_pr.AccountConcurrency.Permits
use ciallo_ms_365_open_ai_pr.AccountConcurrency.Permits.{holds}

program : Unit {0}
unfolding text_eq get put run count_of count
program = tt

abbrev acct : Text
acct = codes "acct_1"

-- Two turns on a gate of one permit; the second tries again when the first has left.
abbrev events : List Event
events = entered acct (pos 1) ∷ acquired 0 ∷ entered acct (pos 1) ∷ acquired 0 ∷ []

abbrev gates : AccountConcurrency
gates = run events account_concurrency

one_waits : count_of acct gates.waiting ≡ 1
unfolding program
one_waits = refl

then_runs : count_of acct (run (left 1 ∷ acquired 0 ∷ []) gates).waiting ≡ 0
unfolding program
then_runs = refl

run-count_of_example :
    (count_of acct gates.waiting ≡ count (is_waiting acct) gates.tasks)
    × (count_of acct gates.inflight ≡ count (is_running acct) gates.tasks)
run-count_of_example = Counted.run-count_of events acct

run-holds_example : count (holds 0) gates.tasks ≤ 1
unfolding program
run-holds_example = Permits.run-holds events acct 1 0 refl
