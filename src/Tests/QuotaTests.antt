-- ===== src/Tests/QuotaTests.antt =====
-- conversation_quota.py and login_guard.py on small inputs.
use ciallo_ms_365_open_ai_pr.Prelude.{
  ℕ, ◌*◌, ◌/◌, ◌≡◌, ◌≤◌, refl, true, List, [], ◌∷◌, none, some, length, arith, contains, leb, inl,
}
use ciallo_ms_365_open_ai_pr.Prelude.Int.{pos}
use ciallo_ms_365_open_ai_pr.Prelude.Text.{codes, text_eq, text_key, strip, lstrip, is_space}
use ciallo_ms_365_open_ai_pr.Dict.{get, put, pop}
use ciallo_ms_365_open_ai_pr.ConversationQuota.{
  Quota, empty, max_accounts, oldest_from, drop_oldest, store_entry, reading, record_counts,
  record_quota, forget,
}
use ciallo_ms_365_open_ai_pr.ConversationQuota.Keeps
use ciallo_ms_365_open_ai_pr.ConversationQuota.Latest
use ciallo_ms_365_open_ai_pr.LoginGuard.{attempts, recent, is_locked, record_failure, clear}
use ciallo_ms_365_open_ai_pr.LoginGuard.Log

program : Unit {0}
unfolding text_eq strip lstrip is_space get put pop contains oldest_from drop_oldest store_entry
    reading record_counts record_quota forget attempts recent is_locked record_failure clear
    Log.step Log.run Log.log Log.log_step
program = tt

abbrev percent : ℕ → ℕ → ℕ
percent messages maximum = messages * 10000 / maximum

abbrev quota : Quota
quota = record { messages = some (pos 3); max_messages = some (pos 30); long_doc_messages = none }

abbrev calls : List Keeps.Call
calls =
    Keeps.record_call 5 (codes " acc1 ") (some quota)
    ∷ Keeps.record_call 6 (codes "acc2") (some quota)
    ∷ []

run-bounded_example : length (Keeps.run percent empty calls).by_account ≤ max_accounts
run-bounded_example = Keeps.run-bounded percent calls

run-forget_example :
    get
      (strip (codes "acc1"))
      (Keeps.run percent (forget (codes "acc1") (Keeps.run percent empty calls)) calls).by_account
    ≡ none
unfolding program
run-forget_example = Keeps.run-forget percent (codes "acc1") calls calls refl

record_quota_ignored_example : record_quota percent 5 (codes "  ") (some quota) empty ≡ empty
unfolding program
record_quota_ignored_example =
    Latest.record_quota_ignored percent 5 (codes "  ") quota empty (inl refl)

abbrev events : List (ℕ × Log.Event)
events =
    (1, Log.failure (codes "ip"))
    ∷ (2, Log.failure (codes "ip"))
    ∷ (70, Log.check (codes "ip"))
    ∷ (71, Log.failure (codes "ip"))
    ∷ []

is_locked-run_example :
    (is_locked 72 (codes "ip") (Log.run (Log.fresh 2 60) events)).0
    ≡ leb 2 (length (recent 60 72 (Log.log (codes "ip") [] events)))
is_locked-run_example = Log.is_locked-run 2 60 events 72 (codes "ip") (omega arith)

locked :
    (is_locked 40
      (codes "ip")
      (record_failure 2 (codes "ip") (record_failure 1 (codes "ip") (Log.fresh 2 60)))).0
    ≡ true
unfolding program
locked = refl
