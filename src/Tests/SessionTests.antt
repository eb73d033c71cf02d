-- ===== src/Tests/SessionTests.antt =====
-- The sessions of session_store.py on small inputs.
use ciallo_ms_365_open_ai_pr.Prelude.{
  ℕ, ◌≡◌, refl, true, false, ◌&&◌, List, [], ◌∷◌, none, some, contains, ◌==◌,
}
use ciallo_ms_365_open_ai_pr.Prelude.Text.{codes, text_eq, text_key}
use ciallo_ms_365_open_ai_pr.Dict.{get, put, pop}
use ciallo_ms_365_open_ai_pr.Session.{
  Session, session, reserve_turn, unique_from, all_in, same_set, is_latest, expire, expire_overflow,
  consume, put_context, issue, touched, record_response, allows_response_outputs, may_continue,
  begin_continuation, holds, finish_continuation, complete_continuation,
}
use ciallo_ms_365_open_ai_pr.Session.Valid.{
  IsValid, Call, reserve, respond, begin, step, run, session-IsValid, run-IsValid,
}
use ciallo_ms_365_open_ai_pr.Session.Linear.{returns, any_call, begin_once}
use ciallo_ms_365_open_ai_pr.Session.Spent.{issues, complete_once, success_spends}
use ciallo_ms_365_open_ai_pr.Session.Outputs.{outputs-record_response}

program : Unit {0}
unfolding text_eq get put pop contains session reserve_turn unique_from all_in same_set is_latest
    expire expire_overflow consume put_context issue touched record_response allows_response_outputs
    may_continue begin_continuation holds finish_continuation complete_continuation step run returns
    any_call issues
program = tt

abbrev fresh : Session ℕ
fresh = session 0 (codes "conv") (codes "client")

abbrev history : List (Call ℕ)
history = reserve 1 ∷ respond 2 (codes "r1") (codes "c1" ∷ codes "c1" ∷ []) false (some 7) ∷ []

abbrev waiting : Session ℕ
waiting = run fresh history

abbrev held : Session ℕ
held = (begin_continuation (codes "t") (codes "r1") waiting).1

run-IsValid_example : IsValid (run fresh history)
run-IsValid_example = run-IsValid fresh history (session-IsValid 0 (codes "conv") (codes "client"))

begin_once_example :
    begin_continuation (codes "u") (codes "r1") (run held (reserve 3 ∷ []))
    ≡ (none, run held (reserve 3 ∷ []))
unfolding program
begin_once_example =
    begin_once (codes "r1") (codes "t") (codes "u") waiting (reserve 3 ∷ []) refl refl

complete_once_example :
    may_continue (codes "r1") (
      run
        (complete_continuation 5 (codes "r1") (codes "t") (codes "r2") [] true none held).1
        (begin (codes "v") (codes "r2") ∷ []))
    ≡ false
unfolding program
complete_once_example =
    complete_once 5 (codes "r1") (codes "t") (codes "r2") [] true none held
      (begin (codes "v") (codes "r2") ∷ []) refl refl refl

success_spends_example :
    (may_continue (codes "r1") (finish_continuation 5 (codes "r1") (codes "t") true held) ≡ false)
    × (may_continue
          (codes "r1")
          (complete_continuation 5 (codes "r1") (codes "t") (codes "r1") [] true none held).1
        ≡ false)
unfolding program
success_spends_example =
    success_spends 5 (codes "r1") (codes "t") (codes "r1") [] true none held refl

outputs-record_response_example :
    allows_response_outputs
      (codes "r1")
      (codes "c1" ∷ [])
      (record_response 2 (codes "r1") (codes "c1" ∷ codes "c1" ∷ []) false (some 7) fresh)
    ≡ (codes "r1" == codes "r1" && same_set (codes "c1" ∷ []) (codes "c1" ∷ codes "c1" ∷ []))
outputs-record_response_example =
    outputs-record_response 2 (codes "r1") (codes "c1" ∷ codes "c1" ∷ []) false (some 7) fresh
      (codes "r1") (codes "c1" ∷ []) (session-IsValid 0 (codes "conv") (codes "client"))

admitted : allows_response_outputs (codes "r1") (codes "c1" ∷ []) waiting ≡ true
unfolding program
admitted = refl
