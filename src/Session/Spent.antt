-- ===== src/Session/Spent.antt =====
-- Responses that were continued.
use ciallo_ms_365_open_ai_pr.Prelude.{
  ℕ, ◌≡◌, refl, inl, inr, Bool, true, false, Option, List, [], ◌∷◌, arith, ◌==◌, contains,
  Bool-cases,
}
use ciallo_ms_365_open_ai_pr.Prelude.Text.{Text, text_key}
use ciallo_ms_365_open_ai_pr.Session.{
  Session, reserve_turn, record_studio_context, reset_conversation, is_latest, touched,
  record_response, begin_continuation, may_continue, holds, finish_continuation,
  complete_continuation,
}
use ciallo_ms_365_open_ai_pr.Session.Ring.{contains-consume}
use ciallo_ms_365_open_ai_pr.Session.Valid.{
  Call, reserve, studio, reset, respond, begin, finish, complete, step, run,
}
use ciallo_ms_365_open_ai_pr.Session.Linear.{any_call, issue-latest, issue-consumed}

module _ {Context : Type 0} where
  -- The calls that issue a response under the id `id`.
  unfoldable pub issues : Text → Call Context → Bool
  issues id (reserve now) = false
  issues id (studio context_id) = false
  issues id (reset now a b) = false
  issues id (respond now j calls ro c) = j == id
  issues id (begin t j) = false
  issues id (finish now j r ok) = false
  issues id (complete now p r j calls ro c) = j == id

  finish_continuation-latest :
      (now : ℕ) (id r : Text) (ok : Bool) (s : Session Context)
      → (finish_continuation now id r ok s).latest ≡ s.latest
  unfolding finish_continuation touched
  finish_continuation-latest now id r ok s = elim (Bool-cases (holds id r s)) [
    | inr e ↦ rw e refl
    | inl e ↦ rw e (elim (Bool-cases ok) [ inl good ↦ rw good refl | inr bad ↦ rw bad refl ])
  ]

  begin_continuation-latest :
      (token id : Text) (s : Session Context) → (begin_continuation token id s).1.latest ≡ s.latest
  unfolding begin_continuation
  begin_continuation-latest token id s = elim (Bool-cases (may_continue id s)) [
    | inl e ↦ rw e refl
    | inr e ↦ rw e refl
  ]

  complete_continuation-latest :
      (now : ℕ) (id p r j : Text) (calls : List Text) (ro : Bool) (c : Option Context)
      (s : Session Context)
      → is_latest id s.latest ≡ false
      → (j == id) ≡ false
      → is_latest id (complete_continuation now p r j calls ro c s).1.latest ≡ false
  unfolding complete_continuation touched
  complete_continuation-latest now id p r j calls ro c s h f = elim (Bool-cases (holds p r s)) [
    | inr e ↦ rw e h
    | inl e ↦ rw e (
        rw (issue-latest j calls ro c _)
          (unfold is_latest in ground (arith, text_key.same_iff id j, text_key.same_iff j id)))
  ]

  step-latest :
      (id : Text) (s : Session Context) (c : Call Context)
      → is_latest id s.latest ≡ false
      → issues id c ≡ false
      → is_latest id (step s c).latest ≡ false
  unfolding step issues
  step-latest id s (reserve now) h f = unfold reserve_turn in h
  step-latest id s (studio context_id) h f = unfold record_studio_context in h
  step-latest id s (reset now a b) h f = unfold reset_conversation in h
  step-latest id s (respond now j calls ro c) h f =
      unfold record_response touched in
      rw (issue-latest j calls ro c s)
        (unfold is_latest in ground (arith, text_key.same_iff id j, text_key.same_iff j id))
  step-latest id s (begin t j) h f = rw (begin_continuation-latest t j s) h
  step-latest id s (finish now j r ok) h f = rw (finish_continuation-latest now j r ok s) h
  step-latest id s (complete now p r j calls ro c) h f =
      complete_continuation-latest now id p r j calls ro c s h f

  run-latest :
      (id : Text) (s : Session Context) (calls : List (Call Context))
      → is_latest id s.latest ≡ false
      → any_call (issues id) calls ≡ false
      → is_latest id (run s calls).latest ≡ false
  unfolding run any_call
  run-latest id s [] h f = h
  run-latest id s (c ∷ calls) h f =
      run-latest id (step s c) calls (step-latest id s c h (ground arith)) (ground arith)

  -- After a complete that was accepted, with a child of another id, the parent is never continued
  -- again, whatever the later calls are, as long as none issues a response of the parent's id.
  pub complete_once :
      (now : ℕ) (parent r child : Text) (calls : List Text) (ro : Bool) (c : Option Context)
      (s : Session Context) (later : List (Call Context))
      → holds parent r s ≡ true
      → (child == parent) ≡ false
      → any_call (issues parent) later ≡ false
      → may_continue parent (run (complete_continuation now parent r child calls ro c s).1 later)
        ≡ false
  complete_once now parent r child calls ro c s later h differ f =
      not_latest (run _ later) (run-latest parent _ later start f)
    where
      not_latest :
          (t : Session Context) → is_latest parent t.latest ≡ false → may_continue parent t ≡ false
      not_latest t e = unfold may_continue in ground (arith, e)

      start :
          is_latest parent (complete_continuation now parent r child calls ro c s).1.latest ≡ false
      start =
          unfold complete_continuation touched in
          rw h (
            rw (issue-latest child calls ro c _) (
              unfold is_latest in
              ground (arith, text_key.same_iff parent child, text_key.same_iff child parent)))

  consumed-may_continue :
      (id : Text) (t : Session Context) → contains id t.consumed ≡ true → may_continue id t ≡ false
  unfolding may_continue
  consumed-may_continue id t h = ground (arith, h)

  -- Both ways of a success spend the response: right after it, it cannot be continued, even when
  -- the child has the parent's own id.
  pub success_spends :
      (now : ℕ) (id r child : Text) (calls : List Text) (ro : Bool) (c : Option Context)
      (s : Session Context)
      → holds id r s ≡ true
      → (may_continue id (finish_continuation now id r true s) ≡ false)
        × (may_continue id (complete_continuation now id r child calls ro c s).1 ≡ false)
  success_spends now id r child calls ro c s h = (
    consumed-may_continue id _
        (unfold finish_continuation touched in rw h (contains-consume id s.consumed)),
    consumed-may_continue id _ (
        unfold complete_continuation touched in
        rw h (rw (issue-consumed child calls ro c _) (contains-consume id s.consumed))),
  )
