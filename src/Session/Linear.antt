-- ===== src/Session/Linear.antt =====
-- Reservations of continuations, one at a time.
use ciallo_ms_365_open_ai_pr.Prelude.{
  ℕ, zero, suc, ◌≡◌, refl, ◌∙◌, inl, inr, Bool, true, false, ◌&&◌, ◌||◌, Option, none, some, List,
  [], ◌∷◌, arith, ◌==◌, same_refl, Bool-cases, Option-cases,
}
use ciallo_ms_365_open_ai_pr.Prelude.Text.{Text, text_key}
use ciallo_ms_365_open_ai_pr.Dict.{Dict, get, put, pop, get-put, get-pop}
use ciallo_ms_365_open_ai_pr.Dict.Laws.{pop-put}
use ciallo_ms_365_open_ai_pr.Session.{
  Session, reserve_turn, record_studio_context, reset_conversation, expire_first, expire,
  expire_overflow, issue, touched, record_response, begin_continuation, may_continue, holds,
  finish_continuation, complete_continuation,
}
use ciallo_ms_365_open_ai_pr.Session.Valid.{
  Call, reserve, studio, reset, respond, begin, finish, complete, step, run,
}

module _ {Context : Type 0} where
  -- The calls that hand back the reservation `token` of `id`.
  unfoldable pub returns : Text → Text → Call Context → Bool
  returns id token (reserve now) = false
  returns id token (studio context_id) = false
  returns id token (reset now a b) = false
  returns id token (respond now j calls ro c) = false
  returns id token (begin t j) = false
  returns id token (finish now j r ok) = id == j && token == r
  returns id token (complete now p r j calls ro c) = id == p && token == r

  unfoldable pub any_call : (Call Context → Bool) → List (Call Context) → Bool
  any_call f [] = false
  any_call f (c ∷ calls) = f c || any_call f calls

  -- The bound on responses leaves the rest of a session alone.
  abbrev Rest : Session Context → Session Context → Type 0
  Rest t s = (t.pending ≡ s.pending) × (t.latest ≡ s.latest) × (t.consumed ≡ s.consumed)

  expire_first-Rest : (d : Dict Text (List Text)) (s : Session Context) → Rest (expire_first d s) s
  unfolding expire_first
  expire_first-Rest [] s = (refl, refl, refl)
  expire_first-Rest ((k, v) ∷ d) s = (refl, refl, refl)

  expire-Rest : (n : ℕ) (s : Session Context) → Rest (expire n s) s
  unfolding expire
  expire-Rest zero s = (refl, refl, refl)
  expire-Rest (suc n) s =
      let later = expire-Rest n (expire_first s.issued_calls s) in
      let now = expire_first-Rest s.issued_calls s in
      (later.0 ∙ now.0, later.1 ∙ now.1, later.2 ∙ now.2)

  issue-pending :
      (id : Text) (calls : List Text) (ro : Bool) (c : Option Context) (s : Session Context)
      → (issue id calls ro c s).pending ≡ s.pending
  unfolding issue expire_overflow
  issue-pending id calls ro c s = (expire-Rest _ _).0

  pub issue-latest :
      (id : Text) (calls : List Text) (ro : Bool) (c : Option Context) (s : Session Context)
      → (issue id calls ro c s).latest ≡ some id
  unfolding issue expire_overflow
  issue-latest id calls ro c s = (expire-Rest _ _).1

  pub issue-consumed :
      (id : Text) (calls : List Text) (ro : Bool) (c : Option Context) (s : Session Context)
      → (issue id calls ro c s).consumed ≡ s.consumed
  unfolding issue expire_overflow
  issue-consumed id calls ro c s = (expire-Rest _ _).2

  -- One id has one reservation.
  holds-other :
      (id token j r : Text) (s : Session Context)
      → holds id token s ≡ true
      → holds j r s ≡ true
      → (id == j && token == r) ≡ false
      → (j == id) ≡ false
  unfolding holds
  holds-other id token j r s h g f = elim (Option-cases (get j s.pending)) [
    | inl e ↦ ground (arith, e)
    | inr (t, e) ↦ ground (
      arith,
      e,
      text_key.same_iff j id,
      text_key.same_iff id j,
      text_key.same_iff t r,
      text_key.same_iff t token,
      text_key.same_iff token r,
    )
  ]

  holds-pop :
      (id token p : Text) (s t : Session Context)
      → t.pending ≡ pop p s.pending
      → (p == id) ≡ false
      → holds id token s ≡ true
      → holds id token t ≡ true
  unfolding holds
  holds-pop id token p s t e f h = ground (arith, e, get-pop p id s.pending)

  finish_continuation-holds :
      (now : ℕ) (id token j r : Text) (ok : Bool) (s : Session Context)
      → holds id token s ≡ true
      → (id == j && token == r) ≡ false
      → holds id token (finish_continuation now j r ok s) ≡ true
  unfolding finish_continuation touched
  finish_continuation-holds now id token j r ok s h f = elim (Bool-cases (holds j r s)) [
    | inr e ↦ rw e h
    | inl e ↦
        let other = holds-other id token j r s h e f in
        rw e (elim (Bool-cases ok) [
          | inl good ↦ rw good (holds-pop id token j s _ refl other h)
          | inr bad ↦ rw bad (holds-pop id token j s _ refl other h)
        ])
  ]

  complete_continuation-holds :
      (now : ℕ) (id token p r j : Text) (calls : List Text) (ro : Bool) (c : Option Context)
      (s : Session Context)
      → holds id token s ≡ true
      → (id == p && token == r) ≡ false
      → holds id token (complete_continuation now p r j calls ro c s).1 ≡ true
  unfolding complete_continuation touched
  complete_continuation-holds now id token p r j calls ro c s h f =
      elim (Bool-cases (holds p r s)) [
        | inr e ↦ rw e h
        | inl e ↦ rw e (
            holds-pop id token p s _ (issue-pending j calls ro c _)
              (holds-other id token p r s h e f) h)
      ]

  step-holds :
      (id token : Text) (s : Session Context) (c : Call Context)
      → holds id token s ≡ true
      → returns id token c ≡ false
      → holds id token (step s c) ≡ true
  unfolding step returns
  step-holds id token s (reserve now) h f = unfold reserve_turn holds in h
  step-holds id token s (studio context_id) h f = unfold record_studio_context holds in h
  step-holds id token s (reset now a b) h f = unfold reset_conversation holds in h
  step-holds id token s (respond now j calls ro c) h f =
      unfold record_response touched holds in
      rw (issue-pending j calls ro c s) (let k : holds id token s ≡ true = h in k)
  step-holds id token s (begin t j) h f =
      unfold begin_continuation may_continue holds in
      ground (arith, get-put j id t s.pending, text_key.same_iff j id)
  step-holds id token s (finish now j r ok) h f =
      finish_continuation-holds now id token j r ok s h f
  step-holds id token s (complete now p r j calls ro c) h f =
      complete_continuation-holds now id token p r j calls ro c s h f

  run-holds :
      (id token : Text) (s : Session Context) (calls : List (Call Context))
      → holds id token s ≡ true
      → any_call (returns id token) calls ≡ false
      → holds id token (run s calls) ≡ true
  unfolding run any_call
  run-holds id token s [] h f = h
  run-holds id token s (c ∷ calls) h f =
      run-holds id token (step s c) calls (step-holds id token s c h (ground arith)) (ground arith)

  holds-may_continue :
      (id token : Text) (s : Session Context) → holds id token s ≡ true → may_continue id s ≡ false
  unfolding holds may_continue
  holds-may_continue id token s h = ground arith

  -- One continuation at a time: after a begin that was granted, no begin of the same response is
  -- granted until a finish or a complete hands that reservation back, whatever calls stand between.
  pub begin_once :
      (id token again : Text) (s : Session Context) (calls : List (Call Context))
      → may_continue id s ≡ true
      → any_call (returns id token) calls ≡ false
      → begin_continuation again id (run (begin_continuation token id s).1 calls)
        ≡ (none, run (begin_continuation token id s).1 calls)
  unfolding begin_continuation
  begin_once id token again s calls h f = rw h (rw refused refl)
    where
      t : Session Context
      t = record s { pending = put id token s.pending }

      held : holds id token t ≡ true
      held =
          unfold holds in
          ground (arith, get-put id id token s.pending, same_refl id, same_refl token)

      refused : may_continue id (run t calls) ≡ false
      refused = holds-may_continue id token (run t calls) (run-holds id token t calls held f)

  -- A begin whose turn fails leaves the session as it was.
  pub release-begin :
      (now : ℕ) (id token : Text) (s : Session Context)
      → may_continue id s ≡ true
      → finish_continuation now id token false (begin_continuation token id s).1 ≡ s
  unfolding begin_continuation finish_continuation
  release-begin now id token s h = rw (h, held) (rw (pop-put id token s.pending new) refl)
    where
      held : holds id token (record s { pending = put id token s.pending }) ≡ true
      held =
          unfold holds in
          ground (arith, get-put id id token s.pending, same_refl id, same_refl token)

      new : get id s.pending ≡ none
      new = unfold may_continue in ground arith
