-- ===== src/Session/Valid.antt =====
-- The invariant of a session, kept by every method, in any order.
use ciallo_ms_365_open_ai_pr.Prelude.{
  ℕ, ◌≤◌, ◌≡◌, refl, inl, inr, Bool, true, not, ◌||◌, Option, none, some, List, [], ◌∷◌, arith,
  if◌then◌else◌, ◌==◌, length, is_some, same_refl, Bool-cases,
}
use ciallo_ms_365_open_ai_pr.Prelude.Text.{Text, text_key}
use ciallo_ms_365_open_ai_pr.Dict.{Dict, get, put, pop, get-put, get-pop}
use ciallo_ms_365_open_ai_pr.Session.{
  Session, max_responses, session, reserve_turn, record_studio_context, reset_conversation,
  unique_from, expire_overflow, consume, put_context, issue, touched, record_response,
  begin_continuation, may_continue, holds, finish_continuation, complete_continuation,
}
use ciallo_ms_365_open_ai_pr.Session.Ring.{length-consume, Fits, whole, dropped, issue-Fits}

-- The latest response is one that was issued and is still kept.
abbrev pub LatestKept {ℓ} : {V : Type ℓ} → Option Text → Dict Text V → Type 0
LatestKept none calls = Unit
LatestKept (some id) calls = is_some (get id calls) ≡ true

pub record IsValid {Context : Type 0} (s : Session Context) : Type 0 where
  pub few : length s.issued_calls ≤ max_responses
  pub used : length s.consumed ≤ max_responses
  pub kept : LatestKept s.latest s.issued_calls
  -- A context belongs to a response that is kept.
  pub owned :
      (id : Text)
      → (not (is_some (get id s.issued_contexts)) || is_some (get id s.issued_calls)) ≡ true

module _ {Context : Type 0} where
  get-put_context :
      (id j : Text) (c : Option Context) (d : Dict Text Context)
      → get j (put_context id c d) ≡ (if id == j then c else get j d)
  unfolding put_context
  get-put_context id j none d = get-pop id j d
  get-put_context id j (some c) d = get-put id j c d

  issue-IsValid :
      (id : Text) (calls : List Text) (ro : Bool) (c : Option Context) (s : Session Context)
      → IsValid s
      → IsValid (issue id calls ro c s)
  unfolding issue
  issue-IsValid id calls ro c s v =
      go (issue-Fits id (unique_from [] calls) s.issued_calls t refl v.few)
    where
      calls' : List Text
      calls' = unique_from [] calls

      t : Session Context
      t = record s {
        issued_calls = put id calls' s.issued_calls;
        issued_read_only = put id ro s.issued_read_only;
        issued_contexts = put_context id c s.issued_contexts;
        latest = some id;
      }

      go : Fits id t → IsValid (expire_overflow t)
      go (whole h e) = rw e (record {
        few = h;
        used = v.used;
        kept = ground (arith, get-put id id calls' s.issued_calls, same_refl id);
        owned = λ j. ground (
          arith,
          get-put id j calls' s.issued_calls,
          get-put_context id j c s.issued_contexts,
          v.owned j,
        );
      })
      go (dropped k ne h e) = rw e (record {
        few = h;
        used = v.used;
        kept = ground (
          arith,
          get-pop k id (put id calls' s.issued_calls),
          get-put id id calls' s.issued_calls,
          same_refl id,
        );
        owned = λ j. ground (
          arith,
          get-pop k j (put id calls' s.issued_calls),
          get-put id j calls' s.issued_calls,
          get-pop k j (put_context id c s.issued_contexts),
          get-put_context id j c s.issued_contexts,
          v.owned j,
        );
      })

  pub session-IsValid : (now : ℕ) (a b : Text) → IsValid (session {Context = Context} now a b)
  unfolding session get
  session-IsValid now a b = record {
    few = omega arith;
    used = omega arith;
    kept = tt;
    owned = λ id. refl;
  }

  begin_continuation-IsValid :
      (token id : Text) (s : Session Context)
      → IsValid s
      → IsValid (begin_continuation token id s).1
  unfolding begin_continuation
  begin_continuation-IsValid token id s v = elim (Bool-cases (may_continue id s)) [
    | inl yes' ↦ rw yes' (record { few = v.few; used = v.used; kept = v.kept; owned = v.owned })
    | inr no' ↦ rw no' v
  ]

  finish_continuation-IsValid :
      (now : ℕ) (id r : Text) (ok : Bool) (s : Session Context)
      → IsValid s
      → IsValid (finish_continuation now id r ok s)
  unfolding finish_continuation touched
  finish_continuation-IsValid now id r ok s v = elim (Bool-cases (holds id r s)) [
    | inr no' ↦ rw no' v
    | inl yes' ↦ rw yes' (elim (Bool-cases ok) [
      | inl good ↦ rw good (record {
        few = v.few;
        used = length-consume id s.consumed;
        kept = v.kept;
        owned = v.owned;
      })
      | inr bad ↦ rw bad (record { few = v.few; used = v.used; kept = v.kept; owned = v.owned })
    ])
  ]

  complete_continuation-IsValid :
      (now : ℕ) (parent r child : Text) (calls : List Text) (ro : Bool) (c : Option Context)
      (s : Session Context)
      → IsValid s
      → IsValid (complete_continuation now parent r child calls ro c s).1
  unfolding complete_continuation touched
  complete_continuation-IsValid now parent r child calls ro c s v =
      elim (Bool-cases (holds parent r s)) [
        | inr no' ↦ rw no' v
        | inl yes' ↦ rw yes' (
            let i =
              issue-IsValid child calls ro c
                (record s {
                  pending = pop parent s.pending;
                  consumed = consume parent s.consumed;
                  issued_contexts = pop parent s.issued_contexts;
                })
                (record {
                  few = v.few;
                  used = length-consume parent s.consumed;
                  kept = v.kept;
                  owned = λ id. ground (arith, get-pop parent id s.issued_contexts, v.owned id);
                }) in
            record { few = i.few; used = i.used; kept = i.kept; owned = i.owned })
      ]

-- The methods that change a session, with their arguments.
pub data Call (Context : Type 0) : Type 0 where
  reserve : ℕ → Call Context
  studio : Text → Call Context
  reset : ℕ → Text → Text → Call Context
  respond : ℕ → Text → List Text → Bool → Option Context → Call Context
  begin : Text → Text → Call Context
  finish : ℕ → Text → Text → Bool → Call Context
  complete : ℕ → Text → Text → Text → List Text → Bool → Option Context → Call Context

module _ {Context : Type 0} where
  unfoldable pub step : Session Context → Call Context → Session Context
  step s (reserve now) = (reserve_turn now s).1
  step s (studio context_id) = record_studio_context context_id s
  step s (reset now a b) = reset_conversation now a b s
  step s (respond now id calls ro c) = record_response now id calls ro c s
  step s (begin token id) = (begin_continuation token id s).1
  step s (finish now id r ok) = finish_continuation now id r ok s
  step s (complete now p r id calls ro c) = (complete_continuation now p r id calls ro c s).1

  unfoldable pub run : Session Context → List (Call Context) → Session Context
  run s [] = s
  run s (c ∷ calls) = run (step s c) calls

  step-IsValid : (s : Session Context) (c : Call Context) → IsValid s → IsValid (step s c)
  unfolding step
  step-IsValid s (reserve now) v =
      unfold reserve_turn in record { few = v.few; used = v.used; kept = v.kept; owned = v.owned }
  step-IsValid s (studio context_id) v =
      unfold record_studio_context in
      record { few = v.few; used = v.used; kept = v.kept; owned = v.owned }
  step-IsValid s (reset now a b) v =
      unfold reset_conversation in
      record { few = v.few; used = v.used; kept = v.kept; owned = v.owned }
  step-IsValid s (respond now id calls ro c) v =
      unfold record_response touched in
      let i = issue-IsValid id calls ro c s v in
      record { few = i.few; used = i.used; kept = i.kept; owned = i.owned }
  step-IsValid s (begin token id) v = begin_continuation-IsValid token id s v
  step-IsValid s (finish now id r ok) v = finish_continuation-IsValid now id r ok s v
  step-IsValid s (complete now p r id calls ro c) v =
      complete_continuation-IsValid now p r id calls ro c s v

  -- Whatever the calls, at most 64 responses and 64 consumed ids are kept, the latest response is
  -- among the kept ones, and every private context belongs to one of them.
  pub run-IsValid :
      (s : Session Context) (calls : List (Call Context)) → IsValid s → IsValid (run s calls)
  unfolding run
  run-IsValid s [] v = v
  run-IsValid s (c ∷ calls) v = run-IsValid (step s c) calls (step-IsValid s c v)
