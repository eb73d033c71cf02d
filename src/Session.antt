-- ===== src/Session.antt =====
-- session_store.py: `PersistentSession` and `CopilotTurn`. `Context` is the private continuation
-- context, a JSON object that this class only copies. The two asyncio locks hold no data. Each
-- call of `_on_change` is counted in `changes`. `uuid.uuid4()` and `time.time()` are arguments.
pub mod Ring
pub mod Valid
pub mod Linear
pub mod Spent
pub mod Outputs
use ciallo_ms_365_open_ai_pr.Prelude.{
  ℕ, zero, suc, ◌+◌, ◌-◌, Bool, true, false, not, ◌&&◌, ◌||◌, Option, none, some, List, [], ◌∷◌,
  ◌++◌, ltb, eqb, if◌then◌else◌, ◌==◌, length, drop, contains, is_some,
}
use ciallo_ms_365_open_ai_pr.Prelude.Text.{Text, text_key}
use ciallo_ms_365_open_ai_pr.Dict.{Dict, keys, get, put, pop}

abbrev pub max_responses : ℕ
max_responses = 64

pub record CopilotTurn : Type 0 where
  pub conversation_id : Text
  pub client_session_id : Text
  pub is_start_of_session : Bool

pub record Session (Context : Type 0) : Type 0 where
  pub conversation_id : Text
  pub client_session_id : Text
  pub turn_count : ℕ
  pub last_accessed : ℕ
  pub issued_calls : Dict Text (List Text)
  pub issued_read_only : Dict Text Bool
  pub issued_contexts : Dict Text Context
  pub consumed : List Text
  pub latest : Option Text
  pub pending : Dict Text Text
  pub studio_context_id : Text
  pub changes : ℕ

-- `list(dict.fromkeys(ids))`: each id once, at its first place.
unfoldable pub unique_from : List Text → List Text → List Text
unique_from seen [] = seen
unique_from seen (x ∷ xs) = unique_from (if contains x seen then seen else seen ++ x ∷ []) xs

-- `set(a) == set(b)`
unfoldable pub all_in : List Text → List Text → Bool
all_in [] ys = true
all_in (x ∷ xs) ys = contains x ys && all_in xs ys

unfoldable pub same_set : List Text → List Text → Bool
same_set xs ys = all_in xs ys && all_in ys xs

-- `while len(self.consumed_response_ids) > 64: pop(0)` after the append
unfoldable pub consume : Text → List Text → List Text
consume id consumed = drop (length (consumed ++ id ∷ []) - max_responses) (consumed ++ id ∷ [])

unfoldable pub is_latest : Text → Option Text → Bool
is_latest id none = false
is_latest id (some l) = id == l

module _ {Context : Type 0} where
  -- `PersistentSession()`
  unfoldable pub session : ℕ → Text → Text → Session Context
  session now conversation client = record {
    conversation_id = conversation;
    client_session_id = client;
    turn_count = 0;
    last_accessed = now;
    issued_calls = [];
    issued_read_only = [];
    issued_contexts = [];
    consumed = [];
    latest = none;
    pending = [];
    studio_context_id = [];
    changes = 0;
  }

  unfoldable pub reserve_turn : ℕ → Session Context → CopilotTurn × Session Context
  reserve_turn now s = (
    record {
      conversation_id = s.conversation_id;
      client_session_id = s.client_session_id;
      is_start_of_session = eqb s.turn_count 0;
    },
    record s { turn_count = s.turn_count + 1; last_accessed = now; changes = s.changes + 1 },
  )

  unfoldable pub record_studio_context : Text → Session Context → Session Context
  record_studio_context context_id s = record s {
    studio_context_id = context_id;
    changes = s.changes + 1;
  }

  unfoldable pub reset_conversation : ℕ → Text → Text → Session Context → Session Context
  reset_conversation now conversation client s = record s {
    conversation_id = conversation;
    client_session_id = client;
    turn_count = 0;
    studio_context_id = [];
    last_accessed = now;
    changes = s.changes + 1;
  }

  -- The body of `while len(self.issued_response_calls) > 64`.
  unfoldable pub expire_first : Dict Text (List Text) → Session Context → Session Context
  expire_first [] s = s
  expire_first ((expired, calls) ∷ rest) s = record s {
    issued_calls = pop expired s.issued_calls;
    issued_read_only = pop expired s.issued_read_only;
    issued_contexts = pop expired s.issued_contexts;
  }

  -- The loop, for as many rounds as there are responses too many.
  unfoldable pub expire : ℕ → Session Context → Session Context
  expire zero s = s
  expire (suc n) s = expire n (expire_first s.issued_calls s)

  unfoldable pub expire_overflow : Session Context → Session Context
  expire_overflow s = expire (length s.issued_calls - max_responses) s

  unfoldable pub put_context : Text → Option Context → Dict Text Context → Dict Text Context
  put_context id none contexts = pop id contexts
  put_context id (some c) contexts = put id c contexts

  -- What `record_response` and `complete_response_continuation` share: the new response.
  unfoldable pub issue :
      Text → List Text → Bool → Option Context → Session Context → Session Context
  issue id call_ids read_only context s = expire_overflow (record s {
    issued_calls = put id (unique_from [] call_ids) s.issued_calls;
    issued_read_only = put id read_only s.issued_read_only;
    issued_contexts = put_context id context s.issued_contexts;
    latest = some id;
  })

  unfoldable pub touched : ℕ → Session Context → Session Context
  touched now s = record s { last_accessed = now; changes = s.changes + 1 }

  unfoldable pub record_response :
      ℕ → Text → List Text → Bool → Option Context → Session Context → Session Context
  record_response now id call_ids read_only context s =
      touched now (issue id call_ids read_only context s)

  unfoldable pub allows_response_outputs : Text → List Text → Session Context → Bool
  allows_response_outputs id call_ids s = elim (get id s.issued_calls) [
    | none ↦ false
    | some issued ↦ is_latest id s.latest && same_set call_ids issued
  ]

  unfoldable pub response_is_read_only : Text → Session Context → Bool
  response_is_read_only id s = elim (get id s.issued_read_only) [ none ↦ false | some r ↦ r ]

  -- The four early returns of `begin_response_continuation`.
  unfoldable pub may_continue : Text → Session Context → Bool
  may_continue id s =
      is_some (get id s.issued_calls)
      && is_latest id s.latest
      && not (contains id s.consumed)
      && not (is_some (get id s.pending))

  -- `token` is `uuid.uuid4().hex`.
  unfoldable pub begin_continuation : Text → Text → Session Context → Option Text × Session Context
  begin_continuation token id s =
      if may_continue id s
      then (some token, record s { pending = put id token s.pending })
      else (none, s)

  -- `self.pending_response_ids.get(id) == reservation`
  unfoldable pub holds : Text → Text → Session Context → Bool
  holds id reservation s = elim (get id s.pending) [
    | none ↦ false
    | some token ↦ token == reservation
  ]

  unfoldable pub finish_continuation : ℕ → Text → Text → Bool → Session Context → Session Context
  finish_continuation now id reservation success s =
      if not (holds id reservation s)
      then s
      else if not success
      then record s { pending = pop id s.pending }
      else touched now (record s { pending = pop id s.pending; consumed = consume id s.consumed })

  unfoldable pub complete_continuation :
      ℕ
      → Text
      → Text
      → Text
      → List Text
      → Bool
      → Option Context
      → Session Context
      → Bool × Session Context
  complete_continuation now parent reservation child call_ids read_only context s =
      if not (holds parent reservation s) then (false, s) else (
        true,
        touched now (
            issue child call_ids read_only context (record s {
              pending = pop parent s.pending;
              consumed = consume parent s.consumed;
              issued_contexts = pop parent s.issued_contexts;
            })),
      )
