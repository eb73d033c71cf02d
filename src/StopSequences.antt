-- ===== src/StopSequences.antt =====
-- stop_sequences.py: `normalize_stop`, `apply_stop`, `_held_suffix_len` and
-- `StopSequenceTrimmer`. A text is the list of its code points.
pub mod Apply
pub mod Normalize
pub mod Single
pub mod First
pub mod Stream
pub mod Held
use ciallo_ms_365_open_ai_pr.Prelude.{
  ℕ, zero, suc, ◌+◌, ◌-◌, min, Bool, true, false, not, ◌&&◌, ◌||◌, Option, none, some, List, [],
  ◌∷◌, ◌++◌, ltb, leb, eqb, if◌then◌else◌, length, take, drop, contains, select,
}
use ciallo_ms_365_open_ai_pr.Prelude.Text.{Text, text_eq, text_key, is_empty, starts_with, find}

abbrev pub max_stop_sequences : ℕ
max_stop_sequences = 8

-- A member of a decoded JSON list: a `str`, or anything else.
pub data StopValue : Type 0 where
  str : Text → StopValue
  not_str : StopValue

-- The request's `stop`: absent, a `str`, a list or tuple, or anything else.
pub data RawStop : Type 0 where
  null : RawStop
  one : Text → RawStop
  many : List StopValue → RawStop
  not_list : RawStop

-- The loop of `normalize_stop` over `values`, with its `continue`s and its `break`.
unfoldable pub normalize_values : List Text → List StopValue → List Text
normalize_values out [] = out
normalize_values out (not_str ∷ values) = normalize_values out values
normalize_values out (str value ∷ values) =
    let skipped = normalize_values out values in
    let added = normalize_values (out ++ value ∷ []) values in
    if is_empty value
    then skipped
    else if contains value out
    then skipped
    else if leb max_stop_sequences (length (out ++ value ∷ []))
    then out ++ value ∷ []
    else added

unfoldable pub normalize_stop : RawStop → List Text
normalize_stop null = []
normalize_stop (one raw) = normalize_values [] (str raw ∷ [])
normalize_stop (many values) = normalize_values [] values
normalize_stop not_list = []

-- The body of the loop of `apply_stop`: the first position, and the longer of two there.
unfoldable pub better_hit : Option ℕ → ℕ × Text → Text → ℕ × Text
better_hit none best stop = best
better_hit (some index) (best_index, best_stop) stop =
    if ltb index best_index || (eqb index best_index && ltb (length best_stop) (length stop))
    then (index, stop)
    else (best_index, best_stop)

unfoldable pub best_hit : Text → ℕ × Text → List Text → ℕ × Text
best_hit text best [] = best
best_hit text best (stop ∷ stops) = best_hit text (better_hit (find stop text) best stop) stops

unfoldable pub cut_at : Text → ℕ × Text → Text × Text
cut_at text (best_index, best_stop) =
    if is_empty best_stop then (text, []) else (take best_index text, best_stop)

unfoldable pub apply_stop : Text → List Text → Text × Text
apply_stop text stops =
    if is_empty text || is_empty stops
    then (text, [])
    else cut_at text (best_hit text (length text, []) stops)

-- `for size in range(limit, longest, -1)`, with the `n` sizes above `longest` that are left
unfoldable pub held_scan : Text → Text → ℕ → ℕ → ℕ
held_scan pending stop longest zero = longest
held_scan pending stop longest (suc n) =
    let smaller = held_scan pending stop longest n in
    let size = longest + suc n in
    if text_eq (drop (length pending - size) pending) (take size stop) then size else smaller

unfoldable pub held_stops : Text → ℕ → List Text → ℕ
held_stops pending longest [] = longest
held_stops pending longest (stop ∷ stops) =
    let limit = min (length stop - 1) (length pending) in
    held_stops pending (held_scan pending stop longest (limit - longest)) stops

unfoldable pub held_suffix_len : Text → List Text → ℕ
held_suffix_len pending stops = held_stops pending 0 stops

pub record Trimmer : Type 0 where
  pub stops : List Text
  pub pending : Text
  pub stopped : Bool
  pub matched : Text
  pub released : Text

-- `StopSequenceTrimmer(stops)`
unfoldable pub trimmer : List Text → Trimmer
trimmer stops = record {
  stops = select (λ s. not (is_empty s)) stops;
  pending = [];
  stopped = false;
  matched = [];
  released = [];
}

-- The part of `feed` from `hold = _held_suffix_len(...)` on.
unfoldable pub release : Trimmer → Trimmer × Text
release t =
    let hold = held_suffix_len t.pending t.stops in
    let kept = length t.pending - hold in
    if eqb hold 0
    then (record t { pending = []; released = t.released ++ t.pending }, t.pending)
    else (
      record t { pending = drop kept t.pending; released = t.released ++ take kept t.pending },
      take kept t.pending,
    )

-- The part of `feed` after `self._pending += delta`.
unfoldable pub feed_pending : Trimmer → Text × Text → Trimmer × Text
feed_pending t (cut, matched) = if is_empty matched then release t else (
  record t { stopped = true; matched = matched; pending = []; released = t.released ++ cut },
  cut,
)

unfoldable pub feed : Trimmer → Text → Trimmer × Text
feed t delta =
    if t.stopped
    then (t, [])
    else if is_empty t.stops
    then (record t { released = t.released ++ delta }, delta)
    else if is_empty delta
    then (t, [])
    else feed_pending (record t { pending = t.pending ++ delta })
        (apply_stop (t.pending ++ delta) t.stops)

unfoldable pub flush : Trimmer → Trimmer × Text
flush t =
    if t.stopped || is_empty t.pending
    then (t, [])
    else (record t { pending = []; released = t.released ++ t.pending }, t.pending)

-- A caller's turn: every delta is fed, then the tail is flushed. The text is what the client gets.
unfoldable pub deliver : Trimmer → List Text → Trimmer × Text
deliver t [] = flush t
deliver t (delta ∷ deltas) =
    let (t', out) = feed t delta in let (last, rest) = deliver t' deltas in (last, out ++ rest)
