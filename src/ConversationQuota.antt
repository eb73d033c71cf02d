-- ===== src/ConversationQuota.antt =====
-- conversation_quota.py: `ConversationQuotaStore`. `time.time()` is the argument `now`, in ticks.
-- Percents are in hundredths; `round(messages / maximum * 100, 2)` is float arithmetic, and is
-- the parameter `percent_of`.
pub mod Keeps
pub mod Latest
use ciallo_ms_365_open_ai_pr.Prelude.{
  ℕ, ◌-◌, min, Bool, true, false, Option, none, some, List, [], ◌∷◌, ltb, if◌then◌else◌, length,
  contains,
}
use ciallo_ms_365_open_ai_pr.Prelude.Int.{ℤ, pos_part}
use ciallo_ms_365_open_ai_pr.Prelude.Text.{Text, text_key, is_empty, strip}
use ciallo_ms_365_open_ai_pr.Dict.{Dict, put, pop}

abbrev pub max_accounts : ℕ
max_accounts = 200

-- The `quota` argument: a field is `none` where it is missing or not an `int`.
pub record Quota : Type 0 where
  pub messages : Option ℤ
  pub max_messages : Option ℤ
  pub long_doc_messages : Option ℤ

-- A stored entry.
pub record Reading : Type 0 where
  pub messages : ℕ
  pub max_messages : ℕ
  pub ts : ℕ
  pub long_doc_messages : Option ℕ
  pub remaining : Option ℕ
  pub percent : Option ℕ

pub record Store : Type 0 where
  pub by_account : Dict Text Reading
  pub forgotten : List Text

abbrev pub empty : Store
empty = record { by_account = []; forgotten = [] }

-- `min(self._by_account, key=ts)`: the first key with the least `ts`, from the best so far.
unfoldable pub oldest_from : Text → ℕ → Dict Text Reading → Text
oldest_from key ts [] = key
oldest_from key ts ((k, r) ∷ rest) =
    oldest_from (if ltb r.ts ts then k else key) (if ltb r.ts ts then r.ts else ts) rest

-- The eviction at the end of `record`.
unfoldable pub drop_oldest : Dict Text Reading → Dict Text Reading
drop_oldest [] = []
drop_oldest ((k, r) ∷ rest) =
    if ltb max_accounts (length ((k, r) ∷ rest))
    then pop (oldest_from k r.ts rest) ((k, r) ∷ rest)
    else (k, r) ∷ rest

-- The part of `record` under the lock.
unfoldable pub store_entry : Text → Reading → Store → Store
store_entry account_id entry s =
    if contains account_id s.forgotten
    then s
    else record s { by_account = drop_oldest (put account_id entry s.by_account) }

module _ (percent_of : ℕ → ℕ → ℕ) where
  -- The entry that `record` builds.
  unfoldable pub reading : ℕ → ℤ → ℤ → Option ℤ → Reading
  reading now messages maximum long_doc =
      let stated = ltb 0 (pos_part maximum) in
      record {
        messages = pos_part messages;
        max_messages = pos_part maximum;
        ts = now;
        long_doc_messages = elim long_doc [ none ↦ none | some n ↦ some (pos_part n) ];
        remaining = if stated then some (pos_part maximum - pos_part messages) else none;
        percent =
            if stated
            then some (min 10000 (percent_of (pos_part messages) (pos_part maximum)))
            else none;
      }

  -- `record` behind its guard on the two counters.
  unfoldable pub record_counts : ℕ → Text → Option ℤ → Option ℤ → Option ℤ → Store → Store
  record_counts now account_id (some messages) (some maximum) long_doc s =
      store_entry account_id (reading now messages maximum long_doc) s
  record_counts now account_id (some messages) none long_doc s = s
  record_counts now account_id none maximum long_doc s = s

  -- `record(account_id, quota)`; an empty or missing quota is `none`.
  unfoldable pub record_quota : ℕ → Text → Option Quota → Store → Store
  record_quota now account_id none s = s
  record_quota now account_id (some q) s =
      if is_empty (strip account_id)
      then s
      else record_counts now (strip account_id) q.messages q.max_messages q.long_doc_messages s

-- `forget`; adding to the set `forgotten` twice changes nothing.
unfoldable pub forget : Text → Store → Store
forget account_id s = if is_empty (strip account_id) then s else record s {
  by_account = pop (strip account_id) s.by_account;
  forgotten =
      if contains (strip account_id) s.forgotten
      then s.forgotten
      else strip account_id ∷ s.forgotten;
}
