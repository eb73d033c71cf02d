-- ===== src/History.antt =====
-- history_index.py: `_chain` and `HistoryDigestIndex`. SHA-256 and UTF-8 are parameters; a hash that
-- is updated in steps is the hash of the steps' bytes in order. Owners, a Python set, are a list
-- without repetition, of which the code only asks the size, the membership and the one element.
pub mod Continue
pub mod Shared
pub mod Owned
pub mod Recorded
pub mod Tenants
pub mod Bounded
use ciallo_ms_365_open_ai_pr.Prelude.{
  ℕ, zero, suc, ◌+◌, ◌-◌, Bool, Option, none, some, List, [], ◌∷◌, ◌++◌, ltb, eqb, if◌then◌else◌,
  length, drop, contains,
}
use ciallo_ms_365_open_ai_pr.Prelude.Text.{Text, text_key}
use ciallo_ms_365_open_ai_pr.Dict.{Dict, get, put_last, pop}

abbrev pub max_owners : ℕ
max_owners = 2

-- A role and a content signature.
abbrev pub Pair : Type 0
Pair = Text × Text

pub record Index : Type 0 where
  pub entries : Dict Text (List Text)
  pub max_entries : ℕ
  pub hits : ℕ
  pub misses : ℕ

-- `HistoryDigestIndex(max_entries)`
abbrev pub index : ℕ → Index
index n = record { entries = []; max_entries = n; hits = 0; misses = 0 }

-- `f"{tenant}\0{digest}"`
unfoldable pub entry : Text → Text → Text
entry tenant digest = tenant ++ 0 ∷ digest

-- The last of a list.
unfoldable pub last_of : List Text → Option Text
last_of [] = none
last_of (d ∷ []) = some d
last_of (d ∷ e ∷ ds) = last_of (e ∷ ds)

-- The loop of `match`, over all digests but the last, from the longest prefix down: the first
-- entry that is there, with its owners.
unfoldable pub longest : Text → Dict Text (List Text) → List Text → Option (Text × List Text)
longest tenant entries [] = none
longest tenant entries (d ∷ []) = none
longest tenant entries (d ∷ e ∷ ds) = elim (longest tenant entries (e ∷ ds)) [
  | some found ↦ some found
  | none ↦ elim (get (entry tenant d) entries) [
    | none ↦ none
    | some owners ↦ some (entry tenant d, owners)
  ]
]

-- `if len(keys) == 1: return next(iter(keys))`
unfoldable pub unique : List Text → Option Text
unique [] = none
unique (k ∷ []) = some k
unique (k ∷ j ∷ ks) = none

-- `owners.add(store_key)`, while there is room for another owner
unfoldable pub add_owner : Text → List Text → List Text
add_owner key owners =
    if ltb (length owners) max_owners
    then (if contains key owners then owners else owners ++ key ∷ [])
    else owners

-- `setdefault(entry, set())`
unfoldable pub owners_of : Text → Dict Text (List Text) → List Text
owners_of e entries = elim (get e entries) [ none ↦ [] | some owners ↦ owners ]

-- `while len(self._entries) > self._max_entries: popitem(last=False)`
unfoldable pub evict : ℕ → Dict Text (List Text) → Dict Text (List Text)
evict n entries = drop (length entries - n) entries

-- `record` once the digests are there: nothing without a last one.
unfoldable pub record_last : Text → Text → Index → Option Text → Index
record_last tenant key i none = i
record_last tenant key i (some d) = record i {
  entries =
      evict i.max_entries (
        put_last (entry tenant d) (add_owner key (owners_of (entry tenant d) i.entries)) i.entries);
}

unfoldable pub record_digests : Text → List Text → Text → Index → Index
record_digests tenant digests key i = record_last tenant key i (last_of digests)

-- What `match` counts and returns for an entry that is there, by its only owner.
unfoldable pub settle : Index → Option Text → Option Text × Index
settle i none = (none, record i { misses = i.misses + 1 })
settle i (some key) = (some key, record i { hits = i.hits + 1 })

unfoldable pub answer : Index → Option (Text × List Text) → Option Text × Index
answer i none = (none, record i { misses = i.misses + 1 })
answer i (some (e, owners)) =
    settle (record i { entries = put_last e owners i.entries }) (unique owners)

unfoldable pub match_digests : Text → List Text → Index → Option Text × Index
match_digests tenant digests i = answer i (longest tenant i.entries digests)

module _ (sha256 utf8 : Text → Text) where
  -- `running` holds the bytes of the updates so far.
  unfoldable pub chain_from : Text → List Pair → List Text
  chain_from running [] = []
  chain_from running ((role, text) ∷ pairs) =
      let bytes = running ++ utf8 role ++ 0 ∷ utf8 text ++ 0 ∷ [] in
      sha256 bytes ∷ chain_from bytes pairs

  -- `_chain`
  unfoldable pub chain : List Pair → List Text
  chain pairs = chain_from [] pairs

  -- `HistoryDigestIndex.match`
  unfoldable pub match_history : Text → List Pair → Index → Option Text × Index
  match_history tenant pairs i = match_digests tenant (chain pairs) i

  -- `HistoryDigestIndex.record`
  unfoldable pub record_history : Text → List Pair → Text → Index → Index
  record_history tenant pairs key i = record_digests tenant (chain pairs) key i
