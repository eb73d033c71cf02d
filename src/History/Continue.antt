-- ===== src/History/Continue.antt =====
-- What the next turn of a conversation finds.
use ciallo_ms_365_open_ai_pr.Prelude.{
  ℕ, ◌≤◌, ◌≡◌, refl, ◌∙◌, Option, none, some, List, [], ◌∷◌, ◌++◌, arith, contains,
}
use ciallo_ms_365_open_ai_pr.Prelude.Text.{Text, text_key}
use ciallo_ms_365_open_ai_pr.Dict.{Dict, get, put_last}
use ciallo_ms_365_open_ai_pr.Dict.Values.{get-evict_last}
use ciallo_ms_365_open_ai_pr.History.{
  Pair, Index, entry, last_of, longest, unique, add_owner, owners_of, evict, record_digests,
  match_digests, settle, answer, record_last, chain_from, chain, match_history, record_history,
}

get-evict :
    (n : ℕ) (k : Text) (v : List Text) (d : Dict Text (List Text))
    → 1 ≤ n
    → get k (evict n (put_last k v d)) ≡ some v
unfolding evict
get-evict n k v d h = get-evict_last n k v d h

-- With one more digest, the loop starts at the last of those before it.
pub longest-last :
    (tenant d e : Text) (entries : Dict Text (List Text)) (digests owners : List Text)
    → last_of digests ≡ some d
    → get (entry tenant d) entries ≡ some owners
    → longest tenant entries (digests ++ e ∷ []) ≡ some (entry tenant d, owners)
unfolding last_of longest
longest-last tenant d e entries [] owners h g = absurd (cc)
longest-last tenant d e entries (x ∷ []) owners h g = grind arith
longest-last tenant d e entries (x ∷ y ∷ ds) owners h g =
    rw (longest-last tenant d e entries (y ∷ ds) owners h g) refl

pub get-record_digests :
    (tenant key d : Text) (digests : List Text) (i : Index)
    → last_of digests ≡ some d
    → 1 ≤ i.max_entries
    → get (entry tenant d) (record_digests tenant digests key i).entries
      ≡ some (add_owner key (owners_of (entry tenant d) i.entries))
unfolding record_digests record_last
get-record_digests tenant key d digests i h n = rw h (
    get-evict i.max_entries (entry tenant d) (add_owner key (owners_of (entry tenant d) i.entries))
      i.entries n)

settle-result : (i : Index) (o : Option Text) → (settle i o).0 ≡ o
unfolding settle
settle-result i none = refl
settle-result i (some key) = refl

-- What the call returns once the loop has found its entry.
pub match_digests-found :
    (tenant e : Text) (digests owners : List Text) (i : Index)
    → longest tenant i.entries digests ≡ some (e, owners)
    → (match_digests tenant digests i).0 ≡ unique owners
unfolding match_digests answer
match_digests-found tenant e digests owners i h = rw h (settle-result _ (unique owners))

match_digests-record :
    (tenant key d e : Text) (digests : List Text) (i : Index)
    → last_of digests ≡ some d
    → 1 ≤ i.max_entries
    → (match_digests tenant (digests ++ e ∷ []) (record_digests tenant digests key i)).0
      ≡ unique (add_owner key (owners_of (entry tenant d) i.entries))
match_digests-record tenant key d e digests i h n =
    match_digests-found tenant (entry tenant d) (digests ++ e ∷ []) _
      (record_digests tenant digests key i)
      (longest-last tenant d e _ digests _ h (get-record_digests tenant key d digests i h n))

unique-first : (key : Text) → unique (add_owner key []) ≡ some key
unfolding unique add_owner contains
unique-first key = refl

owners_of-none :
    (e : Text) (entries : Dict Text (List Text)) → get e entries ≡ none → owners_of e entries ≡ []
unfolding owners_of
owners_of-none e entries h = ground arith

nonempty : (d : Text) (ds : List Text) → (e : Text) × (last_of (d ∷ ds) ≡ some e)
unfolding last_of
nonempty d [] = (d, refl)
nonempty d (e ∷ ds) = nonempty e ds

module _ (sha256 utf8 : Text → Text) where
  chain_from-last :
      (running : Text) (pairs : List Pair) (p : Pair)
      → (e : Text) × (chain_from sha256 utf8 running (pairs ++ p ∷ [])
          ≡ chain_from sha256 utf8 running pairs ++ e ∷ [])
  unfolding chain_from
  chain_from-last running [] (role, text) = (_, refl)
  chain_from-last running ((r, t) ∷ pairs) p =
      let ih = chain_from-last (running ++ utf8 r ++ 0 ∷ utf8 t ++ 0 ∷ []) pairs p in
      (ih.0, rw ih.1 refl)

  pub chain-last :
      (pairs : List Pair) (p : Pair)
      → (e : Text) × (chain sha256 utf8 (pairs ++ p ∷ []) ≡ chain sha256 utf8 pairs ++ e ∷ [])
  unfolding chain
  chain-last pairs p = chain_from-last [] pairs p

  chain-nonempty :
      (p : Pair) (pairs : List Pair)
      → (d : Text) × (last_of (chain sha256 utf8 (p ∷ pairs)) ≡ some d)
  unfolding chain chain_from
  chain-nonempty (role, text) pairs = nonempty _ (chain_from sha256 utf8 _ pairs)

  -- The turn after a recorded one finds the recorded entry, whatever the index held before.
  match_history-record :
      (tenant key d : Text) (pairs : List Pair) (p : Pair) (i : Index)
      → last_of (chain sha256 utf8 pairs) ≡ some d
      → 1 ≤ i.max_entries
      → (match_history sha256 utf8 tenant
          (pairs ++ p ∷ [])
          (record_history sha256 utf8 tenant pairs key i)).0
        ≡ unique (add_owner key (owners_of (entry tenant d) i.entries))
  unfolding match_history record_history
  match_history-record tenant key d pairs p i h n =
      rw (chain-last pairs p).1
        (match_digests-record tenant key d (chain-last pairs p).0 (chain sha256 utf8 pairs) i h n)

  -- A history that no other session has is found again by the next turn, with a longer history of
  -- one message, and it is the session that recorded it.
  pub match_history_unique :
      (tenant key : Text) (q : Pair) (pairs : List Pair) (p : Pair) (i : Index)
      → 1 ≤ i.max_entries
      → ((d : Text)
          → last_of (chain sha256 utf8 (q ∷ pairs)) ≡ some d
          → get (entry tenant d) i.entries ≡ none)
      → (match_history sha256 utf8 tenant
          (q ∷ pairs ++ p ∷ [])
          (record_history sha256 utf8 tenant (q ∷ pairs) key i)).0
        ≡ some key
  match_history_unique tenant key q pairs p i n fresh =
      let d = chain-nonempty q pairs in
      match_history-record tenant key d.0 (q ∷ pairs) p i d.1 n
      ∙ rw (owners_of-none (entry tenant d.0) i.entries (fresh d.0 d.1)) (unique-first key)
