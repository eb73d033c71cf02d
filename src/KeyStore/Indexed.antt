-- ===== src/KeyStore/Indexed.antt =====
-- The indices of the key table: a look-up is a scan of the keys.
use ciallo_ms_365_open_ai_pr.Prelude.{
  ◌≡◌, refl, sym, ◌∙◌, ap, ◌⊎◌, inl, inr, Bool, true, false, Option, none, some, [], ◌∷◌, arith,
  if◌then◌else◌, is_some, Bool-cases, same_refl, All, contains,
}
use ciallo_ms_365_open_ai_pr.Prelude.Text.{Text, text_eq, text_key, is_empty}
use ciallo_ms_365_open_ai_pr.Dict.{Dict, keys, get, get-put}
use ciallo_ms_365_open_ai_pr.Dict.Laws.{Distinct, contains-keys}
use ciallo_ms_365_open_ai_pr.KeyStore.{ApiKey}
use ciallo_ms_365_open_ai_pr.KeyStore.Table.{index_put, index_from, key_at}

abbrev pub has_entry : Option Text → Text → Bool
has_entry none x = false
has_entry (some y) x = text_eq y x

abbrev pub or_else : Option ApiKey → Option ApiKey → Option ApiKey
or_else none k = k
or_else (some k) k' = some k

-- The last key with the entry, by a scan of the table.
unfoldable pub last_with : (ApiKey → Option Text) → Text → Dict Text ApiKey → Option ApiKey
last_with entry x [] = none
last_with entry x ((i, k) ∷ d) =
    or_else (last_with entry x d) (if has_entry (entry k) x then some k else none)

-- Every key stands under its own id, which is not empty.
abbrev pub HasIds : Dict Text ApiKey → Type 0
HasIds d = All (λ (x : Text × ApiKey). (x.0 ≡ x.1.id) × (is_empty x.0 ≡ false)) d

abbrev id_or : Option ApiKey → Option Text → Option Text
id_or none o = o
id_or (some k) o = some k.id

get-index_put :
    (entry : Option Text) (id x : Text) (index : Dict Text Text)
    → get x (index_put entry id index) ≡ (if has_entry entry x then some id else get x index)
unfolding index_put
get-index_put none id x index = refl
get-index_put (some y) id x index = get-put y x id index

id_or-or_else :
    (later : Option ApiKey) (here : Bool) (k : ApiKey) (o : Option Text)
    → id_or later (if here then some k.id else o)
      ≡ id_or (or_else later (if here then some k else none)) o
id_or-or_else none true k o = refl
id_or-or_else none false k o = refl
id_or-or_else (some l) here k o = refl

get-index_from :
    (entry : ApiKey → Option Text) (x : Text) (index : Dict Text Text) (d : Dict Text ApiKey)
    → get x (index_from entry index d) ≡ id_or (last_with entry x d) (get x index)
unfolding index_from last_with
get-index_from entry x index [] = refl
get-index_from entry x index ((i, k) ∷ d) =
    get-index_from entry x (index_put (entry k) k.id index) d
    ∙ ap (id_or (last_with entry x d)) (get-index_put (entry k) k.id x index)
    ∙ id_or-or_else (last_with entry x d) (has_entry (entry k) x) k (get x index)

-- A key that a scan finds is the one under its id.
abbrev pub IsAt : Option ApiKey → Dict Text ApiKey → Type 0
IsAt none d = Unit
IsAt (some k) d = (get k.id d ≡ some k) × (is_empty k.id ≡ false)

IsAt-head :
    (i : Text) (k : ApiKey) (d : Dict Text ApiKey) (later : Option ApiKey) (here : Bool)
    → i ≡ k.id
    → is_empty i ≡ false
    → contains i (keys d) ≡ false
    → IsAt later d
    → IsAt (or_else later (if here then some k else none)) ((i, k) ∷ d)
unfolding get
IsAt-head i k d none true same filled new h = rw (sym same) (rw (same_refl i), filled)
IsAt-head i k d none false same filled new h = tt
IsAt-head i k d (some l) here same filled new h = elim (Bool-cases (text_eq i l.id)) [
  | inl clash ↦
      let i≡l : i ≡ l.id = (text_key.same_iff i l.id).0 clash in
      let there : is_some (get i d) ≡ true = rw (i≡l, h.0) in
      absurd (ground (arith, contains-keys i d))
  | inr other ↦ rw other h
]

pub last_with-IsAt :
    (entry : ApiKey → Option Text) (x : Text) (d : Dict Text ApiKey)
    → HasIds d
    → Distinct (keys d)
    → IsAt (last_with entry x d) d
unfolding last_with keys
last_with-IsAt entry x [] ids apart = tt
last_with-IsAt entry x ((i, k) ∷ d) ids apart =
    IsAt-head i k d (last_with entry x d) (has_entry (entry k) x) ids.0.0 ids.0.1 apart.0
      (last_with-IsAt entry x d ids.1 apart.1)

key_at-IsAt : (o : Option ApiKey) (d : Dict Text ApiKey) → IsAt o d → key_at (id_or o none) d ≡ o
unfolding key_at
key_at-IsAt none d h = refl
key_at-IsAt (some k) d h = rw (h.1, h.0)

-- A look-up through an index of the table is a scan for the entry.
pub key_at-index_from :
    (entry : ApiKey → Option Text) (x : Text) (d : Dict Text ApiKey)
    → HasIds d
    → Distinct (keys d)
    → key_at (get x (index_from entry [] d)) d ≡ last_with entry x d
unfolding get
key_at-index_from entry x d ids apart =
    ap (λ o. key_at o d) (get-index_from entry x [] d)
    ∙ key_at-IsAt (last_with entry x d) d (last_with-IsAt entry x d ids apart)

or_else-cases :
    (later : Option ApiKey) (here : Bool) (l k : ApiKey)
    → or_else later (if here then some l else none) ≡ some k
    → (later ≡ some k) ⊎ ((here ≡ true) × (l ≡ k))
or_else-cases none true l k h = inr (refl, cc)
or_else-cases none false l k h = cc
or_else-cases (some m) here l k h = inl h

-- What a scan finds has the entry.
pub has_entry-last_with :
    (entry : ApiKey → Option Text) (x : Text) (d : Dict Text ApiKey) (k : ApiKey)
    → last_with entry x d ≡ some k
    → has_entry (entry k) x ≡ true
unfolding last_with
has_entry-last_with entry x [] k h = cc
has_entry-last_with entry x ((i, l) ∷ d) k h =
    elim (or_else-cases (last_with entry x d) (has_entry (entry l) x) l k h) [
      | inl later ↦ has_entry-last_with entry x d k later
      | inr here ↦ rw (sym here.1) here.0
    ]
