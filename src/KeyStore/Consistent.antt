-- ===== src/KeyStore/Consistent.antt =====
-- What each operation keeps of the key table: its indices are those of its keys.
use ciallo_ms_365_open_ai_pr.Prelude.{
  ℕ, ◌≡◌, refl, sym, ◌∙◌, ap, inl, inr, false, Option, none, some, [], ◌∷◌, arith, is_some,
  Bool-cases, Option-cases, same_refl,
}
use ciallo_ms_365_open_ai_pr.Prelude.Text.{Text, text_eq, text_key, is_empty}
use ciallo_ms_365_open_ai_pr.Dict.{Dict, keys, get, put, get-put}
use ciallo_ms_365_open_ai_pr.Dict.Laws.{Distinct, put-Distinct, pop-Distinct}
use ciallo_ms_365_open_ai_pr.Dict.Values.{All-pop, All-get}
use ciallo_ms_365_open_ai_pr.KeyStore.{ApiKey, stated_or}
use ciallo_ms_365_open_ai_pr.KeyStore.Table.{
  KeyStore, index_put, index_from, secret_of, username_of, reindex, add, change_at, remove,
  detach_from,
}
use ciallo_ms_365_open_ai_pr.KeyStore.Indexed.{HasIds}
use mathlib.Core.Path.{subst}

pub put-HasIds :
    (i : Text) (k : ApiKey) (d : Dict Text ApiKey)
    → i ≡ k.id
    → is_empty i ≡ false
    → HasIds d
    → HasIds (put i k d)
unfolding put
put-HasIds i k [] same filled h = ((same, filled), tt)
put-HasIds i k ((j, l) ∷ d) same filled h = elim (Bool-cases (text_eq j i)) [
  | inl known ↦
      let j≡i : j ≡ i = (text_key.same_iff j i).0 known in rw known ((j≡i ∙ same, h.0.1), h.1)
  | inr other ↦ rw other (h.0, put-HasIds i k d same filled h.1)
]

module _ (lower : Text → Text) where
  -- The indices are those of the table, whose keys stand once each under their own ids.
  abbrev pub IsIndexed : KeyStore → Type 0
  IsIndexed s =
      (s.by_secret ≡ index_from secret_of [] s.keys)
      × (s.by_username ≡ index_from (username_of lower) [] s.keys)
      × HasIds s.keys
      × Distinct (keys s.keys)

  pub add-IsIndexed :
      (k : ApiKey) (s : KeyStore) → is_empty k.id ≡ false → IsIndexed s → IsIndexed (add lower k s)
  unfolding add reindex
  add-IsIndexed k s filled h =
      (refl, refl, put-HasIds k.id k s.keys refl filled h.2, put-Distinct k.id k s.keys h.3)

  pub change_at-IsIndexed :
      (change : ApiKey → ApiKey) (id : Text) (s : KeyStore)
      → ((k : ApiKey) → (change k).id ≡ k.id)
      → IsIndexed s
      → IsIndexed (stated_or (change_at lower change id (get id s.keys) s) s)
  unfolding stated_or change_at reindex
  change_at-IsIndexed change id s keeps h = elim (Option-cases (get id s.keys)) [
    | inl unknown ↦ rw unknown h
    | inr known ↦
        let own =
          All-get (λ (x : Text × ApiKey). (x.0 ≡ x.1.id) × (is_empty x.0 ≡ false)) id known.0 s.keys
            h.2 known.1 in
        rw known.1 (
          refl,
          refl,
          put-HasIds id (change known.0) s.keys (own.0 ∙ sym (keeps known.0)) own.1 h.2,
          put-Distinct id (change known.0) s.keys h.3,
        )
  ]

  -- What a change leaves under its id.
  pub get-change_at :
      (change : ApiKey → ApiKey) (id : Text) (o : Option ApiKey) (s t : KeyStore)
      → change_at lower change id o s ≡ some t
      → (k : ApiKey) × (get id t.keys ≡ some (change k))
  unfolding change_at reindex
  get-change_at change id none s t made = cc
  get-change_at change id (some k) s t made =
      let t≡ : reindex lower (put id (change k) s.keys) ≡ t = cc in
      (
        k,
        subst (λ (x : KeyStore). get id x.keys ≡ some (change k)) t≡
            (rw (get-put id id (change k) s.keys, same_refl id)),
      )

  pub remove-IsIndexed :
      (id : Text) (s : KeyStore) → IsIndexed s → IsIndexed (stated_or (remove lower id s) s)
  unfolding stated_or remove reindex
  remove-IsIndexed id s h = elim (Bool-cases (is_some (get id s.keys))) [
    | inl known ↦ rw known (
      refl,
      refl,
      All-pop (λ (x : Text × ApiKey). (x.0 ≡ x.1.id) × (is_empty x.0 ≡ false)) id s.keys h.2,
      pop-Distinct id s.keys h.3,
    )
    | inr unknown ↦ rw unknown h
  ]

-- `detach_account` changes nothing that an index reads.
pub index_from-detach_from :
    (entry : ApiKey → Option Text) (now : ℕ) (account_id : Text) (index : Dict Text Text)
    (d : Dict Text ApiKey)
    → ((k : ApiKey) → entry (record k { account_id = []; updated_at = now }) ≡ entry k)
    → index_from entry index (detach_from now account_id d) ≡ index_from entry index d
unfolding index_from detach_from
index_from-detach_from entry now account_id index [] same = refl
index_from-detach_from entry now account_id index ((i, k) ∷ d) same =
    elim (Bool-cases (text_eq k.account_id account_id)) [
      | inl bound ↦
          rw (bound, same k)
            (index_from-detach_from entry now account_id (index_put (entry k) k.id index) d same)
      | inr free ↦
          rw free
            (index_from-detach_from entry now account_id (index_put (entry k) k.id index) d same)
    ]

pub keys-detach_from :
    (now : ℕ) (account_id : Text) (d : Dict Text ApiKey)
    → keys (detach_from now account_id d) ≡ keys d
unfolding keys detach_from
keys-detach_from now account_id [] = refl
keys-detach_from now account_id ((i, k) ∷ d) = ap (λ ks. i ∷ ks) (keys-detach_from now account_id d)

pub detach_from-HasIds :
    (now : ℕ) (account_id : Text) (d : Dict Text ApiKey)
    → HasIds d
    → HasIds (detach_from now account_id d)
unfolding detach_from
detach_from-HasIds now account_id [] h = tt
detach_from-HasIds now account_id ((i, k) ∷ d) h =
    ((ground (arith, h.0.0), h.0.1), detach_from-HasIds now account_id d h.1)
