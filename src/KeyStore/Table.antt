-- ===== src/KeyStore/Table.antt =====
-- key_store.py: `KeyStore`, its two indices and its operations, without loading and saving.
use ciallo_ms_365_open_ai_pr.Prelude.{ℕ, Option, none, some, List, [], ◌∷◌, if◌then◌else◌, is_some}
use ciallo_ms_365_open_ai_pr.Prelude.Text.{Text, text_eq, text_key, is_empty, strip}
use ciallo_ms_365_open_ai_pr.Dict.{Dict, get, put, pop}
use ciallo_ms_365_open_ai_pr.KeyStore.{
  ApiKey, Fields, NewKey, raw_key, stated_or, set_fields, with_password, new_key, reset_password,
}

pub record KeyStore : Type 0 where
  pub keys : Dict Text ApiKey
  pub by_secret : Dict Text Text
  pub by_username : Dict Text Text

-- `KeyStore()` with no file to load
abbrev pub key_store : KeyStore
key_store = record { keys = []; by_secret = []; by_username = [] }

-- An index: the id of the last key with an entry `entry k`.
unfoldable pub index_put : Option Text → Text → Dict Text Text → Dict Text Text
unfolding put
index_put none id index = index
index_put (some entry) id index = put entry id index

unfoldable pub index_from :
    (ApiKey → Option Text) → Dict Text Text → Dict Text ApiKey → Dict Text Text
unfolding index_put
index_from entry index [] = index
index_from entry index ((i, k) ∷ keys) = index_from entry (index_put (entry k) k.id index) keys

-- `self._keys.get(key_id) if key_id else None`
unfoldable pub key_at : Option Text → Dict Text ApiKey → Option ApiKey
unfolding get
key_at none keys = none
key_at (some id) keys = if is_empty id then none else get id keys

-- `resolve`
unfoldable pub resolve : Text → KeyStore → Option ApiKey
unfolding get key_at
resolve raw s = key_at (get raw s.by_secret) s.keys

-- `list_for_account`
unfoldable pub list_for_account : Text → Dict Text ApiKey → List ApiKey
list_for_account account_id [] = []
list_for_account account_id ((i, k) ∷ keys) =
    let rest = list_for_account account_id keys in
    if text_eq k.account_id account_id then k ∷ rest else rest

-- `detach_account`: it leaves the indices as they are.
unfoldable pub detach_from : ℕ → Text → Dict Text ApiKey → Dict Text ApiKey
detach_from now account_id [] = []
detach_from now account_id ((i, k) ∷ keys) =
    let rest = detach_from now account_id keys in
    (
      i,
      if text_eq k.account_id account_id then record k { account_id = []; updated_at = now } else k,
    )
    ∷ rest

unfoldable pub detach_account : ℕ → Text → KeyStore → KeyStore
unfolding detach_from
detach_account now account_id s = record s { keys = detach_from now account_id s.keys }

-- The entry of the index of secrets.
abbrev pub secret_of : ApiKey → Option Text
secret_of k = some k.key

module _ (lower : Text → Text) where
  -- The entry of the index of user names.
  abbrev pub username_of : ApiKey → Option Text
  username_of k = if is_empty k.username then none else some (lower k.username)

  -- `_reindex`
  unfoldable pub reindex : Dict Text ApiKey → KeyStore
  unfolding index_from
  reindex keys = record {
    keys = keys;
    by_secret = index_from secret_of [] keys;
    by_username = index_from username_of [] keys;
  }

  -- `resolve_by_login_username`
  unfoldable pub resolve_by_login_username : Text → KeyStore → Option ApiKey
  unfolding get key_at strip
  resolve_by_login_username username s = key_at (get (lower (strip username)) s.by_username) s.keys

  unfoldable pub add : ApiKey → KeyStore → KeyStore
  unfolding put reindex
  add k s = reindex (put k.id k s.keys)

  -- A change of the key under an id, `none` where there is none.
  unfoldable pub change_at : (ApiKey → ApiKey) → Text → Option ApiKey → KeyStore → Option KeyStore
  unfolding put reindex
  change_at change id none s = none
  change_at change id (some k) s = some (reindex (put id (change k) s.keys))

  unfoldable pub regenerate_key : ℕ → Text → Text → KeyStore → Option KeyStore
  unfolding get change_at
  regenerate_key now random id s =
      change_at (λ k. record k { key = raw_key random; updated_at = now }) id (get id s.keys) s

  unfoldable pub remove : Text → KeyStore → Option KeyStore
  unfolding get pop reindex
  remove id s = if is_some (get id s.keys) then some (reindex (pop id s.keys)) else none

module _ (hash_password : Text → Text → Text) (lower : Text → Text) where
  unfoldable pub resolve_by_login : Text → Text → KeyStore → Option ApiKey
  unfolding resolve_by_login_username with_password
  resolve_by_login username password s =
      with_password hash_password password (resolve_by_login_username lower username s)

  unfoldable pub update : ℕ → Text → Text → Fields → KeyStore → Option KeyStore
  unfolding get change_at set_fields reset_password
  update now salt id f s =
      change_at lower
        (λ k. record (reset_password hash_password f.password salt (set_fields f k)) {
          updated_at = now;
        })
        id (get id s.keys) s

-- A call that changes the table.
pub data Call : Type 0 where
  add_call : ℕ → Text → Text → Text → NewKey → Call
  update_call : ℕ → Text → Text → Fields → Call
  regenerate_call : ℕ → Text → Text → Call
  remove_call : Text → Call
  detach_call : ℕ → Text → Call

module _ (hash_password : Text → Text → Text) (lower : Text → Text) where
  -- A call that finds no key leaves the table as it is.
  unfoldable pub step : Call → KeyStore → KeyStore
  unfolding new_key add update regenerate_key remove detach_account stated_or
  step (add_call now hex random salt n) s =
      add lower (new_key hash_password now hex random salt n) s
  step (update_call now salt id f) s = stated_or (update hash_password lower now salt id f s) s
  step (regenerate_call now random id) s = stated_or (regenerate_key lower now random id s) s
  step (remove_call id) s = stated_or (remove lower id s) s
  step (detach_call now account_id) s = detach_account now account_id s

  unfoldable pub run : List Call → KeyStore → KeyStore
  unfolding step
  run [] s = s
  run (c ∷ calls) s = run calls (step c s)
