-- ===== src/KeyStore/Resolved.antt =====
-- The key table over any run of its calls: what a secret and a login resolve to.
use ciallo_ms_365_open_ai_pr.Prelude.{
  ℕ, ◌≡◌, refl, sym, ◌∙◌, ap, Bool, true, false, Option, none, some, List, [], ◌∷◌, arith,
  if◌then◌else◌,
}
use ciallo_ms_365_open_ai_pr.Prelude.Text.{Text, text_key, strip}
use ciallo_ms_365_open_ai_pr.Dict.{keys, get}
use ciallo_ms_365_open_ai_pr.KeyStore.{
  ApiKey, NewKey, key_id, raw_key, stated_or, blank_key, new_key, set_password, set_fields,
  reset_password, with_password, check_password,
}
use ciallo_ms_365_open_ai_pr.KeyStore.Table.{
  KeyStore, key_store, index_from, key_at, resolve, secret_of, username_of,
  resolve_by_login_username, resolve_by_login, update, regenerate_key, detach_account, Call,
  add_call, update_call, regenerate_call, remove_call, detach_call, step, run,
}
use ciallo_ms_365_open_ai_pr.KeyStore.Indexed.{
  has_entry, last_with, IsAt, last_with-IsAt, key_at-index_from, has_entry-last_with,
}
use mathlib.Core.Path.{subst}
use ciallo_ms_365_open_ai_pr.KeyStore.Consistent.{
  IsIndexed, add-IsIndexed, change_at-IsIndexed, get-change_at, remove-IsIndexed,
  index_from-detach_from, keys-detach_from, detach_from-HasIds,
}

abbrev key_or : Option ApiKey → Text
key_or none = []
key_or (some k) = k.key

key_of : {k l : ApiKey} → some k ≡ some l → k.key ≡ l.key
key_of h = ap (λ (o : Option ApiKey). key_or o) h

checked_some :
    (b : Bool) (l k : ApiKey) → (if b then some l else none) ≡ some k → (b ≡ true) × (l ≡ k)
checked_some true l k h = (refl, cc)
checked_some false l k h = cc

module _ (hash_password : Text → Text → Text) (lower : Text → Text) where
  new_key-id :
      (now : ℕ) (hex random salt : Text) (n : NewKey)
      → (new_key hash_password now hex random salt n).id ≡ key_id hex
  unfolding new_key blank_key set_password
  new_key-id now hex random salt n = ground arith

  reset_password-id :
      (password : Option Text) (salt : Text) (k : ApiKey)
      → (reset_password hash_password password salt k).id ≡ k.id
  unfolding reset_password set_password
  reset_password-id none salt k = refl
  reset_password-id (some password) salt k = ground arith

  with_password-some :
      (password : Text) (x : Option ApiKey) (k : ApiKey)
      → with_password hash_password password x ≡ some k
      → (x ≡ some k) × (check_password hash_password password k ≡ true)
  unfolding with_password
  with_password-some password none k h = cc
  with_password-some password (some l) k h =
      let checked = checked_some (check_password hash_password password l) l k h in
      (
        ap some checked.1,
        subst (λ x. check_password hash_password password x ≡ true) checked.1 checked.0,
      )

  step-IsIndexed :
      (c : Call) (s : KeyStore) → IsIndexed lower s → IsIndexed lower (step hash_password lower c s)
  unfolding step update set_fields regenerate_key detach_account
  step-IsIndexed (add_call now hex random salt n) s h =
      add-IsIndexed lower (new_key hash_password now hex random salt n) s
        (rw (new_key-id now hex random salt n) refl) h
  step-IsIndexed (update_call now salt id f) s h =
      change_at-IsIndexed lower _ id s (λ k. reset_password-id f.password salt (set_fields f k)) h
  step-IsIndexed (regenerate_call now random id) s h =
      change_at-IsIndexed lower _ id s (λ k. refl) h
  step-IsIndexed (remove_call id) s h = remove-IsIndexed lower id s h
  step-IsIndexed (detach_call now account_id) s h = (
    h.0 ∙ sym (index_from-detach_from secret_of now account_id [] s.keys (λ k. refl)),
    h.1 ∙ sym (index_from-detach_from (username_of lower) now account_id [] s.keys (λ k. refl)),
    detach_from-HasIds now account_id s.keys h.2,
    rw (keys-detach_from now account_id s.keys) h.3,
  )

  pub run-IsIndexed :
      (calls : List Call) (s : KeyStore)
      → IsIndexed lower s
      → IsIndexed lower (run hash_password lower calls s)
  unfolding run
  run-IsIndexed [] s h = h
  run-IsIndexed (c ∷ calls) s h =
      run-IsIndexed calls (step hash_password lower c s) (step-IsIndexed c s h)

  empty-IsIndexed : IsIndexed lower key_store
  unfolding index_from keys
  empty-IsIndexed = (refl, refl, tt, tt)

  -- After any run from an empty table, looking a secret up gives what a scan of the keys for that
  -- secret gives, and looking a user name up what a scan for the name, without case and outer spaces,
  -- gives: of several keys the last.
  pub resolve-run :
      (calls : List Call) (raw username : Text)
      → (resolve raw (run hash_password lower calls key_store)
          ≡ last_with secret_of raw (run hash_password lower calls key_store).keys)
        × (resolve_by_login_username lower username (run hash_password lower calls key_store)
            ≡ last_with
                (username_of lower)
                (lower (strip username))
                (run hash_password lower calls key_store).keys)
  unfolding resolve resolve_by_login_username
  resolve-run calls raw username =
      let s = run hash_password lower calls key_store in
      let h = run-IsIndexed calls key_store empty-IsIndexed in
      (
        rw h.0 (key_at-index_from secret_of raw s.keys h.2 h.3),
        rw h.1 (key_at-index_from (username_of lower) (lower (strip username)) s.keys h.2 h.3),
      )

  -- After a run from an empty table, a login gives a key only where the name fits, without case and
  -- outer spaces, and the password's hash is the stored one; the key is the one stored under its id.
  pub resolve_by_login-run :
      (calls : List Call) (username password : Text) (k : ApiKey)
      → resolve_by_login hash_password lower username password
          (run hash_password lower calls key_store)
        ≡ some k
      → (has_entry (username_of lower k) (lower (strip username)) ≡ true)
        × (check_password hash_password password k ≡ true)
        × (get k.id (run hash_password lower calls key_store).keys ≡ some k)
  unfolding resolve_by_login
  resolve_by_login-run calls username password k h =
      let s = run hash_password lower calls key_store in
      let indexed = run-IsIndexed calls key_store empty-IsIndexed in
      let checked = with_password-some password (resolve_by_login_username lower username s) k h in
      let scanned : last_with (username_of lower) (lower (strip username)) s.keys ≡ some k =
        sym (resolve-run calls [] username).1 ∙ checked.0 in
      (
        has_entry-last_with (username_of lower) (lower (strip username)) s.keys k scanned,
        checked.1,
        (subst (λ x. IsAt x s.keys) scanned
            (last_with-IsAt (username_of lower) (lower (strip username)) s.keys indexed.2
              indexed.3)).0,
      )

  -- Once a secret is regenerated, after any run, the key resolves from the new secret only.
  pub resolve-regenerate_key :
      (calls : List Call) (now : ℕ) (random id raw : Text) (t : KeyStore) (k : ApiKey)
      → regenerate_key lower now random id (run hash_password lower calls key_store) ≡ some t
      → resolve raw t ≡ some k
      → k.id ≡ id
      → (raw ≡ raw_key random) × (k.key ≡ raw)
  unfolding resolve regenerate_key stated_or
  resolve-regenerate_key calls now random id raw t k made found same =
      let s = run hash_password lower calls key_store in
      let change : ApiKey → ApiKey = λ k. record k { key = raw_key random; updated_at = now } in
      let kept =
        change_at-IsIndexed lower change id s (λ k. refl)
          (run-IsIndexed calls key_store empty-IsIndexed) in
      let indexed : IsIndexed lower t = subst (λ x. IsIndexed lower (stated_or x s)) made kept in
      let left = get-change_at lower change id (get id s.keys) s t made in
      let scanned : last_with secret_of raw t.keys ≡ some k =
        sym (key_at-index_from secret_of raw t.keys indexed.2 indexed.3)
        ∙ ap (λ x. key_at (get raw x) t.keys) (sym indexed.0)
        ∙ found in
      let there =
        (subst (λ x. IsAt x t.keys) scanned
          (last_with-IsAt secret_of raw t.keys indexed.2 indexed.3)).0 in
      let secret : k.key ≡ raw =
        (text_key.same_iff k.key raw).0 (has_entry-last_with secret_of raw t.keys k scanned) in
      let known : some (change left.0) ≡ some k =
        sym left.1 ∙ ap (λ x. get x t.keys) (sym same) ∙ there in
      let renewed : raw_key random ≡ k.key = key_of known in (sym secret ∙ sym renewed, secret)
