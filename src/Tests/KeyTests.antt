-- ===== src/Tests/KeyTests.antt =====
-- The key table of key_store.py on small inputs.
use ciallo_ms_365_open_ai_pr.Prelude.{◌≡◌, refl, true, Option, none, some, List, [], ◌∷◌, ◌++◌}
use ciallo_ms_365_open_ai_pr.Prelude.Text.{Text, codes, text_eq, text_key, strip}
use ciallo_ms_365_open_ai_pr.Dict.{get, put, pop}
use ciallo_ms_365_open_ai_pr.KeyStore.{ApiKey, NewKey, key_id, raw_key, blank_key, check_password}
use ciallo_ms_365_open_ai_pr.KeyStore.Table.{
  KeyStore, key_store, resolve, resolve_by_login, resolve_by_login_username, regenerate_key,
  secret_of, username_of, Call, add_call, detach_call, step, run,
}
use ciallo_ms_365_open_ai_pr.KeyStore.Indexed.{has_entry, last_with}
use ciallo_ms_365_open_ai_pr.KeyStore.Resolved

program : Unit {0}
unfolding text_eq strip get put pop step run resolve resolve_by_login regenerate_key last_with
    check_password
program = tt

abbrev hash : Text → Text → Text
hash password salt = password ++ salt

abbrev lower : Text → Text
lower s = s

abbrev user : NewKey
user = record {
  name = codes "n";
  account_id = codes "acct_1";
  tone = codes "Magic";
  username = codes " ann ";
  password = codes "pw";
  role = codes "user";
}

abbrev calls : List Call
calls =
    add_call 1 (codes "a") (codes "s1") (codes "salt") user ∷ detach_call 2 (codes "acct_1") ∷ []

abbrev table : KeyStore
table = run hash lower calls key_store

abbrev key_or : Option ApiKey → ApiKey
key_or none = blank_key 0 [] []
key_or (some k) = k

abbrev ann : ApiKey
ann = key_or (resolve (raw_key (codes "s1")) table)

abbrev table_or : Option KeyStore → KeyStore
table_or none = key_store
table_or (some t) = t

abbrev renewed : KeyStore
renewed = table_or (regenerate_key lower 3 (codes "s2") (key_id (codes "a")) table)

abbrev ann2 : ApiKey
ann2 = key_or (resolve (raw_key (codes "s2")) renewed)

detached : ann.account_id ≡ []
unfolding program
detached = refl

resolve-run_example :
    (resolve (raw_key (codes "s1")) table ≡ last_with secret_of (raw_key (codes "s1")) table.keys)
    × (resolve_by_login_username lower (codes "ann") table
        ≡ last_with (username_of lower) (lower (strip (codes "ann"))) table.keys)
unfolding program
resolve-run_example = Resolved.resolve-run hash lower calls (raw_key (codes "s1")) (codes "ann")

resolve_by_login-run_example :
    (has_entry (username_of lower ann) (lower (strip (codes "ann"))) ≡ true)
    × (check_password hash (codes "pw") ann ≡ true)
    × (get ann.id table.keys ≡ some ann)
unfolding program
resolve_by_login-run_example =
    Resolved.resolve_by_login-run hash lower calls (codes "ann") (codes "pw") ann refl

resolve-regenerate_key_example :
    (raw_key (codes "s2") ≡ raw_key (codes "s2")) × (ann2.key ≡ raw_key (codes "s2"))
unfolding program
resolve-regenerate_key_example =
    Resolved.resolve-regenerate_key hash lower calls 3 (codes "s2") (key_id (codes "a"))
      (raw_key (codes "s2")) renewed ann2 refl refl refl
