-- ===== src/Tests/AccountTests.antt =====
-- The account store of account_store.py on small inputs.
use ciallo_ms_365_open_ai_pr.Prelude.{
  ℕ, ◌≡◌, ◌≤◌, refl, true, false, not, ◌&&◌, ◌||◌, Option, none, some, List, [], ◌∷◌, eqb, leb, ltb,
  arith,
}
use ciallo_ms_365_open_ai_pr.Prelude.Text.{
  Text, codes, text_eq, text_key, is_empty, starts_with, strip,
}
use ciallo_ms_365_open_ai_pr.Dict.{get, put, pop}
use ciallo_ms_365_open_ai_pr.AccountStore.{
  m365, consumer, manual, absent, Outside, Account, account, refuse_if, raise_if, is_stale,
  stated_or,
}
use ciallo_ms_365_open_ai_pr.AccountStore.Grants.{RefreshGrant, Exchange}
use ciallo_ms_365_open_ai_pr.AccountStore.ConsumerAuth.{ConsumerPush}
use ciallo_ms_365_open_ai_pr.AccountStore.Pool.{
  AccountStore, NewAccount, account_store, is_used, next_cdp_port, used_ports, reserved_cdp_ports,
  is_protocol_current,
}
use ciallo_ms_365_open_ai_pr.AccountStore.Calls.{
  Call, consumer_auth_call, activate_protocol_call, StoreCall, account_call, add_call, step, run,
  refresh_token_call, refresh_result_call, clear_token_call,
}
use ciallo_ms_365_open_ai_pr.AccountStore.Kept.{all_calls, adds_elsewhere}
use ciallo_ms_365_open_ai_pr.AccountStore.Protocol.{protocol_state}
use ciallo_ms_365_open_ai_pr.AccountStore.Epochs
use ciallo_ms_365_open_ai_pr.AccountStore.Stale
use ciallo_ms_365_open_ai_pr.AccountStore.Ports
use ciallo_ms_365_open_ai_pr.AccountStore.Apart
use ciallo_ms_365_open_ai_pr.AccountStore.Binding
use ciallo_ms_365_open_ai_pr.AccountStore.Pairing
use ciallo_ms_365_open_ai_pr.AccountStore.Invariant.{account_calls}

program : Unit {0}
unfolding text_eq strip starts_with get put pop account refuse_if raise_if is_stale stated_or step
    run all_calls adds_elsewhere account_calls Pairing.keeps_kind next_cdp_port used_ports
    is_protocol_current Stale.epoch_of Apart.port_of Binding.is_bound is_used
program = tt

-- A token that starts with `J` counts as a personal one; no other token has claims.
abbrev outside : Outside Text
outside = record {
  decode_jwt_payload = λ token. none;
  is_valid_substrate_jwe = λ token. starts_with (codes "J") token;
  is_email = λ email. false;
  lower = λ s. s;
  normalize_session = λ session subject. some session;
  has_usable_session = λ token subject session. false;
  normalize_proxy_url = λ url. url;
  is_dict = λ json. true;
}

abbrev a1 : Text
a1 = codes "acct_1"

abbrev a2 : Text
a2 = codes "acct_2"

abbrev subject : Text
subject = codes "home:u"

abbrev fresh : NewAccount Text
fresh = record {
  name = codes "n";
  token = codes "J1";
  token_source = manual;
  display_email = none;
  substrate_account_id = subject;
  session = none;
  expires_at = absent;
}

abbrev sign_in : ConsumerPush Text
sign_in = record {
  cookies = [];
  access_token = codes "C1";
  identity_type = [];
  email = [];
  consumer_account_id = some subject;
  expected_snapshot = none;
  expires_at = absent;
  refresh_token = some (codes "R1");
  refresh_token_client_id = some (codes "client");
  refresh_token_scope = some (codes "scope");
  activate = true;
  expected_epoch = none;
}

abbrev setup : List (ℕ × StoreCall Text)
setup =
    (1, add_call a1 fresh)
    ∷ (2, add_call a2 fresh)
    ∷ (3, account_call a1 (consumer_auth_call sign_in))
    ∷ []

abbrev store : AccountStore Text
store = run outside setup account_store

abbrev switch : List (ℕ × StoreCall Text)
switch = (4, account_call a1 (activate_protocol_call (some m365))) ∷ []

abbrev account_or : Option (Account Text) → Account Text
account_or none = account [] 0
account_or (some a) = a

abbrev signed_in : Account Text
signed_in = account_or (get a1 store.accounts)

abbrev switched : Account Text
switched = account_or (get a1 (run outside switch store).accounts)

signed_in-epoch : signed_in.protocol_epoch ≡ 1
unfolding program
signed_in-epoch = refl

ports : next_cdp_port store ≡ some 9324
unfolding program
ports = refl

-- The sign-in replayed with the epoch that it started in.
abbrev late : Call Text
late = consumer_auth_call (record sign_in { expected_epoch = some 1 })

run-is_protocol_current_example :
    (1 ≤ switched.protocol_epoch)
    × (is_protocol_current a1 1 consumer (run outside switch store) ≡ eqb switched.protocol_epoch 1)
unfolding program
run-is_protocol_current_example =
    Epochs.run-is_protocol_current outside a1 store switch signed_in switched refl refl refl

logout-stale_example :
    step outside 9
      (account_call a1 late)
      (run outside switch (step outside 5 (account_call a1 (Stale.logout_call Stale.of_all)) store))
    ≡ run outside switch (step outside 5 (account_call a1 (Stale.logout_call Stale.of_all)) store)
unfolding program
logout-stale_example =
    Stale.logout-stale outside a1 store signed_in 5 Stale.of_all switch 9 late 1 refl refl refl
      (omega arith)

next_cdp_port_first_example :
    (found : ℕ) × (next_cdp_port store ≡ some found)
    × (9322 ≤ found)
    × (is_used found (used_ports store.accounts) ≡ false)
    × ((not (leb 9322 9323 && ltb 9323 found) || is_used 9323 (used_ports store.accounts)) ≡ true)
unfolding program
next_cdp_port_first_example = Ports.next_cdp_port_first store 9323

run-port_at_example : (a2 ≡ a2) × (is_used 9323 reserved_cdp_ports ≡ false)
unfolding program
run-port_at_example = Apart.run-port_at outside setup a2 a2 9323 refl refl

run-is_bound_example : Binding.is_bound signed_in ≡ true
unfolding program
run-is_bound_example = Binding.run-is_bound outside setup a1 signed_in refl

abbrev grant : RefreshGrant
grant = record {
  token = codes "R2";
  client_id = none;
  authority = none;
  tenant_id = none;
  object_id = none;
  expected_refresh_token = none;
  disabled_reason = [];
  preserve_existing_client_id = none;
}

-- An exchange that finds the token `expected`, and what a run with it leaves.
abbrev exchange : Text → Text → Exchange
exchange expected token = record {
  expected_refresh_token = codes "R2";
  expected_access_token = expected;
  access_token = token;
  rotated_refresh_token = [];
  expected_epoch = none;
}

abbrev exchanging : Text → List (ℕ × StoreCall Text)
exchanging token =
    (1, add_call a1 fresh)
    ∷ (2, account_call a1 (consumer_auth_call sign_in))
    ∷ (3, account_call a1 (activate_protocol_call (some m365)))
    ∷ (4, account_call a1 (refresh_token_call grant))
    ∷ (5, account_call a1 (refresh_result_call (exchange (codes "J1") token)))
    ∷ []

abbrev renewed : Account Text
renewed = account_or (get a1 (run outside (exchanging (codes "J2")) account_store).accounts)

run-paired_example :
    ((protocol_state outside renewed m365).can_activate ≡ true)
    × ((protocol_state outside renewed consumer).can_activate ≡ true)
    × (renewed.substrate_account_id ≡ renewed.consumer_account_id)
    × (is_empty renewed.substrate_account_id ≡ false)
unfolding program
run-paired_example =
    Pairing.run-paired outside (exchanging (codes "J2")) a1 renewed refl refl refl refl

-- An exchange stores a token of another kind beside a consumer token: the account can be switched to
-- neither protocol.
abbrev swapped : Account Text
swapped = account_or (get a1 (run outside (exchanging (codes "E1")) account_store).accounts)

swapped_stuck :
    (swapped.token ≡ codes "E1")
    × (swapped.consumer_token ≡ codes "C1")
    × ((protocol_state outside swapped m365).can_activate ≡ false)
    × ((protocol_state outside swapped consumer).can_activate ≡ false)
unfolding program
swapped_stuck = (refl, refl, refl, refl)

-- A token is cleared beside a consumer token, and an exchange that finds no token stores a new one:
-- the two have no identity in common.
abbrev revived : Account Text
revived = account_or (
    get a1
      (run outside
        ((5, account_call a1 (refresh_token_call grant))
          ∷ (6, account_call a1 clear_token_call)
          ∷ (7, account_call a1 (refresh_result_call (exchange [] (codes "E1"))))
          ∷ [])
        (run outside switch store)).accounts)

revived_unpaired :
    (revived.token ≡ codes "E1")
    × (revived.consumer_token ≡ codes "C1")
    × (revived.substrate_account_id ≡ [])
unfolding program
revived_unpaired = (refl, refl, refl)
