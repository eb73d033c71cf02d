-- ===== src/AccountStore/Pool.antt =====
-- account_store.py: `AccountStore`, its accounts and its port base, without persistence: adding,
-- finding and removing an account, and the ports of the browsers.
use ciallo_ms_365_open_ai_pr.Prelude.{
  ℕ, zero, suc, max, Bool, true, false, not, ◌&&◌, ◌||◌, Option, none, some, List, [], ◌∷◌, eqb,
  if◌then◌else◌, is_some, length,
}
use ciallo_ms_365_open_ai_pr.Prelude.Int.{ℤ, pos_part}
use ciallo_ms_365_open_ai_pr.Prelude.Text.{Text, text_eq, text_key, is_empty, strip}
use ciallo_ms_365_open_ai_pr.Dict.{Dict, get, put, pop}
use ciallo_ms_365_open_ai_pr.AccountStore.{
  Provider, same_provider, TokenSource, Stamp, Outside, Account, account, cdp_port_base, Change,
  refused, raised, changed,
}
use ciallo_ms_365_open_ai_pr.AccountStore.Identity.{
  normalize_consumer_account_id, substrate_display_email, extract_identity,
}
use ciallo_ms_365_open_ai_pr.AccountStore.Protocol.{studio_agent_ready}
use ciallo_ms_365_open_ai_pr.AccountStore.Tokens.{validate_personal_material, token_expiry, or_kept}

pub record AccountStore (Json : Type 0) : Type 0 where
  pub accounts : Dict Text (Account Json)
  pub port_base : ℕ

-- `AccountStore()` with no file to load
abbrev pub account_store : {Json : Type 0} → AccountStore Json
account_store = record { accounts = []; port_base = cdp_port_base }

-- The arguments of `add`.
pub record NewAccount (Json : Type 0) : Type 0 where
  pub name : Text
  pub token : Text
  pub token_source : TokenSource
  pub display_email : Option Text
  pub substrate_account_id : Text
  pub session : Option Json
  pub expires_at : Stamp

abbrev pub reserved_cdp_ports : List ℕ
reserved_cdp_ports = 9222 ∷ []

unfoldable pub is_used : ℕ → List ℕ → Bool
is_used port [] = false
is_used port (p ∷ used) = eqb p port || is_used port used

-- `while port in used: port += 1`, on fuel
unfoldable pub free_port : ℕ → List ℕ → ℕ → Option ℕ
unfolding is_used
free_port zero used port = none
free_port (suc fuel) used port =
    let next = free_port fuel used (suc port) in if is_used port used then next else some port

module _ {Json : Type 0} where
  -- The ports of the accounts, with the reserved ones.
  unfoldable pub used_ports : Dict Text (Account Json) → List ℕ
  used_ports [] = reserved_cdp_ports
  used_ports ((key, a) ∷ accounts) = a.cdp_port ∷ used_ports accounts

  -- `_next_cdp_port`
  unfoldable pub next_cdp_port : AccountStore Json → Option ℕ
  unfolding used_ports free_port
  next_cdp_port s =
      let used = used_ports s.accounts in free_port (suc (length used)) used s.port_base

  -- `set_cdp_port_base`
  unfoldable pub set_cdp_port_base : ℤ → AccountStore Json → AccountStore Json
  set_cdp_port_base port s = record s { port_base = max 1 (pos_part port) }

  unfoldable pub remove : Text → AccountStore Json → Bool × AccountStore Json
  unfolding get pop
  remove key s =
      if is_some (get key s.accounts)
      then (true, record s { accounts = pop key s.accounts })
      else (false, s)

  unfoldable pub is_current : ℕ → Provider → Option (Account Json) → Bool
  is_current epoch provider none = false
  is_current epoch provider (some a) =
      eqb a.protocol_epoch epoch && same_provider a.provider provider

  unfoldable pub is_protocol_current : Text → ℕ → Provider → AccountStore Json → Bool
  unfolding get is_current
  is_protocol_current key epoch provider s = is_current epoch provider (get key s.accounts)

  -- What a change leaves of the store.
  unfoldable pub commit : Text → Change Json → AccountStore Json → AccountStore Json
  unfolding put
  commit key refused s = s
  commit key raised s = s
  commit key (changed a) s = record s { accounts = put key a s.accounts }

  -- `resolve_account_proxy`
  unfoldable pub resolve_account_proxy : Option (Account Json) → Text
  resolve_account_proxy none = []
  resolve_account_proxy (some a) = a.proxy_url

module _ {Json : Type 0} (o : Outside Json) where
  unfoldable pub same_email : Text → Account Json → Bool
  same_email email a = not (is_empty a.email) && text_eq (o.lower a.email) email

  -- The loop of `find_by_email`.
  unfoldable pub first_with_email : Text → Dict Text (Account Json) → Option (Account Json)
  unfolding same_email
  first_with_email email [] = none
  first_with_email email ((key, a) ∷ accounts) =
      let later = first_with_email email accounts in if same_email email a then some a else later

  unfoldable pub find_by_email : Text → AccountStore Json → Option (Account Json)
  unfolding first_with_email strip
  find_by_email value s =
      let email = o.lower (strip value) in
      if is_empty email then none else first_with_email email s.accounts

  unfoldable pub client_of : Option (Account Json) → Option (Text × Text)
  unfolding studio_agent_ready
  client_of none = none
  client_of (some a) = if studio_agent_ready o a then some (a.token, a.studio_agent_id) else none

  unfoldable pub studio_client_snapshot : Text → AccountStore Json → Option (Text × Text)
  unfolding get client_of
  studio_client_snapshot key s = client_of (get key s.accounts)

  -- The account that `add` stores.
  unfoldable pub new_account : ℕ → Text → NewAccount Json → Option Json → ℕ → ℕ → Account Json
  unfolding extract_identity normalize_consumer_account_id substrate_display_email account or_kept
  new_account now id n session expiry port =
      let identity = extract_identity o n.token in
      record (account id now) {
        name = or_kept identity.0 n.name;
        email = identity.1;
        substrate_display_email = substrate_display_email o n.token n.display_email;
        substrate_account_id = normalize_consumer_account_id o n.substrate_account_id;
        personal_substrate_session = session;
        substrate_token_expires_at = expiry;
        token = n.token;
        token_updated_at = if is_empty n.token then 0 else now;
        cdp_port = port;
        token_source = n.token_source;
      }

  -- `add` by what its checks and its search for a port answer; the new id is the argument `id`.
  unfoldable pub add_with :
      ℕ → Text → NewAccount Json → Option (Option Json) → Option ℕ → Option ℕ → Change Json
  unfolding new_account
  add_with now id n (some session) (some expiry) (some port) =
      changed (new_account now id n session expiry port)
  add_with now id n (some session) (some expiry) none = raised
  add_with now id n (some session) none port = raised
  add_with now id n none expiry port = raised

  unfoldable pub add_account : ℕ → Text → NewAccount Json → AccountStore Json → Change Json
  unfolding validate_personal_material normalize_consumer_account_id token_expiry next_cdp_port
      add_with
  add_account now id n s =
      add_with now id n
        (validate_personal_material o n.token
          (normalize_consumer_account_id o n.substrate_account_id) n.session)
        (token_expiry o n.token n.expires_at) (next_cdp_port s)
