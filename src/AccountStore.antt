-- ===== src/AccountStore.antt =====
-- account_store.py: the record `Account`, and what the store asks of the modules that read tokens,
-- browser sessions and proxy addresses. Times are whole seconds, 0 where there is none; `{}` is
-- `none` for the captured session. A call reads the clock once.
pub mod Identity
pub mod Protocol
pub mod Tokens
pub mod Personal
pub mod Slots
pub mod Grants
pub mod ConsumerAuth
pub mod Status
pub mod Pool
pub mod Calls
pub mod Kept
pub mod Ports
pub mod Epochs
pub mod Stale
pub mod Apart
pub mod Credentials
pub mod Invariant
pub mod Binding
pub mod Pairing
use ciallo_ms_365_open_ai_pr.Prelude.{
  ℕ, ◌+◌, Bool, true, false, not, ◌||◌, Option, none, some, List, [], ◌∷◌, eqb, if◌then◌else◌,
}
use ciallo_ms_365_open_ai_pr.Prelude.Int.{ℤ}
use ciallo_ms_365_open_ai_pr.Prelude.Text.{Text, codes}
use ciallo_ms_365_open_ai_pr.Dict.{Dict}

-- `provider`
pub data Provider : Type 0 where
  m365 : Provider
  consumer : Provider

abbrev pub is_m365 : Provider → Bool
is_m365 m365 = true
is_m365 consumer = false

abbrev pub same_provider : Provider → Provider → Bool
same_provider m365 q = is_m365 q
same_provider consumer q = not (is_m365 q)

pub data TokenSource : Type 0 where
  manual : TokenSource
  cdp : TokenSource

abbrev pub is_cdp : TokenSource → Bool
is_cdp manual = false
is_cdp cdp = true

-- A time that an issuer reports: missing, a finite number, a `str` that `float` reads, or anything
-- else.
pub data Stamp : Type 0 where
  absent : Stamp
  number : ℤ → Stamp
  numeral : ℤ → Stamp
  malformed : Stamp

-- What the store reads of the claims of a token: `str(claims.get(...) or "")`, and the values that
-- are a `str`; `int(claims["exp"])`.
pub record Claims : Type 0 where
  pub aud : Text
  pub tid : Text
  pub oid : Text
  pub emails : List Text
  pub full_name : Text
  pub exp : Option ℤ

-- `decode_jwt_payload` (`none` where it raises), `is_valid_substrate_jwe`, `_EMAIL_RE.fullmatch`,
-- `str.lower`, `normalize_personal_substrate_session` (`none` where it raises),
-- `has_usable_personal_substrate_session`, `normalize_proxy_url` and `isinstance(..., dict)`.
pub record Outside (Json : Type 0) : Type 0 where
  pub decode_jwt_payload : Text → Option Claims
  pub is_valid_substrate_jwe : Text → Bool
  pub is_email : Text → Bool
  pub lower : Text → Text
  pub normalize_session : Json → Text → Option Json
  pub has_usable_session : Text → Text → Option Json → Bool
  pub normalize_proxy_url : Text → Text
  pub is_dict : Json → Bool

pub record Account (Json : Type 0) : Type 0 where
  pub id : Text
  pub name : Text
  pub email : Text
  pub substrate_display_email : Text
  pub substrate_account_id : Text
  pub personal_substrate_session : Option Json
  pub substrate_token_expires_at : ℕ
  pub personal_substrate_refresh_error : Text
  pub token : Text
  pub token_updated_at : ℕ
  pub cookie_valid : Bool
  pub cookie_updated_at : ℕ
  pub cookie_expires_at : ℕ
  pub cookies : List Json
  pub local_storage : Dict Text Text
  pub media_auth_token : Text
  pub media_auth_updated_at : ℕ
  pub designer_auth_token : Text
  pub designer_auth_updated_at : ℕ
  pub refresh_token : Text
  pub refresh_token_updated_at : ℕ
  pub refresh_token_client_id : Text
  pub refresh_token_authority : Text
  pub refresh_token_tenant_id : Text
  pub refresh_token_object_id : Text
  pub refresh_token_retry_after : ℕ
  pub refresh_token_disabled_reason : Text
  pub refresh_token_disabled_at : ℕ
  pub media_seed_url : Text
  pub cdp_port : ℕ
  pub proxy_url : Text
  pub studio_agent_id : Text
  pub studio_agent_tenant_id : Text
  pub studio_agent_object_id : Text
  pub provider : Provider
  pub protocol_epoch : ℕ
  pub consumer_token : Text
  pub consumer_identity_type : Text
  pub consumer_account_id : Text
  pub consumer_cookies : List Json
  pub consumer_email : Text
  pub consumer_updated_at : ℕ
  pub consumer_token_expires_at : ℕ
  pub consumer_refresh_token : Text
  pub consumer_refresh_token_updated_at : ℕ
  pub consumer_refresh_token_client_id : Text
  pub consumer_refresh_token_scope : Text
  pub consumer_refresh_token_disabled_reason : Text
  pub consumer_refresh_token_disabled_at : ℕ
  pub consumer_refresh_token_retry_after : ℕ
  pub throttled_until : ℕ
  pub throttled_mode : Text
  pub throttled_at : ℕ
  pub token_source : TokenSource
  pub created_at : ℕ
  pub updated_at : ℕ

-- `_CDP_PORT_BASE`
abbrev pub cdp_port_base : ℕ
cdp_port_base = 9322

-- `Account(id=..., created_at=now, updated_at=now)`, the other fields with their defaults.
unfoldable pub account : {Json : Type 0} → Text → ℕ → Account Json
account id now = record {
  id = id;
  name = [];
  email = [];
  substrate_display_email = [];
  substrate_account_id = [];
  personal_substrate_session = none;
  substrate_token_expires_at = 0;
  personal_substrate_refresh_error = [];
  token = [];
  token_updated_at = 0;
  cookie_valid = false;
  cookie_updated_at = 0;
  cookie_expires_at = 0;
  cookies = [];
  local_storage = [];
  media_auth_token = [];
  media_auth_updated_at = 0;
  designer_auth_token = [];
  designer_auth_updated_at = 0;
  refresh_token = [];
  refresh_token_updated_at = 0;
  refresh_token_client_id = [];
  refresh_token_authority = [];
  refresh_token_tenant_id = [];
  refresh_token_object_id = [];
  refresh_token_retry_after = 0;
  refresh_token_disabled_reason = [];
  refresh_token_disabled_at = 0;
  media_seed_url = [];
  cdp_port = cdp_port_base;
  proxy_url = [];
  studio_agent_id = [];
  studio_agent_tenant_id = [];
  studio_agent_object_id = [];
  provider = m365;
  protocol_epoch = 0;
  consumer_token = [];
  consumer_identity_type = [];
  consumer_account_id = [];
  consumer_cookies = [];
  consumer_email = [];
  consumer_updated_at = 0;
  consumer_token_expires_at = 0;
  consumer_refresh_token = [];
  consumer_refresh_token_updated_at = 0;
  consumer_refresh_token_client_id = [];
  consumer_refresh_token_scope = [];
  consumer_refresh_token_disabled_reason = [];
  consumer_refresh_token_disabled_at = 0;
  consumer_refresh_token_retry_after = 0;
  throttled_until = 0;
  throttled_mode = [];
  throttled_at = 0;
  token_source = manual;
  created_at = now;
  updated_at = now;
}

-- What a method does to the account it finds: it returns `None` (or `False`), raises, or leaves the
-- account with new fields and returns it (or `True`).
pub data Change (Json : Type 0) : Type 0 where
  refused : Change Json
  raised : Change Json
  changed : Account Json → Change Json

module _ {Json : Type 0} where
  -- `if ...: return None`
  unfoldable pub refuse_if : Bool → Change Json → Change Json
  refuse_if true c = refused
  refuse_if false c = c

  -- `if ...: raise ...`
  unfoldable pub raise_if : Bool → Change Json → Change Json
  raise_if true c = raised
  raise_if false c = c

-- `expected is not None and epoch != expected`
unfoldable pub is_stale : Option ℕ → ℕ → Bool
is_stale none epoch = false
is_stale (some expected) epoch = not (eqb epoch expected)

-- `value if stated else kept`, for an optional argument
unfoldable pub stated_or {ℓ} : {A : Type ℓ} → Option A → A → A
stated_or none kept = kept
stated_or (some a) kept = a
