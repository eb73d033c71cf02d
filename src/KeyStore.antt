-- ===== src/KeyStore.antt =====
-- key_store.py: `ApiKey`, its password, and what an update sets. `_hash_password` is a parameter,
-- as are the random texts: an id, a secret and a salt are arguments of the calls that draw them.
pub mod Table
pub mod Indexed
pub mod Consistent
pub mod Resolved
use ciallo_ms_365_open_ai_pr.Prelude.{
  ℕ, Bool, true, false, not, ◌&&◌, ◌||◌, Option, none, some, List, [], ◌∷◌, ◌++◌, map,
  if◌then◌else◌, is_some,
}
use ciallo_ms_365_open_ai_pr.Prelude.Int.{ℤ, pos}
use ciallo_ms_365_open_ai_pr.Prelude.Text.{Text, codes, text_eq, text_key, is_empty, strip}

pub record ApiKey : Type 0 where
  pub id : Text
  pub key : Text
  pub name : Text
  pub account_id : Text
  pub enabled : Bool
  pub tone : Text
  pub tool_prompt : Text
  pub system_prompt : Text
  pub model_alias : Text
  pub time_zone : Text
  pub run_permission : Text
  pub tool_planning_mode : Text
  pub ws_idle_timeout_minutes : ℤ
  pub rate_limit_rpm : ℤ
  pub media_proxy_suffixes : List Text
  pub username : Text
  pub password : Text
  pub password_hash : Text
  pub password_salt : Text
  pub role : Text
  pub displaced_at : ℕ
  pub created_at : ℕ
  pub updated_at : ℕ

-- The fields that `update` may set, `none` where the call does not name them.
pub record Fields : Type 0 where
  pub name : Option Text
  pub account_id : Option Text
  pub enabled : Option Bool
  pub tone : Option Text
  pub tool_prompt : Option Text
  pub system_prompt : Option Text
  pub model_alias : Option Text
  pub time_zone : Option Text
  pub run_permission : Option Text
  pub tool_planning_mode : Option Text
  pub ws_idle_timeout_minutes : Option ℤ
  pub rate_limit_rpm : Option ℤ
  pub media_proxy_suffixes : Option (List Text)
  pub username : Option Text
  pub role : Option Text
  pub displaced_at : Option ℕ
  pub password : Option Text

-- `"key_" + ...`, `"sk-" + ...`
abbrev pub key_id : Text → Text
key_id hex = codes "key_" ++ hex

abbrev pub raw_key : Text → Text
raw_key random = codes "sk-" ++ random

-- `value if stated else kept`
unfoldable pub stated_or {ℓ} : {A : Type ℓ} → Option A → A → A
stated_or none kept = kept
stated_or (some a) kept = a

-- The arguments of `add`.
pub record NewKey : Type 0 where
  pub name : Text
  pub account_id : Text
  pub tone : Text
  pub username : Text
  pub password : Text
  pub role : Text

-- `ApiKey()`, with its random id and secret
unfoldable pub blank_key : ℕ → Text → Text → ApiKey
blank_key now hex random = record {
  id = key_id hex;
  key = raw_key random;
  name = [];
  account_id = [];
  enabled = true;
  tone = codes "Magic";
  tool_prompt = [];
  system_prompt = [];
  model_alias = [];
  time_zone = [];
  run_permission = [];
  tool_planning_mode = [];
  ws_idle_timeout_minutes = pos 0;
  rate_limit_rpm = pos 0;
  media_proxy_suffixes = [];
  username = [];
  password = [];
  password_hash = [];
  password_salt = [];
  role = codes "user";
  displaced_at = 0;
  created_at = now;
  updated_at = now;
}

-- `value.strip()` where it is stated
unfoldable pub stripped_or : Option Text → Text → Text
unfolding strip
stripped_or none kept = kept
stripped_or (some value) kept = strip value

-- `setattr` for every named field
unfoldable pub set_fields : Fields → ApiKey → ApiKey
unfolding stated_or stripped_or
set_fields f k = record k {
  name = stated_or f.name k.name;
  account_id = stated_or f.account_id k.account_id;
  enabled = stated_or f.enabled k.enabled;
  tone = stated_or f.tone k.tone;
  tool_prompt = stated_or f.tool_prompt k.tool_prompt;
  system_prompt = stated_or f.system_prompt k.system_prompt;
  model_alias = stated_or f.model_alias k.model_alias;
  time_zone = stated_or f.time_zone k.time_zone;
  run_permission = stated_or f.run_permission k.run_permission;
  tool_planning_mode = stated_or f.tool_planning_mode k.tool_planning_mode;
  ws_idle_timeout_minutes = stated_or f.ws_idle_timeout_minutes k.ws_idle_timeout_minutes;
  rate_limit_rpm = stated_or f.rate_limit_rpm k.rate_limit_rpm;
  media_proxy_suffixes = stated_or f.media_proxy_suffixes k.media_proxy_suffixes;
  username = stripped_or f.username k.username;
  role = stated_or f.role k.role;
  displaced_at = stated_or f.displaced_at k.displaced_at;
}

module _ (hash_password : Text → Text → Text) where
  unfoldable pub set_password : Text → Text → ApiKey → ApiKey
  set_password password salt k = record k {
    password = password;
    password_salt = salt;
    password_hash = hash_password password salt;
  }

  unfoldable pub check_password : Text → ApiKey → Bool
  check_password password k =
      not (is_empty k.password_hash)
      && not (is_empty k.password_salt)
      && text_eq k.password_hash (hash_password password k.password_salt)

  unfoldable pub with_password : Text → Option ApiKey → Option ApiKey
  unfolding check_password
  with_password password none = none
  with_password password (some k) = if check_password password k then some k else none

  -- The key that `add` makes, with the random texts of its id, its secret and its salt.
  unfoldable pub new_key : ℕ → Text → Text → Text → NewKey → ApiKey
  unfolding strip set_password blank_key
  new_key now hex random salt n =
      let k = record (blank_key now hex random) {
        name = n.name;
        account_id = n.account_id;
        tone = n.tone;
        username = strip n.username;
        role = n.role;
      } in
      if is_empty n.password then k else set_password n.password salt k

  -- `if password: k.set_password(password)`
  unfoldable pub reset_password : Option Text → Text → ApiKey → ApiKey
  unfolding set_password
  reset_password none salt k = k
  reset_password (some password) salt k =
      if is_empty password then k else set_password password salt k
