-- ===== src/AccountStore/ConsumerAuth.antt =====
-- account_store.py: `set_consumer_auth`, the credentials of the consumer chat, and
-- `clear_credentials`.
use ciallo_ms_365_open_ai_pr.Prelude.{
  ℕ, ◌+◌, Bool, false, not, ◌&&◌, ◌||◌, Option, none, some, List, [], eqb, leb, if◌then◌else◌,
  length, select,
}
use ciallo_ms_365_open_ai_pr.Prelude.Text.{Text, text_eq, is_empty, strip}
use ciallo_ms_365_open_ai_pr.AccountStore.{
  m365, consumer, is_m365, Stamp, Outside, Account, Change, changed, refuse_if, raise_if, is_stale,
  stated_or,
}
use ciallo_ms_365_open_ai_pr.AccountStore.Identity.{
  normalize_consumer_account_id, normalize_consumer_token_expiry, clear_throttle_observation,
  clear_studio_agent_binding,
}
use ciallo_ms_365_open_ai_pr.AccountStore.Protocol.{pair_mismatch}
use ciallo_ms_365_open_ai_pr.AccountStore.Grants.{stripped_or}

-- The arguments of `set_consumer_auth`.
pub record ConsumerPush (Json : Type 0) : Type 0 where
  pub cookies : List Json
  pub access_token : Text
  pub identity_type : Text
  pub email : Text
  pub consumer_account_id : Option Text
  pub expected_snapshot : Option (ℕ × Text × Text)
  pub expires_at : Stamp
  pub refresh_token : Option Text
  pub refresh_token_client_id : Option Text
  pub refresh_token_scope : Option Text
  pub activate : Bool
  pub expected_epoch : Option ℕ

module _ {Json : Type 0} where
  -- `expected_snapshot is not None`: another provider, or another snapshot.
  unfoldable pub is_outdated : Option (ℕ × Text × Text) → Account Json → Bool
  is_outdated none a = false
  is_outdated (some (updated_at, token, account_id)) a =
      is_m365 a.provider
      || not (
          eqb a.consumer_updated_at updated_at
          && text_eq a.consumer_token token
          && text_eq a.consumer_account_id account_id)

  -- A stated subject that is not the stored one.
  unfoldable pub is_new_subject : Option Text → Account Json → Bool
  is_new_subject none a = false
  is_new_subject (some account_id) a = not (text_eq account_id a.consumer_account_id)

  -- A new subject drops the observed reset, and ends the epoch of a stored token.
  unfoldable pub change_subject : Option Text → Account Json → Account Json
  unfolding is_new_subject clear_throttle_observation
  change_subject account_id a =
      if is_new_subject account_id a
      then record (clear_throttle_observation a) {
        protocol_epoch =
            if is_empty a.consumer_token then a.protocol_epoch else a.protocol_epoch + 1;
      }
      else a

  -- `activate and acc.provider != "consumer"`
  unfoldable pub activate_consumer : Bool → Account Json → Account Json
  activate_consumer activate a =
      if activate && is_m365 a.provider
      then record a { provider = consumer; protocol_epoch = a.protocol_epoch + 1 }
      else a

  -- The grant that is stored with the token: `refresh` is stripped.
  unfoldable pub store_grant : ℕ → Text → ConsumerPush Json → Account Json → Account Json
  unfolding stripped_or
  store_grant now refresh p a = record a {
    consumer_refresh_token = refresh;
    consumer_refresh_token_updated_at = if is_empty refresh then 0 else now;
    consumer_refresh_token_retry_after = 0;
    consumer_refresh_token_client_id =
        if is_empty refresh
        then []
        else stripped_or p.refresh_token_client_id a.consumer_refresh_token_client_id;
    consumer_refresh_token_scope =
        if is_empty refresh
        then []
        else stripped_or p.refresh_token_scope a.consumer_refresh_token_scope;
    consumer_refresh_token_disabled_reason = [];
    consumer_refresh_token_disabled_at = 0;
  }

  -- `if consumer_refresh_token is not None`
  unfoldable pub store_stated_grant :
      ℕ → Option Text → ConsumerPush Json → Account Json → Account Json
  unfolding store_grant strip
  store_stated_grant now none p a = a
  store_stated_grant now (some refresh) p a = store_grant now (strip refresh) p a

module _ {Json : Type 0} (o : Outside Json) where
  unfoldable pub normalized_subject : Option Text → Option Text
  unfolding normalize_consumer_account_id
  normalized_subject none = none
  normalized_subject (some value) = some (normalize_consumer_account_id o value)

  -- The display email after a push, `new` where its subject is a new one.
  unfoldable pub pushed_email : Text → Bool → Text → Text
  unfolding strip
  pushed_email value new kept =
      let email = o.lower (strip value) in
      if leb (length email) 254 && o.is_email email then email else if new then [] else kept

  -- `set_consumer_auth` after its checks: `subject` is the stated one, normalised.
  unfoldable pub store_consumer_auth :
      ℕ → ConsumerPush Json → Option Text → Account Json → Account Json
  unfolding change_subject activate_consumer pushed_email is_new_subject stated_or strip
      normalize_consumer_token_expiry store_stated_grant
  store_consumer_auth now p subject a =
      let active = activate_consumer p.activate (change_subject subject a) in
      let stored = record active {
        consumer_cookies = select o.is_dict p.cookies;
        consumer_token = strip p.access_token;
        consumer_identity_type = strip p.identity_type;
        consumer_account_id = stated_or subject a.consumer_account_id;
        consumer_email = pushed_email p.email (is_new_subject subject a) a.consumer_email;
        consumer_updated_at = now;
        consumer_token_expires_at = normalize_consumer_token_expiry p.expires_at;
      } in
      record (store_stated_grant now p.refresh_token p stored) { updated_at = now }

  unfoldable pub set_consumer_auth : ℕ → ConsumerPush Json → Account Json → Change Json
  unfolding is_stale is_outdated normalized_subject stated_or pair_mismatch store_consumer_auth
  set_consumer_auth now p a =
      let subject = normalized_subject p.consumer_account_id in
      refuse_if (is_stale p.expected_epoch a.protocol_epoch || is_outdated p.expected_snapshot a) (
        raise_if (pair_mismatch o a consumer (stated_or subject a.consumer_account_id) [])
          (changed (store_consumer_auth now p subject a)))

-- `clear_credentials`: the reason why a Substrate grant was discarded stays.
unfoldable pub clear_credentials : {Json : Type 0} → ℕ → Account Json → Change Json
unfolding clear_throttle_observation clear_studio_agent_binding
clear_credentials now a =
    changed (record (clear_studio_agent_binding (clear_throttle_observation a)) {
      token = [];
      token_updated_at = 0;
      substrate_display_email = [];
      substrate_account_id = [];
      personal_substrate_session = none;
      substrate_token_expires_at = 0;
      personal_substrate_refresh_error = [];
      protocol_epoch = a.protocol_epoch + 1;
      consumer_token = [];
      consumer_identity_type = [];
      consumer_account_id = [];
      consumer_updated_at = 0;
      consumer_token_expires_at = 0;
      consumer_cookies = [];
      consumer_email = [];
      cookies = [];
      local_storage = [];
      media_auth_token = [];
      media_auth_updated_at = 0;
      designer_auth_token = [];
      designer_auth_updated_at = 0;
      refresh_token = [];
      refresh_token_updated_at = 0;
      refresh_token_client_id = [];
      refresh_token_authority = [];
      refresh_token_tenant_id = [];
      refresh_token_object_id = [];
      refresh_token_retry_after = 0;
      consumer_refresh_token = [];
      consumer_refresh_token_updated_at = 0;
      consumer_refresh_token_client_id = [];
      consumer_refresh_token_scope = [];
      consumer_refresh_token_retry_after = 0;
      consumer_refresh_token_disabled_reason = [];
      consumer_refresh_token_disabled_at = 0;
      cookie_valid = false;
      cookie_updated_at = 0;
      cookie_expires_at = 0;
      provider = m365;
      updated_at = now;
    })
