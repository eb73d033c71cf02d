-- ===== src/AccountStore/Grants.antt =====
-- account_store.py: the two refresh tokens of an account, that of the Substrate client and that of
-- the consumer client: stored, rotated, discarded, deferred, and what an exchange gives.
use ciallo_ms_365_open_ai_pr.Prelude.{
  ℕ, max, Bool, false, not, ◌&&◌, ◌||◌, Option, none, some, [], if◌then◌else◌,
}
use ciallo_ms_365_open_ai_pr.Prelude.Int.{ℤ, pos_part}
use ciallo_ms_365_open_ai_pr.Prelude.Text.{Text, text_eq, is_empty, strip}
use ciallo_ms_365_open_ai_pr.AccountStore.{
  is_m365, Stamp, Outside, Account, Change, changed, refuse_if, is_stale, stated_or,
}
use ciallo_ms_365_open_ai_pr.AccountStore.Identity.{
  normalize_consumer_token_expiry, clear_studio_binding_if_subject_changed,
}
use ciallo_ms_365_open_ai_pr.AccountStore.Tokens.{forget_capture, relabel}

-- The arguments of `set_refresh_token`.
pub record RefreshGrant : Type 0 where
  pub token : Text
  pub client_id : Option Text
  pub authority : Option Text
  pub tenant_id : Option Text
  pub object_id : Option Text
  pub expected_refresh_token : Option Text
  pub disabled_reason : Text
  pub preserve_existing_client_id : Option Text

-- The arguments of `set_consumer_refresh_token`.
pub record ConsumerGrant : Type 0 where
  pub token : Text
  pub client_id : Option Text
  pub scope : Option Text
  pub expected_refresh_token : Option Text
  pub disabled_reason : Text

-- The arguments of `apply_refresh_token_result`.
pub record Exchange : Type 0 where
  pub expected_refresh_token : Text
  pub expected_access_token : Text
  pub access_token : Text
  pub rotated_refresh_token : Text
  pub expected_epoch : Option ℕ

-- The arguments of `apply_consumer_refresh_result`.
pub record ConsumerExchange : Type 0 where
  pub expected_refresh_token : Text
  pub expected_consumer_token : Text
  pub consumer_token : Text
  pub rotated_refresh_token : Text
  pub expires_at : Stamp
  pub expected_epoch : Option ℕ

-- `expected is not None and value != expected`
unfoldable pub differs : Option Text → Text → Bool
differs none value = false
differs (some expected) value = not (text_eq value expected)

-- `value.strip()` where it is stated
unfoldable pub stripped_or : Option Text → Text → Text
unfolding strip
stripped_or none kept = kept
stripped_or (some value) kept = strip value

-- The stored token after an exchange: a rotated one replaces it.
unfoldable pub is_rotated : Text → Text → Bool
unfolding strip
is_rotated rotated expected =
    not (is_empty (strip rotated)) && not (text_eq (strip rotated) expected)

module _ {Json : Type 0} where
  -- The stored grant after `set_refresh_token`: `token` is stripped.
  unfoldable pub store_refresh_token : ℕ → Text → RefreshGrant → Account Json → Account Json
  unfolding stripped_or
  store_refresh_token now token g a =
      let stored = record a {
        refresh_token = token;
        refresh_token_updated_at = if is_empty token then 0 else now;
        refresh_token_retry_after = 0;
        updated_at = now;
      } in
      if is_empty token
      then record stored {
        refresh_token_client_id = [];
        refresh_token_authority = [];
        refresh_token_tenant_id = [];
        refresh_token_object_id = [];
        refresh_token_disabled_reason =
            if is_empty g.disabled_reason
            then a.refresh_token_disabled_reason
            else g.disabled_reason;
        refresh_token_disabled_at =
            if is_empty g.disabled_reason then a.refresh_token_disabled_at else now;
      }
      else record stored {
        refresh_token_disabled_reason = [];
        refresh_token_disabled_at = 0;
        refresh_token_client_id = stripped_or g.client_id a.refresh_token_client_id;
        refresh_token_authority = stripped_or g.authority a.refresh_token_authority;
        refresh_token_tenant_id = stripped_or g.tenant_id a.refresh_token_tenant_id;
        refresh_token_object_id = stripped_or g.object_id a.refresh_token_object_id;
      }

  unfoldable pub defer_refresh_token : ℕ → Text → ℤ → Account Json → Change Json
  defer_refresh_token now expected retry_after a =
      refuse_if (not (text_eq a.refresh_token expected)) (
        changed (record a {
          refresh_token_retry_after = max a.refresh_token_retry_after (pos_part retry_after);
          updated_at = now;
        }))

  -- The stored grant after `set_consumer_refresh_token`: `token` is stripped.
  unfoldable pub store_consumer_refresh_token :
      ℕ → Text → ConsumerGrant → Account Json → Account Json
  unfolding stripped_or
  store_consumer_refresh_token now token g a =
      let stored = record a {
        consumer_refresh_token = token;
        consumer_refresh_token_updated_at = if is_empty token then 0 else now;
        consumer_refresh_token_retry_after = 0;
        updated_at = now;
      } in
      if is_empty token
      then record stored {
        consumer_refresh_token_client_id = [];
        consumer_refresh_token_scope = [];
        consumer_refresh_token_disabled_reason =
            if is_empty g.disabled_reason
            then a.consumer_refresh_token_disabled_reason
            else g.disabled_reason;
        consumer_refresh_token_disabled_at =
            if is_empty g.disabled_reason then a.consumer_refresh_token_disabled_at else now;
      }
      else record stored {
        consumer_refresh_token_disabled_reason = [];
        consumer_refresh_token_disabled_at = 0;
        consumer_refresh_token_client_id =
            stripped_or g.client_id a.consumer_refresh_token_client_id;
        consumer_refresh_token_scope = stripped_or g.scope a.consumer_refresh_token_scope;
      }

  unfoldable pub set_consumer_refresh_token : ℕ → ConsumerGrant → Account Json → Change Json
  unfolding differs store_consumer_refresh_token strip
  set_consumer_refresh_token now g a =
      refuse_if (differs g.expected_refresh_token a.consumer_refresh_token)
        (changed (store_consumer_refresh_token now (strip g.token) g a))

  unfoldable pub defer_consumer_refresh_token : ℕ → Text → ℤ → Account Json → Change Json
  defer_consumer_refresh_token now expected retry_after a =
      refuse_if (not (text_eq a.consumer_refresh_token expected)) (
        changed (record a {
          consumer_refresh_token_retry_after =
              max a.consumer_refresh_token_retry_after (pos_part retry_after);
          updated_at = now;
        }))

  unfoldable pub renew_consumer : ℕ → ConsumerExchange → Account Json → Account Json
  unfolding is_rotated strip normalize_consumer_token_expiry
  renew_consumer now r a =
      let rotated = is_rotated r.rotated_refresh_token r.expected_refresh_token in
      record a {
        consumer_refresh_token =
            if rotated then strip r.rotated_refresh_token else a.consumer_refresh_token;
        consumer_refresh_token_updated_at =
            if rotated then now else a.consumer_refresh_token_updated_at;
        consumer_refresh_token_retry_after = 0;
        consumer_token = strip r.consumer_token;
        consumer_token_expires_at = normalize_consumer_token_expiry r.expires_at;
        consumer_updated_at = now;
        updated_at = now;
      }

  unfoldable pub apply_consumer_refresh_result : ℕ → ConsumerExchange → Account Json → Change Json
  unfolding is_stale strip renew_consumer
  apply_consumer_refresh_result now r a =
      refuse_if
        (is_m365 a.provider
          || not (text_eq a.consumer_refresh_token r.expected_refresh_token)
          || not (text_eq a.consumer_token r.expected_consumer_token)
          || is_stale r.expected_epoch a.protocol_epoch
          || is_empty (strip r.consumer_token))
        (changed (renew_consumer now r a))

module _ {Json : Type 0} (o : Outside Json) where
  -- A live grant of the protected client, which a push of another client leaves alone.
  unfoldable pub is_protected : RefreshGrant → Account Json → Bool
  unfolding stated_or strip
  is_protected g a =
      let incoming = o.lower (strip (stated_or g.client_id [])) in
      let protected = o.lower (strip (stated_or g.preserve_existing_client_id [])) in
      not (is_empty (strip g.token))
      && not (is_empty incoming)
      && not (is_empty protected)
      && not (text_eq incoming protected)
      && not (is_empty a.refresh_token)
      && text_eq (o.lower (strip a.refresh_token_client_id)) protected

  unfoldable pub set_refresh_token : ℕ → RefreshGrant → Account Json → Change Json
  unfolding differs is_protected store_refresh_token strip
  set_refresh_token now g a =
      refuse_if (differs g.expected_refresh_token a.refresh_token)
        (changed (if is_protected g a then a else store_refresh_token now (strip g.token) g a))

  -- The account after an exchange that is still current.
  unfoldable pub renew_token : ℕ → Exchange → Account Json → Account Json
  unfolding is_rotated strip forget_capture clear_studio_binding_if_subject_changed relabel
  renew_token now r a =
      let rotated = is_rotated r.rotated_refresh_token r.expected_refresh_token in
      let renewed = record (forget_capture a) {
        refresh_token = if rotated then strip r.rotated_refresh_token else a.refresh_token;
        refresh_token_updated_at = if rotated then now else a.refresh_token_updated_at;
        refresh_token_retry_after = 0;
        token = r.access_token;
        token_updated_at = now;
      } in
      record (relabel o r.access_token
        (clear_studio_binding_if_subject_changed o r.access_token renewed)) { updated_at = now }

  unfoldable pub apply_refresh_token_result : ℕ → Exchange → Account Json → Change Json
  unfolding is_stale renew_token
  apply_refresh_token_result now r a =
      refuse_if
        (not (text_eq a.refresh_token r.expected_refresh_token)
          || not (text_eq a.token r.expected_access_token)
          || not (is_m365 a.provider)
          || is_stale r.expected_epoch a.protocol_epoch)
        (changed (renew_token now r a))
