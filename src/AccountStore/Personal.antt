-- ===== src/AccountStore/Personal.antt =====
-- account_store.py: a renewed personal token, the error of a renewal, and clearing the token.
use ciallo_ms_365_open_ai_pr.Prelude.{
  ℕ, ◌+◌, Bool, true, false, not, ◌||◌, Option, none, some, [], eqb, Key, ◌==◌,
}
use ciallo_ms_365_open_ai_pr.Prelude.Text.{Text, text_eq, is_empty}
use ciallo_ms_365_open_ai_pr.AccountStore.{
  m365, is_m365, Stamp, Outside, Account, Change, refused, changed, refuse_if,
}
use ciallo_ms_365_open_ai_pr.AccountStore.Identity.{
  normalize_personal_substrate_expiry, normalize_personal_substrate_error,
  clear_studio_agent_binding,
}
use ciallo_ms_365_open_ai_pr.AccountStore.Protocol.{pair_mismatch}

-- The arguments of `apply_personal_substrate_refresh_result`.
pub record PersonalRefresh (Json : Type 0) : Type 0 where
  pub expected_token : Text
  pub expected_epoch : ℕ
  pub expected_session : Option Json
  pub token : Text
  pub account_id : Text
  pub session : Json
  pub expires_at : Stamp

-- `==` of two captured sessions
unfoldable pub same_session : {Json : Type 0} ⦃e : Key Json⦄ → Option Json → Option Json → Bool
same_session none none = true
same_session none (some y) = false
same_session (some x) none = false
same_session (some x) (some y) = x == y

-- `clear_token`
unfoldable pub clear_token : {Json : Type 0} → ℕ → Account Json → Change Json
unfolding clear_studio_agent_binding
clear_token now a = changed (record (clear_studio_agent_binding a) {
  token = [];
  token_updated_at = 0;
  substrate_display_email = [];
  substrate_account_id = [];
  personal_substrate_session = none;
  substrate_token_expires_at = 0;
  personal_substrate_refresh_error = [];
  protocol_epoch = a.protocol_epoch + 1;
  updated_at = now;
})

module _ {Json : Type 0} ⦃e : Key Json⦄ where
  -- The stored token is not the one a renewal was started for.
  unfoldable pub is_superseded : Text → ℕ → Option Json → Account Json → Bool
  unfolding same_session
  is_superseded token epoch session a =
      not (is_m365 a.provider)
      || not (eqb a.protocol_epoch epoch)
      || not (text_eq a.token token)
      || not (same_session a.personal_substrate_session session)

  unfoldable pub renew_personal : ℕ → Text → Option Json → ℕ → Account Json → Account Json
  renew_personal now token session expiry a = record a {
    token = token;
    token_updated_at = now;
    personal_substrate_session = session;
    substrate_token_expires_at = expiry;
    personal_substrate_refresh_error = [];
    updated_at = now;
  }

module _ {Json : Type 0} ⦃e : Key Json⦄ (o : Outside Json) where
  -- The end of `apply_personal_substrate_refresh_result`, where what is raised returns `None`.
  unfoldable pub renew_with :
      ℕ → PersonalRefresh Json → Account Json → Option Json → Option ℕ → Change Json
  unfolding pair_mismatch renew_personal
  renew_with now r a none expiry = refused
  renew_with now r a (some session) none = refused
  renew_with now r a (some session) (some expiry) =
      refuse_if (pair_mismatch o a m365 r.account_id r.token)
        (changed (renew_personal now r.token (some session) expiry a))

  unfoldable pub apply_personal_substrate_refresh_result :
      ℕ → PersonalRefresh Json → Account Json → Change Json
  unfolding is_superseded renew_with normalize_personal_substrate_expiry
  apply_personal_substrate_refresh_result now r a =
      refuse_if
        (is_superseded r.expected_token r.expected_epoch r.expected_session a
          || not (o.is_valid_substrate_jwe r.expected_token)
          || not (o.is_valid_substrate_jwe r.token)
          || text_eq r.token r.expected_token
          || is_empty a.substrate_account_id
          || not (text_eq r.account_id a.substrate_account_id))
        (renew_with now r a (o.normalize_session r.session r.account_id)
          (normalize_personal_substrate_expiry r.expires_at))

  unfoldable pub set_personal_substrate_refresh_error :
      ℕ → Text → Text → ℕ → Option Json → Account Json → Change Json
  unfolding is_superseded normalize_personal_substrate_error
  set_personal_substrate_refresh_error now code token epoch session a =
      let safe_code = normalize_personal_substrate_error code in
      refuse_if
        (is_empty safe_code
          || is_superseded token epoch session a
          || not (o.is_valid_substrate_jwe a.token))
        (changed (record a { personal_substrate_refresh_error = safe_code; updated_at = now }))
