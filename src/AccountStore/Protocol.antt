-- ===== src/AccountStore/Protocol.antt =====
-- account_store.py: the two protocols of an account, when their credentials are a pair, and the
-- switch between them.
use ciallo_ms_365_open_ai_pr.Prelude.{
  ℕ, ◌+◌, Bool, true, not, ◌&&◌, ◌||◌, Option, none, some, eqb, if◌then◌else◌,
}
use ciallo_ms_365_open_ai_pr.Prelude.Text.{Text, codes, text_eq, is_empty}
use ciallo_ms_365_open_ai_pr.AccountStore.{
  Provider, m365, consumer, is_m365, same_provider, is_cdp, Outside, Account, Change, changed,
  raise_if,
}
use ciallo_ms_365_open_ai_pr.AccountStore.Identity.{
  count, dot, studio_subject, normalize_studio_agent_id,
}

-- The tenant of personal accounts in `_studio_subject`.
abbrev pub personal_tenant : Text
personal_tenant = codes "84df9e7f-e9f6-40af-b435-aaaaaaaaaaaa"

-- `refresh_mode`
pub data RefreshMode : Type 0 where
  by_browser : RefreshMode
  by_rt : RefreshMode
  by_hand : RefreshMode

-- An entry of `protocol_states`.
pub record ProtocolState : Type 0 where
  pub stored : Bool
  pub active : Bool
  pub can_activate : Bool
  pub identity_ready : Bool
  pub refresh_mode : RefreshMode

module _ {Json : Type 0} (o : Outside Json) where
  -- A token of a personal account.
  unfoldable pub is_personal_token : Text → Bool
  unfolding studio_subject
  is_personal_token token =
      o.is_valid_substrate_jwe token || text_eq (studio_subject o token).0 personal_tenant

  unfoldable pub is_personal : Account Json → Bool
  unfolding is_personal_token
  is_personal a = not (is_m365 a.provider) || is_personal_token a.token

  unfoldable pub display_email : Account Json → Text
  unfolding count
  display_email a =
      if not (is_m365 a.provider)
      then a.consumer_email
      else if eqb (count dot a.token) 4
      then a.substrate_display_email
      else a.email

  unfoldable pub studio_agent_ready : Account Json → Bool
  unfolding studio_subject normalize_studio_agent_id
  studio_agent_ready a =
      let subject = studio_subject o a.token in
      is_m365 a.provider
      && not (is_empty (normalize_studio_agent_id a.studio_agent_id))
      && not (is_empty subject.0)
      && not (is_empty subject.1)
      && text_eq subject.0 a.studio_agent_tenant_id
      && text_eq subject.1 a.studio_agent_object_id

  unfoldable pub has_personal_substrate_session : Account Json → Bool
  has_personal_substrate_session a =
      o.has_usable_session a.token a.substrate_account_id a.personal_substrate_session

  -- `paired`
  unfoldable pub is_paired : Account Json → Bool
  is_paired a = not (is_empty a.token) && not (is_empty a.consumer_token)

  -- `matching`
  unfoldable pub is_matching : Account Json → Bool
  unfolding is_personal_token
  is_matching a =
      not (is_empty a.substrate_account_id)
      && text_eq a.substrate_account_id a.consumer_account_id
      && is_personal_token a.token

  -- `protocol_states()[provider]`
  unfoldable pub protocol_state : Account Json → Provider → ProtocolState
  unfolding is_paired is_matching has_personal_substrate_session studio_subject
  protocol_state a m365 = record {
    stored = not (is_empty a.token);
    active = is_m365 a.provider;
    can_activate = not (is_empty a.token) && (not (is_paired a) || is_matching a);
    identity_ready =
        not (is_empty a.substrate_account_id) || not (is_empty (studio_subject o a.token).0);
    refresh_mode =
        if o.is_valid_substrate_jwe a.token && has_personal_substrate_session a
        then by_browser
        else if o.is_valid_substrate_jwe a.token
        then by_hand
        else if not (is_empty a.refresh_token)
        then by_rt
        else if is_cdp a.token_source && a.cookie_valid
        then by_browser
        else by_hand;
  }
  protocol_state a consumer = record {
    stored = not (is_empty a.consumer_token);
    active = not (is_m365 a.provider);
    can_activate =
        not (is_empty a.consumer_token)
        && not (is_empty a.consumer_account_id)
        && (not (is_paired a) || is_matching a);
    identity_ready = not (is_empty a.consumer_account_id);
    refresh_mode =
        if not (is_empty a.consumer_refresh_token)
          && not (is_empty a.consumer_refresh_token_client_id)
          && not (is_empty a.consumer_refresh_token_scope)
          && not (is_empty a.consumer_account_id)
        then by_rt
        else if not (is_empty a.consumer_account_id) && not (is_empty a.consumer_cookies)
        then by_browser
        else by_hand;
  }

  -- `not personal or not subject or not other_subject or subject != other_subject`
  unfoldable pub is_other_identity : Bool → Text → Text → Bool
  is_other_identity personal subject other_subject =
      not personal
      || is_empty subject
      || is_empty other_subject
      || not (text_eq subject other_subject)

  -- `_validate_protocol_pair`: whether it raises.
  unfoldable pub pair_mismatch : Account Json → Provider → Text → Text → Bool
  unfolding is_personal_token is_other_identity
  pair_mismatch a m365 subject token =
      not (is_empty a.consumer_token)
      && is_other_identity (is_personal_token token) subject a.consumer_account_id
  pair_mismatch a consumer subject token =
      not (is_empty a.token)
      && is_other_identity (is_personal_token a.token) subject a.substrate_account_id

  -- `activate_protocol`; `none` is a name of no protocol.
  unfoldable pub activate_protocol : ℕ → Option Provider → Account Json → Change Json
  unfolding protocol_state
  activate_protocol now none a = raise_if true (changed a)
  activate_protocol now (some provider) a =
      raise_if (not (protocol_state a provider).can_activate) (
        changed (
          if same_provider a.provider provider then a else record a {
            provider = provider;
            protocol_epoch = a.protocol_epoch + 1;
            updated_at = now;
          }))
