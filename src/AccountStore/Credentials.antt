-- ===== src/AccountStore/Credentials.antt =====
-- The tokens of an account with what they are bound to, and what a call may do to them: an invariant
-- of these credentials is an invariant of the store.
use ciallo_ms_365_open_ai_pr.Prelude.{
  ℕ, ◌≡◌, refl, Option, none, some, [], arith, if◌then◌else◌, Key,
}
use ciallo_ms_365_open_ai_pr.Prelude.Text.{Text, text_key, is_empty, strip}
use ciallo_ms_365_open_ai_pr.AccountStore.{Provider, Outside, Account, stated_or}
use ciallo_ms_365_open_ai_pr.AccountStore.Identity.{
  clear_studio_binding_if_subject_changed, clear_studio_agent_binding, clear_throttle_observation,
}
use ciallo_ms_365_open_ai_pr.AccountStore.Protocol.{activate_protocol}
use ciallo_ms_365_open_ai_pr.AccountStore.Tokens.{
  TokenPush, pin_subject, forget_capture, set_expiry, activate_m365, relabel, store_capture,
  store_token,
}
use ciallo_ms_365_open_ai_pr.AccountStore.Slots.{
  bind_studio_agent, set_studio_agent_id, clear_throttled_until,
}
use ciallo_ms_365_open_ai_pr.AccountStore.Grants.{
  RefreshGrant, ConsumerGrant, Exchange, store_refresh_token, renew_token,
  store_consumer_refresh_token, is_rotated, stripped_or,
}
use ciallo_ms_365_open_ai_pr.AccountStore.ConsumerAuth.{
  ConsumerPush, change_subject, activate_consumer, store_grant, store_stated_grant,
  store_consumer_auth,
}
use ciallo_ms_365_open_ai_pr.AccountStore.Kept.{
  Holds, on_changed, refuse_if-Holds, raise_if-Holds, if-Holds,
}

-- The stored tokens, the identities that they are for, and the bindings of the refresh tokens.
pub record Credentials : Type 0 where
  pub token : Text
  pub substrate_account_id : Text
  pub consumer_token : Text
  pub consumer_account_id : Text
  pub refresh_token : Text
  pub client_id : Text
  pub authority : Text
  pub tenant_id : Text
  pub object_id : Text
  pub consumer_refresh_token : Text
  pub consumer_client_id : Text
  pub consumer_scope : Text

abbrev pub no_credentials : Credentials
no_credentials = record {
  token = [];
  substrate_account_id = [];
  consumer_token = [];
  consumer_account_id = [];
  refresh_token = [];
  client_id = [];
  authority = [];
  tenant_id = [];
  object_id = [];
  consumer_refresh_token = [];
  consumer_client_id = [];
  consumer_scope = [];
}

-- A refresh token with its binding, which an empty one has not.
abbrev pub with_grant : Text → Text → Text → Text → Text → Credentials → Credentials
with_grant t client authority tenant object c = record c {
  refresh_token = t;
  client_id = if is_empty t then [] else client;
  authority = if is_empty t then [] else authority;
  tenant_id = if is_empty t then [] else tenant;
  object_id = if is_empty t then [] else object;
}

abbrev pub with_consumer_grant : Text → Text → Text → Credentials → Credentials
with_consumer_grant t client scope c = record c {
  consumer_refresh_token = t;
  consumer_client_id = if is_empty t then [] else client;
  consumer_scope = if is_empty t then [] else scope;
}

-- A rotated refresh token in place of the stored one.
abbrev pub rotate : Text → Text → Text → Text
rotate rotated expected kept = if is_rotated rotated expected then strip rotated else kept

module _ {Json : Type 0} where
  abbrev pub credentials : Account Json → Credentials
  credentials a = record {
    token = a.token;
    substrate_account_id = a.substrate_account_id;
    consumer_token = a.consumer_token;
    consumer_account_id = a.consumer_account_id;
    refresh_token = a.refresh_token;
    client_id = a.refresh_token_client_id;
    authority = a.refresh_token_authority;
    tenant_id = a.refresh_token_tenant_id;
    object_id = a.refresh_token_object_id;
    consumer_refresh_token = a.consumer_refresh_token;
    consumer_client_id = a.consumer_refresh_token_client_id;
    consumer_scope = a.consumer_refresh_token_scope;
  }

  abbrev pub Same : Account Json → Account Json → Type 0
  Same a b = credentials b ≡ credentials a

module _ {Json : Type 0} ⦃e : Key Json⦄ (o : Outside Json) where
  -- An update changes the token and its subject, and nothing else.
  pub store_token-credentials :
      (now : ℕ) (p : TokenPush Json) (subject : Text) (session : Option Json) (expiry : ℕ)
      (a : Account Json)
      → credentials (store_token o now p subject session expiry a)
        ≡ record (credentials a) { token = p.token; substrate_account_id = subject }
  unfolding store_token store_capture pin_subject activate_m365 set_expiry forget_capture relabel
      clear_studio_binding_if_subject_changed clear_studio_agent_binding
  store_token-credentials now p subject session expiry a = ground arith

  pub set_studio_agent_id-Same :
      (now : ℕ) (agent_id : Text) (a : Account Json)
      → Holds (Same a) (set_studio_agent_id o now agent_id a)
  unfolding set_studio_agent_id bind_studio_agent clear_studio_agent_binding
  set_studio_agent_id-Same now agent_id a =
      raise_if-Holds _ _
        (λ ok. if-Holds _ _ _ (on_changed refl) (raise_if-Holds _ _ (λ bound. on_changed refl)))

  pub activate_protocol-Same :
      (now : ℕ) (provider : Option Provider) (a : Account Json)
      → Holds (Same a) (activate_protocol o now provider a)
  unfolding activate_protocol
  activate_protocol-Same now none a = raise_if-Holds _ _ (λ ok. on_changed refl)
  activate_protocol-Same now (some provider) a =
      raise_if-Holds _ _ (λ ok. on_changed (ground arith))

  pub clear_throttled_until-Same :
      (now : ℕ) (mode : Text) (started_at : ℕ) (identity : Provider × Text) (epoch : Option ℕ)
      (a : Account Json)
      → Holds (Same a) (clear_throttled_until now mode started_at identity epoch a)
  unfolding clear_throttled_until clear_throttle_observation
  clear_throttled_until-Same now mode started_at identity epoch a =
      refuse_if-Holds _ _ (λ ok. on_changed (ground arith))

  pub renew_token-credentials :
      (now : ℕ) (r : Exchange) (a : Account Json)
      → credentials (renew_token o now r a) ≡ record (credentials a) {
        token = r.access_token;
        refresh_token = rotate r.rotated_refresh_token r.expected_refresh_token a.refresh_token;
      }
  unfolding renew_token forget_capture relabel clear_studio_binding_if_subject_changed
      clear_studio_agent_binding
  renew_token-credentials now r a = ground arith

  pub store_consumer_auth-credentials :
      (now : ℕ) (p : ConsumerPush Json) (subject : Option Text) (a : Account Json)
      (refresh : Option Text)
      → credentials (store_consumer_auth o now (record p { refresh_token = refresh }) subject a)
        ≡ elim refresh [
          | none ↦ record (credentials a) {
            consumer_token = strip p.access_token;
            consumer_account_id = stated_or subject a.consumer_account_id;
          }
          | some t ↦
              with_consumer_grant
                (strip t)
                (stripped_or p.refresh_token_client_id a.consumer_refresh_token_client_id)
                (stripped_or p.refresh_token_scope a.consumer_refresh_token_scope)
                (record (credentials a) {
                  consumer_token = strip p.access_token;
                  consumer_account_id = stated_or subject a.consumer_account_id;
                })
        ]
  unfolding store_consumer_auth change_subject activate_consumer clear_throttle_observation
      store_stated_grant store_grant
  store_consumer_auth-credentials now p subject a none = ground arith
  store_consumer_auth-credentials now p subject a (some t) = ground arith

module _ {Json : Type 0} where
  pub store_refresh_token-credentials :
      (now : ℕ) (token : Text) (g : RefreshGrant) (a : Account Json)
      → credentials (store_refresh_token now token g a)
        ≡ with_grant token
            (stripped_or g.client_id a.refresh_token_client_id)
            (stripped_or g.authority a.refresh_token_authority)
            (stripped_or g.tenant_id a.refresh_token_tenant_id)
            (stripped_or g.object_id a.refresh_token_object_id)
            (credentials a)
  unfolding store_refresh_token
  store_refresh_token-credentials now token g a = ground arith

  pub store_consumer_refresh_token-credentials :
      (now : ℕ) (token : Text) (g : ConsumerGrant) (a : Account Json)
      → credentials (store_consumer_refresh_token now token g a)
        ≡ with_consumer_grant token
            (stripped_or g.client_id a.consumer_refresh_token_client_id)
            (stripped_or g.scope a.consumer_refresh_token_scope)
            (credentials a)
  unfolding store_consumer_refresh_token
  store_consumer_refresh_token-credentials now token g a = ground arith
