-- ===== src/AccountStore/Calls.antt =====
-- account_store.py: the calls of the account store, their effect on an account, and runs of them.
use ciallo_ms_365_open_ai_pr.Prelude.{ℕ, Bool, Option, none, some, List, [], ◌∷◌, Key}
use ciallo_ms_365_open_ai_pr.Prelude.Int.{ℤ}
use ciallo_ms_365_open_ai_pr.Prelude.Text.{Text, text_key}
use ciallo_ms_365_open_ai_pr.Dict.{Dict, get}
use ciallo_ms_365_open_ai_pr.AccountStore.{Provider, TokenSource, Outside, Account, Change, refused}
use ciallo_ms_365_open_ai_pr.AccountStore.Pool.{
  AccountStore, NewAccount, add_account, set_cdp_port_base, remove, commit,
}
use ciallo_ms_365_open_ai_pr.AccountStore.Protocol.{activate_protocol}
use ciallo_ms_365_open_ai_pr.AccountStore.Tokens.{TokenPush, update_token, push_token}
use ciallo_ms_365_open_ai_pr.AccountStore.Personal.{
  PersonalRefresh, apply_personal_substrate_refresh_result, set_personal_substrate_refresh_error,
  clear_token,
}
use ciallo_ms_365_open_ai_pr.AccountStore.Slots.{
  set_cookie_status, set_cookies, set_proxy_url, set_studio_agent_id, set_media_auth_token,
  set_designer_auth_token, set_media_seed_url, rename, set_throttled_until, clear_throttled_until,
}
use ciallo_ms_365_open_ai_pr.AccountStore.Grants.{
  RefreshGrant, ConsumerGrant, Exchange, ConsumerExchange, set_refresh_token, defer_refresh_token,
  apply_refresh_token_result, set_consumer_refresh_token, defer_consumer_refresh_token,
  apply_consumer_refresh_result,
}
use ciallo_ms_365_open_ai_pr.AccountStore.ConsumerAuth.{
  ConsumerPush, set_consumer_auth, clear_credentials,
}

-- A call of a method on one account.
pub data Call (Json : Type 0) : Type 0 where
  activate_protocol_call : Option Provider → Call Json
  update_token_call : TokenPush Json → Call Json
  push_token_call : TokenPush Json → Call Json
  personal_refresh_call : PersonalRefresh Json → Call Json
  personal_error_call : Text → Text → ℕ → Option Json → Call Json
  clear_token_call : Call Json
  cookie_status_call : Bool → Option TokenSource → ℕ → Call Json
  cookies_call : List Json → Option (Dict Text Text) → Call Json
  proxy_url_call : Text → Call Json
  studio_agent_id_call : Text → Call Json
  consumer_auth_call : ConsumerPush Json → Call Json
  throttled_until_call : ℤ → Text → Option (Provider × Text) → Option ℕ → Call Json
  clear_throttled_call : Text → ℕ → Provider × Text → Option ℕ → Call Json
  media_auth_token_call : Text → Call Json
  designer_auth_token_call : Text → Call Json
  media_seed_url_call : Text → Call Json
  refresh_token_call : RefreshGrant → Call Json
  defer_refresh_token_call : Text → ℤ → Call Json
  refresh_result_call : Exchange → Call Json
  consumer_refresh_token_call : ConsumerGrant → Call Json
  defer_consumer_call : Text → ℤ → Call Json
  consumer_result_call : ConsumerExchange → Call Json
  clear_credentials_call : Call Json
  rename_call : Text → Call Json

module _ {Json : Type 0} ⦃e : Key Json⦄ (o : Outside Json) where
  -- The method on the account that it finds.
  unfoldable pub perform : ℕ → Call Json → Account Json → Change Json
  unfolding activate_protocol update_token push_token apply_personal_substrate_refresh_result
      set_personal_substrate_refresh_error clear_token set_cookie_status set_cookies set_proxy_url
      set_studio_agent_id set_consumer_auth set_throttled_until clear_throttled_until
      set_media_auth_token set_designer_auth_token set_media_seed_url set_refresh_token
      defer_refresh_token apply_refresh_token_result set_consumer_refresh_token
      defer_consumer_refresh_token apply_consumer_refresh_result clear_credentials rename
  perform now (activate_protocol_call provider) a = activate_protocol o now provider a
  perform now (update_token_call p) a = update_token o now p a
  perform now (push_token_call p) a = push_token o now p a
  perform now (personal_refresh_call r) a = apply_personal_substrate_refresh_result o now r a
  perform now (personal_error_call code token epoch session) a =
      set_personal_substrate_refresh_error o now code token epoch session a
  perform now clear_token_call a = clear_token now a
  perform now (cookie_status_call valid source expires_at) a =
      set_cookie_status now valid source expires_at a
  perform now (cookies_call cookies local_storage) a = set_cookies o now cookies local_storage a
  perform now (proxy_url_call url) a = set_proxy_url o now url a
  perform now (studio_agent_id_call agent_id) a = set_studio_agent_id o now agent_id a
  perform now (consumer_auth_call p) a = set_consumer_auth o now p a
  perform now (throttled_until_call when mode identity epoch) a =
      set_throttled_until now when mode identity epoch a
  perform now (clear_throttled_call mode started_at identity epoch) a =
      clear_throttled_until now mode started_at identity epoch a
  perform now (media_auth_token_call token) a = set_media_auth_token now token a
  perform now (designer_auth_token_call token) a = set_designer_auth_token now token a
  perform now (media_seed_url_call url) a = set_media_seed_url now url a
  perform now (refresh_token_call g) a = set_refresh_token o now g a
  perform now (defer_refresh_token_call expected retry_after) a =
      defer_refresh_token now expected retry_after a
  perform now (refresh_result_call r) a = apply_refresh_token_result o now r a
  perform now (consumer_refresh_token_call g) a = set_consumer_refresh_token now g a
  perform now (defer_consumer_call expected retry_after) a =
      defer_consumer_refresh_token now expected retry_after a
  perform now (consumer_result_call r) a = apply_consumer_refresh_result now r a
  perform now clear_credentials_call a = clear_credentials now a
  perform now (rename_call name) a = rename now name a

  -- The method on what `self._accounts.get(acc_id)` is. Of an unknown id `set_studio_agent_id` may
  -- raise instead, which leaves the store the same.
  unfoldable pub perform_at : ℕ → Call Json → Option (Account Json) → Change Json
  unfolding perform
  perform_at now c none = refused
  perform_at now c (some a) = perform now c a

-- A call of the store, at its time.
pub data StoreCall (Json : Type 0) : Type 0 where
  account_call : Text → Call Json → StoreCall Json
  add_call : Text → NewAccount Json → StoreCall Json
  remove_call : Text → StoreCall Json
  port_base_call : ℤ → StoreCall Json

module _ {Json : Type 0} ⦃e : Key Json⦄ (o : Outside Json) where
  unfoldable pub step : ℕ → StoreCall Json → AccountStore Json → AccountStore Json
  unfolding get perform_at commit add_account remove set_cdp_port_base
  step now (account_call key c) s = commit key (perform_at o now c (get key s.accounts)) s
  step now (add_call id n) s = commit id (add_account o now id n s) s
  step now (remove_call key) s = (remove key s).1
  step now (port_base_call port) s = set_cdp_port_base port s

  unfoldable pub run : List (ℕ × StoreCall Json) → AccountStore Json → AccountStore Json
  unfolding step
  run [] s = s
  run ((now, c) ∷ calls) s = run calls (step now c s)
