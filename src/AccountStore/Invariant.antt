-- ===== src/AccountStore/Invariant.antt =====
-- An invariant of the credentials: kept by what a call may do to them, it is kept by every call.
use ciallo_ms_365_open_ai_pr.Prelude.{
  ℕ, ◌≡◌, sym, Bool, true, false, Option, none, some, List, [], arith, Key,
}
use ciallo_ms_365_open_ai_pr.Prelude.Text.{Text, text_key, text_eq_iff, strip}
use mathlib.Core.Path.{subst}
use ciallo_ms_365_open_ai_pr.Dict.{get}
use ciallo_ms_365_open_ai_pr.AccountStore.{
  m365, consumer, Outside, Account, account, Change, stated_or,
}
use ciallo_ms_365_open_ai_pr.AccountStore.Identity.{
  clear_studio_agent_binding, clear_throttle_observation,
}
use ciallo_ms_365_open_ai_pr.AccountStore.Protocol.{pair_mismatch}
use ciallo_ms_365_open_ai_pr.AccountStore.Tokens.{
  TokenPush, update_with, update_token, user_push, push_token,
}
use ciallo_ms_365_open_ai_pr.AccountStore.Personal.{
  PersonalRefresh, renew_personal, renew_with, apply_personal_substrate_refresh_result,
  set_personal_substrate_refresh_error, clear_token,
}
use ciallo_ms_365_open_ai_pr.AccountStore.Slots.{
  set_cookie_status, set_cookies, set_proxy_url, set_media_auth_token, set_designer_auth_token,
  set_media_seed_url, rename, set_throttled_until,
}
use ciallo_ms_365_open_ai_pr.AccountStore.Grants.{
  RefreshGrant, Exchange, ConsumerExchange, is_protected, store_refresh_token, set_refresh_token,
  defer_refresh_token, apply_refresh_token_result, set_consumer_refresh_token,
  defer_consumer_refresh_token, renew_consumer, apply_consumer_refresh_result,
}
use ciallo_ms_365_open_ai_pr.AccountStore.ConsumerAuth.{
  ConsumerPush, store_consumer_auth, set_consumer_auth, clear_credentials, normalized_subject,
}
use ciallo_ms_365_open_ai_pr.AccountStore.Calls.{
  Call, activate_protocol_call, update_token_call, push_token_call, personal_refresh_call,
  personal_error_call, clear_token_call, cookie_status_call, cookies_call, proxy_url_call,
  studio_agent_id_call, consumer_auth_call, throttled_until_call, clear_throttled_call,
  media_auth_token_call, designer_auth_token_call, media_seed_url_call, refresh_token_call,
  defer_refresh_token_call, refresh_result_call, consumer_refresh_token_call, defer_consumer_call,
  consumer_result_call, clear_credentials_call, rename_call, perform, StoreCall, account_call,
  add_call, remove_call, port_base_call, run,
}
use ciallo_ms_365_open_ai_pr.AccountStore.Pool.{
  NewAccount, account_store, new_account, add_with, add_account,
}
use ciallo_ms_365_open_ai_pr.AccountStore.Kept.{
  Holds, on_refused, on_raised, on_changed, refuse_if-Holds, raise_if-Holds, Holds-weaken,
  if-splits, OnSome, all_calls, run-OnSome,
}
use ciallo_ms_365_open_ai_pr.AccountStore.Credentials.{
  Credentials, no_credentials, with_grant, with_consumer_grant, rotate, credentials, Same,
  store_token-credentials, renew_token-credentials, store_consumer_auth-credentials,
  store_refresh_token-credentials, store_consumer_refresh_token-credentials,
  set_studio_agent_id-Same, activate_protocol-Same, clear_throttled_until-Same,
}

-- The test of calls on an account, for the calls of the store.
unfoldable pub account_calls : {Json : Type 0} → (Call Json → Bool) → StoreCall Json → Bool
account_calls good (account_call key c) = good c
account_calls good (add_call key n) = true
account_calls good (remove_call key) = true
account_calls good (port_base_call port) = true

module _ {Json : Type 0} ⦃e : Key Json⦄ (o : Outside Json) (P : Credentials → Type 0)
    (good : Call Json → Bool)
    (pushed : (a : Account Json) (subject token : Text)
      → pair_mismatch o a m365 subject token ≡ false
      → P (credentials a)
      → P (record (credentials a) { token = token; substrate_account_id = subject }))
    (signed_in : (a : Account Json) (subject token : Text)
      → pair_mismatch o a consumer subject [] ≡ false
      → P (credentials a)
      → P (record (credentials a) { consumer_token = token; consumer_account_id = subject }))
    (granted : (c : Credentials) (t client authority tenant object : Text)
      → P c
      → P (with_grant t client authority tenant object c))
    (consumer_granted : (c : Credentials) (t client scope : Text)
      → P c
      → P (with_consumer_grant t client scope c))
    (exchanged : (a : Account Json) (r : Exchange)
      → good (refresh_result_call r) ≡ true
      → a.token ≡ r.expected_access_token
      → P (credentials a)
      → P (record (credentials a) {
        token = r.access_token;
        refresh_token = rotate r.rotated_refresh_token r.expected_refresh_token a.refresh_token;
      }))
    (consumer_exchanged : (a : Account Json) (r : ConsumerExchange)
      → good (consumer_result_call r) ≡ true
      → a.consumer_token ≡ r.expected_consumer_token
      → P (credentials a)
      → P (record (credentials a) {
        consumer_token = strip r.consumer_token;
        consumer_refresh_token =
            rotate r.rotated_refresh_token r.expected_refresh_token a.consumer_refresh_token;
      }))
    (cleared : (c : Credentials) → P c → P (record c { token = []; substrate_account_id = [] }))
    (created : (subject token : Text)
      → P (record no_credentials { token = token; substrate_account_id = subject })) where
  Keeps : Change Json → Type 0
  Keeps = Holds (λ b. P (credentials b))

  keeps_same : (a : Account Json) (c : Change Json) → P (credentials a) → Holds (Same a) c → Keeps c
  unfolding Keeps
  keeps_same a c h k = Holds-weaken (λ b same. subst P (sym same) h) k

  update_with-keeps :
      (now : ℕ) (p : TokenPush Json) (subject : Text) (a : Account Json)
      (session : Option (Option Json)) (expiry : Option ℕ)
      → P (credentials a)
      → Keeps (update_with o now p subject a session expiry)
  unfolding Keeps update_with
  update_with-keeps now p subject a none expiry h = on_raised
  update_with-keeps now p subject a (some session) none h = on_raised
  update_with-keeps now p subject a (some session) (some expiry) h = raise_if-Holds _ _ (λ ok.
      on_changed (
        subst P (sym (store_token-credentials o now p subject session expiry a))
          (pushed a subject p.token ok h)))

  update_token-keeps :
      (now : ℕ) (p : TokenPush Json) (a : Account Json)
      → P (credentials a)
      → Keeps (update_token o now p a)
  unfolding Keeps update_token
  update_token-keeps now p a h = refuse_if-Holds _ _ (λ fresh. update_with-keeps now p _ a _ _ h)

  renew_with-keeps :
      (now : ℕ) (r : PersonalRefresh Json) (a : Account Json) (session : Option Json)
      (expiry : Option ℕ)
      → r.account_id ≡ a.substrate_account_id
      → P (credentials a)
      → Keeps (renew_with o now r a session expiry)
  unfolding Keeps renew_with renew_personal
  renew_with-keeps now r a none expiry same h = on_refused
  renew_with-keeps now r a (some session) none same h = on_refused
  renew_with-keeps now r a (some session) (some expiry) same h = refuse_if-Holds _ _ (λ ok.
      on_changed (
        subst (λ s. P (record (credentials a) { token = r.token; substrate_account_id = s })) same
          (pushed a r.account_id r.token ok h)))

  set_consumer_auth-keeps :
      (now : ℕ) (p : ConsumerPush Json) (a : Account Json)
      → P (credentials a)
      → Keeps (set_consumer_auth o now p a)
  unfolding Keeps set_consumer_auth
  set_consumer_auth-keeps now p a h = refuse_if-Holds _ _ (λ fresh. raise_if-Holds _ _ (λ ok.
      on_changed (
        stored p.refresh_token
          (signed_in a (stated_or subject a.consumer_account_id) (strip p.access_token) ok h))))
    where
      subject : Option Text
      subject = normalized_subject o p.consumer_account_id

      stored :
          (refresh : Option Text)
          → P (record (credentials a) {
            consumer_token = strip p.access_token;
            consumer_account_id = stated_or subject a.consumer_account_id;
          })
          → P (
              credentials
                (store_consumer_auth o now (record p { refresh_token = refresh }) subject a))
      stored none k = subst P (sym (store_consumer_auth-credentials o now p subject a none)) k
      stored (some t) k =
          subst P (sym (store_consumer_auth-credentials o now p subject a (some t)))
            (consumer_granted _ (strip t) _ _ k)

  set_refresh_token-keeps :
      (now : ℕ) (g : RefreshGrant) (a : Account Json)
      → P (credentials a)
      → Keeps (set_refresh_token o now g a)
  unfolding Keeps set_refresh_token
  set_refresh_token-keeps now g a h = refuse_if-Holds _ _ (λ current. on_changed (
      if-splits (λ b. P (credentials b)) (is_protected o g a) a
        (store_refresh_token now (strip g.token) g a) (λ live. h)
        (λ other.
          subst P (sym (store_refresh_token-credentials now (strip g.token) g a))
            (granted (credentials a) (strip g.token) _ _ _ _ h))))

  apply_refresh_token_result-keeps :
      (now : ℕ) (r : Exchange) (a : Account Json)
      → good (refresh_result_call r) ≡ true
      → P (credentials a)
      → Keeps (apply_refresh_token_result o now r a)
  unfolding Keeps apply_refresh_token_result
  apply_refresh_token_result-keeps now r a g h = refuse_if-Holds _ _ (λ current. on_changed (
      subst P (sym (renew_token-credentials o now r a))
        (exchanged a r g ((text_eq_iff a.token r.expected_access_token).0 (ground arith)) h)))

  apply_consumer_refresh_result-keeps :
      (now : ℕ) (r : ConsumerExchange) (a : Account Json)
      → good (consumer_result_call r) ≡ true
      → P (credentials a)
      → Keeps (apply_consumer_refresh_result now r a)
  unfolding Keeps apply_consumer_refresh_result renew_consumer
  apply_consumer_refresh_result-keeps now r a g h = refuse_if-Holds _ _ (λ current. on_changed (
      consumer_exchanged a r g
        ((text_eq_iff a.consumer_token r.expected_consumer_token).0 (ground arith)) h))

  perform-keeps :
      (now : ℕ) (c : Call Json) (a : Account Json)
      → good c ≡ true
      → P (credentials a)
      → Keeps (perform o now c a)
  unfolding Keeps perform push_token apply_personal_substrate_refresh_result
      set_personal_substrate_refresh_error clear_token set_cookie_status set_cookies set_proxy_url
      set_throttled_until set_media_auth_token set_designer_auth_token set_media_seed_url
      defer_refresh_token set_consumer_refresh_token defer_consumer_refresh_token clear_credentials
      rename clear_studio_agent_binding clear_throttle_observation
  perform-keeps now (activate_protocol_call provider) a g h =
      keeps_same a _ h (activate_protocol-Same o now provider a)
  perform-keeps now (update_token_call p) a g h = update_token-keeps now p a h
  perform-keeps now (push_token_call p) a g h = update_token-keeps now (user_push p a) a h
  perform-keeps now (personal_refresh_call r) a g h = refuse_if-Holds _ _ (λ current.
      renew_with-keeps now r a _ _
        ((text_eq_iff r.account_id a.substrate_account_id).0 (ground arith)) h)
  perform-keeps now (personal_error_call code token epoch session) a g h =
      refuse_if-Holds _ _ (λ ok. on_changed h)
  perform-keeps now clear_token_call a g h = on_changed (cleared (credentials a) h)
  perform-keeps now (cookie_status_call valid source expires_at) a g h = on_changed h
  perform-keeps now (cookies_call cookies local_storage) a g h = on_changed h
  perform-keeps now (proxy_url_call url) a g h = refuse_if-Holds _ _ (λ ok. on_changed h)
  perform-keeps now (studio_agent_id_call agent_id) a g h =
      keeps_same a _ h (set_studio_agent_id-Same o now agent_id a)
  perform-keeps now (consumer_auth_call p) a g h = set_consumer_auth-keeps now p a h
  perform-keeps now (throttled_until_call when mode identity epoch) a g h =
      refuse_if-Holds _ _ (λ ok. on_changed h)
  perform-keeps now (clear_throttled_call mode started_at identity epoch) a g h =
      keeps_same a _ h (clear_throttled_until-Same o now mode started_at identity epoch a)
  perform-keeps now (media_auth_token_call token) a g h = on_changed h
  perform-keeps now (designer_auth_token_call token) a g h = on_changed h
  perform-keeps now (media_seed_url_call url) a g h = on_changed h
  perform-keeps now (refresh_token_call r) a g h = set_refresh_token-keeps now r a h
  perform-keeps now (defer_refresh_token_call expected retry_after) a g h =
      refuse_if-Holds _ _ (λ ok. on_changed h)
  perform-keeps now (refresh_result_call r) a g h = apply_refresh_token_result-keeps now r a g h
  perform-keeps now (consumer_refresh_token_call r) a g h = refuse_if-Holds _ _ (λ ok. on_changed (
      subst P (sym (store_consumer_refresh_token-credentials now (strip r.token) r a))
        (consumer_granted (credentials a) (strip r.token) _ _ h)))
  perform-keeps now (defer_consumer_call expected retry_after) a g h =
      refuse_if-Holds _ _ (λ ok. on_changed h)
  perform-keeps now (consumer_result_call r) a g h = apply_consumer_refresh_result-keeps now r a g h
  perform-keeps now clear_credentials_call a g h = on_changed (created [] [])
  perform-keeps now (rename_call name) a g h = on_changed h

  add_with-keeps :
      (now : ℕ) (key : Text) (n : NewAccount Json) (session : Option (Option Json))
      (expiry port : Option ℕ)
      → Keeps (add_with o now key n session expiry port)
  unfolding Keeps add_with new_account account
  add_with-keeps now key n (some session) (some expiry) (some port) = on_changed (created _ _)
  add_with-keeps now key n (some session) (some expiry) none = on_raised
  add_with-keeps now key n (some session) none port = on_raised
  add_with-keeps now key n none expiry port = on_raised

  -- Every account that a run of good calls leaves has credentials with the property.
  pub run-keeps :
      (calls : List (ℕ × StoreCall Json)) (key : Text)
      → all_calls (account_calls good) calls ≡ true
      → OnSome (λ a. P (credentials a)) (get key (run o calls account_store).accounts)
  unfolding Keeps account_calls get add_account
  run-keeps calls key g =
      run-OnSome o key (λ a. P (credentials a)) (account_calls good) perform-keeps
        (λ now n s ok. add_with-keeps now key n _ _ _) calls account_store g tt
