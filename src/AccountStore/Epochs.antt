-- ===== src/AccountStore/Epochs.antt =====
-- The protocol epoch: what a request that remembers it may rely on.
use ciallo_ms_365_open_ai_pr.Prelude.{
  ℕ, ◌≤◌, ◌≡◌, refl, ◌∙◌, inl, inr, true, Option, none, some, List, eqb, arith, Key, Bool-cases,
}
use ciallo_ms_365_open_ai_pr.Prelude.Text.{Text, text_key}
use ciallo_ms_365_open_ai_pr.Dict.{get}
use ciallo_ms_365_open_ai_pr.AccountStore.{
  Provider, m365, consumer, same_provider, Outside, Account,
}
use ciallo_ms_365_open_ai_pr.AccountStore.Identity.{
  clear_studio_binding_if_subject_changed, clear_studio_agent_binding, clear_throttle_observation,
}
use ciallo_ms_365_open_ai_pr.AccountStore.Protocol.{activate_protocol}
use ciallo_ms_365_open_ai_pr.AccountStore.Tokens.{
  TokenPush, pin_subject, forget_capture, set_expiry, activate_m365, relabel, store_capture,
  store_token, update_with, update_token, user_push, push_token,
}
use ciallo_ms_365_open_ai_pr.AccountStore.Personal.{
  PersonalRefresh, renew_personal, renew_with, apply_personal_substrate_refresh_result,
  set_personal_substrate_refresh_error, clear_token,
}
use ciallo_ms_365_open_ai_pr.AccountStore.Slots.{
  set_cookie_status, set_cookies, set_proxy_url, bind_studio_agent, set_studio_agent_id,
  set_media_auth_token, set_designer_auth_token, set_media_seed_url, rename, set_throttled_until,
  clear_throttled_until,
}
use ciallo_ms_365_open_ai_pr.AccountStore.Grants.{
  store_refresh_token, set_refresh_token, defer_refresh_token, renew_token,
  apply_refresh_token_result, store_consumer_refresh_token, set_consumer_refresh_token,
  defer_consumer_refresh_token, renew_consumer, apply_consumer_refresh_result,
}
use ciallo_ms_365_open_ai_pr.AccountStore.ConsumerAuth.{
  ConsumerPush, change_subject, activate_consumer, store_grant, store_stated_grant,
  store_consumer_auth, set_consumer_auth, clear_credentials,
}
use ciallo_ms_365_open_ai_pr.AccountStore.Pool.{AccountStore, is_current, is_protocol_current}
use mathlib.Core.Path.{subst}
use ciallo_ms_365_open_ai_pr.AccountStore.Calls.{
  Call, StoreCall, run, activate_protocol_call, update_token_call, push_token_call,
  personal_refresh_call, personal_error_call, clear_token_call, cookie_status_call, cookies_call,
  proxy_url_call, studio_agent_id_call, consumer_auth_call, throttled_until_call,
  clear_throttled_call, media_auth_token_call, designer_auth_token_call, media_seed_url_call,
  refresh_token_call, defer_refresh_token_call, refresh_result_call, consumer_refresh_token_call,
  defer_consumer_call, consumer_result_call, clear_credentials_call, rename_call, perform,
}
use ciallo_ms_365_open_ai_pr.AccountStore.Kept.{
  adds_elsewhere, all_calls, run-kept, Holds-weaken, Holds, on_refused, on_raised, on_changed,
  OnSome, refuse_if-Holds, raise_if-Holds, if-Holds,
}

same_provider_refl : (p : Provider) → same_provider p p ≡ true
same_provider_refl m365 = refl
same_provider_refl consumer = refl

module _ {Json : Type 0} where
  -- The epoch did not go back, where it stayed the provider did too, and the port is the same.
  abbrev pub Follows : Account Json → Account Json → Type 0
  Follows a b =
      (a.protocol_epoch ≤ b.protocol_epoch)
      × (a.protocol_epoch ≡ b.protocol_epoch → b.provider ≡ a.provider)
      × (b.cdp_port ≡ a.cdp_port)

  store_stated_grant-Follows :
      (now : ℕ) (refresh : Option Text) (p : ConsumerPush Json) (a b : Account Json)
      → Follows a b
      → Follows a (store_stated_grant now refresh p b)
  unfolding store_stated_grant store_grant
  store_stated_grant-Follows now none p a b h = h
  store_stated_grant-Follows now (some refresh) p a b h = h

module _ {Json : Type 0} ⦃e : Key Json⦄ (o : Outside Json) where
  update_with-Follows :
      (now : ℕ) (p : TokenPush Json) (subject : Text) (a : Account Json)
      (session : Option (Option Json)) (expiry : Option ℕ)
      → Holds (Follows a) (update_with o now p subject a session expiry)
  unfolding update_with store_token store_capture pin_subject activate_m365 set_expiry
      forget_capture relabel clear_studio_binding_if_subject_changed clear_studio_agent_binding
  update_with-Follows now p subject a none expiry = on_raised
  update_with-Follows now p subject a (some session) none = on_raised
  update_with-Follows now p subject a (some session) (some expiry) =
      raise_if-Holds _ _ (λ ok. on_changed (ground arith, λ h. ground arith, ground arith))

  update_token-Follows :
      (now : ℕ) (p : TokenPush Json) (a : Account Json) → Holds (Follows a) (update_token o now p a)
  unfolding update_token
  update_token-Follows now p a = refuse_if-Holds _ _ (λ ok. update_with-Follows now p _ a _ _)

  renew_with-Follows :
      (now : ℕ) (r : PersonalRefresh Json) (a : Account Json) (session : Option Json)
      (expiry : Option ℕ)
      → Holds (Follows a) (renew_with o now r a session expiry)
  unfolding renew_with renew_personal
  renew_with-Follows now r a none expiry = on_refused
  renew_with-Follows now r a (some session) none = on_refused
  renew_with-Follows now r a (some session) (some expiry) =
      refuse_if-Holds _ _ (λ ok. on_changed (omega arith, λ h. refl, refl))

  set_studio_agent_id-Follows :
      (now : ℕ) (agent_id : Text) (a : Account Json)
      → Holds (Follows a) (set_studio_agent_id o now agent_id a)
  unfolding set_studio_agent_id bind_studio_agent clear_studio_agent_binding
  set_studio_agent_id-Follows now agent_id a = raise_if-Holds _ _ (λ ok.
      if-Holds _ _ _ (on_changed (omega arith, λ h. refl, refl))
        (raise_if-Holds _ _ (λ bound. on_changed (omega arith, λ h. refl, refl))))

  set_consumer_auth-Follows :
      (now : ℕ) (p : ConsumerPush Json) (a : Account Json)
      → Holds (Follows a) (set_consumer_auth o now p a)
  unfolding set_consumer_auth store_consumer_auth change_subject activate_consumer
      clear_throttle_observation
  set_consumer_auth-Follows now p a = refuse_if-Holds _ _ (λ fresh. raise_if-Holds _ _ (λ ok.
      on_changed (
        store_stated_grant-Follows now p.refresh_token p a _
          (ground arith, λ h. ground arith, ground arith))))

  -- No method takes the epoch back or changes the port, and only one that moves the epoch on changes
  -- the provider.
  pub perform-Follows :
      (now : ℕ) (c : Call Json) (a : Account Json) → Holds (Follows a) (perform o now c a)
  unfolding perform activate_protocol push_token apply_personal_substrate_refresh_result
      set_personal_substrate_refresh_error clear_token set_cookie_status set_cookies set_proxy_url
      set_throttled_until clear_throttled_until set_media_auth_token set_designer_auth_token
      set_media_seed_url set_refresh_token store_refresh_token defer_refresh_token
      apply_refresh_token_result renew_token set_consumer_refresh_token store_consumer_refresh_token
      defer_consumer_refresh_token apply_consumer_refresh_result renew_consumer clear_credentials
      rename relabel forget_capture clear_studio_binding_if_subject_changed
      clear_studio_agent_binding clear_throttle_observation
  perform-Follows now (activate_protocol_call none) a =
      raise_if-Holds _ _ (λ ok. on_changed (omega arith, λ h. refl, refl))
  perform-Follows now (activate_protocol_call (some provider)) a =
      raise_if-Holds _ _ (λ ok. on_changed (ground arith, λ h. ground arith, ground arith))
  perform-Follows now (update_token_call p) a = update_token-Follows now p a
  perform-Follows now (push_token_call p) a = update_token-Follows now (user_push p a) a
  perform-Follows now (personal_refresh_call r) a =
      refuse_if-Holds _ _ (λ ok. renew_with-Follows now r a _ _)
  perform-Follows now (personal_error_call code token epoch session) a =
      refuse_if-Holds _ _ (λ ok. on_changed (omega arith, λ h. refl, refl))
  perform-Follows now clear_token_call a = on_changed (omega arith, λ h. refl, refl)
  perform-Follows now (cookie_status_call valid source expires_at) a =
      on_changed (omega arith, λ h. refl, refl)
  perform-Follows now (cookies_call cookies local_storage) a =
      on_changed (omega arith, λ h. refl, refl)
  perform-Follows now (proxy_url_call url) a =
      refuse_if-Holds _ _ (λ ok. on_changed (omega arith, λ h. refl, refl))
  perform-Follows now (studio_agent_id_call agent_id) a = set_studio_agent_id-Follows now agent_id a
  perform-Follows now (consumer_auth_call p) a = set_consumer_auth-Follows now p a
  perform-Follows now (throttled_until_call when mode identity epoch) a =
      refuse_if-Holds _ _ (λ ok. on_changed (omega arith, λ h. refl, refl))
  perform-Follows now (clear_throttled_call mode started_at identity epoch) a =
      refuse_if-Holds _ _ (λ ok. on_changed (ground arith, λ h. ground arith, ground arith))
  perform-Follows now (media_auth_token_call token) a = on_changed (omega arith, λ h. refl, refl)
  perform-Follows now (designer_auth_token_call token) a = on_changed (omega arith, λ h. refl, refl)
  perform-Follows now (media_seed_url_call url) a = on_changed (omega arith, λ h. refl, refl)
  perform-Follows now (refresh_token_call g) a =
      refuse_if-Holds _ _ (λ ok. on_changed (ground arith, λ h. ground arith, ground arith))
  perform-Follows now (defer_refresh_token_call expected retry_after) a =
      refuse_if-Holds _ _ (λ ok. on_changed (omega arith, λ h. refl, refl))
  perform-Follows now (refresh_result_call r) a =
      refuse_if-Holds _ _ (λ ok. on_changed (ground arith, λ h. ground arith, ground arith))
  perform-Follows now (consumer_refresh_token_call g) a =
      refuse_if-Holds _ _ (λ ok. on_changed (ground arith, λ h. ground arith, ground arith))
  perform-Follows now (defer_consumer_call expected retry_after) a =
      refuse_if-Holds _ _ (λ ok. on_changed (omega arith, λ h. refl, refl))
  perform-Follows now (consumer_result_call r) a =
      refuse_if-Holds _ _ (λ ok. on_changed (omega arith, λ h. refl, refl))
  perform-Follows now clear_credentials_call a =
      on_changed (omega arith, λ h. ground arith, ground arith)
  perform-Follows now (rename_call name) a = on_changed (omega arith, λ h. refl, refl)

module _ {Json : Type 0} where
  pub Follows-trans : (a b c : Account Json) → Follows a b → Follows b c → Follows a c
  Follows-trans a b c h k = (
    omega (arith, h.0, k.0),
    λ same. k.1 (omega (arith, h.0, k.0, same)) ∙ h.1 (omega (arith, h.0, k.0, same)),
    k.2 ∙ h.2,
  )

  pub OnSome_at :
      (P : Account Json → Type 0) (x : Option (Account Json)) (a : Account Json)
      → x ≡ some a
      → OnSome P x
      → P a
  OnSome_at P x a h p = subst (λ x. OnSome P x) h p

module _ {Json : Type 0} ⦃e : Key Json⦄ (o : Outside Json) where
  -- What `perform-Follows` says, over a run.
  pub run-Follows :
      (key : Text) (s : AccountStore Json) (calls : List (ℕ × StoreCall Json)) (a : Account Json)
      → all_calls (adds_elsewhere key) calls ≡ true
      → get key s.accounts ≡ some a
      → OnSome (Follows a) (get key (run o calls s).accounts)
  run-Follows key s calls a elsewhere before =
      run-kept o key (Follows a)
        (λ now c b h. Holds-weaken (λ d k. Follows-trans a b d h k) (perform-Follows o now c b))
        calls s elsewhere (rw before (omega arith, λ h. refl, refl))

  current_at :
      (x : Option (Account Json)) (a b : Account Json)
      → x ≡ some b
      → Follows a b
      → is_current a.protocol_epoch a.provider x ≡ eqb b.protocol_epoch a.protocol_epoch
  unfolding is_current
  current_at x a b h k = elim (Bool-cases (eqb b.protocol_epoch a.protocol_epoch)) [
    | inl same ↦ rw (h, same, k.1 (ground arith)) (same_provider_refl a.provider)
    | inr other ↦ rw (h, other)
  ]

  -- Over any run that does not add the account again, its epoch never goes back, and
  -- `is_protocol_current` for the remembered epoch and provider asks for nothing but the same epoch.
  pub run-is_protocol_current :
      (key : Text) (s : AccountStore Json) (calls : List (ℕ × StoreCall Json)) (a b : Account Json)
      → all_calls (adds_elsewhere key) calls ≡ true
      → get key s.accounts ≡ some a
      → get key (run o calls s).accounts ≡ some b
      → (a.protocol_epoch ≤ b.protocol_epoch)
        × (is_protocol_current key a.protocol_epoch a.provider (run o calls s)
            ≡ eqb b.protocol_epoch a.protocol_epoch)
  unfolding is_protocol_current
  run-is_protocol_current key s calls a b elsewhere before after =
      let follows =
        OnSome_at (Follows a) (get key (run o calls s).accounts) b after
          (run-Follows key s calls a elsewhere before) in
      (follows.0, current_at (get key (run o calls s).accounts) a b after follows)
