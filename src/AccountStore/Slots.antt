-- ===== src/AccountStore/Slots.antt =====
-- account_store.py: what is set on an account beside its tokens: the browser's cookies, the proxy,
-- the Studio agent, the media tokens, its name, and the reset that the upstream last announced.
use ciallo_ms_365_open_ai_pr.Prelude.{
  ℕ, Bool, false, not, ◌&&◌, ◌||◌, Option, none, some, List, [], eqb, leb, if◌then◌else◌, select,
}
use ciallo_ms_365_open_ai_pr.Prelude.Int.{ℤ, pos_part}
use ciallo_ms_365_open_ai_pr.Prelude.Text.{Text, text_eq, is_empty, strip}
use ciallo_ms_365_open_ai_pr.Dict.{Dict}
use ciallo_ms_365_open_ai_pr.AccountStore.{
  Provider, is_m365, same_provider, TokenSource, Outside, Account, Change, changed, refuse_if,
  raise_if, is_stale, stated_or,
}
use ciallo_ms_365_open_ai_pr.AccountStore.Identity.{
  studio_subject, normalize_studio_agent_id, clear_studio_agent_binding, clear_throttle_observation,
}

-- `expected_identity`, against `(acc.provider, acc.consumer_account_id)`
unfoldable pub same_identity : {Json : Type 0} → Provider × Text → Account Json → Bool
same_identity expected a =
    same_provider a.provider expected.0 && text_eq a.consumer_account_id expected.1

module _ {Json : Type 0} where
  unfoldable pub set_cookie_status : ℕ → Bool → Option TokenSource → ℕ → Account Json → Change Json
  unfolding stated_or
  set_cookie_status now valid token_source expires_at a = changed (record a {
    cookie_valid = valid;
    cookie_updated_at = if valid then now else 0;
    cookie_expires_at = if valid then expires_at else 0;
    token_source = stated_or token_source a.token_source;
    updated_at = now;
  })

  unfoldable pub set_media_auth_token : ℕ → Text → Account Json → Change Json
  unfolding strip
  set_media_auth_token now token a = changed (record a {
    media_auth_token = strip token;
    media_auth_updated_at = if is_empty (strip token) then 0 else now;
    updated_at = now;
  })

  unfoldable pub set_designer_auth_token : ℕ → Text → Account Json → Change Json
  unfolding strip
  set_designer_auth_token now token a = changed (record a {
    designer_auth_token = strip token;
    designer_auth_updated_at = if is_empty (strip token) then 0 else now;
    updated_at = now;
  })

  unfoldable pub set_media_seed_url : ℕ → Text → Account Json → Change Json
  unfolding strip
  set_media_seed_url now url a = changed (record a { media_seed_url = strip url; updated_at = now })

  unfoldable pub rename : ℕ → Text → Account Json → Change Json
  rename now name a = changed (record a { name = name; updated_at = now })

  -- `expected_identity is not None and (...) != expected_identity`
  unfoldable pub is_other : Option (Provider × Text) → Account Json → Bool
  unfolding same_identity
  is_other none a = false
  is_other (some expected) a = not (same_identity expected a)

  unfoldable pub set_throttled_until :
      ℕ → ℤ → Text → Option (Provider × Text) → Option ℕ → Account Json → Change Json
  unfolding is_stale is_other
  set_throttled_until now when mode expected_identity expected_epoch a =
      let until = pos_part when in
      refuse_if (is_stale expected_epoch a.protocol_epoch || is_other expected_identity a) (
        changed (record a {
          throttled_until = until;
          throttled_mode = if eqb until 0 then [] else mode;
          throttled_at = if eqb until 0 then 0 else now;
          updated_at = now;
        }))

  unfoldable pub clear_throttled_until :
      ℕ → Text → ℕ → Provider × Text → Option ℕ → Account Json → Change Json
  unfolding is_stale same_identity clear_throttle_observation
  clear_throttled_until now mode started_at expected_identity expected_epoch a =
      refuse_if
        (not (same_identity expected_identity a) || is_stale expected_epoch a.protocol_epoch)
        (changed (
          if eqb a.throttled_until 0
            || (not (is_empty a.throttled_mode) && not (text_eq a.throttled_mode mode))
            || leb started_at a.throttled_at
          then a
          else record (clear_throttle_observation a) { updated_at = now }))

module _ {Json : Type 0} (o : Outside Json) where
  -- `set_cookies`; an empty or missing `local_storage` is `none`.
  unfoldable pub set_cookies : ℕ → List Json → Option (Dict Text Text) → Account Json → Change Json
  unfolding stated_or
  set_cookies now cookies local_storage a = changed (record a {
    cookies = select o.is_dict cookies;
    local_storage = stated_or local_storage a.local_storage;
    updated_at = now;
  })

  unfoldable pub set_proxy_url : ℕ → Text → Account Json → Change Json
  unfolding strip
  set_proxy_url now proxy_url a =
      let raw = strip proxy_url in
      let normalized = o.normalize_proxy_url raw in
      refuse_if (not (is_empty raw) && is_empty normalized)
        (changed (record a { proxy_url = normalized; updated_at = now }))

  -- The binding that `set_studio_agent_id` stores.
  unfoldable pub bind_studio_agent : ℕ → Text → Account Json → Change Json
  unfolding studio_subject
  bind_studio_agent now agent_id a =
      let subject = studio_subject o a.token in
      raise_if (not (is_m365 a.provider) || is_empty subject.0 || is_empty subject.1) (
        changed (record a {
          studio_agent_id = agent_id;
          studio_agent_tenant_id = subject.0;
          studio_agent_object_id = subject.1;
          updated_at = now;
        }))

  unfoldable pub set_studio_agent_id : ℕ → Text → Account Json → Change Json
  unfolding strip normalize_studio_agent_id clear_studio_agent_binding bind_studio_agent
  set_studio_agent_id now agent_id a =
      let raw = strip agent_id in
      let normalized = normalize_studio_agent_id raw in
      raise_if (not (is_empty raw) && is_empty normalized) (
        if is_empty normalized
        then changed (record (clear_studio_agent_binding a) { updated_at = now })
        else bind_studio_agent now normalized a)
