-- ===== src/AccountStore/Tokens.antt =====
-- account_store.py: the Substrate token of an account: what a push stores, a renewed personal token,
-- and clearing it.
use ciallo_ms_365_open_ai_pr.Prelude.{
  ℕ, ◌+◌, Bool, not, ◌&&◌, ◌||◌, Option, none, some, [], eqb, ltb, if◌then◌else◌, is_some,
}
use ciallo_ms_365_open_ai_pr.Prelude.Text.{Text, text_eq, is_empty}
use ciallo_ms_365_open_ai_pr.AccountStore.{
  m365, is_m365, TokenSource, manual, is_cdp, Stamp, Outside, Account, Change, raised, changed,
  refuse_if, raise_if, is_stale, stated_or,
}
use ciallo_ms_365_open_ai_pr.AccountStore.Identity.{
  studio_subject, normalize_consumer_account_id, normalize_personal_substrate_expiry,
  substrate_display_email, extract_identity, clear_studio_binding_if_subject_changed,
}
use ciallo_ms_365_open_ai_pr.AccountStore.Protocol.{pair_mismatch}

-- The arguments of `update_token`; `none` is `None`.
pub record TokenPush (Json : Type 0) : Type 0 where
  pub token : Text
  pub token_source : Option TokenSource
  pub display_email : Option Text
  pub substrate_account_id : Option Text
  pub activate : Bool
  pub expected_epoch : Option ℕ
  pub session : Option Json
  pub expires_at : Stamp

-- `name or kept`
unfoldable pub or_kept : Text → Text → Text
or_kept new kept = if is_empty new then kept else new

module _ {Json : Type 0} where
  -- The new subject; a stored token of another subject ends the epoch.
  unfoldable pub pin_subject : Text → Account Json → Account Json
  pin_subject subject a = record a {
    protocol_epoch =
        if not (is_empty a.token) && not (text_eq a.substrate_account_id subject)
        then a.protocol_epoch + 1
        else a.protocol_epoch;
    substrate_account_id = subject;
  }

  unfoldable pub forget_capture : Account Json → Account Json
  forget_capture a = record a {
    personal_substrate_session = none;
    substrate_token_expires_at = 0;
    personal_substrate_refresh_error = [];
  }

  -- The branches under `if personal`, by whether the token is the stored one.
  unfoldable pub set_expiry : Bool → ℕ → Account Json → Account Json
  set_expiry same_token expiry a =
      if not same_token
      then record a { substrate_token_expires_at = expiry; personal_substrate_refresh_error = [] }
      else if ltb 0 expiry
          && (eqb a.substrate_token_expires_at 0 || ltb expiry a.substrate_token_expires_at)
      then record a { substrate_token_expires_at = expiry }
      else a

  -- `activate and acc.provider != "m365"`
  unfoldable pub activate_m365 : Bool → Account Json → Account Json
  activate_m365 activate a =
      if activate && not (is_m365 a.provider)
      then record a { provider = m365; protocol_epoch = a.protocol_epoch + 1 }
      else a

  -- The call of `update_token` in `push_token`: no epoch, and `cdp` of a live browser profile stays.
  unfoldable pub user_push : TokenPush Json → Account Json → TokenPush Json
  user_push p a = record p {
    token_source = if is_cdp a.token_source && a.cookie_valid then none else some manual;
    expected_epoch = none;
  }

module _ {Json : Type 0} (o : Outside Json) where
  -- `_validate_personal_material`: `none` where it raises.
  unfoldable pub validate_personal_material : Text → Text → Option Json → Option (Option Json)
  validate_personal_material token subject none = some none
  validate_personal_material token subject (some session) =
      if not (o.is_valid_substrate_jwe token)
      then none
      else elim (o.normalize_session session subject) [ none ↦ none | some s ↦ some (some s) ]

  -- The expiry that comes with a token: read for a personal one only.
  unfoldable pub token_expiry : Text → Stamp → Option ℕ
  unfolding normalize_personal_substrate_expiry
  token_expiry token expires_at =
      if o.is_valid_substrate_jwe token
      then normalize_personal_substrate_expiry expires_at
      else some 0

  -- The JWT subject of the stored token is there, and the new token has the same one.
  unfoldable pub keeps_subject : Text → Text → Bool
  unfolding studio_subject
  keeps_subject old new =
      not (is_empty (studio_subject o old).0)
      && text_eq (studio_subject o old).0 (studio_subject o new).0
      && text_eq (studio_subject o old).1 (studio_subject o new).1

  -- `subject`
  unfoldable pub pushed_subject : Option Text → Text → Account Json → Text
  unfolding normalize_consumer_account_id keeps_subject
  pushed_subject (some value) token a = normalize_consumer_account_id o value
  pushed_subject none token a =
      if text_eq token a.token || keeps_subject a.token token then a.substrate_account_id else []

  -- The labels that a token carries replace the stored ones.
  unfoldable pub relabel : Text → Account Json → Account Json
  unfolding extract_identity or_kept
  relabel token a =
      let identity = extract_identity o token in
      record a { email = or_kept identity.1 a.email; name = or_kept identity.0 a.name }

  -- `update_token` from the capture to the token.
  unfoldable pub store_capture :
      ℕ → TokenPush Json → Text → Option Json → ℕ → Account Json → Account Json
  unfolding pin_subject forget_capture set_expiry substrate_display_email stated_or
  store_capture now p subject session expiry a =
      let personal = o.is_valid_substrate_jwe p.token in
      let same_token = text_eq p.token a.token in
      let same_subject = not (is_empty subject) && text_eq subject a.substrate_account_id in
      let pinned = pin_subject subject a in
      let kept = if not same_subject || not personal then forget_capture pinned else pinned in
      let captured =
        if is_some p.session then record kept { personal_substrate_session = session } else kept in
      let dated = if personal then set_expiry same_token expiry captured else captured in
      record dated {
        substrate_display_email =
            if not same_token || is_some p.display_email
            then substrate_display_email o p.token p.display_email
            else a.substrate_display_email;
        token = p.token;
        token_updated_at = if not same_token || not personal then now else a.token_updated_at;
      }

  -- The rest of `update_token`.
  unfoldable pub store_token :
      ℕ → TokenPush Json → Text → Option Json → ℕ → Account Json → Account Json
  unfolding store_capture activate_m365 clear_studio_binding_if_subject_changed relabel
  store_token now p subject session expiry a =
      let active = activate_m365 p.activate (store_capture now p subject session expiry a) in
      let labelled = relabel p.token (clear_studio_binding_if_subject_changed o p.token active) in
      record labelled {
        token_source = stated_or p.token_source labelled.token_source;
        updated_at = now;
      }

  -- `update_token` by what the checks of its material answer.
  unfoldable pub update_with :
      ℕ → TokenPush Json → Text → Account Json → Option (Option Json) → Option ℕ → Change Json
  unfolding pair_mismatch store_token
  update_with now p subject a none expiry = raised
  update_with now p subject a (some session) none = raised
  update_with now p subject a (some session) (some expiry) =
      raise_if (pair_mismatch o a m365 subject p.token)
        (changed (store_token now p subject session expiry a))

  unfoldable pub update_token : ℕ → TokenPush Json → Account Json → Change Json
  unfolding is_stale pushed_subject validate_personal_material token_expiry update_with
  update_token now p a =
      let subject = pushed_subject p.substrate_account_id p.token a in
      refuse_if (is_stale p.expected_epoch a.protocol_epoch) (
        update_with now p subject a (validate_personal_material p.token subject p.session)
          (token_expiry p.token p.expires_at))

  unfoldable pub push_token : ℕ → TokenPush Json → Account Json → Change Json
  unfolding user_push update_token
  push_token now p a = update_token now (user_push p a) a
