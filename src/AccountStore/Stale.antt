-- ===== src/AccountStore/Stale.antt =====
-- What carries an epoch that has ended is refused.
use ciallo_ms_365_open_ai_pr.Prelude.{
  ℕ, ◌≤◌, ◌<◌, ◌≡◌, refl, Bool, true, Option, none, some, List, arith, Key, same_refl,
}
use ciallo_ms_365_open_ai_pr.Prelude.Text.{Text, text_key}
use ciallo_ms_365_open_ai_pr.Dict.{get, get-put}
use ciallo_ms_365_open_ai_pr.AccountStore.{
  Outside, Account, Change, refused, changed, refuse_if, is_stale,
}
use ciallo_ms_365_open_ai_pr.AccountStore.Tokens.{update_token}
use ciallo_ms_365_open_ai_pr.AccountStore.Personal.{
  is_superseded, apply_personal_substrate_refresh_result, set_personal_substrate_refresh_error,
  clear_token,
}
use ciallo_ms_365_open_ai_pr.AccountStore.Slots.{set_throttled_until, clear_throttled_until}
use ciallo_ms_365_open_ai_pr.AccountStore.Grants.{
  apply_refresh_token_result, apply_consumer_refresh_result,
}
use ciallo_ms_365_open_ai_pr.AccountStore.ConsumerAuth.{set_consumer_auth, clear_credentials}
use ciallo_ms_365_open_ai_pr.AccountStore.Pool.{AccountStore, commit}
use ciallo_ms_365_open_ai_pr.AccountStore.Calls.{
  Call, activate_protocol_call, update_token_call, push_token_call, personal_refresh_call,
  personal_error_call, clear_token_call, cookie_status_call, cookies_call, proxy_url_call,
  studio_agent_id_call, consumer_auth_call, throttled_until_call, clear_throttled_call,
  media_auth_token_call, designer_auth_token_call, media_seed_url_call, refresh_token_call,
  defer_refresh_token_call, refresh_result_call, consumer_refresh_token_call, defer_consumer_call,
  consumer_result_call, clear_credentials_call, rename_call, perform, perform_at, StoreCall,
  account_call, step, run,
}
use ciallo_ms_365_open_ai_pr.AccountStore.Kept.{OnSome, adds_elsewhere, all_calls}
use ciallo_ms_365_open_ai_pr.AccountStore.Epochs.{Follows, run-Follows}

-- The epoch that a call carries.
unfoldable pub epoch_of : {Json : Type 0} → Call Json → Option ℕ
epoch_of (activate_protocol_call provider) = none
epoch_of (update_token_call p) = p.expected_epoch
epoch_of (push_token_call p) = none
epoch_of (personal_refresh_call r) = some r.expected_epoch
epoch_of (personal_error_call code token epoch session) = some epoch
epoch_of clear_token_call = none
epoch_of (cookie_status_call valid source expires_at) = none
epoch_of (cookies_call cookies local_storage) = none
epoch_of (proxy_url_call url) = none
epoch_of (studio_agent_id_call agent_id) = none
epoch_of (consumer_auth_call p) = p.expected_epoch
epoch_of (throttled_until_call when mode identity epoch) = epoch
epoch_of (clear_throttled_call mode started_at identity epoch) = epoch
epoch_of (media_auth_token_call token) = none
epoch_of (designer_auth_token_call token) = none
epoch_of (media_seed_url_call url) = none
epoch_of (refresh_token_call g) = none
epoch_of (defer_refresh_token_call expected retry_after) = none
epoch_of (refresh_result_call r) = r.expected_epoch
epoch_of (consumer_refresh_token_call g) = none
epoch_of (defer_consumer_call expected retry_after) = none
epoch_of (consumer_result_call r) = r.expected_epoch
epoch_of clear_credentials_call = none
epoch_of (rename_call name) = none

-- The two ways to log an account out.
pub data Logout : Type 0 where
  of_token : Logout
  of_all : Logout

abbrev pub logout_call : {Json : Type 0} → Logout → Call Json
logout_call of_token = clear_token_call
logout_call of_all = clear_credentials_call

stale_refused :
    (expected : Option ℕ) (n epoch : ℕ)
    → expected ≡ some n
    → n < epoch
    → is_stale expected epoch ≡ true
unfolding is_stale
stale_refused none n epoch h lt = cc
stale_refused (some m) n epoch h lt = ground (arith, m≡n)
  where
    m≡n : m ≡ n
    m≡n = cc

module _ {Json : Type 0} where
  refuse_if-true : (b : Bool) (c : Change Json) → b ≡ true → refuse_if b c ≡ refused
  unfolding refuse_if
  refuse_if-true b c h = rw h

module _ {Json : Type 0} ⦃e : Key Json⦄ (o : Outside Json) where
  -- A call that carries an epoch before the account's is refused.
  perform-stale :
      (now : ℕ) (c : Call Json) (a : Account Json) (n : ℕ)
      → epoch_of c ≡ some n
      → n < a.protocol_epoch
      → perform o now c a ≡ refused
  unfolding perform epoch_of update_token apply_personal_substrate_refresh_result
      set_personal_substrate_refresh_error set_throttled_until clear_throttled_until
      apply_refresh_token_result apply_consumer_refresh_result set_consumer_auth is_superseded
  perform-stale now (activate_protocol_call provider) a n h lt = cc
  perform-stale now (update_token_call p) a n h lt =
      refuse_if-true _ _ (stale_refused p.expected_epoch n a.protocol_epoch h lt)
  perform-stale now (push_token_call p) a n h lt = cc
  perform-stale now (personal_refresh_call r) a n h lt =
      let same : r.expected_epoch ≡ n = cc in refuse_if-true _ _ (ground arith)
  perform-stale now (personal_error_call code token epoch session) a n h lt =
      let same : epoch ≡ n = cc in refuse_if-true _ _ (ground arith)
  perform-stale now clear_token_call a n h lt = cc
  perform-stale now (cookie_status_call valid source expires_at) a n h lt = cc
  perform-stale now (cookies_call cookies local_storage) a n h lt = cc
  perform-stale now (proxy_url_call url) a n h lt = cc
  perform-stale now (studio_agent_id_call agent_id) a n h lt = cc
  perform-stale now (consumer_auth_call p) a n h lt =
      refuse_if-true _ _ (rw (stale_refused p.expected_epoch n a.protocol_epoch h lt))
  perform-stale now (throttled_until_call when mode identity epoch) a n h lt =
      refuse_if-true _ _ (rw (stale_refused epoch n a.protocol_epoch h lt))
  perform-stale now (clear_throttled_call mode started_at identity epoch) a n h lt =
      refuse_if-true _ _ (ground (arith, stale_refused epoch n a.protocol_epoch h lt))
  perform-stale now (media_auth_token_call token) a n h lt = cc
  perform-stale now (designer_auth_token_call token) a n h lt = cc
  perform-stale now (media_seed_url_call url) a n h lt = cc
  perform-stale now (refresh_token_call g) a n h lt = cc
  perform-stale now (defer_refresh_token_call expected retry_after) a n h lt = cc
  perform-stale now (refresh_result_call r) a n h lt =
      refuse_if-true _ _ (ground (arith, stale_refused r.expected_epoch n a.protocol_epoch h lt))
  perform-stale now (consumer_refresh_token_call g) a n h lt = cc
  perform-stale now (defer_consumer_call expected retry_after) a n h lt = cc
  perform-stale now (consumer_result_call r) a n h lt =
      refuse_if-true _ _ (ground (arith, stale_refused r.expected_epoch n a.protocol_epoch h lt))
  perform-stale now clear_credentials_call a n h lt = cc
  perform-stale now (rename_call name) a n h lt = cc

  OnSome-map :
      (P Q : Account Json → Type 0)
      → ((a : Account Json) → P a → Q a)
      → (x : Option (Account Json)) → OnSome P x
      → OnSome Q x
  OnSome-map P Q f none h = tt
  OnSome-map P Q f (some a) h = f a h

  perform_at-stale :
      (now : ℕ) (c : Call Json) (n : ℕ) (x : Option (Account Json))
      → epoch_of c ≡ some n
      → OnSome (λ b. n < b.protocol_epoch) x
      → perform_at o now c x ≡ refused
  unfolding perform_at
  perform_at-stale now c n none h lt = refl
  perform_at-stale now c n (some b) h lt = perform-stale now c b n h lt

  step-refused :
      (key : Text) (now : ℕ) (c : Call Json) (s : AccountStore Json)
      → perform_at o now c (get key s.accounts) ≡ refused
      → step o now (account_call key c) s ≡ s
  unfolding step commit
  step-refused key now c s h = rw h

  logged_out-epoch :
      (now : ℕ) (l : Logout) (a : Account Json)
      → (b : Account Json) × (perform o now (logout_call l) a ≡ changed b)
        × (a.protocol_epoch < b.protocol_epoch)
  unfolding perform clear_token clear_credentials
  logged_out-epoch now of_token a = (_, refl, omega arith)
  logged_out-epoch now of_all a = (_, refl, omega arith)

  after_logout :
      (key : Text) (now : ℕ) (l : Logout) (s : AccountStore Json) (a : Account Json)
      → get key s.accounts ≡ some a
      → (b : Account Json) × (get key (step o now (account_call key (logout_call l)) s).accounts
          ≡ some b)
        × (a.protocol_epoch < b.protocol_epoch)
  unfolding step perform_at commit
  after_logout key now l s a before =
      let done = logged_out-epoch now l a in
      (done.0, rw (before, done.1, get-put key key done.0 s.accounts, same_refl key), done.2)

  -- After a logout, whatever other calls follow, a call that carries an epoch up to the one that the
  -- logout ended leaves the store as it is, as long as no account is added under the key.
  pub logout-stale :
      (key : Text) (s : AccountStore Json) (a : Account Json) (before : ℕ) (l : Logout)
      (calls : List (ℕ × StoreCall Json)) (now : ℕ) (c : Call Json) (n : ℕ)
      → get key s.accounts ≡ some a
      → all_calls (adds_elsewhere key) calls ≡ true
      → epoch_of c ≡ some n
      → n ≤ a.protocol_epoch
      → step o now
          (account_call key c)
          (run o calls (step o before (account_call key (logout_call l)) s))
        ≡ run o calls (step o before (account_call key (logout_call l)) s)
  unfolding commit
  logout-stale key s a before l calls now c n known elsewhere carried old =
      let out = after_logout key before l s a known in
      let later =
        OnSome-map (Follows out.0) (λ b. n < b.protocol_epoch)
          (λ b h. omega (arith, h.0, old, out.2)) _
          (run-Follows o key (step o before (account_call key (logout_call l)) s) calls out.0
            elsewhere out.1) in
      step-refused key now c _ (perform_at-stale now c n _ carried later)
