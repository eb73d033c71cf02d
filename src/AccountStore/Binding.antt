-- ===== src/AccountStore/Binding.antt =====
-- The bindings of the refresh tokens: a client, authority, tenant, object or scope is stored only with
-- the token that it was issued for.
use ciallo_ms_365_open_ai_pr.Prelude.{
  ℕ, ◌≡◌, refl, Bool, true, not, ◌&&◌, ◌||◌, inl, inr, Bool-cases, some, List, [], ◌∷◌, arith, Key,
}
use ciallo_ms_365_open_ai_pr.Prelude.Text.{Text, text_key, is_empty}
use ciallo_ms_365_open_ai_pr.Dict.{get}
use ciallo_ms_365_open_ai_pr.AccountStore.{Outside, Account}
use ciallo_ms_365_open_ai_pr.AccountStore.Grants.{is_rotated}
use ciallo_ms_365_open_ai_pr.AccountStore.Pool.{account_store}
use ciallo_ms_365_open_ai_pr.AccountStore.Calls.{
  StoreCall, account_call, add_call, remove_call, port_base_call, run,
}
use ciallo_ms_365_open_ai_pr.AccountStore.Kept.{OnSome, all_calls}
use ciallo_ms_365_open_ai_pr.AccountStore.Epochs.{OnSome_at}
use ciallo_ms_365_open_ai_pr.AccountStore.Credentials.{
  Credentials, with_grant, with_consumer_grant, rotate, credentials,
}
use ciallo_ms_365_open_ai_pr.AccountStore.Invariant.{account_calls, run-keeps}

-- An empty refresh token has no binding.
abbrev pub IsBound : Credentials → Type 0
IsBound c =
    (is_empty c.refresh_token ≡ true
      → (c.client_id ≡ []) × (c.authority ≡ []) × (c.tenant_id ≡ []) × (c.object_id ≡ []))
    × (is_empty c.consumer_refresh_token ≡ true
        → (c.consumer_client_id ≡ []) × (c.consumer_scope ≡ []))

rotate_empty :
    (rotated expected kept : Text)
    → is_empty (rotate rotated expected kept) ≡ true
    → is_empty kept ≡ true
unfolding is_rotated
rotate_empty rotated expected kept h = ground arith

with_grant-IsBound :
    (c : Credentials) (t client authority tenant object : Text)
    → IsBound c
    → IsBound (with_grant t client authority tenant object c)
with_grant-IsBound c t client authority tenant object h =
    (λ empty. (rw empty, rw empty, rw empty, rw empty), h.1)

with_consumer_grant-IsBound :
    (c : Credentials) (t client scope : Text)
    → IsBound c
    → IsBound (with_consumer_grant t client scope c)
with_consumer_grant-IsBound c t client scope h = (h.0, λ empty. (rw empty, rw empty))

any_call : {Json : Type 0} (c : StoreCall Json) → account_calls (λ c. true) c ≡ true
unfolding account_calls
any_call (account_call key c) = refl
any_call (add_call key n) = refl
any_call (remove_call key) = refl
any_call (port_base_call port) = refl

every_call :
    {Json : Type 0} (calls : List (ℕ × StoreCall Json))
    → all_calls (account_calls (λ c. true)) calls ≡ true
unfolding all_calls
every_call [] = refl
every_call ((now, c) ∷ calls) = rw (any_call c) (every_call calls)

run-IsBound :
    {Json : Type 0} ⦃e : Key Json⦄ (o : Outside Json) (calls : List (ℕ × StoreCall Json))
    (key : Text)
    → OnSome (λ a. IsBound (credentials a)) (get key (run o calls account_store).accounts)
run-IsBound o calls key =
    run-keeps o IsBound (λ c. true) (λ a subject token ok h. h) (λ a subject token ok h. h)
      with_grant-IsBound with_consumer_grant-IsBound
      (λ a r g current h. (
        λ empty.
            h.0
              (rotate_empty r.rotated_refresh_token r.expected_refresh_token a.refresh_token empty),
        h.1,
      ))
      (λ a r g current h. (
        h.0,
        λ empty. h.1 (
            rotate_empty r.rotated_refresh_token r.expected_refresh_token a.consumer_refresh_token
              empty),
      ))
      (λ c h. h) (λ subject token. (λ empty. (refl, refl, refl, refl), λ empty. (refl, refl))) calls
      key (every_call calls)

-- A refresh token is stored, or nothing is that it was issued for; the same of the consumer one.
unfoldable pub is_bound : {Json : Type 0} → Account Json → Bool
is_bound a =
    (not (is_empty a.refresh_token)
      || (is_empty a.refresh_token_client_id
          && is_empty a.refresh_token_authority
          && is_empty a.refresh_token_tenant_id
          && is_empty a.refresh_token_object_id))
    && (not (is_empty a.consumer_refresh_token)
        || (is_empty a.consumer_refresh_token_client_id && is_empty a.consumer_refresh_token_scope))

is_bound_lem : {Json : Type 0} (a : Account Json) → IsBound (credentials a) → is_bound a ≡ true
unfolding is_bound
is_bound_lem a h = elim (Bool-cases (is_empty a.refresh_token)) [
  | inl empty ↦ elim (Bool-cases (is_empty a.consumer_refresh_token)) [
    | inl none_too ↦ rw (
      empty,
      none_too,
      (h.0 empty).0,
      (h.0 empty).1,
      (h.0 empty).2,
      (h.0 empty).3,
      (h.1 none_too).0,
      (h.1 none_too).1,
    )
    | inr stored ↦ rw (empty, stored, (h.0 empty).0, (h.0 empty).1, (h.0 empty).2, (h.0 empty).3)
  ]
  | inr stored ↦ elim (Bool-cases (is_empty a.consumer_refresh_token)) [
    | inl none_too ↦ rw (stored, none_too, (h.1 none_too).0, (h.1 none_too).1)
    | inr stored_too ↦ rw (stored, stored_too)
  ]
]

-- In every account that any run from an empty store leaves, an empty refresh token has an empty
-- client, authority, tenant and object, and an empty consumer refresh token an empty client and scope.
pub run-is_bound :
    {Json : Type 0} ⦃e : Key Json⦄ (o : Outside Json) (calls : List (ℕ × StoreCall Json))
    (key : Text) (a : Account Json)
    → get key (run o calls account_store).accounts ≡ some a
    → is_bound a ≡ true
run-is_bound o calls key a found =
    is_bound_lem a (OnSome_at (λ b. IsBound (credentials b)) _ a found (run-IsBound o calls key))
