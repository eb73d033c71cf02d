-- ===== src/AccountStore/Pairing.antt =====
-- Two protocols on one account: what their tokens have in common, so that either can be activated.
use ciallo_ms_365_open_ai_pr.Prelude.{
  ℕ, ◌≡◌, sym, Bool, true, false, not, ◌&&◌, ◌||◌, some, List, [], arith, Key,
}
use ciallo_ms_365_open_ai_pr.Prelude.Text.{Text, text_key, text_eq_iff, is_empty}
use ciallo_ms_365_open_ai_pr.Dict.{get}
use ciallo_ms_365_open_ai_pr.AccountStore.{m365, consumer, Outside, Account}
use ciallo_ms_365_open_ai_pr.AccountStore.Protocol.{
  is_other_identity, pair_mismatch, is_personal_token, is_paired, is_matching, protocol_state,
}
use ciallo_ms_365_open_ai_pr.AccountStore.Pool.{account_store}
use ciallo_ms_365_open_ai_pr.AccountStore.Grants.{Exchange, ConsumerExchange}
use ciallo_ms_365_open_ai_pr.AccountStore.Calls.{
  Call, refresh_result_call, consumer_result_call, StoreCall, run,
}
use ciallo_ms_365_open_ai_pr.AccountStore.Kept.{OnSome, all_calls}
use ciallo_ms_365_open_ai_pr.AccountStore.Epochs.{OnSome_at}
use ciallo_ms_365_open_ai_pr.AccountStore.Credentials.{Credentials, credentials}
use ciallo_ms_365_open_ai_pr.AccountStore.Invariant.{account_calls, run-keeps}

module _ {Json : Type 0} ⦃e : Key Json⦄ (o : Outside Json) where
  -- Where both tokens are stored, the ids recorded with them are one, and the Substrate token is one
  -- of a personal account.
  abbrev IsPaired : Credentials → Type 0
  IsPaired c =
      is_empty c.token ≡ false
      → is_empty c.consumer_token ≡ false
      → (c.substrate_account_id ≡ c.consumer_account_id)
        × (is_empty c.substrate_account_id ≡ false)
        × (is_personal_token o c.token ≡ true)

  -- The result of an exchange replaces a token that is there, and a Substrate token of a personal
  -- account by another one of that kind.
  unfoldable pub keeps_kind : Call Json → Bool
  keeps_kind (refresh_result_call r) =
      not (is_empty r.expected_access_token)
      && (not (is_personal_token o r.expected_access_token) || is_personal_token o r.access_token)
  keeps_kind (consumer_result_call r) = not (is_empty r.expected_consumer_token)
  keeps_kind _ = true

  pushed-IsPaired :
      (a : Account Json) (subject token : Text)
      → pair_mismatch o a m365 subject token ≡ false
      → IsPaired (record (credentials a) { token = token; substrate_account_id = subject })
  unfolding pair_mismatch is_other_identity
  pushed-IsPaired a subject token ok has has_consumer =
      ((text_eq_iff subject a.consumer_account_id).0 (ground arith), ground arith, ground arith)

  signed_in-IsPaired :
      (a : Account Json) (subject token : Text)
      → pair_mismatch o a consumer subject [] ≡ false
      → IsPaired (record (credentials a) { consumer_token = token; consumer_account_id = subject })
  unfolding pair_mismatch is_other_identity
  signed_in-IsPaired a subject token ok has has_consumer = (
    sym ((text_eq_iff subject a.substrate_account_id).0 (ground arith)),
    ground arith,
    ground arith,
  )

  exchanged-IsPaired :
      (a : Account Json) (r : Exchange)
      → keeps_kind (refresh_result_call r) ≡ true
      → a.token ≡ r.expected_access_token
      → IsPaired (credentials a)
      → is_empty a.consumer_token ≡ false
      → (a.substrate_account_id ≡ a.consumer_account_id)
        × (is_empty a.substrate_account_id ≡ false)
        × (is_personal_token o r.access_token ≡ true)
  unfolding keeps_kind
  exchanged-IsPaired a r g current h has_consumer =
      let paired = h (rw current (ground arith)) has_consumer in
      let was : is_personal_token o r.expected_access_token ≡ true = rw⁻¹ current paired.2 in
      (paired.0, paired.1, ground (arith, was))

  consumer_exchanged-IsPaired :
      (a : Account Json) (r : ConsumerExchange)
      → keeps_kind (consumer_result_call r) ≡ true
      → a.consumer_token ≡ r.expected_consumer_token
      → IsPaired (credentials a)
      → is_empty a.token ≡ false
      → (a.substrate_account_id ≡ a.consumer_account_id)
        × (is_empty a.substrate_account_id ≡ false)
        × (is_personal_token o a.token ≡ true)
  unfolding keeps_kind
  consumer_exchanged-IsPaired a r g current h has = h has (rw current (ground arith))

  run-IsPaired :
      (calls : List (ℕ × StoreCall Json)) (key : Text)
      → all_calls (account_calls keeps_kind) calls ≡ true
      → OnSome (λ a. IsPaired (credentials a)) (get key (run o calls account_store).accounts)
  run-IsPaired =
      run-keeps o IsPaired keeps_kind (λ a subject token ok h. pushed-IsPaired a subject token ok)
        (λ a subject token ok h. signed_in-IsPaired a subject token ok)
        (λ c t client authority tenant object h. h) (λ c t client scope h. h)
        (λ a r g current h has. exchanged-IsPaired a r g current h)
        (λ a r g current h has has_consumer. consumer_exchanged-IsPaired a r g current h has)
        (λ c h has. cc) (λ subject token has has_consumer. cc)

  paired-can_activate :
      (a : Account Json)
      → IsPaired (credentials a)
      → is_empty a.token ≡ false
      → is_empty a.consumer_token ≡ false
      → ((protocol_state o a m365).can_activate ≡ true)
        × ((protocol_state o a consumer).can_activate ≡ true)
        × (a.substrate_account_id ≡ a.consumer_account_id)
  unfolding protocol_state is_paired is_matching
  paired-can_activate a h has has_consumer =
      let paired = h has has_consumer in
      let same = (text_eq_iff a.substrate_account_id a.consumer_account_id).1 paired.0 in
      let stated : is_empty a.consumer_account_id ≡ false = rw⁻¹ paired.0 paired.1 in
      (
        ground (arith, same, stated, paired.1, paired.2),
        ground (arith, same, stated, paired.1, paired.2),
        paired.0,
      )

  -- Where a run from an empty store leaves an account with a Substrate token and a consumer token,
  -- the account can be switched to either protocol, and the ids recorded with the two tokens are one
  -- and not empty. The condition is on exchanges: the result of one replaces a token that is there,
  -- and a Substrate token of a personal account only by another one of that kind.
  pub run-paired :
      (calls : List (ℕ × StoreCall Json)) (key : Text) (a : Account Json)
      → all_calls (account_calls keeps_kind) calls ≡ true
      → get key (run o calls account_store).accounts ≡ some a
      → is_empty a.token ≡ false
      → is_empty a.consumer_token ≡ false
      → ((protocol_state o a m365).can_activate ≡ true)
        × ((protocol_state o a consumer).can_activate ≡ true)
        × (a.substrate_account_id ≡ a.consumer_account_id)
        × (is_empty a.substrate_account_id ≡ false)
  run-paired calls key a good found has has_consumer =
      let paired =
        OnSome_at (λ b. IsPaired (credentials b)) _ a found (run-IsPaired calls key good) in
      let ready = paired-can_activate a paired has has_consumer in
      (ready.0, ready.1, ready.2, (paired has has_consumer).1)
