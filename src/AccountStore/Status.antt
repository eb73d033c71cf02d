-- ===== src/AccountStore/Status.antt =====
-- account_store.py: `Account.token_status`, with times as numbers instead of their rendering.
use ciallo_ms_365_open_ai_pr.Prelude.{
  ℕ, ◌+◌, ◌-◌, ◌≡◌, Bool, true, false, not, ◌||◌, Option, none, some, eqb, ltb, arith,
  if◌then◌else◌, Bool-cases, inl, inr,
}
use ciallo_ms_365_open_ai_pr.Prelude.Int.{ℤ, pos, pos_part}
use ciallo_ms_365_open_ai_pr.Prelude.Text.{is_empty}
use ciallo_ms_365_open_ai_pr.AccountStore.{is_m365, Claims, Outside, Account}
use ciallo_ms_365_open_ai_pr.AccountStore.Identity.{count, dot, is_substrate_token_claims}

-- `error`
pub data StatusError : Type 0 where
  no_error : StatusError
  no_consumer_token : StatusError
  consumer_token_expired : StatusError
  no_token : StatusError
  no_substrate_token : StatusError
  fresh_capture_required : StatusError
  no_capture_timestamp : StatusError
  undecodable : StatusError

-- `expiry_source`
pub data ExpirySource : Type 0 where
  unstated : ExpirySource
  issuer : ExpirySource
  capture_age : ExpirySource

pub record TokenStatus : Type 0 where
  pub valid : Bool
  pub error : StatusError
  pub expires_at : Option ℤ
  pub seconds_remaining : ℕ
  pub expiry_source : ExpirySource
  pub recheck_at : Option ℕ

-- An invalid status without times.
abbrev pub invalid : StatusError → TokenStatus
invalid error = record {
  valid = false;
  error = error;
  expires_at = none;
  seconds_remaining = 0;
  expiry_source = unstated;
  recheck_at = none;
}

-- The branch of the consumer protocol.
unfoldable pub consumer_status : {Json : Type 0} → ℕ → Account Json → TokenStatus
consumer_status now a =
    let expires = a.consumer_token_expires_at in
    let remaining = expires - now in
    if is_empty a.consumer_token
    then invalid no_consumer_token
    else if eqb expires 0
    then record (invalid no_error) { valid = true }
    else record (invalid no_error) {
      valid = ltb 0 remaining;
      error = if ltb 0 remaining then no_error else consumer_token_expired;
      expires_at = some (pos expires);
      seconds_remaining = remaining;
    }

-- A JWE by the age of its capture.
unfoldable pub captured_status : ℕ → ℕ → TokenStatus
captured_status now updated =
    let recheck = if ltb 0 updated then updated + 3600 else 0 in
    record (invalid no_error) {
      valid = ltb now recheck;
      error =
          if ltb now recheck
          then no_error
          else if ltb 0 recheck
          then fresh_capture_required
          else no_capture_timestamp;
      seconds_remaining = recheck - now;
      expiry_source = capture_age;
      recheck_at = if ltb 0 recheck then some recheck else none;
    }

module _ {Json : Type 0} (o : Outside Json) where
  -- The handler of `except Exception`: a token that is no readable JWT.
  unfoldable pub opaque_status : ℕ → Account Json → TokenStatus
  unfolding captured_status
  opaque_status now a =
      let expires = a.substrate_token_expires_at in
      if not (o.is_valid_substrate_jwe a.token)
      then invalid undecodable
      else if ltb 0 expires
      then record (invalid no_error) {
        valid = ltb now expires;
        expires_at = some (pos expires);
        seconds_remaining = expires - now;
        expiry_source = issuer;
      }
      else captured_status now a.token_updated_at

  -- The end of `token_status`, by `claims["exp"]`.
  unfoldable pub expiring_status : ℕ → Option ℤ → Account Json → TokenStatus
  unfolding opaque_status
  expiring_status now none a = opaque_status now a
  expiring_status now (some exp) a =
      let remaining = pos_part exp - now in
      record (invalid no_error) {
        valid = ltb 0 remaining;
        expires_at = some exp;
        seconds_remaining = remaining;
      }

  unfoldable pub claimed_status : ℕ → Option Claims → Account Json → TokenStatus
  unfolding opaque_status expiring_status is_substrate_token_claims
  claimed_status now none a = opaque_status now a
  claimed_status now (some claims) a =
      if is_substrate_token_claims claims
      then expiring_status now claims.exp a
      else invalid no_substrate_token

  unfoldable pub token_status : ℕ → Account Json → TokenStatus
  unfolding consumer_status count opaque_status claimed_status
  token_status now a =
      if not (is_m365 a.provider)
      then consumer_status now a
      else if is_empty a.token
      then invalid no_token
      else if not (eqb (count dot a.token) 2)
      then opaque_status now a
      else claimed_status now (o.decode_jwt_payload a.token) a

  seconds-opaque_status :
      (now : ℕ) (a : Account Json)
      → ((opaque_status now a).valid || eqb (opaque_status now a).seconds_remaining 0) ≡ true
  unfolding opaque_status captured_status
  seconds-opaque_status now a = ground arith

  seconds-expiring_status :
      (now : ℕ) (exp : Option ℤ) (a : Account Json)
      → ((expiring_status now exp a).valid || eqb (expiring_status now exp a).seconds_remaining 0)
        ≡ true
  unfolding expiring_status
  seconds-expiring_status now none a = seconds-opaque_status now a
  seconds-expiring_status now (some exp) a = ground arith

  seconds-claimed_status :
      (now : ℕ) (claims : Option Claims) (a : Account Json)
      → ((claimed_status now claims a).valid
          || eqb (claimed_status now claims a).seconds_remaining 0)
        ≡ true
  unfolding claimed_status
  seconds-claimed_status now none a = seconds-opaque_status now a
  seconds-claimed_status now (some claims) a =
      elim (Bool-cases (is_substrate_token_claims claims)) [
        | inl substrate ↦ rw substrate (seconds-expiring_status now claims.exp a)
        | inr other ↦ rw other
      ]

  -- An invalid status has no seconds left, and one with seconds left is valid.
  pub seconds-token_status :
      (now : ℕ) (a : Account Json)
      → ((token_status now a).valid || eqb (token_status now a).seconds_remaining 0) ≡ true
  unfolding token_status consumer_status
  seconds-token_status now a = ground (
    arith,
    seconds-opaque_status now a,
    seconds-claimed_status now (o.decode_jwt_payload a.token) a,
  )
