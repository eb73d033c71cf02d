-- ===== src/AccountStore/Identity.antt =====
-- account_store.py: normalised identifiers, the subject and the labels that a token carries, and the
-- bindings that are dropped when a subject changes.
use ciallo_ms_365_open_ai_pr.Prelude.{
  ℕ, suc, Bool, true, not, ◌&&◌, ◌||◌, Option, none, some, List, [], ◌∷◌, eqb, ltb, leb,
  if◌then◌else◌, length, drop, contains,
}
use ciallo_ms_365_open_ai_pr.Prelude.Int.{pos, negsuc, pos_part}
use ciallo_ms_365_open_ai_pr.Prelude.Text.{
  Text, codes, text_eq, text_key, is_empty, strip, starts_with,
}
use ciallo_ms_365_open_ai_pr.AccountStore.{
  Stamp, absent, number, numeral, malformed, Claims, Outside, Account,
}

-- `token.count(c)`
unfoldable pub count : ℕ → Text → ℕ
count c [] = 0
count c (d ∷ s) = let rest = count c s in if eqb c d then suc rest else rest

-- `text.split(c)[0]`
unfoldable pub before : ℕ → Text → Text
before c [] = []
before c (d ∷ s) = let rest = before c s in if eqb c d then [] else d ∷ rest

abbrev pub dot : ℕ
dot = 46

abbrev pub at_sign : ℕ
at_sign = 64

unfoldable pub is_digit : ℕ → Bool
is_digit c = leb 48 c && leb c 57

unfoldable pub is_lower : ℕ → Bool
is_lower c = leb 97 c && leb c 122

unfoldable pub is_upper : ℕ → Bool
is_upper c = leb 65 c && leb c 90

-- `[._-]`
unfoldable pub is_mark : ℕ → Bool
is_mark c = eqb c 46 || eqb c 95 || eqb c 45

unfoldable pub all_of : (ℕ → Bool) → Text → Bool
all_of p [] = true
all_of p (c ∷ s) = p c && all_of p s

-- `_CONSUMER_ACCOUNT_ID_RE` after its prefix: `[a-z0-9._-]{1,512}`
unfoldable pub is_subject_tail : Text → Bool
unfolding all_of is_digit is_lower is_mark
is_subject_tail s =
    leb 1 (length s) && leb (length s) 512 && all_of (λ c. is_lower c || is_digit c || is_mark c) s

-- `_CONSUMER_ACCOUNT_ID_RE.fullmatch`
unfoldable pub is_consumer_account_id : Text → Bool
unfolding starts_with is_subject_tail
is_consumer_account_id s =
    (starts_with (codes "home:") s && is_subject_tail (drop 5 s))
    || (starts_with (codes "local:") s && is_subject_tail (drop 6 s))

-- `_STUDIO_AGENT_ID_RE.fullmatch`
unfoldable pub is_studio_agent_id : Text → Bool
unfolding all_of is_digit is_lower is_upper is_mark
is_studio_agent_id s =
    leb 3 (length s)
    && leb (length s) 512
    && all_of (λ c. is_upper c || is_lower c || is_digit c || is_mark c) s

-- `normalize_studio_agent_id`
unfoldable pub normalize_studio_agent_id : Text → Text
unfolding strip is_studio_agent_id
normalize_studio_agent_id value = if is_studio_agent_id (strip value) then strip value else []

-- `_normalize_consumer_token_expiry`
unfoldable pub normalize_consumer_token_expiry : Stamp → ℕ
normalize_consumer_token_expiry absent = 0
normalize_consumer_token_expiry (number n) = pos_part n
normalize_consumer_token_expiry (numeral n) = pos_part n
normalize_consumer_token_expiry malformed = 0

abbrev pub last_expiry : ℕ
last_expiry = 253402300799

-- `normalize_personal_substrate_expiry`: `none` where it raises.
unfoldable pub normalize_personal_substrate_expiry : Stamp → Option ℕ
normalize_personal_substrate_expiry absent = some 0
normalize_personal_substrate_expiry (number (pos n)) = if leb n last_expiry then some n else none
normalize_personal_substrate_expiry (number (negsuc n)) = none
normalize_personal_substrate_expiry (numeral n) = none
normalize_personal_substrate_expiry malformed = none

abbrev pub error_codes : List Text
error_codes =
    codes "session_expired"
    ∷ codes "identity_mismatch"
    ∷ codes "issuance_unavailable"
    ∷ codes "browser_unavailable"
    ∷ codes "refresh_failed"
    ∷ []

-- `normalize_personal_substrate_error`
unfoldable pub normalize_personal_substrate_error : Text → Text
unfolding contains
normalize_personal_substrate_error value = if contains value error_codes then value else []

-- `is_substrate_token_claims`
unfoldable pub is_substrate_token_claims : Claims → Bool
unfolding starts_with
is_substrate_token_claims claims = starts_with (codes "https://substrate.office.com/") claims.aud

-- The end of `_studio_subject`.
unfoldable pub subject_of : Option Claims → Text × Text
unfolding is_substrate_token_claims strip
subject_of none = ([], [])
subject_of (some claims) =
    if is_substrate_token_claims claims
      && not (is_empty (strip claims.tid))
      && not (is_empty (strip claims.oid))
    then (strip claims.tid, strip claims.oid)
    else ([], [])

-- The loop of `extract_identity` over the claims that may hold an email.
unfoldable pub first_email : List Text → Text
unfolding count strip
first_email [] = []
first_email (value ∷ rest) =
    let later = first_email rest in if ltb 0 (count at_sign value) then strip value else later

-- The end of `extract_identity`: the display name, and the email.
unfoldable pub identity_of : Option Claims → Text × Text
unfolding first_email before strip
identity_of none = ([], [])
identity_of (some claims) =
    let email = first_email claims.emails in
    (
      if is_empty (strip claims.full_name) then before at_sign email else strip claims.full_name,
      email,
    )

module _ {Json : Type 0} where
  -- `_clear_studio_agent_binding`
  unfoldable pub clear_studio_agent_binding : Account Json → Account Json
  clear_studio_agent_binding a = record a {
    studio_agent_id = [];
    studio_agent_tenant_id = [];
    studio_agent_object_id = [];
  }

  -- `_clear_throttle_observation`
  unfoldable pub clear_throttle_observation : Account Json → Account Json
  clear_throttle_observation a = record a {
    throttled_until = 0;
    throttled_mode = [];
    throttled_at = 0;
  }

module _ {Json : Type 0} (o : Outside Json) where
  -- `_normalize_consumer_account_id`
  unfoldable pub normalize_consumer_account_id : Text → Text
  unfolding is_consumer_account_id strip
  normalize_consumer_account_id value =
      let account_id = o.lower (strip value) in
      if is_consumer_account_id account_id then account_id else []

  -- `_studio_subject`
  unfoldable pub studio_subject : Text → Text × Text
  unfolding count subject_of
  studio_subject token =
      if eqb (count dot token) 2 then subject_of (o.decode_jwt_payload token) else ([], [])

  unfoldable pub extract_identity : Text → Text × Text
  unfolding count identity_of
  extract_identity token =
      if eqb (count dot token) 2 then identity_of (o.decode_jwt_payload token) else ([], [])

  -- `_substrate_display_email`; `none` is a value that is no `str`.
  unfoldable pub substrate_display_email : Text → Option Text → Text
  unfolding strip
  substrate_display_email token none = []
  substrate_display_email token (some value) =
      let email = o.lower (strip value) in
      if o.is_valid_substrate_jwe token && leb (length email) 254 && o.is_email email
      then email
      else []

  -- `_clear_studio_binding_if_subject_changed`
  unfoldable pub clear_studio_binding_if_subject_changed : Text → Account Json → Account Json
  clear_studio_binding_if_subject_changed token a =
      let subject = studio_subject token in
      if is_empty a.studio_agent_id
        || (text_eq subject.0 a.studio_agent_tenant_id
            && text_eq subject.1 a.studio_agent_object_id)
      then a
      else clear_studio_agent_binding a
