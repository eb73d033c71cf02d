-- ===== src/ConversationQuota/Latest.antt =====
-- The newest reading is there after its call, also when it makes the store evict one.
use ciallo_ms_365_open_ai_pr.Prelude.{
  ℕ, ◌≤◌, ◌≡◌, refl, true, false, none, some, List, [], ◌∷◌, ◌++◌, arith, ltb, if◌then◌else◌, ◌==◌,
  length, contains, Option-cases, inl, inr, is_some, All, same_refl, ap, ◌⊎◌,
}
use ciallo_ms_365_open_ai_pr.Prelude.Int.{ℤ}
use ciallo_ms_365_open_ai_pr.Prelude.Text.{Text, text_key, text_eq_iff, is_empty, strip}
use ciallo_ms_365_open_ai_pr.Dict.{Dict, keys, get, put, get-put, get-pop}
use ciallo_ms_365_open_ai_pr.Dict.Laws.{contains-keys, put-known, put-new, length-keys}
use ciallo_ms_365_open_ai_pr.ConversationQuota.{
  Quota, Reading, Store, max_accounts, oldest_from, drop_oldest, store_entry, reading,
  record_counts, record_quota,
}
use ciallo_ms_365_open_ai_pr.ConversationQuota.Keeps.{oldest_from-contains}

-- No reading is newer than the clock.
abbrev pub NotAfter : ℕ → Dict Text Reading → Type 0
NotAfter now = All (λ (e : Text × Reading). e.1.ts ≤ now)

-- A reading that no other is newer than is never the oldest.
oldest_from-append :
    (key : Text) (ts : ℕ) (d : Dict Text Reading) (a : Text) (r : Reading)
    → ts ≤ r.ts
    → NotAfter r.ts d
    → oldest_from key ts (d ++ (a, r) ∷ []) ≡ oldest_from key ts d
unfolding oldest_from
oldest_from-append key ts [] a r h all = ground arith
oldest_from-append key ts ((k, x) ∷ rest) a r h all =
    oldest_from-append (if ltb x.ts ts then k else key) (if ltb x.ts ts then x.ts else ts) rest a r
      (ground arith) all.1

drop_oldest-small : (d : Dict Text Reading) → length d ≤ max_accounts → drop_oldest d ≡ d
unfolding drop_oldest
drop_oldest-small [] h = refl
drop_oldest-small (e ∷ rest) h = ground arith

length-put-known :
    (a : Text) (r : Reading) (d : Dict Text Reading)
    → is_some (get a d) ≡ true
    → length (put a r d) ≡ length d
length-put-known a r d h = omega (
  arith,
  length-keys d,
  length-keys (put a r d),
  ap (λ (ks : List Text). length ks) (put-known a r d h),
)

get-put_self : (a : Text) (r : Reading) (d : Dict Text Reading) → get a (put a r d) ≡ some r
get-put_self a r d = ground (arith, get-put a a r d, same_refl a)

-- The oldest of a store without `a` is another account.
oldest-ne :
    (a k : Text) (x : Reading) (rest : Dict Text Reading)
    → get a ((k, x) ∷ rest) ≡ none
    → (oldest_from k x.ts rest == a) ≡ false
unfolding keys
oldest-ne a k x rest new =
    let o = oldest_from k x.ts rest in
    ground
      (arith, oldest_from-contains k x.ts rest, contains-keys a ((k, x) ∷ rest), text_eq_iff o a)

get-drop_oldest-new :
    (a : Text) (r : Reading) (d : Dict Text Reading)
    → NotAfter r.ts d
    → get a d ≡ none
    → get a (drop_oldest (d ++ (a, r) ∷ [])) ≡ some r
unfolding drop_oldest put
get-drop_oldest-new a r [] all new = get-put_self a r []
get-drop_oldest-new a r ((k, x) ∷ rest) all new =
    let o = oldest_from k x.ts rest in
    let d' = (k, x) ∷ (rest ++ (a, r) ∷ []) in
    let stands : get a d' ≡ some r =
      rw (put-new a r ((k, x) ∷ rest) new) at (get-put_self a r ((k, x) ∷ rest)) in
    rw (oldest_from-append k x.ts rest a r all.0 all.1)
      (ground (arith, get-pop o a d', oldest-ne a k x rest new, stands))

get-drop_oldest :
    (a : Text) (r : Reading) (d : Dict Text Reading)
    → length d ≤ max_accounts
    → NotAfter r.ts d
    → get a (drop_oldest (put a r d)) ≡ some r
get-drop_oldest a r d h all = elim (Option-cases (get a d)) [
  | inr (old, known) ↦
      let same = length-put-known a r d (rw known) in
      rw (drop_oldest-small (put a r d) (omega arith)) (get-put_self a r d)
  | inl new ↦ rw (put-new a r d new) (get-drop_oldest-new a r d all new)
]

module _ (percent_of : ℕ → ℕ → ℕ) (now : ℕ) (a : Text) (q : Quota) (s : Store) where
  -- A reading with both counters, of an account that is not forgotten, is what the store then has
  -- of that account, provided that the clock did not go back: an eviction drops another one.
  pub get-record_quota :
      (m x : ℤ)
      → length s.by_account ≤ max_accounts
      → NotAfter now s.by_account
      → is_empty (strip a) ≡ false
      → contains (strip a) s.forgotten ≡ false
      → q.messages ≡ some m
      → q.max_messages ≡ some x
      → get (strip a) (record_quota percent_of now a (some q) s).by_account
        ≡ some (reading percent_of now m x q.long_doc_messages)
  unfolding record_quota record_counts store_entry
  get-record_quota m x h all name live em ex =
      rw (name, em, ex, record_counts, live)
        (get-drop_oldest (strip a) (reading percent_of now m x q.long_doc_messages) s.by_account h
          (unfold reading in all))

  -- A forgotten account, a blank name and a quota without one of the counters change nothing.
  pub record_quota_ignored :
      (is_empty (strip a) ≡ true)
        ⊎ (contains (strip a) s.forgotten ≡ true)
        ⊎ (q.messages ≡ none)
        ⊎ (q.max_messages ≡ none)
      → record_quota percent_of now a (some q) s ≡ s
  unfolding record_quota record_counts store_entry
  record_quota_ignored ignored = ground arith
