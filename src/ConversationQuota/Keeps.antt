-- ===== src/ConversationQuota/Keeps.antt =====
-- At most 200 readings, and none of a forgotten account, after any calls.
use ciallo_ms_365_open_ai_pr.Prelude.{
  ℕ, ◌+◌, ◌≤◌, ◌≡◌, refl, true, false, Option, none, some, List, [], ◌∷◌, arith, length, contains,
  Bool-cases, inl, inr, same_refl,
}
use ciallo_ms_365_open_ai_pr.Prelude.Int.{ℤ}
use ciallo_ms_365_open_ai_pr.Prelude.Text.{Text, text_key, text_eq_iff, is_empty, strip}
use ciallo_ms_365_open_ai_pr.Dict.{Dict, keys, get, put, get-put, get-pop}
use ciallo_ms_365_open_ai_pr.Dict.Laws.{length-put-le, length-pop-le, length-pop-lt}
use ciallo_ms_365_open_ai_pr.ConversationQuota.{
  Quota, Reading, Store, empty, max_accounts, oldest_from, drop_oldest, store_entry, record_counts,
  record_quota, forget,
}

pub record IsValid (s : Store) : Type 0 where
  pub bounded : length s.by_account ≤ max_accounts
  pub gone : (a : Text) → contains a s.forgotten ≡ true → get a s.by_account ≡ none

pub oldest_from-contains :
    (key : Text) (ts : ℕ) (d : Dict Text Reading)
    → contains (oldest_from key ts d) (key ∷ keys d) ≡ true
unfolding oldest_from keys contains
oldest_from-contains key ts [] = ground (arith, same_refl key)
oldest_from-contains key ts ((k, r) ∷ rest) =
    ground (arith, oldest_from-contains key ts rest, oldest_from-contains k r.ts rest)

drop_oldest-bounded :
    (d : Dict Text Reading) → length d ≤ max_accounts + 1 → length (drop_oldest d) ≤ max_accounts
unfolding drop_oldest
drop_oldest-bounded [] h = omega arith
drop_oldest-bounded ((k, r) ∷ rest) h = ground (
  arith,
  length-pop-lt (oldest_from k r.ts rest) ((k, r) ∷ rest)
      (unfold keys in oldest_from-contains k r.ts rest),
)

-- The eviction brings no account back.
drop_oldest-none :
    (a : Text) (d : Dict Text Reading) → get a d ≡ none → get a (drop_oldest d) ≡ none
unfolding drop_oldest
drop_oldest-none a [] h = h
drop_oldest-none a ((k, r) ∷ rest) h =
    ground (arith, get-pop (oldest_from k r.ts rest) a ((k, r) ∷ rest))

store_entry-IsValid : (a : Text) (r : Reading) (s : Store) → IsValid s → IsValid (store_entry a r s)
unfolding store_entry
store_entry-IsValid a r s v = elim (Bool-cases (contains a s.forgotten)) [
  | inl dead ↦ rw dead v
  | inr live ↦ rw live (record {
    bounded =
        drop_oldest-bounded (put a r s.by_account)
          (omega (arith, length-put-le a r s.by_account, v.bounded));
    gone = λ b dead.
        drop_oldest-none b (put a r s.by_account)
          (ground (arith, get-put a b r s.by_account, text_eq_iff a b, v.gone b dead));
  })
]

module _ (percent_of : ℕ → ℕ → ℕ) where
  record_counts-IsValid :
      (now : ℕ) (a : Text) (m x l : Option ℤ) (s : Store)
      → IsValid s
      → IsValid (record_counts percent_of now a m x l s)
  unfolding record_counts
  record_counts-IsValid now a (some m) (some x) l s v = store_entry-IsValid a _ s v
  record_counts-IsValid now a (some m) none l s v = v
  record_counts-IsValid now a none x l s v = v

  record_quota-IsValid :
      (now : ℕ) (a : Text) (q : Option Quota) (s : Store)
      → IsValid s
      → IsValid (record_quota percent_of now a q s)
  unfolding record_quota
  record_quota-IsValid now a none s v = v
  record_quota-IsValid now a (some q) s v = elim (Bool-cases (is_empty (strip a))) [
    | inl blank ↦ rw blank v
    | inr name ↦
        rw name
          (record_counts-IsValid now (strip a) q.messages q.max_messages q.long_doc_messages s v)
  ]

forget-IsValid : (a : Text) (s : Store) → IsValid s → IsValid (forget a s)
unfolding forget
forget-IsValid a s v = elim (Bool-cases (is_empty (strip a))) [
  | inl blank ↦ rw blank v
  | inr name ↦ rw name (record {
    bounded = omega (arith, length-pop-le (strip a) s.by_account, v.bounded);
    gone = λ b dead.
        unfold contains in
        ground (arith, get-pop (strip a) b s.by_account, text_eq_iff (strip a) b, v.gone b);
  })
]

empty-IsValid : IsValid empty
unfolding get
empty-IsValid = record { bounded = omega arith; gone = λ a dead. refl }

record_quota-forgotten :
    (percent_of : ℕ → ℕ → ℕ) (now : ℕ) (a : Text) (q : Option Quota) (s : Store)
    → (record_quota percent_of now a q s).forgotten ≡ s.forgotten
unfolding record_quota record_counts store_entry
record_quota-forgotten percent_of now a none s = refl
record_quota-forgotten percent_of now a (some q) s = ground arith

forget-keeps :
    (b a : Text) (s : Store)
    → contains b s.forgotten ≡ true
    → contains b (forget a s).forgotten ≡ true
unfolding forget contains
forget-keeps b a s h = ground arith

forget-contains :
    (a : Text) (s : Store)
    → is_empty (strip a) ≡ false
    → contains (strip a) (forget a s).forgotten ≡ true
unfolding forget contains
forget-contains a s name = ground (arith, same_refl (strip a))

-- The calls that change the store, with their times.
pub data Call : Type 0 where
  record_call : ℕ → Text → Option Quota → Call
  forget_call : Text → Call

module _ (percent_of : ℕ → ℕ → ℕ) where
  unfoldable pub run : Store → List Call → Store
  run s [] = s
  run s (record_call now a q ∷ calls) = run (record_quota percent_of now a q s) calls
  run s (forget_call a ∷ calls) = run (forget a s) calls

  run-IsValid : (s : Store) (calls : List Call) → IsValid s → IsValid (run s calls)
  unfolding run
  run-IsValid s [] v = v
  run-IsValid s (record_call now a q ∷ calls) v =
      run-IsValid (record_quota percent_of now a q s) calls
        (record_quota-IsValid percent_of now a q s v)
  run-IsValid s (forget_call a ∷ calls) v = run-IsValid (forget a s) calls (forget-IsValid a s v)

  -- From the empty store, whatever the calls, at most 200 accounts have a reading.
  pub run-bounded : (calls : List Call) → length (run empty calls).by_account ≤ max_accounts
  run-bounded calls = (run-IsValid empty calls empty-IsValid).bounded

  run-forgotten :
      (b : Text) (s : Store) (calls : List Call)
      → contains b s.forgotten ≡ true
      → contains b (run s calls).forgotten ≡ true
  unfolding run
  run-forgotten b s [] h = h
  run-forgotten b s (record_call now a q ∷ calls) h =
      run-forgotten b (record_quota percent_of now a q s) calls
        (rw (record_quota-forgotten percent_of now a q s) h)
  run-forgotten b s (forget_call a ∷ calls) h =
      run-forgotten b (forget a s) calls (forget-keeps b a s h)

  -- A forgotten account never shows a reading again, whatever the later calls.
  pub run-forget :
      (a : Text) (before later : List Call)
      → is_empty (strip a) ≡ false
      → get (strip a) (run (forget a (run empty before)) later).by_account ≡ none
  run-forget a before later name =
      let s = run empty before in
      (run-IsValid (forget a s) later
          (forget-IsValid a s (run-IsValid empty before empty-IsValid))).gone
        (strip a) (run-forgotten (strip a) (forget a s) later (forget-contains a s name))
