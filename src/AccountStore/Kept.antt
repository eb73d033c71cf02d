-- ===== src/AccountStore/Kept.antt =====
-- What each method keeps of an account, every run of the store keeps.
use ciallo_ms_365_open_ai_pr.Prelude.{
  ℕ, ◌≡◌, refl, sym, ◌⊎◌, inl, inr, Bool, true, false, not, ◌&&◌, Option, none, some, List, [], ◌∷◌,
  arith, if◌then◌else◌, is_some, Key, same_refl, Bool-cases,
}
use ciallo_ms_365_open_ai_pr.Prelude.Text.{Text, text_key, text_eq}
use ciallo_ms_365_open_ai_pr.Dict.{get, pop, get-put, get-pop}
use ciallo_ms_365_open_ai_pr.AccountStore.{
  Outside, Account, Change, refused, raised, changed, refuse_if, raise_if,
}
use ciallo_ms_365_open_ai_pr.AccountStore.Pool.{
  AccountStore, NewAccount, add_account, set_cdp_port_base, remove, commit,
}
use ciallo_ms_365_open_ai_pr.AccountStore.Calls.{
  Call, StoreCall, account_call, add_call, remove_call, port_base_call, perform, perform_at, step,
  run,
}

-- The account that a change leaves has the property.
pub data Holds {Json : Type 0} (P : Account Json → Type 0) : Change Json → Type 0 where
  on_refused : Holds P refused
  on_raised : Holds P raised
  on_changed : {a : Account Json} → P a → Holds P (changed a)

module _ {Json : Type 0} where
  -- An account that is there has the property.
  abbrev pub OnSome : (Account Json → Type 0) → Option (Account Json) → Type 0
  OnSome P none = Unit
  OnSome P (some a) = P a

  pub Holds_changed : {P : Account Json → Type 0} {a : Account Json} → Holds P (changed a) → P a
  Holds_changed (on_changed h) = h

  pub refuse_if-Holds :
      {P : Account Json → Type 0} (b : Bool) (c : Change Json)
      → (b ≡ false → Holds P c)
      → Holds P (refuse_if b c)
  unfolding refuse_if
  refuse_if-Holds true c h = on_refused
  refuse_if-Holds false c h = h refl

  pub raise_if-Holds :
      {P : Account Json → Type 0} (b : Bool) (c : Change Json)
      → (b ≡ false → Holds P c)
      → Holds P (raise_if b c)
  unfolding raise_if
  raise_if-Holds true c h = on_raised
  raise_if-Holds false c h = h refl

  pub if-Holds :
      {P : Account Json → Type 0} (b : Bool) (c d : Change Json)
      → Holds P c
      → Holds P d
      → Holds P (if b then c else d)
  if-Holds true c d h k = h
  if-Holds false c d h k = k

  pub Holds-weaken :
      {P Q : Account Json → Type 0} {c : Change Json}
      → ((a : Account Json) → P a → Q a)
      → Holds P c
      → Holds Q c
  Holds-weaken f on_refused = on_refused
  Holds-weaken f on_raised = on_raised
  Holds-weaken f (on_changed h) = on_changed (f _ h)

-- A property of both branches.
pub if-keeps {ℓ κ} :
    {A : Type ℓ} (P : A → Type κ) (b : Bool) (x y : A) → P x → P y → P (if b then x else y)
if-keeps P true x y h k = h
if-keeps P false x y h k = k

-- The same, each branch under what its test says.
pub if-splits {ℓ κ} :
    {A : Type ℓ} (P : A → Type κ) (b : Bool) (x y : A)
    → (b ≡ true → P x)
    → (b ≡ false → P y)
    → P (if b then x else y)
if-splits P true x y h k = h refl
if-splits P false x y h k = k refl

-- No account is added under the key.
unfoldable pub adds_elsewhere : {Json : Type 0} → Text → StoreCall Json → Bool
adds_elsewhere key (account_call k c) = true
adds_elsewhere key (add_call k n) = not (text_eq k key)
adds_elsewhere key (remove_call k) = true
adds_elsewhere key (port_base_call port) = true

-- Every call of a run passes a test.
unfoldable pub all_calls :
    {Json : Type 0} → (StoreCall Json → Bool) → List (ℕ × StoreCall Json) → Bool
all_calls good [] = true
all_calls good ((now, c) ∷ calls) = good c && all_calls good calls

-- The calls that `good` admits keep `P` of the account at `key`.
module _ {Json : Type 0} ⦃e : Key Json⦄ (o : Outside Json) (key : Text) (P : Account Json → Type 0)
    (good : StoreCall Json → Bool)
    (performed : (now : ℕ) (c : Call Json) (a : Account Json)
      → good (account_call key c) ≡ true
      → P a
      → Holds P (perform o now c a))
    (added : (now : ℕ) (n : NewAccount Json) (s : AccountStore Json)
      → good (add_call key n) ≡ true
      → Holds P (add_account o now key n s)) where
  perform_at-Holds :
      (now : ℕ) (c : Call Json) (x : Option (Account Json))
      → good (account_call key c) ≡ true
      → OnSome P x
      → Holds P (perform_at o now c x)
  unfolding perform_at
  perform_at-Holds now c none g h = on_refused
  perform_at-Holds now c (some a) g h = performed now c a g h

  commit-OnSome :
      (k : Text) (c : Change Json) (s : AccountStore Json)
      → (k ≡ key → Holds P c)
      → OnSome P (get key s.accounts)
      → OnSome P (get key (commit k c s).accounts)
  unfolding commit
  commit-OnSome k refused s h at = at
  commit-OnSome k raised s h at = at
  commit-OnSome k (changed a) s h at = elim (Bool-cases (text_eq k key)) [
    | inl same ↦
        rw (get-put k key a s.accounts, same) (Holds_changed (h ((text_key.same_iff k key).0 same)))
    | inr other ↦ rw (get-put k key a s.accounts, other) at
  ]

  remove-OnSome :
      (k : Text) (s : AccountStore Json)
      → OnSome P (get key s.accounts)
      → OnSome P (get key (remove k s).1.accounts)
  unfolding remove
  remove-OnSome k s at = elim (Bool-cases (is_some (get k s.accounts))) [
    | inl known ↦ rw known (popped (Bool-cases (text_eq k key)))
    | inr unknown ↦ rw unknown at
  ]
    where
      popped :
          (text_eq k key ≡ true) ⊎ (text_eq k key ≡ false) → OnSome P (get key (pop k s.accounts))
      popped (inl same) = rw (get-pop k key s.accounts, same) tt
      popped (inr other) = rw (get-pop k key s.accounts, other) at

  pub step-OnSome :
      (now : ℕ) (c : StoreCall Json) (s : AccountStore Json)
      → good c ≡ true
      → OnSome P (get key s.accounts)
      → OnSome P (get key (step o now c s).accounts)
  unfolding step set_cdp_port_base
  step-OnSome now (account_call k c) s g at = commit-OnSome k _ s here at
    where
      here : k ≡ key → Holds P (perform_at o now c (get k s.accounts))
      here same = rw same (perform_at-Holds now c (get key s.accounts) (rw (sym same) g) at)
  step-OnSome now (add_call k n) s g at = commit-OnSome k _ s here at
    where
      here : k ≡ key → Holds P (add_account o now k n s)
      here same = rw same (added now n s (rw (sym same) g))
  step-OnSome now (remove_call k) s g at = remove-OnSome k s at
  step-OnSome now (port_base_call port) s g at = at

  pub run-OnSome :
      (calls : List (ℕ × StoreCall Json)) (s : AccountStore Json)
      → all_calls good calls ≡ true
      → OnSome P (get key s.accounts)
      → OnSome P (get key (run o calls s).accounts)
  unfolding run all_calls
  run-OnSome [] s g at = at
  run-OnSome ((now, c) ∷ calls) s g at =
      run-OnSome calls (step o now c s) (ground arith) (step-OnSome now c s (ground arith) at)

-- What every method keeps, where no account is added under the key.
module _ {Json : Type 0} ⦃e : Key Json⦄ (o : Outside Json) (key : Text) (P : Account Json → Type 0)
    (performed : (now : ℕ) (c : Call Json) (a : Account Json)
      → P a
      → Holds P (perform o now c a)) where
  pub run-kept :
      (calls : List (ℕ × StoreCall Json)) (s : AccountStore Json)
      → all_calls (adds_elsewhere key) calls ≡ true
      → OnSome P (get key s.accounts)
      → OnSome P (get key (run o calls s).accounts)
  unfolding adds_elsewhere
  run-kept =
      run-OnSome o key P (adds_elsewhere key) (λ now c a g h. performed now c a h)
        (λ now n s g. ground (arith, same_refl key))
