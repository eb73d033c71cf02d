-- ===== src/AccountStore/Apart.antt =====
-- The ports of the browsers: no two accounts share one, and none has a reserved one.
use ciallo_ms_365_open_ai_pr.Prelude.{
  ℕ, ◌≡◌, ◌≢◌, refl, sym, ◌∙◌, ap, ◌⊎◌, inl, inr, false, Option, none, some, List, [], ◌∷◌, arith,
  is_some, Key, Bool-cases, Option-cases,
}
use ciallo_ms_365_open_ai_pr.Prelude.Text.{Text, text_key, text_eq}
use ciallo_ms_365_open_ai_pr.Dict.{Dict, get, put, pop, get-put, get-pop}
use ciallo_ms_365_open_ai_pr.AccountStore.{
  Outside, Account, account, Change, refused, raised, changed,
}
use ciallo_ms_365_open_ai_pr.AccountStore.Pool.{
  AccountStore, account_store, NewAccount, is_used, used_ports, reserved_cdp_ports, commit, remove,
  set_cdp_port_base, new_account, add_with, add_account,
}
use ciallo_ms_365_open_ai_pr.AccountStore.Calls.{
  Call, StoreCall, perform, account_call, add_call, remove_call, port_base_call, perform_at, step,
  run,
}
use ciallo_ms_365_open_ai_pr.AccountStore.Kept.{Holds, on_changed}
use ciallo_ms_365_open_ai_pr.AccountStore.Epochs.{Follows, perform-Follows}
use ciallo_ms_365_open_ai_pr.AccountStore.Ports.{next_cdp_port_first}

module _ {Json : Type 0} where
  unfoldable pub port_of : Option (Account Json) → Option ℕ
  port_of none = none
  port_of (some a) = some a.cdp_port

  -- The port of the account at the key.
  abbrev pub port_at : Text → AccountStore Json → Option ℕ
  port_at key s = port_of (get key s.accounts)

  -- A port belongs to one account, and it is not reserved.
  abbrev pub AreApart : AccountStore Json → Type 0
  AreApart s =
      ((j k : Text) (p : ℕ) → port_at j s ≡ some p → port_at k s ≡ some p → j ≡ k)
      × ((k : Text) (p : ℕ) → port_at k s ≡ some p → is_used p reserved_cdp_ports ≡ false)

  AreApart-fewer :
      (s t : AccountStore Json)
      → ((k : Text) (p : ℕ) → port_at k t ≡ some p → port_at k s ≡ some p)
      → AreApart s
      → AreApart t
  AreApart-fewer s t old h =
      (λ j k p hj hk. h.0 j k p (old j p hj) (old k p hk), λ k p hk. h.1 k p (old k p hk))

  unused-port_at :
      (p : ℕ) (d : Dict Text (Account Json)) (k : Text)
      → is_used p (used_ports d) ≡ false
      → port_of (get k d) ≢ some p
  unfolding get used_ports is_used port_of
  unused-port_at p [] k h eq = cc
  unused-port_at p ((j, a) ∷ d) k h eq = elim (Bool-cases (text_eq j k)) [
    | inl same ↦ ground (arith, eq)
    | inr other ↦
        let skip : get k ((j, a) ∷ d) ≡ get k d = rw other in
        unused-port_at p d k (ground arith) (ap port_of (sym skip) ∙ eq)
  ]

  -- A new account on a port that no account has.
  AreApart-new :
      (s t : AccountStore Json) (key : Text) (port : ℕ)
      → ((k : Text) (p : ℕ)
          → port_at k t ≡ some p
          → ((key ≡ k) × (port ≡ p)) ⊎ (port_at k s ≡ some p))
      → is_used port (used_ports s.accounts) ≡ false
      → is_used port reserved_cdp_ports ≡ false
      → AreApart s
      → AreApart t
  AreApart-new s t key port placed free allowed h = (
    λ j k p hj hk. apart j k p (placed j p hj) (placed k p hk),
    λ k p hk. kept k p (placed k p hk),
  )
    where
      taken : (k : Text) (p : ℕ) → port ≡ p → port_at k s ≡ some p → ⊥
      taken k p same at = unused-port_at port s.accounts k free (at ∙ ap some (sym same))

      apart :
          (j k : Text) (p : ℕ)
          → ((key ≡ j) × (port ≡ p)) ⊎ (port_at j s ≡ some p)
          → ((key ≡ k) × (port ≡ p)) ⊎ (port_at k s ≡ some p)
          → j ≡ k
      apart j k p (inl new) (inl new') = sym new.0 ∙ new'.0
      apart j k p (inl new) (inr old) = absurd (taken k p new.1 old)
      apart j k p (inr old) (inl new) = absurd (taken j p new.1 old)
      apart j k p (inr old) (inr old') = h.0 j k p old old'

      kept :
          (k : Text) (p : ℕ)
          → ((key ≡ k) × (port ≡ p)) ⊎ (port_at k s ≡ some p)
          → is_used p reserved_cdp_ports ≡ false
      kept k p (inl new) = rw (sym new.1) allowed
      kept k p (inr old) = h.1 k p old

  used_ports-reserved :
      (p : ℕ) (d : Dict Text (Account Json))
      → is_used p (used_ports d) ≡ false
      → is_used p reserved_cdp_ports ≡ false
  unfolding used_ports is_used
  used_ports-reserved p [] h = h
  used_ports-reserved p ((k, a) ∷ d) h = used_ports-reserved p d (ground arith)

  commit-port_at :
      (key : Text) (a : Account Json) (c : Change Json) (s : AccountStore Json) (k : Text)
      → get key s.accounts ≡ some a
      → Holds (Follows a) c
      → port_at k (commit key c s) ≡ port_at k s
  unfolding commit port_of
  commit-port_at key a refused s k known h = refl
  commit-port_at key a raised s k known h = refl
  commit-port_at key a (changed b) s k known (on_changed h) = elim (Bool-cases (text_eq key k)) [
    | inl same ↦
        let same_key : key ≡ k = (text_key.same_iff key k).0 same in
        rw (get-put key k b s.accounts, same, sym same_key, known, h.2)
    | inr other ↦ rw (get-put key k b s.accounts, other)
  ]

  popped-port_at :
      (key k : Text) (p : ℕ) (d : Dict Text (Account Json))
      → port_of (get k (pop key d)) ≡ some p
      → port_of (get k d) ≡ some p
  unfolding port_of
  popped-port_at key k p d h = elim (Bool-cases (text_eq key k)) [
    | inl same ↦
        let gone : get k (pop key d) ≡ none = rw (get-pop key k d, same) in
        let none_there : none ≡ some p = ap port_of (sym gone) ∙ h in cc
    | inr other ↦
        let stays : get k (pop key d) ≡ get k d = rw (get-pop key k d, other) in
        ap port_of (sym stays) ∙ h
  ]

  remove-AreApart : (key : Text) (s : AccountStore Json) → AreApart s → AreApart (remove key s).1
  unfolding remove
  remove-AreApart key s h = elim (Bool-cases (is_some (get key s.accounts))) [
    | inl known ↦ rw known (
        AreApart-fewer s (record s { accounts = pop key s.accounts })
          (λ k p at. popped-port_at key k p s.accounts at) h)
    | inr unknown ↦ rw unknown h
  ]

  put-port_at :
      (key : Text) (a : Account Json) (k : Text) (p : ℕ) (d : Dict Text (Account Json))
      → port_of (get k (put key a d)) ≡ some p
      → ((key ≡ k) × (a.cdp_port ≡ p)) ⊎ (port_of (get k d) ≡ some p)
  unfolding port_of
  put-port_at key a k p d h = elim (Bool-cases (text_eq key k)) [
    | inl same ↦
        let here : get k (put key a d) ≡ some a = rw (get-put key k a d, same) in
        let port : some a.cdp_port ≡ some p = ap port_of (sym here) ∙ h in
        inl ((text_key.same_iff key k).0 same, cc)
    | inr other ↦
        let stays : get k (put key a d) ≡ get k d = rw (get-put key k a d, other) in
        inr (ap port_of (sym stays) ∙ h)
  ]

module _ {Json : Type 0} ⦃e : Key Json⦄ (o : Outside Json) where
  account_call-port_at :
      (now : ℕ) (key : Text) (c : Call Json) (s : AccountStore Json) (k : Text)
      → port_at k (step o now (account_call key c) s) ≡ port_at k s
  unfolding step perform_at commit
  account_call-port_at now key c s k = elim (Option-cases (get key s.accounts)) [
    | inl unknown ↦ rw unknown
    | inr known ↦ rw known.1 (
        commit-port_at key known.0 (perform o now c known.0) s k known.1
          (perform-Follows o now c known.0))
  ]

  add_with-AreApart :
      (now : ℕ) (key : Text) (n : NewAccount Json) (session : Option (Option Json))
      (expiry : Option ℕ) (port : ℕ) (s : AccountStore Json)
      → is_used port (used_ports s.accounts) ≡ false
      → AreApart s
      → AreApart (commit key (add_with o now key n session expiry (some port)) s)
  unfolding commit add_with new_account account
  add_with-AreApart now key n (some session) (some expiry) port s free h =
      AreApart-new s
        (record s { accounts = put key (new_account o now key n session expiry port) s.accounts })
        key port
        (λ k p at. put-port_at key (new_account o now key n session expiry port) k p s.accounts at)
        free (used_ports-reserved port s.accounts free) h
  add_with-AreApart now key n (some session) none port s free h = h
  add_with-AreApart now key n none expiry port s free h = h

  step-AreApart :
      (now : ℕ) (c : StoreCall Json) (s : AccountStore Json)
      → AreApart s
      → AreApart (step o now c s)
  unfolding step add_account set_cdp_port_base
  step-AreApart now (account_call key c) s h =
      AreApart-fewer s (step o now (account_call key c) s)
        (λ k p at. sym (account_call-port_at now key c s k) ∙ at) h
  step-AreApart now (add_call key n) s h =
      let first = next_cdp_port_first s 0 in
      rw first.1 (add_with-AreApart now key n _ _ first.0 s first.3 h)
  step-AreApart now (remove_call key) s h = remove-AreApart key s h
  step-AreApart now (port_base_call port) s h = h

  run-kept_apart :
      (calls : List (ℕ × StoreCall Json)) (s : AccountStore Json)
      → AreApart s
      → AreApart (run o calls s)
  unfolding run
  run-kept_apart [] s h = h
  run-kept_apart ((now, c) ∷ calls) s h =
      run-kept_apart calls (step o now c s) (step-AreApart now c s h)

  empty-AreApart : AreApart (account_store {Json = Json})
  unfolding get port_of
  empty-AreApart = (λ j k p hj hk. cc, λ k p hk. cc)

  -- After any run from an empty store, accounts under different ids have different ports, and the port
  -- of an account is not reserved.
  pub run-port_at :
      (calls : List (ℕ × StoreCall Json)) (j k : Text) (p : ℕ)
      → port_at j (run o calls account_store) ≡ some p
      → port_at k (run o calls account_store) ≡ some p
      → (j ≡ k) × (is_used p reserved_cdp_ports ≡ false)
  run-port_at calls j k p hj hk =
      let apart = run-kept_apart calls account_store empty-AreApart in
      (apart.0 j k p hj hk, apart.1 j p hj)
