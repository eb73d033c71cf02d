-- ===== src/AccountStore/Ports.antt =====
-- `_next_cdp_port`: the search ends at a port that is free, and the accounts keep apart.
use ciallo_ms_365_open_ai_pr.Prelude.{
  ℕ, zero, suc, ◌≤◌, ◌<◌, ◌≡◌, inl, inr, true, false, not, ◌&&◌, ◌||◌, some, List, [], ◌∷◌, eqb,
  leb, ltb, arith, if◌then◌else◌, length, Bool-cases,
}
use ciallo_ms_365_open_ai_pr.AccountStore.Pool.{
  AccountStore, is_used, free_port, used_ports, next_cdp_port,
}

-- How many of the used ports are `port` or above.
unfoldable used_from : ℕ → List ℕ → ℕ
used_from port [] = 0
used_from port (p ∷ used) = let rest = used_from port used in if leb port p then suc rest else rest

used_from-length : (port : ℕ) (used : List ℕ) → used_from port used ≤ length used
unfolding used_from
used_from-length port [] = omega arith
used_from-length port (p ∷ used) = ground (arith, used_from-length port used)

used_from-suc : (port : ℕ) (used : List ℕ) → used_from (suc port) used ≤ used_from port used
unfolding used_from
used_from-suc port [] = omega arith
used_from-suc port (p ∷ used) = ground (arith, used_from-suc port used)

used_from-is_used :
    (port : ℕ) (used : List ℕ)
    → is_used port used ≡ true
    → used_from (suc port) used < used_from port used
unfolding used_from is_used
used_from-is_used port [] h = cc
used_from-is_used port (p ∷ used) h =
    ground (arith, used_from-suc port used, used_from-is_used port used)

-- A search with fuel for every used port it may meet finds the first free one.
free_port_lem :
    (fuel : ℕ) (used : List ℕ) (port : ℕ)
    → used_from port used < fuel
    → (found : ℕ) × (free_port fuel used port ≡ some found)
      × (port ≤ found)
      × (is_used found used ≡ false)
      × ((q : ℕ) → port ≤ q → q < found → is_used q used ≡ true)
unfolding free_port
free_port_lem zero used port h = ground arith
free_port_lem (suc fuel) used port h = elim (Bool-cases (is_used port used)) [
  | inl taken ↦
      let rest =
        free_port_lem fuel used (suc port) (omega (arith, used_from-is_used port used taken)) in
      (
        rest.0,
        rw (taken, rest.1),
        omega (arith, rest.2),
        rest.3,
        λ q low high. elim (Bool-cases (eqb q port)) [
          | inl same ↦ let q≡port : q ≡ port = ground arith in cc
          | inr other ↦ rest.4 q (ground arith) high
        ],
      )
  | inr free ↦ (port, rw free, omega arith, free, λ q low high. ground arith)
]

module _ {Json : Type 0} where
  -- `_next_cdp_port` ends, whatever ports are taken, at a port from the base on that no account has
  -- and that is not reserved; any port `q` from the base on and before it is taken.
  pub next_cdp_port_first :
      (s : AccountStore Json) (q : ℕ)
      → (found : ℕ) × (next_cdp_port s ≡ some found)
        × (s.port_base ≤ found)
        × (is_used found (used_ports s.accounts) ≡ false)
        × ((not (leb s.port_base q && ltb q found) || is_used q (used_ports s.accounts)) ≡ true)
  unfolding next_cdp_port
  next_cdp_port_first s q =
      let first =
        free_port_lem (suc (length (used_ports s.accounts))) (used_ports s.accounts) s.port_base
          (omega (arith, used_from-length s.port_base (used_ports s.accounts))) in
      (first.0, first.1, first.2, first.3, ground (arith, first.4 q))
