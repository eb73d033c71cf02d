-- ===== src/History/Recorded.antt =====
-- The calls that recorded a session under an entry, and what the entry tells of them.
use ciallo_ms_365_open_ai_pr.Prelude.{
  ℕ, ◌≡◌, refl, inl, inr, Bool, true, false, not, ◌&&◌, ◌||◌, Option, none, some, List, [], ◌∷◌,
  ◌++◌, arith, eqb, ◌==◌, contains, same_refl, Option-cases, Bool-cases,
}
use ciallo_ms_365_open_ai_pr.Prelude.Text.{Text, text_key, text_eq}
use ciallo_ms_365_open_ai_pr.Dict.{Dict, get}
use ciallo_ms_365_open_ai_pr.History.{
  Pair, Index, index, entry, last_of, longest, add_owner, chain, match_history, record_history,
}

pub data Event : Type 0 where
  record_event : Text → List Pair → Text → Event
  match_event : Text → List Pair → Event

unfoldable pub no_nul : Text → Bool
no_nul [] = true
no_nul (c ∷ s) = not (eqb c 0) && no_nul s

unfoldable pub clean_tenants : List Event → Bool
clean_tenants [] = true
clean_tenants (record_event tenant pairs key ∷ events) = no_nul tenant && clean_tenants events
clean_tenants (match_event tenant pairs ∷ events) = clean_tenants events

unfoldable pub but_last : List Text → List Text
but_last [] = []
but_last (d ∷ []) = []
but_last (d ∷ e ∷ ds) = d ∷ but_last (e ∷ ds)

abbrev pub is_digest : Text → Option Text → Bool
is_digest d none = false
is_digest d (some e) = e == d

entry-tenant :
    (t u d e : Text)
    → no_nul t ≡ true
    → no_nul u ≡ true
    → entry t d ≡ entry u e
    → ((t == u) ≡ true) × (d ≡ e)
unfolding no_nul entry text_eq
entry-tenant [] [] d e h g eq = (refl, cc)
entry-tenant [] (y ∷ u) d e h g eq = absurd (grind arith)
entry-tenant (x ∷ t) [] d e h g eq = absurd (grind arith)
entry-tenant (x ∷ t) (y ∷ u) d e h g eq =
    let ih = entry-tenant t u d e (ground arith) (ground arith) cc in
    let head : x ≡ y = cc in (ground (arith, ih.0, head), ih.1)

pub longest-found :
    (tenant e : Text) (entries : Dict Text (List Text)) (digests owners : List Text)
    → longest tenant entries digests ≡ some (e, owners)
    → (d : Text) × (contains d (but_last digests) ≡ true)
      × (e ≡ entry tenant d)
      × (get e entries ≡ some owners)
unfolding longest but_last contains
longest-found tenant e entries [] owners h = absurd cc
longest-found tenant e entries (x ∷ []) owners h = absurd cc
longest-found tenant e entries (x ∷ y ∷ ds) owners h =
    elim (Option-cases (longest tenant entries (y ∷ ds))) [
      | inr ((e', o), later) ↦
          let ih = longest-found tenant e' entries (y ∷ ds) o later in
          (ih.0, ground (arith, ih.1), grind (arith, ih.2, later, h), grind (arith, ih.3, later, h))
      | inl nothing ↦ elim (Option-cases (get (entry tenant x) entries)) [
        | inl absent ↦ absurd (ground (arith, nothing, absent))
        | inr (o, there) ↦ (
          x,
          ground (arith, same_refl x),
          grind (arith, nothing, there, h),
          grind (arith, nothing, there, h),
        )
      ]
    ]

-- Every owner of an entry recorded it.
module _ (sha256 utf8 : Text → Text) where
  unfoldable pub step : Index → Event → Index
  step i (record_event tenant pairs key) = record_history sha256 utf8 tenant pairs key i
  step i (match_event tenant pairs) = (match_history sha256 utf8 tenant pairs i).1

  -- The calls, the latest first.
  unfoldable pub run : ℕ → List Event → Index
  run n [] = index n
  run n (event ∷ earlier) = step (run n earlier) event

  -- `key` was recorded for `tenant` with a history of this digest.
  unfoldable pub recorded : Text → Text → Text → List Event → Bool
  recorded tenant d key [] = false
  recorded tenant d key (match_event t pairs ∷ events) = recorded tenant d key events
  recorded tenant d key (record_event t pairs k ∷ events) =
      (t == tenant && is_digest d (last_of (chain sha256 utf8 pairs)) && k == key)
      || recorded tenant d key events

  -- The same, by the entry.
  unfoldable pub entered : Text → Text → List Event → Bool
  entered e key [] = false
  entered e key (match_event t pairs ∷ events) = entered e key events
  entered e key (record_event t pairs k ∷ events) =
      (elim (last_of (chain sha256 utf8 pairs)) [ none ↦ false | some d ↦ entry t d == e ]
        && k == key)
      || entered e key events

  unfoldable pub all_entered : Text → List Text → List Event → Bool
  all_entered e [] events = true
  all_entered e (k ∷ owners) events = entered e k events && all_entered e owners events

  entered-later :
      (e key : Text) (event : Event) (events : List Event)
      → entered e key events ≡ true
      → entered e key (event ∷ events) ≡ true
  unfolding entered
  entered-later e key (record_event t pairs k) events h = ground arith
  entered-later e key (match_event t pairs) events h = h

  pub all_entered-later :
      (e : Text) (owners : List Text) (event : Event) (events : List Event)
      → all_entered e owners events ≡ true
      → all_entered e owners (event ∷ events) ≡ true
  unfolding all_entered
  all_entered-later e [] event events h = refl
  all_entered-later e (k ∷ owners) event events h =
      ground (arith, entered-later e k event events, all_entered-later e owners event events)

  pub all_entered-contains :
      (e : Text) (owners : List Text) (key : Text) (events : List Event)
      → all_entered e owners events ≡ true
      → contains key owners ≡ true
      → entered e key events ≡ true
  unfolding all_entered contains
  all_entered-contains e [] key events h c = absurd cc
  all_entered-contains e (k ∷ owners) key events h c = elim (Bool-cases (k == key)) [
    | inl same ↦ grind (arith, (text_key.same_iff k key).0 same)
    | inr other ↦ all_entered-contains e owners key events (ground arith) (ground arith)
  ]

  all_entered-append :
      (e key : Text) (owners : List Text) (events : List Event)
      → all_entered e owners events ≡ true
      → entered e key events ≡ true
      → all_entered e (owners ++ key ∷ []) events ≡ true
  unfolding all_entered
  all_entered-append e key [] events h k = ground arith
  all_entered-append e key (j ∷ owners) events h k =
      ground (arith, all_entered-append e key owners events)

  pub add_owner-all_entered :
      (e key : Text) (owners : List Text) (events : List Event)
      → all_entered e owners events ≡ true
      → entered e key events ≡ true
      → all_entered e (add_owner key owners) events ≡ true
  unfolding add_owner
  add_owner-all_entered e key owners events h k =
      ground (arith, all_entered-append e key owners events)

  pub entered-recorded :
      (tenant d key : Text) (events : List Event)
      → no_nul tenant ≡ true
      → clean_tenants events ≡ true
      → entered (entry tenant d) key events ≡ true
      → recorded tenant d key events ≡ true
  unfolding entered recorded clean_tenants
  entered-recorded tenant d key [] n c h = absurd cc
  entered-recorded tenant d key (match_event t pairs ∷ events) n c h =
      entered-recorded tenant d key events n c h
  entered-recorded tenant d key (record_event t pairs k ∷ events) n c h =
      let ih = entered-recorded tenant d key events n (ground arith) in
      elim (Option-cases (last_of (chain sha256 utf8 pairs))) [
        | inl e ↦ ground (arith, e)
        | inr (d', e) ↦ elim (Bool-cases (entry t d' == entry tenant d)) [
          | inr other ↦ ground (arith, e, other)
          | inl same ↦
              let both =
                entry-tenant t tenant d' d (ground arith) n
                  ((text_key.same_iff (entry t d') (entry tenant d)).0 same) in
              ground (arith, e, same, both.0, (text_key.same_iff d' d).1 both.1)
        ]
      ]
