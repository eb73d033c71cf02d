-- ===== src/History/Tenants.antt =====
-- Whose sessions a match can return, after any calls; and how many entries there are.
use mathlib.Core.Path.{subst}
use ciallo_ms_365_open_ai_pr.Prelude.{
  ℕ, ◌-◌, ◌≡◌, refl, inl, inr, true, Option, none, some, List, [], ◌∷◌, arith, All, length,
  contains, same_refl, Option-cases,
}
use ciallo_ms_365_open_ai_pr.Prelude.Text.{Text, text_key}
use ciallo_ms_365_open_ai_pr.Dict.{Dict, get, put_last}
use ciallo_ms_365_open_ai_pr.Dict.Values.{All-drop, All-put_last, All-get}
use ciallo_ms_365_open_ai_pr.History.Recorded.{
  Event, record_event, match_event, no_nul, clean_tenants, but_last, longest-found, step, run,
  recorded, entered, all_entered, all_entered-later, all_entered-contains, add_owner-all_entered,
  entered-recorded,
}
use ciallo_ms_365_open_ai_pr.History.{
  Pair, Index, entry, last_of, longest, unique, add_owner, owners_of, evict, record_digests,
  match_digests, settle, answer, record_last, chain, match_history, record_history,
}

module _ (sha256 utf8 : Text → Text) where
  abbrev Sound : List Event → Dict Text (List Text) → Type 0
  Sound events entries =
      All (λ (x : Text × List Text). all_entered sha256 utf8 x.0 x.1 events ≡ true) entries

  Sound-later :
      (event : Event) (events : List Event) (entries : Dict Text (List Text))
      → Sound events entries
      → Sound (event ∷ events) entries
  Sound-later event events [] h = tt
  Sound-later event events ((e, owners) ∷ entries) h = (
    all_entered-later sha256 utf8 e owners event events h.0,
    Sound-later event events entries h.1,
  )

  owners_of-Sound :
      (e : Text) (events : List Event) (entries : Dict Text (List Text))
      → Sound events entries
      → all_entered sha256 utf8 e (owners_of e entries) events ≡ true
  unfolding owners_of all_entered
  owners_of-Sound e events entries h = elim (Option-cases (get e entries)) [
    | inl absent ↦ ground (arith, absent)
    | inr (owners, there) ↦ ground (
      arith,
      there,
      All-get (λ (x : Text × List Text). all_entered sha256 utf8 x.0 x.1 events ≡ true) e owners
          entries h there,
    )
  ]

  record_last-Sound :
      (tenant key : Text) (pairs : List Pair) (events : List Event) (i : Index) (o : Option Text)
      → last_of (chain sha256 utf8 pairs) ≡ o
      → Sound events i.entries
      → Sound (record_event tenant pairs key ∷ events) (record_last tenant key i o).entries
  unfolding record_last evict
  record_last-Sound tenant key pairs events i none e h = Sound-later _ events i.entries h
  record_last-Sound tenant key pairs events i (some d) e h =
      All-drop _ (length moved - i.max_entries) moved (
        All-put_last _ (entry tenant d) added i.entries
          (Sound-later (record_event tenant pairs key) events i.entries h)
          (add_owner-all_entered sha256 utf8 (entry tenant d) key
            (owners_of (entry tenant d) i.entries) _
            (all_entered-later sha256 utf8 (entry tenant d) (owners_of (entry tenant d) i.entries) _
              events (owners_of-Sound (entry tenant d) events i.entries h))
            now))
    where
      added : List Text
      added = add_owner key (owners_of (entry tenant d) i.entries)

      moved : Dict Text (List Text)
      moved = put_last (entry tenant d) added i.entries

      now : entered sha256 utf8 (entry tenant d) key (record_event tenant pairs key ∷ events) ≡ true
      now = unfold entered in ground (arith, e, same_refl (entry tenant d), same_refl key)

  step-Sound :
      (events : List Event) (event : Event) (i : Index)
      → Sound events i.entries
      → Sound (event ∷ events) (step sha256 utf8 i event).entries
  unfolding step record_history record_digests match_history match_digests
  step-Sound events (record_event tenant pairs key) i h =
      record_last-Sound tenant key pairs events i (last_of (chain sha256 utf8 pairs)) refl h
  step-Sound events (match_event tenant pairs) i h =
      go (longest tenant i.entries (chain sha256 utf8 pairs)) refl
    where
      settled : (j : Index) (o : Option Text) → (settle j o).1.entries ≡ j.entries
      settled j none = unfold settle in refl
      settled j (some key) = unfold settle in refl

      go :
          (o : Option (Text × List Text))
          → longest tenant i.entries (chain sha256 utf8 pairs) ≡ o
          → Sound (match_event tenant pairs ∷ events) (answer i o).1.entries
      go none e = unfold answer in Sound-later _ events i.entries h
      go (some (k, owners)) e =
          unfold answer in
          rw (settled (record i { entries = put_last k owners i.entries }) (unique owners)) (
            All-put_last _ k owners i.entries
              (Sound-later (match_event tenant pairs) events i.entries h)
              (all_entered-later sha256 utf8 k owners _ events (
                All-get _ k owners i.entries h
                  (longest-found tenant k i.entries (chain sha256 utf8 pairs) owners e).3)))

  run-Sound : (n : ℕ) (events : List Event) → Sound events (run sha256 utf8 n events).entries
  unfolding run
  run-Sound n [] = tt
  run-Sound n (event ∷ events) =
      step-Sound events event (run sha256 utf8 n events) (run-Sound n events)

  unique-contains :
      (owners : List Text) (key : Text) → unique owners ≡ some key → contains key owners ≡ true
  unfolding unique contains
  unique-contains [] key h = absurd cc
  unique-contains (k ∷ []) key h = ground (arith, (text_key.same_iff k key).1 cc)
  unique-contains (k ∷ j ∷ ks) key h = absurd cc

  settle_unique :
      (i : Index) (o : Option Text) (key : Text) → (settle i o).0 ≡ some key → o ≡ some key
  unfolding settle
  settle_unique i none key h = absurd cc
  settle_unique i (some k) key h = h

  -- What a match returns was recorded for the caller's own tenant, as the owner of a history whose
  -- digest is that of a strict prefix of the asked one, if no tenant's id holds a NUL.
  pub match_history-recorded :
      (n : ℕ) (events : List Event) (tenant key : Text) (pairs : List Pair)
      → no_nul tenant ≡ true
      → clean_tenants events ≡ true
      → (match_history sha256 utf8 tenant pairs (run sha256 utf8 n events)).0 ≡ some key
      → (d : Text) × (contains d (but_last (chain sha256 utf8 pairs)) ≡ true)
        × (recorded sha256 utf8 tenant d key events ≡ true)
  unfolding match_history match_digests
  match_history-recorded n events tenant key pairs clean cleans h =
      go (longest tenant i.entries (chain sha256 utf8 pairs)) refl h
    where
      i : Index
      i = run sha256 utf8 n events

      go :
          (o : Option (Text × List Text))
          → longest tenant i.entries (chain sha256 utf8 pairs) ≡ o
          → (answer i o).0 ≡ some key
          → (d : Text) × (contains d (but_last (chain sha256 utf8 pairs)) ≡ true)
            × (recorded sha256 utf8 tenant d key events ≡ true)
      go none e g = absurd (unfold answer in cc)
      go (some (k, owners)) e g =
          let found = longest-found tenant k i.entries (chain sha256 utf8 pairs) owners e in
          let sound = All-get _ k owners i.entries (run-Sound n events) found.3 in
          let own =
            settle_unique (record i { entries = put_last k owners i.entries }) (unique owners) key
              (unfold answer in g) in
          (
            found.0,
            found.1,
            entered-recorded sha256 utf8 tenant found.0 key events clean cleans (
                subst (λ (x : Text). entered sha256 utf8 x key events ≡ true) found.2
                  (all_entered-contains sha256 utf8 k owners key events sound
                    (unique-contains owners key own))),
          )
