-- ===== src/History/Shared.antt =====
-- A history of several sessions: none of them is resumed by it while its entry is there.
use ciallo_ms_365_open_ai_pr.Prelude.{
  ℕ, ◌-◌, ◌≤◌, ◌≡◌, refl, sym, ◌∙◌, ap, inl, inr, Bool, true, false, ◌&&◌, ◌||◌, Option, none, some,
  List, [], ◌∷◌, ◌++◌, arith, length, ◌==◌, is_some, same_refl, Option-cases, Bool-cases,
}
use mathlib.Core.Path.{subst}
use ciallo_ms_365_open_ai_pr.Prelude.Text.{Text, text_key}
use ciallo_ms_365_open_ai_pr.Dict.{Dict, get, put_last}
use ciallo_ms_365_open_ai_pr.Dict.Values.{All-drop, All-put_last, All-get}
use ciallo_ms_365_open_ai_pr.History.{
  Pair, Index, entry, last_of, longest, unique, add_owner, owners_of, evict, record_digests,
  match_digests, settle, answer, record_last, chain, match_history, record_history,
}
use ciallo_ms_365_open_ai_pr.History.Recorded.{
  Event, record_event, match_event, longest-found, step, run,
}
use ciallo_ms_365_open_ai_pr.History.Bounded.{run-Small}
use ciallo_ms_365_open_ai_pr.History.Continue.{
  get-record_digests, longest-last, match_digests-found, chain-last,
}
use ciallo_ms_365_open_ai_pr.History.Owned.{
  is_owner, add_owner-is_owner, add_owner-owner, unique-two, owned, owned-owner, Owned,
  put_last-Owned,
}

module _ (sha256 utf8 : Text → Text) where
  -- The event records `key` under the entry.
  unfoldable pub names : Text → Text → Event → Bool
  names e key (match_event tenant pairs) = false
  names e key (record_event tenant pairs k) =
      elim (last_of (chain sha256 utf8 pairs)) [ none ↦ false | some d ↦ entry tenant d == e ]
      && k == key

  -- After these calls, the latest first, `key` has been recorded under the entry, and since then the
  -- entry has been there: it was not evicted.
  unfoldable pub recorded_since : ℕ → Text → Text → List Event → Bool
  recorded_since n e key [] = false
  recorded_since n e key (event ∷ earlier) =
      names e key event
      || (recorded_since n e key earlier
          && is_some (get e (run sha256 utf8 n (event ∷ earlier)).entries))

  record_last-names :
      (e key : Text) (i : Index) (tenant d : Text)
      → entry tenant d ≡ e
      → Owned e key (record_last tenant key i (some d)).entries
  unfolding record_last evict
  record_last-names e key i tenant d at =
      subst (λ (f : Text). Owned f key (record_last tenant key i (some d)).entries) at
        (All-drop _ (length moved - i.max_entries) moved (
          put_last-Owned (entry tenant d) key added i.entries
            (add_owner-owner key (owners_of (entry tenant d) i.entries))))
    where
      added : List Text
      added = add_owner key (owners_of (entry tenant d) i.entries)

      moved : Dict Text (List Text)
      moved = put_last (entry tenant d) added i.entries

  owners_of-Owned :
      (e key : Text) (entries : Dict Text (List Text))
      → is_some (get e entries) ≡ true
      → Owned e key entries
      → is_owner key (owners_of e entries) ≡ true
  unfolding owners_of owned
  owners_of-Owned e key entries there h = elim (Option-cases (get e entries)) [
    | inl absent ↦ absurd (ground (arith, absent, there))
    | inr (owners, found) ↦
        let o = All-get (λ (x : Text × List Text). owned e key x ≡ true) e owners entries h found in
        ground (arith, found, o, same_refl e)
  ]

  record_last-Owned :
      (e key k tenant : Text) (i : Index) (o : Option Text)
      → is_some (get e i.entries) ≡ true
      → Owned e key i.entries
      → Owned e key (record_last tenant k i o).entries
  unfolding record_last evict
  record_last-Owned e key k tenant i none there h = h
  record_last-Owned e key k tenant i (some d) there h =
      All-drop _ (length moved - i.max_entries) moved
        (All-put_last _ (entry tenant d) added i.entries h kept)
    where
      added : List Text
      added = add_owner k (owners_of (entry tenant d) i.entries)

      moved : Dict Text (List Text)
      moved = put_last (entry tenant d) added i.entries

      kept : owned e key (entry tenant d, added) ≡ true
      kept =
          unfold owned in
          elim (Bool-cases (entry tenant d == e)) [
            | inr other ↦ ground (arith, other)
            | inl same ↦
                let at : e ≡ entry tenant d = sym ((text_key.same_iff (entry tenant d) e).0 same) in
                let before =
                  subst (λ (f : Text). is_owner key (owners_of f i.entries) ≡ true) at
                    (owners_of-Owned e key i.entries there h) in
                ground
                  (arith, add_owner-is_owner key k (owners_of (entry tenant d) i.entries) before)
          ]

  answer-Owned :
      (e key : Text) (digests : List Text) (tenant : Text) (i : Index)
      (o : Option (Text × List Text))
      → longest tenant i.entries digests ≡ o
      → Owned e key i.entries
      → Owned e key (answer i o).1.entries
  unfolding answer
  answer-Owned e key digests tenant i none at h = h
  answer-Owned e key digests tenant i (some (f, owners)) at h =
      rw (settled (record i { entries = put_last f owners i.entries }) (unique owners)) (
        All-put_last _ f owners i.entries h
          (All-get _ f owners i.entries h (longest-found tenant f i.entries digests owners at).3))
    where
      settled : (j : Index) (o : Option Text) → (settle j o).1.entries ≡ j.entries
      settled j none = unfold settle in refl
      settled j (some k) = unfold settle in refl

  step-Owned :
      (e key : Text) (i : Index) (event : Event)
      → is_some (get e i.entries) ≡ true
      → Owned e key i.entries
      → Owned e key (step sha256 utf8 i event).entries
  unfolding step record_history record_digests match_history match_digests
  step-Owned e key i (record_event tenant pairs k) there h =
      record_last-Owned e key k tenant i (last_of (chain sha256 utf8 pairs)) there h
  step-Owned e key i (match_event tenant pairs) there h =
      answer-Owned e key (chain sha256 utf8 pairs) tenant i _ refl h

  -- The event that records it leaves it there.
  step-names :
      (e key : Text) (i : Index) (event : Event)
      → 1 ≤ i.max_entries
      → names e key event ≡ true
      → (is_some (get e (step sha256 utf8 i event).entries) ≡ true)
        × Owned e key (step sha256 utf8 i event).entries
  unfolding names step record_history record_digests
  step-names e key i (match_event tenant pairs) n h = absurd cc
  step-names e key i (record_event tenant pairs k) n h =
      elim (Option-cases (last_of (chain sha256 utf8 pairs))) [
        | inl nothing ↦ absurd (ground (arith, nothing, h))
        | inr (d, last) ↦
            let same : k ≡ key = (text_key.same_iff k key).0 (ground (arith, last, h)) in
            let at : entry tenant d ≡ e =
              (text_key.same_iff (entry tenant d) e).0 (ground (arith, last, h)) in
            let left = record_digests tenant (chain sha256 utf8 pairs) k i in
            let there = get-record_digests tenant k d (chain sha256 utf8 pairs) i last n in
            (
              subst (λ (f : Text). is_some (get f left.entries) ≡ true) at
                  (ap (λ (o : Option (List Text)). is_some o) there),
              rw (last, same) (record_last-names e key i tenant d at),
            )
      ]

  recorded_since-Owned :
      (n : ℕ) (e key : Text) (events : List Event)
      → 1 ≤ n
      → recorded_since n e key events ≡ true
      → (is_some (get e (run sha256 utf8 n events).entries) ≡ true)
        × Owned e key (run sha256 utf8 n events).entries
  unfolding recorded_since run
  recorded_since-Owned n e key [] h s = absurd cc
  recorded_since-Owned n e key (event ∷ earlier) h s = elim (Bool-cases (names e key event)) [
    | inl now ↦
        step-names e key (run sha256 utf8 n earlier) event
          (rw (run-Small sha256 utf8 n earlier).1 h) now
    | inr other ↦
        let before = recorded_since-Owned n e key earlier h (ground (arith, other, s)) in
        (
          ground (arith, other, s),
          step-Owned e key (run sha256 utf8 n earlier) event before.0 before.1,
        )
  ]

  -- The history of `pairs` was recorded for two sessions of a tenant, its entry was not evicted since
  -- the earlier of the two was recorded, and the index has room for an entry. Then the next turn of
  -- that history, with one message more, resumes no session, whatever calls were made otherwise.
  pub match_history-ambiguous :
      (n : ℕ) (events : List Event) (tenant d j k : Text) (pairs : List Pair) (p : Pair)
      → 1 ≤ n
      → last_of (chain sha256 utf8 pairs) ≡ some d
      → recorded_since n (entry tenant d) j events ≡ true
      → recorded_since n (entry tenant d) k events ≡ true
      → (j == k) ≡ false
      → (match_history sha256 utf8 tenant (pairs ++ p ∷ []) (run sha256 utf8 n events)).0 ≡ none
  unfolding match_history
  match_history-ambiguous n events tenant d j k pairs p room last first second differ =
      let one = recorded_since-Owned n (entry tenant d) j events room first in
      let two = recorded_since-Owned n (entry tenant d) k events room second in
      rw (chain-last sha256 utf8 pairs p).1 (found one two)
    where
      i : Index
      i = run sha256 utf8 n events

      found :
          (is_some (get (entry tenant d) i.entries) ≡ true) × Owned (entry tenant d) j i.entries
          → (is_some (get (entry tenant d) i.entries) ≡ true) × Owned (entry tenant d) k i.entries
          → (match_digests tenant
              (chain sha256 utf8 pairs ++ (chain-last sha256 utf8 pairs p).0 ∷ [])
              i).0
            ≡ none
      found one two = elim (Option-cases (get (entry tenant d) i.entries)) [
        | inl absent ↦ absurd (ground (arith, absent, one.0))
        | inr (owners, there) ↦
            match_digests-found tenant (entry tenant d) _ owners i
              (longest-last tenant d _ i.entries (chain sha256 utf8 pairs) owners last there)
            ∙ unique-two j k owners differ (owner_of j owners there one.1)
                (owner_of k owners there two.1)
      ]
        where
          owner_of :
              (key : Text) (owners : List Text)
              → get (entry tenant d) i.entries ≡ some owners
              → Owned (entry tenant d) key i.entries
              → is_owner key owners ≡ true
          owner_of key owners there h =
              let o =
                All-get (λ (x : Text × List Text). owned (entry tenant d) key x ≡ true)
                  (entry tenant d) owners i.entries h there in
              owned-owner (entry tenant d) key owners o
