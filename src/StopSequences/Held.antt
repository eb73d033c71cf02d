-- ===== src/StopSequences/Held.antt =====
-- `_held_suffix_len`: no longer suffix is the front of a stop, so nothing released is.
use native.Mathlib.Decide.{dec_lt}
use mathlib.Core.Option
use ciallo_ms_365_open_ai_pr.Prelude.{
  ℕ, zero, suc, ◌+◌, ◌-◌, ◌<◌, ◌≤◌, min, ◌≡◌, refl, ap, ◌⊎◌, false, Option, none, some, List, [],
  ◌∷◌, ◌++◌, arith, length, take, drop, length-append, All, inl, inr, append_assoc, ◌∙◌,
}
use ciallo_ms_365_open_ai_pr.Prelude.Text.{Text, text_eq, starts_with, find}
use ciallo_ms_365_open_ai_pr.StopSequences.{held_scan, held_stops, held_suffix_len}

-- No suffix of `pending` longer than `h` is a proper prefix of `stop`.
abbrev pub IsHeld : Text → ℕ → Text → Type 0
IsHeld pending h stop =
    (pre u : Text)
    → pre ++ u ≡ pending
    → h < length u
    → length u < length stop
    → text_eq u (take (length u) stop) ≡ false

pub drop-append : (pre u : Text) → drop (length pre) (pre ++ u) ≡ u
drop-append [] u = refl
drop-append (x ∷ pre) u = drop-append pre u

-- The scan goes up at most `n` sizes.
held_scan_bounds :
    (pending stop : Text) (longest n : ℕ)
    → (longest ≤ held_scan pending stop longest n)
      × (held_scan pending stop longest n ≤ longest + n)
unfolding held_scan
held_scan_bounds pending stop longest zero = omega arith
held_scan_bounds pending stop longest (suc n) =
    ground (arith, held_scan_bounds pending stop longest n)

-- Every size above the result, up to `longest + n`, fails the test.
held_scan-fails :
    (pending stop : Text) (longest n size : ℕ)
    → held_scan pending stop longest n < size
    → size ≤ longest + n
    → longest < size
    → text_eq (drop (length pending - size) pending) (take size stop) ≡ false
unfolding held_scan
held_scan-fails pending stop longest zero size above below big = absurd (omega arith)
held_scan-fails pending stop longest (suc n) size above below big =
    ground (arith, held_scan-fails pending stop longest n size)

held_scan-IsHeld :
    (pending stop : Text) (longest : ℕ)
    → IsHeld pending
        (held_scan pending stop longest (min (length stop - 1) (length pending) - longest))
        stop
held_scan-IsHeld pending stop longest pre u split big small =
    let h : length pre + length u ≡ length pending =
      omega (arith, length-append pre u, ap (λ (t : Text). length t) split) in
    let n = min (length stop - 1) (length pending) - longest in
    let fails =
      held_scan-fails pending stop longest n (length u) big (omega arith)
        (omega (arith, (held_scan_bounds pending stop longest n).0)) in
    let at : drop (length pending - length u) pending ≡ u =
      let e : length pending - length u ≡ length pre = omega arith in cc (e, drop-append pre u) in
    rw at at fails

-- The loop over the stops only goes up, and never beyond what is pending.
held_stops_bounds :
    (pending : Text) (longest : ℕ) (stops : List Text)
    → longest ≤ length pending
    → (longest ≤ held_stops pending longest stops)
      × (held_stops pending longest stops ≤ length pending)
unfolding held_stops
held_stops_bounds pending longest [] h = omega arith
held_stops_bounds pending longest (stop ∷ stops) h =
    let n = min (length stop - 1) (length pending) - longest in
    let b = held_scan_bounds pending stop longest n in
    let ih = held_stops_bounds pending (held_scan pending stop longest n) stops (omega arith) in
    (omega arith, ih.1)

held_stops-IsHeld :
    (pending : Text) (longest : ℕ) (stops : List Text)
    → longest ≤ length pending
    → All (IsHeld pending (held_stops pending longest stops)) stops
unfolding held_stops
held_stops-IsHeld pending longest [] h = tt
held_stops-IsHeld pending longest (stop ∷ stops) h =
    let n = min (length stop - 1) (length pending) - longest in
    let next = held_scan pending stop longest n in
    let b = held_scan_bounds pending stop longest n in
    let up = held_stops_bounds pending next stops (omega arith) in
    (
      λ pre u split big small.
          held_scan-IsHeld pending stop longest pre u split (omega arith) small,
      held_stops-IsHeld pending next stops (omega arith),
    )

-- What is held is part of what is pending, and no longer suffix is the front of a stop.
pub held_suffix_len-IsHeld :
    (pending : Text) (stops : List Text)
    → (held_suffix_len pending stops ≤ length pending)
      × All (IsHeld pending (held_suffix_len pending stops)) stops
unfolding held_suffix_len
held_suffix_len-IsHeld pending stops = (
  (held_stops_bounds pending 0 stops (omega arith)).1,
  held_stops-IsHeld pending 0 stops (omega arith),
)

-- A needle found in `u ++ e` but not in `u` at its start runs over the end of `u`.
pub starts_with-split :
    (s u e : Text)
    → starts_with s u ≡ false
    → text_eq u (take (length u) s) ≡ false ⊎ (length s ≤ length u)
    → starts_with s (u ++ e) ≡ false
unfolding starts_with text_eq
starts_with-split [] u e h k = cc
starts_with-split (x ∷ s) [] e h k = elim k [ inl never ↦ cc | inr never ↦ absurd (omega arith) ]
starts_with-split (x ∷ s) (y ∷ u) e h k = ground (arith, starts_with-split s u e)

find_cons-none :
    (s : Text) (c : ℕ) (t : Text)
    → find s (c ∷ t) ≡ none
    → (starts_with s (c ∷ t) ≡ false) × (find s t ≡ none)
unfolding find
find_cons-none s c t h = ground arith

find_cons-later :
    (s : Text) (c : ℕ) (t : Text)
    → starts_with s (c ∷ t) ≡ false
    → find s (c ∷ t) ≡ Option.map suc (find s t)
unfolding find
find_cons-later s c t h = rw h

map_zero : (o : Option ℕ) → o ≡ Option.map (λ i. 0 + i) o
map_zero none = refl
map_zero (some i) = ground arith

map-suc :
    (n : ℕ) (o : Option ℕ)
    → Option.map suc (Option.map (λ i. n + i) o) ≡ Option.map (λ i. suc n + i) o
map-suc n none = refl
map-suc n (some i) = ground arith

pub find_held :
    (s pending hold e pre out : Text)
    → pre ++ (out ++ hold) ≡ pending
    → IsHeld pending (length hold) s
    → find s (out ++ hold) ≡ none
    → find s (out ++ hold ++ e) ≡ Option.map (λ i. length out + i) (find s (hold ++ e))
find_held s pending hold e pre [] split held miss = map_zero (find s (hold ++ e))
find_held s pending hold e pre (c ∷ out) split held miss =
    let u : Text = c ∷ out ++ hold in
    let (here, later) = find_cons-none s c (out ++ hold) miss in
    let big : length hold < length u = omega (arith, length-append out hold) in
    let apart : starts_with s (u ++ e) ≡ false = elim (dec_lt (length u) (length s)) [
      | yes small ↦ starts_with-split s u e here (inl (held pre u split big small))
      | no large ↦ starts_with-split s u e here (inr (omega arith))
    ] in
    let ih =
      find_held s pending hold e (pre ++ c ∷ []) out
        (append_assoc pre (c ∷ []) (out ++ hold) ∙ split) held later in
    find_cons-later s c (out ++ hold ++ e) apart
    ∙ ap (Option.map suc) ih
    ∙ map-suc (length out) (find s (hold ++ e))
