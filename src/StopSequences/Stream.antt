-- ===== src/StopSequences/Stream.antt =====
-- The trimmer over a stream of deltas, against `apply_stop` on the text received so far.
use ciallo_ms_365_open_ai_pr.Prelude.{
  ℕ, ◌+◌, ◌-◌, ◌≡◌, refl, ap, ◌⊎◌, true, false, Option, none, some, List, [], ◌∷◌, ◌++◌, arith,
  if◌then◌else◌, length, take, drop, length-append, All, inl, inr, Bool-cases, not, select, eqb,
  append_assoc, ◌∙◌, sym, append-nil, take-append-drop, length-drop,
}
use ciallo_ms_365_open_ai_pr.Prelude.Text.{Text, is_empty, find}
use ciallo_ms_365_open_ai_pr.StopSequences.{
  Trimmer, trimmer, apply_stop, held_suffix_len, release, feed_pending, feed, flush, deliver,
}
use ciallo_ms_365_open_ai_pr.StopSequences.Apply.{
  NonEmpty, Shift, apply_stop-miss, apply_stop-Shift, apply_stop-no_stops, is_empty-append,
}
use ciallo_ms_365_open_ai_pr.StopSequences.Held.{IsHeld, held_suffix_len-IsHeld, find_held}
use mathlib.Core.Option
use mathlib.Core.Path.{subst}

-- The reference: `apply_stop` on all the text so far, after every delta, until it hits.
unfoldable pub stop_after : List Text → Text → List Text → Text × Text
stop_after stops acc [] = (acc, [])
stop_after stops acc (delta ∷ deltas) =
    let rest = stop_after stops (acc ++ delta) deltas in
    if is_empty (apply_stop (acc ++ delta) stops).1 then rest else apply_stop (acc ++ delta) stops

abbrev pub running : List Text → Text → Text → Trimmer
running stops r p = record {
  stops = stops;
  pending = p;
  stopped = false;
  matched = [];
  released = r;
}

abbrev pub halted : List Text → Text → Text → Trimmer
halted stops r m = record { stops = stops; pending = []; stopped = true; matched = m; released = r }

-- Between two deltas: no stop starts in what is released, nor ends in what came.
pub record Clean (stops : List Text) (r p : Text) : Type 0 where
  pub shift : All (λ s. Shift s r p) stops
  pub missed : is_empty (apply_stop (r ++ p) stops).1 ≡ true
  pub idle : is_empty stops ≡ true → p ≡ []

map-map_add :
    (n m : ℕ) (o : Option ℕ)
    → Option.map (λ i. n + i) (Option.map (λ i. m + i) o) ≡ Option.map (λ i. n + m + i) o
map-map_add n m none = refl
map-map_add n m (some i) = ground arith

-- What is released next keeps the invariant for one stop.
Shift-release :
    (s r p d out hold : Text)
    → Shift s r p
    → out ++ hold ≡ p ++ d
    → IsHeld (p ++ d) (length hold) s
    → find s (p ++ d) ≡ none
    → Shift s (r ++ out) hold
Shift-release s r p d out hold old split held miss e = rw (length-append r out) (
    cc (
      append_assoc r out (hold ++ e),
      append_assoc out hold e,
      append_assoc p d e,
      split,
      old (d ++ e),
      find_held s (p ++ d) hold e [] out split held (rw split miss),
      map-map_add (length r) (length out) (find s (hold ++ e)),
    ))

release_lem :
    (stops : List Text) (r q : Text)
    → (hold out : Text) × (out ++ hold ≡ q)
      × (release (running stops r q) ≡ (running stops (r ++ out) hold, out))
      × (length hold ≡ held_suffix_len q stops)
unfolding release
release_lem stops r q =
    let h = held_suffix_len q stops in
    let le = (held_suffix_len-IsHeld q stops).0 in
    elim (Bool-cases (eqb h 0)) [
      | inl nothing ↦ ([], q, append-nil q, rw nothing, ground arith)
      | inr some_held ↦ (
        drop (length q - h) q,
        take (length q - h) q,
        take-append-drop (length q - h) q,
        rw some_held,
        omega (arith, length-drop (length q - h) q),
      )
    ]

Shift-release-All :
    (stops : List Text) (r p d out hold : Text)
    → All (λ s. Shift s r p) stops
    → out ++ hold ≡ p ++ d
    → All (IsHeld (p ++ d) (length hold)) stops
    → All (λ s. find s (p ++ d) ≡ none) stops
    → All (λ s. Shift s (r ++ out) hold) stops
Shift-release-All [] r p d out hold old split held miss = tt
Shift-release-All (s ∷ stops) r p d out hold old split held miss = (
  Shift-release s r p d out hold old.0 split held.0 miss.0,
  Shift-release-All stops r p d out hold old.1 split held.1 miss.1,
)

-- Either nothing hits, and the invariant goes on, or the hit is that of the whole text.
record Went (stops : List Text) (r p d : Text) : Type 0 where
  r' : Text
  p' : Text
  out : Text
  feeds : feed (running stops r p) d ≡ (running stops r' p', out)
  releases : r' ≡ r ++ out
  whole : r' ++ p' ≡ r ++ (p ++ d)
  clean : Clean stops r' p'

record Hit (stops : List Text) (r p d : Text) : Type 0 where
  cut : Text
  m : Text
  feeds : feed (running stops r p) d ≡ (halted stops (r ++ cut) m, cut)
  first : apply_stop (r ++ (p ++ d)) stops ≡ (r ++ cut, m)
  matches : is_empty m ≡ false

feed-idle : (r p d : Text) → Clean [] r p → Went [] r p d
unfolding feed
feed-idle r p d c = record {
  r' = r ++ d;
  p' = p;
  out = d;
  feeds = refl;
  releases = refl;
  whole = rw (c.idle refl, append-nil);
  clean = record { shift = tt; missed = apply_stop-no_stops (r ++ d ++ p); idle = c.idle };
}

feed-empty :
    (s : Text) (stops : List Text) (r p : Text) → Clean (s ∷ stops) r p → Went (s ∷ stops) r p []
unfolding feed
feed-empty s stops r p c = record {
  r' = r;
  p' = p;
  out = [];
  feeds = refl;
  releases = sym (append-nil r);
  whole = rw append-nil;
  clean = c;
}

module _ (s : Text) (stops' : List Text) (r p : Text) (c : ℕ) (d' : Text) where
  abbrev stops : List Text
  stops = s ∷ stops'

  abbrev d : Text
  d = c ∷ d'

  feed-miss :
      All NonEmpty stops
      → Clean stops r p
      → is_empty (apply_stop (p ++ d) stops).1 ≡ true
      → Went stops r p d
  unfolding feed feed_pending
  feed-miss n clean miss =
      let (hold, out, split, released, size) = release_lem stops r (p ++ d) in
      let full = is_empty-append p d refl in
      let (whole, gone) = apply_stop-miss (p ++ d) stops n miss in
      let still = apply_stop-Shift stops r p d full clean.shift in
      let joined : r ++ out ++ hold ≡ r ++ (p ++ d) =
        append_assoc r out hold ∙ ap (λ t. r ++ t) split in
      record {
        r' = r ++ out;
        p' = hold;
        out = out;
        feeds = rw (miss, feed_pending) released;
        releases = refl;
        whole = joined;
        clean = record {
          shift =
              Shift-release-All stops r p d out hold clean.shift split
                (subst (λ n. All (IsHeld (p ++ d) n) stops) (sym size)
                  (held_suffix_len-IsHeld (p ++ d) stops).1)
                gone;
          missed = rw (joined, still) miss;
          idle = λ h. cc;
        };
      }

  feed-Hit : Clean stops r p → is_empty (apply_stop (p ++ d) stops).1 ≡ false → Hit stops r p d
  unfolding feed feed_pending
  feed-Hit clean hit = record {
    cut = (apply_stop (p ++ d) stops).0;
    m = (apply_stop (p ++ d) stops).1;
    feeds = rw (hit, feed_pending);
    first = apply_stop-Shift stops r p d (is_empty-append p d refl) clean.shift;
    matches = hit;
  }

-- One delta either goes through or hits.
feed_lem :
    (stops : List Text) (r p d : Text)
    → All NonEmpty stops
    → Clean stops r p
    → Went stops r p d ⊎ Hit stops r p d
feed_lem [] r p d n clean = inl (feed-idle r p d clean)
feed_lem (s ∷ stops) r p [] n clean = inl (feed-empty s stops r p clean)
feed_lem (s ∷ stops) r p (c ∷ d) n clean =
    elim (Bool-cases (is_empty (apply_stop (p ++ c ∷ d) (s ∷ stops)).1)) [
      | inl miss ↦ inl (feed-miss s stops r p c d n clean miss)
      | inr hit ↦ inr (feed-Hit s stops r p c d clean hit)
    ]

deliver-halted :
    (stops : List Text) (r m : Text) (ds : List Text)
    → deliver (halted stops r m) ds ≡ (halted stops r m, [])
unfolding deliver feed flush
deliver-halted stops r m [] = refl
deliver-halted stops r m (d ∷ ds) = rw (deliver-halted stops r m ds)

-- `flush` hands out what is pending.
flush-running :
    (stops : List Text) (r p : Text) → flush (running stops r p) ≡ (running stops (r ++ p) [], p)
unfolding flush
flush-running stops r [] = rw append-nil
flush-running stops r (c ∷ p) = refl

-- From any point of a turn: what is released with what follows, and the reported stop.
deliver-running :
    (stops : List Text) (r p : Text) (ds : List Text)
    → All NonEmpty stops
    → Clean stops r p
    → ((r ++ (deliver (running stops r p) ds).1, (deliver (running stops r p) ds).0.matched)
        ≡ stop_after stops (r ++ p) ds)
      × ((deliver (running stops r p) ds).0.released ≡ r ++ (deliver (running stops r p) ds).1)
unfolding deliver stop_after
deliver-running stops r p [] n clean = rw flush-running (refl, refl)
deliver-running stops r p (d ∷ ds) n clean = elim (feed_lem stops r p d n clean) [
  | inl w ↦
      let x = deliver (running stops w.r' w.p') ds in
      let e : r ++ (w.out ++ x.1) ≡ w.r' ++ x.1 = cc (append_assoc r w.out x.1, w.releases) in
      rw (w.feeds, append_assoc r p d, ← w.whole, w.clean.missed, e)
        (deliver-running stops w.r' w.p' ds n w.clean)
  | inr h ↦
      rw (h.feeds, append_assoc r p d, h.first, h.matches, deliver-halted, append-nil) (refl, refl)
]

Clean-start : (stops : List Text) → Clean stops [] []
unfolding apply_stop
Clean-start stops = record { shift = all stops; missed = refl; idle = λ _. refl }
  where
    go : (s e : Text) → find s e ≡ Option.map (λ i. 0 + i) (find s e)
    go s e = elim (find s e) as (λ o. o ≡ Option.map (λ i. 0 + i) o) [
      | none ↦ refl
      | some i ↦ ground arith
    ]

    all : (stops : List Text) → All (λ s. Shift s [] []) stops
    all = elim [ [] ↦ tt | s ∷ (rest → ih) ↦ (go s, ih) ]

pub select-NonEmpty : (stops : List Text) → All NonEmpty (select (λ s. not (is_empty s)) stops)
select-NonEmpty [] = tt
select-NonEmpty ([] ∷ stops) = select-NonEmpty stops
select-NonEmpty ((c ∷ s) ∷ stops) = (refl, select-NonEmpty stops)

-- However the upstream text is cut into deltas, what the client gets and the stop that is
-- reported are those of `apply_stop` on all the text so far, at the first delta that completes
-- a stop; without one the client gets every delta in full. The held-back tail loses nothing, and
-- the trimmer's record of the released text is what was handed out.
pub deliver-stop_after :
    (stops deltas : List Text)
    → (((deliver (trimmer stops) deltas).1, (deliver (trimmer stops) deltas).0.matched)
        ≡ stop_after (trimmer stops).stops [] deltas)
      × ((deliver (trimmer stops) deltas).0.released ≡ (deliver (trimmer stops) deltas).1)
unfolding trimmer
deliver-stop_after stops deltas =
    let kept = select (λ s. not (is_empty s)) stops in
    deliver-running kept [] [] deltas (select-NonEmpty stops) (Clean-start kept)
