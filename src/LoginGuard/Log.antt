-- ===== src/LoginGuard/Log.antt =====
-- The limiter against a log that is never pruned.
use ciallo_ms_365_open_ai_pr.Prelude.{
  ℕ, ◌≤◌, ◌≡◌, refl, List, [], ◌∷◌, ◌++◌, leb, if◌then◌else◌, length, arith, Bool-cases, inl, inr,
  ◌==◌, ◌∙◌, sym, All, false,
}
use ciallo_ms_365_open_ai_pr.Prelude.Text.{Text, text_eq_iff, text_key, is_empty}
use mathlib.Core.Path.{subst}
use ciallo_ms_365_open_ai_pr.Dict.{Dict, get, put, pop, get-put, get-pop}
use ciallo_ms_365_open_ai_pr.LoginGuard.{
  Limiter, attempts, recent, is_locked, record_failure, clear,
}

-- What a server does with the limiter, each at a time of the clock.
pub data Event : Type 0 where
  check : Text → Event
  failure : Text → Event
  success : Text → Event

unfoldable pub step : Limiter → ℕ × Event → Limiter
step l (now, check ip) = (is_locked now ip l).1
step l (now, failure ip) = record_failure now ip l
step l (now, success ip) = clear ip l

unfoldable pub run : Limiter → List (ℕ × Event) → Limiter
run l [] = l
run l (e ∷ events) = run (step l e) events

-- The failures of `ip` since its last success, from the events alone.
unfoldable pub log_step : Text → List ℕ → ℕ × Event → List ℕ
log_step ip times (now, check j) = times
log_step ip times (now, failure j) = if j == ip then times ++ now ∷ [] else times
log_step ip times (now, success j) = if j == ip then [] else times

unfoldable pub log : Text → List ℕ → List (ℕ × Event) → List ℕ
log ip times [] = times
log ip times (e ∷ events) = log ip (log_step ip times e) events

-- The clock does not go back, and is at `last` in the end.
abbrev pub Ordered : ℕ → List (ℕ × Event) → ℕ → Type 0
Ordered t [] last = t ≤ last
Ordered t ((now, e) ∷ events) last = (t ≤ now) × Ordered now events last

Ordered-le : (t : ℕ) (events : List (ℕ × Event)) (last : ℕ) → Ordered t events last → t ≤ last
Ordered-le t [] last h = h
Ordered-le t ((now, e) ∷ events) last h = omega (arith, Ordered-le now events last h.1)

recent-append :
    (w now : ℕ) (xs ys : List ℕ) → recent w now (xs ++ ys) ≡ recent w now xs ++ recent w now ys
unfolding recent
recent-append w now [] ys = refl
recent-append w now (x ∷ xs) ys = ground (arith, recent-append w now xs ys)

-- What was pruned earlier is not recent later.
recent-recent :
    (w now later : ℕ) (xs : List ℕ)
    → now ≤ later
    → recent w later (recent w now xs) ≡ recent w later xs
unfolding recent
recent-recent w now later [] h = refl
recent-recent w now later (x ∷ xs) h = ground (arith, recent-recent w now later xs h)

attempts-put :
    (ip j : Text) (times : List ℕ) (d : Dict Text (List ℕ))
    → attempts j (put ip times d) ≡ (if ip == j then times else attempts j d)
unfolding attempts
attempts-put ip j times d = ground (arith, get-put ip j times d)

attempts-pop :
    (ip j : Text) (d : Dict Text (List ℕ))
    → attempts j (pop ip d) ≡ (if ip == j then [] else attempts j d)
unfolding attempts
attempts-pop ip j d = ground (arith, get-pop ip j d)

attempts-is_locked :
    (now : ℕ) (j ip : Text) (l : Limiter)
    → attempts ip (is_locked now j l).1.failures
      ≡ (if j == ip then recent l.lockout now (attempts j l.failures) else attempts ip l.failures)
unfolding is_locked
attempts-is_locked now j ip l =
    let still = recent l.lockout now (attempts j l.failures) in
    elim (Bool-cases (is_empty still)) [
      | inl gone ↦ ground (arith, attempts-pop j ip l.failures)
      | inr some_left ↦ ground (arith, attempts-put j ip still l.failures)
    ]

-- The limiter has of `ip` what counts from `t` on.
abbrev Counts : Limiter → Text → List ℕ → ℕ → Type 0
Counts l ip times t =
    (now : ℕ) → t ≤ now → recent l.lockout now (attempts ip l.failures) ≡ recent l.lockout now times

step-lockout :
    (l : Limiter) (e : ℕ × Event) → ((step l e).lockout ≡ l.lockout) × ((step l e).limit ≡ l.limit)
unfolding step is_locked record_failure clear
step-lockout l (n, check j) = (refl, refl)
step-lockout l (n, failure j) = (refl, refl)
step-lockout l (n, success j) = (refl, refl)

run-lockout :
    (l : Limiter) (events : List (ℕ × Event))
    → ((run l events).lockout ≡ l.lockout) × ((run l events).limit ≡ l.limit)
unfolding run
run-lockout l [] = (refl, refl)
run-lockout l (e ∷ events) =
    let (a, b) = run-lockout (step l e) events in let (c, d) = step-lockout l e in (a ∙ c, b ∙ d)

step-Counts :
    (l : Limiter) (ip : Text) (times : List ℕ) (t n : ℕ) (e : Event)
    → Counts l ip times t
    → t ≤ n
    → (now : ℕ) → n ≤ now
    → recent l.lockout now (attempts ip (step l (n, e)).failures)
      ≡ recent l.lockout now (log_step ip times (n, e))
unfolding step log_step record_failure clear
step-Counts l ip times t n (check j) h le now le' = ground (
  arith,
  attempts-is_locked n j ip l,
  text_eq_iff j ip,
  recent-recent l.lockout n now (attempts j l.failures),
  h now,
)
step-Counts l ip times t n (failure j) h le now le' = ground (
  arith,
  attempts-put j ip (attempts j l.failures ++ n ∷ []) l.failures,
  text_eq_iff j ip,
  recent-append l.lockout now (attempts j l.failures) (n ∷ []),
  recent-append l.lockout now times (n ∷ []),
  h now,
)
step-Counts l ip times t n (success j) h le now le' =
    ground (arith, attempts-pop j ip l.failures, h now)

run-Counts :
    (l : Limiter) (ip : Text) (times : List ℕ) (t : ℕ) (events : List (ℕ × Event)) (last : ℕ)
    → Counts l ip times t
    → Ordered t events last
    → Counts (run l events) ip (log ip times events) last
unfolding run log
run-Counts l ip times t [] last h o = λ now le. h now (omega arith)
run-Counts l ip times t ((n, e) ∷ events) last h o =
    run-Counts (step l (n, e)) ip (log_step ip times (n, e)) n events last
      (λ now le.
        subst
          (λ w.
            recent w now (attempts ip (step l (n, e)).failures)
            ≡ recent w now (log_step ip times (n, e)))
          (sym (step-lockout l (n, e)).0) (step-Counts l ip times t n e h o.0 now le))
      o.1

abbrev pub fresh : ℕ → ℕ → Limiter
fresh limit lockout = record { limit = limit; lockout = lockout; failures = [] }

-- While the clock does not go back, an address is locked exactly if it has at least `limit`
-- failures inside the lockout since its last success: what the checks prune changes no verdict.
pub is_locked-run :
    (limit lockout : ℕ) (events : List (ℕ × Event)) (now : ℕ) (ip : Text)
    → Ordered 0 events now
    → (is_locked now ip (run (fresh limit lockout) events)).0
      ≡ leb limit (length (recent lockout now (log ip [] events)))
unfolding is_locked
is_locked-run limit lockout events now ip o =
    let (w, n) = run-lockout (fresh limit lockout) events in
    let counts =
      run-Counts (fresh limit lockout) ip [] 0 events now (λ _ _. unfold attempts get in refl) o now
        (omega arith) in
    rw (n, counts, w)

-- The address of an event.
abbrev pub address : Event → Text
address (check ip) = ip
address (failure ip) = ip
address (success ip) = ip

-- The events of other addresses leave the entry of an address as it is, however late they come:
-- what a check prunes is only the address that it is asked about.
pub run-other :
    (ip : Text) (events : List (ℕ × Event)) (l : Limiter)
    → All (λ (e : ℕ × Event). (address e.1 == ip) ≡ false) events
    → get ip (run l events).failures ≡ get ip l.failures
unfolding run step is_locked record_failure clear
run-other ip [] l h = refl
run-other ip ((now, check j) ∷ events) l h =
    let still = recent l.lockout now (attempts j l.failures) in
    run-other ip events (is_locked now j l).1 h.1
    ∙ ground (arith, get-pop j ip l.failures, get-put j ip still l.failures)
run-other ip ((now, failure j) ∷ events) l h =
    run-other ip events (record_failure now j l) h.1
    ∙ ground (arith, get-put j ip (attempts j l.failures ++ now ∷ []) l.failures)
run-other ip ((now, success j) ∷ events) l h =
    run-other ip events (clear j l) h.1 ∙ ground (arith, get-pop j ip l.failures)
