-- ===== src/LoginGuard.antt =====
-- login_guard.py: `LoginRateLimiter`. `time.time()` is the argument `now`, in ticks of the clock;
-- `now - t < lockout` is written without subtraction.
use ciallo_ms_365_open_ai_pr.Prelude.{
  ℕ, ◌+◌, Bool, true, false, Option, none, some, List, [], ◌∷◌, ◌++◌, ltb, leb, if◌then◌else◌,
  length, select,
}
use ciallo_ms_365_open_ai_pr.Prelude.Text.{Text, text_key, is_empty}
use ciallo_ms_365_open_ai_pr.Dict.{Dict, get, put, pop}
pub mod Log

pub record Limiter : Type 0 where
  pub limit : ℕ
  pub lockout : ℕ
  pub failures : Dict Text (List ℕ)

-- `self._failures.get(ip, [])`
unfoldable pub attempts : Text → Dict Text (List ℕ) → List ℕ
attempts ip failures = elim (get ip failures) [ none ↦ [] | some times ↦ times ]

-- The comprehension of `is_locked`.
unfoldable pub recent : ℕ → ℕ → List ℕ → List ℕ
recent lockout now times = select (λ t. ltb now (t + lockout)) times

unfoldable pub is_locked : ℕ → Text → Limiter → Bool × Limiter
is_locked now ip l =
    let still = recent l.lockout now (attempts ip l.failures) in
    (
      leb l.limit (length still),
      record l { failures = if is_empty still then pop ip l.failures else put ip still l.failures },
    )

unfoldable pub record_failure : ℕ → Text → Limiter → Limiter
record_failure now ip l = record l {
  failures = put ip (attempts ip l.failures ++ now ∷ []) l.failures;
}

unfoldable pub clear : Text → Limiter → Limiter
clear ip l = record l { failures = pop ip l.failures }
