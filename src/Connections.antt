-- ===== src/Connections.antt =====
-- The circuit breaker of the connections (modules/connections/circuit_breaker.py). `now` is
-- `monotonic()`, in any whole unit that `reset_after_seconds` is given in too.
pub mod Binding
use matrades.Common.{
  ℕ, ◌+◌, ◌≤◌, ◌≡◌, ◌↔◌, refl, inl, inr, Bool, true, false, Option, none, some, List, [], ◌∷◌,
  arith, length, leb, if◌then◌else◌, Bool-cases,
}

pub data CircuitState : Type 0 where
  closed open_circuit half_open : CircuitState

pub record CircuitBreaker : Type 0 where
  pub failure_threshold : ℕ
  pub reset_after_seconds : ℕ
  pub failures : ℕ
  pub opened_at : Option ℕ

unfoldable pub state : ℕ → CircuitBreaker → CircuitState
state now b = elim b.opened_at [
  | none ↦ CircuitState.closed
  | some at_time ↦
      if leb (at_time + b.reset_after_seconds) now
      then CircuitState.half_open
      else CircuitState.open_circuit
]

unfoldable pub allow : ℕ → CircuitBreaker → Bool
unfolding state
allow now b = elim (state now b) [ CircuitState.open_circuit ↦ false | _ ↦ true ]

unfoldable pub success : CircuitBreaker → CircuitBreaker
success b = record b { failures = 0; opened_at = none }

unfoldable pub failure : ℕ → CircuitBreaker → CircuitBreaker
failure now b =
    let counted = record b { failures = b.failures + 1 } in
    if leb b.failure_threshold (b.failures + 1)
    then record counted { opened_at = some now }
    else counted

-- Failures at the given instants, one after the other.
abbrev pub failures_at : List ℕ → CircuitBreaker → CircuitBreaker
failures_at [] b = b
failures_at (now ∷ later) b = failures_at later (failure now b)

failures_at-count :
    (times : List ℕ) (b : CircuitBreaker)
    → ((failures_at times b).failures ≡ b.failures + length times)
      × ((failures_at times b).failure_threshold ≡ b.failure_threshold)
      × ((failures_at times b).reset_after_seconds ≡ b.reset_after_seconds)
unfolding failure
failures_at-count [] b = (omega arith, refl, refl)
failures_at-count (now ∷ later) b = elim (Bool-cases (leb b.failure_threshold (b.failures + 1))) [
  | inl t ↦
      let (n, h, r) = failures_at-count later (failure now b) in
      (rw (n, failure, t) (omega arith), rw (h, failure, t) refl, rw (r, failure, t) refl)
  | inr t ↦
      let (n, h, r) = failures_at-count later (failure now b) in
      (rw (n, failure, t) (omega arith), rw (h, failure, t) refl, rw (r, failure, t) refl)
]

-- After a success, the failure that makes up the threshold opens the circuit, whenever the ones before
-- it happened: no call is allowed before the reset time is over, and every call is allowed from then on.
pub failure-allow :
    (b : CircuitBreaker) (earlier : List ℕ) (now later : ℕ)
    → length earlier + 1 ≡ b.failure_threshold
    → (allow later (failure now (failures_at earlier (success b))) ≡ true)
      ↔ (now + b.reset_after_seconds ≤ later)
unfolding allow state failure success
failure-allow b earlier now later e =
    let (n, h, r) = failures_at-count earlier (success b) in ground (arith, n, h, r)
