-- ===== src/Trading/Dispatch/Moves.antt =====
-- Dispatch (modules/trading/execution.py) against the table of command transitions.
use matrades.Common.{ℕ, suc, ◌+◌, ◌≡◌, refl, inl, inr, Bool, true, false, arith, Bool-cases}
use matrades.Common.Result.{Result, ok, err, >>=-eq-ok, ok-injective}
use matrades.Domain.{CommandState}
use matrades.Trading.Models.{
  ExecutionAuthorization, ExecutionAttempt, Postcondition, ExecutionCommand,
}
use matrades.Trading.Dispatch.{
  may_move, DispatchError, move_command, prepare, Response, BrokerCommandPort, attempt_of,
  after_call, call_adapter, is_settled, is_uncertain, dispatch,
}

-- A number of transitions of the table, one after the other.
pub data Moves (s : CommandState) : CommandState → ℕ → Type 0 where
  rest : Moves s s 0
  then_to : {t u : CommandState} {n : ℕ} → Moves s t n → may_move t u ≡ true → Moves s u (suc n)

-- How many transitions lead to the adapter.
abbrev pub steps : CommandState → ℕ
steps CommandState.created = 3
steps CommandState.authorized = 2
steps CommandState.queued = 1
steps _ = 0

abbrev pub is_ready : CommandState → Bool
is_ready CommandState.created = true
is_ready CommandState.authorized = true
is_ready CommandState.queued = true
is_ready CommandState.dispatching = true
is_ready _ = false

Moves-ready : (s : CommandState) → is_ready s ≡ true → Moves s CommandState.dispatching (steps s)
Moves-ready CommandState.created h =
    then_to {t = CommandState.queued}
      (then_to {t = CommandState.authorized} (then_to rest refl) refl) refl
Moves-ready CommandState.authorized h = then_to {t = CommandState.queued} (then_to rest refl) refl
Moves-ready CommandState.queued h = then_to rest refl
Moves-ready CommandState.dispatching h = rest
Moves-ready _ h = cc

pub prepare-ends :
    (c d : ExecutionCommand)
    → prepare c ≡ ok d
    → (is_ready c.state ≡ true)
      × (d.state ≡ CommandState.dispatching)
      × (d.version ≡ c.version + steps c.state)
      × (d.attempts ≡ c.attempts)
unfolding prepare move_command
prepare-ends c d e = ground arith

-- What the outcome of the adapter adds: one transition, or two where the response is a rejection.
after_call-Moves :
    (s : CommandState) (n version : ℕ) (c : ExecutionCommand) (a : ExecutionAttempt)
    (outcome : Result ℕ Response)
    → Moves s CommandState.dispatching n
    → c.version ≡ version + n
    → (m : ℕ) × Moves s (after_call c a outcome).state m
      × ((after_call c a outcome).version ≡ version + m)
unfolding after_call
after_call-Moves s n version c a (err name) path v = (suc n, then_to path refl, omega (arith, v))
after_call-Moves s n version c a (ok r) path v = elim (Bool-cases r.rejected) [
  | inl t ↦ rw t (
    suc (suc n),
    then_to {t = CommandState.acknowledged} (then_to path refl) refl,
    omega (arith, v),
  )
  | inr t ↦ rw t (suc n, then_to path refl, omega (arith, v))
]

-- Whatever the adapter does, a dispatch that returns has moved the command along the table of
-- transitions, and its version has counted them.
pub dispatch-Moves :
    (digest : Postcondition → ℕ) (c : ExecutionCommand) (a : ExecutionAuthorization)
    (adapter : BrokerCommandPort) (d : ExecutionCommand)
    → dispatch digest c a adapter ≡ ok d
    → (n : ℕ) × Moves c.state d.state n × (d.version ≡ c.version + n)
unfolding dispatch call_adapter
dispatch-Moves digest c a adapter d e = elim (Bool-cases (is_settled c.state)) [
  | inl t ↦ rw (← ok-injective (rw (t, dispatch) at e)) (0, rest, omega arith)
  | inr t ↦ elim (Bool-cases (is_uncertain c.state)) [
    | inl u ↦ absurd (err-ne-ok (rw (t, u, dispatch) at e))
    | inr u ↦
        let (c', p, q) = >>=-eq-ok (prepare c) _ (rw (t, u, dispatch) at e) in
        let (ready, there, v, _) = prepare-ends c c' p in
        rw (← ok-injective q) (
          after_call-Moves c.state (steps c.state) c.version c' (attempt_of digest c') _
            (Moves-ready c.state ready) v)
  ]
]
  where
    err-ne-ok :
        {x : DispatchError} → ¬ (◌≡◌ {A = Result DispatchError ExecutionCommand} (err x) (ok d))
    err-ne-ok h = cc
