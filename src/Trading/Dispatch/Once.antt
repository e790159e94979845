-- ===== src/Trading/Dispatch/Once.antt =====
-- A dispatched command is not submitted again (modules/trading/execution.py).
use matrades.Common.{ℕ, ◌≡◌, ◌⊎◌, refl, subst, inl, inr, true, Bool-cases}
use matrades.Common.Result.{Result, ok, err, >>=-eq-ok, ok-injective}
use matrades.Trading.Models.{
  ExecutionAuthorization, ExecutionAttempt, Postcondition, ExecutionCommand,
}
use matrades.Trading.Dispatch.{
  DispatchError, move_command, prepare, Response, BrokerCommandPort, attempt_of, after_call,
  call_adapter, is_settled, is_uncertain, dispatch,
}

-- What a second call makes of a command, whatever its adapter: the same command, or an error.
abbrev pub IsNotCalled :
    (Postcondition → ℕ) → ExecutionCommand → ExecutionAuthorization → BrokerCommandPort → Type 0
IsNotCalled digest d a adapter =
    (dispatch digest d a adapter ≡ ok d)
    ⊎ ((x : DispatchError) × (dispatch digest d a adapter ≡ err x))

settled-IsNotCalled :
    (digest : Postcondition → ℕ) (d : ExecutionCommand) (a : ExecutionAuthorization)
    (adapter : BrokerCommandPort)
    → is_settled d.state ≡ true
    → IsNotCalled digest d a adapter
unfolding dispatch
settled-IsNotCalled digest d a adapter t = inl (rw (t, dispatch) refl)

after_call-IsNotCalled :
    (digest : Postcondition → ℕ) (c : ExecutionCommand) (t : ExecutionAttempt)
    (outcome : Result ℕ Response) (a : ExecutionAuthorization) (adapter : BrokerCommandPort)
    → IsNotCalled digest (after_call c t outcome) a adapter
unfolding after_call dispatch prepare move_command
after_call-IsNotCalled digest c t (err name) a adapter = inr (_, refl)
after_call-IsNotCalled digest c t (ok r) a adapter = elim (Bool-cases r.rejected) [
  | inl rejected ↦ rw rejected (inl refl)
  | inr accepted ↦ rw accepted (inr (_, refl))
]

-- A command that a dispatch has returned is never submitted by another dispatch of it, through any
-- adapter and under any authorization: that call returns the command unchanged or raises.
pub dispatch-once :
    (digest : Postcondition → ℕ) (c : ExecutionCommand) (a a' : ExecutionAuthorization)
    (adapter adapter' : BrokerCommandPort) (d : ExecutionCommand)
    → dispatch digest c a adapter ≡ ok d
    → IsNotCalled digest d a' adapter'
unfolding dispatch call_adapter
dispatch-once digest c a a' adapter adapter' d e = elim (Bool-cases (is_settled c.state)) [
  | inl t ↦
      let same : c ≡ d = ok-injective (rw (t, dispatch) at e) in
      settled-IsNotCalled digest d a' adapter' (rw (← same) t)
  | inr t ↦ elim (Bool-cases (is_uncertain c.state)) [
    | inl u ↦ absurd (err-ne-ok (rw (t, u, dispatch) at e))
    | inr u ↦
        let (c', p, q) = >>=-eq-ok (prepare c) _ (rw (t, u, dispatch) at e) in
        subst (λ x. IsNotCalled digest x a' adapter') (ok-injective q)
          (after_call-IsNotCalled digest c' (attempt_of digest c') _ a' adapter')
  ]
]
  where
    err-ne-ok :
        {x : DispatchError} → ¬ (◌≡◌ {A = Result DispatchError ExecutionCommand} (err x) (ok d))
    err-ne-ok h = cc
