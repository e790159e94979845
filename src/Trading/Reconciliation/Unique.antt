-- ===== src/Trading/Reconciliation/Unique.antt =====
-- What a reconciliation record of a command says of the broker's facts
-- (modules/trading/reconciliation.py, `retry_allowed` of reconciliation_decisions.py).
use matrades.Common.{◌≡◌, ◌↔◌, refl, ap, Bool, true, false, List, [], ◌∷◌, filter}
use mathlib.Core.Bool.{false≢true}
use matrades.Common.Result.{ok, >>=-eq-ok, ok-injective}
use matrades.Trading.Models.{ExecutionCommand}
use matrades.Trading.Reconciliation.{
  BrokerOrder, BrokerPosition, ReconciliationRecord, order_matches, matching_positions,
  from_positions, from_orders, reconcile_command, retry_allowed,
}

-- That no order and no position of the report matches the command.
pub record IsWithoutEffect (c : ExecutionCommand) (orders : List BrokerOrder)
    (positions : List BrokerPosition) : Type 0 where
  pub no_order : filter (order_matches c) orders ≡ []
  pub no_position : matching_positions c.requested_postcondition positions ≡ ok []

retry-from_positions :
    (c : ExecutionCommand) (authoritative : Bool) (found : List BrokerPosition)
    → retry_allowed (from_positions c authoritative found) ≡ true
    → (found ≡ []) × (authoritative ≡ true)
unfolding from_positions retry_allowed
retry-from_positions c true [] h = (refl, refl)
retry-from_positions c false [] h = cc
retry-from_positions c authoritative (p ∷ []) h = cc
retry-from_positions c authoritative (p ∷ q ∷ rest) h = cc

retry-from_orders :
    (c : ExecutionCommand) (positions : List BrokerPosition) (authoritative : Bool)
    (found : List BrokerOrder) (r : ReconciliationRecord)
    → from_orders c positions authoritative found ≡ ok r
    → retry_allowed r ≡ true
    → (found ≡ [])
      × (matching_positions c.requested_postcondition positions ≡ ok [])
      × (authoritative ≡ true)
unfolding from_orders retry_allowed
retry-from_orders c positions authoritative (o ∷ []) r e h =
    absurd (false≢true (rw (← ok-injective e) at h))
retry-from_orders c positions authoritative (o ∷ o' ∷ rest) r e h =
    absurd (false≢true (rw (← ok-injective e) at h))
retry-from_orders c positions authoritative [] r e h =
    let (found, p, q) = >>=-eq-ok (matching_positions c.requested_postcondition positions) _ e in
    let (empty, always) = retry-from_positions c authoritative found (rw (← ok-injective q) at h) in
    (refl, rw p (ap ok empty), always)

-- A retry is allowed by the record of a command exactly where the report is an authoritative snapshot
-- and nothing in it, no order and no position, matches the command.
pub retry_allowed_iff :
    (c : ExecutionCommand) (orders : List BrokerOrder) (positions : List BrokerPosition)
    (authoritative : Bool) (r : ReconciliationRecord)
    → reconcile_command c orders positions authoritative ≡ ok r
    → (retry_allowed r ≡ true) ↔ (IsWithoutEffect c orders positions × (authoritative ≡ true))
unfolding reconcile_command from_orders from_positions
retry_allowed_iff c orders positions authoritative r e = (
  λ h.
      let (no_order, no_position, always) =
        retry-from_orders c positions authoritative (filter (order_matches c) orders) r e h in
      (record { no_order = no_order; no_position = no_position }, always),
  λ w. back w.0 w.1,
)
  where
    back : IsWithoutEffect c orders positions → authoritative ≡ true → retry_allowed r ≡ true
    back w always =
        let e' = rw (w.no_order, from_orders, w.no_position, from_positions, always) at e in
        rw (← ok-injective e') (unfold retry_allowed in refl)
