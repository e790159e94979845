-- ===== src/Tests/Services.antt =====
-- Runs of the bridge's queue, the rule sets, the circuit breaker and the accounts.
use matrades.Common.{
  ◌<◌, ◌≢◌, arith, ℕ, ◌+◌, ◌≤◌, ◌≡◌, ◌↔◌, refl, true, none, some, [], ◌∷◌, All, nat_eq,
}
use matrades.Common.Int.{pos}
use matrades.Common.Dict.{Dict}
use matrades.Common.Result.{ok}
use matrades.Accounts.{
  AccountKind, TradingAccount, AccountSnapshot, AccountService, record_snapshot,
}
use matrades.Bridge.{
  BridgeState, BridgeCommand, BridgeReceipt, BridgeCommandQueue, empty_queue, with_key, enqueue,
  lease_end, poll,
}
use matrades.Bridge.Keyed.{Serves}
use matrades.Bridge.Once.{poll-once}
use matrades.PropFirms.{RuleStatus, RuleSet, retire_all, activate, IsOnly, activate-IsOnly}
use matrades.Connections.Binding.{
  ProviderBinding, Health, is_candidate, binding_le, is_usable, choose_binding,
  require_healthy_binding, require_healthy_binding-IsFirst,
}
use matrades.Common.Sort.{sorted_by}
use matrades.Common.{List}
use matrades.Common.Dict.{lookup}
use matrades.Connections.{CircuitBreaker, allow, success, failure, failures_at, failure-allow}

abbrev bridge_command : ℕ → ℕ → BridgeState → BridgeCommand
bridge_command id account state = record {
  command_id = id;
  account_id = account;
  action = 1;
  idempotency_key = id;
  payload = 0;
  authorization_id = none;
  authorization_digest = none;
  expected_broker_version = none;
  state = state;
  lease_expires_at = none;
}

abbrev queue : BridgeCommandQueue
queue = record {
  pending =
      (1, bridge_command 1 2 BridgeState.queued)
      ∷ (2, bridge_command 2 3 BridgeState.queued)
      ∷ (3, bridge_command 3 2 BridgeState.queued)
      ∷ [];
  receipts = [];
  lease_seconds = 30;
}

abbrev report : ℕ → BridgeReceipt
report state = record {
  command_id = 1;
  account_id = 2;
  idempotency_key = 1;
  state = BridgeState.reported state;
  outcome_certainty = 0;
  broker_order_id = none;
  error_code = none;
  observed_at = 0;
}

-- Two commands of one account are queued, and each poll takes one.
abbrev served : BridgeCommandQueue
served =
    (enqueue (bridge_command 3 2 BridgeState.queued)
      (enqueue (bridge_command 1 2 BridgeState.queued) (empty_queue 30)).1).1

lease-runs : 9000000 < lease_end 2500000 served.lease_seconds
unfolding enqueue with_key
lease-runs = omega arith

poll-once_example :
    All
      (λ c.
        All (λ c'. c'.command_id ≢ c.command_id) (poll 9000000 2 5 (poll 2500000 2 1 served).1).0)
      (poll 2500000 2 1 served).0
poll-once_example =
    poll-once {lease_seconds = 30} 2500000 9000000 2 2 1 5 served
      (Serves.enqueued (bridge_command 3 2 BridgeState.queued)
        (Serves.enqueued (bridge_command 1 2 BridgeState.queued) Serves.started))
      lease-runs

abbrev rule_set : ℕ → RuleStatus → RuleSet
rule_set id status = record {
  id = id;
  program_id = 4;
  version = 1;
  rules = record { kind = 1; value = pos 5; unit = 2; enforcement = 3 } ∷ [];
  status = status;
  source_reference = none;
}

abbrev rule_sets : Dict ℕ RuleSet
rule_sets = (1, rule_set 1 RuleStatus.active) ∷ (2, rule_set 2 RuleStatus.verified) ∷ []

abbrev after_activation : Dict ℕ RuleSet
after_activation = (1, rule_set 1 RuleStatus.retired) ∷ (2, rule_set 2 RuleStatus.active) ∷ []

activate-run :
    activate (rule_set 2 RuleStatus.verified) rule_sets
    ≡ (ok (rule_set 2 RuleStatus.active), after_activation)
unfolding activate retire_all
activate-run = refl

activate-IsOnly_example :
    (RuleStatus.verified ≡ RuleStatus.verified)
    × (rule_set 2 RuleStatus.active ≡ rule_set 2 RuleStatus.active)
    × All (IsOnly 4 2) after_activation
activate-IsOnly_example =
    activate-IsOnly (rule_set 2 RuleStatus.verified) (rule_set 2 RuleStatus.active) rule_sets
      after_activation activate-run

abbrev breaker : CircuitBreaker
breaker = record {
  failure_threshold = 3;
  reset_after_seconds = 30;
  failures = 1;
  opened_at = some 5;
}

failure-allow_example :
    (allow 70 (failure 50 (failures_at (20 ∷ 40 ∷ []) (success breaker))) ≡ true) ↔ (50 + 30 ≤ 70)
failure-allow_example = failure-allow breaker (20 ∷ 40 ∷ []) 50 70 refl

abbrev owned_account : TradingAccount
owned_account = record {
  id = 2;
  owner_id = 1;
  name = 0;
  currency = 7;
  kind = AccountKind.personal;
  starting_balance = pos 100;
  current_balance = none;
  active = true;
}

abbrev cash_snapshot : AccountSnapshot
cash_snapshot = record {
  account_id = 2;
  starting_balance = pos 100;
  current_balance = pos 90;
  current_equity = pos 95;
  floating_pnl = pos 5;
  realized_daily_pnl = pos 0;
  observed_at = 4;
  cash_balances = (7, pos 60) ∷ [];
}

abbrev service : AccountService
service = record { items = (2, owned_account) ∷ []; snapshots = [] }

abbrev with_snapshot : AccountService
with_snapshot = record service { snapshots = (2, cash_snapshot) ∷ [] }

record_snapshot-run : record_snapshot 1 cash_snapshot service ≡ ok with_snapshot
unfolding record_snapshot
record_snapshot-run = refl

abbrev binding : ℕ → ℕ → ProviderBinding
binding id priority = record {
  id = id;
  connection_id = id;
  lane = 4;
  capability = 5;
  is_verified = true;
  priority = priority;
}

abbrev bindings : List ProviderBinding
bindings = binding 1 3 ∷ binding 2 1 ∷ []

abbrev health : Dict ℕ Health
health = (2, Health.stale) ∷ []

binding-run : require_healthy_binding bindings 4 5 health ≡ ok (binding 2 1)
unfolding require_healthy_binding choose_binding sorted_by
binding-run = refl

require_healthy_binding-IsFirst_example :
    ((binding 2 1).lane ≡ 4)
    × ((binding 2 1).capability ≡ 5)
    × ((binding 2 1).is_verified ≡ true)
    × (is_usable (lookup 2 health) ≡ true)
    × All (λ c. is_candidate 4 5 c ≡ true → binding_le (binding 2 1) c ≡ true) bindings
require_healthy_binding-IsFirst_example =
    require_healthy_binding-IsFirst bindings 4 5 health (binding 2 1) binding-run
