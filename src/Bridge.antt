-- ===== src/Bridge.antt =====
-- The command queue of the MT5 bridge (`BridgeCommandQueue`, bridges/mt5/commands.py). Its JSON file is
-- not modelled: an operation is given on the two dicts. `now` is `datetime.now(UTC)`.
pub mod Queue
pub mod Keyed
pub mod Once
use matrades.Common.{
  ℕ, ◌+◌, ◌*◌, ◌/◌, max, ◌≡◌, Bool, true, false, not, ◌&&◌, ◌||◌, Option, none, some, List, [], ◌∷◌,
  ltb, leb, nat_beq, if◌then◌else◌, nat_eq, is_none,
}
use matrades.Common.Dict.{Dict, lookup, insert, values}
use matrades.Common.Result.{Result, ok, err}

-- The texts of `state`: the two that the queue writes, and what a receipt gives.
pub data BridgeState : Type 0 where
  queued leased : BridgeState
  reported : ℕ → BridgeState

pub record BridgeCommand : Type 0 where
  pub command_id : ℕ
  pub account_id : ℕ
  pub action : ℕ
  pub idempotency_key : ℕ
  pub payload : ℕ
  pub authorization_id : Option ℕ
  pub authorization_digest : Option ℕ
  pub expected_broker_version : Option ℕ
  pub state : BridgeState
  pub lease_expires_at : Option ℕ

pub record BridgeReceipt : Type 0 where
  pub command_id : ℕ
  pub account_id : ℕ
  pub idempotency_key : ℕ
  pub state : BridgeState
  pub outcome_certainty : ℕ
  pub broker_order_id : Option ℕ
  pub error_code : Option ℕ
  pub observed_at : ℕ

pub record BridgeCommandQueue : Type 0 where
  pub pending : Dict ℕ BridgeCommand
  pub receipts : Dict ℕ BridgeReceipt
  pub lease_seconds : ℕ

abbrev pub empty_queue : ℕ → BridgeCommandQueue
empty_queue seconds = record { pending = []; receipts = []; lease_seconds = max 5 seconds }

pub data QueueError : Type 0 where
  different_command : QueueError

-- The first pending command with an idempotency key.
unfoldable pub with_key : ℕ → Dict ℕ BridgeCommand → Option BridgeCommand
with_key key [] = none
with_key key ((i, c) ∷ d) = if nat_beq c.idempotency_key key then some c else with_key key d

abbrev pub same_command : BridgeCommand → BridgeCommand → Result QueueError BridgeCommand
same_command c existing =
    if not (nat_beq existing.payload c.payload) || not (nat_beq existing.action c.action)
    then err QueueError.different_command
    else ok existing

unfoldable pub enqueue :
    BridgeCommand → BridgeCommandQueue → Result QueueError BridgeCommand × BridgeCommandQueue
enqueue c q = elim (with_key c.idempotency_key q.pending) [
  | some existing ↦ (same_command c existing, q)
  | none ↦ (ok c, record q { pending = insert c.command_id c q.pending })
]

-- `command.state not in {"QUEUED", "LEASED"}` and the lease, negated.
abbrev pub lease_runs : ℕ → Option ℕ → Bool
lease_runs now none = false
lease_runs now (some until) = leb (now + 1) until

abbrev pub may_lease : ℕ → BridgeCommand → Bool
may_lease now c = elim c.state [
  | BridgeState.queued ↦ true
  | BridgeState.leased ↦ not (lease_runs now c.lease_expires_at)
  | BridgeState.reported t ↦ false
]

abbrev pub available : ℕ → ℕ → BridgeCommand → Bool
available now account c = nat_beq c.account_id account && may_lease now c

-- `now.replace(microsecond=0) + timedelta(seconds=lease_seconds)`, in microseconds.
abbrev pub lease_end : ℕ → ℕ → ℕ
lease_end now seconds = now / 1000000 * 1000000 + seconds * 1000000

abbrev pub lease : ℕ → ℕ → BridgeCommand → BridgeCommand
lease now seconds c = record c {
  state = BridgeState.leased;
  lease_expires_at = some (lease_end now seconds);
}

-- The loop over the pending commands, with `taken` the length of `result`: it breaks as soon as the
-- limit is reached after a command has been added.
unfoldable pub poll_from :
    ℕ → ℕ → ℕ → ℕ → ℕ → Dict ℕ BridgeCommand → List BridgeCommand × Dict ℕ BridgeCommand
poll_from now seconds account limit taken [] = ([], [])
poll_from now seconds account limit taken ((i, c) ∷ d) =
    let (more, after) = poll_from now seconds account limit (taken + 1) d in
    let (result, rest) = poll_from now seconds account limit taken d in
    if not (available now account c)
    then (result, (i, c) ∷ rest)
    else if leb limit (taken + 1)
    then (lease now seconds c ∷ [], (i, lease now seconds c) ∷ d)
    else (lease now seconds c ∷ more, (i, lease now seconds c) ∷ after)

unfoldable pub poll : ℕ → ℕ → ℕ → BridgeCommandQueue → List BridgeCommand × BridgeCommandQueue
poll now account limit q =
    let (result, pending) = poll_from now q.lease_seconds account limit 0 q.pending in
    (result, record q { pending = pending })

abbrev pub reported_on : BridgeReceipt → BridgeCommand → BridgeCommand
reported_on r c = record c { state = r.state; lease_expires_at = none }

unfoldable pub receipt : BridgeReceipt → BridgeCommandQueue → BridgeReceipt × BridgeCommandQueue
receipt r q = elim (lookup r.command_id q.receipts) [
  | some existing ↦ (existing, q)
  | none ↦ (
    r,
    record q {
      receipts = insert r.command_id r q.receipts;
      pending = elim (lookup r.command_id q.pending) [
        | none ↦ q.pending
        | some c ↦ insert r.command_id (reported_on r c) q.pending
      ];
    },
  )
]
