-- ===== src/Trading/Ledger.antt =====
-- The ledger of commands (`ExecutionLedger`, modules/trading/execution.py) and the two operations of
-- `ExecutionService` that put a command into it. Objects are shared in the source: a command that `put`
-- returns again is the stored one. `now` is `utc_now()`.
pub mod Idempotency
use matrades.Common.{
  ℕ, ◌≡◌, Bool, true, false, not, Option, none, some, List, [], ◌∷◌, ◌++◌, if◌then◌else◌, nat_eq,
}
use matrades.Common.Dict.{Dict, lookup, insert}
use matrades.Common.Result.{Result, ok, err}
use matrades.Trading.Models.{
  ExecutionAuthorization, Postcondition, postcondition_beq, ExecutionCommand, TradePlan,
}
use matrades.Trading.Authorization.{
  AuthorityError, check_command, entry_postcondition, Targets, no_targets, new_command,
}

-- The entries of `outbox`.
pub record Event : Type 0 where
  pub command_id : ℕ
  pub account_id : ℕ
  pub idempotency_key : ℕ

pub record Ledger : Type 0 where
  pub commands : Dict ℕ ExecutionCommand
  pub by_idempotency : Dict ℕ ℕ
  pub outbox : List Event

abbrev pub empty_ledger : Ledger
empty_ledger = record { commands = []; by_idempotency = []; outbox = [] }

-- `CommandConflict`, `KeyError`, and what is raised before the ledger.
pub data LedgerError : Type 0 where
  conflict missing_command : LedgerError
  refused : AuthorityError → LedgerError

abbrev pub event_of : ExecutionCommand → Event
event_of c = record {
  command_id = c.id;
  account_id = c.account_id;
  idempotency_key = c.idempotency_key;
}

-- The ledger with a command under a new key.
unfoldable pub added : ExecutionCommand → Ledger → Ledger
added c l = record {
  commands = insert c.id c l.commands;
  by_idempotency = insert c.idempotency_key c.id l.by_idempotency;
  outbox = l.outbox ++ event_of c ∷ [];
}

-- The command that a key is bound to, against the one that is put.
abbrev pub same_intent :
    ExecutionCommand → Option ExecutionCommand → Result LedgerError ExecutionCommand
same_intent c none = err LedgerError.missing_command
same_intent c (some existing) =
    if not (postcondition_beq existing.requested_postcondition c.requested_postcondition)
    then err LedgerError.conflict
    else ok existing

unfoldable pub put : ExecutionCommand → Ledger → Result LedgerError ExecutionCommand × Ledger
put c l = elim (lookup c.idempotency_key l.by_idempotency) [
  | some existing_id ↦ (same_intent c (lookup existing_id l.commands), l)
  | none ↦ (ok c, added c l)
]

-- `command_id` is fresh.
unfoldable pub create_action_command :
    ℕ
    → ℕ
    → TradePlan
    → ExecutionAuthorization
    → ℕ
    → Postcondition
    → Targets
    → Ledger
    → Result LedgerError ExecutionCommand × Ledger
create_action_command command_id now plan a key postcondition targets l =
    elim (check_command now plan a) [
      | err e ↦ (err (LedgerError.refused e), l)
      | ok u ↦ put (new_command command_id plan a key postcondition targets) l
    ]

unfoldable pub create_command :
    ℕ
    → ℕ
    → TradePlan
    → ExecutionAuthorization
    → ℕ
    → Ledger
    → Result LedgerError ExecutionCommand × Ledger
create_command command_id now plan a key l = elim (check_command now plan a) [
  | err e ↦ (err (LedgerError.refused e), l)
  | ok u ↦ put (new_command command_id plan a key (entry_postcondition plan) no_targets) l
]
