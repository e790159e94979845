-- ===== src/Store/Commands.antt =====
-- The durable command store (modules/trading/execution_store.py). A row's data is the dump of an
-- `ExecutionCommand` with the keys that a lease adds; instants are whole microseconds. `jsonable` is
-- `jsonable_encoder`; the dump of a command has no `instrument_type`.
pub mod Persist
pub mod Lease
pub mod Consistent
use matrades.Common.{
  ℕ, ◌+◌, ◌*◌, Bool, true, false, not, Option, none, some, List, [], ◌∷◌, ◌++◌, nat_beq, leb,
  if◌then◌else◌, any,
}
use matrades.Common.Int.{ℤ, pos, pos_part, max_ℤ}
use matrades.Common.Result.{Result, ok, err, raise_if, ◌>>◌, ◌>>=◌}
use matrades.Domain.{CommandState}
use matrades.Trading.Models.{ExecutionCommand, postcondition_beq}
use matrades.Store.{
  Reference, Payload, ResourceState, ResourceRecord, OutboxRecord, EventType, Evidence, Database,
  StoreError, or_else, first, get, list, create, update,
}

pub record LeaseData : Type 0 where
  pub worker_id : ℕ
  pub expires_at : Option ℕ

pub record CommandData : Type 0 where
  pub command : ExecutionCommand
  pub lease : Option LeaseData
  pub attempt_count : Option ℕ

abbrev pub execution_command : ℕ
execution_command = 1

abbrev pub command_queued : EventType
command_queued = EventType.named_event 1

abbrev pub command_leased : EventType
command_leased = EventType.named_event 2

-- `command.model_dump(mode="json")`
abbrev pub model_dump : ExecutionCommand → CommandData
model_dump c = record { command = c; lease = none; attempt_count = none }

abbrev pub no_reference : Reference
no_reference = record {
  instrument_type = none;
  venue_instrument_id = none;
  specification_version_id = none;
  quantity_unit = none;
  futures_contract_id = none;
}

abbrev pub command_payload : (CommandData → CommandData) → Payload CommandData
command_payload jsonable = record { reference_of = λ d. no_reference; jsonable_encoder = jsonable }

abbrev pub has_key : ℕ → ResourceRecord CommandData → Bool
has_key key r = nat_beq r.data_column.command.idempotency_key key

abbrev pub with_event : ExecutionCommand → ℕ → Database CommandData → Database CommandData
with_event c owner_id db = record db {
  outbox =
      db.outbox
      ++ record {
        event_id = c.id;
        owner_id = owner_id;
        event_type = command_queued;
        payload = model_dump c;
      }
        ∷ [];
}

-- `session.add(OutboxRecord(...))`; `flush` refuses a second row with an event id of the table.
abbrev pub queue_event :
    ExecutionCommand
    → ℕ
    → ResourceRecord CommandData × Database CommandData
    → Result StoreError (ResourceRecord CommandData × Database CommandData)
queue_event c owner_id (r, db) =
    raise_if (any (λ e. nat_beq e.event_id c.id) db.outbox) StoreError.duplicate_key
    >> ok (r, with_event c owner_id db)

abbrev pub is_leasable : ResourceState → Bool
is_leasable (ResourceState.command CommandState.queued) = true
is_leasable (ResourceState.command CommandState.authorized) = true
is_leasable _ = false

-- `now + timedelta(seconds=max(5, lease_seconds))`
abbrev pub lease_until : ℕ → ℤ → ℕ
lease_until now lease_seconds = now + 1000000 * pos_part (max_ℤ (pos 5) lease_seconds)

abbrev pub leased_data : ℕ → ℕ → CommandData → CommandData
leased_data worker_id until d = record d {
  command = record d.command { state = CommandState.dispatching };
  lease = some (record { worker_id = worker_id; expires_at = some until });
  attempt_count = some (or_else d.attempt_count 0 + 1);
}

module _ (jsonable : CommandData → CommandData) where
  abbrev pub new_record :
      ℕ
      → ExecutionCommand
      → Option ℕ
      → ℕ
      → Database CommandData
      → Result StoreError (ResourceRecord CommandData × Database CommandData)
  new_record owner_id c actor_id now db =
      create ⦃p = command_payload jsonable⦄ execution_command owner_id (model_dump c)
        (ResourceState.command c.state) c.id actor_id (some command_queued) now db
      >>= queue_event c owner_id

  unfoldable pub persist_command :
      ℕ
      → ExecutionCommand
      → Option ℕ
      → ℕ
      → Database CommandData
      → Result StoreError (ResourceRecord CommandData × Database CommandData)
  persist_command owner_id c actor_id now db = elim (get execution_command c.id owner_id db) [
    | some existing ↦
        if not (has_key c.idempotency_key existing)
        then err StoreError.other_identity
        else ok (existing, db)
    | none ↦ elim (first (has_key c.idempotency_key) (list execution_command owner_id false db)) [
      | some item ↦
          if not (
            postcondition_beq item.data_column.command.requested_postcondition
              c.requested_postcondition)
          then err StoreError.other_payload
          else ok (item, db)
      | none ↦ new_record owner_id c actor_id now db
    ]
  ]

  -- The call after its `store.get`, which may have read an earlier state of the table.
  unfoldable pub lease_record :
      ℕ
      → ℤ
      → ℕ
      → Option (ResourceRecord CommandData)
      → Database CommandData
      → Result StoreError (Option (ResourceRecord CommandData) × Database CommandData)
  lease_record worker_id lease_seconds now none db = ok (none, db)
  lease_record worker_id lease_seconds now (some r) db =
      if not (is_leasable r.state)
      then ok (none, db)
      else (let until = lease_until now lease_seconds in
          update ⦃p = command_payload jsonable⦄ r (some (leased_data worker_id until r.data_column))
            (some (ResourceState.command CommandState.dispatching)) (some r.version) none
            (some command_leased) (some (Evidence.lease_evidence worker_id until)) now db
          >>= λ x. ok (some x.0, x.1))

  unfoldable pub lease_command :
      ℕ
      → ℕ
      → ℕ
      → ℤ
      → ℕ
      → Database CommandData
      → Result StoreError (Option (ResourceRecord CommandData) × Database CommandData)
  lease_command owner_id command_id worker_id lease_seconds now db =
      lease_record worker_id lease_seconds now (get execution_command command_id owner_id db) db

unfoldable pub lease_expired : ResourceRecord CommandData → ℕ → Bool
lease_expired r now = elim r.data_column.lease [
  | none ↦ true
  | some lease ↦ elim lease.expires_at [ none ↦ true | some expires ↦ leb expires now ]
]
