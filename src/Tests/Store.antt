-- ===== src/Tests/Store.antt =====
-- Runs of the resource store, the durable commands and the idempotency store.
use matrades.Common.{◌+◌, ◌≡◌, refl, false, none, some, [], arith}
use matrades.Common.Int.{pos}
use matrades.Common.Result.{ok}
use matrades.Domain.{CommandState}
use matrades.Trading.Models.{ExecutionCommand}
use matrades.Store.{
  ResourceRecord, Database, get, list, create, update, audit, validate_executable_reference,
}
use matrades.Store.Commands.{
  CommandData, execution_command, persist_command, lease_record, lease_command, lease_expired,
}
use matrades.Store.Audit.{entries}
use matrades.Store.Commands.Persist.{persisted, persist_command-again}
use matrades.Store.Commands.Lease.{leased, lease_command-IsHeld, lease_record-twice}
use matrades.Store.Commands.Consistent.{empty_database, IsConsistent, Reaches, Reaches-IsConsistent}
use matrades.Tests.Commands.{close}

abbrev jsonable : CommandData → CommandData
jsonable d = d

abbrev queued : ExecutionCommand
queued = close CommandState.queued 1 []

abbrev stored : ResourceRecord CommandData × Database CommandData
stored = persisted jsonable 7 queued none 100 empty_database

abbrev taken : ResourceRecord CommandData × Database CommandData
taken = leased jsonable 3 (pos 30) 200 stored.0 stored.1

persist-run : persist_command jsonable 7 queued none 100 empty_database ≡ ok stored
unfolding persist_command create validate_executable_reference list audit
persist-run = refl

lease-run : lease_command jsonable 7 61 3 (pos 30) 200 stored.1 ≡ ok (some taken.0, taken.1)
unfolding lease_command lease_record update audit validate_executable_reference
lease-run = refl

persist_command-again_example :
    persist_command jsonable 7 queued (some 9) 300 stored.1 ≡ ok (stored.0, stored.1)
persist_command-again_example =
    persist_command-again jsonable 7 queued none (some 9) 100 300 empty_database stored.1 stored.0
      (λ d. refl) persist-run

lease_command-IsHeld_example :
    (lease_expired taken.0 1000 ≡ false)
    × (lease_command jsonable 7 61 4 (pos 30) 300 taken.1 ≡ ok (none, taken.1))
lease_command-IsHeld_example =
    lease_command-IsHeld jsonable 7 61 3 4 (pos 30) (pos 30) 200 300 1000 stored.1 taken.1 taken.0
      (λ d. refl) lease-run (omega arith)

get-run : get execution_command 61 7 stored.1 ≡ some stored.0
unfolding audit
get-run = refl

lease_record-twice_example :
    (x : ResourceRecord CommandData × Database CommandData) × (y : ResourceRecord CommandData
      × Database CommandData)
    × (lease_command jsonable 7 61 3 (pos 30) 200 stored.1 ≡ ok (some x.0, x.1))
    × (lease_record jsonable 4 (pos 30) 201 (get execution_command 61 7 stored.1) x.1
        ≡ ok (some y.0, y.1))
    × (get execution_command 61 7 y.1 ≡ some y.0)
    × (y.0.version ≡ 2)
    × (entries 61 y.1.audits ≡ entries 61 stored.1.audits + 2)
lease_record-twice_example =
    lease_record-twice jsonable 7 61 3 4 (pos 30) 200 201 stored.1 stored.0 get-run refl

Reaches-IsConsistent_example : IsConsistent taken.1
Reaches-IsConsistent_example = Reaches-IsConsistent jsonable taken.1 (
    Reaches.then_lease (Reaches.then_persist Reaches.start 7 queued none 100 persist-run) 7 61 3
      (pos 30) 200 lease-run)
