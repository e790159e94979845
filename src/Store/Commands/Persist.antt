-- ===== src/Store/Commands/Persist.antt =====
-- What `persist_command` (modules/trading/execution_store.py) stores, and that it stores it once.
use matrades.Common.{
  ℕ, ◌≡◌, refl, sym, subst, ap, inl, inr, ◌⊎◌, Bool, true, false, not, ◌&&◌, Option, none, some,
  List, [], ◌∷◌, ◌++◌, arith, nat_beq, nat_beq_iff, if◌then◌else◌, Bool-cases, Option-cases, any,
}
use matrades.Common.Result.{ok, err, checked-eq-ok, raise_if-passed, >>=-eq-ok, ok-injective}
use matrades.Trading.Models.{ExecutionCommand, postcondition_beq}
use matrades.Store.{
  ResourceRecord, ResourceState, Database, StoreError, is_row, first, get, list, create, created,
  audit, validate_executable_reference,
}
use matrades.Store.Commands.{
  CommandData, execution_command, command_queued, command_payload, model_dump, has_key, with_event,
  queue_event, new_record, persist_command, no_reference,
}

-- The database and the row when the command is new.
abbrev pub persisted :
    (CommandData → CommandData)
    → ℕ
    → ExecutionCommand
    → Option ℕ
    → ℕ
    → Database CommandData
    → ResourceRecord CommandData × Database CommandData
persisted jsonable owner_id c actor_id now db =
    let (r, db') =
      created ⦃p = command_payload jsonable⦄ execution_command owner_id (model_dump c)
        (ResourceState.command c.state) c.id actor_id (some command_queued) now db in
    (r, with_event c owner_id db')

-- A call that returns has met one of three cases.
pub persist_command-cases :
    (jsonable : CommandData → CommandData) (owner_id : ℕ) (c : ExecutionCommand)
    (actor_id : Option ℕ) (now : ℕ) (db : Database CommandData)
    {x : ResourceRecord CommandData × Database CommandData}
    → persist_command jsonable owner_id c actor_id now db ≡ ok x
    → ((x.1 ≡ db)
        × ((actor_id' : Option ℕ) (now' : ℕ)
            → persist_command jsonable owner_id c actor_id' now' db ≡ ok x))
      ⊎ ((get execution_command c.id owner_id db ≡ none)
          × (any (λ r. nat_beq r.id c.id) db.records ≡ false)
          × (any (λ e. nat_beq e.event_id c.id) db.outbox ≡ false)
          × (persisted jsonable owner_id c actor_id now db ≡ x))
unfolding persist_command create audit
persist_command-cases jsonable owner_id c actor_id now db {x = x} e =
    elim (Option-cases (get execution_command c.id owner_id db)) [
      | inr (existing, g) ↦ inl (
        if_ok (existing, db) StoreError.other_identity (has_key c.idempotency_key existing)
            (rw (persist_command, g) at e),
        λ actor_id' now'. rw (persist_command, g) (rw (persist_command, g) at e),
      )
      | inl g ↦
          elim (Option-cases
            (first (has_key c.idempotency_key) (list execution_command owner_id false db))) [
              | inr (item, f) ↦ inl (
                if_ok (item, db) StoreError.other_payload
                    (postcondition_beq item.data_column.command.requested_postcondition
                      c.requested_postcondition)
                    (rw (persist_command, g, f) at e),
                λ actor_id' now'. rw (persist_command, g, f) (rw (persist_command, g, f) at e),
              )
              | inl f ↦
                  let (no_row, no_event, same) = fresh (rw (persist_command, g, f) at e) in
                  inr (g, no_row, no_event, same)
            ]
    ]
  where
    if_ok :
        (y : ResourceRecord CommandData × Database CommandData) (e : StoreError) (t : Bool)
        → (if not t then err e else ok y) ≡ ok x
        → x.1 ≡ y.1
    if_ok y e true h = ap (λ x. x.1) (sym (ok-injective h))
    if_ok y e false h = cc

    fresh :
        new_record jsonable owner_id c actor_id now db ≡ ok x
        → (any (λ r. nat_beq r.id c.id) db.records ≡ false)
          × (any (λ e. nat_beq e.event_id c.id) db.outbox ≡ false)
          × (persisted jsonable owner_id c actor_id now db ≡ x)
    fresh h =
        let v =
          created ⦃p = command_payload jsonable⦄ execution_command owner_id (model_dump c)
            (ResourceState.command c.state) c.id actor_id (some command_queued) now db in
        let (y, call, rest) =
          >>=-eq-ok
            (create ⦃p = command_payload jsonable⦄ execution_command owner_id (model_dump c)
              (ResourceState.command c.state) c.id actor_id (some command_queued) now db)
            (queue_event c owner_id) h in
        let (valid, no_row, same) =
          checked-eq-ok (validate_executable_reference no_reference)
            (any (λ r. nat_beq r.id c.id) db.records) StoreError.duplicate_key v call in
        let (no_event, result) =
          raise_if-passed _ _ _ (subst (λ y. queue_event c owner_id y ≡ ok x) (sym same) rest) in
        (no_row, no_event, ok-injective result)

-- What was found again: the second call of `persist_command`, whatever the first one met.
first-append :
    (test : ResourceRecord CommandData → Bool) (l : List (ResourceRecord CommandData))
    (r : ResourceRecord CommandData)
    → first test l ≡ none
    → test r ≡ true
    → first test (l ++ r ∷ []) ≡ some r
first-append test [] r n t = rw t refl
first-append test (x ∷ l) r n t = elim (Bool-cases (test x)) [
  | inl h ↦ absurd (some-ne-none (rw h at n))
  | inr h ↦ rw h (first-append test l r (rw h at n) t)
]
  where
    some-ne-none : ¬ (some x ≡ none)
    some-ne-none p = cc

-- A command that was persisted is returned, and nothing else is written, when it is persisted again at
-- once for the same owner, by any actor at any instant, if encoding keeps the data as it is.
pub persist_command-again :
    (jsonable : CommandData → CommandData) (owner_id : ℕ) (c : ExecutionCommand)
    (actor_id actor_id' : Option ℕ) (now now' : ℕ) (db db' : Database CommandData)
    (r : ResourceRecord CommandData)
    → ((d : CommandData) → jsonable d ≡ d)
    → persist_command jsonable owner_id c actor_id now db ≡ ok (r, db')
    → persist_command jsonable owner_id c actor_id' now' db' ≡ ok (r, db')
unfolding persist_command audit
persist_command-again jsonable owner_id c actor_id actor_id' now now' db db' r keeps e =
    elim (persist_command-cases jsonable owner_id c actor_id now db e) [
      | inl (same, again) ↦ rw same (
          subst (λ d. persist_command jsonable owner_id c actor_id' now' db ≡ ok (r, d)) same
            (again actor_id' now'))
      | inr (none_got, no_row, no_event, result) ↦
          let row = (persisted jsonable owner_id c actor_id now db).0 in
          subst (λ x. persist_command jsonable owner_id c actor_id' now' x.1 ≡ ok x) result
            (found (persisted jsonable owner_id c actor_id now db)
              (first-append (is_row execution_command c.id owner_id) db.records row none_got
                (is_row_self c.id owner_id))
              (rw (keeps (model_dump c)) ((nat_beq_iff _ _).1 refl)))
    ]
  where
    is_row_self :
        (i o : ℕ)
        → (nat_beq i i && (nat_beq execution_command execution_command && nat_beq o o)) ≡ true
    is_row_self i o = ground arith

    found :
        (x : ResourceRecord CommandData × Database CommandData)
        → get execution_command c.id owner_id x.1 ≡ some x.0
        → has_key c.idempotency_key x.0 ≡ true
        → persist_command jsonable owner_id c actor_id' now' x.1 ≡ ok x
    found x g k = rw (persist_command, g, k) refl
