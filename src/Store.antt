-- ===== src/Store.antt =====
-- The resource store (packages/shared/store.py, packages/shared/persistence.py): owner-scoped rows with
-- a version, and an audit trail. A `Database` is the tables that a transaction sees, in the order the
-- rows were added; a call that raises aborts the transaction and returns no database. Texts that are
-- only compared are natural numbers; the columns that only the database fills (an audit's id,
-- correlation and time) are left out. `uuid4()` is an argument of `create`, `utc_now()` is `now`.
pub mod Audit
pub mod Commands
pub mod Idempotency
use matrades.Common.{
  ℕ, ◌+◌, Bool, true, false, not, ◌&&◌, Option, none, some, List, [], ◌∷◌, ◌++◌, map, nat_beq, leb,
  if◌then◌else◌, filter, any,
}
use matrades.Common.Result.{Result, ok, err, raise_if, ◌>>◌}
use matrades.Domain.{CommandState, InstrumentType}

-- The values that `validate_executable_reference` reads: texts as lists of characters, so that an empty
-- one is falsy.
pub record Reference : Type 0 where
  pub instrument_type : Option InstrumentType
  pub venue_instrument_id : Option (List ℕ)
  pub specification_version_id : Option (List ℕ)
  pub quantity_unit : Option (List ℕ)
  pub futures_contract_id : Option (List ℕ)

pub data ReferenceKey : Type 0 where
  venue_instrument_key specification_version_key quantity_unit_key : ReferenceKey

pub data StoreError : Type 0 where
  missing_reference : List ReferenceKey → StoreError
  futures_contract_missing version_conflict duplicate_key stale_row : StoreError
  other_identity other_payload : StoreError

abbrev pub truthy : Option (List ℕ) → Bool
truthy none = false
truthy (some []) = false
truthy (some (c ∷ cs)) = true

abbrev pub missing_keys : Reference → List ReferenceKey
missing_keys r =
    (if truthy r.venue_instrument_id then [] else ReferenceKey.venue_instrument_key ∷ [])
    ++ (if truthy r.specification_version_id
        then []
        else ReferenceKey.specification_version_key ∷ [])
    ++ (if truthy r.quantity_unit then [] else ReferenceKey.quantity_unit_key ∷ [])

abbrev pub is_futures : InstrumentType → Bool
is_futures InstrumentType.futures = true
is_futures InstrumentType.cfd = false
is_futures InstrumentType.spot = false

abbrev pub check_missing : List ReferenceKey → Result StoreError (Unit {0})
check_missing [] = ok tt
check_missing (k ∷ ks) = err (StoreError.missing_reference (k ∷ ks))

unfoldable pub validate_executable_reference : Reference → Result StoreError (Unit {0})
validate_executable_reference r = elim r.instrument_type [
  | none ↦ ok tt
  | some kind ↦
      check_missing (missing_keys r)
      >> raise_if (is_futures kind && not (truthy r.futures_contract_id))
          StoreError.futures_contract_missing
]

-- What the store asks of the data of a row: the values of its reference, and `jsonable_encoder`.
pub record Payload (D : Type 0) : Type 0 where
  pub reference_of : D → Reference
  pub jsonable_encoder : D → D

-- A row's `state` column.
pub data ResourceState : Type 0 where
  active deleted : ResourceState
  command : CommandState → ResourceState
  named : ℕ → ResourceState

pub record ResourceRecord (D : Type 0) : Type 0 where
  pub id : ℕ
  pub owner_id : ℕ
  pub kind : ℕ
  pub state : ResourceState
  pub version : ℕ
  pub data_column : D
  pub created_at : ℕ
  pub updated_at : ℕ

-- `event_type or f"{kind}.created"`, `event_type or f"{kind}.updated"`.
pub data EventType : Type 0 where
  kind_created kind_updated named_event : ℕ → EventType

pub data Evidence : Type 0 where
  state_version : ResourceState → ℕ → Evidence
  lease_evidence : ℕ → ℕ → Evidence
  custom_evidence : ℕ → Evidence

pub record AuditRecord : Type 0 where
  pub owner_id : ℕ
  pub actor_id : Option ℕ
  pub event_type : EventType
  pub aggregate_type : ℕ
  pub aggregate_id : Option ℕ
  pub evidence : Evidence

-- A row of the outbox (packages/shared/outbox.py) that is not published; its payload is the data.
pub record OutboxRecord (D : Type 0) : Type 0 where
  pub event_id : ℕ
  pub owner_id : ℕ
  pub event_type : EventType
  pub payload : D

pub record Database (D : Type 0) : Type 0 where
  pub records : List (ResourceRecord D)
  pub audits : List AuditRecord
  pub outbox : List (OutboxRecord D)

abbrev pub or_else {ℓ} : {A : Type ℓ} → Option A → A → A
or_else none d = d
or_else (some a) d = a

abbrev pub is_deleted : ResourceState → Bool
is_deleted ResourceState.deleted = true
is_deleted ResourceState.active = false
is_deleted (ResourceState.command s) = false
is_deleted (ResourceState.named t) = false

module _ {D : Type 0} where
  unfoldable pub audit :
      ℕ → Option ℕ → EventType → ℕ → Option ℕ → Evidence → Database D → Database D
  audit owner_id actor_id event_type aggregate_type aggregate_id evidence db = record db {
    audits =
        db.audits
        ++ record {
          owner_id = owner_id;
          actor_id = actor_id;
          event_type = event_type;
          aggregate_type = aggregate_type;
          aggregate_id = aggregate_id;
          evidence = evidence;
        }
          ∷ [];
  }

  -- The `where` of `get`.
  abbrev pub is_row : ℕ → ℕ → ℕ → ResourceRecord D → Bool
  is_row kind record_id owner_id r =
      nat_beq r.id record_id && (nat_beq r.kind kind && nat_beq r.owner_id owner_id)

  -- `session.scalar`: the first row of the result.
  abbrev pub first : (ResourceRecord D → Bool) → List (ResourceRecord D) → Option (ResourceRecord D)
  first test [] = none
  first test (r ∷ rs) = if test r then some r else first test rs

  abbrev pub get : ℕ → ℕ → ℕ → Database D → Option (ResourceRecord D)
  get kind record_id owner_id db = first (is_row kind record_id owner_id) db.records

  -- `order_by(updated_at.desc())`, equal instants in the order of the table.
  abbrev pub insert_latest : ResourceRecord D → List (ResourceRecord D) → List (ResourceRecord D)
  insert_latest r [] = r ∷ []
  insert_latest r (x ∷ xs) =
      if leb x.updated_at r.updated_at then r ∷ x ∷ xs else x ∷ insert_latest r xs

  abbrev pub latest_first : List (ResourceRecord D) → List (ResourceRecord D)
  latest_first [] = []
  latest_first (r ∷ rs) = insert_latest r (latest_first rs)

  abbrev pub is_listed : ℕ → ℕ → Bool → ResourceRecord D → Bool
  is_listed kind owner_id include_deleted r =
      nat_beq r.kind kind
      && nat_beq r.owner_id owner_id
      && (if include_deleted then true else not (is_deleted r.state))

  unfoldable pub list : ℕ → ℕ → Bool → Database D → List (ResourceRecord D)
  list kind owner_id include_deleted db =
      latest_first (filter (is_listed kind owner_id include_deleted) db.records)

  -- The row that `update` leaves, and what it writes: the columns it assigned, under the row's id.
  abbrev pub assigned :
      Option D → Option ResourceState → ℕ → ResourceRecord D → ResourceRecord D → ResourceRecord D
  assigned data_given state_given now r x = record x {
    data_column = or_else data_given x.data_column;
    state = or_else state_given x.state;
    version = r.version + 1;
    updated_at = now;
  }

  abbrev pub written :
      (ResourceRecord D → ResourceRecord D) → ℕ → List (ResourceRecord D) → List (ResourceRecord D)
  written change id [] = []
  written change id (x ∷ xs) = (if nat_beq x.id id then change x else x) ∷ written change id xs

  abbrev pub new_row : ℕ → ℕ → D → ResourceState → ℕ → ℕ → ResourceRecord D
  new_row kind owner_id encoded_data state id now = record {
    id = id;
    owner_id = owner_id;
    kind = kind;
    state = state;
    version = 1;
    data_column = encoded_data;
    created_at = now;
    updated_at = now;
  }

module _ {D : Type 0} ⦃p : Payload D⦄ where
  abbrev pub created :
      ℕ
      → ℕ
      → D
      → ResourceState
      → ℕ
      → Option ℕ
      → Option EventType
      → ℕ
      → Database D
      → ResourceRecord D × Database D
  created kind owner_id given state id actor_id event_type now db =
      let r = new_row kind owner_id (p.jsonable_encoder given) state id now in
      (
        r,
        audit owner_id actor_id (or_else event_type (EventType.kind_created kind)) kind (some id)
            (Evidence.state_version state 1) (record db { records = db.records ++ r ∷ [] }),
      )

  -- `flush` refuses a second row with an id that is in the table.
  unfoldable pub create :
      ℕ
      → ℕ
      → D
      → ResourceState
      → ℕ
      → Option ℕ
      → Option EventType
      → ℕ
      → Database D
      → Result StoreError (ResourceRecord D × Database D)
  create kind owner_id given state id actor_id event_type now db =
      validate_executable_reference (p.reference_of given)
      >> raise_if (any (λ x. nat_beq x.id id) db.records) StoreError.duplicate_key
      >> ok (created kind owner_id given state id actor_id event_type now db)

  abbrev pub is_gone : ℕ → Database D → Bool
  is_gone id db = not (any (λ x. nat_beq x.id id) db.records)

  abbrev pub check_version : Option ℕ → ResourceRecord D → Bool
  check_version none r = false
  check_version (some v) r = not (nat_beq r.version v)

  abbrev pub check_data : Option D → Result StoreError (Unit {0})
  check_data none = ok tt
  check_data (some d) = validate_executable_reference (p.reference_of d)

  abbrev pub encoded : Option D → Option D
  encoded none = none
  encoded (some d) = some (p.jsonable_encoder d)

  abbrev pub updated :
      ResourceRecord D
      → Option D
      → Option ResourceState
      → Option ℕ
      → Option EventType
      → Option Evidence
      → ℕ
      → Database D
      → ResourceRecord D × Database D
  updated r data_given state_given actor_id event_type evidence now db =
      let change = assigned (encoded data_given) state_given now r in
      (
        change r,
        audit r.owner_id actor_id (or_else event_type (EventType.kind_updated r.kind)) r.kind
            (some r.id)
            (or_else evidence
              (Evidence.state_version (or_else state_given r.state) (r.version + 1)))
            (record db { records = written change r.id db.records }),
      )

  -- `r` is the object the caller holds, which `get` or `list` read. `flush` raises where the table has no
  -- row of its id any more.
  unfoldable pub update :
      ResourceRecord D
      → Option D
      → Option ResourceState
      → Option ℕ
      → Option ℕ
      → Option EventType
      → Option Evidence
      → ℕ
      → Database D
      → Result StoreError (ResourceRecord D × Database D)
  update r data_given state_given expected_version actor_id event_type evidence now db =
      raise_if (check_version expected_version r) StoreError.version_conflict
      >> (check_data data_given >> raise_if (is_gone r.id db) StoreError.stale_row)
      >> ok (updated r data_given state_given actor_id event_type evidence now db)
