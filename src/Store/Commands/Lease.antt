-- ===== src/Store/Commands/Lease.antt =====
-- What a lease of a durable command (modules/trading/execution_store.py) promises to its worker, and
-- what it does not promise to two workers.
use matrades.Common.{
  ℕ, ◌+◌, ◌<◌, ◌≡◌, refl, sym, subst, ap, ◌∙◌, inl, inr, ◌⊎◌, ◌||◌, any, Bool, true, false, Option,
  none, some, List, [], ◌∷◌, arith, nat_beq, nat_beq_iff, Bool-cases, Option-cases, some-injective,
}
use matrades.Common.Int.{ℤ}
use matrades.Common.Result.{Result, ok, ok-injective}
use matrades.Domain.{CommandState}
use matrades.Store.{
  ResourceRecord, AuditRecord, ResourceState, Evidence, Database, StoreError, is_row, first, get,
  written, audit, update, updated, validate_executable_reference,
}
use matrades.Store.Audit.{entries, entries-append}
use matrades.Store.Commands.{
  CommandData, execution_command, command_payload, command_leased, is_leasable, lease_until,
  leased_data, lease_record, lease_command, lease_expired,
}

abbrev pub dispatching : ResourceState
dispatching = ResourceState.command CommandState.dispatching

-- The row that `get` finds is in the table.
first-any :
    (id owner_id : ℕ) (r : ResourceRecord CommandData) (l : List (ResourceRecord CommandData))
    → first (is_row execution_command id owner_id) l ≡ some r
    → any (λ x. nat_beq x.id r.id) l ≡ true
first-any id owner_id r [] h = cc
first-any id owner_id r (x ∷ l) h = elim (Bool-cases (is_row execution_command id owner_id x)) [
  | inl t ↦
      let same : x.id ≡ r.id = ap key (some-injective (rw t at h)) in
      or-left _ _ ((nat_beq_iff x.id r.id).1 same)
  | inr t ↦ or-right _ _ (first-any id owner_id r l (rw t at h))
]
  where
    key : ResourceRecord CommandData → ℕ
    key y = y.id

    or-left : (a b : Bool) → a ≡ true → (a || b) ≡ true
    or-left a b h = ground arith

    or-right : (a b : Bool) → b ≡ true → (a || b) ≡ true
    or-right a b h = ground arith

module _ (jsonable : CommandData → CommandData) (worker_id : ℕ) (lease_seconds : ℤ) (now : ℕ) where
  -- The row and the database that a lease of `r` leaves.
  abbrev pub leased :
      ResourceRecord CommandData
      → Database CommandData
      → ResourceRecord CommandData × Database CommandData
  leased r db =
      let until = lease_until now lease_seconds in
      updated ⦃p = command_payload jsonable⦄ r (some (leased_data worker_id until r.data_column))
        (some dispatching) none (some command_leased)
        (some (Evidence.lease_evidence worker_id until)) now db

  lease_record-leased :
      (r : ResourceRecord CommandData) (db : Database CommandData)
      → is_leasable r.state ≡ true
      → any (λ x. nat_beq x.id r.id) db.records ≡ true
      → lease_record jsonable worker_id lease_seconds now (some r) db
        ≡ ok (some (leased r db).0, (leased r db).1)
  unfolding lease_record update validate_executable_reference
  lease_record-leased r db h there = rw (h, (nat_beq_iff r.version r.version).1 refl, there) refl

  pub lease_command-cases :
      (owner_id command_id : ℕ) (db : Database CommandData)
      → (lease_command jsonable owner_id command_id worker_id lease_seconds now db ≡ ok (none, db))
        ⊎ ((r : ResourceRecord CommandData) × (get execution_command command_id owner_id db
              ≡ some r)
            × (is_leasable r.state ≡ true)
            × (lease_command jsonable owner_id command_id worker_id lease_seconds now db
                ≡ ok (some (leased r db).0, (leased r db).1)))
  unfolding lease_command lease_record
  lease_command-cases owner_id command_id db =
      elim (Option-cases (get execution_command command_id owner_id db)) [
        | inl g ↦ inl (rw (lease_command, g) refl)
        | inr (r, g) ↦ elim (Bool-cases (is_leasable r.state)) [
          | inr closed ↦ inl (rw (lease_command, g, closed) refl)
          | inl ready ↦ inr (
            r,
            g,
            ready,
            rw (lease_command, g) (lease_record-leased r db ready (first-any _ _ r db.records g)),
          )
        ]
      ]

first-written :
    (test : ResourceRecord CommandData → Bool) (r : ResourceRecord CommandData)
    (change : ResourceRecord CommandData → ResourceRecord CommandData)
    (l : List (ResourceRecord CommandData))
    → ((x : ResourceRecord CommandData) → test (change x) ≡ test x)
    → ((x : ResourceRecord CommandData) → test x ≡ true → nat_beq x.id r.id ≡ true)
    → first test l ≡ some r
    → first test (written change r.id l) ≡ some (change r)
first-written test r change [] k i h = cc
first-written test r change (x ∷ l) k i h = elim (Bool-cases (test x)) [
  | inl t ↦ rw (i x t, k x, t) (ap some (ap change (some-injective (rw t at h))))
  | inr t ↦ elim (Bool-cases (nat_beq x.id r.id)) [
    | inl e ↦ rw (e, k x, t) (first-written test r change l k i (rw t at h))
    | inr e ↦ rw (e, t) (first-written test r change l k i (rw t at h))
  ]
]

first-test :
    (test : ResourceRecord CommandData → Bool) (l : List (ResourceRecord CommandData))
    (r : ResourceRecord CommandData)
    → first test l ≡ some r
    → test r ≡ true
first-test test [] r h = cc
first-test test (x ∷ l) r h = elim (Bool-cases (test x)) [
  | inl t ↦ subst (λ y. test y ≡ true) (some-injective (rw t at h)) t
  | inr t ↦ first-test test l r (rw t at h)
]

module _ (jsonable : CommandData → CommandData) (owner_id command_id : ℕ) where
  -- What the table holds after a lease: the leased row, under the same id and owner.
  get-leased :
      (worker_id : ℕ) (lease_seconds : ℤ) (now : ℕ) (db : Database CommandData)
      (r : ResourceRecord CommandData)
      → get execution_command command_id owner_id db ≡ some r
      → get execution_command command_id owner_id
          (leased jsonable worker_id lease_seconds now r db).1
        ≡ some (leased jsonable worker_id lease_seconds now r db).0
  unfolding audit
  get-leased worker_id lease_seconds now db r g =
      first-written (is_row execution_command command_id owner_id) r _ db.records (λ x. refl)
        (λ x t. same_id x t) g
    where
      same_id :
          (x : ResourceRecord CommandData)
          → is_row execution_command command_id owner_id x ≡ true
          → nat_beq x.id r.id ≡ true
      same_id x t =
          ground (arith, first-test (is_row execution_command command_id owner_id) db.records r g)

  not_again :
      (worker_id : ℕ) (lease_seconds : ℤ) (now : ℕ) (db : Database CommandData)
      (r : ResourceRecord CommandData)
      → get execution_command command_id owner_id db ≡ some r
      → is_leasable r.state ≡ false
      → lease_command jsonable owner_id command_id worker_id lease_seconds now db ≡ ok (none, db)
  unfolding lease_command lease_record
  not_again worker_id lease_seconds now db r g h = rw (lease_command, g, h) refl

  -- A lease that a call returns has not expired for five seconds at least, and from the database it
  -- leaves no further call, of any worker at any instant, leases the command; this holds if encoding keeps
  -- the data as it is.
  pub lease_command-IsHeld :
      (worker_id worker_id' : ℕ) (lease_seconds lease_seconds' : ℤ) (now now' at_time : ℕ)
      (db db' : Database CommandData) (r : ResourceRecord CommandData)
      → ((d : CommandData) → jsonable d ≡ d)
      → lease_command jsonable owner_id command_id worker_id lease_seconds now db ≡ ok (some r, db')
      → at_time < now + 5000000
      → (lease_expired r at_time ≡ false)
        × (lease_command jsonable owner_id command_id worker_id' lease_seconds' now' db'
            ≡ ok (none, db'))
  unfolding lease_expired
  lease_command-IsHeld worker_id worker_id' lease_seconds lease_seconds' now now' at_time db db' r
        keeps e early =
      elim (lease_command-cases jsonable worker_id lease_seconds now owner_id command_id db) [
        | inl none_leased ↦ absurd (no_lease (sym none_leased ∙ e))
        | inr (x, g, ready, result) ↦
            let same = ok-injective (sym result ∙ e) in
            (
              subst (λ y. lease_expired y at_time ≡ false) (some-injective (ap (λ y. y.0) same))
                  (not_expired x),
              subst
                  (λ d.
                    lease_command jsonable owner_id command_id worker_id' lease_seconds' now' d
                    ≡ ok (none, d))
                  (ap (λ y. y.1) same)
                  (not_again worker_id' lease_seconds' now'
                    (leased jsonable worker_id lease_seconds now x db).1
                    (leased jsonable worker_id lease_seconds now x db).0
                    (get-leased worker_id lease_seconds now db x g) refl),
            )
      ]
    where
      no_lease : ¬ (
          ◌≡◌ {A = Result StoreError (Option (ResourceRecord CommandData) × Database CommandData)}
            (ok (none, db))
            (ok (some r, db')))
      no_lease p = cc

      not_expired :
          (x : ResourceRecord CommandData)
          → lease_expired (leased jsonable worker_id lease_seconds now x db).0 at_time ≡ false
      not_expired x =
          rw
            (
              lease_expired,
              keeps (leased_data worker_id (lease_until now lease_seconds) x.data_column),
            )
            (ground arith)

  -- Two workers that read a command before either writes both lease it. The second write finds the first
  -- one's row and takes its place with the same version, so that the trail has two more entries for the row
  -- where its version is one more than it was: the version that the call expects is the one it read.
  pub lease_record-twice :
      (worker_id worker_id' : ℕ) (lease_seconds : ℤ) (now now' : ℕ) (db : Database CommandData)
      (r : ResourceRecord CommandData)
      → get execution_command command_id owner_id db ≡ some r
      → is_leasable r.state ≡ true
      → (x : ResourceRecord CommandData × Database CommandData) × (y : ResourceRecord CommandData
          × Database CommandData)
        × (lease_command jsonable owner_id command_id worker_id lease_seconds now db
            ≡ ok (some x.0, x.1))
        × (lease_record jsonable worker_id' lease_seconds now'
              (get execution_command command_id owner_id db)
              x.1
            ≡ ok (some y.0, y.1))
        × (get execution_command command_id owner_id y.1 ≡ some y.0)
        × (y.0.version ≡ r.version + 1)
        × (entries r.id y.1.audits ≡ entries r.id db.audits + 2)
  unfolding lease_command audit
  lease_record-twice worker_id worker_id' lease_seconds now now' db r g ready =
      let x = leased jsonable worker_id lease_seconds now r db in
      let gx : get execution_command command_id owner_id x.1 ≡ some x.0 =
        get-leased worker_id lease_seconds now db r g in
      (
        x,
        leased jsonable worker_id' lease_seconds now' r x.1,
        rw (lease_command, g)
            (lease_record-leased jsonable worker_id lease_seconds now r db ready
              (first-any command_id owner_id r db.records g)),
        rw g (
            lease_record-leased jsonable worker_id' lease_seconds now' r x.1 ready
              (first-any command_id owner_id x.0 x.1.records gx)),
        first-written (is_row execution_command command_id owner_id) x.0 _ x.1.records (λ z. refl)
            (λ z t.
              ground (
                arith,
                first-test (is_row execution_command command_id owner_id) x.1.records x.0 gx,
              ))
            gx,
        refl,
        ground (
          arith,
          entries-append r.id x.1.audits (lease_entry worker_id' (lease_until now' lease_seconds) r)
              r.id refl,
          entries-append r.id db.audits (lease_entry worker_id (lease_until now lease_seconds) r)
              r.id refl,
        ),
      )
    where
      lease_entry : ℕ → ℕ → ResourceRecord CommandData → AuditRecord
      lease_entry worker until z = record {
        owner_id = z.owner_id;
        actor_id = none;
        event_type = command_leased;
        aggregate_type = z.kind;
        aggregate_id = some z.id;
        evidence = Evidence.lease_evidence worker until;
      }
