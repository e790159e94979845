-- ===== src/Store/Commands/Consistent.antt =====
-- Every run of the durable command store (modules/trading/execution_store.py) from an empty database:
-- rows, audit trail and outbox stay together.
use matrades.Common.{
  ℕ, ◌≡◌, refl, sym, subst, ap, ◌∙◌, inl, inr, Bool, true, false, ◌||◌, Option, some, List, [], ◌∷◌,
  ◌++◌, arith, nat_beq, nat_beq_iff, Bool-cases, some-injective, any, All, All-append, All-map,
}
use matrades.Common.Int.{ℤ}
use matrades.Common.Result.{ok, ok-injective}
use matrades.Trading.Models.{ExecutionCommand}
use matrades.Store.{ResourceRecord, OutboxRecord, Database, is_row, first, written, audit}
use matrades.Store.Audit.{IsDistinct, IsAudited, added-IsAudited, changed-IsAudited}
use matrades.Store.Commands.{CommandData, execution_command, persist_command, lease_command}
use matrades.Store.Commands.Persist.{persisted, persist_command-cases}
use matrades.Store.Commands.Lease.{lease_command-cases}

-- The empty tables.
abbrev pub empty_database : Database CommandData
empty_database = record { records = []; audits = []; outbox = [] }

-- Rows are commands, and each has its event in the outbox.
abbrev pub IsQueued : List (OutboxRecord CommandData) → ResourceRecord CommandData → Type 0
IsQueued outbox r = any (λ e. nat_beq e.event_id r.id) outbox ≡ true

abbrev pub IsConsistent : Database CommandData → Type 0
IsConsistent db = IsAudited db × All (IsQueued db.outbox) db.records

-- The databases that calls lead to, one call after the other.
pub data Reaches (jsonable : CommandData → CommandData) : Database CommandData → Type 0 where
  start : Reaches jsonable empty_database
  then_persist :
      {db : Database CommandData} {x : ResourceRecord CommandData × Database CommandData}
      → Reaches jsonable db
      → (owner_id : ℕ) → (c : ExecutionCommand) → (actor_id : Option ℕ) → (now : ℕ)
      → persist_command jsonable owner_id c actor_id now db ≡ ok x
      → Reaches jsonable x.1
  then_lease :
      {db : Database CommandData} {x : Option (ResourceRecord CommandData) × Database CommandData}
      → Reaches jsonable db
      → (owner_id command_id worker_id : ℕ) → (lease_seconds : ℤ) → (now : ℕ)
      → lease_command jsonable owner_id command_id worker_id lease_seconds now db ≡ ok x
      → Reaches jsonable x.1

any-append :
    (test : OutboxRecord CommandData → Bool) (l : List (OutboxRecord CommandData))
    (x : OutboxRecord CommandData)
    → any test (l ++ x ∷ []) ≡ (any test l || test x)
any-append test [] x = ground arith
any-append test (y ∷ l) x = ground (arith, any-append test l x)

-- An event that was queued stays queued, and the last one is.
any-kept :
    (test : OutboxRecord CommandData → Bool) (l : List (OutboxRecord CommandData))
    (x : OutboxRecord CommandData)
    → any test l ≡ true
    → any test (l ++ x ∷ []) ≡ true
any-kept test l x p = ground (arith, any-append test l x)

any-last :
    (test : OutboxRecord CommandData → Bool) (l : List (OutboxRecord CommandData))
    (x : OutboxRecord CommandData)
    → test x ≡ true
    → any test (l ++ x ∷ []) ≡ true
any-last test l x p = ground (arith, any-append test l x)

All-first :
    (P : ResourceRecord CommandData → Type 0) (test : ResourceRecord CommandData → Bool)
    (l : List (ResourceRecord CommandData)) (r : ResourceRecord CommandData)
    → All P l
    → first test l ≡ some r
    → P r
All-first P test [] r ps h = cc
All-first P test (x ∷ l) r (p, ps) h = elim (Bool-cases (test x)) [
  | inl t ↦ subst P (some-injective (rw t at h)) p
  | inr t ↦ All-first P test l r ps (rw t at h)
]

first-stored :
    (id owner_id : ℕ) (l : List (ResourceRecord CommandData)) (r : ResourceRecord CommandData)
    → IsDistinct l
    → first (is_row execution_command id owner_id) l ≡ some r
    → first (λ x. nat_beq x.id r.id) l ≡ some r
first-stored id owner_id [] r d h = cc
first-stored id owner_id (x ∷ l) r (a, d) h =
    elim (Bool-cases (is_row execution_command id owner_id x)) [
      | inl t ↦ rw ((nat_beq_iff x.id r.id).1 (ap key (some-injective (rw t at h)))) (rw t at h)
      | inr t ↦
          let h' = rw t at h in
          rw (other (All-first (λ y. nat_beq y.id x.id ≡ false) _ l r a h'))
            (first-stored id owner_id l r d h')
    ]
  where
    key : ResourceRecord CommandData → ℕ
    key y = y.id

    other : nat_beq r.id x.id ≡ false → nat_beq x.id r.id ≡ false
    other p = ground arith

IsQueued-written :
    (change : ResourceRecord CommandData → ResourceRecord CommandData) (id : ℕ)
    (outbox : List (OutboxRecord CommandData)) (l : List (ResourceRecord CommandData))
    → ((x : ResourceRecord CommandData) → (change x).id ≡ x.id)
    → All (IsQueued outbox) l
    → All (IsQueued outbox) (written change id l)
IsQueued-written change id outbox [] k q = tt
IsQueued-written change id outbox (x ∷ l) k (p, q) = elim (Bool-cases (nat_beq x.id id)) [
  | inl t ↦ rw (t, k x) (p, IsQueued-written change id outbox l k q)
  | inr t ↦ rw t (p, IsQueued-written change id outbox l k q)
]

module _ (jsonable : CommandData → CommandData) where
  persist_command-IsConsistent :
      (owner_id : ℕ) (c : ExecutionCommand) (actor_id : Option ℕ) (now : ℕ)
      (db : Database CommandData) {x : ResourceRecord CommandData × Database CommandData}
      → persist_command jsonable owner_id c actor_id now db ≡ ok x
      → IsConsistent db
      → IsConsistent x.1
  unfolding audit
  persist_command-IsConsistent owner_id c actor_id now db e (audited, queued) =
      elim (persist_command-cases jsonable owner_id c actor_id now db e) [
        | inl (same, again) ↦ subst IsConsistent (sym same) (audited, queued)
        | inr (none_got, no_row, no_event, result) ↦
            let (r, db') = persisted jsonable owner_id c actor_id now db in
            subst (λ x. IsConsistent x.1) result
              (
                added-IsAudited db r _ refl refl no_row audited,
                All-append (IsQueued db'.outbox) db.records (r ∷ [])
                    (All-map db.records (λ y p. any-kept _ db.outbox _ p) queued)
                    (any-last _ db.outbox _ ((nat_beq_iff c.id c.id).1 refl), tt),
              )
      ]

  lease_command-IsConsistent :
      (owner_id command_id worker_id : ℕ) (lease_seconds : ℤ) (now : ℕ) (db : Database CommandData)
      {x : Option (ResourceRecord CommandData) × Database CommandData}
      → lease_command jsonable owner_id command_id worker_id lease_seconds now db ≡ ok x
      → IsConsistent db
      → IsConsistent x.1
  unfolding audit
  lease_command-IsConsistent owner_id command_id worker_id lease_seconds now db e
        (audited, queued) =
      elim (lease_command-cases jsonable worker_id lease_seconds now owner_id command_id db) [
        | inl same ↦ subst (λ x. IsConsistent x.1) (ok-injective (sym same ∙ e)) (audited, queued)
        | inr (r, g, ready, same) ↦
            subst (λ x. IsConsistent x.1) (ok-injective (sym same ∙ e))
              (
                changed-IsAudited db _ r _ refl (λ x. refl) (λ x. refl)
                    (first-stored command_id owner_id db.records r audited.0 g) audited,
                IsQueued-written _ r.id db.outbox db.records (λ x. refl) queued,
              )
      ]

  -- In every database that calls of `persist_command` and `lease_command` lead to from empty tables, the
  -- ids of the rows are distinct, the audit trail has one entry for each version of each row and names no
  -- other row, and each row's event is in the outbox.
  pub Reaches-IsConsistent : (db : Database CommandData) → Reaches jsonable db → IsConsistent db
  Reaches-IsConsistent db Reaches.start = ((tt, λ id. refl), tt)
  Reaches-IsConsistent db (Reaches.then_persist before owner_id c actor_id now e) =
      persist_command-IsConsistent owner_id c actor_id now _ e (Reaches-IsConsistent _ before)
  Reaches-IsConsistent db (Reaches.then_lease before owner_id command_id worker_id seconds now e) =
      lease_command-IsConsistent owner_id command_id worker_id seconds now _ e
        (Reaches-IsConsistent _ before)
