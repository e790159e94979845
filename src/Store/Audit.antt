-- ===== src/Store/Audit.antt =====
-- The audit trail of the resource store (packages/shared/store.py).
use matrades.Common.{
  ℕ, suc, ◌+◌, ◌≡◌, refl, subst, ap, inl, inr, Bool, true, false, Option, none, some, List, [], ◌∷◌,
  ◌++◌, arith, nat_beq, if◌then◌else◌, Bool-cases, some-injective, any, All, All-append,
}
use mathlib.Core.Bool.{true≢false}
use matrades.Common.Result.{ok, raise_if, ◌>>◌, checked-eq-ok, tested-eq-ok}
use matrades.Store.{
  Payload, ResourceRecord, AuditRecord, Database, ResourceState, EventType, Evidence, StoreError,
  first, written, audit, validate_executable_reference, create, update, check_data, check_version,
  is_gone, created, updated, assigned, encoded,
}

-- How often the trail names a row, and the version of a row: 0 when there is none.
abbrev pub entries : ℕ → List AuditRecord → ℕ
entries id [] = 0
entries id (a ∷ as_) = elim a.aggregate_id [
  | none ↦ entries id as_
  | some i ↦ if nat_beq i id then suc (entries id as_) else entries id as_
]

pub entries-append :
    (id : ℕ) (l : List AuditRecord) (a : AuditRecord) (i : ℕ)
    → a.aggregate_id ≡ some i
    → entries id (l ++ a ∷ []) ≡ entries id l + (if nat_beq i id then 1 else 0)
entries-append id [] a i e = rw e (ground arith)
entries-append id (b ∷ l) a i e = ground (arith, entries-append id l a i e)

module _ {D : Type 0} where
  abbrev pub version_of : ℕ → List (ResourceRecord D) → ℕ
  version_of id [] = 0
  version_of id (r ∷ rs) = if nat_beq r.id id then r.version else version_of id rs

  -- No two rows have one id.
  abbrev pub IsDistinct : List (ResourceRecord D) → Type 0
  IsDistinct [] = Unit
  IsDistinct (r ∷ rs) = All (λ x. nat_beq x.id r.id ≡ false) rs × IsDistinct rs

  -- The trail has an entry for each version of each row, and names no other row.
  abbrev pub IsAudited : Database D → Type 0
  IsAudited db =
      IsDistinct db.records × ((id : ℕ) → entries id db.audits ≡ version_of id db.records)

  version_of-append :
      (id : ℕ) (l : List (ResourceRecord D)) (r : ResourceRecord D)
      → any (λ x. nat_beq x.id r.id) l ≡ false
      → version_of id (l ++ r ∷ []) ≡ version_of id l + (if nat_beq r.id id then r.version else 0)
  version_of-append id [] r h = ground arith
  version_of-append id (x ∷ l) r h = ground (arith, version_of-append id l r)

  IsDistinct-append :
      (l : List (ResourceRecord D)) (r : ResourceRecord D)
      → IsDistinct l
      → any (λ x. nat_beq x.id r.id) l ≡ false
      → IsDistinct (l ++ r ∷ [])
  IsDistinct-append [] r d h = (tt, tt)
  IsDistinct-append (x ∷ l) r (a, d) h = elim (Bool-cases (nat_beq x.id r.id)) [
    | inl t ↦ absurd (true≢false (rw t at h))
    | inr t ↦
        let h' = rw t at h in
        (All-append _ l (r ∷ []) a (ground arith, tt), IsDistinct-append l r d h')
  ]

  -- What an update does to a row keeps its id.
  abbrev pub IsKeeping : (ResourceRecord D → ResourceRecord D) → Type 0
  IsKeeping change = (x : ResourceRecord D) → (change x).id ≡ x.id

  All-written :
      (change : ResourceRecord D → ResourceRecord D) (id j : ℕ) (l : List (ResourceRecord D))
      → IsKeeping change
      → All (λ x. nat_beq x.id j ≡ false) l
      → All (λ x. nat_beq x.id j ≡ false) (written change id l)
  All-written change id j [] k a = tt
  All-written change id j (x ∷ l) k (e, a) = elim (Bool-cases (nat_beq x.id id)) [
    | inl t ↦ rw t (rw (k x) e, All-written change id j l k a)
    | inr t ↦ rw t (e, All-written change id j l k a)
  ]

  IsDistinct-written :
      (change : ResourceRecord D → ResourceRecord D) (id : ℕ) (l : List (ResourceRecord D))
      → IsKeeping change
      → IsDistinct l
      → IsDistinct (written change id l)
  IsDistinct-written change id [] k d = tt
  IsDistinct-written change id (x ∷ l) k (a, d) = elim (Bool-cases (nat_beq x.id id)) [
    | inl t ↦ rw t (rw (k x) (All-written change id x.id l k a), IsDistinct-written change id l k d)
    | inr t ↦ rw t (All-written change id x.id l k a, IsDistinct-written change id l k d)
  ]

  version_of-first :
      (id : ℕ) (l : List (ResourceRecord D)) (r : ResourceRecord D)
      → first (λ x. nat_beq x.id id) l ≡ some r
      → version_of id l ≡ r.version
  version_of-first id [] r h = cc
  version_of-first id (x ∷ l) r h = elim (Bool-cases (nat_beq x.id id)) [
    | inl t ↦ rw t (ap version (some-injective (rw t at h)))
    | inr t ↦ rw t (version_of-first id l r (rw t at h))
  ]
    where
      version : ResourceRecord D → ℕ
      version x = x.version

  version_of-written :
      (change : ResourceRecord D → ResourceRecord D) (id j n : ℕ) (l : List (ResourceRecord D))
      → IsKeeping change
      → ((x : ResourceRecord D) → (change x).version ≡ n)
      → version_of j (written change id l)
        ≡ (if nat_beq id j then (if any (λ x. nat_beq x.id id) l then n else 0) else version_of j l)
  version_of-written change id j n [] k v = ground arith
  version_of-written change id j n (x ∷ l) k v =
      ground (arith, k x, v x, version_of-written change id j n l k v)

  any-first :
      (test : ResourceRecord D → Bool) (l : List (ResourceRecord D)) (r : ResourceRecord D)
      → first test l ≡ some r
      → any test l ≡ true
  any-first test [] r h = cc
  any-first test (x ∷ l) r h = ground (arith, any-first test l r)

  pub added-IsAudited :
      (db : Database D) (r : ResourceRecord D) (a : AuditRecord)
      → a.aggregate_id ≡ some r.id
      → r.version ≡ 1
      → any (λ x. nat_beq x.id r.id) db.records ≡ false
      → IsAudited db
      → IsAudited (record db { records = db.records ++ r ∷ []; audits = db.audits ++ a ∷ [] })
  added-IsAudited db r a e v new (d, n) = (
    IsDistinct-append db.records r d new,
    λ j.
        rw (entries-append j db.audits a r.id e, version_of-append j db.records r new, n j, v) refl,
  )

  pub changed-IsAudited :
      (db : Database D) (change : ResourceRecord D → ResourceRecord D) (r : ResourceRecord D)
      (a : AuditRecord)
      → a.aggregate_id ≡ some r.id
      → IsKeeping change
      → ((x : ResourceRecord D) → (change x).version ≡ r.version + 1)
      → first (λ x. nat_beq x.id r.id) db.records ≡ some r
      → IsAudited db
      → IsAudited
          (record db { records = written change r.id db.records; audits = db.audits ++ a ∷ [] })
  changed-IsAudited db change r a e k v stored (d, n) = (
    IsDistinct-written change r.id db.records k d,
    λ j. ground (
      arith,
      n j,
      entries-append j db.audits a r.id e,
      version_of-written change r.id j (r.version + 1) db.records k v,
      version_of-first r.id db.records r stored,
      any-first (λ x. nat_beq x.id r.id) db.records r stored,
    ),
  )

module _ {D : Type 0} ⦃p : Payload D⦄ where
  -- A created row keeps the trail complete.
  pub create-IsAudited :
      (kind owner_id : ℕ) (given : D) (state : ResourceState) (id : ℕ) (actor_id : Option ℕ)
      (event_type : Option EventType) (now : ℕ) (db : Database D)
      {x : ResourceRecord D × Database D}
      → create kind owner_id given state id actor_id event_type now db ≡ ok x
      → IsAudited db
      → IsAudited x.1
  unfolding create audit
  create-IsAudited kind owner_id given state id actor_id event_type now db e audited =
      let v = created kind owner_id given state id actor_id event_type now db in
      let (valid, fresh, same) =
        checked-eq-ok (validate_executable_reference (p.reference_of given))
          (any (λ x. nat_beq x.id id) db.records) StoreError.duplicate_key v e in
      subst (λ x. IsAudited x.1) same (added-IsAudited db v.0 _ refl refl fresh audited)

  pub update-IsAudited :
      (r : ResourceRecord D) (data_given : Option D) (state_given : Option ResourceState)
      (expected_version actor_id : Option ℕ) (event_type : Option EventType)
      (evidence : Option Evidence) (now : ℕ) (db : Database D) {x : ResourceRecord D × Database D}
      → update r data_given state_given expected_version actor_id event_type evidence now db ≡ ok x
      → first (λ x. nat_beq x.id r.id) db.records ≡ some r
      → IsAudited db
      → IsAudited x.1
  unfolding update audit
  update-IsAudited r data_given state_given expected_version actor_id event_type evidence now db e
        stored audited =
      let v = updated r data_given state_given actor_id event_type evidence now db in
      let (current, valid, same) =
        tested-eq-ok (check_version expected_version r) StoreError.version_conflict
          (check_data data_given >> raise_if (is_gone r.id db) StoreError.stale_row) v e in
      subst (λ x. IsAudited x.1) same
        (changed-IsAudited db (assigned (encoded data_given) state_given now r) r _ refl (λ x. refl)
          (λ x. refl) stored audited)
