-- ===== src/Store/Idempotency.antt =====
-- The process-local idempotency store (packages/shared/idempotency.py): results under an owner and a key,
-- bound to the digest of the request. `digest` is `sha256(body).hexdigest()`, of another library.
use matrades.Common.{
  ℕ, ◌≡◌, ◌↔◌, refl, sym, inl, inr, Bool, true, false, not, ◌&&◌, none, some, List, arith, nat_beq,
  nat_beq_iff, if◌then◌else◌, Bool-cases, Option-cases, Eq,
}
use matrades.Common.Dict.{Dict, lookup, insert, lookup-insert_self}
use matrades.Common.Result.{Result, ok, err, ok-injective}
use matrades.Store.{StoreError}

pub record StoredResult (T : Type 0) : Type 0 where
  pub request_hash : ℕ
  pub value : T

abbrev pub pair_beq : ℕ × ℕ → ℕ × ℕ → Bool
pair_beq (a, b) (c, d) = nat_beq a c && nat_beq b d

pub pair_beq_iff : (j k : ℕ × ℕ) → (pair_beq j k ≡ true) ↔ (j ≡ k)
pair_beq_iff (a, b) (c, d) = ground arith

instance abbrev pub pair_eq : Eq (ℕ × ℕ)
pair_eq = record { beq = pair_beq; beq_iff = pair_beq_iff }

abbrev pub Values : Type 0 → Type 0
Values T = Dict (ℕ × ℕ) (StoredResult T)

module _ {T : Type 0} (digest : List ℕ → ℕ) where
  unfoldable pub remember : ℕ → ℕ → List ℕ → T → Values T → Result StoreError T × Values T
  remember owner key body value values = elim (lookup (owner, key) values) [
    | some prior ↦
        if not (nat_beq prior.request_hash (digest body))
        then (err StoreError.other_payload, values)
        else (ok prior.value, values)
    | none ↦ (
      ok value,
      insert (owner, key) (record { request_hash = digest body; value = value }) values,
    )
  ]

  -- What stands under the key after a call that returns.
  stored :
      (owner key : ℕ) (body : List ℕ) (value first_value : T) (values : Values T)
      → (remember owner key body value values).0 ≡ ok first_value
      → (prior : StoredResult T) × (lookup (owner, key) (remember owner key body value values).1
          ≡ some prior)
        × (digest body ≡ prior.request_hash)
        × (prior.value ≡ first_value)
  unfolding remember
  stored owner key body value first_value values e =
      elim (Option-cases (lookup (owner, key) values)) [
        | inr (prior, found) ↦ elim (Bool-cases (nat_beq prior.request_hash (digest body))) [
          | inl t ↦ (
            prior,
            rw (remember, found, t) found,
            sym ((nat_beq_iff _ _).0 t),
            ok-injective (rw (remember, found, t) at e),
          )
          | inr t ↦ absurd (no_value (rw (remember, found, t) at e))
        ]
        | inl new ↦
            let result : StoredResult T = record { request_hash = digest body; value = value } in
            (
              result,
              rw (remember, new) (lookup-insert_self (owner, key) result values),
              refl,
              ok-injective (rw (remember, new) at e),
            )
      ]
    where
      no_value : ¬ (◌≡◌ {A = Result StoreError T} (err StoreError.other_payload) (ok first_value))
      no_value h = cc

  -- After a call that returns, a call under the same owner and key, whatever its value, leaves the store as
  -- it is; it returns the first value if the body has the first body's digest, and raises if not.
  pub remember-again :
      (owner key : ℕ) (body body' : List ℕ) (value value' first_value : T) (values : Values T)
      → (remember owner key body value values).0 ≡ ok first_value
      → remember owner key body' value' (remember owner key body value values).1 ≡ (
        (if nat_beq (digest body) (digest body')
            then ok first_value
            else err StoreError.other_payload),
        (remember owner key body value values).1,
      )
  unfolding remember
  remember-again owner key body body' value value' first_value values e =
      let (prior, found, same, v) = stored owner key body value first_value values e in
      bound prior (remember owner key body value values).1 found same v
    where
      bound :
          (prior : StoredResult T) (d : Values T)
          → lookup (owner, key) d ≡ some prior
          → digest body ≡ prior.request_hash
          → prior.value ≡ first_value
          → remember owner key body' value' d ≡ (
            (if nat_beq (digest body) (digest body')
                then ok first_value
                else err StoreError.other_payload),
            d,
          )
      bound prior d found same v = rw (remember, found, same, sym v) (split _)
        where
          split :
              (t : Bool)
              → ◌≡◌ {A = Result StoreError T × Values T}
                  (if not t then (err StoreError.other_payload, d) else (ok prior.value, d))
                  ((if t then ok prior.value else err StoreError.other_payload), d)
          split true = refl
          split false = refl
