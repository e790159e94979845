-- ===== src/Risk/Reservations/Capacity.antt =====
-- The capacity of an account (modules/risk/reservations.py): what `reserve` accepts fits what is
-- available, a plan has one reservation, and the other operations do not raise the reserved sum.
use matrades.Common.{
  ℕ, ◌≡◌, refl, ap, inl, inr, Bool, true, false, ◌||◌, subst₂, Option, none, some, List, [], ◌∷◌,
  ◌++◌, arith, Bool-cases, Option-cases,
}
use matrades.Common.Int.{ℤ, pos, ◌+ℤ◌, ◌≤ℤ◌, ◌<ℤ◌, leb_ℤ, ltb_ℤ, beq_ℤ, beq_ℤ_iff}
use matrades.Common.Result.{Result, ok, err, ok-injective}
use matrades.Risk.Reservations.{
  Row, AccountRow, Store, ReservationError, find, is_account, is_bound_to, reserved, expire_row,
  expire, new_row, is_taken, claim, reserve,
}
use matrades.Risk.Reservations.Sums.{share, reserved-append}

share-new_row :
    (id owner account plan now ttl : ℕ) (amount : ℤ)
    → share owner account (new_row id owner account plan now amount ttl) ≡ amount
unfolding new_row
share-new_row id owner account plan now ttl amount = ground arith

guard_facts :
    (amount total available : ℤ)
    → (leb_ℤ amount (pos 0) || ltb_ℤ available total) ≡ false
    → (pos 0 <ℤ amount) × (total ≤ℤ available)
guard_facts amount total available t = ground arith

err-ne-ok :
    {x : ReservationError} {r : Row} → ¬ (◌≡◌ {A = Result ReservationError Row} (err x) (ok r))
err-ne-ok h = cc

-- How a call of `reserve` that returns has ended: with the reservation that the plan already had, of
-- the same amount and with nothing changed, or with a new one on the expired table.
pub data Reserves (id owner account plan now : ℕ) (amount available : ℤ) (ttl : ℕ) (s : Store)
    (r : Row) (s' : Store) : Type 0 where
  repeated :
      find (is_bound_to owner plan) s.rows ≡ some r
      → r.amount ≡ amount
      → s' ≡ s
      → Reserves id owner account plan now amount available ttl s r s'
  claimed :
      find (is_bound_to owner plan) s.rows ≡ none
      → pos 0 <ℤ amount
      → reserved owner account s'.rows ≤ℤ available
      → reserved owner account s'.rows
        ≡ reserved owner account (expire now (some account) s.rows).1 +ℤ amount
      → r ≡ new_row id owner account plan now amount ttl
      → s' ≡ record s { rows = (expire now (some account) s.rows).1 ++ r ∷ [] }
      → Reserves id owner account plan now amount available ttl s r s'

module _ (id owner account plan now : ℕ) (amount available : ℤ) (ttl : ℕ) (s : Store) where
  claim-Reserves :
      (r : Row) (s' : Store)
      → find (is_bound_to owner plan) s.rows ≡ none
      → claim id owner account plan now amount available ttl s ≡ (ok r, s')
      → Reserves id owner account plan now amount available ttl s r s'
  unfolding claim
  claim-Reserves r s' n e =
      elim (Bool-cases
        (leb_ℤ amount (pos 0) || ltb_ℤ available (reserved owner account rows +ℤ amount))) [
          | inl t ↦ absurd (err-ne-ok (ap (λ x. x.0) (rw t at e)))
          | inr t ↦ elim (Bool-cases (is_taken plan rows)) [
            | inl taken ↦ absurd (err-ne-ok (ap (λ x. x.0) (rw (t, taken) at e)))
            | inr free ↦
                let p : (ok row, record s { rows = rows ++ row ∷ [] }) ≡ (ok r, s') =
                  rw (t, free) at e in
                subst₂ (Reserves id owner account plan now amount available ttl s)
                  (ok-injective (ap (λ x. x.0) p)) (ap (λ x. x.1) p) (done t)
          ]
        ]
    where
      rows : List Row
      rows = (expire now (some account) s.rows).1

      row : Row
      row = new_row id owner account plan now amount ttl

      sum : reserved owner account (rows ++ row ∷ []) ≡ reserved owner account rows +ℤ amount
      sum = rw (
        reserved-append owner account rows row,
        share-new_row id owner account plan now ttl amount,
      )

      done :
          (leb_ℤ amount (pos 0) || ltb_ℤ available (reserved owner account rows +ℤ amount)) ≡ false
          → Reserves id owner account plan now amount available ttl s row
              (record s { rows = rows ++ row ∷ [] })
      done t =
          let (positive, fits) =
            guard_facts amount (reserved owner account rows +ℤ amount) available t in
          claimed n positive (rw sum fits) sum refl refl

  -- A call of `reserve` that returns ends in one of two ways: with the reservation that the plan
  -- already had, of the same amount, and nothing changed; or with a new reservation, where the amount
  -- is positive, the account's reserved sum is the one after expiry plus the amount, and that sum is
  -- no more than what is available.
  pub reserve-Reserves :
      (r : Row) (s' : Store)
      → reserve id owner account plan now amount available ttl s ≡ (ok r, s')
      → Reserves id owner account plan now amount available ttl s r s'
  unfolding reserve
  reserve-Reserves r s' e = elim (Option-cases (find (is_account owner account) s.accounts)) [
    | inl na ↦ absurd (err-ne-ok (ap (λ x. x.0) (rw (na, reserve) at e)))
    | inr (a, ea) ↦ elim (Option-cases (find (is_bound_to owner plan) s.rows)) [
      | inl n ↦ claim-Reserves r s' n (rw (ea, n, reserve) at e)
      | inr (old, n) ↦ elim (Bool-cases (beq_ℤ old.amount amount)) [
        | inl t ↦
            let p : (ok old, s) ≡ (ok r, s') = rw (ea, n, t, reserve) at e in
            subst₂ (Reserves id owner account plan now amount available ttl s)
              (ok-injective (ap (λ x. x.0) p)) (ap (λ x. x.1) p)
              (repeated n ((beq_ℤ_iff old.amount amount).0 t) refl)
        | inr t ↦ absurd (err-ne-ok (ap (λ x. x.0) (rw (ea, n, t, reserve) at e)))
      ]
    ]
  ]

-- Expiry changes neither the owner nor the plan of a row.
find-expire-none :
    (owner plan now : ℕ) (scope : Option ℕ) (rs : List Row)
    → find (is_bound_to owner plan) rs ≡ none
    → find (is_bound_to owner plan) (expire now scope rs).1 ≡ none
unfolding find expire expire_row
find-expire-none owner plan now scope [] e = refl
find-expire-none owner plan now scope (r ∷ rs) e =
    ground (arith, find-expire-none owner plan now scope rs)

find-append {ℓ} :
    {A : Type ℓ} (test : A → Bool) (xs : List A) (x : A)
    → find test xs ≡ none
    → test x ≡ true
    → find test (xs ++ x ∷ []) ≡ some x
unfolding find
find-append test [] x e t = rw t
find-append test (y ∷ xs) x e t = elim (Bool-cases (test y)) [
  | inl u ↦ absurd (some-ne-none (rw u at e))
  | inr u ↦ rw u (find-append test xs x (rw u at e) t)
]
  where
    some-ne-none : ¬ (some y ≡ none)
    some-ne-none q = cc

new_row-bound :
    (id owner account plan now ttl : ℕ) (amount : ℤ)
    → is_bound_to owner plan (new_row id owner account plan now amount ttl) ≡ true
unfolding new_row
new_row-bound id owner account plan now ttl amount = ground arith

module _ (id owner account plan now : ℕ) (amount available : ℤ) (ttl : ℕ) (s : Store) where
  reserve-account :
      (r : Row) (s' : Store)
      → reserve id owner account plan now amount available ttl s ≡ (ok r, s')
      → (a : AccountRow) × (find (is_account owner account) s.accounts ≡ some a)
  unfolding reserve
  reserve-account r s' e = elim (Option-cases (find (is_account owner account) s.accounts)) [
    | inl na ↦ absurd (err-ne-ok (ap (λ x. x.0) (rw (na, reserve) at e)))
    | inr found ↦ found
  ]

  -- The table after a call that returned binds the plan to the returned row, of the amount asked for.
  Reserves-found :
      (r : Row) (s' : Store)
      → Reserves id owner account plan now amount available ttl s r s'
      → (s'.accounts ≡ s.accounts)
        × (find (is_bound_to owner plan) s'.rows ≡ some r)
        × (r.amount ≡ amount)
  Reserves-found r s' (repeated f m p) = rw p (refl, f, m)
  Reserves-found r s' (claimed n positive fits sum q p) = rw p (
    refl,
    find-append (is_bound_to owner plan) (expire now (some account) s.rows).1 r
        (find-expire-none owner plan now (some account) s.rows n)
        (rw q (new_row-bound id owner account plan now ttl amount)),
    rw q (unfold new_row in refl),
  )

  -- A call that returned can be repeated, at any time and whatever is then available: it returns the
  -- same reservation and changes nothing.
  pub reserve-again :
      (r : Row) (s' : Store) (id' now' ttl' : ℕ) (available' : ℤ)
      → reserve id owner account plan now amount available ttl s ≡ (ok r, s')
      → reserve id' owner account plan now' amount available' ttl' s' ≡ (ok r, s')
  unfolding reserve
  reserve-again r s' id' now' ttl' available' e =
      let (a, ea) = reserve-account r s' e in
      let (same, f, m) =
        Reserves-found r s'
          (reserve-Reserves id owner account plan now amount available ttl s r s' e) in
      let ea' : find (is_account owner account) s'.accounts ≡ some a = rw same ea in
      rw (ea', f, (beq_ℤ_iff r.amount amount).1 m, reserve)
