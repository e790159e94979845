-- ===== src/Risk/Reservations/Claims.antt =====
-- How `transition` and `split_partial_fill` (modules/risk/reservations.py) move the reserved sum.
use mathlib.Core.Option.{some-injective}
use matrades.Common.{
  ℕ, Bool, ◌++◌, ◌≡◌, ap, inl, inr, true, false, Option, none, some, List, [], ◌∷◌, arith,
  Bool-cases, Option-cases,
}
use matrades.Common.Int.{ℤ, pos, ◌+ℤ◌, ◌≤ℤ◌, pos_part, neg_part, ltb_ℤ, int_laws}
use matrades.Common.Result.{Result, ok, err, ok-injective}
use matrades.Risk.Reservations.{
  is_active, Row, Store, ReservationError, find, change, reserved, Change, assign, settle,
  is_bad_amount, is_row, transition, remainder_of, fill_change, split_from_result,
  split_partial_fill,
}
use matrades.Risk.Reservations.Sums.{share, IsNonnegative, reserved-append, reserved-change}

find-nonnegative :
    (id owner : ℕ) (rs : List Row) (x : Row)
    → IsNonnegative rs
    → find (is_row id owner) rs ≡ some x
    → pos 0 ≤ℤ x.amount
unfolding find
find-nonnegative id owner [] x h e = cc
find-nonnegative id owner (r ∷ rs) x h e = elim (Bool-cases (is_row id owner r)) [
  | inl t ↦ let p : r ≡ x = some-injective _ _ (rw t at e) in rw (← p) (h.0)
  | inr t ↦ find-nonnegative id owner rs x h.1 (rw t at e)
]

share-assign_le :
    (owner account : ℕ) (ch : Change) (x : Row)
    → is_active x.state ≡ true
    → pos 0 ≤ℤ x.amount
    → share owner account (assign ch x) ≤ℤ share owner account x
unfolding assign
share-assign_le owner account ch x a h = ground arith

share-settle_le :
    (owner account now : ℕ) (ch : Change) (x : Row)
    → is_active x.state ≡ true
    → is_bad_amount ch.amount x.amount ≡ false
    → pos 0 ≤ℤ x.amount
    → share owner account (settle now ch (assign ch x)) ≤ℤ share owner account x
unfolding assign settle
share-settle_le owner account now ch x a b h = ground arith

-- Where no amount is negative, a transition never raises what an owner's account has reserved,
-- whatever its target and however it ends.
pub transition-reserved_le :
    (owner account now id by : ℕ) (ch : Change) (s : Store)
    → IsNonnegative s.rows
    → reserved owner account (transition now id by ch s).1.rows ≤ℤ reserved owner account s.rows
unfolding transition
transition-reserved_le owner account now id by ch s h =
    elim (Option-cases (find (is_row id by) s.rows)) [
      | inl e ↦ rw (e, transition) (omega arith)
      | inr (x, e) ↦
          let positive = find-nonnegative id by s.rows x h e in
          elim (Bool-cases (is_active x.state)) [
            | inr t ↦ rw (e, transition, t) (omega arith)
            | inl t ↦ elim (Bool-cases (is_bad_amount ch.amount x.amount)) [
              | inl b ↦
                  rw (e, transition, t, b)
                    (omega (
                      int_laws,
                      ap (λ v. pos_part v)
                          (reserved-change owner account (is_row id by) (assign ch) s.rows x e),
                      ap (λ v. neg_part v)
                          (reserved-change owner account (is_row id by) (assign ch) s.rows x e),
                      share-assign_le owner account ch x t positive,
                    ))
              | inr b ↦
                  rw (e, transition, t, b)
                    (omega (
                      int_laws,
                      ap (λ v. pos_part v)
                          (reserved-change owner account (is_row id by)
                            (λ y. settle now ch (assign ch y)) s.rows x e),
                      ap (λ v. neg_part v)
                          (reserved-change owner account (is_row id by)
                            (λ y. settle now ch (assign ch y)) s.rows x e),
                      share-settle_le owner account now ch x t b positive,
                    ))
            ]
          ]
    ]

find-true : (test : Row → Bool) (rs : List Row) (x : Row) → find test rs ≡ some x → test x ≡ true
unfolding find
find-true test [] x e = cc
find-true test (r ∷ rs) x e = elim (Bool-cases (test r)) [
  | inl t ↦ let p : r ≡ x = some-injective _ _ (rw t at e) in rw (← p) t
  | inr t ↦ find-true test rs x (rw t at e)
]

share-own :
    (id owner : ℕ) (x : Row)
    → is_row id owner x ≡ true
    → is_active x.state ≡ true
    → share owner x.account_id x ≡ x.amount
share-own id owner x t a = ground arith

share-filled :
    (id owner now position : ℕ) (filled : ℤ) (x : Row)
    → is_row id owner x ≡ true
    → share owner x.account_id
        (settle now (fill_change filled position) (assign (fill_change filled position) x))
      ≡ filled
unfolding settle assign fill_change
share-filled id owner now position filled x t = ground arith

share-remainder :
    (id owner now new_id position : ℕ) (filled remaining : ℤ) (x : Row)
    → is_row id owner x ≡ true
    → share owner x.account_id (
        remainder_of new_id now remaining
          (settle now (fill_change filled position) (assign (fill_change filled position) x)))
      ≡ remaining
unfolding settle assign fill_change remainder_of
share-remainder id owner now new_id position filled remaining x t = ground arith

-- A split that leaves a remainder: what the account of the claim has reserved after it, plus the
-- claim's old amount, is what it had reserved before, plus the filled and the remaining amount.
pub split-reserved :
    (new_id now id owner : ℕ) (filled : ℤ) (position : ℕ) (remaining : ℤ) (s s' : Store) (x r : Row)
    (rest : Row)
    → find (is_row id owner) s.rows ≡ some x
    → split_partial_fill new_id now id owner filled position remaining s ≡ (ok (r, some rest), s')
    → reserved owner x.account_id s'.rows +ℤ x.amount
      ≡ reserved owner x.account_id s.rows +ℤ (filled +ℤ remaining)
unfolding split_partial_fill transition fill_change
split-reserved new_id now id owner filled position remaining s s' x r rest e q =
    elim (Bool-cases (is_active x.state)) [
      | inr t ↦ absurd (err-ne-ok (ap (λ z. z.0) (rw (e, transition, t, split_from_result) at q)))
      | inl t ↦ elim (Bool-cases (is_bad_amount (some filled) x.amount)) [
        | inl b ↦
            absurd (err-ne-ok (ap (λ z. z.0) (rw (e, transition, t, b, split_from_result) at q)))
        | inr b ↦ elim (Bool-cases (ltb_ℤ (pos 0) remaining)) [
          | inr n ↦ absurd (
              none-ne-some (
                ap (λ z. z.1)
                  (ok-injective
                    (ap (λ z. z.0) (rw (e, transition, t, b, split_from_result, n) at q)))))
          | inl p ↦
              let rows : change (is_row id owner) (λ y. settle now ch (assign ch y)) s.rows
                    ++ remainder_of new_id now remaining (settle now ch (assign ch x)) ∷ []
                  ≡ s'.rows =
                ap (λ z. z.1.rows) (rw (e, transition, t, b, split_from_result, p) at q) in
              let mine = find-true (is_row id owner) s.rows x e in
              let moved =
                reserved-change owner x.account_id (is_row id owner)
                  (λ y. settle now ch (assign ch y)) s.rows x e in
              rw
                (
                  ← rows,
                  reserved-append owner x.account_id
                      (change (is_row id owner) (λ y. settle now ch (assign ch y)) s.rows)
                      (remainder_of new_id now remaining (settle now ch (assign ch x))),
                  share-remainder id owner now new_id position filled remaining x mine,
                )
                (add_up _ _ _ (
                  rw (share-own id owner x mine t, share-filled id owner now position filled x mine)
                    at moved))
        ]
      ]
    ]
  where
    ch : Change
    ch = fill_change filled position

    add_up : (a b c : ℤ) → a +ℤ c ≡ b +ℤ filled → a +ℤ remaining +ℤ c ≡ b +ℤ (filled +ℤ remaining)
    add_up a b c h = omega (int_laws, ap (λ v. pos_part v) h, ap (λ v. neg_part v) h)

    none-ne-some : {y : Row} → ¬ (none ≡ some y)
    none-ne-some h = cc

    err-ne-ok :
        {a : ReservationError} {b : Row × Option Row}
        → ¬ (◌≡◌ {A = Result ReservationError (Row × Option Row)} (err a) (ok b))
    err-ne-ok h = cc
