-- ===== src/Risk/Reservations/Sums.antt =====
-- The reserved sum of an account (modules/risk/reservations.py) under each change of the rows.
use mathlib.Core.Option.{some-injective}
use matrades.Common.{
  ℕ, ◌≡◌, sym, ap, ◌∙◌, inl, inr, Bool, Option, some, List, [], ◌∷◌, ◌++◌, arith, All,
  if◌then◌else◌, Bool-cases,
}
use matrades.Common.Int.{ℤ, pos, ◌+ℤ◌, ◌≤ℤ◌, int_laws, +ℤ_assoc}
use matrades.Risk.Reservations.{Row, find, change, is_claim, is_due, reserved, expire_row, expire}

-- What a row adds to the reserved sum of an owner's account.
abbrev pub share : ℕ → ℕ → Row → ℤ
share owner account r = if is_claim owner account r then r.amount else pos 0

pub reserved-cons :
    (owner account : ℕ) (r : Row) (rs : List Row)
    → reserved owner account (r ∷ rs) ≡ share owner account r +ℤ reserved owner account rs
unfolding reserved
reserved-cons owner account r rs = elim (Bool-cases (is_claim owner account r)) [
  | inl e ↦ rw e
  | inr e ↦ rw e (omega int_laws)
]

pub reserved-append :
    (owner account : ℕ) (rs : List Row) (r : Row)
    → reserved owner account (rs ++ r ∷ []) ≡ reserved owner account rs +ℤ share owner account r
reserved-append owner account [] r =
    rw (reserved-cons owner account r []) (unfold reserved in omega int_laws)
reserved-append owner account (x ∷ rs) r =
    rw
      (
        reserved-cons owner account x (rs ++ r ∷ []),
        reserved-cons owner account x rs,
        reserved-append owner account rs r,
      )
      (omega int_laws)

-- Changing the row that is found moves the sum by what that row's share moves.
pub reserved-change :
    (owner account : ℕ) (test : Row → Bool) (f : Row → Row) (rs : List Row) (r : Row)
    → find test rs ≡ some r
    → reserved owner account (change test f rs) +ℤ share owner account r
      ≡ reserved owner account rs +ℤ share owner account (f r)
unfolding find change
reserved-change owner account test f [] r e = cc
reserved-change owner account test f (x ∷ rs) r e = elim (Bool-cases (test x)) [
  | inl t ↦
      let p : x ≡ r = some-injective _ _ (rw t at e) in
      rw (t, reserved-cons owner account (f x) rs, reserved-cons owner account x rs, ← p)
        (omega int_laws)
  | inr t ↦
      rw (t, reserved-cons owner account x (change test f rs), reserved-cons owner account x rs)
        (move _ _ _ _ (reserved-change owner account test f rs r (rw t at e)))
]
  where
    move :
        (a b c d : ℤ)
        → a +ℤ b ≡ c +ℤ d
        → share owner account x +ℤ a +ℤ b ≡ share owner account x +ℤ c +ℤ d
    move a b c d h =
        +ℤ_assoc (share owner account x) a b
        ∙ (ap (λ v. share owner account x +ℤ v) h ∙ sym (+ℤ_assoc (share owner account x) c d))

abbrev pub IsNonnegative : List Row → Type 0
IsNonnegative = All (λ r. pos 0 ≤ℤ r.amount)

share-expire_row :
    (owner account now : ℕ) (r : Row) → share owner account (expire_row now r) ≡ pos 0
unfolding expire_row
share-expire_row owner account now r = ground arith

share_nonneg : (owner account : ℕ) (r : Row) → pos 0 ≤ℤ r.amount → pos 0 ≤ℤ share owner account r
share_nonneg owner account r h = elim (Bool-cases (is_claim owner account r)) [
  | inl e ↦ rw e h
  | inr e ↦ rw e (omega arith)
]

-- Expiry takes nothing but claims away.
pub reserved-expire :
    (owner account now : ℕ) (scope : Option ℕ) (rs : List Row)
    → IsNonnegative rs
    → reserved owner account (expire now scope rs).1 ≤ℤ reserved owner account rs
unfolding expire
reserved-expire owner account now scope [] h = omega arith
reserved-expire owner account now scope (r ∷ rs) h =
    let ih = reserved-expire owner account now scope rs h.1 in
    elim (Bool-cases (is_due now scope r)) [
      | inl e ↦
          rw
            (
              e,
              reserved-cons owner account (expire_row now r) (expire now scope rs).1,
              reserved-cons owner account r rs,
              share-expire_row owner account now r,
            )
            (omega (int_laws, ih, share_nonneg owner account r h.0))
      | inr e ↦
          rw
            (
              e,
              reserved-cons owner account r (expire now scope rs).1,
              reserved-cons owner account r rs,
            )
            (omega (int_laws, ih))
    ]
