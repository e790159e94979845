-- ===== src/Risk/Reservations/Terminal.antt =====
-- Every operation of the reservation table (modules/risk/reservations.py) as a step, whatever its
-- arguments and however it ends: what no step may do to the rows.
use mathlib.Core.List.{Memᴰ}
use mathlib.Core.Option.{some-injective}
use matrades.Common.{
  ℕ, ◌≡◌, refl, sym, ap, ◌∙◌, ◌≢◌, inl, inr, Bool, true, false, Option, some, List, [], ◌∷◌, ◌++◌,
  arith, Bool-cases, Option-cases,
}
use matrades.Common.Int.{ℤ, pos, ltb_ℤ}
use matrades.Common.Result.{Result, ok, err}
use matrades.Risk.Reservations.{
  is_active, Row, Store, ReservationError, find, change, is_due, expire, new_row, claim, reserve,
  get_active, Change, assign, settle, is_bad_amount, is_row, transition, fill_change,
  split_from_result, split_partial_fill,
}

-- One call of an operation, from one table to the next.
pub data Step (s : Store) : Store → Type 0 where
  reserving :
      (id owner account plan now : ℕ) (amount available : ℤ) (ttl : ℕ)
      → Step s (reserve id owner account plan now amount available ttl s).1
  reading : (id owner account now : ℕ) → Step s (get_active id owner account now s).1
  changing : (now id owner : ℕ) (ch : Change) → Step s (transition now id owner ch s).1
  splitting :
      (new_id now id owner : ℕ) (filled : ℤ) (position : ℕ) (remaining : ℤ)
      → Step s (split_partial_fill new_id now id owner filled position remaining s).1
  expiring : (now : ℕ) (scope : Option ℕ) → Step s (record s { rows = (expire now scope s.rows).1 })

pub data Reach (s : Store) : Store → Type 0 where
  here : Reach s s
  next : {t u : Store} → Reach s t → Step t u → Reach s u

Memᴰ-append {ℓ} : {A : Type ℓ} {x : A} (xs ys : List A) → Memᴰ x xs → Memᴰ x (xs ++ ys)
Memᴰ-append (x ∷ xs) ys (Memᴰ.head e) = Memᴰ.head e
Memᴰ-append (x ∷ xs) ys (Memᴰ.tail m) = Memᴰ.tail (Memᴰ-append xs ys m)
Memᴰ-append [] ys m = elim m [ ]

-- A row is terminal when it claims nothing any more.
abbrev pub IsTerminal : Row → Type 0
IsTerminal r = is_active r.state ≡ false

module _ (r : Row) (terminal : IsTerminal r) where
  expire-keeps :
      (now : ℕ) (scope : Option ℕ) (rs : List Row) → Memᴰ r rs → Memᴰ r (expire now scope rs).1
  unfolding expire
  expire-keeps now scope (x ∷ rs) (Memᴰ.head e) =
      let t : is_due now scope x ≡ false = rw (← e, terminal) refl in rw t (Memᴰ.head e)
  expire-keeps now scope (x ∷ rs) (Memᴰ.tail m) = elim (Bool-cases (is_due now scope x)) [
    | inl t ↦ rw t (Memᴰ.tail (expire-keeps now scope rs m))
    | inr t ↦ rw t (Memᴰ.tail (expire-keeps now scope rs m))
  ]
  expire-keeps now scope [] m = elim m [ ]

  change-keeps :
      (test : Row → Bool) (f : Row → Row) (rs : List Row) (x : Row)
      → find test rs ≡ some x
      → is_active x.state ≡ true
      → Memᴰ r rs
      → Memᴰ r (change test f rs)
  unfolding find change
  change-keeps test f (y ∷ rs) x e a (Memᴰ.head p) = elim (Bool-cases (test y)) [
    | inl t ↦
        let q : y ≡ x = some-injective _ _ (rw t at e) in
        absurd (true-ne-false (sym a ∙ (ap (λ z. is_active z.state) (sym (p ∙ q)) ∙ terminal)))
    | inr t ↦ rw t (Memᴰ.head p)
  ]
    where
      true-ne-false : true ≢ false
      true-ne-false h = cc
  change-keeps test f (y ∷ rs) x e a (Memᴰ.tail m) = elim (Bool-cases (test y)) [
    | inl t ↦ rw t (Memᴰ.tail m)
    | inr t ↦ rw t (Memᴰ.tail (change-keeps test f rs x (rw t at e) a m))
  ]
  change-keeps test f [] x e a m = elim m [ ]

  reserve-keeps :
      (id owner account plan now : ℕ) (amount available : ℤ) (ttl : ℕ) (s : Store)
      → Memᴰ r s.rows
      → Memᴰ r (reserve id owner account plan now amount available ttl s).1.rows
  unfolding reserve claim
  reserve-keeps id owner account plan now amount available ttl s m =
      let kept = expire-keeps now (some account) s.rows m in
      let more =
        Memᴰ-append (expire now (some account) s.rows).1
          (new_row id owner account plan now amount ttl ∷ []) kept in
      ground (arith)

  transition-keeps :
      (now id owner : ℕ) (ch : Change) (s : Store)
      → Memᴰ r s.rows
      → Memᴰ r (transition now id owner ch s).1.rows
  unfolding transition
  transition-keeps now id owner ch s m = elim (Option-cases (find (is_row id owner) s.rows)) [
    | inl e ↦ rw (e, transition) m
    | inr (x, e) ↦ elim (Bool-cases (is_active x.state)) [
      | inr t ↦ rw (e, transition, t) m
      | inl t ↦ elim (Bool-cases (is_bad_amount ch.amount x.amount)) [
        | inl b ↦
            rw (e, transition, t, b) (change-keeps (is_row id owner) (assign ch) s.rows x e t m)
        | inr b ↦
            rw (e, transition, t, b)
              (change-keeps (is_row id owner) (λ y. settle now ch (assign ch y)) s.rows x e t m)
      ]
    ]
  ]

  split-keeps :
      (new_id now id owner : ℕ) (filled : ℤ) (position : ℕ) (remaining : ℤ) (s : Store)
      → Memᴰ r s.rows
      → Memᴰ r (split_partial_fill new_id now id owner filled position remaining s).1.rows
  unfolding split_partial_fill
  split-keeps new_id now id owner filled position remaining s m =
      let ch : Change = fill_change filled position in
      let kept = transition-keeps now id owner ch s m in go (transition now id owner ch s) kept
    where
      go :
          (result : Result ReservationError Row × Store)
          → Memᴰ r result.1.rows
          → Memᴰ r (split_from_result new_id now remaining result).1.rows
      go (err e, s') k = k
      go (ok x, s') k = elim (Bool-cases (ltb_ℤ (pos 0) remaining)) [
        | inl t ↦ rw (t, split_from_result) (Memᴰ-append s'.rows _ k)
        | inr t ↦ rw (t, split_from_result) k
      ]

  Step-keeps : {s t : Store} → Step s t → Memᴰ r s.rows → Memᴰ r t.rows
  Step-keeps {s} (reserving id owner account plan now amount available ttl) m =
      reserve-keeps id owner account plan now amount available ttl s m
  Step-keeps {s} (reading id owner account now) m =
      unfold get_active in (expire-keeps now (some account) s.rows m)
  Step-keeps {s} (changing now id owner ch) m = transition-keeps now id owner ch s m
  Step-keeps {s} (splitting new_id now id owner filled position remaining) m =
      split-keeps new_id now id owner filled position remaining s m
  Step-keeps {s} (expiring now scope) m = expire-keeps now scope s.rows m

-- A released or expired reservation never comes back: after any sequence of calls, whatever their
-- arguments and however they end, the row is still in the table, with every field as it was.
pub terminal_stays :
    {s t : Store} (r : Row) → IsTerminal r → Reach s t → Memᴰ r s.rows → Memᴰ r t.rows
terminal_stays r terminal here m = m
terminal_stays r terminal (next path step) m =
    Step-keeps r terminal step (terminal_stays r terminal path m)
