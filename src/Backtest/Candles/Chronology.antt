-- ===== src/Backtest/Candles/Chronology.antt =====
-- The sort and the set of `validate_candles` (modules/backtesting/engine.py) against an order on the list.
use matrades.Common.{
  ℕ, ◌≤◌, ◌<◌, ◌≡◌, ◌↔◌, refl, sym, subst, inl, inr, true, false, not, ◌||◌, List, [], ◌∷◌, arith,
  length, any, All, All-map, All-zip, nat_beq, leb, Bool-cases,
}
use matrades.Backtest.Candles.{insert_sorted, sorted, distinct, list_beq}

-- Each instant is before all later ones.
abbrev pub IsIncreasing : List ℕ → Type 0
IsIncreasing [] = Unit
IsIncreasing (x ∷ xs) = All (λ y. x < y) xs × IsIncreasing xs

abbrev IsWeak : List ℕ → Type 0
IsWeak [] = Unit
IsWeak (x ∷ xs) = All (λ y. x ≤ y) xs × IsWeak xs

All-insert_sorted :
    (P : ℕ → Type 0) (x : ℕ) (l : List ℕ) → P x → All P l → All P (insert_sorted x l)
All-insert_sorted P x [] p h = (p, tt)
All-insert_sorted P x (y ∷ l) p (q, h) = elim (Bool-cases (leb x y)) [
  | inl t ↦ rw t (p, (q, h))
  | inr t ↦ rw t (q, All-insert_sorted P x l p h)
]

insert_sorted-IsWeak : (x : ℕ) (l : List ℕ) → IsWeak l → IsWeak (insert_sorted x l)
insert_sorted-IsWeak x [] h = (tt, tt)
insert_sorted-IsWeak x (y ∷ l) (below, h) = elim (Bool-cases (leb x y)) [
  | inl t ↦ rw t ((first x y t, All-map l (λ z q. smaller x y z t q) below), (below, h))
  | inr t ↦
      rw t (All-insert_sorted (λ z. y ≤ z) x l (larger x y t) below, insert_sorted-IsWeak x l h)
]
  where
    first : (x y : ℕ) → leb x y ≡ true → x ≤ y
    first x y t = ground arith

    smaller : (x y z : ℕ) → leb x y ≡ true → y ≤ z → x ≤ z
    smaller x y z t q = ground arith

    larger : (x y : ℕ) → leb x y ≡ false → y ≤ x
    larger x y t = ground arith

sorted-IsWeak : (l : List ℕ) → IsWeak (sorted l)
unfolding sorted
sorted-IsWeak [] = tt
sorted-IsWeak (x ∷ l) = insert_sorted-IsWeak x (sorted l) (sorted-IsWeak l)

insert_sorted-first : (x : ℕ) (l : List ℕ) → All (λ y. x ≤ y) l → insert_sorted x l ≡ x ∷ l
insert_sorted-first x [] h = refl
insert_sorted-first x (y ∷ l) (p, h) = ground arith

IsWeak-sorted : (l : List ℕ) → IsWeak l → sorted l ≡ l
unfolding sorted
IsWeak-sorted [] h = refl
IsWeak-sorted (x ∷ l) (below, h) = rw (IsWeak-sorted l h) (insert_sorted-first x l below)

list_beq-eq : (l k : List ℕ) → list_beq l k ≡ true → l ≡ k
list_beq-eq [] [] h = refl
list_beq-eq [] (y ∷ k) h = cc
list_beq-eq (x ∷ l) [] h = cc
list_beq-eq (x ∷ l) (y ∷ k) h = ground (arith, list_beq-eq l k)

list_beq_self : (l : List ℕ) → list_beq l l ≡ true
list_beq_self [] = refl
list_beq_self (x ∷ l) = ground (arith, list_beq_self l)

distinct-length_le : (l : List ℕ) → length (distinct l) ≤ length l
unfolding distinct
distinct-length_le [] = omega arith
distinct-length_le (x ∷ l) = ground (arith, distinct-length_le l)

any-none : (x : ℕ) (l : List ℕ) → any (nat_beq x) l ≡ false → All (λ y. nat_beq x y ≡ false) l
any-none x [] h = tt
any-none x (y ∷ l) h = (ground arith, any-none x l (ground arith))

any-above : (x : ℕ) (l : List ℕ) → All (λ y. x < y) l → any (nat_beq x) l ≡ false
any-above x [] h = refl
any-above x (y ∷ l) (p, h) = ground (arith, any-above x l h)

-- A list in weak order without repetitions is in strict order, and the converse.
increasing : (l : List ℕ) → IsWeak l → length (distinct l) ≡ length l → IsIncreasing l
unfolding distinct
increasing [] h e = tt
increasing (x ∷ l) (below, h) e = elim (Bool-cases (any (nat_beq x) l)) [
  | inl t ↦ let shorter = rw t at e in absurd (omega (arith, distinct-length_le l, shorter))
  | inr t ↦
      let rest = rw t at e in
      (
        All-map l (λ y q. strict y q) (All-zip _ _ l below (any-none x l t)),
        increasing l h (omega (arith, rest)),
      )
]
  where
    strict : (y : ℕ) → (x ≤ y) × (nat_beq x y ≡ false) → x < y
    strict y (p, q) = ground arith

IsIncreasing-IsWeak : (l : List ℕ) → IsIncreasing l → IsWeak l
IsIncreasing-IsWeak [] h = tt
IsIncreasing-IsWeak (x ∷ l) (below, h) =
    (All-map l (λ y p. weak y p) below, IsIncreasing-IsWeak l h)
  where
    weak : (y : ℕ) → x < y → x ≤ y
    weak y p = omega arith

IsIncreasing-distinct : (l : List ℕ) → IsIncreasing l → length (distinct l) ≡ length l
unfolding distinct
IsIncreasing-distinct [] h = refl
IsIncreasing-distinct (x ∷ l) (below, h) =
    rw (any-above x l below) (omega (arith, IsIncreasing-distinct l h))

pub timestamps_lem :
    (times : List ℕ)
    → ((not (list_beq times (sorted times))
          || not (nat_beq (length (distinct times)) (length times)))
        ≡ false)
      ↔ IsIncreasing times
timestamps_lem times = (
  (λ h.
      increasing times
        (subst IsWeak (sym (list_beq-eq times (sorted times) (ground arith))) (sorted-IsWeak times))
        (ground arith)),
  (λ h.
      rw
        (
          IsWeak-sorted times (IsIncreasing-IsWeak times h),
          list_beq_self times,
          IsIncreasing-distinct times h,
        )
        (ground arith)),
)
