-- ===== src/Risk/Reservations/Book.antt =====
-- The in-memory `ReservationBook` (modules/risk/reservations.py) over a dict of reservations. Its lock
-- makes each operation one step. `now` is the `utc_now()` of `expire`, `later` that of `reserve`; the
-- identifier of a new item is an argument, as `uuid4` gives one.
use matrades.Common.{
  ℕ, ◌+◌, ◌<◌, ◌≡◌, refl, ap, inl, inr, Bool, true, false, not, ◌&&◌, ◌||◌, Option, none, some,
  List, [], ◌∷◌, map, arith, filter, leb, nat_beq, nat_beq_iff, if◌then◌else◌, Bool-cases,
  Option-cases, nat_eq,
}
use matrades.Common.Int.{ℤ, pos, ◌+ℤ◌, ◌≤ℤ◌, ◌<ℤ◌, leb_ℤ, ltb_ℤ, sum_from, sum_from-add, int_laws}
use matrades.Common.Dict.{Dict, lookup, insert, values, lookup-insert_self}
use matrades.Common.Result.{Result, ok, err, ok-injective}
use matrades.Risk.Reservations.{ReservationState}

-- `RiskReservation`
pub record Item : Type 0 where
  pub id : ℕ
  pub account_id : ℕ
  pub proposal_id : ℕ
  pub amount : ℤ
  pub expires_at : ℕ
  pub state : ReservationState

pub data BookError : Type 0 where
  insufficient_capacity missing_key no_longer_active : BookError

-- `item.state == ReservationState.ACTIVE`
abbrev pub holds : ReservationState → Bool
holds ReservationState.active = true
holds _ = false

unfoldable pub expire_item : ℕ → Item → Item
expire_item now i =
    if holds i.state && leb i.expires_at now
    then record i { state = ReservationState.expired }
    else i

-- `expire`: every key keeps its place.
unfoldable pub expire_all : ℕ → Dict ℕ Item → Dict ℕ Item
expire_all now [] = []
expire_all now ((k, i) ∷ d) = (k, expire_item now i) ∷ expire_all now d

-- The generator that `reserve` sums.
unfoldable pub already : ℕ → Dict ℕ Item → ℤ
already account d =
    sum_from (pos 0)
      (map (λ i. i.amount) (filter (λ i. nat_beq i.account_id account && holds i.state) (values d)))

unfoldable pub book_reserve :
    ℕ → ℕ → ℕ → ℕ → ℕ → ℤ → ℤ → ℕ → Dict ℕ Item → Result BookError Item × Dict ℕ Item
book_reserve id now later account proposal amount available ttl d =
    let items = expire_all now d in
    let item : Item = record {
      id = id;
      account_id = account;
      proposal_id = proposal;
      amount = amount;
      expires_at = later + ttl;
      state = ReservationState.active;
    } in
    if leb_ℤ amount (pos 0) || ltb_ℤ available (already account items +ℤ amount)
    then (err BookError.insufficient_capacity, items)
    else (ok item, insert id item items)

unfoldable pub book_transition :
    ℕ → ReservationState → Dict ℕ Item → Result BookError Item × Dict ℕ Item
book_transition id state d = elim (lookup id d) [
  | none ↦ (err BookError.missing_key, d)
  | some current ↦
      if not (holds current.state)
      then (err BookError.no_longer_active, d)
      else (ok (record current { state = state }), insert id (record current { state = state }) d)
]

unfoldable pub active_for : ℕ → ℕ → ℕ → Dict ℕ Item → Option Item × Dict ℕ Item
active_for now id account d =
    let items = expire_all now d in
    (
      elim (lookup id items) [
        | none ↦ none
        | some item ↦
            if not (nat_beq item.account_id account) || not (holds item.state)
            then none
            else some item
      ],
      items,
    )

lookup-expire_all :
    (now id : ℕ) (d : Dict ℕ Item)
    → lookup id (expire_all now d)
      ≡ elim (lookup id d) [ none ↦ none | some i ↦ some (expire_item now i) ]
unfolding expire_all
lookup-expire_all now id [] = refl
lookup-expire_all now id ((k, i) ∷ d) = ground (arith, lookup-expire_all now id d)

already-insert :
    (account id : ℕ) (item : Item) (d : Dict ℕ Item)
    → lookup id d ≡ none
    → nat_beq item.account_id account ≡ true
    → holds item.state ≡ true
    → already account (insert id item d) ≡ already account d +ℤ item.amount
unfolding already
already-insert account id item [] e t h = rw (t, h) (omega int_laws)
already-insert account id item ((k, i) ∷ d) e t h = elim (Bool-cases (nat_beq k id)) [
  | inl u ↦ absurd (some-ne-none (rw u at e))
  | inr u ↦
      let ih = already-insert account id item d (rw u at e) t h in
      elim (Bool-cases (nat_beq i.account_id account && holds i.state)) [
        | inl v ↦
            rw
              (
                u,
                v,
                sum_from-add (pos 0 +ℤ i.amount) (amounts (insert id item d)),
                sum_from-add (pos 0 +ℤ i.amount) (amounts d),
                ih,
              )
              (omega int_laws)
        | inr v ↦ rw (u, v) ih
      ]
]
  where
    amounts : Dict ℕ Item → List ℤ
    amounts d' =
        map (λ i. i.amount)
          (filter (λ i. nat_beq i.account_id account && holds i.state) (values d'))

    some-ne-none : {j : Item} → ¬ (some j ≡ none)
    some-ne-none q = cc

lookup-expire_all-none :
    (now id : ℕ) (d : Dict ℕ Item) → lookup id d ≡ none → lookup id (expire_all now d) ≡ none
lookup-expire_all-none now id d e = rw (lookup-expire_all now id d, e) refl

-- A reservation that the book grants under a fresh identifier is positive and stands in the book with
-- the amount asked for, and the account's active amounts then sum to no more than what is available.
pub book_reserve-fits :
    (id now later account proposal : ℕ) (amount available : ℤ) (ttl : ℕ) (d d' : Dict ℕ Item)
    (i : Item)
    → lookup id d ≡ none
    → book_reserve id now later account proposal amount available ttl d ≡ (ok i, d')
    → (pos 0 <ℤ amount)
      × (already account d' ≤ℤ available)
      × (lookup id d' ≡ some i)
      × (i.amount ≡ amount)
      × (i.id ≡ id)
unfolding book_reserve
book_reserve-fits id now later account proposal amount available ttl d d' i fresh e =
    elim (Bool-cases (leb_ℤ amount (pos 0) || ltb_ℤ available (already account items +ℤ amount))) [
      | inl t ↦ absurd (err-ne-ok (ap (λ x. x.0) (rw t at e)))
      | inr t ↦
          let p : (ok item, insert id item items) ≡ (ok i, d') = rw t at e in
          let same : item ≡ i = ok-injective (ap (λ x. x.0) p) in
          let (positive, fits) = guard_facts t in
          rw
            (
              ← ap (λ x. x.1) p,
              ← same,
              already-insert account id item items (lookup-expire_all-none now id d fresh)
                  ((nat_beq_iff account account).1 refl) refl,
            )
            (positive, fits, lookup-insert_self id item items, refl, refl)
    ]
  where
    items : Dict ℕ Item
    items = expire_all now d

    item : Item
    item = record {
      id = id;
      account_id = account;
      proposal_id = proposal;
      amount = amount;
      expires_at = later + ttl;
      state = ReservationState.active;
    }

    guard_facts :
        (leb_ℤ amount (pos 0) || ltb_ℤ available (already account items +ℤ amount)) ≡ false
        → (pos 0 <ℤ amount) × (already account items +ℤ amount ≤ℤ available)
    guard_facts t = ground arith

    err-ne-ok : {x : BookError} {r : Item} → ¬ (◌≡◌ {A = Result BookError Item} (err x) (ok r))
    err-ne-ok h = cc

-- Once an item has left the active state by a transition, every further transition of it raises and
-- leaves the book as it is.
pub book_transition-once :
    (id : ℕ) (state state' : ReservationState) (d d' : Dict ℕ Item) (i : Item)
    → holds state ≡ false
    → book_transition id state d ≡ (ok i, d')
    → book_transition id state' d' ≡ (err BookError.no_longer_active, d')
unfolding book_transition
book_transition-once id state state' d d' i left e = elim (Option-cases (lookup id d)) [
  | inl n ↦ absurd (err-ne-ok (ap (λ x. x.0) (rw (n, book_transition) at e)))
  | inr (c, f) ↦ elim (Bool-cases (holds c.state)) [
    | inr t ↦ absurd (err-ne-ok (ap (λ x. x.0) (rw (f, t, book_transition) at e)))
    | inl t ↦
        let p : insert id (record c { state = state }) d ≡ d' =
          ap (λ x. x.1) (rw (f, t, book_transition) at e) in
        let kept : lookup id d' ≡ some (record c { state = state }) =
          rw (← p) (lookup-insert_self id (record c { state = state }) d) in
        rw (kept, left, book_transition) refl
  ]
]
  where
    err-ne-ok : {x : BookError} {r : Item} → ¬ (◌≡◌ {A = Result BookError Item} (err x) (ok r))
    err-ne-ok h = cc

-- What `active_for` returns is the item of the book as it was, of the account asked for, active, and
-- not yet expired.
pub active_for-current :
    (now id account : ℕ) (d : Dict ℕ Item) (i : Item)
    → (active_for now id account d).0 ≡ some i
    → (lookup id d ≡ some i)
      × (i.account_id ≡ account)
      × (i.state ≡ ReservationState.active)
      × (now < i.expires_at)
unfolding active_for expire_item
active_for-current now id account d i e = elim (Option-cases (lookup id d)) [
  | inl n ↦ absurd (none-ne-some (rw (lookup-expire_all now id d, n, active_for) at e))
  | inr (c, f) ↦ found c f (rw (lookup-expire_all now id d, f, active_for) at e)
]
  where
    none-ne-some : ¬ (none ≡ some i)
    none-ne-some q = cc

    found :
        (c : Item)
        → lookup id d ≡ some c
        → (if not (nat_beq (expire_item now c).account_id account)
              || not (holds (expire_item now c).state)
            then none
            else some (expire_item now c))
          ≡ some i
        → (lookup id d ≡ some i)
          × (i.account_id ≡ account)
          × (i.state ≡ ReservationState.active)
          × (now < i.expires_at)
    found c f q = ground arith
