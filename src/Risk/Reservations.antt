-- ===== src/Risk/Reservations.antt =====
-- Reservations of risk capacity (modules/risk/reservations.py): the table of reservations with the
-- operations of `PersistentReservationStore`, over the accounts that they lock. An operation returns
-- or raises, and leaves the rows as its transaction then sees them. `now` is `utc_now()`, and the
-- identifier of a new row is an argument, as `uuid4` gives one. An empty text counts as `None`.
pub mod Sums
pub mod Capacity
pub mod Terminal
pub mod Claims
pub mod Book
use mathlib.Core.List.{foldl}
use matrades.Common.{
  ℕ, ◌+◌, Bool, true, false, not, ◌&&◌, ◌||◌, Option, none, some, List, [], ◌∷◌, ◌++◌, map, nat_beq,
  leb, if◌then◌else◌, opt_beq, nat_eq, any,
}
use matrades.Common.Int.{ℤ, pos, ◌+ℤ◌, leb_ℤ, ltb_ℤ, beq_ℤ}
use matrades.Common.Result.{Result, ok, err}

pub data ReservationState : Type 0 where
  provisional command_pending order_working partially_filled open_position : ReservationState
  released expired active confirmed : ReservationState

-- `state in ACTIVE_RESERVATION_STATES`
abbrev pub is_active : ReservationState → Bool
is_active ReservationState.released = false
is_active ReservationState.expired = false
is_active _ = true

-- `PositionRiskReservationRecord`
pub record Row : Type 0 where
  pub id : ℕ
  pub owner_id : ℕ
  pub account_id : ℕ
  pub trade_plan_id : Option ℕ
  pub command_id : Option ℕ
  pub broker_order_id : Option ℕ
  pub broker_position_id : Option ℕ
  pub amount : ℤ
  pub state : ReservationState
  pub expires_at : ℕ
  pub version : ℕ
  pub reason : Option ℕ
  pub split_from : Option ℕ
  pub updated_at : ℕ

-- The account rows that `reserve` locks: `kind == "account"`, with `state != "DELETED"` as a flag.
pub record AccountRow : Type 0 where
  pub id : ℕ
  pub owner_id : ℕ
  pub deleted : Bool

pub record Store : Type 0 where
  pub accounts : List AccountRow
  pub rows : List Row

pub data ReservationError : Type 0 where
  account_required different_amount insufficient_capacity plan_taken : ReservationError
  not_found already_terminal amount_invalid : ReservationError

module _ {ℓ} {A : Type ℓ} where
  -- `session.scalar(select(...).where(test))`
  unfoldable pub find : (A → Bool) → List A → Option A
  find test [] = none
  find test (x ∷ xs) = if test x then some x else find test xs

  -- The change of the object that `find` returns.
  unfoldable pub change : (A → Bool) → (A → A) → List A → List A
  change test f [] = []
  change test f (x ∷ xs) = if test x then f x ∷ xs else x ∷ change test f xs

abbrev pub is_account : ℕ → ℕ → AccountRow → Bool
is_account owner account a = nat_beq a.id account && (nat_beq a.owner_id owner && not a.deleted)

abbrev pub is_bound_to : ℕ → ℕ → Row → Bool
is_bound_to owner plan r = nat_beq r.owner_id owner && opt_beq r.trade_plan_id (some plan)

abbrev pub is_claim : ℕ → ℕ → Row → Bool
is_claim owner account r =
    nat_beq r.owner_id owner && (nat_beq r.account_id account && is_active r.state)

-- `select(func.coalesce(func.sum(amount), 0))` over the active rows of an owner's account.
unfoldable pub reserved : ℕ → ℕ → List Row → ℤ
reserved owner account [] = pos 0
reserved owner account (r ∷ rs) =
    if is_claim owner account r
    then r.amount +ℤ reserved owner account rs
    else reserved owner account rs

abbrev pub in_scope : Option ℕ → Row → Bool
in_scope none r = true
in_scope (some account) r = nat_beq r.account_id account

abbrev pub is_due : ℕ → Option ℕ → Row → Bool
is_due now account r = is_active r.state && (leb r.expires_at now && in_scope account r)

-- The values that `expire` sets.
unfoldable pub expire_row : ℕ → Row → Row
expire_row now r = record r {
  state = ReservationState.expired;
  version = r.version + 1;
  updated_at = now;
}

-- `expire`: one `UPDATE` over the rows that are due; the count is that of the rows it touched.
unfoldable pub expire : ℕ → Option ℕ → List Row → ℕ × List Row
expire now account [] = (0, [])
expire now account (r ∷ rs) =
    let (count, rest) = expire now account rs in
    if is_due now account r then (count + 1, expire_row now r ∷ rest) else (count, r ∷ rest)

-- The row that `reserve` adds.
unfoldable pub new_row : ℕ → ℕ → ℕ → ℕ → ℕ → ℤ → ℕ → Row
new_row id owner account plan now amount ttl = record {
  id = id;
  owner_id = owner;
  account_id = account;
  trade_plan_id = some plan;
  command_id = none;
  broker_order_id = none;
  broker_position_id = none;
  amount = amount;
  state = ReservationState.provisional;
  expires_at = now + ttl;
  version = 1;
  reason = none;
  split_from = none;
  updated_at = now;
}

-- `trade_plan_id` is unique over the rows of all owners.
abbrev pub is_taken : ℕ → List Row → Bool
is_taken plan rows = any (λ r. opt_beq r.trade_plan_id (some plan)) rows

-- From `await self.expire(...)` on. `flush` refuses a second row of the plan, and the transaction is
-- rolled back.
unfoldable pub claim : ℕ → ℕ → ℕ → ℕ → ℕ → ℤ → ℤ → ℕ → Store → Result ReservationError Row × Store
claim id owner account plan now amount available ttl s =
    let rows = (expire now (some account) s.rows).1 in
    let row = new_row id owner account plan now amount ttl in
    if leb_ℤ amount (pos 0) || ltb_ℤ available (reserved owner account rows +ℤ amount)
    then (err ReservationError.insufficient_capacity, record s { rows = rows })
    else if is_taken plan rows
    then (err ReservationError.plan_taken, s)
    else (ok row, record s { rows = rows ++ row ∷ [] })

unfoldable pub reserve : ℕ → ℕ → ℕ → ℕ → ℕ → ℤ → ℤ → ℕ → Store → Result ReservationError Row × Store
reserve id owner account plan now amount available ttl s =
    elim (find (is_account owner account) s.accounts) [
      | none ↦ (err ReservationError.account_required, s)
      | some a ↦ elim (find (is_bound_to owner plan) s.rows) [
        | some existing ↦
            if beq_ℤ existing.amount amount
            then (ok existing, s)
            else (err ReservationError.different_amount, s)
        | none ↦ claim id owner account plan now amount available ttl s
      ]
    ]

abbrev pub is_row : ℕ → ℕ → Row → Bool
is_row id owner r = nat_beq r.id id && nat_beq r.owner_id owner

unfoldable pub get_active : ℕ → ℕ → ℕ → ℕ → Store → Option Row × Store
get_active id owner account now s =
    let rows = (expire now (some account) s.rows).1 in
    (
      find (λ r. is_row id owner r && (nat_beq r.account_id account && is_active r.state)) rows,
      record s { rows = rows },
    )

-- `argument or record.field`
abbrev pub or_keep : Option ℕ → Option ℕ → Option ℕ
or_keep none old = old
or_keep (some new) old = some new

-- The optional arguments of `transition`.
pub record Change : Type 0 where
  pub target : ReservationState
  pub command_id : Option ℕ
  pub broker_order_id : Option ℕ
  pub broker_position_id : Option ℕ
  pub amount : Option ℤ
  pub reason : Option ℕ

-- The assignments that come before the check of the amount.
unfoldable pub assign : Change → Row → Row
assign ch r = record r {
  state = ch.target;
  command_id = or_keep ch.command_id r.command_id;
  broker_order_id = or_keep ch.broker_order_id r.broker_order_id;
  broker_position_id = or_keep ch.broker_position_id r.broker_position_id;
}

-- The assignments that come after it.
unfoldable pub settle : ℕ → Change → Row → Row
settle now ch r = record r {
  amount = elim ch.amount [ none ↦ r.amount | some a ↦ a ];
  reason = or_keep ch.reason r.reason;
  version = r.version + 1;
  updated_at = now;
}

abbrev pub is_bad_amount : Option ℤ → ℤ → Bool
is_bad_amount none old = false
is_bad_amount (some a) old = ltb_ℤ a (pos 0) || ltb_ℤ old a

-- A change of amount that is refused leaves the earlier assignments on the row.
unfoldable pub transition : ℕ → ℕ → ℕ → Change → Store → Result ReservationError Row × Store
unfolding assign settle
transition now id owner ch s = elim (find (is_row id owner) s.rows) [
  | none ↦ (err ReservationError.not_found, s)
  | some r ↦
      if not (is_active r.state)
      then (err ReservationError.already_terminal, s)
      else if is_bad_amount ch.amount r.amount
      then (
        err ReservationError.amount_invalid,
        record s { rows = change (is_row id owner) (assign ch) s.rows },
      )
      else (
        ok (settle now ch (assign ch r)),
        record s { rows = change (is_row id owner) (λ x. settle now ch (assign ch x)) s.rows },
      )
]

-- The row for what a partial fill leaves to be filled.
unfoldable pub remainder_of : ℕ → ℕ → ℤ → Row → Row
remainder_of id now amount r = record r {
  id = id;
  trade_plan_id = none;
  broker_order_id = none;
  broker_position_id = none;
  amount = amount;
  state = ReservationState.command_pending;
  version = 1;
  reason = none;
  split_from = some r.id;
  updated_at = now;
}

-- The transition that `split_partial_fill` asks for.
unfoldable pub fill_change : ℤ → ℕ → Change
fill_change filled position = record {
  target = ReservationState.partially_filled;
  command_id = none;
  broker_order_id = none;
  broker_position_id = some position;
  amount = some filled;
  reason = none;
}

-- From the transition on.
unfoldable pub split_from_result :
    ℕ
    → ℕ
    → ℤ
    → Result ReservationError Row × Store
    → Result ReservationError (Row × Option Row) × Store
split_from_result new_id now remaining (err e, s) = (err e, s)
split_from_result new_id now remaining (ok r, s) =
    if ltb_ℤ (pos 0) remaining
    then (
      ok (r, some (remainder_of new_id now remaining r)),
      record s { rows = s.rows ++ remainder_of new_id now remaining r ∷ [] },
    )
    else (ok (r, none), s)

unfoldable pub split_partial_fill :
    ℕ → ℕ → ℕ → ℕ → ℤ → ℕ → ℤ → Store → Result ReservationError (Row × Option Row) × Store
unfolding split_from_result fill_change
split_partial_fill new_id now id owner filled position remaining s =
    split_from_result new_id now remaining (transition now id owner (fill_change filled position) s)
