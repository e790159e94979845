-- ===== src/Tests/Reservations.antt =====
-- Runs of the reservations of risk capacity (modules/risk/reservations.py).
use mathlib.Core.List.{Memᴰ}
use matrades.Common.{ℕ, ◌≡◌, refl, false, none, some, [], ◌∷◌, arith, nat_beq, ◌&&◌, nat_eq}
use matrades.Common.Int.{pos, ◌+ℤ◌, ◌≤ℤ◌}
use matrades.Common.Dict.{Dict}
use matrades.Common.Result.{ok}
use matrades.Risk.Reservations.{
  ReservationState, Row, Store, find, change, reserved, expire, new_row, claim, reserve, Change,
  assign, settle, transition, remainder_of, fill_change, split_from_result, split_partial_fill,
}
use matrades.Risk.Reservations.Capacity.{Reserves, reserve-Reserves}
use matrades.Risk.Reservations.Terminal.{Step, Reach, terminal_stays}
use matrades.Risk.Reservations.Claims.{transition-reserved_le, split-reserved}
use matrades.Risk.Reservations.Book.{
  Item, expire_item, expire_all, already, book_reserve, book_transition, active_for,
}

abbrev row : ℕ → ℕ → ReservationState → Row
row id amount state = record {
  id = id;
  owner_id = 1;
  account_id = 2;
  trade_plan_id = none;
  command_id = none;
  broker_order_id = none;
  broker_position_id = none;
  amount = pos amount;
  state = state;
  expires_at = 100;
  version = 1;
  reason = none;
  split_from = none;
  updated_at = 0;
}

abbrev store : Store
store = record {
  accounts = record { id = 2; owner_id = 1; deleted = false } ∷ [];
  rows = row 10 50 ReservationState.active ∷ row 11 7 ReservationState.released ∷ [];
}

abbrev granted : Row
granted = record (row 12 30 ReservationState.provisional) {
  trade_plan_id = some 5;
  expires_at = 80;
  updated_at = 20;
}

abbrev after_grant : Store
after_grant = record store {
  rows = row 10 50 ReservationState.active ∷ row 11 7 ReservationState.released ∷ granted ∷ [];
}

reserve-granted : reserve 12 1 2 5 20 (pos 30) (pos 90) 60 store ≡ (ok granted, after_grant)
unfolding reserve find claim expire reserved new_row ◌+ℤ◌
reserve-granted = refl

reserve-Reserves_example : Reserves 12 1 2 5 20 (pos 30) (pos 90) 60 store granted after_grant
reserve-Reserves_example =
    reserve-Reserves 12 1 2 5 20 (pos 30) (pos 90) 60 store granted after_grant reserve-granted

abbrev released_row : Row
released_row = row 11 7 ReservationState.released

abbrev to_open : Change
to_open = record {
  target = ReservationState.open_position;
  command_id = some 3;
  broker_order_id = none;
  broker_position_id = none;
  amount = some (pos 40);
  reason = none;
}

terminal_stays_example :
    Memᴰ released_row
      (transition 30 11 1 to_open (reserve 12 1 2 5 20 (pos 30) (pos 90) 60 store).1).1.rows
terminal_stays_example =
    terminal_stays released_row refl
      (Reach.next (Reach.next Reach.here (Step.reserving 12 1 2 5 20 (pos 30) (pos 90) 60))
        (Step.changing 30 11 1 to_open))
      (Memᴰ.tail (Memᴰ.head refl))

transition-reserved_le_example :
    reserved 1 2 (transition 30 10 1 to_open store).1.rows ≤ℤ reserved 1 2 store.rows
transition-reserved_le_example =
    transition-reserved_le 1 2 30 10 1 to_open store (omega arith, (omega arith, tt))

abbrev filled_row : Row
filled_row = record (row 10 20 ReservationState.partially_filled) {
  broker_position_id = some 9;
  version = 2;
  updated_at = 30;
}

-- A claim of 50 is split into 20 and 60.
abbrev rest_row : Row
rest_row = record (row 14 60 ReservationState.command_pending) {
  split_from = some 10;
  updated_at = 30;
}

abbrev after_split : Store
after_split = record store {
  rows = filled_row ∷ row 11 7 ReservationState.released ∷ rest_row ∷ [];
}

split_partial_fill-run :
    split_partial_fill 14 30 10 1 (pos 20) 9 (pos 60) store
    ≡ (ok (filled_row, some rest_row), after_split)
unfolding split_partial_fill split_from_result transition find change assign settle fill_change
    remainder_of
split_partial_fill-run = refl

find-claim :
    find (λ r. nat_beq r.id 10 && nat_beq r.owner_id 1) store.rows
    ≡ some (row 10 50 ReservationState.active)
unfolding find
find-claim = refl

split-reserved_example :
    reserved 1 2 after_split.rows +ℤ pos 50 ≡ reserved 1 2 store.rows +ℤ (pos 20 +ℤ pos 60)
split-reserved_example =
    split-reserved 14 30 10 1 (pos 20) 9 (pos 60) store after_split
      (row 10 50 ReservationState.active) filled_row rest_row find-claim split_partial_fill-run

abbrev item : ℕ → ℕ → ℕ → ReservationState → Item
item id amount expires_at state = record {
  id = id;
  account_id = 2;
  proposal_id = 4;
  amount = pos amount;
  expires_at = expires_at;
  state = state;
}

abbrev items : Dict ℕ Item
items = (1, item 1 30 50 ReservationState.active) ∷ []

abbrev more_items : Dict ℕ Item
more_items =
    (1, item 1 30 50 ReservationState.active) ∷ (2, item 2 25 90 ReservationState.active) ∷ []

book_reserve-run :
    book_reserve 2 10 11 2 4 (pos 25) (pos 60) 79 items
    ≡ (ok (item 2 25 90 ReservationState.active), more_items)
unfolding book_reserve expire_all expire_item already ◌+ℤ◌
book_reserve-run = refl

abbrev released_items : Dict ℕ Item
released_items = (1, item 1 30 50 ReservationState.released) ∷ []

book_transition-run :
    book_transition 1 ReservationState.released items
    ≡ (ok (item 1 30 50 ReservationState.released), released_items)
unfolding book_transition
book_transition-run = refl

active_for-run : (active_for 10 1 2 items).0 ≡ some (item 1 30 50 ReservationState.active)
unfolding active_for expire_all expire_item
active_for-run = refl
