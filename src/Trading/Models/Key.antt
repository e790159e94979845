-- ===== src/Trading/Models/Key.antt =====
-- The keys that modules/trading/execution.py writes into `requested_postcondition`.
use matrades.Common.{ℕ}

abbrev pub instrument : ℕ
instrument = 0

abbrev pub direction : ℕ
direction = 1

abbrev pub quantity : ℕ
quantity = 2

abbrev pub quantity_unit : ℕ
quantity_unit = 3

abbrev pub entry : ℕ
entry = 4

abbrev pub stop_loss : ℕ
stop_loss = 5

abbrev pub targets : ℕ
targets = 6

abbrev pub take_profit : ℕ
take_profit = 7

abbrev pub max_loss_account_currency : ℕ
max_loss_account_currency = 8

abbrev pub venue_instrument_id : ℕ
venue_instrument_id = 9

abbrev pub specification_version_id : ℕ
specification_version_id = 10
