-- ===== src/Accounts.antt =====
-- Trading accounts and their snapshots (modules/accounts): the models, the check of a snapshot and
-- the service that keeps both by account.
pub mod Ownership
use matrades.Common.{
  ℕ, ◌+◌, Bool, not, Option, none, some, List, filter, ltb, nat_beq, if◌then◌else◌, nat_eq,
}
use matrades.Common.Int.{ℤ, pos, ◌+ℤ◌, ◌-ℤ◌, leb_ℤ, abs_ℤ}
use matrades.Common.Dict.{Dict, lookup, insert, values}
use matrades.Common.Result.{Result, ok, err, raise_if, ◌>>=◌, ◌>>◌}

pub data AccountKind : Type 0 where
  personal prop : AccountKind

pub record TradingAccount : Type 0 where
  pub id : ℕ
  pub owner_id : ℕ
  pub name : ℕ
  pub currency : ℕ
  pub kind : AccountKind
  pub starting_balance : ℤ
  pub current_balance : Option ℤ
  pub active : Bool

pub record AccountSnapshot : Type 0 where
  pub account_id : ℕ
  pub starting_balance : ℤ
  pub current_balance : ℤ
  pub current_equity : ℤ
  pub floating_pnl : ℤ
  pub realized_daily_pnl : ℤ
  pub observed_at : ℕ
  pub cash_balances : Dict ℕ ℤ

pub data AccountError : Type 0 where
  inconsistent_equity different_account stale_snapshot equity_not_positive : AccountError
  not_owner snapshot_mismatch : AccountError

-- The validator of the model: `abs(balance + floating - equity) > Decimal("0.01")`, with `cent` the
-- number of quanta in a cent.
unfoldable pub consistent_equity : ℕ → AccountSnapshot → Result AccountError AccountSnapshot
consistent_equity cent s =
    let expected = s.current_balance +ℤ s.floating_pnl in
    if ltb cent (abs_ℤ (expected -ℤ s.current_equity))
    then err AccountError.inconsistent_equity
    else ok s

-- `utc_now() - observed_at > max_age`, at the instant `now`; a future observation is not stale.
unfoldable pub validate_snapshot : ℕ → AccountSnapshot → ℕ → ℕ → Result AccountError (Unit {0})
validate_snapshot now snapshot expected_account_id max_age = do
  raise_if (not (nat_beq snapshot.account_id expected_account_id)) AccountError.different_account
  raise_if (ltb (snapshot.observed_at + max_age) now) AccountError.stale_snapshot
  raise_if (leb_ℤ snapshot.current_equity (pos 0)) AccountError.equity_not_positive

pub record AccountService : Type 0 where
  pub items : Dict ℕ TradingAccount
  pub snapshots : Dict ℕ AccountSnapshot

unfoldable pub create : TradingAccount → AccountService → AccountService
create item s = record s { items = insert item.id item s.items }

unfoldable pub for_owner : ℕ → AccountService → List TradingAccount
for_owner owner_id s = filter (λ x. nat_beq x.owner_id owner_id) (values s.items)

unfoldable pub update : ℕ → TradingAccount → AccountService → Result AccountError AccountService
update owner_id item s =
    if nat_beq item.owner_id owner_id
    then ok (record s { items = insert item.id item s.items })
    else err AccountError.not_owner

-- `account is None or account.owner_id != owner_id` raises.
abbrev pub owned : ℕ → Option TradingAccount → Result AccountError TradingAccount
owned owner_id none = err AccountError.not_owner
owned owner_id (some account) =
    if nat_beq account.owner_id owner_id then ok account else err AccountError.not_owner

unfoldable pub record_snapshot :
    ℕ → AccountSnapshot → AccountService → Result AccountError AccountService
record_snapshot owner_id snapshot s = do
  account ← owned owner_id (lookup snapshot.account_id s.items)
  raise_if (not (nat_beq snapshot.account_id account.id)) AccountError.snapshot_mismatch
  ok (record s { snapshots = insert snapshot.account_id snapshot s.snapshots })

abbrev pub or_zero : Option ℤ → ℤ
or_zero none = pos 0
or_zero (some v) = v

unfoldable pub tradable_cash : ℕ → ℕ → ℕ → AccountService → Result AccountError ℤ
tradable_cash owner_id account_id currency s = do
  account ← owned owner_id (lookup account_id s.items)
  ok (elim (lookup account_id s.snapshots) [
    | none ↦ pos 0
    | some snapshot ↦ or_zero (lookup currency snapshot.cash_balances)
  ])
