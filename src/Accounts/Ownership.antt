-- ===== src/Accounts/Ownership.antt =====
-- Who may record and read the snapshots of an account (modules/accounts/service.py).
use matrades.Common.{ℕ, ◌≡◌, ◌⊎◌, refl, true, false, Option, some, arith, nat_beq, nat_eq, not}
use matrades.Common.Dict.{lookup, insert, lookup-insert_self}
use matrades.Common.Result.{ok, err, >>=-eq-ok, raise_if-passed, ok-injective}
use matrades.Accounts.{
  TradingAccount, AccountSnapshot, AccountError, AccountService, owned, or_zero, record_snapshot,
  tradable_cash,
}

owned-eq :
    (o : ℕ) (found : Option TradingAccount) (a : TradingAccount)
    → owned o found ≡ ok a
    → (found ≡ some a) × (nat_beq a.owner_id o ≡ true)
owned-eq o found a h = ground arith

owned-some :
    (o : ℕ) (a : TradingAccount)
    → (owned o (some a) ≡ ok a) ⊎ (owned o (some a) ≡ err AccountError.not_owner)
owned-some o a = ground arith

-- After a snapshot was recorded by the account's owner, the owner reads from it the cash in each
-- currency, zero where it has none; and whoever does not own the account can neither record a snapshot
-- of it nor read its cash.
pub record_snapshot-tradable_cash :
    (owner other currency : ℕ) (snapshot later : AccountSnapshot) (s s' : AccountService)
    → record_snapshot owner snapshot s ≡ ok s'
    → nat_beq owner other ≡ false
    → later.account_id ≡ snapshot.account_id
    → (tradable_cash owner snapshot.account_id currency s'
        ≡ ok (or_zero (lookup currency snapshot.cash_balances)))
      × (tradable_cash other snapshot.account_id currency s' ≡ err AccountError.not_owner)
      × (record_snapshot other later s' ≡ err AccountError.not_owner)
unfolding record_snapshot tradable_cash
record_snapshot-tradable_cash owner other currency snapshot later s s' e differ same =
    let (a, found, e1) = >>=-eq-ok (owned owner (lookup snapshot.account_id s.items)) _ e in
    let (_, e2) =
      raise_if-passed (not (nat_beq snapshot.account_id a.id)) AccountError.snapshot_mismatch
        (ok (record s { snapshots = insert snapshot.account_id snapshot s.snapshots })) e1 in
    let (stored, mine) = owned-eq owner (lookup snapshot.account_id s.items) a found in
    let after : record s { snapshots = insert snapshot.account_id snapshot s.snapshots } ≡ s' =
      ok-injective e2 in
    let foreign : nat_beq a.owner_id other ≡ false = ground (arith, mine, differ) in
    rw (← after) (
      rw (stored, mine, lookup-insert_self snapshot.account_id snapshot s.snapshots) refl,
      rw (stored, foreign) refl,
      rw (same, stored, foreign) refl,
    )
