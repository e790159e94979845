-- ===== src/Bridge/Queue.antt =====
-- What the bridge's queue (bridges/mt5/commands.py) promises to its callers and to the terminal.
use matrades.Common.{
  ℕ, ◌+◌, ◌<◌, ◌≤◌, ◌≡◌, ◌⊎◌, refl, sym, subst, inl, inr, true, false, some, [], ◌∷◌, arith, All,
  length, leb, Bool-cases, Option-cases, nat_eq,
}
use matrades.Common.Dict.{Dict, lookup, lookup-insert_self}
use matrades.Bridge.{
  BridgeState, BridgeCommand, BridgeReceipt, BridgeCommandQueue, may_lease, available, lease_end,
  lease, poll_from, poll, receipt,
}

receipt-stored :
    (r : BridgeReceipt) (q : BridgeCommandQueue)
    → lookup r.command_id (receipt r q).1.receipts ≡ some (receipt r q).0
unfolding receipt
receipt-stored r q = elim (Option-cases (lookup r.command_id q.receipts)) [
  | inr (old, e) ↦ rw (e, receipt) e
  | inl e ↦ rw (e, receipt) (lookup-insert_self r.command_id r q.receipts)
]

-- The first receipt of a command is final: every later one, whatever it says, returns the first and
-- leaves the queue as it is.
pub receipt-final :
    (r r' : BridgeReceipt) (q : BridgeCommandQueue)
    → r'.command_id ≡ r.command_id
    → receipt r' (receipt r q).1 ≡ receipt r q
unfolding receipt
receipt-final r r' q same = again _ (
    subst (λ n. lookup n (receipt r q).1.receipts ≡ some (receipt r q).0) (sym same)
      (receipt-stored r q))
  where
    again :
        (p : BridgeReceipt × BridgeCommandQueue)
        → lookup r'.command_id p.1.receipts ≡ some p.0
        → receipt r' p.1 ≡ p
    again p e = rw (e, receipt) refl

-- What a poll returns: a command that is leased from now on and that no poll returns before then.
abbrev pub IsLeased : ℕ → ℕ → ℕ → BridgeCommand → Type 0
IsLeased now until account c =
    (c.account_id ≡ account)
    × (c.state ≡ BridgeState.leased)
    × (c.lease_expires_at ≡ some until)
    × ((until ≤ now) ⊎ (may_lease now c ≡ false))

lease-IsLeased :
    (now now' seconds account : ℕ) (c : BridgeCommand)
    → available now account c ≡ true
    → IsLeased now' (lease_end now seconds) account (lease now seconds c)
lease-IsLeased now now' seconds account c h = ground arith

poll_from-IsLeased :
    (now now' seconds account limit taken : ℕ) (d : Dict ℕ BridgeCommand)
    → All
        (IsLeased now' (lease_end now seconds) account)
        (poll_from now seconds account limit taken d).0
unfolding poll_from
poll_from-IsLeased now now' seconds account limit taken [] = tt
poll_from-IsLeased now now' seconds account limit taken ((i, c) ∷ d) =
    elim (Bool-cases (available now account c)) [
      | inr t ↦ rw t (poll_from-IsLeased now now' seconds account limit taken d)
      | inl t ↦
          let first = lease-IsLeased now now' seconds account c t in
          elim (Bool-cases (leb limit (taken + 1))) [
            | inl full ↦ rw (t, full) (first, tt)
            | inr more ↦
                rw (t, more)
                  (first, poll_from-IsLeased now now' seconds account limit (taken + 1) d)
          ]
    ]

-- Every command that a poll returns is of the account asked for and leased to the end of the lease, and
-- at any instant either the lease is over or no poll may lease it.
pub poll-IsLeased :
    (now now' account limit : ℕ) (q : BridgeCommandQueue)
    → All (IsLeased now' (lease_end now q.lease_seconds) account) (poll now account limit q).0
unfolding poll
poll-IsLeased now now' account limit q =
    poll_from-IsLeased now now' q.lease_seconds account limit 0 q.pending

poll_from-length :
    (now seconds account limit taken : ℕ) (d : Dict ℕ BridgeCommand)
    → taken < limit
    → taken + length (poll_from now seconds account limit taken d).0 ≤ limit
unfolding poll_from
poll_from-length now seconds account limit taken [] h = omega arith
poll_from-length now seconds account limit taken ((i, c) ∷ d) h =
    elim (Bool-cases (available now account c)) [
      | inr t ↦ rw t (poll_from-length now seconds account limit taken d h)
      | inl t ↦ elim (Bool-cases (leb limit (taken + 1))) [
        | inl full ↦ rw (t, full) (omega arith)
        | inr more ↦
            let below : taken + 1 < limit = ground arith in
            let rest = poll_from-length now seconds account limit (taken + 1) d below in
            rw (t, more) (omega arith)
      ]
    ]

-- A poll with a positive limit returns no more commands than that.
pub poll-length :
    (now account limit : ℕ) (q : BridgeCommandQueue)
    → 0 < limit
    → length (poll now account limit q).0 ≤ limit
unfolding poll
poll-length now account limit q h =
    omega (arith, poll_from-length now q.lease_seconds account limit 0 q.pending h)
