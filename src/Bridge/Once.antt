-- ===== src/Bridge/Once.antt =====
-- No command of the bridge's queue (bridges/mt5/commands.py) is handed out twice during one lease.
use mathlib.Core.List.{Memᴰ}
use mathlib.Core.Bool.{false≢true}
use matrades.Common.{
  ℕ, ◌+◌, ◌<◌, ◌≡◌, ◌≢◌, refl, sym, subst, ap, ◌∙◌, inl, inr, true, false, some, [], ◌∷◌, arith,
  All, All-map, leb, Bool-cases, nat_eq,
}
use matrades.Common.Dict.{Dict}
use matrades.Bridge.{
  BridgeState, BridgeCommand, BridgeCommandQueue, available, lease_end, lease, poll_from, poll,
}
use matrades.Bridge.Keyed.{IsNamed, IsUnique, Serves, poll-IsKeyed, Serves-IsKeyed}

module _ (now seconds account limit : ℕ) where
  -- A command that is returned stands in the queue as it is returned, leased.
  abbrev IsStored : Dict ℕ BridgeCommand → BridgeCommand → Type 0
  IsStored d c =
      Memᴰ (c.command_id, c) d
      × (c.state ≡ BridgeState.leased)
      × (c.lease_expires_at ≡ some (lease_end now seconds))

  poll_from-IsStored :
      (taken : ℕ) (d : Dict ℕ BridgeCommand)
      → All IsNamed d
      → All
          (IsStored (poll_from now seconds account limit taken d).1)
          (poll_from now seconds account limit taken d).0
  unfolding poll_from
  poll_from-IsStored taken [] named = tt
  poll_from-IsStored taken ((i, c) ∷ d) (e, named) = elim (Bool-cases (available now account c)) [
    | inr t ↦ rw t (
        All-map (poll_from now seconds account limit taken d).0 (λ x (m, s, u). (Memᴰ.tail m, s, u))
          (poll_from-IsStored taken d named))
    | inl t ↦ elim (Bool-cases (leb limit (taken + 1))) [
      | inl full ↦ rw (t, full) ((Memᴰ.head (here e), refl, refl), tt)
      | inr more ↦
          rw (t, more)
            (
              (Memᴰ.head (here e), refl, refl),
              All-map (poll_from now seconds account limit (taken + 1) d).0
                  (λ x (m, s, u). (Memᴰ.tail m, s, u)) (poll_from-IsStored (taken + 1) d named),
            )
    ]
  ]
    where
      here :
          c.command_id ≡ i
          → ◌≡◌ {A = ℕ × BridgeCommand} (c.command_id, lease now seconds c) (i, lease now seconds c)
      here h = ap (λ n. (n, lease now seconds c)) h

  -- A command that is returned was available in the queue, under its identifier.
  abbrev HasSource : Dict ℕ BridgeCommand → BridgeCommand → Type 0
  HasSource d c =
      (source : BridgeCommand) × Memᴰ (c.command_id, source) d
      × (available now account source ≡ true)

  poll_from-HasSource :
      (taken : ℕ) (d : Dict ℕ BridgeCommand)
      → All IsNamed d
      → All (HasSource d) (poll_from now seconds account limit taken d).0
  unfolding poll_from
  poll_from-HasSource taken [] named = tt
  poll_from-HasSource taken ((i, c) ∷ d) (e, named) = elim (Bool-cases (available now account c)) [
    | inr t ↦ rw t (
        All-map (poll_from now seconds account limit taken d).0 (λ x (s, m, a). (s, Memᴰ.tail m, a))
          (poll_from-HasSource taken d named))
    | inl t ↦ elim (Bool-cases (leb limit (taken + 1))) [
      | inl full ↦ rw (t, full) ((c, Memᴰ.head (here e), t), tt)
      | inr more ↦
          rw (t, more)
            (
              (c, Memᴰ.head (here e), t),
              All-map (poll_from now seconds account limit (taken + 1) d).0
                  (λ x (s, m, a). (s, Memᴰ.tail m, a)) (poll_from-HasSource (taken + 1) d named),
            )
    ]
  ]
    where
      here : c.command_id ≡ i → ◌≡◌ {A = ℕ × BridgeCommand} (c.command_id, c) (i, c)
      here h = ap (λ n. (n, c)) h

distinct_key :
    (x : ℕ × BridgeCommand) (d : Dict ℕ BridgeCommand) (y : ℕ × BridgeCommand)
    → All (λ z. z.0 ≢ x.0) d
    → Memᴰ y d
    → y.0 ≢ x.0
distinct_key x [] y h m = elim m [ ]
distinct_key x (z ∷ d) y (h, hs) (Memᴰ.head p) = λ q. h (ap (λ w. w.0) (sym p) ∙ q)
distinct_key x (z ∷ d) y (h, hs) (Memᴰ.tail m) = distinct_key x d y hs m

unique-Mem :
    (i : ℕ) (c c' : BridgeCommand) (d : Dict ℕ BridgeCommand)
    → IsUnique d
    → Memᴰ (i, c) d
    → Memᴰ (i, c') d
    → c ≡ c'
unique-Mem i c c' [] u m m' = elim m [ ]
unique-Mem i c c' (x ∷ d) (a, u) (Memᴰ.head e) (Memᴰ.head e') = ap (λ y. y.1) (e ∙ sym e')
unique-Mem i c c' (x ∷ d) (a, u) (Memᴰ.head e) (Memᴰ.tail m') =
    absurd (distinct_key x d (i, c') a m' (ap (λ y. y.0) e))
unique-Mem i c c' (x ∷ d) (a, u) (Memᴰ.tail m) (Memᴰ.head e') =
    absurd (distinct_key x d (i, c) a m (ap (λ y. y.0) e'))
unique-Mem i c c' (x ∷ d) (a, u) (Memᴰ.tail m) (Memᴰ.tail m') = unique-Mem i c c' d u m m'

not_available :
    (now until account : ℕ) (c : BridgeCommand)
    → now < until
    → c.state ≡ BridgeState.leased
    → c.lease_expires_at ≡ some until
    → available now account c ≡ false
not_available now until account c h leased expires = rw (leased, expires) (ground arith)

-- In every queue that calls have made from an empty one: as long as a poll's lease runs, the next poll,
-- for any account and with any limit, returns no command that this poll has returned.
pub poll-once :
    {lease_seconds : ℕ} (now now' account account' limit limit' : ℕ) (q : BridgeCommandQueue)
    → Serves lease_seconds q
    → now' < lease_end now q.lease_seconds
    → All
        (λ c.
          All
            (λ c'. c'.command_id ≢ c.command_id)
            (poll now' account' limit' (poll now account limit q).1).0)
        (poll now account limit q).0
unfolding poll
poll-once now now' account account' limit limit' q before early =
    let (named, unique) = Serves-IsKeyed before in
    let (named', unique') = poll-IsKeyed now account limit q (named, unique) in
    let again = (poll now account limit q).1 in
    All-map (poll now account limit q).0
      (λ c (m, leased, expires).
        All-map (poll now' account' limit' again).0
          (λ c' (source, m', free) same.
            let one =
              unique-Mem c.command_id c source again.pending unique' m
                (subst (λ i. Memᴰ (i, source) again.pending) same m') in
            false≢true (
              sym (not_available now' _ account' c early leased expires)
              ∙ (ap (λ x. available now' account' x) one ∙ free)))
          (poll_from-HasSource now' again.lease_seconds account' limit' 0 again.pending named'))
      (poll_from-IsStored now q.lease_seconds account limit 0 q.pending named)
