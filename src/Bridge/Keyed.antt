-- ===== src/Bridge/Keyed.antt =====
-- The commands of the bridge's queue (bridges/mt5/commands.py) stand under their identifiers, each under
-- one, in every queue that calls lead to.
use mathlib.Core.Bool.{false≢true}
use matrades.Common.{
  ℕ, ◌+◌, ◌≡◌, ◌≢◌, refl, sym, subst, ap, ◌∙◌, inl, inr, false, some, [], ◌∷◌, All, leb, nat_beq,
  nat_beq_iff, Bool-cases, Option-cases, some-injective, nat_eq,
}
use matrades.Common.Dict.{Dict, lookup, insert}
use matrades.Bridge.{
  BridgeCommand, BridgeReceipt, BridgeCommandQueue, empty_queue, with_key, enqueue, available,
  lease, poll_from, poll, reported_on, receipt,
}

-- A pending command stands under its identifier, and no two under one key.
abbrev pub IsNamed : ℕ × BridgeCommand → Type 0
IsNamed e = e.1.command_id ≡ e.0

abbrev pub IsUnique : Dict ℕ BridgeCommand → Type 0
IsUnique [] = Unit
IsUnique (e ∷ d) = All (λ x. x.0 ≢ e.0) d × IsUnique d

abbrev pub IsKeyed : Dict ℕ BridgeCommand → Type 0
IsKeyed d = All IsNamed d × IsUnique d

insert-All :
    (P : ℕ × BridgeCommand → Type 0) (k : ℕ) (v : BridgeCommand) (d : Dict ℕ BridgeCommand)
    → P (k, v)
    → All P d
    → All P (insert k v d)
insert-All P k v [] p ps = (p, tt)
insert-All P k v ((j, w) ∷ d) p (q, ps) = elim (Bool-cases (nat_beq j k)) [
  | inl t ↦ rw t (subst (λ i. P (i, v)) (sym ((nat_beq_iff j k).0 t)) p, ps)
  | inr t ↦ rw t (q, insert-All P k v d p ps)
]

insert-IsUnique :
    (k : ℕ) (v : BridgeCommand) (d : Dict ℕ BridgeCommand) → IsUnique d → IsUnique (insert k v d)
insert-IsUnique k v [] u = (tt, tt)
insert-IsUnique k v ((j, w) ∷ d) (a, u) = elim (Bool-cases (nat_beq j k)) [
  | inl t ↦ rw t (a, u)
  | inr t ↦ rw t (insert-All (λ x. x.0 ≢ j) k v d (other t) a, insert-IsUnique k v d u)
]
  where
    other : nat_beq j k ≡ false → k ≢ j
    other t h = false≢true (sym t ∙ (nat_beq_iff j k).1 (sym h))

insert-IsKeyed :
    (k : ℕ) (v : BridgeCommand) (d : Dict ℕ BridgeCommand)
    → v.command_id ≡ k
    → IsKeyed d
    → IsKeyed (insert k v d)
insert-IsKeyed k v d e (named, unique) =
    (insert-All IsNamed k v d e named, insert-IsUnique k v d unique)

lookup-IsNamed :
    (k : ℕ) (c : BridgeCommand) (d : Dict ℕ BridgeCommand)
    → All IsNamed d
    → lookup k d ≡ some c
    → c.command_id ≡ k
lookup-IsNamed k c [] a h = cc
lookup-IsNamed k c ((j, w) ∷ d) (e, a) h = elim (Bool-cases (nat_beq j k)) [
  | inl t ↦ ap (λ x. x.command_id) (sym (some-injective (rw t at h))) ∙ (e ∙ (nat_beq_iff j k).0 t)
  | inr t ↦ lookup-IsNamed k c d a (rw t at h)
]

module _ (now seconds account limit : ℕ) where
  -- What holds of the pending commands, and of a command once it is leased.
  poll_from-All :
      (P : ℕ × BridgeCommand → Type 0) (taken : ℕ) (d : Dict ℕ BridgeCommand)
      → ((i : ℕ) (c : BridgeCommand) → P (i, c) → P (i, lease now seconds c))
      → All P d
      → All P (poll_from now seconds account limit taken d).1
  unfolding poll_from
  poll_from-All P taken [] keeps ps = tt
  poll_from-All P taken ((i, c) ∷ d) keeps (p, ps) = elim (Bool-cases (available now account c)) [
    | inr t ↦ rw t (p, poll_from-All P taken d keeps ps)
    | inl t ↦ elim (Bool-cases (leb limit (taken + 1))) [
      | inl full ↦ rw (t, full) (keeps i c p, ps)
      | inr more ↦ rw (t, more) (keeps i c p, poll_from-All P (taken + 1) d keeps ps)
    ]
  ]

  poll_from-IsUnique :
      (taken : ℕ) (d : Dict ℕ BridgeCommand)
      → IsUnique d
      → IsUnique (poll_from now seconds account limit taken d).1
  unfolding poll_from
  poll_from-IsUnique taken [] u = tt
  poll_from-IsUnique taken ((i, c) ∷ d) (a, u) = elim (Bool-cases (available now account c)) [
    | inr t ↦
        rw t (poll_from-All (λ x. x.0 ≢ i) taken d (λ j x h. h) a, poll_from-IsUnique taken d u)
    | inl t ↦ elim (Bool-cases (leb limit (taken + 1))) [
      | inl full ↦ rw (t, full) (a, u)
      | inr more ↦
          rw (t, more)
            (
              poll_from-All (λ x. x.0 ≢ i) (taken + 1) d (λ j x h. h) a,
              poll_from-IsUnique (taken + 1) d u,
            )
    ]
  ]

-- The queues that calls lead to from an empty one.
pub data Serves (lease_seconds : ℕ) : BridgeCommandQueue → Type 0 where
  started : Serves lease_seconds (empty_queue lease_seconds)
  enqueued :
      {q : BridgeCommandQueue} (c : BridgeCommand)
      → Serves lease_seconds q
      → Serves lease_seconds (enqueue c q).1
  polled :
      {q : BridgeCommandQueue} (now account limit : ℕ)
      → Serves lease_seconds q
      → Serves lease_seconds (poll now account limit q).1
  received :
      {q : BridgeCommandQueue} (r : BridgeReceipt)
      → Serves lease_seconds q
      → Serves lease_seconds (receipt r q).1

pub poll-IsKeyed :
    (now account limit : ℕ) (q : BridgeCommandQueue)
    → IsKeyed q.pending
    → IsKeyed (poll now account limit q).1.pending
unfolding poll
poll-IsKeyed now account limit q (named, unique) = (
  poll_from-All now q.lease_seconds account limit IsNamed 0 q.pending (λ i c e. e) named,
  poll_from-IsUnique now q.lease_seconds account limit 0 q.pending unique,
)

pub Serves-IsKeyed :
    {lease_seconds : ℕ} {q : BridgeCommandQueue} → Serves lease_seconds q → IsKeyed q.pending
unfolding enqueue receipt
Serves-IsKeyed started = (tt, tt)
Serves-IsKeyed (enqueued {q} c before) =
    elim (Option-cases (with_key c.idempotency_key q.pending)) [
      | inr (old, f) ↦ rw (f, enqueue) (Serves-IsKeyed before)
      | inl f ↦
          rw (f, enqueue) (insert-IsKeyed c.command_id c q.pending refl (Serves-IsKeyed before))
    ]
Serves-IsKeyed (polled {q} now account limit before) =
    poll-IsKeyed now account limit q (Serves-IsKeyed before)
Serves-IsKeyed (received {q} r before) = elim (Option-cases (lookup r.command_id q.receipts)) [
  | inr (old, f) ↦ rw (f, receipt) (Serves-IsKeyed before)
  | inl f ↦ elim (Option-cases (lookup r.command_id q.pending)) [
    | inl g ↦ rw (f, g, receipt) (Serves-IsKeyed before)
    | inr (c, g) ↦
        rw (f, g, receipt)
          (insert-IsKeyed r.command_id (reported_on r c) q.pending
            (lookup-IsNamed r.command_id c q.pending (Serves-IsKeyed before).0 g)
            (Serves-IsKeyed before))
  ]
]
