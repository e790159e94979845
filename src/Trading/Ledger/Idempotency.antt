-- ===== src/Trading/Ledger/Idempotency.antt =====
-- What the ledger (modules/trading/execution.py) promises of idempotency keys.
use mathlib.Core.Option.{some-injective}
use matrades.Common.{
  ℕ, ◌≡◌, ◌⊎◌, refl, sym, ap, subst, ◌∙◌, inl, inr, true, false, Option, none, some, [], ◌∷◌, arith,
  length, length-append, nat_beq, nat_beq_iff, if◌then◌else◌, Bool-cases, Option-cases, nat_eq,
}
use matrades.Common.Dict.{Dict, lookup, insert, lookup-insert, lookup-insert_self, length-insert}
use matrades.Common.Result.{ok, err, ok-injective}
use matrades.Trading.Models.{value_eq, postcondition_beq, ExecutionCommand}
use matrades.Trading.Ledger.{Ledger, empty_ledger, LedgerError, event_of, added, same_intent, put}

-- Calls of `put` from the empty ledger, each with a fresh command identifier, however they end.
pub data Puts : Ledger → Type 0 where
  no_puts : Puts empty_ledger
  puts :
      {l : Ledger} (c : ExecutionCommand)
      → lookup c.id l.commands ≡ none
      → Puts l
      → Puts (put c l).1

-- What a key is bound to: a stored command that carries it.
pub record IsBound (l : Ledger) (key : ℕ) (id : ℕ) : Type 0 where
  pub command : ExecutionCommand
  pub stored : lookup id l.commands ≡ some command
  pub named : command.id ≡ id
  pub keyed : command.idempotency_key ≡ key

IsBound-added :
    (l : Ledger) (c : ExecutionCommand) (key id : ℕ)
    → lookup c.id l.commands ≡ none
    → IsBound l key id
    → IsBound (added c l) key id
unfolding added
IsBound-added l c key id fresh b = record {
  command = b.command;
  stored = lookup-insert c.id id c l.commands ∙ go (Bool-cases (nat_beq c.id id));
  named = b.named;
  keyed = b.keyed;
}
  where
    none-ne-some : {x : ExecutionCommand} → ¬ (none ≡ some x)
    none-ne-some h = cc

    go :
        (nat_beq c.id id ≡ true) ⊎ (nat_beq c.id id ≡ false)
        → (if nat_beq c.id id then some c else lookup id l.commands) ≡ some b.command
    go (inl t) =
        let same = (nat_beq_iff c.id id).0 t in
        absurd (none-ne-some (sym fresh ∙ (ap (λ n. lookup n l.commands) same ∙ b.stored)))
    go (inr t) = rw t (b.stored)

added-IsBound :
    (l : Ledger) (c : ExecutionCommand) (key id : ℕ)
    → lookup c.id l.commands ≡ none
    → (lookup key l.by_idempotency ≡ some id → IsBound l key id)
    → lookup key (added c l).by_idempotency ≡ some id
    → IsBound (added c l) key id
unfolding added
added-IsBound l c key id fresh before e =
    go (Bool-cases (nat_beq c.idempotency_key key))
      (sym (lookup-insert c.idempotency_key key c.id l.by_idempotency) ∙ e)
  where
    go :
        (nat_beq c.idempotency_key key ≡ true) ⊎ (nat_beq c.idempotency_key key ≡ false)
        → (if nat_beq c.idempotency_key key then some c.id else lookup key l.by_idempotency)
          ≡ some id
        → IsBound (added c l) key id
    go (inl t) h =
        let same : c.id ≡ id = some-injective _ _ (rw t at h) in
        record {
          command = c;
          stored =
              subst (λ n. lookup n (insert c.id c l.commands) ≡ some c) same
                (lookup-insert_self c.id c l.commands);
          named = same;
          keyed = (nat_beq_iff c.idempotency_key key).0 t;
        }
    go (inr t) h = IsBound-added l c key id fresh (before (rw t at h))

-- In every ledger that calls of `put` with fresh command identifiers have made, a key that is bound
-- is bound to a stored command of that key.
pub Puts-IsBound :
    {l : Ledger} (key id : ℕ) → Puts l → lookup key l.by_idempotency ≡ some id → IsBound l key id
unfolding put
Puts-IsBound key id no_puts e = cc
Puts-IsBound key id (puts {l} c fresh before) e =
    elim (Option-cases (lookup c.idempotency_key l.by_idempotency)) [
      | inr (old, f) ↦ rw (f, put) (Puts-IsBound key id before (rw (f, put) at e))
      | inl f ↦
          rw (f, put)
            (added-IsBound l c key id fresh (Puts-IsBound key id before) (rw (f, put) at e))
    ]

-- In every ledger that calls of `put` with fresh command identifiers have made, there are as many
-- events in the outbox, and as many commands, as bound keys.
pub Puts-one_event :
    {l : Ledger}
    → Puts l
    → (length l.outbox ≡ length l.by_idempotency) × (length l.commands ≡ length l.by_idempotency)
unfolding put added
Puts-one_event no_puts = (refl, refl)
Puts-one_event (puts {l} c fresh before) =
    elim (Option-cases (lookup c.idempotency_key l.by_idempotency)) [
      | inr (old, f) ↦ rw (f, put) (Puts-one_event before)
      | inl f ↦
          let (events, commands) = Puts-one_event before in
          rw (f, put)
            (omega (
              arith,
              events,
              commands,
              length-append l.outbox (event_of c ∷ []),
              length-insert c.id c l.commands fresh,
              length-insert c.idempotency_key c.id l.by_idempotency f,
            ))
    ]

put-bound :
    (c : ExecutionCommand) (l l' : Ledger) (d : ExecutionCommand)
    → put c l ≡ (ok d, l')
    → (id : ℕ) × (lookup c.idempotency_key l'.by_idempotency ≡ some id)
      × (lookup id l'.commands ≡ some d)
unfolding put added
put-bound c l l' d e = elim (Option-cases (lookup c.idempotency_key l.by_idempotency)) [
  | inl f ↦
      let p : (ok c, added c l) ≡ (ok d, l') = rw (f, put) at e in
      let same : c ≡ d = ok-injective (ap (λ x. x.0) p) in
      rw (← ap (λ x. x.1) p, ← same)
        (
          c.id,
          lookup-insert_self c.idempotency_key c.id l.by_idempotency,
          lookup-insert_self c.id c l.commands,
        )
  | inr (old, f) ↦
      let p : (same_intent c (lookup old l.commands), l) ≡ (ok d, l') = rw (f, put) at e in
      rw (← ap (λ x. x.1) p) (old, f, intent-found (lookup old l.commands) (ap (λ x. x.0) p))
]
  where
    intent-found : (o : Option ExecutionCommand) → same_intent c o ≡ ok d → o ≡ some d
    intent-found o h = ground arith

-- Later calls of `put`, however they end. A command that is put under a new key has a fresh identifier.
pub data Later (l : Ledger) : Ledger → Type 0 where
  at_once : Later l l
  later :
      {l' : Ledger} (c : ExecutionCommand)
      → (lookup c.idempotency_key l'.by_idempotency ≡ none → lookup c.id l'.commands ≡ none)
      → Later l l'
      → Later l (put c l').1

-- A key that is bound to a stored command.
abbrev Binds : ℕ → ℕ → ExecutionCommand → Ledger → Type 0
Binds key id d l = (lookup key l.by_idempotency ≡ some id) × (lookup id l.commands ≡ some d)

module _ {ℓ} {V : Type ℓ} where
  -- A new key leaves what other keys have.
  lookup-insert_other :
      (k j : ℕ) (v u : V) (d : Dict ℕ V)
      → lookup k d ≡ none
      → lookup j d ≡ some u
      → lookup j (insert k v d) ≡ some u
  lookup-insert_other k j v u d fresh bound = lookup-insert k j v d ∙ go (Bool-cases (nat_beq k j))
    where
      none-ne-some : ¬ (none ≡ some u)
      none-ne-some h = cc

      go :
          (nat_beq k j ≡ true) ⊎ (nat_beq k j ≡ false)
          → (if nat_beq k j then some v else lookup j d) ≡ some u
      go (inl t) =
          let same = (nat_beq_iff k j).0 t in
          absurd (none-ne-some (sym fresh ∙ (ap (λ n. lookup n d) same ∙ bound)))
      go (inr t) = rw t bound

put-Binds :
    (c d : ExecutionCommand) (key id : ℕ) (l : Ledger)
    → (lookup c.idempotency_key l.by_idempotency ≡ none → lookup c.id l.commands ≡ none)
    → Binds key id d l
    → Binds key id d (put c l).1
unfolding put added
put-Binds c d key id l fresh (bound, stored) =
    elim (Option-cases (lookup c.idempotency_key l.by_idempotency)) [
      | inr (old, f) ↦ rw (f, put) (bound, stored)
      | inl f ↦
          rw (f, put)
            (
              lookup-insert_other c.idempotency_key key c.id id l.by_idempotency f bound,
              lookup-insert_other c.id id c d l.commands (fresh f) stored,
            )
    ]

Later-Binds :
    (d : ExecutionCommand) (key id : ℕ) {l l' : Ledger}
    → Later l l'
    → Binds key id d l
    → Binds key id d l'
Later-Binds d key id at_once b = b
Later-Binds d key id (later {l'} c fresh before) b =
    put-Binds c d key id l' fresh (Later-Binds d key id before b)

-- A key means one intent: after a call of `put` that returned a command, and any later calls of `put`
-- where a command under a new key has a fresh identifier, a call with that key leaves the ledger as it
-- is, and returns that command if it asks for the same postcondition and raises the conflict if not.
pub put-again :
    (c c' : ExecutionCommand) (l l' l'' : Ledger) (d : ExecutionCommand)
    → put c l ≡ (ok d, l')
    → Later l' l''
    → c'.idempotency_key ≡ c.idempotency_key
    → put c' l'' ≡ (
      if postcondition_beq d.requested_postcondition c'.requested_postcondition
          then ok d
          else err LedgerError.conflict,
      l'',
    )
unfolding put
put-again c c' l l' l'' d e after k =
    let (id, bound, stored) = put-bound c l l' d e in
    let (bound2, stored2) = Later-Binds d c.idempotency_key id after (bound, stored) in
    let bound' : lookup c'.idempotency_key l''.by_idempotency ≡ some id = rw k bound2 in
    rw (bound', put, stored2)
      (elim (Bool-cases (postcondition_beq d.requested_postcondition c'.requested_postcondition)) [
        | inl t ↦ rw t refl
        | inr t ↦ rw t refl
      ])
