-- ===== src/PropFirms.antt =====
-- Rule sets of prop firms (modules/prop_firms/models.py and service.py): the service that keeps, verifies
-- and activates them.
pub mod Guardrails
use matrades.Common.{
  ℕ, ◌≡◌, ◌⊎◌, refl, sym, ap, inl, inr, Bool, true, false, not, ◌&&◌, Option, List, [], ◌∷◌, arith,
  All, nat_beq, nat_beq_iff, if◌then◌else◌, Bool-cases, nat_eq,
}
use matrades.Common.Int.{ℤ}
use matrades.Common.Dict.{Dict, insert}
use matrades.Common.Result.{Result, ok, err, ok-injective}

pub data RuleStatus : Type 0 where
  draft verified active retired : RuleStatus

pub record PropRule : Type 0 where
  pub kind : ℕ
  pub value : ℤ
  pub unit : ℕ
  pub enforcement : ℕ

pub record RuleSet : Type 0 where
  pub id : ℕ
  pub program_id : ℕ
  pub version : ℕ
  pub rules : List PropRule
  pub status : RuleStatus
  pub source_reference : Option ℕ

pub data RuleError : Type 0 where
  empty_ruleset not_verified : RuleError

abbrev pub is_active_status : RuleStatus → Bool
is_active_status RuleStatus.active = true
is_active_status _ = false

abbrev pub is_verified : RuleStatus → Bool
is_verified RuleStatus.verified = true
is_verified _ = false

abbrev pub is_empty : List PropRule → Bool
is_empty [] = true
is_empty (r ∷ rs) = false

unfoldable pub save : RuleSet → Dict ℕ RuleSet → RuleSet × Dict ℕ RuleSet
save item items = (item, insert item.id item items)

unfoldable pub verify : RuleSet → Dict ℕ RuleSet → Result RuleError RuleSet × Dict ℕ RuleSet
verify item items =
    let updated = record item { status = RuleStatus.verified } in
    if is_empty item.rules
    then (err RuleError.empty_ruleset, items)
    else (ok updated, insert item.id updated items)

abbrev pub is_current : ℕ → RuleSet → Bool
is_current program v = nat_beq v.program_id program && is_active_status v.status

-- The loop of `activate`: every active rule set of the program is retired under its key.
unfoldable pub retire_all : ℕ → Dict ℕ RuleSet → Dict ℕ RuleSet
retire_all program [] = []
retire_all program ((k, v) ∷ d) =
    (k, if is_current program v then record v { status = RuleStatus.retired } else v)
    ∷ retire_all program d

unfoldable pub activate : RuleSet → Dict ℕ RuleSet → Result RuleError RuleSet × Dict ℕ RuleSet
activate item items =
    let updated = record item { status = RuleStatus.active } in
    if not (is_verified item.status)
    then (err RuleError.not_verified, items)
    else (ok updated, insert item.id updated (retire_all item.program_id items))

retire_all-none :
    (program : ℕ) (d : Dict ℕ RuleSet)
    → All (λ p. is_current program p.1 ≡ false) (retire_all program d)
unfolding retire_all
retire_all-none program [] = tt
retire_all-none program ((k, v) ∷ d) = elim (Bool-cases (is_current program v)) [
  | inl t ↦ rw t (ground arith, retire_all-none program d)
  | inr t ↦ rw t (t, retire_all-none program d)
]

-- An active rule set of a program stands under one key.
abbrev pub IsOnly : ℕ → ℕ → ℕ × RuleSet → Type 0
IsOnly program key p = (p.0 ≡ key) ⊎ (is_current program p.1 ≡ false)

insert-IsOnly :
    (program key : ℕ) (v : RuleSet) (d : Dict ℕ RuleSet)
    → All (λ p. is_current program p.1 ≡ false) d
    → All (IsOnly program key) (insert key v d)
insert-IsOnly program key v [] h = (inl refl, tt)
insert-IsOnly program key v ((k, w) ∷ d) h = elim (Bool-cases (nat_beq k key)) [
  | inl t ↦ rw t (inl ((nat_beq_iff k key).0 t), rest d h.1)
  | inr t ↦ rw t (inr (h.0), insert-IsOnly program key v d h.1)
]
  where
    rest :
        (e : Dict ℕ RuleSet)
        → All (λ p. is_current program p.1 ≡ false) e
        → All (IsOnly program key) e
    rest [] q = tt
    rest (p ∷ e) q = (inr (q.0), rest e q.1)

-- A rule set is activated only if it was verified, and its program then has no other active rule set:
-- every entry of the service but the one under its identifier is of another program or not active.
pub activate-IsOnly :
    (item r : RuleSet) (items items' : Dict ℕ RuleSet)
    → activate item items ≡ (ok r, items')
    → (item.status ≡ RuleStatus.verified)
      × (r ≡ record item { status = RuleStatus.active })
      × All (IsOnly item.program_id item.id) items'
unfolding activate
activate-IsOnly item r items items' e = elim (Bool-cases (is_verified item.status)) [
  | inr t ↦ absurd (err-ne-ok (ap (λ x. x.0) (rw (t, activate) at e)))
  | inl t ↦
      let p = rw (t, activate) at e in
      rw (← ap (λ x. x.1) p) (
        ground arith,
        sym (ok-injective (ap (λ x. x.0) p)),
        insert-IsOnly item.program_id item.id (record item { status = RuleStatus.active })
            (retire_all item.program_id items) (retire_all-none item.program_id items),
      )
]
  where
    err-ne-ok : {x : RuleError} → ¬ (◌≡◌ {A = Result RuleError RuleSet} (err x) (ok r))
    err-ne-ok h = cc
