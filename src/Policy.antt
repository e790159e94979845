-- ===== src/Policy.antt =====
-- Policy constraints and the strictest applicable limit of each kind (modules/policy/models.py,
-- modules/policy/effective_limits.py).
pub mod Strictest
use matrades.Common.{
  ℕ, ◌≡◌, ◌↔◌, Bool, true, false, Option, none, some, List, [], ◌∷◌, ◌++◌, arith, Eq, filter,
  if◌then◌else◌, nat_beq,
}
use matrades.Common.Int.{ℤ, ltb_ℤ}
use matrades.Common.Dict.{Dict, lookup, insert}

pub data Enforcement : Type 0 where
  hard soft : Enforcement

pub data ConstraintKind : Type 0 where
  max_risk_per_trade max_daily_loss max_total_drawdown max_portfolio_risk : ConstraintKind
  max_correlated_risk max_concurrent_trades : ConstraintKind

-- A kind's place in the enumeration.
abbrev pub rank : ConstraintKind → ℕ
rank ConstraintKind.max_risk_per_trade = 0
rank ConstraintKind.max_daily_loss = 1
rank ConstraintKind.max_total_drawdown = 2
rank ConstraintKind.max_portfolio_risk = 3
rank ConstraintKind.max_correlated_risk = 4
rank ConstraintKind.max_concurrent_trades = 5

pub kind_iff : (a b : ConstraintKind) → (nat_beq (rank a) (rank b) ≡ true) ↔ (a ≡ b)
kind_iff a b = ground arith

instance abbrev pub kind_eq : Eq ConstraintKind
kind_eq = record { beq = λ a b. nat_beq (rank a) (rank b); beq_iff = kind_iff }

-- `source` is a text, as its character codes.
pub record EffectiveConstraint : Type 0 where
  pub kind : ConstraintKind
  pub value : ℤ
  pub source : List ℕ
  pub source_version : ℕ
  pub enforcement : Enforcement

abbrev pub is_hard : EffectiveConstraint → Bool
is_hard c = elim c.enforcement [ Enforcement.hard ↦ true | Enforcement.soft ↦ false ]

abbrev pub Groups : Type 0
Groups = Dict ConstraintKind (List EffectiveConstraint)

abbrev pub get_group : ConstraintKind → Groups → List EffectiveConstraint
get_group k groups = elim (lookup k groups) [ none ↦ [] | some l ↦ l ]

-- `grouped[kind].append(constraint)` on a `defaultdict(list)`.
unfoldable pub append_to : EffectiveConstraint → Groups → Groups
append_to c groups = insert c.kind (get_group c.kind groups ++ c ∷ []) groups

-- The first loop of `strictest_applicable`.
unfoldable pub group_from : Groups → List EffectiveConstraint → Groups
unfolding append_to
group_from groups [] = groups
group_from groups (c ∷ cs) = group_from (append_to c groups) cs

-- `min(pool, key=value)`: the first of the least, for a pool given as a head and a tail.
unfoldable pub least : EffectiveConstraint → List EffectiveConstraint → EffectiveConstraint
least best [] = best
least best (c ∷ cs) = least (if ltb_ℤ c.value best.value then c else best) cs

-- The minimum of `hard or choices`, from the hard choices and all of them.
unfoldable pub least_of_pool :
    List EffectiveConstraint → List EffectiveConstraint → Option EffectiveConstraint
unfolding least
least_of_pool (c ∷ cs) choices = some (least c cs)
least_of_pool [] (c ∷ cs) = some (least c cs)
least_of_pool [] [] = none

unfoldable pub strictest_of : List EffectiveConstraint → Option EffectiveConstraint
unfolding least_of_pool
strictest_of choices = least_of_pool (filter is_hard choices) choices

-- The second loop: one entry for each group, in the order of the groups. No group is empty.
unfoldable pub pick_each : Groups → Dict ConstraintKind EffectiveConstraint
unfolding strictest_of
pick_each [] = []
pick_each ((k, choices) ∷ groups) = elim (strictest_of choices) [
  | none ↦ pick_each groups
  | some c ↦ (k, c) ∷ pick_each groups
]

unfoldable pub strictest_applicable :
    List EffectiveConstraint → Dict ConstraintKind EffectiveConstraint
unfolding group_from pick_each
strictest_applicable constraints = pick_each (group_from [] constraints)
