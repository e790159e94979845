-- ===== src/Risk/Checks.antt =====
-- The checks of `RiskEngine` (modules/risk/engine.py) on the instrument fields of a candidate and on
-- its specification, and the drawdown limit of one source.
use matrades.Common.{
  ℕ, Bool, false, not, ◌&&◌, ◌||◌, Option, none, some, List, [], ◌∷◌, map, filter, if◌then◌else◌,
  is_none, nat_eq,
}
use matrades.Common.Int.{ℤ, minimum}
use matrades.Common.Text.{contains, lower}
use matrades.Common.Dict.{lookup}
use matrades.Policy.{ConstraintKind, kind_eq, EffectiveConstraint}
use matrades.Risk.Models.{CandidateTrade, Specification, RiskContext, Missing}
use matrades.Risk.Financial.{is_futures}

-- The dated contract and the ticks that a futures candidate needs.
validate_futures : CandidateTrade → Option Missing
validate_futures c =
    if is_none c.identity.futures_contract_id
    then some Missing.futures_contract
    else if is_none c.tick_size || is_none c.tick_value
    then some Missing.futures_ticks
    else none

-- `_validate_typed_candidate`
unfoldable pub validate_typed_candidate : CandidateTrade → Option Missing
unfolding validate_futures
validate_typed_candidate c = elim c.identity.instrument_type [
  | none ↦ none
  | some type ↦
      if is_none c.identity.venue_instrument_id
      then some Missing.venue_instrument
      else if is_none c.identity.specification_version_id
      then some Missing.specification_version
      else if is_none c.identity.quantity_unit
      then some Missing.quantity_unit
      else if is_futures type
      then validate_futures c
      else none
]

-- `current and given and given != current`
cut_differs : Option ℕ → Option ℕ → Bool
cut_differs (some current) (some given) = not (nat_eq.beq given current)
cut_differs _ _ = false

check_specification : RiskContext → Option Specification → Option Missing
unfolding cut_differs
check_specification ctx none = some Missing.effective_specification
check_specification ctx (some s) =
    if not s.is_valid
    then some Missing.stale_specification
    else if cut_differs ctx.current_source_cut_id s.source_cut_id
    then some Missing.source_cut_mismatch
    else none

-- `_validate_specification_authority`
unfoldable pub validate_specification_authority : RiskContext → CandidateTrade → Option Missing
unfolding check_specification
validate_specification_authority ctx c = elim c.identity.specification_version_id [
  | none ↦ some Missing.specification_version
  | some id ↦ check_specification ctx (lookup id ctx.instrument_specifications)
]

-- `min(candidates) if candidates else None`
least_value : List ℤ → Option ℤ
least_value [] = none
least_value (v ∷ vs) = some (minimum v vs)

is_drawdown_of : List ℕ → EffectiveConstraint → Bool
is_drawdown_of fragment item =
    kind_eq.beq item.kind ConstraintKind.max_total_drawdown && contains fragment (lower item.source)

-- `_limit_from_source`
unfoldable pub limit_from_source : RiskContext → List ℕ → Option ℤ
unfolding least_value is_drawdown_of
limit_from_source ctx fragment =
    least_value (map (λ c. c.value) (filter (is_drawdown_of fragment) ctx.constraints))
