-- ===== src/Risk/Exposure.antt =====
-- Exposure by group (modules/risk/exposure.py): every open position, and a candidate, adds its risk to
-- its category, its underlying and its currencies.
use matrades.Common.{
  ℕ, ◌*◌, ◌&&◌, Bool, true, false, Option, none, some, List, [], ◌∷◌, nat_beq, if◌then◌else◌,
}
use matrades.Common.Int.{ℤ, pos, pos_part, neg_part, sub_ℕ, ◌+ℤ◌, ltb_ℤ, beq_ℤ, abs_ℤ}
use matrades.Common.Dict.{Dict, lookup, insert}
use matrades.Common.Result.{Result, ok, err, ◌>>=◌}
use matrades.Domain.{RiskError}
use matrades.Risk.Models.{
  Group, category, underlying, currency, group_eq, OpenPositionRisk, CandidateTrade, Extended,
  finite, infinity,
}

abbrev pub Exposure : Type 0
Exposure = Dict Group Extended

-- `a + b`, where infinity absorbs.
unfoldable pub add_extended : Extended → Extended → Extended
add_extended (finite a) (finite b) = finite (a +ℤ b)
add_extended (finite a) infinity = infinity
add_extended infinity b = infinity

abbrev scale : ℕ → ℤ → ℤ
scale w r = sub_ℕ (w * pos_part r) (w * neg_part r)

-- `abs(weight) * risk`; zero times infinity is an invalid operation.
unfoldable pub weigh : ℤ → Extended → Result RiskError Extended
weigh w (finite r) = ok (finite (scale (abs_ℤ w) r))
weigh w infinity = if nat_beq (abs_ℤ w) 0 then err RiskError.invalid_operation else ok infinity

-- `result.get(group, Decimal("0"))`, and what a `defaultdict(Decimal)` holds.
unfoldable pub exposure_of : Group → Exposure → Extended
exposure_of g result = elim (lookup g result) [ none ↦ finite (pos 0) | some e ↦ e ]

-- `result[group] += risk` on a `defaultdict(Decimal)`.
unfoldable pub add_to : Group → Extended → Exposure → Exposure
unfolding add_extended exposure_of
add_to g risk result = insert g (add_extended (exposure_of g result) risk) result

unfoldable pub add_currencies : Extended → Exposure → Dict ℕ ℤ → Result RiskError Exposure
unfolding add_to weigh
add_currencies risk result [] = ok result
add_currencies risk result ((name, weight) ∷ l) = do
  weighted ← weigh weight risk
  add_currencies risk (add_to (currency name) weighted result) l

-- The three additions for a position or a candidate.
unfoldable pub add_risk : ℕ → Option ℕ → Dict ℕ ℤ → Extended → Exposure → Result RiskError Exposure
unfolding add_currencies
add_risk market_category none currencies risk result =
    add_currencies risk (add_to (category market_category) risk result) currencies
add_risk market_category (some u) currencies risk result =
    add_currencies risk (add_to (underlying u) risk (add_to (category market_category) risk result))
      currencies

-- `position.remaining_loss_to_stop or Decimal("Infinity")`: zero is false, so it gives infinity too.
unfoldable pub position_risk : Option ℤ → Extended
position_risk none = infinity
position_risk (some loss) = if beq_ℤ loss (pos 0) then infinity else finite loss

unfoldable pub add_positions : Exposure → List OpenPositionRisk → Result RiskError Exposure
unfolding add_risk position_risk
add_positions result [] = ok result
add_positions result (p ∷ ps) = do
  next ←
      add_risk p.market_category p.underlying_id p.currency_exposures
        (position_risk p.remaining_loss_to_stop) result
  add_positions next ps

-- Without a candidate.
unfoldable pub position_exposure : List OpenPositionRisk → Result RiskError Exposure
unfolding add_positions
position_exposure positions = add_positions [] positions

-- With a candidate of a known risk.
unfoldable pub aggregate_exposure :
    List OpenPositionRisk → CandidateTrade → ℤ → Result RiskError Exposure
unfolding position_exposure
aggregate_exposure positions c risk = do
  result ← position_exposure positions
  add_risk c.market_category c.underlying_id c.currency_exposures (finite risk) result

-- `exposure > cap`
unfoldable pub exceeds : Extended → ℤ → Bool
exceeds (finite e) cap = ltb_ℤ cap e
exceeds infinity cap = true

abbrev pub is_finite : Extended → Bool
is_finite (finite e) = true
is_finite infinity = false

-- What pydantic checks of the Decimals of a dict.
abbrev pub all_finite : Exposure → Bool
all_finite [] = true
all_finite ((g, e) ∷ result) = is_finite e && all_finite result
