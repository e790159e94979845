-- ===== src/Risk/Evaluate/Breakeven.antt =====
-- An open position without a stop, or whose stop stands at its entry, has infinite exposure
-- (modules/risk/exposure.py). The snapshot of a result refuses a Decimal that is not finite, so that no
-- evaluation returns (modules/risk/engine.py).
use mathlib.Core.List.{Memᴰ}
use mathlib.Core.Bool.{false≢true}
use matrades.Common.{
  ℕ, ◌≡◌, refl, sym, ap, subst, ◌∙◌, ◌⊎◌, inl, inr, Option, none, some, List, [], ◌∷◌, arith, Bool,
  false, ◌&&◌, Bool-cases, some-injective,
}
use matrades.Common.Int.{ℤ, pos}
use matrades.Common.Dict.{Dict, lookup, lookup-insert, lookup-insert_self}
use matrades.Common.Result.{Result, ok, err, >>=-eq-ok, ok-injective}
use matrades.Domain.{RiskError}
use matrades.Risk.Models.{
  Group, category, underlying, currency, group_eq, OpenPositionRisk, CandidateTrade, RiskContext,
  RiskResult, Extended, finite, infinity,
}
use matrades.Risk.Exposure.{
  Exposure, add_extended, add_to, add_currencies, add_risk, weigh, position_risk, add_positions,
  position_exposure, exposure_of, is_finite, all_finite,
}
use matrades.Risk.Evaluate.{evaluate}
use matrades.Risk.Evaluate.Cases.{IsExposed, evaluate-ends}
use matrades.Risk.Evaluate.Bounds.{evaluate_existing-IsExposed}

abbrev IsInfinite : Group → Exposure → Type 0
IsInfinite g result = lookup g result ≡ some infinity

absorb : (e : Extended) → add_extended e infinity ≡ infinity
unfolding add_extended
absorb (finite a) = refl
absorb infinity = refl

exposure_of-IsInfinite :
    (g : Group) (result : Exposure) → IsInfinite g result → exposure_of g result ≡ infinity
unfolding exposure_of
exposure_of-IsInfinite g result e = rw (e, exposure_of)

add_to-IsInfinite :
    (g h : Group) (risk : Extended) (result : Exposure)
    → IsInfinite g result
    → IsInfinite g (add_to h risk result)
unfolding add_to add_extended
add_to-IsInfinite g h risk result e =
    rw (lookup-insert h g (add_extended (exposure_of h result) risk) result)
      (elim (Bool-cases (group_eq.beq h g)) [
        | inl t ↦ rw (t, (group_eq.beq_iff h g).0 t, exposure_of-IsInfinite g result e)
        | inr t ↦ rw t e
      ])

add_to-infinity : (g : Group) (result : Exposure) → IsInfinite g (add_to g infinity result)
unfolding add_to
add_to-infinity g result = rw (absorb (exposure_of g result)) (lookup-insert_self g infinity result)

add_currencies-IsInfinite :
    (g : Group) (risk : Extended) (result : Exposure) (l : Dict ℕ ℤ) (out : Exposure)
    → IsInfinite g result
    → add_currencies risk result l ≡ ok out
    → IsInfinite g out
unfolding add_currencies
add_currencies-IsInfinite g risk result [] out h e = subst (IsInfinite g) (ok-injective e) h
add_currencies-IsInfinite g risk result ((name, weight) ∷ l) out h e =
    let (weighted, p, q) = >>=-eq-ok (weigh weight risk) _ e in
    add_currencies-IsInfinite g risk (add_to (currency name) weighted result) l out
      (add_to-IsInfinite g (currency name) weighted result h) q

add_risk-IsInfinite :
    (g : Group) (cat : ℕ) (u : Option ℕ) (l : Dict ℕ ℤ) (risk : Extended) (result out : Exposure)
    → IsInfinite g (add_to (category cat) risk result)
    → add_risk cat u l risk result ≡ ok out
    → IsInfinite g out
unfolding add_risk
add_risk-IsInfinite g cat none l risk result out h e = add_currencies-IsInfinite g risk _ l out h e
add_risk-IsInfinite g cat (some u) l risk result out h e =
    add_currencies-IsInfinite g risk _ l out (add_to-IsInfinite g (underlying u) risk _ h) e

add_positions-IsInfinite :
    (g : Group) (result : Exposure) (ps : List OpenPositionRisk) (out : Exposure)
    → IsInfinite g result
    → add_positions result ps ≡ ok out
    → IsInfinite g out
unfolding add_positions
add_positions-IsInfinite g result [] out h e = subst (IsInfinite g) (ok-injective e) h
add_positions-IsInfinite g result (p ∷ ps) out h e =
    let (next, a, b) =
      >>=-eq-ok
        (add_risk p.market_category p.underlying_id p.currency_exposures
          (position_risk p.remaining_loss_to_stop) result)
        _ e in
    add_positions-IsInfinite g next ps out
      (add_risk-IsInfinite g p.market_category p.underlying_id p.currency_exposures _ result next
        (add_to-IsInfinite g (category p.market_category) _ result h) a)
      b

-- A missing stop, and a remaining loss of zero.
position_risk-infinity :
    (o : Option ℤ) → (o ≡ none) ⊎ (o ≡ some (pos 0)) → position_risk o ≡ infinity
unfolding position_risk
position_risk-infinity o (inl e) = rw e refl
position_risk-infinity o (inr e) = rw e refl

unlimited_head :
    (result : Exposure) (q : OpenPositionRisk) (ps : List OpenPositionRisk) (out : Exposure)
    → position_risk q.remaining_loss_to_stop ≡ infinity
    → add_positions result (q ∷ ps) ≡ ok out
    → IsInfinite (category q.market_category) out
unfolding add_positions
unlimited_head result q ps out h e =
    let (next, a, b) =
      >>=-eq-ok
        (add_risk q.market_category q.underlying_id q.currency_exposures
          (position_risk q.remaining_loss_to_stop) result)
        _ e in
    add_positions-IsInfinite (category q.market_category) next ps out
      (add_risk-IsInfinite (category q.market_category) q.market_category q.underlying_id
        q.currency_exposures infinity result next
        (add_to-infinity (category q.market_category) result) (rw h at a))
      b

unlimited-IsInfinite :
    (result : Exposure) (p : OpenPositionRisk) (ps : List OpenPositionRisk) (out : Exposure)
    → Memᴰ p ps
    → position_risk p.remaining_loss_to_stop ≡ infinity
    → add_positions result ps ≡ ok out
    → IsInfinite (category p.market_category) out
unfolding add_positions
unlimited-IsInfinite result p [] out m h e = elim m [ ]
unlimited-IsInfinite result p (q ∷ ps) out (Memᴰ.head s) h e =
    subst (λ x. IsInfinite (category x.market_category) out) (sym s)
      (unlimited_head result q ps out (sym (ap (λ x. position_risk x.remaining_loss_to_stop) s) ∙ h)
        e)
unlimited-IsInfinite result p (q ∷ ps) out (Memᴰ.tail m) h e =
    let (next, a, b) =
      >>=-eq-ok
        (add_risk q.market_category q.underlying_id q.currency_exposures
          (position_risk q.remaining_loss_to_stop) result)
        _ e in
    unlimited-IsInfinite next p ps out m h b

-- An infinite group is not finite.
IsInfinite-all_finite :
    (g : Group) (result : Exposure) → IsInfinite g result → all_finite result ≡ false
IsInfinite-all_finite g [] h = cc
IsInfinite-all_finite g ((j, e) ∷ result) h = elim (Bool-cases (group_eq.beq j g)) [
  | inl t ↦ rw (some-injective (rw t at h)) refl
  | inr t ↦ rw (IsInfinite-all_finite g result (rw t at h)) (and-false (is_finite e))
]
  where
    and-false : (b : Bool) → (b && false) ≡ false
    and-false b = ground arith

-- Every result of an evaluation has a finite exposure.
evaluate-IsExposed :
    (ctx : RiskContext) (c : CandidateTrade) (r : RiskResult)
    → evaluate ctx c ≡ ok r
    → IsExposed ctx
evaluate-IsExposed ctx c r e = elim (evaluate-ends ctx c r e) [
  | inl (b, exposed) ↦ exposed
  | inr s ↦
      evaluate_existing-IsExposed ctx (record c { risk_per_unit = s.rate }) s.limits _ r s.reported
]

-- Where an open position has no stop, or a stop with nothing left to lose, an evaluation of any
-- candidate raises: on every path the snapshot would hold an infinite exposure.
pub evaluate-raises :
    (ctx : RiskContext) (c : CandidateTrade) (p : OpenPositionRisk)
    → Memᴰ p ctx.positions
    → (p.remaining_loss_to_stop ≡ none) ⊎ (p.remaining_loss_to_stop ≡ some (pos 0))
    → (error : RiskError) × (evaluate ctx c ≡ err error)
unfolding position_exposure
evaluate-raises ctx c p m h = raises (evaluate ctx c) refl
  where
    never : (r : RiskResult) → ¬ (evaluate ctx c ≡ ok r)
    never r e =
        let (base, exposed, all) = evaluate-IsExposed ctx c r e in
        false≢true (
          sym (
            IsInfinite-all_finite (category p.market_category) base
              (unlimited-IsInfinite [] p ctx.positions base m (position_risk-infinity _ h) exposed))
          ∙ all)

    raises :
        (result : Result RiskError RiskResult)
        → evaluate ctx c ≡ result
        → (error : RiskError) × (evaluate ctx c ≡ err error)
    raises (ok r) e = absurd (never r e)
    raises (err x) e = (x, e)
