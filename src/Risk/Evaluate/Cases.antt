-- ===== src/Risk/Evaluate/Cases.antt =====
-- How an evaluation can end: blocked before any size is computed, or with a report on the size that
-- the capacities allow (modules/risk/engine.py).
use matrades.Common.{
  arith, Bool, true, false, not, ◌&&◌, ℕ, ◌≡◌, refl, sym, ap, ◌⊎◌, inl, inr, Option, none, some,
  List, [], ◌∷◌,
}
use matrades.Common.Int.{pos, ◌+ℤ◌, sum_from}
use matrades.Common.Result.{Result, ok, ◌>>=◌, >>=-eq-ok, ok-injective, raise_if-passed}
use matrades.Domain.{InstrumentType, RiskError}
use matrades.Risk.Models.{
  CandidateTrade, RiskContext, RiskDecision, Reason, Missing, Limiting, RiskResult,
}
use matrades.Risk.Financial.{type_aware_loss_per_unit, reserved_risk}
use matrades.Risk.Exposure.{Exposure, position_exposure, all_finite}
use matrades.Risk.Checks.{validate_typed_candidate, validate_specification_authority}
use matrades.Risk.Engine.{
  Limits, Required, Room, required_limits, nothing_left, blocked, missing_authority,
}
use matrades.Risk.Evaluate.{
  unbounded_room, evaluate_existing, evaluate_limits, evaluate_settled, evaluate_typed, evaluate,
}

-- Nothing is approved.
pub record IsBlocked (r : RiskResult) : Type 0 where
  pub decision : r.decision ≡ RiskDecision.hard_block
  pub size : r.approved_size ≡ 0
  pub risk : r.snapshot.candidate_trade_risk ≡ 0
  pub capacity : r.snapshot.additional_trade_capacity ≡ 0

-- The exposure of the open positions is computed, and all of it is finite.
abbrev pub IsExposed : RiskContext → Type 0
IsExposed ctx =
    (base : Exposure) × (position_exposure ctx.positions ≡ ok base) × (all_finite base ≡ true)

-- The loss for one unit that an evaluation uses: the candidate's own, or that of its typed terms.
abbrev pub rate_of : Option InstrumentType → CandidateTrade → Result RiskError ℕ
rate_of none c = ok c.risk_per_unit
rate_of (some type) c =
    type_aware_loss_per_unit type (pos c.entry_price) (pos c.stop_loss) c.contract_multiplier
      c.tick_size c.tick_value (pos 1)

blocked-IsBlocked :
    (ctx : RiskContext) (room : Room) (reason : Reason) (limiting : List Limiting) (r : RiskResult)
    → blocked ctx room reason limiting ≡ ok r
    → IsBlocked r × IsExposed ctx
unfolding blocked
blocked-IsBlocked ctx room reason limiting r e =
    let (base, p, q) = >>=-eq-ok (position_exposure ctx.positions) _ e in
    let (checked, built) = raise_if-passed _ _ _ q in
    let s = ok-injective built in
    (
      record {
        decision = sym (ap (λ x. x.decision) s);
        size = sym (ap (λ x. x.approved_size) s);
        risk = sym (ap (λ x. x.snapshot.candidate_trade_risk) s);
        capacity = sym (ap (λ x. x.snapshot.additional_trade_capacity) s);
      },
      (base, p, second-finite _ _ checked),
    )
  where
    second-finite : (a b : Bool) → not (a && b) ≡ false → b ≡ true
    second-finite a b h = ground arith

missing_authority-IsBlocked :
    (ctx : RiskContext) (ms : List Missing) (r : RiskResult)
    → missing_authority ctx ms ≡ ok r
    → IsBlocked r × IsExposed ctx
unfolding missing_authority
missing_authority-IsBlocked ctx ms r e = blocked-IsBlocked ctx (nothing_left ctx) _ _ r e

-- An evaluation that reached the capacities: with some loss for one unit, all required limits, and a
-- stop on every open position.
pub record IsSized (ctx : RiskContext) (c : CandidateTrade) (r : RiskResult) : Type 0 where
  pub rate : ℕ
  pub rated : rate_of c.identity.instrument_type c ≡ ok rate
  pub limits : Limits
  pub reserved : ℕ
  pub required : required_limits ctx ≡ Required.complete limits
  pub bounded : reserved_risk ctx.positions ctx.include_unrealized_profit ≡ some reserved
  pub reported :
      evaluate_existing ctx
        (record c { risk_per_unit = rate })
        limits
        (pos reserved +ℤ sum_from (pos 0) ctx.active_reservations)
      ≡ ok r

module _ (ctx : RiskContext) (c : CandidateTrade) (r : RiskResult) where
  abbrev Ends : Type 0
  Ends = (IsBlocked r × IsExposed ctx) ⊎ IsSized ctx c r

  limits-cases :
      (rate : ℕ) (limits : Limits)
      → rate_of c.identity.instrument_type c ≡ ok rate
      → required_limits ctx ≡ Required.complete limits
      → evaluate_limits ctx (record c { risk_per_unit = rate }) limits ≡ ok r
      → Ends
  unfolding evaluate_limits
  limits-cases rate limits rated required e =
      go (reserved_risk ctx.positions ctx.include_unrealized_profit) refl e
    where
      go :
          (o : Option ℕ)
          → reserved_risk ctx.positions ctx.include_unrealized_profit ≡ o
          → elim o as (λ _. Result RiskError RiskResult) [
            | none ↦
                blocked ctx
                  (unbounded_room ctx limits)
                  Reason.unbounded_position
                  (Limiting.unbounded_open_position ∷ [])
            | some reserved ↦
                evaluate_existing ctx
                  (record c { risk_per_unit = rate })
                  limits
                  (pos reserved +ℤ sum_from (pos 0) ctx.active_reservations)
          ]
            ≡ ok r
          → Ends
      go none b e = inl (blocked-IsBlocked ctx (unbounded_room ctx limits) _ _ r e)
      go (some n) b e = inr (record {
        rate = rate;
        rated = rated;
        limits = limits;
        reserved = n;
        required = required;
        bounded = b;
        reported = e;
      })

  settled-cases :
      (rate : ℕ)
      → rate_of c.identity.instrument_type c ≡ ok rate
      → evaluate_settled ctx (record c { risk_per_unit = rate }) ≡ ok r
      → Ends
  unfolding evaluate_settled
  settled-cases rate rated e = go (required_limits ctx) refl e
    where
      go :
          (q : Required)
          → required_limits ctx ≡ q
          → elim q as (λ _. Result RiskError RiskResult) [
            | Required.complete limits ↦
                evaluate_limits ctx (record c { risk_per_unit = rate }) limits
            | Required.lacking ms ↦ missing_authority ctx ms
          ]
            ≡ ok r
          → Ends
      go (Required.complete limits) b e = limits-cases rate limits rated b e
      go (Required.lacking ms) b e = inl (missing_authority-IsBlocked ctx ms r e)

  specified-cases :
      (type : InstrumentType) (o : Option Missing)
      → c.identity.instrument_type ≡ some type
      → elim o as (λ _. Result RiskError RiskResult) [
        | some m ↦ missing_authority ctx (m ∷ [])
        | none ↦
            type_aware_loss_per_unit type
              (pos c.entry_price)
              (pos c.stop_loss)
              c.contract_multiplier
              c.tick_size
              c.tick_value
              (pos 1)
            >>= λ rate. evaluate_settled ctx (record c { risk_per_unit = rate })
      ]
        ≡ ok r
      → Ends
  specified-cases type (some m) known e = inl (missing_authority-IsBlocked ctx (m ∷ []) r e)
  specified-cases type none known e =
      let (rate, p, q) =
        >>=-eq-ok
          (type_aware_loss_per_unit type (pos c.entry_price) (pos c.stop_loss) c.contract_multiplier
            c.tick_size c.tick_value (pos 1))
          _ e in
      settled-cases rate (rw known p) q

  typed-cases : evaluate_typed ctx c ≡ ok r → Ends
  unfolding evaluate_typed
  typed-cases e = go c.identity.instrument_type refl e
    where
      go :
          (o : Option InstrumentType)
          → c.identity.instrument_type ≡ o
          → elim o as (λ _. Result RiskError RiskResult) [
            | none ↦ evaluate_settled ctx c
            | some type ↦ elim (validate_specification_authority ctx c) [
              | some m ↦ missing_authority ctx (m ∷ [])
              | none ↦
                  type_aware_loss_per_unit type
                    (pos c.entry_price)
                    (pos c.stop_loss)
                    c.contract_multiplier
                    c.tick_size
                    c.tick_value
                    (pos 1)
                  >>= λ rate. evaluate_settled ctx (record c { risk_per_unit = rate })
            ]
          ]
            ≡ ok r
          → Ends
      go none known e = settled-cases c.risk_per_unit (rw known refl) e
      go (some type) known e = specified-cases type (validate_specification_authority ctx c) known e

  pub evaluate-ends : evaluate ctx c ≡ ok r → (IsBlocked r × IsExposed ctx) ⊎ IsSized ctx c r
  unfolding evaluate
  evaluate-ends e = go (validate_typed_candidate c) e
    where
      go :
          (o : Option Missing)
          → elim o as (λ _. Result RiskError RiskResult) [
            | some m ↦ missing_authority ctx (m ∷ [])
            | none ↦ evaluate_typed ctx c
          ]
            ≡ ok r
          → Ends
      go (some m) e = inl (missing_authority-IsBlocked ctx (m ∷ []) r e)
      go none e = typed-cases e

  pub evaluate-cases : evaluate ctx c ≡ ok r → IsBlocked r ⊎ IsSized ctx c r
  evaluate-cases e = elim (evaluate-ends e) [ inl (b, exposed) ↦ inl b | inr s ↦ inr s ]
