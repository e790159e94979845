-- ===== src/Strategies/Levels/Protective.antt =====
-- The levels of modules/strategies/signals.py protect: the stop is on the losing side of the entry, the
-- targets on the winning side, and all prices are positive.
use native.Mathlib.Nat.{div-mul-le_self, lt-div-mul-add}
use matrades.Common.{
  ℕ, ◌+◌, ◌*◌, ◌/◌, ◌≤◌, ◌<◌, ◌≡◌, subst, inl, inr, false, not, ◌||◌, Option, none, some, List, [],
  ◌∷◌, map, arith, length, any, All, All-zip, nat_beq, Bool-cases,
}
use matrades.Common.Int.{
  ℤ, pos, negsuc, pos_part, ◌+ℤ◌, ◌-ℤ◌, neg_ℤ, ◌≤ℤ◌, ◌<ℤ◌, leb_ℤ, abs_ℤ, int_laws, neg_ℤ_parts,
}
use matrades.Common.Result.{Result, ok, err, ok-injective}
use matrades.Backtest.{Direction}
use matrades.Backtest.Protection.{signed}
use matrades.Strategies.Levels.{
  TradeRules, LevelError, floor_to, ceiling_to, round_stop, round_target, distinct_prices,
  check_levels, raw_stop, raw_target, levels_at, protection_levels,
}

-- What pydantic checks of the rules, and a scale that is one.
abbrev pub IsValidRules : TradeRules → Type 0
IsValidRules rules =
    (0 < rules.scale)
    × (0 < rules.stop_volatility_multiple)
    × All (λ k. 0 < k) rules.take_profit_r_multiples

-- The stop loses, the targets win, and all prices are positive.
abbrev pub IsProtective : Direction → ℤ → ℤ → List ℤ → Type 0
IsProtective d entry stop targets =
    (signed d stop <ℤ signed d entry)
    × All (λ t. (signed d entry <ℤ signed d t) × (pos 0 <ℤ t)) targets
    × (pos 0 <ℤ stop)

floor_to-le : (x : ℤ) (step : ℕ) → 0 < step → floor_to x step ≤ℤ x
unfolding floor_to
floor_to-le (pos n) step h = omega (arith, div-mul-le_self n step)
floor_to-le (negsuc n) step h =
    omega (arith, neg_ℤ_parts (pos ((n + step) / step * step)), lt-div-mul-add {a = n + step} h)

ceiling_to-le : (x : ℤ) (step : ℕ) → 0 < step → x ≤ℤ ceiling_to x step
unfolding ceiling_to
ceiling_to-le x step h =
    omega
      (arith, neg_ℤ_parts x, neg_ℤ_parts (floor_to (neg_ℤ x) step), floor_to-le (neg_ℤ x) step h)

round_stop-le :
    (d : Direction) (x : ℤ) (step : ℕ) → 0 < step → signed d (round_stop d x step) ≤ℤ signed d x
round_stop-le Direction.long x step h = floor_to-le x step h
round_stop-le Direction.short x step h =
    omega (arith, neg_ℤ_parts x, neg_ℤ_parts (ceiling_to x step), ceiling_to-le x step h)

round_target-le :
    (d : Direction) (x : ℤ) (step : ℕ) → 0 < step → signed d x ≤ℤ signed d (round_target d x step)
round_target-le Direction.long x step h = ceiling_to-le x step h
round_target-le Direction.short x step h =
    omega (arith, neg_ℤ_parts x, neg_ℤ_parts (floor_to x step), floor_to-le x step h)

-- The raw stop is below the entry by at least `scale` quanta.
raw_stop-below :
    (rules : TradeRules) (entry : ℤ) (volatility : ℕ)
    → IsValidRules rules
    → 0 < volatility
    → signed rules.direction (raw_stop rules entry volatility) +ℤ pos rules.scale
      ≤ℤ signed rules.direction entry
raw_stop-below rules entry volatility (s, m, ks) v = below rules.direction
  where
    enough : rules.scale ≤ volatility * rules.stop_volatility_multiple * rules.scale
    enough = grind arith

    below :
        (d : Direction)
        → signed d
              (entry -ℤ signed d (pos (volatility * rules.stop_volatility_multiple * rules.scale)))
            +ℤ pos rules.scale
          ≤ℤ signed d entry
    below Direction.long = omega (int_laws, enough)
    below Direction.short = omega (int_laws, enough)

raw_target-above :
    (rules : TradeRules) (entry stop : ℤ) (multiple : ℕ)
    → 0 < rules.scale
    → 0 < multiple
    → signed rules.direction stop +ℤ pos rules.scale ≤ℤ signed rules.direction entry
    → signed rules.direction entry <ℤ signed rules.direction (raw_target rules entry stop multiple)
raw_target-above rules entry stop multiple s k h =
    above rules.direction _ (quotient (abs_ℤ (entry -ℤ stop)) (apart rules.direction h))
  where
    apart :
        (d : Direction)
        → signed d stop +ℤ pos rules.scale ≤ℤ signed d entry
        → rules.scale ≤ abs_ℤ (entry -ℤ stop)
    apart Direction.long far = omega (int_laws, far)
    apart Direction.short far = omega (int_laws, far)

    quotient : (n : ℕ) → rules.scale ≤ n → 0 < n * multiple / rules.scale
    quotient n far = grind (arith, lt-div-mul-add {a = n * multiple} s)

    above : (d : Direction) (n : ℕ) → 0 < n → signed d entry <ℤ signed d (entry +ℤ signed d (pos n))
    above Direction.long n p = omega (int_laws, p)
    above Direction.short n p = omega (int_laws, p)

-- Prices that pass the check are the ones given, and positive.
check_levels-ok :
    (stop : ℤ) (targets : List ℤ) {x : ℤ × List ℤ}
    → check_levels stop targets ≡ ok x
    → ((stop, targets) ≡ x) × (pos 0 <ℤ stop) × All (λ t. pos 0 <ℤ t) targets
check_levels-ok stop targets {x = x} e =
    elim (Bool-cases (
      leb_ℤ stop (pos 0)
      || any (λ t. leb_ℤ t (pos 0)) targets
      || not (nat_beq (length (distinct_prices targets)) (length targets)))) [
        | inl t ↦ absurd (no_levels (rw t at e))
        | inr t ↦ (ok-injective (rw t at e), ground arith, positive targets (ground arith))
      ]
  where
    no_levels :
        ¬ (◌≡◌ {A = Result LevelError (ℤ × List ℤ)} (err LevelError.no_distinct_prices) (ok x))
    no_levels h = cc

    positive : (l : List ℤ) → any (λ t. leb_ℤ t (pos 0)) l ≡ false → All (λ t. pos 0 <ℤ t) l
    positive [] h = tt
    positive (t ∷ l) h = (ground arith, positive l (ground arith))

-- Targets that are each above the entry, of multiples that are positive.
targets-above :
    (d : Direction) (entry : ℤ) (target : ℕ → ℤ) (multiples : List ℕ)
    → ((k : ℕ) → 0 < k → signed d entry <ℤ signed d (target k))
    → All (λ k. 0 < k) multiples
    → All (λ t. signed d entry <ℤ signed d t) (map target multiples)
targets-above d entry target [] each h = tt
targets-above d entry target (k ∷ ks) each (p, h) =
    (each k p, targets-above d entry target ks each h)

IsProtective-check :
    (rules : TradeRules) (entry stop : ℤ) (target : ℕ → ℤ) {x : ℤ × List ℤ}
    → check_levels stop (map target rules.take_profit_r_multiples) ≡ ok x
    → IsValidRules rules
    → signed rules.direction stop +ℤ pos rules.scale ≤ℤ signed rules.direction entry
    → ((k : ℕ) → 0 < k → signed rules.direction entry <ℤ signed rules.direction (target k))
    → IsProtective rules.direction entry x.0 x.1
IsProtective-check rules entry stop target e (s, m, ks) far each =
    let (same, positive, targets) =
      check_levels-ok stop (map target rules.take_profit_r_multiples) e in
    subst (λ x. IsProtective rules.direction entry x.0 x.1) same
      (
        omega (int_laws, far, s),
        All-zip _ _ (map target rules.take_profit_r_multiples)
            (targets-above rules.direction entry target rules.take_profit_r_multiples each ks)
            targets,
        positive,
      )

levels_at-IsProtective :
    (rules : TradeRules) (entry : ℤ) (volatility : ℕ) (tick_size : Option ℤ) {x : ℤ × List ℤ}
    → levels_at rules entry volatility tick_size ≡ ok x
    → IsValidRules rules
    → 0 < volatility
    → IsProtective rules.direction entry x.0 x.1
levels_at-IsProtective rules entry volatility none e valid v =
    let stop = raw_stop rules entry volatility in
    let far = raw_stop-below rules entry volatility valid v in
    IsProtective-check rules entry stop (raw_target rules entry stop) e valid far
      (λ k p. raw_target-above rules entry stop k valid.0 p far)
levels_at-IsProtective rules entry volatility (some tick_size) {x = x} e valid v =
    elim (Bool-cases (leb_ℤ tick_size (pos 0))) [
      | inl t ↦ absurd (no_levels (rw t at e))
      | inr t ↦
          let d = rules.direction in
          let step = pos_part tick_size * rules.scale in
          let positive =
            step_positive (pos_part tick_size) rules.scale (tick_positive tick_size t) valid.0 in
          let stop = round_stop d (raw_stop rules entry volatility) step in
          let far : signed d stop +ℤ pos rules.scale ≤ℤ signed d entry =
            further (signed d stop) (signed d (raw_stop rules entry volatility)) (pos rules.scale)
              (signed d entry) (round_stop-le d (raw_stop rules entry volatility) step positive)
              (raw_stop-below rules entry volatility valid v) in
          IsProtective-check rules entry stop
            (λ k. round_target d (raw_target rules entry stop k) step) (rw t at e) valid far
            (λ k p.
              lt_le (signed d entry) (signed d (raw_target rules entry stop k))
                (signed d (round_target d (raw_target rules entry stop k) step))
                (raw_target-above rules entry stop k valid.0 p far)
                (round_target-le d (raw_target rules entry stop k) step positive))
    ]
  where
    no_levels :
        ¬ (◌≡◌ {A = Result LevelError (ℤ × List ℤ)} (err LevelError.tick_not_positive) (ok x))
    no_levels h = cc

    tick_positive : (t : ℤ) → leb_ℤ t (pos 0) ≡ false → 0 < pos_part t
    tick_positive t h = ground arith

    step_positive : (a b : ℕ) → 0 < a → 0 < b → 0 < a * b
    step_positive a b p q = grind arith

    further : (a b c e : ℤ) → a ≤ℤ b → b +ℤ c ≤ℤ e → a +ℤ c ≤ℤ e
    further a b c e p q = omega (int_laws, p, q)

    lt_le : (a b c : ℤ) → a <ℤ b → b ≤ℤ c → a <ℤ c
    lt_le a b c p q = omega arith

-- Levels of valid rules protect: the stop is on the losing side of the entry, each target on the winning
-- side, for both directions, with a tick or without, and the stop and the targets are positive.
pub protection_levels-IsProtective :
    (rules : TradeRules) (entry volatility : ℤ) (tick_size : Option ℤ) (stop : ℤ) (targets : List ℤ)
    → IsValidRules rules
    → protection_levels rules entry volatility tick_size ≡ ok (stop, targets)
    → IsProtective rules.direction entry stop targets
unfolding protection_levels
protection_levels-IsProtective rules entry volatility tick_size stop targets valid e =
    elim (Bool-cases (leb_ℤ entry (pos 0) || leb_ℤ volatility (pos 0))) [
      | inl t ↦ absurd (no_levels (rw t at e))
      | inr t ↦
          levels_at-IsProtective rules entry (pos_part volatility) tick_size (rw t at e) valid
            (positive entry volatility t)
    ]
  where
    no_levels : ¬ (
        ◌≡◌ {A = Result LevelError (ℤ × List ℤ)} (err LevelError.not_positive) (ok (stop, targets)))
    no_levels h = cc

    positive : (a b : ℤ) → (leb_ℤ a (pos 0) || leb_ℤ b (pos 0)) ≡ false → 0 < pos_part b
    positive a b h = ground arith
