-- ===== src/Strategies/Matching.antt =====
-- The conditions of a strategy on the features of a bar (modules/strategies/signals.py). Features are named
-- by numbers, `news_regime` is 0, and their values are finite and whole numbers of a quantum, which is 1 for
-- `news_regime`. A text that reads as a number is a number here; any other is the name of a feature, or no
-- value at all.
-- `regimes_ask_news` says whether a tag of the regimes asks for news, and `regime_matches` is the test of
-- modules/strategies/pair_profile.py.
use matrades.Common.{
  ℕ, ◌≡◌, ◌↔◌, refl, sym, ◌∙◌, Bool, true, false, not, ◌&&◌, ◌||◌, Option, none, some, List, [],
  ◌∷◌, arith, nat_beq, if◌then◌else◌, any, all, All, nat_eq,
}
use matrades.Common.Int.{ℤ, negsuc, leb_ℤ, ltb_ℤ, beq_ℤ, ◌≤ℤ◌, ◌<ℤ◌, beq_ℤ_iff}
use mathlib.Core.Bool.{true≢false}
use matrades.Common.Dict.{Dict, lookup}

pub data Operator : Type 0 where
  greater greater_or_equal less less_or_equal equal : Operator

pub data Operand : Type 0 where
  number : ℤ → Operand
  name : ℕ → Operand

pub record Condition : Type 0 where
  pub feature : ℕ
  pub operator : Operator
  pub value : Operand

pub record Conditions : Type 0 where
  pub entry : List Condition
  pub confirmations : List Condition
  pub filters : List Condition
  pub exit : List Condition
  pub invalidation : List Condition
  pub regimes_ask_news : Bool

abbrev pub Features : Type 0
Features = Dict ℕ ℤ

abbrev pub news_regime : ℕ
news_regime = 0

abbrev pub operate : Operator → ℤ → ℤ → Bool
operate Operator.greater a b = ltb_ℤ b a
operate Operator.greater_or_equal a b = leb_ℤ b a
operate Operator.less a b = ltb_ℤ a b
operate Operator.less_or_equal a b = leb_ℤ a b
operate Operator.equal a b = beq_ℤ a b

-- `features.get(str(condition.value), condition.value)`, read as a Decimal.
abbrev pub right_of : Operand → Features → Option ℤ
right_of (number v) f = some v
right_of (name n) f = lookup n f

abbrev pub compare_values : Operator → Option ℤ → Option ℤ → Bool
compare_values o (some a) (some b) = operate o a b
compare_values o (some a) none = false
compare_values o none b = false

abbrev pub holds : Features → Condition → Bool
holds f c = compare_values c.operator (lookup c.feature f) (right_of c.value f)

unfoldable pub matches : List Condition → Features → Bool
matches [] f = false
matches (c ∷ cs) f = holds f c && all (holds f) cs

-- `not conditions or matches(conditions, features)`
abbrev pub absent_or_matches : List Condition → Features → Bool
absent_or_matches [] f = true
absent_or_matches (c ∷ cs) f = matches (c ∷ cs) f

abbrev pub names_news : Condition → Bool
names_news c =
    nat_beq c.feature news_regime
    || elim c.value [ number v ↦ false | name n ↦ nat_beq n news_regime ]

unfoldable pub requires_news_context : Conditions → Bool
requires_news_context s =
    s.regimes_ask_news
    || any names_news s.entry
    || any names_news s.confirmations
    || any names_news s.filters
    || any names_news s.invalidation
    || any names_news s.exit

-- `features.get("news_regime", Decimal(-2)) == -2`
abbrev pub news_unknown : Option ℤ → Bool
news_unknown none = true
news_unknown (some v) = beq_ℤ v (negsuc 1)

unfoldable pub entry_matches : (Features → Bool) → Conditions → Features → Bool
unfolding matches requires_news_context
entry_matches regime_matches s f =
    if news_unknown (lookup news_regime f) && requires_news_context s
    then false
    else regime_matches f
      && matches s.entry f
      && absent_or_matches s.confirmations f
      && absent_or_matches s.filters f
      && not (matches s.invalidation f)

-- The relation that an operator asks for.
abbrev pub Relates : Operator → ℤ → ℤ → Type 0
Relates Operator.greater a b = b <ℤ a
Relates Operator.greater_or_equal a b = b ≤ℤ a
Relates Operator.less a b = a <ℤ b
Relates Operator.less_or_equal a b = a ≤ℤ b
Relates Operator.equal a b = a ≡ b

-- A condition whose sides both have values that relate.
abbrev pub Holds : Features → Condition → Type 0
Holds f c =
    (left : ℤ) × (right : ℤ) × (lookup c.feature f ≡ some left)
    × (right_of c.value f ≡ some right)
    × Relates c.operator left right

operate_iff : (o : Operator) (a b : ℤ) → (operate o a b ≡ true) ↔ Relates o a b
operate_iff Operator.greater a b = ground arith
operate_iff Operator.greater_or_equal a b = ground arith
operate_iff Operator.less a b = ground arith
operate_iff Operator.less_or_equal a b = ground arith
operate_iff Operator.equal a b = beq_ℤ_iff a b

holds_iff : (f : Features) (c : Condition) → (holds f c ≡ true) ↔ Holds f c
holds_iff f c = (
  (λ h. both (lookup c.feature f) (right_of c.value f) refl refl h),
  (λ (a, b, p, q, r). rw (p, q) ((operate_iff c.operator a b).1 r)),
)
  where
    both :
        (left right : Option ℤ)
        → lookup c.feature f ≡ left
        → right_of c.value f ≡ right
        → compare_values c.operator left right ≡ true
        → Holds f c
    both (some a) (some b) p q h = (a, b, p, q, (operate_iff c.operator a b).0 h)
    both (some a) none p q h = cc
    both none right p q h = cc

all-holds_iff : (f : Features) (l : List Condition) → (all (holds f) l ≡ true) ↔ All (Holds f) l
all-holds_iff f [] = ((λ h. tt), (λ h. refl))
all-holds_iff f (c ∷ l) = (
  (λ h. ((holds_iff f c).0 (ground arith), (all-holds_iff f l).0 (ground arith))),
  (λ (p, ps). both _ _ ((holds_iff f c).1 p) ((all-holds_iff f l).1 ps)),
)
  where
    both : (a b : Bool) → a ≡ true → b ≡ true → (a && b) ≡ true
    both a b p q = ground arith

-- Conditions that there are, and that all hold.
abbrev pub AllHold : Features → List Condition → Type 0
AllHold f [] = ⊥
AllHold f (c ∷ l) = All (Holds f) (c ∷ l)

matches_iff : (f : Features) (l : List Condition) → (matches l f ≡ true) ↔ AllHold f l
unfolding matches
matches_iff f [] = ((λ h. cc), (λ h. absurd h))
matches_iff f (c ∷ l) = all-holds_iff f (c ∷ l)

absent_or_matches_iff :
    (f : Features) (l : List Condition) → (absent_or_matches l f ≡ true) ↔ All (Holds f) l
unfolding matches
absent_or_matches_iff f [] = ((λ h. tt), (λ h. refl))
absent_or_matches_iff f (c ∷ l) = all-holds_iff f (c ∷ l)

-- What an entry of a strategy asks of a bar.
abbrev pub IsEntry : (Features → Bool) → Conditions → Features → Type 0
IsEntry regime_matches s f =
    (requires_news_context s ≡ true → news_unknown (lookup news_regime f) ≡ false)
    × (regime_matches f ≡ true)
    × AllHold f s.entry
    × All (Holds f) s.confirmations
    × All (Holds f) s.filters
    × ¬ AllHold f s.invalidation

-- A bar is an entry exactly when the news are known if the strategy asks for them, the regime matches,
-- there are entry conditions and all hold, all confirmations and filters hold, and the conditions of
-- invalidation do not all hold or there are none. A condition holds when both sides have a value, a name
-- that is no feature having none, and the values relate.
pub entry_matches_iff :
    (regime_matches : Features → Bool) (s : Conditions) (f : Features)
    → (entry_matches regime_matches s f ≡ true) ↔ IsEntry regime_matches s f
unfolding entry_matches
entry_matches_iff regime_matches s f = (
  (λ h.
      let (news, regime, entry, confirmed, filtered, valid) =
        parts (news_unknown (lookup news_regime f)) (requires_news_context s) (regime_matches f)
          (matches s.entry f) (absent_or_matches s.confirmations f) (absent_or_matches s.filters f)
          (matches s.invalidation f) h in
      (
        news,
        regime,
        (matches_iff f s.entry).0 entry,
        (absent_or_matches_iff f s.confirmations).0 confirmed,
        (absent_or_matches_iff f s.filters).0 filtered,
        λ all_hold. absurd (true≢false (sym ((matches_iff f s.invalidation).1 all_hold) ∙ valid)),
      )),
  (λ (news, regime, entry, confirmed, filtered, valid).
      whole (news_unknown (lookup news_regime f)) (requires_news_context s) (regime_matches f)
        (matches s.entry f) (absent_or_matches s.confirmations f) (absent_or_matches s.filters f)
        (matches s.invalidation f) news regime ((matches_iff f s.entry).1 entry)
        ((absent_or_matches_iff f s.confirmations).1 confirmed)
        ((absent_or_matches_iff f s.filters).1 filtered)
        (λ t. valid ((matches_iff f s.invalidation).0 t))),
)
  where
    parts :
        (u n r e c g v : Bool)
        → (if u && n then false else r && e && c && g && not v) ≡ true
        → (n ≡ true → u ≡ false) × (r ≡ true) × (e ≡ true) × (c ≡ true) × (g ≡ true) × (v ≡ false)
    parts u n r e c g v h = ground arith

    whole :
        (u n r e c g v : Bool)
        → (n ≡ true → u ≡ false)
        → r ≡ true
        → e ≡ true
        → c ≡ true
        → g ≡ true
        → ¬ (v ≡ true)
        → (if u && n then false else r && e && c && g && not v) ≡ true
    whole u n r e c g v h1 h2 h3 h4 h5 h6 = ground arith
