-- ===== src/Strategies/Screening.antt =====
-- The preliminary screen of hypotheses (modules/strategies/screening.py). A hypothesis's id is ordered as
-- its text is, `run` is the backtest of its specification on the holdout, and scores are whole numbers of a
-- quantum.
use matrades.Common.{
  ℕ, ◌<◌, ◌≡◌, refl, subst, inl, inr, Bool, true, false, ◌&&◌, ◌||◌, Option, none, some, List, [],
  ◌∷◌, map, arith, filter, length, ltb, leb, nat_beq, if◌then◌else◌, Bool-cases, some-injective,
  All, All-filter, filter-nil,
}
use matrades.Common.Sort.{sorted_by, IsFirst, All-sorted_by, sorted_by-IsFirst}
use matrades.Common.Int.{ℤ, pos, ◌<ℤ◌, leb_ℤ, ltb_ℤ, beq_ℤ}

pub data ScreenReason : Type 0 where
  zero_trades not_profitable : ScreenReason

-- What the screen reads of a backtest.
pub record Backtested : Type 0 where
  pub trade_count : ℕ
  pub net_profit : ℤ
  pub r : ℤ
  pub gates : List Bool

pub record HypothesisScreenResult : Type 0 where
  pub hypothesis_id : ℕ
  pub eligible : Bool
  pub score : ℤ
  pub reasons : List ScreenReason
  pub trade_count : ℕ
  pub net_profit : ℤ
  pub passed_gates : ℕ

pub record PreliminaryScreen : Type 0 where
  pub selected_hypothesis_id : Option ℕ
  pub results : List HypothesisScreenResult

abbrev pub reasons_of : Backtested → List ScreenReason
reasons_of b =
    if nat_beq b.trade_count 0
    then ScreenReason.zero_trades
      ∷ (if leb_ℤ b.net_profit (pos 0) then ScreenReason.not_profitable ∷ [] else [])
    else if leb_ℤ b.net_profit (pos 0)
    then ScreenReason.not_profitable ∷ []
    else []

-- `not reasons`
abbrev pub no_reasons : List ScreenReason → Bool
no_reasons [] = true
no_reasons (r ∷ rs) = false

abbrev pub screen_one : (ℕ → Backtested) → ℕ → HypothesisScreenResult
screen_one run id =
    let b = run id in
    record {
      hypothesis_id = id;
      eligible = no_reasons (reasons_of b);
      score = b.r;
      reasons = reasons_of b;
      trade_count = b.trade_count;
      net_profit = b.net_profit;
      passed_gates = length (filter (λ g. g) b.gates);
    }

-- `(-passed_gates, -score, hypothesis_id)` in lexicographic order.
abbrev pub key_le : HypothesisScreenResult → HypothesisScreenResult → Bool
key_le a b =
    ltb b.passed_gates a.passed_gates
    || (nat_beq a.passed_gates b.passed_gates
        && (ltb_ℤ b.score a.score
            || (beq_ℤ a.score b.score && leb a.hypothesis_id b.hypothesis_id)))

abbrev pub first_id : List HypothesisScreenResult → Option ℕ
first_id [] = none
first_id (r ∷ rs) = some r.hypothesis_id

unfoldable pub screen_hypotheses : (ℕ → Backtested) → List ℕ → PreliminaryScreen
unfolding sorted_by
screen_hypotheses run hypotheses =
    let results = map (screen_one run) (sorted_by leb hypotheses) in
    record {
      selected_hypothesis_id = first_id (sorted_by key_le (filter (λ r. r.eligible) results));
      results = results;
    }

key_le_trans :
    (a b c : HypothesisScreenResult) → key_le a b ≡ true → key_le b c ≡ true → key_le a c ≡ true
key_le_trans a b c h k = ground arith

key_le_total : (a b : HypothesisScreenResult) → key_le a b ≡ false → key_le b a ≡ true
key_le_total a b h = ground arith

key_le_self : (a : HypothesisScreenResult) → key_le a a ≡ true
key_le_self a = ground arith

filter-All :
    (P : HypothesisScreenResult → Type 0) (test : HypothesisScreenResult → Bool)
    (l : List HypothesisScreenResult)
    → All P l
    → All (λ r. P r × (test r ≡ true)) (filter test l)
filter-All P test [] h = tt
filter-All P test (r ∷ l) (p, h) = elim (Bool-cases (test r)) [
  | inl t ↦ rw t ((p, t), filter-All P test l h)
  | inr t ↦ rw t (filter-All P test l h)
]

screened :
    (run : ℕ → Backtested) (ids : List ℕ)
    → All (λ r. r ≡ screen_one run r.hypothesis_id) (map (screen_one run) ids)
screened run [] = tt
screened run (i ∷ ids) = (refl, screened run ids)

no_reasons-eligible :
    (b : Backtested)
    → no_reasons (reasons_of b) ≡ true
    → (0 < b.trade_count) × (pos 0 <ℤ b.net_profit)
no_reasons-eligible b h = ground arith

-- The screen selects the hypothesis of an eligible result, one with trades and a net profit, that no
-- eligible result comes before in the order of passed gates, score and id. It selects none only when no
-- result is eligible.
pub screen_hypotheses-IsBest :
    (run : ℕ → Backtested) (hypotheses : List ℕ)
    → (let screen = screen_hypotheses run hypotheses in
        ((id : ℕ)
          → screen.selected_hypothesis_id ≡ some id
          → (0 < (run id).trade_count)
            × (pos 0 <ℤ (run id).net_profit)
            × All (λ r. r.eligible ≡ true → key_le (screen_one run id) r ≡ true) screen.results)
        × (screen.selected_hypothesis_id ≡ none → All (λ r. r.eligible ≡ false) screen.results))
unfolding screen_hypotheses
screen_hypotheses-IsBest run hypotheses =
    let results = map (screen_one run) (sorted_by leb hypotheses) in
    let eligible = filter (λ r. r.eligible) results in
    best results (sorted_by key_le eligible)
      (sorted_by-IsFirst key_le key_le_trans key_le_total key_le_self eligible)
      (All-sorted_by key_le _ eligible
        (filter-All _ (λ r. r.eligible) results (screened run (sorted_by leb hypotheses))))
  where
    best :
        (results sorted : List HypothesisScreenResult)
        → IsFirst key_le (filter (λ r. r.eligible) results) sorted
        → All (λ r. (r ≡ screen_one run r.hypothesis_id) × (r.eligible ≡ true)) sorted
        → ((id : ℕ)
            → first_id sorted ≡ some id
            → (0 < (run id).trade_count)
              × (pos 0 <ℤ (run id).net_profit)
              × All (λ r. r.eligible ≡ true → key_le (screen_one run id) r ≡ true) results)
          × (first_id sorted ≡ none → All (λ r. r.eligible ≡ false) results)
    best results [] first each = ((λ id h. cc), (λ h. filter-nil _ results first))
    best results (r ∷ sorted) first ((made, ok_r), each) = (
      (λ id h.
          subst
            (λ i.
              (0 < (run i).trade_count)
              × (pos 0 <ℤ (run i).net_profit)
              × All (λ r. r.eligible ≡ true → key_le (screen_one run i) r ≡ true) results)
            (some-injective h)
            (
              (no_reasons-eligible (run r.hypothesis_id)
                  (subst (λ x. x.eligible ≡ true) made ok_r)).0,
              (no_reasons-eligible (run r.hypothesis_id)
                  (subst (λ x. x.eligible ≡ true) made ok_r)).1,
              subst (λ x. All (λ y. y.eligible ≡ true → key_le x y ≡ true) results) made
                  (All-filter _ _ results first),
            )),
      (λ h. cc),
    )
