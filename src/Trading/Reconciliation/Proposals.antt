-- ===== src/Trading/Reconciliation/Proposals.antt =====
-- Reconciliation of a proposal with the open positions (`reconcile`, modules/trading/reconciliation.py)
-- and the choice of an ambiguous candidate (`resolve`, reconciliation_decisions.py).
use matrades.Common.{
  ℕ, ◌⊎◌, ◌≡◌, refl, sym, inl, inr, Bool, true, false, not, ◌&&◌, ◌||◌, Option, none, some, List,
  [], ◌∷◌, map, filter, any, leb, nat_beq, nat_beq_iff, opt_beq, is_none, if◌then◌else◌, Bool-cases,
  nat_eq,
}
use matrades.Common.Int.{ℤ, ◌-ℤ◌, abs_ℤ}
use matrades.Common.Result.{Result, ok, err, ok-injective}
use matrades.Domain.{InstrumentType}
use matrades.Risk.Models.{Direction}
use matrades.Trading.Models.{direction_beq}
use mathlib.Core.List.{Memᴰ}

-- The typed identity that a proposal and a position are compared by.
pub record Identity : Type 0 where
  pub instrument_type : Option InstrumentType
  pub venue_instrument_id : Option ℕ
  pub futures_contract_id : Option ℕ
  pub specification_version_id : Option ℕ

-- What `reconcile` reads of a `TradeProposal` and of a `BrokerPosition` of packages/broker_sdk.
pub record Proposal : Type 0 where
  pub id : ℕ
  pub instrument : ℕ
  pub direction : Direction
  pub entry : ℤ
  pub approved_size : ℤ
  pub identity : Identity

pub record OpenPosition : Type 0 where
  pub position_id : ℕ
  pub symbol : ℕ
  pub direction : Direction
  pub entry_price : ℤ
  pub volume : ℤ
  pub identity : Identity

pub data MatchState : Type 0 where
  matched ambiguous not_found : MatchState

pub record Reconciliation : Type 0 where
  pub proposal_id : ℕ
  pub state : MatchState
  pub candidate_position_ids : List ℕ
  pub selected_position_id : Option ℕ
  pub identity : Identity

abbrev pub type_number : InstrumentType → ℕ
type_number InstrumentType.spot = 0
type_number InstrumentType.cfd = 1
type_number InstrumentType.futures = 2

abbrev pub same_type : Option InstrumentType → Option InstrumentType → Bool
same_type none none = true
same_type (some a) (some b) = nat_beq (type_number a) (type_number b)
same_type none (some b) = false
same_type (some a) none = false

abbrev pub same_identity : Identity → Identity → Bool
same_identity wanted found =
    is_none wanted.instrument_type
    || (same_type found.instrument_type wanted.instrument_type
        && (opt_beq found.venue_instrument_id wanted.venue_instrument_id
            && (opt_beq found.specification_version_id wanted.specification_version_id
                && opt_beq found.futures_contract_id wanted.futures_contract_id)))

-- The condition of the comprehension, with the tolerances in quanta.
unfoldable pub is_match : ℕ → ℕ → Proposal → OpenPosition → Bool
is_match price_tolerance size_tolerance p item =
    nat_beq item.symbol p.instrument
    && (direction_beq item.direction p.direction
        && (leb (abs_ℤ (item.entry_price -ℤ p.entry)) price_tolerance
            && (leb (abs_ℤ (item.volume -ℤ p.approved_size)) size_tolerance
                && same_identity p.identity item.identity)))

abbrev pub match_state : List OpenPosition → MatchState
match_state [] = MatchState.not_found
match_state (i ∷ []) = MatchState.matched
match_state (i ∷ j ∷ l) = MatchState.ambiguous

abbrev pub selected : List OpenPosition → Option ℕ
selected (i ∷ []) = some i.position_id
selected _ = none

unfoldable pub reconcile : ℕ → ℕ → Proposal → List OpenPosition → Reconciliation
reconcile price_tolerance size_tolerance p positions =
    let matches = filter (is_match price_tolerance size_tolerance p) positions in
    record {
      proposal_id = p.id;
      state = match_state matches;
      candidate_position_ids = map (λ i. i.position_id) matches;
      selected_position_id = selected matches;
      identity = p.identity;
    }

pub data ResolveError : Type 0 where
  not_a_candidate : ResolveError

abbrev pub is_ambiguous : MatchState → Bool
is_ambiguous MatchState.ambiguous = true
is_ambiguous _ = false

unfoldable pub resolve : Reconciliation → ℕ → Result ResolveError Reconciliation
resolve r position_id =
    if not (is_ambiguous r.state) || not (any (λ i. nat_beq i position_id) r.candidate_position_ids)
    then err ResolveError.not_a_candidate
    else ok (record r { state = MatchState.matched; selected_position_id = some position_id })

Memᴰ-any : (n : ℕ) (l : List ℕ) → any (λ i. nat_beq i n) l ≡ true → Memᴰ n l
Memᴰ-any n [] h = cc
Memᴰ-any n (m ∷ l) h = elim (Bool-cases (nat_beq m n)) [
  | inl t ↦ Memᴰ.head (sym ((nat_beq_iff m n).0 t))
  | inr t ↦ Memᴰ.tail (Memᴰ-any n l (rw t at h))
]

-- An ambiguous reconciliation is resolved only by one of the positions that matched the proposal, and
-- only once: what results is matched with it, and every further attempt raises.
pub resolve-candidate :
    (price_tolerance size_tolerance : ℕ) (p : Proposal) (positions : List OpenPosition) (n m : ℕ)
    (r : Reconciliation)
    → resolve (reconcile price_tolerance size_tolerance p positions) n ≡ ok r
    → Memᴰ n
        (map (λ i. i.position_id) (filter (is_match price_tolerance size_tolerance p) positions))
      × (r.state ≡ MatchState.matched)
      × (r.selected_position_id ≡ some n)
      × (resolve r m ≡ err ResolveError.not_a_candidate)
unfolding resolve reconcile
resolve-candidate price_tolerance size_tolerance p positions n m r e =
    go (Bool-cases (is_ambiguous state)) (Bool-cases (any (λ i. nat_beq i n) ids)) e
  where
    matches : List OpenPosition
    matches = filter (is_match price_tolerance size_tolerance p) positions

    state : MatchState
    state = match_state matches

    ids : List ℕ
    ids = map (λ i. i.position_id) matches

    before : Reconciliation
    before = reconcile price_tolerance size_tolerance p positions

    err-ne-ok : {x : ResolveError} → ¬ (◌≡◌ {A = Result ResolveError Reconciliation} (err x) (ok r))
    err-ne-ok h = cc

    go :
        (is_ambiguous state ≡ true) ⊎ (is_ambiguous state ≡ false)
        → (any (λ i. nat_beq i n) ids ≡ true) ⊎ (any (λ i. nat_beq i n) ids ≡ false)
        → resolve before n ≡ ok r
        → Memᴰ n ids
          × (r.state ≡ MatchState.matched)
          × (r.selected_position_id ≡ some n)
          × (resolve r m ≡ err ResolveError.not_a_candidate)
    go (inl s) (inl t) q =
        rw (← ok-injective (rw (resolve, s, t) at q)) (Memᴰ-any n ids t, refl, refl, refl)
    go (inr s) _ q = absurd (err-ne-ok (rw (resolve, s) at q))
    go (inl s) (inr t) q = absurd (err-ne-ok (rw (resolve, s, t) at q))
