-- ===== src/Trading/Ticket.antt =====
-- The pre-trade ticket (modules/trading/ticket.py). A fraction is a whole number of 1 / `unit`, and
-- `one_rate` is the conversion rate `Decimal("1")` in the quantum of rates.
use matrades.Common.{
  ℕ, ◌*◌, ◌<◌, ◌≡◌, refl, sym, ap, subst, inl, inr, Bool, true, false, not, ◌||◌, Option, none,
  some, List, [], ◌∷◌, arith, length, any, All, leb, nat_beq, if◌then◌else◌, Bool-cases,
}
use matrades.Common.Int.{ℤ, pos, ◌<ℤ◌, leb_ℤ, ltb_ℤ}
use matrades.Common.Result.{
  Result, ok, err, raise_if, ◌>>◌, ◌>>=◌, raise_if-passed, >>=-eq-ok, ok-injective,
}
use matrades.Domain.{InstrumentType, RiskError}
use matrades.Risk.Models.{Direction, RiskDecision, RiskResult}
use matrades.Risk.Financial.{type_aware_loss_per_unit}
use matrades.Risk.Terms.{LiveTradeTerms, TermsError, validate_size, IsTradable, validate_size_iff}

pub record TargetScenario : Type 0 where
  pub price : ℤ
  pub profit_before_costs : ℕ
  pub research_fraction : Option ℤ
  pub broker_hard_take_profit : Bool

pub record TradeTicket : Type 0 where
  pub account_currency : ℕ
  pub requested_risk_limit : ℤ
  pub potential_loss_before_costs : ℕ
  pub targets : List TargetScenario

-- `invalid_ticket` is pydantic's `ValidationError`.
pub data TicketError : Type 0 where
  blocked_trade stop_side targets_incomplete target_side invalid_fraction invalid_ticket :
      TicketError
  terms_refused : TermsError → TicketError
  no_loss : RiskError → TicketError

abbrev pub is_hard_block : RiskDecision → Bool
is_hard_block RiskDecision.hard_block = true
is_hard_block RiskDecision.pass = false
is_hard_block RiskDecision.reduce_size = false

abbrev pub stop_is_wrong : Direction → ℤ → ℤ → Bool
stop_is_wrong Direction.buy entry stop = leb_ℤ entry stop
stop_is_wrong Direction.sell entry stop = leb_ℤ stop entry

abbrev pub target_is_wrong : Direction → ℤ → ℤ → Bool
target_is_wrong Direction.buy entry price = leb_ℤ price entry
target_is_wrong Direction.sell entry price = leb_ℤ entry price

abbrev pub fraction_is_wrong : ℕ → Option ℤ → Bool
fraction_is_wrong unit none = false
fraction_is_wrong unit (some f) = leb_ℤ f (pos 0) || ltb_ℤ (pos unit) f

abbrev pub checked_size : Result TermsError (Unit {0}) → Result TicketError (Unit {0})
checked_size (ok u) = ok tt
checked_size (err e) = err (TicketError.terms_refused e)

abbrev pub loss_or_error : Result RiskError ℕ → Result TicketError ℕ
loss_or_error (ok n) = ok n
loss_or_error (err e) = err (TicketError.no_loss e)

abbrev pub loss_to : LiveTradeTerms → InstrumentType → ℕ → ℤ → ℤ → Result TicketError ℕ
loss_to t instrument_type one_rate entry price = loss_or_error (
    type_aware_loss_per_unit instrument_type entry price t.contract_multiplier (some t.tick_size)
      t.tick_value (pos one_rate))

-- The scenarios from a target on, the first of all being the broker's hard take-profit.
unfoldable pub scenarios :
    LiveTradeTerms
    → InstrumentType
    → ℕ
    → ℤ
    → ℕ
    → Bool
    → List ℤ
    → List (Option ℤ)
    → Result TicketError (List TargetScenario)
scenarios t kind one_rate entry size is_first [] fractions = ok []
scenarios t kind one_rate entry size is_first (p ∷ ps) [] = err TicketError.targets_incomplete
scenarios t kind one_rate entry size is_first (p ∷ ps) (f ∷ fs) = do
  per_unit ← loss_to t kind one_rate entry p
  rest ← scenarios t kind one_rate entry size false ps fs
  if leb_ℤ p (pos 0)
      then err TicketError.invalid_ticket
      else ok (
          record {
            price = p;
            profit_before_costs = size * per_unit;
            research_fraction = f;
            broker_hard_take_profit = is_first;
          }
          ∷ rest)

unfoldable pub build_trade_ticket :
    LiveTradeTerms
    → InstrumentType
    → ℕ
    → ℕ
    → Direction
    → ℤ
    → ℤ
    → List ℤ
    → List (Option ℤ)
    → ℤ
    → RiskResult
    → Result TicketError TradeTicket
unfolding scenarios
build_trade_ticket t kind unit one_rate direction entry stop targets fractions risk_limit risk =
    raise_if (is_hard_block risk.decision || leb risk.approved_size 0) TicketError.blocked_trade
    >> (checked_size (validate_size t risk.approved_size)
        >> (raise_if (stop_is_wrong direction entry stop) TicketError.stop_side
            >> (raise_if
                  (leb (length targets) 0 || not (nat_beq (length targets) (length fractions)))
                  TicketError.targets_incomplete
                >> (raise_if (any (target_is_wrong direction entry) targets) TicketError.target_side
                    >> (raise_if (any (fraction_is_wrong unit) fractions)
                          TicketError.invalid_fraction
                        >> (loss_to t kind one_rate entry stop >>= λ per_unit.
                            (scenarios t kind one_rate entry risk.approved_size true targets
                                fractions
                              >>= λ listed.
                                  (raise_if (leb_ℤ risk_limit (pos 0)) TicketError.invalid_ticket
                                    >> ok (record {
                                      account_currency = t.account_currency;
                                      requested_risk_limit = risk_limit;
                                      potential_loss_before_costs = risk.approved_size * per_unit;
                                      targets = listed;
                                    })))))))))

-- The prices of the scenarios are the targets in order, and only the first may be the hard take-profit.
abbrev pub Lists : Bool → List ℤ → List TargetScenario → Type 0
Lists is_first [] [] = Unit
Lists is_first (p ∷ ps) (x ∷ xs) =
    (x.price ≡ p) × (x.broker_hard_take_profit ≡ is_first) × (pos 0 <ℤ p) × Lists false ps xs
Lists is_first [] (x ∷ xs) = ⊥
Lists is_first (p ∷ ps) [] = ⊥

-- The losing and the winning side of an entry.
abbrev pub IsLossSide : Direction → ℤ → ℤ → Type 0
IsLossSide Direction.buy entry price = price <ℤ entry
IsLossSide Direction.sell entry price = entry <ℤ price

abbrev pub IsWinSide : Direction → ℤ → ℤ → Type 0
IsWinSide Direction.buy entry price = entry <ℤ price
IsWinSide Direction.sell entry price = price <ℤ entry

scenarios-Lists :
    (t : LiveTradeTerms) (kind : InstrumentType) (one_rate : ℕ) (entry : ℤ) (size : ℕ)
    (is_first : Bool) (targets : List ℤ) (fractions : List (Option ℤ)) {xs : List TargetScenario}
    → length targets ≡ length fractions
    → scenarios t kind one_rate entry size is_first targets fractions ≡ ok xs
    → Lists is_first targets xs
unfolding scenarios
scenarios-Lists t kind one_rate entry size is_first [] fractions same e =
    subst (Lists is_first []) (ok-injective e) tt
scenarios-Lists t kind one_rate entry size is_first (p ∷ ps) [] same e = absurd (omega arith)
scenarios-Lists t kind one_rate entry size is_first (p ∷ ps) (f ∷ fs) {xs = xs} same e =
    let (per_unit, a, b) = >>=-eq-ok (loss_to t kind one_rate entry p) _ e in
    let (rest, c, d) = >>=-eq-ok (scenarios t kind one_rate entry size false ps fs) _ b in
    let later = scenarios-Lists t kind one_rate entry size false ps fs (omega (arith, same)) c in
    elim (Bool-cases (leb_ℤ p (pos 0))) [
      | inl low ↦ absurd (no_list (rw low at d))
      | inr high ↦
          subst (Lists is_first (p ∷ ps)) (ok-injective (rw high at d))
            (refl, refl, ground arith, later)
    ]
  where
    no_list : ¬ (
        ◌≡◌ {A = Result TicketError (List TargetScenario)} (err TicketError.invalid_ticket) (ok xs))
    no_list h = cc

checked_size-ok : (r : Result TermsError (Unit {0})) → checked_size r ≡ ok tt → r ≡ ok tt
checked_size-ok (ok u) h = refl
checked_size-ok (err e) h = cc

-- A ticket is only built for a trade that is not blocked, of a positive size that the broker takes, with
-- the stop on the losing side of the entry and every target on the winning side. Its loss is the size
-- times the loss of a unit at the stop, its scenarios are the targets in order, and only the first of them
-- is the broker's hard take-profit.
pub build_trade_ticket-IsSound :
    (t : LiveTradeTerms) (kind : InstrumentType) (unit one_rate : ℕ) (direction : Direction)
    (entry stop : ℤ) (targets : List ℤ) (fractions : List (Option ℤ)) (risk_limit : ℤ)
    (risk : RiskResult) (ticket : TradeTicket)
    → build_trade_ticket t kind unit one_rate direction entry stop targets fractions risk_limit risk
      ≡ ok ticket
    → (is_hard_block risk.decision ≡ false)
      × (0 < risk.approved_size)
      × IsTradable t risk.approved_size
      × IsLossSide direction entry stop
      × All (IsWinSide direction entry) targets
      × ((per_unit : ℕ) × (loss_to t kind one_rate entry stop ≡ ok per_unit)
          × (ticket.potential_loss_before_costs ≡ risk.approved_size * per_unit))
      × Lists true targets ticket.targets
unfolding build_trade_ticket
build_trade_ticket-IsSound t kind unit one_rate direction entry stop targets fractions risk_limit
      risk ticket e =
    let (open_trade, e1) = raise_if-passed _ _ _ e in
    let (u, sized, e2) = >>=-eq-ok (checked_size (validate_size t risk.approved_size)) _ e1 in
    let (on_side, e3) = raise_if-passed _ _ _ e2 in
    let (complete, e4) = raise_if-passed _ _ _ e3 in
    let (sides, e5) = raise_if-passed _ _ _ e4 in
    let (parts, e6) = raise_if-passed _ _ _ e5 in
    let (per_unit, loss, e7) = >>=-eq-ok (loss_to t kind one_rate entry stop) _ e6 in
    let (listed, found, e8) =
      >>=-eq-ok (scenarios t kind one_rate entry risk.approved_size true targets fractions) _ e7 in
    let (limit, e9) = raise_if-passed _ _ _ e8 in
    let same = ok-injective e9 in
    (
      not_blocked risk.decision risk.approved_size open_trade,
      positive (is_hard_block risk.decision) risk.approved_size open_trade,
      (validate_size_iff t risk.approved_size).0 (checked_size-ok _ sized),
      loss_side direction on_side,
      win_side direction targets sides,
      (per_unit, loss, sym (ap (λ x. x.potential_loss_before_costs) same)),
      subst (λ x. Lists true targets x.targets) same
          (scenarios-Lists t kind one_rate entry risk.approved_size true targets fractions
            (lengths (length targets) (length fractions) complete) found),
    )
  where
    not_blocked :
        (d : RiskDecision) (n : ℕ) → (is_hard_block d || leb n 0) ≡ false → is_hard_block d ≡ false
    not_blocked d n h = ground arith

    positive : (b : Bool) (n : ℕ) → (b || leb n 0) ≡ false → 0 < n
    positive b n h = ground arith

    loss_side : (d : Direction) → stop_is_wrong d entry stop ≡ false → IsLossSide d entry stop
    loss_side Direction.buy h = ground arith
    loss_side Direction.sell h = ground arith

    win_side :
        (d : Direction) (l : List ℤ)
        → any (target_is_wrong d entry) l ≡ false
        → All (IsWinSide d entry) l
    win_side d [] h = tt
    win_side Direction.buy (p ∷ l) h = (ground arith, win_side Direction.buy l (ground arith))
    win_side Direction.sell (p ∷ l) h = (ground arith, win_side Direction.sell l (ground arith))

    lengths : (a b : ℕ) → (leb a 0 || not (nat_beq a b)) ≡ false → a ≡ b
    lengths a b h = ground arith
