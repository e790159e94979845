-- ===== src/PropFirms/Guardrails.antt =====
-- The guardrail profile (modules/policy/guardrails.py) and its rules (modules/prop_firms/models.py).
use matrades.Common.{
  ℕ, ◌+◌, ◌≡◌, refl, subst, ap, ◌∙◌, Bool, true, false, not, ◌&&◌, Option, List, [], ◌∷◌, ◌++◌,
  arith, length, length-append,
}
use matrades.Common.Result.{Result, ok, raise_if, ◌>>◌, raise_if-passed, ok-injective}
use matrades.PropFirms.{PropRule}

pub record GuardrailProfile : Type 0 where
  pub id : ℕ
  pub owner_id : ℕ
  pub account_id : Option ℕ
  pub rules : List PropRule
  pub version : ℕ

-- A text given as `scope`: one of `ALLOWED_SCOPES`, or another.
pub data Scope : Type 0 where
  global account strategy exposure loss session event freshness trade_count other_scope : Scope

-- `ValueError` and `PermissionError`.
pub data GuardrailError : Type 0 where
  unknown_scope step_up_required : GuardrailError

abbrev pub is_allowed_scope : Scope → Bool
is_allowed_scope Scope.other_scope = false
is_allowed_scope _ = true

unfoldable pub update :
    GuardrailProfile → Scope → PropRule → Bool → Bool → Result GuardrailError GuardrailProfile
update profile scope rule weakens step_up =
    raise_if (not (is_allowed_scope scope)) GuardrailError.unknown_scope
    >> (raise_if (weakens && not step_up) GuardrailError.step_up_required
        >> ok
            (record profile { rules = profile.rules ++ rule ∷ []; version = profile.version + 1 }))

-- Updates, one after the other, with the rules that they add, the newest last.
pub data Updates (p : GuardrailProfile) : List PropRule → GuardrailProfile → Type 0 where
  unchanged : Updates p [] p
  updated :
      {added : List PropRule} {q r : GuardrailProfile}
      → Updates p added q
      → (scope : Scope) → (rule : PropRule) → (weakens step_up : Bool)
      → update q scope rule weakens step_up ≡ ok r
      → Updates p (added ++ rule ∷ []) r

rules_assoc : (l k : List PropRule) (x : PropRule) → (l ++ k) ++ x ∷ [] ≡ l ++ (k ++ x ∷ [])
rules_assoc [] k x = refl
rules_assoc (y ∷ l) k x = ap (λ r. y ∷ r) (rules_assoc l k x)

rules_nil : (l : List PropRule) → l ≡ l ++ []
rules_nil [] = refl
rules_nil (y ∷ l) = ap (λ r. y ∷ r) (rules_nil l)

-- Updates keep the rules of a profile and add theirs in order, and its version counts them.
pub Updates-rules :
    {p q : GuardrailProfile} {added : List PropRule}
    → Updates p added q
    → (q.rules ≡ p.rules ++ added)
      × (q.version ≡ p.version + length added)
      × (q.owner_id ≡ p.owner_id)
unfolding update
Updates-rules {p = p} unchanged = (rules_nil p.rules, omega arith, refl)
Updates-rules {p = p}
      (updated {added = added} {q = q} {r = r} before scope rule weakens step_up e) =
    let (kept, counted, owner) = Updates-rules before in
    let next : GuardrailProfile = record q {
      rules = q.rules ++ rule ∷ [];
      version = q.version + 1;
    } in
    let (known, e1) =
      raise_if-passed (not (is_allowed_scope scope)) GuardrailError.unknown_scope
        (raise_if (weakens && not step_up) GuardrailError.step_up_required >> ok next) e in
    let (allowed, e2) =
      raise_if-passed (weakens && not step_up) GuardrailError.step_up_required (ok next) e1 in
    subst
      (λ x.
        (x.rules ≡ p.rules ++ (added ++ rule ∷ []))
        × (x.version ≡ p.version + length (added ++ rule ∷ []))
        × (x.owner_id ≡ p.owner_id))
      (ok-injective e2)
      (
        ap (λ l. l ++ rule ∷ []) kept ∙ rules_assoc p.rules added rule,
        omega (arith, counted, length-append added (rule ∷ [])),
        owner,
      )
