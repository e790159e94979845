-- ===== src/Connections/Binding.antt =====
-- The choice of a provider's binding (modules/connections/resolution.py). Identifiers are ordered as their
-- texts are; a lane and a capability are only compared.
use matrades.Common.{
  ℕ, ◌≡◌, subst, inl, inr, Bool, true, false, ◌&&◌, ◌||◌, Option, none, some, List, [], ◌∷◌, arith,
  filter, ltb, leb, nat_beq, if◌then◌else◌, Bool-cases, All, All-filter, nat_eq,
}
use matrades.Common.Dict.{Dict, lookup}
use matrades.Common.Result.{Result, ok, err, ◌>>=◌, >>=-eq-ok, ok-injective}
use matrades.Common.Sort.{sorted_by, IsFirst, All-sorted_by, sorted_by-IsFirst}

pub record ProviderBinding : Type 0 where
  pub id : ℕ
  pub connection_id : ℕ
  pub lane : ℕ
  pub capability : ℕ
  pub is_verified : Bool
  pub priority : ℕ

pub data Health : Type 0 where
  healthy stale other_health : Health

-- `LookupError`, with its cause.
pub data BindingError : Type 0 where
  no_verified_binding not_healthy : BindingError

abbrev pub is_candidate : ℕ → ℕ → ProviderBinding → Bool
is_candidate lane capability b =
    nat_beq b.lane lane && nat_beq b.capability capability && b.is_verified

-- `(item.priority, str(item.id))` in lexicographic order.
abbrev pub binding_le : ProviderBinding → ProviderBinding → Bool
binding_le a b = ltb a.priority b.priority || (nat_beq a.priority b.priority && leb a.id b.id)

abbrev pub first_binding : List ProviderBinding → Result BindingError ProviderBinding
first_binding [] = err BindingError.no_verified_binding
first_binding (b ∷ bs) = ok b

unfoldable pub choose_binding : List ProviderBinding → ℕ → ℕ → Result BindingError ProviderBinding
unfolding sorted_by
choose_binding bindings lane capability =
    first_binding (sorted_by binding_le (filter (is_candidate lane capability) bindings))

abbrev pub is_usable : Option Health → Bool
is_usable (some Health.healthy) = true
is_usable (some Health.stale) = true
is_usable (some Health.other_health) = false
is_usable none = false

unfoldable pub require_healthy_binding :
    List ProviderBinding → ℕ → ℕ → Dict ℕ Health → Result BindingError ProviderBinding
unfolding choose_binding
require_healthy_binding bindings lane capability connection_health =
    choose_binding bindings lane capability >>= λ b.
    (if is_usable (lookup b.connection_id connection_health)
      then ok b
      else err BindingError.not_healthy)

binding_le_trans :
    (a b c : ProviderBinding)
    → binding_le a b ≡ true
    → binding_le b c ≡ true
    → binding_le a c ≡ true
binding_le_trans a b c h k = ground arith

binding_le_total : (a b : ProviderBinding) → binding_le a b ≡ false → binding_le b a ≡ true
binding_le_total a b h = ground arith

binding_le_self : (a : ProviderBinding) → binding_le a a ≡ true
binding_le_self a = ground arith

filter-passes :
    (test : ProviderBinding → Bool) (l : List ProviderBinding)
    → All (λ b. test b ≡ true) (filter test l)
filter-passes test [] = tt
filter-passes test (b ∷ l) = elim (Bool-cases (test b)) [
  | inl t ↦ rw t (t, filter-passes test l)
  | inr t ↦ rw t (filter-passes test l)
]

choose_binding-first :
    (bindings : List ProviderBinding) (lane capability : ℕ) (b : ProviderBinding)
    → choose_binding bindings lane capability ≡ ok b
    → (is_candidate lane capability b ≡ true)
      × All (λ c. is_candidate lane capability c ≡ true → binding_le b c ≡ true) bindings
unfolding choose_binding
choose_binding-first bindings lane capability b e =
    let candidates = filter (is_candidate lane capability) bindings in
    head (sorted_by binding_le candidates)
      (sorted_by-IsFirst binding_le binding_le_trans binding_le_total binding_le_self candidates)
      (All-sorted_by binding_le _ candidates
        (filter-passes (is_candidate lane capability) bindings))
      e
  where
    head :
        (sorted : List ProviderBinding)
        → IsFirst binding_le (filter (is_candidate lane capability) bindings) sorted
        → All (λ c. is_candidate lane capability c ≡ true) sorted
        → first_binding sorted ≡ ok b
        → (is_candidate lane capability b ≡ true)
          × All (λ c. is_candidate lane capability c ≡ true → binding_le b c ≡ true) bindings
    head [] first each h = cc
    head (c ∷ cs) first (passes, each) h =
        subst
          (λ x.
            (is_candidate lane capability x ≡ true)
            × All (λ c. is_candidate lane capability c ≡ true → binding_le x c ≡ true) bindings)
          (ok-injective h) (passes, All-filter _ (is_candidate lane capability) bindings first)

-- A binding that is returned is verified and of the lane and the capability asked for, its connection is
-- healthy or stale, and no other such binding comes before it in the order of priority and id.
pub require_healthy_binding-IsFirst :
    (bindings : List ProviderBinding) (lane capability : ℕ) (connection_health : Dict ℕ Health)
    (b : ProviderBinding)
    → require_healthy_binding bindings lane capability connection_health ≡ ok b
    → (b.lane ≡ lane)
      × (b.capability ≡ capability)
      × (b.is_verified ≡ true)
      × (is_usable (lookup b.connection_id connection_health) ≡ true)
      × All (λ c. is_candidate lane capability c ≡ true → binding_le b c ≡ true) bindings
unfolding require_healthy_binding
require_healthy_binding-IsFirst bindings lane capability connection_health b e =
    let (c, chosen, rest) = >>=-eq-ok (choose_binding bindings lane capability) _ e in
    elim (Bool-cases (is_usable (lookup c.connection_id connection_health))) [
      | inr t ↦ absurd (no_binding (rw t at rest))
      | inl t ↦
          let same = ok-injective (rw t at rest) in
          let (passes, first) = choose_binding-first bindings lane capability c chosen in
          rw (← same) (lane_of c passes, capability_of c passes, verified c passes, t, first)
    ]
  where
    no_binding :
        ¬ (◌≡◌ {A = Result BindingError ProviderBinding} (err BindingError.not_healthy) (ok b))
    no_binding h = cc

    lane_of : (c : ProviderBinding) → is_candidate lane capability c ≡ true → c.lane ≡ lane
    lane_of c h = ground arith

    capability_of :
        (c : ProviderBinding) → is_candidate lane capability c ≡ true → c.capability ≡ capability
    capability_of c h = ground arith

    verified : (c : ProviderBinding) → is_candidate lane capability c ≡ true → c.is_verified ≡ true
    verified c h = ground arith
