-- ===== src/Policy/Strictest.antt =====
-- What `strictest_applicable` (modules/policy/effective_limits.py) selects, proved against the
-- plain list of the constraints of one kind.
use mathlib.Core.List.{Memᴰ, append-nil, append_assoc}
use mathlib.Core.Option.{some-injective}
use matrades.Common.{
  ◌≡◌, refl, sym, subst, ◌∙◌, ◌≢◌, ◌↔◌, inl, inr, none, some, List, [], ◌∷◌, ◌++◌, arith, filter,
  All, Memᴰ-filter, if◌then◌else◌, Bool-cases,
}
use matrades.Common.Int.{◌≤ℤ◌, ltb_ℤ}
use matrades.Common.Dict.{lookup, insert, lookup-insert}
use matrades.Policy.{
  ConstraintKind, EffectiveConstraint, kind_iff, kind_eq, is_hard, Groups, get_group, append_to,
  group_from, least, least_of_pool, strictest_of, pick_each, strictest_applicable,
}

-- The constraints of one kind, in order.
abbrev pub of_kind : ConstraintKind → List EffectiveConstraint → List EffectiveConstraint
of_kind k = filter (λ c. kind_eq.beq c.kind k)

get_group-append_to :
    (k : ConstraintKind) (c : EffectiveConstraint) (groups : Groups)
    → get_group k (append_to c groups)
      ≡ (if kind_eq.beq c.kind k then get_group k groups ++ c ∷ [] else get_group k groups)
unfolding append_to
get_group-append_to k c groups =
    ground
      (arith, lookup-insert c.kind k (get_group c.kind groups ++ c ∷ []) groups, kind_iff c.kind k)

-- Grouping collects the constraints of a kind, in order.
get_group-group_from :
    (k : ConstraintKind) (groups : Groups) (cs : List EffectiveConstraint)
    → get_group k (group_from groups cs) ≡ get_group k groups ++ of_kind k cs
unfolding group_from
get_group-group_from k groups [] = rw append-nil
get_group-group_from k groups (c ∷ cs) =
    rw (get_group-group_from k (append_to c groups) cs, get_group-append_to k c groups)
      (elim (Bool-cases (kind_eq.beq c.kind k)) [
        | inl e ↦ rw e (append_assoc (get_group k groups) (c ∷ []) (of_kind k cs))
        | inr e ↦ rw e
      ])

-- No group is empty.
abbrev IsFilled : Groups → Type 0
IsFilled = All (λ g. g.1 ≢ [])

append-ne-nil : (l : List EffectiveConstraint) (c : EffectiveConstraint) → l ++ c ∷ [] ≢ []
append-ne-nil [] c e = cc
append-ne-nil (x ∷ l) c e = cc

insert-IsFilled :
    (k : ConstraintKind) (l : List EffectiveConstraint) (groups : Groups)
    → l ≢ []
    → IsFilled groups
    → IsFilled (insert k l groups)
insert-IsFilled k l [] n h = (n, tt)
insert-IsFilled k l ((j, m) ∷ groups) n h = elim (Bool-cases (kind_eq.beq j k)) [
  | inl e ↦ rw e (n, h.1)
  | inr e ↦ rw e (h.0, insert-IsFilled k l groups n h.1)
]

group_from-IsFilled :
    (groups : Groups) (cs : List EffectiveConstraint)
    → IsFilled groups
    → IsFilled (group_from groups cs)
unfolding group_from append_to
group_from-IsFilled groups [] h = h
group_from-IsFilled groups (c ∷ cs) h =
    group_from-IsFilled (append_to c groups) cs
      (insert-IsFilled c.kind _ groups (append-ne-nil (get_group c.kind groups) c) h)

strictest_of-filled :
    (l : List EffectiveConstraint) → l ≢ [] → (c : EffectiveConstraint) × (strictest_of l ≡ some c)
unfolding strictest_of
strictest_of-filled [] n = absurd (n refl)
strictest_of-filled (c ∷ cs) n = from_pool (filter is_hard (c ∷ cs))
  where
    from_pool :
        (hard : List EffectiveConstraint)
        → (d : EffectiveConstraint) × (least_of_pool hard (c ∷ cs) ≡ some d)
    from_pool [] = (least c cs, refl)
    from_pool (h ∷ hs) = (least h hs, refl)

lookup-pick_each :
    (k : ConstraintKind) (groups : Groups)
    → IsFilled groups
    → lookup k (pick_each groups) ≡ strictest_of (get_group k groups)
unfolding pick_each
lookup-pick_each k [] h = unfold strictest_of in refl
lookup-pick_each k ((j, l) ∷ groups) (n, h) =
    let (c, e) = strictest_of-filled l n in
    rw (e, pick_each)
      (elim (Bool-cases (kind_eq.beq j k)) [
        | inl t ↦ rw (t, get_group) (sym e)
        | inr t ↦ rw (t, get_group) (lookup-pick_each k groups h)
      ])

-- The limit of a kind is the strictest choice among the constraints of that kind alone: the other
-- kinds, and the order in which the groups were met, make no difference.
pub lookup-strictest_applicable :
    (k : ConstraintKind) (cs : List EffectiveConstraint)
    → lookup k (strictest_applicable cs) ≡ strictest_of (of_kind k cs)
unfolding strictest_applicable
lookup-strictest_applicable k cs =
    rw (lookup-pick_each k (group_from [] cs) (group_from-IsFilled [] cs tt), get_group-group_from)

-- The least of a pool is in it, and nothing in it is less.
least-Memᴰ : (c : EffectiveConstraint) (cs : List EffectiveConstraint) → Memᴰ (least c cs) (c ∷ cs)
unfolding least
least-Memᴰ c [] = Memᴰ.head refl
least-Memᴰ c (d ∷ cs) = elim (Bool-cases (ltb_ℤ d.value c.value)) [
  | inl e ↦ rw e (Memᴰ.tail (least-Memᴰ d cs))
  | inr e ↦ rw e (skip (least-Memᴰ c cs))
]
  where
    skip : Memᴰ (least c cs) (c ∷ cs) → Memᴰ (least c cs) (c ∷ d ∷ cs)
    skip (Memᴰ.head p) = Memᴰ.head p
    skip (Memᴰ.tail m) = Memᴰ.tail (Memᴰ.tail m)

pick_le :
    (c d : EffectiveConstraint)
    → let best = if ltb_ℤ d.value c.value then d else c in
      (best.value ≤ℤ c.value) × (best.value ≤ℤ d.value)
pick_le c d = ground arith

least_le :
    (c : EffectiveConstraint) (cs : List EffectiveConstraint)
    → All (λ d. (least c cs).value ≤ℤ d.value) (c ∷ cs)
unfolding least
least_le c [] = (omega arith, tt)
least_le c (d ∷ cs) =
    let best = if ltb_ℤ d.value c.value then d else c in
    let (h, t) = least_le best cs in
    let (p, q) = pick_le c d in (omega (arith, h, p), (omega (arith, h, q), t))

abbrev pub hard_of_kind : ConstraintKind → List EffectiveConstraint → List EffectiveConstraint
hard_of_kind k cs = filter is_hard (of_kind k cs)

-- The first list, or the second if the first is empty.
abbrev pub or_else : List EffectiveConstraint → List EffectiveConstraint → List EffectiveConstraint
or_else [] l = l
or_else (c ∷ cs) l = c ∷ cs

-- The constraints that compete for a kind: the hard ones of the kind, or all of it if none is hard.
abbrev pub pool : ConstraintKind → List EffectiveConstraint → List EffectiveConstraint
pool k cs = or_else (hard_of_kind k cs) (of_kind k cs)

-- What a selected limit is, said of the list alone: a constraint of the kind from the list that is in
-- the pool of the kind, where none has a smaller value.
pub record IsStrictest (k : ConstraintKind) (cs : List EffectiveConstraint)
    (c : EffectiveConstraint) : Type 0 where
  pub kept : Memᴰ c cs
  pub of_its_kind : c.kind ≡ k
  pub competes : Memᴰ c (pool k cs)
  pub le_pool : All (λ d. c.value ≤ℤ d.value) (pool k cs)

abbrev IsLeastIn : List EffectiveConstraint → EffectiveConstraint → Type 0
IsLeastIn l c = Memᴰ c l × All (λ d. c.value ≤ℤ d.value) l

least-IsLeastIn :
    (c : EffectiveConstraint) (cs : List EffectiveConstraint) {d : EffectiveConstraint}
    → least c cs ≡ d
    → IsLeastIn (c ∷ cs) d
least-IsLeastIn c cs e = subst (IsLeastIn (c ∷ cs)) e (least-Memᴰ c cs, least_le c cs)

least_of_pool-IsLeastIn :
    (hard choices : List EffectiveConstraint) (c : EffectiveConstraint)
    → least_of_pool hard choices ≡ some c
    → IsLeastIn (or_else hard choices) c
unfolding least_of_pool
least_of_pool-IsLeastIn (h ∷ hs) choices c e = least-IsLeastIn h hs (some-injective _ _ e)
least_of_pool-IsLeastIn [] (d ∷ ds) c e = least-IsLeastIn d ds (some-injective _ _ e)
least_of_pool-IsLeastIn [] [] c e = cc

Memᴰ-or_else :
    (choices : List EffectiveConstraint) (c : EffectiveConstraint)
    → Memᴰ c (or_else (filter is_hard choices) choices)
    → Memᴰ c choices
Memᴰ-or_else choices c m = go (filter is_hard choices) refl m
  where
    go :
        (hard : List EffectiveConstraint)
        → filter is_hard choices ≡ hard
        → Memᴰ c (or_else hard choices)
        → Memᴰ c choices
    go [] e m = m
    go (h ∷ hs) e m = (Memᴰ-filter is_hard choices (rw e m)).0

-- The selected limit of a kind is the least of the hard constraints of that kind in the list, and the
-- least of all constraints of that kind if none of them is hard.
pub strictest_applicable-IsStrictest :
    (k : ConstraintKind) (cs : List EffectiveConstraint) (c : EffectiveConstraint)
    → lookup k (strictest_applicable cs) ≡ some c
    → IsStrictest k cs c
strictest_applicable-IsStrictest k cs c e =
    let (m, le) =
      least_of_pool-IsLeastIn (hard_of_kind k cs) (of_kind k cs) c
        (unfold strictest_of in (sym (lookup-strictest_applicable k cs) ∙ e)) in
    let (inside, its) = Memᴰ-filter _ cs (Memᴰ-or_else (of_kind k cs) c m) in
    record { kept = inside; of_its_kind = (kind_iff c.kind k).0 its; competes = m; le_pool = le }

-- Nothing in the pool is hard and left out.
pub hard-of-pool {κ} :
    (P : EffectiveConstraint → Type κ) (k : ConstraintKind) (cs : List EffectiveConstraint)
    → All P (pool k cs)
    → All P (hard_of_kind k cs)
hard-of-pool P k cs h = go (hard_of_kind k cs) h
  where
    go : (hard : List EffectiveConstraint) → All P (or_else hard (of_kind k cs)) → All P hard
    go [] h = tt
    go (c ∷ cs) h = h

strictest_of-none : (l : List EffectiveConstraint) → strictest_of l ≡ none → l ≡ []
strictest_of-none [] e = refl
strictest_of-none (c ∷ cs) e =
    let (d, f) = strictest_of-filled (c ∷ cs) (λ p. absurd (cons_ne p)) in
    absurd (none_ne (sym e ∙ f))
  where
    cons_ne : ¬ (c ∷ cs ≡ [])
    cons_ne p = cc

    none_ne : {d : EffectiveConstraint} → ¬ (none ≡ some d)
    none_ne p = cc

-- A kind has no limit exactly when the list has no constraint of it.
pub strictest_applicable-none :
    (k : ConstraintKind) (cs : List EffectiveConstraint)
    → (lookup k (strictest_applicable cs) ≡ none) ↔ (of_kind k cs ≡ [])
strictest_applicable-none k cs = (
  λ e. strictest_of-none (of_kind k cs) (sym (lookup-strictest_applicable k cs) ∙ e),
  λ h. rw (lookup-strictest_applicable k cs, h) (unfold strictest_of in refl),
)
