-- ===== src/Common/Result.antt =====
-- A call that returns or raises. The errors are a parameter: each component names its own.
use mathlib.Core.Bool.{Bool, true, false, true≢false}
use mathlib.Core.Logic.{◌↔◌}
use mathlib.Core.Path.{◌≡◌, refl}
use mathlib.Core.Option.{Option, none, some}

pub data Result {ℓ κ} (E : Type κ) (A : Type ℓ) : Type (ℓ ⊔ κ) where
  ok : A → Result E A
  err : E → Result E A

-- `if test: raise error`
abbrev pub raise_if {ι} : {E : Type ι} → Bool → E → Result E (Unit {0})
raise_if true e = err e
raise_if false e = ok tt

abbrev pub or_raise {ℓ ι} : {E : Type ι} {A : Type ℓ} → Option A → E → Result E A
or_raise none e = err e
or_raise (some value) e = ok value

infixl 5 ◌>>◌ ◌>>=◌
-- The statements after a call: an exception passes over them.
abbrev pub ◌>>=◌ {ι ℓ κ} :
    {E : Type ι} {A : Type ℓ} {B : Type κ} → Result E A → (A → Result E B) → Result E B
err e >>= next = err e
ok value >>= next = next value

abbrev pub ◌>>◌ {ι κ} : {E : Type ι} {B : Type κ} → Result E (Unit {0}) → Result E B → Result E B
check >> next = check >>= λ _. next

pub ok-injective {ℓ ι} :
    {E : Type ι} {A : Type ℓ} {a b : A} → ◌≡◌ {A = Result E A} (ok a) (ok b) → a ≡ b
ok-injective h = cc

-- What a call with a continuation returned came from a first part that returned.
pub >>=-eq-ok {ι ℓ κ} :
    {E : Type ι} {A : Type ℓ} {B : Type κ} (call : Result E A) (next : A → Result E B) {b : B}
    → (call >>= next) ≡ ok b
    → (a : A) × (call ≡ ok a) × (next a ≡ ok b)
>>=-eq-ok (err e) next h = cc
>>=-eq-ok (ok value) next h = (value, refl, h)

-- A guard that a returning call has passed.
pub raise_if-passed {κ ι} :
    {E : Type ι} {B : Type κ} (test : Bool) (e : E) (k : Result E B) {b : B}
    → (raise_if test e >> k) ≡ ok b
    → (test ≡ false) × (k ≡ ok b)
raise_if-passed true e k h = cc
raise_if-passed false e k h = (refl, h)

pub raise_if-pass {κ ι} :
    {E : Type ι} {B : Type κ} (test : Bool) (e : E) (k : Result E B) {b : B}
    → test ≡ false
    → k ≡ ok b
    → (raise_if test e >> k) ≡ ok b
raise_if-pass true e k t h = cc
raise_if-pass false e k t h = h

-- What a value that stands behind two guards says, in either order of a call and a test.
pub checked-eq-ok {ι κ} :
    {E : Type ι} {B : Type κ} (call : Result E (Unit {0})) (test : Bool) (e : E) (v : B) {b : B}
    → (call >> raise_if test e >> ok v) ≡ ok b
    → (call ≡ ok tt) × (test ≡ false) × (v ≡ b)
checked-eq-ok (err e') test e v h = cc
checked-eq-ok (ok u) true e v h = cc
checked-eq-ok (ok u) false e v h = (refl, refl, ok-injective h)

pub tested-eq-ok {ι κ} :
    {E : Type ι} {B : Type κ} (test : Bool) (e : E) (call : Result E (Unit {0})) (v : B) {b : B}
    → (raise_if test e >> call >> ok v) ≡ ok b
    → (test ≡ false) × (call ≡ ok tt) × (v ≡ b)
tested-eq-ok true e call v h = cc
tested-eq-ok false e (err e') v h = cc
tested-eq-ok false e (ok u) v h = (refl, refl, ok-injective h)

-- Two guards before a check: the call returns when both tests fail and the check returns.
pub guards_iff {ι} :
    {E : Type ι} (s t : Bool) (e e' : E) (k : Result E (Unit {0}))
    → ((raise_if s e >> raise_if t e' >> k) ≡ ok tt) ↔ ((s ≡ false) × (t ≡ false) × (k ≡ ok tt))
guards_iff true t e e' k = ((λ h. cc), (λ (a, b, c). absurd (true≢false a)))
guards_iff false true e e' k = ((λ h. cc), (λ (a, b, c). absurd (true≢false b)))
guards_iff false false e e' k = ((λ h. (refl, refl, h)), (λ (a, b, c). c))
