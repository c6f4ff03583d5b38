-- ===== src/Base/Outcome.antt =====
-- What a Go call does: it returns a value, returns an error, or panics (a nil dereference, an index
-- out of range, a write to a nil map).
use mathlib.Core.Path.{◌≡◌, refl}
use mathlib.Core.Bool.{Bool, true, false}

pub data Outcome {ℓ κ} (E : Type κ) (A : Type ℓ) : Type (ℓ ⊔ κ) where
  ok : A → Outcome E A
  err : E → Outcome E A
  panic : Outcome E A

infixl 5 ◌>>=◌ ◌>>◌
abbrev pub ◌>>=◌ {ℓ κ μ} :
    {E : Type μ} {A : Type ℓ} {B : Type κ} → Outcome E A → (A → Outcome E B) → Outcome E B
ok a >>= f = f a
err e >>= f = err e
panic >>= f = panic

abbrev pub ◌>>◌ {ℓ μ} : {E : Type μ} {B : Type ℓ} → Outcome E (Unit {0}) → Outcome E B → Outcome E B
m >> k = m >>= λ _. k

-- `if bad { return err }`
abbrev pub refuse_if {μ} : {E : Type μ} → Bool → E → Outcome E (Unit {0})
refuse_if true e = err e
refuse_if false e = ok tt

pub then_assoc {ℓ μ} :
    {E : Type μ} {B : Type ℓ} (a b : Outcome E (Unit {0})) (k : Outcome E B)
    → (a >> b >> k) ≡ (a >> (b >> k))
then_assoc (ok u) b k = refl
then_assoc (err e) b k = refl
then_assoc panic b k = refl

pub ok_injective {ℓ μ} :
    {E : Type μ} {A : Type ℓ} {a b : A} → (◌≡◌ {A = Outcome E A} (ok a) (ok b)) → a ≡ b
ok_injective h = cc

-- What a call ensures of the value that it returns, if it returns one.
abbrev pub Ensures {ℓ κ μ} : {E : Type μ} {A : Type ℓ} → (A → Type κ) → Outcome E A → Type κ
Ensures P (ok a) = P a
Ensures P (err e) = Unit
Ensures P panic = Unit

pub Ensures-bind {ℓ κ μ ν} :
    {E : Type μ} {A B : Type ℓ} (P : A → Type κ) (Q : B → Type ν) (m : Outcome E A)
    (f : A → Outcome E B)
    → Ensures P m
    → ((a : A) → P a → Ensures Q (f a))
    → Ensures Q (m >>= f)
Ensures-bind P Q (ok a) f p k = k a p
Ensures-bind P Q (err e) f p k = tt
Ensures-bind P Q panic f p k = tt

pub Ensures-trivial {ℓ μ} : {E : Type μ} {A : Type ℓ} (m : Outcome E A) → Ensures (λ _. Unit {0}) m
Ensures-trivial (ok a) = tt
Ensures-trivial (err e) = tt
Ensures-trivial panic = tt

pub Ensures-of {ℓ κ μ} :
    {E : Type μ} {A : Type ℓ} (P : A → Type κ) (m : Outcome E A)
    → ((a : A) → ◌≡◌ {A = Outcome E A} m (ok a) → P a)
    → Ensures P m
Ensures-of P (ok a) h = h a refl
Ensures-of P (err e) h = tt
Ensures-of P panic h = tt

pub Ensures-weaken {ℓ κ μ ν} :
    {E : Type μ} {A : Type ℓ} (P : A → Type κ) (Q : A → Type ν) (m : Outcome E A)
    → ((a : A) → P a → Q a)
    → Ensures P m
    → Ensures Q m
Ensures-weaken P Q (ok a) k h = k a h
Ensures-weaken P Q (err e) k h = tt
Ensures-weaken P Q panic k h = tt

pub Ensures-both {ℓ κ μ ν} :
    {E : Type μ} {A : Type ℓ} (P : A → Type κ) (Q : A → Type ν) (m : Outcome E A)
    → Ensures P m
    → Ensures Q m
    → Ensures (λ a. P a × Q a) m
Ensures-both P Q (ok a) p q = (p, q)
Ensures-both P Q (err e) p q = tt
Ensures-both P Q panic p q = tt
