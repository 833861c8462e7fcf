-- ===== src/Common/Panics.antt =====
-- What a Rust function does when it can panic.
use mathlib.Core.Path.{◌≡◌, refl}
use mathlib.Core.Bool.{Bool, true, false}
use mathlib.Core.Option.{Option, none, some}

pub data Outcome {ℓ} (A : Type ℓ) : Type ℓ where
  returned : A → Outcome A
  panicked : Outcome A

infixl 5 ◌>>=◌ ◌>>◌
abbrev pub ◌>>=◌ {ℓ κ} : {A : Type ℓ} {B : Type κ} → Outcome A → (A → Outcome B) → Outcome B
returned a >>= f = f a
panicked >>= f = panicked

abbrev pub ◌>>◌ {ℓ} : {B : Type ℓ} → Outcome (Unit {0}) → Outcome B → Outcome B
m >> k = m >>= λ _. k

-- `assert!`
abbrev pub assert : Bool → Outcome (Unit {0})
assert true = returned tt
assert false = panicked

-- `unwrap`
abbrev pub unwrap {ℓ} : {A : Type ℓ} → Option A → Outcome A
unwrap none = panicked
unwrap (some a) = returned a

-- The function returns, and its result satisfies `P`.
pub data Returns {ℓ κ} {A : Type ℓ} (P : A → Type κ) : Outcome A → Type (ℓ ⊔ κ) where
  returns : {a : A} → P a → Returns P (returned a)

pub result {ℓ κ} :
    {A : Type ℓ} {P : A → Type κ} {m : Outcome A} → Returns P m → (a : A) × (m ≡ returned a) × P a
result (returns {a} p) = (a, refl, p)

pub bind {ℓ κ} :
    {A B : Type ℓ} {P : A → Type κ} {Q : B → Type κ} {m : Outcome A} {k : A → Outcome B}
    → Returns P m
    → ((a : A) → P a → Returns Q (k a))
    → Returns Q (m >>= k)
bind (returns {a} p) next = next a p

-- A call that returns, and the rest.
pub step {ℓ κ} :
    {A B : Type ℓ} {Q : B → Type κ} {m : Outcome A} {a : A} (k : A → Outcome B)
    → m ≡ returned a
    → Returns Q (k a)
    → Returns Q (m >>= k)
step k e r = rw e r

-- A call that returns returns what follows.
pub weaken {ℓ κ} :
    {A : Type ℓ} {P Q : A → Type κ} {m : Outcome A}
    → ((a : A) → P a → Q a)
    → Returns P m
    → Returns Q m
weaken f (returns {a} p) = returns (f a p)
