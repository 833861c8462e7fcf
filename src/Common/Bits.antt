-- ===== src/Common/Bits.antt =====
-- `|` of disjoint fields and `&` with low and high masks, as arithmetic, at every width.
use Prim.Native.Nat.{
  ℕ, zero, suc, ◌+◌, ◌-◌, ◌*◌, ◌/◌, ◌%◌, ◌^◌, ◌≤◌, ◌<◌, min, max, bit_and, bit_or, digits, bitwise,
  bit_and-bitwise, bit_or-bitwise,
}
use mathlib.Core.Path.{◌≡◌, refl, ap, ap₂, ◌∙◌}
use native.Mathlib.Nat.{le_refl, pow-suc, one-le-pow, mod-eq_of_lt, mul_assoc}
use native.Mathlib.Omega.{arith}

-- The native operations are `bitwise` of an operation `f` on digits, a recursion on digits to go.
module _ (z : ℕ → ℕ) (f : ℕ → ℕ → ℕ) where
  spare_round : (to_go x y : ℕ) → x ≤ to_go → digits z f (suc to_go) x y ≡ digits z f to_go x y
  spare_round zero zero y enough = refl
  spare_round (suc to_go) zero y enough = refl
  spare_round zero (suc x) y enough = absurd (omega arith)
  spare_round (suc to_go) (suc x) y enough =
      ap (λ (t : ℕ). t * 2 + f (suc x % 2) (y % 2))
        (spare_round to_go (suc x / 2) (y / 2) (omega arith))

  spare_rounds : (extra x y : ℕ) → digits z f (x + extra) x y ≡ bitwise z f x y
  spare_rounds zero x y = let e : x + 0 ≡ x = omega arith in ap (λ (t : ℕ). digits z f t x y) e
  spare_rounds (suc extra) x y =
      let e : x + suc extra ≡ suc (x + extra) = omega arith in
      ap (λ (t : ℕ). digits z f t x y) e
      ∙ spare_round (x + extra) x y (omega arith)
      ∙ spare_rounds extra x y

  -- The lowest digit, and the operation on all others.
  lowest_digit :
      ((y : ℕ) → z y ≡ f 0 (y % 2) + 2 * z (y / 2))
      → (x y : ℕ) → bitwise z f x y ≡ f (x % 2) (y % 2) + 2 * bitwise z f (x / 2) (y / 2)
  lowest_digit empty zero y = empty y
  lowest_digit empty (suc x) y =
      let half = suc x / 2 in
      let e : half + (x - half) ≡ x = omega arith in
      omega
        (arith, ap (λ (t : ℕ). digits z f t half (y / 2)) e, spare_rounds (x - half) half (y / 2))

or_digit : (x y : ℕ) → bit_or x y ≡ max (x % 2) (y % 2) + 2 * bit_or (x / 2) (y / 2)
or_digit x y = simp bit_or-bitwise (lowest_digit (λ y. y) max (λ y. omega arith) x y)

and_digit : (x y : ℕ) → bit_and x y ≡ min (x % 2) (y % 2) + 2 * bit_and (x / 2) (y / 2)
and_digit x y = simp bit_and-bitwise (lowest_digit (λ y. 0) min (λ y. omega arith) x y)

bit_or-zero : (n a : ℕ) → a ≤ n → bit_or a 0 ≡ a
bit_or-zero n zero h = refl
bit_or-zero zero (suc a) h = absurd (omega arith)
bit_or-zero (suc n) (suc a) h =
    omega (arith, or_digit (suc a) 0, bit_or-zero n (suc a / 2) (omega arith))

bit_and-le_fuel : (n a b : ℕ) → a ≤ n → bit_and a b ≤ a
bit_and-le_fuel n zero b h = omega (arith, bit_and-bitwise 0 b)
bit_and-le_fuel zero (suc a) b h = absurd (omega arith)
bit_and-le_fuel (suc n) (suc a) b h =
    omega (arith, and_digit (suc a) b, bit_and-le_fuel n (suc a / 2) (b / 2) (omega arith))

pub bit_and-le : (a b : ℕ) → bit_and a b ≤ a
bit_and-le a b = bit_and-le_fuel a a b (le_refl a)

bit_and-zero : (n a : ℕ) → a ≤ n → bit_and a 0 ≡ 0
bit_and-zero n zero h = refl
bit_and-zero zero (suc a) h = absurd (omega arith)
bit_and-zero (suc n) (suc a) h =
    omega (arith, and_digit (suc a) 0, bit_and-zero n (suc a / 2) (omega arith))

double_shift : (high k : ℕ) → 2 * (high * 2 ^ k) ≡ high * 2 ^ suc k
double_shift high k = omega (arith, ap (λ (t : ℕ). high * t) (pow-suc 2 k))

-- `(high << k) | low` is a sum when `low` fits `k` bits.
pub bit_or_fields : (k high low : ℕ) → low < 2 ^ k → bit_or (high * 2 ^ k) low ≡ high * 2 ^ k + low
bit_or_fields zero high low h = ground (arith, bit_or-zero high high)
bit_or_fields (suc k) high low h =
    let halves = bit_or_fields k high (low / 2) (omega arith) in
    ground (arith, double_shift high k, halves, or_digit (high * 2 ^ suc k) low)

low_field : (k high low : ℕ) → low < 2 ^ k → bit_and (high * 2 ^ k + low) (2 ^ k - 1) ≡ low
low_field zero high low h =
    let all = high * 1 + low in rw (bit_and-zero all all (le_refl _)) (omega arith)
low_field (suc k) high low h =
    let halves = low_field k high (low / 2) (omega arith) in
    ground (
      arith,
      double_shift high k,
      pow-suc 2 k,
      halves,
      and_digit (high * 2 ^ suc k + low) (2 ^ suc k - 1),
    )

-- A mask of `k` low bits is the remainder by `2 ^ k`.
pub bit_and_mask : (k a : ℕ) → bit_and a (2 ^ k - 1) ≡ a % 2 ^ k
bit_and_mask k a = ground (arith, one-le-pow k 2, low_field k (a / 2 ^ k) (a % 2 ^ k))

-- A mask of `n` bits above `k` clears the low `k` bits of a word of `k + n` bits.
pub bit_and_high :
    (k n q r : ℕ)
    → r < 2 ^ k
    → q < 2 ^ n
    → bit_and (q * 2 ^ k + r) ((2 ^ n - 1) * 2 ^ k) ≡ q * 2 ^ k
bit_and_high zero n q r low high =
    let x : q * 2 ^ 0 + r ≡ q = omega arith in
    let mask : (2 ^ n - 1) * 2 ^ 0 ≡ 2 ^ n - 1 = omega arith in
    ap₂ bit_and x mask ∙ bit_and_mask n q ∙ ground (arith, mod-eq_of_lt high)
bit_and_high (suc k) n q r low high = ground (
  arith,
  and_digit (q * 2 ^ suc k + r) ((2 ^ n - 1) * 2 ^ suc k),
  double_shift q k,
  double_shift (2 ^ n - 1) k,
  bit_and_high k n q (r / 2) (omega (arith, pow-suc 2 k)) high,
)

pub two-pow-add : (a b : ℕ) → 2 ^ (a + b) ≡ 2 ^ a * 2 ^ b
two-pow-add a zero = let e : a + 0 ≡ a = omega arith in rw e (omega arith)
two-pow-add a (suc b) =
    let e : a + suc b ≡ suc (a + b) = omega arith in
    rw (e, pow-suc 2 (a + b), pow-suc 2 b, two-pow-add a b) (mul_assoc (2 ^ a) (2 ^ b) 2)
