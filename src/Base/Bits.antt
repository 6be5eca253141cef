-- ===== src/Base/Bits.antt =====
-- `&`, `|` and `^` of Python on non-negative numbers: their lowest digit, and what the program
-- relies on, at every width.
use Prim.Native.Nat.{
  ℕ, zero, suc, ◌+◌, ◌*◌, ◌/◌, ◌%◌, ◌^◌, ◌≤◌, ◌<◌, min, max, differ, digits, bitwise, bit_and,
  bit_or, bit_xor, bit_and-bitwise, bit_or-bitwise, bit_xor-bitwise,
}
use mathlib.Core.Path.{◌≡◌, refl, ap, ◌∙◌}
use native.Mathlib.Nat.{pow-suc, le_refl}
use native.Mathlib.Omega.{arith}

module _ (rest : ℕ → ℕ) (bit : ℕ → ℕ → ℕ) where
  -- Any fuel that covers the first number gives the same digits.
  same_digits : (k l x y : ℕ) → x ≤ k → x ≤ l → digits rest bit k x y ≡ digits rest bit l x y
  same_digits zero zero x y h g = refl
  same_digits zero (suc l) (suc x) y h g = absurd (omega arith)
  same_digits zero (suc l) zero y h g = refl
  same_digits (suc k) zero (suc x) y h g = absurd (omega arith)
  same_digits (suc k) zero zero y h g = refl
  same_digits (suc k) (suc l) zero y h g = refl
  same_digits (suc k) (suc l) (suc x) y h g =
      omega (arith, same_digits k l (suc x / 2) (y / 2) (omega arith) (omega arith))

  last_digit :
      (x y : ℕ)
      → bitwise rest bit (suc x) y
        ≡ bitwise rest bit (suc x / 2) (y / 2) * 2 + bit (suc x % 2) (y % 2)
  last_digit x y =
      omega (arith, same_digits x (suc x / 2) (suc x / 2) (y / 2) (omega arith) (le_refl _))

bit_xor_digit : (x y : ℕ) → bit_xor x y ≡ bit_xor (x / 2) (y / 2) * 2 + differ (x % 2) (y % 2)
bit_xor_digit zero y = simp bit_xor-bitwise (omega arith)
bit_xor_digit (suc x) y = simp bit_xor-bitwise (last_digit (λ y. y) differ x y)

bit_or_digit : (x y : ℕ) → bit_or x y ≡ bit_or (x / 2) (y / 2) * 2 + max (x % 2) (y % 2)
bit_or_digit zero y = simp bit_or-bitwise (omega arith)
bit_or_digit (suc x) y = simp bit_or-bitwise (last_digit (λ y. y) max x y)

bit_and_digit : (x y : ℕ) → bit_and x y ≡ bit_and (x / 2) (y / 2) * 2 + min (x % 2) (y % 2)
bit_and_digit zero y = simp bit_and-bitwise (omega arith)
bit_and_digit (suc x) y = simp bit_and-bitwise (last_digit (λ y. 0) min x y)

-- The digit of `^` is the sum of the digits, less its carry.
differ_digit : (x y : ℕ) → x < 2 → y < 2 → differ x y ≡ (x + y) % 2
differ_digit zero zero h g = refl
differ_digit zero (suc zero) h g = refl
differ_digit zero (suc (suc y)) h g = absurd (omega arith)
differ_digit (suc zero) zero h g = refl
differ_digit (suc zero) (suc zero) h g = refl
differ_digit (suc zero) (suc (suc y)) h g = absurd (omega arith)
differ_digit (suc (suc x)) y h g = absurd (omega arith)

xor_digit : (x y : ℕ) → bit_xor x y ≡ bit_xor (x / 2) (y / 2) * 2 + (x % 2 + y % 2) % 2
xor_digit x y =
    bit_xor_digit x y
    ∙ ap (λ d. bit_xor (x / 2) (y / 2) * 2 + d)
        (differ_digit (x % 2) (y % 2) (omega arith) (omega arith))

zero_of_lt : (x : ℕ) → x < 2 ^ 0 → x ≡ 0
zero_of_lt x h = omega arith

-- On `k` digits, `^` by the same number is undone by itself, and stays within the digits.
pub bit_xor_undo : (k x y : ℕ) → x < 2 ^ k → y < 2 ^ k → bit_xor (bit_xor x y) y ≡ x
bit_xor_undo zero x y h g = rw (zero_of_lt x h, zero_of_lt y g)
bit_xor_undo (suc k) x y h g = omega (
  arith,
  xor_digit x y,
  xor_digit (bit_xor x y) y,
  ap (λ (t : ℕ). bit_xor t (y / 2)) half,
  bit_xor_undo k (x / 2) (y / 2) (omega (arith, pow-suc 2 k)) (omega (arith, pow-suc 2 k)),
)
  where
    half : bit_xor x y / 2 ≡ bit_xor (x / 2) (y / 2)
    half = omega (arith, xor_digit x y)

pub bit_xor-lt : (k x y : ℕ) → x < 2 ^ k → y < 2 ^ k → bit_xor x y < 2 ^ k
bit_xor-lt zero x y h g = rw (zero_of_lt x h, zero_of_lt y g) (omega arith)
bit_xor-lt (suc k) x y h g = omega (
  arith,
  pow-suc 2 k,
  xor_digit x y,
  bit_xor-lt k (x / 2) (y / 2) (omega (arith, pow-suc 2 k)) (omega (arith, pow-suc 2 k)),
)

double : (x k : ℕ) → x * 2 ^ suc k ≡ x * 2 ^ k * 2
double x k = omega (arith, ap (λ (t : ℕ). x * t) (pow-suc 2 k))

bit_or-zero : (k x : ℕ) → x ≤ k → bit_or x 0 ≡ x
bit_or-zero zero x h = rw (zero_of_lt x (omega arith))
bit_or-zero (suc k) zero h = refl
bit_or-zero (suc k) (suc x) h =
    omega (arith, bit_or_digit (suc x) 0, bit_or-zero k (suc x / 2) (omega arith))

-- `(x << k) | y` is a sum where `y` has at most `k` digits.
pub bit_or_join : (k x y : ℕ) → y < 2 ^ k → bit_or (x * 2 ^ k) y ≡ x * 2 ^ k + y
bit_or_join zero x y h =
    rw (zero_of_lt y h) (omega (arith, bit_or-zero (x * 1) (x * 1) (le_refl _)))
bit_or_join (suc k) x y h = rw (double x k) (
    omega (
      arith,
      bit_or_digit (x * 2 ^ k * 2) y,
      ap (λ (t : ℕ). bit_or t (y / 2)) half,
      bit_or_join k x (y / 2) (omega (arith, pow-suc 2 k)),
    ))
  where
    half : x * 2 ^ k * 2 / 2 ≡ x * 2 ^ k
    half = omega arith

bit_and-zero : (k x : ℕ) → x ≤ k → bit_and x 0 ≡ 0
bit_and-zero zero x h = rw (zero_of_lt x (omega arith))
bit_and-zero (suc k) zero h = refl
bit_and-zero (suc k) (suc x) h =
    omega (arith, bit_and_digit (suc x) 0, bit_and-zero k (suc x / 2) (omega arith))

-- `y & m`, where `m` is `2 ** k - 1`, keeps `y` if it has at most `k` digits above a multiple.
pub bit_and_keep : (k x y m : ℕ) → m + 1 ≡ 2 ^ k → y < 2 ^ k → bit_and (x * 2 ^ k + y) m ≡ y
bit_and_keep zero x y m h g =
    rw (zero_of_lt y g, zero_of_lt m (omega arith))
      (bit_and-zero (x * 1 + 0) (x * 1 + 0) (le_refl _))
bit_and_keep (suc k) x y m h g = omega (
  arith,
  bit_and_digit (x * 2 ^ suc k + y) m,
  ap (λ (t : ℕ). bit_and t (m / 2)) half,
  bit_and_keep k x (y / 2) (m / 2) (omega (arith, pow-suc 2 k)) (omega (arith, pow-suc 2 k)),
  double x k,
  pow-suc 2 k,
)
  where
    half : (x * 2 ^ suc k + y) / 2 ≡ x * 2 ^ k + y / 2
    half = omega (arith, double x k)
