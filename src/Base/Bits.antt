-- ===== src/Base/Bits.antt =====
-- The binary digits of a word, and what `&`, `|` and shifts do to them.
use Prim.Native.Nat.{
  ℕ, zero, suc, ◌+◌, ◌-◌, ◌*◌, ◌/◌, ◌%◌, ◌^◌, ◌≤◌, ◌<◌, min, max, bit_and, bit_or, digits,
  bit_and-bitwise, bit_or-bitwise,
}
use mathlib.Core.Path.{◌≡◌, refl, ap, ◌∙◌}
use mathlib.Core.Bool.{Bool, true, false}
use mug_os.Base.Tests.{if◌then◌else◌}
use native.Mathlib.Omega.{arith}
use native.Mathlib.Nat.{pow-suc, add-zero, add-suc}

-- Digit `i` of `x`, the lowest being digit 0.
unfoldable pub test_bit : ℕ → ℕ → ℕ
test_bit x zero = x % 2
test_bit x (suc i) = test_bit (x / 2) i

pub test_bit-lt-two : (x i : ℕ) → test_bit x i < 2
unfolding test_bit
test_bit-lt-two x zero = omega arith
test_bit-lt-two x (suc i) = test_bit-lt-two (x / 2) i

-- `&` and `|` are recursions on digits, on as many rounds as the first operand says. Rounds past the
-- last digit change nothing.
module _ (last : ℕ → ℕ) (on_digits : ℕ → ℕ → ℕ) where
  one_more : (x y r : ℕ) → x ≤ r → digits last on_digits (suc r) x y ≡ digits last on_digits r x y
  one_more zero y zero le = refl
  one_more zero y (suc r) le = refl
  one_more (suc x) y zero le = absurd (omega arith)
  one_more (suc x) y (suc r) le =
      ap (λ high. high * 2 + on_digits (suc x % 2) (y % 2))
        (one_more (suc x / 2) (y / 2) r (omega arith))

  spare : (s r x y : ℕ) → x ≤ r → digits last on_digits (r + s) x y ≡ digits last on_digits r x y
  spare zero r x y le = rw (add-zero r) refl
  spare (suc s) r x y le = rw (add-suc r s) (one_more x y (r + s) (omega arith) ∙ spare s r x y le)

  lowest :
      (x y : ℕ)
      → digits last on_digits (suc x) (suc x) y
        ≡ digits last on_digits (suc x / 2) (suc x / 2) (y / 2) * 2 + on_digits (suc x % 2) (y % 2)
  lowest x y =
      let rounds : x ≡ suc x / 2 + (x - suc x / 2) = omega arith in
      let fewer : digits last on_digits x (suc x / 2) (y / 2)
          ≡ digits last on_digits (suc x / 2) (suc x / 2) (y / 2) =
        ap (λ r. digits last on_digits r (suc x / 2) (y / 2)) rounds
        ∙ spare (x - suc x / 2) (suc x / 2) (suc x / 2) (y / 2) (omega arith) in
      ap (λ high. high * 2 + on_digits (suc x % 2) (y % 2)) fewer

nothing_and : (y : ℕ) → bit_and 0 y ≡ 0
nothing_and = bit_and-bitwise 0

nothing_or : (y : ℕ) → bit_or 0 y ≡ y
nothing_or = bit_or-bitwise 0

-- `x & y` and `x | y` by their lowest digits.
pub bit_and_step : (x y : ℕ) → bit_and x y ≡ min (x % 2) (y % 2) + 2 * bit_and (x / 2) (y / 2)
bit_and_step zero y = omega (arith, nothing_and y, nothing_and (y / 2))
bit_and_step (suc x) y =
    let native = bit_and-bitwise (suc x) y in
    let halves = bit_and-bitwise (suc x / 2) (y / 2) in
    omega (arith, native, halves, lowest (λ _. zero) min x y)

pub bit_or_step : (x y : ℕ) → bit_or x y ≡ max (x % 2) (y % 2) + 2 * bit_or (x / 2) (y / 2)
bit_or_step zero y = omega (arith, nothing_or y, nothing_or (y / 2))
bit_or_step (suc x) y =
    let native = bit_or-bitwise (suc x) y in
    let halves = bit_or-bitwise (suc x / 2) (y / 2) in
    omega (arith, native, halves, lowest (λ low. low) max x y)

bit_and-half : (a b : ℕ) → bit_and a b / 2 ≡ bit_and (a / 2) (b / 2)
bit_and-half a b = omega (arith, bit_and_step a b)

bit_or-half : (a b : ℕ) → bit_or a b / 2 ≡ bit_or (a / 2) (b / 2)
bit_or-half a b = omega (arith, bit_or_step a b)

pub test_bit-bit_and : (a b i : ℕ) → test_bit (bit_and a b) i ≡ min (test_bit a i) (test_bit b i)
unfolding test_bit
test_bit-bit_and a b zero = omega (arith, bit_and_step a b)
test_bit-bit_and a b (suc i) = rw bit_and-half (test_bit-bit_and (a / 2) (b / 2) i)

pub test_bit-bit_or : (a b i : ℕ) → test_bit (bit_or a b) i ≡ max (test_bit a i) (test_bit b i)
unfolding test_bit
test_bit-bit_or a b zero = omega (arith, bit_or_step a b)
test_bit-bit_or a b (suc i) = rw bit_or-half (test_bit-bit_or (a / 2) (b / 2) i)

-- A test of all numbers below a bound, by evaluation.
unfoldable pub holds_below : (ℕ → Bool) → ℕ → Bool
holds_below test zero = true
holds_below test (suc bound) = if test bound then holds_below test bound else false

pub holds_below_sound :
    (test : ℕ → Bool) (bound k : ℕ) → k < bound → holds_below test bound ≡ true → test k ≡ true
unfolding holds_below
holds_below_sound test (suc bound) k inside checked = ground (arith, holds_below_sound test bound k)
holds_below_sound test zero k inside checked = absurd (omega arith)

-- A bound on the operands is a bound on the result.
pub bit_or-lt : (w a b : ℕ) → a < 2 ^ w → b < 2 ^ w → bit_or a b < 2 ^ w
bit_or-lt zero a b p q = rw (lt-one a p, lt-one b q) (omega arith)
  where
    lt-one : (a : ℕ) → a < 2 ^ 0 → a ≡ 0
    lt-one a h = omega arith
bit_or-lt (suc w) a b p q = omega (
  arith,
  pow-suc 2 w,
  bit_or_step a b,
  bit_or-lt w (a / 2) (b / 2) (omega (arith, pow-suc 2 w)) (omega (arith, pow-suc 2 w)),
)

pub bit_and-lt : (w a b : ℕ) → a < 2 ^ w → bit_and a b < 2 ^ w
bit_and-lt zero a b p = rw (lt-one a p) (omega (arith, nothing_and b))
  where
    lt-one : (a : ℕ) → a < 2 ^ 0 → a ≡ 0
    lt-one a h = omega arith
bit_and-lt (suc w) a b p = omega (
  arith,
  pow-suc 2 w,
  bit_and_step a b,
  bit_and-lt w (a / 2) (b / 2) (omega (arith, pow-suc 2 w)),
)

-- A word whose digits are all 1.
pub all_ones_word : (w x : ℕ) → x < 2 ^ w → ((i : ℕ) → i < w → test_bit x i ≡ 1) → x + 1 ≡ 2 ^ w
unfolding test_bit
all_ones_word zero x p h = omega arith
all_ones_word (suc w) x p h = omega (
  arith,
  pow-suc 2 w,
  h 0 (omega arith),
  all_ones_word w (x / 2) (omega (arith, pow-suc 2 w)) (λ i lt. h (suc i) (omega arith)),
)
