-- ===== src/Base/Shifts.antt =====
-- The digits of a shifted word, and the test of one digit by a mask.
use Prim.Native.Nat.{ℕ, zero, suc, ◌+◌, ◌-◌, ◌*◌, ◌/◌, ◌%◌, ◌^◌, ◌<◌, bit_and}
use mathlib.Core.Path.{◌≡◌, refl, ap, sym, ◌∙◌}
use native.Mathlib.Omega.{arith}
use native.Mathlib.Nat.{
  one-le-pow, pow-suc, div-div-eq-div-mul, mod-eq-sub-div-mul, div-mul-le_self, pow-succ',
}
use mug_os.Base.Bits.{test_bit, bit_and_step}

pub bit_and-zero : (x : ℕ) → bit_and x 0 ≡ 0
bit_and-zero x = below_bound (suc x) x (omega arith)
  where
    below_bound : (bound y : ℕ) → y < bound → bit_and y 0 ≡ 0
    below_bound (suc bound) zero lt = refl
    below_bound (suc bound) (suc y) lt =
        omega (arith, below_bound bound (suc y / 2) (omega arith), bit_and_step (suc y) 0)
    below_bound zero y lt = absurd (omega arith)

half-double : (m : ℕ) → m * 2 / 2 ≡ m
half-double m = omega arith

div-one : (x : ℕ) → x / 2 ^ 0 ≡ x
div-one x = omega arith

zero-add : (i : ℕ) → 0 + i ≡ i
zero-add i = omega arith

-- A mask of one digit keeps that digit.
pub bit_and-pow : (x i : ℕ) → bit_and x (2 ^ i) ≡ test_bit x i * 2 ^ i
unfolding test_bit
bit_and-pow x zero = omega (arith, bit_and_step x 1, bit_and-zero (x / 2))
bit_and-pow x (suc i) =
    rw (pow-suc, bit_and_step x (2 ^ i * 2))
      (omega (arith, half-double (2 ^ i), bit_and-pow (x / 2) i, bit_and_halves))
  where
    bit_and_halves : bit_and (x / 2) (2 ^ i * 2 / 2) ≡ bit_and (x / 2) (2 ^ i)
    bit_and_halves = rw (half-double (2 ^ i))

half-mod : (x m : ℕ) → x % (m * 2) / 2 ≡ x / 2 % m
half-mod x m =
    rw (mod-eq-sub-div-mul x (m * 2), mod-eq-sub-div-mul (x / 2) m, same_quotient)
      (half-sub (x / 2 / m))
  where
    same_quotient : x / (m * 2) ≡ x / 2 / m
    same_quotient = ap (λ d. x / d) (omega arith) ∙ sym (div-div-eq-div-mul x 2 m)

    half-sub : (q : ℕ) → (x - q * (m * 2)) / 2 ≡ x / 2 - q * m
    half-sub q = omega arith

pub test_bit-mod : (w x i : ℕ) → i < w → test_bit (x % 2 ^ w) i ≡ test_bit x i
unfolding test_bit
test_bit-mod zero x i h = absurd (omega arith)
test_bit-mod (suc w) x zero h = rw pow-suc (low_digit (2 ^ w))
  where
    low_digit : (m : ℕ) → x % (m * 2) % 2 ≡ x % 2
    low_digit m = omega (arith, mod-eq-sub-div-mul x (m * 2), div-mul-le_self x (m * 2))
test_bit-mod (suc w) x (suc i) h = rw (pow-suc, half-mod) (test_bit-mod w (x / 2) i (omega arith))

-- `x << 1` on 64 bits moves each digit up by one.
pub test_bit-shl_one : (x i : ℕ) → i < 63 → test_bit (x * 2 ^ 1 % 2 ^ 64) (suc i) ≡ test_bit x i
unfolding test_bit
test_bit-shl_one x i h =
    let e : x * 2 ^ 1 % 2 ^ 64 / 2 ≡ x % 2 ^ 63 = omega arith in rw e (test_bit-mod 63 x i h)

pub test_bit-shr : (n x i : ℕ) → test_bit (x / 2 ^ n) i ≡ test_bit x (n + i)
unfolding test_bit
test_bit-shr zero x i = rw (div-one x, zero-add i)
test_bit-shr (suc n) x i =
    rw (suc-add n i, pow-succ', ← div-div-eq-div-mul x 2 (2 ^ n)) (test_bit-shr n (x / 2) i)
  where
    suc-add : (n i : ℕ) → suc n + i ≡ suc (n + i)
    suc-add n i = omega arith

pub pow-pos : (k : ℕ) → 0 < 2 ^ k
pow-pos k = one-le-pow k 2 (omega arith)

-- A mask of the low digits keeps the remainder.
pub bit_and-low_mask : (k x : ℕ) → bit_and x (2 ^ k - 1) ≡ x % 2 ^ k
bit_and-low_mask zero x = omega (arith, bit_and-zero x)
bit_and-low_mask (suc k) x =
    rw (bit_and_step x (2 ^ suc k - 1), pow-suc)
      (omega (
        arith,
        pow-pos k,
        bit_and-low_mask k (x / 2),
        half-mod x (2 ^ k),
        low_digit,
        ap (bit_and (x / 2)) (half_mask (2 ^ k) (pow-pos k)),
      ))
  where
    half_mask : (m : ℕ) → 0 < m → (m * 2 - 1) / 2 ≡ m - 1
    half_mask m h = omega arith

    low_digit : x % (2 ^ k * 2) % 2 ≡ x % 2
    low_digit = omega (arith, mod-eq-sub-div-mul x (2 ^ k * 2), div-mul-le_self x (2 ^ k * 2))

-- A word of ones keeps every smaller word.
pub bit_and-ones : (w m : ℕ) → m < 2 ^ w → bit_and (2 ^ w - 1) m ≡ m
bit_and-ones zero m h = let e : m ≡ 0 = omega arith in rw e
bit_and-ones (suc w) m h =
    rw (bit_and_step (2 ^ suc w - 1) m, pow-suc)
      (omega (
        arith,
        pow-pos w,
        bit_and-ones w (m / 2) (omega (arith, pow-suc 2 w)),
        ap (λ x. bit_and x (m / 2)) (half_mask (2 ^ w) (pow-pos w)),
      ))
  where
    half_mask : (m : ℕ) → 0 < m → (m * 2 - 1) / 2 ≡ m - 1
    half_mask m h = omega arith
