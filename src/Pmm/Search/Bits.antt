-- ===== src/Pmm/Search/Bits.antt =====
-- One step of a loop that shifts a word: which bit it tests, and which bits are left.
use mug_os.Base.{ℕ, suc, ◌+◌, ◌-◌, ◌*◌, ◌<◌, ◌%◌, ◌/◌, ◌≡◌, ◌∙◌, ap, bit_and, arith, ◌==◌, List}
use mug_os.Base.Bits.{test_bit, test_bit-lt-two}
use mug_os.Base.Shifts.{bit_and-pow, test_bit-shl_one}
use mug_os.Pmm.{shl, bitmap_bit, word}
use mug_os.Pmm.Search.{top_clear}

pub bit_at : (b : List ℕ) (i j : ℕ) → i ≡ j → bitmap_bit b i ≡ bitmap_bit b j
bit_at b i j e = rw e

-- The loop variable `cur` holds the blocks from q on, m of them, in its highest bits.
abbrev pub Holds : List ℕ → ℕ → ℕ → ℕ → Type 0
Holds b cur q m = (p : ℕ) → p < m → test_bit cur (63 - p) ≡ bitmap_bit b (q + p)

-- The highest bit of a word is tested by `cur & 0x8000000000000000`.
pub top_clear_lem : (cur : ℕ) → top_clear cur ≡ (test_bit cur 63 == 0)
top_clear_lem cur = ground (arith, bit_and-pow cur 63, test_bit-lt-two cur 63)

pub low_clear_lem : (cur : ℕ) → (bit_and cur 1 == 0) ≡ (test_bit cur 0 == 0)
low_clear_lem cur = ground (arith, bit_and-pow cur 0, test_bit-lt-two cur 0)

pub test_bit-shl : (cur p : ℕ) → p < 63 → test_bit (shl cur 1) (63 - p) ≡ test_bit cur (62 - p)
test_bit-shl cur p h =
    let e : 63 - p ≡ suc (62 - p) = omega arith in
    rw e (test_bit-shl_one cur (62 - p) (omega arith))

module _ (b : List ℕ) (cur q m : ℕ) where
  pub Holds-shl : m < 64 → Holds b cur q (suc m) → Holds b (shl cur 1) (q + 1) m
  Holds-shl small h p lt =
      test_bit-shl cur p (omega arith)
      ∙ ap (test_bit cur) (omega arith)
      ∙ h (p + 1) (omega arith)
      ∙ bit_at b (q + (p + 1)) (q + 1 + p) (omega arith)

  pub Holds-top : Holds b cur q (suc m) → test_bit cur 63 ≡ bitmap_bit b q
  Holds-top h = h 0 (omega arith) ∙ bit_at b (q + 0) q (omega arith)

-- A whole word holds its 64 blocks.
pub Holds-word : (b : List ℕ) (i : ℕ) → Holds b (word b i) (i * 64) 64
Holds-word b i p h = rw (quotient, remainder)
  where
    quotient : (i * 64 + p) / 64 ≡ i
    quotient = omega arith

    remainder : (i * 64 + p) % 64 ≡ p
    remainder = omega arith
