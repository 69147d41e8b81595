-- ===== src/Pmm/Search/Count.antt =====
-- `countFreeBlocks` counts the clear bits of the blocks.
use mug_os.Base.{
  ℕ, zero, suc, ◌+◌, ◌-◌, ◌*◌, ◌/◌, ◌%◌, ◌≤◌, ◌≡◌, ◌∙◌, refl, ap, List, arith, ◌==◌, if◌then◌else◌,
}
use mug_os.Base.Bits.{test_bit, test_bit-lt-two}
use mug_os.Pmm.{BitmapAllocator, word, bitmap_bit, shl}
use mug_os.Pmm.Invariant.{IsValid}
use mug_os.Pmm.Search.{popcount, count_words, count_last, count_free_blocks}
use mug_os.Pmm.Search.Bits.{Holds, Holds-shl, Holds-top, Holds-word, top_clear_lem, bit_at}

-- The number of clear bits among the `n` blocks from `q` on.
unfoldable pub clear_count : ℕ → ℕ → List ℕ → ℕ
clear_count zero q b = 0
clear_count (suc n) q b = (1 - bitmap_bit b q) + clear_count n (q + 1) b

pub clear_count-add :
    (m n q : ℕ) (b : List ℕ) → clear_count (m + n) q b ≡ clear_count m q b + clear_count n (q + m) b
unfolding clear_count
clear_count-add zero n q b = rw (zero_add n, add_zero q) (omega arith)
  where
    zero_add : (n : ℕ) → 0 + n ≡ n
    zero_add n = omega arith

    add_zero : (n : ℕ) → n + 0 ≡ n
    add_zero n = omega arith
clear_count-add (suc m) n q b =
    rw (suc_add m n, add_suc q m) (omega (arith, clear_count-add m n (q + 1) b))
  where
    suc_add : (m n : ℕ) → suc m + n ≡ suc (m + n)
    suc_add m n = omega arith

    add_suc : (q m : ℕ) → q + suc m ≡ q + 1 + m
    add_suc q m = omega arith

count_last_lem :
    (b : List ℕ) (rounds q cur n_bits : ℕ)
    → rounds ≤ 64
    → Holds b cur q rounds
    → count_last rounds cur n_bits ≡ n_bits + clear_count rounds q b
unfolding count_last clear_count
count_last_lem b zero q cur n small h = omega arith
count_last_lem b (suc r) q cur n small h =
    rw (top_clear_lem cur, Holds-top b cur q r h)
      (count_last_lem b r (q + 1) (shl cur 1) _ (omega arith) (Holds-shl b cur q r (omega arith) h)
        ∙ ground (arith, test_bit-lt-two (word b (q / 64)) (63 - q % 64)))

pub clear_count-eq :
    (b : List ℕ) (m n p q : ℕ) → m ≡ n → p ≡ q → clear_count m p b ≡ clear_count n q b
clear_count-eq b m n p q e f = rw (e, f)

popcount_lem :
    (b : List ℕ) (i m : ℕ)
    → m ≤ 64
    → popcount m (word b i) + clear_count m (i * 64 + (64 - m)) b ≡ m
unfolding popcount clear_count
popcount_lem b i zero h = omega arith
popcount_lem b i (suc m) h = omega (
  arith,
  popcount_lem b i m (omega arith),
  ap (λ q. clear_count m q b) next,
  Holds-word b i (63 - m) (omega arith),
  ap (test_bit (word b i)) here,
  bit_at b (i * 64 + (63 - m)) (i * 64 + (64 - suc m)) (omega arith),
  test_bit-lt-two (word b i) m,
)
  where
    next : i * 64 + (64 - suc m) + 1 ≡ i * 64 + (64 - m)
    next = omega arith

    here : 63 - (63 - m) ≡ m
    here = omega arith

count_words_lem :
    (b : List ℕ) (rounds i n_bits : ℕ)
    → count_words rounds i b n_bits ≡ n_bits + clear_count (rounds * 64) (i * 64) b
unfolding count_words clear_count
count_words_lem b zero i n = omega (arith, clear_count-zero)
  where
    clear_count-zero : clear_count (0 * 64) (i * 64) b ≡ 0
    clear_count-zero = refl
count_words_lem b (suc r) i n = rw (more_blocks r) (
    omega (
      arith,
      count_words_lem b r (i + 1) (n + (64 - popcount 64 (word b i))),
      popcount_lem b i 64 (omega arith),
      clear_count-add 64 (r * 64) (i * 64) b,
      clear_count-eq b 64 64 (i * 64 + (64 - 64)) (i * 64) refl (omega arith),
      clear_count-eq b (r * 64) (r * 64) (i * 64 + 64) ((i + 1) * 64) refl (omega arith),
    ))
  where
    more_blocks : (r : ℕ) → suc r * 64 ≡ 64 + r * 64
    more_blocks r = omega arith

-- On a valid allocator, `countFreeBlocks` returns the number of blocks below `nBlocks` whose bit is
-- clear.
pub count_free_blocks_lem :
    (a : BitmapAllocator) → IsValid a → count_free_blocks a ≡ clear_count a.n_blocks 0 a.bitmap
unfolding count_free_blocks
count_free_blocks_lem a v =
    count_last_lem a.bitmap rest (last * 64) _ _ (ground arith)
      (λ p h. Holds-word a.bitmap last p (ground arith))
    ∙ omega (
      arith,
      count_words_lem a.bitmap last 0 0,
      clear_count-add (last * 64) rest 0 a.bitmap,
      clear_count-eq a.bitmap (last * 64) (last * 64) (0 * 64) 0 refl (omega arith),
      clear_count-eq a.bitmap rest rest (0 + last * 64) (last * 64) refl (omega arith),
      clear_count-eq a.bitmap (last * 64 + rest) a.n_blocks 0 0 (ground arith) refl,
    )
  where
    last : ℕ
    last = a.bitmap_length - 1

    rest : ℕ
    rest = if a.n_blocks % 64 == 0 then 64 else a.n_blocks % 64
