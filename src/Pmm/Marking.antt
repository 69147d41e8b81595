-- ===== src/Pmm/Marking.antt =====
-- `setBits` and `clearBits`: which blocks they mark, and what they do to the counter.
use mug_os.Base.{
  ℕ, ◌+◌, ◌-◌, ◌*◌, ◌/◌, ◌%◌, ◌≤◌, ◌<◌, min, bit_and, bit_or, ◌≡◌, List, ◌&&◌, ltb, leb,
  if◌then◌else◌, length, arith, u64_mod,
}
use mug_os.Base.Bits.{test_bit-bit_and, test_bit-bit_or, test_bit-lt-two}
use mug_os.Pmm.{
  BitmapAllocator, word, bitmap_bit, set_words, clear_words, set_bits, clear_bits, set_start_mask,
  set_end_mask, clear_start_mask, clear_end_mask,
}
use mug_os.Pmm.Masks.{
  set_start_mask_lem, set_end_mask_lem, clear_start_mask_lem, clear_end_mask_lem, all_ones-bit,
  zero-bit,
}
use mug_os.Pmm.Range.{bit-ranged}
use mug_os.Pmm.Invariant.{IsValid}

-- The bits of the range [s, e) are set and no other changes.
pub bit-set_words :
    (b : List ℕ) (s e k : ℕ)
    → s < e
    → e ≤ 64 * length b
    → bitmap_bit (set_words b s e) k ≡ (if leb s k && ltb k e then 1 else bitmap_bit b k)
unfolding set_words
bit-set_words b s e k lt h =
    bit-ranged b s e _ _ _ (λ x. bit_or x em) k 1 lt h
      (λ same. ground (
        arith,
        ap-word b (s / 64) (k / 64),
        test_bit-bit_or (word b (s / 64)) (bit_and sm em) p,
        test_bit-bit_and sm em p,
        test_bit-lt-two (word b (k / 64)) p,
        set_start_mask_lem (s % 64) (k % 64),
        set_end_mask_lem (e % 64) (k % 64),
      ))
      (λ same. ground (
        arith,
        ap-word b (s / 64) (k / 64),
        test_bit-bit_or (word b (s / 64)) sm p,
        test_bit-lt-two (word b (k / 64)) p,
        set_start_mask_lem (s % 64) (k % 64),
      ))
      (all_ones-bit (k % 64) (omega arith))
      (ground (
        arith,
        test_bit-bit_or (word b (k / 64)) em p,
        test_bit-lt-two (word b (k / 64)) p,
        set_end_mask_lem (e % 64) (k % 64),
      ))
  where
    p : ℕ
    p = 63 - k % 64

    sm : ℕ
    sm = set_start_mask (s % 64)

    em : ℕ
    em = set_end_mask (e % 64)

    ap-word : (b : List ℕ) (i j : ℕ) → i ≡ j → word b i ≡ word b j
    ap-word b i j q = rw q

-- The bits of the range [s, e) are cleared and no other changes.
pub bit-clear_words :
    (b : List ℕ) (s e k : ℕ)
    → s < e
    → e ≤ 64 * length b
    → bitmap_bit (clear_words b s e) k ≡ (if leb s k && ltb k e then 0 else bitmap_bit b k)
unfolding clear_words
bit-clear_words b s e k lt h =
    bit-ranged b s e _ _ _ (λ x. bit_and x em) k 0 lt h
      (λ same. ground (
        arith,
        ap-word b (s / 64) (k / 64),
        test_bit-bit_and (word b (s / 64)) (bit_or sm em) p,
        test_bit-bit_or sm em p,
        test_bit-lt-two (word b (k / 64)) p,
        clear_start_mask_lem (s % 64) (k % 64),
        clear_end_mask_lem (e % 64) (k % 64),
      ))
      (λ same. ground (
        arith,
        ap-word b (s / 64) (k / 64),
        test_bit-bit_and (word b (s / 64)) sm p,
        test_bit-lt-two (word b (k / 64)) p,
        clear_start_mask_lem (s % 64) (k % 64),
      ))
      (zero-bit (63 - k % 64))
      (ground (
        arith,
        test_bit-bit_and (word b (k / 64)) em p,
        test_bit-lt-two (word b (k / 64)) p,
        clear_end_mask_lem (e % 64) (k % 64),
      ))
  where
    p : ℕ
    p = 63 - k % 64

    sm : ℕ
    sm = clear_start_mask (s % 64)

    em : ℕ
    em = clear_end_mask (e % 64)

    ap-word : (b : List ℕ) (i j : ℕ) → i ≡ j → word b i ≡ word b j
    ap-word b i j q = rw q

-- On a valid allocator, `setBits` marks the blocks from `start_bit` up to `end_bit`, or up to the
-- last block if that comes first, and leaves every other bit of the bitmap as it was. It adds the
-- number of those blocks to `allocatedBlocks`, modulo 2 ^ 64. An empty range, or one past the last
-- block, changes nothing.
pub set_bits_lem :
    (a : BitmapAllocator) (start_bit end_bit k : ℕ)
    → IsValid a
    → (bitmap_bit (set_bits a start_bit end_bit).bitmap k
        ≡ (if leb start_bit k && ltb k (min end_bit a.n_blocks) then 1 else bitmap_bit a.bitmap k))
      × ((set_bits a start_bit end_bit).allocated_blocks
          ≡ (a.allocated_blocks + (min end_bit a.n_blocks - start_bit)) % u64_mod)
unfolding set_bits
set_bits_lem a s e k v = ground (arith, bit-set_words a.bitmap s (min e a.n_blocks) k)

-- On a valid allocator, `clearBits` frees the blocks from `start_bit` up to `end_bit`, or up to the
-- last block if that comes first, and leaves every other bit of the bitmap as it was. It takes the
-- number of those blocks from `allocatedBlocks`, modulo 2 ^ 64. An empty range, or one past the
-- last block, changes nothing.
pub clear_bits_lem :
    (a : BitmapAllocator) (start_bit end_bit k : ℕ)
    → IsValid a
    → (bitmap_bit (clear_bits a start_bit end_bit).bitmap k
        ≡ (if leb start_bit k && ltb k (min end_bit a.n_blocks) then 0 else bitmap_bit a.bitmap k))
      × ((clear_bits a start_bit end_bit).allocated_blocks
          ≡ (a.allocated_blocks + u64_mod - (min end_bit a.n_blocks - start_bit)) % u64_mod)
unfolding clear_bits
clear_bits_lem a s e k v = ground (arith, bit-clear_words a.bitmap s (min e a.n_blocks) k)
