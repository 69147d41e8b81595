-- ===== src/Pmm.antt =====
-- Kernel/Memory/PMM.c: the bitmap allocator of physical pages. Block k is bit 63 - k % 64 of word
-- k / 64 of the bitmap, so the blocks run from the highest bit of each word to the lowest. A bit is
-- set when its block is in use. Words are natural numbers, wrapped by `% 2 ^ 64` as C wraps them.
pub mod Masks
pub mod Range
pub mod Invariant
pub mod Marking
pub mod Search
pub mod Pages
pub mod Freeing
pub mod Counter
mod Tests
use mug_os.Base.{
  ℕ, zero, suc, ◌+◌, ◌-◌, ◌*◌, ◌/◌, ◌%◌, ◌^◌, min, bit_and, bit_or, Bool, true, false, not, ◌&&◌,
  List, ltb, leb, ◌==◌, if◌then◌else◌, add64, sub64, u64_mod, length, get_or, set,
}
use mug_os.Base.Bits.{test_bit}

-- `struct BitmapAllocator`. The words that `bitmap` points to are part of the record.
pub record BitmapAllocator : Type 0 where
  pub n_blocks : ℕ
  pub start : ℕ
  pub allocatable_blocks : ℕ
  pub allocated_blocks : ℕ
  pub bitmap : List ℕ
  pub bitmap_length : ℕ

abbrev pub page_size : ℕ
page_size = 4096

abbrev pub all_ones : ℕ
all_ones = 0xffff_ffff_ffff_ffff

abbrev pub top_bit : ℕ
top_bit = 0x8000_0000_0000_0000

-- `x << k`, `x >> k` and `~x` on `uint64_t`.
abbrev pub shl : ℕ → ℕ → ℕ
shl x k = x * 2 ^ k % u64_mod

abbrev pub shr : ℕ → ℕ → ℕ
shr x k = x / 2 ^ k

abbrev pub complement : ℕ → ℕ
complement x = all_ones - x

-- `bitmap[i]`. A read outside the bitmap gives 0 and a write there is lost; both are excluded by the
-- invariant, but for one read of `isFullyAllocated`.
abbrev pub word : List ℕ → ℕ → ℕ
word b i = get_or b i 0

-- The bit of block k.
abbrev pub bitmap_bit : List ℕ → ℕ → ℕ
bitmap_bit b k = test_bit (word b (k / 64)) (63 - k % 64)

-- The four masks of `clearBits` and `setBits`.
unfoldable pub clear_start_mask : ℕ → ℕ
clear_start_mask k = if k == 0 then 0 else complement (shl 1 (64 - k) - 1)

unfoldable pub clear_end_mask : ℕ → ℕ
clear_end_mask k = if k == 0 then all_ones else complement (shl (shl 1 k - 1) (64 - k))

unfoldable pub set_start_mask : ℕ → ℕ
set_start_mask k = if k == 0 then all_ones else shl 1 (64 - k) - 1

unfoldable pub set_end_mask : ℕ → ℕ
set_end_mask k = if k == 0 then 0 else shl (shl 1 k - 1) (64 - k)

-- `for (i = …) bitmap[i] = v`, with the number of rounds first.
unfoldable pub fill : ℕ → ℕ → ℕ → List ℕ → List ℕ
fill zero i v b = b
fill (suc n) i v b = fill n (i + 1) v (set b i v)

-- The writes of `clearBits`, once the range is known to be in bounds.
unfoldable pub clear_words : List ℕ → ℕ → ℕ → List ℕ
clear_words b start_bit end_bit =
    let start_mask = clear_start_mask (start_bit % 64) in
    let end_mask = clear_end_mask (end_bit % 64) in
    let start_index = start_bit / 64 in
    let end_index = end_bit / 64 in
    if start_index == end_index
    then set b start_index (bit_and (word b start_index) (bit_or start_mask end_mask))
    else (let b₁ = set b start_index (bit_and (word b start_index) start_mask) in
        let b₂ = fill (end_index - (start_index + 1)) (start_index + 1) 0 b₁ in
        if not (end_bit % 64 == 0)
        then set b₂ end_index (bit_and (word b₂ end_index) end_mask)
        else b₂)

unfoldable pub clear_bits : BitmapAllocator → ℕ → ℕ → BitmapAllocator
clear_bits a start_bit end_bit =
    if leb end_bit start_bit
    then a
    else if leb a.n_blocks start_bit
    then a
    else (let end = if ltb a.n_blocks end_bit then a.n_blocks else end_bit in
        record a {
          allocated_blocks = sub64 a.allocated_blocks (end - start_bit);
          bitmap = clear_words a.bitmap start_bit end;
        })

-- The writes of `setBits`.
unfoldable pub set_words : List ℕ → ℕ → ℕ → List ℕ
set_words b start_bit end_bit =
    let start_mask = set_start_mask (start_bit % 64) in
    let end_mask = set_end_mask (end_bit % 64) in
    let start_index = start_bit / 64 in
    let end_index = end_bit / 64 in
    if start_index == end_index
    then set b start_index (bit_or (word b start_index) (bit_and start_mask end_mask))
    else (let b₁ = set b start_index (bit_or (word b start_index) start_mask) in
        let b₂ = fill (end_index - (start_index + 1)) (start_index + 1) all_ones b₁ in
        if not (end_bit % 64 == 0)
        then set b₂ end_index (bit_or (word b₂ end_index) end_mask)
        else b₂)

unfoldable pub set_bits : BitmapAllocator → ℕ → ℕ → BitmapAllocator
set_bits a start_bit end_bit =
    if leb end_bit start_bit
    then a
    else if leb a.n_blocks start_bit
    then a
    else (let end = if ltb a.n_blocks end_bit then a.n_blocks else end_bit in
        record a {
          allocated_blocks = add64 a.allocated_blocks (end - start_bit);
          bitmap = set_words a.bitmap start_bit end;
        })

-- `getSizeAsPages`.
unfoldable pub get_size_as_pages : ℕ → ℕ
get_size_as_pages n_bytes = add64 n_bytes (page_size - 1) / page_size
