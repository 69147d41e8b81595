-- ===== src/Pmm/Search.antt =====
-- Kernel/Memory/PMM.c: the loops that read the bitmap (countFreeBlocks, isFullyAllocated,
-- allocate_firstFit) and the two public operations. Each loop is a recursion on the rounds left. The
-- counters n_bits, i and j stay below 64 * bitmapLength, so they are written without a wrap.
pub mod Bits
pub mod Count
pub mod Fit
pub mod Full
use mug_os.Base.{
  ℕ, zero, suc, ◌+◌, ◌-◌, ◌*◌, ◌/◌, ◌%◌, bit_and, Bool, true, false, not, ◌&&◌, ◌||◌, List, ltb,
  leb, ◌==◌, if◌then◌else◌, add64, sub64, u64_mod,
}
use mug_os.Base.Bits.{test_bit}
use mug_os.Pmm.{BitmapAllocator, word, shl, shr, top_bit, all_ones, page_size, set_bits, clear_bits}

-- `__builtin_popcountll`: the number of digits of a word that are 1.
unfoldable pub popcount : ℕ → ℕ → ℕ
popcount zero x = 0
popcount (suc n) x = test_bit x n + popcount n x

-- `if ((cur & 0x8000000000000000) == 0)`
abbrev pub top_clear : ℕ → Bool
top_clear cur = bit_and cur top_bit == 0

-- The two loops of `countFreeBlocks`.
unfoldable pub count_words : ℕ → ℕ → List ℕ → ℕ → ℕ
count_words zero i b n_bits = n_bits
count_words (suc rounds) i b n_bits =
    count_words rounds (i + 1) b (n_bits + (64 - popcount 64 (word b i)))

unfoldable pub count_last : ℕ → ℕ → ℕ → ℕ
count_last zero cur n_bits = n_bits
count_last (suc rounds) cur n_bits =
    count_last rounds (shl cur 1) (if top_clear cur then n_bits + 1 else n_bits)

unfoldable pub count_free_blocks : BitmapAllocator → ℕ
count_free_blocks a =
    let last = a.bitmap_length - 1 in
    let n_bits = count_words last 0 a.bitmap 0 in
    let n_bits_remaining = if a.n_blocks % 64 == 0 then 64 else a.n_blocks % 64 in
    count_last n_bits_remaining (word a.bitmap last) n_bits

-- The three kinds of loops of `isFullyAllocated`: `cur >>= 1`, whole words, and `cur <<= 1`.
unfoldable pub full_low : ℕ → ℕ → Bool
full_low zero cur = true
full_low (suc rounds) cur =
    let rest = full_low rounds (shr cur 1) in if bit_and cur 1 == 0 then false else rest

unfoldable pub full_words : ℕ → ℕ → List ℕ → Bool
full_words zero i b = true
full_words (suc rounds) i b =
    let rest = full_words rounds (i + 1) b in if not (word b i == all_ones) then false else rest

unfoldable pub full_high : ℕ → ℕ → Bool
full_high zero cur = true
full_high (suc rounds) cur =
    let rest = full_high rounds (shl cur 1) in if top_clear cur then false else rest

-- `isFullyAllocated` once its guards have passed. The middle loop runs while `i < end_index - 1`.
unfoldable pub full_range : List ℕ → ℕ → ℕ → Bool
full_range b start_bit end_bit =
    let start_index = start_bit / 64 in
    let end_index = end_bit / 64 in
    let in_first = start_bit % 64 in
    let in_last = end_bit % 64 in
    if start_index == end_index
    then full_low (end_bit - start_bit) (shr (word b start_index) (64 - in_last))
    else (let first =
          if in_first == 0 then true else full_low (64 - in_first) (word b start_index) in
        let next = if in_first == 0 then start_index else start_index + 1 in
        first && (full_words (end_index - 1 - next) next b && full_high in_last (word b end_index)))

unfoldable pub is_fully_allocated : BitmapAllocator → ℕ → ℕ → Bool
is_fully_allocated a start_bit end_bit =
    if leb end_bit start_bit
    then false
    else if leb a.n_blocks start_bit
    then false
    else if ltb a.n_blocks end_bit
    then false
    else full_range a.bitmap start_bit end_bit

-- How a scan of `allocate_firstFit` ends: at the end of a run that is long enough, or with the
-- length of the free run that it ends in.
pub data Scan : Type 0 where
  found : ℕ → Scan
  going : ℕ → Scan

-- The inner loop, over `rounds` bits of `cur`; `pos` is `i * 64 + j`.
unfoldable pub scan_word : ℕ → ℕ → ℕ → ℕ → ℕ → Scan
scan_word n_pages zero pos cur n_bits = going n_bits
scan_word n_pages (suc rounds) pos cur n_bits =
    let n_bits' = if top_clear cur then n_bits + 1 else 0 in
    let rest = scan_word n_pages rounds (pos + 1) (shl cur 1) n_bits' in
    if n_bits' == n_pages then found (pos + 1) else rest

-- The outer loop, over the whole words from `i` on, and then the bits of the last word.
unfoldable pub scan_words : ℕ → ℕ → ℕ → ℕ → List ℕ → ℕ → Scan
scan_words n_pages zero last i b n_bits = scan_word n_pages last (i * 64) (word b i) n_bits
scan_words n_pages (suc rounds) last i b n_bits =
    elim (scan_word n_pages 64 (i * 64) (word b i) n_bits) [
      | found end_idx ↦ found end_idx
      | going n_bits' ↦ scan_words n_pages rounds last (i + 1) b n_bits'
    ]

-- `allocate_firstFit`: the address of the pages, 0 for `NULL`, and the allocator afterwards.
unfoldable pub allocate_first_fit : BitmapAllocator → ℕ → ℕ × BitmapAllocator
allocate_first_fit a n_pages =
    if n_pages == 0
    then (0, a)
    else elim (scan_words n_pages (a.bitmap_length - 1) (a.n_blocks % 64) 0 a.bitmap 0) [
      | found end_idx ↦
          (add64 a.start ((end_idx - n_pages) * page_size), set_bits a (end_idx - n_pages) end_idx)
      | going n_bits ↦ (0, a)
    ]

-- `PMM_allocatePages`, over the allocator of the module.
unfoldable pub allocate_pages : BitmapAllocator → ℕ → ℕ × BitmapAllocator
allocate_pages m_bitmap_allocator n_pages = allocate_first_fit m_bitmap_allocator n_pages

-- `PMM_freePages`. Where the range is not fully allocated the source logs an error and returns.
unfoldable pub free_pages : BitmapAllocator → ℕ → ℕ → BitmapAllocator
free_pages a addr n_pages =
    let start_bit = sub64 addr a.start / page_size in
    let end_bit = add64 start_bit n_pages in
    if not (is_fully_allocated a start_bit end_bit) then a else clear_bits a start_bit end_bit
