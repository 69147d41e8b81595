-- ===== src/Pmm/Tests.antt =====
-- Tests of the bitmap allocator, on one of 70 blocks whose first three are in use, and on one of 128
-- blocks whose first 64 are.
use mug_os.Base.{ℕ, zero, suc, ◌+◌, ◌*◌, ◌%◌, ◌<◌, ◌≡◌, refl, arith, [], ◌∷◌, ◌==◌, u64_mod, inl}
use mug_os.Pmm.{
  BitmapAllocator, page_size, bitmap_bit, set_bits, clear_bits, set_words, clear_words, fill,
  set_start_mask, set_end_mask, clear_start_mask, clear_end_mask,
}
use mug_os.Base.Bits.{test_bit, holds_below, holds_below_sound}
use mug_os.Pmm.Invariant.{IsValid, WordsFit}
use mug_os.Pmm.Search.{
  allocate_pages, allocate_first_fit, scan_words, scan_word, free_pages, is_fully_allocated,
  full_range, full_low, full_high, full_words, count_free_blocks, count_words, count_last, popcount,
}
use mug_os.Pmm.Search.Full.{IsUsed}
use mug_os.Pmm.Pages.{Allocates, allocate_pages_lem, allocate_pages_last_word}
use mug_os.Pmm.Freeing.{TakesBack, free_pages_refuses, free_pages_lem, free_pages-allocate_pages}
use mug_os.Pmm.Counter.{count_free_blocks-allocate_pages}

abbrev seventy : BitmapAllocator
seventy = record {
  n_blocks = 70;
  start = 0x10_0000;
  allocatable_blocks = 67;
  allocated_blocks = 3;
  bitmap = 0xe000_0000_0000_0000 ∷ 0 ∷ [];
  bitmap_length = 2;
}

abbrev half : BitmapAllocator
half = record {
  n_blocks = 128;
  start = 0x10_0000;
  allocatable_blocks = 128;
  allocated_blocks = 64;
  bitmap = 0xffff_ffff_ffff_ffff ∷ 0 ∷ [];
  bitmap_length = 2;
}

two_words-WordsFit : (x y : ℕ) → x < u64_mod → y < u64_mod → WordsFit (x ∷ y ∷ [])
two_words-WordsFit x y hx hy zero = hx
two_words-WordsFit x y hx hy (suc zero) = hy
two_words-WordsFit x y hx hy (suc (suc i)) = omega arith

seventy-IsValid : IsValid seventy
seventy-IsValid = record {
  some_blocks = omega arith;
  few_blocks = omega arith;
  length_eq = refl;
  covers = refl;
  start_word = omega arith;
  counter_word = omega arith;
  words_fit = two_words-WordsFit _ _ (omega arith) (omega arith);
}

half-IsValid : IsValid half
half-IsValid = record {
  some_blocks = omega arith;
  few_blocks = omega arith;
  length_eq = refl;
  covers = refl;
  start_word = omega arith;
  counter_word = omega arith;
  words_fit = two_words-WordsFit _ _ (omega arith) (omega arith);
}

-- The address of two pages taken from the 70 blocks.
allocate_two : (allocate_pages seventy 2).0 ≡ 0x10_3000
unfolding allocate_pages allocate_first_fit scan_words scan_word
allocate_two = refl

two_marked : (allocate_pages seventy 2).1.bitmap ≡ 0xf800_0000_0000_0000 ∷ 0 ∷ []
unfolding allocate_pages allocate_first_fit scan_words scan_word set_bits set_words fill
    set_start_mask set_end_mask
two_marked = refl

count_seventy : count_free_blocks seventy ≡ 67
unfolding count_free_blocks count_words count_last popcount test_bit
count_seventy = refl

-- A second free of the same pages is refused.
free_twice :
    free_pages (free_pages seventy 0x10_1000 2) 0x10_1000 2 ≡ free_pages seventy 0x10_1000 2
unfolding free_pages is_fully_allocated full_range full_low full_high full_words clear_bits
    clear_words fill clear_start_mask clear_end_mask
free_twice = refl

allocate_pages_lem_example : Allocates seventy 2 (allocate_pages seventy 2)
allocate_pages_lem_example = allocate_pages_lem seventy 2 seventy-IsValid (omega arith)

free_pages-allocate_pages_example :
    let (p, a') = allocate_pages seventy 2 in
    (bitmap_bit (free_pages a' p 2).bitmap 3 ≡ bitmap_bit seventy.bitmap 3)
    × ((free_pages a' p 2).allocated_blocks ≡ seventy.allocated_blocks)
free_pages-allocate_pages_example =
    free_pages-allocate_pages seventy 2 3 seventy-IsValid (omega arith)
      (λ e. absurd (omega (arith, allocate_two, e)))

half_used : (k : ℕ) → k < 64 → bitmap_bit half.bitmap k ≡ 1
unfolding holds_below test_bit
half_used k h =
    let set_here = holds_below_sound (λ x. bitmap_bit half.bitmap x == 1) 64 k h refl in
    ground arith

half-IsUsed : IsUsed half.bitmap 2 (2 + 3)
half-IsUsed k lo hi = half_used k (omega arith)

free_pages_lem_example :
    TakesBack half 2 3 (free_pages half ((half.start + 2 * page_size) % u64_mod) 3)
free_pages_lem_example =
    free_pages_lem half 2 3 half-IsValid (omega arith) (omega arith) half-IsUsed

free_pages_refuses_example : free_pages seventy 0x10_1000 4 ≡ seventy
unfolding test_bit
free_pages_refuses_example =
    free_pages_refuses seventy 0x10_1000 4 3 (omega arith) (omega arith) (inl (omega arith)) refl

count_free_blocks-allocate_pages_example :
    let (p, a') = allocate_pages seventy 2 in
    a'.allocated_blocks + count_free_blocks a'
    ≡ seventy.allocated_blocks + count_free_blocks seventy
count_free_blocks-allocate_pages_example =
    count_free_blocks-allocate_pages seventy 2 seventy-IsValid (omega arith)
      (omega (arith, count_seventy))

allocate_pages_last_word_example : allocate_pages half 5 ≡ (0, half)
allocate_pages_last_word_example = allocate_pages_last_word half 5 half-IsValid refl half_used
