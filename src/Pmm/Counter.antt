-- ===== src/Pmm/Counter.antt =====
-- `allocatedBlocks` stays in step with the bitmap.
use mug_os.Base.{
  ℕ, zero, suc, ◌+◌, ◌-◌, ◌*◌, ◌≤◌, ◌<◌, ◌≡◌, refl, List, inl, inr, ltb, leb, ◌&&◌, if◌then◌else◌,
  arith, u64_mod,
}
use mug_os.Pmm.{BitmapAllocator, bitmap_bit}
use mug_os.Pmm.Invariant.{IsValid}
use mug_os.Pmm.Search.{allocate_pages, count_free_blocks}
use mug_os.Pmm.Search.Count.{clear_count, clear_count-add, clear_count-eq, count_free_blocks_lem}
use mug_os.Pmm.Pages.{Allocates, allocate_pages_lem}

-- The count depends on the bits of its range only.
clear_count_ext :
    (n q : ℕ) (b c : List ℕ)
    → ((k : ℕ) → q ≤ k → k < q + n → bitmap_bit b k ≡ bitmap_bit c k)
    → clear_count n q b ≡ clear_count n q c
unfolding clear_count
clear_count_ext zero q b c h = refl
clear_count_ext (suc n) q b c h = omega (
  arith,
  h q (omega arith) (omega arith),
  clear_count_ext n (q + 1) b c (λ k lo hi. h k (omega arith) (omega arith)),
)

clear_count_const :
    (n q x : ℕ) (b : List ℕ)
    → ((k : ℕ) → q ≤ k → k < q + n → bitmap_bit b k ≡ x)
    → clear_count n q b ≡ n * (1 - x)
unfolding clear_count
clear_count_const zero q x b h = omega arith
clear_count_const (suc n) q x b h = omega (
  arith,
  h q (omega arith) (omega arith),
  clear_count_const n (q + 1) x b (λ k lo hi. h k (omega arith) (omega arith)),
)

-- Marking a free range takes its length from the count.
clear_count-marked :
    (b c : List ℕ) (s n total : ℕ)
    → s + n ≤ total
    → ((k : ℕ) → s ≤ k → k < s + n → bitmap_bit b k ≡ 0)
    → ((k : ℕ) → bitmap_bit c k ≡ (if leb s k && ltb k (s + n) then 1 else bitmap_bit b k))
    → clear_count total 0 b ≡ clear_count total 0 c + n
clear_count-marked b c s n total le free marked = omega (
  arith,
  split b,
  split c,
  clear_count_ext s 0 b c (λ k lo hi. ground (arith, marked k)),
  clear_count_ext (total - s - n) (s + n) b c (λ k lo hi. ground (arith, marked k)),
  clear_count_const n s 0 b free,
  clear_count_const n s 1 c (λ k lo hi. ground (arith, marked k)),
)
  where
    split :
        (d : List ℕ)
        → clear_count total 0 d
          ≡ clear_count s 0 d + (clear_count n s d + clear_count (total - s - n) (s + n) d)
    split d = omega (
      arith,
      clear_count-eq d total (s + (n + (total - s - n))) 0 0 (omega arith) refl,
      clear_count-add s (n + (total - s - n)) 0 d,
      clear_count-eq d (n + (total - s - n)) (n + (total - s - n)) (0 + s) s refl (omega arith),
      clear_count-add n (total - s - n) s d,
    )

-- On a valid allocator and for at least one page, `PMM_allocatePages` keeps the sum of
-- `allocatedBlocks` and of the number of free blocks that `countFreeBlocks` returns, where that sum
-- is below 2 ^ 64.
pub count_free_blocks-allocate_pages :
    (a : BitmapAllocator) (n_pages : ℕ)
    → IsValid a
    → 0 < n_pages
    → a.allocated_blocks + count_free_blocks a < u64_mod
    → let (p, a') = allocate_pages a n_pages in
      a'.allocated_blocks + count_free_blocks a' ≡ a.allocated_blocks + count_free_blocks a
count_free_blocks-allocate_pages a n v some_pages small =
    go (allocate_pages a n) (allocate_pages_lem a n v some_pages)
  where
    go :
        (r : ℕ × BitmapAllocator)
        → Allocates a n r
        → r.1.allocated_blocks + count_free_blocks r.1 ≡ a.allocated_blocks + count_free_blocks a
    go (p, a') (inl (s, g)) = omega (
      arith,
      g.counted,
      count_free_blocks_lem a v,
      count_free_blocks_lem a' g.keeps,
      clear_count-eq a'.bitmap a'.n_blocks a.n_blocks 0 0 g.same_blocks refl,
      clear_count-marked a.bitmap a'.bitmap s n a.n_blocks g.in_bounds g.was_free g.marked,
    )
    go (p, a') (inr (no_run, null, same)) = rw same
