-- ===== src/Pmm/Freeing.antt =====
-- `PMM_freePages`: what it takes back, what it refuses, and the word that it does not look at.
use mug_os.Base.{
  ℕ, zero, suc, ◌+◌, ◌-◌, ◌*◌, ◌/◌, ◌%◌, ◌≤◌, ◌<◌, ◌≡◌, ◌≢◌, ap, refl, List, true, inl, inr, ltb,
  leb, ◌&&◌, if◌then◌else◌, arith, add64, sub64, u64_mod, Bool-cases, set, get_or-set_ne,
}
use mug_os.Pmm.{BitmapAllocator, word, bitmap_bit, page_size}
use mug_os.Pmm.Invariant.{IsValid, clear_bits-IsValid}
use mug_os.Pmm.Marking.{clear_bits_lem}
use mug_os.Pmm.Search.{
  allocate_pages, free_pages, full_range, full_words, full_low, full_high, is_fully_allocated,
}
use mug_os.Pmm.Search.Full.{
  IsUsed, Looked, full_range_sound, is_fully_allocated_sound, is_fully_allocated_complete,
}
use mug_os.Pmm.Pages.{Allocates, allocate_pages_lem}

-- The blocks that `PMM_freePages` computes from its arguments.
abbrev pub first_block : BitmapAllocator → ℕ → ℕ
first_block a addr = sub64 addr a.start / page_size

abbrev pub end_block : BitmapAllocator → ℕ → ℕ → ℕ
end_block a addr n = add64 (first_block a addr) n

-- A free block in the range makes `PMM_freePages` refuse the call and change nothing, unless it lies
-- in the word that is passed over: the whole word of the range just before the word of its end.
pub free_pages_refuses :
    (a : BitmapAllocator) (addr n_pages k : ℕ)
    → first_block a addr ≤ k
    → k < end_block a addr n_pages
    → Looked (first_block a addr) (end_block a addr n_pages) k
    → bitmap_bit a.bitmap k ≡ 0
    → free_pages a addr n_pages ≡ a
unfolding free_pages
free_pages_refuses a addr n k lo hi look free =
    elim (Bool-cases (is_fully_allocated a (first_block a addr) (end_block a addr n))) [
      | inl full ↦ absurd (used (is_fully_allocated_sound a _ _ k full))
      | inr no_full ↦ rw no_full
    ]
  where
    used :
        (first_block a addr < end_block a addr n)
          × (end_block a addr n ≤ a.n_blocks)
          × (full_range a.bitmap (first_block a addr) (end_block a addr n) ≡ true)
        → ⊥
    used (lt, le, h) = omega (arith, full_range_sound a.bitmap _ _ k lt h lo hi look)

-- What an accepted call does: the range is in bounds, its blocks are free now, no other bit has
-- changed, and the counter has fallen by the number of pages.
pub record TakesBack (a : BitmapAllocator) (s n : ℕ) (a' : BitmapAllocator) : Type 0 where
  pub in_bounds : s + n ≤ a.n_blocks
  pub cleared :
      (k : ℕ)
      → bitmap_bit a'.bitmap k ≡ (if leb s k && ltb k (s + n) then 0 else bitmap_bit a.bitmap k)
  pub counted : a'.allocated_blocks ≡ (a.allocated_blocks + u64_mod - n) % u64_mod
  pub keeps : IsValid a'

-- A range of blocks that are all in use, given by the address of its first, is taken back by
-- `PMM_freePages`, on a valid allocator: exactly those blocks become free.
pub free_pages_lem :
    (a : BitmapAllocator) (s n_pages : ℕ)
    → IsValid a
    → 0 < n_pages
    → s + n_pages ≤ a.n_blocks
    → IsUsed a.bitmap s (s + n_pages)
    → TakesBack a s n_pages (free_pages a ((a.start + s * page_size) % u64_mod) n_pages)
unfolding free_pages
free_pages_lem a s n v some_pages le used =
    let from : first_block a ((a.start + s * page_size) % u64_mod) ≡ s = omega arith in
    let to : add64 s n ≡ s + n = omega arith in
    let full : is_fully_allocated a s (s + n) ≡ true =
      is_fully_allocated_complete a s (s + n) v (omega arith) le used in
    rw (from, to, full)
      record {
        in_bounds = le;
        cleared = λ k. ground (arith, clear_bits_lem a s (s + n) k v);
        counted = ground (arith, clear_bits_lem a s (s + n) 0 v);
        keeps = clear_bits-IsValid a s (s + n) v;
      }

-- On a valid allocator and for at least one page, freeing what `PMM_allocatePages` has just given
-- out restores every bit of the bitmap and the counter.
pub free_pages-allocate_pages :
    (a : BitmapAllocator) (n_pages k : ℕ)
    → IsValid a
    → 0 < n_pages
    → (allocate_pages a n_pages).0 ≢ 0
    → let (p, a') = allocate_pages a n_pages in
      (bitmap_bit (free_pages a' p n_pages).bitmap k ≡ bitmap_bit a.bitmap k)
      × ((free_pages a' p n_pages).allocated_blocks ≡ a.allocated_blocks)
free_pages-allocate_pages a n k v some_pages success =
    go (allocate_pages a n) (allocate_pages_lem a n v some_pages) success
  where
    go :
        (r : ℕ × BitmapAllocator)
        → Allocates a n r
        → r.0 ≢ 0
        → (bitmap_bit (free_pages r.1 r.0 n).bitmap k ≡ bitmap_bit a.bitmap k)
          × ((free_pages r.1 r.0 n).allocated_blocks ≡ a.allocated_blocks)
    go (p, a') (inr (no_run, null, same)) ne = absurd (ne null)
    go (p, a') (inl (s, g)) ne = rw same_address (
      ground (arith, t.cleared k, g.marked k, g.was_free k),
      ground (arith, t.counted, g.counted, v.counter_word),
    )
      where
        same_address : p ≡ (a'.start + s * page_size) % u64_mod
        same_address = rw g.same_start g.address

        t : TakesBack a' s n (free_pages a' ((a'.start + s * page_size) % u64_mod) n)
        t =
            free_pages_lem a' s n g.keeps some_pages (omega (arith, g.in_bounds, g.same_blocks))
              (λ j lo hi. ground (arith, g.marked j))

full_words-set :
    (b : List ℕ) (v rounds i w : ℕ)
    → i + rounds ≤ w
    → full_words rounds i (set b w v) ≡ full_words rounds i b
unfolding full_words
full_words-set b v zero i w le = refl
full_words-set b v (suc rounds) i w le =
    let same : word (set b w v) i ≡ word b i = get_or-set_ne b v 0 (omega arith) in
    rw (same, full_words-set b v rounds (i + 1) w (omega arith))

-- The word just before the word of the range's end, where it lies whole in the range or after its
-- start, is not looked at by `isFullyAllocated`: whatever is written to it, the answer is the same.
-- So a free block in it is never detected.
pub is_fully_allocated-set_skipped :
    (a : BitmapAllocator) (s e v : ℕ)
    → 64 ≤ e
    → s ≤ (e / 64 - 1) * 64
    → is_fully_allocated (record a { bitmap = set a.bitmap (e / 64 - 1) v }) s e
      ≡ is_fully_allocated a s e
unfolding is_fully_allocated full_range
is_fully_allocated-set_skipped a s e v large le = ground (
  arith,
  full_words-set a.bitmap v (e / 64 - 1 - s / 64) (s / 64) (e / 64 - 1) (omega arith),
  full_words-set a.bitmap v (e / 64 - 1 - (s / 64 + 1)) (s / 64 + 1) (e / 64 - 1),
  word_elsewhere (s / 64),
  ap (full_high (e % 64)) (word_elsewhere (e / 64) (omega arith)),
  λ (ne : e / 64 - 1 ≢ s / 64). ap (full_low (64 - s % 64)) (word_elsewhere (s / 64) ne),
)
  where
    word_elsewhere :
        (j : ℕ) → e / 64 - 1 ≢ j → word (set a.bitmap (e / 64 - 1) v) j ≡ word a.bitmap j
    word_elsewhere j ne = get_or-set_ne a.bitmap v 0 ne
