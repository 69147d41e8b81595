-- ===== src/Pmm/Pages.antt =====
-- `PMM_allocatePages` and `PMM_freePages`: what they give out, take back and refuse.
use mug_os.Base.{
  ℕ, zero, suc, ◌+◌, ◌-◌, ◌*◌, ◌%◌, ◌≤◌, ◌<◌, ◌≡◌, ◌⊎◌, refl, false, inl, inr, ltb, leb, ◌==◌, ◌&&◌,
  if◌then◌else◌, arith, add64, u64_mod,
}
use mug_os.Pmm.{BitmapAllocator, bitmap_bit, page_size, set_bits}
use mug_os.Pmm.Invariant.{IsValid, set_bits-IsValid}
use mug_os.Pmm.Marking.{set_bits_lem}
use mug_os.Pmm.Search.{Scan, found, going, scan_words, allocate_first_fit, allocate_pages}
use mug_os.Pmm.Search.Fit.{IsFree, NoRun, Run, Fits, Scanned, hit, miss, scan_words-Scanned}

-- The blocks that `allocate_firstFit` looks at.
abbrev pub searched : BitmapAllocator → ℕ
searched a = (a.bitmap_length - 1) * 64 + a.n_blocks % 64

-- The blocks from s on were the first run of n free blocks, and are now given out.
pub record GivesOut (a : BitmapAllocator) (n s p : ℕ) (a' : BitmapAllocator) : Type 0 where
  pub in_bounds : s + n ≤ a.n_blocks
  pub in_reach : s + n ≤ searched a
  pub was_free : IsFree a.bitmap s (s + n)
  pub first : NoRun a.bitmap n (s + n - 1)
  pub address : p ≡ (a.start + s * page_size) % u64_mod
  pub marked :
      (k : ℕ)
      → bitmap_bit a'.bitmap k ≡ (if leb s k && ltb k (s + n) then 1 else bitmap_bit a.bitmap k)
  pub counted : a'.allocated_blocks ≡ (a.allocated_blocks + n) % u64_mod
  pub same_blocks : a'.n_blocks ≡ a.n_blocks
  pub same_start : a'.start ≡ a.start
  pub keeps : IsValid a'

-- The two outcomes of an allocation.
abbrev pub Allocates : BitmapAllocator → ℕ → ℕ × BitmapAllocator → Type 0
Allocates a n (p, a') =
    ((s : ℕ) × GivesOut a n s p a') ⊎ (NoRun a.bitmap n (searched a) × (p ≡ 0) × (a' ≡ a))

GivesOut-Fits :
    (a : BitmapAllocator) (n e : ℕ)
    → IsValid a
    → 0 < n
    → Fits a.bitmap n (searched a) e
    → GivesOut a n (e - n) (add64 a.start ((e - n) * page_size)) (set_bits a (e - n) e)
GivesOut-Fits a n e v some_pages f = record {
  in_bounds = omega arith;
  in_reach = omega arith;
  was_free = λ k lo hi. f.run_free k lo (omega arith);
  first = λ s le. f.lowest s (omega arith);
  address = refl;
  marked = λ k. ground (arith, set_bits_lem a (e - n) e k v);
  counted = ground (arith, set_bits_lem a (e - n) e 0 v);
  same_blocks = unfold set_bits in ground arith;
  same_start = unfold set_bits in ground arith;
  keeps = set_bits-IsValid a (e - n) e v;
}

-- On a valid allocator and for at least one page, `PMM_allocatePages` gives out the lowest run of
-- that many free blocks among those that it searches: the run was free, its bits are set and no
-- others change, the address is that of its first block, and the counter grows by its length. If
-- there is no such run it returns 0 and changes nothing.
pub allocate_pages_lem :
    (a : BitmapAllocator) (n_pages : ℕ)
    → IsValid a
    → 0 < n_pages
    → Allocates a n_pages (allocate_pages a n_pages)
unfolding allocate_pages allocate_first_fit
allocate_pages_lem a n v some_pages =
    let nonzero : (n == 0) ≡ false = ground arith in
    rw nonzero (
      finish (scan_words n (a.bitmap_length - 1) (a.n_blocks % 64) 0 a.bitmap 0) (
        scan_words-Scanned a.bitmap n (searched a) (a.bitmap_length - 1) (a.n_blocks % 64) 0 0
          (omega arith) some_pages (omega arith) start))
  where
    start : Run a.bitmap n (0 * 64) 0
    start = record {
      inside = omega arith;
      short = some_pages;
      free = λ k lo hi. absurd (omega arith);
      longest = λ lt. absurd (omega arith);
      none_before = λ s le. absurd (omega arith);
    }

    finish :
        (r : Scan)
        → Scanned a.bitmap n (searched a) (searched a) r
        → Allocates a n (elim r [
          | found e ↦ (add64 a.start ((e - n) * page_size), set_bits a (e - n) e)
          | going m ↦ (0, a)
        ])
    finish (found e) (hit f) = inl (e - n, GivesOut-Fits a n e v some_pages f)
    finish (going m) (miss r) = inr (r.none_before, refl, refl)

-- The last word of the bitmap is not searched when it is a whole one: on a valid allocator where
-- `nBlocks` is a multiple of 64 and all blocks but the last 64 are in use, `PMM_allocatePages` of
-- any number of pages returns 0 and changes nothing, even if those 64 blocks are free.
pub allocate_pages_last_word :
    (a : BitmapAllocator) (n_pages : ℕ)
    → IsValid a
    → a.n_blocks % 64 ≡ 0
    → ((k : ℕ) → k < a.n_blocks - 64 → bitmap_bit a.bitmap k ≡ 1)
    → allocate_pages a n_pages ≡ (0, a)
allocate_pages_last_word a zero v whole used = unfold allocate_pages allocate_first_fit in refl
allocate_pages_last_word a (suc n) v whole used =
    go (allocate_pages a (suc n)) (allocate_pages_lem a (suc n) v (omega arith))
  where
    go : (r : ℕ × BitmapAllocator) → Allocates a (suc n) r → r ≡ (0, a)
    go (p, a') (inl (s, g)) = absurd (
        omega (
          arith,
          g.in_reach,
          v.covers,
          used s (omega (arith, g.in_reach, v.covers)),
          g.was_free s (omega arith) (omega arith),
        ))
    go (p, a') (inr (no_run, null, same)) = λ i. (null i, same i)
