-- ===== src/Pmm/Masks.antt =====
-- The masks of `setBits` and `clearBits`, bit by bit: by evaluation at every index.
use mug_os.Base.{
  ℕ, zero, suc, ◌-◌, ◌<◌, ◌≡◌, refl, Bool, true, ltb, leb, ◌==◌, ==_iff, if◌then◌else◌,
}
use mug_os.Base.Bits.{test_bit, holds_below, holds_below_sound}
use mug_os.Pmm.{all_ones, clear_start_mask, clear_end_mask, set_start_mask, set_end_mask}

-- The mask `m k` has bit 63 - p equal to `want k p`, for all k and p below 64.
abbrev agrees : (ℕ → ℕ) → (ℕ → ℕ → ℕ) → Bool
agrees m want = holds_below (λ k. holds_below (λ p. test_bit (m k) (63 - p) == want k p) 64) 64

agrees_sound :
    (m : ℕ → ℕ) (want : ℕ → ℕ → ℕ) (k p : ℕ)
    → agrees m want ≡ true
    → k < 64
    → p < 64
    → test_bit (m k) (63 - p) ≡ want k p
agrees_sound m want k p h hk hp =
    let row =
      holds_below_sound (λ k. holds_below (λ p. test_bit (m k) (63 - p) == want k p) 64) 64 k hk
        h in
    (==_iff _ _).0 (holds_below_sound (λ p. test_bit (m k) (63 - p) == want k p) 64 p hp row)

set_start_table : agrees set_start_mask (λ k p. if leb k p then 1 else 0) ≡ true
unfolding holds_below test_bit set_start_mask
set_start_table = refl

set_end_table : agrees set_end_mask (λ k p. if ltb p k then 1 else 0) ≡ true
unfolding holds_below test_bit set_end_mask
set_end_table = refl

clear_start_table : agrees clear_start_mask (λ k p. if leb k p then 0 else 1) ≡ true
unfolding holds_below test_bit clear_start_mask
clear_start_table = refl

clear_end_table : agrees clear_end_mask (λ k p. if ltb p k then 0 else 1) ≡ true
unfolding holds_below test_bit clear_end_mask
clear_end_table = refl

-- `setBits` sets the bits from index k on in its first word, and those before k in its last.
pub set_start_mask_lem :
    (k p : ℕ) → k < 64 → p < 64 → test_bit (set_start_mask k) (63 - p) ≡ (if leb k p then 1 else 0)
set_start_mask_lem k p = agrees_sound set_start_mask _ k p set_start_table

pub set_end_mask_lem :
    (k p : ℕ) → k < 64 → p < 64 → test_bit (set_end_mask k) (63 - p) ≡ (if ltb p k then 1 else 0)
set_end_mask_lem k p = agrees_sound set_end_mask _ k p set_end_table

pub clear_start_mask_lem :
    (k p : ℕ)
    → k < 64
    → p < 64
    → test_bit (clear_start_mask k) (63 - p) ≡ (if leb k p then 0 else 1)
clear_start_mask_lem k p = agrees_sound clear_start_mask _ k p clear_start_table

pub clear_end_mask_lem :
    (k p : ℕ) → k < 64 → p < 64 → test_bit (clear_end_mask k) (63 - p) ≡ (if ltb p k then 0 else 1)
clear_end_mask_lem k p = agrees_sound clear_end_mask _ k p clear_end_table

ones_table : holds_below (λ p. test_bit all_ones (63 - p) == 1) 64 ≡ true
unfolding holds_below test_bit
ones_table = refl

pub all_ones-bit : (p : ℕ) → p < 64 → test_bit all_ones (63 - p) ≡ 1
all_ones-bit p h =
    (==_iff _ _).0 (holds_below_sound (λ p. test_bit all_ones (63 - p) == 1) 64 p h ones_table)

pub zero-bit : (i : ℕ) → test_bit 0 i ≡ 0
unfolding test_bit
zero-bit zero = refl
zero-bit (suc i) = zero-bit i
