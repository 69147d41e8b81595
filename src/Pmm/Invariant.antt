-- ===== src/Pmm/Invariant.antt =====
-- The invariant of the bitmap allocator, and that `setBits` and `clearBits` keep it.
use mug_os.Base.{
  ℕ, ◌+◌, ◌*◌, ◌/◌, ◌%◌, ◌^◌, ◌≤◌, ◌<◌, bit_and, bit_or, ◌≡◌, List, ltb, leb, if◌then◌else◌, length,
  arith, u64_mod, Bool-cases, inl, inr,
}
use mug_os.Base.Bits.{bit_or-lt, bit_and-lt}
use mug_os.Pmm.{
  BitmapAllocator, word, set_words, clear_words, set_bits, clear_bits, set_start_mask, set_end_mask,
  clear_end_mask,
}
use mug_os.Pmm.Range.{length-ranged, word-ranged-lt}

-- Every word of a bitmap is a `uint64_t`.
abbrev pub WordsFit : List ℕ → Type 0
WordsFit b = (i : ℕ) → word b i < u64_mod

-- There is at least one block, fewer than 2 ^ 52 since page addresses have 64 bits, and a word for
-- each 64 blocks or rest of them.
pub record IsValid (a : BitmapAllocator) : Type 0 where
  pub some_blocks : 0 < a.n_blocks
  pub few_blocks : a.n_blocks < 2 ^ 52
  pub length_eq : length a.bitmap ≡ a.bitmap_length
  pub covers : a.bitmap_length ≡ (a.n_blocks + 63) / 64
  pub start_word : a.start < u64_mod
  pub counter_word : a.allocated_blocks < u64_mod
  pub words_fit : WordsFit a.bitmap

length-set_words : (b : List ℕ) (s e : ℕ) → length (set_words b s e) ≡ length b
unfolding set_words
length-set_words b s e = length-ranged b s e _ _ _ (λ x. bit_or x (set_end_mask (e % 64)))

length-clear_words : (b : List ℕ) (s e : ℕ) → length (clear_words b s e) ≡ length b
unfolding clear_words
length-clear_words b s e = length-ranged b s e _ _ _ (λ x. bit_and x (clear_end_mask (e % 64)))

set_start_mask-lt : (k : ℕ) → set_start_mask k < u64_mod
unfolding set_start_mask
set_start_mask-lt k = ground arith

set_end_mask-lt : (k : ℕ) → set_end_mask k < u64_mod
unfolding set_end_mask
set_end_mask-lt k = ground arith

module _ (b : List ℕ) (s e : ℕ) (lt : s < e) (le : e ≤ 64 * length b) (fits : WordsFit b) where
  set_words-WordsFit : WordsFit (set_words b s e)
  unfolding set_words
  set_words-WordsFit =
      word-ranged-lt b s e u64_mod _ _ _ (λ x. bit_or x (set_end_mask (e % 64))) lt le fits
        (bit_or-lt 64 _ _ (fits (s / 64)) (bit_and-lt 64 _ _ (set_start_mask-lt (s % 64))))
        (bit_or-lt 64 _ _ (fits (s / 64)) (set_start_mask-lt (s % 64))) (omega arith)
        (λ x h. bit_or-lt 64 x _ h (set_end_mask-lt (e % 64)))

  clear_words-WordsFit : WordsFit (clear_words b s e)
  unfolding clear_words
  clear_words-WordsFit =
      word-ranged-lt b s e u64_mod _ _ _ (λ x. bit_and x (clear_end_mask (e % 64))) lt le fits
        (bit_and-lt 64 _ _ (fits (s / 64))) (bit_and-lt 64 _ _ (fits (s / 64))) (omega arith)
        (λ x h. bit_and-lt 64 x _ h)

-- `setBits` keeps the invariant.
pub set_bits-IsValid : (a : BitmapAllocator) (s e : ℕ) → IsValid a → IsValid (set_bits a s e)
unfolding set_bits
set_bits-IsValid a s e v = elim (Bool-cases (leb e s)) [
  | inl empty ↦ rw empty v
  | inr range ↦ rw range (elim (Bool-cases (leb a.n_blocks s)) [
    | inl outside ↦ rw outside v
    | inr inside ↦ rw inside record {
      some_blocks = v.some_blocks;
      few_blocks = v.few_blocks;
      length_eq = omega (arith, length-set_words a.bitmap s end, v.length_eq);
      covers = v.covers;
      start_word = v.start_word;
      counter_word = omega arith;
      words_fit = set_words-WordsFit a.bitmap s end (ground arith) (ground arith) v.words_fit;
    }
  ])
]
  where
    end : ℕ
    end = if ltb a.n_blocks e then a.n_blocks else e

-- `clearBits` keeps the invariant.
pub clear_bits-IsValid : (a : BitmapAllocator) (s e : ℕ) → IsValid a → IsValid (clear_bits a s e)
unfolding clear_bits
clear_bits-IsValid a s e v = elim (Bool-cases (leb e s)) [
  | inl empty ↦ rw empty v
  | inr range ↦ rw range (elim (Bool-cases (leb a.n_blocks s)) [
    | inl outside ↦ rw outside v
    | inr inside ↦ rw inside record {
      some_blocks = v.some_blocks;
      few_blocks = v.few_blocks;
      length_eq = omega (arith, length-clear_words a.bitmap s end, v.length_eq);
      covers = v.covers;
      start_word = v.start_word;
      counter_word = omega arith;
      words_fit = clear_words-WordsFit a.bitmap s end (ground arith) (ground arith) v.words_fit;
    }
  ])
]
  where
    end : ℕ
    end = if ltb a.n_blocks e then a.n_blocks else e
