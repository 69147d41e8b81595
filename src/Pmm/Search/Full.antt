-- ===== src/Pmm/Search/Full.antt =====
-- `isFullyAllocated`: which bits its answer depends on.
use mug_os.Base.{
  ℕ, zero, suc, ◌+◌, ◌-◌, ◌*◌, ◌/◌, ◌%◌, ◌<◌, ◌≤◌, ◌≡◌, ◌≢◌, ◌∙◌, refl, ap, sym, List, arith, ◌==◌,
  Bool-cases, inl, inr, true, ◌⊎◌,
}
use mug_os.Base.Bits.{test_bit, test_bit-lt-two, all_ones_word}
use mug_os.Base.Shifts.{test_bit-shr}
use mug_os.Pmm.{BitmapAllocator, word, bitmap_bit, shl, shr, all_ones}
use mug_os.Pmm.Invariant.{IsValid, WordsFit}
use mug_os.Pmm.Masks.{all_ones-bit}
use mug_os.Pmm.Search.{full_low, full_high, full_words, full_range, is_fully_allocated}
use mug_os.Pmm.Search.Bits.{
  Holds, Holds-shl, Holds-top, Holds-word, top_clear_lem, low_clear_lem, bit_at,
}

-- The blocks from `lo` up to `hi` are in use.
abbrev pub IsUsed : List ℕ → ℕ → ℕ → Type 0
IsUsed b lo hi = (k : ℕ) → lo ≤ k → k < hi → bitmap_bit b k ≡ 1

-- `bitmap[end_index - 1]` is passed over where it lies whole in the range.
abbrev pub Looked : ℕ → ℕ → ℕ → Type 0
Looked s e k = (k / 64 + 1 ≢ e / 64) ⊎ (k / 64 * 64 < s)

full_low_sound : (rounds cur i : ℕ) → full_low rounds cur ≡ true → i < rounds → test_bit cur i ≡ 1
unfolding full_low test_bit
full_low_sound zero cur i h lt = absurd (omega arith)
full_low_sound (suc r) cur zero h lt = ground (arith, low_clear_lem cur, test_bit-lt-two cur 0)
full_low_sound (suc r) cur (suc i) h lt =
    full_low_sound r (shr cur 1) i (ground arith) (omega arith)

full_low_complete :
    (rounds cur : ℕ) → ((i : ℕ) → i < rounds → test_bit cur i ≡ 1) → full_low rounds cur ≡ true
unfolding full_low test_bit
full_low_complete zero cur h = refl
full_low_complete (suc r) cur h = ground (
  arith,
  low_clear_lem cur,
  h 0 (omega arith),
  full_low_complete r (shr cur 1) (λ i lt. h (suc i) (omega arith)),
)

module _ (b : List ℕ) where
  full_high_sound :
      (rounds cur q : ℕ)
      → rounds ≤ 64
      → Holds b cur q rounds
      → full_high rounds cur ≡ true
      → IsUsed b q (q + rounds)
  unfolding full_high
  full_high_sound zero cur q small h t k lo hi = absurd (omega arith)
  full_high_sound (suc r) cur q small h t k lo hi = elim (Bool-cases (k == q)) [
    | inl e ↦
        bit_at b k q (ground arith)
        ∙ sym (Holds-top b cur q r h)
        ∙ ground (arith, top_clear_lem cur, test_bit-lt-two cur 63)
    | inr ne ↦
        full_high_sound r (shl cur 1) (q + 1) (omega arith) (Holds-shl b cur q r (omega arith) h)
          (ground arith) k (ground arith) (omega arith)
  ]

  full_high_complete :
      (rounds cur q : ℕ)
      → rounds ≤ 64
      → Holds b cur q rounds
      → IsUsed b q (q + rounds)
      → full_high rounds cur ≡ true
  unfolding full_high
  full_high_complete zero cur q small h t = refl
  full_high_complete (suc r) cur q small h t = ground (
    arith,
    top_clear_lem cur,
    Holds-top b cur q r h,
    t q (omega arith) (omega arith),
    full_high_complete r (shl cur 1) (q + 1) (omega arith) (Holds-shl b cur q r (omega arith) h)
        (λ k lo hi. t k (omega arith) (omega arith)),
  )

  full_words_sound :
      (rounds i k : ℕ)
      → full_words rounds i b ≡ true
      → i * 64 ≤ k
      → k < (i + rounds) * 64
      → bitmap_bit b k ≡ 1
  unfolding full_words
  full_words_sound zero i k h lo hi = absurd (omega arith)
  full_words_sound (suc r) i k h lo hi = elim (Bool-cases (k / 64 == i)) [
    | inl e ↦ ap (λ x. test_bit x (63 - k % 64)) (whole e) ∙ all_ones-bit (k % 64) (omega arith)
    | inr ne ↦ full_words_sound r (i + 1) k (ground arith) (ground arith) (omega arith)
  ]
    where
      whole : (k / 64 == i) ≡ true → word b (k / 64) ≡ all_ones
      whole e = let same : k / 64 ≡ i = ground arith in rw same (ground arith)

  full_words_complete :
      (rounds i : ℕ)
      → WordsFit b
      → IsUsed b (i * 64) ((i + rounds) * 64)
      → full_words rounds i b ≡ true
  unfolding full_words
  full_words_complete zero i fits h = refl
  full_words_complete (suc r) i fits h = ground (
    arith,
    all_ones_word 64 (word b i) (fits i) digit,
    full_words_complete r (i + 1) fits (λ k lo hi. h k (omega arith) (omega arith)),
  )
    where
      digit : (p : ℕ) → p < 64 → test_bit (word b i) p ≡ 1
      digit p lt =
          ap (test_bit (word b i)) (omega arith)
          ∙ Holds-word b i (63 - p) (omega arith)
          ∙ h (i * 64 + (63 - p)) (omega arith) (omega arith)

  word_bit : (i k j : ℕ) → k / 64 ≡ i → 63 - k % 64 ≡ j → test_bit (word b i) j ≡ bitmap_bit b k
  word_bit i k j e f = rw (← e, ← f)

  one_word_sound :
      (s e k : ℕ)
      → s / 64 ≡ e / 64
      → full_low (e - s) (shr (word b (s / 64)) (64 - e % 64)) ≡ true
      → s ≤ k
      → k < e
      → bitmap_bit b k ≡ 1
  one_word_sound s e k same h lo hi =
      sym (word_bit (s / 64) k (64 - e % 64 + (e - 1 - k)) (omega arith) (omega arith))
      ∙ sym (test_bit-shr (64 - e % 64) (word b (s / 64)) (e - 1 - k))
      ∙ full_low_sound (e - s) (shr (word b (s / 64)) (64 - e % 64)) (e - 1 - k) h (omega arith)

  one_word_complete :
      (s e : ℕ)
      → s < e
      → s / 64 ≡ e / 64
      → IsUsed b s e
      → full_low (e - s) (shr (word b (s / 64)) (64 - e % 64)) ≡ true
  one_word_complete s e lt same h =
      full_low_complete (e - s) (shr (word b (s / 64)) (64 - e % 64)) λ i small.
        test_bit-shr (64 - e % 64) (word b (s / 64)) i
        ∙ word_bit (s / 64) (e - 1 - i) (64 - e % 64 + i) (omega arith) (omega arith)
        ∙ h (e - 1 - i) (omega arith) (omega arith)

  -- The rest of the first word, where the range starts inside it.
  first_word_sound :
      (s k : ℕ)
      → full_low (64 - s % 64) (word b (s / 64)) ≡ true
      → s ≤ k
      → k / 64 ≡ s / 64
      → bitmap_bit b k ≡ 1
  first_word_sound s k h lo same =
      rw same (full_low_sound (64 - s % 64) (word b (s / 64)) (63 - k % 64) h (omega arith))

  first_word_complete :
      (s : ℕ) → IsUsed b s ((s / 64 + 1) * 64) → full_low (64 - s % 64) (word b (s / 64)) ≡ true
  first_word_complete s h = full_low_complete (64 - s % 64) (word b (s / 64)) λ i small.
      word_bit (s / 64) (s / 64 * 64 + (63 - i)) i (omega arith) (omega arith)
      ∙ h (s / 64 * 64 + (63 - i)) (omega arith) (omega arith)

  pub full_range_sound :
      (s e k : ℕ)
      → s < e
      → full_range b s e ≡ true
      → s ≤ k
      → k < e
      → Looked s e k
      → bitmap_bit b k ≡ 1
  unfolding full_range
  full_range_sound s e k lt h lo hi look = ground (
    arith,
    one_word_sound s e k,
    first_word_sound s k,
    full_words_sound (e / 64 - 1 - s / 64) (s / 64) k,
    full_words_sound (e / 64 - 1 - (s / 64 + 1)) (s / 64 + 1) k,
    last,
  )
    where
      last : full_high (e % 64) (word b (e / 64)) ≡ true → e / 64 * 64 ≤ k → bitmap_bit b k ≡ 1
      last t from =
          full_high_sound (e % 64) (word b (e / 64)) (e / 64 * 64) (omega arith)
            (λ p small. Holds-word b (e / 64) p (omega arith)) t k from (omega arith)

  pub full_range_complete : (s e : ℕ) → s < e → WordsFit b → IsUsed b s e → full_range b s e ≡ true
  unfolding full_range
  full_range_complete s e lt fits h = elim (Bool-cases (s / 64 == e / 64)) [
    | inl same ↦ rw same (one_word_complete s e lt (ground arith) h)
    | inr apart ↦ rw apart (
        ground (
          arith,
          first_word_complete s (λ k lo hi. h k lo (ground arith)),
          middle (s / 64),
          middle (s / 64 + 1),
          full_high_complete (e % 64) (word b (e / 64)) (e / 64 * 64) (omega arith)
              (λ p small. Holds-word b (e / 64) p (omega arith))
              (λ k lo hi. h k (ground arith) (omega arith)),
        ))
  ]
    where
      middle : (i : ℕ) → s ≤ i * 64 → full_words (e / 64 - 1 - i) i b ≡ true
      middle i from =
          full_words_complete (e / 64 - 1 - i) i fits (λ k lo hi. h k (omega arith) (omega arith))

-- The answer that `isFullyAllocated` gives for a range whose bits are set, and what follows from it.
pub is_fully_allocated_sound :
    (a : BitmapAllocator) (s e k : ℕ)
    → is_fully_allocated a s e ≡ true
    → (s < e) × (e ≤ a.n_blocks) × (full_range a.bitmap s e ≡ true)
unfolding is_fully_allocated
is_fully_allocated_sound a s e k h = ground arith

pub is_fully_allocated_complete :
    (a : BitmapAllocator) (s e : ℕ)
    → IsValid a
    → s < e
    → e ≤ a.n_blocks
    → IsUsed a.bitmap s e
    → is_fully_allocated a s e ≡ true
unfolding is_fully_allocated
is_fully_allocated_complete a s e v lt le h =
    ground (arith, full_range_complete a.bitmap s e lt v.words_fit h)
