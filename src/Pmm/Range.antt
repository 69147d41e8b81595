-- ===== src/Pmm/Range.antt =====
-- What `setBits` and `clearBits` do to the bitmap, bit by bit.
use mug_os.Base.{
  ℕ, zero, suc, ◌+◌, ◌-◌, ◌*◌, ◌/◌, ◌%◌, ◌≤◌, ◌<◌, ◌≡◌, refl, List, ◌&&◌, ltb, leb, ◌==◌,
  if◌then◌else◌, length, set, arith, length-set, get_or-set, not,
}
use mug_os.Base.Bits.{test_bit}
use mug_os.Pmm.{word, bitmap_bit, fill}

length-fill : (n i v : ℕ) (b : List ℕ) → length (fill n i v b) ≡ length b
unfolding fill
length-fill zero i v b = refl
length-fill (suc n) i v b = omega (arith, length-fill n (i + 1) v (set b i v), length-set b i v)

word-fill :
    (n i v : ℕ) (b : List ℕ) (j : ℕ)
    → i + n ≤ length b
    → word (fill n i v b) j ≡ (if leb i j && ltb j (i + n) then v else word b j)
unfolding fill
word-fill zero i v b j h = ground arith
word-fill (suc n) i v b j h =
    ground (arith, word-fill n (i + 1) v (set b i v) j, length-set b i v, get_or-set b i j v 0)

module _ (b : List ℕ) (s e : ℕ) where
  -- The bitmap after the first write, and after the loop.
  abbrev pub first : ℕ → List ℕ
  first w = set b (s / 64) w

  abbrev pub middle : ℕ → ℕ → List ℕ
  middle w v = fill (e / 64 - (s / 64 + 1)) (s / 64 + 1) v (first w)

  length-middle : (w v : ℕ) → length (middle w v) ≡ length b
  length-middle w v =
      omega (
        arith,
        length-fill (e / 64 - (s / 64 + 1)) (s / 64 + 1) v (first w),
        length-set b (s / 64) w,
      )

  word-middle :
      (w v j : ℕ)
      → s / 64 < e / 64
      → e ≤ 64 * length b
      → word (middle w v) j
        ≡ (if s / 64 == j then w else if leb (s / 64) j && ltb j (e / 64) then v else word b j)
  word-middle w v j lt h = ground (
    arith,
    word-fill (e / 64 - (s / 64 + 1)) (s / 64 + 1) v (first w) j,
    length-set b (s / 64) w,
    get_or-set b (s / 64) j w 0,
  )

  -- The shape that `setBits` and `clearBits` share: one write where the range lies in one word, else
  -- a write, the loop and, if the range ends inside a word, a last write.
  abbrev pub ranged : ℕ → ℕ → ℕ → (ℕ → ℕ) → List ℕ
  ranged one w v last =
      if s / 64 == e / 64
      then set b (s / 64) one
      else if not (e % 64 == 0)
      then set (middle w v) (e / 64) (last (word (middle w v) (e / 64)))
      else middle w v

  pub length-ranged : (one w v : ℕ) (last : ℕ → ℕ) → length (ranged one w v last) ≡ length b
  length-ranged one w v last = ground (
    arith,
    length-set b (s / 64) one,
    length-middle w v,
    length-set (middle w v) (e / 64) (last (word (middle w v) (e / 64))),
  )

  word-ranged :
      (one w v : ℕ) (last : ℕ → ℕ) (j : ℕ)
      → s < e
      → e ≤ 64 * length b
      → word (ranged one w v last) j ≡ (
          if s / 64 == e / 64
          then (if s / 64 == j then one else word b j)
          else if s / 64 == j
          then w
          else if leb (s / 64) j && ltb j (e / 64)
          then v
          else if e / 64 == j && not (e % 64 == 0)
          then last (word b j)
          else word b j)
  word-ranged one w v last j lt h = ground (
    arith,
    get_or-set b (s / 64) j one 0,
    word-middle w v j,
    word-middle w v (e / 64),
    length-middle w v,
    get_or-set (middle w v) (e / 64) j (last (word (middle w v) (e / 64))) 0,
  )

  -- The bits, from what the four values hold at index `k % 64`.
  pub bit-ranged :
      (one w v : ℕ) (last : ℕ → ℕ) (k x : ℕ)
      → s < e
      → e ≤ 64 * length b
      → (s / 64 ≡ k / 64
          → test_bit one (63 - k % 64)
            ≡ (if leb (s % 64) (k % 64) && ltb (k % 64) (e % 64) then x else bitmap_bit b k))
      → (s / 64 ≡ k / 64
          → test_bit w (63 - k % 64) ≡ (if leb (s % 64) (k % 64) then x else bitmap_bit b k))
      → test_bit v (63 - k % 64) ≡ x
      → test_bit (last (word b (k / 64))) (63 - k % 64)
        ≡ (if ltb (k % 64) (e % 64) then x else bitmap_bit b k)
      → bitmap_bit (ranged one w v last) k ≡ (if leb s k && ltb k e then x else bitmap_bit b k)
  bit-ranged one w v last k x lt h p q r t =
      rw (word-ranged one w v last (k / 64) lt h) (ground arith)

  pub word-ranged-lt :
      (m one w v : ℕ) (last : ℕ → ℕ)
      → s < e
      → e ≤ 64 * length b
      → ((j : ℕ) → word b j < m)
      → one < m
      → w < m
      → v < m
      → ((x : ℕ) → x < m → last x < m)
      → (j : ℕ) → word (ranged one w v last) j < m
  word-ranged-lt m one w v last lt h fits p q r t j =
      rw (word-ranged one w v last j lt h) (ground (arith, fits j, t (word b j)))
