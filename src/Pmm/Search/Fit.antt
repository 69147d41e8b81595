-- ===== src/Pmm/Search/Fit.antt =====
-- `allocate_firstFit` finds the first run of free blocks that is long enough, and marks it.
use mug_os.Base.{
  ℕ, zero, suc, ◌+◌, ◌-◌, ◌*◌, ◌<◌, ◌≤◌, ◌≡◌, ◌≢◌, ◌∙◌, List, arith, ◌==◌, leb, leb→le, Bool-cases,
  inl, inr, false,
}
use mug_os.Pmm.{word, bitmap_bit, shl}
use mug_os.Pmm.Search.{Scan, found, going, scan_word, scan_words}
use mug_os.Pmm.Search.Bits.{Holds, Holds-shl, Holds-top, Holds-word, top_clear_lem, bit_at}

-- The blocks from `lo` up to `hi` are free.
abbrev pub IsFree : List ℕ → ℕ → ℕ → Type 0
IsFree b lo hi = (k : ℕ) → lo ≤ k → k < hi → bitmap_bit b k ≡ 0

-- No run of `n` free blocks ends at or before `pos`.
abbrev pub NoRun : List ℕ → ℕ → ℕ → Type 0
NoRun b n pos = (s : ℕ) → s + n ≤ pos → ¬ (IsFree b s (s + n))

module _ (b : List ℕ) (n_pages : ℕ) where
  -- The state between two rounds: the free run that ends at `pos` has length `n_bits`.
  pub record Run (pos n_bits : ℕ) : Type 0 where
    pub inside : n_bits ≤ pos
    pub short : n_bits < n_pages
    pub free : IsFree b (pos - n_bits) pos
    pub longest : n_bits < pos → bitmap_bit b (pos - n_bits - 1) ≢ 0
    pub none_before : NoRun b n_pages pos

  -- The result: a run that ends at `end_idx`, with none that ends before.
  pub record Fits (limit end_idx : ℕ) : Type 0 where
    pub bound : end_idx ≤ limit
    pub room : n_pages ≤ end_idx
    pub run_free : IsFree b (end_idx - n_pages) end_idx
    pub lowest : NoRun b n_pages (end_idx - 1)

  -- The outcome of a scan that started before `limit` and, if it found nothing, reached `stop`.
  pub data Scanned (limit stop : ℕ) : Scan → Type 0 where
    hit : {e : ℕ} → Fits limit e → Scanned limit stop (found e)
    miss : {n : ℕ} → Run stop n → Scanned limit stop (going n)

  -- One more block.
  step-IsFree :
      (pos n_bits : ℕ)
      → Run pos n_bits
      → bitmap_bit b pos ≡ 0
      → IsFree b (pos + 1 - (n_bits + 1)) (pos + 1)
  step-IsFree pos n r z k lo hi = elim (Bool-cases (k == pos)) [
    | inl e ↦ bit_at b k pos (ground arith) ∙ z
    | inr ne ↦ r.free k (omega arith) (ground arith)
  ]

  step_Run :
      (pos n_bits : ℕ)
      → Run pos n_bits
      → bitmap_bit b pos ≡ 0
      → n_bits + 1 ≢ n_pages
      → Run (pos + 1) (n_bits + 1)
  step_Run pos n r z ne = record {
    inside = omega (arith, r.inside);
    short = omega (arith, r.short);
    free = step-IsFree pos n r z;
    longest = λ lt e.
        r.longest (omega arith) (bit_at b (pos - n - 1) (pos + 1 - (n + 1) - 1) (omega arith) ∙ e);
    none_before = λ s le free. elim (Bool-cases (leb (s + n_pages) pos)) [
      | inl old ↦ r.none_before s (leb→le _ _ old) free
      | inr new ↦ r.longest (ground arith) (free (pos - n - 1) (ground arith) (ground arith))
    ];
  }

  -- A block in use starts a new run after it.
  restart_Run :
      (pos n_bits : ℕ) → Run pos n_bits → 0 < n_pages → bitmap_bit b pos ≢ 0 → Run (pos + 1) 0
  restart_Run pos n r some_pages z = record {
    inside = omega arith;
    short = some_pages;
    free = λ k lo hi. absurd (omega arith);
    longest = λ lt e. z (bit_at b pos (pos + 1 - 0 - 1) (omega arith) ∙ e);
    none_before = λ s le free. elim (Bool-cases (leb (s + n_pages) pos)) [
      | inl old ↦ r.none_before s (leb→le _ _ old) free
      | inr new ↦ z (free pos (ground arith) (ground arith))
    ];
  }

  step_Fits :
      (pos n_bits limit : ℕ)
      → Run pos n_bits
      → bitmap_bit b pos ≡ 0
      → n_bits + 1 ≡ n_pages
      → pos < limit
      → Fits limit (pos + 1)
  step_Fits pos n limit r z e lt = record {
    bound = omega arith;
    room = omega (arith, r.inside);
    run_free = λ k lo hi. step-IsFree pos n r z k (omega arith) hi;
    lowest = λ s le free. r.none_before s (omega arith) free;
  }

  move_stop : (limit p q : ℕ) (r : Scan) → p ≡ q → Scanned limit p r → Scanned limit q r
  move_stop limit p q r e h = rw e at h

  -- The inner loop.
  scan_word-Scanned :
      (limit rounds pos cur n_bits : ℕ)
      → rounds ≤ 64
      → 0 < n_pages
      → pos + rounds ≤ limit
      → Holds b cur pos rounds
      → Run pos n_bits
      → Scanned limit (pos + rounds) (scan_word n_pages rounds pos cur n_bits)
  unfolding scan_word
  scan_word-Scanned limit zero pos cur n small some_pages le h r =
      move_stop limit pos (pos + 0) _ (omega arith) (miss r)
  scan_word-Scanned limit (suc rounds) pos cur n small some_pages le h r =
      let next : (n' : ℕ)
          → Run (pos + 1) n'
          → Scanned limit (pos + suc rounds) (scan_word n_pages rounds (pos + 1) (shl cur 1) n') =
        λ n' r'. move_stop limit (pos + 1 + rounds) (pos + suc rounds) _ (omega arith) (
          scan_word-Scanned limit rounds (pos + 1) (shl cur 1) n' (omega arith) some_pages
            (omega arith) (Holds-shl b cur pos rounds (omega arith) h) r') in
      let zero_short : (0 == n_pages) ≡ false = ground arith in
      rw (top_clear_lem cur, Holds-top b cur pos rounds h)
        (elim (Bool-cases (bitmap_bit b pos == 0)) [
          | inl clear ↦ rw clear (elim (Bool-cases (n + 1 == n_pages)) [
            | inl long ↦
                rw long (hit (step_Fits pos n limit r (ground arith) (ground arith) (omega arith)))
            | inr short ↦ rw short (next (n + 1) (step_Run pos n r (ground arith) (ground arith)))
          ])
          | inr used ↦
              rw (used, zero_short) (next 0 (restart_Run pos n r some_pages (ground arith)))
        ])

  and_then :
      {limit stop : ℕ} {r : Scan} (k : ℕ → Scan)
      → Scanned limit stop r
      → ((n : ℕ) → Run stop n → Scanned limit limit (k n))
      → Scanned limit limit (elim r [ found e ↦ found e | going n ↦ k n ])
  and_then k (hit f) next = hit f
  and_then k (miss r) next = next _ r

  -- The outer loop.
  pub scan_words-Scanned :
      (limit rounds last i n_bits : ℕ)
      → last ≤ 64
      → 0 < n_pages
      → (i + rounds) * 64 + last ≡ limit
      → Run (i * 64) n_bits
      → Scanned limit limit (scan_words n_pages rounds last i b n_bits)
  unfolding scan_words
  scan_words-Scanned limit zero last i n small some_pages e r =
      move_stop limit (i * 64 + last) limit _ (omega arith) (
        scan_word-Scanned limit last (i * 64) (word b i) n small some_pages (omega arith)
          (λ p h. Holds-word b i p (omega arith)) r)
  scan_words-Scanned limit (suc rounds) last i n small some_pages e r =
      and_then _
        (move_stop limit (i * 64 + 64) ((i + 1) * 64) _ (omega arith) (
          scan_word-Scanned limit 64 (i * 64) (word b i) n (omega arith) some_pages (omega arith)
            (Holds-word b i) r))
        λ n' r'. scan_words-Scanned limit rounds last (i + 1) n' small some_pages (omega arith) r'
