-- ===== src/Hashmap/Invariant.antt =====
-- The invariant of the hashmap, and what `Hashmap_find` returns in a valid one.
use mug_os.Base.{
  ℕ, zero, suc, ◌+◌, ◌^◌, ◌<◌, ◌≡◌, ◌≢◌, ◌∙◌, ap, sym, arith, ◌==◌, if◌then◌else◌, List, [], ◌∷◌,
  Bool-cases, inl, inr, length, set,
}
use mug_os.Hashmap.{Entry, Hashmap, key_at, home, find_loop, ends, at, absent}
use mug_os.Hashmap.Walk.{below, steps, home-lt, probe_free_first, find_loop_walk}

-- The number of entries with no key.
unfoldable pub count_free : List Entry → ℕ
count_free [] = 0
count_free (e ∷ es) = (if e.key == 0 then 1 else 0) + count_free es

-- No free entry lies between the home of a page and the entry that holds it.
abbrev pub Reachable : ℕ → List Entry → Type 0
Reachable k es =
    (j c : ℕ)
    → j < 2 ^ k
    → key_at es j ≢ 0
    → c < steps (2 ^ k) (home (2 ^ k) (key_at es j)) j
    → key_at es (below (2 ^ k) (home (2 ^ k) (key_at es j)) c) ≢ 0

-- No page has two entries.
abbrev pub Unique : ℕ → List Entry → Type 0
Unique k es =
    (i j : ℕ) → i < 2 ^ k → j < 2 ^ k → key_at es i ≢ 0 → key_at es i ≡ key_at es j → i ≡ j

pub record IsValid (k : ℕ) (map : Hashmap) : Type 0 where
  pub small : k < 64
  pub total : map.total_entries ≡ 2 ^ k
  pub storage : length map.entries ≡ 2 ^ k
  pub free_count : map.free_entries ≡ count_free map.entries
  pub reachable : Reachable k map.entries
  pub unique : Unique k map.entries

-- No entry holds the page `p`.
abbrev pub NoEntry : ℕ → List Entry → ℕ → Type 0
NoEntry k es p = (j : ℕ) → j < 2 ^ k → key_at es j ≢ p

-- A free entry, where there is one.
pub free_entry :
    (es : List Entry) → 0 < count_free es → (j : ℕ) × (j < length es) × (key_at es j ≡ 0)
unfolding count_free
free_entry [] h = absurd (omega arith)
free_entry (e ∷ es) h = elim (Bool-cases (e.key == 0)) [
  | inl free ↦ (0, omega arith, ground arith)
  | inr used ↦ let (j, lt, free) = free_entry es (ground arith) in (suc j, omega arith, free)
]

-- Filling a free entry takes one from their number.
pub count_free-set :
    (es : List Entry) (i : ℕ) (e : Entry)
    → i < length es
    → key_at es i ≡ 0
    → e.key ≢ 0
    → count_free (set es i e) + 1 ≡ count_free es
unfolding count_free
count_free-set [] i e h free used = absurd (omega arith)
count_free-set (x ∷ es) zero e h free used = ground arith
count_free-set (x ∷ es) (suc i) e h free used =
    omega (arith, count_free-set es i e (omega arith) free used)

module _ (k : ℕ) (small : k < 64) (es : List Entry) where
  -- The probe sequence of `p` reaches every index.
  pub below-steps : (h j : ℕ) → h < 2 ^ k → j < 2 ^ k → below (2 ^ k) h (steps (2 ^ k) h j) ≡ j
  below-steps h j hh hj = ground arith

  pub find_loop-present :
      (p j : ℕ)
      → Reachable k es
      → Unique k es
      → j < 2 ^ k
      → key_at es j ≡ p
      → p ≢ 0
      → find_loop (2 ^ k) (2 ^ k) es p (home (2 ^ k) p) ≡ ends (at j)
  find_loop-present p j reach uniq lt holds ne =
      let h = home (2 ^ k) p in
      let hh : h < 2 ^ k = home-lt k small p in
      let n = steps (2 ^ k) h j in
      let arrives : below (2 ^ k) h n ≡ j = below-steps h j hh lt in
      let walk =
        find_loop_walk k small es p h (2 ^ k) 0 n hh (omega arith) (ground arith) (ground arith)
          (λ c lo hi. used c hi) (λ c lo hi e. apart c hi e) in
      ap (λ i. find_loop (2 ^ k) (2 ^ k) es p i) (start h)
      ∙ walk.1 (rw (arrives, holds) ne) (rw arrives holds)
      ∙ rw arrives
    where
      start : (h : ℕ) → h ≡ below (2 ^ k) h 0
      start h = ground arith

      used :
          (c : ℕ)
          → c < steps (2 ^ k) (home (2 ^ k) p) j
          → key_at es (below (2 ^ k) (home (2 ^ k) p) c) ≢ 0
      used c hi = rw holds at (reach j c lt (rw holds ne) (rw holds hi))

      apart :
          (c : ℕ)
          → c < steps (2 ^ k) (home (2 ^ k) p) j
          → key_at es (below (2 ^ k) (home (2 ^ k) p) c) ≢ p
      apart c hi e =
          let here : below (2 ^ k) (home (2 ^ k) p) c ≡ j =
            uniq (below (2 ^ k) (home (2 ^ k) p) c) j (ground (arith, home-lt k small p)) lt
              (used c hi) (e ∙ sym holds) in
          ground (arith, home-lt k small p)

  pub find_loop-absent :
      (p f : ℕ)
      → NoEntry k es p
      → f < 2 ^ k
      → key_at es f ≡ 0
      → find_loop (2 ^ k) (2 ^ k) es p (home (2 ^ k) p) ≡ ends absent
  find_loop-absent p f none lt free =
      let h = home (2 ^ k) p in
      let hh : h < 2 ^ k = home-lt k small p in
      let (m, lo, hi, runs, is_free, before) =
        probe_free_first k small es h (2 ^ k) 0 (steps (2 ^ k) h f) hh (omega arith) (ground arith)
          (ground arith) (rw (below-steps h f hh lt) free) in
      ap (λ i. find_loop (2 ^ k) (2 ^ k) es p i) (start h)
      ∙ (find_loop_walk k small es p h (2 ^ k) 0 m hh (omega arith) (ground arith) (ground arith)
            before (λ c lo hi. none (below (2 ^ k) h c) (ground arith))).0
          is_free
    where
      start : (h : ℕ) → h ≡ below (2 ^ k) h 0
      start h = ground arith
