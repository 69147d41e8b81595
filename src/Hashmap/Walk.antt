-- ===== src/Hashmap/Walk.antt =====
-- The probe sequence: from the home of a page downwards round the table.
use mug_os.Base.{
  ℕ, zero, suc, ◌+◌, ◌-◌, ◌^◌, ◌≤◌, ◌<◌, ◌≡◌, ◌≢◌, arith, leb, ◌==◌, if◌then◌else◌, sub64, List,
  Bool-cases, inl, inr, false,
}
use mug_os.Base.Shifts.{bit_and-low_mask, bit_and-ones, pow-pos}
use native.Mathlib.Nat.{mod-lt, mod-eq_of_lt, pow-le-pow_right}
use mug_os.Hashmap.{Entry, key_at, home, previous, hash, probe_free, find_loop, ends, at, absent}

-- The index `d` steps below `h`, for d < total.
abbrev pub below : ℕ → ℕ → ℕ → ℕ
below total h d = if leb d h then h - d else h + total - d

-- How many steps below `h` the index `j` is.
abbrev pub steps : ℕ → ℕ → ℕ → ℕ
steps total h j = if leb j h then h - j else h + total - j

module _ (k : ℕ) (small : k < 64) where
  power_bound : 2 ^ k ≤ 2 ^ 63
  power_bound = pow-le-pow_right (omega arith) small'
    where
      small' : k ≤ 63
      small' = omega arith

  mask_eq : sub64 (2 ^ k) 1 ≡ 2 ^ k - 1
  mask_eq = omega (arith, power_bound, pow-pos k)

  pub home-lt : (p : ℕ) → home (2 ^ k) p < 2 ^ k
  unfolding home
  home-lt p = rw (mask_eq, bit_and-low_mask k (hash p)) (mod-lt (hash p) (pow-pos k))

  pub previous_lem :
      (i : ℕ) → i < 2 ^ k → previous (2 ^ k) i ≡ (if i == 0 then 2 ^ k - 1 else i - 1)
  unfolding previous
  previous_lem zero h = rw mask_eq (bit_and-ones 64 (2 ^ k - 1) (omega (arith, power_bound)))
  previous_lem (suc i) h =
      let one_less : sub64 (suc i) 1 ≡ i = omega (arith, power_bound) in
      rw (mask_eq, one_less, bit_and-low_mask k i, mod-eq_of_lt {n = i} {m = 2 ^ k} (omega arith))
        (ground arith)

  pub previous-below :
      (h d : ℕ)
      → h < 2 ^ k
      → suc d < 2 ^ k
      → previous (2 ^ k) (below (2 ^ k) h d) ≡ below (2 ^ k) h (suc d)
  previous-below h d hh hd = rw (previous_lem (below (2 ^ k) h d) (ground arith)) (ground arith)

  -- The search for a free entry stops at the first one from `h` down.
  pub probe_free_first :
      (es : List Entry) (h fuel d n : ℕ)
      → h < 2 ^ k
      → d ≤ n
      → n < 2 ^ k
      → n - d < fuel
      → key_at es (below (2 ^ k) h n) ≡ 0
      → (m : ℕ) × (d ≤ m)
        × (m ≤ n)
        × (probe_free fuel (2 ^ k) es (below (2 ^ k) h d) ≡ ends (below (2 ^ k) h m))
        × (key_at es (below (2 ^ k) h m) ≡ 0)
        × ((c : ℕ) → d ≤ c → c < m → key_at es (below (2 ^ k) h c) ≢ 0)
  unfolding probe_free
  probe_free_first es h zero d n hh le hn enough free = absurd (omega arith)
  probe_free_first es h (suc fuel) d n hh le hn enough free =
      elim (Bool-cases (key_at es (below (2 ^ k) h d) == 0)) [
        | inl here ↦ (
          d,
          omega arith,
          le,
          rw (here, probe_free),
          ground arith,
          λ c lo hi. absurd (omega arith),
        )
        | inr used ↦
            let further : d ≢ n = λ e. used_not_free used (rw e free) in
            let (m, lo, hi, runs, is_free, before) =
              probe_free_first es h fuel (suc d) n hh (omega arith) hn (omega arith) free in
            (
              m,
              omega arith,
              hi,
              rw (used, probe_free, previous-below h d hh (omega arith)) runs,
              is_free,
              λ c from to. elim (Bool-cases (c == d)) [
                | inl e ↦ let same : c ≡ d = ground arith in rw same (used_not_free used)
                | inr ne ↦ before c (ground arith) to
              ],
            )
      ]
    where
      used_not_free :
          (key_at es (below (2 ^ k) h d) == 0) ≡ false → key_at es (below (2 ^ k) h d) ≢ 0
      used_not_free used = ground arith

  -- A search along entries in use that hold other pages.
  pub find_loop_walk :
      (es : List Entry) (p h fuel d n : ℕ)
      → h < 2 ^ k
      → d ≤ n
      → n < 2 ^ k
      → n - d < fuel
      → ((c : ℕ) → d ≤ c → c < n → key_at es (below (2 ^ k) h c) ≢ 0)
      → ((c : ℕ) → d ≤ c → c < n → key_at es (below (2 ^ k) h c) ≢ p)
      → (key_at es (below (2 ^ k) h n) ≡ 0
          → find_loop fuel (2 ^ k) es p (below (2 ^ k) h d) ≡ ends absent)
        × (key_at es (below (2 ^ k) h n) ≢ 0
            → key_at es (below (2 ^ k) h n) ≡ p
            → find_loop fuel (2 ^ k) es p (below (2 ^ k) h d) ≡ ends (at (below (2 ^ k) h n)))
  unfolding find_loop
  find_loop_walk es p h zero d n hh le hn enough used other = absurd (omega arith)
  find_loop_walk es p h (suc fuel) d n hh le hn enough used other = elim (Bool-cases (d == n)) [
    | inl e ↦
        let same : d ≡ n = ground arith in rw same ((λ free. ground arith), (λ ne eq. ground arith))
    | inr ne ↦
        let not_free : (key_at es (below (2 ^ k) h d) == 0) ≡ false = ground (arith, used d) in
        let not_p : (key_at es (below (2 ^ k) h d) == p) ≡ false = ground (arith, other d) in
        rw (not_free, not_p, find_loop, previous-below h d hh (ground arith))
          (find_loop_walk es p h fuel (suc d) n hh (ground arith) hn (ground arith)
            (λ c lo hi. used c (omega arith) hi) (λ c lo hi. other c (omega arith) hi))
  ]
