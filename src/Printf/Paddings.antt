-- ===== src/Printf/Paddings.antt =====
-- How many spaces and zeros sprintf_uint writes.
use mug_os.Base.{
  ℕ, ◌+◌, ◌-◌, ◌^◌, ◌≤◌, ◌<◌, ◌≡◌, ◌⊎◌, refl, arith, Bool, true, false, not, ◌&&◌, ltb,
  if◌then◌else◌, add64, max, sub64,
}
use mug_os.Printf.Spec.{SpecifierState, is_negative, signed_lt, as_count}
use mug_os.Printf.Number.{prefix_size, sign_size, paddings}

minus3 :
    (w b p s : ℕ)
    → w < 2 ^ 30
    → b < 2 ^ 30
    → p < 3
    → s < 2
    → (b + (p + s) + sub64 (sub64 (sub64 w b) p) s ≡ w)
      ⊎ ((b + (p + s) + sub64 (sub64 (sub64 w b) p) s ≡ w + 2 ^ 64) × (w < b + (p + s)))
minus3 w b p s lw lb lp ls = ground arith

-- How many spaces and zeros are written, for a precision that is there.
count_both :
    (w big q d p spaces : ℕ)
    → w < 2 ^ 30
    → p < 2 ^ 30
    → q < 4
    → d < 129
    → big ≡ max d p
    → (big + q + spaces ≡ w) ⊎ ((big + q + spaces ≡ w + 2 ^ 64) × (w < big + q))
    → as_count spaces + as_count (sub64 p d) + d + q ≤ max w (big + q)
count_both w big q d p spaces lw lp lq ld e eS = ground arith

-- All of them zeros.
count_zeros :
    (w big q d p spaces : ℕ)
    → w < 2 ^ 30
    → p < 2 ^ 30
    → q < 4
    → d < 129
    → big ≡ max d p
    → (big + q + spaces ≡ w) ⊎ ((big + q + spaces ≡ w + 2 ^ 64) × (w < big + q))
    → as_count (add64 (sub64 p d) spaces) + d + q ≤ max w (big + q)
count_zeros w big q d p spaces lw lp lq ld e eS = ground arith

-- For a precision below 0.
count_one :
    (w q d p spaces : ℕ)
    → w < 2 ^ 30
    → 2 ^ 64 - 2 ^ 30 ≤ p
    → p < 2 ^ 64
    → q < 4
    → d < 129
    → (d + q + spaces ≡ w) ⊎ ((d + q + spaces ≡ w + 2 ^ 64) × (w < d + q))
    → as_count spaces + as_count (sub64 p d) + d + q ≤ max w (d + q)
count_one w q d p spaces lw lp up lq ld eS = ground arith

-- A size that a format of at most 9 digits gives: it is below 2 ^ 30, or a precision is not there or a
-- little below 0.
unfoldable pub IsModest : SpecifierState → Type 0
IsModest spec =
    (spec.width < 2 ^ 30)
    × ((spec.precision < 2 ^ 30) ⊎ ((2 ^ 64 - 2 ^ 30 ≤ spec.precision) × (spec.precision < 2 ^ 64)))

-- The three ways in which the paddings are chosen.
choose :
    (P : ℕ × ℕ → Type 0) (zero_flag right negative wider : Bool) (spaces noughts both : ℕ)
    → (negative ≡ true → P (0, spaces))
    → (negative ≡ false → P (0, both))
    → P (spaces, noughts)
    → P (
        if zero_flag && not right
        then if negative then (0, spaces) else if wider then (0, both) else (spaces, noughts)
        else (spaces, noughts))
choose P true false true wider spaces noughts both p q r = p refl
choose P true false false true spaces noughts both p q r = q refl
choose P true false false false spaces noughts both p q r = r
choose P true true negative wider spaces noughts both p q r = r
choose P false right negative wider spaces noughts both p q r = r

abbrev pub Fit : SpecifierState → ℕ → ℕ × ℕ → Type 0
Fit spec d pads =
    as_count pads.0 + as_count pads.1 + d + (prefix_size spec + sign_size spec)
    ≤ max spec.width (
        (if is_negative spec.precision then d else max d spec.precision)
        + (prefix_size spec + sign_size spec))

bigger_lem :
    (p d : ℕ)
    → (p < 2 ^ 30) ⊎ ((2 ^ 64 - 2 ^ 30 ≤ p) × (p < 2 ^ 64))
    → d < 129
    → (if signed_lt p d then d else p) ≡ (if is_negative p then d else max d p)
bigger_lem p d modest lt = ground arith

module _ (w p d q big spaces : ℕ) (w_fits : w < 2 ^ 30)
    (p_fits : (p < 2 ^ 30) ⊎ ((2 ^ 64 - 2 ^ 30 ≤ p) × (p < 2 ^ 64))) (d_fits : d < 129)
    (q_fits : q < 4) (big_is : big ≡ (if is_negative p then d else max d p))
    (spaces_are : (big + q + spaces ≡ w) ⊎ ((big + q + spaces ≡ w + 2 ^ 64) × (w < big + q))) where
  fit_negative :
      is_negative p ≡ true
      → as_count 0 + as_count spaces + d + q ≤ max w ((if is_negative p then d else max d p) + q)
  fit_negative negative = ground (arith, count_one w q d p spaces)

  fit_zeros :
      is_negative p ≡ false
      → as_count 0 + as_count (add64 (sub64 p d) spaces) + d + q
        ≤ max w ((if is_negative p then d else max d p) + q)
  fit_zeros there = ground (arith, count_zeros w big q d p spaces)

  fit_spaces :
      as_count spaces + as_count (sub64 p d) + d + q
      ≤ max w ((if is_negative p then d else max d p) + q)
  fit_spaces = ground (arith, count_one w q d p spaces, count_both w big q d p spaces)

pub paddings-Fit :
    (spec : SpecifierState) (d : ℕ) → IsModest spec → d < 129 → Fit spec d (paddings spec d)
unfolding paddings IsModest
paddings-Fit spec d modest lt =
    let big = if signed_lt spec.precision d then d else spec.precision in
    let spaces = sub64 (sub64 (sub64 spec.width big) (prefix_size spec)) (sign_size spec) in
    let big_is = bigger_lem spec.precision d modest.1 lt in
    let pre : prefix_size spec < 3 = ground arith in
    let sgn : sign_size spec < 2 = ground arith in
    let q : prefix_size spec + sign_size spec < 4 = omega arith in
    let small : big < 2 ^ 30 = ground arith in
    let m = minus3 spec.width big (prefix_size spec) (sign_size spec) modest.0 small pre sgn in
    let w = spec.width in
    let p = spec.precision in
    let q_size = prefix_size spec + sign_size spec in
    choose (Fit spec d) spec.pad_with_zeros spec.pad_right (is_negative p) (ltb p w) spaces
      (sub64 p d) (add64 (sub64 p d) spaces)
      (fit_negative w p d q_size big spaces modest.0 modest.1 lt q big_is m)
      (fit_zeros w p d q_size big spaces modest.0 modest.1 lt q big_is m)
      (fit_spaces w p d q_size big spaces modest.0 modest.1 lt q big_is m)
