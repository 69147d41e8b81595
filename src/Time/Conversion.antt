-- ===== src/Time/Conversion.antt =====
-- `computeConversion` and `ticksToNs`: the range in which the conversion does not overflow.
use mug_os.Base.{
  ℕ, zero, suc, ◌+◌, ◌-◌, ◌*◌, ◌/◌, ◌%◌, ◌^◌, ◌≤◌, ◌<◌, ◌≡◌, ◌≢◌, ◌⊎◌, ◌∙◌, refl, ap, sym, arith,
  some, true, ltb, ◌==◌, Bool-cases, inl, inr, add64, u64_mod,
}
use mug_os.Base.Shifts.{pow-pos}
use native.Mathlib.Nat.{
  pow-suc, pow-le-pow_right, mul-le-mul, mul-le-mul_right, mul-lt-mul_of_pos_left,
  div-lt_iff_lt-mul, add-zero, add-suc, mul_assoc,
}
use mug_os.Time.{accuracy_loop, mult_at, shift_loop, compute_conversion, ticks_to_ns}

-- A number of b binary digits; 0 has none.
abbrev pub HasDigits : ℕ → ℕ → Type 0
HasDigits b n = (n < 2 ^ b) × ((b ≡ 0) ⊎ (2 ^ b ≤ 2 * n))

-- The while loop counts the binary digits of its number.
HasDigits-at : (b m n : ℕ) → m ≡ n → HasDigits b m → HasDigits b n
HasDigits-at b m n e digits = rw (sym e) digits

half-digits : (b n : ℕ) → n ≢ 0 → (b ≡ 0) ⊎ (2 ^ b ≤ 2 * (n / 2)) → 2 ^ suc b ≤ 2 * n
half-digits b n ne (inl e) = rw e (omega arith)
half-digits b n ne (inr le) = omega (arith, pow-suc 2 b)

accuracy_loop_lem :
    (fuel temp acc : ℕ)
    → temp < 2 ^ fuel
    → fuel ≤ acc
    → (b : ℕ) × (accuracy_loop fuel temp acc ≡ some (acc - b)) × (b ≤ fuel) × HasDigits b temp
unfolding accuracy_loop
accuracy_loop_lem zero temp acc small le =
    let none_left : (temp == 0) ≡ true = ground arith in
    (0, rw (none_left, accuracy_loop) (ap some (omega arith)), omega arith, (small, inl refl))
accuracy_loop_lem (suc fuel) temp acc small le = elim (Bool-cases (temp == 0)) [
  | inl stop ↦
      (0, rw (stop, accuracy_loop) (ap some (omega arith)), omega arith, (ground arith, inl refl))
  | inr more ↦
      let (b, runs, short, (bound, exact)) =
        accuracy_loop_lem fuel (temp / 2) (acc - 1) (omega (arith, pow-suc 2 fuel)) (omega arith) in
      (
        suc b,
        rw (more, accuracy_loop) (runs ∙ ap some (omega arith)),
        omega arith,
        (omega (arith, pow-suc 2 b), inr (half-digits b temp (ground arith) exact)),
      )
]

-- How the for loop ends: at a shift whose multiplier fits, or at 0 with the multiplier of shift 1.
shift_loop_lem :
    (from to acc s last : ℕ)
    → (((shift_loop from to acc s last).1 ≢ 0)
        × ((shift_loop from to acc s last).1 ≤ s)
        × ((shift_loop from to acc s last).0 ≡ mult_at from to (shift_loop from to acc s last).1)
        × ((shift_loop from to acc s last).0 / 2 ^ acc ≡ 0))
      ⊎ (((shift_loop from to acc s last).1 ≡ 0)
          × (s ≡ 0 → (shift_loop from to acc s last).0 ≡ last)
          × (s ≢ 0 → (shift_loop from to acc s last).0 ≡ mult_at from to 1))
unfolding shift_loop
shift_loop_lem from to acc zero last = inr (refl, (λ _. refl), λ ne. absurd (ne refl))
shift_loop_lem from to acc (suc s) last =
    elim (Bool-cases (mult_at from to (suc s) / 2 ^ acc == 0)) [
      | inl fits ↦
          rw (fits, shift_loop) (inl ((λ e. absurd (omega arith)), omega arith, refl, ground arith))
      | inr large ↦
          rw (large, shift_loop)
            (elim (shift_loop_lem from to acc s (mult_at from to (suc s))) [
              | inl (some_shift, le, exact, fits) ↦ inl (some_shift, omega arith, exact, fits)
              | inr (none_left, at_end, before) ↦ inr (
                none_left,
                (λ e. absurd (omega arith)),
                λ ne. elim (Bool-cases (s == 0)) [
                  | inl e ↦
                      let last_round : s ≡ 0 = ground arith in
                      at_end last_round ∙ ap (λ k. mult_at from to (suc k)) last_round
                  | inr other ↦ before (ground arith)
                ],
              )
            ])
    ]

-- No shift above the one that it ends at fits.
shift_loop-largest :
    (from to acc s last k : ℕ)
    → (shift_loop from to acc s last).1 < k
    → k ≤ s
    → mult_at from to k / 2 ^ acc ≢ 0
unfolding shift_loop
shift_loop-largest from to acc zero last k lt le = absurd (omega arith)
shift_loop-largest from to acc (suc s) last k lt le =
    elim (Bool-cases (mult_at from to (suc s) / 2 ^ acc == 0)) [
      | inl fits ↦
          let ends : (shift_loop from to acc (suc s) last).1 ≡ suc s = rw (fits, shift_loop) refl in
          absurd (omega (arith, ends, lt))
      | inr large ↦
          let goes_on : (shift_loop from to acc (suc s) last).1
              ≡ (shift_loop from to acc s (mult_at from to (suc s))).1 =
            rw (large, shift_loop) refl in
          elim (Bool-cases (k == suc s)) [
            | inl here ↦ let same : k ≡ suc s = ground arith in rw same (ground arith)
            | inr below ↦
                shift_loop-largest from to acc s (mult_at from to (suc s)) k
                  (omega (arith, goes_on, lt)) (ground arith)
          ]
    ]

lt_of_div-zero : (n d : ℕ) → 0 < d → n / d ≡ 0 → n < d
lt_of_div-zero n d pos e =
    omega (arith, (div-lt_iff_lt-mul {k = d} {x = n} {y = 1} pos).0 (omega (arith, e)))

le_of_div-nonzero : (n d : ℕ) → 0 < d → n / d ≢ 0 → d ≤ n
le_of_div-nonzero n d pos ne = elim (Bool-cases (ltb n d)) [
  | inl small ↦ absurd (ne (small_div n d (ground arith)))
  | inr large ↦ ground arith
]
  where
    small_div : (n d : ℕ) → n < d → n / d ≡ 0
    small_div n d lt =
        omega
          (arith, (div-lt_iff_lt-mul {k = d} {x = n} {y = 1} (omega arith)).1 (omega (arith, lt)))

pow-plus : (b c : ℕ) → 2 ^ b * 2 ^ c ≡ 2 ^ (b + c)
pow-plus b zero = rw (add-zero b) (omega arith)
pow-plus b (suc c) =
    rw (add-suc b c, pow-suc 2 c, pow-suc 2 (b + c))
      (sym (mul_assoc (2 ^ b) (2 ^ c) 2) ∙ ap (λ x. x * 2) (pow-plus b c))

-- The products of `ticksToNs` are 64-bit numbers in the range of the conversion.
product-lt :
    (b mult ticks : ℕ)
    → b ≤ 32
    → mult < 2 ^ (32 - b)
    → ticks < 2 ^ 32 * 2 ^ b
    → mult * ticks < u64_mod
product-lt b mult ticks le hm ht =
    let split : 2 ^ (32 - b) * (2 ^ 32 * 2 ^ b) ≡ u64_mod =
      ap (λ x. 2 ^ (32 - b) * x) (pow-plus 32 b)
      ∙ pow-plus (32 - b) (32 + b)
      ∙ ap (λ k. 2 ^ k) (sum b le) in
    omega (
      arith,
      mul-le-mul_right {m = mult} {n = 2 ^ (32 - b)} ticks (omega arith),
      mul-lt-mul_of_pos_left {m = ticks} {n = 2 ^ 32 * 2 ^ b} {k = 2 ^ (32 - b)} ht
          (pow-pos (32 - b)),
      split,
    )
  where
    sum : (b : ℕ) → b ≤ 32 → 32 - b + (32 + b) ≡ 64
    sum b le = omega arith

-- No round of the for loop wraps.
mult_at-exact :
    (from to s : ℕ)
    → from < 2 ^ 32
    → to < 2 ^ 32
    → s ≤ 32
    → mult_at from to s ≡ (to * 2 ^ s + from / 2) / from
mult_at-exact from to s small_from small_to le =
    let power : 2 ^ s ≤ 2 ^ 32 = pow-le-pow_right (omega arith) le in
    let product : to * 2 ^ s ≤ 0xffff_ffff * 2 ^ 32 =
      mul-le-mul {n₂ = 0xffff_ffff} {m₂ = 2 ^ 32} (omega arith) power in
    ap (λ n. n / from) (no_wrap (to * 2 ^ s) (from / 2) product (omega arith))
  where
    no_wrap : (p h : ℕ) → p ≤ 0xffff_ffff * 2 ^ 32 → h < 2 ^ 32 → add64 (p % u64_mod) h ≡ p + h
    no_wrap p h hp hh = omega arith

-- For frequencies and a number of seconds of 32 bits, `from` not 0, `computeConversion` ends.
-- With b the number of binary digits of `maxSec` * `from` / 2 ^ 32, a shift fits when `to` * 2 ^ shift /
-- `from`, rounded, is below 2 ^ (32 - b). Either the shift that it gives is the largest from 1 to 32 that
-- fits, and the multiplier is that quotient; then `ticksToNs` of any number of ticks up to `maxSec` *
-- `from` multiplies without overflow. Or none from 1 to 32 fits: it gives the shift 0, with the multiplier
-- that belongs to the shift 1, modulo 2 ^ 32.
pub compute_conversion_lem :
    (from to max_sec ticks : ℕ)
    → 0 < from
    → from < 2 ^ 32
    → to < 2 ^ 32
    → max_sec < 2 ^ 32
    → ticks ≤ max_sec * from
    → (b : ℕ) × (mult : ℕ) × (shift : ℕ) × ((compute_conversion from to max_sec
          ≡ some (mult, shift))
        × (b ≤ 32)
        × HasDigits b (max_sec * from / 2 ^ 32)
        × ((s : ℕ) → shift < s → s ≤ 32 → 2 ^ (32 - b) ≤ (to * 2 ^ s + from / 2) / from)
        × (((0 < shift)
              × (shift ≤ 32)
              × (mult ≡ (to * 2 ^ shift + from / 2) / from)
              × (mult < 2 ^ (32 - b))
              × (ticks_to_ns mult shift ticks ≡ mult * ticks / 2 ^ shift))
            ⊎ ((shift ≡ 0) × (mult ≡ (to * 2 ^ 1 + from / 2) / from % 2 ^ 32))))
unfolding compute_conversion ticks_to_ns
compute_conversion_lem from to max_sec ticks pos small_from small_to small_sec range =
    let product : max_sec * from ≤ 0xffff_ffff * 0xffff_ffff =
      mul-le-mul {n₂ = 0xffff_ffff} {m₂ = 0xffff_ffff} (omega arith) (omega arith) in
    let (b, runs, short, digits) =
      accuracy_loop_lem 32 (max_sec * from % u64_mod / 2 ^ 32) 32 (omega arith) (omega arith) in
    let no_wrap : max_sec * from % u64_mod ≡ max_sec * from = omega (arith, product) in
    let bound = digits.0 in
    let acc : ℕ = 32 - b in
    let r = shift_loop from to acc 32 0 in
    (
      b,
      r.0 % 2 ^ 32,
      r.1,
      (
        rw (compute_conversion, runs) refl,
        short,
        HasDigits-at b _ _ (ap (λ p. p / 2 ^ 32) no_wrap) digits,
        (λ s lt le.
            let exact = mult_at-exact from to s small_from small_to le in
            omega (
              arith,
              exact,
              le_of_div-nonzero (mult_at from to s) (2 ^ acc) (pow-pos acc)
                  (shift_loop-largest from to acc 32 0 s lt le),
            )),
        elim (shift_loop_lem from to acc 32 0) [
          | inl (some_shift, le, exact, fits) ↦
              let small : r.0 < 2 ^ acc = lt_of_div-zero r.0 (2 ^ acc) (pow-pos acc) fits in
              let word : 2 ^ acc ≤ 2 ^ 32 =
                pow-le-pow_right {n = 2} (omega arith) {i = acc} {j = 32} (omega arith) in
              let kept : r.0 % 2 ^ 32 ≡ r.0 = omega arith in
              let ticks_small : ticks < 2 ^ 32 * 2 ^ b = omega arith in
              let no_wrap = product-lt b r.0 ticks short small ticks_small in
              inl (
                omega arith,
                le,
                kept ∙ exact ∙ mult_at-exact from to r.1 small_from small_to le,
                omega (arith, kept, small),
                rw kept (ap (λ n. n / 2 ^ r.1) (omega (arith, no_wrap))),
              )
          | inr (none_left, at_end, before) ↦ inr (
            none_left,
            ap (λ n. n % 2 ^ 32)
                (before (λ e. absurd (omega arith))
                  ∙ mult_at-exact from to 1 small_from small_to (omega arith)),
          )
        ],
      ),
    )
