-- ===== src/MemoryMap/Magnitude.antt =====
-- `getMagnitude`: it ends, and what it returns.
use mug_os.Base.{
  ℕ, zero, suc, ◌+◌, ◌/◌, ◌^◌, ◌≤◌, ◌<◌, ◌≡◌, ◌∙◌, refl, arith, Bool-cases, leb, some, inl, inr,
  ◌⊎◌,
}
use native.Mathlib.Nat.{pow-suc}
use mug_os.MemoryMap.{get_magnitude}

magnitude_rounds :
    (fuel n i : ℕ)
    → n < fuel
    → (m : ℕ) × ((get_magnitude fuel n i ≡ some (i + m))
        × (n < 1024 ^ (suc m))
        × ((m ≡ 0) ⊎ (1024 ^ m ≤ n)))
unfolding get_magnitude
magnitude_rounds zero n i enough = absurd (omega arith)
magnitude_rounds (suc fuel) n i enough = elim (Bool-cases (leb 1024 n)) [
  | inl large ↦
      let (m, (runs, upper, lower)) = magnitude_rounds fuel (n / 1024) (i + 1) (ground arith) in
      (
        suc m,
        (
          rw (large, get_magnitude) (runs ∙ rw (add_one i m) refl),
          omega (arith, pow-suc 1024 (suc m)),
          inr (elim lower [
            | inl none ↦ rw none (ground arith)
            | inr power ↦ omega (arith, pow-suc 1024 m)
          ]),
        ),
      )
  | inr small ↦ (0, (rw (small, get_magnitude, zero_more i) refl, ground arith, inl refl))
]
  where
    add_one : (i m : ℕ) → i + 1 + m ≡ i + suc m
    add_one i m = omega arith

    zero_more : (i : ℕ) → i + 0 ≡ i
    zero_more i = omega arith

-- The loop of `getMagnitude` ends, in at most as many rounds as the number itself, with the largest m
-- for which 1024 ^ m is at most the number, or with 0 for the number 0.
pub get_magnitude_lem :
    (byte_number : ℕ)
    → (m : ℕ) × ((get_magnitude (byte_number + 1) byte_number 0 ≡ some m)
        × (byte_number < 1024 ^ (m + 1))
        × ((m ≡ 0) ⊎ (1024 ^ m ≤ byte_number)))
get_magnitude_lem n =
    let (m, (runs, upper, lower)) = magnitude_rounds (n + 1) n 0 (omega arith) in
    (m, (runs ∙ rw (from_zero m) refl, rw (plus_one m) upper, lower))
  where
    from_zero : (m : ℕ) → 0 + m ≡ m
    from_zero m = omega arith

    plus_one : (m : ℕ) → m + 1 ≡ suc m
    plus_one m = omega arith
