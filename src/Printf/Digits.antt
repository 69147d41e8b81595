-- ===== src/Printf/Digits.antt =====
-- How many digits a number has: as they are printed, and as they are counted before.
use native.Mathlib.Nat.{pow-succ', pow-zero}
use mug_os.Base.{
  ℕ, zero, suc, ◌+◌, ◌*◌, ◌/◌, ◌^◌, ◌≤◌, ◌<◌, ◌≡◌, ◌⊎◌, inl, inr, refl, ap, sym, ◌∙◌, arith, Bool,
  true, ◌&&◌, ltb, leb, ◌==◌, if◌then◌else◌, length, get_or, Bool-cases,
}
use mug_os.Base.Bits.{holds_below, holds_below_sound}
use mug_os.Printf.Number.{number_buffer}
use mug_os.Printf.Size.{
  bit_length, guess, ten_to_the, get_number_of_digits_base10, count_shifts,
  get_number_of_digits_base16, get_number_of_digits_base8, get_number_of_digits,
}

div_below : (n b c : ℕ) → 0 < b → n < b * c → n / b < c
div_below n b c pos lt = grind arith

pub below_power : (b k n : ℕ) → 0 < b → n < b ^ suc k → n / b < b ^ k
below_power b k n pos small = div_below n b (b ^ k) pos (grind (arith, pow-succ' b k))

-- By shifts of 4 or 3 bits.
length-number_buffer_shift :
    (k room shift : ℕ) (uppercase : Bool) (n : ℕ)
    → 0 < 2 ^ shift
    → n < (2 ^ shift) ^ suc k
    → k ≤ room
    → length (number_buffer (suc room) uppercase (2 ^ shift) n)
      ≡ suc (count_shifts k shift (n / 2 ^ shift))
unfolding number_buffer count_shifts
length-number_buffer_shift zero room shift u n pos small le =
    let lt = below_power (2 ^ shift) 0 n pos small in ground (arith, lt, pow-zero (2 ^ shift))
length-number_buffer_shift (suc k) zero shift u n pos small le = omega arith
length-number_buffer_shift (suc k) (suc room) shift u n pos small le =
    let rest =
      length-number_buffer_shift k room shift u (n / 2 ^ shift) pos
        (below_power (2 ^ shift) (suc k) n pos small) (omega arith) in
    ground (arith, rest)

length-number_buffer_base16 :
    (uppercase : Bool) (n : ℕ)
    → n < 2 ^ 64
    → length (number_buffer 128 uppercase 16 n) ≡ get_number_of_digits_base16 n
unfolding get_number_of_digits_base16 count_shifts
length-number_buffer_base16 u n small =
    ground (arith, length-number_buffer_shift 15 127 4 u n (omega arith) small (omega arith))

length-number_buffer_base8 :
    (uppercase : Bool) (n : ℕ)
    → n < 2 ^ 64
    → length (number_buffer 128 uppercase 8 n) ≡ get_number_of_digits_base8 n
unfolding get_number_of_digits_base8 count_shifts
length-number_buffer_base8 u n small =
    ground
      (arith, length-number_buffer_shift 21 127 3 u n (omega arith) (omega arith) (omega arith))

-- By tens.
length-number_buffer_ten :
    (d room : ℕ) (uppercase : Bool) (n : ℕ)
    → n < 10 ^ suc d
    → (d ≡ 0) ⊎ (10 ^ d ≤ n)
    → d ≤ room
    → length (number_buffer (suc room) uppercase 10 n) ≡ suc d
unfolding number_buffer
length-number_buffer_ten zero room u n small large le = ground arith
length-number_buffer_ten (suc d) zero u n small large le = omega arith
length-number_buffer_ten (suc d) (suc room) u n small large le =
    let up = pow-succ' 10 d in
    let rest =
      length-number_buffer_ten d room u (n / 10) (below_power 10 (suc d) n (omega arith) small)
        (inr (grind arith)) (omega arith) in
    ground (arith, rest, up)

pub bit_length_between :
    (bits n : ℕ)
    → n < 2 ^ bits
    → (((n ≡ 0) × (bit_length bits n ≡ 0)) ⊎ (2 ^ bit_length bits n ≤ 2 * n))
      × (n < 2 ^ bit_length bits n)
unfolding bit_length
bit_length_between zero n small = (inl (omega arith, refl), small)
bit_length_between (suc bits) n small =
    let rest = bit_length_between bits (n / 2) (grind (arith, pow-succ' 2 bits)) in
    let up = pow-succ' 2 (bit_length bits (n / 2)) in
    (ground (arith, rest, up), ground (arith, rest, up))

-- What the two tables promise of a number with that many binary digits.
unfoldable tables_are_right : ℕ → Bool
tables_are_right bits =
    let g = get_or guess bits 0 in
    (get_or ten_to_the g 0 == 10 ^ g)
    && leb (2 ^ bits) (10 ^ suc g)
    && leb (2 * 10 ^ g) (10 * 2 ^ bits)
    && ltb g 20

tables_checked : holds_below tables_are_right 65 ≡ true
unfolding holds_below tables_are_right
tables_checked = refl

tables_lem :
    (bits : ℕ)
    → bits < 65
    → (get_or ten_to_the (get_or guess bits 0) 0 ≡ 10 ^ get_or guess bits 0)
      × (2 ^ bits ≤ 10 ^ suc (get_or guess bits 0))
      × (2 * 10 ^ get_or guess bits 0 ≤ 10 * 2 ^ bits)
      × (get_or guess bits 0 < 20)
unfolding tables_are_right
tables_lem bits lt =
    let checked = holds_below_sound tables_are_right 65 bits lt tables_checked in
    (
      ground (arith, checked),
      ground (arith, checked),
      ground (arith, checked),
      ground (arith, checked),
    )

bit_length-lt : (bits n : ℕ) → n < 2 ^ bits → bit_length bits n < suc bits
unfolding bit_length
bit_length-lt zero n small = omega arith
bit_length-lt (suc bits) n small =
    let rest = bit_length-lt bits (n / 2) (grind (arith, pow-succ' 2 bits)) in ground (arith, rest)

count_by_tables :
    (uppercase : Bool) (n b g : ℕ)
    → 0 < n
    → 2 ^ b ≤ 2 * n
    → n < 2 ^ b
    → 2 ^ b ≤ 10 ^ suc g
    → 2 * 10 ^ g ≤ 10 * 2 ^ b
    → g < 20
    → length (number_buffer 128 uppercase 10 n) ≡ g + (if leb (10 ^ g) n then 1 else 0)
count_by_tables u n b zero pos low high up down lt =
    let rest = length-number_buffer_ten zero 127 u n (omega arith) (inl refl) (omega arith) in
    ground (arith, rest)
count_by_tables u n b (suc g) pos low high up down lt = elim (Bool-cases (leb (10 ^ suc g) n)) [
  | inl above ↦
      let big : 10 ^ suc g ≤ n = ground arith in
      let rest = length-number_buffer_ten (suc g) 127 u n (omega arith) (inr big) (omega arith) in
      ground (arith, rest)
  | inr below_it ↦
      let below : n < 10 ^ suc g = ground arith in
      let big : 10 ^ g ≤ n = omega (arith, pow-succ' 10 g) in
      let rest = length-number_buffer_ten g 127 u n below (inr big) (omega arith) in
      ground (arith, rest)
]

if-positive : (n a b : ℕ) → (if suc n == 0 then a else b) ≡ b
if-positive n a b = ground arith

length-number_buffer_base10 :
    (uppercase : Bool) (n : ℕ)
    → n < 2 ^ 64
    → length (number_buffer 128 uppercase 10 n) ≡ get_number_of_digits_base10 n
unfolding get_number_of_digits_base10
length-number_buffer_base10 u zero small =
    length-number_buffer_ten 0 127 u 0 (omega arith) (inl refl) (omega arith)
length-number_buffer_base10 u (suc n) small =
    let b = bit_length 64 (suc n) in
    let between = bit_length_between 64 (suc n) small in
    let low : 2 ^ bit_length 64 (suc n) ≤ 2 * suc n = ground (arith, between.0) in
    let table = tables_lem (bit_length 64 (suc n)) (bit_length-lt 64 (suc n) small) in
    let counted =
      count_by_tables u (suc n) b (get_or guess b 0) (omega arith) low between.1 table.1 table.2
        table.3 in
    counted
    ∙ ap (λ t. get_or guess (bit_length 64 (suc n)) 0 + (if leb t (suc n) then 1 else 0))
        (sym table.0)
    ∙ sym (if-positive n 1 _)

-- The radices that a conversion sets.
unfoldable pub IsRadix : ℕ → Type 0
IsRadix radix = (radix ≡ 8) ⊎ ((radix ≡ 10) ⊎ (radix ≡ 16))

-- For each number of 64 bits and each of the radices 8, 10 and 16, the number of digits that is computed
-- before a number is printed is the number of digits that the loop then writes to its buffer of 128
-- chars.
pub length-number_buffer :
    (uppercase : Bool) (radix n : ℕ)
    → IsRadix radix
    → n < 2 ^ 64
    → length (number_buffer 128 uppercase radix n) ≡ get_number_of_digits n radix
unfolding IsRadix get_number_of_digits
length-number_buffer u radix n (inl octal) small = rw (octal) (length-number_buffer_base8 u n small)
length-number_buffer u radix n (inr (inl decimal)) small =
    rw (decimal) (length-number_buffer_base10 u n small)
length-number_buffer u radix n (inr (inr hexadecimal)) small =
    rw (hexadecimal) (length-number_buffer_base16 u n small)
