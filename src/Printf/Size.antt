-- ===== src/Printf/Size.antt =====
-- Stdlib/printf.c: how many chars a number takes, computed before it is printed.
use mug_os.Base.{
  ℕ, zero, suc, ◌+◌, ◌/◌, ◌^◌, true, false, not, ◌&&◌, List, [], ◌∷◌, ltb, leb, ◌==◌, if◌then◌else◌,
  get_or, add64,
}
use mug_os.Printf.Spec.{SpecifierState, is_negative}
use mug_os.Printf.Number.{prefix_size, sign_size, with_sign, absolute}

-- 64 - __builtin_clzll (number): the number of binary digits, of which there are at most 64.
unfoldable pub bit_length : ℕ → ℕ → ℕ
bit_length zero number = 0
bit_length (suc bits) number = elim (number == 0) [
  | true ↦ 0
  | false ↦ suc (bit_length bits (number / 2))
]

-- `guess`.
abbrev pub guess : List ℕ
guess =
    0 ∷ 0 ∷ 0 ∷ 0 ∷ 1 ∷ 1 ∷ 1 ∷ 2 ∷ 2 ∷ 2 ∷ 3 ∷ 3 ∷ 3 ∷ 3 ∷ 4 ∷ 4 ∷ 4 ∷ 5 ∷ 5 ∷ 5 ∷ 6 ∷ 6 ∷ 6 ∷ 6
    ∷ 7 ∷ 7 ∷ 7 ∷ 8 ∷ 8 ∷ 8 ∷ 9 ∷ 9 ∷ 9 ∷ 9 ∷ 10 ∷ 10 ∷ 10 ∷ 11 ∷ 11 ∷ 11 ∷ 12 ∷ 12 ∷ 12 ∷ 12 ∷ 13
    ∷ 13 ∷ 13 ∷ 14 ∷ 14 ∷ 14 ∷ 15 ∷ 15 ∷ 15 ∷ 15 ∷ 16 ∷ 16 ∷ 16 ∷ 17 ∷ 17 ∷ 17 ∷ 18 ∷ 18 ∷ 18 ∷ 18
    ∷ 19 ∷ []

-- `tenToThe`.
abbrev pub ten_to_the : List ℕ
ten_to_the =
    1 ∷ 10 ∷ 100 ∷ 1000 ∷ 10000 ∷ 100000 ∷ 1000000 ∷ 10000000 ∷ 100000000 ∷ 1000000000 ∷ 10000000000
    ∷ 100000000000 ∷ 1000000000000 ∷ 10000000000000 ∷ 100000000000000 ∷ 1000000000000000
    ∷ 10000000000000000 ∷ 100000000000000000 ∷ 1000000000000000000 ∷ 10000000000000000000 ∷ []

-- `getNumberOfDigits_base10`.
unfoldable pub get_number_of_digits_base10 : ℕ → ℕ
get_number_of_digits_base10 number =
    let digits = get_or guess (bit_length 64 number) 0 in
    if number == 0 then 1 else digits + (if leb (get_or ten_to_the digits 0) number then 1 else 0)

-- The loops of `getNumberOfDigits_base16` and `getNumberOfDigits_base8`, which shift by 4 and by 3 bits,
-- on fuel.
unfoldable pub count_shifts : ℕ → ℕ → ℕ → ℕ
count_shifts zero shift number = 0
count_shifts (suc rounds) shift number = elim (number == 0) [
  | true ↦ 0
  | false ↦ suc (count_shifts rounds shift (number / 2 ^ shift))
]

unfoldable pub get_number_of_digits_base16 : ℕ → ℕ
get_number_of_digits_base16 number = if number == 0 then 1 else count_shifts 16 4 number

unfoldable pub get_number_of_digits_base8 : ℕ → ℕ
get_number_of_digits_base8 number = if number == 0 then 1 else count_shifts 22 3 number

-- `getNumberOfDigits`.
unfoldable pub get_number_of_digits : ℕ → ℕ → ℕ
get_number_of_digits number base =
    if base == 10
    then get_number_of_digits_base10 number
    else if base == 16
    then get_number_of_digits_base16 number
    else if base == 8
    then get_number_of_digits_base8 number
    else get_number_of_digits_base10 number

-- `getSizeOfNumberToPrint_unsigned`.
unfoldable pub size_unsigned : SpecifierState → ℕ → ℕ
size_unsigned spec number =
    let digits = get_number_of_digits number spec.radix in
    let least =
      if not (is_negative spec.precision) && not (spec.precision == 0) && ltb digits spec.precision
      then spec.precision
      else digits in
    let all = add64 (add64 least (prefix_size spec)) (sign_size spec) in
    if (spec.precision == 0) && (number == 0)
    then 0
    else if ltb all spec.width
    then spec.width
    else all

-- `getSizeOfNumberToPrint_signed`, which writes the sign to the specifier's state.
unfoldable pub size_signed : SpecifierState → ℕ → ℕ
size_signed spec number = size_unsigned (with_sign spec number) (absolute number)
