-- ===== src/Printf/Number.antt =====
-- Stdlib/printf.c: sprintf_uint and sprintf_int, with what they write to consecutive places as a list. The
-- index `printed` of a write is an int in the code: the model is the code as long as the chars are fewer
-- than 2 ^ 31. The negation of the least long long, which C leaves undefined, wraps here.
use mug_os.Base.{
  ℕ, zero, suc, ◌+◌, ◌-◌, ◌/◌, ◌%◌, Bool, true, false, not, ◌&&◌, List, [], ◌∷◌, ◌++◌, ltb, ◌==◌,
  if◌then◌else◌, length, replicate, add64, sub64,
}
use mug_os.Printf.Spec.{SpecifierState, is_negative, signed_lt, as_count}

-- `hexChars [rem]`.
unfoldable pub hex_char : Bool → ℕ → ℕ
hex_char uppercase rem =
    if ltb rem 10 then b'0' + rem else if uppercase then b'A' + (rem - 10) else b'a' + (rem - 10)

-- The buffer of the do loop, which has room for 128 chars.
unfoldable pub number_buffer : ℕ → Bool → ℕ → ℕ → List ℕ
number_buffer zero uppercase radix number = []
number_buffer (suc room) uppercase radix number =
    hex_char uppercase (number % radix) ∷ elim (number / radix == 0) [
      | true ↦ []
      | false ↦ number_buffer room uppercase radix (number / radix)
    ]

-- The loop that writes the buffer from its end.
unfoldable pub backwards : List ℕ → List ℕ
backwards [] = []
backwards (c ∷ cs) = backwards cs ++ c ∷ []

-- `sprintf_uint_putPadding`, of a number of places that is made an int.
abbrev pub put_padding : ℕ → ℕ → List ℕ
put_padding n padding = replicate (as_count n) padding

-- `sprintf_uint_putPrefix`.
unfoldable pub put_prefix_chars : ℕ → Bool → List ℕ
put_prefix_chars radix uppercase =
    if radix == 8
    then b'0' ∷ []
    else if radix == 16
    then b'0' ∷ (if uppercase then b'X' else b'x') ∷ []
    else []

-- The places that are left for the prefix and the sign.
abbrev pub prefix_size : SpecifierState → ℕ
prefix_size spec = if spec.put_prefix then (if ltb 9 spec.radix then 2 else 1) else 0

abbrev pub sign_size : SpecifierState → ℕ
sign_size spec = if spec.sign == 0 then 0 else 1

-- `padding_spaces` and `padding_zeros`, for the number of digits.
unfoldable pub paddings : SpecifierState → ℕ → ℕ × ℕ
paddings spec pos =
    let bigger = if signed_lt spec.precision pos then pos else spec.precision in
    let spaces = sub64 (sub64 (sub64 spec.width bigger) (prefix_size spec)) (sign_size spec) in
    let zeros = sub64 spec.precision pos in
    if spec.pad_with_zeros && not spec.pad_right
    then if is_negative spec.precision
      then (0, spaces)
      else if ltb spec.precision spec.width
      then (0, add64 zeros spaces)
      else (spaces, zeros)
    else (spaces, zeros)

-- From the paddings on.
unfoldable pub put_number : SpecifierState → List ℕ → ℕ × ℕ → List ℕ
put_number spec buffer (spaces, zeros) =
    (if spec.pad_right then [] else put_padding spaces b' ')
    ++ ((if spec.sign == 0 then [] else spec.sign ∷ [])
        ++ ((if spec.put_prefix then put_prefix_chars spec.radix spec.uppercase else [])
            ++ (put_padding zeros b'0'
                ++ (backwards buffer ++ (if spec.pad_right then put_padding spaces b' ' else [])))))

-- `sprintf_uint`.
unfoldable pub sprintf_uint : SpecifierState → ℕ → List ℕ
sprintf_uint spec number =
    let buffer = number_buffer 128 spec.uppercase spec.radix number in
    if (spec.precision == 0) && (number == 0)
    then []
    else put_number spec buffer (paddings spec (length buffer))

-- The sign and the absolute value of a signed word.
abbrev pub with_sign : SpecifierState → ℕ → SpecifierState
with_sign spec number = if is_negative number then record spec { sign = b'-' } else spec

abbrev pub absolute : ℕ → ℕ
absolute number = if is_negative number then sub64 0 number else number

-- `sprintf_int`.
unfoldable pub sprintf_int : SpecifierState → ℕ → List ℕ
sprintf_int spec number = sprintf_uint (with_sign spec number) (absolute number)
