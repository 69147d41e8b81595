-- ===== src/Printf/Tests.antt =====
-- The formats of some calls, and the theorems at them.
use mug_os.Base.{
  switch, ℕ, ◌-◌, ◌<◌, ◌≤◌, ◌≡◌, ◌^◌, inl, inr, refl, ap, arith, true, false, List, [], ◌∷◌, ◌++◌,
  some, length,
}
use mug_os.Printf.Spec.{SpecifierState, fresh}
use mug_os.Printf.Number.{
  hex_char, number_buffer, backwards, put_prefix_chars, paddings, put_number, sprintf_uint,
  sprintf_int,
}
use mug_os.Printf.Size.{
  bit_length, get_number_of_digits_base10, count_shifts, get_number_of_digits_base16,
  get_number_of_digits_base8, get_number_of_digits, size_unsigned, size_signed,
}
use mug_os.Printf.Machine.{
  first_arg, other_args, convert, int_arg, number_arg, at_number, at_spec, at_length,
  at_length_short, at_length_long, at_precision, at_precision_sep, at_width, at_flags, at_normal,
  dispatch, advance,
}
use mug_os.Printf.Memory.{
  put_text, put_piece, vsnprintf_loop, finished, truncated, chars_of, bytes_of, vsnprintf_internal,
  sprintf, snprintf,
}
use mug_os.Printf.Descriptor.{Fd, dputc, dputs, output_after, count_of, vdprintf_internal}
use mug_os.Printf.Digits.{IsRadix, length-number_buffer}
use mug_os.Printf.Paddings.{IsModest}
use mug_os.Printf.Length.{length-sprintf_uint}
use mug_os.Printf.Safety.{has_short_numbers, chars_of-snprintf}
use mug_os.Printf.Unchecked.{snprintf-sprintf}
use mug_os.Printf.Printed.{no_eof}
use mug_os.Printf.Agreement.{vdprintf-sprintf}
use mug_os.Printf.Reading.{read}
use mug_os.Printf.Readback.{read-sprintf_int}

-- "%#06x|%-5d|%+.3i|%s"
abbrev format : List ℕ
format =
    b'%' ∷ b'#' ∷ b'0' ∷ b'6' ∷ b'x' ∷ b'|' ∷ b'%' ∷ b'-' ∷ b'5' ∷ b'd' ∷ b'|' ∷ b'%' ∷ b'+' ∷ b'.'
    ∷ b'3' ∷ b'i' ∷ b'|' ∷ b'%' ∷ b's' ∷ []

abbrev args : List ℕ
args = 255 ∷ (2 ^ 32 - 42) ∷ 7 ∷ 0 ∷ []

abbrev string_at : ℕ → List ℕ
string_at pointer = b'o' ∷ b'k' ∷ []

-- "0x00ff|-42  |+007|(null)"
abbrev expected : List ℕ
expected =
    b'0' ∷ b'x' ∷ b'0' ∷ b'0' ∷ b'f' ∷ b'f' ∷ b'|' ∷ b'-' ∷ b'4' ∷ b'2' ∷ b' ' ∷ b' ' ∷ b'|' ∷ b'+'
    ∷ b'0' ∷ b'0' ∷ b'7' ∷ b'|' ∷ b'(' ∷ b'n' ∷ b'u' ∷ b'l' ∷ b'l' ∷ b')' ∷ []

sprintf_test : sprintf string_at false (some format) args ≡ finished expected
unfolding switch vsnprintf_internal vsnprintf_loop advance dispatch at_normal at_flags at_width
    at_precision_sep at_precision at_length at_length_short at_length_long at_spec at_number convert
    number_arg int_arg first_arg other_args put_piece put_text sprintf_int sprintf_uint put_number
    put_prefix_chars paddings backwards number_buffer hex_char
sprintf_test = refl

-- "hello" does not fit in 4 chars: "hel" is left, and '\0' stands before the buffer.
truncated_test :
    snprintf string_at false 4 (some (b'h' ∷ b'e' ∷ b'l' ∷ b'l' ∷ b'o' ∷ [])) []
    ≡ truncated (b'h' ∷ b'e' ∷ b'l' ∷ [])
unfolding switch vsnprintf_internal vsnprintf_loop advance dispatch at_normal at_flags at_width
    at_precision_sep at_precision at_length at_length_short at_length_long at_spec at_number convert
    number_arg int_arg first_arg other_args put_piece put_text sprintf_int sprintf_uint put_number
    put_prefix_chars paddings backwards number_buffer hex_char
truncated_test = refl

-- "abcde%*d" with the width -3: the size of the number wraps with the 5 chars before it, and the check
-- of 8 chars lets 15 through.
negative_width_test :
    length (
      chars_of (
        snprintf string_at false 8
          (some (b'a' ∷ b'b' ∷ b'c' ∷ b'd' ∷ b'e' ∷ b'%' ∷ b'*' ∷ b'd' ∷ []))
          ((2 ^ 32 - 3) ∷ 1234567890 ∷ [])))
    ≡ 15
unfolding switch vsnprintf_internal vsnprintf_loop advance dispatch at_normal at_flags at_width
    at_precision_sep at_precision at_length at_length_short at_length_long at_spec at_number convert
    number_arg int_arg first_arg other_args put_piece put_text sprintf_int sprintf_uint put_number
    put_prefix_chars paddings backwards number_buffer hex_char size_unsigned size_signed
    get_number_of_digits get_number_of_digits_base10 get_number_of_digits_base16
    get_number_of_digits_base8 bit_length count_shifts
negative_width_test = refl

-- "%#09.8x" of 15 prints 7 digits, not 8.
fewer_digits_test :
    sprintf string_at false (some (b'%' ∷ b'#' ∷ b'0' ∷ b'9' ∷ b'.' ∷ b'8' ∷ b'x' ∷ [])) (15 ∷ [])
    ≡ finished (b'0' ∷ b'x' ∷ b'0' ∷ b'0' ∷ b'0' ∷ b'0' ∷ b'0' ∷ b'0' ∷ b'f' ∷ [])
unfolding switch vsnprintf_internal vsnprintf_loop advance dispatch at_normal at_flags at_width
    at_precision_sep at_precision at_length at_length_short at_length_long at_spec at_number convert
    number_arg int_arg first_arg other_args put_piece put_text sprintf_int sprintf_uint put_number
    put_prefix_chars paddings backwards number_buffer hex_char
fewer_digits_test = refl

-- "%hhd" of 300 prints 300.
short_short_test :
    sprintf string_at false (some (b'%' ∷ b'h' ∷ b'h' ∷ b'd' ∷ [])) (300 ∷ [])
    ≡ finished (b'3' ∷ b'0' ∷ b'0' ∷ [])
unfolding switch vsnprintf_internal vsnprintf_loop advance dispatch at_normal at_flags at_width
    at_precision_sep at_precision at_length at_length_short at_length_long at_spec at_number convert
    number_arg int_arg first_arg other_args put_piece put_text sprintf_int sprintf_uint put_number
    put_prefix_chars paddings backwards number_buffer hex_char
short_short_test = refl

-- A string stops at the char 255 though the descriptor took it.
eof_char_test :
    (dputs (λ k. true) (record { attempts = 0; output = [] }) (255 ∷ b'a' ∷ [])).0.output ≡ 255 ∷ []
unfolding dputs dputc
eof_char_test = refl

abbrev modest : SpecifierState
modest = record fresh { width = 6; pad_with_zeros = true; put_prefix = true; radix = 16 }

length-number_buffer_example :
    length (number_buffer 128 true 10 1234567) ≡ get_number_of_digits 1234567 10
unfolding IsRadix
length-number_buffer_example = length-number_buffer true 10 1234567 (inr (inl refl)) (omega arith)

length-sprintf_uint_example : length (sprintf_uint modest 255) ≤ size_unsigned modest 255
unfolding IsModest IsRadix
length-sprintf_uint_example =
    length-sprintf_uint modest 255 (omega arith, inr (omega arith, omega arith)) (inr (inr refl))
      (omega arith)

chars_of-snprintf_example :
    (length (chars_of (snprintf string_at false 25 (some format) args)) < 25)
    × (length (bytes_of (snprintf string_at false 25 (some format) args)) ≤ 25)
unfolding has_short_numbers
chars_of-snprintf_example =
    chars_of-snprintf string_at 25 format args (omega arith) (omega arith) refl

snprintf-sprintf_example :
    sprintf string_at false (some (b'%' ∷ b'd' ∷ [])) (42 ∷ []) ≡ finished (b'4' ∷ b'2' ∷ [])
unfolding switch vsnprintf_internal vsnprintf_loop advance dispatch at_normal at_flags at_width
    at_precision_sep at_precision at_length at_length_short at_length_long at_spec at_number convert
    number_arg int_arg first_arg other_args put_piece put_text sprintf_int sprintf_uint put_number
    put_prefix_chars paddings backwards number_buffer hex_char size_unsigned size_signed
    get_number_of_digits get_number_of_digits_base10 get_number_of_digits_base16
    get_number_of_digits_base8 bit_length count_shifts
snprintf-sprintf_example =
    snprintf-sprintf string_at 8 (b'%' ∷ b'd' ∷ []) (42 ∷ []) (b'4' ∷ b'2' ∷ []) refl

read-sprintf_int_example :
    (length (sprintf_int (record fresh { width = 9; pad_with_zeros = true }) (2 ^ 64 - 42))
      < 2 ^ 31)
    × (read 10 (sprintf_int (record fresh { width = 9; pad_with_zeros = true }) (2 ^ 64 - 42))
        ≡ (true, 42))
unfolding IsModest
read-sprintf_int_example =
    read-sprintf_int (record fresh { width = 9; pad_with_zeros = true }) (2 ^ 64 - 42) refl
      (omega arith, inr (omega arith, omega arith)) (omega arith) (λ e. absurd (omega arith))
      (inl refl)

abbrev console : Fd
console = record { attempts = 0; output = [] }

expected_fits : length (chars_of (sprintf string_at false (some format) args)) < 2 ^ 31
expected_fits = omega (arith, ap (λ o. length (chars_of o)) sprintf_test)

vdprintf-sprintf_example :
    (output_after console
        (vdprintf_internal (λ k. true) string_at (some console) (some format) args)
      ≡ [] ++ chars_of (sprintf string_at false (some format) args))
    × (count_of (vdprintf_internal (λ k. true) string_at (some console) (some format) args)
        ≡ length (chars_of (sprintf string_at false (some format) args)))
unfolding has_short_numbers no_eof
vdprintf-sprintf_example =
    vdprintf-sprintf (λ k. true) string_at console format args (λ k. refl) (λ pointer. refl) refl
      expected_fits
