-- ===== src/Printf/Safety.antt =====
-- That snprintf keeps inside its buffer, and writes what sprintf writes.
use mug_os.Base.{
  ℕ, ◌+◌, ◌^◌, ◌≤◌, ◌<◌, ◌≡◌, refl, ap, arith, Bool, true, false, ◌&&◌, List, [], ◌∷◌, some, leb,
  ◌==◌, if◌then◌else◌, length, add64, length-append, if-elim,
}
use mug_os.Printf.Spec.{SpecifierState}
use mug_os.Printf.Number.{sprintf_uint, sprintf_int}
use mug_os.Printf.Size.{size_unsigned, size_signed}
use mug_os.Printf.Machine.{Machine, Piece, nothing, char, text, integer, after_spec, advance}
use mug_os.Printf.Memory.{
  is_boundary_exceeded, Written, unless_exceeded, chars_of_number, size_of_number, put_text,
  put_piece, vsnprintf_loop, end, chars_of, bytes_of, invalid, finished, truncated, Outcome,
  vsnprintf_internal, snprintf,
}
use mug_os.Printf.Digits.{IsRadix}
use mug_os.Printf.Paddings.{IsModest}
use mug_os.Printf.Length.{length-sprintf_uint, length-sprintf_int, size_unsigned-lt, size_signed-lt}
use mug_os.Printf.Bounded.{Fits, IsPrintable, PieceFits, next_run, advance-Fits, fresh-Fits}

number-length :
    (spec : SpecifierState) (number : ℕ)
    → IsModest spec
    → IsRadix spec.radix
    → number < 2 ^ 64
    → length (chars_of_number spec number) ≤ size_of_number spec number
number-length spec number modest radix lt =
    elim (spec.number_signed)
      as (λ b.
        length (if b then sprintf_int spec number else sprintf_uint spec number)
        ≤ (if b then size_signed spec number else size_unsigned spec number)) [
          | true ↦ length-sprintf_int spec number modest radix lt
          | false ↦ length-sprintf_uint spec number modest radix lt
        ]

number-lt :
    (spec : SpecifierState) (number : ℕ)
    → IsModest spec
    → IsRadix spec.radix
    → number < 2 ^ 64
    → size_of_number spec number < 2 ^ 31
number-lt spec number modest radix lt =
    if-elim (λ size. size < 2 ^ 31) spec.number_signed _ _
      (λ e. size_signed-lt spec number modest radix lt)
      (λ e. size_unsigned-lt spec number modest radix lt)

-- After its check, a piece that is no longer than it was taken for is in the buffer.
checked-length :
    (size printed more : ℕ) (cs : List ℕ)
    → 0 < size
    → size < 2 ^ 31
    → printed < size
    → length cs ≤ more
    → more < 2 ^ 31
    → printed + length (unless_exceeded (is_boundary_exceeded size (add64 printed more) true) cs).0
      < size
checked-length size printed more cs pos small lt le fits =
    if-elim (λ (out : Written). printed + length out.0 < size)
      (is_boundary_exceeded size (add64 printed more) true) _ _ (λ e. omega arith)
      (λ e. ground arith)

put_text-length :
    (size printed : ℕ) (cs : List ℕ)
    → 0 < size
    → size < 2 ^ 31
    → printed < size
    → printed + length (put_text size true printed cs).0 < size
unfolding put_text
put_text-length size printed [] pos small lt = omega arith
put_text-length size printed (c ∷ cs) pos small lt =
    if-elim (λ (out : Written). printed + length out.0 < size)
      (is_boundary_exceeded size (printed + 1) true) _ _ (λ e. omega arith)
      (λ e.
        let next : printed + 1 < size = ground arith in
        let rest = put_text-length size (printed + 1) cs pos small next in omega (arith, rest))

put_piece-length :
    (string_at : ℕ → List ℕ) (size printed : ℕ) (piece : Piece)
    → 0 < size
    → size < 2 ^ 31
    → printed < size
    → PieceFits piece
    → printed + length (put_piece string_at size true printed piece).0 < size
unfolding put_piece PieceFits IsPrintable
put_piece-length string_at size printed nothing pos small lt fits = omega arith
put_piece-length string_at size printed (char c) pos small lt fits =
    if-elim (λ (out : Written). printed + length out.0 < size)
      (is_boundary_exceeded size (printed + 1) true) _ _ (λ e. omega arith) (λ e. ground arith)
put_piece-length string_at size printed (text pointer) pos small lt fits =
    if-elim (λ (out : Written). printed + length out.0 < size) (pointer == 0) _ _
      (λ e.
        if-elim (λ (out : Written). printed + length out.0 < size)
          (is_boundary_exceeded size (printed + 6) true) _ _ (λ e. omega arith) (λ e. ground arith))
      (λ e. put_text-length size printed (string_at pointer) pos small lt)
put_piece-length string_at size printed (integer spec number) pos small lt fits =
    checked-length size printed (size_of_number spec number) (chars_of_number spec number) pos small
      lt (number-length spec number fits.0 fits.1.0 fits.2)
      (number-lt spec number fits.0 fits.1.0 fits.2)

-- A format without `*` and without more than 9 digits in a row; k digits come before it.
unfoldable pub has_short_numbers : ℕ → List ℕ → Bool
has_short_numbers k [] = true
has_short_numbers k (c ∷ format) =
    let rest = has_short_numbers (next_run k c) format in
    if c == b'*' then false else leb (next_run k c) 9 && rest

loop-length :
    (string_at : ℕ → List ℕ) (size : ℕ) (m : Machine) (printed k : ℕ) (format : List ℕ)
    → 0 < size
    → size < 2 ^ 31
    → printed < size
    → Fits m k
    → k ≤ 9
    → has_short_numbers k format ≡ true
    → printed + length (vsnprintf_loop string_at size true m printed format).0 < size
unfolding vsnprintf_loop has_short_numbers
loop-length string_at size m printed k [] pos small lt fits le ok = omega arith
loop-length string_at size m printed k (c ∷ format) pos small lt fits le ok =
    let next = advance true m c in
    let no_star : c == b'*' ≡ false = ground arith in
    let few : leb (next_run k c) 9 ≡ true = ground arith in
    let ok2 : has_short_numbers (next_run k c) format ≡ true = ground arith in
    let good = advance-Fits m c k fits le no_star (λ digit. ground arith) in
    let out = put_piece string_at size true printed next.1 in
    let here = put_piece-length string_at size printed next.1 pos small lt good.1 in
    let rest =
      loop-length string_at size next.0 (printed + length out.0) (next_run k c) format pos small
        here good.0 (ground arith) ok2 in
    let after = (vsnprintf_loop string_at size true next.0 (printed + length out.0) format).0 in
    if-elim (λ (all : Written). printed + length all.0 < size) out.1 _ _
      (λ e. omega (arith, rest, length-append out.0 after)) (λ e. here)

pub chars_of-end : (written : Written) → chars_of (end written) ≡ written.0
chars_of-end written = if-elim (λ o. chars_of o ≡ written.0) written.1 _ _ (λ e. refl) (λ e. refl)

bytes_of-le : (o : Outcome) (size : ℕ) → length (chars_of o) < size → length (bytes_of o) ≤ size
bytes_of-le (invalid code) size lt = omega arith
bytes_of-le (finished cs) size lt = omega (arith, lt, length-append cs (0 ∷ []))
bytes_of-le (truncated cs) size lt = omega (arith, lt)

-- For a size from 1 to 2 ^ 31 - 1, a format without `*` and without more than 9 digits in a row, and
-- any arguments and strings, where the negation of the least long long is taken to wrap: the chars
-- that snprintf writes from the start of the buffer on are fewer than the size; and with the '\0' that
-- it writes after them when it was not cut short, they are no more bytes than the size. The '\0' of a
-- run that was cut short is not one of these bytes: it goes to the index -1, before the buffer.
pub chars_of-snprintf :
    (string_at : ℕ → List ℕ) (size : ℕ) (format args : List ℕ)
    → 0 < size
    → size < 2 ^ 31
    → has_short_numbers 0 format ≡ true
    → (length (chars_of (snprintf string_at false size (some format) args)) < size)
      × (length (bytes_of (snprintf string_at false size (some format) args)) ≤ size)
unfolding vsnprintf_internal
chars_of-snprintf string_at size format args pos small ok =
    let m = after_spec args in
    let inside =
      loop-length string_at size m 0 0 format pos small pos (fresh-Fits args 0) (omega arith) ok in
    let few : length (chars_of (snprintf string_at false size (some format) args)) < size =
      if-elim (λ o. length (chars_of o) < size) (true && (size == 0)) _ _ (λ e. ground arith)
        (λ e. omega (
          arith,
          inside,
          ap length (chars_of-end (vsnprintf_loop string_at size true m 0 format)),
        )) in
    (few, bytes_of-le (snprintf string_at false size (some format) args) size few)
