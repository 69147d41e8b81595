-- ===== src/Printf/Memory.antt =====
-- Stdlib/printf.c: vsnprintf_internal. The strings that pointers stand for are a parameter. `printed` is
-- an int in the code, and a number without bounds here: the model is the code as long as it stays below
-- 2 ^ 31, beyond which C leaves the overflow undefined.
use mug_os.Base.{
  ℕ, ◌+◌, Bool, true, false, ◌&&◌, List, [], ◌∷◌, ◌++◌, Option, none, some, ltb, ◌==◌,
  if◌then◌else◌, length, add64, sub64,
}
use mug_os.Printf.Spec.{SpecifierState}
use mug_os.Printf.Number.{sprintf_uint, sprintf_int}
use mug_os.Printf.Size.{size_unsigned, size_signed}
use mug_os.Printf.Machine.{Machine, Piece, nothing, char, text, integer, after_spec, advance}

-- `snprintf_isBoundaryExceeded`.
abbrev pub is_boundary_exceeded : ℕ → ℕ → Bool → Bool
is_boundary_exceeded size i check_size = check_size && ltb (sub64 size 1) i

-- The chars that are written, and whether the loop goes on: if not, `goto end` was taken.
abbrev pub Written : Type 0
Written = List ℕ × Bool

-- `vsnprintf_internal_checkBoundaries` before chars that are written.
abbrev pub unless_exceeded : Bool → List ℕ → Written
unless_exceeded exceeded cs = if exceeded then ([], false) else (cs, true)

-- The loop of a string.
unfoldable pub put_text : ℕ → Bool → ℕ → List ℕ → Written
put_text size check_size printed [] = ([], true)
put_text size check_size printed (c ∷ cs) =
    let rest = put_text size check_size (printed + 1) cs in
    if is_boundary_exceeded size (printed + 1) check_size then ([], false) else (c ∷ rest.0, rest.1)

abbrev pub null_text : List ℕ
null_text = b'(' ∷ b'n' ∷ b'u' ∷ b'l' ∷ b'l' ∷ b')' ∷ []

abbrev pub chars_of_number : SpecifierState → ℕ → List ℕ
chars_of_number spec number =
    if spec.number_signed then sprintf_int spec number else sprintf_uint spec number

abbrev pub size_of_number : SpecifierState → ℕ → ℕ
size_of_number spec number =
    if spec.number_signed then size_signed spec number else size_unsigned spec number

-- A piece.
unfoldable pub put_piece : (ℕ → List ℕ) → ℕ → Bool → ℕ → Piece → Written
put_piece string_at size check_size printed nothing = ([], true)
put_piece string_at size check_size printed (char c) =
    unless_exceeded (is_boundary_exceeded size (printed + 1) check_size) (c ∷ [])
put_piece string_at size check_size printed (text pointer) =
    if pointer == 0
    then unless_exceeded (is_boundary_exceeded size (printed + 6) check_size) null_text
    else put_text size check_size printed (string_at pointer)
put_piece string_at size check_size printed (integer spec number) =
    unless_exceeded
      (is_boundary_exceeded size (add64 printed (size_of_number spec number)) check_size)
      (chars_of_number spec number)

-- The while loop.
unfoldable pub vsnprintf_loop : (ℕ → List ℕ) → ℕ → Bool → Machine → ℕ → List ℕ → Written
vsnprintf_loop string_at size check_size m printed [] = ([], true)
vsnprintf_loop string_at size check_size m printed (c ∷ format) =
    let next = advance true m c in
    let out = put_piece string_at size check_size printed next.1 in
    let rest = vsnprintf_loop string_at size check_size next.0 (printed + length out.0) format in
    if out.1 then (out.0 ++ rest.0, rest.1) else (out.0, false)

-- How the function ends: it returns minus a number at once; it writes '\0' after the chars and returns
-- how many these are; or it returns -1, and writes '\0' to `fmtStr[-1]`.
pub data Outcome : Type 0 where
  invalid : ℕ → Outcome
  finished truncated : List ℕ → Outcome

abbrev pub end : Written → Outcome
end written = if written.1 then finished written.0 else truncated written.0

-- The chars that the function wrote from the start of the buffer on, without the '\0'.
abbrev pub chars_of : Outcome → List ℕ
chars_of (invalid code) = []
chars_of (finished cs) = cs
chars_of (truncated cs) = cs

-- The bytes that the function wrote from the start of the buffer on, with the '\0' that `end` writes
-- after the chars. The one that it writes to `fmtStr[-1]` is before the buffer.
abbrev pub bytes_of : Outcome → List ℕ
bytes_of (invalid code) = []
bytes_of (finished cs) = cs ++ 0 ∷ []
bytes_of (truncated cs) = cs

-- `vsnprintf_internal`, with a NULL pointer as none.
unfoldable pub vsnprintf_internal :
    (ℕ → List ℕ) → Bool → ℕ → Bool → Option (List ℕ) → List ℕ → Outcome
vsnprintf_internal string_at str_is_null size check_size none args =
    if check_size && (size == 0) then invalid 1 else if str_is_null then invalid 2 else invalid 3
vsnprintf_internal string_at str_is_null size check_size (some format) args =
    if check_size && (size == 0)
    then invalid 1
    else if str_is_null
    then invalid 2
    else end (vsnprintf_loop string_at size check_size (after_spec args) 0 format)

-- `sprintf` and `vsprintf`.
abbrev pub sprintf : (ℕ → List ℕ) → Bool → Option (List ℕ) → List ℕ → Outcome
sprintf string_at str_is_null format args =
    vsnprintf_internal string_at str_is_null 0 false format args

-- `snprintf` and `vsnprintf`.
abbrev pub snprintf : (ℕ → List ℕ) → Bool → ℕ → Option (List ℕ) → List ℕ → Outcome
snprintf string_at str_is_null size format args =
    vsnprintf_internal string_at str_is_null size true format args
