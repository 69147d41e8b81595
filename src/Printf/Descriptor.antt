-- ===== src/Printf/Descriptor.antt =====
-- Stdlib/printf.c: vdprintf_internal, with what it writes to the file descriptor. Whether a write of a
-- char succeeds is a parameter of how many writes there were before. The counts `printed` are ints in the
-- code, and numbers without bounds here: the model is the code as long as they stay below 2 ^ 31, beyond
-- which C leaves the overflow undefined.
use mug_os.Base.{
  ℕ, zero, suc, ◌+◌, Bool, true, false, ◌&&◌, List, [], ◌∷◌, ◌++◌, Option, none, some, ◌==◌,
  if◌then◌else◌, length,
}
use mug_os.Printf.Spec.{SpecifierState, as_count}
use mug_os.Printf.Number.{number_buffer, backwards, paddings, with_sign, absolute}
use mug_os.Printf.Machine.{Machine, Piece, nothing, char, text, integer, after_spec, advance}
use mug_os.Printf.Memory.{null_text}

-- A descriptor: the writes that were tried, and the chars that were written.
pub record Fd : Type 0 where
  pub attempts : ℕ
  pub output : List ℕ

-- Where printf_uint is: the descriptor, `printed`, and whether it has returned.
pub record Progress : Type 0 where
  pub fd : Fd
  pub printed : ℕ
  pub returned : Bool

module _ (accepts : ℕ → Bool) where
  -- `dputc`, and whether its result is EOF: that of the char 255 is too, as the result is a signed char.
  unfoldable pub dputc : Fd → ℕ → Fd × Bool
  dputc fd c =
      if accepts fd.attempts
      then (record { attempts = suc fd.attempts; output = fd.output ++ (c ∷ []) }, c == 255)
      else (record fd { attempts = suc fd.attempts }, true)

  -- `dputs`, and whether its result is EOF.
  unfoldable pub dputs : Fd → List ℕ → Fd × Bool
  dputs fd [] = (fd, false)
  dputs fd (c ∷ cs) =
      let step = dputc fd c in let rest = dputs step.0 cs in if step.1 then (step.0, true) else rest

  -- The loop of `printf_uint_putPadding`, which returns how many chars it printed.
  unfoldable pub padding_loop : Fd → ℕ → ℕ → Fd × ℕ
  padding_loop fd zero padding = (fd, 0)
  padding_loop fd (suc i) padding =
      let step = dputc fd padding in
      let rest = padding_loop step.0 i padding in
      if step.1 then (step.0, 0) else (rest.0, suc rest.1)

  -- `printf_uint_putPrefix`, with EOF as none.
  unfoldable pub printf_put_prefix : Fd → ℕ → Bool → Fd × Option ℕ
  printf_put_prefix fd radix uppercase =
      let octal = dputc fd b'0' in
      let hexadecimal = dputs fd (b'0' ∷ (if uppercase then b'X' else b'x') ∷ []) in
      if radix == 8
      then (octal.0, if octal.1 then none else some 1)
      else if radix == 16
      then (hexadecimal.0, if hexadecimal.1 then none else some 2)
      else (fd, some 0)

  -- A padding: its result is never EOF.
  unfoldable pub pad : ℕ → ℕ → Progress → Progress
  pad n padding p =
      let out = padding_loop p.fd (as_count n) padding in
      if p.returned then p else record { fd = out.0; printed = p.printed + out.1; returned = false }

  -- Chars one after the other, up to EOF: the sign, and the digits.
  unfoldable pub put_each : List ℕ → Progress → Progress
  put_each [] p = p
  put_each (c ∷ cs) p =
      let step = dputc p.fd c in
      let rest = put_each cs (record { fd = step.0; printed = p.printed + 1; returned = false }) in
      if p.returned
      then p
      else if step.1
      then record { fd = step.0; printed = p.printed; returned = true }
      else rest

  unfoldable pub add_result : Progress → Fd × Option ℕ → Progress
  add_result p (fd, none) = record { fd = fd; printed = p.printed; returned = true }
  add_result p (fd, some n) = record { fd = fd; printed = p.printed + n; returned = false }

  unfoldable pub prefix : SpecifierState → Progress → Progress
  prefix spec p =
      if p.returned then p else add_result p (printf_put_prefix p.fd spec.radix spec.uppercase)

  -- Each is printed if it is there.
  unfoldable pub left_padding : SpecifierState → ℕ → Progress → Progress
  left_padding spec spaces p = if spec.pad_right then p else pad spaces b' ' p

  unfoldable pub print_sign : SpecifierState → Progress → Progress
  print_sign spec p = if spec.sign == 0 then p else put_each (spec.sign ∷ []) p

  unfoldable pub print_prefix : SpecifierState → Progress → Progress
  print_prefix spec p = if spec.put_prefix then prefix spec p else p

  unfoldable pub right_padding : SpecifierState → ℕ → Progress → Progress
  right_padding spec spaces p = if spec.pad_right then pad spaces b' ' p else p

  -- From the paddings on.
  unfoldable pub print_number : SpecifierState → List ℕ → ℕ × ℕ → Progress → Progress
  print_number spec buffer (spaces, zeros) p =
      let start = print_prefix spec (print_sign spec (left_padding spec spaces p)) in
      right_padding spec spaces (put_each (backwards buffer) (pad zeros b'0' start))

  -- `printf_uint`, which returns how many chars it printed.
  unfoldable pub printf_uint : Fd → SpecifierState → ℕ → Fd × ℕ
  printf_uint fd spec number =
      let buffer = number_buffer 128 spec.uppercase spec.radix number in
      let start : Progress = record { fd = fd; printed = 0; returned = false } in
      let done = print_number spec buffer (paddings spec (length buffer)) start in
      if (spec.precision == 0) && (number == 0) then (fd, 0) else (done.fd, done.printed)

  -- `printf_int`.
  unfoldable pub printf_int : Fd → SpecifierState → ℕ → Fd × ℕ
  printf_int fd spec number = printf_uint fd (with_sign spec number) (absolute number)

  -- What a char of the format gives, and how many chars are counted for it.
  unfoldable pub print_piece : (ℕ → List ℕ) → Fd → Piece → Fd × ℕ
  print_piece string_at fd nothing = (fd, 0)
  print_piece string_at fd (char c) = ((dputc fd c).0, 1)
  print_piece string_at fd (text pointer) =
      let s = if pointer == 0 then null_text else string_at pointer in ((dputs fd s).0, length s)
  print_piece string_at fd (integer spec number) =
      if spec.number_signed then printf_int fd spec number else printf_uint fd spec number

  unfoldable pub vdprintf_loop : (ℕ → List ℕ) → Machine → Fd → ℕ → List ℕ → Fd × ℕ
  vdprintf_loop string_at m fd printed [] = (fd, printed)
  vdprintf_loop string_at m fd printed (c ∷ format) =
      let next = advance false m c in
      let out = print_piece string_at fd next.1 in
      vdprintf_loop string_at next.0 out.0 (printed + out.1) format

-- How the function ends: it returns minus a number at once, or the count of the chars.
pub data Printed : Type 0 where
  refused : ℕ → Printed
  printed_to : Fd → ℕ → Printed

-- What the descriptor then shows, and the count that is returned.
abbrev pub output_after : Fd → Printed → List ℕ
output_after fd (refused code) = fd.output
output_after fd (printed_to after count) = after.output

abbrev pub count_of : Printed → ℕ
count_of (refused code) = 0
count_of (printed_to after count) = count

-- `vdprintf_internal`, for a format that is NULL, a descriptor that is negative, or neither.
unfoldable pub vdprintf_internal :
    (ℕ → Bool) → (ℕ → List ℕ) → Option Fd → Option (List ℕ) → List ℕ → Printed
vdprintf_internal accepts string_at fd none args = refused 1
vdprintf_internal accepts string_at none (some format) args = refused 2
vdprintf_internal accepts string_at (some fd) (some format) args =
    let out = vdprintf_loop accepts string_at (after_spec args) fd 0 format in
    printed_to out.0 out.1
