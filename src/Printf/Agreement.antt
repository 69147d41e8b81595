-- ===== src/Printf/Agreement.antt =====
-- What vdprintf writes to a descriptor that takes all chars is what sprintf writes to memory.
use mathlib.Core.List.{append_assoc, append-nil}
use mug_os.Base.{
  ℕ, ◌+◌, ◌^◌, ◌≤◌, ◌<◌, ◌≡◌, refl, ap, sym, ◌∙◌, arith, Bool, true, false, ◌&&◌, List, [], ◌∷◌,
  ◌++◌, some, leb, ◌==◌, if◌then◌else◌, length, if-elim, length-append,
}
use mug_os.Printf.Spec.{SpecifierState, is_negative}
use mug_os.Printf.Number.{number_buffer, paddings, sprintf_uint, sprintf_int, with_sign, absolute}
use mug_os.Printf.Descriptor.{Fd, Progress, printf_uint, printf_int, print_piece, vdprintf_loop}
use mug_os.Printf.Descriptor.{output_after, count_of, vdprintf_internal}
use mug_os.Printf.Machine.{Machine, Piece, nothing, char, text, integer, after_spec, advance}
use mug_os.Printf.Memory.{
  Written, null_text, put_text, put_piece, vsnprintf_loop, chars_of, vsnprintf_internal, sprintf,
}
use mug_os.Printf.Reading.{radix-le, radix-pos}
use mug_os.Printf.Bounded.{
  Fits, PieceFits, IsPrintable, next_run, advance-Fits, advance-same, fresh-Fits,
}
use mug_os.Printf.Safety.{has_short_numbers, chars_of-end}
use mug_os.Printf.Printed.{
  no_eof, dputc-output, dputs-output, no_eof-number_buffer, print_number-Puts,
}

-- Chars were written after those of the descriptor, and counted.
abbrev Wrote : Fd → Fd × ℕ → List ℕ → Type 0
Wrote fd out cs = (out.0.output ≡ fd.output ++ cs) × (out.1 ≡ length cs)

choice-Wrote :
    (fd : Fd) (b : Bool) (x y : Fd × ℕ) (xs ys : List ℕ)
    → Wrote fd x xs
    → Wrote fd y ys
    → Wrote fd (if b then x else y) (if b then xs else ys)
choice-Wrote fd true x y xs ys p q = p
choice-Wrote fd false x y xs ys p q = q

-- Without a check all chars are put.
put_text-all : (size printed : ℕ) (cs : List ℕ) → put_text size false printed cs ≡ (cs, true)
unfolding put_text
put_text-all size printed [] = refl
put_text-all size printed (c ∷ cs) =
    ap (λ (r : Written). (c ∷ r.0, r.1)) (put_text-all size (printed + 1) cs)

choice-text :
    (b : Bool) (xs ys : List ℕ) (w : Written)
    → w ≡ (ys, true)
    → (if◌then◌else◌ {A = Written} b (xs, true) w).0 ≡ (if b then xs else ys)
choice-text true xs ys w e = refl
choice-text false xs ys w e = ap (λ (r : Written). r.0) e

goes-on : (b : Bool) (x y : Written) → b ≡ true → (if◌then◌else◌ {A = Written} b x y).0 ≡ x.0
goes-on true x y h = refl
goes-on false x y h = absurd (ground arith)

module _ (accepts : ℕ → Bool) (accepts_all : (k : ℕ) → accepts k ≡ true) (string_at : ℕ → List ℕ)
    (strings : (pointer : ℕ) → no_eof (string_at pointer) ≡ true) where
  printf_uint-Wrote :
      (fd : Fd) (spec : SpecifierState) (n : ℕ)
      → IsPrintable spec.radix spec.sign
      → Wrote fd (printf_uint accepts fd spec n) (sprintf_uint spec n)
  unfolding printf_uint sprintf_uint IsPrintable
  printf_uint-Wrote fd spec n ok =
      let buffer = number_buffer 128 spec.uppercase spec.radix n in
      let pads = paddings spec (length buffer) in
      let plain =
        no_eof-number_buffer accepts accepts_all 128 spec.uppercase spec.radix n
          (radix-pos spec.radix ok.0) (radix-le spec.radix ok.0) in
      let start : Progress = record { fd = fd; printed = 0; returned = false } in
      let puts =
        print_number-Puts accepts accepts_all spec buffer pads.0 pads.1 ok.1 plain start refl in
      choice-Wrote fd ((spec.precision == 0) && (n == 0)) _ _ _ _ (sym (append-nil fd.output), refl)
        (puts.0, omega (arith, puts.1))

  printf_int-Wrote :
      (fd : Fd) (spec : SpecifierState) (n : ℕ)
      → IsPrintable spec.radix spec.sign
      → Wrote fd (printf_int accepts fd spec n) (sprintf_int spec n)
  unfolding printf_int sprintf_int IsPrintable
  printf_int-Wrote fd spec n ok =
      let negative = record spec { sign = b'-' } in
      printf_uint-Wrote fd (with_sign spec n) (absolute n) (
        if-elim (λ s. IsPrintable s.radix s.sign) (is_negative n) negative spec
          (λ e. (ok.0, omega arith)) (λ e. ok))

  print_piece-Wrote :
      (fd : Fd) (size printed : ℕ) (piece : Piece)
      → PieceFits piece
      → Wrote fd
          (print_piece accepts string_at fd piece)
          (put_piece string_at size false printed piece).0
  unfolding print_piece put_piece PieceFits no_eof
  print_piece-Wrote fd size printed nothing fits = (sym (append-nil fd.output), refl)
  print_piece-Wrote fd size printed (char c) fits = (dputc-output accepts accepts_all fd c, refl)
  print_piece-Wrote fd size printed (text pointer) fits =
      let put = put_text size false printed (string_at pointer) in
      let same =
        choice-text (pointer == 0) null_text (string_at pointer) put
          (put_text-all size printed (string_at pointer)) in
      let plain =
        if-elim (λ cs. no_eof cs ≡ true) (pointer == 0) null_text (string_at pointer) (λ e. refl)
          (λ e. strings pointer) in
      let out =
        dputs-output accepts accepts_all fd (if pointer == 0 then null_text else string_at pointer)
          plain in
      (out.0 ∙ ap (λ cs. fd.output ++ cs) (sym same), ap length (sym same))
  print_piece-Wrote fd size printed (integer spec number) fits =
      choice-Wrote fd spec.number_signed _ _ _ _ (printf_int-Wrote fd spec number fits.1)
        (printf_uint-Wrote fd spec number fits.1)

  put_piece-going :
      (size printed : ℕ) (piece : Piece) → (put_piece string_at size false printed piece).1 ≡ true
  unfolding put_piece
  put_piece-going size printed nothing = refl
  put_piece-going size printed (char c) = refl
  put_piece-going size printed (text pointer) =
      if-elim (λ (w : Written). w.1 ≡ true) (pointer == 0) _ _ (λ e. refl)
        (λ e. ap (λ (w : Written). w.1) (put_text-all size printed (string_at pointer)))
  put_piece-going size printed (integer spec number) = refl

  loop-agrees :
      (m : Machine) (fd : Fd) (size printed place k : ℕ) (format : List ℕ)
      → Fits m k
      → k ≤ 9
      → has_short_numbers k format ≡ true
      → ((vdprintf_loop accepts string_at m fd printed format).0.output
          ≡ fd.output ++ (vsnprintf_loop string_at size false m place format).0)
        × ((vdprintf_loop accepts string_at m fd printed format).1
            ≡ printed + length (vsnprintf_loop string_at size false m place format).0)
  unfolding vdprintf_loop vsnprintf_loop has_short_numbers
  loop-agrees m fd size printed place k [] fits le ok = (sym (append-nil fd.output), omega arith)
  loop-agrees m fd size printed place k (c ∷ format) fits le ok =
      let next = advance true m c in
      let no_star : c == b'*' ≡ false = ground arith in
      let few : leb (next_run k c) 9 ≡ true = ground arith in
      let ok2 : has_short_numbers (next_run k c) format ≡ true = ground arith in
      let good = advance-Fits m c k fits le no_star (λ digit. ground arith) in
      let put = put_piece string_at size false place next.1 in
      let wrote = print_piece-Wrote fd size place next.1 good.1 in
      let out = print_piece accepts string_at fd next.1 in
      let rest =
        loop-agrees next.0 out.0 size (printed + out.1) (place + length put.0) (next_run k c) format
          good.0 (ground arith) ok2 in
      let after = vsnprintf_loop string_at size false next.0 (place + length put.0) format in
      let all =
        goes-on put.1 (put.0 ++ after.0, after.1) (put.0, false)
          (put_piece-going size place next.1) in
      let same = advance-same m c k fits le in
      let read : Machine × Piece → Fd × ℕ = λ n.
        vdprintf_loop accepts string_at n.0 (print_piece accepts string_at fd n.1).0
          (printed + (print_piece accepts string_at fd n.1).1) format in
      (
        ap (λ n. (read n).0.output) same
            ∙ rest.0
            ∙ ap (λ o. o ++ after.0) wrote.0
            ∙ append_assoc fd.output put.0 after.0
            ∙ ap (λ cs. fd.output ++ cs) (sym all),
        ap (λ n. (read n).1) same
            ∙ omega (arith, rest.1, wrote.1, length-append put.0 after.0, ap length all),
      )

-- For a descriptor that takes each char, strings without the char 255, a format without `*` and without
-- more than 9 digits in a row, and arguments for which sprintf writes fewer than 2 ^ 31 chars, so that no
-- count overflows: vdprintf writes the chars to the descriptor that sprintf writes to memory, and returns
-- how many they are. The negation of the least long long is taken to wrap in both.
pub vdprintf-sprintf :
    (accepts : ℕ → Bool) (string_at : ℕ → List ℕ) (fd : Fd) (format args : List ℕ)
    → ((k : ℕ) → accepts k ≡ true)
    → ((pointer : ℕ) → no_eof (string_at pointer) ≡ true)
    → has_short_numbers 0 format ≡ true
    → length (chars_of (sprintf string_at false (some format) args)) < 2 ^ 31
    → (output_after fd (vdprintf_internal accepts string_at (some fd) (some format) args)
        ≡ fd.output ++ chars_of (sprintf string_at false (some format) args))
      × (count_of (vdprintf_internal accepts string_at (some fd) (some format) args)
          ≡ length (chars_of (sprintf string_at false (some format) args)))
unfolding vdprintf_internal vsnprintf_internal
vdprintf-sprintf accepts string_at fd format args accepts_all strings ok fits =
    let start = after_spec args in
    let agree =
      loop-agrees accepts accepts_all string_at strings start fd 0 0 0 0 format (fresh-Fits args 0)
        (omega arith) ok in
    let chars = chars_of-end (vsnprintf_loop string_at 0 false start 0 format) in
    (agree.0 ∙ ap (λ cs. fd.output ++ cs) (sym chars), agree.1 ∙ omega (arith, ap length chars))
