-- ===== src/Printf/Printed.antt =====
-- What printf_uint writes to a descriptor that takes all chars.
use native.Mathlib.Nat.{mod-lt}
use mathlib.Core.List.{append_assoc, append-nil}
use mug_os.Base.{
  ℕ, zero, suc, ◌+◌, ◌/◌, ◌≤◌, ◌<◌, ◌≡◌, refl, ap, sym, ◌∙◌, arith, Bool, true, false, not, ◌&&◌,
  List, [], ◌∷◌, ◌++◌, Option, ◌==◌, if◌then◌else◌, length, replicate, length-append,
  length-replicate,
}
use mug_os.Printf.Spec.{SpecifierState, as_count}
use mug_os.Printf.Number.{
  hex_char, number_buffer, backwards, put_padding, put_prefix_chars, put_number,
}
use mug_os.Printf.Descriptor.{
  Fd, Progress, dputc, dputs, padding_loop, printf_put_prefix, pad, put_each, add_result, prefix,
  left_padding, print_sign, print_prefix, right_padding, print_number,
}

-- No char that a signed char shows as EOF.
unfoldable pub no_eof : List ℕ → Bool
no_eof [] = true
no_eof (c ∷ cs) = not (c == 255) && no_eof cs

-- What a part of printf_uint writes and counts.
abbrev Puts : (Progress → Progress) → List ℕ → Type 0
Puts f cs =
    (p : Progress)
    → p.returned ≡ false
    → ((f p).fd.output ≡ p.fd.output ++ cs)
      × ((f p).printed ≡ p.printed + length cs)
      × ((f p).returned ≡ false)

nothing-Puts : Puts (λ p. p) []
nothing-Puts p h = (sym (append-nil p.fd.output), omega arith, h)

after-Puts :
    (f g : Progress → Progress) (xs ys : List ℕ)
    → Puts f xs
    → Puts g ys
    → Puts (λ p. g (f p)) (xs ++ ys)
after-Puts f g xs ys pf pg p h =
    let first = pf p h in
    let second = pg (f p) first.2 in
    (
      second.0 ∙ ap (λ o. o ++ ys) first.0 ∙ append_assoc p.fd.output xs ys,
      omega (arith, second.1, first.1, length-append xs ys),
      second.2,
    )

if-Puts :
    (b : Bool) (f : Progress → Progress) (xs : List ℕ)
    → Puts f xs
    → Puts (λ p. if b then f p else p) (if b then xs else [])
if-Puts true f xs pf = pf
if-Puts false f xs pf = nothing-Puts

unless-Puts :
    (b : Bool) (f : Progress → Progress) (xs : List ℕ)
    → Puts f xs
    → Puts (λ p. if b then p else f p) (if b then [] else xs)
unless-Puts true f xs pf = nothing-Puts
unless-Puts false f xs pf = pf

module _ (accepts : ℕ → Bool) (accepts_all : (k : ℕ) → accepts k ≡ true) where
  pub dputc-output : (fd : Fd) (c : ℕ) → (dputc accepts fd c).0.output ≡ fd.output ++ (c ∷ [])
  unfolding dputc
  dputc-output fd c = rw (accepts_all fd.attempts) refl

  dputc-eof : (fd : Fd) (c : ℕ) → (dputc accepts fd c).1 ≡ (c == 255)
  unfolding dputc
  dputc-eof fd c = rw (accepts_all fd.attempts) refl

  pub dputs-output :
      (fd : Fd) (cs : List ℕ)
      → no_eof cs ≡ true
      → ((dputs accepts fd cs).0.output ≡ fd.output ++ cs) × ((dputs accepts fd cs).1 ≡ false)
  unfolding dputs no_eof
  dputs-output fd [] h = (sym (append-nil fd.output), refl)
  dputs-output fd (c ∷ cs) h =
      let step = dputc accepts fd c in
      let fine : (dputc accepts fd c).1 ≡ false = dputc-eof fd c ∙ ground arith in
      let rest = dputs-output step.0 cs (ground arith) in
      rw (fine) (
        rest.0 ∙ ap (λ o. o ++ cs) (dputc-output fd c) ∙ append_assoc fd.output (c ∷ []) cs,
        rest.1,
      )

  padding_loop-output :
      (fd : Fd) (k c : ℕ)
      → c == 255 ≡ false
      → ((padding_loop accepts fd k c).0.output ≡ fd.output ++ replicate k c)
        × ((padding_loop accepts fd k c).1 ≡ k)
  unfolding padding_loop
  padding_loop-output fd zero c h = (sym (append-nil fd.output), refl)
  padding_loop-output fd (suc k) c h =
      let step = dputc accepts fd c in
      let fine : (dputc accepts fd c).1 ≡ false = dputc-eof fd c ∙ h in
      let rest = padding_loop-output step.0 k c h in
      rw (fine) (
        rest.0
            ∙ ap (λ o. o ++ replicate k c) (dputc-output fd c)
            ∙ append_assoc fd.output (c ∷ []) (replicate k c),
        ap suc rest.1,
      )

  pad-Puts : (n c : ℕ) → c == 255 ≡ false → Puts (pad accepts n c) (put_padding n c)
  unfolding pad
  pad-Puts n c h p going =
      let out = padding_loop-output p.fd (as_count n) c h in
      rw (going) (out.0, omega (arith, out.1, length-replicate (as_count n) c), refl)

  put_each-Puts : (cs : List ℕ) → no_eof cs ≡ true → Puts (put_each accepts cs) cs
  unfolding put_each no_eof
  put_each-Puts [] h p going = nothing-Puts p going
  put_each-Puts (c ∷ cs) h p going =
      let step = dputc accepts p.fd c in
      let fine : (dputc accepts p.fd c).1 ≡ false = dputc-eof p.fd c ∙ ground arith in
      let next : Progress = record { fd = step.0; printed = p.printed + 1; returned = false } in
      let rest = put_each-Puts cs (ground arith) next refl in
      rw (going, fine)
        (
          rest.0 ∙ ap (λ o. o ++ cs) (dputc-output p.fd c) ∙ append_assoc p.fd.output (c ∷ []) cs,
          omega (arith, rest.1),
          rest.2,
        )

  abbrev Added : Progress → Fd × Option ℕ → List ℕ → Type 0
  Added p r cs =
      ((add_result accepts p r).fd.output ≡ p.fd.output ++ cs)
      × ((add_result accepts p r).printed ≡ p.printed + length cs)
      × ((add_result accepts p r).returned ≡ false)

  choice-Added :
      (p : Progress) (a b : Bool) (r s t : Fd × Option ℕ) (xs ys zs : List ℕ)
      → Added p r xs
      → Added p s ys
      → Added p t zs
      → Added p (if a then r else if b then s else t) (if a then xs else if b then ys else zs)
  choice-Added p true b r s t xs ys zs f g h = f
  choice-Added p false true r s t xs ys zs f g h = g
  choice-Added p false false r s t xs ys zs f g h = h

  prefix-Puts :
      (spec : SpecifierState)
      → Puts (prefix accepts spec) (put_prefix_chars spec.radix spec.uppercase)
  unfolding prefix printf_put_prefix put_prefix_chars add_result no_eof
  prefix-Puts spec p going =
      let zero_char : (dputc accepts p.fd b'0').1 ≡ false = dputc-eof p.fd b'0' in
      let x = if spec.uppercase then b'X' else b'x' in
      let chars = dputs-output p.fd (b'0' ∷ x ∷ []) (ground arith) in
      rw (going, zero_char, chars.1)
        (choice-Added p (spec.radix == 8) (spec.radix == 16) _ _ _ _ _ _
          (dputc-output p.fd b'0', refl, refl) (chars.0, refl, refl)
          (sym (append-nil p.fd.output), omega arith, refl))

  -- The digits are hexadecimal at most.
  pub no_eof-number_buffer :
      (room : ℕ) (u : Bool) (radix n : ℕ)
      → 0 < radix
      → radix ≤ 16
      → no_eof (number_buffer room u radix n) ≡ true
  unfolding no_eof number_buffer hex_char
  no_eof-number_buffer zero u radix n pos le = refl
  no_eof-number_buffer (suc room) u radix n pos le =
      let lt = mod-lt n pos in
      ground (arith, lt, no_eof-number_buffer room u radix (n / radix) pos le)

  no_eof-append : (xs ys : List ℕ) → no_eof xs ≡ true → no_eof ys ≡ true → no_eof (xs ++ ys) ≡ true
  unfolding no_eof
  no_eof-append [] ys h k = k
  no_eof-append (x ∷ xs) ys h k = ground (arith, no_eof-append xs ys)

  no_eof-backwards : (cs : List ℕ) → no_eof cs ≡ true → no_eof (backwards cs) ≡ true
  unfolding no_eof backwards
  no_eof-backwards [] h = refl
  no_eof-backwards (c ∷ cs) h =
      no_eof-append (backwards cs) (c ∷ []) (no_eof-backwards cs (ground arith)) (ground arith)

  left-Puts :
      (spec : SpecifierState) (n : ℕ)
      → Puts (left_padding accepts spec n) (if spec.pad_right then [] else put_padding n b' ')
  unfolding left_padding
  left-Puts spec n =
      unless-Puts spec.pad_right (pad accepts n b' ') (put_padding n b' ') (pad-Puts n b' ' refl)

  right-Puts :
      (spec : SpecifierState) (n : ℕ)
      → Puts (right_padding accepts spec n) (if spec.pad_right then put_padding n b' ' else [])
  unfolding right_padding
  right-Puts spec n =
      if-Puts spec.pad_right (pad accepts n b' ') (put_padding n b' ') (pad-Puts n b' ' refl)

  sign-Puts :
      (spec : SpecifierState)
      → spec.sign < 128
      → Puts (print_sign accepts spec) (if spec.sign == 0 then [] else spec.sign ∷ [])
  unfolding print_sign no_eof
  sign-Puts spec lt =
      unless-Puts (spec.sign == 0) (put_each accepts (spec.sign ∷ [])) (spec.sign ∷ [])
        (put_each-Puts (spec.sign ∷ []) (ground arith))

  prefix_if-Puts :
      (spec : SpecifierState)
      → Puts
          (print_prefix accepts spec)
          (if spec.put_prefix then put_prefix_chars spec.radix spec.uppercase else [])
  unfolding print_prefix
  prefix_if-Puts spec = if-Puts spec.put_prefix (prefix accepts spec) _ (prefix-Puts spec)

  pub print_number-Puts :
      (spec : SpecifierState) (buffer : List ℕ) (spaces noughts : ℕ)
      → spec.sign < 128
      → no_eof buffer ≡ true
      → Puts
          (print_number accepts spec buffer (spaces, noughts))
          (put_number spec buffer (spaces, noughts))
  unfolding print_number put_number
  print_number-Puts spec buffer spaces noughts sign plain =
      let digits = put_each-Puts (backwards buffer) (no_eof-backwards buffer plain) in
      let f1 = right_padding accepts spec spaces in
      let f2 : Progress → Progress = λ p. f1 (put_each accepts (backwards buffer) p) in
      let f3 : Progress → Progress = λ p. f2 (pad accepts noughts b'0' p) in
      let f4 : Progress → Progress = λ p. f3 (print_prefix accepts spec p) in
      let f5 : Progress → Progress = λ p. f4 (print_sign accepts spec p) in
      after-Puts (left_padding accepts spec spaces) f5 _ _ (left-Puts spec spaces) (
        after-Puts (print_sign accepts spec) f4 _ _ (sign-Puts spec sign) (
          after-Puts (print_prefix accepts spec) f3 _ _ (prefix_if-Puts spec) (
            after-Puts (pad accepts noughts b'0') f2 _ _ (pad-Puts noughts b'0' refl) (
              after-Puts (put_each accepts (backwards buffer)) f1 _ _ digits
                (right-Puts spec spaces)))))
