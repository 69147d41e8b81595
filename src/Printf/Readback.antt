-- ===== src/Printf/Readback.antt =====
-- A number that is printed, read again.
use mathlib.Core.List.{append_assoc}
use mug_os.Base.{
  ℕ, zero, suc, ◌/◌, ◌^◌, ◌<◌, ◌≡◌, ◌≢◌, ◌⊎◌, inl, inr, refl, ap, sym, ◌∙◌, arith, Bool, true,
  false, ◌&&◌, List, [], ◌∷◌, ◌++◌, leb, ◌==◌, if◌then◌else◌, length, replicate, if-elim,
}
use mug_os.Printf.Spec.{SpecifierState, is_negative, as_count}
use mug_os.Printf.Number.{
  hex_char, number_buffer, backwards, put_prefix_chars, paddings, put_number, sprintf_uint,
  sprintf_int, absolute,
}
use mug_os.Printf.Reading.{
  read_digits, skip_spaces, read_signed, read, radix-pos, radix-le, read_digits-number_buffer,
  read_digits-zeros, read_digits-spaces,
}
use mug_os.Printf.Digits.{IsRadix}
use mug_os.Printf.Paddings.{IsModest}
use mug_os.Printf.Length.{length-sprintf_int, size_signed-lt}

-- The first char is a digit or a letter.
abbrev starts : List ℕ → Bool
starts [] = false
starts (c ∷ cs) = leb b'0' c

abbrev all_digits : List ℕ → Bool
all_digits [] = true
all_digits (c ∷ cs) = leb b'0' c && all_digits cs

starts-replicate : (k : ℕ) (cs : List ℕ) → starts cs ≡ true → starts (replicate k b'0' ++ cs) ≡ true
starts-replicate zero cs h = h
starts-replicate (suc k) cs h = refl

starts-backwards :
    (ds cs : List ℕ) → all_digits ds ≡ true → starts cs ≡ true → starts (backwards ds ++ cs) ≡ true
unfolding backwards
starts-backwards [] cs all h = h
starts-backwards (d ∷ ds) cs all h =
    ap starts (append_assoc (backwards ds) (d ∷ []) cs)
    ∙ starts-backwards ds (d ∷ cs) (ground arith) (ground arith)

all_digits-number_buffer :
    (room radix n : ℕ) (u : Bool) → all_digits (number_buffer room u radix n) ≡ true
unfolding number_buffer hex_char
all_digits-number_buffer zero radix n u = refl
all_digits-number_buffer (suc room) radix n u =
    ground (arith, all_digits-number_buffer room radix (n / radix) u)

starts-some_backwards :
    (d : ℕ) (ds cs : List ℕ) → all_digits (d ∷ ds) ≡ true → starts (backwards (d ∷ ds) ++ cs) ≡ true
unfolding backwards
starts-some_backwards d ds cs all =
    ap starts (append_assoc (backwards ds) (d ∷ []) cs)
    ∙ starts-backwards ds (d ∷ cs) (ground arith) (ground arith)

starts-number_buffer :
    (room radix n : ℕ) (u : Bool) (cs : List ℕ)
    → 0 < room
    → starts (backwards (number_buffer room u radix n) ++ cs) ≡ true
unfolding number_buffer
starts-number_buffer zero radix n u cs pos = absurd (omega arith)
starts-number_buffer (suc room) radix n u cs pos =
    starts-some_backwards _ _ cs (all_digits-number_buffer (suc room) radix n u)

-- Nothing to skip, and no sign.
skip_spaces-starts : (cs : List ℕ) → starts cs ≡ true → skip_spaces cs ≡ cs
unfolding skip_spaces
skip_spaces-starts [] h = refl
skip_spaces-starts (c ∷ cs) h = ground arith

read_signed-starts :
    (radix : ℕ) (cs : List ℕ)
    → starts cs ≡ true
    → read_signed radix cs ≡ (false, read_digits radix 0 cs)
unfolding read_signed
read_signed-starts radix [] h = absurd (ground arith)
read_signed-starts radix (c ∷ cs) h =
    let minus : c == b'-' ≡ false = ground arith in
    let plus : c == b'+' ≡ false = ground arith in rw (minus, plus) refl

skip_spaces-replicate :
    (k : ℕ) (cs : List ℕ) → skip_spaces (replicate k b' ' ++ cs) ≡ skip_spaces cs
unfolding skip_spaces
skip_spaces-replicate zero cs = refl
skip_spaces-replicate (suc k) cs = skip_spaces-replicate k cs

-- The sign that is printed.
signed-read :
    (sign radix k : ℕ) (body : List ℕ)
    → (sign ≡ 0) ⊎ ((sign ≡ b' ') ⊎ ((sign ≡ b'+') ⊎ (sign ≡ b'-')))
    → starts body ≡ true
    → read radix (replicate k b' ' ++ ((if sign == 0 then [] else sign ∷ []) ++ body))
      ≡ (sign == b'-', read_digits radix 0 body)
unfolding skip_spaces read_signed
signed-read sign radix k body (inl e) h = rw (e) (
    ap (read_signed radix) (skip_spaces-replicate k body ∙ skip_spaces-starts body h)
    ∙ read_signed-starts radix body h)
signed-read sign radix k body (inr (inl e)) h = rw (e) (
    ap (read_signed radix) (skip_spaces-replicate k (b' ' ∷ body) ∙ skip_spaces-starts body h)
    ∙ read_signed-starts radix body h)
signed-read sign radix k body (inr (inr (inl e))) h =
    rw (e) (ap (read_signed radix) (skip_spaces-replicate k (b'+' ∷ body)))
signed-read sign radix k body (inr (inr (inr e))) h =
    rw (e) (ap (read_signed radix) (skip_spaces-replicate k (b'-' ∷ body)))

number-room : (radix n : ℕ) → IsRadix radix → n < 2 ^ 64 → n < radix ^ 128
unfolding IsRadix
number-room radix n (inl e) lt = rw (e) (omega arith)
number-room radix n (inr (inl e)) lt = rw (e) (omega arith)
number-room radix n (inr (inr e)) lt = rw (e) (omega arith)

-- The zeros, the digits and the spaces on the right.
body-read :
    (radix n noughts right : ℕ) (u : Bool)
    → IsRadix radix
    → n < 2 ^ 64
    → (starts (
          replicate noughts b'0'
          ++ (backwards (number_buffer 128 u radix n) ++ replicate right b' '))
        ≡ true)
      × (read_digits radix 0 (
            replicate noughts b'0'
            ++ (backwards (number_buffer 128 u radix n) ++ replicate right b' '))
          ≡ n)
body-read radix n noughts right u is lt =
    let tail : List ℕ = replicate right b' ' in
    let digits = backwards (number_buffer 128 u radix n) ++ tail in
    let room = number-room radix n is lt in
    (
      starts-replicate noughts digits (starts-number_buffer 128 radix n u tail (omega arith)),
      read_digits-zeros radix noughts digits (radix-pos radix is) (radix-le radix is)
          ∙ read_digits-number_buffer 128 radix n u tail is room
          ∙ read_digits-spaces radix n right (radix-le radix is),
    )

if-nothing :
    (b : Bool) (k c : ℕ) → (if b then [] else replicate k c) ≡ replicate (if b then 0 else k) c
if-nothing true k c = refl
if-nothing false k c = refl

if-something :
    (b : Bool) (k c : ℕ) → (if b then replicate k c else []) ≡ replicate (if b then k else 0) c
if-something true k c = refl
if-something false k c = refl

no_prefix :
    (spec : SpecifierState)
    → (spec.put_prefix ≡ false) ⊎ (spec.radix ≡ 10)
    → (if spec.put_prefix then put_prefix_chars spec.radix spec.uppercase else []) ≡ []
unfolding put_prefix_chars
no_prefix spec (inl e) = rw (e) refl
no_prefix spec (inr e) = if-elim (λ cs. cs ≡ []) spec.put_prefix _ _ (λ h. rw (e) refl) (λ h. refl)

put_number-read :
    (spec : SpecifierState) (n spaces noughts : ℕ)
    → IsRadix spec.radix
    → n < 2 ^ 64
    → (spec.sign ≡ 0) ⊎ ((spec.sign ≡ b' ') ⊎ ((spec.sign ≡ b'+') ⊎ (spec.sign ≡ b'-')))
    → (spec.put_prefix ≡ false) ⊎ (spec.radix ≡ 10)
    → read spec.radix
        (put_number spec (number_buffer 128 spec.uppercase spec.radix n) (spaces, noughts))
      ≡ (spec.sign == b'-', n)
unfolding put_number
put_number-read spec n spaces noughts is lt sign prefix =
    let left = if spec.pad_right then 0 else as_count spaces in
    let right = if spec.pad_right then as_count spaces else 0 in
    let body = body-read spec.radix n (as_count noughts) right spec.uppercase is lt in
    rw
      (
        if-nothing spec.pad_right (as_count spaces) b' ',
        if-something spec.pad_right (as_count spaces) b' ',
        no_prefix spec prefix,
      )
      (signed-read spec.sign spec.radix left _ sign body.0
        ∙ ap (λ v. (spec.sign == b'-', v)) body.1)

abbrev IsSign : ℕ → Type 0
IsSign sign = (sign ≡ 0) ⊎ ((sign ≡ b' ') ⊎ (sign ≡ b'+'))

some_sign :
    (sign : ℕ) → IsSign sign → (sign ≡ 0) ⊎ ((sign ≡ b' ') ⊎ ((sign ≡ b'+') ⊎ (sign ≡ b'-')))
some_sign sign is = ground arith

read-nothing :
    (sign radix n : ℕ) → (sign == b'-' ≡ true → 0 < n) → n ≡ 0 → read radix [] ≡ (sign == b'-', n)
unfolding read_signed skip_spaces
read-nothing sign radix n some e =
    let none : sign == b'-' ≡ false = ground arith in rw (e, none) refl

sprintf_uint-read :
    (spec : SpecifierState) (n : ℕ)
    → IsRadix spec.radix
    → n < 2 ^ 64
    → (spec.sign ≡ 0) ⊎ ((spec.sign ≡ b' ') ⊎ ((spec.sign ≡ b'+') ⊎ (spec.sign ≡ b'-')))
    → (spec.sign == b'-' ≡ true → 0 < n)
    → (spec.put_prefix ≡ false) ⊎ (spec.radix ≡ 10)
    → read spec.radix (sprintf_uint spec n) ≡ (spec.sign == b'-', n)
unfolding sprintf_uint
sprintf_uint-read spec n is lt sign some prefix =
    let buffer = number_buffer 128 spec.uppercase spec.radix n in
    let pads = paddings spec (length buffer) in
    if-elim (λ cs. read spec.radix cs ≡ (spec.sign == b'-', n)) (spec.precision == 0 && n == 0) _ _
      (λ e. read-nothing spec.sign spec.radix n some (ground arith))
      (λ e. put_number-read spec n pads.0 pads.1 is lt sign prefix)

-- For each number of 64 bits, each of the radices 8, 10 and 16 and each sign that a flag sets, with any
-- width, precision and flags but the prefix: what sprintf_uint writes reads as that number, without a
-- minus.
pub read-sprintf_uint :
    (spec : SpecifierState) (n : ℕ)
    → IsRadix spec.radix
    → n < 2 ^ 64
    → IsSign spec.sign
    → spec.put_prefix ≡ false
    → read spec.radix (sprintf_uint spec n) ≡ (false, n)
read-sprintf_uint spec n is lt sign prefix =
    let plain : spec.sign == b'-' ≡ false = ground arith in
    sprintf_uint-read spec n is lt (some_sign spec.sign sign) (λ e. absurd (ground arith))
      (inl prefix)
    ∙ ap (λ b. (b, n)) plain

minus_when :
    (spec : SpecifierState) (minus : Bool) (m : ℕ)
    → spec.radix ≡ 10
    → m < 2 ^ 64
    → IsSign spec.sign
    → (minus ≡ true → 0 < m)
    → read 10 (sprintf_uint (if minus then record spec { sign = b'-' } else spec) m) ≡ (minus, m)
unfolding IsRadix
minus_when spec true m ten lt sign some =
    let negative = record spec { sign = b'-' } in
    ap (λ r. read r (sprintf_uint negative m)) (sym ten)
    ∙ sprintf_uint-read negative m (inr (inl ten)) lt (inr (inr (inr refl))) (λ e. some refl)
        (inr ten)
minus_when spec false m ten lt sign some =
    let plain : spec.sign == b'-' ≡ false = ground arith in
    ap (λ r. read r (sprintf_uint spec m)) (sym ten)
    ∙ sprintf_uint-read spec m (inr (inl ten)) lt (some_sign spec.sign sign)
        (λ e. absurd (ground arith)) (inr ten)
    ∙ ap (λ b. (b, m)) plain

-- For each signed number of 64 bits but the least one, each sign that a flag sets and any flags, with a
-- width below 2 ^ 30 and a precision that is below 2 ^ 30 or negative, but not below -2 ^ 30: sprintf_int
-- writes fewer than 2 ^ 31 chars in base 10, so that it counts them without overflow, and they read as
-- the number, a minus and the absolute value if it is below 0.
pub read-sprintf_int :
    (spec : SpecifierState) (n : ℕ)
    → spec.radix ≡ 10
    → IsModest spec
    → n < 2 ^ 64
    → n ≢ 2 ^ 63
    → IsSign spec.sign
    → (length (sprintf_int spec n) < 2 ^ 31)
      × (read 10 (sprintf_int spec n) ≡ (is_negative n, absolute n))
unfolding sprintf_int IsRadix
read-sprintf_int spec n ten modest lt not_least sign =
    let fits = length-sprintf_int spec n modest (inr (inl ten)) lt in
    let size = size_signed-lt spec n modest (inr (inl ten)) lt in
    (
      omega (arith, fits, size),
      minus_when spec (is_negative n) (absolute n) ten (ground arith) sign (λ e. ground arith),
    )
