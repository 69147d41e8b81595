-- ===== src/Printf/Reading.antt =====
-- Reading a number: spaces, a sign and digits, and what it gives of printed digits.
use mathlib.Core.List.{append_assoc}
use native.Mathlib.Nat.{pow-zero}
use mug_os.Base.{
  ℕ, zero, suc, ◌+◌, ◌-◌, ◌*◌, ◌/◌, ◌%◌, ◌^◌, ◌≤◌, ◌<◌, ◌≡◌, inl, inr, refl, ap, ◌∙◌, arith, Bool,
  true, false, ◌&&◌, List, [], ◌∷◌, ◌++◌, ltb, leb, ◌==◌, if◌then◌else◌, replicate, lt→ltb,
}
use mug_os.Printf.Number.{hex_char, number_buffer, backwards}
use mug_os.Printf.Digits.{IsRadix, below_power}

-- The value of a digit, which 16 is not.
unfoldable pub digit_value : ℕ → ℕ
digit_value c =
    if leb b'0' c && leb c b'9'
    then c - b'0'
    else if leb b'A' c && leb c b'F'
    then c - b'A' + 10
    else if leb b'a' c && leb c b'f'
    then c - b'a' + 10
    else 16

-- The number that the digits up to the first other char stand for.
unfoldable pub read_digits : ℕ → ℕ → List ℕ → ℕ
read_digits radix value [] = value
read_digits radix value (c ∷ cs) =
    let rest = read_digits radix (value * radix + digit_value c) cs in
    if ltb (digit_value c) radix then rest else value

unfoldable pub skip_spaces : List ℕ → List ℕ
skip_spaces [] = []
skip_spaces (c ∷ cs) = let rest = skip_spaces cs in if c == b' ' then rest else c ∷ cs

unfoldable pub read_signed : ℕ → List ℕ → Bool × ℕ
read_signed radix [] = (false, 0)
read_signed radix (c ∷ cs) =
    if c == b'-'
    then (true, read_digits radix 0 cs)
    else if c == b'+'
    then (false, read_digits radix 0 cs)
    else (false, read_digits radix 0 (c ∷ cs))

-- Spaces, a sign, and digits: whether it is a minus, and the number.
abbrev pub read : ℕ → List ℕ → Bool × ℕ
read radix cs = read_signed radix (skip_spaces cs)

digit_value-hex_char : (u : Bool) (d : ℕ) → d < 16 → digit_value (hex_char u d) ≡ d
unfolding digit_value hex_char
digit_value-hex_char true d lt = ground arith
digit_value-hex_char false d lt = ground arith

divided : (radix n : ℕ) → IsRadix radix → n / radix * radix + n % radix ≡ n
unfolding IsRadix
divided radix n (inl e) = rw (e) (omega arith)
divided radix n (inr (inl e)) = rw (e) (omega arith)
divided radix n (inr (inr e)) = rw (e) (omega arith)

digit-lt : (radix n : ℕ) → IsRadix radix → n % radix < radix
unfolding IsRadix
digit-lt radix n (inl e) = rw (e) (omega arith)
digit-lt radix n (inr (inl e)) = rw (e) (omega arith)
digit-lt radix n (inr (inr e)) = rw (e) (omega arith)

pub radix-pos : (radix : ℕ) → IsRadix radix → 0 < radix
unfolding IsRadix
radix-pos radix is = ground arith

pub radix-le : (radix : ℕ) → IsRadix radix → radix ≤ 16
unfolding IsRadix
radix-le radix is = ground arith

-- One more digit.
read_digits-digit :
    (radix value d : ℕ) (u : Bool) (cs : List ℕ)
    → d < radix
    → radix ≤ 16
    → read_digits radix value (hex_char u d ∷ cs) ≡ read_digits radix (value * radix + d) cs
unfolding read_digits
read_digits-digit radix value d u cs lt le =
    rw (digit_value-hex_char u d (omega arith), lt→ltb d radix lt) refl

read_digits-choice :
    (radix q : ℕ) (last : Bool) (rest cs : List ℕ)
    → (last ≡ true → 0 ≡ q)
    → (last ≡ false → read_digits radix 0 (backwards rest ++ cs) ≡ read_digits radix q cs)
    → read_digits radix 0 (backwards (elim last [ true ↦ [] | false ↦ rest ]) ++ cs)
      ≡ read_digits radix q cs
unfolding backwards
read_digits-choice radix q true rest cs f g = ap (λ v. read_digits radix v cs) (f refl)
read_digits-choice radix q false rest cs f g = g refl

pub read_digits-number_buffer :
    (room radix n : ℕ) (u : Bool) (cs : List ℕ)
    → IsRadix radix
    → n < radix ^ room
    → read_digits radix 0 (backwards (number_buffer room u radix n) ++ cs) ≡ read_digits radix n cs
unfolding number_buffer backwards
read_digits-number_buffer zero radix n u cs is lt = ap (λ v. read_digits radix v cs) zero_is
  where
    zero_is : 0 ≡ n
    zero_is = omega (arith, lt, pow-zero radix)
read_digits-number_buffer (suc room) radix n u cs is lt =
    let c = hex_char u (n % radix) in
    let pos : 0 < radix = radix-pos radix is in
    let below = below_power radix room n pos lt in
    let front =
      read_digits-choice radix (n / radix) (n / radix == 0) (number_buffer room u radix (n / radix))
        (c ∷ cs) (λ e. ground arith)
        (λ e. read_digits-number_buffer room radix (n / radix) u (c ∷ cs) is below) in
    ap (read_digits radix 0) (
      append_assoc
        (backwards
          (elim (n / radix == 0) [ true ↦ [] | false ↦ number_buffer room u radix (n / radix) ]))
        (c ∷ []) cs)
    ∙ front
    ∙ read_digits-digit radix (n / radix) (n % radix) u cs (digit-lt radix n is) (radix-le radix is)
    ∙ ap (λ v. read_digits radix v cs) (divided radix n is)

pub read_digits-zeros :
    (radix k : ℕ) (cs : List ℕ)
    → 0 < radix
    → radix ≤ 16
    → read_digits radix 0 (replicate k b'0' ++ cs) ≡ read_digits radix 0 cs
unfolding read_digits hex_char
read_digits-zeros radix zero cs pos le = refl
read_digits-zeros radix (suc k) cs pos le =
    read_digits-digit radix 0 0 false (replicate k b'0' ++ cs) pos le
    ∙ ap (λ v. read_digits radix v (replicate k b'0' ++ cs)) (omega arith)
    ∙ read_digits-zeros radix k cs pos le

pub read_digits-spaces : (radix n k : ℕ) → radix ≤ 16 → read_digits radix n (replicate k b' ') ≡ n
unfolding read_digits digit_value
read_digits-spaces radix n zero le = refl
read_digits-spaces radix n (suc k) le = ground arith
