-- ===== src/Printf/Length.antt =====
-- How long a number is as sprintf_uint and sprintf_int write it, against the size that is computed before.
use mug_os.Base.{
  ℕ, zero, suc, ◌+◌, ◌-◌, ◌/◌, ◌^◌, ◌≤◌, ◌<◌, ◌≡◌, ◌⊎◌, refl, ap, arith, Bool, true, false, not,
  ◌&&◌, List, [], ◌∷◌, ltb, ◌==◌, if◌then◌else◌, length, add64, max, length-append, if-elim,
  length-replicate,
}
use mug_os.Printf.Spec.{SpecifierState, is_negative, as_count}
use mug_os.Printf.Number.{
  number_buffer, backwards, put_prefix_chars, prefix_size, sign_size, paddings, put_number,
  sprintf_uint, sprintf_int, with_sign, absolute,
}
use mug_os.Printf.Size.{get_number_of_digits, size_unsigned, size_signed}
use mug_os.Printf.Paddings.{IsModest, paddings-Fit}
use mug_os.Printf.Digits.{IsRadix, length-number_buffer}

length-backwards : (cs : List ℕ) → length (backwards cs) ≡ length cs
unfolding backwards
length-backwards [] = refl
length-backwards (c ∷ cs) =
    omega (arith, length-append (backwards cs) (c ∷ []), length-backwards cs)

length-if :
    (b : Bool) (xs ys : List ℕ)
    → length (if b then xs else ys) ≡ (if b then length xs else length ys)
length-if true xs ys = refl
length-if false xs ys = refl

length-put_number :
    (spec : SpecifierState) (buffer : List ℕ) (spaces noughts : ℕ)
    → length (put_number spec buffer (spaces, noughts))
      ≡ as_count spaces
        + sign_size spec
        + (if spec.put_prefix then length (put_prefix_chars spec.radix spec.uppercase) else 0)
        + as_count noughts
        + length buffer
unfolding put_number
length-put_number spec buffer spaces noughts =
    simp (length-append, length-if, length-replicate, length-backwards) (ground arith)

prefix_fits :
    (radix : ℕ) (uppercase : Bool)
    → IsRadix radix
    → length (put_prefix_chars radix uppercase) ≤ (if ltb 9 radix then 2 else 1)
unfolding put_prefix_chars IsRadix
prefix_fits radix uppercase is = ground arith

length-number_buffer_room :
    (room : ℕ) (uppercase : Bool) (radix n : ℕ)
    → length (number_buffer room uppercase radix n) ≤ room
unfolding number_buffer
length-number_buffer_room zero u r n = omega arith
length-number_buffer_room (suc room) u r n =
    ground (arith, length-number_buffer_room room u r (n / r))

-- The size that is computed, with the number of digits.
size_lem :
    (w p d pre sgn : ℕ)
    → w < 2 ^ 30
    → (p < 2 ^ 30) ⊎ ((2 ^ 64 - 2 ^ 30 ≤ p) × (p < 2 ^ 64))
    → d < 129
    → pre < 3
    → sgn < 2
    → max w ((if is_negative p then d else max d p) + (pre + sgn)) ≡ (
        let least = if not (is_negative p) && not (p == 0) && ltb d p then p else d in
        let all = add64 (add64 least pre) sgn in if ltb all w then w else all)
size_lem w p d pre sgn wf pf df pref sgnf = ground arith

length-put_number-paddings :
    (spec : SpecifierState) (n : ℕ)
    → IsModest spec
    → IsRadix spec.radix
    → n < 2 ^ 64
    → length (
        put_number spec
          (number_buffer 128 spec.uppercase spec.radix n)
          (paddings spec (length (number_buffer 128 spec.uppercase spec.radix n))))
      ≤ max spec.width (
          (if is_negative spec.precision
            then length (number_buffer 128 spec.uppercase spec.radix n)
            else max (length (number_buffer 128 spec.uppercase spec.radix n)) spec.precision)
          + (prefix_size spec + sign_size spec))
length-put_number-paddings spec n modest is small =
    let buffer = number_buffer 128 spec.uppercase spec.radix n in
    let room = length-number_buffer_room 128 spec.uppercase spec.radix n in
    let pads = paddings spec (length buffer) in
    let fit = paddings-Fit spec (length buffer) modest (omega arith) in
    let total = length-put_number spec buffer pads.0 pads.1 in
    let prefix = prefix_fits spec.radix spec.uppercase is in ground (arith, fit, total, prefix)

same_digits :
    (w p d e q : ℕ)
    → d ≡ e
    → max w ((if is_negative p then d else max d p) + q)
      ≡ max w ((if is_negative p then e else max e p) + q)
same_digits w p d e q eq = ap (λ x. max w ((if is_negative p then x else max x p) + q)) eq

le-if :
    (b : Bool) (xs : List ℕ) (size : ℕ)
    → length xs ≤ size
    → length (if b then [] else xs) ≤ (if b then 0 else size)
le-if true xs size le = omega arith
le-if false xs size le = le

le-trans_eq : (a b c d : ℕ) → a ≤ b → b ≡ c → c ≡ d → a ≤ d
le-trans_eq a b c d le e f = omega arith

max_lt :
    (w p d pre sgn : ℕ)
    → w < 2 ^ 30
    → (p < 2 ^ 30) ⊎ ((2 ^ 64 - 2 ^ 30 ≤ p) × (p < 2 ^ 64))
    → d < 129
    → pre < 3
    → sgn < 2
    → max w ((if is_negative p then d else max d p) + (pre + sgn)) < 2 ^ 31
max_lt w p d pre sgn wf pf df pref sgnf = ground arith

if-lt : (b : Bool) (size bound : ℕ) → 0 < bound → size < bound → (if b then 0 else size) < bound
if-lt true size bound pos lt = pos
if-lt false size bound pos lt = lt

pub size_unsigned-lt :
    (spec : SpecifierState) (n : ℕ)
    → IsModest spec
    → IsRadix spec.radix
    → n < 2 ^ 64
    → size_unsigned spec n < 2 ^ 31
unfolding size_unsigned IsModest
size_unsigned-lt spec n modest is small =
    let counted = length-number_buffer spec.uppercase spec.radix n is small in
    let room = length-number_buffer_room 128 spec.uppercase spec.radix n in
    let digits = get_number_of_digits n spec.radix in
    let few : get_number_of_digits n spec.radix < 129 = omega arith in
    let pre : prefix_size spec < 3 = ground arith in
    let sgn : sign_size spec < 2 = ground arith in
    let size = size_lem spec.width spec.precision digits _ _ modest.0 modest.1 few pre sgn in
    let lt = max_lt spec.width spec.precision digits _ _ modest.0 modest.1 few pre sgn in
    if-lt (spec.precision == 0 && n == 0) _ (2 ^ 31) (omega arith) (omega (arith, size, lt))

-- For each number of 64 bits, each of the radices and all flags, with a width below 2 ^ 30 and a
-- precision that is below 2 ^ 30 or negative, but not below -2 ^ 30: sprintf_uint writes no more chars
-- than getSizeOfNumberToPrint_unsigned computed before.
pub length-sprintf_uint :
    (spec : SpecifierState) (n : ℕ)
    → IsModest spec
    → IsRadix spec.radix
    → n < 2 ^ 64
    → length (sprintf_uint spec n) ≤ size_unsigned spec n
unfolding sprintf_uint size_unsigned IsModest
length-sprintf_uint spec n modest is small =
    let counted = length-number_buffer spec.uppercase spec.radix n is small in
    let room = length-number_buffer_room 128 spec.uppercase spec.radix n in
    let digits = get_number_of_digits n spec.radix in
    let q = prefix_size spec + sign_size spec in
    let fit = length-put_number-paddings spec n modest is small in
    let pre : prefix_size spec < 3 = ground arith in
    let sgn : sign_size spec < 2 = ground arith in
    let same = same_digits spec.width spec.precision _ digits q counted in
    let size =
      size_lem spec.width spec.precision digits _ _ modest.0 modest.1 (omega arith) pre sgn in
    le-if (spec.precision == 0 && n == 0) _ _ (le-trans_eq _ _ _ _ fit same size)

-- Also for sprintf_int and getSizeOfNumberToPrint_signed.
pub length-sprintf_int :
    (spec : SpecifierState) (n : ℕ)
    → IsModest spec
    → IsRadix spec.radix
    → n < 2 ^ 64
    → length (sprintf_int spec n) ≤ size_signed spec n
unfolding sprintf_int size_signed IsModest
length-sprintf_int spec n modest is small =
    let negative = record spec { sign = b'-' } in
    length-sprintf_uint (with_sign spec n) (absolute n)
      (if-elim IsModest (is_negative n) negative spec (λ e. modest) (λ e. modest))
      (if-elim (λ s. IsRadix s.radix) (is_negative n) negative spec (λ e. is) (λ e. is))
      (ground arith)

pub size_signed-lt :
    (spec : SpecifierState) (n : ℕ)
    → IsModest spec
    → IsRadix spec.radix
    → n < 2 ^ 64
    → size_signed spec n < 2 ^ 31
unfolding size_signed IsModest
size_signed-lt spec n modest is small =
    let negative = record spec { sign = b'-' } in
    size_unsigned-lt (with_sign spec n) (absolute n)
      (if-elim IsModest (is_negative n) negative spec (λ e. modest) (λ e. modest))
      (if-elim (λ s. IsRadix s.radix) (is_negative n) negative spec (λ e. is) (λ e. is))
      (ground arith)
