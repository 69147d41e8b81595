-- ===== src/Printf/Spec.antt =====
-- Stdlib/printf.c: the state of a specifier, and 64-bit integers in two's complement.
use mug_os.Base.{ℕ, ◌+◌, ◌-◌, ◌%◌, ◌^◌, Bool, true, false, ltb, leb, if◌then◌else◌}

-- `enum PRINTF_LENGTH`.
pub data Length : Type 0 where
  default_length short_short short long long_long : Length

-- `struct specifierState`. A sign 0 means none. The precision is signed.
pub record SpecifierState : Type 0 where
  pub put_prefix : Bool
  pub pad_right : Bool
  pub pad_with_zeros : Bool
  pub sign : ℕ
  pub width : ℕ
  pub precision : ℕ
  pub size : Length
  pub radix : ℕ
  pub number_signed : Bool
  pub uppercase : Bool

-- `resetSpecifierState`.
abbrev pub fresh : SpecifierState
fresh = record {
  put_prefix = false;
  pad_right = false;
  pad_with_zeros = false;
  sign = 0;
  width = 0;
  precision = 2 ^ 64 - 1;
  size = default_length;
  radix = 10;
  number_signed = false;
  uppercase = false;
}

abbrev pub is_negative : ℕ → Bool
is_negative word = leb (2 ^ 63) word

-- `a < b` of two signed words.
abbrev pub signed_lt : ℕ → ℕ → Bool
signed_lt a b =
    if is_negative a
    then (if is_negative b then ltb a b else true)
    else (if is_negative b then false else ltb a b)

-- An int of 32 bits as a word of 64.
abbrev pub sign_extend : ℕ → ℕ
sign_extend n = if ltb (n % 2 ^ 32) (2 ^ 31) then n % 2 ^ 32 else n % 2 ^ 32 + (2 ^ 64 - 2 ^ 32)

-- How often a loop runs that counts an int down to 0, or up to it: the word is made an int first.
abbrev pub as_count : ℕ → ℕ
as_count word = if ltb (word % 2 ^ 32) (2 ^ 31) then word % 2 ^ 32 else 0
