-- ===== src/Keyboard/Flags.antt =====
-- The flags of `m_modifierKeys` agree with the keys that are held and with the two locks.
use mug_os.Base.{
  ℕ, ◌-◌, ◌^◌, ◌<◌, ◌≡◌, refl, arith, Bool, true, false, not, ◌&&◌, ◌==◌, if◌then◌else◌, bit_xor,
  ltb, ==_iff,
}
use mug_os.Base.Bits.{
  test_bit, test_bit-bit_and, test_bit-bit_or, bit_and-lt, bit_or-lt, test_bit-lt-two, holds_below,
  holds_below_sound,
}
use mug_os.Keyboard.{clear_flag, set_flag}

abbrev pub digit_of : Bool → ℕ
digit_of b = if b then 1 else 0

-- The six masks, digit by digit.
mask_table :
    holds_below (λ j. holds_below (λ i. test_bit (255 - 2 ^ j) i == (if i == j then 0 else 1)) 8) 8
    ≡ true
unfolding holds_below test_bit
mask_table = refl

flag_table :
    holds_below (λ j. holds_below (λ i. test_bit (2 ^ j) i == (if i == j then 1 else 0)) 8) 8 ≡ true
unfolding holds_below test_bit
flag_table = refl

abbrev flips : ℕ → ℕ → ℕ → Bool
flips j m i = test_bit (bit_xor m (2 ^ j)) i == (if i == j then 1 - test_bit m i else test_bit m i)

xor_table : holds_below (λ j. holds_below (λ m. holds_below (flips j m) 8) 256) 6 ≡ true
unfolding holds_below test_bit
xor_table = refl

xor_byte_table : holds_below (λ j. holds_below (λ m. ltb (bit_xor m (2 ^ j)) 256) 256) 6 ≡ true
unfolding holds_below
xor_byte_table = refl

-- Each of the three updates, digit by digit.
pub clear_flag_lem :
    (j i m : ℕ) (pressed : Bool)
    → j < 8
    → i < 8
    → test_bit (clear_flag (2 ^ j) pressed m) i
      ≡ (if (i == j) && not pressed then 0 else test_bit m i)
clear_flag_lem j i m pressed hj hi =
    let row =
      holds_below_sound
        (λ j. holds_below (λ i. test_bit (255 - 2 ^ j) i == (if i == j then 0 else 1)) 8) 8 j hj
        mask_table in
    let mask =
      (==_iff _ _).0 (
        holds_below_sound (λ i. test_bit (255 - 2 ^ j) i == (if i == j then 0 else 1)) 8 i hi
          row) in
    ground (arith, mask, test_bit-bit_and m (255 - 2 ^ j) i, test_bit-lt-two m i)

pub set_flag_lem :
    (j i m : ℕ) (pressed : Bool)
    → j < 8
    → i < 8
    → test_bit (set_flag (2 ^ j) pressed m) i ≡ (if (i == j) && pressed then 1 else test_bit m i)
set_flag_lem j i m pressed hj hi =
    let row =
      holds_below_sound (λ j. holds_below (λ i. test_bit (2 ^ j) i == (if i == j then 1 else 0)) 8)
        8 j hj flag_table in
    let mask =
      (==_iff _ _).0
        (holds_below_sound (λ i. test_bit (2 ^ j) i == (if i == j then 1 else 0)) 8 i hi row) in
    ground (arith, mask, test_bit-bit_or m (2 ^ j) i, test_bit-lt-two m i)

pub bit_xor-flag :
    (j i m : ℕ)
    → j < 6
    → i < 8
    → m < 256
    → test_bit (bit_xor m (2 ^ j)) i ≡ (if i == j then 1 - test_bit m i else test_bit m i)
bit_xor-flag j i m hj hi hm =
    let column =
      holds_below_sound (λ j. holds_below (λ m. holds_below (flips j m) 8) 256) 6 j hj xor_table in
    let row = holds_below_sound (λ m. holds_below (flips j m) 8) 256 m hm column in
    (==_iff _ _).0 (holds_below_sound (flips j m) 8 i hi row)

pub bit_xor-byte : (j m : ℕ) → j < 6 → m < 256 → bit_xor m (2 ^ j) < 256
bit_xor-byte j m hj hm =
    let column =
      holds_below_sound (λ j. holds_below (λ m. ltb (bit_xor m (2 ^ j)) 256) 256) 6 j hj
        xor_byte_table in
    let here = holds_below_sound (λ m. ltb (bit_xor m (2 ^ j)) 256) 256 m hm column in ground arith

pub clear_flag-byte : (flag m : ℕ) (pressed : Bool) → m < 256 → clear_flag flag pressed m < 256
clear_flag-byte flag m true h = h
clear_flag-byte flag m false h = bit_and-lt 8 m (255 - flag) h

pub set_flag-byte :
    (flag m : ℕ) (pressed : Bool) → flag < 256 → m < 256 → set_flag flag pressed m < 256
set_flag-byte flag m true hf h = bit_or-lt 8 m flag h hf
set_flag-byte flag m false hf h = h
