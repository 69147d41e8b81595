-- ===== src/Keyboard/Steps.antt =====
-- The first switches of both notifications, for one variable at a time.
use mug_os.Base.{bit_xor, ℕ, ◌≡◌, arith, true, false, not, ◌==◌, if◌then◌else◌}
use mug_os.Keycodes.{key_numlock, key_capslock}
use mug_os.Keyboard.{
  Keyboard, shift_pressed, ctrl_pressed, alt_pressed, meta_pressed, release_key, press_key,
}

pub release_key-flags :
    (s : Keyboard) (k : ℕ)
    → (release_key s k).modifier_keys
      ≡ (if k == key_numlock then bit_xor s.modifier_keys 16 else s.modifier_keys)
unfolding release_key
release_key-flags s k = ground arith

pub release_key-numlock :
    (s : Keyboard) (k : ℕ)
    → (release_key s k).numlock_on ≡ (if k == key_numlock then not s.numlock_on else s.numlock_on)
unfolding release_key
release_key-numlock s k = ground arith

pub release_key-capslock : (s : Keyboard) (k : ℕ) → (release_key s k).capslock_on ≡ s.capslock_on
unfolding release_key
release_key-capslock s k = ground arith

pub release_key-ctrl :
    (s : Keyboard) (k : ℕ) → ctrl_pressed (release_key s k) ≡ true → ctrl_pressed s ≡ true
unfolding release_key
release_key-ctrl s k h = ground arith

pub release_key-shift :
    (s : Keyboard) (k : ℕ) → shift_pressed (release_key s k) ≡ true → shift_pressed s ≡ true
unfolding release_key
release_key-shift s k h = ground arith

pub release_key-alt :
    (s : Keyboard) (k : ℕ) → alt_pressed (release_key s k) ≡ true → alt_pressed s ≡ true
unfolding release_key
release_key-alt s k h = ground arith

pub release_key-meta :
    (s : Keyboard) (k : ℕ) → meta_pressed (release_key s k) ≡ true → meta_pressed s ≡ true
unfolding release_key
release_key-meta s k h = ground arith

pub press_key-flags :
    (s : Keyboard) (k : ℕ)
    → (press_key s k).modifier_keys
      ≡ (if k == key_capslock then bit_xor s.modifier_keys 32 else s.modifier_keys)
unfolding press_key
press_key-flags s k = ground arith

pub press_key-numlock : (s : Keyboard) (k : ℕ) → (press_key s k).numlock_on ≡ s.numlock_on
unfolding press_key
press_key-numlock s k = ground arith

pub press_key-capslock :
    (s : Keyboard) (k : ℕ)
    → (press_key s k).capslock_on ≡ (if k == key_capslock then not s.capslock_on else s.capslock_on)
unfolding press_key
press_key-capslock s k = ground arith

pub press_key-ctrl :
    (s : Keyboard) (k : ℕ) → ctrl_pressed (press_key s k) ≡ false → ctrl_pressed s ≡ false
unfolding press_key
press_key-ctrl s k h = ground arith

pub press_key-shift :
    (s : Keyboard) (k : ℕ) → shift_pressed (press_key s k) ≡ false → shift_pressed s ≡ false
unfolding press_key
press_key-shift s k h = ground arith

pub press_key-alt :
    (s : Keyboard) (k : ℕ) → alt_pressed (press_key s k) ≡ false → alt_pressed s ≡ false
unfolding press_key
press_key-alt s k h = ground arith

pub press_key-meta :
    (s : Keyboard) (k : ℕ) → meta_pressed (press_key s k) ≡ false → meta_pressed s ≡ false
unfolding press_key
press_key-meta s k h = ground arith
