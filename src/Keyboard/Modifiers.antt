-- ===== src/Keyboard/Modifiers.antt =====
-- The flags of `m_modifierKeys` agree with the keys that are held and with the two locks.
use mug_os.Base.{
  ℕ, ltb, ◌<◌, ◌≤◌, ◌≡◌, ◌∙◌, refl, ap, sym, arith, Bool, true, false, not, ◌&&◌, ◌||◌, List, [],
  ◌∷◌, ◌==◌, if◌then◌else◌, Bool-cases, inl, inr, Option-cases, get_or, zero, suc, ◌⊎◌, switch,
}
use mug_os.Base.Bits.{test_bit, test_bit-lt-two}
use mug_os.Keycodes.{key_numpad_5, key_lctrl, key_rctrl}
use mug_os.Keyboard.{
  Keyboard, clear_flag, set_flag, shift_pressed, ctrl_pressed, alt_pressed, meta_pressed,
  release_key, clear_modifiers, press_key, set_modifiers, translate_released, translate_pressed,
  notify_released, notify_pressed, KeyEvent, notify, notify_all, init, press, release, key_pressed,
  key_released,
}
use mug_os.Keycodes.Numpad.{is_numpad_key, numpad_slot}
use mug_os.Keyboard.Flags.{
  digit_of, clear_flag_lem, set_flag_lem, bit_xor-flag, bit_xor-byte, clear_flag-byte,
  set_flag-byte,
}
use mug_os.Keyboard.Slots.{report-state}
use mug_os.Keyboard.Steps.{
  release_key-flags, release_key-numlock, release_key-capslock, release_key-ctrl, release_key-shift,
  release_key-alt, release_key-meta, press_key-flags, press_key-numlock, press_key-capslock,
  press_key-ctrl, press_key-shift, press_key-alt, press_key-meta,
}

-- What a flag says: the modifier keys by their flags' indices 0 to 3, and the locks by 4 and 5.
abbrev pub held : Keyboard → ℕ → Bool
held s i =
    if i == 0
    then ctrl_pressed s
    else if i == 1
    then shift_pressed s
    else if i == 2
    then alt_pressed s
    else if i == 3
    then meta_pressed s
    else if i == 4
    then s.numlock_on
    else s.capslock_on

-- Each flag is set exactly if what it says holds.
pub record FlagsMatch (s : Keyboard) : Type 0 where
  pub byte : s.modifier_keys < 256
  pub flags : (i : ℕ) → i < 6 → test_bit s.modifier_keys i ≡ digit_of (held s i)

-- The same, with set flags allowed for keys that are not held, or clear ones for keys that are.
record AtLeast (s : Keyboard) : Type 0 where
  byte : s.modifier_keys < 256
  locks : (i : ℕ) → 4 ≤ i → i < 6 → test_bit s.modifier_keys i ≡ digit_of (held s i)
  lower : (i : ℕ) → i < 4 → held s i ≡ true → test_bit s.modifier_keys i ≡ 1

record AtMost (s : Keyboard) : Type 0 where
  byte : s.modifier_keys < 256
  locks : (i : ℕ) → 4 ≤ i → i < 6 → test_bit s.modifier_keys i ≡ digit_of (held s i)
  upper : (i : ℕ) → i < 4 → held s i ≡ false → test_bit s.modifier_keys i ≡ 0

clear_modifiers-bit :
    (s : Keyboard) (i : ℕ)
    → i < 6
    → test_bit (clear_modifiers s).modifier_keys i
      ≡ (if ltb i 4 && not (held s i) then 0 else test_bit s.modifier_keys i)
unfolding clear_modifiers
clear_modifiers-bit s i h = ground (
  arith,
  clear_flag_lem 3 i
      (clear_flag 4 (alt_pressed s)
        (clear_flag 1 (ctrl_pressed s) (clear_flag 2 (shift_pressed s) s.modifier_keys)))
      (meta_pressed s),
  clear_flag_lem 2 i
      (clear_flag 1 (ctrl_pressed s) (clear_flag 2 (shift_pressed s) s.modifier_keys))
      (alt_pressed s),
  clear_flag_lem 0 i (clear_flag 2 (shift_pressed s) s.modifier_keys) (ctrl_pressed s),
  clear_flag_lem 1 i s.modifier_keys (shift_pressed s),
)

clear_modifiers-held : (s : Keyboard) (i : ℕ) → held (clear_modifiers s) i ≡ held s i
unfolding clear_modifiers
clear_modifiers-held s i = refl

clear_modifiers-byte :
    (s : Keyboard) → s.modifier_keys < 256 → (clear_modifiers s).modifier_keys < 256
unfolding clear_modifiers
clear_modifiers-byte s h = clear_flag-byte 8 _ (meta_pressed s) (
    clear_flag-byte 4 _ (alt_pressed s)
      (clear_flag-byte 1 _ (ctrl_pressed s) (clear_flag-byte 2 _ (shift_pressed s) h)))

clear_modifiers-FlagsMatch : (s : Keyboard) → AtLeast s → FlagsMatch (clear_modifiers s)
clear_modifiers-FlagsMatch s h = record {
  byte = clear_modifiers-byte s h.byte;
  flags = λ i hi.
      clear_modifiers-bit s i hi
      ∙ ground (arith, h.locks i, h.lower i, test_bit-lt-two s.modifier_keys i)
      ∙ sym (ap digit_of (clear_modifiers-held s i));
}

set_modifiers-bit :
    (s : Keyboard) (i : ℕ)
    → i < 6
    → test_bit (set_modifiers s).modifier_keys i
      ≡ (if ltb i 4 && held s i then 1 else test_bit s.modifier_keys i)
unfolding set_modifiers
set_modifiers-bit s i h = ground (
  arith,
  set_flag_lem 3 i
      (set_flag 4 (alt_pressed s)
        (set_flag 1 (ctrl_pressed s) (set_flag 2 (shift_pressed s) s.modifier_keys)))
      (meta_pressed s),
  set_flag_lem 2 i (set_flag 1 (ctrl_pressed s) (set_flag 2 (shift_pressed s) s.modifier_keys))
      (alt_pressed s),
  set_flag_lem 0 i (set_flag 2 (shift_pressed s) s.modifier_keys) (ctrl_pressed s),
  set_flag_lem 1 i s.modifier_keys (shift_pressed s),
)

set_modifiers-held : (s : Keyboard) (i : ℕ) → held (set_modifiers s) i ≡ held s i
unfolding set_modifiers
set_modifiers-held s i = refl

set_modifiers-byte : (s : Keyboard) → s.modifier_keys < 256 → (set_modifiers s).modifier_keys < 256
unfolding set_modifiers
set_modifiers-byte s h = set_flag-byte 8 _ (meta_pressed s) (omega arith) (
    set_flag-byte 4 _ (alt_pressed s) (omega arith) (
      set_flag-byte 1 _ (ctrl_pressed s) (omega arith)
        (set_flag-byte 2 _ (shift_pressed s) (omega arith) h)))

set_modifiers-FlagsMatch : (s : Keyboard) → AtMost s → FlagsMatch (set_modifiers s)
set_modifiers-FlagsMatch s h = record {
  byte = set_modifiers-byte s h.byte;
  flags = λ i hi.
      set_modifiers-bit s i hi
      ∙ ground (arith, h.locks i, h.upper i, test_bit-lt-two s.modifier_keys i)
      ∙ sym (ap digit_of (set_modifiers-held s i));
}

release_key-AtLeast : (s : Keyboard) (k : ℕ) → FlagsMatch s → AtLeast (release_key s k)
release_key-AtLeast s k h = record {
  byte = rw (release_key-flags s k) (ground (arith, h.byte, bit_xor-byte 4 s.modifier_keys));
  locks = λ i lo hi. ground (
    arith,
    release_key-flags s k,
    release_key-numlock s k,
    release_key-capslock s k,
    h.byte,
    h.flags i,
    bit_xor-flag 4 i s.modifier_keys,
  );
  lower = λ i hi. ground (
    arith,
    release_key-flags s k,
    release_key-ctrl s k,
    release_key-shift s k,
    release_key-alt s k,
    release_key-meta s k,
    h.byte,
    h.flags i,
    bit_xor-flag 4 i s.modifier_keys,
  );
}

press_key-AtMost : (s : Keyboard) (k : ℕ) → FlagsMatch s → AtMost (press_key s k)
press_key-AtMost s k h = record {
  byte = rw (press_key-flags s k) (ground (arith, h.byte, bit_xor-byte 5 s.modifier_keys));
  locks = λ i lo hi. ground (
    arith,
    press_key-flags s k,
    press_key-numlock s k,
    press_key-capslock s k,
    h.byte,
    h.flags i,
    bit_xor-flag 5 i s.modifier_keys,
  );
  upper = λ i hi. ground (
    arith,
    press_key-flags s k,
    press_key-ctrl s k,
    press_key-shift s k,
    press_key-alt s k,
    press_key-meta s k,
    h.byte,
    h.flags i,
    bit_xor-flag 5 i s.modifier_keys,
  );
}

-- The rest of both notifications leaves the flags alone.
FlagsMatch-slot :
    (s : Keyboard) (w : List Bool)
    → FlagsMatch s
    → FlagsMatch (record s { numlock_key_was_function = w })
FlagsMatch-slot s w h = record { byte = h.byte; flags = h.flags }

translate_released-FlagsMatch :
    (s : Keyboard) (k : ℕ) → FlagsMatch s → FlagsMatch (translate_released s k).1
unfolding translate_released
translate_released-FlagsMatch s k h = elim (Bool-cases (is_numpad_key k)) [
  | inl numpad ↦
      rw (numpad, translate_released)
        (elim (Option-cases (numpad_slot k)) [
          | inl without ↦ rw (without, translate_released) h
          | inr (i, slot) ↦
              rw (slot, translate_released)
                (elim (Bool-cases (k == key_numpad_5)) [
                  | inl five ↦
                      rw (five, translate_released)
                        (elim (Bool-cases (get_or s.numlock_key_was_function i false)) [
                          | inl was ↦ rw (was, translate_released) (FlagsMatch-slot s _ h)
                          | inr other ↦ rw (other, translate_released) h
                        ])
                  | inr other ↦
                      rw (other, translate_released)
                        (elim (Bool-cases
                          (get_or s.numlock_key_was_function i false || not s.numlock_on)) [
                            | inl function ↦
                                rw (function, translate_released) (FlagsMatch-slot s _ h)
                            | inr digit ↦ rw (digit, translate_released) h
                          ])
                ])
        ])
  | inr plain ↦ rw (plain, translate_released) h
]

translate_pressed-FlagsMatch :
    (s : Keyboard) (k : ℕ) → FlagsMatch s → FlagsMatch (translate_pressed s k).1
unfolding translate_pressed
translate_pressed-FlagsMatch s k h =
    elim (Bool-cases (is_numpad_key k && (shift_pressed s || ctrl_pressed s || not s.numlock_on))) [
      | inl function ↦ rw function (elim (Option-cases (numpad_slot k)) [
        | inl without ↦ rw without h
        | inr (i, slot) ↦ rw slot (elim (Bool-cases (k == key_numpad_5)) [
          | inl five ↦ rw five (FlagsMatch-slot s _ h)
          | inr other ↦ rw other (FlagsMatch-slot s _ h)
        ])
      ])
      | inr digit ↦ rw digit h
    ]

pub notify-FlagsMatch : (s : Keyboard) (e : KeyEvent) → FlagsMatch s → FlagsMatch (notify s e).1
unfolding notify notify_pressed notify_released
notify-FlagsMatch s (press k) h =
    rw (report-state key_pressed (translate_pressed (set_modifiers (press_key s k)) k))
      (translate_pressed-FlagsMatch _ k (set_modifiers-FlagsMatch _ (press_key-AtMost s k h)))
notify-FlagsMatch s (release k) h =
    rw (report-state key_released (translate_released (clear_modifiers (release_key s k)) k))
      (translate_released-FlagsMatch _ k (clear_modifiers-FlagsMatch _ (release_key-AtLeast s k h)))

notify_all-FlagsMatch :
    (s : Keyboard) (es : List KeyEvent) → FlagsMatch s → FlagsMatch (notify_all s es).1
unfolding notify_all
notify_all-FlagsMatch s [] h = h
notify_all-FlagsMatch s (e ∷ es) h =
    notify_all-FlagsMatch (notify s e).1 es (notify-FlagsMatch s e h)

pub init-FlagsMatch :
    (print_key : ℕ) (s : Keyboard)
    → ctrl_pressed s ≡ false
    → alt_pressed s ≡ false
    → meta_pressed s ≡ false
    → FlagsMatch (init print_key s)
unfolding init test_bit
init-FlagsMatch p s no_ctrl no_alt no_meta = record {
  byte = omega arith;
  flags = λ i hi. by_index i hi;
}
  where
    by_index : (i : ℕ) → i < 6 → test_bit 16 i ≡ digit_of (held (init p s) i)
    by_index zero h = rw no_ctrl refl
    by_index (suc zero) h = refl
    by_index (suc (suc zero)) h = rw no_alt refl
    by_index (suc (suc (suc zero))) h = rw no_meta refl
    by_index (suc (suc (suc (suc zero)))) h = refl
    by_index (suc (suc (suc (suc (suc zero))))) h = refl
    by_index (suc (suc (suc (suc (suc (suc i)))))) h = absurd (omega arith)

-- After `Keyboard_init`, with no Ctrl, Alt or Meta key held before it, and any sequence of keys pressed
-- and released, each flag of `m_modifierKeys` is set exactly if the state has a key of it pressed
-- (Ctrl, Shift, Alt, Meta), or has the lock on (NumLock, CapsLock).
pub notify_all-init-FlagsMatch :
    (print_key : ℕ) (s : Keyboard) (es : List KeyEvent)
    → ctrl_pressed s ≡ false
    → alt_pressed s ≡ false
    → meta_pressed s ≡ false
    → FlagsMatch (notify_all (init print_key s) es).1
notify_all-init-FlagsMatch p s es no_ctrl no_alt no_meta =
    notify_all-FlagsMatch (init p s) es (init-FlagsMatch p s no_ctrl no_alt no_meta)

-- With both Ctrl keys pressed, the release of either one alone clears the Ctrl flag, though the other
-- is still held: pressing the left key sets, and releasing it clears, the variable of the right one.
pub release_one_ctrl :
    (s : Keyboard) (k : ℕ)
    → FlagsMatch s
    → s.left_ctrl_pressed ≡ false
    → (k ≡ key_lctrl) ⊎ (k ≡ key_rctrl)
    → test_bit (notify_all s (press key_lctrl ∷ press key_rctrl ∷ release k ∷ [])).1.modifier_keys 0
      ≡ 0
unfolding notify_all notify notify_pressed notify_released press_key release_key set_modifiers
    clear_modifiers translate_pressed translate_released is_numpad_key switch
release_one_ctrl s k h no_left which = elim which [
  | inl e ↦ rw e (cleared key_lctrl refl)
  | inr e ↦ rw e (cleared key_rctrl refl)
]
  where
    pressed : Keyboard
    pressed = (notify (notify s (press key_lctrl)).1 (press key_rctrl)).1

    valid : FlagsMatch pressed
    valid = notify-FlagsMatch _ (press key_rctrl) (notify-FlagsMatch s (press key_lctrl) h)

    cleared :
        (k : ℕ)
        → held (notify_released pressed k).1 0 ≡ (s.left_ctrl_pressed || false)
        → test_bit (notify_released pressed k).1.modifier_keys 0 ≡ 0
    cleared k none_held =
        (notify-FlagsMatch pressed (release k) valid).flags 0 (omega arith)
        ∙ ap digit_of (none_held ∙ ap (λ b. b || false) no_left)
