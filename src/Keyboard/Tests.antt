-- ===== src/Keyboard/Tests.antt =====
-- Tests of the keyboard subsystem.
use mug_os.Base.{
  ◌≡◌, refl, arith, true, false, ◌&&◌, ◌||◌, not, List, [], ◌∷◌, ◌-◌, if◌then◌else◌, replicate,
  switch,
}
use mug_os.Keycodes.{key_lctrl, key_lshift, key_a, key_numpad_7}
use mug_os.Keyboard.{
  Keyboard, key_pressed, key_released, KeyEvent, press, release, init, notify_all, notify_pressed,
  notify_released, register_key_callback, unregister_key_callback, execute_callbacks,
  get_char_azerty, set_modifiers, clear_modifiers, press_key, release_key, translate_pressed,
  translate_released, notify, shift_pressed,
}
use mug_os.Keycodes.Numpad.{get_numpad_key_no_numlock, is_numpad_key}
use mug_os.Keyboard.Callbacks.{registered, unregister_key_callback_undoes}
use mug_os.Keyboard.Modifiers.{FlagsMatch, notify_all-init-FlagsMatch}
use mug_os.Keyboard.Numpad.{calls_for, notify_released-press_function}
use mug_os.Keyboard.Letters.{get_char_azerty-letter}
use mug_os.Layout.Plain.{no_modifier}
use mug_os.Layout.Shift.{shift}

-- The state before `Keyboard_init`: all variables are 0. The callback is at address 7.
abbrev zeroed : Keyboard
zeroed = record {
  capslock_on = false;
  numlock_on = false;
  numlock_key_was_function = replicate 11 false;
  modifier_keys = 0;
  left_shift_pressed = false;
  right_shift_pressed = false;
  left_ctrl_pressed = false;
  right_ctrl_pressed = false;
  left_alt_pressed = false;
  right_alt_pressed = false;
  left_meta_pressed = false;
  right_meta_pressed = false;
  callbacks = replicate 16 0;
}

abbrev typed : List KeyEvent
typed = press key_lctrl ∷ press key_lshift ∷ press key_a ∷ release key_lctrl ∷ []

-- Shift and NumLock are left.
typed_flags : (notify_all (init 7 zeroed) typed).1.modifier_keys ≡ 18
unfolding notify_all notify init notify_pressed notify_released press_key release_key set_modifiers
    clear_modifiers translate_pressed translate_released is_numpad_key switch register_key_callback
typed_flags = refl

-- Shift and A.
typed_character :
    (notify_all (init 7 zeroed) (press key_lshift ∷ press key_a ∷ [])).0
    ≡ record {
      callback = 7;
      keycode = key_lshift;
      character = 0;
      mode = key_pressed;
      modifiers = 18;
    }
      ∷ record { callback = 7; keycode = key_a; character = 81; mode = key_pressed; modifiers = 18 }
      ∷ []
unfolding notify_all notify init notify_pressed press_key set_modifiers translate_pressed
    is_numpad_key switch register_key_callback execute_callbacks get_char_azerty shift
typed_character = refl

notify_all-init-FlagsMatch_example : FlagsMatch (notify_all (init 7 zeroed) typed).1
notify_all-init-FlagsMatch_example = notify_all-init-FlagsMatch 7 zeroed typed refl refl refl

abbrev with_shift : Keyboard
with_shift = record zeroed { left_shift_pressed = true; numlock_on = true; callbacks = 7 ∷ [] }

-- Shift is released before the key.
abbrev between_events : List KeyEvent
between_events = release key_lshift ∷ []

notify_released-press_function_example :
    let pressed = notify_pressed with_shift key_numpad_7 in
    let later = (notify_all pressed.1 between_events).1 in
    (pressed.0
      ≡ calls_for key_pressed (set_modifiers with_shift) (get_numpad_key_no_numlock key_numpad_7))
    × ((notify_released later key_numpad_7).0
        ≡ calls_for key_released (clear_modifiers later) (get_numpad_key_no_numlock key_numpad_7))
unfolding is_numpad_key switch
notify_released-press_function_example =
    notify_released-press_function with_shift key_numpad_7 between_events refl
      (λ e. absurd (omega arith)) refl refl refl

unregister_key_callback_undoes_example :
    let (done, callbacks) = register_key_callback (5 ∷ 0 ∷ 0 ∷ []) 7 in
    (done ≡ registered (5 ∷ 0 ∷ 0 ∷ []) 0)
    × (registered callbacks 7 ≡ done)
    × (done ≡ false → callbacks ≡ 5 ∷ 0 ∷ 0 ∷ [])
    × (unregister_key_callback callbacks 7 ≡ 5 ∷ 0 ∷ 0 ∷ [])
unfolding registered
unregister_key_callback_undoes_example =
    unregister_key_callback_undoes (5 ∷ 0 ∷ 0 ∷ []) 7 (λ e. absurd (omega arith)) refl

get_char_azerty-letter_example : get_char_azerty with_shift key_a ≡ (
    if (shift_pressed with_shift && not with_shift.capslock_on)
      || (with_shift.capslock_on && not (shift_pressed with_shift))
    then no_modifier key_a - 32
    else no_modifier key_a)
unfolding no_modifier switch
get_char_azerty-letter_example = get_char_azerty-letter with_shift key_a refl refl
