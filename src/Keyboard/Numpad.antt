-- ===== src/Keyboard/Numpad.antt =====
-- The keys of the numpad: what is reported when they are pressed and released.
use mug_os.Base.{
  ℕ, ◌≡◌, ◌≢◌, ◌∙◌, refl, ap, arith, Bool, true, false, not, ◌||◌, List, [], ◌∷◌, ◌==◌,
  Option-cases, inl, inr, some, set, get_or-set, length, switch,
}
use mug_os.Keycodes.{key_numpad_5, key_numlock}
use mug_os.Keyboard.{
  Keyboard, Call, KeypressMode, key_pressed, key_released, shift_pressed, ctrl_pressed, release_key,
  clear_modifiers, set_modifiers, translate_released, translate_pressed, notify_released,
  notify_pressed, execute_callbacks, char_to_int, get_char_azerty, KeyEvent, release, notify,
  notify_all, report,
}
use mug_os.Keycodes.Numpad.{is_numpad_key, numpad_slot, get_numpad_key_no_numlock}
use mug_os.Keyboard.Slots.{
  numpad_slot_lem, was_function, press_key-numpad, release_key-numpad, spares, notify_all-slot,
}

-- What the end of a notification reports of a key.
abbrev pub calls_for : KeypressMode → Keyboard → ℕ → List Call
calls_for mode s k =
    execute_callbacks s.callbacks k (char_to_int (get_char_azerty s k)) mode s.modifier_keys

-- The keys of the numpad are functions where Shift or Ctrl is held or NumLock is off.
abbrev pub function_mode : Keyboard → Bool
function_mode s = shift_pressed s || ctrl_pressed s || not s.numlock_on

translate_pressed-function :
    (s : Keyboard) (k i : ℕ)
    → numpad_slot k ≡ some i
    → (k == key_numpad_5) ≡ false
    → function_mode s ≡ true
    → translate_pressed s k ≡ (
      some (get_numpad_key_no_numlock k),
      record s { numlock_key_was_function = set s.numlock_key_was_function i true },
    )
unfolding translate_pressed
translate_pressed-function s k i slot other mode =
    rw ((numpad_slot_lem k i slot).2, mode, slot, other) refl

translate_released-function :
    (s : Keyboard) (k i : ℕ)
    → numpad_slot k ≡ some i
    → (k == key_numpad_5) ≡ false
    → (was_function s i || not s.numlock_on) ≡ true
    → translate_released s k ≡ (
      some (get_numpad_key_no_numlock k),
      record s { numlock_key_was_function = set s.numlock_key_was_function i false },
    )
unfolding translate_released
translate_released-function s k i slot other mode =
    rw ((numpad_slot_lem k i slot).2, translate_released)
      (rw (slot, translate_released)
        (rw (other, translate_released) (rw (mode, translate_released) refl)))

numpad_slot_total : (k : ℕ) → is_numpad_key k ≡ true → (i : ℕ) × (numpad_slot k ≡ some i)
unfolding numpad_slot switch is_numpad_key
numpad_slot_total k h = elim (Option-cases (numpad_slot k)) [
  | inl without ↦ absurd (ground arith)
  | inr found ↦ found
]

translate_pressed-digit :
    (s : Keyboard) (k : ℕ) → function_mode s ≡ false → translate_pressed s k ≡ (some k, s)
unfolding translate_pressed
translate_pressed-digit s k mode = ground arith

notify_pressed-digit :
    (s : Keyboard) (k : ℕ)
    → is_numpad_key k ≡ true
    → function_mode s ≡ false
    → notify_pressed s k ≡ (calls_for key_pressed (set_modifiers s) k, set_modifiers s)
unfolding notify_pressed set_modifiers get_char_azerty
notify_pressed-digit s k numpad mode =
    ap (λ t. report key_pressed (translate_pressed (set_modifiers t) k))
      (press_key-numpad s k numpad)
    ∙ ap (report key_pressed) (translate_pressed-digit (set_modifiers s) k mode)

set_modifiers-numlock :
    (s : Keyboard) → s.numlock_on ≡ true → not (set_modifiers s).numlock_on ≡ false
unfolding set_modifiers
set_modifiers-numlock s h = ap not h

unmarked_or_off : (marked on : Bool) → on ≡ false → (marked || not on) ≡ true
unmarked_or_off marked on h = ground arith

numlock_released :
    (s : Keyboard) → (notify_all s (release key_numlock ∷ [])).1.numlock_on ≡ not s.numlock_on
unfolding notify_all notify notify_released release_key clear_modifiers translate_released
    is_numpad_key switch
numlock_released s = refl

notify_pressed-function :
    (s : Keyboard) (k i : ℕ)
    → numpad_slot k ≡ some i
    → (k == key_numpad_5) ≡ false
    → function_mode s ≡ true
    → notify_pressed s k ≡ (
      calls_for key_pressed (set_modifiers s) (get_numpad_key_no_numlock k),
      record (set_modifiers s) { numlock_key_was_function = set s.numlock_key_was_function i true },
    )
unfolding notify_pressed set_modifiers get_char_azerty
notify_pressed-function s k i slot other mode =
    ap (λ t. report key_pressed (translate_pressed (set_modifiers t) k))
      (press_key-numpad s k (numpad_slot_lem k i slot).2)
    ∙ ap (report key_pressed) (translate_pressed-function (set_modifiers s) k i slot other mode)

notify_released-function :
    (s : Keyboard) (k i : ℕ)
    → numpad_slot k ≡ some i
    → (k == key_numpad_5) ≡ false
    → (was_function s i || not s.numlock_on) ≡ true
    → notify_released s k ≡ (
      calls_for key_released (clear_modifiers s) (get_numpad_key_no_numlock k),
      record (clear_modifiers s) {
        numlock_key_was_function = set s.numlock_key_was_function i false;
      },
    )
unfolding notify_released clear_modifiers get_char_azerty
notify_released-function s k i slot other mode =
    ap (λ t. report key_released (translate_released (clear_modifiers t) k))
      (release_key-numpad s k (numpad_slot_lem k i slot).2)
    ∙ ap (report key_released) (translate_released-function (clear_modifiers s) k i slot other mode)

-- A key of the numpad other than 5 is pressed while the numpad is in function mode (Shift or Ctrl held,
-- or NumLock off) and then, after any events of other keys, released. Then its release calls each
-- callback with the key's function, as its press did, even if the mode has changed in between.
pub notify_released-press_function :
    (s : Keyboard) (k : ℕ) (es : List KeyEvent)
    → is_numpad_key k ≡ true
    → k ≢ key_numpad_5
    → length s.numlock_key_was_function ≡ 11
    → function_mode s ≡ true
    → spares k es ≡ true
    → let pressed = notify_pressed s k in
      let later = (notify_all pressed.1 es).1 in
      (pressed.0 ≡ calls_for key_pressed (set_modifiers s) (get_numpad_key_no_numlock k))
      × ((notify_released later k).0
          ≡ calls_for key_released (clear_modifiers later) (get_numpad_key_no_numlock k))
notify_released-press_function s k es numpad ne slots mode others =
    let (i, slot) = numpad_slot_total k numpad in
    let other : (k == key_numpad_5) ≡ false = ground arith in
    let pressing = notify_pressed-function s k i slot other mode in
    let was : was_function (notify_pressed s k).1 i ≡ true =
      ap (λ r. was_function r.1 i) pressing
      ∙ get_or-set s.numlock_key_was_function i i true false (rw slots (numpad_slot_lem k i slot).0)
      ∙ ground arith in
    let kept = notify_all-slot (notify_pressed s k).1 es k i slot others ∙ was in
    (
      ap (λ r. r.0) pressing,
      ap (λ r. r.0)
          (notify_released-function (notify_all (notify_pressed s k).1 es).1 k i slot other
            (ap (λ b. b || not (notify_all (notify_pressed s k).1 es).1.numlock_on) kept)),
    )

-- A key of the numpad other than 5 that was pressed as a digit, and so has no mark of a function, is
-- released as its function if NumLock is off by then: the callbacks see the release of a key that was
-- not pressed, and none of the digit.
pub notify_released-numlock_off :
    (s : Keyboard) (k : ℕ)
    → is_numpad_key k ≡ true
    → k ≢ key_numpad_5
    → function_mode s ≡ false
    → ((notify_pressed s k).0 ≡ calls_for key_pressed (set_modifiers s) k)
      × ((notify_released (notify_all (notify_pressed s k).1 (release key_numlock ∷ [])).1 k).0
          ≡ calls_for key_released
              (clear_modifiers (notify_all (notify_pressed s k).1 (release key_numlock ∷ [])).1)
              (get_numpad_key_no_numlock k))
notify_released-numlock_off s k numpad ne mode =
    let (i, slot) = numpad_slot_total k numpad in
    let other : (k == key_numpad_5) ≡ false = ground arith in
    let pressing = notify_pressed-digit s k numpad mode in
    let after = (notify_all (notify_pressed s k).1 (release key_numlock ∷ [])).1 in
    let off : after.numlock_on ≡ false =
      numlock_released (notify_pressed s k).1
      ∙ ap (λ r. not r.1.numlock_on) pressing
      ∙ set_modifiers-numlock s (ground arith) in
    (
      ap (λ r. r.0) pressing,
      ap (λ r. r.0)
          (notify_released-function after k i slot other
            (unmarked_or_off (was_function after i) after.numlock_on off)),
    )
