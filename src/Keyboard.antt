-- ===== src/Keyboard.antt =====
-- Kernel/Drivers/Input/Keyboard.c and Keyboard.h: the keyboard subsystem, which turns keys pressed and
-- released into calls of the registered callbacks. The module's variables are a record. A callback is
-- its address, 0 for NULL; what it is called with is a value, so the calls of an event are a list.
-- Logging is left out.
pub mod Flags
mod Steps
mod Slots
pub mod Modifiers
pub mod Numpad
pub mod Callbacks
pub mod Letters
mod Tests
use mug_os.Base.{
  ℕ, zero, suc, ◌+◌, ◌-◌, Bool, true, false, not, ◌&&◌, ◌||◌, Option, none, some, List, [], ◌∷◌,
  ◌++◌, ltb, ◌==◌, if◌then◌else◌, switch, bit_and, bit_or, bit_xor, get_or, set, replicate,
}
use mug_os.Keycodes.{
  key_home, key_up, key_pageup, key_left, key_right, key_end, key_down, key_pagedown, key_insert,
  key_delete, key_numpad_7, key_numpad_8, key_numpad_9, key_numpad_4, key_numpad_5, key_numpad_6,
  key_numpad_1, key_numpad_2, key_numpad_3, key_numpad_0, key_numpad_dot, key_lctrl, key_rctrl,
  key_lshift, key_rshift, key_lalt, key_ralt, key_lmeta, key_rmeta, key_numlock, key_capslock,
}
use mug_os.Keycodes.Numpad.{get_numpad_key_no_numlock, is_numpad_key, numpad_slot}
use mug_os.Layout.Plain.{no_modifier}
use mug_os.Layout.CapsLock.{caps_lock}
use mug_os.Layout.Shift.{shift}
use mug_os.Layout.AltGr.{alt_gr}
use mug_os.Layout.ShiftAltGr.{shift_alt_gr}

pub record Keyboard : Type 0 where
  pub capslock_on : Bool
  pub numlock_on : Bool
  pub numlock_key_was_function : List Bool
  pub modifier_keys : ℕ
  pub left_shift_pressed : Bool
  pub right_shift_pressed : Bool
  pub left_ctrl_pressed : Bool
  pub right_ctrl_pressed : Bool
  pub left_alt_pressed : Bool
  pub right_alt_pressed : Bool
  pub left_meta_pressed : Bool
  pub right_meta_pressed : Bool
  pub callbacks : List ℕ

-- `KB_MODIFIER_*`.
abbrev pub modifier_ctrl : ℕ
modifier_ctrl = 1

abbrev pub modifier_shift : ℕ
modifier_shift = 2

abbrev pub modifier_alt : ℕ
modifier_alt = 4

abbrev pub modifier_meta : ℕ
modifier_meta = 8

abbrev pub modifier_numlock : ℕ
modifier_numlock = 16

abbrev pub modifier_capslock : ℕ
modifier_capslock = 32

abbrev pub max_callbacks : ℕ
max_callbacks = 16

-- `enum KeypressMode`.
pub data KeypressMode : Type 0 where
  key_pressed : KeypressMode
  key_repeat : KeypressMode
  key_released : KeypressMode

-- A call of a callback.
pub record Call : Type 0 where
  pub callback : ℕ
  pub keycode : ℕ
  pub character : ℕ
  pub mode : KeypressMode
  pub modifiers : ℕ

abbrev pub shift_pressed : Keyboard → Bool
shift_pressed s = s.left_shift_pressed || s.right_shift_pressed

abbrev pub ctrl_pressed : Keyboard → Bool
ctrl_pressed s = s.left_ctrl_pressed || s.right_ctrl_pressed

abbrev pub alt_pressed : Keyboard → Bool
alt_pressed s = s.left_alt_pressed || s.right_alt_pressed

abbrev pub meta_pressed : Keyboard → Bool
meta_pressed s = s.left_meta_pressed || s.right_meta_pressed

-- `getChar_AZERTY`.
unfoldable pub get_char_azerty : Keyboard → ℕ → ℕ
get_char_azerty s k =
    if shift_pressed s && not s.right_alt_pressed && not s.capslock_on
    then shift k
    else if s.right_alt_pressed && not s.left_shift_pressed && not s.right_shift_pressed
    then alt_gr k
    else if shift_pressed s && s.right_alt_pressed
    then shift_alt_gr k
    else if s.capslock_on && not s.left_shift_pressed && not s.right_shift_pressed
    then caps_lock k
    else no_modifier k

-- `(int) c` of a char, which is signed: an int of 32 bits in two's complement.
abbrev pub char_to_int : ℕ → ℕ
char_to_int c = if ltb c 128 then c else c + 0xffff_ff00

-- `executeCallbacks`.
unfoldable pub execute_callbacks : List ℕ → ℕ → ℕ → KeypressMode → ℕ → List Call
execute_callbacks [] k c mode modifiers = []
execute_callbacks (callback ∷ callbacks) k c mode modifiers =
    let rest = execute_callbacks callbacks k c mode modifiers in
    if callback == 0
    then rest
    else record {
      callback = callback;
      keycode = k;
      character = c;
      mode = mode;
      modifiers = modifiers;
    }
      ∷ rest

-- `findAvailableCallbackIndex` and the write of `Keyboard_registerKeyCallback`.
unfoldable pub register_key_callback : List ℕ → ℕ → Bool × List ℕ
register_key_callback [] callback = (false, [])
register_key_callback (c ∷ callbacks) callback = elim (c == 0) [
  | true ↦ (true, callback ∷ callbacks)
  | false ↦ let (done, rest) = register_key_callback callbacks callback in (done, c ∷ rest)
]

-- `Keyboard_unregisterKeyCallback`.
unfoldable pub unregister_key_callback : List ℕ → ℕ → List ℕ
unregister_key_callback [] callback = []
unregister_key_callback (c ∷ callbacks) callback =
    (if c == callback then 0 else c) ∷ unregister_key_callback callbacks callback

-- `Keyboard_init`, with the address of keyCallback_printKey.
unfoldable pub init : ℕ → Keyboard → Keyboard
init print_key s = record s {
  left_shift_pressed = false;
  right_shift_pressed = false;
  numlock_on = true;
  capslock_on = false;
  modifier_keys = modifier_numlock;
  numlock_key_was_function = replicate 11 false;
  callbacks = (register_key_callback (replicate max_callbacks 0) print_key).1;
}

-- The first switch of `Keyboard_notifyReleased`.
unfoldable pub release_key : Keyboard → ℕ → Keyboard
release_key s k =
    if k == key_lctrl
    then record s { right_ctrl_pressed = false }
    else if k == key_lshift
    then record s { left_shift_pressed = false }
    else if k == key_rshift
    then record s { right_shift_pressed = false }
    else if k == key_lalt
    then record s { left_alt_pressed = false }
    else if k == key_numlock
    then record s {
      numlock_on = not s.numlock_on;
      modifier_keys = bit_xor s.modifier_keys modifier_numlock;
    }
    else if k == key_rctrl
    then record s { right_ctrl_pressed = false }
    else if k == key_ralt
    then record s { right_alt_pressed = false }
    else if k == key_lmeta
    then record s { left_meta_pressed = false }
    else if k == key_rmeta
    then record s { right_meta_pressed = false }
    else s

-- `m_modifierKeys &= ~flag`, on 8 bits, where no key of the flag is pressed.
abbrev pub clear_flag : ℕ → Bool → ℕ → ℕ
clear_flag flag pressed m = if not pressed then bit_and m (255 - flag) else m

-- The clearing of the flags.
unfoldable pub clear_modifiers : Keyboard → Keyboard
clear_modifiers s = record s {
  modifier_keys = clear_flag modifier_meta (meta_pressed s) (
      clear_flag modifier_alt (alt_pressed s) (
        clear_flag modifier_ctrl (ctrl_pressed s)
          (clear_flag modifier_shift (shift_pressed s) s.modifier_keys)));
}

-- The second switch: the key to report, `none` where the function returns.
unfoldable pub translate_released : Keyboard → ℕ → Option ℕ × Keyboard
translate_released s k = elim (is_numpad_key k) [
  | false ↦ (some k, s)
  | true ↦ elim (numpad_slot k) [
    | none ↦ (some k, s)
    | some i ↦
        let was_function = get_or s.numlock_key_was_function i false in
        let s' = record s { numlock_key_was_function = set s.numlock_key_was_function i false } in
        if k == key_numpad_5
        then (if was_function then (none, s') else (some k, s))
        else if was_function || not s.numlock_on
        then (some (get_numpad_key_no_numlock k), s')
        else (some k, s)
  ]
]

-- The end of both notifications.
abbrev pub report : KeypressMode → Option ℕ × Keyboard → List Call × Keyboard
report mode (none, s) = ([], s)
report mode (some k, s) =
    (execute_callbacks s.callbacks k (char_to_int (get_char_azerty s k)) mode s.modifier_keys, s)

-- `Keyboard_notifyReleased`: the calls it makes, and the state it leaves.
unfoldable pub notify_released : Keyboard → ℕ → List Call × Keyboard
notify_released s k = report key_released (translate_released (clear_modifiers (release_key s k)) k)

-- The first switch of `Keyboard_notifyPressed`.
unfoldable pub press_key : Keyboard → ℕ → Keyboard
press_key s k =
    if k == key_lctrl
    then record s { right_ctrl_pressed = true }
    else if k == key_lshift
    then record s { left_shift_pressed = true }
    else if k == key_rshift
    then record s { right_shift_pressed = true }
    else if k == key_lalt
    then record s { left_alt_pressed = true }
    else if k == key_capslock
    then record s {
      capslock_on = not s.capslock_on;
      modifier_keys = bit_xor s.modifier_keys modifier_capslock;
    }
    else if k == key_rctrl
    then record s { right_ctrl_pressed = true }
    else if k == key_ralt
    then record s { right_alt_pressed = true }
    else if k == key_lmeta
    then record s { left_meta_pressed = true }
    else if k == key_rmeta
    then record s { right_meta_pressed = true }
    else s

-- `m_modifierKeys |= flag`, where a key of the flag is pressed.
abbrev pub set_flag : ℕ → Bool → ℕ → ℕ
set_flag flag pressed m = if pressed then bit_or m flag else m

unfoldable pub set_modifiers : Keyboard → Keyboard
set_modifiers s = record s {
  modifier_keys = set_flag modifier_meta (meta_pressed s) (
      set_flag modifier_alt (alt_pressed s) (
        set_flag modifier_ctrl (ctrl_pressed s)
          (set_flag modifier_shift (shift_pressed s) s.modifier_keys)));
}

-- The second switch.
unfoldable pub translate_pressed : Keyboard → ℕ → Option ℕ × Keyboard
translate_pressed s k =
    if is_numpad_key k && (shift_pressed s || ctrl_pressed s || not s.numlock_on)
    then elim (numpad_slot k) [
      | none ↦ (some (get_numpad_key_no_numlock k), s)
      | some i ↦
          let s' = record s { numlock_key_was_function = set s.numlock_key_was_function i true } in
          if k == key_numpad_5 then (none, s') else (some (get_numpad_key_no_numlock k), s')
    ]
    else (some k, s)

-- `Keyboard_notifyPressed`.
unfoldable pub notify_pressed : Keyboard → ℕ → List Call × Keyboard
notify_pressed s k = report key_pressed (translate_pressed (set_modifiers (press_key s k)) k)

-- `Keyboard_notifySysRq`: its static variable, and the state.
unfoldable pub notify_sys_rq : ℕ → Bool × Keyboard → Bool × Keyboard
notify_sys_rq print_key (callback_on, s) = (
  not callback_on,
  record s {
    callbacks =
        if callback_on
        then unregister_key_callback s.callbacks print_key
        else (register_key_callback s.callbacks print_key).1;
  },
)

-- What the drivers report.
pub data KeyEvent : Type 0 where
  press : ℕ → KeyEvent
  release : ℕ → KeyEvent

unfoldable pub notify : Keyboard → KeyEvent → List Call × Keyboard
notify s (press k) = notify_pressed s k
notify s (release k) = notify_released s k

-- The calls of a sequence of events, in order, and the state after it.
unfoldable pub notify_all : Keyboard → List KeyEvent → List Call × Keyboard
notify_all s [] = ([], s)
notify_all s (e ∷ es) =
    let (calls, s') = notify s e in let (more, s'') = notify_all s' es in (calls ++ more, s'')
