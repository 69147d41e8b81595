-- ===== src/Keycodes/Numpad.antt =====
-- Kernel/Drivers/Input/Keyboard.c: the keys of the numpad.
use mug_os.Base.{ℕ, Bool, true, false, Option, none, some, [], ◌∷◌, switch}
use mug_os.Keycodes.Basic.{
  key_numpad_0, key_numpad_1, key_numpad_2, key_numpad_3, key_numpad_4, key_numpad_5, key_numpad_6,
  key_numpad_7, key_numpad_8, key_numpad_9, key_numpad_dot,
}
use mug_os.Keycodes.Extended.{
  key_delete, key_down, key_end, key_home, key_insert, key_left, key_pagedown, key_pageup,
  key_right, key_up,
}

-- `getNumpadKey_NoNumluck`; all of its keys fit a char.
unfoldable pub get_numpad_key_no_numlock : ℕ → ℕ
get_numpad_key_no_numlock k = switch k 0 (
    (key_numpad_7, key_home)
    ∷ (key_numpad_8, key_up)
    ∷ (key_numpad_9, key_pageup)
    ∷ (key_numpad_4, key_left)
    ∷ (key_numpad_5, 0)
    ∷ (key_numpad_6, key_right)
    ∷ (key_numpad_1, key_end)
    ∷ (key_numpad_2, key_down)
    ∷ (key_numpad_3, key_pagedown)
    ∷ (key_numpad_0, key_insert)
    ∷ (key_numpad_dot, key_delete)
    ∷ [])

-- `isNumpadKey`.
unfoldable pub is_numpad_key : ℕ → Bool
is_numpad_key k = switch k false (
    (key_numpad_7, true)
    ∷ (key_numpad_8, true)
    ∷ (key_numpad_9, true)
    ∷ (key_numpad_4, true)
    ∷ (key_numpad_5, true)
    ∷ (key_numpad_6, true)
    ∷ (key_numpad_1, true)
    ∷ (key_numpad_2, true)
    ∷ (key_numpad_3, true)
    ∷ (key_numpad_0, true)
    ∷ (key_numpad_dot, true)
    ∷ [])

-- The index in `m_numlockKeyWasFunction` that the case of a key uses, in both notifications.
unfoldable pub numpad_slot : ℕ → Option ℕ
numpad_slot k = switch k none (
    (key_numpad_7, some 0)
    ∷ (key_numpad_8, some 1)
    ∷ (key_numpad_9, some 2)
    ∷ (key_numpad_4, some 3)
    ∷ (key_numpad_5, some 4)
    ∷ (key_numpad_6, some 5)
    ∷ (key_numpad_1, some 6)
    ∷ (key_numpad_2, some 7)
    ∷ (key_numpad_3, some 8)
    ∷ (key_numpad_0, some 9)
    ∷ (key_numpad_dot, some 10)
    ∷ [])
