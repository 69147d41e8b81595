-- ===== src/Layout/Shift.antt =====
-- Kernel/Drivers/Input/Keyboard.c: the characters of the AZERTY layout with shift.
use mug_os.Base.{ℕ, [], ◌∷◌, switch}
use mug_os.Keycodes.{
  key_reserved, key_1, key_2, key_3, key_4, key_5, key_6, key_7, key_8, key_9, key_0, key_minus,
  key_equal, key_tab, key_q, key_w, key_e, key_r, key_t, key_y, key_u, key_i, key_o, key_p,
  key_lbracket, key_rbracket, key_enter, key_a, key_s, key_d, key_f, key_g, key_h, key_j, key_k,
  key_l, key_semicolon, key_quote, key_grave, key_backslash, key_z, key_x, key_c, key_v, key_b,
  key_n, key_m, key_comma, key_dot, key_slash, key_numpad_asterisk, key_space, key_numpad_7,
  key_numpad_8, key_numpad_9, key_numpad_minus, key_numpad_4, key_numpad_5, key_numpad_6,
  key_numpad_plus, key_numpad_1, key_numpad_2, key_numpad_3, key_numpad_0, key_numpad_dot,
  key_lessthan, key_numpad_enter, key_numpad_slash,
}

-- `getChar_AZERTY_Shift`.
unfoldable pub shift : ℕ → ℕ
shift k = switch k 0 (
    (key_reserved, 0)
    ∷ (key_1, 49)
    ∷ (key_2, 50)
    ∷ (key_3, 51)
    ∷ (key_4, 52)
    ∷ (key_5, 53)
    ∷ (key_6, 54)
    ∷ (key_7, 55)
    ∷ (key_8, 56)
    ∷ (key_9, 57)
    ∷ (key_0, 48)
    ∷ (key_minus, 248)
    ∷ (key_equal, 43)
    ∷ (key_tab, 0)
    ∷ (key_q, 65)
    ∷ (key_w, 90)
    ∷ (key_e, 69)
    ∷ (key_r, 82)
    ∷ (key_t, 84)
    ∷ (key_y, 89)
    ∷ (key_u, 85)
    ∷ (key_i, 73)
    ∷ (key_o, 79)
    ∷ (key_p, 80)
    ∷ (key_lbracket, 0)
    ∷ (key_rbracket, 156)
    ∷ (key_enter, 10)
    ∷ (key_a, 81)
    ∷ (key_s, 83)
    ∷ (key_d, 68)
    ∷ (key_f, 70)
    ∷ (key_g, 71)
    ∷ (key_h, 72)
    ∷ (key_j, 74)
    ∷ (key_k, 75)
    ∷ (key_l, 76)
    ∷ (key_semicolon, 77)
    ∷ (key_quote, 37)
    ∷ (key_grave, 126)
    ∷ (key_backslash, 230)
    ∷ (key_z, 87)
    ∷ (key_x, 88)
    ∷ (key_c, 67)
    ∷ (key_v, 86)
    ∷ (key_b, 66)
    ∷ (key_n, 78)
    ∷ (key_m, 63)
    ∷ (key_comma, 46)
    ∷ (key_dot, 47)
    ∷ (key_slash, 0)
    ∷ (key_numpad_asterisk, 42)
    ∷ (key_space, 32)
    ∷ (key_numpad_7, 55)
    ∷ (key_numpad_8, 56)
    ∷ (key_numpad_9, 57)
    ∷ (key_numpad_minus, 45)
    ∷ (key_numpad_4, 52)
    ∷ (key_numpad_5, 53)
    ∷ (key_numpad_6, 54)
    ∷ (key_numpad_plus, 43)
    ∷ (key_numpad_1, 49)
    ∷ (key_numpad_2, 50)
    ∷ (key_numpad_3, 51)
    ∷ (key_numpad_0, 48)
    ∷ (key_numpad_dot, 46)
    ∷ (key_lessthan, 62)
    ∷ (key_numpad_enter, 10)
    ∷ (key_numpad_slash, 47)
    ∷ [])
