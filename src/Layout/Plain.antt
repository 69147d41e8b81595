-- ===== src/Layout/Plain.antt =====
-- Kernel/Drivers/Input/Keyboard.c: the characters of the AZERTY layout with no modifier, in code page 437.
use mug_os.Base.{ℕ, [], ◌∷◌, switch}
use mug_os.Keycodes.{
  key_reserved, key_1, key_2, key_3, key_4, key_5, key_6, key_7, key_8, key_9, key_0, key_minus,
  key_equal, key_tab, key_q, key_w, key_e, key_r, key_t, key_y, key_u, key_i, key_o, key_p,
  key_lbracket, key_rbracket, key_enter, key_a, key_s, key_d, key_f, key_g, key_h, key_j, key_k,
  key_l, key_semicolon, key_quote, key_grave, key_backslash, key_z, key_x, key_c, key_v, key_b,
  key_n, key_m, key_comma, key_dot, key_slash, key_numpad_asterisk, key_space, key_numpad_7,
  key_numpad_8, key_numpad_9, key_numpad_minus, key_numpad_4, key_numpad_5, key_numpad_6,
  key_numpad_plus, key_numpad_1, key_numpad_2, key_numpad_3, key_numpad_0, key_numpad_dot,
  key_lessthan, key_numpad_enter, key_numpad_slash,
}

-- `getChar_AZERTY_NoModifier`.
unfoldable pub no_modifier : ℕ → ℕ
no_modifier k = switch k 0 (
    (key_reserved, 0)
    ∷ (key_1, 38)
    ∷ (key_2, 130)
    ∷ (key_3, 34)
    ∷ (key_4, 39)
    ∷ (key_5, 40)
    ∷ (key_6, 45)
    ∷ (key_7, 138)
    ∷ (key_8, 95)
    ∷ (key_9, 135)
    ∷ (key_0, 133)
    ∷ (key_minus, 41)
    ∷ (key_equal, 61)
    ∷ (key_tab, 9)
    ∷ (key_q, 97)
    ∷ (key_w, 122)
    ∷ (key_e, 101)
    ∷ (key_r, 114)
    ∷ (key_t, 116)
    ∷ (key_y, 121)
    ∷ (key_u, 117)
    ∷ (key_i, 105)
    ∷ (key_o, 111)
    ∷ (key_p, 112)
    ∷ (key_lbracket, 94)
    ∷ (key_rbracket, 36)
    ∷ (key_enter, 10)
    ∷ (key_a, 113)
    ∷ (key_s, 115)
    ∷ (key_d, 100)
    ∷ (key_f, 102)
    ∷ (key_g, 103)
    ∷ (key_h, 104)
    ∷ (key_j, 106)
    ∷ (key_k, 107)
    ∷ (key_l, 108)
    ∷ (key_semicolon, 109)
    ∷ (key_quote, 163)
    ∷ (key_grave, 253)
    ∷ (key_backslash, 42)
    ∷ (key_z, 119)
    ∷ (key_x, 120)
    ∷ (key_c, 99)
    ∷ (key_v, 118)
    ∷ (key_b, 98)
    ∷ (key_n, 110)
    ∷ (key_m, 44)
    ∷ (key_comma, 59)
    ∷ (key_dot, 58)
    ∷ (key_slash, 33)
    ∷ (key_numpad_asterisk, 42)
    ∷ (key_space, 32)
    ∷ (key_numpad_7, 55)
    ∷ (key_numpad_8, 56)
    ∷ (key_numpad_9, 57)
    ∷ (key_numpad_minus, 45)
    ∷ (key_numpad_4, 52)
    ∷ (key_numpad_5, 53)
    ∷ (key_numpad_6, 54)
    ∷ (key_numpad_plus, 43)
    ∷ (key_numpad_1, 49)
    ∷ (key_numpad_2, 50)
    ∷ (key_numpad_3, 51)
    ∷ (key_numpad_0, 48)
    ∷ (key_numpad_dot, 46)
    ∷ (key_lessthan, 60)
    ∷ (key_numpad_enter, 10)
    ∷ (key_numpad_slash, 47)
    ∷ [])
