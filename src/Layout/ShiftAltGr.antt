-- ===== src/Layout/ShiftAltGr.antt =====
-- Kernel/Drivers/Input/Keyboard.c: the characters of the AZERTY layout with shift and AltGr.
use mug_os.Base.{ℕ, [], ◌∷◌, switch}
use mug_os.Keycodes.{
  key_reserved, key_1, key_2, key_3, key_4, key_5, key_6, key_7, key_8, key_9, key_0, key_minus,
  key_equal, key_tab, key_q, key_w, key_e, key_r, key_t, key_y, key_u, key_i, key_o, key_p,
  key_lbracket, key_rbracket, key_enter, key_a, key_s, key_d, key_f, key_g, key_h, key_j, key_k,
  key_l, key_semicolon, key_quote, key_grave, key_backslash, key_z, key_x, key_c, key_v, key_b,
  key_n, key_m, key_comma, key_dot, key_slash, key_numpad_asterisk, key_space, key_numpad_7,
  key_numpad_8, key_numpad_9, key_numpad_minus, key_numpad_4, key_numpad_5, key_numpad_6,
  key_numpad_plus, key_numpad_1, key_numpad_2, key_numpad_3, key_numpad_0, key_numpad_dot,
  key_lessthan, key_numpad_enter, key_numpad_slash,
}

-- `getChar_AZERTY_ShiftAltGr`.
unfoldable pub shift_alt_gr : ℕ → ℕ
shift_alt_gr k = switch k 0 (
    (key_reserved, 0)
    ∷ (key_1, 173)
    ∷ (key_2, 0)
    ∷ (key_3, 156)
    ∷ (key_4, 36)
    ∷ (key_5, 0)
    ∷ (key_6, 0)
    ∷ (key_7, 0)
    ∷ (key_8, 0)
    ∷ (key_9, 241)
    ∷ (key_0, 248)
    ∷ (key_minus, 168)
    ∷ (key_equal, 0)
    ∷ (key_tab, 9)
    ∷ (key_q, 146)
    ∷ (key_w, 60)
    ∷ (key_e, 155)
    ∷ (key_r, 0)
    ∷ (key_t, 0)
    ∷ (key_y, 157)
    ∷ (key_u, 0)
    ∷ (key_i, 0)
    ∷ (key_o, 0)
    ∷ (key_p, 0)
    ∷ (key_lbracket, 248)
    ∷ (key_rbracket, 0)
    ∷ (key_enter, 10)
    ∷ (key_a, 234)
    ∷ (key_s, 0)
    ∷ (key_d, 0)
    ∷ (key_f, 0)
    ∷ (key_g, 0)
    ∷ (key_h, 0)
    ∷ (key_j, 0)
    ∷ (key_k, 38)
    ∷ (key_l, 0)
    ∷ (key_semicolon, 248)
    ∷ (key_quote, 0)
    ∷ (key_grave, 170)
    ∷ (key_backslash, 0)
    ∷ (key_z, 0)
    ∷ (key_x, 62)
    ∷ (key_c, 0)
    ∷ (key_v, 0)
    ∷ (key_b, 0)
    ∷ (key_n, 0)
    ∷ (key_m, 0)
    ∷ (key_comma, 0)
    ∷ (key_dot, 246)
    ∷ (key_slash, 0)
    ∷ (key_numpad_asterisk, 42)
    ∷ (key_space, 32)
    ∷ (key_numpad_7, 55)
    ∷ (key_numpad_8, 56)
    ∷ (key_numpad_9, 57)
    ∷ (key_numpad_minus, 45)
    ∷ (key_numpad_4, 52)
    ∷ (key_numpad_5, 53)
    ∷ (key_numpad_6, 54)
    ∷ (key_numpad_plus, 43)
    ∷ (key_numpad_1, 49)
    ∷ (key_numpad_2, 50)
    ∷ (key_numpad_3, 51)
    ∷ (key_numpad_0, 48)
    ∷ (key_numpad_dot, 46)
    ∷ (key_lessthan, 0)
    ∷ (key_numpad_enter, 10)
    ∷ (key_numpad_slash, 47)
    ∷ [])
