-- ===== src/Layout/AltGr.antt =====
-- Kernel/Drivers/Input/Keyboard.c: the characters of the AZERTY layout with AltGr.
use mug_os.Base.{ℕ, [], ◌∷◌, switch}
use mug_os.Keycodes.{
  key_reserved, key_1, key_2, key_3, key_4, key_5, key_6, key_7, key_8, key_9, key_0, key_minus,
  key_equal, key_tab, key_q, key_w, key_e, key_r, key_t, key_y, key_u, key_i, key_o, key_p,
  key_lbracket, key_rbracket, key_enter, key_a, key_s, key_d, key_f, key_g, key_h, key_j, key_k,
  key_l, key_semicolon, key_quote, key_grave, key_backslash, key_z, key_x, key_c, key_v, key_b,
  key_n, key_m, key_comma, key_dot, key_slash, key_numpad_asterisk, key_space, key_numpad_7,
  key_numpad_8, key_numpad_9, key_numpad_minus, key_numpad_4, key_numpad_5, key_numpad_6,
  key_numpad_plus, key_numpad_1, key_numpad_2, key_numpad_3, key_numpad_0, key_numpad_dot,
  key_lessthan, key_numpad_enter, key_numpad_slash,
}

-- `getChar_AZERTY_AltGr`.
unfoldable pub alt_gr : ℕ → ℕ
alt_gr k = switch k 0 (
    (key_reserved, 0)
    ∷ (key_1, 0)
    ∷ (key_2, 126)
    ∷ (key_3, 35)
    ∷ (key_4, 123)
    ∷ (key_5, 91)
    ∷ (key_6, 124)
    ∷ (key_7, 96)
    ∷ (key_8, 92)
    ∷ (key_9, 94)
    ∷ (key_0, 64)
    ∷ (key_minus, 93)
    ∷ (key_equal, 125)
    ∷ (key_tab, 9)
    ∷ (key_q, 145)
    ∷ (key_w, 174)
    ∷ (key_e, 0)
    ∷ (key_r, 0)
    ∷ (key_t, 0)
    ∷ (key_y, 0)
    ∷ (key_u, 0)
    ∷ (key_i, 0)
    ∷ (key_o, 0)
    ∷ (key_p, 0)
    ∷ (key_lbracket, 0)
    ∷ (key_rbracket, 0)
    ∷ (key_enter, 10)
    ∷ (key_a, 64)
    ∷ (key_s, 0)
    ∷ (key_d, 0)
    ∷ (key_f, 0)
    ∷ (key_g, 0)
    ∷ (key_h, 0)
    ∷ (key_j, 0)
    ∷ (key_k, 0)
    ∷ (key_l, 0)
    ∷ (key_semicolon, 230)
    ∷ (key_quote, 94)
    ∷ (key_grave, 170)
    ∷ (key_backslash, 96)
    ∷ (key_z, 0)
    ∷ (key_x, 175)
    ∷ (key_c, 155)
    ∷ (key_v, 0)
    ∷ (key_b, 0)
    ∷ (key_n, 0)
    ∷ (key_m, 0)
    ∷ (key_comma, 249)
    ∷ (key_dot, 250)
    ∷ (key_slash, 0)
    ∷ (key_numpad_asterisk, 42)
    ∷ (key_space, 32)
    ∷ (key_numpad_7, 55)
    ∷ (key_numpad_8, 56)
    ∷ (key_numpad_9, 57)
    ∷ (key_numpad_minus, 45)
    ∷ (key_numpad_4, 52)
    ∷ (key_numpad_5, 53)
    ∷ (key_numpad_6, 54)
    ∷ (key_numpad_plus, 43)
    ∷ (key_numpad_1, 49)
    ∷ (key_numpad_2, 50)
    ∷ (key_numpad_3, 51)
    ∷ (key_numpad_0, 48)
    ∷ (key_numpad_dot, 46)
    ∷ (key_lessthan, 124)
    ∷ (key_numpad_enter, 10)
    ∷ (key_numpad_slash, 47)
    ∷ [])
