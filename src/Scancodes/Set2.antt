-- ===== src/Scancodes/Set2.antt =====
-- Kernel/Drivers/Input/PS2.c: the keys of scancode set 2.
use mug_os.Base.{ℕ, [], ◌∷◌, switch}
use mug_os.Keycodes.{
  key_reserved, key_esc, key_1, key_2, key_3, key_4, key_5, key_6, key_7, key_8, key_9, key_0,
  key_minus, key_equal, key_backspace, key_tab, key_q, key_w, key_e, key_r, key_t, key_y, key_u,
  key_i, key_o, key_p, key_lbracket, key_rbracket, key_enter, key_lctrl, key_a, key_s, key_d, key_f,
  key_g, key_h, key_j, key_k, key_l, key_semicolon, key_quote, key_grave, key_lshift, key_backslash,
  key_z, key_x, key_c, key_v, key_b, key_n, key_m, key_comma, key_dot, key_slash, key_rshift,
  key_numpad_asterisk, key_lalt, key_space, key_capslock, key_f1, key_f2, key_f3, key_f4, key_f5,
  key_f6, key_f7, key_f8, key_f9, key_f10, key_numlock, key_scrolllock, key_numpad_7, key_numpad_8,
  key_numpad_9, key_numpad_minus, key_numpad_4, key_numpad_5, key_numpad_6, key_numpad_plus,
  key_numpad_1, key_numpad_2, key_numpad_3, key_numpad_0, key_numpad_dot, key_lessthan, key_f11,
  key_f12, key_hiragana, key_henkan, key_katakanahiragana, key_muhenkan, key_numpad_enter,
  key_rctrl, key_numpad_slash, key_ralt, key_home, key_up, key_pageup, key_left, key_right, key_end,
  key_down, key_pagedown, key_insert, key_delete, key_mute, key_volumedown, key_volumeup, key_power,
  key_yen, key_lmeta, key_rmeta, key_stop, key_paste, key_cut, key_menu, key_calc, key_sleep,
  key_wakeup, key_mail, key_bookmarks, key_back, key_forward, key_nextsong, key_playpause,
  key_previoussong, key_homepage, key_refresh, key_f13, key_f14, key_f15, key_search, key_media,
}

-- `getKeycodeSet2`.
unfoldable pub get_keycode_set2 : ℕ → ℕ
get_keycode_set2 scancode = switch scancode key_reserved (
    (0x01, key_f9)
    ∷ (0x03, key_f5)
    ∷ (0x04, key_f3)
    ∷ (0x05, key_f1)
    ∷ (0x06, key_f2)
    ∷ (0x07, key_f12)
    ∷ (0x09, key_f10)
    ∷ (0x0a, key_f8)
    ∷ (0x0b, key_f6)
    ∷ (0x0c, key_f4)
    ∷ (0x0d, key_tab)
    ∷ (0x0e, key_grave)
    ∷ (0x11, key_lalt)
    ∷ (0x12, key_lshift)
    ∷ (0x13, key_katakanahiragana)
    ∷ (0x14, key_lctrl)
    ∷ (0x15, key_q)
    ∷ (0x16, key_1)
    ∷ (0x1a, key_z)
    ∷ (0x1b, key_s)
    ∷ (0x1c, key_a)
    ∷ (0x1d, key_w)
    ∷ (0x1e, key_2)
    ∷ (0x21, key_c)
    ∷ (0x22, key_x)
    ∷ (0x23, key_d)
    ∷ (0x24, key_e)
    ∷ (0x25, key_4)
    ∷ (0x26, key_3)
    ∷ (0x29, key_space)
    ∷ (0x2a, key_v)
    ∷ (0x2b, key_f)
    ∷ (0x2c, key_t)
    ∷ (0x2d, key_r)
    ∷ (0x2e, key_5)
    ∷ (0x2f, key_f13)
    ∷ (0x31, key_n)
    ∷ (0x32, key_b)
    ∷ (0x33, key_h)
    ∷ (0x34, key_g)
    ∷ (0x35, key_y)
    ∷ (0x36, key_6)
    ∷ (0x37, key_f14)
    ∷ (0x3a, key_m)
    ∷ (0x3b, key_j)
    ∷ (0x3c, key_u)
    ∷ (0x3d, key_7)
    ∷ (0x3e, key_8)
    ∷ (0x3f, key_f15)
    ∷ (0x41, key_comma)
    ∷ (0x42, key_k)
    ∷ (0x43, key_i)
    ∷ (0x44, key_o)
    ∷ (0x45, key_0)
    ∷ (0x46, key_9)
    ∷ (0x49, key_dot)
    ∷ (0x4a, key_slash)
    ∷ (0x4b, key_l)
    ∷ (0x4c, key_semicolon)
    ∷ (0x4d, key_p)
    ∷ (0x4e, key_minus)
    ∷ (0x52, key_quote)
    ∷ (0x54, key_lbracket)
    ∷ (0x55, key_equal)
    ∷ (0x58, key_capslock)
    ∷ (0x59, key_rshift)
    ∷ (0x5a, key_enter)
    ∷ (0x5b, key_rbracket)
    ∷ (0x5d, key_backslash)
    ∷ (0x61, key_lessthan)
    ∷ (0x62, key_hiragana)
    ∷ (0x64, key_henkan)
    ∷ (0x66, key_backspace)
    ∷ (0x67, key_muhenkan)
    ∷ (0x69, key_numpad_1)
    ∷ (0x6a, key_yen)
    ∷ (0x6b, key_numpad_4)
    ∷ (0x6c, key_numpad_7)
    ∷ (0x70, key_numpad_0)
    ∷ (0x71, key_numpad_dot)
    ∷ (0x72, key_numpad_2)
    ∷ (0x73, key_numpad_5)
    ∷ (0x74, key_numpad_6)
    ∷ (0x75, key_numpad_8)
    ∷ (0x76, key_esc)
    ∷ (0x77, key_numlock)
    ∷ (0x78, key_f11)
    ∷ (0x79, key_numpad_plus)
    ∷ (0x7a, key_numpad_3)
    ∷ (0x7b, key_numpad_minus)
    ∷ (0x7c, key_numpad_asterisk)
    ∷ (0x7d, key_numpad_9)
    ∷ (0x7e, key_scrolllock)
    ∷ (0x83, key_f7)
    ∷ [])

-- `getKeycodeEscapedSet2`.
unfoldable pub get_keycode_escaped_set2 : ℕ → ℕ
get_keycode_escaped_set2 scancode = switch scancode key_reserved (
    (0x10, key_search)
    ∷ (0x11, key_ralt)
    ∷ (0x14, key_rctrl)
    ∷ (0x15, key_previoussong)
    ∷ (0x18, key_bookmarks)
    ∷ (0x1f, key_lmeta)
    ∷ (0x20, key_refresh)
    ∷ (0x21, key_volumedown)
    ∷ (0x23, key_mute)
    ∷ (0x27, key_rmeta)
    ∷ (0x28, key_stop)
    ∷ (0x2b, key_calc)
    ∷ (0x2f, key_menu)
    ∷ (0x30, key_forward)
    ∷ (0x32, key_volumeup)
    ∷ (0x33, key_paste)
    ∷ (0x34, key_playpause)
    ∷ (0x37, key_power)
    ∷ (0x38, key_back)
    ∷ (0x3a, key_homepage)
    ∷ (0x3b, key_stop)
    ∷ (0x3f, key_sleep)
    ∷ (0x42, key_cut)
    ∷ (0x48, key_mail)
    ∷ (0x4a, key_numpad_slash)
    ∷ (0x4b, key_paste)
    ∷ (0x4d, key_nextsong)
    ∷ (0x50, key_media)
    ∷ (0x5a, key_numpad_enter)
    ∷ (0x5e, key_wakeup)
    ∷ (0x69, key_end)
    ∷ (0x6b, key_left)
    ∷ (0x6c, key_home)
    ∷ (0x70, key_insert)
    ∷ (0x71, key_delete)
    ∷ (0x72, key_down)
    ∷ (0x74, key_right)
    ∷ (0x75, key_up)
    ∷ (0x7a, key_pagedown)
    ∷ (0x7d, key_pageup)
    ∷ [])
