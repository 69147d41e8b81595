-- ===== src/Scancodes/Set1.antt =====
-- Kernel/Drivers/Input/PS2.c: the keys of scancode set 1.
use mug_os.Base.{ℕ, [], ◌∷◌, switch}
use mug_os.Keycodes.{
  key_reserved, key_esc, key_1, key_2, key_3, key_4, key_5, key_6, key_7, key_8, key_9, key_0,
  key_minus, key_equal, key_backspace, key_tab, key_q, key_w, key_e, key_r, key_t, key_y, key_u,
  key_i, key_o, key_p, key_lbracket, key_rbracket, key_enter, key_lctrl, key_a, key_s, key_d, key_f,
  key_g, key_h, key_j, key_k, key_l, key_semicolon, key_quote, key_grave, key_lshift, key_backslash,
  key_z, key_x, key_c, key_v, key_b, key_n, key_m, key_comma, key_dot, key_slash, key_rshift,
  key_numpad_asterisk, key_lalt, key_space, key_capslock, key_f1, key_f2, key_f3, key_f4, key_f5,
  key_f6, key_f7, key_f8, key_f9, key_f10, key_numlock, key_scrolllock, key_numpad_7, key_numpad_8,
  key_numpad_9, key_numpad_minus, key_numpad_4, key_numpad_5, key_numpad_6, key_numpad_plus,
  key_numpad_1, key_numpad_2, key_numpad_3, key_numpad_0, key_numpad_dot, key_lessthan, key_f11,
  key_f12, key_hiragana, key_henkan, key_katakanahiragana, key_muhenkan, key_numpad_enter,
  key_rctrl, key_numpad_slash, key_ralt, key_home, key_up, key_pageup, key_left, key_right, key_end,
  key_down, key_pagedown, key_insert, key_delete, key_mute, key_volumedown, key_volumeup, key_power,
  key_yen, key_lmeta, key_rmeta, key_stop, key_copy, key_paste, key_cut, key_menu, key_calc,
  key_sleep, key_wakeup, key_mail, key_bookmarks, key_computer, key_back, key_forward, key_nextsong,
  key_playpause, key_previoussong, key_stopcd, key_homepage, key_refresh, key_f13, key_f14, key_f15,
  key_search, key_media, key_ignore,
}

-- `getKeycodeSet1`.
unfoldable pub get_keycode_set1 : ℕ → ℕ
get_keycode_set1 scancode = switch scancode key_reserved (
    (0x00, key_reserved)
    ∷ (0x01, key_esc)
    ∷ (0x02, key_1)
    ∷ (0x03, key_2)
    ∷ (0x04, key_3)
    ∷ (0x05, key_4)
    ∷ (0x06, key_5)
    ∷ (0x07, key_6)
    ∷ (0x08, key_7)
    ∷ (0x09, key_8)
    ∷ (0x0a, key_9)
    ∷ (0x0b, key_0)
    ∷ (0x0c, key_minus)
    ∷ (0x0d, key_equal)
    ∷ (0x0e, key_backspace)
    ∷ (0x0f, key_tab)
    ∷ (0x10, key_q)
    ∷ (0x11, key_w)
    ∷ (0x12, key_e)
    ∷ (0x13, key_r)
    ∷ (0x14, key_t)
    ∷ (0x15, key_y)
    ∷ (0x16, key_u)
    ∷ (0x17, key_i)
    ∷ (0x18, key_o)
    ∷ (0x19, key_p)
    ∷ (0x1a, key_lbracket)
    ∷ (0x1b, key_rbracket)
    ∷ (0x1c, key_enter)
    ∷ (0x1d, key_lctrl)
    ∷ (0x1e, key_a)
    ∷ (0x1f, key_s)
    ∷ (0x20, key_d)
    ∷ (0x21, key_f)
    ∷ (0x22, key_g)
    ∷ (0x23, key_h)
    ∷ (0x24, key_j)
    ∷ (0x25, key_k)
    ∷ (0x26, key_l)
    ∷ (0x27, key_semicolon)
    ∷ (0x28, key_quote)
    ∷ (0x29, key_grave)
    ∷ (0x2a, key_lshift)
    ∷ (0x2b, key_backslash)
    ∷ (0x2c, key_z)
    ∷ (0x2d, key_x)
    ∷ (0x2e, key_c)
    ∷ (0x2f, key_v)
    ∷ (0x30, key_b)
    ∷ (0x31, key_n)
    ∷ (0x32, key_m)
    ∷ (0x33, key_comma)
    ∷ (0x34, key_dot)
    ∷ (0x35, key_slash)
    ∷ (0x36, key_rshift)
    ∷ (0x37, key_numpad_asterisk)
    ∷ (0x38, key_lalt)
    ∷ (0x39, key_space)
    ∷ (0x3a, key_capslock)
    ∷ (0x3b, key_f1)
    ∷ (0x3c, key_f2)
    ∷ (0x3d, key_f3)
    ∷ (0x3e, key_f4)
    ∷ (0x3f, key_f5)
    ∷ (0x40, key_f6)
    ∷ (0x41, key_f7)
    ∷ (0x42, key_f8)
    ∷ (0x43, key_f9)
    ∷ (0x44, key_f10)
    ∷ (0x45, key_numlock)
    ∷ (0x46, key_scrolllock)
    ∷ (0x47, key_numpad_7)
    ∷ (0x48, key_numpad_8)
    ∷ (0x49, key_numpad_9)
    ∷ (0x4a, key_numpad_minus)
    ∷ (0x4b, key_numpad_4)
    ∷ (0x4c, key_numpad_5)
    ∷ (0x4d, key_numpad_6)
    ∷ (0x4e, key_numpad_plus)
    ∷ (0x4f, key_numpad_1)
    ∷ (0x50, key_numpad_2)
    ∷ (0x51, key_numpad_3)
    ∷ (0x52, key_numpad_0)
    ∷ (0x53, key_numpad_dot)
    ∷ (0x54, key_reserved)
    ∷ (0x56, key_lessthan)
    ∷ (0x57, key_f11)
    ∷ (0x58, key_f12)
    ∷ (0x5d, key_f13)
    ∷ (0x5e, key_f14)
    ∷ (0x5f, key_f15)
    ∷ (0x70, key_katakanahiragana)
    ∷ (0x77, key_hiragana)
    ∷ (0x79, key_henkan)
    ∷ (0x7b, key_muhenkan)
    ∷ (0x7d, key_yen)
    ∷ [])

-- `getKeycodeEscapedSet1`.
unfoldable pub get_keycode_escaped_set1 : ℕ → ℕ
get_keycode_escaped_set1 scancode = switch scancode key_reserved (
    (0x10, key_previoussong)
    ∷ (0x19, key_nextsong)
    ∷ (0x1c, key_numpad_enter)
    ∷ (0x1d, key_rctrl)
    ∷ (0x20, key_mute)
    ∷ (0x21, key_calc)
    ∷ (0x22, key_playpause)
    ∷ (0x23, key_paste)
    ∷ (0x24, key_stopcd)
    ∷ (0x25, key_cut)
    ∷ (0x26, key_copy)
    ∷ (0x2a, key_ignore)
    ∷ (0x2e, key_volumedown)
    ∷ (0x30, key_volumeup)
    ∷ (0x32, key_homepage)
    ∷ (0x35, key_numpad_slash)
    ∷ (0x36, key_ignore)
    ∷ (0x37, key_ignore)
    ∷ (0x38, key_ralt)
    ∷ (0x46, key_ignore)
    ∷ (0x47, key_home)
    ∷ (0x48, key_up)
    ∷ (0x49, key_pageup)
    ∷ (0x4b, key_left)
    ∷ (0x4d, key_right)
    ∷ (0x4f, key_end)
    ∷ (0x50, key_down)
    ∷ (0x51, key_pagedown)
    ∷ (0x52, key_insert)
    ∷ (0x53, key_delete)
    ∷ (0x5b, key_lmeta)
    ∷ (0x5c, key_rmeta)
    ∷ (0x5d, key_menu)
    ∷ (0x5e, key_power)
    ∷ (0x5f, key_sleep)
    ∷ (0x63, key_wakeup)
    ∷ (0x65, key_search)
    ∷ (0x66, key_bookmarks)
    ∷ (0x67, key_refresh)
    ∷ (0x68, key_stop)
    ∷ (0x69, key_forward)
    ∷ (0x6a, key_back)
    ∷ (0x6b, key_computer)
    ∷ (0x6c, key_mail)
    ∷ (0x6d, key_media)
    ∷ [])
