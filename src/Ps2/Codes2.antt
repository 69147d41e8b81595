-- ===== src/Ps2/Codes2.antt =====
-- The codes of set 2 that belong to keys, and what the second scancode handler does with them at last.
use mug_os.Base.{ℕ, ◌<◌, ◌≢◌, ◌≡◌, arith, true, false, switch}
use mug_os.Scancodes.Set2.{get_keycode_set2, get_keycode_escaped_set2}
use mug_os.Ps2.Decoder.{Decoder, report}
use mug_os.Ps2.Set2.{convert2, preprocess2}
use mug_os.Ps2.Strokes.{is_plain_key, handle_keycode-plain}

-- No code of a key is one of the special scancodes.
pub record IsOrdinary (c : ℕ) : Type 0 where
  pub sys_rq : c ≢ 0x84
  pub below : c < 0xe0

pub get_keycode_set2-IsOrdinary : (c : ℕ) → is_plain_key (get_keycode_set2 c) ≡ true → IsOrdinary c
unfolding get_keycode_set2 switch
get_keycode_set2-IsOrdinary c h = record { sys_rq = ground arith; below = ground arith }

pub get_keycode_escaped_set2-IsOrdinary :
    (c : ℕ) → is_plain_key (get_keycode_escaped_set2 c) ≡ true → IsOrdinary c
unfolding get_keycode_escaped_set2 switch
get_keycode_escaped_set2-IsOrdinary c h = record { sys_rq = ground arith; below = ground arith }

-- The scancodes 0x12 and 0x7c after the prefix belong to no plain key.
pub escaped-codes :
    (c : ℕ) → is_plain_key (get_keycode_escaped_set2 c) ≡ true → (c ≢ 0x12) × (c ≢ 0x7c)
unfolding get_keycode_escaped_set2 switch
escaped-codes c h = (ground arith, ground arith)

pub preprocess2-plain :
    (d : Decoder) (c : ℕ)
    → d.escaped_state ≡ false
    → is_plain_key (get_keycode_set2 c) ≡ true
    → preprocess2 d c ≡ report d (get_keycode_set2 c)
unfolding preprocess2 convert2
preprocess2-plain d c unescaped h =
    let ordinary = get_keycode_set2-IsOrdinary c h in
    rw unescaped (
      ground
        (arith, ordinary.sys_rq, ordinary.below, handle_keycode-plain d (get_keycode_set2 c) h))

pub preprocess2-escaped :
    (d : Decoder) (c : ℕ)
    → d.escaped_state ≡ true
    → is_plain_key (get_keycode_escaped_set2 c) ≡ true
    → preprocess2 d c ≡ report d (get_keycode_escaped_set2 c)
unfolding preprocess2 convert2
preprocess2-escaped d c escaped h =
    let ordinary = get_keycode_escaped_set2-IsOrdinary c h in
    rw escaped (
      ground (
        arith,
        ordinary.sys_rq,
        ordinary.below,
        (escaped-codes c h).0,
        handle_keycode-plain d (get_keycode_escaped_set2 c) h,
      ))
