-- ===== src/Ps2/Decoding1.antt =====
-- The first scancode handler reports what was done with the keys.
use mug_os.Base.{
  ℕ, ◌+◌, ◌<◌, ◌≢◌, ◌≡◌, refl, ap, ◌∙◌, arith, true, false, List, [], ◌∷◌, ◌++◌, switch,
}
use mug_os.Scancodes.Set1.{get_keycode_set1, get_keycode_escaped_set1}
use mug_os.Ps2.Decoder.{Decoder, reset, report, decode}
use mug_os.Ps2.Set1.{
  print_screen_pressed1, print_screen_released1, pause1, convert1, preprocess1,
  handle_scancode_set1,
}
use mug_os.Ps2.Strokes.{
  Stroke, make, break, make_escaped, break_escaped, make_shifted, make_print_screen,
  break_print_screen, make_pause, make_sys_rq, is_plain_key, handle_keycode-plain, effect_of,
  is_known, all_known, effects_of, scancodes1, all_scancodes, decode-append,
}

-- No code of a key is one of the special scancodes, with or without the first bit.
record IsOrdinary (c : ℕ) : Type 0 where
  byte : c < 128
  make : c ≢ 0x54
  make_shift : c ≢ 0x60
  ack : c ≢ 0x7a
  resend : c ≢ 0x7e
  pause : c ≢ 0x61

get_keycode_set1-IsOrdinary : (c : ℕ) → is_plain_key (get_keycode_set1 c) ≡ true → IsOrdinary c
unfolding get_keycode_set1 switch
get_keycode_set1-IsOrdinary c h = record {
  byte = ground arith;
  make = ground arith;
  make_shift = ground arith;
  ack = ground arith;
  resend = ground arith;
  pause = ground arith;
}

get_keycode_escaped_set1-IsOrdinary :
    (c : ℕ) → is_plain_key (get_keycode_escaped_set1 c) ≡ true → IsOrdinary c
unfolding get_keycode_escaped_set1 switch
get_keycode_escaped_set1-IsOrdinary c h = record {
  byte = ground arith;
  make = ground arith;
  make_shift = ground arith;
  ack = ground arith;
  resend = ground arith;
  pause = ground arith;
}

preprocess1-make : (d : Decoder) (c : ℕ) → IsOrdinary c → preprocess1 d c ≡ convert1 d c
unfolding preprocess1
preprocess1-make d c h = ground (arith, h.byte, h.make)

preprocess1-break :
    (d : Decoder) (c : ℕ)
    → IsOrdinary c
    → preprocess1 d (c + 0x80) ≡ convert1 (record d { released = true }) c
unfolding preprocess1
preprocess1-break d c h = ground (arith, h.byte, h.make, h.make_shift, h.ack, h.resend, h.pause)

convert1-plain :
    (d : Decoder) (c : ℕ)
    → d.escaped_state ≡ false
    → is_plain_key (get_keycode_set1 c) ≡ true
    → convert1 d c ≡ report d (get_keycode_set1 c)
unfolding convert1
convert1-plain d c unescaped h =
    rw unescaped (ground (arith, handle_keycode-plain d (get_keycode_set1 c) h))

convert1-escaped :
    (d : Decoder) (c : ℕ)
    → d.escaped_state ≡ true
    → is_plain_key (get_keycode_escaped_set1 c) ≡ true
    → convert1 d c ≡ report d (get_keycode_escaped_set1 c)
unfolding convert1
convert1-escaped d c escaped h =
    rw escaped (ground (arith, handle_keycode-plain d (get_keycode_escaped_set1 c) h))

-- The state after the prefix of an escaped key, when the next scancode has stopped the sequences.
abbrev escaped : Decoder → Decoder
escaped d = record (reset d) { escaped_state = true }

handle_scancode_set1-reset :
    (d : Decoder) (c : ℕ) → handle_scancode_set1 (reset d) c ≡ preprocess1 (reset d) c
unfolding handle_scancode_set1 print_screen_pressed1 print_screen_released1 pause1
handle_scancode_set1-reset d c = refl

handle_scancode_set1-escaped :
    (d : Decoder) (c : ℕ)
    → c ≢ 0x2a
    → c ≢ 0xb7
    → handle_scancode_set1
        (record (reset d) {
          escaped_state = true;
          print_screen_sequence_pressed = 1;
          print_screen_sequence_released = 1;
        })
        c
      ≡ preprocess1 (escaped d) c
unfolding handle_scancode_set1 print_screen_pressed1 print_screen_released1 pause1
handle_scancode_set1-escaped d c shift_code screen = ground arith

handle_scancode_set1-shifted :
    (d : Decoder) (c : ℕ)
    → c ≢ 0x37
    → c ≢ 0xb7
    → handle_scancode_set1
        (record (reset d) { print_screen_sequence_pressed = 3; print_screen_sequence_released = 1 })
        c
      ≡ preprocess1 (escaped d) c
unfolding handle_scancode_set1 print_screen_pressed1 print_screen_released1 pause1
handle_scancode_set1-shifted d c asterisk screen = ground arith

-- The scancodes 0x2a and 0x37 after the prefix belong to no plain key.
escaped-codes : (c : ℕ) → is_plain_key (get_keycode_escaped_set1 c) ≡ true → (c ≢ 0x2a) × (c ≢ 0x37)
unfolding get_keycode_escaped_set1 switch
escaped-codes c h = (ground arith, ground arith)

stroke1_lem :
    (d : Decoder) (s : Stroke)
    → is_known get_keycode_set1 get_keycode_escaped_set1 s ≡ true
    → decode handle_scancode_set1 (reset d) (scancodes1 s)
      ≡ (effect_of get_keycode_set1 get_keycode_escaped_set1 s ∷ [], reset d)
unfolding decode handle_scancode_set1 print_screen_pressed1 print_screen_released1 pause1
    preprocess1
stroke1_lem d (make c) h =
    rw
      (
        handle_scancode_set1-reset d c,
        preprocess1-make (reset d) c (get_keycode_set1-IsOrdinary c h),
        convert1-plain (reset d) c refl h,
      )
      refl
stroke1_lem d (break c) h =
    rw
      (
        handle_scancode_set1-reset d (c + 0x80),
        preprocess1-break (reset d) c (get_keycode_set1-IsOrdinary c h),
        convert1-plain (record (reset d) { released = true }) c refl h,
      )
      refl
stroke1_lem d (make_escaped c) h =
    let ordinary = get_keycode_escaped_set1-IsOrdinary c h in
    ap (λ r. (r.0 ++ [], r.1))
      (handle_scancode_set1-escaped d c (escaped-codes c h).0 (ground (arith, ordinary.byte))
        ∙ preprocess1-make (escaped d) c ordinary
        ∙ convert1-escaped (escaped d) c refl h)
stroke1_lem d (break_escaped c) h =
    let ordinary = get_keycode_escaped_set1-IsOrdinary c h in
    ap (λ r. (r.0 ++ [], r.1))
      (handle_scancode_set1-escaped d (c + 0x80) (ground (arith, ordinary.byte))
          (ground (arith, (escaped-codes c h).1))
        ∙ preprocess1-break (escaped d) c ordinary
        ∙ convert1-escaped (record (escaped d) { released = true }) c refl h)
stroke1_lem d (make_shifted c) h =
    let ordinary = get_keycode_escaped_set1-IsOrdinary c h in
    ap (λ r. (r.0 ++ [], r.1))
      (handle_scancode_set1-shifted d c (escaped-codes c h).1 (ground (arith, ordinary.byte))
        ∙ preprocess1-make (escaped d) c ordinary
        ∙ convert1-escaped (escaped d) c refl h)
stroke1_lem d make_print_screen h = refl
stroke1_lem d break_print_screen h = refl
stroke1_lem d make_pause h = refl
stroke1_lem d make_sys_rq h = refl

-- From the state that `reset_state` leaves, any sequence of strokes (keys pressed and released, with and
-- without the prefix 0xe0, print screen, pause and SysRq) whose codes stand in the tables of set 1 for
-- plain keys is decoded from its scancodes: exactly its events are notified, in order, and the decoder
-- is back in the state it was in.
pub decode-scancodes1 :
    (d : Decoder) (strokes : List Stroke)
    → all_known get_keycode_set1 get_keycode_escaped_set1 strokes ≡ true
    → decode handle_scancode_set1 (reset d) (all_scancodes scancodes1 strokes)
      ≡ (effects_of get_keycode_set1 get_keycode_escaped_set1 strokes, reset d)
unfolding decode
decode-scancodes1 d [] h = refl
decode-scancodes1 d (s ∷ ss) h =
    decode-append handle_scancode_set1 (reset d) (scancodes1 s) (all_scancodes scancodes1 ss)
    ∙ rw (stroke1_lem d s (ground arith), decode-scancodes1 d ss (ground arith)) refl
