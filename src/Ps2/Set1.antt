-- ===== src/Ps2/Set1.antt =====
-- Kernel/Drivers/Input/PS2.c: handleScancodeSet1.
use mug_os.Base.{ℕ, ◌+◌, ◌-◌, true, false, ◌&&◌, List, [], ◌∷◌, leb, ◌==◌, if◌then◌else◌}
use mug_os.Keycodes.{key_printscreen, key_pause, key_ignore}
use mug_os.Keyboard.{press, release}
use mug_os.Scancodes.Set1.{get_keycode_set1, get_keycode_escaped_set1}
use mug_os.Ps2.Decoder.{
  Effect, notified, sys_rq, Decoder, Check, done, onward, and_then, reset, acknowledge, resend,
  handle_keycode, res_ack, res_resend, scancode_escape, scancode_escape_pause,
}

abbrev pub scancode1_sysrq : ℕ
scancode1_sysrq = 0x54

-- Progress of 0xe0, 0x2a, 0xe0, 0x37.
unfoldable pub print_screen_pressed1 : Decoder → ℕ → Check
print_screen_pressed1 d scancode =
    let stop = record d { print_screen_sequence_pressed = 0 } in
    if d.print_screen_sequence_pressed == 1
    then if scancode == 0x2a
      then done [] (record d { print_screen_sequence_pressed = 2; escaped_state = false })
      else onward stop
    else if d.print_screen_sequence_pressed == 2
    then if scancode == 0xe0
      then done [] (record d { print_screen_sequence_pressed = 3 })
      else onward stop
    else if d.print_screen_sequence_pressed == 3
    then if scancode == 0x37
      then done (notified (press key_printscreen) ∷ []) (reset d)
      else onward (record stop { escaped_state = true })
    else onward d

-- Progress of 0xe0, 0xb7, 0xe0, 0xaa.
unfoldable pub print_screen_released1 : Decoder → ℕ → Check
print_screen_released1 d scancode =
    let stop = record d { print_screen_sequence_released = 0 } in
    if d.print_screen_sequence_released == 1
    then if scancode == 0xb7
      then done [] (record d { print_screen_sequence_released = 2 })
      else onward stop
    else if d.print_screen_sequence_released == 2
    then if scancode == 0xe0
      then done [] (record d { print_screen_sequence_released = 3 })
      else onward stop
    else if d.print_screen_sequence_released == 3
    then if scancode == 0xaa
      then done (notified (release key_printscreen) ∷ []) (reset d)
      else onward stop
    else onward d

-- The scancode that continues the sequence 0xe1, 0x1d, 0x45, 0xe1, 0x9d, 0xc5 at a place of it.
abbrev pub pause_code1 : ℕ → ℕ
pause_code1 at =
    if at == 1
    then 0x1d
    else if at == 2
    then 0x45
    else if at == 3
    then 0xe1
    else if at == 4
    then 0x9d
    else 0xc5

-- Progress of that sequence.
unfoldable pub pause1 : Decoder → ℕ → Check
pause1 d scancode =
    if leb 1 d.pause_sequence && leb d.pause_sequence 5
    then if scancode == pause_code1 d.pause_sequence
      then if d.pause_sequence == 5
        then done (notified (press key_pause) ∷ []) (reset d)
        else done [] (record d { pause_sequence = d.pause_sequence + 1 })
      else onward (record d { pause_sequence = 0 })
    else onward d

-- From the conversion to a key on.
unfoldable pub convert1 : Decoder → ℕ → List Effect × Decoder
convert1 d scancode =
    let k =
      if d.escaped_state then get_keycode_escaped_set1 scancode else get_keycode_set1 scancode in
    if k == key_ignore then ([], reset d) else handle_keycode d k

-- The special cases. The scancode is a byte, of which 0x80 is the first bit.
unfoldable pub preprocess1 : Decoder → ℕ → List Effect × Decoder
preprocess1 d scancode =
    if scancode == scancode1_sysrq
    then (sys_rq ∷ [], d)
    else if scancode == scancode_escape
    then (
      [],
      record d {
        escaped_state = true;
        print_screen_sequence_pressed = 1;
        print_screen_sequence_released = 1;
      },
    )
    else if scancode == scancode_escape_pause
    then ([], record d { pause_sequence = 1 })
    else if scancode == scancode1_sysrq + 0x80
    then ([], d)
    else if scancode == res_ack
    then acknowledge d
    else if scancode == res_resend
    then resend d
    else if leb 0x80 scancode
    then convert1 (record d { released = true }) (scancode - 0x80)
    else convert1 d scancode

unfoldable pub handle_scancode_set1 : Decoder → ℕ → List Effect × Decoder
handle_scancode_set1 d scancode = and_then (print_screen_pressed1 d scancode) (λ d.
    and_then (print_screen_released1 d scancode)
      (λ d. and_then (pause1 d scancode) (λ d. preprocess1 d scancode)))
