-- ===== src/Ps2/Set2.antt =====
-- Kernel/Drivers/Input/PS2.c: handleScancodeSet2; `released` is its breaked_state.
use mug_os.Base.{ℕ, ◌+◌, true, false, ◌&&◌, List, [], ◌∷◌, leb, ◌==◌, if◌then◌else◌}
use mug_os.Keycodes.{key_printscreen, key_pause}
use mug_os.Keyboard.{press, release}
use mug_os.Scancodes.Set2.{get_keycode_set2, get_keycode_escaped_set2}
use mug_os.Ps2.Decoder.{
  Effect, notified, sys_rq, Decoder, Check, done, onward, and_then, reset, acknowledge, resend,
  handle_keycode, res_ack, res_resend, scancode_escape, scancode_escape_pause, scancode_break,
}

abbrev pub scancode2_sysrq : ℕ
scancode2_sysrq = 0x84

-- Progress of 0xe0, 0x12, 0xe0, 0x7c.
unfoldable pub print_screen_pressed2 : Decoder → ℕ → Check
print_screen_pressed2 d scancode =
    let stop = record d { print_screen_sequence_pressed = 0 } in
    if d.print_screen_sequence_pressed == 1
    then if scancode == 0x12
      then done [] (record d { print_screen_sequence_pressed = 2; escaped_state = false })
      else onward (record stop { escaped_state = true })
    else if d.print_screen_sequence_pressed == 2
    then if scancode == 0xe0
      then done [] (record d { print_screen_sequence_pressed = 3 })
      else onward stop
    else if d.print_screen_sequence_pressed == 3
    then if scancode == 0x7c
      then done (notified (press key_printscreen) ∷ []) stop
      else onward (record stop { escaped_state = true })
    else onward d

-- Progress of 0xe0, 0xf0, 0x7c, 0xe0, 0xf0, 0x12.
unfoldable pub print_screen_released2 : Decoder → ℕ → Check
print_screen_released2 d scancode =
    let stop = record d { print_screen_sequence_released = 0 } in
    if d.print_screen_sequence_released == 1
    then if scancode == 0xf0
      then onward (record d { print_screen_sequence_released = 2; released = true })
      else onward stop
    else if d.print_screen_sequence_released == 2
    then if scancode == 0x7c
      then done [] (record d { print_screen_sequence_released = 3 })
      else onward stop
    else if d.print_screen_sequence_released == 3
    then if scancode == 0xe0
      then done [] (record d { print_screen_sequence_released = 4 })
      else onward (record stop { escaped_state = false; released = false })
    else if d.print_screen_sequence_released == 4
    then if scancode == 0xf0
      then done [] (record d { print_screen_sequence_released = 5 })
      else onward stop
    else if d.print_screen_sequence_released == 5
    then if scancode == 0x12
      then done (notified (release key_printscreen) ∷ [])
          (record stop { escaped_state = false; released = false })
      else onward stop
    else onward d

-- The scancode that continues the sequence 0xe1, 0x14, 0x77, 0xe1, 0xf0, 0x14, 0xf0, 0x77 at a place of it.
abbrev pub pause_code2 : ℕ → ℕ
pause_code2 at =
    if at == 1
    then 0x14
    else if at == 2
    then 0x77
    else if at == 3
    then 0xe1
    else if at == 4
    then 0xf0
    else if at == 5
    then 0x14
    else if at == 6
    then 0xf0
    else 0x77

-- Progress of that sequence.
unfoldable pub pause2 : Decoder → ℕ → Check
pause2 d scancode =
    if leb 1 d.pause_sequence && leb d.pause_sequence 7
    then if scancode == pause_code2 d.pause_sequence
      then if d.pause_sequence == 7
        then done (notified (press key_pause) ∷ []) (reset d)
        else done [] (record d { pause_sequence = d.pause_sequence + 1 })
      else onward (record d { pause_sequence = 0 })
    else onward d

-- From the conversion to a key on.
unfoldable pub convert2 : Decoder → ℕ → List Effect × Decoder
convert2 d scancode =
    handle_keycode d
      (if d.escaped_state then get_keycode_escaped_set2 scancode else get_keycode_set2 scancode)

-- The special cases.
unfoldable pub preprocess2 : Decoder → ℕ → List Effect × Decoder
preprocess2 d scancode =
    if (scancode == 0x12) && d.escaped_state
    then ([], reset d)
    else if scancode == scancode2_sysrq
    then (if d.released then [] else sys_rq ∷ [], d)
    else if scancode == scancode_escape
    then (
      [],
      record d {
        escaped_state = true;
        print_screen_sequence_pressed = 1;
        print_screen_sequence_released = 1;
      },
    )
    else if scancode == scancode_escape_pause
    then ([], record d { pause_sequence = 1 })
    else if scancode == scancode_break
    then ([], record d { released = true })
    else if scancode == res_ack
    then acknowledge d
    else if scancode == res_resend
    then resend d
    else convert2 d scancode

unfoldable pub handle_scancode_set2 : Decoder → ℕ → List Effect × Decoder
handle_scancode_set2 d scancode = and_then (print_screen_pressed2 d scancode) (λ d.
    and_then (print_screen_released2 d scancode)
      (λ d. and_then (pause2 d scancode) (λ d. preprocess2 d scancode)))
