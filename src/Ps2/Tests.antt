-- ===== src/Ps2/Tests.antt =====
-- Tests of the PS/2 driver.
use mug_os.Base.{
  none, ℕ, ◌<◌, ◌+◌, ◌≡◌, refl, arith, true, false, List, [], ◌∷◌, some, if◌then◌else◌, leb,
  replicate, switch, bit_xor, zero, suc,
}
use mug_os.Keycodes.{key_a, key_up}
use mug_os.Keyboard.{press, release}
use mug_os.Scancodes.Set1.{get_keycode_set1, get_keycode_escaped_set1}
use mug_os.Scancodes.Set2.{get_keycode_set2, get_keycode_escaped_set2}
use mug_os.Ps2.Decoder.{
  notified, sent, Decoder, reset, decode, cycle_led_sequence, acknowledge, handle_keycode,
  cmd_set_led, res_ack,
}
use mug_os.Ps2.Set1.{handle_scancode_set1}
use mug_os.Ps2.Set2.{
  handle_scancode_set2, print_screen_pressed2, print_screen_released2, pause2, preprocess2,
  convert2,
}
use mug_os.Ps2.Irq.{Subsystem, keyboard_irqs, deliver_all}
use mug_os.Ps2.Strokes.{
  Stroke, make, break, make_escaped, make_print_screen, break_print_screen, make_pause, effects_of,
  scancodes1, scancodes2, all_scancodes,
}
use mug_os.Ps2.Decoding1.{decode-scancodes1}
use mug_os.Ps2.Decoding2.{decode-scancodes2}
use mug_os.Ps2.Lights.{
  Lock, ScancodeSet, handler_of, lock_code, lock_key, lock_led, switched, decode-lock_pressed,
}
use mug_os.Ps2.Lights as L
use mug_os.Ps2.Places.{in_places, decode-in_places}
use mug_os.Ps2.Composed.{keyboard_irqs-scancodes}
use mug_os.Ps2.Mouse.{
  Mouse, Packet, at_start, mouse_irqs, all_packet_bytes, movements, handle_mouse_packet,
  mouse_irqs-all_packet_bytes, handle_mouse_packet-signs,
}
use mug_os.Ps2.Responses.{Responses}
use mug_os.Ps2.Exchange.{Controller, receive_byte}
use mug_os.Ps2.Setup.{KeyboardDevice, init_mouse}
use mug_os.Ps2.Enabled.{is_set_up, init_mouse-is_set_up}
use mug_os.Ps2.Timeout.{elapse, receive_byte-in_time}

-- The static variables at the start, with NumLock's LED on.
abbrev idle : Decoder
idle = record {
  released = false;
  escaped_state = false;
  print_screen_sequence_pressed = 0;
  print_screen_sequence_released = 0;
  pause_sequence = 0;
  numlock_was_set = false;
  capslock_was_set = false;
  scrolllock_was_set = false;
  wanted_leds = 0;
  resend_count = 0;
  led_sequence = 0;
  leds = 2;
}

abbrev strokes_of_set1 : List Stroke
strokes_of_set1 =
    make 0x1e
    ∷ break 0x1e
    ∷ make_escaped 0x48
    ∷ make_print_screen
    ∷ break_print_screen
    ∷ make_pause
    ∷ []

abbrev strokes_of_set2 : List Stroke
strokes_of_set2 =
    make 0x1c
    ∷ break 0x1c
    ∷ make_escaped 0x75
    ∷ make_print_screen
    ∷ break_print_screen
    ∷ make_pause
    ∷ []

-- An ACK that answers nothing starts to switch the LEDs.
spurious_ack : (handle_scancode_set2 idle res_ack).0 ≡ sent cmd_set_led ∷ []
unfolding handle_scancode_set2 print_screen_pressed2 print_screen_released2 pause2 preprocess2
    acknowledge cycle_led_sequence
spurious_ack = refl

-- Keys Q and Up of an AZERTY keyboard.
typed_keys :
    (decode handle_scancode_set2 idle (0x1c ∷ 0xe0 ∷ 0xf0 ∷ 0x75 ∷ [])).0
    ≡ notified (press key_a) ∷ notified (release key_up) ∷ []
unfolding decode handle_scancode_set2 print_screen_pressed2 print_screen_released2 pause2
    preprocess2 convert2 handle_keycode get_keycode_set2 get_keycode_escaped_set2 switch
typed_keys = refl

decode-scancodes1_example :
    decode handle_scancode_set1 (reset idle) (all_scancodes scancodes1 strokes_of_set1)
    ≡ (effects_of get_keycode_set1 get_keycode_escaped_set1 strokes_of_set1, reset idle)
unfolding get_keycode_set1 get_keycode_escaped_set1 switch
decode-scancodes1_example = decode-scancodes1 idle strokes_of_set1 refl

decode-scancodes2_example :
    (decode handle_scancode_set2 (reset idle) (all_scancodes scancodes2 strokes_of_set2)).0
    ≡ effects_of get_keycode_set2 get_keycode_escaped_set2 strokes_of_set2
unfolding get_keycode_set2 get_keycode_escaped_set2 switch
decode-scancodes2_example = decode-scancodes2 idle strokes_of_set2 refl refl

decode-lock_pressed_example :
    decode handle_scancode_set2 (reset idle) (0x58 ∷ 0xfe ∷ 0xfa ∷ 0xfe ∷ 0xfa ∷ []) ≡ (
      sent 0xed
          ∷ sent 0xed
          ∷ sent (bit_xor 2 4)
          ∷ sent (bit_xor 2 4)
          ∷ notified (press (lock_key L.capslock))
          ∷ [],
      switched L.capslock 2 idle,
    )
decode-lock_pressed_example =
    decode-lock_pressed L.second L.capslock 1 1 idle
      (record { numlock = refl; scrolllock = refl; capslock = refl }) (omega arith)

decode-in_places_example :
    (in_places 3 5 (decode handle_scancode_set1 idle (0xe0 ∷ 0x2a ∷ 0x1e ∷ [])).1 ≡ true)
    × (in_places 5 7 (decode handle_scancode_set2 idle (0xe0 ∷ 0x2a ∷ 0x1e ∷ [])).1 ≡ true)
decode-in_places_example = decode-in_places idle idle (0xe0 ∷ 0x2a ∷ 0x1e ∷ []) refl refl

abbrev subsystem : Subsystem
subsystem = (
  false,
  record {
    capslock_on = false;
    numlock_on = true;
    numlock_key_was_function = replicate 11 false;
    modifier_keys = 16;
    left_shift_pressed = false;
    right_shift_pressed = false;
    left_ctrl_pressed = false;
    right_ctrl_pressed = false;
    left_alt_pressed = false;
    right_alt_pressed = false;
    left_meta_pressed = false;
    right_meta_pressed = false;
    callbacks = 7 ∷ [];
  },
)

keyboard_irqs-scancodes_example :
    ((keyboard_irqs 9
        (record { enabled = true; scancode_set = 1; decoder = reset idle })
        subsystem
        (all_scancodes scancodes1 strokes_of_set1)).0
      ≡ (deliver_all 9 subsystem
          (effects_of get_keycode_set1 get_keycode_escaped_set1 strokes_of_set1)).0)
    × ((keyboard_irqs 9
          (record { enabled = true; scancode_set = 2; decoder = reset idle })
          subsystem
          (all_scancodes scancodes2 strokes_of_set2)).0
        ≡ (deliver_all 9 subsystem
            (effects_of get_keycode_set2 get_keycode_escaped_set2 strokes_of_set2)).0)
unfolding get_keycode_set1 get_keycode_escaped_set1 get_keycode_set2 get_keycode_escaped_set2 switch
keyboard_irqs-scancodes_example =
    keyboard_irqs-scancodes 9 idle subsystem strokes_of_set1 strokes_of_set2 refl refl refl

abbrev wheel_mouse : Mouse
wheel_mouse = record {
  mouse_type = 3;
  packet_size = 4;
  packet_index = 0;
  flags = 0;
  dx = 0;
  dy = 0;
}

abbrev sent_packets : List Packet
sent_packets =
    record { flags_byte = 0x18; dx_byte = 254; dy_byte = 3; extra_byte = 15 }
    ∷ record { flags_byte = 0x09; dx_byte = 1; dy_byte = 0; extra_byte = 1 }
    ∷ []

mouse_irqs-all_packet_bytes_example :
    let after = mouse_irqs (at_start wheel_mouse) (all_packet_bytes 4 sent_packets) in
    (after.0 ≡ movements 3 4 sent_packets) × (after.1.packet_index ≡ 0)
mouse_irqs-all_packet_bytes_example = mouse_irqs-all_packet_bytes wheel_mouse sent_packets

-- Two to the left, three up, and the wheel back by one.
handle_mouse_packet-signs_example :
    let moved = handle_mouse_packet 3 0x18 254 3 15 in
    (moved.dx ≡ 4294967294) × (moved.dy ≡ 3) × (moved.wheel ≡ 4294967295)
handle_mouse_packet-signs_example =
    handle_mouse_packet-signs 3 0x18 254 3 15 (omega arith) (omega arith) (omega arith)
      (omega arith)

abbrev two_responses : Responses
two_responses = record { buffer = 0xab ∷ 0x83 ∷ 0 ∷ 0 ∷ 0 ∷ []; in_buffer = 2 }

-- A device that sends an ACK in every delay from the fourth on; the outside is the number of delays.
abbrev slow_device : Controller ℕ
slow_device = record {
  send_byte_to_device = λ w device byte. (true, w);
  delay = λ w. (if leb 3 w then 0xfa ∷ [] else [], w + 1);
}

abbrev no_responses : Responses
no_responses = record { buffer = replicate 5 0; in_buffer = 0 }

silent_before : (i : ℕ) → i < 3 → (slow_device.delay (elapse slow_device i 0)).0 ≡ []
unfolding elapse
silent_before zero h = refl
silent_before (suc zero) h = refl
silent_before (suc (suc zero)) h = refl
silent_before (suc (suc (suc i))) h = absurd (omega arith)

receive_byte-in_time_example : (receive_byte slow_device (no_responses, 0)).0 ≡ some 0xfa
unfolding elapse
receive_byte-in_time_example =
    receive_byte-in_time slow_device 3 no_responses 0 0xfa []
      (record { size = refl; used = omega arith }) refl silent_before refl (omega arith)

init_mouse-is_set_up_example :
    is_set_up
      (init_mouse slow_device
        (record { enabled = false; mouse_type = 0; packet_size = 0 })
        (no_responses, 0)).0
    ≡ true
init_mouse-is_set_up_example =
    init_mouse-is_set_up slow_device (record { enabled = false; mouse_type = 0; packet_size = 0 })
      (no_responses, 0)

-- A device whose bytes come one in each delay.
abbrev next_byte : List ℕ → List ℕ × List ℕ
next_byte [] = ([], [])
next_byte (b ∷ bs) = (b ∷ [], bs)

abbrev scripted_device : Controller (List ℕ)
scripted_device = record {
  send_byte_to_device = λ w device byte. (true, w);
  delay = λ w. next_byte w;
}

-- The answers of a keyboard with the identification 0xab, 0x83.
abbrev answers : List ℕ
answers = 0xfa ∷ 0xaa ∷ 0xfa ∷ 0xfa ∷ 0xfa ∷ 0xfa ∷ 0xab ∷ 0x83 ∷ 0xfa ∷ 0xfa ∷ 0xfa ∷ 0xfa ∷ []

abbrev unknown_keyboard : KeyboardDevice
unknown_keyboard = record {
  enabled = false;
  translated = true;
  scancode_set = 0;
  name = none;
  leds = 0;
}
