-- ===== src/Ps2/Decoder.antt =====
-- Kernel/Drivers/Input/PS2.c: what the two scancode handlers of the keyboard share. Their static
-- variables have the same names, but for `released`, which is `breaked_state` in the second. A record
-- holds those of the one in use: `scancodeSet` is set by the initialisation alone. The static variable
-- of `cycleLedSequence` and the LEDs are in the record too. What a handler calls is a list of effects.
use mug_os.Base.{ℕ, ◌+◌, Bool, true, false, List, [], ◌∷◌, ◌++◌, ◌==◌, if◌then◌else◌, bit_xor}
use mug_os.Keycodes.{key_reserved, key_numlock, key_scrolllock, key_capslock}
use mug_os.Keyboard.{KeyEvent, press, release}

pub data Effect : Type 0 where
  notified : KeyEvent → Effect
  sys_rq : Effect
  sent : ℕ → Effect

pub record Decoder : Type 0 where
  pub released : Bool
  pub escaped_state : Bool
  pub print_screen_sequence_pressed : ℕ
  pub print_screen_sequence_released : ℕ
  pub pause_sequence : ℕ
  pub numlock_was_set : Bool
  pub capslock_was_set : Bool
  pub scrolllock_was_set : Bool
  pub wanted_leds : ℕ
  pub resend_count : ℕ
  pub led_sequence : ℕ
  pub leds : ℕ

abbrev pub cmd_set_led : ℕ
cmd_set_led = 0xed

abbrev pub led_scrolllock : ℕ
led_scrolllock = 1

abbrev pub led_numlock : ℕ
led_numlock = 2

abbrev pub led_capslock : ℕ
led_capslock = 4

abbrev pub res_ack : ℕ
res_ack = 0xfa

abbrev pub res_resend : ℕ
res_resend = 0xfe

abbrev pub scancode_escape : ℕ
scancode_escape = 0xe0

abbrev pub scancode_escape_pause : ℕ
scancode_escape_pause = 0xe1

abbrev pub scancode_break : ℕ
scancode_break = 0xf0

-- A check of a sequence returns from the handler, or goes on.
pub data Check : Type 0 where
  done : List Effect → Decoder → Check
  onward : Decoder → Check

abbrev pub and_then : Check → (Decoder → List Effect × Decoder) → List Effect × Decoder
and_then (done effects d) k = (effects, d)
and_then (onward d) k = k d

-- The code at `reset_state`.
abbrev pub reset : Decoder → Decoder
reset d = record d {
  released = false;
  escaped_state = false;
  print_screen_sequence_pressed = 0;
  print_screen_sequence_released = 0;
  pause_sequence = 0;
}

-- `cycleLedSequence`: its result, what it sends, and its static variable.
unfoldable pub cycle_led_sequence : Bool → ℕ → Bool → ℕ → Bool × List Effect × ℕ
cycle_led_sequence start_sequence leds acked led_sequence =
    let started = if start_sequence then 1 else led_sequence in
    let reached = if acked then started + 1 else started in
    if reached == 0
    then (false, [], reached)
    else if reached == 1
    then (false, sent cmd_set_led ∷ [], reached)
    else if reached == 2
    then (false, sent leds ∷ [], reached)
    else if reached == 3
    then (true, [], 0)
    else (false, [], reached)

abbrev pub event_if : Bool → ℕ → List Effect
event_if b k = if b then notified (press k) ∷ [] else []

-- The case PS2_RES_ACK.
unfoldable pub acknowledge : Decoder → List Effect × Decoder
acknowledge d =
    let (finished, sends, reached) = cycle_led_sequence false d.wanted_leds true d.led_sequence in
    if finished
    then (
      sends
          ++ event_if d.numlock_was_set key_numlock
          ++ event_if d.scrolllock_was_set key_scrolllock
          ++ event_if d.capslock_was_set key_capslock,
      record d { led_sequence = reached; leds = d.wanted_leds },
    )
    else (sends, record d { led_sequence = reached })

-- The case PS2_RES_RESEND.
unfoldable pub resend : Decoder → List Effect × Decoder
resend d =
    if d.resend_count + 1 == 3
    then ([], reset (record d { resend_count = 0 }))
    else let (finished, sends, reached) =
        cycle_led_sequence false d.wanted_leds false d.led_sequence in
      (sends, record d { led_sequence = reached; resend_count = d.resend_count + 1 })

-- The end of a handler, for a key that it reports.
abbrev pub report : Decoder → ℕ → List Effect × Decoder
report d k = (notified (if d.released then release k else press k) ∷ [], reset d)

-- A lock key with the bit of its LED that is pressed and was not set: the new LEDs are wanted.
abbrev pub want_led : Decoder → ℕ → List Effect × Decoder
want_led d bit =
    let wanted = bit_xor d.leds bit in
    let (finished, sends, reached) = cycle_led_sequence true wanted false d.led_sequence in
    (sends, record d { wanted_leds = wanted; led_sequence = reached })

-- The switch over the key, and what follows it.
unfoldable pub handle_keycode : Decoder → ℕ → List Effect × Decoder
handle_keycode d k =
    if k == key_reserved
    then ([], reset d)
    else if k == key_numlock
    then if d.released
      then report (record d { numlock_was_set = false }) k
      else if d.numlock_was_set
      then report d k
      else want_led (record d { numlock_was_set = true }) led_numlock
    else if k == key_scrolllock
    then if d.released
      then report (record d { scrolllock_was_set = false }) k
      else if d.scrolllock_was_set
      then report d k
      else want_led (record d { scrolllock_was_set = true }) led_scrolllock
    else if k == key_capslock
    then if d.released
      then report (record d { capslock_was_set = false }) k
      else if d.capslock_was_set
      then report d k
      else want_led (record d { capslock_was_set = true }) led_capslock
    else report d k

-- The effects of a sequence of scancodes, in order, and the state after it.
unfoldable pub decode :
    (Decoder → ℕ → List Effect × Decoder) → Decoder → List ℕ → List Effect × Decoder
decode handler d [] = ([], d)
decode handler d (scancode ∷ scancodes) =
    let (effects, d') = handler d scancode in
    let (more, d'') = decode handler d' scancodes in (effects ++ more, d'')
