-- ===== src/Ps2/Enabled.antt =====
-- What holds of the devices that their set-up enables.
use mug_os.Base.{◌≡◌, ◌≢◌, arith, Bool, true, ◌&&◌, ◌==◌, if◌then◌else◌, none}
use mug_os.Ps2.Decoder.{led_numlock}
use mug_os.Ps2.Responses.{Responses}
use mug_os.Ps2.Exchange.{Controller}
use mug_os.Ps2.Mouse.{mousetype_std, mousetype_wheel, mousetype_5buttons}
use mug_os.Ps2.Setup.{KeyboardDevice, MouseDevice, set_packet_size, init_keyboard, init_mouse}

-- The packet size is the one of the type.
abbrev pub packet_size_fits : MouseDevice → Bool
packet_size_fits m =
    if m.mouse_type == mousetype_std
    then m.packet_size == 3
    else (if m.mouse_type == mousetype_wheel then true else m.mouse_type == mousetype_5buttons)
      && (m.packet_size == 4)

-- A mouse is disabled, or fits.
abbrev pub is_set_up : MouseDevice → Bool
is_set_up m = if m.enabled then packet_size_fits m else true

-- Whatever the controller and the mouse answer, `PS2_initMouse` leaves the mouse disabled, or of one of
-- the three types with the packet size of that type: 3 for the standard one and 4 for the others.
pub init_mouse-is_set_up :
    {World : Type 0} (controller : Controller World) (mouse : MouseDevice) (s : Responses × World)
    → is_set_up (init_mouse controller mouse s).0 ≡ true
unfolding init_mouse set_packet_size
init_mouse-is_set_up controller mouse s = ground arith

-- What an enabled keyboard has.
pub record IsReady (before after : KeyboardDevice) : Type 0 where
  pub set_of_scancodes : after.scancode_set ≡ (if before.translated then 1 else 2)
  pub numlock_led : after.leds ≡ led_numlock
  pub named : after.name ≢ none

-- Whatever the controller and the keyboard answer, if `PS2_initKeyboard` enables the keyboard, then its
-- scancode set is 1 where the controller translates and 2 otherwise, its LEDs are NumLock alone, and it
-- has a name.
pub init_keyboard-IsReady :
    {World : Type 0} (controller : Controller World) (keyboard : KeyboardDevice)
    (s : Responses × World)
    → (init_keyboard controller keyboard s).0.enabled ≡ true
    → IsReady keyboard (init_keyboard controller keyboard s).0
unfolding init_keyboard
init_keyboard-IsReady controller keyboard s h = record {
  set_of_scancodes = ground arith;
  numlock_led = ground arith;
  named = λ e. absurd (ground arith);
}
