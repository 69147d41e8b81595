-- ===== src/Ps2/Setup.antt =====
-- Kernel/Drivers/Input/PS2.c: the set-up of the two devices, over a controller that is a parameter. The
-- names that are only printed are the constructors of a type. Each function takes and returns the
-- response buffer with the state of the outside.
use mug_os.Base.{
  ℕ, Bool, true, false, ◌&&◌, List, [], ◌∷◌, Option, none, some, ◌==◌, if◌then◌else◌, switch,
}
use mug_os.Ps2.Decoder.{res_ack, cmd_set_led, led_numlock}
use mug_os.Ps2.Responses.{Responses}
use mug_os.Ps2.Exchange.{Controller, receive_byte, send_byte_to_device_handle_resend}
use mug_os.Ps2.Mouse.{mousetype_std, mousetype_wheel, mousetype_5buttons}

abbrev pub cmd_identify : ℕ
cmd_identify = 0xf2

abbrev pub cmd_disable_scanning : ℕ
cmd_disable_scanning = 0xf5

abbrev pub cmd_reset : ℕ
cmd_reset = 0xff

abbrev pub cmd_set_scancode_set : ℕ
cmd_set_scancode_set = 0xf0

abbrev pub cmd_set_delay_and_rate : ℕ
cmd_set_delay_and_rate = 0xf3

abbrev pub cmd_set_samplerate : ℕ
cmd_set_samplerate = 0xf3

abbrev pub cmd_set_resolution : ℕ
cmd_set_resolution = 0xe8

abbrev pub res_selftest_passed : ℕ
res_selftest_passed = 0xaa

-- What getMouseType returns for no mouse.
abbrev pub no_mouse : ℕ
no_mouse = 0xff

pub data KeyboardName : Type 0 where
  at_keyboard : KeyboardName
  mf2_keyboard : KeyboardName
  short_keyboard : KeyboardName
  ncd_n97 : KeyboardName
  keyboard_122 : KeyboardName
  japanese_g : KeyboardName
  japanese_p : KeyboardName
  japanese_a : KeyboardName
  ncd_sun : KeyboardName

pub record KeyboardDevice : Type 0 where
  pub enabled : Bool
  pub translated : Bool
  pub scancode_set : ℕ
  pub name : Option KeyboardName
  pub leds : ℕ

pub record MouseDevice : Type 0 where
  pub enabled : Bool
  pub mouse_type : ℕ
  pub packet_size : ℕ

-- The two switches of `getKeyboardName`.
unfoldable pub keyboard_name : ℕ → ℕ → Option KeyboardName
keyboard_name byte1 byte2 =
    if byte1 == 0xab
    then switch byte2 none (
        (0x41, some mf2_keyboard)
        ∷ (0x54, some short_keyboard)
        ∷ (0x83, some mf2_keyboard)
        ∷ (0x84, some short_keyboard)
        ∷ (0x85, some ncd_n97)
        ∷ (0x86, some keyboard_122)
        ∷ (0x90, some japanese_g)
        ∷ (0x91, some japanese_p)
        ∷ (0x92, some japanese_a)
        ∷ (0xc1, some mf2_keyboard)
        ∷ [])
    else if byte1 == 0xac
    then switch byte2 none ((0xa1, some ncd_sun) ∷ [])
    else none

-- The end of `PS2_initMouse`: the mouse of a known type is enabled.
unfoldable pub set_packet_size : MouseDevice → MouseDevice
set_packet_size mouse =
    if mouse.mouse_type == mousetype_std
    then record mouse { packet_size = 3; enabled = true }
    else if mouse.mouse_type == mousetype_wheel
    then record mouse { packet_size = 4; enabled = true }
    else if mouse.mouse_type == mousetype_5buttons
    then record mouse { packet_size = 4; enabled = true }
    else mouse

module _ {World : Type 0} (controller : Controller World) where
  abbrev Outside : Type 0
  Outside = Responses × World

  -- Bytes that are sent without a look at the response.
  unfoldable pub send_all : ℕ → List ℕ → Outside → Outside
  send_all device [] s = s
  send_all device (byte ∷ bytes) s =
      send_all device bytes (send_byte_to_device_handle_resend controller device byte s).1

  -- `getKeyboardName`.
  unfoldable pub get_keyboard_name : Outside → Option KeyboardName × Outside
  get_keyboard_name s =
      let (response, s1) = send_byte_to_device_handle_resend controller 1 cmd_identify s in
      let (first, s2) = receive_byte controller s1 in
      let (second, s3) = receive_byte controller s2 in
      if response == res_ack
      then elim first [
        | none ↦ (some at_keyboard, s2)
        | some byte1 ↦ elim second [
          | none ↦ (none, s3)
          | some byte2 ↦ (keyboard_name byte1 byte2, s3)
        ]
      ]
      else (none, s1)

  -- `getMouseType`.
  unfoldable pub get_mouse_type : Outside → ℕ × Outside
  get_mouse_type s =
      let (response, s1) = send_byte_to_device_handle_resend controller 2 cmd_identify s in
      let (received, s2) = receive_byte controller s1 in
      if response == res_ack
      then elim received [ none ↦ (no_mouse, s2) | some id ↦ (id, s2) ]
      else (no_mouse, s1)

  -- `resetDevice`.
  unfoldable pub reset_device : ℕ → Outside → Bool × Outside
  reset_device device s =
      let (response, s1) = send_byte_to_device_handle_resend controller device cmd_reset s in
      let (received, s2) = receive_byte controller s1 in
      let (identification, s3) = receive_byte controller s2 in
      if response == res_ack
      then elim received [
        | none ↦ (false, s2)
        | some result ↦
            if result == res_selftest_passed
            then (if device == 2 then (true, s3) else (true, s2))
            else (false, s2)
      ]
      else (false, s1)

  -- `PS2_initKeyboard`.
  unfoldable pub init_keyboard : KeyboardDevice → Outside → KeyboardDevice × Outside
  init_keyboard keyboard s =
      let disabled = record keyboard { enabled = false } in
      let (is_reset, s1) = reset_device 1 s in
      let (answer1, s2) =
        send_byte_to_device_handle_resend controller 1 cmd_set_scancode_set
          (send_all 1 (cmd_disable_scanning ∷ []) s1) in
      let (answer2, s3) = send_byte_to_device_handle_resend controller 1 2 s2 in
      let (name, s4) = get_keyboard_name s3 in
      let in_set = record disabled {
        scancode_set = if keyboard.translated then 1 else 2;
        name = name;
      } in
      if is_reset
      then if (answer1 == res_ack) && (answer2 == res_ack)
        then elim name [
          | none ↦ (in_set, s4)
          | some _ ↦ (
            record in_set { enabled = true; leds = led_numlock },
            send_all 1 (cmd_set_delay_and_rate ∷ 22 ∷ cmd_set_led ∷ led_numlock ∷ []) s4,
          )
        ]
        else (disabled, s3)
      else (disabled, s1)

  -- `PS2_initMouse`, which resets device 1.
  unfoldable pub init_mouse : MouseDevice → Outside → MouseDevice × Outside
  init_mouse mouse s =
      let disabled = record mouse { enabled = false } in
      let (is_reset, s1) = reset_device 1 s in
      let (mouse_type, s2) = get_mouse_type s1 in
      let wheel =
        cmd_set_samplerate ∷ 200 ∷ cmd_set_samplerate ∷ 100 ∷ cmd_set_samplerate ∷ 80 ∷ [] in
      let (with_wheel, s3) = get_mouse_type (send_all 2 wheel s2) in
      let buttons =
        cmd_set_samplerate ∷ 200 ∷ cmd_set_samplerate ∷ 200 ∷ cmd_set_samplerate ∷ 80 ∷ [] in
      let (with_buttons, s4) = get_mouse_type (send_all 2 buttons s3) in
      if is_reset
      then if mouse_type == no_mouse then (record disabled { mouse_type = mouse_type }, s2) else (
        set_packet_size (record disabled { mouse_type = with_buttons }),
        send_all 2 (cmd_set_samplerate ∷ 40 ∷ cmd_set_resolution ∷ 3 ∷ []) s4,
      )
      else (disabled, s1)
