-- ===== src/Ps2/Irq.antt =====
-- Kernel/Drivers/Input/PS2.c: the interrupt of the keyboard, and the keyboard subsystem behind it.
use mug_os.Base.{ℕ, Bool, List, [], ◌∷◌, ◌++◌, ◌==◌, if◌then◌else◌}
use mug_os.Keyboard.{Keyboard, Call, notify, notify_sys_rq}
use mug_os.Ps2.Decoder.{Effect, notified, sys_rq, sent, Decoder}
use mug_os.Ps2.Set1.{handle_scancode_set1}
use mug_os.Ps2.Set2.{handle_scancode_set2}

-- `struct PS2Keyboard` without its name, its LEDs with the decoder's state.
pub record Ps2Keyboard : Type 0 where
  pub enabled : Bool
  pub scancode_set : ℕ
  pub decoder : Decoder

-- `keyboardIRQ`, with the byte that the controller has.
unfoldable pub keyboard_irq : Ps2Keyboard → ℕ → List Effect × Ps2Keyboard
keyboard_irq s code =
    let (effects1, d1) = handle_scancode_set1 s.decoder code in
    let (effects2, d2) = handle_scancode_set2 s.decoder code in
    if s.enabled
    then if s.scancode_set == 1
      then (effects1, record s { decoder = d1 })
      else if s.scancode_set == 2
      then (effects2, record s { decoder = d2 })
      else ([], s)
    else ([], s)

-- The keyboard subsystem: its state, and the static variable of `Keyboard_notifySysRq`.
abbrev pub Subsystem : Type 0
Subsystem = Bool × Keyboard

-- What the subsystem does when the driver calls it; `print_key` is the callback of SysRq.
unfoldable pub deliver : ℕ → Subsystem → Effect → List Call × Subsystem
deliver print_key (on, s) (notified e) = let (calls, s') = notify s e in (calls, (on, s'))
deliver print_key (on, s) sys_rq = ([], notify_sys_rq print_key (on, s))
deliver print_key (on, s) (sent byte) = ([], (on, s))

unfoldable pub deliver_all : ℕ → Subsystem → List Effect → List Call × Subsystem
deliver_all print_key s [] = ([], s)
deliver_all print_key s (e ∷ es) =
    let (calls, s') = deliver print_key s e in
    let (more, s'') = deliver_all print_key s' es in (calls ++ more, s'')

-- The interrupts of a sequence of bytes: the calls of callbacks, and both states after it.
unfoldable pub keyboard_irqs :
    ℕ → Ps2Keyboard → Subsystem → List ℕ → List Call × (Ps2Keyboard × Subsystem)
keyboard_irqs print_key driver s [] = ([], (driver, s))
keyboard_irqs print_key driver s (byte ∷ bytes) =
    let (effects, driver') = keyboard_irq driver byte in
    let (calls, s') = deliver_all print_key s effects in
    let (more, after) = keyboard_irqs print_key driver' s' bytes in (calls ++ more, after)
