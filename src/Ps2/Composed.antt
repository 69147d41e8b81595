-- ===== src/Ps2/Composed.antt =====
-- From the bytes of the keyboard's interrupts to the calls of the callbacks.
use mathlib.Core.List.{append_assoc}
use mug_os.Base.{ℕ, ◌≡◌, refl, ap, sym, ◌∙◌, Bool, true, false, List, [], ◌∷◌, ◌++◌}
use mug_os.Keyboard.{Keyboard, Call, notify_sys_rq, ctrl_pressed, alt_pressed, meta_pressed}
use mug_os.Keyboard as K
use mug_os.Keyboard.Modifiers.{FlagsMatch, notify-FlagsMatch, init-FlagsMatch}
use mug_os.Scancodes.Set1.{get_keycode_set1, get_keycode_escaped_set1}
use mug_os.Scancodes.Set2.{get_keycode_set2, get_keycode_escaped_set2}
use mug_os.Ps2.Decoder.{Effect, notified, sys_rq, sent, Decoder, reset, decode}
use mug_os.Ps2.Set1.{handle_scancode_set1}
use mug_os.Ps2.Set2.{handle_scancode_set2}
use mug_os.Ps2.Irq.{Ps2Keyboard, keyboard_irq, Subsystem, deliver, deliver_all, keyboard_irqs}
use mug_os.Ps2.Strokes.{Stroke, all_known, effects_of, all_scancodes, scancodes1, scancodes2}
use mug_os.Ps2.Decoding1.{decode-scancodes1}
use mug_os.Ps2.Decoding2.{all_separate, decode-scancodes2}

deliver-FlagsMatch :
    (print_key : ℕ) (s : Subsystem) (e : Effect)
    → FlagsMatch s.1
    → FlagsMatch (deliver print_key s e).1.1
unfolding deliver notify_sys_rq
deliver-FlagsMatch p s (notified e) h = notify-FlagsMatch s.1 e h
deliver-FlagsMatch p s sys_rq h = record { byte = h.byte; flags = h.flags }
deliver-FlagsMatch p s (sent byte) h = h

deliver_all-FlagsMatch :
    (print_key : ℕ) (s : Subsystem) (es : List Effect)
    → FlagsMatch s.1
    → FlagsMatch (deliver_all print_key s es).1.1
unfolding deliver_all
deliver_all-FlagsMatch p s [] h = h
deliver_all-FlagsMatch p s (e ∷ es) h =
    deliver_all-FlagsMatch p (deliver p s e).1 es (deliver-FlagsMatch p s e h)

keyboard_irqs-FlagsMatch_lem :
    (print_key : ℕ) (driver : Ps2Keyboard) (s : Subsystem) (bytes : List ℕ)
    → FlagsMatch s.1
    → FlagsMatch (keyboard_irqs print_key driver s bytes).1.1.1
unfolding keyboard_irqs
keyboard_irqs-FlagsMatch_lem p driver s [] h = h
keyboard_irqs-FlagsMatch_lem p driver s (byte ∷ bytes) h =
    keyboard_irqs-FlagsMatch_lem p (keyboard_irq driver byte).1
      (deliver_all p s (keyboard_irq driver byte).0).1 bytes
      (deliver_all-FlagsMatch p s (keyboard_irq driver byte).0 h)

-- Whatever the driver's state and the bytes that the keyboard sends after `Keyboard_init` (with no Ctrl,
-- Alt or Meta key held before it), each flag of `m_modifierKeys` is set exactly if the subsystem has a
-- key of it pressed, or the lock on.
pub keyboard_irqs-FlagsMatch :
    (print_key : ℕ) (driver : Ps2Keyboard) (on : Bool) (s : Keyboard) (bytes : List ℕ)
    → ctrl_pressed s ≡ false
    → alt_pressed s ≡ false
    → meta_pressed s ≡ false
    → FlagsMatch (keyboard_irqs print_key driver (on, K.init print_key s) bytes).1.1.1
keyboard_irqs-FlagsMatch p driver on s bytes no_ctrl no_alt no_meta =
    keyboard_irqs-FlagsMatch_lem p driver (on, K.init p s) bytes
      (init-FlagsMatch p s no_ctrl no_alt no_meta)

deliver_all-append :
    (print_key : ℕ) (s : Subsystem) (xs ys : List Effect)
    → deliver_all print_key s (xs ++ ys) ≡ (
      (deliver_all print_key s xs).0 ++ (deliver_all print_key (deliver_all print_key s xs).1 ys).0,
      (deliver_all print_key (deliver_all print_key s xs).1 ys).1,
    )
unfolding deliver_all
deliver_all-append p s [] ys = refl
deliver_all-append p s (x ∷ xs) ys =
    let (calls, s') = deliver p s x in
    ap (λ r. (calls ++ r.0, r.1)) (deliver_all-append p s' xs ys)
    ∙ ap (λ l. (l, (deliver_all p (deliver_all p s' xs).1 ys).1))
        (sym
          (append_assoc calls (deliver_all p s' xs).0 (deliver_all p (deliver_all p s' xs).1 ys).0))

-- The interrupts decode the bytes, and deliver the effects.
module _ (print_key number : ℕ) (handler : Decoder → ℕ → List Effect × Decoder) where
  keyboard_irqs_lem :
      ((d : Decoder) (byte : ℕ)
        → keyboard_irq (record { enabled = true; scancode_set = number; decoder = d }) byte ≡ (
          (handler d byte).0,
          record { enabled = true; scancode_set = number; decoder = (handler d byte).1 },
        ))
      → (d : Decoder) (s : Subsystem) (bytes : List ℕ)
      → (keyboard_irqs print_key
          (record { enabled = true; scancode_set = number; decoder = d })
          s
          bytes).0
        ≡ (deliver_all print_key s (decode handler d bytes).0).0
  unfolding keyboard_irqs decode deliver_all
  keyboard_irqs_lem one d s [] = refl
  keyboard_irqs_lem one d s (byte ∷ bytes) =
      ap
        (λ r.
          (deliver_all print_key s r.0).0
          ++ (keyboard_irqs print_key r.1 (deliver_all print_key s r.0).1 bytes).0)
        (one d byte)
      ∙ ap (λ l. (deliver_all print_key s (handler d byte).0).0 ++ l)
          (keyboard_irqs_lem one (handler d byte).1 (deliver_all print_key s (handler d byte).0).1
            bytes)
      ∙ ap (λ r. r.0)
          (sym (
            deliver_all-append print_key s (handler d byte).0
              (decode handler (handler d byte).1 bytes).0))

-- With the driver enabled and its decoder as `reset_state` leaves it, the interrupts of the scancodes of
-- any strokes of plain keys make, in set 1 and in set 2, exactly the calls of callbacks that the keyboard
-- subsystem makes for the strokes. In set 2, the asterisk of the numpad is not released directly after
-- print screen is pressed.
pub keyboard_irqs-scancodes :
    (print_key : ℕ) (d : Decoder) (s : Subsystem) (strokes1 strokes2 : List Stroke)
    → all_known get_keycode_set1 get_keycode_escaped_set1 strokes1 ≡ true
    → all_known get_keycode_set2 get_keycode_escaped_set2 strokes2 ≡ true
    → all_separate false strokes2 ≡ true
    → ((keyboard_irqs print_key
          (record { enabled = true; scancode_set = 1; decoder = reset d })
          s
          (all_scancodes scancodes1 strokes1)).0
        ≡ (deliver_all print_key s
            (effects_of get_keycode_set1 get_keycode_escaped_set1 strokes1)).0)
      × ((keyboard_irqs print_key
            (record { enabled = true; scancode_set = 2; decoder = reset d })
            s
            (all_scancodes scancodes2 strokes2)).0
          ≡ (deliver_all print_key s
              (effects_of get_keycode_set2 get_keycode_escaped_set2 strokes2)).0)
unfolding keyboard_irq
keyboard_irqs-scancodes p d s strokes1 strokes2 known1 known2 apart = (
  keyboard_irqs_lem p 1 handle_scancode_set1 (λ d byte. refl) (reset d) s
        (all_scancodes scancodes1 strokes1)
      ∙ ap (λ r. (deliver_all p s r.0).0) (decode-scancodes1 d strokes1 known1),
  keyboard_irqs_lem p 2 handle_scancode_set2 (λ d byte. refl) (reset d) s
        (all_scancodes scancodes2 strokes2)
      ∙ ap (λ es. (deliver_all p s es).0) (decode-scancodes2 d strokes2 known2 apart),
)
