-- ===== src/Ps2/Lights.antt =====
-- The keys of the locks: how the LEDs are switched, step by step, and the key is reported.
use mug_os.Base.{
  ℕ, zero, suc, ◌+◌, ◌<◌, ◌≡◌, ◌⊎◌, inl, inr, refl, ap, ◌∙◌, arith, true, false, List, [], ◌∷◌,
  ◌++◌, ◌==◌, if◌then◌else◌, replicate, bit_xor, switch,
}
use mug_os.Keycodes.{key_numlock, key_scrolllock, key_capslock}
use mug_os.Keyboard.{press}
use mug_os.Scancodes.Set1.{get_keycode_set1}
use mug_os.Scancodes.Set2.{get_keycode_set2}
use mug_os.Ps2.Decoder.{
  Effect, notified, sent, Decoder, reset, decode, cycle_led_sequence, acknowledge, resend,
  handle_keycode, cmd_set_led, led_numlock, led_scrolllock, led_capslock, res_ack, res_resend,
}
use mug_os.Ps2.Set1.{
  print_screen_pressed1, print_screen_released1, pause1, convert1, preprocess1,
  handle_scancode_set1,
}
use mug_os.Ps2.Set2.{
  print_screen_pressed2, print_screen_released2, pause2, convert2, preprocess2,
  handle_scancode_set2,
}
use mug_os.Ps2.Strokes.{decode-append}

pub data Lock : Type 0 where
  numlock : Lock
  scrolllock : Lock
  capslock : Lock

pub data ScancodeSet : Type 0 where
  first : ScancodeSet
  second : ScancodeSet

abbrev pub handler_of : ScancodeSet → Decoder → ℕ → List Effect × Decoder
handler_of first = handle_scancode_set1
handler_of second = handle_scancode_set2

abbrev pub lock_code : ScancodeSet → Lock → ℕ
lock_code first numlock = 0x45
lock_code first scrolllock = 0x46
lock_code first capslock = 0x3a
lock_code second numlock = 0x77
lock_code second scrolllock = 0x7e
lock_code second capslock = 0x58

abbrev pub lock_key : Lock → ℕ
lock_key numlock = key_numlock
lock_key scrolllock = key_scrolllock
lock_key capslock = key_capslock

abbrev pub lock_led : Lock → ℕ
lock_led numlock = led_numlock
lock_led scrolllock = led_scrolllock
lock_led capslock = led_capslock

abbrev pub mark_set : Lock → Decoder → Decoder
mark_set numlock d = record d { numlock_was_set = true }
mark_set scrolllock d = record d { scrolllock_was_set = true }
mark_set capslock d = record d { capslock_was_set = true }

-- No key of a lock is held.
pub record NoneHeld (d : Decoder) : Type 0 where
  pub numlock : d.numlock_was_set ≡ false
  pub scrolllock : d.scrolllock_was_set ≡ false
  pub capslock : d.capslock_was_set ≡ false

handler-ack :
    (set : ScancodeSet) (d : Decoder) → handler_of set (reset d) res_ack ≡ acknowledge (reset d)
unfolding handle_scancode_set1 handle_scancode_set2 print_screen_pressed1 print_screen_released1
    pause1 preprocess1 print_screen_pressed2 print_screen_released2 pause2 preprocess2
handler-ack first d = refl
handler-ack second d = refl

handler-resend :
    (set : ScancodeSet) (d : Decoder) → handler_of set (reset d) res_resend ≡ resend (reset d)
unfolding handle_scancode_set1 handle_scancode_set2 print_screen_pressed1 print_screen_released1
    pause1 preprocess1 print_screen_pressed2 print_screen_released2 pause2 preprocess2
handler-resend first d = refl
handler-resend second d = refl

handler-lock :
    (set : ScancodeSet) (lock : Lock) (d : Decoder)
    → handler_of set (reset d) (lock_code set lock) ≡ handle_keycode (reset d) (lock_key lock)
unfolding handle_scancode_set1 handle_scancode_set2 print_screen_pressed1 print_screen_released1
    pause1 preprocess1 convert1 print_screen_pressed2 print_screen_released2 pause2 preprocess2
    convert2 get_keycode_set1 get_keycode_set2 switch
handler-lock first numlock d = refl
handler-lock first scrolllock d = refl
handler-lock first capslock d = refl
handler-lock second numlock d = refl
handler-lock second scrolllock d = refl
handler-lock second capslock d = refl

-- The state while the byte of a place of the sequence waits for its ACK.
abbrev awaiting : Lock → ℕ → ℕ → Decoder → Decoder
awaiting lock place resends d = reset (record (mark_set lock d) {
  wanted_leds = bit_xor d.leds (lock_led lock);
  led_sequence = place;
  resend_count = resends;
})

abbrev byte_at : Lock → ℕ → Decoder → ℕ
byte_at lock place d = if place == 1 then cmd_set_led else bit_xor d.leds (lock_led lock)

lock-pressed :
    (set : ScancodeSet) (lock : Lock) (d : Decoder)
    → NoneHeld d
    → handler_of set (reset d) (lock_code set lock)
      ≡ (sent cmd_set_led ∷ [], awaiting lock 1 d.resend_count d)
unfolding handle_keycode cycle_led_sequence
lock-pressed set numlock d none = rw (handler-lock set numlock d, none.numlock) refl
lock-pressed set scrolllock d none = rw (handler-lock set scrolllock d, none.scrolllock) refl
lock-pressed set capslock d none = rw (handler-lock set capslock d, none.capslock) refl

resent :
    (set : ScancodeSet) (lock : Lock) (place resends : ℕ) (d : Decoder)
    → (place ≡ 1) ⊎ (place ≡ 2)
    → resends + 1 < 3
    → handler_of set (awaiting lock place resends d) res_resend
      ≡ (sent (byte_at lock place d) ∷ [], awaiting lock place (resends + 1) d)
unfolding resend cycle_led_sequence
resent set lock place resends d inside few =
    handler-resend set (awaiting lock place resends d) ∙ ground arith

-- Each RESEND repeats the byte.
all_resent :
    (set : ScancodeSet) (lock : Lock) (place resends n : ℕ) (d : Decoder)
    → (place ≡ 1) ⊎ (place ≡ 2)
    → resends + n < 3
    → decode (handler_of set) (awaiting lock place resends d) (replicate n res_resend)
      ≡ (replicate n (sent (byte_at lock place d)), awaiting lock place (resends + n) d)
unfolding decode
all_resent set lock place resends zero d inside few =
    ap (λ m. ([], awaiting lock place m d)) (omega arith)
all_resent set lock place resends (suc n) d inside few =
    rw (resent set lock place resends d inside (omega arith)) (
      ap (λ r. (sent (byte_at lock place d) ∷ r.0, r.1))
        (all_resent set lock place (resends + 1) n d inside (omega arith)
          ∙ ap (λ m. (replicate n (sent (byte_at lock place d)), awaiting lock place m d))
              (omega arith)))

-- The state when the LEDs are switched.
abbrev pub switched : Lock → ℕ → Decoder → Decoder
switched lock resends d = reset (record (mark_set lock d) {
  wanted_leds = bit_xor d.leds (lock_led lock);
  leds = bit_xor d.leds (lock_led lock);
  led_sequence = 0;
  resend_count = resends;
})

first_ack :
    (set : ScancodeSet) (lock : Lock) (resends : ℕ) (d : Decoder)
    → handler_of set (awaiting lock 1 resends d) res_ack
      ≡ (sent (bit_xor d.leds (lock_led lock)) ∷ [], awaiting lock 2 resends d)
unfolding acknowledge cycle_led_sequence
first_ack set lock resends d = handler-ack set (awaiting lock 1 resends d)

second_ack :
    (set : ScancodeSet) (lock : Lock) (resends : ℕ) (d : Decoder)
    → NoneHeld d
    → handler_of set (awaiting lock 2 resends d) res_ack
      ≡ (notified (press (lock_key lock)) ∷ [], switched lock resends d)
unfolding acknowledge cycle_led_sequence
second_ack set numlock resends d none =
    handler-ack set (awaiting numlock 2 resends d) ∙ rw (none.scrolllock, none.capslock) refl
second_ack set scrolllock resends d none =
    handler-ack set (awaiting scrolllock 2 resends d) ∙ rw (none.numlock, none.capslock) refl
second_ack set capslock resends d none =
    handler-ack set (awaiting capslock 2 resends d) ∙ rw (none.numlock, none.scrolllock) refl

decode-cons :
    (set : ScancodeSet) (d d' : Decoder) (effects : List Effect) (x : ℕ) (xs : List ℕ)
    → handler_of set d x ≡ (effects, d')
    → decode (handler_of set) d (x ∷ xs)
      ≡ (effects ++ (decode (handler_of set) d' xs).0, (decode (handler_of set) d' xs).1)
unfolding decode
decode-cons set d d' effects x xs e =
    ap (λ r. (r.0 ++ (decode (handler_of set) r.1 xs).0, (decode (handler_of set) r.1 xs).1)) e

decode-then :
    (set : ScancodeSet) (d d' : Decoder) (effects : List Effect) (xs ys : List ℕ)
    → decode (handler_of set) d xs ≡ (effects, d')
    → decode (handler_of set) d (xs ++ ys)
      ≡ (effects ++ (decode (handler_of set) d' ys).0, (decode (handler_of set) d' ys).1)
decode-then set d d' effects xs ys e =
    decode-append (handler_of set) d xs ys
    ∙ ap (λ r. (r.0 ++ (decode (handler_of set) r.1 ys).0, (decode (handler_of set) r.1 ys).1)) e

-- A lock key is pressed while none is held, in either scancode set, and the keyboard answers each of the
-- two bytes it is sent with RESEND any number of times (fewer than three in all, with those counted
-- before) and then with ACK. Then the command is sent, repeated for each RESEND, and the new LEDs
-- likewise; after the second ACK the driver has these LEDs, and reports the key as pressed.
pub decode-lock_pressed :
    (set : ScancodeSet) (lock : Lock) (m n : ℕ) (d : Decoder)
    → NoneHeld d
    → d.resend_count + m + n < 3
    → decode (handler_of set) (reset d) (
        lock_code set lock
        ∷ (replicate m res_resend ++ res_ack ∷ (replicate n res_resend ++ res_ack ∷ [])))
      ≡ (
        sent cmd_set_led
            ∷ (replicate m (sent cmd_set_led)
                ++ sent (bit_xor d.leds (lock_led lock))
                  ∷ (replicate n (sent (bit_xor d.leds (lock_led lock)))
                      ++ notified (press (lock_key lock)) ∷ [])),
        switched lock (d.resend_count + m + n) d,
      )
unfolding decode
decode-lock_pressed set lock m n d none few =
    decode-cons set _ _ _ _ _ (lock-pressed set lock d none)
    ∙ ap (after (sent cmd_set_led ∷ [])) (
        decode-then set _ _ _ _ _
          (all_resent set lock 1 d.resend_count m d (inl refl) (omega arith))
        ∙ ap (after (replicate m (sent cmd_set_led))) (
            decode-cons set _ _ _ _ _ (first_ack set lock (d.resend_count + m) d)
            ∙ ap (after (sent (bit_xor d.leds (lock_led lock)) ∷ [])) (
                decode-then set _ _ _ _ _
                  (all_resent set lock 2 (d.resend_count + m) n d (inr refl) (omega arith))
                ∙ ap (after (replicate n (sent (bit_xor d.leds (lock_led lock))))) (
                    decode-cons set _ _ _ _ []
                      (second_ack set lock (d.resend_count + m + n) d none)))))
  where
    after : List Effect → List Effect × Decoder → List Effect × Decoder
    after effects r = (effects ++ r.0, r.1)
