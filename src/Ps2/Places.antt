-- ===== src/Ps2/Places.antt =====
-- The places in the sequences stay within them, so no counter overflows and no `default` case is taken.
use mug_os.Base.{
  ℕ, ◌-◌, Bool-cases, inl, inr, ◌≡◌, arith, Bool, true, ◌&&◌, List, [], ◌∷◌, leb, ◌==◌,
  if◌then◌else◌,
}
use mug_os.Keycodes.{key_ignore}
use mug_os.Scancodes.Set1.{get_keycode_set1, get_keycode_escaped_set1}
use mug_os.Scancodes.Set2.{get_keycode_set2, get_keycode_escaped_set2}
use mug_os.Ps2.Decoder.{
  Effect, Decoder, Check, done, onward, and_then, reset, decode, cycle_led_sequence, acknowledge,
  resend, handle_keycode,
}
use mug_os.Ps2.Set1.{
  print_screen_pressed1, print_screen_released1, pause1, convert1, preprocess1,
  handle_scancode_set1,
}
use mug_os.Ps2.Set2.{
  print_screen_pressed2, print_screen_released2, pause2, convert2, preprocess2,
  handle_scancode_set2,
}

-- The last places of the two sequences that differ between the sets are parameters.
abbrev pub in_places : ℕ → ℕ → Decoder → Bool
in_places last_released last_pause d =
    leb d.print_screen_sequence_pressed 3
    && leb d.print_screen_sequence_released last_released
    && leb d.pause_sequence last_pause
    && leb d.led_sequence 2
    && leb d.resend_count 2

abbrev state_after : Check → Decoder
state_after (done effects d) = d
state_after (onward d) = d

module _ (last_released last_pause : ℕ) where
  Keeps : (Decoder → Decoder) → Type 0
  Keeps f =
      (d : Decoder)
      → in_places last_released last_pause d ≡ true
      → in_places last_released last_pause (f d) ≡ true

  acknowledge-places : Keeps (λ d. (acknowledge d).1)
  unfolding Keeps acknowledge cycle_led_sequence
  acknowledge-places d h = ground arith

  resend-places : Keeps (λ d. (resend d).1)
  unfolding Keeps resend cycle_led_sequence
  resend-places d h = ground arith

  handle_keycode-places : (k : ℕ) → Keeps (λ d. (handle_keycode d k).1)
  unfolding Keeps handle_keycode cycle_led_sequence
  handle_keycode-places k d h = ground arith

  and_then-places :
      (c : Check) (k : Decoder → List Effect × Decoder)
      → in_places last_released last_pause (state_after c) ≡ true
      → Keeps (λ d. (k d).1)
      → in_places last_released last_pause (and_then c k).1 ≡ true
  unfolding Keeps
  and_then-places (done effects d) k h all = h
  and_then-places (onward d) k h all = all d h

  decode-places :
      (handler : Decoder → ℕ → List Effect × Decoder) (d : Decoder) (scancodes : List ℕ)
      → ((c : ℕ) → Keeps (λ d. (handler d c).1))
      → in_places last_released last_pause d ≡ true
      → in_places last_released last_pause (decode handler d scancodes).1 ≡ true
  unfolding Keeps decode
  decode-places handler d [] step h = h
  decode-places handler d (c ∷ cs) step h =
      decode-places handler (handler d c).1 cs step (step c d h)

print_screen_pressed1-places : (c : ℕ) → Keeps 3 5 (λ d. state_after (print_screen_pressed1 d c))
unfolding Keeps print_screen_pressed1
print_screen_pressed1-places c d h = ground arith

print_screen_released1-places : (c : ℕ) → Keeps 3 5 (λ d. state_after (print_screen_released1 d c))
unfolding Keeps print_screen_released1
print_screen_released1-places c d h = ground arith

pause1-places : (c : ℕ) → Keeps 3 5 (λ d. state_after (pause1 d c))
unfolding Keeps pause1
pause1-places c d h = ground arith

print_screen_pressed2-places : (c : ℕ) → Keeps 5 7 (λ d. state_after (print_screen_pressed2 d c))
unfolding Keeps print_screen_pressed2
print_screen_pressed2-places c d h = ground arith

print_screen_released2-places : (c : ℕ) → Keeps 5 7 (λ d. state_after (print_screen_released2 d c))
unfolding Keeps print_screen_released2
print_screen_released2-places c d h = ground arith

pause2-places : (c : ℕ) → Keeps 5 7 (λ d. state_after (pause2 d c))
unfolding Keeps pause2
pause2-places c d h = ground arith

convert1-places : (c : ℕ) → Keeps 3 5 (λ d. (convert1 d c).1)
unfolding Keeps convert1
convert1-places c d h = by_key (key d)
  where
    key : Decoder → ℕ
    key d = if d.escaped_state then get_keycode_escaped_set1 c else get_keycode_set1 c

    by_key :
        (k : ℕ)
        → in_places 3 5 (if k == key_ignore then ([], reset d) else handle_keycode d k).1 ≡ true
    by_key k = elim (Bool-cases (k == key_ignore)) [
      | inl ignored ↦ rw ignored (ground arith)
      | inr other ↦ rw other (handle_keycode-places 3 5 k d h)
    ]

convert2-places : (c : ℕ) → Keeps 5 7 (λ d. (convert2 d c).1)
unfolding Keeps convert2
convert2-places c d h =
    handle_keycode-places 5 7
      (if d.escaped_state then get_keycode_escaped_set2 c else get_keycode_set2 c) d h

preprocess1-places : (c : ℕ) → Keeps 3 5 (λ d. (preprocess1 d c).1)
unfolding Keeps preprocess1
preprocess1-places c d h = ground (
  arith,
  acknowledge-places 3 5 d h,
  resend-places 3 5 d h,
  convert1-places c d h,
  convert1-places (c - 0x80) (record d { released = true }) h,
)

preprocess2-places : (c : ℕ) → Keeps 5 7 (λ d. (preprocess2 d c).1)
unfolding Keeps preprocess2
preprocess2-places c d h =
    ground (arith, acknowledge-places 5 7 d h, resend-places 5 7 d h, convert2-places c d h)

handle_scancode_set1-places : (c : ℕ) → Keeps 3 5 (λ d. (handle_scancode_set1 d c).1)
unfolding Keeps handle_scancode_set1
handle_scancode_set1-places c d h =
    and_then-places 3 5 (print_screen_pressed1 d c) _ (print_screen_pressed1-places c d h) (λ d h.
      and_then-places 3 5 (print_screen_released1 d c) _ (print_screen_released1-places c d h)
        (λ d h. and_then-places 3 5 (pause1 d c) _ (pause1-places c d h) (preprocess1-places c)))

handle_scancode_set2-places : (c : ℕ) → Keeps 5 7 (λ d. (handle_scancode_set2 d c).1)
unfolding Keeps handle_scancode_set2
handle_scancode_set2-places c d h =
    and_then-places 5 7 (print_screen_pressed2 d c) _ (print_screen_pressed2-places c d h) (λ d h.
      and_then-places 5 7 (print_screen_released2 d c) _ (print_screen_released2-places c d h)
        (λ d h. and_then-places 5 7 (pause2 d c) _ (pause2-places c d h) (preprocess2-places c)))

-- Whatever the scancodes, each handler keeps the places of its sequences within the sequences: from
-- places up to 3 in print screen pressed, 3 (in set 2: 5) in print screen released, 5 (7) in pause, 2 in
-- the LED sequence, and 2 resends counted, any sequence of scancodes leads to such places again.
pub decode-in_places :
    (d1 d2 : Decoder) (scancodes : List ℕ)
    → in_places 3 5 d1 ≡ true
    → in_places 5 7 d2 ≡ true
    → (in_places 3 5 (decode handle_scancode_set1 d1 scancodes).1 ≡ true)
      × (in_places 5 7 (decode handle_scancode_set2 d2 scancodes).1 ≡ true)
decode-in_places d1 d2 cs h1 h2 = (
  decode-places 3 5 handle_scancode_set1 d1 cs handle_scancode_set1-places h1,
  decode-places 5 7 handle_scancode_set2 d2 cs handle_scancode_set2-places h2,
)
