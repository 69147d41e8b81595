-- ===== src/Ps2/Decoding2.antt =====
-- The second scancode handler reports what was done with the keys. It does not reset its state after
-- print screen is pressed.
use mug_os.Base.{
  ℕ, ◌<◌, ◌≢◌, ◌≡◌, ◌⊎◌, refl, ap, ◌∙◌, arith, Bool, true, false, not, ◌&&◌, List, [], ◌∷◌, ◌++◌,
  ◌==◌, if◌then◌else◌,
}
use mug_os.Scancodes.Set2.{get_keycode_set2, get_keycode_escaped_set2}
use mug_os.Ps2.Decoder.{notified, Decoder, reset, decode}
use mug_os.Keyboard.{press, release}
use mug_os.Ps2.Set2.{
  print_screen_pressed2, print_screen_released2, pause2, preprocess2, handle_scancode_set2,
}
use mug_os.Ps2.Strokes.{
  Stroke, make, break, make_escaped, break_escaped, make_shifted, make_print_screen,
  break_print_screen, make_pause, make_sys_rq, is_plain_key, effect_of, is_known, all_known,
  effects_of, scancodes2, all_scancodes, decode-append,
}
use mug_os.Ps2.Codes2.{
  get_keycode_set2-IsOrdinary, get_keycode_escaped_set2-IsOrdinary, escaped-codes,
  preprocess2-plain, preprocess2-escaped,
}

-- The states between two strokes: `waiting` tells whether the last was that of print screen pressed.
abbrev between : Bool → Decoder → Decoder
between waiting d = record (reset d) { print_screen_sequence_released = if waiting then 1 else 0 }

abbrev starts_print_screen : Stroke → Bool
starts_print_screen make_print_screen = true
starts_print_screen s = false

-- A scancode that stops the sequence of print screen released goes to the special cases.
handle_scancode_set2-stop :
    (d : Decoder) (break_seen : Bool) (progress c : ℕ)
    → progress < 3
    → c < 0xe0
    → (progress ≢ 2) ⊎ (c ≢ 0x7c)
    → handle_scancode_set2
        (record (reset d) { released = break_seen; print_screen_sequence_released = progress })
        c
      ≡ preprocess2 (record (reset d) { released = break_seen }) c
unfolding handle_scancode_set2 print_screen_pressed2 print_screen_released2 pause2
handle_scancode_set2-stop d break_seen progress c small below other = ground arith

abbrev escaped : Decoder → Decoder
escaped d = record (reset d) { escaped_state = true }

handle_scancode_set2-escaped :
    (d : Decoder) (c : ℕ)
    → c < 0xe0
    → c ≢ 0x12
    → handle_scancode_set2
        (record (reset d) {
          escaped_state = true;
          print_screen_sequence_pressed = 1;
          print_screen_sequence_released = 1;
        })
        c
      ≡ preprocess2 (escaped d) c
unfolding handle_scancode_set2 print_screen_pressed2 print_screen_released2 pause2
handle_scancode_set2-escaped d c below shift_code = ground arith

handle_scancode_set2-escaped_break :
    (d : Decoder) (c : ℕ)
    → c ≢ 0x7c
    → handle_scancode_set2
        (record (reset d) {
          escaped_state = true;
          released = true;
          print_screen_sequence_released = 2;
        })
        c
      ≡ preprocess2 (record (escaped d) { released = true }) c
unfolding handle_scancode_set2 print_screen_pressed2 print_screen_released2 pause2
handle_scancode_set2-escaped_break d c screen = ground arith

handle_scancode_set2-shifted :
    (d : Decoder) (c : ℕ)
    → c < 0xe0
    → c ≢ 0x7c
    → handle_scancode_set2
        (record (reset d) { print_screen_sequence_pressed = 3; print_screen_sequence_released = 1 })
        c
      ≡ preprocess2 (escaped d) c
unfolding handle_scancode_set2 print_screen_pressed2 print_screen_released2 pause2
handle_scancode_set2-shifted d c below asterisk = ground arith

-- The asterisk of the numpad is not released directly after print screen is pressed.
abbrev pub is_separate : Bool → Stroke → Bool
is_separate waiting (break c) = not (waiting && (c == 0x7c))
is_separate waiting s = true

-- The keys with a prefix: the first scancode 0xe0 leaves the same state in both cases.
escaped_lem :
    (d : Decoder) (c : ℕ)
    → is_plain_key (get_keycode_escaped_set2 c) ≡ true
    → decode handle_scancode_set2 (reset d) (0xe0 ∷ c ∷ [])
      ≡ (notified (press (get_keycode_escaped_set2 c)) ∷ [], reset d)
unfolding decode handle_scancode_set2 print_screen_pressed2 print_screen_released2 pause2
    preprocess2
escaped_lem d c h =
    ap (λ r. (r.0 ++ [], r.1))
      (handle_scancode_set2-escaped d c (get_keycode_escaped_set2-IsOrdinary c h).below
          (escaped-codes c h).0
        ∙ preprocess2-escaped (escaped d) c refl h)

escaped_break_lem :
    (d : Decoder) (c : ℕ)
    → is_plain_key (get_keycode_escaped_set2 c) ≡ true
    → decode handle_scancode_set2 (reset d) (0xe0 ∷ 0xf0 ∷ c ∷ [])
      ≡ (notified (release (get_keycode_escaped_set2 c)) ∷ [], reset d)
unfolding decode handle_scancode_set2 print_screen_pressed2 print_screen_released2 pause2
    preprocess2
escaped_break_lem d c h =
    ap (λ r. (r.0 ++ [], r.1))
      (handle_scancode_set2-escaped_break d c (escaped-codes c h).1
        ∙ preprocess2-escaped (record (escaped d) { released = true }) c refl h)

shifted_lem :
    (d : Decoder) (c : ℕ)
    → is_plain_key (get_keycode_escaped_set2 c) ≡ true
    → decode handle_scancode_set2 (reset d) (0xe0 ∷ 0x12 ∷ 0xe0 ∷ c ∷ [])
      ≡ (notified (press (get_keycode_escaped_set2 c)) ∷ [], reset d)
unfolding decode handle_scancode_set2 print_screen_pressed2 print_screen_released2 pause2
    preprocess2
shifted_lem d c h =
    ap (λ r. (r.0 ++ [], r.1))
      (handle_scancode_set2-shifted d c (get_keycode_escaped_set2-IsOrdinary c h).below
          (escaped-codes c h).1
        ∙ preprocess2-escaped (escaped d) c refl h)

stroke2_lem :
    (waiting : Bool) (d : Decoder) (s : Stroke)
    → is_known get_keycode_set2 get_keycode_escaped_set2 s ≡ true
    → is_separate waiting s ≡ true
    → decode handle_scancode_set2 (between waiting d) (scancodes2 s) ≡ (
      effect_of get_keycode_set2 get_keycode_escaped_set2 s ∷ [],
      between (starts_print_screen s) d,
    )
unfolding decode handle_scancode_set2 print_screen_pressed2 print_screen_released2 pause2
    preprocess2
stroke2_lem waiting d (make c) h apart =
    ap (λ r. (r.0 ++ [], r.1))
      (handle_scancode_set2-stop d false (if waiting then 1 else 0) c (ground arith)
          (get_keycode_set2-IsOrdinary c h).below (ground arith)
        ∙ preprocess2-plain (reset d) c refl h)
stroke2_lem true d (break c) h apart =
    ap (λ r. (r.0 ++ [], r.1))
      (handle_scancode_set2-stop d true 2 c (omega arith) (get_keycode_set2-IsOrdinary c h).below
          (ground arith)
        ∙ preprocess2-plain (record (reset d) { released = true }) c refl h)
stroke2_lem false d (break c) h apart =
    ap (λ r. (r.0 ++ [], r.1))
      (handle_scancode_set2-stop d true 0 c (omega arith) (get_keycode_set2-IsOrdinary c h).below
          (ground arith)
        ∙ preprocess2-plain (record (reset d) { released = true }) c refl h)
stroke2_lem true d (make_escaped c) h apart = escaped_lem d c h
stroke2_lem false d (make_escaped c) h apart = escaped_lem d c h
stroke2_lem true d (break_escaped c) h apart = escaped_break_lem d c h
stroke2_lem false d (break_escaped c) h apart = escaped_break_lem d c h
stroke2_lem true d (make_shifted c) h apart = shifted_lem d c h
stroke2_lem false d (make_shifted c) h apart = shifted_lem d c h
stroke2_lem true d make_print_screen h apart = refl
stroke2_lem false d make_print_screen h apart = refl
stroke2_lem true d break_print_screen h apart = refl
stroke2_lem false d break_print_screen h apart = refl
stroke2_lem true d make_pause h apart = refl
stroke2_lem false d make_pause h apart = refl
stroke2_lem true d make_sys_rq h apart = refl
stroke2_lem false d make_sys_rq h apart = refl

-- No stroke of the sequence that releases the asterisk directly follows print screen pressed.
abbrev pub all_separate : Bool → List Stroke → Bool
all_separate waiting [] = true
all_separate waiting (s ∷ ss) = is_separate waiting s && all_separate (starts_print_screen s) ss

abbrev last_waiting : Bool → List Stroke → Bool
last_waiting waiting [] = waiting
last_waiting waiting (s ∷ ss) = last_waiting (starts_print_screen s) ss

strokes2_lem :
    (waiting : Bool) (d : Decoder) (strokes : List Stroke)
    → all_known get_keycode_set2 get_keycode_escaped_set2 strokes ≡ true
    → all_separate waiting strokes ≡ true
    → decode handle_scancode_set2 (between waiting d) (all_scancodes scancodes2 strokes) ≡ (
      effects_of get_keycode_set2 get_keycode_escaped_set2 strokes,
      between (last_waiting waiting strokes) d,
    )
unfolding decode
strokes2_lem waiting d [] h apart = refl
strokes2_lem waiting d (s ∷ ss) h apart =
    decode-append handle_scancode_set2 (between waiting d) (scancodes2 s)
      (all_scancodes scancodes2 ss)
    ∙ rw
        (
          stroke2_lem waiting d s (ground arith) (ground arith),
          strokes2_lem (starts_print_screen s) d ss (ground arith) (ground arith),
        )
        refl

-- From the state that `reset_state` leaves, any sequence of strokes whose codes stand in the tables of
-- set 2 for plain keys, and in which the asterisk of the numpad (0x7c) is not released directly after
-- print screen is pressed, is decoded from its scancodes: exactly its events are notified, in order.
pub decode-scancodes2 :
    (d : Decoder) (strokes : List Stroke)
    → all_known get_keycode_set2 get_keycode_escaped_set2 strokes ≡ true
    → all_separate false strokes ≡ true
    → (decode handle_scancode_set2 (reset d) (all_scancodes scancodes2 strokes)).0
      ≡ effects_of get_keycode_set2 get_keycode_escaped_set2 strokes
decode-scancodes2 d strokes h apart = ap (λ r. r.0) (strokes2_lem false d strokes h apart)

lost_asterisk_lem :
    (waiting : Bool) (d : Decoder) (strokes : List Stroke)
    → all_known get_keycode_set2 get_keycode_escaped_set2 strokes ≡ true
    → all_separate waiting strokes ≡ true
    → (decode handle_scancode_set2
        (between waiting d)
        (all_scancodes scancodes2 (strokes ++ make_print_screen ∷ break 0x7c ∷ []))).0
      ≡ effects_of get_keycode_set2 get_keycode_escaped_set2 (strokes ++ make_print_screen ∷ [])
unfolding decode handle_scancode_set2 print_screen_pressed2 print_screen_released2 pause2
    preprocess2
lost_asterisk_lem true d [] h apart = refl
lost_asterisk_lem false d [] h apart = refl
lost_asterisk_lem waiting d (s ∷ ss) h apart =
    let rest = all_scancodes scancodes2 (ss ++ make_print_screen ∷ break 0x7c ∷ []) in
    ap (λ r. r.0) (decode-append handle_scancode_set2 (between waiting d) (scancodes2 s) rest)
    ∙ ap (λ r. r.0 ++ (decode handle_scancode_set2 r.1 rest).0)
        (stroke2_lem waiting d s (ground arith) (ground arith))
    ∙ ap (λ l. effect_of get_keycode_set2 get_keycode_escaped_set2 s ∷ l)
        (lost_asterisk_lem (starts_print_screen s) d ss (ground arith) (ground arith))

-- After any such sequence, print screen pressed and then the asterisk of the numpad released notify
-- print screen only: the release of the asterisk is lost.
pub decode-lost_asterisk :
    (d : Decoder) (strokes : List Stroke)
    → all_known get_keycode_set2 get_keycode_escaped_set2 strokes ≡ true
    → all_separate false strokes ≡ true
    → (decode handle_scancode_set2
        (reset d)
        (all_scancodes scancodes2 (strokes ++ make_print_screen ∷ break 0x7c ∷ []))).0
      ≡ effects_of get_keycode_set2 get_keycode_escaped_set2 (strokes ++ make_print_screen ∷ [])
decode-lost_asterisk d strokes h apart = lost_asterisk_lem false d strokes h apart
