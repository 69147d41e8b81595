-- ===== src/Ps2/Strokes.antt =====
-- What is done with the keys of a PS/2 keyboard, and the scancodes that it sends for it in both sets.
use mug_os.Base.{
  ℕ, ◌+◌, ◌≡◌, refl, ap, sym, ◌∙◌, arith, Bool, true, not, ◌&&◌, List, [], ◌∷◌, ◌++◌, ◌==◌,
}
use mathlib.Core.List.{append_assoc}
use mug_os.Keycodes.{
  key_reserved, key_numlock, key_scrolllock, key_capslock, key_ignore, key_printscreen, key_pause,
}
use mug_os.Keyboard.{press, release}
use mug_os.Ps2.Decoder.{Effect, notified, sys_rq, Decoder, handle_keycode, report, decode}

-- The scancode is that of a make code without prefix. `make_shifted` is with the Shift that
-- a keyboard pretends to press first.
pub data Stroke : Type 0 where
  make : ℕ → Stroke
  break : ℕ → Stroke
  make_escaped : ℕ → Stroke
  break_escaped : ℕ → Stroke
  make_shifted : ℕ → Stroke
  make_print_screen : Stroke
  break_print_screen : Stroke
  make_pause : Stroke
  make_sys_rq : Stroke

-- The keys that a handler reports at once: not those of the locks.
abbrev pub is_plain_key : ℕ → Bool
is_plain_key k =
    not (k == key_reserved)
    && not (k == key_numlock)
    && not (k == key_scrolllock)
    && not (k == key_capslock)
    && not (k == key_ignore)

pub handle_keycode-plain :
    (d : Decoder) (k : ℕ) → is_plain_key k ≡ true → handle_keycode d k ≡ report d k
unfolding handle_keycode
handle_keycode-plain d k h = ground arith

-- What is reported, with the two tables of a set.
abbrev pub effect_of : (ℕ → ℕ) → (ℕ → ℕ) → Stroke → Effect
effect_of key escaped_key (make c) = notified (press (key c))
effect_of key escaped_key (break c) = notified (release (key c))
effect_of key escaped_key (make_escaped c) = notified (press (escaped_key c))
effect_of key escaped_key (break_escaped c) = notified (release (escaped_key c))
effect_of key escaped_key (make_shifted c) = notified (press (escaped_key c))
effect_of key escaped_key make_print_screen = notified (press key_printscreen)
effect_of key escaped_key break_print_screen = notified (release key_printscreen)
effect_of key escaped_key make_pause = notified (press key_pause)
effect_of key escaped_key make_sys_rq = sys_rq

-- The scancodes stand in the tables.
abbrev pub is_known : (ℕ → ℕ) → (ℕ → ℕ) → Stroke → Bool
is_known key escaped_key (make c) = is_plain_key (key c)
is_known key escaped_key (break c) = is_plain_key (key c)
is_known key escaped_key (make_escaped c) = is_plain_key (escaped_key c)
is_known key escaped_key (break_escaped c) = is_plain_key (escaped_key c)
is_known key escaped_key (make_shifted c) = is_plain_key (escaped_key c)
is_known key escaped_key make_print_screen = true
is_known key escaped_key break_print_screen = true
is_known key escaped_key make_pause = true
is_known key escaped_key make_sys_rq = true

abbrev pub all_known : (ℕ → ℕ) → (ℕ → ℕ) → List Stroke → Bool
all_known key escaped_key [] = true
all_known key escaped_key (s ∷ ss) = is_known key escaped_key s && all_known key escaped_key ss

abbrev pub effects_of : (ℕ → ℕ) → (ℕ → ℕ) → List Stroke → List Effect
effects_of key escaped_key [] = []
effects_of key escaped_key (s ∷ ss) = effect_of key escaped_key s ∷ effects_of key escaped_key ss

-- The scancodes in set 1.
abbrev pub scancodes1 : Stroke → List ℕ
scancodes1 (make c) = c ∷ []
scancodes1 (break c) = (c + 0x80) ∷ []
scancodes1 (make_escaped c) = 0xe0 ∷ c ∷ []
scancodes1 (break_escaped c) = 0xe0 ∷ (c + 0x80) ∷ []
scancodes1 (make_shifted c) = 0xe0 ∷ 0x2a ∷ 0xe0 ∷ c ∷ []
scancodes1 make_print_screen = 0xe0 ∷ 0x2a ∷ 0xe0 ∷ 0x37 ∷ []
scancodes1 break_print_screen = 0xe0 ∷ 0xb7 ∷ 0xe0 ∷ 0xaa ∷ []
scancodes1 make_pause = 0xe1 ∷ 0x1d ∷ 0x45 ∷ 0xe1 ∷ 0x9d ∷ 0xc5 ∷ []
scancodes1 make_sys_rq = 0x54 ∷ 0xd4 ∷ []

-- The scancodes in set 2.
abbrev pub scancodes2 : Stroke → List ℕ
scancodes2 (make c) = c ∷ []
scancodes2 (break c) = 0xf0 ∷ c ∷ []
scancodes2 (make_escaped c) = 0xe0 ∷ c ∷ []
scancodes2 (break_escaped c) = 0xe0 ∷ 0xf0 ∷ c ∷ []
scancodes2 (make_shifted c) = 0xe0 ∷ 0x12 ∷ 0xe0 ∷ c ∷ []
scancodes2 make_print_screen = 0xe0 ∷ 0x12 ∷ 0xe0 ∷ 0x7c ∷ []
scancodes2 break_print_screen = 0xe0 ∷ 0xf0 ∷ 0x7c ∷ 0xe0 ∷ 0xf0 ∷ 0x12 ∷ []
scancodes2 make_pause = 0xe1 ∷ 0x14 ∷ 0x77 ∷ 0xe1 ∷ 0xf0 ∷ 0x14 ∷ 0xf0 ∷ 0x77 ∷ []
scancodes2 make_sys_rq = 0x84 ∷ []

abbrev pub all_scancodes : (Stroke → List ℕ) → List Stroke → List ℕ
all_scancodes scancodes [] = []
all_scancodes scancodes (s ∷ ss) = scancodes s ++ all_scancodes scancodes ss

pub decode-append :
    (handler : Decoder → ℕ → List Effect × Decoder) (d : Decoder) (xs ys : List ℕ)
    → decode handler d (xs ++ ys) ≡ (
      (decode handler d xs).0 ++ (decode handler (decode handler d xs).1 ys).0,
      (decode handler (decode handler d xs).1 ys).1,
    )
unfolding decode
decode-append handler d [] ys = refl
decode-append handler d (x ∷ xs) ys =
    let (effects, d') = handler d x in
    ap (λ r. (effects ++ r.0, r.1)) (decode-append handler d' xs ys)
    ∙ ap (λ l. (l, (decode handler (decode handler d' xs).1 ys).1))
        (sym (
          append_assoc effects (decode handler d' xs).0
            (decode handler (decode handler d' xs).1 ys).0))
