-- ===== src/Keyboard/Slots.antt =====
-- The marks of the numpad's keys that were pressed as functions: a key's events change only its own.
use mug_os.Base.{
  ℕ, ◌<◌, ◌≡◌, ◌≢◌, ◌∙◌, refl, ap, sym, arith, Bool, true, false, not, ◌&&◌, List, [], ◌∷◌, ◌==◌,
  Bool-cases, Option-cases, inl, inr, Option, none, some, get_or, get_or-set_ne, switch,
}
use mug_os.Keycodes.{
  key_numpad_5, key_numpad_7, key_numpad_8, key_numpad_9, key_numpad_4, key_numpad_6, key_numpad_1,
  key_numpad_2, key_numpad_3, key_numpad_0, key_numpad_dot,
}
use mug_os.Keyboard.{
  Keyboard, KeypressMode, key_pressed, key_released, release_key, clear_modifiers, press_key,
  set_modifiers, translate_released, translate_pressed, notify_released, notify_pressed, KeyEvent,
  press, release, notify, notify_all, report,
}
use mug_os.Keycodes.Numpad.{is_numpad_key, numpad_slot}

-- The key of a slot.
abbrev pub slot_key : ℕ → ℕ
slot_key i = switch i 0 (
    (0, key_numpad_7)
    ∷ (1, key_numpad_8)
    ∷ (2, key_numpad_9)
    ∷ (3, key_numpad_4)
    ∷ (4, key_numpad_5)
    ∷ (5, key_numpad_6)
    ∷ (6, key_numpad_1)
    ∷ (7, key_numpad_2)
    ∷ (8, key_numpad_3)
    ∷ (9, key_numpad_0)
    ∷ (10, key_numpad_dot)
    ∷ [])

pub numpad_slot_lem :
    (k i : ℕ) → numpad_slot k ≡ some i → (i < 11) × (k ≡ slot_key i) × (is_numpad_key k ≡ true)
unfolding numpad_slot switch is_numpad_key
numpad_slot_lem k i h = ground arith

abbrev pub was_function : Keyboard → ℕ → Bool
was_function s i = get_or s.numlock_key_was_function i false

-- A key of the numpad changes no other key and no lock.
pub press_key-numpad : (s : Keyboard) (k : ℕ) → is_numpad_key k ≡ true → press_key s k ≡ s
unfolding press_key is_numpad_key switch
press_key-numpad s k h = ground arith

pub release_key-numpad : (s : Keyboard) (k : ℕ) → is_numpad_key k ≡ true → release_key s k ≡ s
unfolding release_key is_numpad_key switch
release_key-numpad s k h = ground arith

pub report-state : (mode : KeypressMode) (r : Option ℕ × Keyboard) → (report mode r).1 ≡ r.1
report-state mode (none, s) = refl
report-state mode (some k, s) = refl

-- Only a key's own case changes its slot.
pub numpad_slot_injective : (j k i : ℕ) → numpad_slot j ≡ some i → numpad_slot k ≡ some i → j ≡ k
numpad_slot_injective j k i a b = (numpad_slot_lem j i a).1 ∙ sym (numpad_slot_lem k i b).1

pub translate_pressed-slot :
    (s : Keyboard) (j k i : ℕ)
    → numpad_slot k ≡ some i
    → j ≢ k
    → was_function (translate_pressed s j).1 i ≡ was_function s i
unfolding translate_pressed
translate_pressed-slot s j k i slot ne = elim (Option-cases (numpad_slot j)) [
  | inl without ↦ rw (without, translate_pressed) (ground arith)
  | inr (l, has) ↦
      let other : l ≢ i = λ e. ne (numpad_slot_injective j k i (has ∙ ap some e) slot) in
      rw (has, translate_pressed)
        (ground (arith, get_or-set_ne s.numlock_key_was_function true false other))
]

pub translate_released-slot :
    (s : Keyboard) (j k i : ℕ)
    → numpad_slot k ≡ some i
    → j ≢ k
    → was_function (translate_released s j).1 i ≡ was_function s i
unfolding translate_released
translate_released-slot s j k i slot ne = elim (Bool-cases (is_numpad_key j)) [
  | inr plain ↦ rw (plain, translate_released) refl
  | inl numpad ↦
      rw (numpad, translate_released)
        (elim (Option-cases (numpad_slot j)) [
          | inl without ↦ rw (without, translate_released) refl
          | inr (l, has) ↦
              let other : l ≢ i = λ e. ne (numpad_slot_injective j k i (has ∙ ap some e) slot) in
              rw (has, translate_released)
                (ground (arith, get_or-set_ne s.numlock_key_was_function false false other))
        ])
]

-- Neither do the other steps.
pub press_key-slots :
    (s : Keyboard) (k : ℕ) → (press_key s k).numlock_key_was_function ≡ s.numlock_key_was_function
unfolding press_key
press_key-slots s k = ground arith

pub release_key-slots :
    (s : Keyboard) (k : ℕ) → (release_key s k).numlock_key_was_function ≡ s.numlock_key_was_function
unfolding release_key
release_key-slots s k = ground arith

-- The key an event is about.
abbrev pub key_of : KeyEvent → ℕ
key_of (press k) = k
key_of (release k) = k

pub notify-slot :
    (s : Keyboard) (e : KeyEvent) (k i : ℕ)
    → numpad_slot k ≡ some i
    → key_of e ≢ k
    → was_function (notify s e).1 i ≡ was_function s i
unfolding notify notify_pressed notify_released set_modifiers clear_modifiers
notify-slot s (press j) k i slot ne =
    ap (λ t. was_function t i)
      (report-state key_pressed (translate_pressed (set_modifiers (press_key s j)) j))
    ∙ translate_pressed-slot (set_modifiers (press_key s j)) j k i slot ne
    ∙ ap (λ w. get_or w i false) (press_key-slots s j)
notify-slot s (release j) k i slot ne =
    ap (λ t. was_function t i)
      (report-state key_released (translate_released (clear_modifiers (release_key s j)) j))
    ∙ translate_released-slot (clear_modifiers (release_key s j)) j k i slot ne
    ∙ ap (λ w. get_or w i false) (release_key-slots s j)

-- No event of the sequence is about the key.
abbrev pub spares : ℕ → List KeyEvent → Bool
spares k [] = true
spares k (e ∷ es) = not (key_of e == k) && spares k es

pub notify_all-slot :
    (s : Keyboard) (es : List KeyEvent) (k i : ℕ)
    → numpad_slot k ≡ some i
    → spares k es ≡ true
    → was_function (notify_all s es).1 i ≡ was_function s i
unfolding notify_all
notify_all-slot s [] k i slot h = refl
notify_all-slot s (e ∷ es) k i slot h =
    notify_all-slot (notify s e).1 es k i slot (ground arith)
    ∙ notify-slot s e k i slot (ground arith)
