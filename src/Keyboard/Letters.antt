-- ===== src/Keyboard/Letters.antt =====
-- The letters of the AZERTY layout under Shift and CapsLock.
use mug_os.Base.{
  ℕ, ◌-◌, ◌≤◌, ◌≡◌, refl, arith, Bool, true, false, not, ◌&&◌, ◌||◌, List, [], ◌∷◌, leb, ltb, ◌==◌,
  if◌then◌else◌, switch, Bool-cases, inl, inr,
}
use mug_os.Base.Bits.{holds_below, holds_below_sound}
use mug_os.Keyboard.{Keyboard, get_char_azerty, shift_pressed}
use mug_os.Layout.Plain.{no_modifier}
use mug_os.Layout.CapsLock.{caps_lock}
use mug_os.Layout.Shift.{shift}

-- A switch has no case from a bound on.
cases_below : ℕ → List (ℕ × ℕ) → Bool
cases_below bound [] = true
cases_below bound ((case, value) ∷ cases) = ltb case bound && cases_below bound cases

switch-above :
    (k bound : ℕ) (cases : List (ℕ × ℕ))
    → bound ≤ k
    → cases_below bound cases ≡ true
    → switch k 0 cases ≡ 0
unfolding switch cases_below
switch-above k bound [] h below = refl
switch-above k bound ((case, value) ∷ cases) h below = ground (arith, switch-above k bound cases h)

no_modifier-above : (k : ℕ) → 256 ≤ k → no_modifier k ≡ 0
unfolding no_modifier cases_below
no_modifier-above k h = switch-above k 256 _ h refl

-- A key is a letter if it is one of a to z without modifiers.
abbrev pub is_letter : ℕ → Bool
is_letter k = leb 97 (no_modifier k) && leb (no_modifier k) 122

abbrev cases_match : ℕ → Bool
cases_match k =
    if is_letter k
    then (shift k == no_modifier k - 32) && (caps_lock k == no_modifier k - 32)
    else true

cases_match_below : holds_below cases_match 256 ≡ true
unfolding holds_below no_modifier shift caps_lock switch
cases_match_below = refl

cases_match_lem : (k : ℕ) → cases_match k ≡ true
cases_match_lem k = elim (Bool-cases (ltb k 256)) [
  | inl below ↦ holds_below_sound cases_match 256 k (ground arith) cases_match_below
  | inr above ↦ rw (no_modifier-above k (ground arith)) refl
]

-- A letter key without the right Alt key gives the upper case letter (32 below the lower case one) if
-- exactly one of Shift and CapsLock is on, and the lower case one if both or none are.
pub get_char_azerty-letter :
    (s : Keyboard) (k : ℕ)
    → is_letter k ≡ true
    → s.right_alt_pressed ≡ false
    → get_char_azerty s k ≡ (
        if (shift_pressed s && not s.capslock_on) || (s.capslock_on && not (shift_pressed s))
        then no_modifier k - 32
        else no_modifier k)
unfolding get_char_azerty
get_char_azerty-letter s k letter plain = ground (arith, cases_match_lem k)
