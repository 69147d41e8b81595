-- ===== src/Time.antt =====
-- Kernel/Time/Time.c: the multiplier and the shift that convert timer ticks to nanoseconds, and back, and
-- the delays.
pub mod Conversion
pub mod Delays
pub mod Timers
mod Tests
use mug_os.Base.{
  ℕ, zero, suc, ◌+◌, ◌-◌, ◌*◌, ◌/◌, ◌%◌, ◌^◌, Option, none, some, true, false, ◌==◌, if◌then◌else◌,
  add64, sub64, u64_mod, bit_and, ltb,
}

-- The while loop of `computeConversion`; `temp_mult` has at most 32 digits, so 32 rounds are enough.
unfoldable pub accuracy_loop : ℕ → ℕ → ℕ → Option ℕ
accuracy_loop zero temp_mult shift_accuracy = if temp_mult == 0 then some shift_accuracy else none
accuracy_loop (suc fuel) temp_mult shift_accuracy = elim (temp_mult == 0) [
  | true ↦ some shift_accuracy
  | false ↦ accuracy_loop fuel (temp_mult / 2) (shift_accuracy - 1)
]

-- `temp_mult` in a round of its for loop.
abbrev pub mult_at : ℕ → ℕ → ℕ → ℕ
mult_at from to temp_shift = add64 (to * 2 ^ temp_shift % u64_mod) (from / 2) / from

-- The for loop, from `temp_shift` down: `temp_mult` and `temp_shift` as it leaves them.
unfoldable pub shift_loop : ℕ → ℕ → ℕ → ℕ → ℕ → ℕ × ℕ
shift_loop from to shift_accuracy zero temp_mult = (temp_mult, 0)
shift_loop from to shift_accuracy (suc s) temp_mult =
    elim (mult_at from to (suc s) / 2 ^ shift_accuracy == 0) [
      | true ↦ (mult_at from to (suc s), suc s)
      | false ↦ shift_loop from to shift_accuracy s (mult_at from to (suc s))
    ]

-- `computeConversion`: what it writes to mult and to shift, which are of 32 bits.
unfoldable pub compute_conversion : ℕ → ℕ → ℕ → Option (ℕ × ℕ)
compute_conversion from to max_sec =
    elim (accuracy_loop 32 (max_sec * from % u64_mod / 2 ^ 32) 32) [
      | none ↦ none
      | some shift_accuracy ↦
          let (temp_mult, temp_shift) = shift_loop from to shift_accuracy 32 0 in
          some (temp_mult % 2 ^ 32, temp_shift)
    ]

-- `ticksToNs`, for the mult and the shift of a timer.
unfoldable pub ticks_to_ns : ℕ → ℕ → ℕ → ℕ
ticks_to_ns mult shift ticks = mult * ticks % u64_mod / 2 ^ shift

-- The loop of `delayTicks`, on fuel, with the timer's readings numbered from 0: the number of the reading
-- at which it ends.
unfoldable pub delay_loop : ℕ → (ℕ → ℕ) → ℕ → ℕ → ℕ → ℕ → Option ℕ
delay_loop zero read mask t0 ticks i = none
delay_loop (suc fuel) read mask t0 ticks i = elim (ltb (bit_and (sub64 (read i) t0) mask) ticks) [
  | false ↦ some i
  | true ↦ delay_loop fuel read mask t0 ticks (i + 1)
]

-- `delayTicks`; the reading 0 is taken before the loop.
unfoldable pub delay_ticks : ℕ → (ℕ → ℕ) → ℕ → ℕ → Option ℕ
delay_ticks fuel read mask ticks = delay_loop fuel read mask (read 0) ticks 1

-- The numbers of ticks of `mdelay`, `udelay` and `ndelay`, for a timer's frequency.
unfoldable pub mdelay_ticks : ℕ → ℕ → ℕ
mdelay_ticks frequency ms = add64 (frequency * ms % u64_mod) 999 / 1000

unfoldable pub udelay_ticks : ℕ → ℕ → ℕ
udelay_ticks frequency us = add64 (frequency * us % u64_mod) 999999 / 1000000

unfoldable pub ndelay_ticks : ℕ → ℕ → ℕ
ndelay_ticks frequency ns = add64 (frequency * ns % u64_mod) 999999999 / 1000000000
