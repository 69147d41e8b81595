-- ===== src/Time/Delays.antt =====
-- The delays: they end at the first reading that is late enough, and are not shorter than asked.
use mug_os.Base.{
  ℕ, zero, suc, ◌+◌, ◌*◌, ◌^◌, ◌≤◌, ◌<◌, ◌≡◌, ◌∙◌, arith, true, false, some, ltb, sub64, bit_and,
}
use mug_os.Time.{delay_loop, delay_ticks, mdelay_ticks, udelay_ticks, ndelay_ticks}

-- The ticks of a timer with a mask since its reading 0.
abbrev pub elapsed : (ℕ → ℕ) → ℕ → ℕ → ℕ → ℕ
elapsed read mask t0 i = bit_and (sub64 (read i) t0) mask

delay_loop_lem :
    (fuel i n t0 mask ticks : ℕ) (read : ℕ → ℕ)
    → n < fuel
    → ((k : ℕ) → k < n → elapsed read mask t0 (i + k) < ticks)
    → ticks ≤ elapsed read mask t0 (i + n)
    → delay_loop fuel read mask t0 ticks i ≡ some (i + n)
unfolding delay_loop
delay_loop_lem zero i n t0 mask ticks read h early late = absurd (omega arith)
delay_loop_lem (suc fuel) i zero t0 mask ticks read h early late =
    let done : ltb (elapsed read mask t0 i) ticks ≡ false = ground (arith, late) in
    rw (done, delay_loop) (ground arith)
delay_loop_lem (suc fuel) i (suc n) t0 mask ticks read h early late =
    let more : ltb (elapsed read mask t0 i) ticks ≡ true = ground (arith, early 0) in
    rw (more, delay_loop)
      (delay_loop_lem fuel (i + 1) n t0 mask ticks read (omega arith)
          (λ k lt. ground (arith, early (suc k))) (ground (arith, late))
        ∙ ground arith)

-- If n readings of the timer after the first are fewer than `ticks` ticks after it, counted within the
-- timer's mask, and the next one is not, then `delayTicks` ends with that one.
pub delay_ticks_lem :
    (fuel n mask ticks : ℕ) (read : ℕ → ℕ)
    → n < fuel
    → ((k : ℕ) → k < n → elapsed read mask (read 0) (1 + k) < ticks)
    → ticks ≤ elapsed read mask (read 0) (1 + n)
    → delay_ticks fuel read mask ticks ≡ some (1 + n)
unfolding delay_ticks
delay_ticks_lem fuel n mask ticks read h early late =
    delay_loop_lem fuel 1 n (read 0) mask ticks read h early late

-- Where the product with the frequency does not overflow, the ticks of `mdelay`, `udelay` and `ndelay`
-- take at least the time asked for, and a tick less would not.
pub delays_round_up :
    (frequency ms us ns : ℕ)
    → frequency * ms + 999 < 2 ^ 64
    → frequency * us + 999999 < 2 ^ 64
    → frequency * ns + 999999999 < 2 ^ 64
    → ((frequency * ms ≤ mdelay_ticks frequency ms * 1000)
        × (mdelay_ticks frequency ms * 1000 < frequency * ms + 1000))
      × ((frequency * us ≤ udelay_ticks frequency us * 1000000)
          × (udelay_ticks frequency us * 1000000 < frequency * us + 1000000))
      × ((frequency * ns ≤ ndelay_ticks frequency ns * 1000000000)
          × (ndelay_ticks frequency ns * 1000000000 < frequency * ns + 1000000000))
unfolding mdelay_ticks udelay_ticks ndelay_ticks
delays_round_up frequency ms us ns m u n =
    ((omega arith, omega arith), (omega arith, omega arith), (omega arith, omega arith))
