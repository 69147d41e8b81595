-- ===== src/Time/Tests.antt =====
-- Tests of the conversion, for the frequencies of the PIT and of the ACPI timer, and of a delay.
use mug_os.Base.{
  ℕ, ◌+◌, ◌*◌, ◌/◌, ◌%◌, ◌^◌, ◌≤◌, ◌<◌, ◌-◌, ◌≡◌, ◌⊎◌, refl, arith, none, some, List, [], ◌∷◌, ◌++◌,
}
use mug_os.Time.{
  compute_conversion, accuracy_loop, shift_loop, ticks_to_ns, delay_ticks, delay_loop,
}
use mug_os.Time.Timers.{
  Timer, Timers, AllHaveFrequencies, IsBest, scores, steady, register_all, register_all-IsBest,
}
use mug_os.Time.Conversion.{HasDigits, compute_conversion_lem}

acpi_timer : compute_conversion 3579545 1000000000 3600 ≡ some (585871109, 21)
unfolding compute_conversion accuracy_loop shift_loop
acpi_timer = refl

compute_conversion_lem_example :
    (b : ℕ) × (mult : ℕ) × (shift : ℕ) × ((compute_conversion 1193182 1000000000 3600
        ≡ some (mult, shift))
      × (b ≤ 32)
      × HasDigits b (3600 * 1193182 / 2 ^ 32)
      × ((s : ℕ) → shift < s → s ≤ 32 → 2 ^ (32 - b) ≤ (1000000000 * 2 ^ s + 596591) / 1193182)
      × (((0 < shift)
            × (shift ≤ 32)
            × (mult ≡ (1000000000 * 2 ^ shift + 596591) / 1193182)
            × (mult < 2 ^ (32 - b))
            × (ticks_to_ns mult shift 4000000000 ≡ mult * 4000000000 / 2 ^ shift))
          ⊎ ((shift ≡ 0) × (mult ≡ (1000000000 * 2 ^ 1 + 596591) / 1193182 % 2 ^ 32))))
compute_conversion_lem_example =
    compute_conversion_lem 1193182 1000000000 3600 4000000000 (omega arith) (omega arith)
      (omega arith) (omega arith) (omega arith)

-- A timer of 24 bits that reads 100 ticks more each time, from just below its mask on.
wraps_around : delay_ticks 10 (λ i. (0xffffff - 50 + 100 * i) % 2 ^ 24) 0xffffff 250 ≡ some 3
unfolding delay_ticks delay_loop
wraps_around = refl

-- The three steady timers that the drivers know: the last has the greatest score.
abbrev steady_timers : List Timer
steady_timers =
    record { score = 1; frequency = 1193182; mult = 0; shift = 0 }
    ∷ record { score = 50; frequency = 3579545; mult = 0; shift = 0 }
    ∷ record { score = 100; frequency = 2400000000; mult = 0; shift = 0 }
    ∷ []

abbrev no_timers : Timers
no_timers = record { timers = []; used = none }

register_all-IsBest_example :
    (after : Timers) × ((register_all steady no_timers steady_timers ≡ some after)
      × (IsBest after.used after.timers
          × (scores after.timers ≡ scores [] ++ scores steady_timers)))
unfolding AllHaveFrequencies IsBest
register_all-IsBest_example =
    register_all-IsBest steady no_timers steady_timers
      ((omega arith, omega arith), ((omega arith, omega arith), ((omega arith, omega arith), tt)))
      tt
