-- ===== src/Time/Timers.antt =====
-- Kernel/Time/Time.c: the timers that are registered, and the one that is used.
use mathlib.Core.List.{append_assoc, append-nil}
use mug_os.Base.{
  ℕ, ◌%◌, ◌^◌, ◌≤◌, ◌<◌, ◌≡◌, ◌⊎◌, inl, inr, refl, ap, sym, ◌∙◌, arith, Option, none, some, List,
  [], ◌∷◌, ◌++◌, ltb, if◌then◌else◌, if-elim,
}
use mug_os.Time.{compute_conversion}
use mug_os.Time.Conversion.{compute_conversion_lem}

-- `struct SteadyTimer` and `struct EventTimer`, without their functions. The scores are not negative.
pub record Timer : Type 0 where
  pub score : ℕ
  pub frequency : ℕ
  pub mult : ℕ
  pub shift : ℕ

-- `m_steadyTimers` and `m_steadyTimer`, or `m_eventTimers` and `m_eventTimer`.
pub record Timers : Type 0 where
  pub timers : List Timer
  pub used : Option Timer

-- `if (m_steadyTimer == NULL || m_steadyTimer->score < timer->score) m_steadyTimer = timer;`
unfoldable pub better : Option Timer → Timer → Timer
better none timer = timer
better (some used) timer = if ltb used.score timer.score then timer else used

-- The timer with its conversion behind the others.
unfoldable pub add_timer : Timers → Timer → Option (ℕ × ℕ) → Option Timers
add_timer s timer none = none
add_timer s timer (some (mult, shift)) =
    let timer = record timer { mult = mult; shift = shift } in
    some (record { timers = s.timers ++ (timer ∷ []); used = some (better s.used timer) })

-- `Time_registerSteadyTimer`; the call takes the frequency of 64 bits as one of 32.
unfoldable pub register_steady_timer : Timers → Timer → Option Timers
register_steady_timer s timer =
    add_timer s timer (compute_conversion (timer.frequency % 2 ^ 32) 1000000000 3600)

-- `Time_registerEventTimer`, with a frequency of 32 bits in the same way.
unfoldable pub register_event_timer : Timers → Timer → Option Timers
register_event_timer s timer =
    add_timer s timer (compute_conversion 1000000000 (timer.frequency % 2 ^ 32) 3600)

unfoldable pub IsMember : Timer → List Timer → Type 0
IsMember t [] = ⊥
IsMember t (u ∷ us) = (t ≡ u) ⊎ IsMember t us

unfoldable pub AllUpTo : ℕ → List Timer → Type 0
AllUpTo score [] = Unit {0}
AllUpTo score (t ∷ ts) = (t.score ≤ score) × AllUpTo score ts

unfoldable pub scores : List Timer → List ℕ
scores [] = []
scores (t ∷ ts) = t.score ∷ scores ts

scores-last : (t : Timer) (ts : List Timer) → scores (ts ++ (t ∷ [])) ≡ scores ts ++ (t.score ∷ [])
unfolding scores
scores-last t [] = refl
scores-last t (u ∷ us) = ap (λ r. u.score ∷ r) (scores-last t us)

-- The timer in use is a registered one, and none has a greater score.
unfoldable pub IsBest : Option Timer → List Timer → Type 0
IsBest none [] = Unit {0}
IsBest none (t ∷ ts) = ⊥
IsBest (some t) ts = IsMember t ts × AllUpTo t.score ts

IsMember-last : (t : Timer) (ts : List Timer) → IsMember t (ts ++ (t ∷ []))
unfolding IsMember
IsMember-last t [] = inl refl
IsMember-last t (u ∷ us) = inr (IsMember-last t us)

IsMember-append : (t u : Timer) (ts : List Timer) → IsMember t ts → IsMember t (ts ++ (u ∷ []))
unfolding IsMember
IsMember-append t u [] m = absurd m
IsMember-append t u (w ∷ ws) (inl e) = inl e
IsMember-append t u (w ∷ ws) (inr m) = inr (IsMember-append t u ws m)

AllUpTo-append :
    (low score : ℕ) (u : Timer) (ts : List Timer)
    → low ≤ score
    → u.score ≤ score
    → AllUpTo low ts
    → AllUpTo score (ts ++ (u ∷ []))
unfolding AllUpTo
AllUpTo-append low score u [] le last all = (last, tt)
AllUpTo-append low score u (t ∷ ts) le last all =
    (omega (arith, all.0), AllUpTo-append low score u ts le last all.1)

better-IsBest :
    (used : Option Timer) (t : Timer) (ts : List Timer)
    → IsBest used ts
    → IsBest (some (better used t)) (ts ++ (t ∷ []))
unfolding IsBest better IsMember AllUpTo
better-IsBest none t [] best = (inl refl, (omega arith, tt))
better-IsBest none t (u ∷ us) best = absurd best
better-IsBest (some used) t ts best =
    if-elim (λ b. IsBest (some b) (ts ++ (t ∷ []))) (ltb used.score t.score) t used
      (λ e. (
        IsMember-last t ts,
        AllUpTo-append used.score t.score t ts (ground arith) (omega arith) best.1,
      ))
      (λ e. (
        IsMember-append used t ts best.0,
        AllUpTo-append used.score used.score t ts (omega arith) (ground arith) best.1,
      ))

-- A frequency of 32 bits, and not 0.
abbrev HasFrequency : Timer → Type 0
HasFrequency t = (0 < t.frequency) × (t.frequency < 2 ^ 32)

unfoldable pub AllHaveFrequencies : List Timer → Type 0
AllHaveFrequencies [] = Unit {0}
AllHaveFrequencies (t ∷ ts) = HasFrequency t × AllHaveFrequencies ts

-- Registering returned, with the timers behind the others and the best in use.
abbrev pub Registered : Timers → List ℕ → Option Timers → Type 0
Registered s new out =
    (after : Timers) × ((out ≡ some after)
      × (IsBest after.used after.timers × (scores after.timers ≡ scores s.timers ++ new)))

add_timer-IsBest :
    (s : Timers) (t : Timer) (mult shift : ℕ) (conversion : Option (ℕ × ℕ))
    → conversion ≡ some (mult, shift)
    → IsBest s.used s.timers
    → Registered s (t.score ∷ []) (add_timer s t conversion)
unfolding add_timer
add_timer-IsBest s t mult shift conversion e best =
    let timer = record t { mult = mult; shift = shift } in
    (
      record { timers = s.timers ++ (timer ∷ []); used = some (better s.used timer) },
      (
        ap (add_timer s t) e,
        (better-IsBest s.used timer s.timers best, scores-last timer s.timers),
      ),
    )

register_steady_timer-IsBest :
    (s : Timers) (t : Timer)
    → HasFrequency t
    → IsBest s.used s.timers
    → Registered s (t.score ∷ []) (register_steady_timer s t)
unfolding register_steady_timer
register_steady_timer-IsBest s t has best =
    let (b, mult, shift, (e, short, digits, largest, rest)) =
      compute_conversion_lem (t.frequency % 2 ^ 32) 1000000000 3600 0 (omega (arith, has.0, has.1))
        (omega arith) (omega arith) (omega arith) (omega arith) in
    add_timer-IsBest s t mult shift (compute_conversion (t.frequency % 2 ^ 32) 1000000000 3600) e
      best

register_event_timer-IsBest :
    (s : Timers) (t : Timer)
    → HasFrequency t
    → IsBest s.used s.timers
    → Registered s (t.score ∷ []) (register_event_timer s t)
unfolding register_event_timer
register_event_timer-IsBest s t has best =
    let (b, mult, shift, (e, short, digits, largest, rest)) =
      compute_conversion_lem 1000000000 (t.frequency % 2 ^ 32) 3600 0 (omega arith) (omega arith)
        (omega arith) (omega arith) (omega arith) in
    add_timer-IsBest s t mult shift (compute_conversion 1000000000 (t.frequency % 2 ^ 32) 3600) e
      best

-- Which of the two lists a timer is registered in.
pub data Kind : Type 0 where
  steady event : Kind

abbrev pub register_timer : Kind → Timers → Timer → Option Timers
register_timer steady s t = register_steady_timer s t
register_timer event s t = register_event_timer s t

unfoldable pub register_all : Kind → Timers → List Timer → Option Timers
register_all kind s [] = some s
register_all kind s (t ∷ ts) = elim (register_timer kind s t) [
  | none ↦ none
  | some after ↦ register_all kind after ts
]

register_timer-IsBest :
    (kind : Kind) (s : Timers) (t : Timer)
    → HasFrequency t
    → IsBest s.used s.timers
    → Registered s (t.score ∷ []) (register_timer kind s t)
register_timer-IsBest steady s t has best = register_steady_timer-IsBest s t has best
register_timer-IsBest event s t has best = register_event_timer-IsBest s t has best

-- From lists without timers or with the best in use, registering any timers of either kind, with
-- frequencies of 32 bits that are not 0, returns; the timers are behind the others in that order, going by
-- their scores; and the timer then in use is a registered one with no greater score among them, or there
-- is none.
pub register_all-IsBest :
    (kind : Kind) (s : Timers) (ts : List Timer)
    → AllHaveFrequencies ts
    → IsBest s.used s.timers
    → Registered s (scores ts) (register_all kind s ts)
unfolding register_all AllHaveFrequencies scores
register_all-IsBest kind s [] all best = (s, (refl, (best, sym (append-nil (scores s.timers)))))
register_all-IsBest kind s (t ∷ ts) all best =
    let (next, (e, (next_best, next_scores))) = register_timer-IsBest kind s t all.0 best in
    let (after, (rest, (after_best, after_scores))) =
      register_all-IsBest kind next ts all.1 next_best in
    (
      after,
      (
        ap (λ o. elim o [ none ↦ none | some a ↦ register_all kind a ts ]) e ∙ rest,
        (
          after_best,
          after_scores
              ∙ ap (λ r. r ++ scores ts) next_scores
              ∙ append_assoc (scores s.timers) (t.score ∷ []) (scores ts),
        ),
      ),
    )
