-- ===== src/Ringbuffer/Queue.antt =====
-- The values that a ring holds, oldest first, and its invariant.
use mug_os.Base.{
  ℕ, zero, suc, ◌+◌, ◌-◌, ◌%◌, ◌^◌, ◌≤◌, ◌<◌, ◌≡◌, ◌≢◌, refl, ap, ap₂, List, [], ◌∷◌, ◌++◌, ltb,
  if◌then◌else◌, length, get_or, set, get_or-set_ne, get_or-set_self, arith, Bool-cases, inl, inr,
}
use mathlib.Core.List.{tail}
use native.Mathlib.Nat.{mod-eq_of_lt, mod-eq-sub-mod}
use mug_os.Ringbuffer.{Ringbuffer}

-- `size` ints fit the address space, so it is below 2 ^ 62.
pub record IsValid (r : Ringbuffer) : Type 0 where
  pub some_room : 0 < r.size
  pub fits : r.size < 2 ^ 62
  pub storage : r.size ≤ length r.buffer
  pub begin_in : r.read_begin_index < r.size
  pub count_in : r.in_read_buffer ≤ r.size

-- Index `start + k` round the ring, for a start inside it and at most one lap.
abbrev pub around : ℕ → ℕ → ℕ → ℕ
around size start k = if ltb (start + k) size then start + k else start + k - size

pub mod-around :
    (size start k : ℕ) → start < size → k ≤ size → (start + k) % size ≡ around size start k
mod-around size start k h le = elim (Bool-cases (ltb (start + k) size)) [
  | inl inside ↦ rw inside (mod-eq_of_lt (ground arith))
  | inr lap ↦
      rw (lap, mod-eq-sub-mod {n = start + k} {m = size} (ground arith))
        (mod-eq_of_lt (ground arith))
]

-- The n values from index `start` on, the newest last.
unfoldable pub items : List ℕ → ℕ → ℕ → ℕ → List ℕ
items b size start zero = []
items b size start (suc n) = items b size start n ++ get_or b (around size start n) 0 ∷ []

unfoldable pub contents : Ringbuffer → List ℕ
contents r = items r.buffer r.size r.read_begin_index r.in_read_buffer

-- The same values, the oldest first.
pub items-cons :
    (b : List ℕ) (size start n : ℕ)
    → start < size
    → n < size
    → items b size start (suc n) ≡ get_or b start 0 ∷ items b size (around size start 1) n
unfolding items
items-cons b size start zero h lt = ap (λ i. get_or b i 0 ∷ []) (ground arith)
items-cons b size start (suc n) h lt =
    ap₂ (λ xs i. xs ++ get_or b i 0 ∷ []) (items-cons b size start n h (omega arith)) (ground arith)

-- A write at none of their indices leaves them alone.
pub items-set :
    (b : List ℕ) (size start n i v : ℕ)
    → ((k : ℕ) → k < n → i ≢ around size start k)
    → items (set b i v) size start n ≡ items b size start n
unfolding items
items-set b size start zero i v away = refl
items-set b size start (suc n) i v away =
    ap₂ (λ xs x. xs ++ x ∷ []) (items-set b size start n i v (λ k lt. away k (omega arith)))
      (get_or-set_ne b v 0 (away n (omega arith)))

-- A write just behind them adds a value.
pub items-set_next :
    (b : List ℕ) (size start n i v : ℕ)
    → size ≤ length b
    → start < size
    → n < size
    → i ≡ around size start n
    → items (set b i v) size start (suc n) ≡ items b size start n ++ v ∷ []
unfolding items
items-set_next b size start n i v le h lt e =
    ap₂ (λ xs x. xs ++ x ∷ []) (items-set b size start n i v (λ k small. ground arith))
      (rw (← e) (get_or-set_self b i v 0 (ground arith)))

-- A write over the oldest of a full ring drops it and adds a value.
pub items-set_oldest :
    (b : List ℕ) (size start v : ℕ)
    → size ≤ length b
    → start < size
    → items (set b start v) size (around size start 1) size
      ≡ tail (items b size start size) ++ v ∷ []
items-set_oldest b (suc m) start v le h = rw (items-cons b (suc m) start m h (omega arith)) (
    unfold items in
    ap₂ (λ xs x. xs ++ x ∷ [])
      (items-set b (suc m) (around (suc m) start 1) m start v (λ k small. ground arith))
      (let last : around (suc m) (around (suc m) start 1) m ≡ start = ground arith in
        rw last (get_or-set_self b start v 0 (omega arith))))
items-set_oldest b zero start v le h = absurd (omega arith)
