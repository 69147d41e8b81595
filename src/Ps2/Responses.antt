-- ===== src/Ps2/Responses.antt =====
-- Kernel/Drivers/Input/PS2.c: the response buffer of the initialisation and the commands sent with it.
-- What the interrupts push while the code waits, and whether a send succeeds, are a parameter: the state
-- of a device with its two operations. Locking is left out.
use mug_os.Base.{
  ℕ, zero, suc, ◌+◌, ◌-◌, ◌<◌, ◌≤◌, ◌≡◌, inl, inr, refl, ap, ◌∙◌, arith, false, List, [], ◌∷◌, ◌++◌,
  Option, none, some, ltb, ◌==◌, if◌then◌else◌, get_or, set, length, length-set, Bool-cases,
}

abbrev pub response_buffer_size : ℕ
response_buffer_size = 5

-- `m_responseBuffer` and `m_inBuffer`.
pub record Responses : Type 0 where
  pub buffer : List ℕ
  pub in_buffer : ℕ

-- `pushResponseBuffer`.
unfoldable pub push_response_buffer : Responses → ℕ → Responses
push_response_buffer r value =
    if r.in_buffer == response_buffer_size
    then r
    else record { buffer = set r.buffer r.in_buffer value; in_buffer = r.in_buffer + 1 }

-- `memmove (buffer, buffer + 1, n)`: the next n elements move one place down.
unfoldable pub shift_down : List ℕ → ℕ → List ℕ
shift_down (x ∷ y ∷ rest) (suc n) = y ∷ shift_down (y ∷ rest) n
shift_down buffer n = buffer

-- The end of `receiveByte`.
unfoldable pub pop_response_buffer : Responses → Option ℕ × Responses
pop_response_buffer r = if ltb r.in_buffer 1 then (none, r) else (
  some (get_or r.buffer 0 0),
  record { buffer = shift_down r.buffer (response_buffer_size - 1); in_buffer = r.in_buffer - 1 },
)

-- What is in the buffer: the first elements.
unfoldable pub contents_of : ℕ → List ℕ → List ℕ
contents_of zero buffer = []
contents_of (suc n) [] = []
contents_of (suc n) (x ∷ buffer) = x ∷ contents_of n buffer

abbrev pub contents : Responses → List ℕ
contents r = contents_of r.in_buffer r.buffer

-- The buffer has its five places, of which no more are used.
pub record IsValid (r : Responses) : Type 0 where
  pub size : length r.buffer ≡ response_buffer_size
  pub used : r.in_buffer ≤ response_buffer_size

contents_of-set :
    (n v : ℕ) (buffer : List ℕ)
    → n < length buffer
    → contents_of (suc n) (set buffer n v) ≡ contents_of n buffer ++ v ∷ []
unfolding contents_of
contents_of-set n v [] h = absurd (omega arith)
contents_of-set zero v (x ∷ buffer) h = refl
contents_of-set (suc n) v (x ∷ buffer) h =
    ap (λ l. x ∷ l) (contents_of-set n v buffer (omega arith))

contents_of-shift_down :
    (n m x : ℕ) (buffer : List ℕ)
    → n ≤ m
    → n ≤ length buffer
    → contents_of n (shift_down (x ∷ buffer) m) ≡ contents_of n buffer
unfolding contents_of shift_down
contents_of-shift_down zero m x buffer h k = refl
contents_of-shift_down (suc n) m x [] h k = absurd (omega arith)
contents_of-shift_down (suc n) zero x (y ∷ buffer) h k = absurd (omega arith)
contents_of-shift_down (suc n) (suc m) x (y ∷ buffer) h k =
    ap (λ l. y ∷ l) (contents_of-shift_down n m y buffer (omega arith) (omega arith))

length-shift_down : (buffer : List ℕ) (n : ℕ) → length (shift_down buffer n) ≡ length buffer
unfolding shift_down
length-shift_down [] n = refl
length-shift_down (x ∷ []) n = refl
length-shift_down (x ∷ y ∷ rest) zero = refl
length-shift_down (x ∷ y ∷ rest) (suc n) = ap suc (length-shift_down (y ∷ rest) n)

-- A byte pushed into a valid buffer is the last of its contents, unless five are in it: then it is
-- dropped. The buffer stays valid.
pub push_response_buffer-contents :
    (r : Responses) (value : ℕ)
    → IsValid r
    → (contents (push_response_buffer r value)
        ≡ (if r.in_buffer == response_buffer_size then contents r else contents r ++ value ∷ []))
      × IsValid (push_response_buffer r value)
unfolding push_response_buffer
push_response_buffer-contents r value valid =
    elim (Bool-cases (r.in_buffer == response_buffer_size)) [
      | inl full ↦ rw (full, push_response_buffer) (refl, valid)
      | inr free ↦
          rw (free, push_response_buffer)
            (
              ap (λ n. contents_of n (set r.buffer r.in_buffer value)) (omega arith)
                  ∙ contents_of-set r.in_buffer value r.buffer
                      (ground (arith, valid.size, valid.used)),
              record {
                size = length-set r.buffer r.in_buffer value ∙ valid.size;
                used = ground (arith, valid.used);
              },
            )
    ]

-- The first element and the rest of a list.
abbrev pub uncons : List ℕ → Option ℕ × List ℕ
uncons [] = (none, [])
uncons (x ∷ xs) = (some x, xs)

nonempty : (n : ℕ) → ltb (suc n) 1 ≡ false
nonempty n = ground arith

-- From a valid buffer the first of its contents is taken, or nothing if there are none. The rest stays,
-- in order, and the buffer stays valid.
pub pop_response_buffer-contents :
    (r : Responses)
    → IsValid r
    → ((pop_response_buffer r).0 ≡ (uncons (contents r)).0)
      × (contents (pop_response_buffer r).1 ≡ (uncons (contents r)).1)
      × IsValid (pop_response_buffer r).1
unfolding pop_response_buffer contents_of
pop_response_buffer-contents r valid = by_count r.in_buffer r.buffer valid.size valid.used
  where
    by_count :
        (n : ℕ) (buffer : List ℕ)
        → length buffer ≡ response_buffer_size
        → n ≤ response_buffer_size
        → let r : Responses = record { buffer = buffer; in_buffer = n } in
          ((pop_response_buffer r).0 ≡ (uncons (contents r)).0)
          × (contents (pop_response_buffer r).1 ≡ (uncons (contents r)).1)
          × IsValid (pop_response_buffer r).1
    by_count zero buffer size used = (refl, refl, record { size = size; used = used })
    by_count (suc n) [] size used = absurd (omega arith)
    by_count (suc n) (x ∷ buffer) size used =
        rw (nonempty n, pop_response_buffer)
          (
            refl,
            ap (λ k. contents_of k (shift_down (x ∷ buffer) 4)) (omega arith)
                ∙ contents_of-shift_down n 4 x buffer (omega arith) (omega arith),
            record { size = length-shift_down (x ∷ buffer) 4 ∙ size; used = omega arith },
          )
