-- ===== src/Ringbuffer/Order.antt =====
-- The ring is a bounded queue.
use mug_os.Base.{
  ℕ, suc, ◌+◌, ◌-◌, ◌^◌, ◌≤◌, ◌<◌, ◌≡◌, ◌≢◌, ◌∙◌, refl, ap, List, [], ◌∷◌, ◌++◌, leb, Bool, true,
  false, if◌then◌else◌, get_or, set, length, ltb, length-set, arith, Bool-cases, leb→le, inl, inr,
  none, some, ◌⊎◌, not, ◌==◌, add64, sub64, sym,
}
use mathlib.Core.List.{tail}
use mug_os.Ringbuffer.{
  Ringbuffer, get_data_size, init_with_buffer, is_buffer_full, pop, pop_locked, push_back,
  push_locked, push_back_overwrite, write_index, increment_ring_begin_index,
}
use mug_os.Ringbuffer.Queue.{
  IsValid, around, mod-around, items, contents, items-cons, items-set_next, items-set_oldest,
}

items_at : (b : List ℕ) (size s t m n : ℕ) → s ≡ t → m ≡ n → items b size s m ≡ items b size t n
items_at b size s t m n e f = rw (e, f)

module _ (r : Ringbuffer) (h : IsValid r) where
  write_index-around : write_index r ≡ around r.size r.read_begin_index r.in_read_buffer
  write_index-around =
      let no_wrap : add64 r.read_begin_index r.in_read_buffer
          ≡ r.read_begin_index + r.in_read_buffer =
        omega arith in
      rw no_wrap (mod-around r.size r.read_begin_index r.in_read_buffer h.begin_in h.count_in)

  next_begin : increment_ring_begin_index r ≡ around r.size r.read_begin_index 1
  next_begin =
      let no_wrap : add64 r.read_begin_index 1 ≡ r.read_begin_index + 1 = omega arith in
      rw no_wrap (mod-around r.size r.read_begin_index 1 h.begin_in h.some_room)

  contents-cons :
      0 < r.in_read_buffer
      → contents r
        ≡ get_or r.buffer r.read_begin_index 0
          ∷ items r.buffer r.size (around r.size r.read_begin_index 1) (r.in_read_buffer - 1)
  unfolding contents
  contents-cons some_data =
      items_at r.buffer r.size _ _ _ (suc (r.in_read_buffer - 1)) refl (omega arith)
      ∙ items-cons r.buffer r.size r.read_begin_index (r.in_read_buffer - 1) h.begin_in
          (omega arith)

  push_locked-append :
      (v : ℕ)
      → r.in_read_buffer < r.size
      → (contents (push_locked r v) ≡ contents r ++ v ∷ []) × IsValid (push_locked r v)
  unfolding push_locked contents items
  push_locked-append v room = (
    items_at (set r.buffer (write_index r) v) r.size r.read_begin_index r.read_begin_index
          (add64 r.in_read_buffer 1) (suc r.in_read_buffer) refl (omega arith)
        ∙ items-set_next r.buffer r.size r.read_begin_index r.in_read_buffer (write_index r) v
            h.storage h.begin_in room write_index-around,
    ground (arith, length-set r.buffer (write_index r) v),
  )

  pop_locked-tail :
      0 < r.in_read_buffer
      → (contents r ≡ (pop_locked r).0 ∷ contents (pop_locked r).1) × IsValid (pop_locked r).1
  unfolding pop_locked contents
  pop_locked-tail some_data = (
    contents-cons some_data
        ∙ ap (λ xs. get_or r.buffer r.read_begin_index 0 ∷ xs)
            (items_at r.buffer r.size _ _ (r.in_read_buffer - 1) (sub64 r.in_read_buffer 1)
              (sym next_begin) (omega arith)),
    ground (arith, next_begin),
  )

  overwritten : ℕ → Ringbuffer
  overwritten v = record r {
    buffer = set r.buffer r.read_begin_index v;
    read_begin_index = increment_ring_begin_index r;
  }

  overwritten-tail :
      (v : ℕ)
      → r.size ≤ r.in_read_buffer
      → (contents (overwritten v) ≡ tail (contents r) ++ v ∷ []) × IsValid (overwritten v)
  unfolding overwritten contents
  overwritten-tail v full =
      let all : r.in_read_buffer ≡ r.size = omega (arith, h.count_in) in
      (
        rw (all, next_begin)
            (items-set_oldest r.buffer r.size r.read_begin_index v h.storage h.begin_in),
        ground (arith, next_begin, length-set r.buffer r.read_begin_index v),
      )

-- An interrupt handler that leaves the ring alone.
abbrev pub no_irq : Ringbuffer → Ringbuffer
no_irq r = r

-- On a valid ring and with no interrupt in between, `Ringbuffer_pushBack` refuses when the ring is
-- full, and changes nothing that it holds then; else it adds the value behind all others. The ring
-- stays valid.
pub push_back_lem :
    (r : Ringbuffer) (value : ℕ)
    → IsValid r
    → let (done, r') = push_back no_irq r value in
      (done ≡ not (leb r.size r.in_read_buffer))
      × (contents r'
          ≡ (if leb r.size r.in_read_buffer then contents r else contents r ++ value ∷ []))
      × IsValid r'
unfolding push_back is_buffer_full
push_back_lem r v h = elim (Bool-cases (leb r.size r.in_read_buffer)) [
  | inl full ↦ rw full (refl, refl, h)
  | inr room ↦
      rw room (let (added, valid) = push_locked-append r h v (ground arith) in (refl, added, valid))
]

-- On a valid ring and with no interrupt in between, `Ringbuffer_pop` gives out the oldest value and
-- keeps the others in order; with no value, or with no place for it, it changes nothing. The ring
-- stays valid.
pub pop_lem :
    (r : Ringbuffer) (has_out : Bool)
    → IsValid r
    → let (value, r') = pop no_irq has_out r in
      (((value ≡ none) × (r' ≡ r) × ((has_out ≡ false) ⊎ (contents r ≡ [])))
        ⊎ ((x : ℕ) × (value ≡ some x) × (contents r ≡ x ∷ contents r')))
      × IsValid r'
unfolding pop
pop_lem r false h = (inl (refl, refl, inl refl), h)
pop_lem r true h = elim (Bool-cases (r.in_read_buffer == 0)) [
  | inl empty ↦ rw empty (inl (refl, refl, inr (no_items (ground arith))), h)
  | inr some_data ↦ rw some_data (
      let (eq, valid) = pop_locked-tail r h (ground arith) in
      (inr ((pop_locked r).0, refl, eq), valid))
]
  where
    no_items : r.in_read_buffer ≡ 0 → contents r ≡ []
    no_items e = unfold contents items in rw e

-- On a ring that is valid as the interrupts before the lock leave it,
-- `Ringbuffer_pushBackOverwrite` adds the value behind all others; when the ring is full it drops
-- the oldest and returns false, else it returns true. The ring stays valid.
pub push_back_overwrite_lem :
    (irq : Ringbuffer → Ringbuffer) (r : Ringbuffer) (value : ℕ)
    → IsValid (irq r)
    → let full = leb (irq r).size (irq r).in_read_buffer in
      let (done, r') = push_back_overwrite irq r value in
      (done ≡ not full)
      × (contents r' ≡ (if full then tail (contents (irq r)) else contents (irq r)) ++ value ∷ [])
      × IsValid r'
unfolding push_back_overwrite is_buffer_full
push_back_overwrite_lem irq r v h = elim (Bool-cases (leb (irq r).size (irq r).in_read_buffer)) [
  | inl full ↦ rw full (
      let (added, valid) = overwritten-tail (irq r) h v (leb→le _ _ full) in
      (refl, unfold overwritten in added, unfold overwritten in valid))
  | inr room ↦
      rw room
        (let (added, valid) = push_locked-append (irq r) h v (ground arith) in (refl, added, valid))
]

-- An interrupt handler that takes a value.
abbrev pub pop_irq : Ringbuffer → Ringbuffer
pop_irq r = (pop no_irq true r).1

-- The test for an empty ring stands before the lock. On a valid ring that holds one value, if the
-- handler of an interrupt between the two takes that value by `Ringbuffer_pop` itself, the interrupted
-- `Ringbuffer_pop` returns true as well, where one pop after the other returns false; the ring then is
-- not valid and says that it holds 2 ^ 64 - 1 values; and `Ringbuffer_pushBack` then refuses each value
-- and leaves the ring as it is.
pub pop_interrupted :
    (r : Ringbuffer) (value : ℕ)
    → IsValid r
    → get_data_size r ≡ 1
    → let (taken, r') = pop pop_irq true r in
      (taken ≢ none)
      × ((pop no_irq true (pop_irq r)).0 ≡ none)
      × (get_data_size r' ≡ 2 ^ 64 - 1)
      × ¬ (IsValid r')
      × (push_back no_irq r' value ≡ (false, r'))
unfolding pop pop_locked push_back is_buffer_full get_data_size
pop_interrupted r value h one =
    let some_data : (r.in_read_buffer == 0) ≡ false = ground arith in
    let full : leb r.size (2 ^ 64 - 1) ≡ true = ground (arith, h.fits) in
    rw (some_data, one, full)
      (
        (λ e. absurd (ground arith)),
        refl,
        refl,
        (λ w. absurd (omega (arith, w.count_in, h.fits))),
        refl,
      )

-- `Ringbuffer_initWithBuffer` with a buffer of at least n ints, n positive and below 2 ^ 62, gives a
-- valid ring of n places that holds no value.
pub init_with_buffer_lem :
    (r : Ringbuffer) (n : ℕ) (buffer : List ℕ)
    → 0 < n
    → n < 2 ^ 62
    → n ≤ length buffer
    → (r' : Ringbuffer) × ((init_with_buffer r n (some buffer) ≡ some r')
        × (r'.size ≡ n)
        × (contents r' ≡ [])
        × IsValid r')
unfolding init_with_buffer contents items
init_with_buffer_lem r n buffer some_room small storage =
    let positive : ltb 0 n ≡ true = ground arith in
    (
      record r { size = n; buffer = buffer; read_begin_index = 0; in_read_buffer = 0 },
      (
        rw positive refl,
        refl,
        refl,
        record {
          some_room = some_room;
          fits = small;
          storage = storage;
          begin_in = some_room;
          count_in = omega arith;
        },
      ),
    )

-- The test for a full ring stands before the lock as well. If interrupts fill the last place between
-- the two, `Ringbuffer_pushBack` goes on: it returns true, it counts one value more than there are
-- places, and the ring is no longer valid.
pub push_back_interrupted :
    (irq : Ringbuffer → Ringbuffer) (r : Ringbuffer) (value : ℕ)
    → r.in_read_buffer < r.size
    → IsValid (irq r)
    → (irq r).in_read_buffer ≡ (irq r).size
    → let (done, r') = push_back irq r value in
      (done ≡ true) × (r'.in_read_buffer ≡ r'.size + 1) × ¬ (IsValid r')
unfolding push_back push_locked is_buffer_full
push_back_interrupted irq r value room v full =
    let passes : leb r.size r.in_read_buffer ≡ false = ground arith in
    rw passes (refl, omega (arith, v.fits), λ w. absurd (omega (arith, w.count_in, v.fits)))
