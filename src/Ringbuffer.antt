-- ===== src/Ringbuffer.antt =====
-- Stdlib/mugOS/Ringbuffer.c: a ring of ints over a buffer that the caller gives. The values are only
-- moved, so an int is any number. `this` is never NULL here. Interrupts are off between lock() and
-- unlock(); what their handlers do to the ring before lock() is the parameter `irq`, the identity
-- when none comes.
pub mod Queue
pub mod Order
mod Tests
use mug_os.Base.{
  ℕ, ◌+◌, ◌-◌, ◌%◌, ◌^◌, Bool, true, false, not, Option, none, some, List, ltb, leb, ◌==◌,
  if◌then◌else◌, add64, sub64, get_or, set,
}

-- `struct s_Ringbuffer`.
pub record Ringbuffer : Type 0 where
  pub size : ℕ
  pub read_begin_index : ℕ
  pub in_read_buffer : ℕ
  pub buffer : List ℕ
  pub is_allocated : Bool

-- `incrementRingBeginIndex()`.
abbrev pub increment_ring_begin_index : Ringbuffer → ℕ
increment_ring_begin_index r = add64 r.read_begin_index 1 % r.size

-- `Ringbuffer_initWithBuffer`; `none` for a failed assertion, and for the buffer if it is NULL.
unfoldable pub init_with_buffer : Ringbuffer → ℕ → Option (List ℕ) → Option Ringbuffer
init_with_buffer r n none = none
init_with_buffer r n (some buffer) =
    if ltb 0 n
    then some (record r { size = n; buffer = buffer; read_begin_index = 0; in_read_buffer = 0 })
    else none

-- `Ringbuffer_getDataSize`.
unfoldable pub get_data_size : Ringbuffer → ℕ
get_data_size r = r.in_read_buffer

-- `Ringbuffer_isBufferFull`.
unfoldable pub is_buffer_full : Ringbuffer → Bool
is_buffer_full r = leb r.size r.in_read_buffer

-- What `Ringbuffer_pop` does between lock() and unlock(): the value read, and the ring.
unfoldable pub pop_locked : Ringbuffer → ℕ × Ringbuffer
pop_locked r = (
  get_or r.buffer r.read_begin_index 0,
  record r {
    in_read_buffer = sub64 r.in_read_buffer 1;
    read_begin_index = increment_ring_begin_index r;
  },
)

-- `Ringbuffer_pop`. `has_out` says whether valueOut is not NULL; the result is what is written there
-- (`none` where the function returns false) and the ring.
unfoldable pub pop : (Ringbuffer → Ringbuffer) → Bool → Ringbuffer → Option ℕ × Ringbuffer
pop irq has_out r =
    if not has_out
    then (none, r)
    else if r.in_read_buffer == 0
    then (none, r)
    else (let (value, r') = pop_locked (irq r) in (some value, r'))

-- The write that both pushes end with.
abbrev pub write_index : Ringbuffer → ℕ
write_index r = add64 r.read_begin_index r.in_read_buffer % r.size

unfoldable pub push_locked : Ringbuffer → ℕ → Ringbuffer
push_locked r value = record r {
  buffer = set r.buffer (write_index r) value;
  in_read_buffer = add64 r.in_read_buffer 1;
}

-- `Ringbuffer_pushBack`.
unfoldable pub push_back : (Ringbuffer → Ringbuffer) → Ringbuffer → ℕ → Bool × Ringbuffer
push_back irq r value = if is_buffer_full r then (false, r) else (true, push_locked (irq r) value)

-- `Ringbuffer_pushBackOverwrite`: its test of the buffer stands after lock().
unfoldable pub push_back_overwrite : (Ringbuffer → Ringbuffer) → Ringbuffer → ℕ → Bool × Ringbuffer
push_back_overwrite irq r₀ value =
    let r = irq r₀ in
    if is_buffer_full r
    then (
      false,
      record r {
        buffer = set r.buffer r.read_begin_index value;
        read_begin_index = increment_ring_begin_index r;
      },
    )
    else (true, push_locked r value)
