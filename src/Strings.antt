-- ===== src/Strings.antt =====
-- Stdlib/string.c: the functions on bytes. Memory is a function from addresses to bytes; the blocks that
-- the arguments point to lie below 2 ^ 64, so addresses are added without a wrap. The pointers that
-- the functions return are their first arguments.
pub mod Moves
pub mod Terminated
pub mod Compared
mod Tests
use mug_os.Base.{
  ℕ, zero, suc, ◌+◌, ◌%◌, ◌^◌, Option, none, some, true, false, not, ◌&&◌, ◌-◌, ltb, ◌==◌,
  if◌then◌else◌,
}

abbrev pub write : (ℕ → ℕ) → ℕ → ℕ → ℕ → ℕ
write m a v x = if a == x then v else m x

-- The loop of `memcpy`, and the first of `memmove`: from index `i` on.
unfoldable pub copy_up : ℕ → ℕ → ℕ → ℕ → (ℕ → ℕ) → ℕ → ℕ
copy_up zero i dst src m = m
copy_up (suc rounds) i dst src m = copy_up rounds (i + 1) dst src (write m (dst + i) (m (src + i)))

-- The second loop of `memmove`, from the last byte down.
unfoldable pub copy_down : ℕ → ℕ → ℕ → (ℕ → ℕ) → ℕ → ℕ
copy_down zero dst src m = m
copy_down (suc i) dst src m = copy_down i dst src (write m (dst + i) (m (src + i)))

unfoldable pub memcpy : ℕ → ℕ → ℕ → (ℕ → ℕ) → ℕ → ℕ
memcpy dst src size m = copy_up size 0 dst src m

unfoldable pub memmove : ℕ → ℕ → ℕ → (ℕ → ℕ) → ℕ → ℕ
memmove dest src size m =
    if ltb dest src
    then copy_up size 0 dest src m
    else if ltb src dest
    then copy_down size dest src m
    else m

-- `memset`, which leaves memory alone for NULL.
unfoldable pub set_up : ℕ → ℕ → ℕ → ℕ → (ℕ → ℕ) → ℕ → ℕ
set_up zero i ptr value m = m
set_up (suc rounds) i ptr value m =
    set_up rounds (i + 1) ptr value (write m (ptr + i) (value % 256))

unfoldable pub memset : ℕ → ℕ → ℕ → (ℕ → ℕ) → ℕ → ℕ
memset ptr value size m = if ptr == 0 then m else set_up size 0 ptr value m

-- `memcmp`, from index `i` on.
unfoldable pub compare_up : ℕ → ℕ → ℕ → ℕ → (ℕ → ℕ) → ℕ
compare_up zero i ptr1 ptr2 m = 0
compare_up (suc rounds) i ptr1 ptr2 m =
    let rest = compare_up rounds (i + 1) ptr1 ptr2 m in
    if not (m (ptr1 + i) == m (ptr2 + i)) then 1 else rest

unfoldable pub memcmp : ℕ → ℕ → ℕ → (ℕ → ℕ) → ℕ
memcmp ptr1 ptr2 size m = compare_up size 0 ptr1 ptr2 m

-- `strncpy` with NULL as its source writes one byte. Its loop, from index `i` on, and the write after it.
unfoldable pub strncpy_loop : ℕ → ℕ → ℕ → ℕ → (ℕ → ℕ) → ℕ → ℕ
strncpy_loop zero i dst src m = m
strncpy_loop (suc rounds) i dst src m = elim (m (src + i) == 0) [
  | true ↦ write m (dst + i) 0
  | false ↦ strncpy_loop rounds (i + 1) dst src (write m (dst + i) (m (src + i)))
]

unfoldable pub strncpy : ℕ → ℕ → ℕ → (ℕ → ℕ) → ℕ → ℕ
strncpy dst src len m =
    if dst == 0 then m else if src == 0 then write m dst 0 else strncpy_loop len 0 dst src m

-- `strlen`, on fuel; its counter is an unsigned int.
unfoldable pub strlen_loop : ℕ → ℕ → ℕ → (ℕ → ℕ) → Option ℕ
strlen_loop zero str res m = none
strlen_loop (suc fuel) str res m = elim (m str == 0) [
  | true ↦ some res
  | false ↦ strlen_loop fuel (str + 1) ((res + 1) % 2 ^ 32) m
]

unfoldable pub strlen : ℕ → ℕ → (ℕ → ℕ) → Option ℕ
strlen fuel str m = if str == 0 then some 0 else strlen_loop fuel str 0 m

-- A char, which is signed, as an int of 32 bits in two's complement.
abbrev pub int_of_char : ℕ → ℕ
int_of_char c = if ltb c 128 then c else c + 0xffff_ff00

-- `strchr`, on fuel: the address of the char, or 0.
unfoldable pub strchr_loop : ℕ → ℕ → ℕ → (ℕ → ℕ) → Option ℕ
strchr_loop zero str chr m = none
strchr_loop (suc fuel) str chr m = elim (m str == 0) [
  | true ↦ some 0
  | false ↦ elim (int_of_char (m str) == chr) [
    | true ↦ some str
    | false ↦ strchr_loop fuel (str + 1) chr m
  ]
]

unfoldable pub strchr : ℕ → ℕ → ℕ → (ℕ → ℕ) → Option ℕ
strchr fuel str chr m = if str == 0 then some 0 else strchr_loop fuel str chr m

-- `strcpy`, on fuel: its loop, and the write after it.
unfoldable pub strcpy_loop : ℕ → ℕ → ℕ → (ℕ → ℕ) → Option (ℕ → ℕ)
strcpy_loop zero dst src m = none
strcpy_loop (suc fuel) dst src m = elim (m src == 0) [
  | true ↦ some (write m dst 0)
  | false ↦ strcpy_loop fuel (dst + 1) (src + 1) (write m dst (m src))
]

unfoldable pub strcpy : ℕ → ℕ → ℕ → (ℕ → ℕ) → Option (ℕ → ℕ)
strcpy fuel dst src m =
    if dst == 0
    then some m
    else if src == 0
    then some (write m dst 0)
    else strcpy_loop fuel dst src m

-- The tests of a round of `strncmp`: its result, or none to go on. Ints are of 32 bits.
unfoldable pub compare_chars : ℕ → ℕ → Option ℕ
compare_chars c1 c2 =
    if (c1 == 0) && not (c2 == 0)
    then some 0xffff_ffff
    else if not (c1 == 0) && (c2 == 0)
    then some 1
    else if (c1 == 0) && (c2 == 0)
    then some 0
    else if not (c1 == c2)
    then some ((int_of_char c1 + 2 ^ 32 - int_of_char c2) % 2 ^ 32)
    else none

-- `strncmp`, of pointers that are not NULL, from index `i` on.
unfoldable pub strncmp_loop : ℕ → ℕ → ℕ → ℕ → (ℕ → ℕ) → ℕ
strncmp_loop zero i s1 s2 m = 0
strncmp_loop (suc rounds) i s1 s2 m = elim (compare_chars (m (s1 + i)) (m (s2 + i))) [
  | some result ↦ result
  | none ↦ strncmp_loop rounds (i + 1) s1 s2 m
]

unfoldable pub strncmp : ℕ → ℕ → ℕ → (ℕ → ℕ) → ℕ
strncmp s1 s2 n m = strncmp_loop n 0 s1 s2 m
