-- ===== src/Strings/Tests.antt =====
-- Tests of the functions on bytes, on a memory that holds each address's low byte.
use mug_os.Base.{ℕ, ◌+◌, ◌%◌, ◌<◌, ◌≡◌, ◌≢◌, refl, arith, some}
use mug_os.Strings.{
  strchr, strchr_loop, strncmp, strncmp_loop, compare_chars, copy_up, copy_down, memcpy, memmove,
  strlen,
}
use mug_os.Strings.Terminated.{strlen_lem}
use mug_os.Strings.Moves.{moved, memmove_lem}

abbrev low_bytes : ℕ → ℕ
low_bytes x = x % 256

-- Up by two bytes over itself.
overlap : (memmove 12 10 4 low_bytes 14 ≡ 12) × (memcpy 12 10 4 low_bytes 14 ≡ 10)
unfolding memmove memcpy copy_up copy_down
overlap = (refl, refl)

memmove_lem_example : memmove 12 10 4 low_bytes 14 ≡ moved 12 10 4 low_bytes 14
memmove_lem_example = memmove_lem 12 10 4 low_bytes 14

-- A string of three bytes at every address that is a multiple of 256, less 3.
three_bytes : (k : ℕ) → k < 3 → low_bytes (253 + k) ≢ 0
three_bytes k lt = ground arith

strlen_lem_example : strlen 10 253 low_bytes ≡ some 3
strlen_lem_example =
    strlen_lem 10 253 3 low_bytes (λ e. absurd (omega arith)) (omega arith) three_bytes refl

-- Two strings of the same three bytes.
same_bytes : (k : ℕ) → k < 3 → low_bytes (253 + k) ≡ low_bytes (509 + k)
same_bytes k lt = ground arith

-- The chars are signed: 65 is above 200.
signed_chars : strncmp 65 200 3 low_bytes ≡ 121
unfolding strncmp strncmp_loop compare_chars
signed_chars = refl

-- There is no char 0 in a string for `strchr`.
no_terminator : strchr 5 253 0 low_bytes ≡ some 0
unfolding strchr strchr_loop
no_terminator = refl
