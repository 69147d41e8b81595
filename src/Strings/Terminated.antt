-- ===== src/Strings/Terminated.antt =====
-- `strncpy` and `strlen` of strings that end in a byte 0.
use mug_os.Base.{
  ℕ, zero, suc, ◌+◌, ◌-◌, ◌%◌, ◌^◌, ◌≤◌, ◌<◌, ◌≡◌, ◌≢◌, ◌⊎◌, ◌∙◌, ap, arith, ◌&&◌, leb, ltb, ◌==◌,
  if◌then◌else◌, true, false, some,
}
use mug_os.Strings.{write, strncpy_loop, strncpy, strlen_loop, strlen}
use mug_os.Strings.Moves.{moved}

strncpy_loop_lem :
    (rounds i dst src n : ℕ) (m : ℕ → ℕ) (x : ℕ)
    → (dst ≤ src) ⊎ (src + i + rounds ≤ dst)
    → n ≤ rounds
    → ((k : ℕ) → k < n → m (src + (i + k)) ≢ 0)
    → (n < rounds → m (src + (i + n)) ≡ 0)
    → strncpy_loop rounds i dst src m x ≡ (
        if leb (dst + i) x && ltb x (dst + i + (if ltb n rounds then n + 1 else n))
        then m (src + (x - dst))
        else m x)
unfolding strncpy_loop
strncpy_loop_lem zero i dst src n m x apart le used stop = ground arith
strncpy_loop_lem (suc rounds) i dst src zero m x apart le used stop =
    let end : (m (src + i) == 0) ≡ true = ground arith in rw (end, strncpy_loop) (ground arith)
strncpy_loop_lem (suc rounds) i dst src (suc n) m x apart le used stop =
    let more : (m (src + i) == 0) ≡ false = ground (arith, used 0 (omega arith)) in
    let m' = write m (dst + i) (m (src + i)) in
    rw (more, strncpy_loop)
      (strncpy_loop_lem rounds (i + 1) dst src n m' x (ground arith) (omega arith)
          (λ k lt. ground (arith, used (suc k))) (λ lt. ground (arith, stop))
        ∙ ground arith)

-- `strncpy`, neither pointer NULL, of a string whose first byte 0 stands at index n below `len`, to
-- a destination that starts at or below the source, or past its first `len` bytes, moves the n + 1
-- bytes up to that 0 and leaves all others. With no byte 0 among the first n = `len`, it moves
-- those, and writes no 0.
pub strncpy_lem :
    (dst src len n : ℕ) (m : ℕ → ℕ) (x : ℕ)
    → dst ≢ 0
    → src ≢ 0
    → (dst ≤ src) ⊎ (src + len ≤ dst)
    → n ≤ len
    → ((k : ℕ) → k < n → m (src + k) ≢ 0)
    → (n < len → m (src + n) ≡ 0)
    → strncpy dst src len m x ≡ moved dst src (if ltb n len then n + 1 else n) m x
unfolding strncpy
strncpy_lem dst src len n m x some_dst some_src apart le used stop =
    let d : (dst == 0) ≡ false = ground arith in
    let s : (src == 0) ≡ false = ground arith in
    rw (d, s)
      (strncpy_loop_lem len 0 dst src n m x (ground arith) le (λ k lt. ground (arith, used k))
          (λ lt. ground (arith, stop))
        ∙ ground arith)

strlen_loop_lem :
    (fuel str res n : ℕ) (m : ℕ → ℕ)
    → n < fuel
    → ((k : ℕ) → k < n → m (str + k) ≢ 0)
    → m (str + n) ≡ 0
    → res < 2 ^ 32
    → strlen_loop fuel str res m ≡ some ((res + n) % 2 ^ 32)
unfolding strlen_loop
strlen_loop_lem zero str res n m enough used stop small = absurd (omega arith)
strlen_loop_lem (suc fuel) str res zero m enough used stop small =
    let end : (m str == 0) ≡ true = ground arith in rw (end, strlen_loop) (ap some (omega arith))
strlen_loop_lem (suc fuel) str res (suc n) m enough used stop small =
    let more : (m str == 0) ≡ false = ground (arith, used 0 (omega arith)) in
    rw (more, strlen_loop)
      (strlen_loop_lem fuel (str + 1) ((res + 1) % 2 ^ 32) n m (omega arith)
          (λ k lt. ground (arith, used (suc k))) (ground arith) (omega arith)
        ∙ ap some (omega arith))

-- `strlen` of a string, not NULL, whose first byte 0 stands at index n ends within n + 1 rounds and
-- returns n modulo 2 ^ 32.
pub strlen_lem :
    (fuel str n : ℕ) (m : ℕ → ℕ)
    → str ≢ 0
    → n < fuel
    → ((k : ℕ) → k < n → m (str + k) ≢ 0)
    → m (str + n) ≡ 0
    → strlen fuel str m ≡ some (n % 2 ^ 32)
unfolding strlen
strlen_lem fuel str n m some_str enough used stop =
    let s : (str == 0) ≡ false = ground arith in
    rw s (strlen_loop_lem fuel str 0 n m enough used stop (omega arith) ∙ ap some (omega arith))
