-- ===== src/Strings/Compared.antt =====
-- `strchr`, `strcpy` and `strncmp`.
use mug_os.Base.{
  ℕ, zero, suc, ◌+◌, ◌-◌, ◌%◌, ◌^◌, ◌≤◌, ◌<◌, ◌≡◌, ◌≢◌, ◌⊎◌, inl, inr, Bool-cases, ◌∙◌, refl, arith,
  ltb, ◌==◌, if◌then◌else◌, true, false, some, none,
}
use mug_os.Strings.Moves.{moved}
use mug_os.Strings.{
  write, int_of_char, compare_chars, strncmp_loop, strncmp, strchr_loop, strchr, strcpy_loop,
  strcpy,
}

compare_chars-same : (c : ℕ) → c ≢ 0 → compare_chars c c ≡ none
unfolding compare_chars
compare_chars-same c ne = ground arith

-- The result for the chars at which the comparison stops: 0 at the end of both strings, -1 or 1 at the
-- end of one, and else their difference as signed chars.
abbrev pub verdict : ℕ → ℕ → ℕ
verdict c1 c2 =
    if c1 == 0
    then (if c2 == 0 then 0 else 2 ^ 32 - 1)
    else if c2 == 0
    then 1
    else (int_of_char c1 + 2 ^ 32 - int_of_char c2) % 2 ^ 32

compare_chars-stop : (c1 c2 : ℕ) → (c1 ≢ c2) ⊎ (c1 ≡ 0) → compare_chars c1 c2 ≡ some (verdict c1 c2)
unfolding compare_chars
compare_chars-stop c1 c2 stop = ground arith

strncmp_loop_lem :
    (rounds i s1 s2 d : ℕ) (m : ℕ → ℕ)
    → d ≤ rounds
    → ((k : ℕ) → k < d → m (s1 + (i + k)) ≡ m (s2 + (i + k)))
    → ((k : ℕ) → k < d → m (s1 + (i + k)) ≢ 0)
    → (d < rounds → (m (s1 + (i + d)) ≢ m (s2 + (i + d))) ⊎ (m (s1 + (i + d)) ≡ 0))
    → strncmp_loop rounds i s1 s2 m
      ≡ (if ltb d rounds then verdict (m (s1 + (i + d))) (m (s2 + (i + d))) else 0)
unfolding strncmp_loop
strncmp_loop_lem zero i s1 s2 d m le same used stop = ground arith
strncmp_loop_lem (suc rounds) i s1 s2 zero m le same used stop =
    let end : compare_chars (m (s1 + i)) (m (s2 + i)) ≡ some (verdict (m (s1 + i)) (m (s2 + i))) =
      compare_chars-stop (m (s1 + i)) (m (s2 + i)) (ground (arith, stop)) in
    rw (end, strncmp_loop) (ground arith)
strncmp_loop_lem (suc rounds) i s1 s2 (suc d) m le same used stop =
    let more : compare_chars (m (s1 + i)) (m (s2 + i)) ≡ none =
      ground (arith, same 0, used 0, compare_chars-same (m (s1 + i))) in
    rw (more, strncmp_loop)
      (strncmp_loop_lem rounds (i + 1) s1 s2 d m (omega arith)
          (λ k lt. ground (arith, same (suc k))) (λ k lt. ground (arith, used (suc k)))
          (λ lt. ground (arith, stop))
        ∙ ground arith)

-- `strncmp` of strings whose first d chars are equal and none of them 0, and which differ or both end at
-- index d, returns 0 where d is `n`, and else what the two chars at index d say: 0 at the end of
-- both strings, -1 or 1 at the end of one, and else their difference as signed chars.
pub strncmp_lem :
    (s1 s2 n d : ℕ) (m : ℕ → ℕ)
    → d ≤ n
    → ((k : ℕ) → k < d → m (s1 + k) ≡ m (s2 + k))
    → ((k : ℕ) → k < d → m (s1 + k) ≢ 0)
    → (d < n → (m (s1 + d) ≢ m (s2 + d)) ⊎ (m (s1 + d) ≡ 0))
    → strncmp s1 s2 n m ≡ (if ltb d n then verdict (m (s1 + d)) (m (s2 + d)) else 0)
unfolding strncmp
strncmp_lem s1 s2 n d m le same used stop =
    strncmp_loop_lem n 0 s1 s2 d m le (λ k lt. ground (arith, same k))
      (λ k lt. ground (arith, used k)) (λ lt. ground (arith, stop))
    ∙ ground arith

strchr_loop_lem :
    (fuel str chr n : ℕ) (m : ℕ → ℕ)
    → n < fuel
    → ((k : ℕ) → k < n → (m (str + k) ≢ 0) × (int_of_char (m (str + k)) ≢ chr))
    → (m (str + n) ≡ 0) ⊎ (int_of_char (m (str + n)) ≡ chr)
    → strchr_loop fuel str chr m ≡ some (if m (str + n) == 0 then 0 else str + n)
unfolding strchr_loop
strchr_loop_lem zero str chr n m lt before at = absurd (omega arith)
strchr_loop_lem (suc fuel) str chr zero m lt before at = elim (Bool-cases (m str == 0)) [
  | inl ended ↦ rw (ended, strchr_loop) (ground arith)
  | inr more ↦
      let hit : (int_of_char (m str) == chr) ≡ true = ground (arith, at) in
      rw (more, strchr_loop) (rw (hit, strchr_loop) (ground arith))
]
strchr_loop_lem (suc fuel) str chr (suc n) m lt before at =
    let more : (m str == 0) ≡ false = ground (arith, (before 0 (omega arith)).0) in
    let other : (int_of_char (m str) == chr) ≡ false = ground (arith, (before 0 (omega arith)).1) in
    rw (more, strchr_loop)
      (rw (other, strchr_loop)
        (strchr_loop_lem fuel (str + 1) chr n m (omega arith)
            (λ k h.
              ground (arith, (before (suc k) (omega arith)).0, (before (suc k) (omega arith)).1))
            (ground (arith, at))
          ∙ ground arith))

-- `strchr` in a string, not NULL, that has none of the char and no 0 before index n, and has at index n
-- either the char or 0, ends within n + 1 rounds, with the address of the
-- char or with NULL.
pub strchr_lem :
    (fuel str chr n : ℕ) (m : ℕ → ℕ)
    → str ≢ 0
    → n < fuel
    → ((k : ℕ) → k < n → (m (str + k) ≢ 0) × (int_of_char (m (str + k)) ≢ chr))
    → (m (str + n) ≡ 0) ⊎ (int_of_char (m (str + n)) ≡ chr)
    → strchr fuel str chr m ≡ some (if m (str + n) == 0 then 0 else str + n)
unfolding strchr
strchr_lem fuel str chr n m some_str lt before at =
    let not_null : (str == 0) ≡ false = ground arith in
    rw not_null (strchr_loop_lem fuel str chr n m lt before at)

strcpy_loop_lem :
    (fuel dst src n : ℕ) (m : ℕ → ℕ)
    → n < fuel
    → (dst ≤ src) ⊎ (src + n < dst)
    → ((k : ℕ) → k < n → m (src + k) ≢ 0)
    → m (src + n) ≡ 0
    → (m' : ℕ → ℕ) × ((strcpy_loop fuel dst src m ≡ some m')
        × ((x : ℕ) → m' x ≡ moved dst src (n + 1) m x))
unfolding strcpy_loop
strcpy_loop_lem zero dst src n m lt apart used stop = absurd (omega arith)
strcpy_loop_lem (suc fuel) dst src zero m lt apart used stop =
    let ended : (m src == 0) ≡ true = ground (arith, stop) in
    (write m dst 0, (rw (ended, strcpy_loop) refl, λ x. ground (arith, stop)))
strcpy_loop_lem (suc fuel) dst src (suc n) m lt apart used stop =
    let more : (m src == 0) ≡ false = ground (arith, used 0) in
    let (m', (copied, same)) =
      strcpy_loop_lem fuel (dst + 1) (src + 1) n (write m dst (m src)) (omega arith) (ground arith)
        (λ k h. ground (arith, used (suc k))) (ground (arith, stop)) in
    (m', (rw (more, strcpy_loop) copied, λ x. same x ∙ ground arith))

-- `strcpy`, neither pointer NULL, of a string whose first byte 0 stands at index n, to a destination that
-- starts at or below the source, or past that byte, ends within n + 1 rounds; it moves the n + 1
-- bytes up to that 0 and leaves all others.
pub strcpy_lem :
    (fuel dst src n : ℕ) (m : ℕ → ℕ)
    → dst ≢ 0
    → src ≢ 0
    → n < fuel
    → (dst ≤ src) ⊎ (src + n < dst)
    → ((k : ℕ) → k < n → m (src + k) ≢ 0)
    → m (src + n) ≡ 0
    → (m' : ℕ → ℕ) × ((strcpy fuel dst src m ≡ some m')
        × ((x : ℕ) → m' x ≡ moved dst src (n + 1) m x))
unfolding strcpy
strcpy_lem fuel dst src n m some_dst some_src lt apart used stop =
    let d : (dst == 0) ≡ false = ground arith in
    let s : (src == 0) ≡ false = ground arith in
    rw (d, s) (strcpy_loop_lem fuel dst src n m lt apart used stop)
