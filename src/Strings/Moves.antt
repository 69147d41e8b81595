-- ===== src/Strings/Moves.antt =====
-- What the functions on bytes leave at each address.
use mug_os.Base.{
  ℕ, zero, suc, ◌+◌, ◌-◌, ◌%◌, ◌≤◌, ◌<◌, ◌≡◌, ◌≢◌, ◌⊎◌, ◌∙◌, refl, sym, arith, ◌&&◌, leb, ltb, ◌==◌,
  if◌then◌else◌, not, Bool-cases, inl, inr,
}
use mug_os.Strings.{write, copy_up, copy_down, memcpy, memmove, set_up, memset, compare_up, memcmp}

-- The block of `size` bytes from `dst` holds what the one from `src` held, the rest is as before.
abbrev pub moved : ℕ → ℕ → ℕ → (ℕ → ℕ) → ℕ → ℕ
moved dst src size m x = if leb dst x && ltb x (dst + size) then m (src + (x - dst)) else m x

write-other : (m : ℕ → ℕ) (a v x : ℕ) → a ≢ x → write m a v x ≡ m x
write-other m a v x ne = ground arith

copy_up_lem :
    (rounds i dst src : ℕ) (m : ℕ → ℕ) (x : ℕ)
    → (dst ≤ src) ⊎ (src + i + rounds ≤ dst)
    → copy_up rounds i dst src m x
      ≡ (if leb (dst + i) x && ltb x (dst + i + rounds) then m (src + (x - dst)) else m x)
unfolding copy_up
copy_up_lem zero i dst src m x apart = ground arith
copy_up_lem (suc rounds) i dst src m x apart =
    copy_up_lem rounds (i + 1) dst src (write m (dst + i) (m (src + i))) x (ground arith)
    ∙ ground arith

copy_down_lem :
    (i dst src : ℕ) (m : ℕ → ℕ) (x : ℕ) → src ≤ dst → copy_down i dst src m x ≡ moved dst src i m x
unfolding copy_down
copy_down_lem zero dst src m x le = ground arith
copy_down_lem (suc i) dst src m x le =
    copy_down_lem i dst src (write m (dst + i) (m (src + i))) x le ∙ ground arith

-- `memmove` moves a block, also where the two overlap: each byte of the destination is what the byte
-- of the source was before the call, and all other bytes stay.
pub memmove_lem :
    (dest src size : ℕ) (m : ℕ → ℕ) (x : ℕ) → memmove dest src size m x ≡ moved dest src size m x
unfolding memmove
memmove_lem dest src size m x = elim (Bool-cases (ltb dest src)) [
  | inl up ↦ rw up (copy_up_lem size 0 dest src m x (inl (ground arith)) ∙ ground arith)
  | inr not_up ↦ rw not_up (elim (Bool-cases (ltb src dest)) [
    | inl down ↦ rw down (copy_down_lem size dest src m x (ground arith))
    | inr equal ↦ rw equal (ground arith)
  ])
]

-- `memcpy` to a destination that starts at or below the source, or past its end, leaves every byte
-- as `memmove` does.
pub memcpy-memmove :
    (dst src size : ℕ) (m : ℕ → ℕ) (x : ℕ)
    → (dst ≤ src) ⊎ (src + size ≤ dst)
    → memcpy dst src size m x ≡ memmove dst src size m x
unfolding memcpy
memcpy-memmove dst src size m x apart =
    copy_up_lem size 0 dst src m x (ground arith)
    ∙ ground arith
    ∙ sym (memmove_lem dst src size m x)

set_up_lem :
    (rounds i ptr value : ℕ) (m : ℕ → ℕ) (x : ℕ)
    → set_up rounds i ptr value m x
      ≡ (if leb (ptr + i) x && ltb x (ptr + i + rounds) then value % 256 else m x)
unfolding set_up
set_up_lem zero i ptr value m x = ground arith
set_up_lem (suc rounds) i ptr value m x =
    set_up_lem rounds (i + 1) ptr value (write m (ptr + i) (value % 256)) x ∙ ground arith

-- `memset` fills the block with the low byte of the value and leaves all other bytes; for NULL it
-- leaves all.
pub memset_lem :
    (ptr value size : ℕ) (m : ℕ → ℕ) (x : ℕ)
    → memset ptr value size m x
      ≡ (if not (ptr == 0) && leb ptr x && ltb x (ptr + size) then value % 256 else m x)
unfolding memset
memset_lem ptr value size m x = elim (Bool-cases (ptr == 0)) [
  | inl null ↦ rw null refl
  | inr some_block ↦ rw some_block (set_up_lem size 0 ptr value m x ∙ ground arith)
]

compare_up_lem :
    (rounds i p q : ℕ) (m : ℕ → ℕ)
    → ((compare_up rounds i p q m ≡ 0) × ((k : ℕ) → i ≤ k → k < i + rounds → m (p + k) ≡ m (q + k)))
      ⊎ ((compare_up rounds i p q m ≡ 1)
          × ((k : ℕ) × ((i ≤ k) × (k < i + rounds) × (m (p + k) ≢ m (q + k)))))
unfolding compare_up
compare_up_lem zero i p q m = inl (refl, λ k lo hi. absurd (omega arith))
compare_up_lem (suc rounds) i p q m = elim (Bool-cases (m (p + i) == m (q + i))) [
  | inr differ ↦ rw (differ, compare_up) (inr (refl, (i, (omega arith, omega arith, ground arith))))
  | inl same ↦
      rw (same, compare_up)
        (elim (compare_up_lem rounds (i + 1) p q m) [
          | inl (zero_result, all) ↦ inl (
            zero_result,
            λ k lo hi. elim (Bool-cases (k == i)) [
              | inl e ↦ let here : k ≡ i = ground arith in rw here (ground arith)
              | inr later ↦ all k (ground arith) (omega arith)
            ],
          )
          | inr (one_result, (k, (lo, hi, ne))) ↦
              inr (one_result, (k, (omega arith, omega arith, ne)))
        ])
]

-- `memcmp` returns 0 for blocks that hold the same bytes, and 1 for blocks with a byte that differs.
pub memcmp_lem :
    (ptr1 ptr2 size : ℕ) (m : ℕ → ℕ)
    → ((memcmp ptr1 ptr2 size m ≡ 0) × ((k : ℕ) → k < size → m (ptr1 + k) ≡ m (ptr2 + k)))
      ⊎ ((memcmp ptr1 ptr2 size m ≡ 1) × ((k : ℕ) × ((k < size) × (m (ptr1 + k) ≢ m (ptr2 + k)))))
unfolding memcmp
memcmp_lem p q size m = elim (compare_up_lem size 0 p q m) [
  | inl (runs, all) ↦ inl (runs, λ k hi. all k (omega arith) (omega arith))
  | inr (runs, (k, (lo, hi, ne))) ↦ inr (runs, (k, (omega arith, ne)))
]
