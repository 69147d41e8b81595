-- ===== src/Hash/Distinct.antt =====
-- Short strings have different hashes.
use native.Mathlib.Nat.{pow-succ', pow-le-pow_right}
use mug_os.Base.{
  ℕ, ◌+◌, ◌*◌, ◌%◌, ◌^◌, ◌≤◌, ◌<◌, ◌≡◌, refl, ap₂, sym, ◌∙◌, arith, true, Bool, ◌&&◌, List, [], ◌∷◌,
  ltb, leb, add64, length,
}
use mug_os.Hash.{hash_mult, hash_modulous, word_of_char, hash_loop, hash_string}

-- ASCII chars, none of them 0.
unfoldable pub all_ascii : List ℕ → Bool
all_ascii [] = true
all_ascii (c ∷ cs) = leb 1 c && ltb c 128 && all_ascii cs

-- The sum that is meant, with the first power for the first char.
unfoldable weighted : List ℕ → ℕ
weighted [] = 0
weighted (c ∷ cs) = 257 * (c + weighted cs)

distribute : (m c w : ℕ) → m * (257 * (c + w)) ≡ c * (m * 257) + m * 257 * w
distribute m c w = grind arith

at_least : (c m : ℕ) → 0 < c → m ≤ c * m
at_least c m pos = grind arith

hash_loop-nil : (mult hash : ℕ) → hash_loop [] mult hash ≡ hash
unfolding hash_loop
hash_loop-nil mult hash = refl

hash_loop-cons :
    (c mult hash : ℕ) (cs : List ℕ)
    → 0 < c
    → c < 128
    → hash + c * (mult * 257) < hash_modulous
    → hash_loop (c ∷ cs) mult hash ≡ hash_loop cs (mult * 257) (hash + c * (mult * 257))
unfolding hash_loop
hash_loop-cons c mult hash cs pos ascii fits =
    let least = at_least c (mult * 257) pos in
    let power : mult * hash_mult % 2 ^ 64 ≡ mult * 257 = omega (arith, fits, least) in
    let word : word_of_char c ≡ c = ground arith in
    let sum : add64 hash (c * (mult * 257) % 2 ^ 64 % hash_modulous) ≡ hash + c * (mult * 257) =
      omega (arith, fits) in
    rw (power, word, sum) refl

hash_loop-weighted :
    (cs : List ℕ) (mult hash : ℕ)
    → all_ascii cs ≡ true
    → hash + mult * weighted cs < hash_modulous
    → hash_loop cs mult hash ≡ hash + mult * weighted cs
unfolding weighted all_ascii
hash_loop-weighted [] mult hash h fits = hash_loop-nil mult hash ∙ omega arith
hash_loop-weighted (c ∷ cs) mult hash h fits =
    let parts = distribute mult c (weighted cs) in
    let here =
      hash_loop-cons c mult hash cs (ground arith) (ground arith) (omega (arith, fits, parts)) in
    let rest =
      hash_loop-weighted cs (mult * 257) (hash + c * (mult * 257)) (ground arith)
        (omega (arith, fits, parts)) in
    here ∙ rest ∙ omega (arith, parts)

weighted-le : (cs : List ℕ) → all_ascii cs ≡ true → weighted cs + 128 ≤ 128 * 257 ^ length cs
unfolding weighted all_ascii
weighted-le [] h = omega arith
weighted-le (c ∷ cs) h = ground (arith, weighted-le cs, pow-succ' 257 (length cs))

hash_string-weighted :
    (cs : List ℕ) → all_ascii cs ≡ true → length cs ≤ 7 → hash_string cs ≡ weighted cs
unfolding hash_string
hash_string-weighted cs h le =
    let power = pow-le-pow_right {n = 257} (omega arith) {i = length cs} {j = 7} le in
    let bound = weighted-le cs h in
    hash_loop-weighted cs 1 0 h (omega (arith, power, bound)) ∙ omega arith

weighted-mod : (cs : List ℕ) → weighted cs % 257 ≡ 0
unfolding weighted
weighted-mod [] = refl
weighted-mod (c ∷ cs) = omega arith

weighted-distinct :
    (cs ds : List ℕ)
    → all_ascii cs ≡ true
    → all_ascii ds ≡ true
    → weighted cs ≡ weighted ds
    → cs ≡ ds
unfolding weighted all_ascii
weighted-distinct [] [] h k e = refl
weighted-distinct [] (d ∷ ds) h k e = absurd (ground arith)
weighted-distinct (c ∷ cs) [] h k e = absurd (ground arith)
weighted-distinct (c ∷ cs) (d ∷ ds) h k e =
    let m = weighted-mod cs in
    let n = weighted-mod ds in
    let same : c ≡ d = ground (arith, m, n) in
    ap₂ (λ x xs. x ∷ xs) same
      (weighted-distinct cs ds (ground arith) (ground arith) (omega (arith, e, same)))

-- Two strings of at most 7 ASCII chars that have the same hash are equal.
pub hash_string-distinct :
    (cs ds : List ℕ)
    → all_ascii cs ≡ true
    → all_ascii ds ≡ true
    → length cs ≤ 7
    → length ds ≤ 7
    → hash_string cs ≡ hash_string ds
    → cs ≡ ds
hash_string-distinct cs ds h k lc ld e =
    weighted-distinct cs ds h k
      (sym (hash_string-weighted cs h lc) ∙ e ∙ hash_string-weighted ds k ld)
