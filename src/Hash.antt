-- ===== src/Hash.antt =====
-- Stdlib/mugOS/Hash.c: the hash of a string.
pub mod Distinct
mod Tests
use mug_os.Base.{ℕ, ◌+◌, ◌-◌, ◌*◌, ◌%◌, ◌^◌, List, [], ◌∷◌, ltb, if◌then◌else◌, add64}

abbrev pub hash_mult : ℕ
hash_mult = 257

abbrev pub hash_modulous : ℕ
hash_modulous = 18446744073709551557

-- A signed char as a word of 64 bits.
abbrev pub word_of_char : ℕ → ℕ
word_of_char c = if ltb c 128 then c else c + (2 ^ 64 - 256)

-- The for loop of `hashString`.
unfoldable pub hash_loop : List ℕ → ℕ → ℕ → ℕ
hash_loop [] mult hash = hash
hash_loop (c ∷ cs) mult hash =
    let mult = mult * hash_mult % 2 ^ 64 in
    hash_loop cs mult (add64 hash (word_of_char c * mult % 2 ^ 64 % hash_modulous))

-- `hashString`, of the chars up to the '\0'.
unfoldable pub hash_string : List ℕ → ℕ
hash_string cs = hash_loop cs 1 0
