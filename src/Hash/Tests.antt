-- ===== src/Hash/Tests.antt =====
-- The hashes of two strings.
use mug_os.Base.{ℕ, ◌+◌, ◌-◌, ◌*◌, ◌≡◌, ◌^◌, ◌%◌, refl, arith, List, [], ◌∷◌}
use mug_os.Hash.{hash_loop, hash_string}
use mug_os.Hash.Distinct.{all_ascii, hash_string-distinct}

-- "ab": the first char is multiplied by 257, not by 1.
first_power_test : hash_string (b'a' ∷ b'b' ∷ []) ≡ b'a' * 257 + b'b' * 257 ^ 2
unfolding hash_string hash_loop
first_power_test = refl

-- The powers are computed modulo 2 ^ 64: that of the ninth char is not the one modulo the prime.
wrapped_power_test : 257 ^ 8 * 257 % 2 ^ 64 ≡ 257 ^ 9 - 2 ^ 64 * 265
wrapped_power_test = refl

abbrev ab : List ℕ
ab = b'a' ∷ b'b' ∷ []

hash_string-distinct_example : ab ≡ ab
unfolding all_ascii
hash_string-distinct_example = hash_string-distinct ab ab refl refl (omega arith) (omega arith) refl
