-- ===== src/Table/Hash.antt =====
-- _hash_function() of src/ephashtable.c on the bytes of a key, on a little-endian machine.
use Prim.Native.Nat.{bit_xor}
use libevlite.Base.{ℕ, ◌+◌, ◌*◌, ◌/◌, ◌%◌, ◌^◌, List, [], ◌∷◌, length}
use libevlite.Base.Words.{u32_mod}

abbrev pub seed : ℕ
seed = 5381

abbrev pub mixing : ℕ
mixing = 0x5bd1e995

abbrev pub mul32 : ℕ → ℕ → ℕ
mul32 a b = (a * b) % u32_mod

-- `k *= m; k ^= k >> r; k *= m;`
unfoldable pub mix_word : ℕ → ℕ
mix_word k = let k₁ = mul32 k mixing in mul32 (bit_xor k₁ (k₁ / 2 ^ 24)) mixing

-- Four bytes at a time, and the `switch` on those left.
unfoldable pub mix : ℕ → List ℕ → ℕ
unfolding mix_word
mix h [] = h
mix h (a ∷ []) = mul32 (bit_xor h a) mixing
mix h (a ∷ b ∷ []) = mul32 (bit_xor (bit_xor h (b * 2 ^ 8)) a) mixing
mix h (a ∷ b ∷ c ∷ []) = mul32 (bit_xor (bit_xor (bit_xor h (c * 2 ^ 16)) (b * 2 ^ 8)) a) mixing
mix h (a ∷ b ∷ c ∷ d ∷ rest) =
    let k = a + b * 2 ^ 8 + c * 2 ^ 16 + d * 2 ^ 24 in
    mix (bit_xor (mul32 h mixing) (mix_word k)) rest

unfoldable pub hash_function : List ℕ → ℕ
unfolding mix
hash_function key =
    let h = mix (bit_xor seed (length key % u32_mod)) key in
    let h₁ = mul32 (bit_xor h (h / 2 ^ 13)) mixing in bit_xor h₁ (h₁ / 2 ^ 15)
