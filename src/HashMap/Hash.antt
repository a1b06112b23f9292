-- ===== src/HashMap/Hash.antt =====
-- The hash and equality functions of base/mqtt_map.c. A byte is less than 256, and `memcpy` to a
-- uint64_t is that of a little-endian machine.
use Prim.Native.Nat.{bit_xor}
use tiny_mqtt.Prelude.{
  ℕ, zero, suc, ◌+◌, ◌*◌, ◌/◌, ◌%◌, ◌^◌, [], ◌∷◌, Str, Bool, str_eq, str_eq_iff, ◌==◌, ==_iff,
  if◌then◌else◌, length, take, drop,
}
use tiny_mqtt.HashMap.Chain.{MapKey}

word : ℕ
word = 18446744073709551616

-- The constant `m`.
murmur_m : ℕ
murmur_m = 0xc6a4a7935bd1e995

little_endian : Str → ℕ
little_endian [] = 0
little_endian (x ∷ s) = x + 256 * little_endian s

-- The body of the loop, on the block `k`.
hash_block : ℕ → ℕ → ℕ
unfolding word murmur_m
hash_block h k =
    let k₁ = k * murmur_m % word in
    let k₂ = bit_xor k₁ (k₁ / 2 ^ 47) * murmur_m % word in bit_xor h k₂ * murmur_m % word

-- The loop over `n` blocks of eight bytes.
hash_blocks : ℕ → Str → ℕ → ℕ
unfolding hash_block little_endian
hash_blocks zero s h = h
hash_blocks (suc n) s h = hash_blocks n (drop 8 s) (hash_block h (little_endian (take 8 s)))

-- The cases of the `switch`, the last byte first.
hash_rest : ℕ → Str → ℕ → ℕ
hash_rest shift [] h = h
hash_rest shift (x ∷ s) h = bit_xor (hash_rest (shift * 256) s h) (x * shift)

unfoldable pub hash_str : Str → ℕ
unfolding hash_blocks hash_rest word murmur_m
hash_str s =
    let len = length s in
    let h₁ = hash_blocks (len / 8) s (len * murmur_m % word) in
    let h₂ = if len % 8 == 0 then h₁ else hash_rest 1 (drop (len / 8 * 8) s) h₁ * murmur_m % word in
    let h₃ = bit_xor h₂ (h₂ / 2 ^ 47) * murmur_m % word in bit_xor h₃ (h₃ / 2 ^ 47) % 2 ^ 32

abbrev pub equal_str : Str → Str → Bool
equal_str a b = str_eq a b

abbrev pub hash_32 : ℕ → ℕ
hash_32 k = k

abbrev pub equal_32 : ℕ → ℕ → Bool
equal_32 a b = a == b

unfoldable pub hash_64 : ℕ → ℕ
hash_64 k = bit_xor (k % 2 ^ 32) (k / 2 ^ 32 % 2 ^ 32)

abbrev pub equal_64 : ℕ → ℕ → Bool
equal_64 a b = a == b

-- The keys of `tmq_map_str`, `tmq_map_32` and `tmq_map_64`.
instance abbrev pub str_key : MapKey Str
str_key = record { hash_fn = hash_str; equal_fn = equal_str; equal_fn_iff = str_eq_iff }

abbrev pub key_32 : MapKey ℕ
key_32 = record { hash_fn = hash_32; equal_fn = equal_32; equal_fn_iff = ==_iff }

abbrev pub key_64 : MapKey ℕ
key_64 = record { hash_fn = hash_64; equal_fn = equal_64; equal_fn_iff = ==_iff }
