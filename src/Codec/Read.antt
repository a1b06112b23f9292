-- ===== src/Codec/Read.antt =====
-- Reading from the buffer of a connection: `tmq_buffer_read` into a byte, a uint16_t or a string
-- that is filled with zeros.
use tiny_mqtt.Prelude.{
  ℕ, zero, suc, ◌+◌, ◌*◌, ◌-◌, Option, none, some, [], ◌∷◌, ◌++◌, Str, take, drop, length, ◌≡◌,
  refl,
}

infixl 10 ◌>>=◌
-- A read that fails ends the chain.
abbrev pub ◌>>=◌ : {A B : Type 0} → Option A → (A → Option B) → Option B
none >>= f = none
some x >>= f = f x

-- A chain that gives a value had one at its first step.
pub bind_some :
    {A B : Type 0} (o : Option A) (f : A → Option B) (b : B)
    → (o >>= f) ≡ some b
    → (a : A) × (o ≡ some a) × (f a ≡ some b)
bind_some (some a) f b e = (a, refl, e)
bind_some none f b e = let absurdity : none ≡ some b = e in cc

unfoldable pub zeros : ℕ → Str
zeros zero = []
zeros (suc n) = 0 ∷ zeros n

-- `none`: the byte is left as it was, not initialised.
abbrev pub read8 : Str → Option (ℕ × Str)
read8 [] = none
read8 (x ∷ rest) = some (x, rest)

-- The bytes are in network order. `none`: at least one of them is left as it was.
abbrev pub read16 : Str → Option (ℕ × Str)
read16 [] = none
read16 (x ∷ []) = none
read16 (x ∷ y ∷ rest) = some (x * 256 + y, rest)

-- The bytes that are missing stay zero.
unfoldable pub read_str : ℕ → Str → Str × Str
unfolding zeros
read_str n buf = (take n buf ++ zeros (n - length buf), drop n buf)

-- A 16-bit length and the string.
abbrev pub read_field : Str → Option (Str × Str)
unfolding read_str
read_field buf = do (n, rest) ← read16 buf; some (read_str n rest)
