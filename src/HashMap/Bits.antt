-- ===== src/HashMap/Bits.antt =====
-- `&` and `|` on variables: how large their results are.
use Prim.Native.Nat.{digits, bit_and, bit_or, max, bit_and-bitwise, bit_or-bitwise}
use native.Mathlib.Nat.{pow-suc, one-le-pow}
use tiny_mqtt.Prelude.{
  ℕ, zero, suc, ◌+◌, ◌*◌, ◌/◌, ◌%◌, ◌^◌, ◌≤◌, ◌<◌, min, ◌≡◌, refl, ap, ◌∙◌, ◌-◌, arith,
}

-- The count of digits to go does not matter as long as it is enough.
enough_digits :
    (z : ℕ → ℕ) (f : ℕ → ℕ → ℕ) (n m a b : ℕ) → a ≤ n → a ≤ m → digits z f n a b ≡ digits z f m a b
enough_digits z f zero zero zero b p q = refl
enough_digits z f zero (suc m) zero b p q = refl
enough_digits z f (suc n) zero zero b p q = refl
enough_digits z f (suc n) (suc m) zero b p q = refl
enough_digits z f zero m (suc a) b p q = absurd (omega arith)
enough_digits z f (suc n) zero (suc a) b p q = absurd (omega arith)
enough_digits z f (suc n) (suc m) (suc a) b p q =
    rw (enough_digits z f n m (suc a / 2) (b / 2) (omega arith) (omega arith))

and_digit : (a b : ℕ) → bit_and a b ≡ bit_and (a / 2) (b / 2) * 2 + min (a % 2) (b % 2)
and_digit zero b = simp bit_and-bitwise (omega arith)
and_digit (suc a) b =
    let e =
      enough_digits (λ i. 0) min a (suc a / 2) (suc a / 2) (b / 2) (omega arith) (omega arith) in
    simp bit_and-bitwise (rw e refl)

or_digit : (a b : ℕ) → bit_or a b ≡ bit_or (a / 2) (b / 2) * 2 + max (a % 2) (b % 2)
or_digit zero b = simp bit_or-bitwise (omega arith)
or_digit (suc a) b =
    let e =
      enough_digits (λ i. i) max a (suc a / 2) (suc a / 2) (b / 2) (omega arith) (omega arith) in
    simp bit_or-bitwise (rw e refl)

and_le : (n a b : ℕ) → a ≤ n → bit_and a b ≤ b
and_le zero zero b h = simp bit_and-bitwise (omega arith)
and_le zero (suc a) b h = absurd (omega arith)
and_le (suc n) a b h = omega (arith, and_digit a b, and_le n (a / 2) (b / 2) (omega arith))

-- A mask bounds what passes it.
pub bit_and_le : (a b : ℕ) → bit_and a b ≤ b
bit_and_le a b = and_le a a b (omega arith)

pub bit_or_lt : (k a b : ℕ) → a < 2 ^ k → b < 2 ^ k → bit_or a b < 2 ^ k
bit_or_lt zero zero zero p q = omega arith
bit_or_lt zero zero (suc b) p q = absurd (omega arith)
bit_or_lt zero (suc a) b p q = absurd (omega arith)
bit_or_lt (suc k) a b p q =
    omega
      (arith, or_digit a b, pow-suc 2 k, bit_or_lt k (a / 2) (b / 2) (omega arith) (omega arith))

or_ge : (n a b : ℕ) → a ≤ n → a ≤ bit_or a b
or_ge zero a b h = omega arith
or_ge (suc n) a b h = omega (arith, or_digit a b, or_ge n (a / 2) (b / 2) (omega arith))

pub bit_or_ge : (a b : ℕ) → a ≤ bit_or a b
bit_or_ge a b = or_ge a a b (omega arith)

mask_fields : (k q r : ℕ) → r < 2 ^ k → bit_and (q * 2 ^ k + r) (2 ^ k - 1) ≡ r
mask_fields zero q r h = omega (arith, bit_and_le (q * 2 ^ 0 + r) 0)
mask_fields (suc k) q r h =
    let e : q * 2 ^ suc k ≡ 2 * (q * 2 ^ k) = omega (arith, ap (λ (t : ℕ). q * t) (pow-suc 2 k)) in
    ground (
      arith,
      e,
      pow-suc 2 k,
      one-le-pow k 2,
      and_digit (q * 2 ^ suc k + r) (2 ^ suc k - 1),
      mask_fields k q (r / 2) (omega (arith, pow-suc 2 k)),
    )

-- A mask of ones is a remainder.
pub bit_and_mask : (k a : ℕ) → bit_and a (2 ^ k - 1) ≡ a % 2 ^ k
bit_and_mask k a = ground (arith, one-le-pow k 2, mask_fields k (a / 2 ^ k) (a % 2 ^ k))

-- The number shifted right, one place at a time.
abbrev pub shifted : ℕ → ℕ → ℕ
shifted zero x = x
shifted (suc i) x = shifted i (x / 2)

pub shifted-bit_or : (i a b : ℕ) → shifted i (bit_or a b) ≡ bit_or (shifted i a) (shifted i b)
shifted-bit_or zero a b = refl
shifted-bit_or (suc i) a b =
    let e : bit_or a b / 2 ≡ bit_or (a / 2) (b / 2) = omega (arith, or_digit a b) in
    ap (λ t. shifted i t) e ∙ shifted-bit_or i (a / 2) (b / 2)

pub bit_or_parity : (a b : ℕ) → bit_or a b % 2 ≡ max (a % 2) (b % 2)
bit_or_parity a b = omega (arith, or_digit a b)
