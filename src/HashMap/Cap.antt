-- ===== src/HashMap/Cap.antt =====
-- The capacity that `tmq_map_alloc_buckets` computes is a power of two.
use Prim.Native.Nat.{bit_or, max}
use native.Mathlib.Nat.{pow-suc, one-le-pow}
use tiny_mqtt.Prelude.{
  ℕ, zero, suc, ◌+◌, ◌-◌, ◌*◌, ◌/◌, ◌%◌, ◌^◌, ◌≤◌, ◌<◌, ◌≡◌, refl, sym, ap, ◌∙◌, ◌==◌, ltb,
  if◌then◌else◌, some, Bool-cases, inl, inr, arith,
}
use tiny_mqtt.HashMap.Bits.{shifted, shifted-bit_or, bit_or_parity, bit_and_mask, bit_and_le}
use tiny_mqtt.HashMap.Chain.{none-ne-some, some_injective}
use tiny_mqtt.HashMap.{smear, round_up, alloc_buckets, bucket_index}

-- The lowest digit of `y`, shifted, says whether any of the `n` lowest digits of `x`, shifted as
-- far, is set; `m` is 2^n.
abbrev Gathers : ℕ → ℕ → ℕ → Type 0
Gathers m y x = (i : ℕ) → shifted i y % 2 ≡ (if shifted i x % m == 0 then 0 else 1)

shifted-div :
    (c : ℕ) → ((x : ℕ) → x / c / 2 ≡ x / 2 / c) → (i x : ℕ) → shifted i (x / c) ≡ shifted i x / c
shifted-div c h zero x = refl
shifted-div c h (suc i) x = ap (λ t. shifted i t) (h x) ∙ shifted-div c h i (x / 2)

shifted_add : (n i j x : ℕ) → j ≡ n + i → shifted i (shifted n x) ≡ shifted j x
shifted_add zero i j x h = let e : i ≡ j = omega arith in ap (λ k. shifted k x) e
shifted_add (suc n) i zero x h = absurd (omega arith)
shifted_add (suc n) i (suc j) x h = shifted_add n i j (x / 2) (omega arith)

-- One line of the code: a shift by as many digits as are gathered doubles them.
gather :
    (n m y x : ℕ)
    → ((z : ℕ) → z / m / 2 ≡ z / 2 / m)
    → ((z : ℕ) → shifted n z ≡ z / m)
    → ((z a b : ℕ)
        → a ≡ (if z % m == 0 then 0 else 1)
        → b ≡ (if z / m % m == 0 then 0 else 1)
        → max a b ≡ (if z % (m * m) == 0 then 0 else 1))
    → Gathers m y x
    → Gathers (m * m) (bit_or y (y / m)) x
gather n m y x h shift both g i =
    let e : shifted i (y / m) ≡ shifted (n + i) y =
      ap (λ t. shifted i t) (sym (shift y)) ∙ shifted_add n i (n + i) y refl in
    let e₂ : shifted (n + i) x ≡ shifted i x / m =
      sym (shifted_add n i (n + i) x refl)
      ∙ ap (λ t. shifted i t) (shift x)
      ∙ shifted-div m h i x in
    ap (λ t. t % 2) (shifted-bit_or i y (y / m))
    ∙ bit_or_parity (shifted i y) (shifted i (y / m))
    ∙ both (shifted i x) _ _ (g i)
        (ap (λ t. t % 2) e ∙ g (n + i) ∙ ap (λ t. if t % m == 0 then 0 else 1) e₂)

gathered : (x : ℕ) → Gathers 4294967296 (smear x) x
unfolding smear
gathered x =
    let g₀ : Gathers 2 x x = λ i. ground arith in
    let g₁ = gather 1 2 x x (λ z. omega arith) (λ z. omega arith) (λ z a b p q. ground arith) g₀ in
    let g₂ = gather 2 4 _ x (λ z. omega arith) (λ z. omega arith) (λ z a b p q. ground arith) g₁ in
    let g₃ = gather 4 16 _ x (λ z. omega arith) (λ z. omega arith) (λ z a b p q. ground arith) g₂ in
    let g₄ =
      gather 8 256 _ x (λ z. omega arith) (λ z. omega arith) (λ z a b p q. ground arith) g₃ in
    gather 16 65536 _ x (λ z. omega arith) (λ z. omega arith) (λ z a b p q. ground arith) g₄

-- All digits of `y` are clear.
all_clear : (n y : ℕ) → y ≤ n → ((i : ℕ) → shifted i y % 2 ≡ 0) → y ≡ 0
all_clear zero y h clear = omega arith
all_clear (suc n) y h clear =
    omega (arith, clear 0, all_clear n (y / 2) (omega (arith, clear 0)) (λ i. clear (suc i)))

shifted_zero : (i : ℕ) → shifted i 0 ≡ 0
shifted_zero zero = refl
shifted_zero (suc i) = shifted_zero i

-- The power of two next above `x`.
pub record IsRounded (x c : ℕ) : Type 0 where
  pub exponent : ℕ
  pub power : c ≡ 2 ^ exponent
  pub above : x < c
  pub next : c ≤ 2 * x + (1 - x)

ones_below : (n x y : ℕ) → x ≤ n → x < 4294967296 → Gathers 4294967296 y x → IsRounded x (y + 1)
ones_below n zero y h lt g =
    let e =
      all_clear y y (omega arith)
        (λ i. g i ∙ ap (λ t. if t % 4294967296 == 0 then 0 else 1) (shifted_zero i)) in
    record { exponent = 0; power = omega arith; above = omega arith; next = omega arith }
ones_below zero (suc x) y h lt g = absurd (omega arith)
ones_below (suc n) (suc x) y h lt g =
    let r = ones_below n (suc x / 2) (y / 2) (omega arith) (omega arith) (λ i. g (suc i)) in
    let odd : y % 2 ≡ 1 = let g₀ = g 0 in ground arith in
    let k = r.exponent in
    let p : y / 2 + 1 ≡ 2 ^ k = r.power in
    record {
      exponent = suc k;
      power = omega (arith, p, pow-suc 2 k);
      above = omega (arith, r.above);
      next = omega (arith, r.next);
    }

pub smear-IsRounded : (x : ℕ) → x < 4294967296 → IsRounded x (smear x + 1)
smear-IsRounded x h = ones_below x x (smear x) (omega arith) h (gathered x)

-- A power of two below 2^32.
pub record IsCap (c : ℕ) : Type 0 where
  pub log : ℕ
  pub log_le : log ≤ 31
  pub power : c ≡ 2 ^ log

pow_lt : (k n : ℕ) → 2 ^ k < 2 ^ n → k < n
pow_lt k zero h = absurd (omega (arith, one-le-pow k 2))
pow_lt zero (suc n) h = omega arith
pow_lt (suc k) (suc n) h = omega (arith, pow_lt k n (omega (arith, pow-suc 2 k, pow-suc 2 n)))

pow_le : (k n : ℕ) → k ≤ n → 2 ^ k ≤ 2 ^ n
pow_le zero n h = one-le-pow n 2 (omega arith)
pow_le (suc k) zero h = absurd (omega arith)
pow_le (suc k) (suc n) h = omega (arith, pow_le k n (omega arith), pow-suc 2 k, pow-suc 2 n)

pub round_up-IsCap : (v : ℕ) → 0 < v → v ≤ 2147483648 → IsCap (round_up v) × (v ≤ round_up v)
unfolding round_up
round_up-IsCap v h le =
    let r = smear-IsRounded ((v + 4294967295) % 4294967296) (omega arith) in
    let e : smear ((v + 4294967295) % 4294967296) + 1 ≡ 2 ^ r.exponent = r.power in
    let a = r.above in
    let b = r.next in
    let c : IsCap (round_up v) = record {
      log = r.exponent;
      log_le = omega (arith, pow_lt r.exponent 32 (omega arith));
      power = omega arith;
    } in
    (c, omega arith)

-- Doubling a power of two that can be doubled in 32 bits.
pub alloc_buckets-IsCap_double : (cap c : ℕ) → IsCap cap → alloc_buckets cap 2 ≡ some c → IsCap c
unfolding alloc_buckets
alloc_buckets-IsCap_double cap c v e = elim (Bool-cases (ltb (4294967295 / 2) cap)) [
  | inl p ↦ absurd (none-ne-some (rw p at e))
  | inr p ↦
      let small : v.log < 31 =
        pow_lt v.log 31
          (let q = v.power in let w : cap ≤ 2147483647 = ground arith in omega arith) in
      let le = pow_le v.log 30 (omega arith) in
      let pos = one-le-pow v.log 2 in
      let k : round_up (if ltb cap 8 then 8 else cap * 2 % 4294967296) ≡ c =
        some_injective (rw p at e) in
      rw (← k) (round_up-IsCap _ (ground arith) (ground arith)).0
]

pub alloc_buckets-IsCap_new :
    (cap c : ℕ) → cap ≤ 2147483648 → alloc_buckets cap 1 ≡ some c → IsCap c
unfolding alloc_buckets
alloc_buckets-IsCap_new cap c h e = elim (Bool-cases (ltb (4294967295 / 1) cap)) [
  | inl p ↦ absurd (none-ne-some (rw p at e))
  | inr p ↦
      let k : round_up (if ltb cap 8 then 8 else cap * 1 % 4294967296) ≡ c =
        some_injective (rw p at e) in
      rw (← k) (round_up-IsCap _ (ground arith) (ground arith)).0
]

-- The index of a bucket, by the bits that the code takes, is the remainder by the capacity, and so
-- less than it.
pub bucket_index-lt :
    (cap hash : ℕ)
    → IsCap cap
    → (bucket_index cap hash ≡ hash % cap) × (bucket_index cap hash < cap)
unfolding bucket_index
bucket_index-lt cap hash v =
    let pos = one-le-pow v.log 2 in
    let le = pow_le v.log 31 v.log_le in
    let q = v.power in
    let e : (cap + 4294967295) % 4294967296 ≡ 2 ^ v.log - 1 = omega arith in
    rw (e, v.power) (bit_and_mask v.log hash, omega (arith, bit_and_le hash (2 ^ v.log - 1)))
