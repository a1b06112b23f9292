-- ===== src/Timer/Order.antt =====
-- The order of the heap, and `timer_swim`.
use tiny_mqtt.Prelude.{
  ℕ, zero, suc, ◌/◌, ◌≤◌, ◌<◌, ◌≡◌, ◌≢◌, sym, ap, ◌∙◌, ◌&&◌, Bool-cases, inl, inr, if◌then◌else◌,
  ltb, ◌==◌, arith,
}
use tiny_mqtt.Timer.{write, swim, timer_swim}

pub write_same : (i p : ℕ) (h : ℕ → ℕ) → write i p h i ≡ p
unfolding write
write_same i p h = ground arith

pub write_other : (i j p : ℕ) (h : ℕ → ℕ) → i ≢ j → write i p h j ≡ h j
unfolding write
write_other i j p h n = ground arith

module _ (key : ℕ → ℕ) where
  pub key-write :
      (i j p : ℕ) (h : ℕ → ℕ) → key (write i p h j) ≡ (if i == j then key p else key (h j))
  unfolding write
  key-write i j p h = elim (Bool-cases (i == j)) [
    | inl e ↦
        ap (λ b. key (if b then p else h j)) e ∙ sym (ap (λ b. if b then key p else key (h j)) e)
    | inr e ↦
        ap (λ b. key (if b then p else h j)) e ∙ sym (ap (λ b. if b then key p else key (h j)) e)
  ]

  pub key_congr : (h : ℕ → ℕ) (i j : ℕ) → i ≡ j → key (h i) ≡ key (h j)
  key_congr h i j e = ap (λ z. key (h z)) e

  -- No timer expires before its parent.
  abbrev pub IsHeap : ℕ → (ℕ → ℕ) → Type 0
  IsHeap n h = (i : ℕ) → 2 ≤ i → i ≤ n → key (h (i / 2)) ≤ key (h i)

  -- The same with a place at `idx` that is to be filled, up to which the timer can rise.
  pub record IsRising (n : ℕ) (timer idx : ℕ) (h : ℕ → ℕ) : Type 0 where
    pub inside : 1 ≤ idx
    pub apart : (i : ℕ) → 2 ≤ i → i ≤ n → i ≢ idx → i / 2 ≢ idx → key (h (i / 2)) ≤ key (h i)
    pub below : (i : ℕ) → 2 ≤ i → i ≤ n → i / 2 ≡ idx → key timer ≤ key (h i)
    pub across : (i : ℕ) → 2 ≤ i → i ≤ n → i / 2 ≡ idx → 1 ≤ idx / 2 → key (h (idx / 2)) ≤ key (h i)

  rise-IsRising :
      (n timer idx : ℕ) (h : ℕ → ℕ)
      → idx ≤ n
      → IsRising n timer idx h
      → 0 < idx / 2
      → key timer < key (h (idx / 2))
      → IsRising n timer (idx / 2) (write idx (h (idx / 2)) h)
  rise-IsRising n timer idx h le r pos lt = record {
    inside = pos;
    apart = λ i lo hi ne ne₂. ground (
      arith,
      key-write idx (i / 2) (h (idx / 2)) h,
      key-write idx i (h (idx / 2)) h,
      r.apart i lo hi,
      r.across i lo hi,
    );
    below = λ i lo hi e.
        ground (
          arith,
          key-write idx i (h (idx / 2)) h,
          r.apart i lo hi,
          key_congr h (i / 2) (idx / 2) e,
        );
    across = λ i lo hi e up. ground (
      arith,
      key-write idx i (h (idx / 2)) h,
      key-write idx (idx / 2 / 2) (h (idx / 2)) h,
      r.apart i lo hi,
      r.apart (idx / 2) (omega arith) (omega arith),
      key_congr h (i / 2) (idx / 2) e,
    );
  }

  settle-IsHeap :
      (n timer idx : ℕ) (h : ℕ → ℕ)
      → IsRising n timer idx h
      → (1 ≤ idx / 2 → key (h (idx / 2)) ≤ key timer)
      → IsHeap n (write idx timer h)
  settle-IsHeap n timer idx h r top i lo hi = ground (
    arith,
    key-write idx i timer h,
    key-write idx (i / 2) timer h,
    r.apart i lo hi,
    r.below i lo hi,
    key_congr h (i / 2) (idx / 2),
    top,
  )

  -- Enough turns of the loop settle the timer.
  pub swim-IsHeap :
      (fuel n timer idx : ℕ) (h : ℕ → ℕ)
      → idx ≤ fuel
      → idx ≤ n
      → IsRising n timer idx h
      → IsHeap n (swim key fuel timer idx h)
  unfolding swim
  swim-IsHeap zero n timer idx h enough le r = absurd (let i = r.inside in omega arith)
  swim-IsHeap (suc fuel) n timer idx h enough le r =
      let p = idx / 2 in
      elim (Bool-cases (ltb 0 p && ltb (key timer) (key (h p)))) [
        | inl e ↦
            rw (swim, e)
              (swim-IsHeap fuel n timer p (write idx (h p) h) (let i = r.inside in omega arith)
                (omega arith) (rise-IsRising n timer idx h le r (ground arith) (ground arith)))
        | inr e ↦ rw (swim, e) (settle-IsHeap n timer idx h r (λ up. ground arith))
      ]

  pub insert-IsHeap :
      (n timer : ℕ) (h : ℕ → ℕ)
      → IsHeap n h
      → IsHeap (suc n) (timer_swim key (suc n) (write (suc n) timer h))
  insert-IsHeap n timer h o =
      let w = write (suc n) timer h in
      swim-IsHeap (suc n) (suc n) (w (suc n)) (suc n) w (omega arith) (omega arith) (record {
        inside = omega arith;
        apart = λ i lo hi ne ne₂.
            ground (arith, key-write (suc n) i timer h, key-write (suc n) (i / 2) timer h, o i lo);
        below = λ i lo hi e. absurd (omega arith);
        across = λ i lo hi e up. absurd (omega arith);
      })

  -- The first timer expires first.
  pub top_le :
      (fuel n i : ℕ) (h : ℕ → ℕ) → IsHeap n h → i ≤ fuel → 1 ≤ i → i ≤ n → key (h 1) ≤ key (h i)
  top_le zero n i h o enough pos le = absurd (omega arith)
  top_le (suc fuel) n i h o enough pos le = elim (Bool-cases (i == 1)) [
    | inl e ↦ ground (arith, key_congr h i 1)
    | inr e ↦
        let up = top_le fuel n (i / 2) h o (ground arith) (ground arith) (omega arith) in
        let one = o i (ground arith) le in omega arith
  ]
