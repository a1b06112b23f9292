-- ===== src/Timer/Sink.antt =====
-- `timer_sink` and the order of the heap.
use tiny_mqtt.Prelude.{
  false, ℕ, zero, suc, ◌+◌, ◌*◌, ◌/◌, ◌≤◌, ◌<◌, ◌≡◌, ◌≢◌, ◌&&◌, Bool-cases, inl, inr, if◌then◌else◌,
  ltb, leb, ◌==◌, arith,
}
use tiny_mqtt.Timer.{write, sink, timer_sink, first_child}
use tiny_mqtt.Timer.Order.{IsHeap, key-write, key_congr}

module _ (key : ℕ → ℕ) where
  -- The order of the heap with a place at `idx` that is to be filled, down to which the timer can
  -- sink.
  pub record IsSinking (n : ℕ) (timer idx : ℕ) (h : ℕ → ℕ) : Type 0 where
    pub inside : 1 ≤ idx
    pub apart : (i : ℕ) → 2 ≤ i → i ≤ n → i ≢ idx → i / 2 ≢ idx → key (h (i / 2)) ≤ key (h i)
    pub above : 1 ≤ idx / 2 → key (h (idx / 2)) ≤ key timer
    pub across : (i : ℕ) → 2 ≤ i → i ≤ n → i / 2 ≡ idx → 1 ≤ idx / 2 → key (h (idx / 2)) ≤ key (h i)

  -- A child of `idx`, and no child expires before it.
  pub record IsFirst (n idx c : ℕ) (h : ℕ → ℕ) : Type 0 where
    pub child : c / 2 ≡ idx
    pub child_le : c ≤ n
    pub first : (i : ℕ) → i / 2 ≡ idx → i ≤ n → key (h c) ≤ key (h i)

  pub first_child-IsFirst :
      (n idx : ℕ) (h : ℕ → ℕ) → idx * 2 ≤ n → IsFirst n idx (first_child key n h idx) h
  unfolding first_child
  first_child-IsFirst n idx h le =
      elim (Bool-cases (leb (idx * 2 + 1) n && ltb (key (h (idx * 2 + 1))) (key (h (idx * 2))))) [
        | inl e ↦ rw (e) (record {
          child = omega arith;
          child_le = ground arith;
          first = λ i half lo.
              ground (arith, key_congr key h i (idx * 2), key_congr key h i (idx * 2 + 1));
        })
        | inr e ↦ rw (e) (record {
          child = omega arith;
          child_le = le;
          first = λ i half lo.
              ground (arith, key_congr key h i (idx * 2), key_congr key h i (idx * 2 + 1));
        })
      ]

  drop-IsSinking :
      (n timer idx c : ℕ) (h : ℕ → ℕ)
      → IsSinking n timer idx h
      → IsFirst n idx c h
      → key (h c) < key timer
      → IsSinking n timer c (write idx (h c) h)
  drop-IsSinking n timer idx c h s f lt = record {
    inside = let i = s.inside in let e = f.child in omega arith;
    apart = λ i lo hi ne ne₂. ground (
      arith,
      s.inside,
      f.child,
      f.child_le,
      key-write key idx (i / 2) (h c) h,
      key-write key idx i (h c) h,
      s.apart i lo hi,
      s.across c,
      f.first i,
      key_congr key h (i / 2) (idx / 2),
    );
    above = λ up. ground (arith, f.child, key-write key idx (c / 2) (h c) h);
    across = λ i lo hi e up. ground (
      arith,
      s.inside,
      f.child,
      key-write key idx i (h c) h,
      key-write key idx (c / 2) (h c) h,
      s.apart i lo hi,
      key_congr key h (i / 2) c,
    );
  }

  land-IsHeap :
      (n timer idx : ℕ) (h : ℕ → ℕ)
      → IsSinking n timer idx h
      → ((i : ℕ) → i / 2 ≡ idx → i ≤ n → key timer ≤ key (h i))
      → IsHeap key n (write idx timer h)
  land-IsHeap n timer idx h s low i lo hi = ground (
    arith,
    s.inside,
    key-write key idx i timer h,
    key-write key idx (i / 2) timer h,
    s.apart i lo hi,
    low i,
    s.above,
    key_congr key h (i / 2) (idx / 2),
  )

  -- Enough turns of the loop settle the timer.
  pub sink-IsHeap :
      (fuel n timer idx : ℕ) (h : ℕ → ℕ)
      → n < fuel + idx
      → IsSinking n timer idx h
      → IsHeap key n (sink key fuel n timer idx h)
  unfolding sink
  sink-IsHeap zero n timer idx h enough s =
      land-IsHeap n timer idx h s (λ i half lo. absurd (let k = s.inside in omega arith))
  sink-IsHeap (suc fuel) n timer idx h enough s =
      let c = first_child key n h idx in
      elim (Bool-cases (leb (idx * 2) n && ltb (key (h c)) (key timer))) [
        | inl e ↦
            let f = first_child-IsFirst n idx h (ground arith) in
            rw (sink, e)
              (sink-IsHeap fuel n timer c (write idx (h c) h)
                (let k = s.inside in let e₂ = f.child in omega arith)
                (drop-IsSinking n timer idx c h s f (ground arith)))
        | inr e ↦
            rw (sink, e)
              (land-IsHeap n timer idx h s (λ i half lo.
                let f = first_child-IsFirst n idx h (omega arith) in ground (arith, f.first i)))
      ]

  -- The array without its first timer, of which the `n` places up to `last` are left.
  abbrev pub without_top : ℕ → ℕ → (ℕ → ℕ) → ℕ → ℕ
  without_top n last h = let w = write 1 (h last) h in if ltb 1 n then timer_sink key n 1 w else w

  pub pop-IsHeap :
      (n last : ℕ) (h : ℕ → ℕ) → n ≤ last → IsHeap key last h → IsHeap key n (without_top n last h)
  pop-IsHeap n last h le o =
      let w = write 1 (h last) h in
      elim (Bool-cases (ltb 1 n)) [
        | inl e ↦
            let some_left : (n == 0) ≡ false = ground arith in
            rw (e, some_left)
              (sink-IsHeap n n (w 1) 1 w (omega arith) (record {
                inside = omega arith;
                apart = λ i lo hi ne ne₂. ground (
                  arith,
                  key-write key 1 i (h last) h,
                  key-write key 1 (i / 2) (h last) h,
                  o i lo,
                );
                above = λ up. absurd (omega arith);
                across = λ i lo hi e up. absurd (omega arith);
              }))
        | inr e ↦ λ i lo hi. absurd (ground arith)
      ]
