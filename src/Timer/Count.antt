-- ===== src/Timer/Count.antt =====
-- How many places of the heap hold a timer with a property: `timer_swim` and `timer_sink` only move
-- timers.
use tiny_mqtt.Prelude.{
  ℕ, zero, suc, ◌+◌, ◌*◌, ◌/◌, ◌≤◌, ◌<◌, ◌≡◌, ◌≢◌, refl, ap, ◌∙◌, ◌&&◌, Bool-cases, inl, inr, ltb,
  leb, ◌==◌, arith,
}
use tiny_mqtt.Timer.{write, swim, sink, first_child}
use tiny_mqtt.Timer.Order.{key-write, write_other}
use tiny_mqtt.Timer.Sink.{first_child-IsFirst}

-- `weight` is 1 on the timers that are counted.
module _ (weight : ℕ → ℕ) where
  -- The weight of the places from 1 to `n`.
  unfoldable pub count : ℕ → (ℕ → ℕ) → ℕ
  count zero h = 0
  count (suc n) h = count n h + weight (h (suc n))

  pub count-write_above : (n i t : ℕ) (h : ℕ → ℕ) → n < i → count n (write i t h) ≡ count n h
  unfolding count
  count-write_above zero i t h lt = refl
  count-write_above (suc n) i t h lt =
      rw (write_other i (suc n) t h (λ e. omega arith), count-write_above n i t h (omega arith))
        refl

  pub count-write :
      (n i t : ℕ) (h : ℕ → ℕ)
      → 1 ≤ i
      → i ≤ n
      → count n (write i t h) + weight (h i) ≡ count n h + weight t
  unfolding count
  count-write zero i t h pos le = absurd (omega arith)
  count-write (suc n) i t h pos le = elim (Bool-cases (i == suc n)) [
    | inl e ↦
        let same : i ≡ suc n = ground arith in
        ground (
          arith,
          key-write weight i (suc n) t h,
          count-write_above n i t h,
          ap (λ z. weight (h z)) same,
        )
    | inr e ↦ ground (arith, key-write weight i (suc n) t h, count-write n i t h pos)
  ]

  -- A timer from `j` is moved to `i`, and then `timer` put at `j`.
  move_then :
      (n i j t : ℕ) (h h' : ℕ → ℕ)
      → 1 ≤ i
      → i ≤ n
      → i ≢ j
      → count n h' + weight (write i (h j) h j) ≡ count n (write i (h j) h) + weight t
      → count n h' + weight (h i) ≡ count n h + weight t
  move_then n i j t h h' pos le ne e =
      let a = count-write n i (h j) h pos le in
      let b = ap weight (write_other i j (h j) h ne) in omega arith

  pub count-swim :
      (key : ℕ → ℕ) (fuel n timer idx : ℕ) (h : ℕ → ℕ)
      → 1 ≤ idx
      → idx ≤ n
      → count n (swim key fuel timer idx h) + weight (h idx) ≡ count n h + weight timer
  unfolding swim
  count-swim key zero n timer idx h pos le = count-write n idx timer h pos le
  count-swim key (suc fuel) n timer idx h pos le =
      let p = idx / 2 in
      elim (Bool-cases (ltb 0 p && ltb (key timer) (key (h p)))) [
        | inl e ↦
            rw (swim, e)
              (move_then n idx p timer h (swim key fuel timer p (write idx (h p) h)) pos le
                (λ q. omega arith)
                (count-swim key fuel n timer p (write idx (h p) h) (ground arith) (omega arith)))
        | inr e ↦ rw (swim, e) (count-write n idx timer h pos le)
      ]

  pub count-sink :
      (key : ℕ → ℕ) (fuel n timer idx : ℕ) (h : ℕ → ℕ)
      → 1 ≤ idx
      → idx ≤ n
      → count n (sink key fuel n timer idx h) + weight (h idx) ≡ count n h + weight timer
  unfolding sink
  count-sink key zero n timer idx h pos le = count-write n idx timer h pos le
  count-sink key (suc fuel) n timer idx h pos le =
      let c = first_child key n h idx in
      elim (Bool-cases (leb (idx * 2) n && ltb (key (h c)) (key timer))) [
        | inl e ↦
            let f = first_child-IsFirst key n idx h (ground arith) in
            let half = f.child in
            let low = f.child_le in
            rw (sink, e)
              (move_then n idx c timer h (sink key fuel n timer c (write idx (h c) h)) pos le
                (λ q. omega arith)
                (count-sink key fuel n timer c (write idx (h c) h) (omega arith) low))
        | inr e ↦ rw (sink, e) (count-write n idx timer h pos le)
      ]

  pub count_zero : (n : ℕ) (h : ℕ → ℕ) → count n h ≡ 0 → (i : ℕ) → 1 ≤ i → i ≤ n → weight (h i) ≡ 0
  unfolding count
  count_zero zero h none_left i pos le = absurd (omega arith)
  count_zero (suc n) h none_left i pos le = elim (Bool-cases (i == suc n)) [
    | inl e ↦ let same : i ≡ suc n = ground arith in ap (λ z. weight (h z)) same ∙ omega arith
    | inr e ↦ count_zero n h (omega arith) i pos (ground arith)
  ]

  pub zero_count :
      (n : ℕ) (h : ℕ → ℕ) → ((i : ℕ) → 1 ≤ i → i ≤ n → weight (h i) ≡ 0) → count n h ≡ 0
  unfolding count
  zero_count zero h all = refl
  zero_count (suc n) h all =
      let rest = zero_count n h (λ i pos le. all i pos (omega arith)) in
      let last = all (suc n) (omega arith) (omega arith) in omega arith
