-- ===== src/Timer/Expired.antt =====
-- The first loop of timer_heap_timeout: which timers it takes from the heap.
use tiny_mqtt.Prelude.{
  ℕ, zero, suc, ◌+◌, ◌-◌, ◌≤◌, ◌<◌, ◌≡◌, refl, ap, ◌∙◌, false, ◌&&◌, Bool-cases, inl, inr,
  if◌then◌else◌, ltb, leb, ◌==◌, arith, List, [], ◌∷◌,
}
use tiny_mqtt.Timer.{TimerHeap, write, sink, timer_heap_pop, pop_expired, expire_of}
use tiny_mqtt.Timer.Order.{IsHeap, top_le}
use tiny_mqtt.Timer.Sink.{without_top, pop-IsHeap}
use tiny_mqtt.Timer.Count.{count, count-write, count-sink, count_zero, zero_count}

count-without_top :
    (weight key : ℕ → ℕ) (n : ℕ) (h : ℕ → ℕ)
    → count weight n (without_top key n (suc n) h) + weight (h 1) ≡ count weight (suc n) h
unfolding count
count-without_top weight key zero h = refl
count-without_top weight key (suc n) h =
    let w = write 1 (h (suc (suc n))) h in
    let moved = count-write weight (suc n) 1 (h (suc (suc n))) h (omega arith) (omega arith) in
    elim (Bool-cases (ltb 1 (suc n))) [
      | inl e ↦
          let some_left : (suc n == 0) ≡ false = ground arith in
          let sunk = count-sink weight key (suc n) (suc n) (w 1) 1 w (omega arith) (omega arith) in
          rw (e, some_left)
            (let kept : count weight (suc n) (sink key (suc n) (suc n) (w 1) 1 w) + weight (h 1)
                  ≡ count weight (suc n) h + weight (h (suc (suc n))) =
                omega arith in
              kept)
      | inr e ↦ rw (e) moved
    ]

-- What is popped: the rest of the heap, and the timers behind the pointers as before.
module _ (h : TimerHeap) (some_left : (h.size == 0) ≡ false) where
  size-pop : (timer_heap_pop h).size ≡ h.size - 1
  unfolding timer_heap_pop
  size-pop = rw (some_left) refl

  timers-pop : (timer_heap_pop h).timers ≡ h.timers
  unfolding timer_heap_pop
  timers-pop = rw (some_left) refl

  heap-pop : (timer_heap_pop h).heap ≡ without_top (expire_of h) (h.size - 1) h.size h.heap
  unfolding timer_heap_pop
  heap-pop = rw (some_left) refl

-- Timers that expire between `low` and `now`, each no later than the next.
pub data IsDue (key : ℕ → ℕ) (now : ℕ) : ℕ → List ℕ → Type 0 where
  no_more_due : {low : ℕ} → IsDue key now low []
  next_due :
      {low p : ℕ} {ps : List ℕ}
      → low ≤ key p
      → key p ≤ now
      → IsDue key now (key p) ps
      → IsDue key now low (p ∷ ps)

abbrev pub before : (ℕ → ℕ) → ℕ → ℕ → ℕ
before key time p = if ltb (key p) time then 1 else 0

unfoldable pub total : (ℕ → ℕ) → List ℕ → ℕ
total weight [] = 0
total weight (p ∷ ps) = weight p + total weight ps

count-without :
    (weight key : ℕ → ℕ) (n last : ℕ) (h : ℕ → ℕ)
    → last ≡ suc n
    → count weight n (without_top key n last h) + weight (h 1) ≡ count weight last h
count-without weight key n last h e = rw (e) (count-without_top weight key n h)

module _ (h : TimerHeap) (some_left : (h.size == 0) ≡ false) where
  count-pop :
      (weight : ℕ → ℕ)
      → count weight (timer_heap_pop h).size (timer_heap_pop h).heap + weight (h.heap 1)
        ≡ count weight h.size h.heap
  count-pop weight =
      rw (size-pop h some_left, heap-pop h some_left)
        (count-without weight (expire_of h) (h.size - 1) h.size h.heap (ground arith))

  pop_keeps_order :
      IsHeap (expire_of h) h.size h.heap
      → IsHeap (expire_of h) (timer_heap_pop h).size (timer_heap_pop h).heap
  pop_keeps_order o =
      rw (size-pop h some_left, heap-pop h some_left)
        (pop-IsHeap (expire_of h) (h.size - 1) h.size h.heap (omega arith) o)

-- No timer of the heap expires before `time`.
abbrev pub IsFrom : (ℕ → ℕ) → ℕ → TimerHeap → Type 0
IsFrom key time h = count (before key time) h.size h.heap ≡ 0

heap-IsFrom :
    (key : ℕ → ℕ) (time : ℕ) (h : TimerHeap)
    → IsHeap key h.size h.heap
    → (0 < h.size → time ≤ key (h.heap 1))
    → IsFrom key time h
heap-IsFrom key time h o top = zero_count (before key time) h.size h.heap (λ i pos le.
    let low = top_le key i h.size i h.heap o (omega arith) pos le in ground (arith, top))

-- What is popped from `h` by the time `now`, and the heap that is left; `weight` counts timers.
pub record IsPopped (key weight : ℕ → ℕ) (now low : ℕ) (h : TimerHeap) (ps : List ℕ)
    (left : TimerHeap) : Type 0 where
  pub due : IsDue key now low ps
  pub none_due : IsFrom key (suc now) left
  pub order : IsHeap key left.size left.heap
  pub kept : total weight ps + count weight left.size left.heap ≡ count weight h.size h.heap
  pub same_timers : left.timers ≡ h.timers

pop-IsPopped :
    (key weight : ℕ → ℕ) (now low : ℕ) (h left : TimerHeap) (ps : List ℕ)
    → (h.size == 0) ≡ false
    → expire_of h ≡ key
    → IsFrom key low h
    → key (h.heap 1) ≤ now
    → IsPopped key weight now (key (h.heap 1)) (timer_heap_pop h) ps left
    → IsPopped key weight now low h (h.heap 1 ∷ ps) left
unfolding total
pop-IsPopped key weight now low h left ps e same from le p = record {
  due =
      next_due
        (let z = count_zero (before key low) h.size h.heap from 1 (omega arith) (ground arith) in
          ground arith)
        le p.due;
  none_due = p.none_due;
  order = p.order;
  kept = let c = count-pop h e weight in let k = p.kept in omega arith;
  same_timers = p.same_timers ∙ timers-pop h e;
}

stop-IsPopped :
    (key weight : ℕ → ℕ) (now low : ℕ) (h : TimerHeap)
    → IsHeap key h.size h.heap
    → (0 < h.size → now < key (h.heap 1))
    → IsPopped key weight now low h [] h
unfolding total
stop-IsPopped key weight now low h o top = record {
  due = no_more_due;
  none_due = heap-IsFrom key (suc now) h o (λ pos. let lt = top pos in omega arith);
  order = o;
  kept = omega arith;
  same_timers = refl;
}

-- Enough turns of the loop pop every timer that has expired.
pop_all :
    (fuel : ℕ) (key weight : ℕ → ℕ) (now low : ℕ) (h : TimerHeap)
    → h.size ≤ fuel
    → expire_of h ≡ key
    → IsFrom key low h
    → IsHeap key h.size h.heap
    → IsPopped key weight now low h (pop_expired fuel now h).0 (pop_expired fuel now h).1
unfolding pop_expired
pop_all zero key weight now low h enough same from o =
    stop-IsPopped key weight now low h o (λ pos. absurd (omega arith))
pop_all (suc fuel) key weight now low h enough same from o =
    elim (Bool-cases (ltb 0 h.size && leb (expire_of h (h.heap 1)) now)) [
      | inl e ↦
          let some_left : (h.size == 0) ≡ false = ground arith in
          let expire : expire_of h (h.heap 1) ≡ key (h.heap 1) = ap (λ k. k (h.heap 1)) same in
          let size : (timer_heap_pop h).size ≤ fuel = ground (arith, size-pop h some_left) in
          let later = heap-IsFrom key (key (h.heap 1)) h o (λ pos. omega arith) in
          let moved = count-pop h some_left (before key (key (h.heap 1))) in
          let order = pop_keeps_order h some_left (rw (same) o) in
          rw (e) (
            pop-IsPopped key weight now low h (pop_expired fuel now (timer_heap_pop h)).1
              (pop_expired fuel now (timer_heap_pop h)).0 some_left same from (ground arith)
              (pop_all fuel key weight now (key (h.heap 1)) (timer_heap_pop h) size
                (ap (λ t p. (t p).expire) (timers-pop h some_left) ∙ same) (omega arith)
                (rw⁻¹ same order)))
      | inr e ↦
          let expire : expire_of h (h.heap 1) ≡ key (h.heap 1) = ap (λ k. k (h.heap 1)) same in
          rw (e) (stop-IsPopped key weight now low h o (λ pos. ground arith))
    ]

-- Started with the size of the heap as fuel, the first loop of timer_heap_timeout pops timers that
-- have expired, each no later than the next, and leaves a heap in order none of whose timers has
-- expired. No timer is lost or doubled, whatever `weight` counts, and the timers are as before.
pub pop_expired-IsPopped :
    (weight : ℕ → ℕ) (now : ℕ) (h : TimerHeap)
    → IsHeap (expire_of h) h.size h.heap
    → IsPopped
        (expire_of h)
        weight
        now
        0
        h
        (pop_expired h.size now h).0
        (pop_expired h.size now h).1
pop_expired-IsPopped weight now h o =
    pop_all h.size (expire_of h) weight now 0 h (omega arith) refl
      (heap-IsFrom (expire_of h) 0 h o (λ pos. omega arith)) o
