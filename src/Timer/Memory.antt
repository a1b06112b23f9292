-- ===== src/Timer/Memory.antt =====
-- How many timers the memory of the heap is enough for.
use tiny_mqtt.Prelude.{
  ℕ, suc, ◌+◌, ◌*◌, ◌≤◌, ◌<◌, ◌≡◌, refl, true, false, Bool-cases, inl, inr, ◌↔◌, ltb, ◌==◌, arith,
  List, [], ◌∷◌, length, Option, some, none,
}
use tiny_mqtt.Codec.Read.{◌>>=◌}
use tiny_mqtt.Timer.{
  TmqTimer, TimerHeap, timer_heap_init, timer_heap_insert, timer_heap_add, inserted, register_timer,
  grown_bytes, pointer_bytes,
}
use tiny_mqtt.Timer.Armed.{size-add, timer_heap_add-register}

-- Timers that are added one after the other.
unfoldable pub add_all : ℕ → List ℕ → TimerHeap → Option TimerHeap
add_all now [] h = some h
add_all now (p ∷ ps) h = do r ← timer_heap_add now p h; add_all now ps r.1

-- A heap that was never full.
record IsFresh (h : TimerHeap) : Type 0 where
  capacity : h.capacity ≡ 16
  memory : h.heap_bytes ≡ 129
  room : h.size ≤ 15

capacity-add :
    (now timer : ℕ) (h : TimerHeap)
    → (h.size == h.capacity) ≡ false
    → (register_timer now timer (inserted timer h)).1.capacity ≡ h.capacity
unfolding register_timer inserted
capacity-add now timer h e = elim (Bool-cases (inserted timer h).0) [
  | inl f ↦ rw (f, e) refl
  | inr f ↦ rw (f, e) refl
]

heap_bytes-add :
    (now timer : ℕ) (h : TimerHeap)
    → (h.size == h.capacity) ≡ false
    → (register_timer now timer (inserted timer h)).1.heap_bytes ≡ h.heap_bytes
unfolding register_timer inserted
heap_bytes-add now timer h e = elim (Bool-cases (inserted timer h).0) [
  | inl f ↦ rw (f, e) refl
  | inr f ↦ rw (f, e) refl
]

add_full :
    (now timer : ℕ) (h : TimerHeap) → IsFresh h → h.size ≡ 15 → timer_heap_add now timer h ≡ none
unfolding timer_heap_add timer_heap_insert
add_full now timer h v full =
    let e : (h.size == h.capacity) ≡ false = let c = v.capacity in ground arith in
    let f : ltb h.heap_bytes (pointer_bytes * (h.size + 2)) ≡ true =
      let m = v.memory in ground arith in
    rw (e, f) refl

add_all-none :
    (now : ℕ) (ps : List ℕ) (h : TimerHeap)
    → IsFresh h
    → (add_all now ps h ≡ none) ↔ (15 < h.size + length ps)
unfolding add_all
add_all-none now [] h v = (λ e. cc, λ lt. absurd (let r = v.room in omega arith))
add_all-none now (p ∷ ps) h v =
    let c = v.capacity in
    let m = v.memory in
    let r = v.room in
    elim (Bool-cases (h.size == 15)) [
      | inl e ↦
          let full : h.size ≡ 15 = ground arith in
          (λ q. omega arith, λ lt. rw (add_full now p h v full) refl)
      | inr e ↦
          let next : TimerHeap = (register_timer now p (inserted p h)).1 in
          let not_full : (h.size == h.capacity) ≡ false = ground arith in
          let fits : pointer_bytes * (h.size + 2) ≤ grown_bytes h = rw (not_full) (ground arith) in
          let size : next.size ≡ suc h.size = size-add now p h in
          let later = add_all-none now ps next (record {
            capacity = rw (capacity-add now p h not_full) c;
            memory = rw (heap_bytes-add now p h not_full) m;
            room = ground arith;
          }) in
          rw (timer_heap_add-register now p h fits)
            (λ q. let lt = later.0 q in omega arith, λ lt. later.1 (omega arith))
    ]

-- Timers are added, one after the other, to a heap that was just initialised. That ends in a write
-- behind the memory of the heap exactly if there are more than fifteen.
pub add_all-timer_heap_init :
    (timers : ℕ → TmqTimer) (now : ℕ) (ps : List ℕ)
    → (add_all now ps (timer_heap_init timers) ≡ none) ↔ (15 < length ps)
add_all-timer_heap_init timers now ps =
    let (fault, many) =
      add_all-none now ps (timer_heap_init timers)
        (record { capacity = refl; memory = refl; room = omega arith }) in
    (λ q. let lt = fault q in omega arith, λ lt. many (omega arith))
