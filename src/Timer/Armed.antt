-- ===== src/Timer/Armed.antt =====
-- tmq_timer_heap_add, and the time that the timer fd is set to.
use tiny_mqtt.Prelude.{
  ℕ, suc, ◌+◌, ◌*◌, ◌≤◌, ◌/◌, ◌<◌, ◌≡◌, refl, sym, ap, ◌∙◌, Bool, true, false, not, Bool-cases, inl,
  inr, ◌⊎◌, if◌then◌else◌, ltb, ◌==◌, arith, List, [], ◌∷◌, ◌++◌, Option, some, none,
}
use tiny_mqtt.Codec.Read.{◌>>=◌}
use tiny_mqtt.Timer.{
  TimerHeap, write, timer_swim, timer_heap_insert, inserted, register_timer, timer_heap_add,
  timer_heap_timeout, expire_of, pointer_bytes, grown_bytes, arm_first, set_timeout, is_top,
  pop_expired, put_back, call_back, set_timer,
}
use tiny_mqtt.Timer.Order.{IsHeap, write_same, insert-IsHeap}
use tiny_mqtt.Timer.Count.{count, count-write_above, count-swim}

unfoldable pub last_of : List ℕ → Option ℕ
last_of [] = none
last_of (x ∷ []) = some x
last_of (x ∷ y ∷ ys) = last_of (y ∷ ys)

last_of-append : (xs : List ℕ) (y : ℕ) → last_of (xs ++ (y ∷ [])) ≡ some y
unfolding last_of
last_of-append [] y = refl
last_of-append (x ∷ []) y = refl
last_of-append (x ∷ z ∷ xs) y = last_of-append (z ∷ xs) y

-- The timer fd was last set to the time at which the first timer expires.
abbrev pub IsArmed : TimerHeap → Type 0
IsArmed h = (h.size ≡ 0) ⊎ (last_of h.timeouts ≡ some (expire_of h (h.heap 1)))

set_timeout-IsArmed : (h : TimerHeap) → IsArmed (set_timeout true h)
set_timeout-IsArmed h = inr (last_of-append h.timeouts (expire_of h (h.heap 1)))

-- Unless there was a fault.
abbrev pub IsArmedAfter : Option TimerHeap → Type 0
IsArmedAfter none = Unit
IsArmedAfter (some h) = IsArmed h

arm_first-IsArmed : (h : TimerHeap) → IsArmed (arm_first h)
arm_first-IsArmed h = elim (Bool-cases (ltb 0 h.size)) [
  | inl e ↦ rw (e) (set_timeout-IsArmed h)
  | inr e ↦ rw (e) (inl (ground arith))
]

put_back-IsArmed : (o : Option TimerHeap) → IsArmedAfter (o >>= λ h. some (arm_first h))
put_back-IsArmed none = tt
put_back-IsArmed (some h) = arm_first-IsArmed h

call_back-IsArmed :
    (now : ℕ) (ps : List ℕ) (o : Option TimerHeap)
    → IsArmedAfter (o >>= λ h. put_back now ps h >>= λ h'. some (arm_first h'))
call_back-IsArmed now ps none = tt
call_back-IsArmed now ps (some h) = put_back-IsArmed (put_back now ps h)

timer_heap_timeout-IsArmed :
    (cb : ℕ → TimerHeap → Option TimerHeap) (now : ℕ) (h : TimerHeap)
    → IsArmedAfter (timer_heap_timeout cb now h)
unfolding timer_heap_timeout
timer_heap_timeout-IsArmed cb now h =
    let r = pop_expired h.size now h in
    elim (Bool-cases (h.size == 0)) [
      | inl e ↦ rw (e) (inl (ground arith))
      | inr e ↦ rw (e) (call_back-IsArmed now r.0 (call_back cb r.0 r.1))
    ]

count-insert :
    (weight key : ℕ → ℕ) (n timer : ℕ) (h : ℕ → ℕ)
    → count weight (suc n) (timer_swim key (suc n) (write (suc n) timer h))
      ≡ count weight n h + weight timer
unfolding count
count-insert weight key n timer h =
    let w = write (suc n) timer h in
    let swum =
      count-swim weight key (suc n) (suc n) (w (suc n)) (suc n) w (omega arith) (omega arith) in
    let at_end = ap weight (write_same (suc n) timer h) in
    let low = count-write_above weight n (suc n) timer h (omega arith) in omega arith

-- Only the id of a timer is set.
expire_set_id :
    (timer : ℕ) (id : ℕ × ℕ) (h : TimerHeap) (p : ℕ)
    → expire_of (set_timer timer (record (h.timers timer) { timer_id = id }) h) p ≡ expire_of h p
expire_set_id timer id h p = elim (Bool-cases (timer == p)) [
  | inl e ↦
      let same : timer ≡ p = ground arith in rw (expire_of, set_timer, e) (ap (expire_of h) same)
  | inr e ↦ rw (expire_of, set_timer, e) refl
]

is_top-old :
    (p q n : ℕ) (b : Bool)
    → ltb 0 n ≡ b
    → not (is_top p (if b then some q else none)) ≡ false
    → (0 < n) × (p ≡ q)
is_top-old p q n true e f = (ground arith, ground arith)
is_top-old p q n false e f = absurd (ground arith)

add-IsArmed :
    (now timer : ℕ) (h : TimerHeap)
    → IsArmed h
    → IsArmed (register_timer now timer (inserted timer h)).1
unfolding register_timer inserted
add-IsArmed now timer h armed =
    let h₁ = (inserted timer h).1 in
    let top = h₁.heap 1 in
    elim (Bool-cases (inserted timer h).0) [
      | inl e ↦ rw (e) (
          inr (
            last_of-append h.timeouts (expire_of h top)
            ∙ ap (λ z. some z) (sym (expire_set_id timer (timer, now) h top))))
      | inr e ↦
          let (some_left, same) = is_top-old top (h.heap 1) h.size (ltb 0 h.size) refl e in
          rw (e) (elim armed [
            | inl empty ↦ absurd (omega arith)
            | inr set ↦ inr (
                set
                ∙ ap (λ z. some z)
                    (ap (expire_of h) (sym same) ∙ sym (expire_set_id timer (timer, now) h top)))
          ])
    ]

-- The fields after tmq_timer_heap_add.
module _ (now timer : ℕ) (h : TimerHeap) where
  pub size-add : (register_timer now timer (inserted timer h)).1.size ≡ suc h.size
  unfolding register_timer inserted
  size-add = elim (Bool-cases (inserted timer h).0) [ inl e ↦ rw (e) refl | inr e ↦ rw (e) refl ]

  heap-add :
      (register_timer now timer (inserted timer h)).1.heap
      ≡ timer_swim (expire_of h) (suc h.size) (write (suc h.size) timer h.heap)
  unfolding register_timer inserted
  heap-add = elim (Bool-cases (inserted timer h).0) [ inl e ↦ rw (e) refl | inr e ↦ rw (e) refl ]

  expire_of-add :
      (p : ℕ) → expire_of (register_timer now timer (inserted timer h)).1 p ≡ expire_of h p
  unfolding register_timer inserted
  expire_of-add p = elim (Bool-cases (inserted timer h).0) [
    | inl e ↦ rw (e) (expire_set_id timer (timer, now) h p)
    | inr e ↦ rw (e) (expire_set_id timer (timer, now) h p)
  ]

  add-IsHeap :
      IsHeap (expire_of h) h.size h.heap
      → IsHeap
          (expire_of (register_timer now timer (inserted timer h)).1)
          (register_timer now timer (inserted timer h)).1.size
          (register_timer now timer (inserted timer h)).1.heap
  add-IsHeap o i lo hi =
      let h' = (register_timer now timer (inserted timer h)).1 in
      let in_order : IsHeap (expire_of h) h'.size h'.heap =
        rw (size-add, heap-add) (insert-IsHeap (expire_of h) h.size timer h.heap o) in
      omega (arith, in_order i lo hi, expire_of-add (h'.heap i), expire_of-add (h'.heap (i / 2)))

pub timer_heap_add-register :
    (now timer : ℕ) (h : TimerHeap)
    → pointer_bytes * (h.size + 2) ≤ grown_bytes h
    → timer_heap_add now timer h ≡ some (register_timer now timer (inserted timer h))
unfolding timer_heap_add timer_heap_insert
timer_heap_add-register now timer h fits =
    let e : ltb (grown_bytes h) (pointer_bytes * (h.size + 2)) ≡ false = ground arith in rw (e) refl

-- A timer is added to a heap in order whose fd is armed for its first timer, with memory for one
-- more pointer. Then this succeeds and leaves a heap in order that holds what it held and the timer,
-- whatever `weight` counts; the fd is armed for the timer that is now the first. After the next
-- timeout, whatever its callbacks do, the fd is armed again if a timer is left, unless a callback or
-- the putting back of a timer has run out of the heap's memory.
pub timer_heap_add-IsArmed :
    (weight : ℕ → ℕ) (cb : ℕ → TimerHeap → Option TimerHeap) (now later timer : ℕ) (h : TimerHeap)
    → pointer_bytes * (h.size + 2) ≤ grown_bytes h
    → IsHeap (expire_of h) h.size h.heap
    → IsArmed h
    → (r : (ℕ × ℕ) × TimerHeap) × (timer_heap_add now timer h ≡ some r)
      × IsHeap (expire_of r.1) r.1.size r.1.heap
      × (count weight r.1.size r.1.heap ≡ count weight h.size h.heap + weight timer)
      × IsArmed r.1
      × IsArmedAfter (timer_heap_timeout cb later r.1)
timer_heap_add-IsArmed weight cb now later timer h fits o armed = (
  register_timer now timer (inserted timer h),
  timer_heap_add-register now timer h fits,
  add-IsHeap now timer h o,
  rw (size-add now timer h, heap-add now timer h)
      (count-insert weight (expire_of h) h.size timer h.heap),
  add-IsArmed now timer h armed,
  timer_heap_timeout-IsArmed cb later (register_timer now timer (inserted timer h)).1,
)
