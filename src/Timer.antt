-- ===== src/Timer.antt =====
-- ev/mqtt_timer.h and ev/mqtt_timer.c: the heap of timers of an event loop. The heap is an array of
-- pointers from the index 1; a pointer is a number, and `timers` what is behind it. Times are in
-- microseconds and not negative. The array has `heap_bytes` bytes of memory, eight to a pointer, and
-- `none` is a fault, a write behind its end. A timer is never null, and memory does not run out.
pub mod Order
pub mod Sink
pub mod Count
pub mod Expired
pub mod Armed
pub mod Memory
mod Tests
use tiny_mqtt.Prelude.{
  ℕ, zero, suc, ◌+◌, ◌-◌, ◌*◌, ◌/◌, Bool, true, false, not, ◌&&◌, ◌||◌, Option, none, some, List,
  [], ◌∷◌, ◌++◌, if◌then◌else◌, ltb, leb, ◌==◌,
}
use tiny_mqtt.Codec.Read.{◌>>=◌}

-- The callback and its argument are known by the pointer to the timer. `timeout_us` is
-- `(int64_t) (timeout_ms * 1000)`.
pub record TmqTimer : Type 0 where
  pub expire : ℕ
  pub timeout_us : ℕ
  pub repeat : Bool
  pub canceled : Bool
  pub timer_id : ℕ × ℕ

pub record TimerHeap : Type 0 where
  pub heap : ℕ → ℕ
  pub size : ℕ
  pub capacity : ℕ
  pub heap_bytes : ℕ
  pub timers : ℕ → TmqTimer
  pub registered_timers : List ((ℕ × ℕ) × ℕ)
  -- the times that the timer fd was set to
  pub timeouts : List ℕ

abbrev pub timer_heap_initial_size : ℕ
timer_heap_initial_size = 16

abbrev pub left_child_idx : ℕ → ℕ
left_child_idx i = i * 2

abbrev pub right_child_idx : ℕ → ℕ
right_child_idx i = i * 2 + 1

abbrev pub parent_idx : ℕ → ℕ
parent_idx i = i / 2

unfoldable pub write : ℕ → ℕ → (ℕ → ℕ) → ℕ → ℕ
write i p heap j = if i == j then p else heap j

-- `key` gives the time at which the timer behind a pointer expires.
module _ (key : ℕ → ℕ) where
  -- The loop of `timer_swim`, with the place for `timer` at `idx`. The index halves.
  unfoldable pub swim : ℕ → ℕ → ℕ → (ℕ → ℕ) → ℕ → ℕ
  swim zero timer idx heap = write idx timer heap
  swim (suc fuel) timer idx heap =
      let p = parent_idx idx in
      let rest = swim fuel timer p (write idx (heap p) heap) in
      if ltb 0 p && ltb (key timer) (key (heap p)) then rest else write idx timer heap

  abbrev pub timer_swim : ℕ → (ℕ → ℕ) → ℕ → ℕ
  timer_swim idx heap = swim idx (heap idx) idx heap

  -- The child that expires first.
  unfoldable pub first_child : ℕ → (ℕ → ℕ) → ℕ → ℕ
  first_child size heap idx =
      let child = left_child_idx idx in
      let right = right_child_idx idx in
      if leb right size && ltb (key (heap right)) (key (heap child)) then right else child

  -- The loop of `timer_sink`. The index at least doubles, and stays up to `size`.
  unfoldable pub sink : ℕ → ℕ → ℕ → ℕ → (ℕ → ℕ) → ℕ → ℕ
  sink zero size timer idx heap = write idx timer heap
  sink (suc fuel) size timer idx heap =
      let child = first_child size heap idx in
      let rest = sink fuel size timer child (write idx (heap child) heap) in
      if leb (left_child_idx idx) size && ltb (key (heap child)) (key timer)
      then rest
      else write idx timer heap

  abbrev pub timer_sink : ℕ → ℕ → (ℕ → ℕ) → ℕ → ℕ
  timer_sink size idx heap = if size == 0 then heap else sink size size (heap idx) idx heap

-- The time at which the timer behind a pointer expires.
abbrev pub expire_of : TimerHeap → ℕ → ℕ
expire_of h p = (h.timers p).expire

abbrev pub top_of : TimerHeap → Option ℕ
top_of h = if ltb 0 h.size then some (h.heap 1) else none

abbrev pub is_top : ℕ → Option ℕ → Bool
is_top p none = false
is_top p (some q) = p == q

abbrev pub pointer_bytes : ℕ
pointer_bytes = 8

-- `tmq_timer_heap_init`, with the timers there are.
abbrev pub timer_heap_init : (ℕ → TmqTimer) → TimerHeap
timer_heap_init timers = record {
  heap = λ i. 0;
  size = 0;
  capacity = timer_heap_initial_size;
  heap_bytes = pointer_bytes * timer_heap_initial_size + 1;
  timers = timers;
  registered_timers = [];
  timeouts = [];
}

-- The memory after the test whether the heap is full; `realloc` gets the capacity as bytes.
abbrev pub grown_bytes : TimerHeap → ℕ
grown_bytes h = if h.size == h.capacity then h.capacity * 2 + 1 else h.heap_bytes

-- `timer_heap_insert` in enough memory: whether the timer that expires first has changed, and the
-- heap.
unfoldable pub inserted : ℕ → TimerHeap → Bool × TimerHeap
inserted timer h =
    let n = suc h.size in
    let heap = timer_swim (expire_of h) n (write n timer h.heap) in
    (
      not (is_top (heap 1) (top_of h)),
      record h {
        heap = heap;
        size = n;
        capacity = if h.size == h.capacity then h.capacity * 2 else h.capacity;
        heap_bytes = grown_bytes h;
      },
    )

unfoldable pub timer_heap_insert : ℕ → TimerHeap → Option (Bool × TimerHeap)
timer_heap_insert timer h =
    if ltb (grown_bytes h) (pointer_bytes * (h.size + 2)) then none else some (inserted timer h)

abbrev pub set_timeout : Bool → TimerHeap → TimerHeap
set_timeout true h = record h { timeouts = h.timeouts ++ (expire_of h (h.heap 1) ∷ []) }
set_timeout false h = h

abbrev pub set_timer : ℕ → TmqTimer → TimerHeap → TimerHeap
set_timer p t h = record h { timers = λ q. if p == q then t else h.timers q }

-- After the insertion the fd is set and the timer registered. The id is the address and the time.
unfoldable pub register_timer : ℕ → ℕ → Bool × TimerHeap → (ℕ × ℕ) × TimerHeap
register_timer now timer r =
    let h = set_timeout r.0 r.1 in
    let id : ℕ × ℕ = (timer, now) in
    (
      id,
      record (set_timer timer (record (h.timers timer) { timer_id = id }) h) {
        registered_timers = (id, timer) ∷ h.registered_timers;
      },
    )

unfoldable pub timer_heap_add : ℕ → ℕ → TimerHeap → Option ((ℕ × ℕ) × TimerHeap)
timer_heap_add now timer h = do r ← timer_heap_insert timer h; some (register_timer now timer r)

-- The heap without the top. The pointer of the top is read before.
unfoldable pub timer_heap_pop : TimerHeap → TimerHeap
timer_heap_pop h =
    let n = h.size - 1 in
    let heap = write 1 (h.heap h.size) h.heap in
    if h.size == 0
    then h
    else record h { size = n; heap = if ltb 1 n then timer_sink (expire_of h) n 1 heap else heap }

-- The first loop of `timer_heap_timeout`: the timers that have expired, and the heap without them.
-- The fuel is the size, which every turn lowers.
unfoldable pub pop_expired : ℕ → ℕ → TimerHeap → List ℕ × TimerHeap
pop_expired zero now h = ([], h)
pop_expired (suc fuel) now h =
    let (rest, h') = pop_expired fuel now (timer_heap_pop h) in
    if ltb 0 h.size && leb (expire_of h (h.heap 1)) now then (h.heap 1 ∷ rest, h') else ([], h)

-- The second loop; what a callback does to the heap is an argument.
unfoldable pub call_back :
    (ℕ → TimerHeap → Option TimerHeap) → List ℕ → TimerHeap → Option TimerHeap
call_back cb [] h = some h
call_back cb (p ∷ ps) h = do
  h' ← if (h.timers p).canceled then some h else cb p h
  call_back cb ps h'

abbrev pub same_id : ℕ × ℕ → ℕ × ℕ → Bool
same_id a b = (a.0 == b.0) && (a.1 == b.1)

unfoldable pub unregister : ℕ × ℕ → List ((ℕ × ℕ) × ℕ) → List ((ℕ × ℕ) × ℕ)
unregister id [] = []
unregister id (r ∷ rs) = let rest = unregister id rs in if same_id r.0 id then rest else r ∷ rest

-- The third loop: a timer that repeats is put back, another is forgotten.
unfoldable pub put_back : ℕ → List ℕ → TimerHeap → Option TimerHeap
put_back now [] h = some h
put_back now (p ∷ ps) h =
    let t = h.timers p in
    do
      h' ←
          if t.repeat && not t.canceled
          then (do
            r ← timer_heap_insert p (set_timer p (record t { expire = now + t.timeout_us }) h)
            some r.1)
          else some (record h { registered_timers = unregister t.timer_id h.registered_timers })
      put_back now ps h'

abbrev pub arm_first : TimerHeap → TimerHeap
arm_first h = set_timeout (ltb 0 h.size) h

unfoldable pub timer_heap_timeout :
    (ℕ → TimerHeap → Option TimerHeap) → ℕ → TimerHeap → Option TimerHeap
timer_heap_timeout cb now h =
    let (expired, h₁) = pop_expired h.size now h in
    if h.size == 0
    then some h
    else do h₂ ← call_back cb expired h₁; h₃ ← put_back now expired h₂; some (arm_first h₃)

unfoldable pub registered : ℕ × ℕ → List ((ℕ × ℕ) × ℕ) → Option ℕ
registered id [] = none
registered id (r ∷ rs) = if same_id r.0 id then some r.1 else registered id rs

unfoldable pub tmq_cancel_timer : ℕ × ℕ → TimerHeap → TimerHeap
tmq_cancel_timer id h = elim (registered id h.registered_timers) [
  | none ↦ h
  | some p ↦ set_timer p (record (h.timers p) { canceled = true }) h
]

-- Whether there is such a timer, and the heap.
unfoldable pub tmq_resume_timer : ℕ × ℕ → TimerHeap → Bool × TimerHeap
tmq_resume_timer id h = elim (registered id h.registered_timers) [
  | none ↦ (false, h)
  | some p ↦ (true, set_timer p (record (h.timers p) { canceled = false }) h)
]
