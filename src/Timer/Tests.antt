-- ===== src/Timer/Tests.antt =====
-- Runs of the timers, and the theorems at concrete inputs.
use tiny_mqtt.Prelude.{
  List, Option, some, none, ◌↔◌, length, ◌<◌, ℕ, ◌+◌, ◌*◌, ◌≡◌, refl, inr, false, [], ◌∷◌, arith,
}
use mathlib.Core.Option
use tiny_mqtt.Timer.{
  timer_heap_init, register_timer, inserted, TmqTimer, TimerHeap, expire_of, pop_expired,
  timer_heap_add, timer_heap_timeout, swim, sink, write, first_child, timer_heap_pop,
  timer_heap_insert, call_back, put_back, tmq_cancel_timer, registered, unregister,
}
use tiny_mqtt.Timer.Order.{IsHeap}
use tiny_mqtt.Timer.Count.{count}
use tiny_mqtt.Timer.Expired.{IsPopped, pop_expired-IsPopped}
use tiny_mqtt.Timer.Memory.{add_all, add_all-timer_heap_init}
use tiny_mqtt.Timer.Armed.{IsArmed, IsArmedAfter, last_of, timer_heap_add-IsArmed}

abbrev timer_at : ℕ → TmqTimer
timer_at t = record {
  expire = t;
  timeout_us = 50;
  repeat = false;
  canceled = false;
  timer_id = (t, 0);
}

-- Three timers, which expire at 2, 4 and 6.
abbrev three_timers : TimerHeap
three_timers = record {
  heap = λ i. i * 2;
  size = 3;
  capacity = 16;
  heap_bytes = 129;
  timers = timer_at;
  registered_timers = [];
  timeouts = 2 ∷ [];
}

popped : (pop_expired 3 5 three_timers).0 ≡ 2 ∷ 4 ∷ []
unfolding pop_expired timer_heap_pop sink first_child write
popped = refl

abbrev note : ℕ → TimerHeap → Option TimerHeap
note p h = some (record h { timeouts = p ∷ [] })

abbrev added : TimerHeap
added = (register_timer 1 1 (inserted 1 three_timers)).1

-- A timer that was canceled after it was added is popped, but not called back.
added_and_canceled :
    (timer_heap_add 1 1 three_timers ≡ some ((1, 1), added))
    × (added.timeouts ≡ 2 ∷ 1 ∷ [])
    × (Option.map (λ h. h.timeouts) (timer_heap_timeout note 3 added) ≡ some (2 ∷ 4 ∷ []))
    × (Option.map (λ h. h.timeouts) (timer_heap_timeout note 1 (tmq_cancel_timer (1, 1) added))
        ≡ some (2 ∷ 1 ∷ 2 ∷ []))
unfolding timer_heap_add inserted timer_heap_insert register_timer swim write timer_heap_timeout
    pop_expired timer_heap_pop sink first_child call_back put_back tmq_cancel_timer registered
    unregister
added_and_canceled = (refl, refl, refl, refl)

three_timers-IsHeap : IsHeap (expire_of three_timers) 3 three_timers.heap
three_timers-IsHeap i lo hi = omega arith

three_timers-IsArmed : IsArmed three_timers
unfolding last_of
three_timers-IsArmed = inr refl

pop_expired-IsPopped_example :
    IsPopped
      (expire_of three_timers)
      (λ p. p)
      5
      0
      three_timers
      (pop_expired 3 5 three_timers).0
      (pop_expired 3 5 three_timers).1
pop_expired-IsPopped_example = pop_expired-IsPopped (λ p. p) 5 three_timers three_timers-IsHeap

timer_heap_add-IsArmed_example :
    (r : (ℕ × ℕ) × TimerHeap) × (timer_heap_add 9 3 three_timers ≡ some r)
    × IsHeap (expire_of r.1) r.1.size r.1.heap
    × (count (λ p. 1) r.1.size r.1.heap ≡ count (λ p. 1) 3 three_timers.heap + 1)
    × IsArmed r.1
    × IsArmedAfter (timer_heap_timeout note 12 r.1)
timer_heap_add-IsArmed_example =
    timer_heap_add-IsArmed (λ p. 1) note 9 12 3 three_timers (omega arith) three_timers-IsHeap
      three_timers-IsArmed

abbrev sixteen : List ℕ
sixteen = 1 ∷ 2 ∷ 3 ∷ 4 ∷ 5 ∷ 6 ∷ 7 ∷ 8 ∷ 9 ∷ 10 ∷ 11 ∷ 12 ∷ 13 ∷ 14 ∷ 15 ∷ 16 ∷ []

add_all-timer_heap_init_example :
    (add_all 0 sixteen (timer_heap_init timer_at) ≡ none) ↔ (15 < length sixteen)
add_all-timer_heap_init_example = add_all-timer_heap_init timer_at 0 sixteen
