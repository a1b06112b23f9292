-- ===== src/Store/Acknowledge.antt =====
-- The store in memory implements the outbox, for acknowledgements: the pending pointer is never read
-- after its node has been freed.
use tiny_mqtt.Prelude.{
  ℕ, zero, suc, ◌+◌, ◌-◌, ◌%◌, ◌≤◌, ◌<◌, ◌≡◌, refl, sym, ap, ◌∙◌, true, false, Option, none, some,
  List, [], ◌∷◌, ◌++◌, ltb, ◌==◌, length, take, drop, map, arith, Bool-cases, Option-cases, inl,
  inr, drop-all,
}
use mathlib.Core.Option
use tiny_mqtt.Store.{
  SendingPacket, Pointer, null, at, freed, MessageStore, Window, Acked, Acknowledged,
  is_acknowledged, acked_place, remove_place, after_free, packet_at, set_send_time, next_place,
  finished_by, send_pending, memory_store_acknowledge,
}
use tiny_mqtt.Store.Places.{map-append}
use tiny_mqtt.Store.Spec.{Entry, Outbox, take_out, refill, settle}
use tiny_mqtt.Store.Refines.{entry, outbox, PendingAt, IsStore}

acked_place-bounds :
    (k id : ℕ) (ack : Acknowledged) (q : List SendingPacket) (i : ℕ)
    → acked_place k id ack q ≡ some i
    → (i < k) × (i < length q)
unfolding acked_place
acked_place-bounds zero id ack q i h = absurd (ground arith)
acked_place-bounds (suc k) id ack [] i h = absurd (ground arith)
acked_place-bounds (suc k) id ack (s ∷ q) i h = elim (Option-cases (acked_place k id ack q)) [
  | inl n ↦ ground arith
  | inr (j, m) ↦ let (a, b) = acked_place-bounds k id ack q j m in ground arith
]

length-remove_place :
    (i : ℕ) (q : List SendingPacket) → i < length q → length (remove_place i q) + 1 ≡ length q
unfolding remove_place
length-remove_place i [] h = absurd (omega arith)
length-remove_place zero (s ∷ q) h = omega arith
length-remove_place (suc i) (s ∷ q) h = omega (arith, length-remove_place i q (omega arith))

drop-remove_place :
    (k i : ℕ) (q : List SendingPacket)
    → i < suc k
    → i < length q
    → drop k (remove_place i q) ≡ drop (suc k) q
unfolding remove_place
drop-remove_place k i [] h h₂ = absurd (omega arith)
drop-remove_place k zero (s ∷ q) h h₂ = refl
drop-remove_place zero (suc i) (s ∷ q) h h₂ = absurd (omega arith)
drop-remove_place (suc k) (suc i) (s ∷ q) h h₂ = drop-remove_place k i q (omega arith) (omega arith)

take_out-acked_place :
    (k id : ℕ) (ack : Acknowledged) (q : List SendingPacket)
    → take_out id ack (map entry (take (suc k) q))
      ≡ Option.map (λ i. map entry (take k (remove_place i q))) (acked_place (suc k) id ack q)
unfolding take_out acked_place remove_place
take_out-acked_place k id ack [] = refl
take_out-acked_place zero id ack (s ∷ q) =
    elim (Bool-cases (is_acknowledged id ack s.packet_id s.packet)) [ inl e ↦ rw e | inr e ↦ rw e ]
take_out-acked_place (suc k) id ack (s ∷ q) =
    elim (Bool-cases (is_acknowledged id ack s.packet_id s.packet)) [
      | inl e ↦ rw e
      | inr e ↦ elim (Option-cases (acked_place (suc k) id ack q)) [
        | inl n ↦ rw (e, take_out-acked_place k id ack q, n)
        | inr (j, m) ↦ rw (e, take_out-acked_place k id ack q, m)
      ]
    ]

take-set_send_time :
    (n i now : ℕ) (q : List SendingPacket)
    → map entry (take n (set_send_time i now q)) ≡ map entry (take n q)
unfolding set_send_time
take-set_send_time zero i now q = refl
take-set_send_time (suc n) i now [] = refl
take-set_send_time (suc n) zero now (s ∷ q) = refl
take-set_send_time (suc n) (suc i) now (s ∷ q) =
    ap (λ r. entry s ∷ r) (take-set_send_time n i now q)

drop-set_send_time :
    (n i now : ℕ) (q : List SendingPacket)
    → map entry (drop n (set_send_time i now q)) ≡ map entry (drop n q)
unfolding set_send_time
drop-set_send_time n i now [] = refl
drop-set_send_time zero zero now (s ∷ q) = refl
drop-set_send_time zero (suc i) now (s ∷ q) =
    ap (λ r. entry s ∷ r) (drop-set_send_time zero i now q)
drop-set_send_time (suc n) zero now (s ∷ q) = refl
drop-set_send_time (suc n) (suc i) now (s ∷ q) = drop-set_send_time n i now q

length-set_send_time :
    (i now : ℕ) (q : List SendingPacket) → length (set_send_time i now q) ≡ length q
unfolding set_send_time
length-set_send_time i now [] = refl
length-set_send_time zero now (s ∷ q) = refl
length-set_send_time (suc i) now (s ∷ q) = ap (λ r. suc r) (length-set_send_time i now q)

-- The packet at a place: the first of those behind it.
packet_at-some :
    (n : ℕ) (q : List SendingPacket)
    → n < length q
    → (s : SendingPacket) × (packet_at n q ≡ some s)
      × (drop n q ≡ s ∷ drop (suc n) q)
      × (take (suc n) q ≡ take n q ++ s ∷ [])
unfolding packet_at
packet_at-some n [] h = absurd (omega arith)
packet_at-some zero (s ∷ q) h = (s, refl, refl, refl)
packet_at-some (suc n) (s ∷ q) h =
    let (r, a, b, c) = packet_at-some n q (omega arith) in (r, a, b, ap (λ l. s ∷ l) c)

-- What an acknowledgement does: it is no fault, keeps the invariant, and settles the outbox.
abbrev pub IsSettled : ℕ → MessageStore → Window → ℕ → Acknowledged → Acked → Type 0
IsSettled now store w id ack a =
    (memory_store_acknowledge now store w id ack ≡ some a)
    × IsStore a.store a.window
    × ((outbox a.store a.window, Option.map entry a.next) ≡ settle id ack (outbox store w))

abbrev queue_store : ℕ → List SendingPacket → Pointer → MessageStore
queue_store total q p = record { total_size = total; sending_queue = q; pending_pointer = p }

abbrev window_of : ℕ → ℕ → Window
window_of k window = record { inflight_packets = k; inflight_window_size = window }

acknowledge-send_pending :
    (now total k left window i id : ℕ) (ack : Acknowledged) (q : List SendingPacket) (p r : Pointer)
    → acked_place k id ack q ≡ some i
    → (k + 255) % 256 ≡ left
    → after_free i p ≡ r
    → memory_store_acknowledge now (queue_store total q p) (window_of k window) id ack
      ≡ send_pending now
          (queue_store ((total + 65535) % 65536) (remove_place i q) r)
          (window_of left window)
          (finished_by id ack)
unfolding memory_store_acknowledge
acknowledge-send_pending now total k left window i id ack q p r h e f =
    let total' = (total + 65535) % 65536 in
    let q' = remove_place i q in
    let go = λ (n : ℕ) (ptr : Pointer).
      send_pending now (queue_store total' q' ptr) (window_of n window) (finished_by id ack) in
    rw (h, memory_store_acknowledge) (ap (λ n. go n (after_free i p)) e ∙ ap (λ ptr. go left ptr) f)

after_free-behind : (i j k : ℕ) → j ≡ suc k → i < suc k → after_free i (at j) ≡ at k
after_free-behind i j k place i< =
    let same : j == i ≡ false = ground arith in
    let behind : ltb i j ≡ true = ground arith in
    let before : j - 1 ≡ k = omega arith in rw (same, behind, before)

send_pending-at :
    (now total k next i window : ℕ) (q : List SendingPacket) (finished : Option (ℕ × ℕ))
    (s : SendingPacket)
    → packet_at i q ≡ some s
    → (k + 1) % 256 ≡ next
    → send_pending now (queue_store total q (at i)) (window_of k window) finished
      ≡ some (record {
        store = queue_store total (set_send_time i now q) (next_place i q);
        window = window_of next window;
        next = some (record s { send_time = now });
        finished = finished;
      })
unfolding send_pending
send_pending-at now total k next i window q finished s h e = rw (h, e)

settle-refill :
    (id : ℕ) (ack : Acknowledged) (o : Outbox) (sent : List Entry)
    → take_out id ack o.sent ≡ some sent
    → settle id ack o ≡ refill sent o.waiting
unfolding settle
settle-refill id ack o sent h = rw (h, settle)

take_out-some :
    (k i id : ℕ) (ack : Acknowledged) (q : List SendingPacket)
    → acked_place (suc k) id ack q ≡ some i
    → take_out id ack (map entry (take (suc k) q)) ≡ some (map entry (take k (remove_place i q)))
take_out-some k i id ack q h = take_out-acked_place k id ack q ∙ rw h

-- Nothing waits.
acknowledge-null :
    (now total k window i id : ℕ) (ack : Acknowledged) (q : List SendingPacket)
    → acked_place (suc k) id ack q ≡ some i
    → suc k ≡ length q
    → window < 256
    → suc k ≤ window
    → (a : Acked) × IsSettled now (queue_store total q null) (window_of (suc k) window) id ack a
unfolding send_pending
acknowledge-null now total k window i id ack q h size byte le =
    let (i<, i<q) = acked_place-bounds (suc k) id ack q i h in
    let minus : (suc k + 255) % 256 ≡ k = omega arith in
    let len = length-remove_place i q i<q in
    (
      record {
        store = queue_store ((total + 65535) % 65536) (remove_place i q) null;
        window = window_of k window;
        next = none;
        finished = finished_by id ack;
      },
      (
        acknowledge-send_pending now total (suc k) k window i id ack q null null h minus refl,
        record { window_is_byte = byte; inflight_le = omega arith; pending = omega arith },
        rw (
          drop-remove_place k i q i< i<q,
          settle-refill id ack (outbox (queue_store total q null) (window_of (suc k) window)) _
              (take_out-some k i id ack q h),
          drop-all (suc k) q (omega arith),
        ),
      ),
    )

PendingAt-next :
    (k now : ℕ) (r : List SendingPacket)
    → suc k ≤ length r
    → PendingAt (next_place k r) (suc k) (suc k) (length (set_send_time k now r))
PendingAt-next k now r h = elim (Bool-cases (ltb (k + 1) (length r))) [
  | inl e ↦ rw (e, length-set_send_time k now r) (omega arith, refl, ground arith)
  | inr e ↦ rw (e, length-set_send_time k now r) (ground arith)
]

-- The outbox when the first packet that waits is sent.
outbox-send_pending :
    (now total k : ℕ) (p : Pointer) (r : List SendingPacket) (s : SendingPacket)
    → drop k r ≡ s ∷ drop (suc k) r
    → take (suc k) r ≡ take k r ++ s ∷ []
    → (
      outbox (queue_store total (set_send_time k now r) p) (window_of (suc k) (suc k)),
      some (entry s),
    )
      ≡ refill (map entry (take k r)) (map entry (drop k r))
outbox-send_pending now total k p r s dropped taken = rw (
  take-set_send_time (suc k) k now r,
  drop-set_send_time (suc k) k now r,
  dropped,
  taken,
  map-append entry (take k r) (s ∷ []),
)

-- The first packet that waits is sent in its turn.
acknowledge-at :
    (now total k j i id : ℕ) (ack : Acknowledged) (q : List SendingPacket)
    → acked_place (suc k) id ack q ≡ some i
    → j ≡ suc k
    → suc k < length q
    → suc k < 256
    → (a : Acked) × IsSettled now (queue_store total q (at j)) (window_of (suc k) (suc k)) id ack a
acknowledge-at now total k j i id ack q h place size byte =
    let (i<, i<q) = acked_place-bounds (suc k) id ack q i h in
    let minus : (suc k + 255) % 256 ≡ k = omega arith in
    let plus : (k + 1) % 256 ≡ suc k = omega arith in
    let moved = after_free-behind i j k place i< in
    let len = length-remove_place i q i<q in
    let total' = (total + 65535) % 65536 in
    let r = remove_place i q in
    let (s, found, dropped, taken) = packet_at-some k r (omega arith) in
    (
      record {
        store = queue_store total' (set_send_time k now r) (next_place k r);
        window = window_of (suc k) (suc k);
        next = some (record s { send_time = now });
        finished = finished_by id ack;
      },
      (
        acknowledge-send_pending now total (suc k) k (suc k) i id ack q (at j) (at k) h minus moved
            ∙ send_pending-at now total' k (suc k) k (suc k) r (finished_by id ack) s found plus,
        record {
          window_is_byte = byte;
          inflight_le = omega arith;
          pending = PendingAt-next k now r (omega arith);
        },
        outbox-send_pending now total' k (next_place k r) r s dropped taken
            ∙ rw (drop-remove_place k i q i< i<q) (
                sym (
                  settle-refill id ack
                    (outbox (queue_store total q (at j)) (window_of (suc k) (suc k))) _
                    (take_out-some k i id ack q h))),
      ),
    )

acknowledge-fields :
    (now total : ℕ) (q : List SendingPacket) (p : Pointer) (k window id : ℕ) (ack : Acknowledged)
    → IsStore (queue_store total q p) (window_of k window)
    → (i : ℕ) → acked_place k id ack q ≡ some i
    → (a : Acked) × IsSettled now (queue_store total q p) (window_of k window) id ack a
acknowledge-fields now total q p zero window id ack v i h =
    let (i<, i<q) = acked_place-bounds zero id ack q i h in absurd (omega arith)
acknowledge-fields now total q null (suc k) window id ack v i h =
    acknowledge-null now total k window i id ack q h v.pending v.window_is_byte v.inflight_le
acknowledge-fields now total q (at j) (suc k) window id ack v i h =
    let (a, b, c) = v.pending in
    let byte = v.window_is_byte in
    rw (sym b) (acknowledge-at now total k j i id ack q h a c (omega arith))
acknowledge-fields now total q freed (suc k) window id ack v i h = absurd v.pending

take_out-none :
    (k id : ℕ) (ack : Acknowledged) (q : List SendingPacket)
    → acked_place k id ack q ≡ none
    → take_out id ack (map entry (take k q)) ≡ none
unfolding take_out
take_out-none zero id ack q h = refl
take_out-none (suc k) id ack q h = take_out-acked_place k id ack q ∙ rw h

-- Handling an acknowledgement is no fault if the store meets the invariant: the pending pointer is
-- not read after its node has been freed. It keeps the invariant, and it settles the outbox: the
-- first packet that was sent and is acknowledged goes, and the first that waits is sent in its
-- place.
pub memory_store_acknowledge-settle :
    (now : ℕ) (store : MessageStore) (w : Window) (id : ℕ) (ack : Acknowledged)
    → IsStore store w
    → (a : Acked) × IsSettled now store w id ack a
unfolding memory_store_acknowledge settle
memory_store_acknowledge-settle now store w id ack v =
    elim (Option-cases (acked_place w.inflight_packets id ack store.sending_queue)) [
      | inl n ↦ (
        record { store = store; window = w; next = none; finished = none },
        (
          rw (n, memory_store_acknowledge),
          v,
          rw (take_out-none w.inflight_packets id ack store.sending_queue n, settle),
        ),
      )
      | inr (i, h) ↦
          acknowledge-fields now store.total_size store.sending_queue store.pending_pointer
            w.inflight_packets w.inflight_window_size id ack v i h
    ]
