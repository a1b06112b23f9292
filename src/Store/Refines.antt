-- ===== src/Store/Refines.antt =====
-- The store in memory implements the outbox: its queue up to the pending pointer has been sent,
-- and the rest waits.
use tiny_mqtt.Prelude.{
  ℕ, ◌+◌, ◌%◌, ◌≤◌, ◌<◌, ◌≡◌, refl, sym, [], ◌∷◌, ◌++◌, ltb, length, length-append, take, drop, map,
  arith, Bool-cases, inl, inr, take-all, drop-all,
}
use tiny_mqtt.Store.{
  SendingPacket, Pointer, null, at, freed, MessageStore, Window, point_if_null,
  memory_store_store_message,
}
use tiny_mqtt.Store.Places.{take-append_le, drop-append_le, map-append, length-map-take}
use tiny_mqtt.Store.Spec.{Entry, Outbox, submit}

abbrev pub entry : SendingPacket → Entry
entry s = (s.packet_id, s.packet)

abbrev pub outbox : MessageStore → Window → Outbox
outbox store w = record {
  sent = map entry (take w.inflight_packets store.sending_queue);
  waiting = map entry (drop w.inflight_packets store.sending_queue);
}

-- Where the pending pointer stands.
abbrev pub PendingAt : Pointer → ℕ → ℕ → ℕ → Type 0
PendingAt null inflight window size = inflight ≡ size
PendingAt (at i) inflight window size = (i ≡ inflight) × (inflight ≡ window) × (inflight < size)
PendingAt freed inflight window size = ⊥

pub record IsStore (store : MessageStore) (w : Window) : Type 0 where
  pub window_is_byte : w.inflight_window_size < 256
  pub inflight_le : w.inflight_packets ≤ w.inflight_window_size
  pub pending :
      PendingAt store.pending_pointer w.inflight_packets w.inflight_window_size
        (length store.sending_queue)

PendingAt-room :
    (p : Pointer) (k window size : ℕ)
    → PendingAt p k window size
    → k < window
    → PendingAt p (k + 1) window (size + 1)
PendingAt-room null k window size h room = omega arith
PendingAt-room (at i) k window size (a, b, c) room = absurd (omega arith)
PendingAt-room freed k window size h room = h

PendingAt-full :
    (p : Pointer) (k window size : ℕ)
    → PendingAt p k window size
    → k ≡ window
    → PendingAt (point_if_null p size) k window (size + 1)
PendingAt-full null k window size h full = (sym h, full, omega arith)
PendingAt-full (at i) k window size (a, b, c) full = (a, b, omega arith)
PendingAt-full freed k window size h full = h

pub size_le : (p : Pointer) (k window size : ℕ) → PendingAt p k window size → k ≤ size
size_le null k window size h = omega arith
size_le (at i) k window size (a, b, c) = omega arith
size_le freed k window size h = absurd h

full_size : (p : Pointer) (k window size : ℕ) → PendingAt p k window size → k < window → k ≡ size
full_size null k window size h room = h
full_size (at i) k window size (a, b, c) room = absurd (omega arith)
full_size freed k window size h room = absurd h

-- Storing keeps the invariant.
pub memory_store_store_message-IsStore :
    (store : MessageStore) (w : Window) (s : SendingPacket)
    → IsStore store w
    → IsStore
        (memory_store_store_message store w s).store
        (memory_store_store_message store w s).window
unfolding memory_store_store_message
memory_store_store_message-IsStore store w s v =
    let byte = v.window_is_byte in
    let le = v.inflight_le in
    let size : length (store.sending_queue ++ s ∷ []) ≡ length store.sending_queue + 1 =
      omega (arith, length-append store.sending_queue (s ∷ [])) in
    elim (Bool-cases (ltb w.inflight_packets w.inflight_window_size)) [
      | inl e ↦
          let lt : w.inflight_packets < w.inflight_window_size = ground arith in
          let k : (w.inflight_packets + 1) % 256 ≡ w.inflight_packets + 1 = omega arith in
          rw (e, k)
            (record {
              window_is_byte = byte;
              inflight_le = omega arith;
              pending = rw size (PendingAt-room store.pending_pointer _ _ _ v.pending lt);
            })
      | inr e ↦
          let full : w.inflight_packets ≡ w.inflight_window_size = ground arith in
          rw e (record {
            window_is_byte = byte;
            inflight_le = le;
            pending = rw size (PendingAt-full store.pending_pointer _ _ _ v.pending full);
          })
    ]

outbox-store :
    (store : MessageStore) (w : Window) (s : SendingPacket)
    → IsStore store w
    → outbox
        (memory_store_store_message store w s).store
        (memory_store_store_message store w s).window
      ≡ submit w.inflight_window_size (entry s) (outbox store w)
unfolding memory_store_store_message submit
outbox-store store w s v =
    let byte = v.window_is_byte in
    let k = w.inflight_packets in
    let q = store.sending_queue in
    let le = size_le store.pending_pointer k _ (length q) v.pending in
    let sent = length-map-take entry k q le in
    elim (Bool-cases (ltb k w.inflight_window_size)) [
      | inl e ↦
          let lt : k < w.inflight_window_size = ground arith in
          let all : k ≡ length q = full_size store.pending_pointer k _ _ v.pending lt in
          let next : (k + 1) % 256 ≡ k + 1 = let l = v.inflight_le in omega arith in
          let size : length (q ++ s ∷ []) ≤ k + 1 = omega (arith, length-append q (s ∷ [])) in
          rw (
            e,
            sent,
            e,
            next,
            take-all (k + 1) (q ++ s ∷ []) size,
            drop-all (k + 1) (q ++ s ∷ []) size,
            take-all k q (omega arith),
            drop-all k q (omega arith),
            map-append entry q (s ∷ []),
          )
      | inr e ↦ rw (
        e,
        sent,
        e,
        take-append_le k q (s ∷ []) le,
        drop-append_le k q (s ∷ []) le,
        map-append entry (drop k q) (s ∷ []),
      )
    ]

send_now-room :
    (store : MessageStore) (w : Window) (s : SendingPacket)
    → IsStore store w
    → (memory_store_store_message store w s).send_now
      ≡ ltb (length (outbox store w).sent) w.inflight_window_size
unfolding memory_store_store_message
send_now-room store w s v =
    let le = size_le store.pending_pointer w.inflight_packets _ _ v.pending in
    let sent = length-map-take entry w.inflight_packets store.sending_queue le in
    elim (Bool-cases (ltb w.inflight_packets w.inflight_window_size)) [
      | inl e ↦ rw (sent, e) refl
      | inr e ↦ rw (sent, e) refl
    ]

-- On a store that meets the invariant, storing a packet submits it to the outbox, and the result
-- says that it is to be sent at once exactly if fewer packets than the window holds have been sent
-- and not yet acknowledged.
pub outbox-memory_store_store_message :
    (store : MessageStore) (w : Window) (s : SendingPacket)
    → IsStore store w
    → (outbox
          (memory_store_store_message store w s).store
          (memory_store_store_message store w s).window
        ≡ submit w.inflight_window_size (entry s) (outbox store w))
      × ((memory_store_store_message store w s).send_now
          ≡ ltb (length (outbox store w).sent) w.inflight_window_size)
outbox-memory_store_store_message store w s v =
    (outbox-store store w s v, send_now-room store w s v)
