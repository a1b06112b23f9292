-- ===== src/Store.antt =====
-- store/mqtt_msg_store.c: the message store in memory, the queue of QoS 1 and 2 messages that a
-- session sends.
pub mod Spec
pub mod Places
pub mod Refines
pub mod Acknowledge
mod Tests
use tiny_mqtt.Prelude.{
  ℕ, zero, suc, ◌+◌, ◌-◌, ◌%◌, Bool, true, false, ◌&&◌, Option, none, some, List, [], ◌∷◌, ◌++◌,
  ltb, ◌==◌, if◌then◌else◌, length,
}
use mathlib.Core.Option
use tiny_mqtt.Packet.{AnyPacket, publish, pubrel, publish_qos}

pub record SendingPacket : Type 0 where
  pub packet_id : ℕ
  pub packet : AnyPacket
  pub send_time : ℕ

-- `pending_pointer`: null, at a node of the queue, given by its place, or left at a freed node.
pub data Pointer : Type 0 where
  null : Pointer
  at : ℕ → Pointer
  freed : Pointer

-- The queue from head to tail. `total_size` is a uint16_t.
pub record MessageStore : Type 0 where
  pub total_size : ℕ
  pub sending_queue : List SendingPacket
  pub pending_pointer : Pointer

-- The two counters of the session that the store works on; both are uint8_t.
pub record Window : Type 0 where
  pub inflight_packets : ℕ
  pub inflight_window_size : ℕ

abbrev pub tmq_message_store_memory_new : MessageStore
tmq_message_store_memory_new = record { total_size = 0; sending_queue = []; pending_pointer = null }

abbrev pub point_if_null : Pointer → ℕ → Pointer
point_if_null null i = at i
point_if_null (at j) i = at j
point_if_null freed i = freed

pub record Stored : Type 0 where
  pub store : MessageStore
  pub window : Window
  pub send_now : Bool

unfoldable pub memory_store_store_message : MessageStore → Window → SendingPacket → Stored
memory_store_store_message store w sending_pkt =
    let queue = store.sending_queue ++ (sending_pkt ∷ []) in
    let total = (store.total_size + 1) % 65536 in
    if ltb w.inflight_packets w.inflight_window_size
    then record {
      store = record store { sending_queue = queue; total_size = total };
      window = record w { inflight_packets = (w.inflight_packets + 1) % 256 };
      send_now = true;
    }
    else record {
      store = record {
        sending_queue = queue;
        total_size = total;
        pending_pointer = point_if_null store.pending_pointer (length store.sending_queue);
      };
      window = w;
      send_now = false;
    }

-- What an acknowledgement is for: `type` and, for a PUBLISH, `qos`.
pub data Acknowledged : Type 0 where
  ack_publish : ℕ → Acknowledged
  ack_pubrel : Acknowledged

-- The tests of the loop: the packet id, the type and the QoS.
unfoldable pub is_acknowledged : ℕ → Acknowledged → ℕ → AnyPacket → Bool
is_acknowledged packet_id (ack_publish qos) id (publish pkt) =
    id == packet_id && publish_qos pkt.flags == qos
is_acknowledged packet_id ack_pubrel id (pubrel rel) = id == packet_id
is_acknowledged packet_id ack id pkt = false

-- The loop: the place of the first packet that is acknowledged, among the first `inflight`.
unfoldable pub acked_place : ℕ → ℕ → Acknowledged → List SendingPacket → Option ℕ
acked_place zero packet_id ack queue = none
acked_place (suc left) packet_id ack [] = none
acked_place (suc left) packet_id ack (s ∷ queue) =
    if is_acknowledged packet_id ack s.packet_id s.packet
    then some zero
    else Option.map (λ i. suc i) (acked_place left packet_id ack queue)

unfoldable pub remove_place : ℕ → List SendingPacket → List SendingPacket
remove_place i [] = []
remove_place zero (s ∷ queue) = queue
remove_place (suc i) (s ∷ queue) = s ∷ remove_place i queue

-- A pointer keeps its node when a node in front of it is taken out.
abbrev pub after_free : ℕ → Pointer → Pointer
after_free i null = null
after_free i (at j) = if j == i then freed else if ltb i j then at (j - 1) else at j
after_free i freed = freed

unfoldable pub packet_at : ℕ → List SendingPacket → Option SendingPacket
packet_at i [] = none
packet_at zero (s ∷ queue) = some s
packet_at (suc i) (s ∷ queue) = packet_at i queue

unfoldable pub set_send_time : ℕ → ℕ → List SendingPacket → List SendingPacket
set_send_time i now [] = []
set_send_time zero now (s ∷ queue) = record s { send_time = now } ∷ queue
set_send_time (suc i) now (s ∷ queue) = s ∷ set_send_time i now queue

-- `pending_pointer->next`
abbrev pub next_place : ℕ → List SendingPacket → Pointer
next_place i queue = if ltb (i + 1) (length queue) then at (i + 1) else null

-- `finished` holds the arguments of `on_publish_finish`.
pub record Acked : Type 0 where
  pub store : MessageStore
  pub window : Window
  pub next : Option SendingPacket
  pub finished : Option (ℕ × ℕ)

abbrev pub finished_by : ℕ → Acknowledged → Option (ℕ × ℕ)
finished_by packet_id (ack_publish qos) = some (packet_id, qos)
finished_by packet_id ack_pubrel = none

-- The end of `memory_store_acknowledge`, after a valid acknowledgement: the first packet that
-- waits is sent next.
unfoldable pub send_pending : ℕ → MessageStore → Window → Option (ℕ × ℕ) → Option Acked
send_pending now store w finished = elim store.pending_pointer [
  | null ↦ some (record { store = store; window = w; next = none; finished = finished })
  | freed ↦ none
  | at i ↦
      Option.map
        (λ s. record {
          store = record store {
            sending_queue = set_send_time i now store.sending_queue;
            pending_pointer = next_place i store.sending_queue;
          };
          window = record w { inflight_packets = (w.inflight_packets + 1) % 256 };
          next = some (record s { send_time = now });
          finished = finished;
        })
        (packet_at i store.sending_queue)
]

-- `none` is a fault: the pending pointer is read after its node has been freed.
unfoldable pub memory_store_acknowledge :
    ℕ → MessageStore → Window → ℕ → Acknowledged → Option Acked
unfolding send_pending
memory_store_acknowledge now store w packet_id ack =
    elim (acked_place w.inflight_packets packet_id ack store.sending_queue) [
      | none ↦ some (record { store = store; window = w; next = none; finished = none })
      | some i ↦
          send_pending now
            (record {
              total_size = (store.total_size + 65535) % 65536;
              sending_queue = remove_place i store.sending_queue;
              pending_pointer = after_free i store.pending_pointer;
            })
            (record w { inflight_packets = (w.inflight_packets + 255) % 256 })
            (finished_by packet_id ack)
    ]
