-- ===== src/Store/Tests.antt =====
-- Witnesses and tests for the message store.
use tiny_mqtt.Prelude.{◌≡◌, refl, some, [], ◌∷◌, ltb, length, arith}
use tiny_mqtt.Packet.{pubrel}
use tiny_mqtt.Store.{
  Acked, ack_pubrel, is_acknowledged, SendingPacket, MessageStore, Window, at,
  memory_store_store_message,
}
use tiny_mqtt.Store.Spec.{submit, settle, take_out}
use tiny_mqtt.Store.Acknowledge.{IsSettled, memory_store_acknowledge-settle}
use tiny_mqtt.Store.Refines.{
  IsStore, entry, outbox, memory_store_store_message-IsStore, outbox-memory_store_store_message,
}

abbrev packet_7 : SendingPacket
packet_7 = record { packet_id = 7; packet = pubrel 7; send_time = 0 }

abbrev packet_8 : SendingPacket
packet_8 = record { packet_id = 8; packet = pubrel 8; send_time = 0 }

-- One packet sent, one that waits.
abbrev full_store : MessageStore
full_store = record {
  total_size = 2;
  sending_queue = packet_7 ∷ packet_8 ∷ [];
  pending_pointer = at 1;
}

abbrev window_1 : Window
window_1 = record { inflight_packets = 1; inflight_window_size = 1 }

full_store-IsStore : IsStore full_store window_1
full_store-IsStore = record {
  window_is_byte = omega arith;
  inflight_le = omega arith;
  pending = (refl, refl, omega arith);
}

memory_store_store_message-IsStore_example :
    IsStore
      (memory_store_store_message full_store window_1 packet_8).store
      (memory_store_store_message full_store window_1 packet_8).window
memory_store_store_message-IsStore_example =
    memory_store_store_message-IsStore full_store window_1 packet_8 full_store-IsStore

outbox-memory_store_store_message_example :
    (outbox
        (memory_store_store_message full_store window_1 packet_8).store
        (memory_store_store_message full_store window_1 packet_8).window
      ≡ submit 1 (entry packet_8) (outbox full_store window_1))
    × ((memory_store_store_message full_store window_1 packet_8).send_now
        ≡ ltb (length (outbox full_store window_1).sent) 1)
outbox-memory_store_store_message_example =
    outbox-memory_store_store_message full_store window_1 packet_8 full_store-IsStore

-- The PUBREL with id 7 is acknowledged, and the next is sent.
memory_store_acknowledge-settle_example :
    (a : Acked) × IsSettled 5 full_store window_1 7 ack_pubrel a
memory_store_acknowledge-settle_example =
    memory_store_acknowledge-settle 5 full_store window_1 7 ack_pubrel full_store-IsStore

settled :
    settle 7 ack_pubrel (outbox full_store window_1)
    ≡ (record { sent = (8, pubrel 8) ∷ []; waiting = [] }, some (8, pubrel 8))
unfolding settle take_out is_acknowledged
settled = refl
