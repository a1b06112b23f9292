-- ===== src/Session/Transmit.antt =====
-- mqtt/mqtt_session.c: publishing, subscribing and unsubscribing through a session.
use tiny_mqtt.Prelude.{ℕ, ◌+◌, ◌*◌, ◌%◌, Bool, true, false, [], ◌∷◌, Str, c_str, ltb, if◌then◌else◌}
use tiny_mqtt.Packet.{publish, subscribe, unsubscribe, PublishPkt}
use tiny_mqtt.Store.{SendingPacket, Stored, memory_store_store_message}
use tiny_mqtt.Session.{Session, act, send, following_id}
use tiny_mqtt.Session.Receive.{stamped}

abbrev pub retain_flag : Bool → ℕ
retain_flag true = 1
retain_flag false = 0

-- Sent at once, unless the message is only to be stored.
abbrev pub send_unless : Bool → PublishPkt → Session → Session
send_unless true pkt s = s
send_unless false pkt s = act (send (publish pkt)) s

-- QoS 1 and 2: the packet is stored under the next packet id, and sent if there is room in the
-- window.
unfoldable pub publish_stored : ℕ → PublishPkt → Bool → Session → Session
unfolding memory_store_store_message
publish_stored now pkt store_only s =
    let fresh : SendingPacket = record {
      packet_id = pkt.packet_id;
      packet = publish pkt;
      send_time = 0;
    } in
    let r : Stored = memory_store_store_message s.message_store s.window fresh in
    let sent : Stored = memory_store_store_message s.message_store s.window (stamped now fresh) in
    let s₁ = record s { next_packet_id = following_id s.next_packet_id } in
    if r.send_now
    then send_unless store_only pkt (record s₁ { message_store = sent.store; window = sent.window })
    else record s₁ { message_store = r.store; window = r.window }

-- `retain` is 0 or 1. `tmq_str_new` copies up to the first zero byte.
unfoldable pub tmq_session_publish : ℕ → Str → Str → ℕ → Bool → Bool → Session → Session
unfolding publish_stored
tmq_session_publish now topic payload qos retain store_only s =
    if ltb 0 qos
    then publish_stored now
        (record {
          flags = (retain_flag retain + qos * 2) % 256;
          topic = c_str topic;
          packet_id = s.next_packet_id;
          payload = c_str payload;
        })
        store_only s
    else send_unless store_only
        (record {
          flags = retain_flag retain;
          topic = c_str topic;
          packet_id = 0;
          payload = c_str payload;
        })
        s

unfoldable pub tmq_session_subscribe : Str → ℕ → Session → Session
tmq_session_subscribe topic_filter qos s =
    act
      (send (
        subscribe (record {
          packet_id = s.next_packet_id;
          topics = record { topic_filter = c_str topic_filter; qos = qos } ∷ [];
        })))
      (record s { next_packet_id = following_id s.next_packet_id })

unfoldable pub tmq_session_unsubscribe : Str → Session → Session
tmq_session_unsubscribe topic_filter s =
    act
      (send
        (unsubscribe (record { packet_id = s.next_packet_id; topics = c_str topic_filter ∷ [] })))
      (record s { next_packet_id = following_id s.next_packet_id })

unfoldable pub tmq_session_set_publish_finish_callback : Bool → Session → Session
tmq_session_set_publish_finish_callback cb s = record s { reports_finish = cb }
