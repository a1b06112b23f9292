-- ===== src/Session/Receive.antt =====
-- mqtt/mqtt_session.c: the handlers of the packets that a session gets, the callbacks of the codec.
use tiny_mqtt.Prelude.{ℕ, Option, List, [], ◌∷◌, Str, ◌==◌, if◌then◌else◌}
use mathlib.Core.Option
use tiny_mqtt.Packet.{
  pubrel, PublishPkt, TopicFilterQos, SubscribePkt, SubackPkt, UnsubscribePkt, publish_qos,
  publish_retain,
}
use tiny_mqtt.StrMap.{StrMap, put, erase}
use tiny_mqtt.Store.{Stored, SendingPacket, memory_store_store_message, ack_publish, ack_pubrel}
use tiny_mqtt.Session.{
  Session, act, new_message, send, broker_subscribe, broker_unsubscribe, subscribe_response,
  unsubscribe_response, has_id, erase_id, acknowledge,
}

unfoldable pub put_all : List TopicFilterQos → StrMap ℕ → StrMap ℕ
unfolding put
put_all [] m = m
put_all (tf ∷ tfs) m = put_all tfs (put tf.topic_filter tf.qos m)

unfoldable pub tmq_session_handle_subscribe : ℕ → SubscribePkt → Session → Session
unfolding put_all
tmq_session_handle_subscribe now pkt s =
    act (broker_subscribe pkt)
      (record s { last_pkt_ts = now; subscriptions = put_all pkt.topics s.subscriptions })

unfoldable pub erase_all : List Str → StrMap ℕ → StrMap ℕ
unfolding erase
erase_all [] m = m
erase_all (tf ∷ tfs) m = erase_all tfs (erase tf m)

unfoldable pub tmq_session_handle_unsubscribe : ℕ → UnsubscribePkt → Session → Session
unfolding erase_all
tmq_session_handle_unsubscribe now pkt s =
    act (broker_unsubscribe pkt)
      (record s { last_pkt_ts = now; subscriptions = erase_all pkt.topics s.subscriptions })

unfoldable pub tmq_session_handle_suback : ℕ → SubackPkt → Session → Session
tmq_session_handle_suback now pkt s = act (subscribe_response pkt) (record s { last_pkt_ts = now })

unfoldable pub tmq_session_handle_unsuback : ℕ → ℕ → Session → Session
tmq_session_handle_unsuback now id s =
    act (unsubscribe_response id) (record s { last_pkt_ts = now })

abbrev pub deliver_message : PublishPkt → Session → Session
deliver_message pkt s =
    act (new_message pkt.topic pkt.payload (publish_qos pkt.flags) (publish_retain pkt.flags)) s

-- A message with QoS 2 is discarded if its packet id is known.
unfoldable pub tmq_session_handle_publish : ℕ → PublishPkt → Session → Session
unfolding has_id
tmq_session_handle_publish now pkt s =
    let s₁ = record s { last_pkt_ts = now } in
    if publish_qos pkt.flags == 2
    then (if has_id pkt.packet_id s.qos2_packet_ids
        then s₁
        else deliver_message pkt
            (record s₁ { qos2_packet_ids = pkt.packet_id ∷ s.qos2_packet_ids }))
    else deliver_message pkt s₁

unfoldable pub tmq_session_handle_pingreq : ℕ → Session → Session
tmq_session_handle_pingreq now s = record s { last_pkt_ts = now }

unfoldable pub tmq_session_handle_pingresp : ℕ → Session → Session
tmq_session_handle_pingresp now s = record s { last_pkt_ts = now }

unfoldable pub tmq_session_handle_puback : ℕ → ℕ → Session → Option Session
unfolding acknowledge
tmq_session_handle_puback now id s =
    acknowledge now id (ack_publish 1) (record s { last_pkt_ts = now })

-- `sending_pkt->send_time = time_now()` sets the time of the packet that has been stored last.
abbrev pub stamped : ℕ → SendingPacket → SendingPacket
stamped now p = record p { send_time = now }

-- The PUBREL is stored, and sent if there is room in the window.
unfoldable pub store_pubrel : ℕ → ℕ → Session → Session
unfolding memory_store_store_message
store_pubrel now id s =
    let fresh : SendingPacket = record { packet_id = id; packet = pubrel id; send_time = 0 } in
    let r : Stored = memory_store_store_message s.message_store s.window fresh in
    let sent : Stored = memory_store_store_message s.message_store s.window (stamped now fresh) in
    if r.send_now
    then act (send (pubrel id)) (record s { message_store = sent.store; window = sent.window })
    else record s { message_store = r.store; window = r.window }

unfoldable pub tmq_session_handle_pubrec : ℕ → ℕ → Session → Option Session
unfolding acknowledge store_pubrel
tmq_session_handle_pubrec now id s =
    Option.map (store_pubrel now id)
      (acknowledge now id (ack_publish 2) (record s { last_pkt_ts = now }))

unfoldable pub tmq_session_handle_pubrel : ℕ → ℕ → Session → Session
unfolding erase_id
tmq_session_handle_pubrel now id s = record s {
  last_pkt_ts = now;
  qos2_packet_ids = erase_id id s.qos2_packet_ids;
}

unfoldable pub tmq_session_handle_pubcomp : ℕ → ℕ → Session → Option Session
unfolding acknowledge
tmq_session_handle_pubcomp now id s = acknowledge now id ack_pubrel (record s { last_pkt_ts = now })
