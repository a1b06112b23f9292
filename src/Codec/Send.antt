-- ===== src/Codec/Send.antt =====
-- codec/mqtt_proto_codec.c: the bytes that are written for a packet.
use tiny_mqtt.Prelude.{
  ℕ, zero, suc, ◌+◌, ◌-◌, ◌*◌, ◌/◌, ◌%◌, Bool, true, false, Option, none, some, List, [], ◌∷◌, ◌++◌,
  Str, bytes, ltb, ◌==◌, if◌then◌else◌, length,
}
use mathlib.Core.Option
use tiny_mqtt.Packet.{
  AnyPacket, connect, connack, publish, puback, pubrec, pubrel, pubcomp, subscribe, suback,
  unsubscribe, unsuback, pingreq, pingresp, disconnect, ConnectPkt, ConnackPkt, PublishPkt,
  TopicFilterQos, SubscribePkt, SubackPkt, UnsubscribePkt, publish_qos,
}
use tiny_mqtt.Codec.Parse.{has_bit}

-- The loop of make_fixed_header: at most five bytes, since the length is a uint32_t.
unfoldable pub remain_bytes : ℕ → ℕ → Str
remain_bytes zero n = []
remain_bytes (suc fuel) n =
    let more = remain_bytes fuel (n / 128) in
    if ltb 0 (n / 128) then (n % 128 + 128) ∷ more else n % 128 ∷ []

-- `none`: more than four bytes for the length.
unfoldable pub make_fixed_header : ℕ → ℕ → ℕ → Option Str
unfolding remain_bytes
make_fixed_header type flags remain_length =
    let length_bytes = remain_bytes 5 remain_length in
    if ltb 4 (length length_bytes)
    then none
    else some ((type % 16 * 16 + flags % 16) ∷ length_bytes)

-- MSB, LSB
unfoldable pub pack_uint16 : ℕ → Str
pack_uint16 value = value / 256 % 256 ∷ value % 256 ∷ []

unfoldable pub pack_str : Str → Str
unfolding pack_uint16
pack_str s = pack_uint16 (length s % 65536) ++ s

abbrev pub when : Bool → Str → Str
when true s = s
when false s = []

-- A header with the remaining length, a uint32_t, and the body.
abbrev pub frame : ℕ → ℕ → ℕ → Str → Option Str
frame type flags remain_length body =
    Option.map (λ header. header ++ body)
      (make_fixed_header type flags (remain_length % 4294967296))

-- Null strings are empty. The strings hold no zero byte: those of a CONNECT, a SUBSCRIBE and an
-- UNSUBSCRIBE are copied by strcpy.
unfoldable pub connect_body : ConnectPkt → Str
unfolding pack_uint16 pack_str
connect_body pkt =
    pack_uint16 4
    ++ bytes "MQTT"
    ++ (4 ∷ pkt.flags ∷ [])
    ++ pack_uint16 pkt.keep_alive
    ++ pack_str pkt.client_id
    ++ when (has_bit pkt.flags 4) (pack_str pkt.will_topic)
    ++ when (has_bit pkt.flags 4) (pack_str pkt.will_message)
    ++ when (has_bit pkt.flags 128) (pack_str pkt.username)
    ++ when (has_bit pkt.flags 64) (pack_str pkt.password)

abbrev pub length_if : Bool → Str → ℕ
length_if true s = length s + 2
length_if false s = 0

unfoldable pub connect_remain_len : ConnectPkt → ℕ
connect_remain_len pkt =
    10
    + (length pkt.client_id + 2)
    + length_if (has_bit pkt.flags 128) pkt.username
    + length_if (has_bit pkt.flags 64) pkt.password
    + length_if (has_bit pkt.flags 4) pkt.will_topic
    + length_if (has_bit pkt.flags 4) pkt.will_message

unfoldable pub send_connect_packet : ConnectPkt → Option Str
unfolding connect_body connect_remain_len
send_connect_packet pkt = frame 1 0 (connect_remain_len pkt) (connect_body pkt)

unfoldable pub send_conn_ack_packet : ConnackPkt → Option Str
send_conn_ack_packet pkt = frame 2 0 2 (pkt.ack_flags ∷ pkt.return_code ∷ [])

unfoldable pub publish_body : PublishPkt → Str
unfolding pack_uint16 pack_str
publish_body pkt =
    pack_str pkt.topic
    ++ when (ltb 0 (publish_qos pkt.flags)) (pack_uint16 pkt.packet_id)
    ++ pkt.payload

unfoldable pub publish_remain_len : PublishPkt → ℕ
publish_remain_len pkt =
    let remain_len = 4 + length pkt.topic + length pkt.payload in
    if publish_qos pkt.flags == 0 then remain_len - 2 else remain_len

unfoldable pub pack_publish_packet : PublishPkt → Option Str
unfolding publish_body publish_remain_len
pack_publish_packet pkt = frame 3 pkt.flags (publish_remain_len pkt) (publish_body pkt)

unfoldable pub send_publish_packet : PublishPkt → Option Str
unfolding pack_publish_packet
send_publish_packet pkt = pack_publish_packet pkt

unfoldable pub send_pub_ack_packet : ℕ → Option Str
unfolding pack_uint16
send_pub_ack_packet packet_id = frame 4 0 2 (pack_uint16 packet_id)

unfoldable pub send_pub_rec_packet : ℕ → Option Str
unfolding pack_uint16
send_pub_rec_packet packet_id = frame 5 0 2 (pack_uint16 packet_id)

unfoldable pub send_pub_rel_packet : ℕ → Option Str
unfolding pack_uint16
send_pub_rel_packet packet_id = frame 6 2 2 (pack_uint16 packet_id)

unfoldable pub send_pub_comp_packet : ℕ → Option Str
unfolding pack_uint16
send_pub_comp_packet packet_id = frame 7 0 2 (pack_uint16 packet_id)

unfoldable pub filters_body : List TopicFilterQos → Str
unfolding pack_str
filters_body [] = []
filters_body (tf ∷ tfs) = pack_str tf.topic_filter ++ (tf.qos ∷ filters_body tfs)

unfoldable pub filters_remain_length : List TopicFilterQos → ℕ
filters_remain_length [] = 0
filters_remain_length (tf ∷ tfs) = length tf.topic_filter + 3 + filters_remain_length tfs

unfoldable pub send_subscribe_packet : SubscribePkt → Option Str
unfolding pack_uint16 filters_body filters_remain_length
send_subscribe_packet pkt =
    frame 8 2 (2 + filters_remain_length pkt.topics)
      (pack_uint16 pkt.packet_id ++ filters_body pkt.topics)

unfoldable pub send_sub_ack_packet : SubackPkt → Option Str
unfolding pack_uint16
send_sub_ack_packet pkt =
    frame 9 0 (2 + length pkt.return_codes) (pack_uint16 pkt.packet_id ++ pkt.return_codes)

unfoldable pub topics_body : List Str → Str
unfolding pack_str
topics_body [] = []
topics_body (topic ∷ topics) = pack_str topic ++ topics_body topics

unfoldable pub topics_remain_length : List Str → ℕ
topics_remain_length [] = 0
topics_remain_length (topic ∷ topics) = length topic + 2 + topics_remain_length topics

unfoldable pub send_unsubscribe_packet : UnsubscribePkt → Option Str
unfolding pack_uint16 topics_body topics_remain_length
send_unsubscribe_packet pkt =
    frame 10 2 (2 + topics_remain_length pkt.topics)
      (pack_uint16 pkt.packet_id ++ topics_body pkt.topics)

unfoldable pub send_unsub_ack_packet : ℕ → Option Str
unfolding pack_uint16
send_unsub_ack_packet packet_id = frame 11 0 2 (pack_uint16 packet_id)

unfoldable pub send_ping_req_packet : Option Str
send_ping_req_packet = frame 12 0 0 []

unfoldable pub send_ping_resp_packet : Option Str
send_ping_resp_packet = frame 13 0 0 []

unfoldable pub send_disconnect_packet : Option Str
send_disconnect_packet = frame 14 0 0 []

-- The table.
unfoldable pub packet_senders : AnyPacket → Option Str
packet_senders (connect pkt) = send_connect_packet pkt
packet_senders (connack pkt) = send_conn_ack_packet pkt
packet_senders (publish pkt) = send_publish_packet pkt
packet_senders (puback id) = send_pub_ack_packet id
packet_senders (pubrec id) = send_pub_rec_packet id
packet_senders (pubrel id) = send_pub_rel_packet id
packet_senders (pubcomp id) = send_pub_comp_packet id
packet_senders (subscribe pkt) = send_subscribe_packet pkt
packet_senders (suback pkt) = send_sub_ack_packet pkt
packet_senders (unsubscribe pkt) = send_unsubscribe_packet pkt
packet_senders (unsuback id) = send_unsub_ack_packet id
packet_senders pingreq = send_ping_req_packet
packet_senders pingresp = send_ping_resp_packet
packet_senders disconnect = send_disconnect_packet

-- `conn->state == CONNECTED && ctx->conn_state == IN_SESSION`. `none`: nothing is written.
unfoldable pub tmq_send_any_packet : Bool → Bool → AnyPacket → Option Str
tmq_send_any_packet true true pkt = packet_senders pkt
tmq_send_any_packet connected session pkt = none
