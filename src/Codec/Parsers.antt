-- ===== src/Codec/Parsers.antt =====
-- codec/mqtt_proto_codec.c: the parsers of the packets that hold lists, of those without a body, and
-- the table `packet_parsers`.
use tiny_mqtt.Prelude.{
  ℕ, zero, suc, ◌+◌, ◌-◌, ◌%◌, not, Option, none, some, List, [], ◌∷◌, ◌++◌, Str, ltb, ◌==◌,
  if◌then◌else◌, length,
}
use tiny_mqtt.Packet.{
  subscribe, suback, unsubscribe, unsuback, pingreq, pingresp, disconnect, TopicFilterQos,
}
use tiny_mqtt.Codec.{
  no_session, is_server, is_in_session, MqttCodec, Conn, Outcome, decode_ok, protocol_error,
  unexpected_packet, sent,
}
use tiny_mqtt.Codec.Read.{read16, read_str, ◌>>=◌}
use tiny_mqtt.Codec.Parse.{
  log, deliver, parse_connect_packet, parse_conn_ack_packet, parse_publish_packet,
  parse_pub_ack_packet, parse_pubrec_packet, parse_pub_rel_packet, parse_pubcomp_packet,
}

-- The QoS byte is 0 before it is read.
abbrev pub read_qos : Str → ℕ × Str
read_qos [] = (0, [])
read_qos (q ∷ buf) = (q, buf)

-- `len` after `n` more bytes, a uint32_t.
abbrev pub left_after : ℕ → ℕ → ℕ
left_after n len = (len + 4294967296 - n) % 4294967296

-- The loop of parse_subscribe_packet. Each turn reads two bytes at least, so that the bytes in the
-- buffer and one more are enough fuel. `none` in the sum: a QoS above 2.
unfoldable pub read_filters :
    ℕ → ℕ → List TopicFilterQos → Str → Option (Option (List TopicFilterQos) × Str)
unfolding read_str
read_filters zero len topics buf = none
read_filters (suc fuel) zero topics buf = some (some topics, buf)
read_filters (suc fuel) (suc n) topics buf = do
  (tf_len, b₁) ← read16 buf
  let (topic_filter, b₂) = read_str tf_len b₁
  let (qos, b₃) = read_qos b₂
  let rest =
      read_filters fuel (left_after (2 + tf_len + 1) (suc n))
        (topics ++ (record { topic_filter = topic_filter; qos = qos } ∷ [])) b₃
  if ltb 2 qos then some (none, b₃) else rest

abbrev pub deliver_subscribe : MqttCodec → ℕ → Conn → Option (List TopicFilterQos) × Str → Outcome
deliver_subscribe codec id c (none, b) = some (protocol_error, record c { buffer = b })
deliver_subscribe codec id c (some topics, b) =
    deliver codec (subscribe (record { packet_id = id; topics = topics })) (record c { buffer = b })

unfoldable pub parse_subscribe_packet : MqttCodec → ℕ → Conn → Outcome
unfolding read_filters
parse_subscribe_packet codec len c =
    if not (is_server codec.type) then some (unexpected_packet, c) else (do
      (id, b₁) ← read16 c.buffer
      found ← read_filters (suc (length b₁)) (left_after 2 len) [] b₁
      deliver_subscribe codec id c found)

-- The loop of parse_suback_packet: `len` bytes. A byte that is missing is not initialised.
unfoldable pub read_codes : ℕ → Str → Option (List ℕ × Str)
read_codes zero buf = some ([], buf)
read_codes (suc n) [] = none
read_codes (suc n) (code ∷ buf) = do (codes, rest) ← read_codes n buf; some (code ∷ codes, rest)

unfoldable pub parse_suback_packet : MqttCodec → ℕ → Conn → Outcome
unfolding read_codes
parse_suback_packet codec len c = if is_server codec.type then some (unexpected_packet, c) else (do
  (id, b₁) ← read16 c.buffer
  (codes, b₂) ← read_codes (left_after 2 len) b₁
  deliver codec (suback (record { packet_id = id; return_codes = codes }))
      (record c { buffer = b₂ }))

unfoldable pub read_topics : ℕ → ℕ → List Str → Str → Option (List Str × Str)
unfolding read_str
read_topics zero len topics buf = none
read_topics (suc fuel) zero topics buf = some (topics, buf)
read_topics (suc fuel) (suc n) topics buf = do
  (tf_len, b₁) ← read16 buf
  let (topic_filter, b₂) = read_str tf_len b₁
  read_topics fuel (left_after (2 + tf_len) (suc n)) (topics ++ (topic_filter ∷ [])) b₂

unfoldable pub parse_unsubscribe_packet : MqttCodec → ℕ → Conn → Outcome
unfolding read_topics
parse_unsubscribe_packet codec len c =
    if not (is_server codec.type) then some (unexpected_packet, c) else (do
      (id, b₁) ← read16 c.buffer
      (topics, b₂) ← read_topics (suc (length b₁)) (left_after 2 len) [] b₁
      deliver codec (unsubscribe (record { packet_id = id; topics = topics }))
          (record c { buffer = b₂ }))

unfoldable pub parse_unsub_ack_packet : MqttCodec → ℕ → Conn → Outcome
parse_unsub_ack_packet codec len c =
    if is_server codec.type
    then some (unexpected_packet, c)
    else (do (id, b) ← read16 c.buffer; deliver codec (unsuback id) (record c { buffer = b }))

unfoldable pub parse_ping_req_packet : MqttCodec → ℕ → Conn → Outcome
parse_ping_req_packet codec len c =
    if not (is_server codec.type)
    then some (unexpected_packet, c)
    else deliver codec pingreq (log (sent pingresp) c)

unfoldable pub parse_ping_resp_packet : MqttCodec → ℕ → Conn → Outcome
parse_ping_resp_packet codec len c =
    if is_server codec.type then some (unexpected_packet, c) else deliver codec pingresp c

unfoldable pub parse_disconnect_packet : MqttCodec → ℕ → Conn → Outcome
parse_disconnect_packet codec len c =
    if not (is_server codec.type)
    then some (unexpected_packet, c)
    else (let left = record c { conn_state = no_session } in
        if is_in_session c.conn_state
        then deliver codec disconnect left
        else some (decode_ok, left))

-- The table; its place 0 is null, and a type above 14 is beyond its end.
unfoldable pub packet_parsers : ℕ → MqttCodec → ℕ → Conn → Outcome
packet_parsers type codec len c =
    if type == 1
    then parse_connect_packet codec len c
    else if type == 2
    then parse_conn_ack_packet codec len c
    else if type == 3
    then parse_publish_packet codec len c
    else if type == 4
    then parse_pub_ack_packet codec len c
    else if type == 5
    then parse_pubrec_packet codec len c
    else if type == 6
    then parse_pub_rel_packet codec len c
    else if type == 7
    then parse_pubcomp_packet codec len c
    else if type == 8
    then parse_subscribe_packet codec len c
    else if type == 9
    then parse_suback_packet codec len c
    else if type == 10
    then parse_unsubscribe_packet codec len c
    else if type == 11
    then parse_unsub_ack_packet codec len c
    else if type == 12
    then parse_ping_req_packet codec len c
    else if type == 13
    then parse_ping_resp_packet codec len c
    else if type == 14
    then parse_disconnect_packet codec len c
    else none
