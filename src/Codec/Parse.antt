-- ===== src/Codec/Parse.antt =====
-- codec/mqtt_proto_codec.c: the parsers of the packets' bodies. Each gets the remaining length, reads
-- from the buffer and calls the callback of its packet.
use tiny_mqtt.Prelude.{
  ℕ, zero, suc, ◌+◌, ◌-◌, ◌/◌, ◌%◌, Bool, true, false, not, ◌&&◌, ◌||◌, Option, some, [], ◌∷◌, ◌++◌,
  Str, bytes, str_eq, ltb, ◌==◌, if◌then◌else◌,
}
use tiny_mqtt.Packet.{
  AnyPacket, connect, connack, publish, puback, pubrec, pubrel, pubcomp, ConnectPkt, PublishPkt,
  publish_qos,
}
use tiny_mqtt.Codec.{
  starting_session, is_server, is_tunneled, MqttCodec, Conn, Outcome, decode_ok, bad_packet_format,
  protocol_error, unexpected_packet, Event, sent, upcall, tun_publish, header_flags,
}
use tiny_mqtt.Codec.Read.{read8, read16, read_str, read_field, ◌>>=◌}

abbrev pub log : Event → Conn → Conn
log e c = record c { events = c.events ++ (e ∷ []) }

-- The codec's callback for a packet.
abbrev pub call : MqttCodec → AnyPacket → Conn → Conn
call codec pkt c = record (log (upcall pkt) c) { conn_state = codec.callback pkt c.conn_state }

abbrev pub deliver : MqttCodec → AnyPacket → Conn → Outcome
deliver codec pkt c = some (decode_ok, call codec pkt c)

-- `(flags) & 0x80` and the like
abbrev pub has_bit : ℕ → ℕ → Bool
has_bit flags bit = flags / bit % 2 == 1

abbrev pub connect_will_qos : ℕ → ℕ
connect_will_qos flags = flags / 8 % 4

-- A field that is read only if its flag is set, and otherwise null.
abbrev pub read_field_if : Bool → Str → Option (Str × Str)
read_field_if true buf = read_field buf
read_field_if false buf = some ([], buf)

-- The reading of the fields of the payload, from the client identifier on.
unfoldable pub read_connect : ℕ → ℕ → ℕ → Str → Option (ConnectPkt × Str)
unfolding read_str
read_connect flags keep_alive client_id_len buf =
    let (client_id, b₁) = read_str client_id_len buf in
    (do
      (will_topic, b₂) ← read_field_if (has_bit flags 4) b₁
      (will_message, b₃) ← read_field_if (has_bit flags 4) b₂
      (username, b₄) ← read_field_if (has_bit flags 128) b₃
      (password, b₅) ← read_field_if (has_bit flags 64) b₄
      some (
        record {
          flags = flags;
          keep_alive = keep_alive;
          client_id = client_id;
          will_topic = will_topic;
          will_message = will_message;
          username = username;
          password = password;
        },
        b₅,
      ))

abbrev pub connack_refusal : ℕ → AnyPacket
connack_refusal code = connack (record { ack_flags = 0; return_code = code })

-- A CONNECT that is refused with a CONNACK.
abbrev pub refuse : ℕ → Conn → Outcome
refuse code c = some (protocol_error, log (sent (connack_refusal code)) c)

-- From the flags on.
unfoldable pub parse_connect_flags : MqttCodec → ℕ → Conn → Outcome
unfolding read_connect
parse_connect_flags codec flags c =
    if has_bit flags 1
    then some (protocol_error, c)
    else if (not (has_bit flags 4) && not (connect_will_qos flags == 0))
        || ltb 2 (connect_will_qos flags)
    then some (protocol_error, c)
    else (do
      (keep_alive, b₁) ← read16 c.buffer
      (client_id_len, b₂) ← read16 b₁
      if client_id_len == 0 && not (has_bit flags 2)
          then refuse 2 (record c { buffer = b₂ })
          else (do
            (pkt, b₃) ← read_connect flags keep_alive client_id_len b₂
            deliver codec (connect pkt) (record c { buffer = b₃; conn_state = starting_session })))

unfoldable pub parse_connect_packet : MqttCodec → ℕ → Conn → Outcome
unfolding parse_connect_flags read_str
parse_connect_packet codec len c =
    if not (is_server codec.type) then some (unexpected_packet, c) else (do
      (protocol_name_len, b₁) ← read16 c.buffer
      if not (protocol_name_len == 4)
          then some (protocol_error, record c { buffer = b₁ })
          else (let (protocol_name, b₂) = read_str 4 b₁ in
              if not (str_eq protocol_name (bytes "MQTT"))
              then some (protocol_error, record c { buffer = b₂ })
              else (do
                (protocol_level, b₃) ← read8 b₂
                if not (protocol_level == 4) then refuse 1 (record c { buffer = b₃ }) else (do
                  (flags, b₄) ← read8 b₃
                  parse_connect_flags codec flags (record c { buffer = b₄ })))))

unfoldable pub parse_conn_ack_packet : MqttCodec → ℕ → Conn → Outcome
parse_conn_ack_packet codec len c =
    if is_server codec.type then some (unexpected_packet, c) else (do
      (ack_flags, b₁) ← read8 c.buffer
      (return_code, b₂) ← read8 b₁
      deliver codec (connack (record { ack_flags = ack_flags; return_code = return_code }))
          (record c { buffer = b₂ }))

-- The packet id is read for QoS 1 to 3 only; otherwise it is not initialised, and never used.
abbrev pub read_packet_id : ℕ → Str → Option (ℕ × Str)
read_packet_id zero buf = some (0, buf)
read_packet_id (suc q) buf = read16 buf

-- The answer to a PUBLISH, sent before it is delivered.
abbrev pub publish_answer : ℕ → ℕ → Conn → Conn
publish_answer qos packet_id c =
    if qos == 1
    then log (sent (puback packet_id)) c
    else if qos == 2
    then log (sent (pubrec packet_id)) c
    else c

abbrev pub deliver_publish : MqttCodec → PublishPkt → Conn → Outcome
deliver_publish codec pkt c =
    if is_tunneled c.conn_state
    then some (decode_ok, log (tun_publish pkt) c)
    else deliver codec (publish pkt) (publish_answer (publish_qos pkt.flags) pkt.packet_id c)

-- `len - 2 - topic_name_len` is computed as a uint32_t.
unfoldable pub parse_publish_packet : MqttCodec → ℕ → Conn → Outcome
parse_publish_packet codec len c =
    let flags = header_flags c.parsing_ctx.type_flags in
    (do
      (topic_name_len, b₁) ← read16 c.buffer
      let (topic, b₂) = read_str topic_name_len b₁
      let after_topic = (len + 8589934592 - 2 - topic_name_len) % 4294967296
      (packet_id, b₃) ← read_packet_id (publish_qos flags) b₂
      if not (publish_qos flags == 0) && ltb after_topic 2
          then some (bad_packet_format, record c { buffer = b₃ })
          else (let payload_len = if publish_qos flags == 0 then after_topic else after_topic - 2 in
              let (payload, b₄) = read_str payload_len b₃ in
              deliver_publish codec
                (record { flags = flags; topic = topic; packet_id = packet_id; payload = payload })
                (record c { buffer = b₄ })))

unfoldable pub parse_pub_ack_packet : MqttCodec → ℕ → Conn → Outcome
parse_pub_ack_packet codec len c = do
  (id, b) ← read16 c.buffer
  deliver codec (puback id) (record c { buffer = b })

unfoldable pub parse_pubrec_packet : MqttCodec → ℕ → Conn → Outcome
parse_pubrec_packet codec len c = do
  (id, b) ← read16 c.buffer
  deliver codec (pubrec id) (record c { buffer = b })

unfoldable pub parse_pub_rel_packet : MqttCodec → ℕ → Conn → Outcome
parse_pub_rel_packet codec len c = do
  (id, b) ← read16 c.buffer
  deliver codec (pubrel id) (log (sent (pubcomp id)) (record c { buffer = b }))

unfoldable pub parse_pubcomp_packet : MqttCodec → ℕ → Conn → Outcome
parse_pubcomp_packet codec len c = do
  (id, b) ← read16 c.buffer
  deliver codec (pubcomp id) (record c { buffer = b })
