-- ===== src/Codec/RoundTrip.antt =====
-- codec/mqtt_proto_codec.c: what is sent is what the other side decodes, for PUBLISH and for the
-- acknowledgements.
use tiny_mqtt.Prelude.{
  ℕ, zero, suc, ◌+◌, ◌-◌, ◌%◌, ◌<◌, ◌≡◌, refl, ◌∙◌, true, false, some, ◌++◌, Str, ltb, ◌==◌, arith,
  length, Bool-cases, inl, inr, append_assoc,
}
use tiny_mqtt.Packet.{PublishPkt, publish_qos}
use tiny_mqtt.Codec.{Conn, MqttCodec}
use tiny_mqtt.Codec.Parse.{deliver_publish, read_packet_id, parse_publish_packet}
use tiny_mqtt.Codec.Send.{pack_uint16, pack_str, publish_body, publish_remain_len, when}
use tiny_mqtt.Codec.Frames.{at_body}
use tiny_mqtt.Codec.Bodies.{read16-pack_uint16, read16-pack_str, read_str-append}

-- What a PUBLISH carries: with QoS 0 no packet id, which is then 0 on the other side.
pub record IsPublish (p : PublishPkt) : Type 0 where
  pub flags_lt : p.flags < 16
  pub topic_lt : length p.topic < 65536
  pub id_lt : p.packet_id < 65536
  pub id_zero : publish_qos p.flags ≡ 0 → p.packet_id ≡ 0
  pub length_lt : 4 + length p.topic + length p.payload < 268435456

read_packet_id-when :
    (q id : ℕ) (rest : Str)
    → id < 65536
    → (q ≡ 0 → id ≡ 0)
    → read_packet_id q (when (ltb 0 q) (pack_uint16 id) ++ rest) ≡ some (id, rest)
read_packet_id-when zero id rest id< z = rw (z refl)
read_packet_id-when (suc q) id rest id< z =
    let e : ltb 0 (suc q) ≡ true = ground arith in rw e (read16-pack_uint16 id rest id<)

publish_body-append :
    (p : PublishPkt) (rest : Str)
    → publish_body p ++ rest
      ≡ pack_str p.topic
        ++ (when (ltb 0 (publish_qos p.flags)) (pack_uint16 p.packet_id) ++ (p.payload ++ rest))
unfolding publish_body
publish_body-append p rest =
    let w = when (ltb 0 (publish_qos p.flags)) (pack_uint16 p.packet_id) in
    append_assoc (pack_str p.topic ++ w) p.payload rest
    ∙ append_assoc (pack_str p.topic) w (p.payload ++ rest)

-- What is left of the remaining length for the packet id and the payload.
after_topic_0 :
    (p : PublishPkt)
    → IsPublish p
    → (publish_qos p.flags == 0) ≡ true
    → (publish_remain_len p + 8589934592 - 2 - length p.topic) % 4294967296 ≡ length p.payload
unfolding publish_remain_len
after_topic_0 p v e = let b = v.length_lt in rw e (omega arith)

after_topic_id :
    (p : PublishPkt)
    → IsPublish p
    → (publish_qos p.flags == 0) ≡ false
    → (publish_remain_len p + 8589934592 - 2 - length p.topic) % 4294967296 ≡ length p.payload + 2
unfolding publish_remain_len
after_topic_id p v e = let b = v.length_lt in rw e (omega arith)

pub parse_publish_packet-body :
    (codec : MqttCodec) (p : PublishPkt) (m : ℕ) (rest : Str) (c : Conn)
    → IsPublish p
    → parse_publish_packet codec
        (publish_remain_len p)
        (at_body (48 + p.flags) (publish_remain_len p) m (publish_body p ++ rest) c)
      ≡ deliver_publish codec p (at_body (48 + p.flags) (publish_remain_len p) m rest c)
unfolding parse_publish_packet
parse_publish_packet-body codec p m rest c v =
    let q = publish_qos p.flags in
    let after = when (ltb 0 q) (pack_uint16 p.packet_id) ++ (p.payload ++ rest) in
    let flags : (48 + p.flags) % 16 ≡ p.flags = let b = v.flags_lt in omega arith in
    let topic = read16-pack_str p.topic after v.topic_lt in
    let topic_str = read_str-append p.topic after in
    let id = read_packet_id-when q p.packet_id (p.payload ++ rest) v.id_lt v.id_zero in
    let payload = read_str-append p.payload rest in
    elim (Bool-cases (q == 0)) [
      | inl e ↦
          rw (
            publish_body-append p rest,
            topic,
            topic_str,
            flags,
            id,
            e,
            after_topic_0 p v e,
            payload,
          )
      | inr e ↦
          let enough : ltb (length p.payload + 2) 2 ≡ false = ground arith in
          let minus : length p.payload + 2 - 2 ≡ length p.payload = omega arith in
          rw (
            publish_body-append p rest,
            topic,
            topic_str,
            flags,
            id,
            e,
            after_topic_id p v e,
            enough,
            minus,
            payload,
          )
    ]
