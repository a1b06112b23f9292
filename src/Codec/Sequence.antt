-- ===== src/Codec/Sequence.antt =====
-- codec/mqtt_proto_codec.c: PUBLISH packets and their acknowledgements, sent one after the other and
-- decoded in one piece.
use tiny_mqtt.Prelude.{
  ℕ, ◌<◌, ◌≤◌, ◌≡◌, refl, ◌∙◌, false, ◌||◌, some, List, [], ◌∷◌, ◌++◌, Str, ltb, arith, length,
  append_assoc,
}
use tiny_mqtt.Packet.{AnyPacket, publish, puback, pubrec, pubrel, pubcomp}
use tiny_mqtt.Codec.{
  decode_ok, Conn, ParsingCtx, parsing_fixed_header, MqttCodec, is_no_session, is_tunneled,
  validate_flags, packet_type, Event,
}
use tiny_mqtt.Codec.Parse.{
  parse_pub_ack_packet, parse_pubrec_packet, parse_pub_rel_packet, parse_pubcomp_packet,
}
use tiny_mqtt.Codec.Parsers.{packet_parsers}
use tiny_mqtt.Codec.Decode.{decode_step}
use tiny_mqtt.Codec.Send.{
  remain_bytes, pack_uint16, packet_senders, send_pub_ack_packet, send_pub_rec_packet,
  send_pub_rel_packet, send_pub_comp_packet,
}
use tiny_mqtt.Codec.Frames.{at_body, finish, left_multiplier, decode_step-frame}
use tiny_mqtt.Codec.Bodies.{frame-some, read16-pack_uint16}
use tiny_mqtt.Codec.Stream.{
  IsPublication, traffic, after_packet, ctx_after, wire_publish, send_publish_packet-wire,
  decode_step-publish,
}

unfoldable pub wire_id : ℕ → ℕ → Str
wire_id byte id = byte ∷ remain_bytes 5 2 ++ pack_uint16 id

-- The bytes of a packet.
unfoldable pub wire : AnyPacket → Str
unfolding wire_id
wire (publish p) = wire_publish p
wire (puback id) = wire_id 64 id
wire (pubrec id) = wire_id 80 id
wire (pubrel id) = wire_id 98 id
wire (pubcomp id) = wire_id 112 id
wire pkt = []

decode_step-id :
    (codec : MqttCodec) (byte id : ℕ) (rest : Str) (c : Conn)
    → (ltb (packet_type byte) 1 || ltb 14 (packet_type byte)) ≡ false
    → validate_flags byte ≡ decode_ok
    → is_no_session c.conn_state ≡ false
    → decode_step codec parsing_fixed_header (record c { buffer = wire_id byte id ++ rest })
      ≡ finish (
          packet_parsers (packet_type byte) codec 2 (
            at_body byte 2 (left_multiplier 2 (pack_uint16 id ++ rest)) (pack_uint16 id ++ rest) c))
unfolding wire_id pack_uint16
decode_step-id codec byte id rest c t v s =
    rw (append_assoc (remain_bytes 5 2) (pack_uint16 id) rest)
      (decode_step-frame codec byte 2 (pack_uint16 id ++ rest) c t v s (omega arith) (omega arith))

-- One step of the decoder on the bytes of a packet.
abbrev pub Decodes : MqttCodec → AnyPacket → Str → Conn → Type 0
Decodes codec pkt rest c =
    (ctx : ParsingCtx) × (ctx.state ≡ parsing_fixed_header)
    × (decode_step codec parsing_fixed_header (record c { buffer = wire pkt ++ rest })
        ≡ some (decode_ok, after_packet codec pkt ctx rest c))

decode_step-puback :
    (codec : MqttCodec) (id : ℕ) (rest : Str) (c : Conn)
    → id < 65536
    → is_no_session c.conn_state ≡ false
    → Decodes codec (puback id) rest c
unfolding wire packet_parsers parse_pub_ack_packet traffic validate_flags
decode_step-puback codec id rest c id< s = (
  ctx_after 64 2 (left_multiplier 2 (pack_uint16 id ++ rest)),
  refl,
  decode_step-id codec 64 id rest c refl refl s ∙ rw (read16-pack_uint16 id rest id<),
)

decode_step-pubrec :
    (codec : MqttCodec) (id : ℕ) (rest : Str) (c : Conn)
    → id < 65536
    → is_no_session c.conn_state ≡ false
    → Decodes codec (pubrec id) rest c
unfolding wire packet_parsers parse_pubrec_packet traffic validate_flags
decode_step-pubrec codec id rest c id< s = (
  ctx_after 80 2 (left_multiplier 2 (pack_uint16 id ++ rest)),
  refl,
  decode_step-id codec 80 id rest c refl refl s ∙ rw (read16-pack_uint16 id rest id<),
)

decode_step-pubrel :
    (codec : MqttCodec) (id : ℕ) (rest : Str) (c : Conn)
    → id < 65536
    → is_no_session c.conn_state ≡ false
    → Decodes codec (pubrel id) rest c
unfolding wire packet_parsers parse_pub_rel_packet traffic validate_flags
decode_step-pubrel codec id rest c id< s = (
  ctx_after 98 2 (left_multiplier 2 (pack_uint16 id ++ rest)),
  refl,
  decode_step-id codec 98 id rest c refl refl s
      ∙ rw (read16-pack_uint16 id rest id<, append_assoc c.events _ _),
)

decode_step-pubcomp :
    (codec : MqttCodec) (id : ℕ) (rest : Str) (c : Conn)
    → id < 65536
    → is_no_session c.conn_state ≡ false
    → Decodes codec (pubcomp id) rest c
unfolding wire packet_parsers parse_pubcomp_packet traffic validate_flags
decode_step-pubcomp codec id rest c id< s = (
  ctx_after 112 2 (left_multiplier 2 (pack_uint16 id ++ rest)),
  refl,
  decode_step-id codec 112 id rest c refl refl s ∙ rw (read16-pack_uint16 id rest id<),
)

pub decode_step-wire :
    (codec : MqttCodec) (pkt : AnyPacket) (rest : Str) (c : Conn)
    → IsPublication pkt
    → is_no_session c.conn_state ≡ false
    → is_tunneled c.conn_state ≡ false
    → Decodes codec pkt rest c
unfolding wire
decode_step-wire codec (publish p) rest c v s t =
    (ctx_after _ _ _, refl, decode_step-publish codec p rest c v s t)
decode_step-wire codec (puback id) rest c v s t = decode_step-puback codec id rest c v s
decode_step-wire codec (pubrec id) rest c v s t = decode_step-pubrec codec id rest c v s
decode_step-wire codec (pubrel id) rest c v s t = decode_step-pubrel codec id rest c v s
decode_step-wire codec (pubcomp id) rest c v s t = decode_step-pubcomp codec id rest c v s
decode_step-wire codec pkt rest c v s t = elim v [ ]

-- The senders write these bytes.
pub packet_senders-wire :
    (pkt : AnyPacket) → IsPublication pkt → packet_senders pkt ≡ some (wire pkt)
unfolding wire wire_id packet_senders send_pub_ack_packet send_pub_rec_packet send_pub_rel_packet
    send_pub_comp_packet
packet_senders-wire (publish p) v = send_publish_packet-wire p v
packet_senders-wire (puback id) v = frame-some 4 0 2 (pack_uint16 id) (omega arith)
packet_senders-wire (pubrec id) v = frame-some 5 0 2 (pack_uint16 id) (omega arith)
packet_senders-wire (pubrel id) v = frame-some 6 2 2 (pack_uint16 id) (omega arith)
packet_senders-wire (pubcomp id) v = frame-some 7 0 2 (pack_uint16 id) (omega arith)
packet_senders-wire pkt v = elim v [ ]

unfoldable pub written : List AnyPacket → Str
unfolding wire
written [] = []
written (pkt ∷ pkts) = wire pkt ++ written pkts

unfoldable pub traffic_all : List AnyPacket → List Event
unfolding traffic
traffic_all [] = []
traffic_all (pkt ∷ pkts) = traffic pkt ++ traffic_all pkts

pub length-wire : (pkt : AnyPacket) → IsPublication pkt → 1 ≤ length (wire pkt)
unfolding wire wire_id wire_publish
length-wire (publish p) v = omega arith
length-wire (puback id) v = omega arith
length-wire (pubrec id) v = omega arith
length-wire (pubrel id) v = omega arith
length-wire (pubcomp id) v = omega arith
length-wire pkt v = elim v [ ]
