-- ===== src/Codec/Stream.antt =====
-- codec/mqtt_proto_codec.c: the packets of publications, sent one after the other and decoded in one
-- piece.
use tiny_mqtt.Prelude.{
  ℕ, ◌+◌, ◌/◌, ◌%◌, ◌<◌, ◌≤◌, ◌≡◌, ◌∙◌, false, ◌||◌, some, List, [], ◌∷◌, ◌++◌, Str, ltb, ◌==◌,
  if◌then◌else◌, arith, length, Bool-cases, inl, inr, append_assoc, length-append,
}
use tiny_mqtt.Packet.{AnyPacket, publish, puback, pubrec, pubrel, pubcomp, PublishPkt, publish_qos}
use tiny_mqtt.Codec.{
  decode_ok, Conn, ParsingCtx, parsing_fixed_header, MqttCodec, is_no_session, is_tunneled,
  validate_flags, packet_type, Event, sent, upcall,
}
use tiny_mqtt.Codec.Parse.{deliver_publish, parse_publish_packet}
use tiny_mqtt.Codec.Parsers.{packet_parsers}
use tiny_mqtt.Codec.Decode.{decode_step}
use tiny_mqtt.Codec.Send.{
  remain_bytes, pack_uint16, pack_str, when, publish_body, publish_remain_len, send_publish_packet,
  pack_publish_packet,
}
use tiny_mqtt.Codec.Frames.{at_body, finish, left_multiplier, decode_step-frame}
use tiny_mqtt.Codec.Bodies.{frame-some}
use tiny_mqtt.Codec.RoundTrip.{IsPublish, parse_publish_packet-body}

-- The packets of a publication, with what they carry in bounds.
abbrev pub IsPublication : AnyPacket → Type 0
IsPublication (publish p) = IsPublish p
IsPublication (puback id) = id < 65536
IsPublication (pubrec id) = id < 65536
IsPublication (pubrel id) = id < 65536
IsPublication (pubcomp id) = id < 65536
IsPublication pkt = ⊥

-- The answer that the receiver of a PUBLISH owes.
abbrev pub answer : PublishPkt → List Event
answer p =
    if publish_qos p.flags == 1
    then sent (puback p.packet_id) ∷ []
    else if publish_qos p.flags == 2
    then sent (pubrec p.packet_id) ∷ []
    else []

-- What the receiver of a packet is to do.
unfoldable pub traffic : AnyPacket → List Event
traffic (publish p) = answer p ++ upcall (publish p) ∷ []
traffic (pubrel id) = sent (pubcomp id) ∷ upcall (pubrel id) ∷ []
traffic pkt = upcall pkt ∷ []

-- The connection after a packet.
abbrev pub after_packet : MqttCodec → AnyPacket → ParsingCtx → Str → Conn → Conn
after_packet codec pkt ctx rest c = record {
  parsing_ctx = ctx;
  conn_state = codec.callback pkt c.conn_state;
  buffer = rest;
  events = c.events ++ traffic pkt;
}

abbrev pub ctx_after : ℕ → ℕ → ℕ → ParsingCtx
ctx_after byte n m = record {
  state = parsing_fixed_header;
  type_flags = byte;
  remain_length = n;
  multiplier = m;
}

finish-publish :
    (codec : MqttCodec) (p : PublishPkt) (byte n m : ℕ) (rest : Str) (c : Conn)
    → is_tunneled c.conn_state ≡ false
    → finish (deliver_publish codec p (at_body byte n m rest c))
      ≡ some (decode_ok, after_packet codec (publish p) (ctx_after byte n m) rest c)
unfolding traffic
finish-publish codec p byte n m rest c t = elim (Bool-cases (publish_qos p.flags == 1)) [
  | inl e ↦ rw (t, e, append_assoc c.events _ (upcall (publish p) ∷ []))
  | inr e ↦ elim (Bool-cases (publish_qos p.flags == 2)) [
    | inl e₂ ↦ rw (t, e, e₂, append_assoc c.events _ (upcall (publish p) ∷ []))
    | inr e₂ ↦ rw (t, e, e₂)
  ]
]

-- The body is as long as the header says.
length-publish_body : (p : PublishPkt) → length (publish_body p) ≡ publish_remain_len p
unfolding publish_body publish_remain_len pack_str pack_uint16
length-publish_body p = ground (
  arith,
  length-append (p.topic ++ when (ltb 0 (publish_qos p.flags)) (pack_uint16 p.packet_id)) p.payload,
  length-append p.topic (when (ltb 0 (publish_qos p.flags)) (pack_uint16 p.packet_id)),
)

publish_remain_len-bound : (p : PublishPkt) → IsPublish p → publish_remain_len p < 268435456
unfolding publish_remain_len
publish_remain_len-bound p v = let b = v.length_lt in ground arith

unfoldable pub wire_publish : PublishPkt → Str
wire_publish p = (48 + p.flags) ∷ remain_bytes 5 (publish_remain_len p) ++ publish_body p

pub send_publish_packet-wire :
    (p : PublishPkt) → IsPublish p → send_publish_packet p ≡ some (wire_publish p)
unfolding send_publish_packet pack_publish_packet wire_publish
send_publish_packet-wire p v =
    let e : p.flags % 16 ≡ p.flags = let b = v.flags_lt in omega arith in
    frame-some 3 p.flags (publish_remain_len p) (publish_body p) (publish_remain_len-bound p v)
    ∙ rw e

packet_parsers-publish :
    (codec : MqttCodec) (p : PublishPkt) (n : ℕ) (c : Conn)
    → IsPublish p
    → packet_parsers (packet_type (48 + p.flags)) codec n c ≡ parse_publish_packet codec n c
unfolding packet_parsers
packet_parsers-publish codec p n c v =
    let e : (48 + p.flags) / 16 % 16 ≡ 3 = let b = v.flags_lt in omega arith in rw e

validate_flags-publish : (p : PublishPkt) → IsPublish p → validate_flags (48 + p.flags) ≡ decode_ok
unfolding validate_flags
validate_flags-publish p v =
    let e : (48 + p.flags) / 16 % 16 ≡ 3 = let b = v.flags_lt in omega arith in rw e

is_type-publish :
    (p : PublishPkt)
    → IsPublish p
    → (ltb (packet_type (48 + p.flags)) 1 || ltb 14 (packet_type (48 + p.flags))) ≡ false
is_type-publish p v =
    let e : (48 + p.flags) / 16 % 16 ≡ 3 = let b = v.flags_lt in omega arith in rw e

pub decode_step-publish :
    (codec : MqttCodec) (p : PublishPkt) (rest : Str) (c : Conn)
    → IsPublish p
    → is_no_session c.conn_state ≡ false
    → is_tunneled c.conn_state ≡ false
    → decode_step codec parsing_fixed_header (record c { buffer = wire_publish p ++ rest })
      ≡ some (
        decode_ok,
        after_packet codec
            (publish p)
            (ctx_after
              (48 + p.flags)
              (publish_remain_len p)
              (left_multiplier (publish_remain_len p) (publish_body p ++ rest)))
            rest
            c,
      )
unfolding wire_publish
decode_step-publish codec p rest c v s t =
    let n = publish_remain_len p in
    let m = left_multiplier n (publish_body p ++ rest) in
    let enough : n ≤ length (publish_body p ++ rest) =
      omega (arith, length-append (publish_body p) rest, length-publish_body p) in
    rw (append_assoc (remain_bytes 5 n) (publish_body p) rest) (
      decode_step-frame codec (48 + p.flags) n (publish_body p ++ rest) c (is_type-publish p v)
        (validate_flags-publish p v) s (publish_remain_len-bound p v) enough
      ∙ rw
          (packet_parsers-publish codec p n (at_body (48 + p.flags) n m (publish_body p ++ rest) c)
            v)
          (rw (parse_publish_packet-body codec p m rest c v)
            (finish-publish codec p (48 + p.flags) n m rest c t)))
