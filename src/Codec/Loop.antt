-- ===== src/Codec/Loop.antt =====
-- codec/mqtt_proto_codec.c: the loop of `decode_tcp_message_` on several packets.
use tiny_mqtt.Prelude.{
  ℕ, zero, suc, ◌≤◌, ◌≡◌, refl, sym, ap, ◌∙◌, true, false, Option, some, List, [], ◌∷◌, ◌++◌, Str,
  ltb, arith, length, append_assoc, length-append, append-nil, All,
}
use tiny_mqtt.Packet.{AnyPacket}
use tiny_mqtt.Codec.{
  decode_ok, Conn, ParsingCtx, parsing_fixed_header, MqttCodec, is_no_session, is_tunneled,
  ConnState,
}
use tiny_mqtt.Codec.Read.{◌>>=◌}
use tiny_mqtt.Codec.Send.{packet_senders}
use tiny_mqtt.Codec.Decode.{decode_step, decode_loop, decode_tcp_message}
use tiny_mqtt.Codec.Stream.{IsPublication, traffic}
use tiny_mqtt.Codec.Sequence.{
  wire, written, traffic_all, decode_step-wire, length-wire, packet_senders-wire,
}

-- The connection after several packets, with nothing left in the buffer.
abbrev pub after_packets : List AnyPacket → ParsingCtx → Conn → Conn
after_packets pkts ctx c = record c {
  parsing_ctx = ctx;
  buffer = [];
  events = c.events ++ traffic_all pkts;
}

-- The last turn of the loop, and one that is followed by another.
decode_loop-last :
    (codec : MqttCodec) (fuel : ℕ) (c c₁ : Conn)
    → decode_step codec c.parsing_ctx.state c ≡ some (decode_ok, c₁)
    → is_tunneled c₁.conn_state ≡ false
    → c₁.buffer ≡ []
    → decode_loop codec (suc fuel) c ≡ some c₁
unfolding decode_loop
decode_loop-last codec fuel c c₁ d t b = rw (d, t, b)

decode_loop-next :
    (codec : MqttCodec) (fuel : ℕ) (c c₁ : Conn)
    → decode_step codec c.parsing_ctx.state c ≡ some (decode_ok, c₁)
    → is_tunneled c₁.conn_state ≡ false
    → 1 ≤ length c₁.buffer
    → c₁.parsing_ctx.state ≡ parsing_fixed_header
    → decode_loop codec (suc fuel) c ≡ decode_loop codec fuel c₁
unfolding decode_loop
decode_loop-next codec fuel c c₁ d t b s₁ =
    let more : ltb 0 (length c₁.buffer) ≡ true = ground arith in rw (d, t, more, s₁)

-- The callbacks leave `conn_state` as it is.
abbrev pub IsCalm : MqttCodec → Type 0
IsCalm codec = (pkt : AnyPacket) (s : ConnState) → codec.callback pkt s ≡ s

length-written :
    (pkts : List AnyPacket) → All IsPublication pkts → length pkts ≤ length (written pkts)
unfolding written
length-written [] v = omega arith
length-written (pkt ∷ pkts) (v, vs) =
    omega
      (arith, length-append (wire pkt) (written pkts), length-wire pkt v, length-written pkts vs)

abbrev calm_after : AnyPacket → ParsingCtx → Str → Conn → Conn
calm_after pkt ctx rest c = record c {
  parsing_ctx = ctx;
  buffer = rest;
  events = c.events ++ traffic pkt;
}

decode_step-calm :
    (codec : MqttCodec) (pkt : AnyPacket) (rest : Str) (c : Conn)
    → IsCalm codec
    → IsPublication pkt
    → is_no_session c.conn_state ≡ false
    → is_tunneled c.conn_state ≡ false
    → c.parsing_ctx.state ≡ parsing_fixed_header
    → c.buffer ≡ wire pkt ++ rest
    → (ctx : ParsingCtx) × (ctx.state ≡ parsing_fixed_header)
      × (decode_step codec c.parsing_ctx.state c ≡ some (decode_ok, calm_after pkt ctx rest c))
decode_step-calm codec pkt rest c calm v s t st b =
    let (ctx, s₁, d) = decode_step-wire codec pkt rest c v s t in
    (
      ctx,
      s₁,
      ap (λ state. decode_step codec state c) st
          ∙ ap (λ buf. decode_step codec parsing_fixed_header (record c { buffer = buf })) b
          ∙ d
          ∙ rw (calm pkt c.conn_state),
    )

decode_loop-written :
    (codec : MqttCodec) (pkt : AnyPacket) (pkts : List AnyPacket) (fuel : ℕ) (c : Conn)
    → IsCalm codec
    → All IsPublication (pkt ∷ pkts)
    → is_no_session c.conn_state ≡ false
    → is_tunneled c.conn_state ≡ false
    → c.parsing_ctx.state ≡ parsing_fixed_header
    → c.buffer ≡ written (pkt ∷ pkts)
    → length pkts ≤ fuel
    → (ctx : ParsingCtx) × (ctx.state ≡ parsing_fixed_header)
      × (decode_loop codec (suc fuel) c ≡ some (after_packets (pkt ∷ pkts) ctx c))
unfolding written traffic_all
decode_loop-written codec pkt [] fuel c calm (v, vs) s t st b f =
    let (ctx, s₁, d) = decode_step-calm codec pkt [] c calm v s t st b in
    (
      ctx,
      s₁,
      decode_loop-last codec fuel c (calm_after pkt ctx [] c) d t refl
          ∙ rw (append-nil (traffic pkt)),
    )
decode_loop-written codec pkt (q ∷ qs) zero c calm (v, vs) s t st b f = absurd (omega arith)
decode_loop-written codec pkt (q ∷ qs) (suc fuel) c calm (v, vs) s t st b f =
    let (ctx, s₁, d) = decode_step-calm codec pkt (written (q ∷ qs)) c calm v s t st b in
    let c₁ = calm_after pkt ctx (written (q ∷ qs)) c in
    let more : 1 ≤ length (written (q ∷ qs)) =
      omega (arith, length-append (wire q) (written qs), length-wire q vs.0) in
    let (ctx₂, s₂, e) = decode_loop-written codec q qs fuel c₁ calm vs s t s₁ refl (omega arith) in
    (
      ctx₂,
      s₂,
      decode_loop-next codec (suc fuel) c c₁ d t more s₁
          ∙ e
          ∙ rw (append_assoc c.events (traffic pkt) (traffic_all (q ∷ qs))),
    )

-- The bytes that the senders write for several packets.
unfoldable pub send_all : List AnyPacket → Option Str
send_all [] = some []
send_all (pkt ∷ pkts) = do b ← packet_senders pkt; bs ← send_all pkts; some (b ++ bs)

send_all-written :
    (pkts : List AnyPacket) → All IsPublication pkts → send_all pkts ≡ some (written pkts)
unfolding send_all written
send_all-written [] v = refl
send_all-written (pkt ∷ pkts) (v, vs) = rw (packet_senders-wire pkt v, send_all-written pkts vs)

-- PUBLISH packets and acknowledgements, with what they carry in bounds, that are sent one after the
-- other and arrive whole are decoded one by one: each is answered and handed on, in the order of
-- sending, nothing is left in the buffer, and the decoder waits for the next packet. The connection
-- has a session and is no tunnel, the decoder is between two packets, and the callbacks leave
-- `conn_state` as it is.
pub decode_tcp_message-send_all :
    (codec : MqttCodec) (pkt : AnyPacket) (pkts : List AnyPacket) (c : Conn)
    → IsCalm codec
    → All IsPublication (pkt ∷ pkts)
    → is_no_session c.conn_state ≡ false
    → is_tunneled c.conn_state ≡ false
    → c.parsing_ctx.state ≡ parsing_fixed_header
    → send_all (pkt ∷ pkts) ≡ some c.buffer
    → (ctx : ParsingCtx) × (ctx.state ≡ parsing_fixed_header)
      × (decode_tcp_message codec c ≡ some (after_packets (pkt ∷ pkts) ctx c))
unfolding decode_tcp_message
decode_tcp_message-send_all codec pkt pkts c calm v s t st sent =
    let both : some c.buffer ≡ some (written (pkt ∷ pkts)) =
      sym sent ∙ send_all-written (pkt ∷ pkts) v in
    let b : c.buffer ≡ written (pkt ∷ pkts) = cc in
    let count = length-written (pkt ∷ pkts) v in
    let size : length c.buffer ≡ length (written (pkt ∷ pkts)) = ap (λ buf. length buf) b in
    decode_loop-written codec pkt pkts (length c.buffer) c calm v s t st b (omega arith)
