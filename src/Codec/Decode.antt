-- ===== src/Codec/Decode.antt =====
-- codec/mqtt_proto_codec.c: `decode_tcp_message_`, the state machine that cuts the bytes of a
-- connection into packets, wherever the network has cut them.
use tiny_mqtt.Prelude.{
  ℕ, zero, suc, Bool, true, false, not, ◌&&◌, ◌||◌, Option, none, some, [], ◌∷◌, ltb, ◌==◌,
  if◌then◌else◌, length,
}
use tiny_mqtt.Codec.{
  ParsingState, parsing_fixed_header, parsing_remain_length, parsing_body, DecodeStatus, decode_ok,
  need_more_data, unknown_packet, bad_packet_format, protocol_error, unexpected_packet, MqttCodec,
  Conn, Outcome, closed, packet_type, is_no_session, is_tunneled, parse_fix_header, validate_flags,
  parse_remain_length,
}
use tiny_mqtt.Codec.Read.{◌>>=◌}
use tiny_mqtt.Codec.Parse.{log}
use tiny_mqtt.Codec.Parsers.{packet_parsers}

abbrev pub is_ok : DecodeStatus → Bool
is_ok decode_ok = true
is_ok need_more_data = false
is_ok unknown_packet = false
is_ok bad_packet_format = false
is_ok protocol_error = false
is_ok unexpected_packet = false

-- `status != DECODE_OK && status != NEED_MORE_DATA`
abbrev pub is_failure : DecodeStatus → Bool
is_failure need_more_data = false
is_failure s = not (is_ok s)

abbrev pub set_state : ParsingState → Conn → Conn
set_state s c = record c { parsing_ctx = record c.parsing_ctx { state = s } }

-- `case PARSING_BODY`
unfoldable pub body_phase : MqttCodec → Conn → Outcome
body_phase codec c =
    if ltb (length c.buffer) c.parsing_ctx.remain_length then some (need_more_data, c) else (do
      (status, c₁) ←
          packet_parsers (packet_type c.parsing_ctx.type_flags) codec c.parsing_ctx.remain_length c
      some (status, if is_ok status then set_state parsing_fixed_header c₁ else c₁))

-- `case PARSING_REMAIN_LENGTH`, with a byte to read.
unfoldable pub length_phase : MqttCodec → Conn → Outcome
length_phase codec c =
    let (s, c₁) = parse_remain_length c in
    if is_ok s then body_phase codec (set_state parsing_body c₁) else some (s, c₁)

-- `case PARSING_REMAIN_LENGTH`, with the status so far.
unfoldable pub remain_phase : MqttCodec → DecodeStatus → Conn → Outcome
remain_phase codec status c = elim c.buffer [
  | [] ↦ some (status, c)
  | x ∷ xs ↦ length_phase codec c
]

-- `ctx->conn_state == NO_SESSION` and neither a CONNECT nor a CONNACK
abbrev pub comes_first : Conn → Bool
comes_first c =
    let type = packet_type c.parsing_ctx.type_flags in
    is_no_session c.conn_state && not (type == 1 || type == 2)

-- `case PARSING_FIXED_HEADER`, after the byte has been read.
unfoldable pub header_phase : MqttCodec → DecodeStatus → Conn → Outcome
header_phase codec bad_packet_format c = some (bad_packet_format, c)
header_phase codec status c =
    if comes_first c then some (protocol_error, c) else remain_phase codec status c

-- One turn of the loop. A turn that starts with PARSING_REMAIN_LENGTH and no byte leaves `status`
-- not initialised.
unfoldable pub decode_step : MqttCodec → ParsingState → Conn → Outcome
decode_step codec parsing_fixed_header c = do
  (status, c₁) ← parse_fix_header c
  if is_ok status
      then header_phase codec (validate_flags c₁.parsing_ctx.type_flags) c₁
      else some (status, c₁)
decode_step codec parsing_remain_length c = elim c.buffer [
  | [] ↦ none
  | x ∷ xs ↦ remain_phase codec decode_ok c
]
decode_step codec parsing_body c = body_phase codec c

abbrev pub is_fixed_header : ParsingState → Bool
is_fixed_header parsing_fixed_header = true
is_fixed_header parsing_remain_length = false
is_fixed_header parsing_body = false

-- The condition of the loop.
abbrev pub goes_on : Conn → Bool
goes_on c =
    (not (is_tunneled c.conn_state) && ltb 0 (length c.buffer))
    && is_fixed_header c.parsing_ctx.state

unfoldable pub decode_loop : MqttCodec → ℕ → Conn → Option Conn
decode_loop codec zero c = none
decode_loop codec (suc fuel) c = do
  (status, c₁) ← decode_step codec c.parsing_ctx.state c
  let rest = decode_loop codec fuel c₁
  if is_failure status then some (log closed c₁) else if goes_on c₁ then rest else some c₁

-- A turn that is followed by another takes a byte at least.
unfoldable pub decode_tcp_message : MqttCodec → Conn → Option Conn
unfolding decode_loop
decode_tcp_message codec c = decode_loop codec (suc (length c.buffer)) c
