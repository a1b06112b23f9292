-- ===== src/Codec.antt =====
-- codec/mqtt_proto_codec.h and the first part of codec/mqtt_proto_codec.c: the state of a
-- connection that the codec works on, and the parsing of the fixed header.
pub mod Read
pub mod Parse
pub mod Parsers
pub mod Decode
pub mod Send
pub mod RemainLength
pub mod Frames
pub mod Bodies
pub mod RoundTrip
pub mod Stream
pub mod Sequence
pub mod Loop
mod Tests
use tiny_mqtt.Prelude.{
  ℕ, ◌+◌, ◌*◌, ◌/◌, ◌%◌, Bool, true, false, ◌&&◌, ◌||◌, Option, none, some, List, [], ◌∷◌, ◌++◌,
  Str, ltb, leb, ◌==◌, if◌then◌else◌,
}
use tiny_mqtt.Packet.{AnyPacket, PublishPkt}

pub data ConnState : Type 0 where
  no_session starting_session in_session tunneled : ConnState

pub data CodecType : Type 0 where
  client_codec server_codec : CodecType

pub data DecodeStatus : Type 0 where
  decode_ok need_more_data unknown_packet bad_packet_format protocol_error unexpected_packet :
      DecodeStatus

pub data ParsingState : Type 0 where
  parsing_fixed_header parsing_remain_length parsing_body : ParsingState

-- `fixed_header` is `type_flags` and `remain_length`.
pub record ParsingCtx : Type 0 where
  pub state : ParsingState
  pub type_flags : ℕ
  pub remain_length : ℕ
  pub multiplier : ℕ

-- What decoding does besides: it writes a packet, calls the codec's callback for a packet, hands
-- over a publication of a tunnel, or closes the connection.
pub data Event : Type 0 where
  sent upcall : AnyPacket → Event
  tun_publish : PublishPkt → Event
  closed : Event

-- The callbacks, in so far as the codec sees them: what the callback for a packet leaves in
-- `conn_state`.
pub record MqttCodec : Type 0 where
  pub type : CodecType
  pub callback : AnyPacket → ConnState → ConnState

-- `buffer` holds the bytes that are readable; `events` are in the order of time.
pub record Conn : Type 0 where
  pub parsing_ctx : ParsingCtx
  pub conn_state : ConnState
  pub buffer : Str
  pub events : List Event

-- `none` is a fault: the source goes on with a value that has not been received.
abbrev pub Outcome : Type 0
Outcome = Option (DecodeStatus × Conn)

abbrev pub packet_type : ℕ → ℕ
packet_type type_flags = type_flags / 16 % 16

abbrev pub header_flags : ℕ → ℕ
header_flags type_flags = type_flags % 16

abbrev pub is_server : CodecType → Bool
is_server server_codec = true
is_server client_codec = false

abbrev pub is_in_session : ConnState → Bool
is_in_session in_session = true
is_in_session no_session = false
is_in_session starting_session = false
is_in_session tunneled = false

abbrev pub is_no_session : ConnState → Bool
is_no_session no_session = true
is_no_session starting_session = false
is_no_session in_session = false
is_no_session tunneled = false

abbrev pub is_tunneled : ConnState → Bool
is_tunneled tunneled = true
is_tunneled no_session = false
is_tunneled starting_session = false
is_tunneled in_session = false

unfoldable pub parse_fix_header : Conn → Outcome
parse_fix_header c = elim c.buffer [
  | [] ↦ none
  | byte ∷ rest ↦
      if ltb (packet_type byte) 1 || ltb 14 (packet_type byte)
      then some (unknown_packet, record c { buffer = rest })
      else some (
        decode_ok,
        record c {
          parsing_ctx = record {
            state = parsing_remain_length;
            type_flags = byte;
            remain_length = 0;
            multiplier = 1;
          };
          buffer = rest;
        },
      )
]

unfoldable pub validate_flags : ℕ → DecodeStatus
validate_flags type_flags =
    let type = packet_type type_flags in
    let flags = header_flags type_flags in
    if type == 3
    then decode_ok
    else if (type == 6 || type == 8) || type == 10
    then (if flags == 2 then decode_ok else bad_packet_format)
    else if flags == 0
    then decode_ok
    else protocol_error

-- The new `remain_length` and `multiplier` are uint32_t.
pub record Lengths : Type 0 where
  pub status : DecodeStatus
  pub remain_length : ℕ
  pub multiplier : ℕ
  pub rest : Str

unfoldable pub remain_length_loop : Str → ℕ → ℕ → Lengths
remain_length_loop [] remain multiplier = record {
  status = need_more_data;
  remain_length = remain;
  multiplier = multiplier;
  rest = [];
}
remain_length_loop (byte ∷ rest) remain multiplier =
    let sum = (remain + byte % 128 * multiplier) % 4294967296 in
    let next = multiplier * 128 % 4294967296 in
    let continued = remain_length_loop rest sum next in
    if ltb 2097152 multiplier
    then record {
      status = bad_packet_format;
      remain_length = sum;
      multiplier = multiplier;
      rest = rest;
    }
    else if leb 128 byte
    then continued
    else record { status = decode_ok; remain_length = sum; multiplier = next; rest = rest }

unfoldable pub parse_remain_length : Conn → DecodeStatus × Conn
parse_remain_length c =
    let l = remain_length_loop c.buffer c.parsing_ctx.remain_length c.parsing_ctx.multiplier in
    (
      l.status,
      record c {
        parsing_ctx = record c.parsing_ctx {
          remain_length = l.remain_length;
          multiplier = l.multiplier;
        };
        buffer = l.rest;
      },
    )
