-- ===== src/Codec/Frames.antt =====
-- codec/mqtt_proto_codec.c: one packet that arrives whole.
use tiny_mqtt.Prelude.{
  ℕ, suc, ◌+◌, ◌/◌, ◌%◌, ◌<◌, ◌≤◌, ◌≡◌, ◌∙◌, false, ◌||◌, some, [], ◌∷◌, ◌++◌, Str, ltb,
  if◌then◌else◌, arith, length, Bool-cases, inl, inr,
}
use tiny_mqtt.Codec.{
  DecodeStatus, is_no_session, remain_length_loop, decode_ok, Conn, parsing_fixed_header,
  parsing_remain_length, parsing_body, MqttCodec, Outcome, parse_fix_header, validate_flags,
  parse_remain_length, packet_type,
}
use tiny_mqtt.Codec.Read.{◌>>=◌}
use tiny_mqtt.Codec.Send.{remain_bytes}
use tiny_mqtt.Codec.Parsers.{packet_parsers}
use tiny_mqtt.Codec.Decode.{
  decode_step, header_phase, length_phase, remain_phase, body_phase, set_state, is_ok,
}
use tiny_mqtt.Codec.RemainLength.{remain_length_loop-remain_bytes}

-- The connection when the body is to be parsed; `m` is the multiplier that is left.
abbrev pub at_body : ℕ → ℕ → ℕ → Str → Conn → Conn
at_body byte n m rest c = record c {
  parsing_ctx = record {
    state = parsing_body;
    type_flags = byte;
    remain_length = n;
    multiplier = m;
  };
  buffer = rest;
}

remain_bytes-cons : (fuel n : ℕ) → (y : ℕ) × (ys : Str) × (remain_bytes (suc fuel) n ≡ y ∷ ys)
unfolding remain_bytes
remain_bytes-cons fuel n = elim (Bool-cases (ltb 0 (n / 128))) [
  | inl e ↦ (n % 128 + 128, remain_bytes fuel (n / 128), rw e)
  | inr e ↦ (n % 128, [], rw e)
]

-- What the loop's turn does with the outcome of a parser.
abbrev pub finish : Outcome → Outcome
finish o = do
  (status, c) ← o
  some (status, if is_ok status then set_state parsing_fixed_header c else c)

-- The multiplier after the length has been read.
abbrev pub left_multiplier : ℕ → Str → ℕ
left_multiplier n rest = (remain_length_loop (remain_bytes 5 n ++ rest) 0 1).multiplier

-- The connection when the length is to be parsed.
abbrev pub at_length : ℕ → Str → Conn → Conn
at_length byte buf c = record c {
  parsing_ctx = record {
    state = parsing_remain_length;
    type_flags = byte;
    remain_length = 0;
    multiplier = 1;
  };
  buffer = buf;
}

remain_phase-cons :
    (codec : MqttCodec) (s : DecodeStatus) (c : Conn) (y : ℕ) (ys : Str)
    → c.buffer ≡ y ∷ ys
    → remain_phase codec s c ≡ length_phase codec c
unfolding remain_phase
remain_phase-cons codec s c y ys e = rw e

length_phase-ok :
    (codec : MqttCodec) (c : Conn)
    → (parse_remain_length c).0 ≡ decode_ok
    → length_phase codec c ≡ body_phase codec (set_state parsing_body (parse_remain_length c).1)
unfolding length_phase
length_phase-ok codec c st = rw st

parse_remain_length-frame :
    (byte n : ℕ) (rest : Str) (c : Conn)
    → n < 268435456
    → set_state parsing_body (parse_remain_length (at_length byte (remain_bytes 5 n ++ rest) c)).1
      ≡ at_body byte n (left_multiplier n rest) rest c
unfolding parse_remain_length
parse_remain_length-frame byte n rest c n< =
    let (st, len, left) = remain_length_loop-remain_bytes n rest n< in rw (len, left)

body_phase-frame :
    (codec : MqttCodec) (byte n m : ℕ) (rest : Str) (c : Conn)
    → n ≤ length rest
    → body_phase codec (at_body byte n m rest c)
      ≡ finish (packet_parsers (packet_type byte) codec n (at_body byte n m rest c))
unfolding body_phase
body_phase-frame codec byte n m rest c n≤ =
    let short : ltb (length rest) n ≡ false = ground arith in rw short

remain_phase-frame :
    (codec : MqttCodec) (byte n : ℕ) (rest : Str) (c : Conn)
    → n < 268435456
    → n ≤ length rest
    → remain_phase codec decode_ok (at_length byte (remain_bytes 5 n ++ rest) c)
      ≡ finish (
          packet_parsers
            (packet_type byte)
            codec
            n
            (at_body byte n (left_multiplier n rest) rest c))
unfolding parse_remain_length
remain_phase-frame codec byte n rest c n< n≤ =
    let (st, len, left) = remain_length_loop-remain_bytes n rest n< in
    let (y, ys, e) = remain_bytes-cons 4 n in
    remain_phase-cons codec decode_ok (at_length byte (remain_bytes 5 n ++ rest) c) y (ys ++ rest)
      (rw e)
    ∙ length_phase-ok codec (at_length byte (remain_bytes 5 n ++ rest) c) st
    ∙ rw (parse_remain_length-frame byte n rest c n<)
        (body_phase-frame codec byte n (left_multiplier n rest) rest c n≤)

pub decode_step-frame :
    (codec : MqttCodec) (byte n : ℕ) (rest : Str) (c : Conn)
    → (ltb (packet_type byte) 1 || ltb 14 (packet_type byte)) ≡ false
    → validate_flags byte ≡ decode_ok
    → is_no_session c.conn_state ≡ false
    → n < 268435456
    → n ≤ length rest
    → decode_step codec parsing_fixed_header (record c { buffer = byte ∷ remain_bytes 5 n ++ rest })
      ≡ finish (
          packet_parsers
            (packet_type byte)
            codec
            n
            (at_body byte n (left_multiplier n rest) rest c))
unfolding decode_step parse_fix_header header_phase
decode_step-frame codec byte n rest c t v i n< n≤ =
    rw (t, v, i) (remain_phase-frame codec byte n rest c n< n≤)
