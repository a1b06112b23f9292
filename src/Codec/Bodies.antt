-- ===== src/Codec/Bodies.antt =====
-- codec/mqtt_proto_codec.c: the bodies of the packets of a publication, as they are written and
-- as they are parsed.
use tiny_mqtt.Prelude.{
  ℕ, ◌+◌, ◌-◌, ◌*◌, ◌/◌, ◌%◌, ◌<◌, ◌≤◌, ◌≡◌, false, some, ◌∷◌, ◌++◌, Str, ltb, arith, length,
  length-append, take-append_length, drop-append_length, append-nil,
}
use tiny_mqtt.Codec.Read.{read16, read_str, zeros}
use tiny_mqtt.Codec.Send.{remain_bytes, make_fixed_header, frame, pack_uint16, pack_str}

length-remain_bytes-1 : (n : ℕ) → n < 128 → length (remain_bytes 2 n) ≤ 1
unfolding remain_bytes
length-remain_bytes-1 n n< = ground arith

length-remain_bytes-2 : (n : ℕ) → n < 16384 → length (remain_bytes 3 n) ≤ 2
unfolding remain_bytes
length-remain_bytes-2 n n< =
    let go = length-remain_bytes-1 (n / 128) (omega arith) in ground (arith, go)

length-remain_bytes-3 : (n : ℕ) → n < 2097152 → length (remain_bytes 4 n) ≤ 3
unfolding remain_bytes
length-remain_bytes-3 n n< =
    let go = length-remain_bytes-2 (n / 128) (omega arith) in ground (arith, go)

length-remain_bytes : (n : ℕ) → n < 268435456 → length (remain_bytes 5 n) ≤ 4
unfolding remain_bytes
length-remain_bytes n n< =
    let go = length-remain_bytes-3 (n / 128) (omega arith) in ground (arith, go)

-- A frame whose length has four bytes at most is written.
pub frame-some :
    (type flags n : ℕ) (body : Str)
    → n < 268435456
    → frame type flags n body ≡ some ((type % 16 * 16 + flags % 16) ∷ remain_bytes 5 n ++ body)
unfolding make_fixed_header
frame-some type flags n body n< =
    let e : n % 4294967296 ≡ n = omega arith in
    let h = length-remain_bytes n n< in
    let short : ltb 4 (length (remain_bytes 5 n)) ≡ false = ground arith in rw (e, short)

pub read16-pack_uint16 :
    (v : ℕ) (rest : Str) → v < 65536 → read16 (pack_uint16 v ++ rest) ≡ some (v, rest)
unfolding pack_uint16
read16-pack_uint16 v rest v< = let e : v / 256 % 256 * 256 + v % 256 ≡ v = omega arith in rw e

pub read_str-append : (s rest : Str) → read_str (length s) (s ++ rest) ≡ (s, rest)
unfolding read_str zeros
read_str-append s rest =
    let e : length s - (length s + length rest) ≡ 0 = omega arith in
    rw (take-append_length s rest, drop-append_length s rest, length-append s rest, e, append-nil s)

pub read16-pack_str :
    (s rest : Str) → length s < 65536 → read16 (pack_str s ++ rest) ≡ some (length s, s ++ rest)
unfolding pack_str
read16-pack_str s rest s< =
    let e : length s % 65536 ≡ length s = omega arith in
    let e₂ : length s / 256 % 256 * 256 + length s % 256 ≡ length s = omega arith in rw (e, e₂)
