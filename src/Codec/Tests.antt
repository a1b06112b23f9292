-- ===== src/Codec/Tests.antt =====
-- Witnesses and tests for the codec.
use tiny_mqtt.Prelude.{◌≡◌, refl, ◌++◌, some, [], ◌∷◌, bytes, arith}
use tiny_mqtt.Packet.{publish, pubrel, PublishPkt}
use tiny_mqtt.Codec.{
  MqttCodec, server_codec, Conn, ParsingCtx, in_session, parsing_fixed_header, remain_length_loop,
  parse_remain_length, need_more_data, decode_ok,
}
use tiny_mqtt.Codec.Send.{
  remain_bytes, packet_senders, make_fixed_header, pack_uint16, publish_body, pack_str,
  publish_remain_len, send_publish_packet, send_pub_rel_packet,
}
use tiny_mqtt.Codec.Decode.{decode_tcp_message}
use tiny_mqtt.Codec.RemainLength.{
  ReadsAs, remain_length_loop-remain_bytes, receive, parse_remain_length-pieces,
}
use tiny_mqtt.Codec.RoundTrip.{IsPublish}
use tiny_mqtt.Codec.Loop.{after_packets, decode_tcp_message-send_all, send_all}

remain_length_loop-remain_bytes_example :
    ReadsAs (remain_length_loop (remain_bytes 5 321 ++ 7 ∷ []) 0 1) 321 (7 ∷ [])
remain_length_loop-remain_bytes_example = remain_length_loop-remain_bytes 321 (7 ∷ []) (omega arith)

abbrev calm_codec : MqttCodec
calm_codec = record { type = server_codec; callback = λ pkt s. s }

abbrev greeting : PublishPkt
greeting = record { flags = 2; topic = bytes "a/b"; packet_id = 10; payload = bytes "hi" }

greeting-IsPublish : IsPublish greeting
greeting-IsPublish = record {
  flags_lt = omega arith;
  topic_lt = omega arith;
  id_lt = omega arith;
  id_zero = λ e. omega arith;
  length_lt = omega arith;
}

abbrev idle : Conn
idle = record {
  parsing_ctx = record {
    state = parsing_fixed_header;
    type_flags = 0;
    remain_length = 0;
    multiplier = 1;
  };
  conn_state = in_session;
  buffer = 50 ∷ 9 ∷ 0 ∷ 3 ∷ bytes "a/b" ++ (0 ∷ 10 ∷ bytes "hi") ++ (98 ∷ 2 ∷ 1 ∷ 4 ∷ []);
  events = [];
}

idle-sent : send_all (publish greeting ∷ pubrel 260 ∷ []) ≡ some idle.buffer
unfolding send_all packet_senders make_fixed_header remain_bytes pack_uint16 publish_body pack_str
    publish_remain_len send_publish_packet send_pub_rel_packet
idle-sent = refl

decode_tcp_message-send_all_example :
    (ctx : ParsingCtx) × (ctx.state ≡ parsing_fixed_header)
    × (decode_tcp_message calm_codec idle
        ≡ some (after_packets (publish greeting ∷ pubrel 260 ∷ []) ctx idle))
decode_tcp_message-send_all_example =
    decode_tcp_message-send_all calm_codec (publish greeting) (pubrel 260 ∷ []) idle (λ pkt s. refl)
      (greeting-IsPublish, (omega arith, tt)) refl refl refl idle-sent

-- 321 is written as 193 and 2.
abbrev half_read : Conn
half_read = record idle { buffer = 193 ∷ [] }

bytes_of_321 : remain_bytes 5 321 ≡ (193 ∷ []) ++ 2 ∷ []
unfolding remain_bytes
bytes_of_321 = refl

parse_remain_length-pieces_example :
    ((parse_remain_length half_read).0 ≡ need_more_data)
    × ((parse_remain_length (receive (2 ∷ 7 ∷ []) (parse_remain_length half_read).1)).0 ≡ decode_ok)
    × ((parse_remain_length
          (receive (2 ∷ 7 ∷ []) (parse_remain_length half_read).1)).1.parsing_ctx.remain_length
        ≡ 321)
    × ((parse_remain_length (receive (2 ∷ 7 ∷ []) (parse_remain_length half_read).1)).1.buffer
        ≡ 7 ∷ [])
parse_remain_length-pieces_example =
    parse_remain_length-pieces 321 193 2 [] [] (7 ∷ []) half_read (omega arith) bytes_of_321 refl
      refl refl
