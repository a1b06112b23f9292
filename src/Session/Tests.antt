-- ===== src/Session/Tests.antt =====
-- Witnesses and tests for the session.
use tiny_mqtt.Prelude.{
  ◌≡◌, refl, ◌++◌, none, List, [], ◌∷◌, bytes, true, false, not, ◌&&◌, ◌||◌, arith, map,
}
use tiny_mqtt.Packet.{PublishPkt}
use tiny_mqtt.Store.{tmq_message_store_memory_new}
use tiny_mqtt.Session.{Session, tmq_session_new, tmq_session_start, send}
use tiny_mqtt.Store.Refines.{outbox}
use tiny_mqtt.Session.Receive.{
  tmq_session_handle_puback, tmq_session_handle_pubrec, tmq_session_handle_pubcomp,
}
use tiny_mqtt.Session.Transmit.{tmq_session_publish}
use tiny_mqtt.Session.Outbox.{
  IsSession, Keeps, acknowledgements-IsSession, tmq_session_publish-IsPublished, IsPublished,
  has_room, published_pkt, tmq_session_start-outbox,
}
use tiny_mqtt.Session.Dedup.{
  Received, got_publish, got_pubrel, receive_all, deliveries, receive_all-deliveries, as_message,
}

abbrev started : Session
started = tmq_session_new 0 7 (bytes "c") (bytes "u") false 60 none 10 tmq_message_store_memory_new

abbrev twice : PublishPkt
twice = record { flags = 4; topic = bytes "t"; packet_id = 9; payload = bytes "x" }

abbrev repeated : List Received
repeated = got_publish twice ∷ got_publish twice ∷ got_pubrel 9 ∷ got_publish twice ∷ []

receive_all-deliveries_example :
    (receive_all 1 repeated started).effects ≡ started.effects ++ deliveries [] repeated
receive_all-deliveries_example = receive_all-deliveries 1 repeated started refl

-- The repetition is discarded, the message after the PUBREL is not.
deliveries-repeated : deliveries [] repeated ≡ as_message twice ∷ as_message twice ∷ []
unfolding deliveries
deliveries-repeated = refl

started-IsSession : IsSession started
started-IsSession = record {
  window_is_byte = omega arith;
  inflight_le = omega arith;
  pending = refl;
}

acknowledgements-IsSession_example :
    Keeps (tmq_session_handle_puback 3 9 started)
    × Keeps (tmq_session_handle_pubrec 3 9 started)
    × Keeps (tmq_session_handle_pubcomp 3 9 started)
acknowledgements-IsSession_example = acknowledgements-IsSession 3 9 started started-IsSession

tmq_session_start-outbox_example :
    (tmq_session_start started).effects
    ≡ started.effects ++ map (λ e. send e.1) (outbox started.message_store started.window).sent
tmq_session_start-outbox_example = tmq_session_start-outbox started started-IsSession

tmq_session_publish-IsPublished_example :
    IsPublished true
      ((not true || has_room started) && not false)
      (published_pkt 7 (bytes "t") (bytes "x") 1 true)
      started
      (tmq_session_publish 3 (bytes "t") (bytes "x") 1 true false started)
tmq_session_publish-IsPublished_example =
    tmq_session_publish-IsPublished 3 (bytes "t") (bytes "x") 1 true false started (omega arith)
      started-IsSession
