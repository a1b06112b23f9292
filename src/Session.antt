-- ===== src/Session.antt =====
-- mqtt/mqtt_session.h and mqtt/mqtt_session.c: the state of a session and what it does with the
-- packets that it gets and sends. The clock is an argument.
pub mod Receive
pub mod Transmit
pub mod Dedup
pub mod Outbox
mod Tests
use tiny_mqtt.Prelude.{
  ℕ, ◌+◌, ◌*◌, ◌%◌, Bool, true, false, not, ◌&&◌, ◌||◌, Option, none, some, List, [], ◌∷◌, ◌++◌,
  Str, ltb, ◌==◌, if◌then◌else◌, map, take, length,
}
use mathlib.Core.Option
use tiny_mqtt.Packet.{
  AnyPacket, publish, pubrel, subscribe, unsubscribe, PublishPkt, TopicFilterQos, SubscribePkt,
  SubackPkt, UnsubscribePkt, publish_qos, publish_retain,
}
use tiny_mqtt.StrMap.{StrMap, put, erase}
use tiny_mqtt.Store.{
  SendingPacket, Pointer, null, at, freed, MessageStore, Window, Stored, memory_store_store_message,
  Acknowledged, ack_publish, ack_pubrel, Acked, memory_store_acknowledge,
}

pub data SessionState : Type 0 where
  session_open session_closed : SessionState

-- What a session does to others: it hands a message to the broker or the client, sends a packet,
-- passes on a request or an answer, reports the end of a publication, or that it is closed.
pub data SessionEffect : Type 0 where
  new_message : Str → Str → ℕ → ℕ → SessionEffect
  send : AnyPacket → SessionEffect
  broker_subscribe : SubscribePkt → SessionEffect
  broker_unsubscribe : UnsubscribePkt → SessionEffect
  subscribe_response : SubackPkt → SessionEffect
  unsubscribe_response : ℕ → SessionEffect
  publish_finish : ℕ → ℕ → SessionEffect
  on_close : Bool → SessionEffect

pub record Will : Type 0 where
  pub topic : Str
  pub message : Str
  pub qos : ℕ
  pub retain : ℕ

-- The session with a message store in memory, and the effects so far. `qos2_packet_ids` is a set.
pub record Session : Type 0 where
  pub client_id : Str
  pub username : Str
  pub will : Option Will
  pub message_store : MessageStore
  pub window : Window
  pub last_pkt_ts : ℕ
  pub next_packet_id : ℕ
  pub keep_alive : ℕ
  pub state : SessionState
  pub clean_session : Bool
  pub subscriptions : StrMap ℕ
  pub qos2_packet_ids : List ℕ
  pub reports_finish : Bool
  pub effects : List SessionEffect

abbrev pub act : SessionEffect → Session → Session
act e s = record s { effects = s.effects ++ (e ∷ []) }

-- `tmq_map_get` on the set of packet ids
unfoldable pub has_id : ℕ → List ℕ → Bool
has_id id [] = false
has_id id (x ∷ xs) = x == id || has_id id xs

-- `tmq_map_erase` on the set of packet ids
unfoldable pub erase_id : ℕ → List ℕ → List ℕ
erase_id id [] = []
erase_id id (x ∷ xs) = let rest = erase_id id xs in if x == id then rest else x ∷ rest

abbrev pub tmq_session_new : ℕ → ℕ → Str → Str → Bool → ℕ → Option Will → ℕ → MessageStore → Session
tmq_session_new now random client_id username clean keep_alive will max_inflight store = record {
  client_id = client_id;
  username = username;
  will = will;
  message_store = store;
  window = record { inflight_packets = 0; inflight_window_size = max_inflight };
  last_pkt_ts = now;
  next_packet_id = random % 65535;
  keep_alive = keep_alive;
  state = session_open;
  clean_session = clean;
  subscriptions = [];
  qos2_packet_ids = [];
  reports_finish = false;
  effects = [];
}

-- `UINT16_MAX` is followed by 0.
abbrev pub following_id : ℕ → ℕ
following_id id = if id == 65535 then 0 else id + 1

abbrev pub report_finish : Bool → Option (ℕ × ℕ) → Session → Session
report_finish true (some (id, qos)) s = act (publish_finish id qos) s
report_finish reports finished s = s

abbrev pub send_next : Option SendingPacket → Session → Session
send_next none s = s
send_next (some p) s = act (send p.packet) s

-- The store calls `on_publish_finish` itself, before the next packet is sent.
unfoldable pub acknowledge : ℕ → ℕ → Acknowledged → Session → Option Session
acknowledge now packet_id ack s =
    Option.map
      (λ a. send_next a.next (
        report_finish s.reports_finish a.finished
          (record s { message_store = a.store; window = a.window })))
      (memory_store_acknowledge now s.message_store s.window packet_id ack)

-- The packets in front of the pending pointer; with a null or a dangling pointer, all of them.
abbrev pub before_pending : Pointer → List SendingPacket → List SendingPacket
before_pending (at i) queue = take i queue
before_pending null queue = queue
before_pending freed queue = queue

unfoldable pub resend_messages : Session → Session
resend_messages s = record s {
  effects =
      s.effects
      ++ map (λ p. send p.packet)
          (before_pending s.message_store.pending_pointer s.message_store.sending_queue);
}

unfoldable pub tmq_session_start : Session → Session
unfolding resend_messages
tmq_session_start s = resend_messages s

unfoldable pub tmq_session_close : Bool → Session → Session
tmq_session_close force_clean s = act (on_close force_clean) (record s { state = session_closed })

-- The will of the earlier connection is dropped.
unfoldable pub tmq_session_resume : ℕ → Str → ℕ → Option Will → Session → Session
tmq_session_resume now username keep_alive will s = record s {
  state = session_open;
  username = username;
  last_pkt_ts = now;
  keep_alive = keep_alive;
  will = will;
}
