-- ===== src/Broker.antt =====
-- mqtt/mqtt_broker.h, mqtt_contexts.h and mqtt_broker.c: the state of the broker, and what its
-- requests do to it. A session pointer is a number, and `heap` the sessions behind the pointers.
-- `none` is a fault: a read through a null pointer, a failed assert, or the use of a variable that
-- was not set.
pub mod Sessions
pub mod Topics
pub mod Connect
pub mod WellFormed
pub mod Close
pub mod Suback
mod Tests
use tiny_mqtt.Prelude.{
  ℕ, suc, ◌==◌, ◌/◌, ◌%◌, Bool, true, false, not, ◌&&◌, Option, none, some, List, [], ◌∷◌, ◌++◌,
  Str, if◌then◌else◌,
}
use tiny_mqtt.Packet.{AnyPacket, ConnectPkt}
use tiny_mqtt.StrMap.{StrMap}
use tiny_mqtt.Topic.Tree.{MqttMessage, RetainMessage, SubscribeInfo, EventListener, Node}
use tiny_mqtt.Topic.Match.{PubEventData, PublishReq}
use tiny_mqtt.Acl.{Peer}
use tiny_mqtt.Acl.Tree.{Acl}
use tiny_mqtt.Session.{Session}

-- The session, its connection, and the index of the I/O thread that it was made for.
pub record Slot : Type 0 where
  pub session : Session
  pub conn : ℕ
  pub io_context_idx : ℕ

pub record BroadcastTask : Type 0 where
  pub topic : Str
  pub message : MqttMessage
  pub retain : Bool
  pub subscribers : List SubscribeInfo

-- What the broker hands on: to the I/O threads, the thread pool, the rule engine and the cluster.
pub data BrokerEffect : Type 0 where
  connect_response : ℕ → ℕ → Option ℕ → Bool → BrokerEffect
  device_online : Str → Str → BrokerEffect
  send_packet : ℕ → AnyPacket → BrokerEffect
  broadcast_to : ℕ → BroadcastTask → BrokerEffect
  rule_event : EventListener → PubEventData → BrokerEffect
  tunnel_publish : StrMap ℕ → BrokerEffect
  cluster_add_route : Str → BrokerEffect

pub record Broker : Type 0 where
  pub acl_enabled : Bool
  pub cluster_enabled : Bool
  pub mysql_enabled : Bool
  pub allow_anonymous : Bool
  pub inflight_window_size : ℕ
  pub io_threads : ℕ
  pub next_io_context : ℕ
  pub pwd_conf : StrMap Str
  pub acl : Acl
  pub sessions : StrMap ℕ
  pub topics_tree : Node
  pub heap : ℕ → Slot
  -- the pointer that the next malloc of a session gives
  pub next_session : ℕ
  pub effects : List BrokerEffect

-- What is outside: the text of a connection's id, its peer's address and its I/O thread, cJSON,
-- the encoding of passwords, the clock, the random first packet id, and the byte that lies behind
-- the vector of topic filters, at the place of a QoS.
pub record Env : Type 0 where
  pub tcp_conn_id : ℕ → Str
  pub peer_addr : ℕ → ℕ
  pub io_index : ℕ → ℕ
  pub json_valid : Str → Bool
  pub password_encode : Str → Str
  pub now : ℕ
  pub random : ℕ
  pub stale_qos : ℕ

abbrev pub emit : BrokerEffect → Broker → Broker
emit e b = record b { effects = b.effects ++ (e ∷ []) }

abbrev pub session_at : ℕ → Broker → Session
session_at id b = (b.heap id).session

-- A write to the session behind a pointer.
unfoldable pub set_slot : ℕ → Slot → Broker → Broker
set_slot id s b = record b { heap = λ i. if id == i then s else b.heap i }

abbrev pub set_session : ℕ → Session → Broker → Broker
set_session id s b = set_slot id (record (b.heap id) { session = s }) b

abbrev pub connect_will_flag : ℕ → Bool
connect_will_flag flags = not (flags / 4 % 2 == 0)

abbrev pub connect_will_qos : ℕ → ℕ
connect_will_qos flags = flags / 8 % 4

abbrev pub connect_will_retain : ℕ → Bool
connect_will_retain flags = not (flags / 32 % 2 == 0)

abbrev pub connect_clean_session : ℕ → Bool
connect_clean_session flags = not (flags / 2 % 2 == 0)

abbrev pub connect_username_flag : ℕ → Bool
connect_username_flag flags = not (flags / 128 % 2 == 0)

abbrev pub connect_password_flag : ℕ → Bool
connect_password_flag flags = not (flags / 64 % 2 == 0)

abbrev pub connection_accepted : ℕ
connection_accepted = 0

abbrev pub identifier_rejected : ℕ
identifier_rejected = 2

abbrev pub not_authorized : ℕ
not_authorized = 5

abbrev pub peer_of : Env → Slot → Peer
peer_of env s = record {
  client_id = s.session.client_id;
  username = s.session.username;
  peer_addr = env.peer_addr s.conn;
}
