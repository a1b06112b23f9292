-- ===== src/Broker/Sessions.antt =====
-- Sessions in mqtt/mqtt_broker.c: `start_session`, `session_close_callback`, `handle_session_req`.
use tiny_mqtt.Prelude.{
  ℕ, suc, ◌==◌, Bool, true, false, not, ◌&&◌, Option, none, some, [], ◌∷◌, ◌++◌, Str, c_str, bytes,
  if◌then◌else◌,
}
use tiny_mqtt.Codec.Read.{◌>>=◌}
use tiny_mqtt.Packet.{ConnectPkt}
use tiny_mqtt.StrMap.{StrMap, get, put, erase}
use tiny_mqtt.Store.{tmq_message_store_memory_new}
use tiny_mqtt.Topic.Tree.{Node}
use tiny_mqtt.Topic.Subscribe.{tmq_topics_remove_subscription}
use tiny_mqtt.Session.{
  Session, session_open, session_closed, Will, tmq_session_new, tmq_session_close,
  tmq_session_resume,
}
use tiny_mqtt.Broker.Topics.{publish_to_topics}
use tiny_mqtt.Broker.{
  Broker, connect_response, device_online, Env, Slot, emit, session_at, set_slot, set_session,
  connect_will_flag, connect_will_qos, connect_will_retain, connect_clean_session,
  connection_accepted, identifier_rejected,
}

-- The loop over the subscriptions of a session.
unfoldable pub remove_all : StrMap ℕ → Str → Node → Option Node
remove_all [] client_id root = some root
remove_all ((filter, qos) ∷ rest) client_id root = do
  root' ← tmq_topics_remove_subscription filter client_id root
  remove_all rest client_id root'

unfoldable pub session_close_callback : Session → Bool → Broker → Option Broker
session_close_callback s force_clean b =
    if not s.clean_session && not force_clean then some b else do
      root ← remove_all s.subscriptions s.client_id b.topics_tree
      some (record b { topics_tree = root; sessions = erase s.client_id b.sessions })

-- `tmq_session_close`, with the broker's callback.
unfoldable pub close_session : ℕ → Bool → Broker → Option Broker
close_session id force_clean b =
    let s = tmq_session_close force_clean (session_at id b) in
    session_close_callback s force_clean (set_session id s b)

abbrev pub will_of : ConnectPkt → Option Will
will_of pkt =
    if connect_will_flag pkt.flags
    then some (record {
      topic = pkt.will_topic;
      message = pkt.will_message;
      qos = connect_will_qos pkt.flags;
      retain = if connect_will_retain pkt.flags then 1 else 0;
    })
    else none

-- The id of the client, or a temporary one. A client id that is missing is empty here.
abbrev pub client_id_of : Env → ℕ → ConnectPkt → Str
client_id_of env conn pkt = elim pkt.client_id [
  | [] ↦ bytes "tmp_client[" ++ env.tcp_conn_id conn ++ bytes "]"
  | c ∷ cs ↦ c ∷ cs
]

-- `make_connect_respond` and the event for the rule engine.
abbrev pub respond_online : ℕ → ℕ → Bool → Broker → Broker
respond_online conn id present b =
    let s = session_at id b in
    emit (device_online s.username s.client_id)
      (emit (connect_response conn connection_accepted (some id) present) b)

-- `tmq_session_new` and `tmq_map_put` to the broker's sessions. The message store is one in memory.
unfoldable pub add_session : Env → ℕ → ConnectPkt → Bool → Broker → Broker
add_session env conn pkt clean b =
    let id = b.next_session in
    let client_id = client_id_of env conn pkt in
    let s =
      tmq_session_new env.now env.random client_id pkt.username clean pkt.keep_alive (will_of pkt)
        b.inflight_window_size tmq_message_store_memory_new in
    let slot : Slot = record { session = s; conn = conn; io_context_idx = env.io_index conn } in
    record (set_slot id slot b) { sessions = put client_id id b.sessions; next_session = suc id }

-- The new connection takes the session over; the index of the I/O thread stays.
unfoldable pub resume_session : Env → ℕ → ConnectPkt → ℕ → Broker → Broker
resume_session env conn pkt id b =
    let s =
      tmq_session_resume env.now pkt.username pkt.keep_alive (will_of pkt) (session_at id b) in
    set_slot id (record (b.heap id) { session = s; conn = conn }) b

-- The old session is closed for good, and a new one takes its place.
unfoldable pub replace_session : Env → ℕ → ConnectPkt → ℕ → Broker → Option Broker
replace_session env conn pkt id b = do
  b₁ ← close_session id true b
  some (respond_online conn b₁.next_session true (add_session env conn pkt true b₁))

-- A session with this client id is there. A closed one is no clean session, which is asserted.
unfoldable pub restart_session : Env → ℕ → ConnectPkt → ℕ → Broker → Option Broker
restart_session env conn pkt id b = elim (session_at id b).state [
  | session_open ↦ some (emit (connect_response conn identifier_rejected none false) b)
  | session_closed ↦
      if (session_at id b).clean_session
      then none
      else if connect_clean_session pkt.flags
      then replace_session env conn pkt id b
      else some (respond_online conn id true (resume_session env conn pkt id b))
]

unfoldable pub start_session : Env → ℕ → ConnectPkt → Broker → Option Broker
start_session env conn pkt b = elim (get (client_id_of env conn pkt) b.sessions) [
  | some id ↦ restart_session env conn pkt id b
  | none ↦ some (
      respond_online conn b.next_session false
        (add_session env conn pkt (connect_clean_session pkt.flags) b))
]

pub data SessionReq : Type 0 where
  session_connect : ℕ → ConnectPkt → SessionReq
  session_disconnect : ℕ → SessionReq
  session_force_close : ℕ → SessionReq

unfoldable pub publish_will : Env → Session → Broker → Broker
publish_will env s b = elim s.will [
  | none ↦ b
  | some w ↦
      publish_to_topics env
        (record {
          topic = w.topic;
          message = record { message = c_str w.message; qos = w.qos };
          retain = not (w.retain == 0);
          publisher_username = c_str s.username;
          publisher_client_id = c_str s.client_id;
          is_tunneled_pub = false;
        })
        b
]

unfoldable pub handle_session_req : Env → SessionReq → Broker → Option Broker
handle_session_req env (session_connect conn pkt) b = start_session env conn pkt b
handle_session_req env (session_disconnect id) b = close_session id false b
handle_session_req env (session_force_close id) b =
    close_session id false (publish_will env (session_at id b) b)
