-- ===== src/Broker/Tests.antt =====
-- The theorems on the broker at concrete inputs.
use tiny_mqtt.Prelude.{
  ◌≡◌, refl, ◌↔◌, c_str, true, false, some, none, List, [], ◌∷◌, ◌++◌, Str, bytes, In, ◌&&◌,
  if◌then◌else◌, str_eq,
}
use tiny_mqtt.HashMap.Chain.{none-ne-some}
use tiny_mqtt.StrMap.{get, put}
use tiny_mqtt.Store.{tmq_message_store_memory_new}
use tiny_mqtt.Packet.{ConnectPkt, SubscribePkt, suback}
use tiny_mqtt.Topic.Split.{tmq_topic_split}
use tiny_mqtt.Topic.Tree.{
  topic_tree_node_new, Node, data_at, update_topic, find_or_create, child, put_child,
}
use tiny_mqtt.Topic.Retain.{matching_retained, find_retain_messages}
use tiny_mqtt.Topic.Subscribe.{tmq_topics_add_subscription}
use tiny_mqtt.Topic.Subscribe.Laws.{subscription, subscribe_info}
use tiny_mqtt.Acl.{allow}
use tiny_mqtt.Acl.Tree.{tmq_acl_init}
use tiny_mqtt.Session.{tmq_session_new, session_open}
use tiny_mqtt.Broker.Sessions.{
  handle_session_req, start_session, session_connect, session_disconnect, respond_online,
  add_session,
}
use tiny_mqtt.Broker.Topics.{
  topic_subscribe, handle_topic_req, open_session, subscribe_req, subscribe_all,
}
use tiny_mqtt.Broker.Connect.{
  mqtt_connect, mqtt_connect-credentials, HasCredentials, LacksPassword, post, refused,
  password_matches, has_hash_zero,
}
use tiny_mqtt.HashMap.Hash.{hash_str}
use tiny_mqtt.Broker.WellFormed.{IsBroker, handle_session_req-IsBroker}
use tiny_mqtt.Broker.Close.{disconnect_clean, reconnect_keeps, is_path_of}
use tiny_mqtt.Broker.Suback.{granted_qos, handle_topic_req-suback}
use tiny_mqtt.Broker.{
  Broker, Env, session_at, connect_response, device_online, connection_accepted, send_packet,
}

abbrev env : Env
env = record {
  tcp_conn_id = λ c. bytes "conn";
  peer_addr = λ c. 1;
  io_index = λ c. 0;
  json_valid = λ s. true;
  password_encode = λ s. s;
  now = 5;
  random = 7;
  stale_qos = 0;
}

-- A client "ab" that connects without a user name, and without asking for a clean session.
abbrev connect_ab : ConnectPkt
connect_ab = record {
  flags = 0;
  keep_alive = 60;
  client_id = bytes "ab";
  will_topic = [];
  will_message = [];
  username = [];
  password = [];
}

abbrev empty_broker : Broker
empty_broker = record {
  acl_enabled = false;
  cluster_enabled = false;
  mysql_enabled = false;
  allow_anonymous = false;
  inflight_window_size = 1;
  io_threads = 2;
  next_io_context = 0;
  pwd_conf = (bytes "", bytes "") ∷ [];
  acl = tmq_acl_init allow;
  sessions = [];
  topics_tree = topic_tree_node_new;
  heap = λ i. record {
    session = tmq_session_new 0 7 (bytes "ab") [] false 60 none 1 tmq_message_store_memory_new;
    conn = 3;
    io_context_idx = 0;
  };
  next_session = 0;
  effects = [];
}

empty_broker-IsBroker : IsBroker empty_broker
unfolding get
empty_broker-IsBroker k id g = absurd (none-ne-some g)

abbrev connected : Broker
connected = respond_online 3 0 false (add_session env 3 connect_ab false empty_broker)

connects : handle_session_req env (session_connect 3 connect_ab) empty_broker ≡ some connected
unfolding handle_session_req start_session get
connects = refl

handle_session_req-IsBroker_example : IsBroker connected
handle_session_req-IsBroker_example =
    handle_session_req-IsBroker env (session_connect 3 connect_ab) empty_broker connected
      empty_broker-IsBroker connects

-- The session of "ab", open, behind the pointer 0.
abbrev with_session : Broker
with_session = record empty_broker { sessions = (bytes "ab", 0) ∷ []; next_session = 1 }

ab_is_there : get (bytes "ab") with_session.sessions ≡ some 0
unfolding get str_eq
ab_is_there = refl

open_ab : open_session (bytes "ab") with_session ≡ some 0
unfolding get str_eq
open_ab = refl

reconnect_keeps_example :
    let s = session_at 0 with_session in
    (b₁ : Broker) × (handle_session_req env (session_disconnect 0) with_session ≡ some b₁)
    × (b₂ : Broker) × (handle_session_req env (session_connect 4 connect_ab) b₁ ≡ some b₂)
    × (b₂.topics_tree ≡ with_session.topics_tree)
    × (b₂.effects
        ≡ with_session.effects
          ++ (connect_response 4 connection_accepted (some 0) true ∷ [])
          ++ (device_online connect_ab.username s.client_id ∷ []))
    × ((session_at 0 b₂).state ≡ session_open)
    × ((session_at 0 b₂).subscriptions ≡ s.subscriptions)
    × ((session_at 0 b₂).message_store ≡ s.message_store)
    × ((session_at 0 b₂).qos2_packet_ids ≡ s.qos2_packet_ids)
reconnect_keeps_example =
    reconnect_keeps env 0 4 97 (bytes "b") connect_ab with_session refl ab_is_there refl refl

-- A user "u" whose password is stored, and two packets of that user.
abbrev guarded_broker : Broker
guarded_broker = record empty_broker {
  allow_anonymous = false;
  pwd_conf = (bytes "u", bytes "p") ∷ [];
}

abbrev with_password : ConnectPkt
with_password = record connect_ab { flags = 192; username = bytes "u"; password = bytes "p" }

abbrev without_password : ConnectPkt
without_password = record connect_ab { flags = 128; username = bytes "u" }

outcomes :
    (mqtt_connect env 3 with_password guarded_broker
      ≡ some (post (session_connect 3 with_password)))
    × (mqtt_connect env 3 without_password guarded_broker ≡ none)
    × (mqtt_connect env 3 connect_ab guarded_broker ≡ some refused)
unfolding mqtt_connect password_matches get str_eq c_str has_hash_zero hash_str
outcomes = (refl, refl, refl)

mqtt_connect-credentials_example :
    ((mqtt_connect env 3 without_password guarded_broker
        ≡ some (post (session_connect 3 without_password)))
      ↔ HasCredentials env without_password guarded_broker)
    × ((mqtt_connect env 3 without_password guarded_broker ≡ none)
        ↔ LacksPassword without_password guarded_broker)
mqtt_connect-credentials_example =
    mqtt_connect-credentials env 3 without_password guarded_broker refl refl refl

-- "ab" has a clean session, and is subscribed to "a".
abbrev subscribed_tree : Node
subscribed_tree =
    (tmq_topics_add_subscription (bytes "a") (bytes "ab") 0 1 topic_tree_node_new).root

abbrev clean_broker : Broker
clean_broker = record with_session {
  topics_tree = subscribed_tree;
  heap = λ i. record {
    session = record (session_at 0 with_session) {
      clean_session = true;
      subscriptions = (bytes "a", 1) ∷ [];
    };
    conn = 3;
    io_context_idx = 0;
  };
}

ab_subscribed :
    subscription (tmq_topic_split (bytes "a")) (bytes "ab") subscribed_tree
    ≡ some (subscribe_info 0 1)
unfolding tmq_topics_add_subscription update_topic find_or_create child put_child tmq_topic_split
    put str_eq data_at get
ab_subscribed = refl

disconnect_clean_example :
    let s = session_at 0 clean_broker in
    (b' : Broker) × (handle_session_req env (session_disconnect 0) clean_broker ≡ some b')
    × (get s.client_id b'.sessions ≡ none)
    × ((p : List Str) (other : Str)
        → subscription p other b'.topics_tree ≡ (
            if str_eq s.client_id other && is_path_of p s.subscriptions
            then none
            else subscription p other clean_broker.topics_tree))
disconnect_clean_example =
    disconnect_clean env 0 clean_broker refl ((subscribe_info 0 1, ab_subscribed), tt) (tt, tt)

abbrev subscribe_a : SubscribePkt
subscribe_a = record { packet_id = 9; topics = record { topic_filter = bytes "a"; qos = 1 } ∷ [] }

abbrev answered : Broker
answered = record with_session {
  topics_tree = subscribed_tree;
  effects = send_packet 0 (suback (record { packet_id = 9; return_codes = 1 ∷ [] })) ∷ [];
}

subscribes :
    handle_topic_req env (topic_subscribe (bytes "ab") subscribe_a) with_session ≡ some answered
unfolding handle_topic_req subscribe_req subscribe_all tmq_topics_add_subscription get str_eq
    matching_retained tmq_topic_split update_topic child put_child find_or_create
    find_retain_messages
subscribes = refl

handle_topic_req-suback_example :
    In
      (send_packet 0 (
        suback (record {
          packet_id = 9;
          return_codes = granted_qos env 0 subscribe_a.topics with_session;
        })))
      answered.effects
handle_topic_req-suback_example =
    handle_topic_req-suback env 0 (bytes "ab") subscribe_a with_session answered open_ab subscribes
