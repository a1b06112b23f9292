-- ===== src/Broker/Topics.antt =====
-- Subscribing, unsubscribing and publishing in mqtt/mqtt_broker.c: `handle_topic_req`,
-- `handle_publish_req`, `mqtt_publish` and `mqtt_broadcast`.
use tiny_mqtt.Prelude.{
  ℕ, zero, suc, ◌==◌, Bool, true, false, not, ◌&&◌, Option, none, some, List, [], ◌∷◌, ◌++◌, Str,
  c_str, map, if◌then◌else◌,
}
use tiny_mqtt.Codec.Read.{◌>>=◌}
use tiny_mqtt.Packet.{TopicFilterQos, SubscribePkt, UnsubscribePkt, suback, unsuback}
use tiny_mqtt.StrMap.{StrMap, get}
use tiny_mqtt.Topic.Tree.{MqttMessage, RetainMessage, SubscribeInfo, SubscribeMap, Node}
use tiny_mqtt.Topic.Match.{
  PublishReq, Effect, listener_publish, client_on_match, member_match, tmq_topics_publish,
}
use tiny_mqtt.Topic.Subscribe.{tmq_topics_add_subscription, tmq_topics_remove_subscription}
use tiny_mqtt.Acl.{Permission, allow, deny, unknown, Access, pub_access, sub_access}
use tiny_mqtt.Acl.Tree.{tmq_acl_auth}
use tiny_mqtt.Session.{SessionState, session_open, session_closed}
use tiny_mqtt.Broker.{
  Broker, BrokerEffect, send_packet, broadcast_to, rule_event, tunnel_publish, cluster_add_route,
  Env, Slot, emit, session_at, peer_of,
}

abbrev pub is_closed : SessionState → Bool
is_closed session_open = false
is_closed session_closed = true

-- The loop over the subscribers for the I/O thread `i`.
unfoldable pub task_subscribers : ℕ → SubscribeMap → Broker → List SubscribeInfo
task_subscribers i [] b = []
task_subscribers i ((k, info) ∷ rest) b =
    let slot = b.heap info.session in
    let later = task_subscribers i rest b in
    if slot.io_context_idx == i
    then record info { is_session_closed = is_closed slot.session.state } ∷ later
    else later

-- One task for every I/O thread, for the threads from `i` on. `tmq_str_new` copies up to the first
-- zero byte.
unfoldable pub broadcast_tasks :
    ℕ → ℕ → Str → MqttMessage → SubscribeMap → Broker → List BrokerEffect
broadcast_tasks zero i topic message subscribers b = []
broadcast_tasks (suc left) i topic message subscribers b =
    broadcast_to i (record {
      topic = c_str topic;
      message = record message { message = c_str message.message };
      retain = false;
      subscribers = task_subscribers i subscribers b;
    })
    ∷ broadcast_tasks left (suc i) topic message subscribers b

unfoldable pub mqtt_broadcast : Broker → Str → MqttMessage → SubscribeMap → List BrokerEffect
mqtt_broadcast b topic message subscribers =
    broadcast_tasks b.io_threads 0 topic message subscribers b

-- The calls of a publication: to the clients, to the rule engine; `matched_members` only collects.
unfoldable pub effects_of : Broker → List Effect → List BrokerEffect
effects_of b [] = []
effects_of b (client_on_match topic message subscribers ∷ es) =
    mqtt_broadcast b topic message subscribers ++ effects_of b es
effects_of b (listener_publish listener event ∷ es) = rule_event listener event ∷ effects_of b es
effects_of b (member_match addr ∷ es) = effects_of b es

abbrev pub tunnel : Option (StrMap ℕ) → List BrokerEffect
tunnel none = []
tunnel (some members) = tunnel_publish members ∷ []

-- `tmq_topics_publish` on the broker's tree.
unfoldable pub publish_to_topics : Env → PublishReq → Broker → Broker
publish_to_topics env req b =
    let p = tmq_topics_publish env.json_valid req b.topics_tree in
    record b {
      topics_tree = p.root;
      effects = b.effects ++ (effects_of b p.effects ++ tunnel p.route_on_match);
    }

abbrev pub handle_publish_req : Env → PublishReq → Broker → Broker
handle_publish_req env req b = publish_to_topics env req b

abbrev pub is_denied : Permission → Bool
is_denied deny = true
is_denied allow = false
is_denied unknown = false

abbrev pub denied : Env → Access → Str → Slot → Broker → Bool
denied env access topic slot b =
    b.acl_enabled && is_denied (tmq_acl_auth b.acl (peer_of env slot) topic access)

-- The names of the publisher are copied up to the first zero byte.
abbrev pub copied_names : PublishReq → PublishReq
copied_names req = record req {
  publisher_username = c_str req.publisher_username;
  publisher_client_id = c_str req.publisher_client_id;
}

-- The request that is posted; a publication that comes from no session is not checked.
unfoldable pub mqtt_publish : Env → Option ℕ → PublishReq → Broker → Option PublishReq
mqtt_publish env none req b = some (copied_names req)
mqtt_publish env (some id) req b =
    if denied env pub_access req.topic (b.heap id) b then none else some (copied_names req)

-- What the loop over the topic filters has gathered.
pub record Granted : Type 0 where
  pub broker : Broker
  pub return_codes : List ℕ
  pub all_retain : List RetainMessage

-- The route is added if the filter is new; for an empty filter `topic_exist` was not set.
abbrev pub add_route : Str → Option Bool → Broker → Option Broker
add_route filter topic_exist b = if not b.cluster_enabled then some b else elim topic_exist [
  | none ↦ none
  | some true ↦ some b
  | some false ↦ some (emit (cluster_add_route filter) b)
]

unfoldable pub subscribe_all : Env → ℕ → Str → List TopicFilterQos → Granted → Option Granted
subscribe_all env id client_id [] g = some g
subscribe_all env id client_id (tf ∷ rest) g =
    let b = g.broker in
    if denied env sub_access tf.topic_filter (b.heap id) b
    then subscribe_all env id client_id rest g
    else let s = tmq_topics_add_subscription tf.topic_filter client_id id tf.qos b.topics_tree in
      do
        b₁ ← add_route tf.topic_filter s.topic_exist (record b { topics_tree = s.root })
        subscribe_all env id client_id rest (record {
          broker = b₁;
          return_codes = g.return_codes ++ (tf.qos ∷ []);
          all_retain = g.all_retain ++ s.retain_messages;
        })

-- A task for one retained message, to the I/O thread of the session's connection. The QoS is read
-- behind the last topic filter.
abbrev pub retained_task : Env → ℕ → Broker → RetainMessage → BrokerEffect
retained_task env id b r =
    let info : SubscribeInfo = record {
      session = id;
      qos = env.stale_qos;
      is_session_closed = false;
    } in
    broadcast_to (env.io_index (b.heap id).conn) (record {
      topic = c_str r.retain_topic;
      message = record r.retain_msg { message = c_str r.retain_msg.message };
      retain = true;
      subscribers = info ∷ [];
    })

unfoldable pub unsubscribe_all : List Str → Str → Node → Option Node
unsubscribe_all [] client_id root = some root
unsubscribe_all (filter ∷ rest) client_id root = do
  root' ← tmq_topics_remove_subscription filter client_id root
  unsubscribe_all rest client_id root'

pub data TopicReq : Type 0 where
  topic_subscribe : Str → SubscribePkt → TopicReq
  topic_unsubscribe : Str → UnsubscribePkt → TopicReq

unfoldable pub subscribe_req : Env → ℕ → Str → SubscribePkt → Broker → Option Broker
subscribe_req env id client_id pkt b = do
  g ←
      subscribe_all env id client_id pkt.topics
        (record { broker = b; return_codes = []; all_retain = [] })
  let b₁ = g.broker
  let ack = suback (record { packet_id = pkt.packet_id; return_codes = g.return_codes })
  some (record b₁ {
    effects =
        b₁.effects ++ (send_packet id ack ∷ map (λ r. retained_task env id b₁ r) g.all_retain);
  })

unfoldable pub unsubscribe_req : ℕ → Str → UnsubscribePkt → Broker → Option Broker
unsubscribe_req id client_id pkt b = do
  root ← unsubscribe_all pkt.topics client_id b.topics_tree
  some (emit (send_packet id (unsuback pkt.packet_id)) (record b { topics_tree = root }))

-- The session of a client, unless there is none or it is closed.
abbrev pub open_session : Str → Broker → Option ℕ
open_session client_id b = elim (get client_id b.sessions) [
  | none ↦ none
  | some id ↦ if is_closed (session_at id b).state then none else some id
]

unfoldable pub handle_topic_req : Env → TopicReq → Broker → Option Broker
handle_topic_req env (topic_subscribe client_id pkt) b = elim (open_session client_id b) [
  | none ↦ some b
  | some id ↦ subscribe_req env id client_id pkt b
]
handle_topic_req env (topic_unsubscribe client_id pkt) b = elim (open_session client_id b) [
  | none ↦ some b
  | some id ↦ unsubscribe_req id client_id pkt b
]
