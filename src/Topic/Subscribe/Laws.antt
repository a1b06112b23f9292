-- ===== src/Topic/Subscribe/Laws.antt =====
-- What adding does to every path of the tree.
use tiny_mqtt.Prelude.{
  ℕ, Str, str_eq, ◌≡◌, refl, false, Option, some, List, [], ◌∷◌, if◌then◌else◌, arith,
}
use tiny_mqtt.StrMap.{get, get-put}
use tiny_mqtt.Topic.Split.{tmq_topic_split}
use tiny_mqtt.Topic.Tree.{SubscribeInfo, Node, data_at, path_eq}
use tiny_mqtt.Topic.Tree.Laws.{data_at-update_topic}
use tiny_mqtt.Topic.Tree.WellFormed.{DistinctNode, update_topic-DistinctNode}
use tiny_mqtt.Topic.Subscribe.{subscriber_map, add_subscriber, tmq_topics_add_subscription}

-- The subscription of a client to a filter, as the tree holds it.
abbrev pub subscription : List Str → Str → Node → Option SubscribeInfo
subscription levels client_id t = get client_id (subscriber_map (data_at levels t).subscribers)

abbrev pub subscribe_info : ℕ → ℕ → SubscribeInfo
subscribe_info session qos = record { session = session; qos = qos; is_session_closed = false }

-- Subscribing to a non-empty filter sets that client's subscription to that filter, and leaves
-- every other client and every other filter as they are.
pub subscription-tmq_topics_add_subscription :
    (ch : ℕ) (rest client_id : Str) (session qos : ℕ) (root : Node) (p : List Str) (other : Str)
    → subscription p other (tmq_topics_add_subscription (ch ∷ rest) client_id session qos root).root
      ≡ (if path_eq (tmq_topic_split (ch ∷ rest)) p
          then (if str_eq client_id other
              then some (subscribe_info session qos)
              else subscription p other root)
          else subscription p other root)
unfolding tmq_topics_add_subscription
subscription-tmq_topics_add_subscription ch rest client_id session qos root p other = ground (
  arith,
  data_at-update_topic (add_subscriber client_id (subscribe_info session qos))
      (tmq_topic_split (ch ∷ rest)) p root,
  get-put client_id other (subscribe_info session qos)
      (subscriber_map (data_at p root).subscribers),
)

-- It writes nothing but subscribers.
pub retain_message-tmq_topics_add_subscription :
    (filter client_id : Str) (session qos : ℕ) (root : Node) (p : List Str)
    → (data_at p
        (tmq_topics_add_subscription filter client_id session qos root).root).retain_message
      ≡ (data_at p root).retain_message
unfolding tmq_topics_add_subscription
retain_message-tmq_topics_add_subscription [] client_id session qos root p = refl
retain_message-tmq_topics_add_subscription (ch ∷ rest) client_id session qos root p = ground (
  arith,
  data_at-update_topic (add_subscriber client_id (subscribe_info session qos))
      (tmq_topic_split (ch ∷ rest)) p root,
)

pub tmq_topics_add_subscription-DistinctNode :
    (filter client_id : Str) (session qos : ℕ) (root : Node)
    → DistinctNode root
    → DistinctNode (tmq_topics_add_subscription filter client_id session qos root).root
unfolding tmq_topics_add_subscription
tmq_topics_add_subscription-DistinctNode [] client_id session qos root w = w
tmq_topics_add_subscription-DistinctNode (ch ∷ rest) client_id session qos root w =
    update_topic-DistinctNode _ _ root w
