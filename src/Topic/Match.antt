-- ===== src/Topic/Match.antt =====
-- mqtt/mqtt_topic.c: `match`, `trigger_event` and `tmq_topics_publish`.
pub mod Clients
pub mod Delivery
pub mod Written
use tiny_mqtt.Prelude.{
  ℕ, Str, c_str, Bool, true, false, not, Option, none, some, List, [], ◌∷◌, ◌++◌, if◌then◌else◌,
  ◌==◌, map,
}
use tiny_mqtt.StrMap.{StrMap, put}
use tiny_mqtt.Topic.Split.{tmq_topic_split}
use tiny_mqtt.Topic.Tree.{
  MqttMessage, RetainMessage, SubscribeMap, EventListener, NodeData, Node, Children, node, plus,
  hash, child, put_child, topic_tree_node_new,
}

pub record PublishReq : Type 0 where
  pub topic : Str
  pub message : MqttMessage
  pub retain : Bool
  pub publisher_username : Str
  pub publisher_client_id : Str
  pub is_tunneled_pub : Bool

-- `payload_as_json` is the text that cJSON parsed.
pub record PubEventData : Type 0 where
  pub username : Str
  pub client_id : Str
  pub qos : ℕ
  pub retain : Bool
  pub payload_as_json : Option Str

-- The calls that `match` makes, in order. `member_match` is a `tmq_map_put` to `matched_members`.
pub data Effect : Type 0 where
  listener_publish : EventListener → PubEventData → Effect
  client_on_match : Str → MqttMessage → SubscribeMap → Effect
  member_match : Str → Effect

-- `match` on a child that is there, written back under its key.
unfoldable pub match_child : (Node → Node × List Effect) → Str → Children → Children × List Effect
match_child go level c = elim (child level c) [
  | some next ↦ let (next', e) = go next in (put_child level next' c, e)
  | none ↦ (c, [])
]

-- The same for the topic's own level, which a retained message creates.
unfoldable pub match_level :
    (Node → Node × List Effect) → Bool → Str → Children → Children × List Effect
match_level go retain level c = elim (child level c) [
  | some next ↦ let (next', e) = go next in (put_child level next' c, e)
  | none ↦
      let (next', e) = go topic_tree_node_new in
      if retain then (put_child level next' c, e) else (c, [])
]

abbrev pub subscriber_effects : PublishReq → Option SubscribeMap → List Effect
subscriber_effects req none = []
subscriber_effects req (some subscribers) = client_on_match req.topic req.message subscribers ∷ []

-- `tmq_str_assign` copies up to the first zero byte.
abbrev pub retained_of : PublishReq → RetainMessage
retained_of req = record {
  retain_msg = record req.message { message = c_str req.message.message };
  retain_topic = c_str req.topic;
}

abbrev pub store_retain : PublishReq → Bool → NodeData → NodeData
store_retain req retain d =
    if retain then record d { retain_message = some (retained_of req) } else d

-- cJSON is not part of the repository: `json_valid` says whether `cJSON_Parse` returns a value.
module _ (json_valid : Str → Bool) (req : PublishReq) where
  abbrev pub pub_event : Option Str → PubEventData
  pub_event json = record {
    username = req.publisher_username;
    client_id = req.publisher_client_id;
    qos = req.message.qos;
    retain = req.retain;
    payload_as_json = json;
  }

  unfoldable pub trigger_event : List EventListener → List Effect
  trigger_event [] = []
  trigger_event (listener ∷ next) =
      (if listener.need_json_payload
        then (if json_valid (c_str req.message.message)
            then listener_publish listener (pub_event (some (c_str req.message.message))) ∷ []
            else [])
        else listener_publish listener (pub_event none) ∷ [])
      ++ trigger_event next

  -- The part that `match` does at a node that matched, and again at its "#" child.
  unfoldable pub notify_node : NodeData → List Effect
  unfolding trigger_event
  notify_node d =
      (if not req.is_tunneled_pub then trigger_event d.listeners else [])
      ++ (subscriber_effects req d.subscribers ++ map member_match d.subscribe_members)

  unfoldable pub notify_child : Option Node → List Effect
  unfolding notify_node
  notify_child (some (node d c)) = notify_node d
  notify_child none = []

  -- The levels still to be matched stand for `levels` and `n`.
  unfoldable pub match : Bool → List Str → Bool → Node → Node × List Effect
  match is_multi_wildcard [] retain (node d c) =
      (node (store_retain req retain d) c, notify_node d ++ notify_child (child hash c))
  match true (level ∷ levels) retain (node d c) = (node d c, notify_node d)
  match false (level ∷ levels) retain (node d c) =
      let (c₁, e₁) = match_level (match false levels retain) retain level c in
      let (c₂, e₂) = match_child (match false levels false) plus c₁ in
      let (c₃, e₃) = match_child (match true levels false) hash c₂ in (node d c₃, e₁ ++ (e₂ ++ e₃))

-- `matched_members`, a set of addresses.
unfoldable pub matched_members : List Effect → StrMap ℕ → StrMap ℕ
matched_members [] m = m
matched_members (member_match addr ∷ es) m = matched_members es (put addr 1 m)
matched_members (listener_publish l e ∷ es) m = matched_members es m
matched_members (client_on_match t msg s ∷ es) m = matched_members es m

pub record Published : Type 0 where
  pub root : Node
  pub effects : List Effect
  -- the argument of `route_on_match`, where it is called
  pub route_on_match : Option (StrMap ℕ)

abbrev route_call : Bool → StrMap ℕ → Option (StrMap ℕ)
route_call tunneled [] = none
route_call tunneled (m ∷ ms) = if not tunneled then some (m ∷ ms) else none

unfoldable pub tmq_topics_publish : (Str → Bool) → PublishReq → Node → Published
unfolding match matched_members
tmq_topics_publish json_valid req root =
    let (root', effects) = match json_valid req false (tmq_topic_split req.topic) req.retain root in
    record {
      root = root';
      effects = effects;
      route_on_match = route_call req.is_tunneled_pub (matched_members effects []);
    }
