-- ===== src/Topic/Subscribe.antt =====
-- mqtt/mqtt_topic.c: adding and removing subscriptions, listeners and routes.
pub mod Laws
pub mod Removal
pub mod Faults
pub mod EndToEnd
use tiny_mqtt.Prelude.{
  ℕ, Str, Bool, true, false, not, ◌&&◌, Option, none, some, List, [], ◌∷◌, if◌then◌else◌,
}
use tiny_mqtt.StrMap.{StrMap, get, put, erase}
use tiny_mqtt.Topic.Split.{tmq_topic_split}
use tiny_mqtt.Topic.Tree.{
  RetainMessage, SubscribeInfo, SubscribeMap, EventListener, NodeData, Node, Children, node,
  is_empty, child, put_child, erase_child, update_topic, find_topic, data_at,
}
use tiny_mqtt.Topic.Retain.{matching_retained}

abbrev pub is_some {ℓ} : {A : Type ℓ} → Option A → Bool
is_some none = false
is_some (some a) = true

abbrev pub subscriber_map : Option SubscribeMap → SubscribeMap
subscriber_map none = []
subscriber_map (some m) = m

abbrev pub add_subscriber : Str → SubscribeInfo → NodeData → NodeData
add_subscriber client_id info d = record d {
  subscribers = some (put client_id info (subscriber_map d.subscribers));
}

pub record Subscribed : Type 0 where
  pub root : Node
  pub retain_messages : List RetainMessage
  -- `none` where the code leaves `*topic_exist` unset
  pub topic_exist : Option Bool

-- `info` is zeroed but for the session and the QoS.
unfoldable pub tmq_topics_add_subscription : Str → Str → ℕ → ℕ → Node → Subscribed
tmq_topics_add_subscription [] client_id session qos root = record {
  root = root;
  retain_messages = [];
  topic_exist = none;
}
tmq_topics_add_subscription (ch ∷ rest) client_id session qos root =
    let levels = tmq_topic_split (ch ∷ rest) in
    let info : SubscribeInfo = record { session = session; qos = qos; is_session_closed = false } in
    let root' = update_topic (add_subscriber client_id info) levels root in
    record {
      root = root';
      retain_messages = matching_retained levels root';
      topic_exist = some (is_some (data_at levels root).subscribers);
    }

unfoldable pub tmq_topics_add_listener : Str → EventListener → Node → Node
tmq_topics_add_listener topic_filter listener =
    update_topic (λ d. record d { listeners = listener ∷ d.listeners })
      (tmq_topic_split topic_filter)

unfoldable pub tmq_topics_add_route : Str → Str → Node → Node
tmq_topics_add_route topic_filter member_addr =
    update_topic (λ d. record d { subscribe_members = member_addr ∷ d.subscribe_members })
      (tmq_topic_split topic_filter)

-- The condition of the loop in `try_remove_topic`.
abbrev pub removable : Node → Bool
removable (node d c) = not (is_some d.subscribers) && is_empty c && not (is_some d.retain_message)

abbrev pub put_or_erase : Str → Node → Children → Children
put_or_erase level next c = if removable next then erase_child level c else put_child level next c

-- A write to the node at the end of the path, and `try_remove_topic` from there: on the way up a
-- removable node is erased from its parent's children. A node above one that stays is not
-- removable, since it has a child; the root is never removed.
unfoldable pub update_and_remove : (NodeData → NodeData) → List Str → Node → Node
update_and_remove f [] (node d c) = node (f d) c
update_and_remove f (level ∷ levels) (node d c) = elim (child level c) [
  | some next ↦ node d (put_or_erase level (update_and_remove f levels next) c)
  | none ↦ node d c
]

abbrev pub drop_if_empty : SubscribeMap → Option SubscribeMap
drop_if_empty [] = none
drop_if_empty (s ∷ ss) = some (s ∷ ss)

abbrev pub remove_subscriber : Str → NodeData → NodeData
remove_subscriber client_id d = record d {
  subscribers = drop_if_empty (erase client_id (subscriber_map d.subscribers));
}

abbrev pub remove_at : Str → List Str → Node → Option Node → Option Node
remove_at client_id levels root none = some root
remove_at client_id levels root (some (node d c)) = elim d.subscribers [
  | none ↦ none
  | some subscribers ↦ some (update_and_remove (remove_subscriber client_id) levels root)
]

-- `none` is a fault: the code reads `*node->subscribers` through a null pointer.
unfoldable pub tmq_topics_remove_subscription : Str → Str → Node → Option Node
tmq_topics_remove_subscription topic_filter client_id root =
    let levels = tmq_topic_split topic_filter in
    remove_at client_id levels root (find_topic levels root)
