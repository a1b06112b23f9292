-- ===== src/Topic/Tree.antt =====
-- mqtt/mqtt_topic.h and mqtt_topic.c: the nodes of the topic tree, and the walks along a path.
-- A node's `parent` is the node that holds it, and its `level_name` the key that it stands under.
-- `route_table_item` belongs to the cluster's route table and is left out.
pub mod Laws
pub mod WellFormed
use tiny_mqtt.Prelude.{
  ◌≢◌, ℕ, Str, str_eq, bytes, Bool, true, false, Option, none, some, List, [], ◌∷◌, if◌then◌else◌,
}
use tiny_mqtt.StrMap.{StrMap}

pub record MqttMessage : Type 0 where
  pub message : Str
  pub qos : ℕ

pub record RetainMessage : Type 0 where
  pub retain_msg : MqttMessage
  pub retain_topic : Str

-- The session pointer is a number that stands for the session.
pub record SubscribeInfo : Type 0 where
  pub session : ℕ
  pub qos : ℕ
  pub is_session_closed : Bool

abbrev pub SubscribeMap : Type 0
SubscribeMap = StrMap SubscribeInfo

-- What the tree reads of a rule engine's listener.
pub record EventListener : Type 0 where
  pub listener_id : ℕ
  pub need_json_payload : Bool

-- A node without its children. The two linked lists are lists, head first.
pub record NodeData : Type 0 where
  pub subscribers : Option SubscribeMap
  pub listeners : List EventListener
  pub subscribe_members : List Str
  pub retain_message : Option RetainMessage

mutual
  pub data Node : Type 0 where
    node : NodeData → Children → Node

  pub data Children : Type 0 where
    nil : Children
    cons : Str → Node → Children → Children

abbrev pub plus : Str
plus = bytes "+"

abbrev pub hash : Str
hash = bytes "#"

-- A level that is no wildcard.
abbrev pub IsPlain : Str → Type 0
IsPlain l = (l ≢ plus) × (l ≢ hash)

abbrev pub data_of : Node → NodeData
data_of (node d c) = d

abbrev pub children_of : Node → Children
children_of (node d c) = c

-- `tmq_map_get`, `tmq_map_put` and `tmq_map_erase` on `children`.
unfoldable pub child : Str → Children → Option Node
child k nil = none
child k (cons j n c) = if str_eq j k then some n else child k c

unfoldable pub put_child : Str → Node → Children → Children
put_child k n nil = cons k n nil
put_child k n (cons j m c) = if str_eq j k then cons j n c else cons j m (put_child k n c)

unfoldable pub erase_child : Str → Children → Children
erase_child k nil = nil
erase_child k (cons j m c) =
    let rest = erase_child k c in if str_eq j k then rest else cons j m rest

-- `tmq_map_size(children) == 0`
abbrev pub is_empty : Children → Bool
is_empty nil = true
is_empty (cons j n c) = false

abbrev pub empty_data : NodeData
empty_data = record {
  subscribers = none;
  listeners = [];
  subscribe_members = [];
  retain_message = none;
}

abbrev pub topic_tree_node_new : Node
topic_tree_node_new = node empty_data nil

-- The next node of the walk; the caller puts it back under its key.
unfoldable pub find_or_create : Children → Str → Node
find_or_create cur level = elim (child level cur) [ some next ↦ next | none ↦ topic_tree_node_new ]

-- `add_topic_or_find` with `add` = 1, and then a write to the node that it returns.
unfoldable pub update_topic : (NodeData → NodeData) → List Str → Node → Node
update_topic f [] (node d c) = node (f d) c
update_topic f (level ∷ levels) (node d c) =
    node d (put_child level (update_topic f levels (find_or_create c level)) c)

-- `add_topic_or_find` with `add` = 0.
unfoldable pub find_topic : List Str → Node → Option Node
find_topic [] n = some n
find_topic (level ∷ levels) (node d c) = elim (child level c) [
  | some next ↦ find_topic levels next
  | none ↦ none
]

-- What stands at the end of a path, and nothing where the path leaves the tree.
unfoldable pub data_at : List Str → Node → NodeData
data_at [] (node d c) = d
data_at (level ∷ levels) (node d c) = elim (child level c) [
  | some next ↦ data_at levels next
  | none ↦ empty_data
]

unfoldable pub path_eq : List Str → List Str → Bool
path_eq [] [] = true
path_eq [] (m ∷ q) = false
path_eq (l ∷ p) [] = false
path_eq (l ∷ p) (m ∷ q) = if str_eq l m then path_eq p q else false
