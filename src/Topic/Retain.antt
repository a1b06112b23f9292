-- ===== src/Topic/Retain.antt =====
-- mqtt/mqtt_topic.c: `get_all_retain`, `find_retain_messages` and the search at the end of
-- `tmq_topics_add_subscription`.
pub mod Loops
pub mod Found
pub mod Matching
use tiny_mqtt.Prelude.{
  Str, str_eq, Bool, true, false, ◌||◌, Option, none, some, List, [], ◌∷◌, ◌++◌, if◌then◌else◌,
}
use tiny_mqtt.Topic.Tree.{
  RetainMessage, NodeData, Node, Children, node, nil, cons, plus, hash, child,
}

abbrev pub is_wildcard : Str → Bool
is_wildcard level = str_eq level plus || str_eq level hash

abbrev pub retained : Option RetainMessage → List RetainMessage
retained none = []
retained (some m) = m ∷ []

-- The loops over `children`, which pass the wildcards by.
unfoldable pub over_children : (Node → List RetainMessage) → Children → List RetainMessage
over_children f nil = []
over_children f (cons next_level next c) =
    (if is_wildcard next_level then [] else f next) ++ over_children f c

unfoldable mutual
  pub get_all_retain : Node → List RetainMessage
  get_all_retain (node d c) = retained d.retain_message ++ get_all_children c

  pub get_all_children : Children → List RetainMessage
  get_all_children nil = []
  get_all_children (cons next_level next c) =
      (if is_wildcard next_level then [] else get_all_retain next) ++ get_all_children c

-- The levels still to be walked stand for `path` and `next_idx`.
unfoldable pub find_retain_messages : List Str → Node → List RetainMessage
find_retain_messages [] (node d c) = retained d.retain_message
find_retain_messages (level ∷ levels) (node d c) =
    if str_eq level plus
    then over_children (find_retain_messages levels) c
    else if str_eq level hash
    then get_all_retain (node d c)
    else elim (child level c) [ some next ↦ find_retain_messages levels next | none ↦ [] ]

-- The `do` loop over `path`: it stops before the first wildcard. Every node of the path is there.
unfoldable pub skip_literals : List Str → Node → Node × List Str
skip_literals [] n = (n, [])
skip_literals (level ∷ levels) (node d c) = elim (is_wildcard level) [
  | true ↦ (node d c, level ∷ levels)
  | false ↦ elim (child level c) [
    | some next ↦ skip_literals levels next
    | none ↦ (node d c, level ∷ levels)
  ]
]

unfoldable pub retained_from : Node → List Str → List RetainMessage
retained_from (node d c) [] = elim d.retain_message [
  | some m ↦ m ∷ []
  | none ↦ find_retain_messages [] (node d c)
]
retained_from n (level ∷ levels) = find_retain_messages (level ∷ levels) n

unfoldable pub matching_retained : List Str → Node → List RetainMessage
unfolding skip_literals retained_from
matching_retained levels root = let (n, rest) = skip_literals levels root in retained_from n rest
