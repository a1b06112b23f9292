-- ===== src/Acl/Tree.antt =====
-- mqtt/mqtt_acl.c: the tree of topic filters with rules, and the answer to a session.
use tiny_mqtt.Prelude.{Str, str_eq, bytes, Option, none, some, List, [], ◌∷◌, if◌then◌else◌}
use mathlib.Core.Option
use tiny_mqtt.Topic.Split.{tmq_topic_split}
use tiny_mqtt.Acl.{Permission, Access, AclRule, Peer, is_unknown, add_rule, first_permission}

pub record Rules : Type 0 where
  pub rules : List AclRule
  pub rules_for_all : List AclRule

mutual
  pub data AclNode : Type 0 where
    acl_node : Rules → AclChildren → AclNode

  pub data AclChildren : Type 0 where
    nil : AclChildren
    cons : Str → AclNode → AclChildren → AclChildren

abbrev pub acl_tree_node_new : AclNode
acl_tree_node_new = acl_node (record { rules = []; rules_for_all = [] }) nil

abbrev pub rules_of : AclNode → Rules
rules_of (acl_node r c) = r

-- `tmq_map_get` and `tmq_map_put` on `children`.
unfoldable pub acl_child : Str → AclChildren → Option AclNode
acl_child k nil = none
acl_child k (cons j n c) = if str_eq j k then some n else acl_child k c

unfoldable pub put_acl_child : Str → AclNode → AclChildren → AclChildren
put_acl_child k n nil = cons k n nil
put_acl_child k n (cons j m c) = if str_eq j k then cons j n c else cons j m (put_acl_child k n c)

unfoldable pub find_or_create_acl : Str → AclChildren → AclNode
unfolding acl_child
find_or_create_acl level c = elim (acl_child level c) [
  | some next ↦ next
  | none ↦ acl_tree_node_new
]

-- `add_topic_or_find`, a write to the node that it returns, and the nodes put back on the way.
-- A fault of the write is one of the whole.
unfoldable pub update_at : (Rules → Option Rules) → List Str → AclNode → Option AclNode
unfolding find_or_create_acl put_acl_child
update_at f [] (acl_node r c) = Option.map (λ r'. acl_node r' c) (f r)
update_at f (level ∷ levels) (acl_node r c) =
    Option.map (λ n. acl_node r (put_acl_child level n c))
      (update_at f levels (find_or_create_acl level c))

pub record Acl : Type 0 where
  pub root : AclNode
  pub nomatch_permission : Permission

abbrev pub tmq_acl_init : Permission → Acl
tmq_acl_init nomatch = record { root = acl_tree_node_new; nomatch_permission = nomatch }

abbrev pub add_to_rules : AclRule → Rules → Option Rules
add_to_rules rule r = Option.map (λ rs. record r { rules = rs }) (add_rule r.rules rule)

abbrev pub add_to_rules_for_all : AclRule → Rules → Option Rules
add_to_rules_for_all rule r =
    Option.map (λ rs. record r { rules_for_all = rs }) (add_rule r.rules_for_all rule)

-- `add_topic_or_find` cuts the filter at the same places as `tmq_topic_split`.
unfoldable pub tmq_acl_add_rule : Acl → Str → AclRule → Option Acl
unfolding update_at tmq_topic_split
tmq_acl_add_rule acl topic_filter rule =
    Option.map (λ root. record acl { root = root })
      (update_at (add_to_rules rule) (tmq_topic_split topic_filter) acl.root)

unfoldable pub tmq_acl_add_rule_for_all : Acl → Str → AclRule → Option Acl
unfolding update_at tmq_topic_split
tmq_acl_add_rule_for_all acl topic_filter rule =
    Option.map (λ root. record acl { root = root })
      (update_at (add_to_rules_for_all rule) (tmq_topic_split topic_filter) acl.root)

-- The first match that is there.
abbrev pub or_else : Option AclNode → Option AclNode → Option AclNode
or_else (some n) m = some n
or_else none m = m

-- The match below a child, if the child is there.
unfoldable pub match_acl_child : (AclNode → Option AclNode) → Str → AclChildren → Option AclNode
unfolding acl_child
match_acl_child go level c = elim (acl_child level c) [ some next ↦ go next | none ↦ none ]

-- `match`: the level itself, then "+", then "#", which matches what is left.
unfoldable pub acl_match : List Str → AclNode → Option AclNode
unfolding match_acl_child
acl_match [] n = some n
acl_match (level ∷ levels) (acl_node r c) = or_else (match_acl_child (acl_match levels) level c) (
    or_else (match_acl_child (acl_match levels) (bytes "+") c)
      (match_acl_child (λ n. some n) (bytes "#") c))

abbrev pub unless_unknown : Permission → Permission → Permission
unless_unknown p q = if is_unknown p then q else p

-- The rules of the node, then its rules for all.
unfoldable pub permission_at : Rules → Peer → Access → Permission
unfolding first_permission
permission_at r peer access =
    unless_unknown (first_permission r.rules peer access)
      (first_permission r.rules_for_all peer access)

-- The lock is left out.
unfoldable pub tmq_acl_auth : Acl → Peer → Str → Access → Permission
unfolding acl_match permission_at tmq_topic_split
tmq_acl_auth acl peer topic_filter access =
    elim (acl_match (tmq_topic_split topic_filter) acl.root) [
      | none ↦ acl.nomatch_permission
      | some n ↦ unless_unknown (permission_at (rules_of n) peer access) acl.nomatch_permission
    ]
