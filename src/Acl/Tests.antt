-- ===== src/Acl/Tests.antt =====
-- Witnesses and tests for the access control list.
use tiny_mqtt.Prelude.{◌≡◌, refl, some, List, [], ◌∷◌, Str, str_eq, bytes, inl, inr, true, false}
use tiny_mqtt.Acl.{
  AclRule, Peer, allow, deny, pub_access, sub_access, pub_sub, acl_client_id_rule_new, add_rule,
  first_permission, walk_rules, check_same_target, conflicts, mergeable, hits,
}
use tiny_mqtt.Acl.Tree.{
  AclNode, acl_node, nil, cons, acl_child, acl_match, match_acl_child, acl_tree_node_new,
}
use tiny_mqtt.Acl.Laws.{node_at, FoundAt, acl_match-FoundAt, FoundAt-acl_match}
use tiny_mqtt.Acl.Widening.{add_rule-widens_next}

-- A tree with the filter "a/#".
abbrev tree : AclNode
tree =
    acl_node (record { rules = []; rules_for_all = [] })
      (cons (bytes "a")
        (acl_node (record { rules = []; rules_for_all = [] })
          (cons (bytes "#") acl_tree_node_new nil))
        nil)

abbrev levels : List Str
levels = bytes "a" ∷ bytes "b" ∷ []

tree-match : acl_match levels tree ≡ some acl_tree_node_new
unfolding acl_match match_acl_child acl_child str_eq
tree-match = refl

acl_match-FoundAt_example : FoundAt levels tree acl_tree_node_new
acl_match-FoundAt_example = acl_match-FoundAt levels tree acl_tree_node_new tree-match

tree-node : node_at (bytes "a" ∷ bytes "#" ∷ []) tree ≡ some acl_tree_node_new
unfolding node_at acl_child str_eq
tree-node = refl

FoundAt-acl_match_example : (found : AclNode) × (acl_match levels tree ≡ some found)
FoundAt-acl_match_example =
    FoundAt-acl_match (bytes "a" ∷ bytes "#" ∷ []) levels tree acl_tree_node_new tree-node
      (inl (inl refl, inr (refl, refl)))

abbrev mallory_denied : AclRule
mallory_denied = acl_client_id_rule_new deny (bytes "mallory") pub_sub

abbrev alice_publishes : AclRule
alice_publishes = acl_client_id_rule_new allow (bytes "alice") pub_access

abbrev mallory_subscribes : AclRule
mallory_subscribes = acl_client_id_rule_new allow (bytes "mallory") sub_access

abbrev alice : Peer
alice = record { client_id = bytes "alice"; username = []; peer_addr = 0 }

same-mallory : check_same_target mallory_denied.target mallory_subscribes.target ≡ true
unfolding check_same_target str_eq
same-mallory = refl

conflicts-mallory : conflicts mallory_denied mallory_subscribes ≡ true
unfolding conflicts
conflicts-mallory = refl

mergeable-alice : mergeable alice_publishes mallory_subscribes ≡ true
unfolding mergeable
mergeable-alice = refl

walk_rules-nil : walk_rules [] mallory_subscribes ≡ some ([], false)
unfolding walk_rules
walk_rules-nil = refl

hits-alice : hits alice_publishes.target alice ≡ true
unfolding hits str_eq
hits-alice = refl

-- A rule that lets mallory subscribe lets alice subscribe instead.
add_rule-widens_next_example :
    (add_rule (mallory_denied ∷ alice_publishes ∷ []) mallory_subscribes
      ≡ some (record alice_publishes { access = pub_sub } ∷ []))
    × (first_permission (record alice_publishes { access = pub_sub } ∷ []) alice sub_access ≡ allow)
add_rule-widens_next_example =
    add_rule-widens_next mallory_denied alice_publishes mallory_subscribes [] [] false alice
      sub_access same-mallory conflicts-mallory mergeable-alice walk_rules-nil hits-alice refl
