-- ===== src/Topic/Reach.antt =====
-- Every history of the topic tree: the operations of mqtt_topic.c as steps, and the invariant
-- that the matching theorems ask for.
use tiny_mqtt.Prelude.{
  ℕ, Str, str_eq_iff, ◌≡◌, refl, ap, Bool, true, false, some, List, [], ◌∷◌, ◌++◌, arith,
  Option-cases, Bool-cases, inl, inr,
}
use tiny_mqtt.Topic.Split.{tmq_topic_split}
use tiny_mqtt.Topic.Tree.{
  EventListener, NodeData, Node, Children, node, hash, plus, child, topic_tree_node_new,
  update_topic, data_at, path_eq,
}
use tiny_mqtt.Topic.Tree.Laws.{data_at-new, data_at-update_topic}
use tiny_mqtt.Topic.Tree.WellFormed.{
  DistinctNode, Distinct, distinct_node, new-DistinctNode, child-DistinctNode, put_child-Distinct,
  erase_child-Distinct, update_topic-DistinctNode,
}
use tiny_mqtt.Topic.Match.{PublishReq, Effect, match_child, match_level, match, tmq_topics_publish}
use tiny_mqtt.Topic.Match.Delivery.{HashIsLast}
use tiny_mqtt.Topic.Match.Written.{data_at-tmq_topics_publish}
use tiny_mqtt.Topic.Retain.Found.{IsFilter}
use tiny_mqtt.Topic.Subscribe.{
  add_subscriber, removable, update_and_remove, tmq_topics_add_subscription,
  tmq_topics_add_listener, tmq_topics_add_route, tmq_topics_remove_subscription,
}
use tiny_mqtt.Topic.Subscribe.Laws.{subscribe_info, tmq_topics_add_subscription-DistinctNode}
use tiny_mqtt.Topic.Subscribe.Removal.{remove-cases, subscribers-tmq_topics_remove_subscription}

pub data Step (json_valid : Str → Bool) : Node → Node → Type 0 where
  subscribe :
      (filter client_id : Str) (session qos : ℕ) (t : Node)
      → IsFilter (tmq_topic_split filter)
      → Step json_valid t (tmq_topics_add_subscription filter client_id session qos t).root
  unsubscribe :
      (filter client_id : Str) {t u : Node}
      → tmq_topics_remove_subscription filter client_id t ≡ some u
      → Step json_valid t u
  publish :
      (req : PublishReq) (t : Node) → Step json_valid t (tmq_topics_publish json_valid req t).root
  listen :
      (filter : Str) (listener : EventListener) (t : Node)
      → Step json_valid t (tmq_topics_add_listener filter listener t)
  route : (filter addr : Str) (t : Node) → Step json_valid t (tmq_topics_add_route filter addr t)

-- From the tree that `tmq_topics_init` makes.
pub data Reach (json_valid : Str → Bool) : Node → Type 0 where
  init : Reach json_valid topic_tree_node_new
  next : {t u : Node} → Reach json_valid t → Step json_valid t u → Reach json_valid u

pub record IsTopicTree (t : Node) : Type 0 where
  pub hash_is_last : HashIsLast t
  pub distinct : DistinctNode t

match_child-Distinct :
    (go : Node → Node × List Effect) (k : Str) (c : Children)
    → ((n : Node) → DistinctNode n → DistinctNode (go n).0)
    → Distinct c
    → Distinct (match_child go k c).0
unfolding match_child
match_child-Distinct go k c h w = elim (Option-cases (child k c)) [
  | inl e ↦ rw (e, match_child) w
  | inr (n, e) ↦
      rw (e, match_child) (put_child-Distinct k (go n).0 c w (h n (child-DistinctNode k c n w e)))
]

match_level-Distinct :
    (go : Node → Node × List Effect) (retain : Bool) (k : Str) (c : Children)
    → ((n : Node) → DistinctNode n → DistinctNode (go n).0)
    → Distinct c
    → Distinct (match_level go retain k c).0
unfolding match_level
match_level-Distinct go retain k c h w = elim (Option-cases (child k c)) [
  | inl e ↦ elim (Bool-cases retain) [
    | inl r ↦
        rw (e, r, match_level)
          (put_child-Distinct k (go topic_tree_node_new).0 c w (h _ new-DistinctNode))
    | inr r ↦ rw (e, r, match_level) w
  ]
  | inr (n, e) ↦
      rw (e, match_level) (put_child-Distinct k (go n).0 c w (h n (child-DistinctNode k c n w e)))
]

match-DistinctNode :
    (json_valid : Str → Bool) (req : PublishReq) (multi : Bool) (levels : List Str) (retain : Bool)
    (t : Node)
    → DistinctNode t
    → DistinctNode (match json_valid req multi levels retain t).0
unfolding match
match-DistinctNode jv req multi [] retain (node d c) (distinct_node w) = distinct_node w
match-DistinctNode jv req true (l ∷ ls) retain (node d c) (distinct_node w) = distinct_node w
match-DistinctNode jv req false (l ∷ ls) retain (node d c) (distinct_node w) = distinct_node (
    match_child-Distinct (match jv req true ls false) hash _
      (λ n. match-DistinctNode jv req true ls false n)
      (match_child-Distinct (match jv req false ls false) plus _
        (λ n. match-DistinctNode jv req false ls false n)
        (match_level-Distinct (match jv req false ls retain) retain l c
          (λ n. match-DistinctNode jv req false ls retain n) w)))

update_and_remove-DistinctNode :
    (f : NodeData → NodeData) (levels : List Str) (t : Node)
    → DistinctNode t
    → DistinctNode (update_and_remove f levels t)
unfolding update_and_remove
update_and_remove-DistinctNode f [] (node d c) (distinct_node w) = distinct_node w
update_and_remove-DistinctNode f (l ∷ ls) (node d c) (distinct_node w) =
    elim (Option-cases (child l c)) [
      | inl e ↦ rw (e, update_and_remove) (distinct_node w)
      | inr (n, e) ↦
          let u = update_and_remove-DistinctNode f ls n (child-DistinctNode l c n w e) in
          rw (e, update_and_remove)
            (elim (Bool-cases (removable (update_and_remove f ls n))) [
              | inl r ↦ rw r (distinct_node (erase_child-Distinct l c w))
              | inr r ↦ rw r (distinct_node (put_child-Distinct l (update_and_remove f ls n) c w u))
            ])
    ]

-- A filter never ends in "#/#".
IsFilter-path_eq : (q p : List Str) → IsFilter q → path_eq q (p ++ hash ∷ hash ∷ []) ≡ false
unfolding path_eq
IsFilter-path_eq [] [] v = refl
IsFilter-path_eq [] (l ∷ p) v = refl
IsFilter-path_eq (f ∷ []) [] v = ground arith
IsFilter-path_eq (f ∷ g ∷ fs) [] v = ground (arith, str_eq_iff f hash, v.0)
IsFilter-path_eq (f ∷ fs) (l ∷ p) v = ground (arith, IsFilter-path_eq fs p v.1)

init-IsTopicTree : IsTopicTree topic_tree_node_new
init-IsTopicTree = record {
  hash_is_last = λ p. ap (λ d. d.subscribers) (data_at-new (p ++ hash ∷ hash ∷ []));
  distinct = new-DistinctNode;
}

-- A write that leaves the subscribers alone leaves `HashIsLast` too.
update_topic-HashIsLast :
    (f : NodeData → NodeData) (levels : List Str) (t : Node)
    → ((d : NodeData) → (f d).subscribers ≡ d.subscribers)
    → HashIsLast t
    → HashIsLast (update_topic f levels t)
update_topic-HashIsLast f levels t same h p = ground (
  arith,
  data_at-update_topic f levels (p ++ hash ∷ hash ∷ []) t,
  same (data_at (p ++ hash ∷ hash ∷ []) t),
  h p,
)

subscribe-HashIsLast :
    (filter client_id : Str) (session qos : ℕ) (t : Node)
    → IsFilter (tmq_topic_split filter)
    → HashIsLast t
    → HashIsLast (tmq_topics_add_subscription filter client_id session qos t).root
unfolding tmq_topics_add_subscription
subscribe-HashIsLast [] client_id session qos t v h = h
subscribe-HashIsLast (ch ∷ rest) client_id session qos t v h = λ p. ground (
  arith,
  data_at-update_topic (add_subscriber client_id (subscribe_info session qos))
      (tmq_topic_split (ch ∷ rest)) (p ++ hash ∷ hash ∷ []) t,
  IsFilter-path_eq (tmq_topic_split (ch ∷ rest)) p v,
  h p,
)

publish-HashIsLast :
    (json_valid : Str → Bool) (req : PublishReq) (t : Node)
    → HashIsLast t
    → HashIsLast (tmq_topics_publish json_valid req t).root
publish-HashIsLast json_valid req t h p =
    ground (arith, data_at-tmq_topics_publish json_valid req t (p ++ hash ∷ hash ∷ []), h p)

Step-IsTopicTree :
    {json_valid : Str → Bool} {t u : Node} → Step json_valid t u → IsTopicTree t → IsTopicTree u
Step-IsTopicTree (subscribe filter client_id session qos t v) w = record {
  hash_is_last = subscribe-HashIsLast filter client_id session qos t v w.hash_is_last;
  distinct = tmq_topics_add_subscription-DistinctNode filter client_id session qos t w.distinct;
}
Step-IsTopicTree (unsubscribe filter client_id {t} {u} e) w = record {
  hash_is_last = λ p.
      subscribers-tmq_topics_remove_subscription filter client_id t u (p ++ hash ∷ hash ∷ []) e
        (w.hash_is_last p);
  distinct = elim (remove-cases filter client_id t u e) [
    | inl same ↦ rw (← same) w.distinct
    | inr (n, at, done) ↦ rw (← done) (update_and_remove-DistinctNode _ _ t w.distinct)
  ];
}
Step-IsTopicTree {json_valid} (publish req t) w = record {
  hash_is_last = publish-HashIsLast json_valid req t w.hash_is_last;
  distinct =
      unfold tmq_topics_publish in
      match-DistinctNode json_valid req false (tmq_topic_split req.topic) req.retain t w.distinct;
}
Step-IsTopicTree (listen filter listener t) w = record {
  hash_is_last =
      unfold tmq_topics_add_listener in
      update_topic-HashIsLast (λ d. record d { listeners = listener ∷ d.listeners })
        (tmq_topic_split filter) t (λ d. refl) w.hash_is_last;
  distinct = unfold tmq_topics_add_listener in update_topic-DistinctNode _ _ t w.distinct;
}
Step-IsTopicTree (route filter addr t) w = record {
  hash_is_last =
      unfold tmq_topics_add_route in
      update_topic-HashIsLast (λ d. record d { subscribe_members = addr ∷ d.subscribe_members })
        (tmq_topic_split filter) t (λ d. refl) w.hash_is_last;
  distinct = unfold tmq_topics_add_route in update_topic-DistinctNode _ _ t w.distinct;
}

-- After every history of operations whose filters have "#" at their end only, the tree meets the
-- invariant: children have distinct names, and no subscription stands under "#/#".
pub Reach-IsTopicTree : {json_valid : Str → Bool} {t : Node} → Reach json_valid t → IsTopicTree t
Reach-IsTopicTree init = init-IsTopicTree
Reach-IsTopicTree (next r s) = Step-IsTopicTree s (Reach-IsTopicTree r)
