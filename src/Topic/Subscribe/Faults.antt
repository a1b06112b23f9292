-- ===== src/Topic/Subscribe/Faults.antt =====
-- Inputs on which `tmq_topics_remove_subscription` reads through a null pointer, and what
-- `try_remove_topic` drops with a node.
use tiny_mqtt.Prelude.{
  ℕ, Str, str_eq_refl, ◌≡◌, refl, sym, ap, ◌∙◌, true, none, some, List, [], ◌∷◌, ◌++◌, Bool-cases,
  inl, inr,
}
use mathlib.Core.Path.{subst}
use tiny_mqtt.StrMap.{erase}
use tiny_mqtt.Topic.Split.{tmq_topic_split, split_from-ne-nil}
use tiny_mqtt.Topic.Tree.{
  SubscribeInfo, NodeData, Node, Children, node, nil, child, put_child, find_or_create,
  update_topic, find_topic, data_at, empty_data,
}
use tiny_mqtt.Topic.Tree.Laws.{
  child-put_child, data_at-erase_child, data_at-put_child, data_at-find_or_create,
}
use tiny_mqtt.Topic.Subscribe.{
  add_subscriber, removable, update_and_remove, remove_subscriber, tmq_topics_add_subscription,
  tmq_topics_remove_subscription,
}
use tiny_mqtt.Topic.Subscribe.Laws.{subscribe_info}
use tiny_mqtt.Topic.Subscribe.Removal.{find_topic-step, update_and_remove-step, remove-found}

child_step :
    (m : Str) (p : List Str) (d : NodeData) (c : Children) (x : Node)
    → find_topic (m ∷ p) (node d (put_child m x c)) ≡ find_topic p x
unfolding find_topic
child_step m p d c x =
    let e : child m (put_child m x c) ≡ some x = child-put_child m m x c ∙ rw (str_eq_refl m) in
    rw (e, find_topic)

-- A walk that creates its path creates the nodes above its end, and leaves their data.
find_topic-update_topic :
    (f : NodeData → NodeData) (p : List Str) (l : Str) (q : List Str) (t : Node)
    → (c : Children) × (find_topic p (update_topic f (p ++ l ∷ q) t) ≡ some (node (data_at p t) c))
unfolding update_topic
find_topic-update_topic f [] l q (node d c) =
    (put_child l (update_topic f q (find_or_create c l)) c, unfold find_topic data_at in refl)
find_topic-update_topic f (m ∷ p) l q (node d c) =
    let (c', e) = find_topic-update_topic f p l q (find_or_create c m) in
    (
      c',
      child_step m p d c (update_topic f (p ++ l ∷ q) (find_or_create c m))
          ∙ e
          ∙ ap (λ x. some (node x c')) (data_at-find_or_create m p d c),
    )

-- Unsubscribing from a filter that no client subscribes to reads through a null pointer, as soon
-- as some client subscribes to a filter below it: that subscription has created the node.
pub tmq_topics_remove_subscription-fault :
    (shorter client_id : Str) (ch : ℕ) (rest other : Str) (session qos : ℕ) (l : Str) (q : List Str)
    (root : Node)
    → tmq_topic_split (ch ∷ rest) ≡ tmq_topic_split shorter ++ l ∷ q
    → (data_at (tmq_topic_split shorter) root).subscribers ≡ none
    → tmq_topics_remove_subscription shorter client_id
        (tmq_topics_add_subscription (ch ∷ rest) other session qos root).root
      ≡ none
unfolding tmq_topics_remove_subscription tmq_topics_add_subscription
tmq_topics_remove_subscription-fault shorter client_id ch rest other session qos l q root e h =
    let (c, found) =
      find_topic-update_topic (add_subscriber other (subscribe_info session qos))
        (tmq_topic_split shorter) l q root in
    rw e (rw found (rw h))

removed_at_end :
    (f : NodeData → NodeData) (l : Str) (q : List Str) (t : Node) (d : NodeData)
    → find_topic (l ∷ q) t ≡ some (node d nil)
    → removable (node (f d) nil) ≡ true
    → data_at (l ∷ q) (update_and_remove f (l ∷ q) t) ≡ empty_data
removed_at_end f l [] (node e c) d at r =
    let (next, at', same) = find_topic-step l [] e c (node d nil) at in
    let same' : next ≡ node d nil = some_eq (unfold find_topic in same) in
    rw (update_and_remove-step f l [] e c next at', same')
      (unfold update_and_remove in rw r (data_at-erase_child l l [] e e c ∙ rw (str_eq_refl l)))
  where
    some_eq : {x y : Node} → some x ≡ some y → x ≡ y
    some_eq p = cc
removed_at_end f l (m ∷ q) (node e c) d at r =
    let (next, at', below) = find_topic-step l (m ∷ q) e c (node d nil) at in
    let x = update_and_remove f (m ∷ q) next in
    rw (update_and_remove-step f l (m ∷ q) e c next at') (elim (Bool-cases (removable x)) [
      | inl gone ↦ rw gone (data_at-erase_child l l (m ∷ q) e e c ∙ rw (str_eq_refl l))
      | inr kept ↦ rw kept (
          data_at-put_child l l (m ∷ q) x e e c
          ∙ rw (str_eq_refl l) (removed_at_end f m q next d below r))
    ])

-- When the last subscriber of a filter leaves, and no topic lies below the filter and no message
-- is retained for it, the rule engine's listeners and the cluster members of the filter are
-- dropped with its node: nothing of the node's data is left in the tree.
pub tmq_topics_remove_subscription-drops_node :
    (filter client_id : Str) (info : SubscribeInfo) (root : Node) (d : NodeData)
    → find_topic (tmq_topic_split filter) root ≡ some (node d nil)
    → d.subscribers ≡ some ((client_id, info) ∷ [])
    → d.retain_message ≡ none
    → (root' : Node) × (tmq_topics_remove_subscription filter client_id root ≡ some root')
      × (data_at (tmq_topic_split filter) root' ≡ empty_data)
tmq_topics_remove_subscription-drops_node filter client_id info root d e hs hr =
    let levels = tmq_topic_split filter in
    let f = remove_subscriber client_id in
    (
      update_and_remove f levels root,
      remove-found filter client_id root d nil ((client_id, info) ∷ []) e hs,
      (unfold tmq_topic_split in
          let (l, q, ne) = split_from-ne-nil [] filter in
          subst (λ p. data_at p (update_and_remove f p root) ≡ empty_data) (sym ne)
            (removed_at_end f l q root d (rw ne at e)
              (rw (hs, hr) (unfold erase in rw (str_eq_refl client_id))))),
    )
