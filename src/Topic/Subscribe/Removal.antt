-- ===== src/Topic/Subscribe/Removal.antt =====
-- `tmq_topics_remove_subscription` with `try_remove_topic`: what is gone, and what stays.
use tiny_mqtt.Prelude.{
  Str, str_eq, str_eq_iff, ◌≡◌, refl, true, none, some, List, [], ◌∷◌, if◌then◌else◌, arith,
  Bool-cases, Option, Option-cases, ◌⊎◌, inl, inr,
}
use tiny_mqtt.StrMap.{get, erase, get-erase}
use tiny_mqtt.Topic.Split.{tmq_topic_split}
use tiny_mqtt.Topic.Tree.{
  SubscribeMap, NodeData, Node, Children, node, nil, cons, child, find_topic, data_at, path_eq,
  empty_data,
}
use tiny_mqtt.Topic.Tree.Laws.{
  data_at-child, data_at-no_child, data_at-erase_child, data_at-put_child,
}
use tiny_mqtt.Topic.Subscribe.{
  subscriber_map, removable, put_or_erase, update_and_remove, drop_if_empty, remove_subscriber,
  tmq_topics_remove_subscription,
}
use tiny_mqtt.Topic.Subscribe.Laws.{subscription}

-- A field that a node without subscribers and retained message has as an absent node has it.
abbrev pub Survives : {A : Type 0} → (NodeData → A) → Type 0
Survives g = (d : NodeData) → d.subscribers ≡ none → d.retain_message ≡ none → g d ≡ g empty_data

removable-data_at :
    {A : Type 0} (g : NodeData → A) (p : List Str) (n : Node)
    → Survives g
    → removable n ≡ true
    → g (data_at p n) ≡ g empty_data
removable-data_at g [] (node d c) s h = unfold data_at in s d (ground arith) (ground arith)
removable-data_at g (k ∷ p) (node d nil) s h = unfold data_at child in refl
removable-data_at g (k ∷ p) (node d (cons j n c)) s h = ground arith

pub find_topic-step :
    (m : Str) (q : List Str) (d : NodeData) (c : Children) (n : Node)
    → find_topic (m ∷ q) (node d c) ≡ some n
    → (next : Node) × (child m c ≡ some next) × (find_topic q next ≡ some n)
unfolding find_topic
find_topic-step m q d c n e = elim (Option-cases (child m c)) [
  | inl at ↦ let e' : none ≡ some n = rw (at, find_topic) at e in cc
  | inr (next, at) ↦ (next, at, rw (at, find_topic) at e)
]

pub update_and_remove-step :
    (f : NodeData → NodeData) (m : Str) (q : List Str) (d : NodeData) (c : Children) (next : Node)
    → child m c ≡ some next
    → update_and_remove f (m ∷ q) (node d c)
      ≡ node d (put_or_erase m (update_and_remove f q next) c)
unfolding update_and_remove
update_and_remove-step f m q d c next at = rw (at, update_and_remove)

module _ {A : Type 0} (g : NodeData → A) (survives : Survives g) where
  data_at-put_or_erase :
      (m l : Str) (p : List Str) (d : NodeData) (c : Children) (x : Node)
      → g (data_at (l ∷ p) (node d (put_or_erase m x c)))
        ≡ (if str_eq m l then g (data_at p x) else g (data_at (l ∷ p) (node d c)))
  data_at-put_or_erase m l p d c x = elim (Bool-cases (removable x)) [
    | inl r ↦
        rw r (ground (arith, data_at-erase_child m l p d d c, removable-data_at g p x survives r))
    | inr r ↦ rw r (ground (arith, data_at-put_child m l p x d d c))
  ]

  -- Removing nodes on the way up shows in no surviving field.
  pub data_at-update_and_remove :
      (f : NodeData → NodeData) (q p : List Str) (t n : Node)
      → find_topic q t ≡ some n
      → g (data_at p (update_and_remove f q t))
        ≡ (if path_eq q p then g (f (data_at p t)) else g (data_at p t))
  unfolding path_eq
  data_at-update_and_remove f [] [] (node d c) n e = unfold data_at update_and_remove in refl
  data_at-update_and_remove f [] (l ∷ p) (node d c) n e = unfold data_at update_and_remove in refl
  data_at-update_and_remove f (m ∷ q) [] (node d c) n e =
      let (next, at, e') = find_topic-step m q d c n e in
      rw (update_and_remove-step f m q d c next at) (unfold data_at in refl)
  data_at-update_and_remove f (m ∷ q) (l ∷ p) (node d c) n e =
      let (next, at, e') = find_topic-step m q d c n e in
      rw (update_and_remove-step f m q d c next at) (
        ground (
          arith,
          data_at-put_or_erase m l p d c (update_and_remove f q next),
          data_at-update_and_remove f q p next n e',
          data_at-child m p d c next at,
          str_eq_iff m l,
        ))

pub remove-found :
    (filter client_id : Str) (root : Node) (d : NodeData) (c : Children) (s : SubscribeMap)
    → find_topic (tmq_topic_split filter) root ≡ some (node d c)
    → d.subscribers ≡ some s
    → tmq_topics_remove_subscription filter client_id root
      ≡ some (update_and_remove (remove_subscriber client_id) (tmq_topic_split filter) root)
unfolding tmq_topics_remove_subscription
remove-found filter client_id root d c s e h = rw e (rw h)

pub find_topic-data_at :
    (p : List Str) (t : Node) (s : SubscribeMap)
    → (data_at p t).subscribers ≡ some s
    → (d : NodeData) × (c : Children) × (find_topic p t ≡ some (node d c))
      × (d.subscribers ≡ some s)
unfolding find_topic
find_topic-data_at [] (node d c) s h = (d, c, refl, unfold data_at in h)
find_topic-data_at (k ∷ p) (node d c) s h = elim (Option-cases (child k c)) [
  | inl at ↦ absurd (cc (h, data_at-no_child k p d c at))
  | inr (n, at) ↦
      let (d', c', e, h') = find_topic-data_at p n s (rw (← data_at-child k p d c n at) h) in
      (d', c', rw (at, find_topic) e, h')
]

pub get-drop_if_empty :
    (k : Str) (m : SubscribeMap) → get k (subscriber_map (drop_if_empty m)) ≡ get k m
get-drop_if_empty k [] = refl
get-drop_if_empty k (s ∷ m) = refl

-- Unsubscribing a client from a filter that has subscribers succeeds. That subscription is gone,
-- every other subscription is as before, and so is every retained message, although nodes are
-- removed on the way.
pub tmq_topics_remove_subscription-subscription :
    (filter client_id : Str) (root : Node) (s : SubscribeMap)
    → (data_at (tmq_topic_split filter) root).subscribers ≡ some s
    → (root' : Node) × (tmq_topics_remove_subscription filter client_id root ≡ some root')
      × ((p : List Str) (other : Str)
          → subscription p other root' ≡ (
              if path_eq (tmq_topic_split filter) p
              then (if str_eq client_id other then none else subscription p other root)
              else subscription p other root))
      × ((p : List Str) → (data_at p root').retain_message ≡ (data_at p root).retain_message)
tmq_topics_remove_subscription-subscription filter client_id root s h =
    let levels = tmq_topic_split filter in
    let f = remove_subscriber client_id in
    let (d, c, e, hs) = find_topic-data_at levels root s h in
    (
      update_and_remove f levels root,
      remove-found filter client_id root d c s e hs,
      λ p other. ground (
        arith,
        data_at-update_and_remove (λ x. x.subscribers) (λ x e₁ e₂. e₁) f levels p root (node d c) e,
        get-drop_if_empty other (erase client_id (subscriber_map (data_at p root).subscribers)),
        get-erase client_id other (subscriber_map (data_at p root).subscribers),
      ),
      λ p. ground (
        arith,
        data_at-update_and_remove (λ x. x.retain_message) (λ x e₁ e₂. e₂) f levels p root (node d c)
            e,
      ),
    )

-- A removal that does not fault leaves the tree alone, or takes one subscriber out at the end of
-- the path.
pub remove-cases :
    (filter client_id : Str) (t u : Node)
    → tmq_topics_remove_subscription filter client_id t ≡ some u
    → (t ≡ u)
      ⊎ ((n : Node) × (find_topic (tmq_topic_split filter) t ≡ some n)
          × (update_and_remove (remove_subscriber client_id) (tmq_topic_split filter) t ≡ u))
unfolding tmq_topics_remove_subscription
remove-cases filter client_id t u e = elim (Option-cases (find_topic (tmq_topic_split filter) t)) [
  | inl at ↦ let e' : some t ≡ some u = rw at at e in inl cc
  | inr (node d c, at) ↦ elim (Option-cases d.subscribers) [
    | inl no_map ↦ let e' : none ≡ some u = rw (at, no_map) at e in cc
    | inr (s, map) ↦
        let e' : some (update_and_remove (remove_subscriber client_id) (tmq_topic_split filter) t)
            ≡ some u =
          rw (at, map) at e in
        inr (node d c, at, cc)
  ]
]

pub subscribers-tmq_topics_remove_subscription :
    (filter client_id : Str) (t u : Node) (p : List Str)
    → tmq_topics_remove_subscription filter client_id t ≡ some u
    → (data_at p t).subscribers ≡ none
    → (data_at p u).subscribers ≡ none
subscribers-tmq_topics_remove_subscription filter client_id t u p e h =
    elim (remove-cases filter client_id t u e) [
      | inl same ↦ rw (← same) h
      | inr (n, at, done) ↦ rw (← done) (
          ground (
            arith,
            h,
            data_at-update_and_remove (λ x. x.subscribers) (λ x e₁ e₂. e₁)
                (remove_subscriber client_id) (tmq_topic_split filter) p t n at,
            none_left (data_at p t).subscribers h,
          ))
    ]
  where
    none_left :
        (o : Option SubscribeMap)
        → o ≡ none
        → drop_if_empty (erase client_id (subscriber_map o)) ≡ none
    none_left o q = rw q (unfold erase in refl)
