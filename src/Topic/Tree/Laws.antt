-- ===== src/Topic/Tree/Laws.antt =====
-- The tree as a function from paths: what a write at one path does at every path.
use tiny_mqtt.Prelude.{
  Str, str_eq, str_eq_iff, ◌≡◌, refl, true, none, some, List, [], ◌∷◌, if◌then◌else◌, arith, ◌↔◌,
}
use tiny_mqtt.Topic.Tree.{
  NodeData, Node, Children, node, nil, cons, child, put_child, erase_child, empty_data,
  topic_tree_node_new, find_or_create, update_topic, data_at, path_eq,
}

pub child-put_child :
    (k j : Str) (n : Node) (c : Children)
    → child j (put_child k n c) ≡ (if str_eq k j then some n else child j c)
unfolding child put_child
child-put_child k j n nil = refl
child-put_child k j n (cons i m c) =
    ground (arith, str_eq_iff k j, str_eq_iff i k, str_eq_iff i j, child-put_child k j n c)

pub child-erase_child :
    (k j : Str) (c : Children)
    → child j (erase_child k c) ≡ (if str_eq k j then none else child j c)
unfolding child erase_child
child-erase_child k j nil = ground arith
child-erase_child k j (cons i m c) =
    ground (arith, str_eq_iff k j, str_eq_iff i k, str_eq_iff i j, child-erase_child k j c)

pub path_eq_iff : (p q : List Str) → (path_eq p q ≡ true) ↔ (p ≡ q)
unfolding path_eq
path_eq_iff [] [] = ground arith
path_eq_iff [] (m ∷ q) = ground arith
path_eq_iff (l ∷ p) [] = ground arith
path_eq_iff (l ∷ p) (m ∷ q) = ground (arith, str_eq_iff l m, path_eq_iff p q)

pub data_at-new : (p : List Str) → data_at p topic_tree_node_new ≡ empty_data
unfolding data_at child
data_at-new [] = refl
data_at-new (l ∷ p) = refl

-- The node that the walk goes on with has the data of the path, created or not.
pub data_at-find_or_create :
    (l : Str) (p : List Str) (d : NodeData) (c : Children)
    → data_at p (find_or_create c l) ≡ data_at (l ∷ p) (node d c)
unfolding find_or_create data_at
data_at-find_or_create l p d c = ground (arith, data_at-new p)

pub data_at-put_child :
    (k j : Str) (p : List Str) (n : Node) (d e : NodeData) (c : Children)
    → data_at (j ∷ p) (node d (put_child k n c))
      ≡ (if str_eq k j then data_at p n else data_at (j ∷ p) (node e c))
unfolding data_at
data_at-put_child k j p n d e c = ground (arith, child-put_child k j n c)

-- A write along a path changes the data at its end, and creates nothing but empty nodes.
pub data_at-update_topic :
    (f : NodeData → NodeData) (q p : List Str) (t : Node)
    → data_at p (update_topic f q t) ≡ (if path_eq q p then f (data_at p t) else data_at p t)
unfolding update_topic path_eq
data_at-update_topic f [] [] (node d c) = unfold data_at in refl
data_at-update_topic f [] (l ∷ p) (node d c) = unfold data_at in refl
data_at-update_topic f (m ∷ q) [] (node d c) = unfold data_at in refl
data_at-update_topic f (m ∷ q) (l ∷ p) (node d c) = ground (
  arith,
  data_at-put_child m l p (update_topic f q (find_or_create c m)) d d c,
  data_at-update_topic f q p (find_or_create c m),
  data_at-find_or_create l p d c,
  str_eq_iff m l,
)

pub data_at-child :
    (k : Str) (p : List Str) (d : NodeData) (c : Children) (n : Node)
    → child k c ≡ some n
    → data_at (k ∷ p) (node d c) ≡ data_at p n
unfolding data_at
data_at-child k p d c n e = rw (e, data_at)

pub data_at-no_child :
    (k : Str) (p : List Str) (d : NodeData) (c : Children)
    → child k c ≡ none
    → data_at (k ∷ p) (node d c) ≡ empty_data
unfolding data_at
data_at-no_child k p d c e = rw (e, data_at)

pub data_at-erase_child :
    (k j : Str) (p : List Str) (d e : NodeData) (c : Children)
    → data_at (j ∷ p) (node d (erase_child k c))
      ≡ (if str_eq k j then empty_data else data_at (j ∷ p) (node e c))
unfolding data_at
data_at-erase_child k j p d e c = ground (arith, child-erase_child k j c)
