-- ===== src/Topic/Tree/WellFormed.antt =====
-- The children of a node have distinct names, as the keys of a map do.
use tiny_mqtt.Prelude.{
  Str, str_eq, str_eq_iff, ◌≡◌, refl, none, some, List, [], ◌∷◌, arith, Bool-cases, Option-cases,
  inl, inr,
}
use tiny_mqtt.Topic.Tree.{
  NodeData, Node, Children, node, nil, cons, child, put_child, erase_child, topic_tree_node_new,
  find_or_create, update_topic,
}
use tiny_mqtt.Topic.Tree.Laws.{child-put_child, child-erase_child}

mutual
  pub data DistinctNode : Node → Type 0 where
    distinct_node : {d : NodeData} {c : Children} → Distinct c → DistinctNode (node d c)

  pub data Distinct : Children → Type 0 where
    distinct_nil : Distinct nil
    distinct_cons :
        {k : Str} {n : Node} {c : Children}
        → child k c ≡ none
        → DistinctNode n
        → Distinct c
        → Distinct (cons k n c)

pub new-DistinctNode : DistinctNode topic_tree_node_new
new-DistinctNode = distinct_node distinct_nil

pub child-DistinctNode :
    (k : Str) (c : Children) (n : Node) → Distinct c → child k c ≡ some n → DistinctNode n
unfolding child
child-DistinctNode k nil n w e = cc
child-DistinctNode k (cons j m c) n (distinct_cons fresh wm wc) e = elim (Bool-cases (str_eq j k)) [
  | inl t ↦ let q : m ≡ n = ground arith in rw (← q) wm
  | inr f ↦ child-DistinctNode k c n wc (ground arith)
]

pub put_child-Distinct :
    (k : Str) (n : Node) (c : Children) → Distinct c → DistinctNode n → Distinct (put_child k n c)
unfolding put_child child
put_child-Distinct k n nil w wn = distinct_cons refl wn distinct_nil
put_child-Distinct k n (cons j m c) (distinct_cons fresh wm wc) wn =
    elim (Bool-cases (str_eq j k)) [
      | inl t ↦ rw (t, put_child) (distinct_cons fresh wn wc)
      | inr f ↦
          rw (f, put_child)
            (distinct_cons (ground (arith, child-put_child k j n c, str_eq_iff k j, str_eq_iff j k))
              wm (put_child-Distinct k n c wc wn))
    ]

pub erase_child-Distinct : (k : Str) (c : Children) → Distinct c → Distinct (erase_child k c)
unfolding erase_child
erase_child-Distinct k nil w = distinct_nil
erase_child-Distinct k (cons j m c) (distinct_cons fresh wm wc) = elim (Bool-cases (str_eq j k)) [
  | inl t ↦ rw (t, erase_child) (erase_child-Distinct k c wc)
  | inr f ↦
      rw (f, erase_child)
        (distinct_cons (ground (arith, child-erase_child k j c)) wm (erase_child-Distinct k c wc))
]

find_or_create-Distinct : (c : Children) (l : Str) → Distinct c → DistinctNode (find_or_create c l)
unfolding find_or_create
find_or_create-Distinct c l w = elim (Option-cases (child l c)) [
  | inl e ↦ rw (e, find_or_create) new-DistinctNode
  | inr (n, e) ↦ rw (e, find_or_create) (child-DistinctNode l c n w e)
]

-- A walk that creates what is missing keeps the names distinct.
pub update_topic-DistinctNode :
    (f : NodeData → NodeData) (levels : List Str) (t : Node)
    → DistinctNode t
    → DistinctNode (update_topic f levels t)
unfolding update_topic
update_topic-DistinctNode f [] (node d c) (distinct_node w) = distinct_node w
update_topic-DistinctNode f (l ∷ ls) (node d c) (distinct_node w) = distinct_node (
    put_child-Distinct l (update_topic f ls (find_or_create c l)) c w
      (update_topic-DistinctNode f ls (find_or_create c l) (find_or_create-Distinct c l w)))
