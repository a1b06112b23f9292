-- ===== src/Topic/Match/Written.antt =====
-- What a publication writes to the tree: the retained message, and nothing else.
use tiny_mqtt.Prelude.{
  Str, str_eq_iff, ◌≡◌, refl, ◌∙◌, Bool, true, false, List, [], ◌∷◌, if◌then◌else◌, arith,
  Option-cases, inl, inr,
}
use tiny_mqtt.Topic.Split.{tmq_topic_split}
use tiny_mqtt.Topic.Tree.{
  NodeData, Node, Children, node, plus, hash, child, data_at, empty_data, topic_tree_node_new,
  path_eq,
}
use tiny_mqtt.Topic.Tree.Laws.{data_at-child, data_at-no_child, data_at-put_child, data_at-new}
use tiny_mqtt.Topic.Match.{
  PublishReq, Effect, store_retain, match_child, match_level, match, tmq_topics_publish,
}

-- A child that is put back with the same data leaves the tree's data as they are.
data_at-match_child :
    (go : Node → Node × List Effect) (k j : Str) (p : List Str) (d : NodeData) (c : Children)
    → ((n : Node) → data_at p (go n).0 ≡ data_at p n)
    → data_at (j ∷ p) (node d (match_child go k c).0) ≡ data_at (j ∷ p) (node d c)
unfolding match_child
data_at-match_child go k j p d c h = elim (Option-cases (child k c)) [
  | inl e ↦ rw (e, match_child)
  | inr (n, e) ↦ ground (
    arith,
    str_eq_iff k j,
    data_at-put_child k j p (go n).0 d d c,
    h n,
    data_at-child k p d c n e,
  )
]

data_at-match_level :
    (go : Node → Node × List Effect) (f : NodeData → NodeData) (retain : Bool) (l j : Str)
    (p q : List Str) (d : NodeData) (c : Children)
    → ((n : Node) → data_at p (go n).0 ≡ (if path_eq q p then f (data_at p n) else data_at p n))
    → (retain ≡ false → f empty_data ≡ empty_data)
    → data_at (j ∷ p) (node d (match_level go retain l c).0) ≡ (
        if path_eq (l ∷ q) (j ∷ p)
        then f (data_at (j ∷ p) (node d c))
        else data_at (j ∷ p) (node d c))
unfolding match_level path_eq
data_at-match_level go f retain l j p q d c h idle = elim (Option-cases (child l c)) [
  | inl e ↦ ground (
    arith,
    str_eq_iff l j,
    data_at-put_child l j p (go topic_tree_node_new).0 d d c,
    h topic_tree_node_new,
    data_at-new p,
    data_at-no_child l p d c e,
    idle,
  )
  | inr (n, e) ↦ ground (
    arith,
    str_eq_iff l j,
    data_at-put_child l j p (go n).0 d d c,
    h n,
    data_at-child l p d c n e,
  )
]

module _ (json_valid : Str → Bool) (req : PublishReq) where
  match-multi_unchanged :
      (levels p : List Str) (n : Node)
      → data_at p (match json_valid req true levels false n).0 ≡ data_at p n
  unfolding match data_at
  match-multi_unchanged [] [] (node d c) = refl
  match-multi_unchanged [] (j ∷ p) (node d c) = refl
  match-multi_unchanged (l ∷ ls) p (node d c) = refl

  data_at-match :
      (levels p : List Str) (retain : Bool) (n : Node)
      → data_at p (match json_valid req false levels retain n).0
        ≡ (if path_eq levels p then store_retain req retain (data_at p n) else data_at p n)
  unfolding match
  data_at-match [] [] retain (node d c) = unfold data_at path_eq in refl
  data_at-match [] (j ∷ p) retain (node d c) = unfold data_at path_eq in refl
  data_at-match (l ∷ ls) [] retain (node d c) = unfold data_at path_eq in refl
  data_at-match (l ∷ ls) (j ∷ p) retain (node d c) =
      let c₁ = (match_level (match json_valid req false ls retain) retain l c).0 in
      let c₂ = (match_child (match json_valid req false ls false) plus c₁).0 in
      data_at-match_child (match json_valid req true ls false) hash j p d c₂
        (match-multi_unchanged ls p)
      ∙ data_at-match_child (match json_valid req false ls false) plus j p d c₁
          (λ m. data_at-match ls p false m ∙ same (path_eq ls p) (data_at p m))
      ∙ data_at-match_level (match json_valid req false ls retain) (store_retain req retain) retain
          l j p ls d c (λ m. data_at-match ls p retain m) (λ e. rw e)
    where
      same : (b : Bool) (x : NodeData) → (if b then store_retain req false x else x) ≡ x
      same true x = refl
      same false x = refl

-- A publication with the retain flag stores its message at the node of its topic, which it creates
-- if need be; without the flag it stores nothing. At every path the subscribers, the listeners and
-- the cluster members are what they were, and so is every other retained message.
pub data_at-tmq_topics_publish :
    (json_valid : Str → Bool) (req : PublishReq) (root : Node) (p : List Str)
    → data_at p (tmq_topics_publish json_valid req root).root ≡ (
        if path_eq (tmq_topic_split req.topic) p
        then store_retain req req.retain (data_at p root)
        else data_at p root)
unfolding tmq_topics_publish
data_at-tmq_topics_publish json_valid req root p =
    data_at-match json_valid req (tmq_topic_split req.topic) p req.retain root
