-- ===== src/Topic/Retain/Matching.antt =====
-- A subscription gets the retained messages of the topics that its filter matches.
use tiny_mqtt.Prelude.{
  Str, ◌≡◌, refl, sym, ◌∙◌, none, some, List, [], ◌∷◌, All, In, Bool-cases, Option-cases, inl, inr,
  ◌↔◌, arith,
}
use mathlib.Core.Path.{subst}
use tiny_mqtt.Topic.Tree.{IsPlain, RetainMessage, Node, node, hash, child, data_at}
use tiny_mqtt.Topic.Tree.WellFormed.{DistinctNode, distinct_node, child-DistinctNode}
use tiny_mqtt.Topic.Match.Delivery.{Matches}
use tiny_mqtt.Topic.Retain.{
  is_wildcard, over_children, get_all_retain, find_retain_messages, skip_literals, retained_from,
  matching_retained,
}
use tiny_mqtt.Topic.Retain.Loops.{
  is_wildcard→IsPlain, In-retained, retained-In, In-over_children, over_children-In,
}
use tiny_mqtt.Topic.Retain.Found.{
  IsFilter, RetainedIn, RetainedIn-child, In-get_all, child-of-retained, collected_of_retained,
  find-plain, find-plus, find-hash, level-cases,
}

hash-Matches : (l : Str) (ls p : List Str) → l ≡ hash → ls ≡ [] → Matches (l ∷ ls) p
hash-Matches l ls [] e n = (e, n)
hash-Matches l ls (k ∷ p) e n = inr (e, n)

In-find :
    (m : RetainMessage) (levels : List Str) (t : Node)
    → IsFilter levels
    → DistinctNode t
    → In m (find_retain_messages levels t)
    → RetainedIn (Matches levels) m t
In-find m [] (node d c) v w h = (
  [],
  tt,
  tt,
  unfold data_at in In-retained m d.retain_message (unfold find_retain_messages in h),
)
In-find m (l ∷ ls) (node d c) v (distinct_node w) h = elim (level-cases l) [
  | inl e ↦
      let h' : In m (over_children (find_retain_messages ls) c) =
        subst (λ r. In m r) (find-plus ls d c)
          (subst (λ x. In m (find_retain_messages (x ∷ ls) (node d c))) e h) in
      let (k, n, plain, at, i) = In-over_children (find_retain_messages ls) m c w h' in
      RetainedIn-child (Matches ls) (Matches (l ∷ ls)) m k d c n plain at (λ p q. inl (inr e, q))
        (In-find m ls n v.1 (child-DistinctNode k c n w at) i)
  | inr (inl e) ↦
      let h' : In m (get_all_retain (node d c)) =
        subst (λ r. In m r) (find-hash ls d c)
          (subst (λ x. In m (find_retain_messages (x ∷ ls) (node d c))) e h) in
      let (p, all, u, r) = In-get_all m (node d c) (distinct_node w) h' in
      (p, all, hash-Matches l ls p e (v.0 e), r)
  | inr (inr plain) ↦ elim (Option-cases (child l c)) [
    | inl at ↦ absurd (subst (λ r. In m r) (find-plain l ls d c none plain at) h)
    | inr (n, at) ↦
        RetainedIn-child (Matches ls) (Matches (l ∷ ls)) m l d c n plain at
          (λ p q. inl (inl refl, q))
          (In-find m ls n v.1 (child-DistinctNode l c n w at)
            (subst (λ r. In m r) (find-plain l ls d c (some n) plain at) h))
  ]
]

find-In :
    (m : RetainMessage) (levels p : List Str) (t : Node)
    → All IsPlain p
    → Matches levels p
    → (data_at p t).retain_message ≡ some m
    → In m (find_retain_messages levels t)
find-In m [] [] (node d c) all q h =
    unfold find_retain_messages in retained-In m d.retain_message (unfold data_at in h)
find-In m [] (k ∷ p) (node d c) all q h = absurd q
find-In m (l ∷ ls) [] (node d c) all q h =
    subst (λ x. In m (find_retain_messages (x ∷ ls) (node d c))) (sym q.0)
      (subst (λ r. In m r) (sym (find-hash ls d c)) (collected_of_retained m [] (node d c) tt h))
find-In m (l ∷ ls) (k ∷ p) (node d c) all (inr q) h =
    subst (λ x. In m (find_retain_messages (x ∷ ls) (node d c))) (sym q.0)
      (subst (λ r. In m r) (sym (find-hash ls d c))
        (collected_of_retained m (k ∷ p) (node d c) all h))
find-In m (l ∷ ls) (k ∷ p) (node d c) all (inl (inr e, q)) h =
    let (n, at, h') = child-of-retained k p d c m h in
    subst (λ x. In m (find_retain_messages (x ∷ ls) (node d c))) (sym e)
      (subst (λ r. In m r) (sym (find-plus ls d c))
        (over_children-In (find_retain_messages ls) m k n c all.0 at (find-In m ls p n all.1 q h')))
find-In m (l ∷ ls) (k ∷ p) (node d c) all (inl (inl e, q)) h =
    let (n, at, h') = child-of-retained k p d c m h in
    subst (λ x. In m (find_retain_messages (x ∷ ls) (node d c))) (sym e)
      (subst (λ r. In m r) (sym (find-plain k ls d c (some n) all.0 at))
        (find-In m ls p n all.1 q h'))

retained_from-nil : (t : Node) → retained_from t [] ≡ find_retain_messages [] t
unfolding retained_from find_retain_messages
retained_from-nil (node d c) = ground arith

-- The shortcut over the literal levels gives what the full search gives.
pub matching_retained-find :
    (levels : List Str) (t : Node) → matching_retained levels t ≡ find_retain_messages levels t
unfolding matching_retained
matching_retained-find [] t = unfold skip_literals in retained_from-nil t
matching_retained-find (l ∷ ls) (node d c) = elim (Bool-cases (is_wildcard l)) [
  | inl e ↦ rw (e, skip_literals) (unfold retained_from in refl)
  | inr e ↦ elim (Option-cases (child l c)) [
    | inl at ↦ rw (e, at, skip_literals) (unfold retained_from in refl)
    | inr (n, at) ↦
        rw (e, at, skip_literals)
          (matching_retained-find ls n
            ∙ sym (find-plain l ls d c (some n) (is_wildcard→IsPlain l e) at))
  ]
]

pub matching_retained-In :
    (m : RetainMessage) (levels p : List Str) (t : Node)
    → All IsPlain p
    → Matches levels p
    → (data_at p t).retain_message ≡ some m
    → In m (matching_retained levels t)
matching_retained-In m levels p t all q h =
    subst (λ r. In m r) (sym (matching_retained-find levels t)) (find-In m levels p t all q h)

-- The retained messages that a subscription gets are exactly those stored for a topic without
-- wildcards that the filter matches, level by level, with "+" for one level and "#" at the end for
-- any number of levels; a first level that begins with "$" is matched by a wildcard like any other.
-- The filter has "#" at its end only, and the tree's children have distinct names.
pub In-matching_retained :
    (m : RetainMessage) (levels : List Str) (t : Node)
    → IsFilter levels
    → DistinctNode t
    → In m (matching_retained levels t) ↔ RetainedIn (Matches levels) m t
In-matching_retained m levels t v w = (
  λ h. In-find m levels t v w (subst (λ r. In m r) (matching_retained-find levels t) h),
  λ (p, all, q, h). matching_retained-In m levels p t all q h,
)
