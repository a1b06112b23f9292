-- ===== src/Topic/Match/Delivery.antt =====
-- Which subscriptions a publication reaches, against the matching rules of the MQTT standard.
use tiny_mqtt.Prelude.{
  Str, ◌≡◌, refl, sym, ap, Bool, true, false, Option, none, some, List, [], ◌∷◌, ◌++◌, All, In,
  In-append, In-append_left, In-append_right, Option-cases, inl, inr, ◌⊎◌, ◌↔◌,
}
use mathlib.Core.Path.{subst}
use tiny_mqtt.Topic.Split.{tmq_topic_split}
use tiny_mqtt.Topic.Tree.{
  IsPlain, SubscribeMap, NodeData, Node, Children, node, plus, hash, child, data_at,
}
use tiny_mqtt.Topic.Tree.Laws.{data_at-child, data_at-no_child}
use tiny_mqtt.Topic.Match.{PublishReq, tmq_topics_publish}
use tiny_mqtt.Topic.Match.Clients.{clients, subs, at_child, node_subs, matched, clients-match}

-- The wildcards of section 4.7.1 of the standard: "+" stands for one level, "#" at the end for any
-- number of levels, none included, and any other level for itself. The code does not know the
-- exception of section 4.7.2 for topics that begin with "$", so it is not made here either.
abbrev pub Matches : List Str → List Str → Type 0
Matches [] [] = Unit
Matches [] (l ∷ ls) = ⊥
Matches (f ∷ fs) [] = (f ≡ hash) × (fs ≡ [])
Matches (f ∷ fs) (l ∷ ls) = (((f ≡ l) ⊎ (f ≡ plus)) × Matches fs ls) ⊎ ((f ≡ hash) × (fs ≡ []))

-- No subscription has a filter that ends in "#/#" (the standard forbids such filters).
abbrev pub HashIsLast : Node → Type 0
HashIsLast t = (p : List Str) → (data_at (p ++ hash ∷ hash ∷ []) t).subscribers ≡ none

abbrev pub Reached : List Str → SubscribeMap → Node → Type 0
Reached levels s t = (f : List Str) × Matches f levels × ((data_at f t).subscribers ≡ some s)

In-subs : (s : SubscribeMap) (o : Option SubscribeMap) → In s (subs o) → o ≡ some s
In-subs s (some r) (inl e) = ap some (sym e)
In-subs s (some r) (inr h) = absurd h
In-subs s none h = absurd h

subs-In : (s : SubscribeMap) (o : Option SubscribeMap) → o ≡ some s → In s (subs o)
subs-In s none e = cc
subs-In s (some r) e = inl (cc)

-- An element of what a child contributes comes from the child that is there.
In-at_child :
    (f : Node → List SubscribeMap) (s : SubscribeMap) (o : Option Node)
    → In s (at_child f o)
    → (n : Node) × (o ≡ some n) × In s (f n)
In-at_child f s none h = absurd h
In-at_child f s (some n) h = (n, refl, h)

at_child-In :
    (f : Node → List SubscribeMap) (s : SubscribeMap) (o : Option Node) (n : Node)
    → o ≡ some n
    → In s (f n)
    → In s (at_child f o)
at_child-In f s none n e h = cc
at_child-In f s (some m) n e h = let q : n ≡ m = cc in subst (λ k. In s (f k)) q h

In-node_subs :
    (s : SubscribeMap) (n : Node) → In s (node_subs n) → (data_at [] n).subscribers ≡ some s
unfolding data_at
In-node_subs s (node d c) h = In-subs s d.subscribers h

node_subs-In :
    (s : SubscribeMap) (n : Node) → (data_at [] n).subscribers ≡ some s → In s (node_subs n)
unfolding data_at
node_subs-In s (node d c) h = subs-In s d.subscribers h

HashIsLast-child :
    (k : Str) (d : NodeData) (c : Children) (n : Node)
    → child k c ≡ some n
    → HashIsLast (node d c)
    → HashIsLast n
HashIsLast-child k d c n e h p = rw (← data_at-child k (p ++ hash ∷ hash ∷ []) d c n e) (h (k ∷ p))

-- Below "#" nothing more is found.
In-multi :
    (s : SubscribeMap) (levels : List Str) (d : NodeData) (c : Children) (n : Node)
    → child hash c ≡ some n
    → HashIsLast (node d c)
    → In s (matched true levels n)
    → (data_at [] n).subscribers ≡ some s
unfolding matched
In-multi s [] d c (node e b) at wf h = elim (In-append s (subs e.subscribers) _ h) [
  | inl here ↦ In-node_subs s (node e b) here
  | inr below ↦
      let (m, at', h') = In-at_child node_subs s (child hash b) below in
      absurd (
        cc (
          wf [],
          data_at-child hash (hash ∷ []) d c (node e b) at,
          data_at-child hash [] e b m at',
          In-node_subs s m h',
        ))
]
In-multi s (l ∷ levels) d c (node e b) at wf h = In-node_subs s (node e b) h

-- One step up: what is reached in a child is reached through it.
Reached-child :
    (f l : Str) (ls : List Str) (s : SubscribeMap) (d : NodeData) (c : Children) (n : Node)
    → ((f ≡ l) ⊎ (f ≡ plus))
    → child f c ≡ some n
    → Reached ls s n
    → Reached (l ∷ ls) s (node d c)
Reached-child f l ls s d c n w e (p, m, h) = (f ∷ p, inl (w, m), rw (data_at-child f p d c n e) h)

matched-Reached :
    (s : SubscribeMap) (levels : List Str) (t : Node)
    → HashIsLast t
    → In s (matched false levels t)
    → Reached levels s t
unfolding matched
matched-Reached s [] (node d c) wf h = elim (In-append s (subs d.subscribers) _ h) [
  | inl here ↦ ([], tt, In-node_subs s (node d c) here)
  | inr below ↦
      let (n, e, h') = In-at_child node_subs s (child hash c) below in
      (hash ∷ [], (refl, refl), rw (data_at-child hash [] d c n e) (In-node_subs s n h'))
]
matched-Reached s (l ∷ ls) (node d c) wf h =
    elim (In-append s (at_child (matched false ls) (child l c)) _ h) [
      | inl own ↦
          let (n, e, h') = In-at_child (matched false ls) s (child l c) own in
          Reached-child l l ls s d c n (inl refl) e
            (matched-Reached s ls n (HashIsLast-child l d c n e wf) h')
      | inr others ↦ elim (In-append s (at_child (matched false ls) (child plus c)) _ others) [
        | inl single ↦
            let (n, e, h') = In-at_child (matched false ls) s (child plus c) single in
            Reached-child plus l ls s d c n (inr refl) e
              (matched-Reached s ls n (HashIsLast-child plus d c n e wf) h')
        | inr multi ↦
            let (n, e, h') = In-at_child (matched true ls) s (child hash c) multi in
            (
              hash ∷ [],
              inr (refl, refl),
              rw (data_at-child hash [] d c n e) (In-multi s ls d c n e wf h'),
            )
      ]
    ]

-- A path with subscribers leads through a child that is there.
child-of-data :
    (k : Str) (p : List Str) (d : NodeData) (c : Children) (s : SubscribeMap)
    → (data_at (k ∷ p) (node d c)).subscribers ≡ some s
    → (n : Node) × (child k c ≡ some n) × ((data_at p n).subscribers ≡ some s)
child-of-data k p d c s h = elim (Option-cases (child k c)) [
  | inl e ↦ absurd (cc (h, data_at-no_child k p d c e))
  | inr (n, e) ↦ (n, e, rw (← data_at-child k p d c n e) h)
]

multi-In :
    (s : SubscribeMap) (levels : List Str) (n : Node)
    → (data_at [] n).subscribers ≡ some s
    → In s (matched true levels n)
unfolding matched
multi-In s [] (node d c) h = In-append_left s _ _ (node_subs-In s (node d c) h)
multi-In s (l ∷ levels) (node d c) h = node_subs-In s (node d c) h

Reached-matched :
    (s : SubscribeMap) (levels f : List Str) (t : Node)
    → Matches f levels
    → (data_at f t).subscribers ≡ some s
    → In s (matched false levels t)
unfolding matched
Reached-matched s [] [] (node d c) m h = In-append_left s _ _ (node_subs-In s (node d c) h)
Reached-matched s [] (k ∷ p) (node d c) m h =
    let (n, e, h') = child-of-data k p d c s h in
    In-append_right s (subs d.subscribers) _
      (at_child-In node_subs s (child hash c) n (rw (← m.0) e) (node_subs-In s n (rw (← m.1) h')))
Reached-matched s (l ∷ ls) [] (node d c) m h = absurd m
Reached-matched s (l ∷ ls) (k ∷ p) (node d c) (inl (inl w, m)) h =
    let (n, e, h') = child-of-data k p d c s h in
    In-append_left s _ _
      (at_child-In (matched false ls) s (child l c) n (rw (← w) e) (Reached-matched s ls p n m h'))
Reached-matched s (l ∷ ls) (k ∷ p) (node d c) (inl (inr w, m)) h =
    let (n, e, h') = child-of-data k p d c s h in
    In-append_right s (at_child (matched false ls) (child l c)) _ (
      In-append_left s _ _ (
        at_child-In (matched false ls) s (child plus c) n (rw (← w) e)
          (Reached-matched s ls p n m h')))
Reached-matched s (l ∷ ls) (k ∷ p) (node d c) (inr w) h =
    let (n, e, h') = child-of-data k p d c s h in
    In-append_right s (at_child (matched false ls) (child l c)) _ (
      In-append_right s (at_child (matched false ls) (child plus c)) _ (
        at_child-In (matched true ls) s (child hash c) n (rw (← w.0) e)
          (multi-In s ls n (rw (← w.1) h'))))

pub Reached-clients :
    (json_valid : Str → Bool) (req : PublishReq) (root : Node) (s : SubscribeMap)
    → All IsPlain (tmq_topic_split req.topic)
    → Reached (tmq_topic_split req.topic) s root
    → In s (clients (tmq_topics_publish json_valid req root).effects)
unfolding tmq_topics_publish
Reached-clients json_valid req root s plain (f, m, h) =
    rw (clients-match json_valid req false (tmq_topic_split req.topic) req.retain root plain)
      (Reached-matched s _ f root m h)

-- A publication to a topic without wildcards hands `client_on_match` exactly the subscriber maps
-- that stand in the tree under a filter that matches the topic, level by level, with "+" for one
-- level and "#" at the end for any number of levels. A first level that begins with "$" is matched
-- by a wildcard like any other. No subscription has a filter that ends in "#/#".
pub tmq_topics_publish-clients :
    (json_valid : Str → Bool) (req : PublishReq) (root : Node) (s : SubscribeMap)
    → All IsPlain (tmq_topic_split req.topic)
    → HashIsLast root
    → In s (clients (tmq_topics_publish json_valid req root).effects)
      ↔ Reached (tmq_topic_split req.topic) s root
unfolding tmq_topics_publish
tmq_topics_publish-clients json_valid req root s plain wf =
    let e = clients-match json_valid req false (tmq_topic_split req.topic) req.retain root plain in
    (
      λ h. matched-Reached s _ root wf (rw e at h),
      λ r. unfold tmq_topics_publish in Reached-clients json_valid req root s plain r,
    )
