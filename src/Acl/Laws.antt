-- ===== src/Acl/Laws.antt =====
-- mqtt/mqtt_acl.c: which node `match` finds.
use tiny_mqtt.Prelude.{
  Str, bytes, ◌≡◌, refl, ◌⊎◌, inl, inr, Option, none, some, List, [], ◌∷◌, Option-cases, arith,
}
use tiny_mqtt.Acl.Tree.{
  Rules, AclNode, AclChildren, acl_node, acl_child, or_else, match_acl_child, acl_match,
}

-- The node at the end of a path of keys.
unfoldable pub node_at : List Str → AclNode → Option AclNode
unfolding acl_child
node_at [] n = some n
node_at (f ∷ fs) (acl_node r c) = elim (acl_child f c) [ some next ↦ node_at fs next | none ↦ none ]

-- A filter matches the levels of a topic: "+" stands for one level, and a "#" at the end for one
-- level or more.
abbrev pub Matches : List Str → List Str → Type 0
Matches [] [] = Unit
Matches [] (l ∷ ls) = ⊥
Matches (f ∷ fs) [] = ⊥
Matches (f ∷ fs) (l ∷ ls) =
    (((f ≡ l) ⊎ (f ≡ bytes "+")) × Matches fs ls) ⊎ ((f ≡ bytes "#") × (fs ≡ []))

-- A node that stands under a filter that matches.
abbrev pub FoundAt : List Str → AclNode → AclNode → Type 0
FoundAt levels n m = (path : List Str) × (node_at path n ≡ some m) × Matches path levels

match_acl_child-cases :
    (go : AclNode → Option AclNode) (f : Str) (c : AclChildren) (m : AclNode)
    → match_acl_child go f c ≡ some m
    → (next : AclNode) × (acl_child f c ≡ some next) × (go next ≡ some m)
unfolding match_acl_child
match_acl_child-cases go f c m h = elim (Option-cases (acl_child f c)) [
  | inl e ↦ absurd (ground (arith, h, e))
  | inr (next, e) ↦ (next, e, rw (e, match_acl_child) at h)
]

or_else-cases :
    (a b : Option AclNode) (m : AclNode) → or_else a b ≡ some m → (a ≡ some m) ⊎ (b ≡ some m)
or_else-cases (some n) b m h = inl h
or_else-cases none b m h = inr h

node_at-child :
    (f : Str) (fs : List Str) (n m : AclNode) (r : Rules) (c : AclChildren)
    → acl_child f c ≡ some n
    → node_at fs n ≡ some m
    → node_at (f ∷ fs) (acl_node r c) ≡ some m
unfolding node_at
node_at-child f fs n m r c e h = rw (e, node_at) h

-- The node that `match` finds stands under a filter that matches.
pub acl_match-FoundAt :
    (levels : List Str) (n m : AclNode) → acl_match levels n ≡ some m → FoundAt levels n m
unfolding acl_match node_at
acl_match-FoundAt [] n m h = ([], h, tt)
acl_match-FoundAt (l ∷ ls) (acl_node r c) m h =
    elim (or_else-cases (match_acl_child (acl_match ls) l c) _ m h) [
      | inl a ↦
          let (next, e, g) = match_acl_child-cases (acl_match ls) l c m a in
          let (path, stands, ok) = acl_match-FoundAt ls next m g in
          (l ∷ path, node_at-child l path next m r c e stands, inl (inl refl, ok))
      | inr b ↦ elim (or_else-cases (match_acl_child (acl_match ls) (bytes "+") c) _ m b) [
        | inl a ↦
            let (next, e, g) = match_acl_child-cases (acl_match ls) (bytes "+") c m a in
            let (path, stands, ok) = acl_match-FoundAt ls next m g in
            (
              bytes "+" ∷ path,
              node_at-child (bytes "+") path next m r c e stands,
              inl (inr refl, ok),
            )
        | inr a ↦
            let (next, e, g) = match_acl_child-cases (λ x. some x) (bytes "#") c m a in
            (bytes "#" ∷ [], node_at-child (bytes "#") [] next m r c e g, inr (refl, refl))
      ]
    ]

match_acl_child-some :
    (go : AclNode → Option AclNode) (f : Str) (c : AclChildren) (next m : AclNode)
    → acl_child f c ≡ some next
    → go next ≡ some m
    → match_acl_child go f c ≡ some m
unfolding match_acl_child
match_acl_child-some go f c next m e g = rw (e, match_acl_child) g

or_else-first :
    (a b : Option AclNode) (m : AclNode) → a ≡ some m → (x : AclNode) × (or_else a b ≡ some x)
or_else-first a b m e = (m, rw e)

or_else-second :
    (a b : Option AclNode) (m : AclNode) → b ≡ some m → (x : AclNode) × (or_else a b ≡ some x)
or_else-second none b m e = (m, e)
or_else-second (some n) b m e = (n, refl)

node_at-cases :
    (f : Str) (fs : List Str) (r : Rules) (c : AclChildren) (m : AclNode)
    → node_at (f ∷ fs) (acl_node r c) ≡ some m
    → (next : AclNode) × (acl_child f c ≡ some next) × (node_at fs next ≡ some m)
unfolding node_at
node_at-cases f fs r c m h = elim (Option-cases (acl_child f c)) [
  | inl e ↦ absurd (ground (arith, h, e))
  | inr (next, e) ↦ (next, e, rw (e, node_at) at h)
]

-- If a node stands under a filter that matches, `match` finds one.
pub FoundAt-acl_match :
    (path levels : List Str) (n m : AclNode)
    → node_at path n ≡ some m
    → Matches path levels
    → (found : AclNode) × (acl_match levels n ≡ some found)
unfolding acl_match node_at
FoundAt-acl_match [] [] n m h ok = (n, refl)
FoundAt-acl_match [] (l ∷ ls) n m h ok = absurd ok
FoundAt-acl_match (f ∷ fs) [] n m h ok = absurd ok
FoundAt-acl_match (f ∷ fs) (l ∷ ls) (acl_node r c) m h (inl (inl e, ok)) =
    let (next, child, below) = node_at-cases f fs r c m h in
    let (x, go) = FoundAt-acl_match fs ls next m below ok in
    or_else-first _ _ x (match_acl_child-some (acl_match ls) l c next x (rw e at child) go)
FoundAt-acl_match (f ∷ fs) (l ∷ ls) (acl_node r c) m h (inl (inr e, ok)) =
    let (next, child, below) = node_at-cases f fs r c m h in
    let (x, go) = FoundAt-acl_match fs ls next m below ok in
    let (y, plus) =
      or_else-first _ (match_acl_child (λ z. some z) (bytes "#") c) x
        (match_acl_child-some (acl_match ls) (bytes "+") c next x (rw e at child) go) in
    or_else-second _ _ y plus
FoundAt-acl_match (f ∷ fs) (l ∷ ls) (acl_node r c) m h (inr (e, last)) =
    let (next, child, below) = node_at-cases f fs r c m h in
    let (y, hash) =
      or_else-second (match_acl_child (acl_match ls) (bytes "+") c) _ next
        (match_acl_child-some (λ z. some z) (bytes "#") c next next (rw e at child) refl) in
    or_else-second _ _ y hash
