-- ===== src/Topic/Match/Clients.antt =====
-- The subscriber maps that `match` hands to `client_on_match`, without the tree that it returns.
use tiny_mqtt.Prelude.{
  Str, str_eq, str_eq_ne, str_eq_refl, ◌≡◌, ◌≢◌, refl, ap, ◌∙◌, Bool, true, false, not, Option,
  none, some, List, [], ◌∷◌, ◌++◌, All, if◌then◌else◌, map, arith, Bool-cases, Option-cases, inl,
  inr,
}
use mathlib.Core.Path.{ap₂}
use tiny_mqtt.Topic.Tree.{
  IsPlain, SubscribeMap, EventListener, NodeData, Node, Children, node, plus, hash, child,
  topic_tree_node_new,
}
use tiny_mqtt.Topic.Tree.Laws.{child-put_child}
use tiny_mqtt.Topic.Match.{
  PublishReq, Effect, listener_publish, client_on_match, member_match, trigger_event, notify_node,
  subscriber_effects, notify_child, match_child, match_level, match,
}

unfoldable pub clients : List Effect → List SubscribeMap
clients [] = []
clients (client_on_match t m s ∷ es) = s ∷ clients es
clients (listener_publish l e ∷ es) = clients es
clients (member_match a ∷ es) = clients es

abbrev pub subs : Option SubscribeMap → List SubscribeMap
subs none = []
subs (some s) = s ∷ []

abbrev pub at_child : (Node → List SubscribeMap) → Option Node → List SubscribeMap
at_child f none = []
at_child f (some n) = f n

abbrev pub node_subs : Node → List SubscribeMap
node_subs (node d c) = subs d.subscribers

-- The subscribers along the paths of the tree that fit the levels.
unfoldable pub matched : Bool → List Str → Node → List SubscribeMap
matched multi [] (node d c) = subs d.subscribers ++ at_child node_subs (child hash c)
matched true (level ∷ levels) (node d c) = subs d.subscribers
matched false (level ∷ levels) (node d c) =
    at_child (matched false levels) (child level c)
    ++ (at_child (matched false levels) (child plus c)
        ++ at_child (matched true levels) (child hash c))

clients-append : (xs ys : List Effect) → clients (xs ++ ys) ≡ clients xs ++ clients ys
unfolding clients
clients-append [] ys = refl
clients-append (client_on_match t m s ∷ xs) ys = ap (λ r. s ∷ r) (clients-append xs ys)
clients-append (listener_publish l e ∷ xs) ys = clients-append xs ys
clients-append (member_match a ∷ xs) ys = clients-append xs ys

clients-members : (ms : List Str) → clients (map member_match ms) ≡ []
unfolding clients
clients-members [] = refl
clients-members (m ∷ ms) = clients-members ms

matched-new : (multi : Bool) (levels : List Str) → matched multi levels topic_tree_node_new ≡ []
unfolding matched child
matched-new multi [] = refl
matched-new true (l ∷ levels) = refl
matched-new false (l ∷ levels) = refl

child-match_child :
    (go : Node → Node × List Effect) (level j : Str) (c : Children)
    → level ≢ j
    → child j (match_child go level c).0 ≡ child j c
unfolding match_child
child-match_child go level j c h = elim (Option-cases (child level c)) [
  | inl e ↦ rw (e, match_child)
  | inr (n, e) ↦ rw (e, match_child) (rw (child-put_child level j (go n).0 c, str_eq_ne level j h))
]

clients-match_child :
    (go : Node → Node × List Effect) (f : Node → List SubscribeMap) (level : Str) (c : Children)
    → ((n : Node) → clients (go n).1 ≡ f n)
    → clients (match_child go level c).1 ≡ at_child f (child level c)
unfolding match_child clients
clients-match_child go f level c h = elim (Option-cases (child level c)) [
  | inl e ↦ rw (e, match_child) refl
  | inr (n, e) ↦ rw (e, match_child) (h n)
]

child-match_level :
    (go : Node → Node × List Effect) (retain : Bool) (level j : Str) (c : Children)
    → level ≢ j
    → child j (match_level go retain level c).0 ≡ child j c
unfolding match_level
child-match_level go retain level j c h = elim (Option-cases (child level c)) [
  | inl e ↦ elim (Bool-cases retain) [
    | inl r ↦
        rw (e, r, match_level)
          (rw (child-put_child level j (go topic_tree_node_new).0 c, str_eq_ne level j h))
    | inr r ↦ rw (e, r, match_level)
  ]
  | inr (n, e) ↦ rw (e, match_level) (rw (child-put_child level j (go n).0 c, str_eq_ne level j h))
]

clients-match_level :
    (go : Node → Node × List Effect) (f : Node → List SubscribeMap) (retain : Bool) (level : Str)
    (c : Children)
    → ((n : Node) → clients (go n).1 ≡ f n)
    → f topic_tree_node_new ≡ []
    → clients (match_level go retain level c).1 ≡ at_child f (child level c)
unfolding match_level clients
clients-match_level go f retain level c h new = elim (Option-cases (child level c)) [
  | inl e ↦ elim (Bool-cases retain) [
    | inl r ↦ rw (e, r, match_level) (h topic_tree_node_new ∙ new)
    | inr r ↦ rw (e, r, match_level) refl
  ]
  | inr (n, e) ↦ rw (e, match_level) (h n)
]

pub plus-ne-hash : plus ≢ hash
unfolding str_eq
plus-ne-hash e = cc (e, str_eq_refl hash, str_eq_plus)
  where
    str_eq_plus : str_eq plus hash ≡ false
    str_eq_plus = refl

-- The three searches of one level: its name, "+" and "#", each in the children as the search
-- before it left them.
clients-steps :
    (go₁ go₂ go₃ : Node → Node × List Effect) (f g : Node → List SubscribeMap) (retain : Bool)
    (l : Str) (c : Children)
    → ((n : Node) → clients (go₁ n).1 ≡ f n)
    → ((n : Node) → clients (go₂ n).1 ≡ f n)
    → ((n : Node) → clients (go₃ n).1 ≡ g n)
    → f topic_tree_node_new ≡ []
    → IsPlain l
    → (let (c₁, e₁) = match_level go₁ retain l c in
        let (c₂, e₂) = match_child go₂ plus c₁ in
        let (c₃, e₃) = match_child go₃ hash c₂ in clients (e₁ ++ (e₂ ++ e₃)))
      ≡ at_child f (child l c) ++ (at_child f (child plus c) ++ at_child g (child hash c))
clients-steps go₁ go₂ go₃ f g retain l c h₁ h₂ h₃ new plain =
    let c₁ = (match_level go₁ retain l c).0 in
    let c₂ = (match_child go₂ plus c₁).0 in
    clients-append (match_level go₁ retain l c).1 _
    ∙ ap₂ ◌++◌ (clients-match_level go₁ f retain l c h₁ new) (
        clients-append (match_child go₂ plus c₁).1 _
        ∙ ap₂ ◌++◌
            (clients-match_child go₂ f plus c₁ h₂
              ∙ ap (at_child f) (child-match_level go₁ retain l plus c plain.0))
            (clients-match_child go₃ g hash c₂ h₃
              ∙ ap (at_child g) (
                  child-match_child go₂ plus hash c₁ plus-ne-hash
                  ∙ child-match_level go₁ retain l hash c plain.1)))

module _ (json_valid : Str → Bool) (req : PublishReq) where
  clients-trigger_event : (ls : List EventListener) → clients (trigger_event json_valid req ls) ≡ []
  unfolding trigger_event clients
  clients-trigger_event [] = refl
  clients-trigger_event (l ∷ ls) = ground (arith, clients-trigger_event ls)

  clients-notify_node : (d : NodeData) → clients (notify_node json_valid req d) ≡ subs d.subscribers
  unfolding notify_node clients
  clients-notify_node d = ground (
    arith,
    clients-append
        (if not req.is_tunneled_pub then trigger_event json_valid req d.listeners else [])
        (subscriber_effects req d.subscribers ++ map member_match d.subscribe_members),
    clients-trigger_event d.listeners,
    clients-append (subscriber_effects req d.subscribers) (map member_match d.subscribe_members),
    clients-members d.subscribe_members,
  )

  clients-notify_child :
      (o : Option Node) → clients (notify_child json_valid req o) ≡ at_child node_subs o
  unfolding notify_child clients
  clients-notify_child none = refl
  clients-notify_child (some (node d c)) = clients-notify_node d

  -- For a topic without wildcards, `match` calls `client_on_match` for the subscribers that
  -- `matched` lists, in that order, whatever it writes to the tree on the way.
  pub clients-match :
      (multi : Bool) (levels : List Str) (retain : Bool) (n : Node)
      → All IsPlain levels
      → clients (match json_valid req multi levels retain n).1 ≡ matched multi levels n
  unfolding match matched
  clients-match multi [] retain (node d c) h =
      clients-append (notify_node json_valid req d) _
      ∙ ap₂ ◌++◌ (clients-notify_node d) (clients-notify_child (child hash c))
  clients-match true (l ∷ levels) retain (node d c) h = clients-notify_node d
  clients-match false (l ∷ levels) retain (node d c) h =
      clients-steps (match json_valid req false levels retain)
        (match json_valid req false levels false) (match json_valid req true levels false)
        (matched false levels) (matched true levels) retain l c
        (λ n. clients-match false levels retain n h.1) (λ n. clients-match false levels false n h.1)
        (λ n. clients-match true levels false n h.1) (matched-new false levels) h.0
