-- ===== src/Topic/Retain/Found.antt =====
-- Which retained messages a new subscription gets, against the standard's matching rules.
use tiny_mqtt.Prelude.{
  Str, str_eq, str_eq_iff, str_eq_refl, str_eq_ne, ◌≡◌, refl, sym, Option, none, some, List, [],
  ◌∷◌, ◌++◌, All, In, In-append, In-append_left, In-append_right, arith, Bool-cases, Option-cases,
  inl, inr, ◌⊎◌,
}
use mathlib.Core.Path.{subst}
use tiny_mqtt.Topic.Tree.{
  IsPlain, RetainMessage, NodeData, Node, Children, node, nil, cons, plus, hash, child, data_at,
}
use tiny_mqtt.Topic.Tree.WellFormed.{DistinctNode, Distinct, distinct_node, distinct_cons}
use tiny_mqtt.Topic.Retain.Loops.{
  is_wildcard→IsPlain, In-retained, retained-In, child-head, InChild, InChild-cons,
  over_children-In, get_all_children-over,
}
use tiny_mqtt.Topic.Tree.Laws.{data_at-child, data_at-no_child}
use tiny_mqtt.Topic.Retain.{
  is_wildcard, retained, over_children, get_all_retain, get_all_children, find_retain_messages,
}

-- "#" stands at the end of a filter only.
abbrev pub IsFilter : List Str → Type 0
IsFilter [] = Unit
IsFilter (f ∷ fs) = (f ≡ hash → fs ≡ []) × IsFilter fs

-- `m` is retained for a topic without wildcards that lies in `P`.
abbrev pub RetainedIn : (List Str → Type 0) → RetainMessage → Node → Type 0
RetainedIn P m t = (p : List Str) × All IsPlain p × P p × ((data_at p t).retain_message ≡ some m)

abbrev pub Anywhere : List Str → Type 0
Anywhere p = Unit

pub RetainedIn-child :
    (P Q : List Str → Type 0) (m : RetainMessage) (k : Str) (d : NodeData) (c : Children) (n : Node)
    → IsPlain k
    → child k c ≡ some n
    → ((p : List Str) → P p → Q (k ∷ p))
    → RetainedIn P m n
    → RetainedIn Q m (node d c)
RetainedIn-child P Q m k d c n plain e up (p, all, pp, h) =
    (k ∷ p, (plain, all), up p pp, rw (data_at-child k p d c n e) h)

mutual
  unfolding get_all_retain get_all_children data_at

  pub In-get_all :
      (m : RetainMessage) (n : Node)
      → DistinctNode n
      → In m (get_all_retain n)
      → RetainedIn Anywhere m n
  In-get_all m (node d c) (distinct_node w) h =
      elim (In-append m (retained d.retain_message) (get_all_children c) h) [
        | inl here ↦ ([], tt, tt, In-retained m d.retain_message here)
        | inr below ↦
            let (k, n, plain, e, r) = In-get_all_children m c w below in
            RetainedIn-child Anywhere Anywhere m k d c n plain e (λ p u. tt) r
      ]

  In-get_all_children :
      (m : RetainMessage) (c : Children)
      → Distinct c
      → In m (get_all_children c)
      → InChild (RetainedIn Anywhere m) c
  In-get_all_children m nil w h = absurd h
  In-get_all_children m (cons j n c) (distinct_cons fresh wn wc) h =
      elim (Bool-cases (is_wildcard j)) [
        | inl t ↦
            InChild-cons (RetainedIn Anywhere m) j n c fresh
              (In-get_all_children m c wc (rw (t, get_all_children) at h))
        | inr f ↦
            let h' : In m (get_all_retain n ++ get_all_children c) =
              rw (f, get_all_children) at h in
            elim (In-append m (get_all_retain n) (get_all_children c) h') [
              | inl own ↦ (j, n, is_wildcard→IsPlain j f, child-head j n c, In-get_all m n wn own)
              | inr rest ↦
                  InChild-cons (RetainedIn Anywhere m) j n c fresh (In-get_all_children m c wc rest)
            ]
      ]

pub child-of-retained :
    (k : Str) (p : List Str) (d : NodeData) (c : Children) (m : RetainMessage)
    → (data_at (k ∷ p) (node d c)).retain_message ≡ some m
    → (n : Node) × (child k c ≡ some n) × ((data_at p n).retain_message ≡ some m)
child-of-retained k p d c m h = elim (Option-cases (child k c)) [
  | inl e ↦ absurd (cc (h, data_at-no_child k p d c e))
  | inr (n, e) ↦ (n, e, rw (← data_at-child k p d c n e) h)
]

pub collected_of_retained :
    (m : RetainMessage) (p : List Str) (n : Node)
    → All IsPlain p
    → (data_at p n).retain_message ≡ some m
    → In m (get_all_retain n)
unfolding get_all_retain
collected_of_retained m [] (node d c) all h =
    In-append_left m _ _ (retained-In m d.retain_message (unfold data_at in h))
collected_of_retained m (k ∷ p) (node d c) all h =
    let (n, e, h') = child-of-retained k p d c m h in
    In-append_right m (retained d.retain_message) _ (
      subst (λ l. In m l) (sym (get_all_children-over c))
        (over_children-In get_all_retain m k n c all.0 e (collected_of_retained m p n all.1 h')))

-- `find_retain_messages` at a level that is neither wildcard.
pub find-plain :
    (l : Str) (ls : List Str) (d : NodeData) (c : Children) (o : Option Node)
    → IsPlain l
    → child l c ≡ o
    → find_retain_messages (l ∷ ls) (node d c)
      ≡ (elim o [ some n ↦ find_retain_messages ls n | none ↦ [] ])
unfolding find_retain_messages
find-plain l ls d c o w e = rw (str_eq_ne l plus w.0, str_eq_ne l hash w.1) (ground (arith, e))

pub find-plus :
    (ls : List Str) (d : NodeData) (c : Children)
    → find_retain_messages (plus ∷ ls) (node d c) ≡ over_children (find_retain_messages ls) c
unfolding find_retain_messages
find-plus ls d c = rw (str_eq_refl plus)

pub find-hash :
    (ls : List Str) (d : NodeData) (c : Children)
    → find_retain_messages (hash ∷ ls) (node d c) ≡ get_all_retain (node d c)
unfolding find_retain_messages str_eq
find-hash ls d c = refl

-- A level is "+", "#" or plain.
pub level-cases : (l : Str) → (l ≡ plus) ⊎ ((l ≡ hash) ⊎ IsPlain l)
level-cases l = elim (Bool-cases (str_eq l plus)) [
  | inl e ↦ inl ((str_eq_iff l plus).0 e)
  | inr e ↦ elim (Bool-cases (str_eq l hash)) [
    | inl e' ↦ inr (inl ((str_eq_iff l hash).0 e'))
    | inr e' ↦ inr (inr (is_wildcard→IsPlain l (rw (e, e'))))
  ]
]
