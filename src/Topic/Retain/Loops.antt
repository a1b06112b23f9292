-- ===== src/Topic/Retain/Loops.antt =====
-- The loops over a node's children, in terms of the child that stands under a name.
use tiny_mqtt.Prelude.{
  Str, str_eq, str_eq_iff, str_eq_refl, str_eq_ne, ◌≡◌, refl, sym, ap, false, Option, none, some,
  List, [], ◌++◌, In, In-append, In-append_left, In-append_right, arith, Bool-cases, inl, inr,
  if◌then◌else◌,
}
use mathlib.Core.Path.{subst}
use tiny_mqtt.Topic.Tree.{IsPlain, RetainMessage, Node, Children, nil, cons, plus, hash, child}
use tiny_mqtt.Topic.Tree.WellFormed.{Distinct, distinct_cons}
use tiny_mqtt.Topic.Retain.{is_wildcard, retained, over_children, get_all_retain, get_all_children}

pub is_wildcard→IsPlain : (k : Str) → is_wildcard k ≡ false → IsPlain k
is_wildcard→IsPlain k h =
    (λ e. ground (arith, str_eq_iff k plus, e), λ e. ground (arith, str_eq_iff k hash, e))

pub IsPlain→is_wildcard : (k : Str) → IsPlain k → is_wildcard k ≡ false
IsPlain→is_wildcard k h = rw (str_eq_ne k plus h.0, str_eq_ne k hash h.1)

pub In-retained : (m : RetainMessage) (o : Option RetainMessage) → In m (retained o) → o ≡ some m
In-retained m none h = absurd h
In-retained m (some r) (inl e) = ap some (sym e)
In-retained m (some r) (inr h) = absurd h

pub retained-In : (m : RetainMessage) (o : Option RetainMessage) → o ≡ some m → In m (retained o)
retained-In m none e = cc
retained-In m (some r) e = inl cc

-- One more child in front, under another name.
pub child-cons :
    (j k : Str) (n n' : Node) (c : Children)
    → child j c ≡ none
    → child k c ≡ some n'
    → child k (cons j n c) ≡ some n'
unfolding child
child-cons j k n n' c fresh e = ground (arith, str_eq_iff j k)

pub child-head : (k : Str) (n : Node) (c : Children) → child k (cons k n c) ≡ some n
unfolding child
child-head k n c = rw (str_eq_refl k)

abbrev pub InChild : (Node → Type 0) → Children → Type 0
InChild P c = (k : Str) × (n : Node) × IsPlain k × (child k c ≡ some n) × P n

pub InChild-cons :
    (P : Node → Type 0) (j : Str) (n : Node) (c : Children)
    → child j c ≡ none
    → InChild P c
    → InChild P (cons j n c)
InChild-cons P j n c fresh (k, n', plain, e, h) = (k, n', plain, child-cons j k n n' c fresh e, h)

-- What the loop collects comes from a child that is there under a plain name.
pub In-over_children :
    (f : Node → List RetainMessage) (m : RetainMessage) (c : Children)
    → Distinct c
    → In m (over_children f c)
    → InChild (λ n. In m (f n)) c
unfolding over_children
In-over_children f m nil w h = absurd h
In-over_children f m (cons j n c) (distinct_cons fresh wn wc) h =
    elim (Bool-cases (is_wildcard j)) [
      | inl t ↦
          InChild-cons (λ n. In m (f n)) j n c fresh
            (In-over_children f m c wc (rw (t, over_children) at h))
      | inr plain ↦
          let h' : In m (f n ++ over_children f c) = rw (plain, over_children) at h in
          elim (In-append m (f n) (over_children f c) h') [
            | inl own ↦ (j, n, is_wildcard→IsPlain j plain, child-head j n c, own)
            | inr rest ↦ InChild-cons (λ n. In m (f n)) j n c fresh (In-over_children f m c wc rest)
          ]
    ]

pub over_children-In :
    (f : Node → List RetainMessage) (m : RetainMessage) (k : Str) (n : Node) (c : Children)
    → IsPlain k
    → child k c ≡ some n
    → In m (f n)
    → In m (over_children f c)
unfolding over_children child
over_children-In f m k n nil plain e h = cc
over_children-In f m k n (cons j n' c) plain e h = elim (Bool-cases (str_eq j k)) [
  | inl t ↦
      let q : n ≡ n' = ground arith in
      let same : j ≡ k = (str_eq_iff j k).0 t in
      let go : In m (f n' ++ over_children f c) =
        In-append_left m (f n') _ (subst (λ x. In m (f x)) q h) in
      rw
        (subst (λ x. is_wildcard x ≡ false) (sym same) (IsPlain→is_wildcard k plain), over_children)
        go
  | inr t ↦
      In-append_right m (if is_wildcard j then [] else f n') _
        (over_children-In f m k n c plain (ground arith) h)
]

pub get_all_children-over : (c : Children) → get_all_children c ≡ over_children get_all_retain c
unfolding get_all_retain over_children
get_all_children-over nil = refl
get_all_children-over (cons k n c) =
    ap (λ r. (if is_wildcard k then [] else get_all_retain n) ++ r) (get_all_children-over c)
