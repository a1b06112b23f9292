-- ===== src/Topic/Split.antt =====
-- mqtt/mqtt_topic.c, `tmq_topic_split`: a topic cut into its levels at the slashes.
use tiny_mqtt.Prelude.{
  ℕ, Str, ◌≡◌, refl, sym, ap, ◌∙◌, true, false, List, [], ◌∷◌, ◌++◌, ◌==◌, append_assoc, append-nil,
  Bool-cases, inl, inr, All, ==_iff,
}

abbrev pub slash : ℕ
slash = b'/'

-- The first argument is what lies between `lp` and `rp`, the second what `rp` points at. The end
-- of the list is the terminating zero. An empty level after the last slash is the code's extra
-- test `if(!*lp)`, which here is the first clause.
unfoldable pub split_from : Str → Str → List Str
split_from level [] = level ∷ []
split_from level (c ∷ rest) = elim (c == slash) [
  | true ↦ level ∷ split_from [] rest
  | false ↦ split_from (level ++ c ∷ []) rest
]

unfoldable pub tmq_topic_split : Str → List Str
unfolding split_from
tmq_topic_split str = split_from [] str

-- The levels put together again, with a slash between two of them.
abbrev pub join : List Str → Str
join [] = []
join (l ∷ []) = l
join (l ∷ m ∷ ls) = l ++ slash ∷ join (m ∷ ls)

abbrev pub NoSlash : Str → Type 0
NoSlash = All (λ c. (c == slash) ≡ false)

pub split_from-ne-nil :
    (level str : Str) → (l : Str) × (ls : List Str) × (split_from level str ≡ l ∷ ls)
unfolding split_from
split_from-ne-nil level [] = (level, [], refl)
split_from-ne-nil level (c ∷ rest) = elim (Bool-cases (c == slash)) [
  | inl e ↦ (level, split_from [] rest, rw (e, split_from))
  | inr e ↦
      let (l, ls, h) = split_from-ne-nil (level ++ c ∷ []) rest in (l, ls, rw (e, split_from) h)
]

join-cons :
    (l : Str) (ls : List Str) {m : Str} {ms : List Str}
    → ls ≡ m ∷ ms
    → join (l ∷ ls) ≡ l ++ slash ∷ join ls
join-cons l ls e = rw e

join-split_from : (level str : Str) → join (split_from level str) ≡ level ++ str
unfolding split_from
join-split_from level [] = sym (append-nil level)
join-split_from level (c ∷ rest) = elim (Bool-cases (c == slash)) [
  | inl e ↦
      let (l, ls, h) = split_from-ne-nil [] rest in
      rw (e, split_from)
        (join-cons level (split_from [] rest) h
          ∙ rw (join-split_from [] rest, (==_iff c slash).0 e))
  | inr e ↦ rw (e, split_from) (join-split_from (level ++ c ∷ []) rest ∙ append_assoc level _ _)
]

-- Cutting a topic loses nothing: its levels joined by slashes are the topic.
pub join-tmq_topic_split : (str : Str) → join (tmq_topic_split str) ≡ str
unfolding tmq_topic_split
join-tmq_topic_split str = join-split_from [] str

split_from-NoSlash : (level l : Str) → NoSlash l → split_from level l ≡ (level ++ l) ∷ []
unfolding split_from
split_from-NoSlash level [] h = ap (λ t. t ∷ []) (sym (append-nil level))
split_from-NoSlash level (c ∷ l) h =
    rw (h.0, split_from)
      (split_from-NoSlash (level ++ c ∷ []) l h.1 ∙ ap (λ t. t ∷ []) (append_assoc level _ _))

split_from-slash :
    (level l rest : Str)
    → NoSlash l
    → split_from level (l ++ slash ∷ rest) ≡ (level ++ l) ∷ split_from [] rest
unfolding split_from
split_from-slash level [] rest h = ap (λ t. t ∷ split_from [] rest) (sym (append-nil level))
split_from-slash level (c ∷ l) rest h =
    rw (h.0, split_from)
      (split_from-slash (level ++ c ∷ []) l rest h.1
        ∙ ap (λ t. t ∷ split_from [] rest) (append_assoc level _ _))

-- And it invents nothing: a non-empty list of levels without slashes is what its joined form is
-- cut into, leading, inner and trailing empty levels included.
pub tmq_topic_split-join :
    (l : Str) (ls : List Str)
    → NoSlash l
    → All NoSlash ls
    → tmq_topic_split (join (l ∷ ls)) ≡ l ∷ ls
unfolding tmq_topic_split
tmq_topic_split-join l [] h hs = split_from-NoSlash [] l h
tmq_topic_split-join l (m ∷ ms) h hs =
    split_from-slash [] l (join (m ∷ ms)) h ∙ ap (λ t. l ∷ t) (tmq_topic_split-join m ms hs.0 hs.1)
