-- ===== src/HashMap/Chain.antt =====
-- The keys of a map, and one bucket of base/mqtt_map.c: the entries that hang together by `next`.
use tiny_mqtt.Prelude.{
  ℕ, suc, ◌≡◌, ◌≢◌, ◌↔◌, refl, sym, ap, ◌∙◌, Bool, true, ◌&&◌, Bool-cases, inl, inr, Option, none,
  some, List, [], ◌∷◌, if◌then◌else◌, ◌==◌, length, All, arith,
}

-- `hash_fn` and `equal_fn`. The maps of the broker compare whole keys.
pub record MapKey {ℓ} (K : Type ℓ) : Type ℓ where
  pub hash_fn : K → ℕ
  pub equal_fn : K → K → Bool
  pub equal_fn_iff : (a b : K) → (equal_fn a b ≡ true) ↔ (a ≡ b)

pub record Entry {ℓ} (K V : Type ℓ) : Type ℓ where
  pub hash : ℕ
  pub key : K
  pub value : V

module _ {ℓ} {V : Type ℓ} where
  abbrev pub or_else : Option V → Option V → Option V
  or_else none b = b
  or_else (some a) b = some a

  pub or_else-none : (a : Option V) → or_else a none ≡ a
  or_else-none none = refl
  or_else-none (some a) = refl

  pub some_injective : {a b : V} → some a ≡ some b → a ≡ b
  some_injective e = cc

  pub none-ne-some : {a : V} → none ≢ some a
  none-ne-some e = cc

module _ {ℓ} {K V : Type ℓ} ⦃mk : MapKey K⦄ where
  unfoldable pub entry_new : K → V → Entry K V
  entry_new k v = record { hash = mk.hash_fn k; key = k; value = v }

  -- The hash that the entry keeps is compared before the key.
  unfoldable pub is_at : K → Entry K V → Bool
  is_at k e = (mk.hash_fn k == e.hash) && mk.equal_fn e.key k

  -- The value of the entry that the loop of `tmq_map_find_entry` stops at.
  unfoldable pub find_entry : K → List (Entry K V) → Option V
  find_entry k [] = none
  find_entry k (e ∷ es) = if is_at k e then some e.value else find_entry k es

  -- `memcpy` to the value of that entry.
  unfoldable pub assign_entry : K → V → List (Entry K V) → List (Entry K V)
  assign_entry k v [] = []
  assign_entry k v (e ∷ es) =
      if is_at k e then record e { value = v } ∷ es else e ∷ assign_entry k v es

  -- That entry is taken out.
  unfoldable pub erase_entry : K → List (Entry K V) → List (Entry K V)
  erase_entry k [] = []
  erase_entry k (e ∷ es) = if is_at k e then es else e ∷ erase_entry k es

  abbrev pub IsHashed : Entry K V → Type 0
  IsHashed e = e.hash ≡ mk.hash_fn e.key

  -- No two entries have the same key.
  abbrev pub IsUnique : List (Entry K V) → Type ℓ
  IsUnique [] = Unit
  IsUnique (e ∷ es) = (find_entry e.key es ≡ none) × IsUnique es

  is_at-equal_fn : (k : K) (e : Entry K V) → IsHashed e → is_at k e ≡ mk.equal_fn e.key k
  unfolding is_at
  is_at-equal_fn k e h = elim (Bool-cases (mk.equal_fn e.key k)) [
    | inl q ↦
        let same : mk.hash_fn k ≡ e.hash =
          ap mk.hash_fn (sym ((mk.equal_fn_iff e.key k).0 q)) ∙ sym h in
        ground arith
    | inr q ↦ ground arith
  ]

  pub find_entry-cons :
      (q : K) (e : Entry K V) (es : List (Entry K V))
      → IsHashed e
      → find_entry q (e ∷ es) ≡ (if mk.equal_fn e.key q then some e.value else find_entry q es)
  unfolding find_entry
  find_entry-cons q e es h = rw (is_at-equal_fn q e h) refl

  pub find-assign_entry :
      (k q : K) (v w : V) (es : List (Entry K V))
      → All IsHashed es
      → find_entry k es ≡ some w
      → find_entry q (assign_entry k v es) ≡ (if mk.equal_fn k q then some v else find_entry q es)
  unfolding find_entry assign_entry
  find-assign_entry k q v w [] h e = absurd (none-ne-some e)
  find-assign_entry k q v w (x ∷ es) (h, hs) e = elim (Bool-cases (mk.equal_fn x.key k)) [
    | inl p ↦
        rw (is_at-equal_fn k x h, p)
          (rw (is_at-equal_fn q (record x { value = v }) h, is_at-equal_fn q x h)
            (ground (arith, mk.equal_fn_iff x.key k, mk.equal_fn_iff x.key q, mk.equal_fn_iff k q)))
    | inr p ↦
        let e₂ : find_entry k es ≡ some w = rw (is_at-equal_fn k x h, p) at e in
        rw (is_at-equal_fn k x h, p, is_at-equal_fn q x h)
          (ground (
            arith,
            mk.equal_fn_iff x.key k,
            mk.equal_fn_iff x.key q,
            mk.equal_fn_iff k q,
            find-assign_entry k q v w es hs e₂,
          ))
  ]

  pub find-erase_entry :
      (k q : K) (es : List (Entry K V))
      → All IsHashed es
      → IsUnique es
      → find_entry q (erase_entry k es) ≡ (if mk.equal_fn k q then none else find_entry q es)
  unfolding find_entry erase_entry
  find-erase_entry k q [] h u = ground arith
  find-erase_entry k q (x ∷ es) (h, hs) (u, us) = elim (Bool-cases (mk.equal_fn x.key k)) [
    | inl p ↦
        rw (is_at-equal_fn k x h, p, is_at-equal_fn q x h)
          (let same = (mk.equal_fn_iff x.key k).0 p in
            let u₂ = rw same at u in ground (arith, mk.equal_fn_iff x.key q, mk.equal_fn_iff k q))
    | inr p ↦
        rw (is_at-equal_fn k x h, p, is_at-equal_fn q x h)
          (ground (
            arith,
            mk.equal_fn_iff x.key k,
            mk.equal_fn_iff x.key q,
            mk.equal_fn_iff k q,
            find-erase_entry k q es hs us,
          ))
  ]

  module _ {κ} (P : Entry K V → Type κ) where
    pub erase_entry-All : (k : K) (es : List (Entry K V)) → All P es → All P (erase_entry k es)
    unfolding erase_entry
    erase_entry-All k [] h = tt
    erase_entry-All k (x ∷ es) (h, hs) = elim (Bool-cases (is_at k x)) [
      | inl e ↦ rw (erase_entry, e) hs
      | inr e ↦ rw (erase_entry, e) (h, erase_entry-All k es hs)
    ]

    pub assign_entry-All :
        (k : K) (v : V) (es : List (Entry K V))
        → ((e : Entry K V) → P e → P (record e { value = v }))
        → All P es
        → All P (assign_entry k v es)
    unfolding assign_entry
    assign_entry-All k v [] f h = tt
    assign_entry-All k v (x ∷ es) f (h, hs) = elim (Bool-cases (is_at k x)) [
      | inl e ↦ rw (assign_entry, e) (f x h, hs)
      | inr e ↦ rw (assign_entry, e) (h, assign_entry-All k v es f hs)
    ]

  pub erase_entry-IsUnique :
      (k : K) (es : List (Entry K V)) → All IsHashed es → IsUnique es → IsUnique (erase_entry k es)
  unfolding erase_entry
  erase_entry-IsUnique k [] h u = tt
  erase_entry-IsUnique k (x ∷ es) (h, hs) (u, us) = elim (Bool-cases (is_at k x)) [
    | inl e ↦ rw (erase_entry, e) us
    | inr e ↦
        rw (erase_entry, e)
          (ground (arith, find-erase_entry k x.key es hs us), erase_entry-IsUnique k es hs us)
  ]

  pub assign_entry-IsUnique :
      (k : K) (v w : V) (es : List (Entry K V))
      → All IsHashed es
      → IsUnique es
      → find_entry k es ≡ some w
      → IsUnique (assign_entry k v es)
  unfolding assign_entry find_entry
  assign_entry-IsUnique k v w [] h u e = tt
  assign_entry-IsUnique k v w (x ∷ es) (h, hs) (u, us) e = elim (Bool-cases (mk.equal_fn x.key k)) [
    | inl p ↦ rw (assign_entry, is_at-equal_fn k x h, p) (u, us)
    | inr p ↦
        let e₂ : find_entry k es ≡ some w = rw (is_at-equal_fn k x h, p) at e in
        rw (assign_entry, is_at-equal_fn k x h, p)
          (
            ground (
              arith,
              mk.equal_fn_iff x.key k,
              mk.equal_fn_iff k x.key,
              find-assign_entry k x.key v w es hs e₂,
            ),
            assign_entry-IsUnique k v w es hs us e₂,
          )
  ]

  pub length-erase_entry :
      (k : K) (v : V) (es : List (Entry K V))
      → find_entry k es ≡ some v
      → suc (length (erase_entry k es)) ≡ length es
  unfolding find_entry erase_entry
  length-erase_entry k v [] e = absurd (none-ne-some e)
  length-erase_entry k v (x ∷ es) e = elim (Bool-cases (is_at k x)) [
    | inl p ↦ rw (erase_entry, p) refl
    | inr p ↦
        let e₂ : find_entry k es ≡ some v = rw p at e in
        rw (erase_entry, p) (ap suc (length-erase_entry k v es e₂))
  ]

  pub length-assign_entry :
      (k : K) (v : V) (es : List (Entry K V)) → length (assign_entry k v es) ≡ length es
  unfolding assign_entry
  length-assign_entry k v [] = refl
  length-assign_entry k v (x ∷ es) = elim (Bool-cases (is_at k x)) [
    | inl p ↦ rw (assign_entry, p) refl
    | inr p ↦ rw (assign_entry, p) (ap suc (length-assign_entry k v es))
  ]
