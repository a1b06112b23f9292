-- ===== src/HashMap/Grow.antt =====
-- The remap of `tmq_map_grow`: every entry moves to the bucket that the new capacity gives it.
use tiny_mqtt.Prelude.{
  ℕ, zero, suc, ◌+◌, ◌≡◌, refl, sym, ap, ◌∙◌, ◌==◌, lt→ltb, ltb, if◌then◌else◌, some, none,
  Bool-cases, inl, inr, List, [], ◌∷◌, length, All, arith,
}
use tiny_mqtt.HashMap.Chain.{
  none-ne-some, MapKey, Entry, IsHashed, IsUnique, find_entry, find_entry-cons, or_else,
  or_else-none,
}
use tiny_mqtt.HashMap.Cap.{IsCap, bucket_index-lt}
use tiny_mqtt.HashMap.Lookup.{
  total, total-set_bucket, found, IsTable, find_elsewhere, IsAt, found-insert_entry,
  insert_entry-IsTable,
}
use tiny_mqtt.HashMap.{bucket_index, insert_entry, move_chain, remap, empty_buckets}

module _ {ℓ} {K V : Type ℓ} where
  pub total_zero : (n : ℕ) (t : ℕ → List (Entry K V)) → ((i : ℕ) → t i ≡ []) → total n t ≡ 0
  total_zero zero t h = refl
  total_zero (suc n) t h = omega (arith, total_zero n t h, ap length (h n))

module _ {ℓ} {K V : Type ℓ} ⦃mk : MapKey K⦄ where
  -- Moving a chain adds its entries to those that are there.
  found-move_chain :
      (cap : ℕ) (es : List (Entry K V)) (t : ℕ → List (Entry K V)) (q : K)
      → All IsHashed es
      → IsUnique es
      → found cap (move_chain cap es t) q ≡ or_else (find_entry q es) (found cap t q)
  unfolding move_chain find_entry
  found-move_chain cap [] t q h u = refl
  found-move_chain cap (e ∷ es) t q (h, hs) (u, us) =
      let k = found-move_chain cap es (insert_entry cap e t) q hs us in
      let k₂ = found-insert_entry cap e t q h in
      let k₃ = find_entry-cons q e es h in
      elim (Bool-cases (mk.equal_fn e.key q)) [
        | inl p ↦
            let n : find_entry q es ≡ none = rw ((mk.equal_fn_iff e.key q).0 p) at u in
            rw (k, k₂, k₃, p, n) refl
        | inr p ↦ rw (k, k₂, k₃, p) refl
      ]

  -- None of the entries is there yet.
  abbrev IsAbsent : ℕ → (ℕ → List (Entry K V)) → Entry K V → Type ℓ
  IsAbsent cap t e = found cap t e.key ≡ none

  IsAbsent-insert_entry :
      (cap : ℕ) (e : Entry K V) (es : List (Entry K V)) (t : ℕ → List (Entry K V))
      → IsHashed e
      → find_entry e.key es ≡ none
      → All IsHashed es
      → All (IsAbsent cap t) es
      → All (IsAbsent cap (insert_entry cap e t)) es
  IsAbsent-insert_entry cap e [] t h n hs a = tt
  IsAbsent-insert_entry cap e (x ∷ es) t h n (hx, hs) (a, rest) =
      let k = find_entry-cons e.key x es hx in
      elim (Bool-cases (mk.equal_fn x.key e.key)) [
        | inl p ↦
            absurd (
              none-ne-some
                (sym n ∙ k ∙ ap (λ b. if b then some x.value else find_entry e.key es) p))
        | inr p ↦
            let n₂ : find_entry e.key es ≡ none =
              sym (k ∙ ap (λ b. if b then some x.value else find_entry e.key es) p) ∙ n in
            (
              ground (
                arith,
                found-insert_entry cap e t x.key h,
                mk.equal_fn_iff x.key e.key,
                mk.equal_fn_iff e.key x.key,
              ),
              IsAbsent-insert_entry cap e es t h n₂ hs rest,
            )
      ]

  move_chain-IsTable :
      (cap : ℕ) (es : List (Entry K V)) (t : ℕ → List (Entry K V))
      → IsTable cap t
      → All IsHashed es
      → IsUnique es
      → All (IsAbsent cap t) es
      → IsTable cap (move_chain cap es t)
  unfolding move_chain
  move_chain-IsTable cap [] t v h u a = v
  move_chain-IsTable cap (e ∷ es) t v (h, hs) (u, us) (a, rest) =
      move_chain-IsTable cap es _ (insert_entry-IsTable cap e t v h a) hs us
        (IsAbsent-insert_entry cap e es t h u hs rest)

  total-move_chain :
      (cap : ℕ) (es : List (Entry K V)) (t : ℕ → List (Entry K V))
      → IsCap cap
      → total cap (move_chain cap es t) ≡ total cap t + length es
  unfolding move_chain insert_entry
  total-move_chain cap [] t v = omega arith
  total-move_chain cap (e ∷ es) t v = omega (
    arith,
    total-move_chain cap es (insert_entry cap e t) v,
    total-set_bucket cap (bucket_index cap e.hash) (e ∷ t (bucket_index cap e.hash)) t
        (bucket_index-lt cap e.hash v).1,
  )

  pub empty-IsTable : (cap : ℕ) → IsTable {K = K} {V = V} cap empty_buckets
  empty-IsTable cap i = record { hashed = tt; placed = tt; unique = tt }

  module _ (old_cap cap : ℕ) (old : ℕ → List (Entry K V)) (old_table : IsTable old_cap old)
      (c : IsCap cap) where
    -- The first `n` buckets have been moved: a key is found exactly if it stood in one of them.
    pub record IsMoved (n : ℕ) (t : ℕ → List (Entry K V)) : Type ℓ where
      pub table : IsTable cap t
      pub reads :
          (q : K)
          → found cap t q
            ≡ (if ltb (bucket_index old_cap (mk.hash_fn q)) n then found old_cap old q else none)
      pub entries : total cap t ≡ total n old

    IsAbsent-All :
        (n : ℕ) (t : ℕ → List (Entry K V)) (es : List (Entry K V))
        → IsMoved n t
        → All IsHashed es
        → All (IsAt old_cap n) es
        → All (IsAbsent cap t) es
    IsAbsent-All n t [] m h p = tt
    IsAbsent-All n t (e ∷ es) m (h, hs) (p, ps) =
        let k = m.reads e.key in
        let here : bucket_index old_cap (mk.hash_fn e.key) ≡ n =
          ap (λ z. bucket_index old_cap z) (sym h) ∙ p in
        (ground arith, IsAbsent-All n t es m hs ps)

    next :
        (n : ℕ) (t : ℕ → List (Entry K V))
        → IsMoved n t
        → (q : K)
        → or_else (find_entry q (old n)) (found cap t q) ≡ (
            if ltb (bucket_index old_cap (mk.hash_fn q)) (suc n) then found old_cap old q else none)
    unfolding found
    next n t m q =
        let i = bucket_index old_cap (mk.hash_fn q) in
        let k = m.reads q in
        let b = old_table n in
        elim (Bool-cases (i == n)) [
          | inl p ↦
              let here : i ≡ n = ground arith in
              let none_yet : found cap t q ≡ none = ground arith in
              ap (λ z. or_else (find_entry q (old n)) z) none_yet
              ∙ or_else-none (find_entry q (old n))
              ∙ ap (λ z. find_entry q (old z)) (sym here)
              ∙ sym (
                  ap (λ z. if z then found old_cap old q else none)
                    (lt→ltb i (suc n) (omega arith)))
          | inr p ↦
              let n₂ = find_elsewhere old_cap n q (old n) b.hashed b.placed (ground arith) in
              ap (λ z. or_else z (found cap t q)) n₂ ∙ k ∙ ground arith
        ]

    move_chain-IsMoved :
        (n : ℕ) (t : ℕ → List (Entry K V))
        → IsMoved n t
        → IsMoved (suc n) (move_chain cap (old n) t)
    move_chain-IsMoved n t m =
        let b = old_table n in
        record {
          table =
              move_chain-IsTable cap (old n) t m.table b.hashed b.unique
                (IsAbsent-All n t (old n) m b.hashed b.placed);
          reads = λ q. found-move_chain cap (old n) t q b.hashed b.unique ∙ next n t m q;
          entries = omega (arith, total-move_chain cap (old n) t c, m.entries);
        }

    pub remap-IsMoved : (n : ℕ) → IsMoved n (remap cap old n empty_buckets)
    unfolding remap found find_entry
    remap-IsMoved zero = record {
      table = empty-IsTable cap;
      reads = λ q. ground arith;
      entries = total_zero cap empty_buckets (λ i. refl);
    }
    remap-IsMoved (suc n) = move_chain-IsMoved n _ (remap-IsMoved n)
