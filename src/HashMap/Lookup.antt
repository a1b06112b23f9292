-- ===== src/HashMap/Lookup.antt =====
-- What a table of buckets holds: its entries stand in their buckets, each key once, and a lookup
-- reads one bucket.
use tiny_mqtt.Prelude.{
  ℕ, zero, suc, ◌+◌, ◌<◌, ◌≡◌, ◌≢◌, refl, sym, ap, ◌∙◌, ◌==◌, if◌then◌else◌, Option, some, none,
  Bool-cases, inl, inr, List, [], ◌∷◌, length, All, arith,
}
use tiny_mqtt.HashMap.Chain.{MapKey, Entry, IsHashed, IsUnique, find_entry, find_entry-cons}
use tiny_mqtt.HashMap.{bucket_index, set_bucket, insert_entry}

module _ {ℓ} {A : Type ℓ} where
  pub set_bucket_same : (i : ℕ) (c : A) (t : ℕ → A) → set_bucket i c t i ≡ c
  unfolding set_bucket
  set_bucket_same i c t = ground arith

  pub set_bucket_other : (i j : ℕ) (c : A) (t : ℕ → A) → i ≢ j → set_bucket i c t j ≡ t j
  unfolding set_bucket
  set_bucket_other i j c t h = ground arith

module _ {ℓ} {K V : Type ℓ} where
  -- The entries in the first `n` buckets.
  abbrev pub total : ℕ → (ℕ → List (Entry K V)) → ℕ
  total zero t = 0
  total (suc n) t = total n t + length (t n)

  pub total_congr :
      (n : ℕ) (s t : ℕ → List (Entry K V)) → ((j : ℕ) → j < n → s j ≡ t j) → total n s ≡ total n t
  total_congr zero s t h = refl
  total_congr (suc n) s t h =
      omega (arith, total_congr n s t (λ j l. h j (omega arith)), ap length (h n (omega arith)))

  pub total-set_bucket :
      (n i : ℕ) (c : List (Entry K V)) (t : ℕ → List (Entry K V))
      → i < n
      → total n (set_bucket i c t) + length (t i) ≡ total n t + length c
  total-set_bucket zero i c t h = absurd (omega arith)
  total-set_bucket (suc n) i c t h = elim (Bool-cases (i == n)) [
    | inl e ↦
        let q : i ≡ n = ground arith in
        let k =
          total_congr n (set_bucket i c t) t (λ j l. set_bucket_other i j c t (omega arith)) in
        let k₂ : length (set_bucket i c t n) ≡ length c =
          ap (λ z. length (set_bucket i c t z)) (sym q) ∙ ap length (set_bucket_same i c t) in
        omega (arith, ap (λ z. length (t z)) q)
    | inr e ↦
        let k = total-set_bucket n i c t (ground arith) in
        omega (arith, ap length (set_bucket_other i n c t (ground arith)))
  ]

module _ {ℓ} {K V : Type ℓ} ⦃mk : MapKey K⦄ where
  -- The entry that a key leads to in buckets of the capacity `cap`.
  unfoldable pub found : ℕ → (ℕ → List (Entry K V)) → K → Option V
  found cap t q = find_entry q (t (bucket_index cap (mk.hash_fn q)))

  abbrev pub IsAt : ℕ → ℕ → Entry K V → Type 0
  IsAt cap i e = bucket_index cap e.hash ≡ i

  pub record IsBucket (cap i : ℕ) (es : List (Entry K V)) : Type ℓ where
    pub hashed : All IsHashed es
    pub placed : All (IsAt cap i) es
    pub unique : IsUnique es

  -- Every entry keeps the hash of its key and stands in the bucket of that hash, each key once.
  abbrev pub IsTable : ℕ → (ℕ → List (Entry K V)) → Type ℓ
  IsTable cap t = (i : ℕ) → IsBucket cap i (t i)

  -- A key that is in a bucket of a table belongs there.
  pub find_elsewhere :
      (cap i : ℕ) (q : K) (es : List (Entry K V))
      → All IsHashed es
      → All (IsAt cap i) es
      → bucket_index cap (mk.hash_fn q) ≢ i
      → find_entry q es ≡ none
  unfolding find_entry
  find_elsewhere cap i q [] h p n = refl
  find_elsewhere cap i q (e ∷ es) (h, hs) (p, ps) n = elim (Bool-cases (mk.equal_fn e.key q)) [
    | inl k ↦
        let same = ap mk.hash_fn ((mk.equal_fn_iff e.key q).0 k) in
        absurd (n (ap (λ z. bucket_index cap z) (sym (h ∙ same)) ∙ p))
    | inr k ↦
        find_entry-cons q e es h
        ∙ ap (λ b. if b then some e.value else find_entry q es) k
        ∙ find_elsewhere cap i q es hs ps n
  ]

  pub set_bucket-IsTable :
      (cap i : ℕ) (c : List (Entry K V)) (t : ℕ → List (Entry K V))
      → IsTable cap t
      → IsBucket cap i c
      → IsTable cap (set_bucket i c t)
  set_bucket-IsTable cap i c t v b j = elim (Bool-cases (i == j)) [
    | inl e ↦ let q : i ≡ j = ground arith in rw (← q) (rw (set_bucket_same i c t) b)
    | inr e ↦ rw (set_bucket_other i j c t (ground arith)) (v j)
  ]

  pub found-set_bucket :
      (cap i : ℕ) (c : List (Entry K V)) (t : ℕ → List (Entry K V)) (q : K)
      → found cap (set_bucket i c t) q
        ≡ (if i == bucket_index cap (mk.hash_fn q) then find_entry q c else found cap t q)
  unfolding found set_bucket
  found-set_bucket cap i c t q = elim (Bool-cases (i == bucket_index cap (mk.hash_fn q))) [
    | inl e ↦ rw (found, set_bucket, e) refl
    | inr e ↦ rw (found, set_bucket, e) refl
  ]

  pub found-insert_entry :
      (cap : ℕ) (e : Entry K V) (t : ℕ → List (Entry K V)) (q : K)
      → IsHashed e
      → found cap (insert_entry cap e t) q
        ≡ (if mk.equal_fn e.key q then some e.value else found cap t q)
  unfolding insert_entry found
  found-insert_entry cap e t q h =
      let i = bucket_index cap e.hash in
      let k = found-set_bucket cap i (e ∷ t i) t q in
      let k₂ = find_entry-cons q e (t i) h in
      elim (Bool-cases (i == bucket_index cap (mk.hash_fn q))) [
        | inl a ↦
            let here : i ≡ bucket_index cap (mk.hash_fn q) = ground arith in
            k
            ∙ ap (λ b. if b then find_entry q (e ∷ t i) else found cap t q) a
            ∙ k₂
            ∙ ap (λ z. if mk.equal_fn e.key q then some e.value else find_entry q (t z)) here
        | inr a ↦ elim (Bool-cases (mk.equal_fn e.key q)) [
          | inl b ↦
              let same = ap mk.hash_fn ((mk.equal_fn_iff e.key q).0 b) in
              let here = ap (λ z. bucket_index cap z) (h ∙ same) in absurd (ground arith)
          | inr b ↦
              k
              ∙ ap (λ c. if c then find_entry q (e ∷ t i) else found cap t q) a
              ∙ sym (ap (λ c. if c then some e.value else found cap t q) b)
        ]
      ]

  pub insert_entry-IsTable :
      (cap : ℕ) (e : Entry K V) (t : ℕ → List (Entry K V))
      → IsTable cap t
      → IsHashed e
      → found cap t e.key ≡ none
      → IsTable cap (insert_entry cap e t)
  unfolding insert_entry found
  insert_entry-IsTable cap e t v h n =
      let i = bucket_index cap e.hash in
      let b = v i in
      set_bucket-IsTable cap i (e ∷ t i) t v (record {
        hashed = (h, b.hashed);
        placed = (refl, b.placed);
        unique = (ap (λ z. find_entry e.key (t (bucket_index cap z))) h ∙ n, b.unique);
      })
