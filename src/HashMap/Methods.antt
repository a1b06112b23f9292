-- ===== src/HashMap/Methods.antt =====
-- The operations of the map: what they do to the value of every key.
use tiny_mqtt.Prelude.{
  ℕ, ◌+◌, ◌%◌, ◌≤◌, ◌≡◌, refl, sym, ap, ◌∙◌, ◌==◌, ltb, ◌||◌, lt→ltb, if◌then◌else◌, Option, some,
  none, Bool-cases, Option-cases, inl, inr, List, ◌∷◌, length, arith,
}
use tiny_mqtt.HashMap.Chain.{
  none-ne-some, some_injective, MapKey, Entry, entry_new, IsHashed, find_entry, find_entry-cons,
  assign_entry, erase_entry, find-assign_entry, find-erase_entry, assign_entry-All, erase_entry-All,
  assign_entry-IsUnique, erase_entry-IsUnique, length-assign_entry, length-erase_entry,
}
use tiny_mqtt.HashMap.Cap.{
  IsCap, bucket_index-lt, alloc_buckets-IsCap_double, alloc_buckets-IsCap_new,
}
use tiny_mqtt.HashMap.Lookup.{
  total, total-set_bucket, found, IsBucket, IsTable, IsAt, found-set_bucket, set_bucket-IsTable,
}
use tiny_mqtt.HashMap.Grow.{remap-IsMoved, empty-IsTable, total_zero}
use tiny_mqtt.HashMap.{
  HashMap, set_bucket, insert_entry, insert_new, alloc_buckets, empty_buckets, grow, threshold,
  remap, map_new, map_get, map_put, map_erase, home,
}

module _ {ℓ} {K V : Type ℓ} ⦃mk : MapKey K⦄ where
  pub record IsMap (m : HashMap K V) : Type ℓ where
    pub cap_ok : IsCap m.cap
    pub table : IsTable m.cap m.buckets
    pub counted : m.size ≡ total m.cap m.buckets % 4294967296

  -- Growing keeps the value of every key.
  grow-IsMap :
      (m : HashMap K V) → IsMap m → IsMap (grow m) × ((q : K) → map_get (grow m) q ≡ map_get m q)
  unfolding grow map_get found
  grow-IsMap m v = elim (Bool-cases (ltb m.size m.remap_thresh)) [
    | inl e ↦ rw (grow, e) (v, λ q. refl)
    | inr e ↦ elim (Option-cases (alloc_buckets m.cap 2)) [
      | inl e₂ ↦ rw (grow, e, e₂) (v, λ q. refl)
      | inr (c, e₂) ↦
          let ok = alloc_buckets-IsCap_double m.cap c v.cap_ok e₂ in
          let r = remap-IsMoved m.cap c m.buckets v.table ok m.cap in
          let all : ((q : K)
              → map_get
                  (record m {
                    cap = c;
                    remap_thresh = threshold c m.load_fac;
                    buckets = remap c m.buckets m.cap empty_buckets;
                  })
                  q
                ≡ map_get m q) =
            λ q.
              r.reads q
              ∙ ap (λ b. if b then found m.cap m.buckets q else none)
                  (lt→ltb (home m q) m.cap (bucket_index-lt m.cap (mk.hash_fn q) v.cap_ok).1) in
          rw (grow, e, e₂)
            (
              record {
                cap_ok = ok;
                table = r.table;
                counted = v.counted ∙ ap (λ n. n % 4294967296) (sym r.entries);
              },
              all,
            )
    ]
  ]

  -- Another chain in the bucket of `k`, in which `k` has the value `r`, and the other keys theirs.
  chain-IsMap :
      (m : HashMap K V) (k : K) (c : List (Entry K V)) (size : ℕ) (r : Option V)
      → IsMap m
      → IsBucket m.cap (home m k) c
      → (let old = length (m.buckets (home m k)) in
          (n : ℕ) → n + old ≡ total m.cap m.buckets + length c → size ≡ n % 4294967296)
      → ((q : K)
          → find_entry q c ≡ (if mk.equal_fn k q then r else find_entry q (m.buckets (home m k))))
      → let m' = record m { size = size; buckets = set_bucket (home m k) c m.buckets } in
        IsMap m' × ((q : K) → map_get m' q ≡ (if mk.equal_fn k q then r else map_get m q))
  unfolding map_get found
  chain-IsMap m k c size r w b count reads =
      let i = home m k in
      (
        record {
          cap_ok = w.cap_ok;
          table = set_bucket-IsTable m.cap i c m.buckets w.table b;
          counted =
              count _ (total-set_bucket m.cap i c m.buckets (bucket_index-lt m.cap _ w.cap_ok).1);
        },
        λ q.
            let k₁ = found-set_bucket m.cap i c m.buckets q in
            elim (Bool-cases (i == home m q)) [
              | inl e ↦
                  let here : i ≡ home m q = ground arith in
                  k₁
                  ∙ ap (λ z. if z then find_entry q c else map_get m q) e
                  ∙ reads q
                  ∙ ap (λ z. if mk.equal_fn k q then r else find_entry q (m.buckets z)) here
              | inr e ↦ elim (Bool-cases (mk.equal_fn k q)) [
                | inl a ↦
                    let same = ap (λ z. home m z) ((mk.equal_fn_iff k q).0 a) in
                    absurd (ground arith)
                | inr a ↦
                    k₁
                    ∙ ap (λ z. if z then find_entry q c else map_get m q) e
                    ∙ sym (ap (λ z. if z then r else map_get m q) a)
              ]
            ],
      )

  insert_new-IsMap :
      (k : K) (v : V) (m : HashMap K V)
      → IsMap m
      → map_get m k ≡ none
      → IsMap (insert_new k v m)
        × ((q : K)
            → map_get (insert_new k v m) q ≡ (if mk.equal_fn k q then some v else map_get m q))
  unfolding insert_new map_get insert_entry entry_new
  insert_new-IsMap k v m w n =
      let e = entry_new k v in
      let old = m.buckets (home m k) in
      let b = w.table (home m k) in
      chain-IsMap m k (e ∷ old) _ (some v) w
        (record { hashed = (refl, b.hashed); placed = (refl, b.placed); unique = (n, b.unique) })
        (λ t h. omega (arith, w.counted)) (λ q. find_entry-cons q e old refl)

  -- Putting a value keeps the map well formed, gives the key this value, and leaves the values of
  -- all other keys.
  pub map_put-IsMap :
      (m : HashMap K V) (k : K) (v : V)
      → IsMap m
      → IsMap (map_put m k v)
        × ((q : K) → map_get (map_put m k v) q ≡ (if mk.equal_fn k q then some v else map_get m q))
  unfolding map_put map_get
  map_put-IsMap m k v w =
      let old = m.buckets (home m k) in
      let b = w.table (home m k) in
      elim (Option-cases (find_entry k old)) [
        | inl e ↦ elim (Bool-cases (ltb m.size m.remap_thresh)) [
          | inl p ↦ rw (map_put, e, p) (insert_new-IsMap k v m w e)
          | inr p ↦
              let (w₂, same) = grow-IsMap m w in
              let (w₃, reads) = insert_new-IsMap k v (grow m) w₂ (same k ∙ e) in
              rw (map_put, e, p)
                (w₃, λ q. reads q ∙ ap (λ z. if mk.equal_fn k q then some v else z) (same q))
        ]
        | inr (x, e) ↦
            rw (map_put, e)
              (chain-IsMap m k (assign_entry k v old) m.size (some v) w
                (record {
                  hashed = assign_entry-All IsHashed k v old (λ y h. h) b.hashed;
                  placed = assign_entry-All (IsAt m.cap (home m k)) k v old (λ y h. h) b.placed;
                  unique = assign_entry-IsUnique k v x old b.hashed b.unique e;
                })
                (λ t h. omega (arith, w.counted, length-assign_entry k v old))
                (λ q. find-assign_entry k q v x old b.hashed e))
      ]

  pub map_erase-IsMap :
      (m : HashMap K V) (k : K)
      → IsMap m
      → IsMap (map_erase m k)
        × ((q : K) → map_get (map_erase m k) q ≡ (if mk.equal_fn k q then none else map_get m q))
  unfolding map_erase map_get
  map_erase-IsMap m k w =
      let old = m.buckets (home m k) in
      let b = w.table (home m k) in
      elim (Option-cases (find_entry k old)) [
        | inl e ↦
            rw (map_erase, e)
              (
                w,
                λ q. elim (Bool-cases (mk.equal_fn k q)) [
                  | inl a ↦
                      ap (λ z. map_get m z) (sym ((mk.equal_fn_iff k q).0 a))
                      ∙ e
                      ∙ sym (ap (λ z. if z then none else map_get m q) a)
                  | inr a ↦ sym (ap (λ z. if z then none else map_get m q) a)
                ],
              )
        | inr (x, e) ↦
            rw (map_erase, e)
              (chain-IsMap m k (erase_entry k old) _ none w
                (record {
                  hashed = erase_entry-All IsHashed k old b.hashed;
                  placed = erase_entry-All (IsAt m.cap (home m k)) k old b.placed;
                  unique = erase_entry-IsUnique k old b.hashed b.unique;
                })
                (λ t h. omega (arith, w.counted, length-erase_entry k x old e))
                (λ q. find-erase_entry k q old b.hashed b.unique))
      ]

  pub map_new-IsMap :
      (cap factor : ℕ) (m : HashMap K V)
      → cap ≤ 2147483648
      → map_new cap factor ≡ some m
      → IsMap m × ((q : K) → map_get m q ≡ none)
  unfolding map_new map_get find_entry
  map_new-IsMap cap factor m h e = elim (Bool-cases (ltb 95 factor || ltb factor 25)) [
    | inl p ↦ absurd (none-ne-some (rw (map_new, p) at e))
    | inr p ↦ elim (Option-cases (alloc_buckets cap 1)) [
      | inl p₂ ↦ absurd (none-ne-some (rw (map_new, p, p₂) at e))
      | inr (c, p₂) ↦
          let k = some_injective (rw (map_new, p, p₂) at e) in
          rw (← k) (
            record {
              cap_ok = alloc_buckets-IsCap_new cap c h p₂;
              table = empty-IsTable c;
              counted = omega (arith, total_zero {K = K} {V = V} c empty_buckets (λ i. refl));
            },
            λ q. refl,
          )
    ]
  ]
