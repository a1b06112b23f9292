-- ===== src/HashMap/Iterate.antt =====
-- The iterators of base/mqtt_map.c. An iterator is the bucket and the entries from `entry` on, or
-- `none` when `bucket_idx` is UINT32_MAX.
use tiny_mqtt.Prelude.{
  ℕ, zero, suc, ◌+◌, ◌-◌, ◌≤◌, ◌<◌, ◌⊎◌, inl, inr, ◌≡◌, refl, sym, ap, ◌∙◌, Option, some, none,
  List, [], ◌∷◌, ◌++◌, length, length-append, arith,
}
use tiny_mqtt.HashMap.Chain.{Entry}
use tiny_mqtt.HashMap.Lookup.{total}
use tiny_mqtt.HashMap.{HashMap}

pub record MapIter {ℓ} (K V : Type ℓ) : Type ℓ where
  pub bucket_idx : ℕ
  pub entry : Entry K V
  pub next : List (Entry K V)

List-cases {ℓ} :
    {A : Type ℓ} (xs : List A) → (xs ≡ []) ⊎ ((y : A) × ((ys : List A) × (xs ≡ y ∷ ys)))
List-cases [] = inl refl
List-cases (y ∷ ys) = inr (y, (ys, refl))

module _ {ℓ} {K V : Type ℓ} where
  -- The first entry of the first of `left` buckets from `cur` on that is not empty.
  unfoldable pub next_bucket : (ℕ → List (Entry K V)) → ℕ → ℕ → Option (MapIter K V)
  next_bucket buckets zero cur = none
  next_bucket buckets (suc left) cur =
      let later = next_bucket buckets left (suc cur) in
      elim (buckets cur) [
        | [] ↦ later
        | e ∷ es ↦ some (record { bucket_idx = cur; entry = e; next = es })
      ]

  unfoldable pub map_iter : HashMap K V → Option (MapIter K V)
  map_iter m = next_bucket m.buckets m.cap 0

  unfoldable pub map_iter_next : HashMap K V → Option (MapIter K V) → Option (MapIter K V)
  map_iter_next m none = none
  map_iter_next m (some it) = elim it.next [
    | [] ↦ next_bucket m.buckets (m.cap - suc it.bucket_idx) (suc it.bucket_idx)
    | e ∷ es ↦ some (record it { entry = e; next = es })
  ]

  -- A loop over the map, for at most `fuel` turns: the entries, and the iterator after it.
  unfoldable pub walk :
      ℕ → HashMap K V → Option (MapIter K V) → List (Entry K V) × Option (MapIter K V)
  walk zero m it = ([], it)
  walk (suc fuel) m none = ([], none)
  walk (suc fuel) m (some it) =
      let (es, last) = walk fuel m (map_iter_next m (some it)) in (it.entry ∷ es, last)

  -- All the entries, bucket by bucket, from `cur` on.
  unfoldable pub entries_from : (ℕ → List (Entry K V)) → ℕ → ℕ → List (Entry K V)
  entries_from buckets zero cur = []
  entries_from buckets (suc left) cur = buckets cur ++ entries_from buckets left (suc cur)

  -- What an iterator has still to visit.
  ahead : HashMap K V → Option (MapIter K V) → List (Entry K V)
  ahead m none = []
  ahead m (some it) =
      it.entry ∷ (it.next ++ entries_from m.buckets (m.cap - suc it.bucket_idx) (suc it.bucket_idx))

  abbrev IsInside : HashMap K V → Option (MapIter K V) → Type 0
  IsInside m none = Unit
  IsInside m (some it) = it.bucket_idx < m.cap

  next_bucket-IsInside :
      (m : HashMap K V) (left cur : ℕ)
      → cur + left ≡ m.cap
      → IsInside m (next_bucket m.buckets left cur)
  unfolding next_bucket
  next_bucket-IsInside m zero cur h = tt
  next_bucket-IsInside m (suc left) cur h = elim (List-cases (m.buckets cur)) [
    | inl e ↦ rw (next_bucket, e) (next_bucket-IsInside m left (suc cur) (omega arith))
    | inr (x, (xs, e)) ↦ rw (next_bucket, e) (omega arith)
  ]

  ahead-next_bucket :
      (m : HashMap K V) (left cur : ℕ)
      → cur + left ≡ m.cap
      → ahead m (next_bucket m.buckets left cur) ≡ entries_from m.buckets left cur
  unfolding ahead next_bucket entries_from
  ahead-next_bucket m zero cur h = refl
  ahead-next_bucket m (suc left) cur h = elim (List-cases (m.buckets cur)) [
    | inl e ↦ rw (next_bucket, entries_from, e) (ahead-next_bucket m left (suc cur) (omega arith))
    | inr (x, (xs, e)) ↦
        let k : m.cap - suc cur ≡ left = omega arith in
        rw (next_bucket, entries_from, e)
          (ap (λ n. x ∷ (xs ++ entries_from m.buckets n (suc cur))) k)
  ]

  step-IsInside :
      (m : HashMap K V) (it : MapIter K V)
      → it.bucket_idx < m.cap
      → IsInside m (map_iter_next m (some it))
        × (ahead m (some it) ≡ it.entry ∷ ahead m (map_iter_next m (some it)))
  unfolding ahead map_iter_next
  step-IsInside m it h =
      let i = it.bucket_idx in
      elim (List-cases it.next) [
        | inl e ↦
            rw (map_iter_next, e)
              (
                next_bucket-IsInside m (m.cap - suc i) (suc i) (omega arith),
                ap (λ t. it.entry ∷ t)
                    (sym (ahead-next_bucket m (m.cap - suc i) (suc i) (omega arith))),
              )
        | inr (x, (xs, e)) ↦ rw (map_iter_next, e) (h, refl)
      ]

  walk-ahead :
      (fuel : ℕ) (m : HashMap K V) (it : Option (MapIter K V))
      → IsInside m it
      → length (ahead m it) ≤ fuel
      → walk fuel m it ≡ (ahead m it, none)
  unfolding walk ahead
  walk-ahead zero m none h le = refl
  walk-ahead (suc fuel) m none h le = refl
  walk-ahead zero m (some it) h le = absurd (omega arith)
  walk-ahead (suc fuel) m (some it) h le =
      let (h₂, e) = step-IsInside m it h in
      let k = walk-ahead fuel m (map_iter_next m (some it)) h₂ (omega (arith, ap length e)) in
      ap (λ t. (it.entry ∷ t.0, t.1)) k ∙ ap (λ t. (t, none)) (sym e)

  length-entries_from :
      (left cur n : ℕ) (t : ℕ → List (Entry K V))
      → n ≡ cur + left
      → length (entries_from t left cur) + total cur t ≡ total n t
  unfolding entries_from
  length-entries_from zero cur n t h =
      let e : cur ≡ n = omega arith in omega (arith, ap (λ k. total k t) e)
  length-entries_from (suc left) cur n t h = omega (
    arith,
    length-append (t cur) (entries_from t left (suc cur)),
    length-entries_from left (suc cur) n t (omega arith),
  )

  -- A loop over the map visits the entries of its buckets in order, each once, and ends after as
  -- many turns as there are entries.
  pub walk-map_iter :
      (m : HashMap K V) (fuel : ℕ)
      → total m.cap m.buckets ≤ fuel
      → walk fuel m (map_iter m) ≡ (entries_from m.buckets m.cap 0, none)
  unfolding map_iter
  walk-map_iter m fuel h =
      let e = ahead-next_bucket m m.cap 0 (omega arith) in
      let l = length-entries_from m.cap 0 m.cap m.buckets (omega arith) in
      walk-ahead fuel m (map_iter m) (next_bucket-IsInside m m.cap 0 (omega arith))
        (omega (arith, ap length e))
      ∙ ap (λ t. (t, none)) e
