-- ===== src/HashMap.antt =====
-- base/mqtt_map.c, the hash table of the broker. `buckets[0]` is a function from the index; the
-- asserts `bucket_idx < cap` are a theorem, so no other index is used. `buckets[1]` is only used
-- inside `tmq_map_grow`. malloc does not fail here, and keys, values and functions are not NULL.
pub mod Bits
pub mod Chain
pub mod Hash
pub mod Cap
pub mod Lookup
pub mod Grow
pub mod Methods
pub mod Iterate
pub mod Refine
mod Tests
use Prim.Native.Nat.{bit_and, bit_or}
use tiny_mqtt.Prelude.{
  ℕ, zero, suc, ◌+◌, ◌-◌, ◌*◌, ◌/◌, ◌%◌, ◌^◌, Option, none, some, List, [], ◌∷◌, ◌||◌,
  if◌then◌else◌, ltb, leb, ◌==◌, Bool, true, false,
}
use tiny_mqtt.HashMap.Chain.{MapKey, Entry, entry_new, is_at, find_entry, assign_entry, erase_entry}

pub record HashMap {ℓ} (K V : Type ℓ) : Type ℓ where
  pub cap : ℕ
  pub size : ℕ
  pub load_fac : ℕ
  pub remap_thresh : ℕ
  pub buckets : ℕ → List (Entry K V)

-- `v |= v >> i` for i = 1, 2, 4, 8, 16.
unfoldable pub smear : ℕ → ℕ
smear v =
    let v₁ = bit_or v (v / 2) in
    let v₂ = bit_or v₁ (v₁ / 4) in
    let v₃ = bit_or v₂ (v₂ / 16) in let v₄ = bit_or v₃ (v₃ / 256) in bit_or v₄ (v₄ / 65536)

-- `v--`, the shifts, `v++`.
unfoldable pub round_up : ℕ → ℕ
unfolding smear
round_up v = (smear ((v + 4294967295) % 4294967296) + 1) % 4294967296

-- The capacity of the new buckets, which are all empty. `none`: the capacity would be too large.
unfoldable pub alloc_buckets : ℕ → ℕ → Option ℕ
alloc_buckets cap grow_factor =
    if ltb (4294967295 / grow_factor) cap
    then none
    else some (round_up (if ltb cap 8 then 8 else cap * grow_factor % 4294967296))

-- `hash & (m->cap - 1)`
unfoldable pub bucket_index : ℕ → ℕ → ℕ
bucket_index cap hash = bit_and hash ((cap + 4294967295) % 4294967296)

-- `m->cap * factor / 100`
unfoldable pub threshold : ℕ → ℕ → ℕ
threshold cap factor = cap * factor % 4294967296 / 100

-- An assignment to the bucket `i`.
unfoldable pub set_bucket {ℓ} : {A : Type ℓ} → ℕ → A → (ℕ → A) → ℕ → A
set_bucket i c buckets j = if i == j then c else buckets j

module _ {ℓ} {K V : Type ℓ} where
  abbrev pub empty_buckets : ℕ → List (Entry K V)
  empty_buckets i = []

  unfoldable pub insert_entry : ℕ → Entry K V → (ℕ → List (Entry K V)) → ℕ → List (Entry K V)
  insert_entry cap e buckets =
      let i = bucket_index cap e.hash in set_bucket i (e ∷ buckets i) buckets

  -- The inner loop of the remap: the entries of one bucket, each to its new bucket.
  unfoldable pub move_chain : ℕ → List (Entry K V) → (ℕ → List (Entry K V)) → ℕ → List (Entry K V)
  move_chain cap [] buckets = buckets
  move_chain cap (e ∷ es) buckets = move_chain cap es (insert_entry cap e buckets)

  -- The outer loop: the first `n` buckets.
  unfoldable pub remap :
      ℕ → (ℕ → List (Entry K V)) → ℕ → (ℕ → List (Entry K V)) → ℕ → List (Entry K V)
  remap cap old zero buckets = buckets
  remap cap old (suc n) buckets = move_chain cap (old n) (remap cap old n buckets)

  -- When there can be no larger capacity, the map stays as it is.
  unfoldable pub grow : HashMap K V → HashMap K V
  grow m = if ltb m.size m.remap_thresh then m else elim (alloc_buckets m.cap 2) [
    | none ↦ m
    | some cap ↦ record m {
      cap = cap;
      remap_thresh = threshold cap m.load_fac;
      buckets = remap cap m.buckets m.cap empty_buckets;
    }
  ]

  unfoldable pub map_new : ℕ → ℕ → Option (HashMap K V)
  map_new cap factor = if ltb 95 factor || ltb factor 25 then none else elim (alloc_buckets cap 1) [
    | none ↦ none
    | some cap ↦ some (record {
      cap = cap;
      size = 0;
      load_fac = factor;
      remap_thresh = threshold cap factor;
      buckets = empty_buckets;
    })
  ]

  unfoldable pub map_clear : HashMap K V → HashMap K V
  map_clear m = record m { size = 0; buckets = λ i. if ltb i m.cap then [] else m.buckets i }

module _ {ℓ} {K V : Type ℓ} ⦃mk : MapKey K⦄ where
  -- The bucket of a key.
  abbrev pub home : HashMap K V → K → ℕ
  home m k = bucket_index m.cap (mk.hash_fn k)

  unfoldable pub map_get : HashMap K V → K → Option V
  map_get m k = find_entry k (m.buckets (home m k))

  insert_new : K → V → HashMap K V → HashMap K V
  insert_new k v m = record m {
    size = (m.size + 1) % 4294967296;
    buckets = insert_entry m.cap (entry_new k v) m.buckets;
  }

  unfoldable pub map_put : HashMap K V → K → V → HashMap K V
  unfolding insert_new
  map_put m k v =
      let i = home m k in
      elim (find_entry k (m.buckets i)) [
        | some old ↦ record m { buckets = set_bucket i (assign_entry k v (m.buckets i)) m.buckets }
        | none ↦ insert_new k v (if ltb m.size m.remap_thresh then m else grow m)
      ]

  unfoldable pub map_erase : HashMap K V → K → HashMap K V
  map_erase m k =
      let i = home m k in
      elim (find_entry k (m.buckets i)) [
        | none ↦ m
        | some old ↦ record m {
          size = (m.size + 4294967295) % 4294967296;
          buckets = set_bucket i (erase_entry k (m.buckets i)) m.buckets;
        }
      ]
