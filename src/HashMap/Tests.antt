-- ===== src/HashMap/Tests.antt =====
-- Runs of the hash table, and the theorems at concrete inputs.
use tiny_mqtt.Prelude.{
  ℕ, ◌%◌, ◌<◌, ◌≡◌, refl, some, none, List, [], ◌∷◌, bytes, Str, arith, if◌then◌else◌, ◌==◌,
}
use tiny_mqtt.StrMap.{get}
use tiny_mqtt.HashMap.Chain.{Entry}
use tiny_mqtt.HashMap.Hash.{str_key}
use tiny_mqtt.HashMap.Cap.{IsCap, bucket_index-lt}
use tiny_mqtt.HashMap.Iterate.{walk, map_iter, entries_from, walk-map_iter}
use tiny_mqtt.HashMap.Refine.{MapOp, put_at, erase_at, run_map, run_spec, run_map-run_spec}
use tiny_mqtt.HashMap.{
  HashMap, map_new, map_get, empty_buckets, bucket_index, smear, round_up, alloc_buckets, threshold,
}

rounded : (round_up 100 ≡ 128) × (round_up 8 ≡ 8) × (alloc_buckets 2147483648 2 ≡ none)
unfolding round_up smear alloc_buckets
rounded = (refl, refl, refl)

-- A capacity over 2^31 is rounded up to 2^32, which is 0 in 32 bits.
no_bucket : alloc_buckets 2147483649 1 ≡ some 0
unfolding round_up smear alloc_buckets
no_bucket = refl

abbrev small_map : HashMap Str ℕ
small_map = record { cap = 8; size = 0; load_fac = 75; remap_thresh = 6; buckets = empty_buckets }

small_map_is_new : map_new 0 75 ≡ some small_map
unfolding map_new round_up smear alloc_buckets threshold
small_map_is_new = refl

abbrev some_ops : List (MapOp ℕ)
some_ops = put_at (bytes "a") 1 ∷ put_at (bytes "a/b") 2 ∷ erase_at (bytes "a") ∷ []

eight-IsCap : IsCap 8
eight-IsCap = record { log = 3; log_le = omega arith; power = refl }

bucket_index-lt_example : (bucket_index 8 77 ≡ 77 % 8) × (bucket_index 8 77 < 8)
bucket_index-lt_example = bucket_index-lt 8 77 eight-IsCap

run_map-run_spec_example :
    map_get (run_map some_ops small_map) (bytes "a/b") ≡ get (bytes "a/b") (run_spec some_ops [])
run_map-run_spec_example =
    run_map-run_spec 0 75 small_map some_ops (bytes "a/b") (omega arith) small_map_is_new

abbrev entry_at : Str → ℕ → Entry Str ℕ
entry_at k v = record { hash = 1; key = k; value = v }

abbrev two_entries : HashMap Str ℕ
two_entries = record small_map {
  size = 2;
  buckets = λ i. if i == 1 then entry_at (bytes "a") 1 ∷ entry_at (bytes "b") 2 ∷ [] else [];
}

walk-map_iter_example :
    walk 2 two_entries (map_iter two_entries) ≡ (entries_from two_entries.buckets 8 0, none)
walk-map_iter_example = walk-map_iter two_entries 2 (omega arith)
