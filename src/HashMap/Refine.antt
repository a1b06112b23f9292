-- ===== src/HashMap/Refine.antt =====
-- The hash table with string keys implements the map of StrMap, whatever the operations.
use tiny_mqtt.Prelude.{
  ℕ, ◌≤◌, ◌≡◌, sym, ap, ◌∙◌, some, none, List, [], ◌∷◌, Str, str_eq, if◌then◌else◌,
}
use tiny_mqtt.StrMap.{StrMap, get, put, erase, get-put, get-erase}
use tiny_mqtt.HashMap.Hash.{str_key}
use tiny_mqtt.HashMap.Methods.{IsMap, map_put-IsMap, map_erase-IsMap, map_new-IsMap}
use tiny_mqtt.HashMap.{HashMap, map_new, map_get, map_put, map_erase}

module _ (V : Type 0) where
  pub data MapOp : Type 0 where
    put_at : Str → V → MapOp
    erase_at : Str → MapOp

module _ {V : Type 0} where
  -- A sequence of operations, on the hash table and on the map that its users see.
  unfoldable pub run_map : List (MapOp V) → HashMap Str V → HashMap Str V
  run_map [] m = m
  run_map (put_at k v ∷ ops) m = run_map ops (map_put m k v)
  run_map (erase_at k ∷ ops) m = run_map ops (map_erase m k)

  unfoldable pub run_spec : List (MapOp V) → StrMap V → StrMap V
  run_spec [] s = s
  run_spec (put_at k v ∷ ops) s = run_spec ops (put k v s)
  run_spec (erase_at k ∷ ops) s = run_spec ops (erase k s)

  -- The table is well formed and reads as the map.
  abbrev Reads : HashMap Str V → StrMap V → Type 0
  Reads m s = IsMap m × ((q : Str) → map_get m q ≡ get q s)

  run-Reads :
      (ops : List (MapOp V)) (m : HashMap Str V) (s : StrMap V)
      → Reads m s
      → Reads (run_map ops m) (run_spec ops s)
  unfolding run_map run_spec
  run-Reads [] m s r = r
  run-Reads (put_at k v ∷ ops) m s (w, reads) =
      let (w₂, reads₂) = map_put-IsMap m k v w in
      run-Reads ops (map_put m k v) (put k v s) (
        w₂,
        λ q.
            reads₂ q ∙ ap (λ t. if str_eq k q then some v else t) (reads q) ∙ sym (get-put k q v s),
      )
  run-Reads (erase_at k ∷ ops) m s (w, reads) =
      let (w₂, reads₂) = map_erase-IsMap m k w in
      run-Reads ops (map_erase m k) (erase k s) (
        w₂,
        λ q. reads₂ q ∙ ap (λ t. if str_eq k q then none else t) (reads q) ∙ sym (get-erase k q s),
      )

  -- From a new table of a capacity up to 2^31, after any sequence of puts and erases, every key is
  -- looked up as in the map that went through the same sequence.
  pub run_map-run_spec :
      (cap factor : ℕ) (m : HashMap Str V) (ops : List (MapOp V)) (q : Str)
      → cap ≤ 2147483648
      → map_new cap factor ≡ some m
      → map_get (run_map ops m) q ≡ get q (run_spec ops [])
  unfolding get
  run_map-run_spec cap factor m ops q h e =
      let (w, reads) = map_new-IsMap cap factor m h e in (run-Reads ops m [] (w, reads)).1 q
