-- ===== src/Vec/Run.antt =====
-- Any sequence of operations on a vector, and the same on a list.
use tiny_mqtt.Prelude.{
  ℕ, suc, ◌+◌, ◌-◌, ◌≡◌, refl, ap, ◌∙◌, Bool-cases, inl, inr, if◌then◌else◌, ltb, leb, ◌==◌, List,
  [], ◌∷◌, ◌++◌, length, take, drop, arith,
}
use tiny_mqtt.Vec.{
  Vec, vec_push_back, vec_pop_back, vec_insert, vec_erase, vec_set, vec_clear, vec_extend,
  vec_resize,
}
use tiny_mqtt.Vec.Elements.{elements, listed, length-listed}
use tiny_mqtt.Vec.Refine.{
  IsVec, elements-push_back, elements-insert, elements-erase, elements-set, elements-pop_back,
  elements-extend, make_room-cap, size-make_room, cap-reserve,
}

pub data VecOp {ℓ} (A : Type ℓ) : Type ℓ where
  push_back : A → VecOp A
  pop_back : VecOp A
  insert : ℕ → A → VecOp A
  erase : ℕ → VecOp A
  set : ℕ → A → VecOp A
  clear : VecOp A
  extend : Vec A → VecOp A

module _ {ℓ} {A : Type ℓ} where
  unfoldable pub run_op : VecOp A → Vec A → Vec A
  run_op (push_back x) v = vec_push_back x v
  run_op pop_back v = (vec_pop_back v).1
  run_op (insert i x) v = (vec_insert i x v).1
  run_op (erase i) v = (vec_erase i v).1
  run_op (set i x) v = (vec_set i x v).1
  run_op clear v = vec_clear v
  run_op (extend w) v = vec_extend v w

  unfoldable pub list_op : VecOp A → List A → List A
  list_op (push_back x) xs = xs ++ (x ∷ [])
  list_op pop_back xs = take (length xs - 1) xs
  list_op (insert i x) xs = if ltb (length xs) i then xs else take i xs ++ (x ∷ drop i xs)
  list_op (erase i) xs = if leb (length xs) i then xs else take i xs ++ drop (suc i) xs
  list_op (set i x) xs = if leb (length xs) i then xs else take i xs ++ (x ∷ drop (suc i) xs)
  list_op clear xs = []
  list_op (extend w) xs = xs ++ elements w

  elements-run_op : (op : VecOp A) (v : Vec A) → elements (run_op op v) ≡ list_op op (elements v)
  unfolding run_op list_op listed
  elements-run_op (push_back x) v = elements-push_back x v
  elements-run_op pop_back v = rw (length-listed v.size v.elems) (elements-pop_back v)
  elements-run_op (insert i x) v = rw (length-listed v.size v.elems) (elements-insert i x v)
  elements-run_op (erase i) v = rw (length-listed v.size v.elems) (elements-erase i v)
  elements-run_op (set i x) v = rw (length-listed v.size v.elems) (elements-set i x v)
  elements-run_op clear v = refl
  elements-run_op (extend w) v = elements-extend v w

  run_op-IsVec : (op : VecOp A) (v : Vec A) → IsVec v → IsVec (run_op op v)
  unfolding run_op vec_push_back vec_pop_back vec_insert vec_erase vec_set vec_extend vec_resize
  run_op-IsVec (push_back x) v ok = omega (arith, make_room-cap v ok, size-make_room v)
  run_op-IsVec pop_back v ok = elim (Bool-cases (v.size == 0)) [
    | inl e ↦ rw (run_op, e) ok
    | inr e ↦ rw (run_op, e) (omega arith)
  ]
  run_op-IsVec (insert i x) v ok = elim (Bool-cases (ltb v.size i)) [
    | inl e ↦ rw (run_op, e) ok
    | inr e ↦ rw (run_op, e) (omega (arith, make_room-cap v ok, size-make_room v))
  ]
  run_op-IsVec (erase i) v ok = elim (Bool-cases (leb v.size i)) [
    | inl e ↦ rw (run_op, e) ok
    | inr e ↦ rw (run_op, e) (omega arith)
  ]
  run_op-IsVec (set i x) v ok = elim (Bool-cases (leb v.size i)) [
    | inl e ↦ rw (run_op, e) ok
    | inr e ↦ rw (run_op, e) ok
  ]
  run_op-IsVec clear v ok = omega arith
  run_op-IsVec (extend w) v ok = cap-reserve (v.size + w.size) _

  unfoldable pub run_vec : List (VecOp A) → Vec A → Vec A
  run_vec [] v = v
  run_vec (op ∷ ops) v = run_vec ops (run_op op v)

  unfoldable pub run_list : List (VecOp A) → List A → List A
  run_list [] xs = xs
  run_list (op ∷ ops) xs = run_list ops (list_op op xs)

  -- Through any sequence of operations on a vector whose elements are inside its memory, they stay
  -- inside it, and they are what the same operations make of the list of them; an index out of
  -- range changes nothing.
  pub run_vec-run_list :
      (ops : List (VecOp A)) (v : Vec A)
      → IsVec v
      → IsVec (run_vec ops v) × (elements (run_vec ops v) ≡ run_list ops (elements v))
  unfolding run_vec run_list
  run_vec-run_list [] v ok = (ok, refl)
  run_vec-run_list (op ∷ ops) v ok =
      let (inside, same) = run_vec-run_list ops (run_op op v) (run_op-IsVec op v ok) in
      (inside, same ∙ ap (run_list ops) (elements-run_op op v))
