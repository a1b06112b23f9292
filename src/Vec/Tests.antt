-- ===== src/Vec/Tests.antt =====
-- Runs of the vector, and the theorem at a concrete input.
use tiny_mqtt.Prelude.{ℕ, ◌≡◌, refl, some, none, List, [], ◌∷◌, arith}
use tiny_mqtt.Vec.{Vec, vec_get, vec_push_back, vec_insert, vec_grow, copy}
use tiny_mqtt.Vec.Elements.{elements}
use tiny_mqtt.Vec.Refine.{IsVec}
use tiny_mqtt.Vec.Run.{
  VecOp, push_back, insert, erase, pop_back, run_vec, run_list, run_vec-run_list,
}

abbrev empty_vec : Vec ℕ
empty_vec = record { cap = 0; size = 0; elems = λ i. 0 }

grown :
    ((vec_push_back 7 empty_vec).cap ≡ 8)
    × (vec_get (vec_insert 0 5 (vec_push_back 7 empty_vec)).1 1 ≡ some 7)
    × (vec_get empty_vec 0 ≡ none)
unfolding vec_push_back vec_insert vec_grow copy vec_get
grown = (refl, refl, refl)

abbrev some_ops : List (VecOp ℕ)
some_ops = push_back 1 ∷ push_back 2 ∷ insert 1 3 ∷ erase 0 ∷ pop_back ∷ []

run_vec-run_list_example :
    IsVec (run_vec some_ops empty_vec)
    × (elements (run_vec some_ops empty_vec) ≡ run_list some_ops (elements empty_vec))
run_vec-run_list_example = run_vec-run_list some_ops empty_vec (omega arith)
