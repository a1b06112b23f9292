-- ===== src/Vec.antt =====
-- base/mqtt_vec.h and base/mqtt_vec.c: the vector. Its memory is a function from the index, which is
-- looked at below the capacity only. No vector is null, and realloc does not fail.
pub mod Elements
pub mod Refine
pub mod Run
mod Tests
use tiny_mqtt.Prelude.{
  ℕ, zero, suc, ◌+◌, ◌-◌, ◌*◌, ◌≡◌, Bool, true, false, ◌&&◌, Option, none, some, if◌then◌else◌, ltb,
  leb, ◌==◌,
}

pub record Vec {ℓ} (A : Type ℓ) : Type ℓ where
  pub cap : ℕ
  pub size : ℕ
  pub elems : ℕ → A

module _ {ℓ} {A : Type ℓ} where
  -- `memcpy` of `n` elements from `src` to the index `to`; with a source that is the same memory
  -- it is `memmove`.
  unfoldable pub copy : ℕ → (ℕ → A) → ℕ → (ℕ → A) → ℕ → A
  copy to src n dst j = if leb to j && ltb j (to + n) then src (j - to) else dst j

  unfoldable pub vec_grow : Vec A → Vec A
  vec_grow v = record v { cap = if ltb v.cap 8 then 8 else v.cap * 2 }

  abbrev pub make_room : Vec A → Vec A
  make_room v = if leb v.cap v.size then vec_grow v else v

  unfoldable pub vec_push_back : A → Vec A → Vec A
  vec_push_back x v =
      let w = make_room v in record w { elems = copy w.size (λ i. x) 1 w.elems; size = suc w.size }

  unfoldable pub vec_get : Vec A → ℕ → Option A
  vec_get v index = if leb v.size index then none else some (v.elems index)

  unfoldable pub vec_pop_back : Vec A → Option A × Vec A
  vec_pop_back v =
      if v.size == 0 then (none, v) else (vec_get v (v.size - 1), record v { size = v.size - 1 })

  -- The result is whether the index was one of the vector, as for the operations below.
  unfoldable pub vec_insert : ℕ → A → Vec A → Bool × Vec A
  vec_insert index x v =
      let w = make_room v in
      let moved = copy (suc index) (λ i. w.elems (index + i)) (w.size - index) w.elems in
      if ltb v.size index
      then (false, v)
      else (true, record w { elems = copy index (λ i. x) 1 moved; size = suc w.size })

  unfoldable pub vec_erase : ℕ → Vec A → Bool × Vec A
  vec_erase index v =
      let moved = copy index (λ i. v.elems (suc index + i)) (v.size - index - 1) v.elems in
      if leb v.size index then (false, v) else (true, record v { elems = moved; size = v.size - 1 })

  unfoldable pub vec_set : ℕ → A → Vec A → Bool × Vec A
  vec_set index x v =
      if leb v.size index
      then (false, v)
      else (true, record v { elems = copy index (λ i. x) 1 v.elems })

  -- The elements have one type, so one size.
  abbrev pub vec_swap : Vec A × Vec A → Vec A × Vec A
  vec_swap v = (v.1, v.0)

  abbrev pub vec_clear : Vec A → Vec A
  vec_clear v = record v { size = 0 }

  unfoldable pub vec_reserve : ℕ → Vec A → Vec A
  vec_reserve size v = if ltb v.cap size then record v { cap = 2 * size } else v

  unfoldable pub vec_resize : ℕ → Vec A → Vec A
  vec_resize size v = record (vec_reserve size v) { size = size }

  unfoldable pub vec_extend : Vec A → Vec A → Vec A
  vec_extend v₁ v₂ =
      let size = v₁.size + v₂.size in
      let w = vec_reserve size v₁ in
      vec_resize size (record w { elems = copy w.size v₂.elems v₂.size w.elems })
