-- ===== src/Vec/Refine.antt =====
-- What the operations of a vector do to the list of its elements.
use tiny_mqtt.Prelude.{
  ℕ, suc, ◌+◌, ◌-◌, ◌≤◌, ◌<◌, ◌≡◌, refl, sym, ap, ◌∙◌, true, false, ◌&&◌, Bool-cases, inl, inr,
  if◌then◌else◌, ltb, leb, ◌==◌, [], ◌∷◌, ◌++◌, append-nil, take, drop, arith,
}
use tiny_mqtt.Vec.{
  Vec, copy, vec_grow, make_room, vec_push_back, vec_pop_back, vec_insert, vec_erase, vec_set,
  vec_reserve, vec_resize, vec_extend,
}
use tiny_mqtt.Vec.Elements.{listed, elements, take-listed, drop-listed, listed_middle}

module _ {ℓ} {A : Type ℓ} where
  -- The elements are inside the memory.
  abbrev pub IsVec : Vec A → Type 0
  IsVec v = v.size ≤ v.cap

  copy_before : (to n j : ℕ) (src dst : ℕ → A) → j < to → copy to src n dst j ≡ dst j
  unfolding copy
  copy_before to n j src dst lt = let e : leb to j ≡ false = ground arith in rw (e) refl

  copy_after : (to n j : ℕ) (src dst : ℕ → A) → to + n ≤ j → copy to src n dst j ≡ dst j
  unfolding copy
  copy_after to n j src dst le =
      let e : (leb to j && ltb j (to + n)) ≡ false = ground arith in rw (e) refl

  copy_inside : (to n i j : ℕ) (src dst : ℕ → A) → j ≡ to + i → i < n → copy to src n dst j ≡ src i
  unfolding copy
  copy_inside to n i j src dst eq lt =
      let e : (leb to j && ltb j (to + n)) ≡ true = ground arith in rw (e) (ap src (omega arith))

  pub size-make_room : (v : Vec A) → (make_room v).size ≡ v.size
  unfolding vec_grow
  size-make_room v = elim (Bool-cases (leb v.cap v.size)) [
    | inl e ↦ rw (e) refl
    | inr e ↦ rw (e) refl
  ]

  elems-make_room : (v : Vec A) → (make_room v).elems ≡ v.elems
  unfolding vec_grow
  elems-make_room v = elim (Bool-cases (leb v.cap v.size)) [
    | inl e ↦ rw (e) refl
    | inr e ↦ rw (e) refl
  ]

  pub make_room-cap : (v : Vec A) → IsVec v → v.size < (make_room v).cap
  unfolding vec_grow
  make_room-cap v ok = elim (Bool-cases (leb v.cap v.size)) [
    | inl e ↦ elim (Bool-cases (ltb v.cap 8)) [
      | inl f ↦ rw (e, f) (ground arith)
      | inr f ↦ rw (e, f) (ground arith)
    ]
    | inr e ↦ rw (e) (ground arith)
  ]

  pub elements-push_back :
      (x : A) (v : Vec A) → elements (vec_push_back x v) ≡ elements v ++ (x ∷ [])
  unfolding vec_push_back listed
  elements-push_back x v =
      rw (size-make_room v, elems-make_room v)
        (listed_middle v.size 1 0 (suc v.size) (copy v.size (λ i. x) 1 v.elems) v.elems v.elems
          (λ i. x) (omega arith) (λ i lt. copy_before v.size 1 i (λ k. x) v.elems lt)
          (λ i lt. copy_inside v.size 1 i (v.size + i) (λ k. x) v.elems refl lt)
          (λ i lt. absurd (omega arith)))

  pub elements-insert :
      (index : ℕ) (x : A) (v : Vec A)
      → elements (vec_insert index x v).1 ≡ (
          if ltb v.size index
          then elements v
          else take index (elements v) ++ (x ∷ drop index (elements v)))
  unfolding vec_insert listed
  elements-insert index x v = elim (Bool-cases (ltb v.size index)) [
    | inl e ↦ rw (e) refl
    | inr e ↦
        let b = v.size - index in
        let src : ℕ → A = λ i. v.elems (index + i) in
        let moved = copy (suc index) src b v.elems in
        let fits : v.size ≡ index + b = ground arith in
        rw
          (
            e,
            size-make_room v,
            elems-make_room v,
            take-listed index b v.size v.elems fits,
            drop-listed index b v.size v.elems fits,
          )
          (listed_middle index 1 b (suc v.size) (copy index (λ i. x) 1 moved) v.elems src (λ i. x)
            (omega arith)
            (λ i lt.
              copy_before index 1 i (λ k. x) moved lt
              ∙ copy_before (suc index) b i src v.elems (omega arith))
            (λ i lt. copy_inside index 1 i (index + i) (λ k. x) moved refl lt)
            (λ i lt.
              copy_after index 1 (index + (1 + i)) (λ k. x) moved (omega arith)
              ∙ copy_inside (suc index) b i (index + (1 + i)) src v.elems (omega arith) lt))
  ]

  pub elements-erase :
      (index : ℕ) (v : Vec A)
      → elements (vec_erase index v).1 ≡ (
          if leb v.size index
          then elements v
          else take index (elements v) ++ drop (suc index) (elements v))
  unfolding vec_erase listed
  elements-erase index v = elim (Bool-cases (leb v.size index)) [
    | inl e ↦ rw (e) refl
    | inr e ↦
        let b = v.size - index - 1 in
        let src : ℕ → A = λ i. v.elems (suc index + i) in
        let fits : v.size ≡ suc index + b = ground arith in
        let fits' : v.size ≡ index + suc b = ground arith in
        rw
          (
            e,
            take-listed index (suc b) v.size v.elems fits',
            drop-listed (suc index) b v.size v.elems fits,
          )
          (listed_middle index 0 b (v.size - 1) (copy index src b v.elems) v.elems src v.elems
            (omega arith) (λ i lt. copy_before index b i src v.elems lt)
            (λ i lt. absurd (omega arith))
            (λ i lt. copy_inside index b i (index + (0 + i)) src v.elems (omega arith) lt))
  ]

  pub elements-set :
      (index : ℕ) (x : A) (v : Vec A)
      → elements (vec_set index x v).1 ≡ (
          if leb v.size index
          then elements v
          else take index (elements v) ++ (x ∷ drop (suc index) (elements v)))
  unfolding vec_set listed
  elements-set index x v = elim (Bool-cases (leb v.size index)) [
    | inl e ↦ rw (e) refl
    | inr e ↦
        let b = v.size - index - 1 in
        let fits : v.size ≡ suc index + b = ground arith in
        let fits' : v.size ≡ index + suc b = ground arith in
        rw
          (
            e,
            take-listed index (suc b) v.size v.elems fits',
            drop-listed (suc index) b v.size v.elems fits,
          )
          (listed_middle index 1 b v.size (copy index (λ i. x) 1 v.elems) v.elems
            (λ i. v.elems (suc index + i)) (λ i. x) (omega arith)
            (λ i lt. copy_before index 1 i (λ k. x) v.elems lt)
            (λ i lt. copy_inside index 1 i (index + i) (λ k. x) v.elems refl lt)
            (λ i lt.
              copy_after index 1 (index + (1 + i)) (λ k. x) v.elems (omega arith)
              ∙ ap v.elems (omega arith)))
  ]

  pub elements-pop_back : (v : Vec A) → elements (vec_pop_back v).1 ≡ take (v.size - 1) (elements v)
  unfolding vec_pop_back
  elements-pop_back v = elim (Bool-cases (v.size == 0)) [
    | inl e ↦
        let none_left : v.size ≡ 0 = ground arith in
        rw (e) (
          sym (take-listed v.size 0 v.size v.elems (omega arith))
          ∙ ap (λ k. take k (elements v)) (omega arith))
    | inr e ↦ rw (e) (sym (take-listed (v.size - 1) 1 v.size v.elems (ground arith)))
  ]

  elems-reserve : (n : ℕ) (v : Vec A) → (vec_reserve n v).elems ≡ v.elems
  unfolding vec_reserve
  elems-reserve n v = elim (Bool-cases (ltb v.cap n)) [ inl e ↦ rw (e) refl | inr e ↦ rw (e) refl ]

  size-reserve : (n : ℕ) (v : Vec A) → (vec_reserve n v).size ≡ v.size
  unfolding vec_reserve
  size-reserve n v = elim (Bool-cases (ltb v.cap n)) [ inl e ↦ rw (e) refl | inr e ↦ rw (e) refl ]

  pub cap-reserve : (n : ℕ) (v : Vec A) → n ≤ (vec_reserve n v).cap
  unfolding vec_reserve
  cap-reserve n v = elim (Bool-cases (ltb v.cap n)) [
    | inl e ↦ rw (e) (omega arith)
    | inr e ↦ rw (e) (ground arith)
  ]

  pub elements-extend : (v w : Vec A) → elements (vec_extend v w) ≡ elements v ++ elements w
  unfolding vec_extend vec_resize listed
  elements-extend v w =
      let n = v.size + w.size in
      let r = vec_reserve n v in
      let d = copy r.size w.elems w.size r.elems in
      rw (elems-reserve n (record r { elems = d }), elems-reserve n v, size-reserve n v)
        (listed_middle v.size w.size 0 n (copy v.size w.elems w.size v.elems) v.elems v.elems
            w.elems (omega arith) (λ i lt. copy_before v.size w.size i w.elems v.elems lt)
            (λ i lt. copy_inside v.size w.size i (v.size + i) w.elems v.elems refl lt)
            (λ i lt. absurd (omega arith))
          ∙ ap (λ r. elements v ++ r) (append-nil (elements w)))
