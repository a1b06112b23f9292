-- ===== src/Store/Places.antt =====
-- Lists cut at a place, for the queue of the store.
use tiny_mqtt.Prelude.{
  ℕ, zero, suc, ◌≤◌, ◌≡◌, refl, ap, List, [], ◌∷◌, ◌++◌, length, take, drop, map, arith,
}

module _ {A : Type 0} where
  pub take-append_le : (n : ℕ) (xs ys : List A) → n ≤ length xs → take n (xs ++ ys) ≡ take n xs
  take-append_le zero xs ys h = refl
  take-append_le (suc n) [] ys h = absurd (omega arith)
  take-append_le (suc n) (x ∷ xs) ys h = ap (λ r. x ∷ r) (take-append_le n xs ys (omega arith))

  pub drop-append_le :
      (n : ℕ) (xs ys : List A) → n ≤ length xs → drop n (xs ++ ys) ≡ drop n xs ++ ys
  drop-append_le zero xs ys h = refl
  drop-append_le (suc n) [] ys h = absurd (omega arith)
  drop-append_le (suc n) (x ∷ xs) ys h = drop-append_le n xs ys (omega arith)

  module _ {B : Type 0} (f : A → B) where
    pub map-append : (xs ys : List A) → map f (xs ++ ys) ≡ map f xs ++ map f ys
    map-append [] ys = refl
    map-append (x ∷ xs) ys = ap (λ r. f x ∷ r) (map-append xs ys)

    pub length-map-take : (n : ℕ) (xs : List A) → n ≤ length xs → length (map f (take n xs)) ≡ n
    length-map-take zero xs h = refl
    length-map-take (suc n) [] h = absurd (omega arith)
    length-map-take (suc n) (x ∷ xs) h = ap (λ r. suc r) (length-map-take n xs (omega arith))
