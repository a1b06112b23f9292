-- ===== src/Vec/Elements.antt =====
-- The elements of a vector as a list.
use tiny_mqtt.Prelude.{
  ℕ, zero, suc, ◌+◌, ◌<◌, ◌≡◌, refl, ap, ◌∙◌, List, [], ◌∷◌, ◌++◌, length, take, drop,
  take-append_le, take-all, drop-append_ge, arith,
}
use tiny_mqtt.Vec.{Vec}

module _ {ℓ} {A : Type ℓ} where
  unfoldable pub listed : ℕ → (ℕ → A) → List A
  listed zero d = []
  listed (suc n) d = d 0 ∷ listed n (λ i. d (suc i))

  abbrev pub elements : Vec A → List A
  elements v = listed v.size v.elems

  pub listed_same : (n : ℕ) (d e : ℕ → A) → ((i : ℕ) → i < n → d i ≡ e i) → listed n d ≡ listed n e
  unfolding listed
  listed_same zero d e same = refl
  listed_same (suc n) d e same =
      rw
        (
          same 0 (omega arith),
          listed_same n (λ i. d (suc i)) (λ i. e (suc i)) (λ i lt. same (suc i) (omega arith)),
        )
        refl

  pub length-listed : (n : ℕ) (d : ℕ → A) → length (listed n d) ≡ n
  unfolding listed
  length-listed zero d = refl
  length-listed (suc n) d = let r = length-listed n (λ i. d (suc i)) in omega arith

  pub listed_split :
      (a b n : ℕ) (d : ℕ → A) → n ≡ a + b → listed n d ≡ listed a d ++ listed b (λ i. d (a + i))
  unfolding listed
  listed_split zero b n d e =
      let same : n ≡ b = omega arith in
      ap (λ k. listed k d) same ∙ listed_same b d (λ i. d (0 + i)) (λ i lt. ap d (omega arith))
  listed_split (suc a) b n d e =
      let same : n ≡ suc (a + b) = omega arith in
      let first = ap (λ r. d 0 ∷ r) (listed_split a b (a + b) (λ i. d (suc i)) refl) in
      let rest =
        listed_same b (λ i. d (suc (a + i))) (λ i. d (suc a + i)) (λ i lt. ap d (omega arith)) in
      ap (λ k. listed k d) same ∙ first ∙ ap (λ r. (d 0 ∷ listed a (λ i. d (suc i))) ++ r) rest

  pub take-listed : (a b n : ℕ) (d : ℕ → A) → n ≡ a + b → take a (listed n d) ≡ listed a d
  take-listed a b n d e =
      ap (take a) (listed_split a b n d e)
      ∙ take-append_le a (listed a d) (listed b (λ i. d (a + i))) (omega (arith, length-listed a d))
      ∙ take-all a (listed a d) (omega (arith, length-listed a d))

  pub drop-listed :
      (a b n : ℕ) (d : ℕ → A) → n ≡ a + b → drop a (listed n d) ≡ listed b (λ i. d (a + i))
  drop-listed a b n d e =
      ap (drop a) (listed_split a b n d e)
      ∙ drop-append_ge a 0 (listed a d) (listed b (λ i. d (a + i)))
          (omega (arith, length-listed a d))

  -- A list with `m` elements from `e` in the middle.
  pub listed_middle :
      (a m b n : ℕ) (d x y e : ℕ → A)
      → n ≡ a + (m + b)
      → ((i : ℕ) → i < a → d i ≡ x i)
      → ((i : ℕ) → i < m → d (a + i) ≡ e i)
      → ((i : ℕ) → i < b → d (a + (m + i)) ≡ y i)
      → listed n d ≡ listed a x ++ (listed m e ++ listed b y)
  listed_middle a m b n d x y e eq before middle after =
      let d' : ℕ → A = λ i. d (a + i) in
      listed_split a (m + b) n d eq
      ∙ rw
          (
            listed_split m b (m + b) d' refl,
            listed_same a d x before,
            listed_same m d' e middle,
            listed_same b (λ i. d' (m + i)) y after,
          )
          refl
