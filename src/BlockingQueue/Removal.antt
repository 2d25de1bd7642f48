-- ===== src/BlockingQueue/Removal.antt =====
-- `removeIf` of src/BlockingQueue.h.
use my_sqloo.Base.{
  ◌≤◌, ◌<◌, ◌≡◌, ◌↔◌, ◌⊎◌, inl, inr, ◌∙◌, ap, refl, Bool, true, false, List, [], ◌∷◌, ◌++◌, length,
  All, Any, arith,
}
use my_sqloo.BlockingQueue.{erase_if, remove_if}

module _ {ℓ} {T : Type ℓ} (func : T → Bool) where
  erase_if-All : (q : List T) → All (λ x. func x ≡ false) (erase_if func q)
  unfolding erase_if
  erase_if-All [] = tt
  erase_if-All (x ∷ xs) = ground (arith, erase_if-All xs)

  length-erase_if-le : (q : List T) → length (erase_if func q) ≤ length q
  unfolding erase_if
  length-erase_if-le [] = omega arith
  length-erase_if-le (x ∷ xs) = ground (arith, length-erase_if-le xs)

  length-erase_if-lt : (q : List T) → Any func q → length (erase_if func q) < length q
  unfolding erase_if
  length-erase_if-lt [] h = absurd h
  length-erase_if-lt (x ∷ xs) h = ground (arith, length-erase_if-lt xs, length-erase_if-le xs)

  pub erase_if_none : (q : List T) → All (λ x. func x ≡ false) q → erase_if func q ≡ q
  unfolding erase_if
  erase_if_none [] h = refl
  erase_if_none (x ∷ xs) h = ground (arith, erase_if_none xs)

  pub Any-or-All : (q : List T) → Any func q ⊎ All (λ x. func x ≡ false) q
  Any-or-All [] = inr tt
  Any-or-All (x ∷ xs) = ground (arith, Any-or-All xs)

  All-Any : (q : List T) → All (λ x. func x ≡ false) q → ¬ (Any func q)
  All-Any [] h a = a
  All-Any (x ∷ xs) h a = ground (arith, All-Any xs h.1)

  erase_if-append :
      (xs ys : List T) → erase_if func (xs ++ ys) ≡ erase_if func xs ++ erase_if func ys
  unfolding erase_if
  erase_if-append [] ys = refl
  erase_if-append (x ∷ xs) ys = ground (arith, erase_if-append xs ys)

  -- No entry that is left satisfies the test. The flag is true exactly when some entry did, and
  -- if none did the queue is as it was.
  pub remove_if_lem :
      (q : List T)
      → All (λ x. func x ≡ false) (remove_if func q).0
        × (((remove_if func q).1 ≡ true) ↔ Any func q)
        × ((remove_if func q).1 ≡ false → (remove_if func q).0 ≡ q)
  unfolding remove_if
  remove_if_lem q = elim (Any-or-All q) [
    | inl h ↦
        let lt = length-erase_if-lt q h in
        (erase_if-All q, ((λ _. h), (λ _. ground arith)), (λ k. ground arith))
    | inr h ↦
        let e = ap length (erase_if_none q h) in
        (
          erase_if-All q,
          ((λ k. ground arith), (λ a. absurd (All-Any q h a))),
          (λ _. erase_if_none q h),
        )
  ]

  -- An entry that does not satisfy the test stays, and it stays between what is left of the entries before
  -- it and what is left of those behind it.
  pub remove_if-append :
      (xs ys : List T) (x : T)
      → func x ≡ false
      → (remove_if func (xs ++ x ∷ ys)).0 ≡ (remove_if func xs).0 ++ x ∷ (remove_if func ys).0
  unfolding remove_if erase_if
  remove_if-append xs ys x e =
      erase_if-append xs (x ∷ ys) ∙ ap (λ zs. erase_if func xs ++ zs) (rw (e) refl)
