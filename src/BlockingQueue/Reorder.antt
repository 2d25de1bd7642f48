-- ===== src/BlockingQueue/Reorder.antt =====
-- `swapToFrontIf` of src/BlockingQueue.h.
use mathlib.Core.List.{Perm}
use mathlib.Core.List.Perm
use native.Mathlib.Decide.{ℕ_discrete}
use my_sqloo.Base.{
  ◌∙◌, ℕ, zero, suc, ◌≡◌, ◌≢◌, refl, Bool, true, some, List, [], ◌∷◌, length, get_elem?, set, Any,
  arith, inl, inr, Option-cases, Bool-cases, ap,
}
use my_sqloo.BlockingQueue.{find_if, iter_swap, swap_to_front_if}

module _ {ℓ} {T : Type ℓ} where
  set-perm :
      (x y : T) (xs : List T) (i : ℕ) → get_elem? xs i ≡ some y → Perm (x ∷ xs) (y ∷ set xs i x)
  set-perm x y [] i h = cc
  set-perm x y (z ∷ zs) zero h = let e : z ≡ y = cc in rw e (Perm.swap y x zs)
  set-perm x y (z ∷ zs) (suc i) h =
      Perm.trans (Perm.swap z x zs)
        (Perm.trans (Perm.cons z (set-perm x y zs i h)) (Perm.swap y z (set zs i x)))

  iter_swap-perm : (pos : ℕ) (q : List T) → Perm q (iter_swap pos q)
  unfolding iter_swap
  iter_swap-perm pos [] = Perm.nil
  iter_swap-perm zero (x ∷ xs) = Perm.refl (x ∷ xs)
  iter_swap-perm (suc pos) (x ∷ xs) = elim (Option-cases (get_elem? xs pos)) [
    | inl e ↦ rw (e, iter_swap) (Perm.refl (x ∷ xs))
    | inr (y, e) ↦ rw (e, iter_swap) (set-perm x y xs pos e)
  ]

  find_if_here :
      (func : T → Bool) (q : List T)
      → find_if func q ≢ length q
      → (y : T) × (get_elem? q (find_if func q) ≡ some y) × (func y ≡ true)
  unfolding find_if
  find_if_here func [] h = absurd (h refl)
  find_if_here func (x ∷ xs) h = elim (Bool-cases (func x)) [
    | inl e ↦ rw e (x, refl, e)
    | inr e ↦ rw e (find_if_here func xs (λ k. h (rw e (ap suc k))))
  ]

  find_if-Any : (func : T → Bool) (q : List T) → Any func q → find_if func q ≢ length q
  unfolding find_if
  find_if-Any func [] h = absurd h
  find_if-Any func (x ∷ xs) h = ground (arith, find_if-Any func xs)

  iter_swap_head :
      (pos : ℕ) (q : List T) (y : T)
      → get_elem? q pos ≡ some y
      → (rest : List T) × (iter_swap pos q ≡ y ∷ rest)
  unfolding iter_swap
  iter_swap_head pos [] y h = cc
  iter_swap_head zero (x ∷ xs) y h = (xs, ground arith)
  iter_swap_head (suc pos) (x ∷ xs) y h = (set xs pos x, rw (h, iter_swap))

  iter_swap-zero : (q : List T) → iter_swap 0 q ≡ q
  unfolding iter_swap
  iter_swap-zero [] = refl
  iter_swap-zero (x ∷ xs) = refl

  swap_to_front_if-iter_swap :
      (func : T → Bool) (q : List T)
      → find_if func q ≢ length q
      → (swap_to_front_if func q).0 ≡ iter_swap (find_if func q) q
  unfolding swap_to_front_if
  swap_to_front_if-iter_swap func q h = ground (arith, iter_swap-zero q)

  swap_to_front_if-missing :
      (func : T → Bool) (q : List T) → find_if func q ≡ length q → (swap_to_front_if func q).0 ≡ q
  unfolding swap_to_front_if
  swap_to_front_if-missing func q h = ground arith

  -- Swapping loses no entry and makes none up.
  pub swap_to_front_if-perm : (func : T → Bool) (q : List T) → Perm q (swap_to_front_if func q).0
  swap_to_front_if-perm func q = elim (ℕ_discrete (find_if func q) (length q)) [
    | yes e ↦ rw (swap_to_front_if-missing func q e) (Perm.refl q)
    | no h ↦ rw (swap_to_front_if-iter_swap func q h) (iter_swap-perm (find_if func q) q)
  ]

  -- If some entry satisfies the test, then the next entry that is taken does.
  pub swap_to_front_if_front :
      (func : T → Bool) (q : List T)
      → Any func q
      → (y : T) × (rest : List T) × ((swap_to_front_if func q).0 ≡ y ∷ rest) × (func y ≡ true)
  swap_to_front_if_front func q h =
      let missing : find_if func q ≢ length q = find_if-Any func q h in
      let (y, found, holds) = find_if_here func q missing in
      let (rest, e) = iter_swap_head (find_if func q) q y found in
      (y, rest, swap_to_front_if-iter_swap func q missing ∙ e, holds)
