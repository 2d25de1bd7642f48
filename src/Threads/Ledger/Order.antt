-- ===== src/Threads/Ledger/Order.antt =====
-- Lists that are others with entries left out, and the entries of a queue that `removeIf` of
-- src/BlockingQueue.h keeps and removes.
use my_sqloo.Base.{
  ℕ, ◌+◌, ◌≡◌, Bool, not, List, [], ◌∷◌, ◌++◌, arith, if◌then◌else◌, count, ◌==◌, Bool-cases, inl,
  inr,
}
use my_sqloo.BlockingQueue.{erase_if}
use my_sqloo.IQuery.{has_data}
use my_sqloo.IQuery.Abort.{data_of}
use my_sqloo.Objects.{Entry, pill, pair}

-- The first list is the second without some of its entries, in the same order.
pub data Subsequence {A : Type 0} : List A → List A → Type 0 where
  nothing : Subsequence [] []
  keep : (x : A) {xs ys : List A} → Subsequence xs ys → Subsequence (x ∷ xs) (x ∷ ys)
  skip : (y : A) {xs ys : List A} → Subsequence xs ys → Subsequence xs (y ∷ ys)

module _ {A : Type 0} where
  pub Subsequence-refl : (xs : List A) → Subsequence xs xs
  Subsequence-refl [] = nothing
  Subsequence-refl (x ∷ xs) = keep x (Subsequence-refl xs)

  pub Subsequence-trans :
      {ys zs : List A} → Subsequence ys zs → {xs : List A} → Subsequence xs ys → Subsequence xs zs
  Subsequence-trans nothing s = s
  Subsequence-trans (skip z t) s = skip z (Subsequence-trans t s)
  Subsequence-trans (keep y t) (keep x s) = keep x (Subsequence-trans t s)
  Subsequence-trans (keep y t) (skip y' s) = skip y (Subsequence-trans t s)

  pub Subsequence-append :
      {xs ys : List A} (zs : List A) → Subsequence xs ys → Subsequence (xs ++ zs) (ys ++ zs)
  Subsequence-append zs nothing = Subsequence-refl zs
  Subsequence-append zs (keep x s) = keep x (Subsequence-append zs s)
  Subsequence-append zs (skip y s) = skip y (Subsequence-append zs s)

  pub append-Subsequence :
      (ts : List A) {xs ys : List A} → Subsequence xs ys → Subsequence (ts ++ xs) (ts ++ ys)
  append-Subsequence [] s = s
  append-Subsequence (t ∷ ts) s = keep t (append-Subsequence ts s)

  pub erase_if-Subsequence : (f : A → Bool) (xs : List A) → Subsequence (erase_if f xs) xs
  unfolding erase_if
  erase_if-Subsequence f [] = nothing
  erase_if-Subsequence f (x ∷ xs) =
      let rest = erase_if-Subsequence f xs in
      elim (Bool-cases (f x)) [ inl e ↦ rw (e) (skip x rest) | inr e ↦ rw (e) (keep x rest) ]

-- Each entry is kept or removed.
pub count-kept :
    (f : Entry → Bool) (a : ℕ) (es : List Entry)
    → count a (data_of es)
      ≡ count a (data_of (erase_if f es)) + count a (data_of (erase_if (λ e. not (f e)) es))
unfolding erase_if
count-kept f a [] = omega arith
count-kept f a (pill ∷ es) = ground (arith, count-kept f a es)
count-kept f a (pair query d ∷ es) = ground (arith, count-kept f a es)

-- No entry with the data is kept, and no other is removed.
pub count-without :
    (d a : ℕ) (es : List Entry)
    → count a (data_of (erase_if (has_data d) es)) ≡ (if d == a then 0 else count a (data_of es))
unfolding erase_if has_data
count-without d a [] = ground arith
count-without d a (pill ∷ es) = count-without d a es
count-without d a (pair query b ∷ es) = ground (arith, count-without d a es)
