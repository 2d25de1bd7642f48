-- ===== src/Base/Sets.antt =====
-- A finite set of addresses as a list without repetition, and how often an address is in a list.
use Prim.Native.Nat.{ℕ, suc, ◌+◌, ◌≤◌, ◌<◌}
use mathlib.Core.Path.{◌≡◌, refl}
use mathlib.Core.Bool.{Bool, true, false}
use mathlib.Core.List.{List, [], ◌∷◌, ◌++◌}
use native.Mathlib.Omega.{arith}
use my_sqloo.Base.Tests.{◌==◌, if◌then◌else◌}

abbrev pub count : ℕ → List ℕ → ℕ
count a [] = 0
count a (x ∷ xs) = let rest = count a xs in if x == a then suc rest else rest

abbrev pub contains : ℕ → List ℕ → Bool
contains a [] = false
contains a (x ∷ xs) = let rest = contains a xs in if x == a then true else rest

abbrev pub insert : ℕ → List ℕ → List ℕ
insert a xs = if contains a xs then xs else a ∷ xs

abbrev pub erase : ℕ → List ℕ → List ℕ
erase a [] = []
erase a (x ∷ xs) = let rest = erase a xs in if x == a then rest else x ∷ rest

pub count-append : (a : ℕ) (xs ys : List ℕ) → count a (xs ++ ys) ≡ count a xs + count a ys
count-append a [] ys = omega arith
count-append a (x ∷ xs) ys = ground (arith, count-append a xs ys)

pub contains-count : (a : ℕ) (xs : List ℕ) → contains a xs ≡ true → 0 < count a xs
contains-count a [] h = cc
contains-count a (x ∷ xs) h = ground (arith, contains-count a xs)

pub not_contains-count : (a : ℕ) (xs : List ℕ) → contains a xs ≡ false → count a xs ≡ 0
not_contains-count a [] h = refl
not_contains-count a (x ∷ xs) h = ground (arith, not_contains-count a xs)

pub count_zero : (a : ℕ) (xs : List ℕ) → count a xs ≡ 0 → contains a xs ≡ false
count_zero a [] h = refl
count_zero a (x ∷ xs) h = ground (arith, count_zero a xs)

pub erase_missing : (a : ℕ) (xs : List ℕ) → contains a xs ≡ false → erase a xs ≡ xs
erase_missing a [] h = refl
erase_missing a (x ∷ xs) h = ground (arith, erase_missing a xs)

pub contains-erase_self : (a : ℕ) (xs : List ℕ) → contains a (erase a xs) ≡ false
contains-erase_self a [] = refl
contains-erase_self a (x ∷ xs) = ground (arith, contains-erase_self a xs)

pub count-erase-le : (a b : ℕ) (xs : List ℕ) → count a (erase b xs) ≤ count a xs
count-erase-le a b [] = omega arith
count-erase-le a b (x ∷ xs) = ground (arith, count-erase-le a b xs)

pub contains-erase : (a b : ℕ) (xs : List ℕ) → contains a (erase b xs) ≡ true → contains a xs ≡ true
contains-erase a b [] h = h
contains-erase a b (x ∷ xs) h = ground (arith, contains-erase a b xs)
