-- ===== src/Tests/Hooks.antt =====
-- The think hook at a concrete input.
use my_sqloo.Base.{
  ℕ, zero, suc, ◌≡◌, refl, ap, Option, none, some, List, [], ◌∷◌, ◌++◌, length, arith, ◌==◌,
  if◌then◌else◌,
}
use my_sqloo.LuaDatabase.Hooks.{Slots}
use my_sqloo.LuaTransaction.{Registry}

-- The registry as the list of its slots.
abbrev slot_at : ℕ → List (Option ℕ) → Option ℕ
slot_at r [] = none
slot_at zero (o ∷ os) = o
slot_at (suc r) (o ∷ os) = slot_at r os

abbrev clear_at : ℕ → List (Option ℕ) → List (Option ℕ)
clear_at x [] = []
clear_at zero (o ∷ os) = none ∷ os
clear_at (suc x) (o ∷ os) = o ∷ clear_at x os

abbrev or_zero : Option ℕ → ℕ
or_zero none = 0
or_zero (some t) = t

slot_at-end : (w : List (Option ℕ)) → slot_at (length w) w ≡ none
slot_at-end [] = refl
slot_at-end (o ∷ os) = slot_at-end os

slot_at-append :
    (t : ℕ) (w : List (Option ℕ)) (r : ℕ)
    → slot_at r (w ++ (some t ∷ [])) ≡ (if length w == r then some t else slot_at r w)
slot_at-append t [] zero = refl
slot_at-append t [] (suc r) = ground arith
slot_at-append t (o ∷ os) zero = ground arith
slot_at-append t (o ∷ os) (suc r) = ground (arith, slot_at-append t os r)

slot_at-clear_at :
    (x : ℕ) (w : List (Option ℕ)) (r : ℕ)
    → slot_at r (clear_at x w) ≡ (if x == r then none else slot_at r w)
slot_at-clear_at x [] r = ground arith
slot_at-clear_at zero (o ∷ os) zero = refl
slot_at-clear_at zero (o ∷ os) (suc r) = ground arith
slot_at-clear_at (suc x) (o ∷ os) zero = ground arith
slot_at-clear_at (suc x) (o ∷ os) (suc r) = ground (arith, slot_at-clear_at x os r)

abbrev slot_registry : Registry ℕ (List (Option ℕ))
slot_registry = record {
  reference_create = λ t w. (length w, w ++ (some t ∷ []));
  reference_push = λ r w. or_zero (slot_at r w);
  reference_free = λ x w. clear_at x w;
}

abbrev slot_laws : Slots slot_registry
slot_laws = record {
  slot = slot_at;
  fresh = λ t w. slot_at-end w;
  created = λ t w r. slot_at-append t w r;
  freed = λ x w r. slot_at-clear_at x w r;
  pushed = λ r t w h. ap or_zero h;
}

-- Two databases are alive; a `think` frees reference 0, which stands for a database.
abbrev alive : List (Option ℕ) → Option (List ℕ)
alive w = some (4 ∷ 5 ∷ [])

abbrev frees_own : ℕ → List (Option ℕ) → List (Option ℕ)
frees_own table w = clear_at 0 w
