-- ===== src/Outcome.antt =====
-- Calls that may throw. What was written before a throw stays written, so the state comes back with
-- an exception too.
use my_sqloo.Base.{ℕ, ◌⊎◌, inl, inr, ◌≡◌, refl, String, Bool, true, false}

-- `MySQLException`, any other `std::exception`, and a loop of the model that ran out of fuel.
pub data Exception : Type 0 where
  sql_error : ℕ → String → Exception
  std_error : String → Exception
  out_of_fuel : Exception

pub data Outcome (A : Type 0) : Type 0 where
  ok : A → Outcome A
  throw : Exception → Outcome A

pub Outcome-cases :
    {A : Type 0} (r : Outcome A) → ((a : A) × (r ≡ ok a)) ⊎ ((e : Exception) × (r ≡ throw e))
Outcome-cases (ok a) = inl (a, refl)
Outcome-cases (throw e) = inr (e, refl)

abbrev pub Action : Type 0 → Type 0 → Type 0
Action S A = S → Outcome A × S

module _ {S A : Type 0} where
  abbrev pub pure : A → Action S A
  pure a s = (ok a, s)

  abbrev pub raise : Exception → Action S A
  raise e s = (throw e, s)

  -- `try { m } catch (...) { handler }`
  abbrev pub catch : Action S A → (Exception → Action S A) → Action S A
  catch m handler s = let (r, s') = m s in elim r [ ok a ↦ (ok a, s') | throw e ↦ handler e s' ]

infixl 5 ◌>>=◌ ◌>>◌
abbrev pub ◌>>=◌ : {S A B : Type 0} → Action S A → (A → Action S B) → Action S B
◌>>=◌ m f s = let (r, s') = m s in elim r [ ok a ↦ f a s' | throw e ↦ (throw e, s') ]

abbrev pub ◌>>◌ : {S B : Type 0} → Action S (Unit {0}) → Action S B → Action S B
m >> k = m >>= λ _. k

abbrev pub modify : {S : Type 0} → (S → S) → Action S (Unit {0})
modify f s = (ok tt, f s)

abbrev pub gets : {S A : Type 0} → (S → A) → Action S A
gets f s = (ok (f s), s)

-- `do … while (more)`, where `m` is the loop from the next round on.
unfoldable pub again : {S : Type 0} → Action S (Unit {0}) → Bool → Action S (Unit {0})
again m true = m
again m false = pure tt

-- A member function that may throw a `MySQLOOException`, which becomes a Lua error.
pub data Checked (A : Type 0) : Type 0 where
  done : A → Checked A
  thrown : String → Checked A
