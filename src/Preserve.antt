-- ===== src/Preserve.antt =====
-- Predicates on the state that an action keeps, also when it throws.
use my_sqloo.Base.{◌≡◌, refl, Bool, if◌then◌else◌, true, false}
use my_sqloo.Outcome.{Action, Exception, Outcome, ok, throw, catch, modify, again, ◌>>=◌}

module _ {S : Type 0} where
  abbrev pub Preserves : {A : Type 0} → (S → Type 0) → Action S A → Type 0
  Preserves P m = (s : S) → P s → P (m s).1

  -- What a `do` block or a handler does with the outcome of its first part.
  rest_of : {A B : Type 0} → (A → Action S B) → (Exception → Action S B) → Outcome A → Action S B
  rest_of f g (ok a) = f a
  rest_of f g (throw e) = g e

  rest_of-Preserves :
      {A B : Type 0} (P : S → Type 0) (r : Outcome A) (f : A → Action S B)
      (g : Exception → Action S B)
      → ((a : A) → Preserves P (f a))
      → ((e : Exception) → Preserves P (g e))
      → Preserves P (rest_of f g r)
  unfolding rest_of
  rest_of-Preserves P (ok a) f g hf hg = hf a
  rest_of-Preserves P (throw e) f g hf hg = hg e

  >>=-rest_of :
      {A B : Type 0} (r : Outcome A) (f : A → Action S B) (s : S)
      → rest_of f (λ e t. (throw e, t)) r s ≡ elim r [ ok a ↦ f a s | throw e ↦ (throw e, s) ]
  unfolding rest_of
  >>=-rest_of (ok a) f s = refl
  >>=-rest_of (throw e) f s = refl

  catch-rest_of :
      {A : Type 0} (r : Outcome A) (g : Exception → Action S A) (s : S)
      → rest_of (λ a t. (ok a, t)) g r s ≡ elim r [ ok a ↦ (ok a, s) | throw e ↦ g e s ]
  unfolding rest_of
  catch-rest_of (ok a) g s = refl
  catch-rest_of (throw e) g s = refl

  pub Preserves->>= :
      {A B : Type 0} (P : S → Type 0) (m : Action S A) (f : A → Action S B)
      → Preserves P m
      → ((a : A) → Preserves P (f a))
      → Preserves P (m >>= f)
  Preserves->>= P m f hm hf s p =
      rw (← >>=-rest_of (m s).0 f (m s).1)
        (rest_of-Preserves P (m s).0 f _ hf (λ e t q. q) (m s).1 (hm s p))

  pub Preserves-catch :
      {A : Type 0} (P : S → Type 0) (m : Action S A) (g : Exception → Action S A)
      → Preserves P m
      → ((e : Exception) → Preserves P (g e))
      → Preserves P (catch m g)
  Preserves-catch P m g hm hg s p =
      rw (← catch-rest_of (m s).0 g (m s).1)
        (rest_of-Preserves P (m s).0 _ g (λ a t q. q) hg (m s).1 (hm s p))

  pub Preserves-modify :
      (P : S → Type 0) (f : S → S) → ((s : S) → P s → P (f s)) → Preserves P (modify f)
  Preserves-modify P f h = h

  pub Preserves-if :
      {A : Type 0} (P : S → Type 0) (b : Bool) (m n : Action S A)
      → Preserves P m
      → Preserves P n
      → Preserves P (if b then m else n)
  Preserves-if P true m n hm hn = hm
  Preserves-if P false m n hm hn = hn

  -- A handler runs on what the action threw, in the state that the throw left.
  pub catch_thrown :
      {A : Type 0} (m : Action S A) (g : Exception → Action S A) (e : Exception) (s : S)
      → (m s).0 ≡ throw e
      → catch m g s ≡ g e (m s).1
  catch_thrown m g e s h = rw (h, catch)

  pub Preserves-again :
      (P : S → Type 0) (m : Action S (Unit {0})) (more : Bool)
      → Preserves P m
      → Preserves P (again m more)
  unfolding again
  Preserves-again P m true h = h
  Preserves-again P m false h = λ s p. p
