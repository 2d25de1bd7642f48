-- ===== src/Total.antt =====
-- Total correctness of calls that may throw: from a state with the precondition the fuel is not used up,
-- and a call that returns leaves a state with the postcondition.
use my_sqloo.Preserve.{catch_thrown}
use my_sqloo.Base.{ap, subst, ◌∙◌, ◌≡◌, ◌≢◌, Bool, true, false, inl, inr}
use my_sqloo.Outcome.{Action, Exception, Outcome-cases, ok, throw, out_of_fuel, catch, again, ◌>>=◌}

module _ {S : Type 0} where
  pub record Total {A : Type 0} (P : S → Type 0) (m : Action S A) (Q : A → S → Type 0)
      : Type 0 where
    pub fueled : (s : S) → P s → (m s).0 ≢ throw out_of_fuel
    pub returned : (s : S) → P s → (a : A) → (m s).0 ≡ ok a → Q a (m s).1

  abbrev pub Anything : {A : Type 0} → A → S → Type 0
  Anything a s = Unit

  abbrev pub Anywhere : S → Type 0
  Anywhere s = Unit

  -- A call that uses up no fuel, whatever the state.
  abbrev pub Ends : {A : Type 0} → Action S A → Type 0
  Ends m = Total Anywhere m Anything

  pub >>=-returned :
      {A B : Type 0} (m : Action S A) (f : A → Action S B) (s : S) {a : A}
      → (m s).0 ≡ ok a
      → (m >>= f) s ≡ f a (m s).1
  >>=-returned m f s h = rw (h, ◌>>=◌)

  pub >>=-thrown :
      {A B : Type 0} (m : Action S A) (f : A → Action S B) (s : S) {e : Exception}
      → (m s).0 ≡ throw e
      → (m >>= f) s ≡ (throw e, (m s).1)
  >>=-thrown m f s h = rw (h, ◌>>=◌)

  catch-returned :
      {A : Type 0} (m : Action S A) (g : Exception → Action S A) (s : S) {a : A}
      → (m s).0 ≡ ok a
      → catch m g s ≡ (ok a, (m s).1)
  catch-returned m g s h = rw (h, catch)

  pub Total->>= :
      {A B : Type 0} (P : S → Type 0) (m : Action S A) (Q : A → S → Type 0) (f : A → Action S B)
      (R : B → S → Type 0)
      → Total P m Q
      → ((a : A) → Total (Q a) (f a) R)
      → Total P (m >>= f) R
  Total->>= P m Q f R hm hf = record {
    fueled = λ s p. elim (Outcome-cases (m s).0) [
      | inl (a, e) ↦
          let next = (hf a).fueled (m s).1 (hm.returned s p a e) in rw (>>=-returned m f s e) next
      | inr (x, e) ↦
          let fuel = hm.fueled s p in
          rw (>>=-thrown m f s e) (λ k. let same : x ≡ out_of_fuel = cc in fuel (e ∙ ap throw same))
    ];
    returned = λ s p b. elim (Outcome-cases (m s).0) [
      | inl (a, e) ↦
          let next = (hf a).returned (m s).1 (hm.returned s p a e) b in
          rw (>>=-returned m f s e) next
      | inr (x, e) ↦ rw (>>=-thrown m f s e) (λ k. cc)
    ];
  }

  -- A handler is not called on the end of the fuel.
  pub Total-catch :
      {A : Type 0} (P : S → Type 0) (m : Action S A) (Q : A → S → Type 0)
      (g : Exception → Action S A)
      → Total P m Q
      → ((e : Exception) → e ≢ out_of_fuel → Total Anywhere (g e) Q)
      → Total P (catch m g) Q
  Total-catch P m Q g hm hg = record {
    fueled = λ s p. elim (Outcome-cases (m s).0) [
      | inl (a, e) ↦ rw (catch-returned m g s e) (λ k. cc)
      | inr (x, e) ↦
          let fuel = hm.fueled s p in
          let handled = hg x (λ k. fuel (e ∙ ap throw k)) in
          rw (catch_thrown m g x s e) (handled.fueled (m s).1 tt)
    ];
    returned = λ s p b. elim (Outcome-cases (m s).0) [
      | inl (a, e) ↦
          let kept = hm.returned s p a e in
          rw (catch-returned m g s e)
            (λ k. let same : a ≡ b = cc in subst (λ c. Q c (m s).1) same kept)
      | inr (x, e) ↦
          let fuel = hm.fueled s p in
          let handled = hg x (λ k. fuel (e ∙ ap throw k)) in
          rw (catch_thrown m g x s e) (handled.returned (m s).1 tt b)
    ];
  }

  -- A weaker promise from more.
  pub Total-weaken :
      {A : Type 0} (P P' : S → Type 0) (m : Action S A) (Q Q' : A → S → Type 0)
      → ((s : S) → P' s → P s)
      → ((a : A) (s : S) → Q a s → Q' a s)
      → Total P m Q
      → Total P' m Q'
  Total-weaken P P' m Q Q' hp hq h = record {
    fueled = λ s p. h.fueled s (hp s p);
    returned = λ s p a e. hq a (m s).1 (h.returned s (hp s p) a e);
  }

  pub Total-again :
      (P : S → Type 0) (m : Action S (Unit {0})) (Q : Bool → S → Type 0) (more : Bool)
      → ((s : S) → Q true s → P s)
      → Total P m Anything
      → Total (Q more) (again m more) Anything
  unfolding again
  Total-again P m Q true hp h = Total-weaken P (Q true) m Anything Anything hp (λ a s q. q) h
  Total-again P m Q false hp h = record { fueled = λ s q k. cc; returned = λ s q a e. tt }
