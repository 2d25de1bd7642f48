-- ===== src/Script.antt =====
-- Code that calls out to Lua: what it called, in order, and the state it leaves, or none where it reads
-- behind the end of a sequence.
use mathlib.Core.List.{append-nil}
use my_sqloo.Base.{Option, none, some, List, [], ◌∷◌, ◌++◌, ◌≡◌, ◌∙◌, refl, ap}

abbrev pub Script : Type 0 → Type 0 → Type 0
Script E H = H → Option (List E × H)

module _ {E H : Type 0} where
  abbrev pub skip : Script E H
  skip h = some ([], h)

  -- A change that calls nothing.
  abbrev pub silently : (H → H) → Script E H
  silently f h = some ([], f h)

  unfoldable pub called_before : List E → Option (List E × H) → Option (List E × H)
  called_before es none = none
  called_before es (some (es', h)) = some (es ++ es', h)

  unfoldable pub run_after : Script E H → Option (List E × H) → Option (List E × H)
  run_after q none = none
  run_after q (some (es, h)) = called_before es (q h)

  infixr 20 ◌then_run◌
  abbrev pub ◌then_run◌ : Script E H → Script E H → Script E H
  (p then_run q) h = run_after q (p h)

  -- The script for each item, in order.
  unfoldable pub run_each {ℓ} : {A : Type ℓ} → (A → Script E H) → List A → Script E H
  run_each f [] = skip
  run_each f (x ∷ xs) = f x then_run run_each f xs

  pub then_run_some :
      (p q : Script E H) (h h' last : H) (es es' : List E)
      → p h ≡ some (es, h')
      → q h' ≡ some (es', last)
      → (p then_run q) h ≡ some (es ++ es', last)
  unfolding run_after called_before
  then_run_some p q h h' last es es' e e' = rw (e, run_after) (rw e' refl)

  pub then_silently :
      (p : Script E H) (f : H → H) (h mid : H) (es : List E)
      → p h ≡ some (es, mid)
      → (p then_run silently f) h ≡ some (es, f mid)
  then_silently p f h mid es e =
      then_run_some p (silently f) h mid (f mid) es [] e refl
      ∙ ap (λ calls. some (calls, f mid)) (append-nil es)
