-- ===== src/Statements/History.antt =====
-- Any history of the calls of src/mysql/Database.cpp that cache, free and close statements.
use my_sqloo.Base.{
  ℕ, ◌+◌, ◌≤◌, ◌≡◌, refl, sym, ap, ◌∙◌, Option, List, [], ◌∷◌, ◌++◌, arith, count, count-append,
}
use my_sqloo.Client.{Client}
use my_sqloo.Objects.{State}
use my_sqloo.Statements.{
  cache_statement, free_statement, close_all, free_unused_statements, free_cached_statements,
}
use my_sqloo.Statements.Ownership.{
  stmt_of, owned, Inv, count-owned-cache_statement, count-owned-free_statement, cache_statement-Inv,
  free_statement-Inv, free_statement-world, cache_statement-world,
}
use my_sqloo.Statements.Closing.{
  close_all-append, free_cached_statements_lem, free_cached_statements-Inv,
  free_unused_statements-Inv, free_unused_statements_lem,
}

-- One call of the handle functions.
pub data Call : Type 0 where
  caches : Option ℕ → Call
  frees : Option ℕ → Call
  frees_unused frees_cached : Call

module _ (C : Client) where
  open C use {World}

  abbrev pub step : Call → State World → State World
  step (caches o) s = (cache_statement o s).1
  step (frees o) s = free_statement o s
  step frees_unused s = free_unused_statements C s
  step frees_cached s = free_cached_statements C s

  -- The statements that a call hands to the database, and those that it closes.
  abbrev pub taken : Call → List ℕ
  taken (caches o) = stmt_of o
  taken _ = []

  abbrev pub closed : Call → State World → List ℕ
  closed (caches o) s = []
  closed (frees o) s = []
  closed frees_unused s = s.db.freed_statements
  closed frees_cached s = owned s

  abbrev pub run : List Call → State World → State World
  run [] s = s
  run (c ∷ cs) s = run cs (step c s)

  abbrev pub all_taken : List Call → List ℕ
  all_taken [] = []
  all_taken (c ∷ cs) = taken c ++ all_taken cs

  abbrev pub all_closed : List Call → State World → List ℕ
  all_closed [] s = []
  all_closed (c ∷ cs) s = closed c s ++ all_closed cs (step c s)

  abbrev pub Accounts : State World → List ℕ → List ℕ → State World → Type 0
  Accounts s new gone s' =
      (a : ℕ) → count a new + count a (owned s) ≡ count a gone + count a (owned s')

  abbrev pub Fresh : State World → List ℕ → Type 0
  Fresh s new = (a : ℕ) → count a new + count a (owned s) ≤ 1

  -- What one call does to the statements that are owned and closed.
  record StepLaw (c : Call) (s : State World) : Type 0 where
    pub inv : Inv (step c s)
    pub world : (step c s).world ≡ close_all C (closed c s) s.world
    pub accounts : Accounts s (taken c) (closed c s) (step c s)

  step_law : (c : Call) (s : State World) → Inv s → Fresh s (taken c) → StepLaw c s
  unfolding close_all
  step_law (caches o) s v once = record {
    inv = cache_statement-Inv o s v once;
    world = cache_statement-world o s;
    accounts = λ a. omega (arith, count-owned-cache_statement o s a v);
  }
  step_law (frees o) s v once = record {
    inv = free_statement-Inv o s v;
    world = free_statement-world o s;
    accounts = λ a. omega (arith, count-owned-free_statement o s a v);
  }
  step_law frees_unused s v once = record {
    inv = free_unused_statements-Inv C s v;
    world = (free_unused_statements_lem C s).0;
    accounts = λ a. omega (arith, (free_unused_statements_lem C s).1 a);
  }
  step_law frees_cached s v once = record {
    inv = free_cached_statements-Inv C s v;
    world = (free_cached_statements_lem C s v).0;
    accounts = λ a. rw (free_cached_statements_lem C s v).1 (omega arith);
  }

  later-Fresh :
      (c : Call) (cs : List Call) (s : State World)
      → StepLaw c s
      → Fresh s (all_taken (c ∷ cs))
      → Fresh (step c s) (all_taken cs)
  later-Fresh c cs s law once a =
      omega (arith, law.accounts a, once a, count-append a (taken c) (all_taken cs))

  run_law :
      (cs : List Call) (s : State World)
      → Inv s
      → Fresh s (all_taken cs)
      → ((run cs s).world ≡ close_all C (all_closed cs s) s.world)
        × Accounts s (all_taken cs) (all_closed cs s) (run cs s)
  unfolding close_all
  run_law [] s v once = (refl, λ a. refl)
  run_law (c ∷ cs) s v once =
      let law =
        step_law c s v (λ a. omega (arith, once a, count-append a (taken c) (all_taken cs))) in
      let (world, accounts) = run_law cs (step c s) law.inv (later-Fresh c cs s law once) in
      (
        world
            ∙ ap (close_all C (all_closed cs (step c s))) law.world
            ∙ sym (close_all-append C (closed c s) (all_closed cs (step c s)) s.world),
        λ a. omega (
          arith,
          accounts a,
          law.accounts a,
          count-append a (taken c) (all_taken cs),
          count-append a (closed c s) (all_closed cs (step c s)),
        ),
      )

  -- From a state in which the cached handles are distinct and no statement is owned twice, over any
  -- calls that hand over further distinct statements: the calls close exactly the statements of
  -- `all_closed`, none of them twice, and every statement that was owned or handed over is either
  -- closed or still owned.
  pub run_closes_once :
      (cs : List Call) (s : State World)
      → Inv s
      → Fresh s (all_taken cs)
      → ((run cs s).world ≡ close_all C (all_closed cs s) s.world)
        × ((a : ℕ)
            → (count a (all_closed cs s) ≤ 1)
              × (count a (all_taken cs) + count a (owned s)
                  ≡ count a (all_closed cs s) + count a (owned (run cs s))))
  run_closes_once cs s v once =
      let (world, accounts) = run_law cs s v once in
      (world, λ a. (omega (arith, accounts a, once a), accounts a))
