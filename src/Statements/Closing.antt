-- ===== src/Statements/Closing.antt =====
-- When the prepared statements of src/mysql/Database.cpp are closed, over any history of the calls
-- that cache, free and close them.
use my_sqloo.Base.{
  ℕ, ◌+◌, ◌≤◌, ◌≡◌, refl, sym, ap, ◌∙◌, false, List, [], ◌∷◌, ◌++◌, arith, contains, count,
  count-append, count_zero, Bool-cases, Option-cases, inl, inr,
}
use my_sqloo.Client.{Client}
use my_sqloo.Objects.{State}
use my_sqloo.Statements.{
  is_valid, invalidate, close_all, close_handle, close_round, close_handles, free_unused_statements,
  free_cached_statements,
}
use my_sqloo.Statements.Ownership.{
  handle_stmts, held, held-update, owned, Inv, valid_not_null, handle_stmts_valid,
  handle_stmts_invalid,
}

module _ (C : Client) where
  open C use {World, stmt_close}

  pub close_all-append :
      (xs ys : List ℕ) (w : World) → close_all C (xs ++ ys) w ≡ close_all C ys (close_all C xs w)
  unfolding close_all
  close_all-append [] ys w = refl
  close_all-append (x ∷ xs) ys w = close_all-append xs ys (stmt_close x w)

  -- What one round of the loop does: it closes the statement of the handle, if that is valid.
  abbrev Round : ℕ → State World → State World → Type 0
  Round h s s' =
      (s'.world ≡ close_all C (handle_stmts (s.handles h)) s.world)
      × (s'.db ≡ s.db)
      × ((hs : List ℕ) → contains h hs ≡ false → held s'.handles hs ≡ held s.handles hs)

  close_round-Round : (h : ℕ) (s : State World) → Round h s (close_round C h s)
  unfolding close_round close_all
  close_round-Round h s = elim (Bool-cases (is_valid (s.handles h))) [
    | inl valid ↦ elim (Option-cases (s.handles h).stmt) [
      | inl null ↦ absurd (valid_not_null (s.handles h) valid null)
      | inr (m, e) ↦
          rw (valid, handle_stmts_valid (s.handles h) m valid e, e, close_handle)
            (refl, refl, held-update s.handles h (invalidate (s.handles h)))
    ]
    | inr invalid ↦
        rw (invalid, handle_stmts_invalid (s.handles h) invalid) (refl, refl, λ hs _. refl)
  ]

  -- The loop over the cached handles closes the statements of the valid ones, in order.
  close_handles_lem :
      (hs : List ℕ) (s : State World)
      → ((h : ℕ) → count h hs ≤ 1)
      → ((close_handles C hs s).world ≡ close_all C (held s.handles hs) s.world)
        × ((close_handles C hs s).db ≡ s.db)
  unfolding close_handles close_all
  close_handles_lem [] s d = (refl, refl)
  close_handles_lem (h ∷ hs) s d =
      let (world, db, kept) = close_round-Round h s in
      let once : (a : ℕ) → count a hs ≤ 1 = λ a. ground (arith, d a) in
      let (rest, rest_db) = close_handles_lem hs (close_round C h s) once in
      (
        rest
            ∙ ap (λ x. close_all C x (close_round C h s).world)
                (kept hs (count_zero h hs (ground (arith, d h))))
            ∙ ap (close_all C (held s.handles hs)) world
            ∙ sym (close_all-append (handle_stmts (s.handles h)) (held s.handles hs) s.world),
        rest_db ∙ db,
      )

  -- `freeCachedStatements` closes every statement that the database owns, and owns none after.
  pub free_cached_statements_lem :
      (s : State World)
      → Inv s
      → ((free_cached_statements C s).world ≡ close_all C (owned s) s.world)
        × (owned (free_cached_statements C s) ≡ [])
  unfolding free_cached_statements
  free_cached_statements_lem s v =
      let (world, db) = close_handles_lem s.db.cached_statements s v.distinct in
      (
        ap (λ d. close_all C d.freed_statements (close_handles C s.db.cached_statements s).world) db
            ∙ ap (close_all C s.db.freed_statements) world
            ∙ sym (
                close_all-append (held s.handles s.db.cached_statements) s.db.freed_statements
                  s.world),
        refl,
      )

  free_cached_statements-cached :
      (s : State World) → ((free_cached_statements C s).db.cached_statements ≡ [])
  unfolding free_cached_statements
  free_cached_statements-cached s = refl

  pub free_cached_statements-Inv : (s : State World) → Inv s → Inv (free_cached_statements C s)
  free_cached_statements-Inv s v =
      let e = free_cached_statements-cached s in
      record {
        distinct = λ h. rw e (omega arith);
        allocated = λ h. rw e (λ k. cc);
        single = λ a. rw (free_cached_statements_lem s v).1 (omega arith);
      }

  -- `freeUnusedStatements` closes what was freed and keeps what is cached.
  pub free_unused_statements-Inv : (s : State World) → Inv s → Inv (free_unused_statements C s)
  unfolding free_unused_statements
  free_unused_statements-Inv s v = record {
    distinct = v.distinct;
    allocated = v.allocated;
    single = λ a. omega (
      arith,
      v.single a,
      count-append a (held s.handles s.db.cached_statements) s.db.freed_statements,
      count-append a (held s.handles s.db.cached_statements) [],
    );
  }

  pub free_unused_statements_lem :
      (s : State World)
      → ((free_unused_statements C s).world ≡ close_all C s.db.freed_statements s.world)
        × ((a : ℕ)
            → count a (owned s)
              ≡ count a s.db.freed_statements + count a (owned (free_unused_statements C s)))
  unfolding free_unused_statements
  free_unused_statements_lem s = (
    refl,
    λ a. omega (
      arith,
      count-append a (held s.handles s.db.cached_statements) s.db.freed_statements,
      count-append a (held s.handles s.db.cached_statements) [],
    ),
  )
