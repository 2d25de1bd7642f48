-- ===== src/Statements/Ownership.antt =====
-- The prepared statements that the database owns, src/mysql/Database.cpp.
use my_sqloo.Base.{
  ℕ, ◌+◌, ◌≤◌, ◌<◌, ◌≡◌, ◌≢◌, refl, true, false, Option, none, some, List, [], ◌∷◌, ◌++◌, arith,
  ◌==◌, if◌then◌else◌, update, contains, insert, erase, count, count-append, contains-count,
  not_contains-count, count_zero, erase_missing, contains-erase_self, count-erase-le,
  contains-erase, Bool-cases, inl, inr, update_self, Option-cases,
}
use my_sqloo.Objects.{StatementHandle, State}
use my_sqloo.Statements.{
  is_valid, invalidate, cache_statement, release, free_valid_statement, free_statement,
}

-- The statement of a valid handle.
unfoldable pub stmt_of : Option ℕ → List ℕ
stmt_of none = []
stmt_of (some stmt) = stmt ∷ []

pub handle_stmts : StatementHandle → List ℕ
unfolding is_valid stmt_of
handle_stmts v = if is_valid v then stmt_of v.stmt else []

-- The statements of the valid handles in a list.
abbrev pub held : (ℕ → StatementHandle) → List ℕ → List ℕ
held f [] = []
held f (h ∷ hs) = handle_stmts (f h) ++ held f hs

pub held-update :
    (f : ℕ → StatementHandle) (h : ℕ) (v : StatementHandle) (hs : List ℕ)
    → contains h hs ≡ false
    → held (update f h v) hs ≡ held f hs
held-update f h v [] e = refl
held-update f h v (x ∷ xs) e = ground (arith, held-update f h v xs)

pub handle_stmts_invalid : (v : StatementHandle) → is_valid v ≡ false → handle_stmts v ≡ []
unfolding handle_stmts
handle_stmts_invalid v e = rw e

-- A cached handle gives up exactly its statement.
held-erase :
    (f : ℕ → StatementHandle) (h a : ℕ) (hs : List ℕ)
    → count h hs ≤ 1
    → contains h hs ≡ true
    → count a (held f hs) ≡ count a (handle_stmts (f h)) + count a (held f (erase h hs))
held-erase f h a [] one found = cc
held-erase f h a (x ∷ xs) one found = elim (Bool-cases (x == h)) [
  | inl same ↦
      ground (
        arith,
        count_zero h xs,
        erase_missing h xs,
        count-append a (handle_stmts (f x)) (held f xs),
      )
  | inr other ↦ ground (
    arith,
    held-erase f h a xs,
    count-append a (handle_stmts (f x)) (held f xs),
    count-append a (handle_stmts (f x)) (held f (erase h xs)),
  )
]

pub handle_stmts_valid :
    (v : StatementHandle) (stmt : ℕ)
    → is_valid v ≡ true
    → v.stmt ≡ some stmt
    → handle_stmts v ≡ stmt ∷ []
unfolding handle_stmts
handle_stmts_valid v stmt valid e = rw (valid, e)

pub valid_not_null : (v : StatementHandle) → is_valid v ≡ true → v.stmt ≢ none
unfolding is_valid
valid_not_null v valid null = ground arith

-- The lists after `freeStatement` on a cached handle.
moved :
    (f : ℕ → StatementHandle) (h stmt : ℕ) (v : StatementHandle) (cached freed : List ℕ)
    → is_valid (f h) ≡ true
    → (f h).stmt ≡ some stmt
    → count h cached ≤ 1
    → contains h cached ≡ true
    → count stmt (held f cached ++ freed) ≤ 1
    → (a : ℕ)
    → count a (held (update f h v) (erase h cached) ++ insert stmt freed)
      ≡ count a (held f cached ++ freed)
moved f h stmt v cached freed valid e one found single a =
    rw (held-update f h v (erase h cached) (contains-erase_self h cached)) (
      ground (
        arith,
        handle_stmts_valid (f h) stmt valid e,
        held-erase f h a cached one found,
        held-erase f h stmt cached one found,
        contains-count stmt freed,
        count-append a (held f cached) freed,
        count-append stmt (held f cached) freed,
        count-append a (held f (erase h cached)) (insert stmt freed),
      ))

module _ {World : Type 0} where
  -- The statements that the database still has to close.
  abbrev pub owned : State World → List ℕ
  owned s = held s.handles s.db.cached_statements ++ s.db.freed_statements

  -- Addresses of cached handles are distinct and allocated, and no statement is owned twice.
  pub record Inv (s : State World) : Type 0 where
    pub distinct : (h : ℕ) → count h s.db.cached_statements ≤ 1
    pub allocated : (h : ℕ) → contains h s.db.cached_statements ≡ true → h < s.next_handle
    pub single : (a : ℕ) → count a (owned s) ≤ 1

  fresh : (s : State World) → Inv s → contains s.next_handle s.db.cached_statements ≡ false
  fresh s v = elim (Bool-cases (contains s.next_handle s.db.cached_statements)) [
    | inl e ↦ absurd (omega (arith, v.allocated s.next_handle e))
    | inr e ↦ e
  ]

  -- Caching a statement adds it to what is owned; caching the null pointer adds nothing.
  pub count-owned-cache_statement :
      (o : Option ℕ) (s : State World) (a : ℕ)
      → Inv s
      → count a (owned (cache_statement o s).1) ≡ count a (stmt_of o) + count a (owned s)
  unfolding cache_statement stmt_of is_valid
  count-owned-cache_statement none s a v =
      rw
        (held-update s.handles s.next_handle (record { stmt = none; valid = false })
          s.db.cached_statements (fresh s v))
        (omega arith)
  count-owned-cache_statement (some m) s a v =
      let f = update s.handles s.next_handle (record { stmt = some m; valid = true }) in
      let e =
        held-update s.handles s.next_handle (record { stmt = some m; valid = true })
          s.db.cached_statements (fresh s v) in
      let self : handle_stmts (f s.next_handle) ≡ m ∷ [] =
        handle_stmts_valid (f s.next_handle) m
          (rw (update_self s.handles s.next_handle (record { stmt = some m; valid = true })))
          (rw (update_self s.handles s.next_handle (record { stmt = some m; valid = true }))) in
      rw (self, e) (ground arith)

  count-owned-free_valid_statement :
      (h : ℕ) (s : State World) (a : ℕ)
      → Inv s
      → is_valid (s.handles h) ≡ true
      → count a (owned (free_valid_statement h s)) ≡ count a (owned s)
  unfolding free_valid_statement
  count-owned-free_valid_statement h s a v valid =
      elim (Bool-cases (contains h s.db.cached_statements)) [
        | inl found ↦ elim (Option-cases (s.handles h).stmt) [
          | inl null ↦ absurd (valid_not_null (s.handles h) valid null)
          | inr (m, e) ↦
              rw (found, e, release)
                (moved s.handles h m (invalidate (s.handles h)) s.db.cached_statements
                  s.db.freed_statements valid e (v.distinct h) found (v.single m) a)
        ]
        | inr missing ↦
            rw missing (
              rw
                (held-update s.handles h (invalidate (s.handles h)) s.db.cached_statements missing))
      ]

  -- Freeing a handle only moves its statement from the cached to the freed ones.
  pub count-owned-free_statement :
      (o : Option ℕ) (s : State World) (a : ℕ)
      → Inv s
      → count a (owned (free_statement o s)) ≡ count a (owned s)
  unfolding free_statement
  count-owned-free_statement none s a v = refl
  count-owned-free_statement (some h) s a v = elim (Bool-cases (is_valid (s.handles h))) [
    | inl valid ↦ rw valid (count-owned-free_valid_statement h s a v valid)
    | inr invalid ↦ rw invalid
  ]

  pub cache_statement-Inv :
      (o : Option ℕ) (s : State World)
      → Inv s
      → ((a : ℕ) → count a (stmt_of o) + count a (owned s) ≤ 1)
      → Inv (cache_statement o s).1
  unfolding cache_statement
  cache_statement-Inv none s v once = record {
    distinct = v.distinct;
    allocated = λ h k. omega (arith, v.allocated h k);
    single = λ a. omega (arith, count-owned-cache_statement none s a v, once a);
  }
  cache_statement-Inv (some m) s v once = record {
    distinct = λ h.
        ground (
          arith,
          v.distinct h,
          not_contains-count s.next_handle s.db.cached_statements (fresh s v),
        );
    allocated = λ h k. ground (arith, v.allocated h);
    single = λ a. omega (arith, count-owned-cache_statement (some m) s a v, once a);
  }

  -- What is cached afterwards was cached before.
  free_statement-allocated :
      (o : Option ℕ) (s : State World)
      → ((free_statement o s).next_handle ≡ s.next_handle)
        × ((h : ℕ)
            → (count h (free_statement o s).db.cached_statements ≤ count h s.db.cached_statements)
              × (contains h (free_statement o s).db.cached_statements ≡ true
                  → contains h s.db.cached_statements ≡ true))
  unfolding free_statement free_valid_statement release
  free_statement-allocated none s = (refl, λ h. (omega arith, λ k. k))
  free_statement-allocated (some h) s = (
    ground arith,
    λ a. (
      ground (arith, count-erase-le a h s.db.cached_statements),
      λ k. ground (arith, contains-erase a h s.db.cached_statements),
    ),
  )

  pub free_statement-Inv : (o : Option ℕ) (s : State World) → Inv s → Inv (free_statement o s)
  free_statement-Inv o s v =
      let (next, kept) = free_statement-allocated o s in
      record {
        distinct = λ h. omega (arith, (kept h).0, v.distinct h);
        allocated = λ h k. omega (arith, v.allocated h ((kept h).1 k), next);
        single = λ a. omega (arith, count-owned-free_statement o s a v, v.single a);
      }

  -- Neither call closes a statement.
  pub cache_statement-world :
      (o : Option ℕ) (s : State World) → (cache_statement o s).1.world ≡ s.world
  unfolding cache_statement
  cache_statement-world none s = refl
  cache_statement-world (some m) s = refl

  pub free_statement-world : (o : Option ℕ) (s : State World) → (free_statement o s).world ≡ s.world
  unfolding free_statement free_valid_statement release
  free_statement-world none s = refl
  free_statement-world (some h) s = ground arith
