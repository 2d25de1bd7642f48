-- ===== src/Threads/Invariant.antt =====
-- The invariant of the two threads of src/mysql/Database.cpp about a thread that waits.
use my_sqloo.Base.{
  ℕ, ◌≡◌, Bool, true, false, Option, none, some, arith, ◌==◌, if◌then◌else◌, Option-cases, inl, inr,
}
use my_sqloo.Objects.{State}
use my_sqloo.Threads.{
  MainPc, awake, asleep, ThreadPc, unborn, notifying, ending, ended, System, notify, announce,
}

abbrev pub is_born : ThreadPc → Bool
is_born unborn = false
is_born _ = true

abbrev pub is_closed : ThreadPc → Bool
is_closed ending = true
is_closed ended = true
is_closed _ = false

abbrev pub is_notifying : ThreadPc → Bool
is_notifying notifying = true
is_notifying _ = false

abbrev pub waits_on : Option (ℕ × ℕ) → ℕ → Bool
waits_on none a = false
waits_on (some (query, d)) a = d == a

module _ {World : Type 0} where
  -- A thread that sleeps is registered as long as its data is not finished, and is notified or about
  -- to be notified once it is.
  abbrev pub Waits : MainPc → State World → ThreadPc → Type 0
  Waits awake u p = Unit
  Waits (asleep query d notified) u p =
      ((u.query_data d).finished ≡ false
        → (u.db.waiting_query ≡ some (query, d)) × (u.db.can_wait ≡ true))
      × ((u.query_data d).finished ≡ true → notified ≡ false → is_notifying p ≡ true)

  pub record Inv (s : System World) : Type 0 where
    pub started : is_born s.thread ≡ true → s.shared.db.started_connecting ≡ true
    pub born : s.shared.db.can_wait ≡ true → is_born s.thread ≡ true
    pub closed : is_closed s.thread ≡ true → s.shared.db.can_wait ≡ false
    pub waits : Waits s.main s.shared s.thread

  -- What a wait reads.
  pub record SameWait (u u' : State World) : Type 0 where
    pub finished : (a : ℕ) → (u'.query_data a).finished ≡ (u.query_data a).finished
    pub waiting : u'.db.waiting_query ≡ u.db.waiting_query
    pub can_wait : u'.db.can_wait ≡ u.db.can_wait
    pub started : u'.db.started_connecting ≡ u.db.started_connecting

  pub Waits-SameWait :
      (m : MainPc) (u u' : State World) (p p' : ThreadPc)
      → SameWait u u'
      → is_notifying p ≡ false
      → Waits m u p
      → Waits m u' p'
  Waits-SameWait awake u u' p p' same quiet w = tt
  Waits-SameWait (asleep query d notified) u u' p p' same quiet w = (
    λ h. ground (arith, w.0, same.finished d, same.waiting, same.can_wait),
    λ h k. ground (arith, w.1, same.finished d),
  )

  -- What `abortWaitingQuery` does.
  pub record EndsWait (u u' : State World) : Type 0 where
    pub finished :
        (a : ℕ)
        → (u'.query_data a).finished
          ≡ (if waits_on u.db.waiting_query a then true else (u.query_data a).finished)
    pub waiting : u'.db.waiting_query ≡ none
    pub can_wait : u'.db.can_wait ≡ false
    pub started : u'.db.started_connecting ≡ u.db.started_connecting

  pub Waits-EndsWait :
      (m : MainPc) (u u' : State World) (p p' : ThreadPc)
      → EndsWait u u'
      → is_notifying p ≡ false
      → Waits m u p
      → Waits (announce u u' m) u' p'
  unfolding announce notify
  Waits-EndsWait awake u u' p p' ends quiet w = elim (Option-cases u.db.waiting_query) [
    | inl e ↦ rw (e, announce) tt
    | inr (x, e) ↦ rw (e, ends.waiting, announce) tt
  ]
  Waits-EndsWait (asleep query d notified) u u' p p' ends quiet w =
      elim (Option-cases u.db.waiting_query) [
        | inl e ↦
            rw (e, announce)
              (
                λ h. ground (arith, w.0, e, ends.finished d),
                λ h k. ground (arith, w.1, e, ends.finished d),
              )
        | inr (x, e) ↦
            rw (e, ends.waiting, announce)
              (λ h. ground (arith, w.0, e, ends.finished d), λ h k. absurd (ground (arith, k)))
      ]
