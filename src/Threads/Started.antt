-- ===== src/Threads/Started.antt =====
-- A database starts one thread, src/mysql/Database.cpp.
use my_sqloo.Base.{ℕ, ◌≡◌, ◌≢◌, refl, Bool, true, arith, is_some}
use my_sqloo.Client.{Client}
use my_sqloo.Objects.{Database}
use my_sqloo.Outcome.{thrown}
use my_sqloo.Settings.{
  connect, set_should_auto_reconnect, set_multi_statements, has_started, already_connected,
}
use my_sqloo.Threads.{ThreadPc, unborn, System, Reach}
use my_sqloo.Threads.Invariant.{is_born}
use my_sqloo.Threads.Wakeup.{Reach-Inv}

started-has_started : (db : Database) → db.started_connecting ≡ true → has_started db ≡ true
unfolding has_started
started-has_started db e = ground (arith, e)

not_unborn : (p : ThreadPc) → p ≢ unborn → is_born p ≡ true
not_unborn unborn h = absurd (h refl)
not_unborn _ h = refl

module _ (C : Client) (fuel : ℕ) where
  open C use {World, init}

  -- Let `mysql_init` never fail. In every state that the two threads can reach in which the thread of the
  -- database exists or has ended, connecting again throws, as does each of the two setters that ask
  -- whether it was started: there never is a second thread.
  pub connect_once :
      ((w : World) → is_some (init w).0 ≡ true)
      → {s : System World} → Reach C fuel s
      → s.thread ≢ unborn
      → (connect s.shared.db ≡ thrown already_connected)
        × ((b : Bool) → set_should_auto_reconnect b s.shared.db ≡ thrown already_connected)
        × ((b : Bool) → set_multi_statements b s.shared.db ≡ thrown already_connected)
  unfolding connect set_should_auto_reconnect set_multi_statements
  connect_once handles {s} r h =
      let v = Reach-Inv C fuel handles r in
      let e = started-has_started s.shared.db (v.started (not_unborn s.thread h)) in
      (rw e refl, λ b. rw e refl, λ b. rw e refl)
