-- ===== src/LuaDatabase/Once.antt =====
-- The callback of the connection runs at most once, src/lua/LuaDatabase.cpp.
use my_sqloo.Base.{
  ℕ, zero, suc, ◌+◌, ◌≤◌, ◌<◌, ◌≡◌, refl, Bool, true, false, not, ◌&&◌, String, List, [], ◌∷◌, ◌++◌,
  map, arith, ◌==◌, if◌then◌else◌, Bool-cases, inl, inr,
}
use my_sqloo.Objects.{Entry}
use my_sqloo.Ping.{was_disconnected}
use my_sqloo.Queue.{take_finished_queries}
use my_sqloo.LuaDatabase.{
  Host, Event, on_connected, on_disconnected, on_connection_failed, query_finished,
  connection_event, disconnection_event, release, set_object, call_all, run_connection,
  think_connection, think_finished, run_disconnection, think_disconnection, think,
}

abbrev pub is_connection : Event → Bool
is_connection on_connected = true
is_connection (on_connection_failed message) = true
is_connection on_disconnected = false
is_connection (query_finished entry) = false

-- How many callbacks of the connection there are.
abbrev pub connections : List Event → ℕ
connections [] = 0
connections (e ∷ es) = let rest = connections es in if is_connection e then suc rest else rest

connections-append :
    (es es' : List Event) → connections (es ++ es') ≡ connections es + connections es'
connections-append [] es' = omega arith
connections-append (e ∷ es) es' = ground (arith, connections-append es es')

finished_connections : (entries : List Entry) → connections (map query_finished entries) ≡ 0
finished_connections [] = refl
finished_connections (entry ∷ entries) = finished_connections entries

module _ {World Lua : Type 0} (reference_free : ℕ → Lua → Lua)
    (is_function : ℕ → String → Lua → Bool) (call : Event → Host World Lua → Host World Lua) where
  abbrev pub Ran : Host World Lua → Type 0
  Ran h = h.object.db_callback_ran ≡ true

  -- The program runs Lua between two calls of `think`.
  unfoldable pub run_thinks :
      ℕ → (ℕ → Host World Lua → Host World Lua) → Host World Lua → List Event × Host World Lua
  run_thinks zero between h = ([], h)
  run_thinks (suc n) between h =
      let (events, h') = think reference_free is_function call (between n h) in
      let (later, last) = run_thinks n between h' in (events ++ later, last)

  -- The module never clears the flag, so neither does a callback.
  module _ (keeps : (e : Event) (h : Host World Lua) → Ran h → Ran (call e h)) where
    call_all-Ran :
        (es : List Event) (h : Host World Lua)
        → Ran h
        → Ran (call_all reference_free is_function call es h)
    unfolding call_all
    call_all-Ran [] h ran = ran
    call_all-Ran (e ∷ es) h ran = call_all-Ran es (call e h) (keeps e h ran)

    connection_event_lem :
        (h : Host World Lua) → connections (connection_event reference_free is_function h) ≤ 1
    unfolding connection_event
    connection_event_lem h = ground arith

    disconnection_event_lem :
        (h : Host World Lua) → connections (disconnection_event reference_free is_function h) ≡ 0
    unfolding disconnection_event
    disconnection_event_lem h = ground arith

    release-Ran : (h : Host World Lua) → Ran h → Ran (release reference_free is_function h)
    unfolding release
    release-Ran h ran = ground (arith, ran)

    run_connection_lem :
        (h : Host World Lua)
        → (connections (run_connection reference_free is_function call h).0 ≤ 1)
          × Ran (run_connection reference_free is_function call h).1
    unfolding run_connection
    run_connection_lem h =
        let object = h.object in
        let h' =
          set_object reference_free is_function (record object { db_callback_ran = true }) h in
        let events = connection_event reference_free is_function h' in
        (
          connection_event_lem h',
          release-Ran (call_all reference_free is_function call events h')
              (call_all-Ran events h' refl),
        )

    think_finished_lem :
        (h : Host World Lua)
        → (connections (think_finished reference_free is_function call h).0 ≡ 0)
          × (Ran h → Ran (think_finished reference_free is_function call h).1)
    unfolding think_finished
    think_finished_lem h =
        let (finished, s) = take_finished_queries h.state in
        (
          finished_connections finished,
          call_all-Ran (map query_finished finished) (record h { state = s }),
        )

    run_disconnection_lem :
        (h : Host World Lua)
        → (connections (run_disconnection reference_free is_function call h).0 ≡ 0)
          × (Ran h → Ran (run_disconnection reference_free is_function call h).1)
    unfolding run_disconnection
    run_disconnection_lem h =
        let object = h.object in
        let h' =
          set_object reference_free is_function (record object { has_on_disconnected = false }) h in
        (
          disconnection_event_lem h',
          call_all-Ran (disconnection_event reference_free is_function h') h',
        )

    think_connection_lem :
        (h : Host World Lua)
        → (connections (think_connection reference_free is_function call h).0 ≤ 1)
          × (Ran h
              → (connections (think_connection reference_free is_function call h).0 ≡ 0)
                × Ran (think_connection reference_free is_function call h).1)
          × (0 < connections (think_connection reference_free is_function call h).0
              → Ran (think_connection reference_free is_function call h).1)
    unfolding think_connection
    think_connection_lem h =
        let object = h.object in
        let (few, ran) = run_connection_lem h in
        elim (Bool-cases (
          h.state.db.connection_done
          && (not object.db_callback_ran && not (object.table_reference == 0)))) [
            | inl e ↦ rw e (few, λ ran'. absurd (ground (arith, e, ran')), λ p. ran)
            | inr e ↦ rw e (omega arith, λ ran'. (refl, ran'), λ p. absurd (omega arith))
          ]

    think_disconnection_lem :
        (h : Host World Lua)
        → (connections (think_disconnection reference_free is_function call h).0 ≡ 0)
          × (Ran h → Ran (think_disconnection reference_free is_function call h).1)
    unfolding think_disconnection
    think_disconnection_lem h =
        let object = h.object in
        elim (Bool-cases (
          was_disconnected h.state.db
          && (object.has_on_disconnected && not (object.table_reference == 0)))) [
            | inl e ↦ rw e (run_disconnection_lem h)
            | inr e ↦ rw e (refl, λ ran. ran)
          ]

    think_lem :
        (h : Host World Lua)
        → (connections (think reference_free is_function call h).0 ≤ 1)
          × (Ran h
              → (connections (think reference_free is_function call h).0 ≡ 0)
                × Ran (think reference_free is_function call h).1)
          × (0 < connections (think reference_free is_function call h).0
              → Ran (think reference_free is_function call h).1)
    unfolding think
    think_lem h =
        let (es, h1) = think_connection reference_free is_function call h in
        let (es', h2) = think_finished reference_free is_function call h1 in
        let (es'', h3) = think_disconnection reference_free is_function call h2 in
        let (few, again, once) = think_connection_lem h in
        let (none', kept) = think_finished_lem h1 in
        let (none'', kept') = think_disconnection_lem h2 in
        let total : connections (es ++ (es' ++ es'')) ≡ connections es =
          omega (arith, connections-append es (es' ++ es''), connections-append es' es'') in
        (
          omega (arith, total),
          λ ran. (omega (arith, total, (again ran).0), kept' (kept (again ran).1)),
          λ some'. kept' (kept (once (omega (arith, total, some')))),
        )

    -- Over any number of calls of `think`, whatever the callbacks and the program do between and inside
    -- of them short of clearing the flag, the callbacks of the connection run at most once, and not at
    -- all if one had run before.
    pub run_thinks_once :
        (between : ℕ → Host World Lua → Host World Lua)
        → ((i : ℕ) (h : Host World Lua) → Ran h → Ran (between i h))
        → (n : ℕ) (h : Host World Lua)
        → (connections (run_thinks n between h).0 ≤ 1)
          × (Ran h → connections (run_thinks n between h).0 ≡ 0)
    unfolding run_thinks
    run_thinks_once between keep zero h = (omega arith, λ ran. refl)
    run_thinks_once between keep (suc n) h =
        let (events, h') = think reference_free is_function call (between n h) in
        let (later, last) = run_thinks n between h' in
        let (few, again, once) = think_lem (between n h) in
        let (few', again') = run_thinks_once between keep n h' in
        let total = connections-append events later in
        (
          elim (Bool-cases (connections events == 0)) [
            | inl e ↦ ground (arith, total, few', e)
            | inr e ↦ omega (arith, total, few, again' (once (ground (arith, e))))
          ],
          λ ran.
              let (quiet, ran') = again (keep n h ran) in omega (arith, total, quiet, again' ran'),
        )
