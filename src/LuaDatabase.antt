-- ===== src/LuaDatabase.antt =====
-- The database object of Lua, src/lua/LuaDatabase.cpp: `think`, which runs the callbacks on the main thread,
-- and `connect`. The Lua state is a parameter, with its references and the test whether a field of a
-- referenced table is a function. A callback is an arbitrary change of the whole state, since it can
-- call the module again.
pub mod Once
pub mod Destroyed
pub mod Hooks
use my_sqloo.Base.{
  ℕ, zero, suc, Bool, true, false, not, ◌&&◌, String, List, [], ◌∷◌, ◌++◌, map, Option, none, some,
  ◌==◌, if◌then◌else◌,
}
use my_sqloo.Objects.{Entry, State}
use my_sqloo.Outcome.{done, thrown}
use my_sqloo.Ping.{was_disconnected}
use my_sqloo.Queue.{take_finished_queries}
use my_sqloo.Settings.{connect}

pub record LuaDatabase : Type 0 where
  pub table_reference : ℕ
  pub has_on_disconnected : Bool
  pub db_callback_ran : Bool

pub record Host (World Lua : Type 0) : Type 0 where
  pub object : LuaDatabase
  pub state : State World
  pub lua : Lua

-- What `think` calls: a function of the table of the database, or the callbacks of a finished query.
pub data Event : Type 0 where
  on_connected on_disconnected : Event
  on_connection_failed : String → Event
  query_finished : Entry → Event

module _ {World Lua : Type 0} (reference_free : ℕ → Lua → Lua)
    (is_function : ℕ → String → Lua → Bool) where
  -- The callback of the connection, if its field is a function.
  unfoldable pub connection_event : Host World Lua → List Event
  connection_event h =
      let db = h.state.db in
      let table = h.object.table_reference in
      if db.success
      then if is_function table "onConnected" h.lua then on_connected ∷ [] else []
      else if is_function table "onConnectionFailed" h.lua
      then on_connection_failed db.connection_err ∷ []
      else []

  unfoldable pub disconnection_event : Host World Lua → List Event
  disconnection_event h =
      if is_function h.object.table_reference "onDisconnected" h.lua
      then on_disconnected ∷ []
      else []

  abbrev pub set_object : LuaDatabase → Host World Lua → Host World Lua
  set_object object h = record h { object = object }

  -- The reference is kept for `onDisconnected`, if there is one.
  unfoldable pub release : Host World Lua → Host World Lua
  release h =
      let object = h.object in
      if not object.has_on_disconnected
      then record h {
        object = record object { table_reference = 0 };
        lua = reference_free object.table_reference h.lua;
      }
      else h

  -- `connect`, and the error that it throws.
  unfoldable pub lua_connect : (Lua → ℕ × Lua) → Host World Lua → Option String × Host World Lua
  unfolding connect
  lua_connect reference_create h =
      let object = h.object in
      let (table, lua) =
        if object.table_reference == 0
        then reference_create h.lua
        else (object.table_reference, h.lua) in
      let referenced = record h {
        object = record object {
          table_reference = table;
          has_on_disconnected = is_function table "onDisconnected" lua;
        };
        lua = lua;
      } in
      elim (connect h.state.db) [
        | done db ↦ (none, record referenced { state = record h.state { db = db } })
        | thrown message ↦ (some message, referenced)
      ]

  module _ (call : Event → Host World Lua → Host World Lua) where
    unfoldable pub call_all : List Event → Host World Lua → Host World Lua
    call_all [] h = h
    call_all (e ∷ es) h = call_all es (call e h)

    unfoldable pub run_connection : Host World Lua → List Event × Host World Lua
    unfolding connection_event call_all release
    run_connection h =
        let object = h.object in
        let h' = set_object (record object { db_callback_ran = true }) h in
        let events = connection_event h' in (events, release (call_all events h'))

    unfoldable pub think_connection : Host World Lua → List Event × Host World Lua
    think_connection h =
        let object = h.object in
        if h.state.db.connection_done
          && (not object.db_callback_ran && not (object.table_reference == 0))
        then run_connection h
        else ([], h)

    unfoldable pub think_finished : Host World Lua → List Event × Host World Lua
    unfolding call_all take_finished_queries
    think_finished h =
        let (finished, s) = take_finished_queries h.state in
        let events = map query_finished finished in
        (events, call_all events (record h { state = s }))

    -- The reference is freed here and not set to 0.
    unfoldable pub run_disconnection : Host World Lua → List Event × Host World Lua
    unfolding disconnection_event call_all
    run_disconnection h =
        let object = h.object in
        let h' = set_object (record object { has_on_disconnected = false }) h in
        let events = disconnection_event h' in
        let h'' = call_all events h' in
        (events, record h'' { lua = reference_free h''.object.table_reference h''.lua })

    unfoldable pub think_disconnection : Host World Lua → List Event × Host World Lua
    unfolding was_disconnected
    think_disconnection h =
        let object = h.object in
        if was_disconnected h.state.db
          && (object.has_on_disconnected && not (object.table_reference == 0))
        then run_disconnection h
        else ([], h)

    unfoldable pub think : Host World Lua → List Event × Host World Lua
    think h =
        let (connections, h1) = think_connection h in
        let (finished, h2) = think_finished h1 in
        let (disconnections, h3) = think_disconnection h2 in
        (connections ++ (finished ++ disconnections), h3)
