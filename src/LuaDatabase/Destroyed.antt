-- ===== src/LuaDatabase/Destroyed.antt =====
-- The end of a database object, `onDestroyedByLua` of src/lua/LuaDatabase.cpp. What the thread of the
-- database does until it ends is a parameter.
use my_sqloo.Base.{Bool, true, List, if◌then◌else◌}
use my_sqloo.Client.{Client}
use my_sqloo.Objects.{Entry, State}
use my_sqloo.Ping.{disconnect}
use my_sqloo.Queue.{take_finished_queries, abort_all_queries}

module _ {World : Type 0} (run_thread : State World → State World) where
  -- The entries that are aborted, and the state after them. `joinable` says that there is a thread.
  unfoldable pub on_destroyed : Bool → State World → List Entry × State World
  on_destroyed joinable s =
      let (s', joins) = disconnect true joinable s in
      let joined = if joins then run_thread s' else s' in
      abort_all_queries (take_finished_queries joined).1
