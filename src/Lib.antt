-- ===== src/Lib.antt =====
-- MySQLOO, a Lua module for Garry's Mod that runs MySQL queries on a thread of its own.
--
-- The main thread queues queries with a database; the thread of the database takes them from the
-- queue, runs them with the client library and puts them into the queue of finished queries, whose
-- callbacks the main thread runs. The parts of the program, and the files that model them:
--
--   src/BlockingQueue.h: BlockingQueue. A queue is the list of its entries, and each member function
--     holds the mutex, so it is a function from the list before to the list after. `take` on the empty
--     queue gives none, where the thread of the program sleeps.
--   src/mysql/Database.cpp, Database.h, StatementHandle.h: Statements (cacheStatement, freeStatement,
--     freeCachedStatements, freeUnusedStatements), Queue (enqueueQuery, abortAllQueries, shutdown,
--     takeFinishedQueries), Waiting (waitForQuery, abortWaitingQuery, failWaitingQuery), Settings (the
--     setters, the getters and connect), Connection (connectRun, attemptConnection,
--     attemptReconnect), Worker (runQuery, run).
--   src/mysql/IQuery.cpp, IQuery.h, Query.h, the member functions of Query.cpp that read results: IQuery
--     and QueryData.
--   src/mysql/ResultData.cpp: ResultData.
--   executeStatement in src/mysql/Query.cpp, PingQuery.cpp, PreparedQuery.cpp and Transaction.cpp:
--     Execute and its child modules.
--   finishLuaQueryData in src/mysql/IQuery.cpp and Transaction.cpp: References. The constructors and
--     factories of src/mysql: Creation. `ping` and `disconnect`, split where the caller sleeps: Ping.
--   The main thread and the thread of a database, interleaved (waitForQuery, connectRun and run): Threads, a
--     step relation whose steps are what one thread does under a mutex or between two of them; start, abort and
--     ping are sequences of such steps of the main thread. Threads/Ledger is a book over its runs: what was
--     started, and what became of it.
--   referenceCallbacks and the dispatch of runCallback in src/lua/LuaIQuery.cpp, pushCallbackReference in
--     src/lua/LuaObject.cpp: Callbacks.
--   dataToLua, createDataReference and freeDataReference in src/lua/LuaQuery.cpp: LuaData.
--   The tables of the results of a transaction in src/lua/LuaTransaction.cpp: LuaTransaction. addQuery,
--     getQueries, clearQueries and buildQueryData: LuaTransaction/Queries.
--   runCallback, abort, and the callbacks of success, rows, errors and aborts in src/lua/LuaIQuery.cpp,
--     LuaQuery.cpp and LuaTransaction.cpp, abortAllQueries of src/lua/LuaDatabase.cpp: LuaCallbacks and
--     LuaCallbacks/Dispatch. Script holds the combinators of a run that calls Lua and may read behind the
--     end of a sequence: it gives the calls that were made and the state after them.
--   pushCallbackReference and pcallWithErrorReporter in src/lua/LuaObject.cpp, and the calls of the callbacks,
--     on the stack of Lua values: LuaStack, where the interface ILuaBase is a parameter, with what its header
--     documents as laws.
--   think and connect in src/lua/LuaDatabase.cpp: LuaDatabase; onDestroyedByLua: LuaDatabase/Destroyed, where
--     what the thread does until it ends is a parameter; runAllThinkHooks: LuaDatabase/Hooks, where `think` is one.
--   The functions that Lua calls with arguments: Bindings, with `create` and the setters of
--     src/lua/LuaDatabase.cpp in Configure, src/lua/LuaPreparedQuery.cpp in Parameters, getData and
--     getNextResults of src/lua/LuaQuery.cpp in Results, setOption in Options, start and buildQueryData in
--     Start, the Lua objects of queries from their creation to onDestroyedByLua in Lifetime.
--
-- Objects holds the classes as records and one state: the database, the stores of queries, of query
-- data and of statement handles, which are addressed by numbers, and the state of the client library.
-- A shared pointer is an address, so that aliasing is equality of addresses. Functions that may throw
-- are of type Action (Outcome): they give a result or an exception together with the state, since what
-- was written before a throw stays written; a clean-up of `finally` runs on both outcomes. Preserve
-- holds the rules for predicates on the state. Client holds the functions of the C client library as
-- one record, which every model that calls the library takes as a parameter.
--
-- Loops over containers recurse on the list. A loop whose end depends on the client library (the result
-- sets of a query, the rows of a result) takes fuel and throws `out_of_fuel`, which no handler of the
-- program catches, when it is used up. Execute/Ending states what the client library documents of results,
-- that they come to an end within a limit, and shows that fuel above the limit is enough; Total holds the
-- rules for that, and Worker/Reports draws the conclusion for `runQuery`. The loop of the database thread
-- takes a number of rounds.
--
-- The Lua state is a parameter where it is used, with the registry of references. A Lua callback is an
-- arbitrary function on the whole state, since it can call the module again. A table of results is the
-- list of the writes to it, and Lua's numbers, with `atof` and the conversion of an integer, are
-- parameters. Column and row numbers are natural numbers: the counters of the program have 32 bits.
--
-- Not modelled: the rest of the Lua bindings in src/lua, which register functions or only call the ones above;
-- `escape`, which only calls the client library; clean-up of memory that has no effect on the state.
pub mod Base
pub mod Bindings
pub mod BlockingQueue
pub mod Client
pub mod Objects
pub mod Outcome
pub mod Preserve
pub mod Statements
pub mod QueryData
pub mod Queue
pub mod Waiting
pub mod IQuery
pub mod Settings
pub mod Connection
pub mod ResultData
pub mod Execute
pub mod Worker
pub mod Tests
pub mod References
pub mod Creation
pub mod Callbacks
pub mod Ping
pub mod Threads
pub mod Total
pub mod LuaData
pub mod LuaStack
pub mod LuaTransaction
pub mod LuaDatabase
pub mod LuaCallbacks
pub mod Script
