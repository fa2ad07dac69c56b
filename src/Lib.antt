-- ===== src/Lib.antt =====
-- pican is a Go server that shows the sessions of coding agents and lets a browser chat with them.
-- Its parts, as they are modelled here:
--
--   internal/chatqueue/chatqueue.go             ChatQueue, and the modules below it
--   internal/sessioncreate/store.go             SessionCreate
--   internal/workers/manager.go                 Workers
--   internal/runtimes/registry.go               Runtimes
--   internal/server/chat_queue_drainer.go       Server/Drainer
--   internal/server/status.go                   Server/Status
--   internal/auth/auth.go                       Auth
--   internal/rpc/stream.go                      RpcStream
--   internal/workers/bounded_writer.go          Workers/Writer
--   internal/sessions/incremental.go            Sessions/Incremental
--   internal/sessions/cache.go, lookup.go       Sessions/Cache
--   internal/sessions/session.go                Sessions/Branch (forks), Sessions/Names (directories),
--                                               Sessions/Fold (the lines of a file),
--                                               Sessions/Order (the lists of sessions),
--                                               Sessions/Labels (names and labels)
--   internal/updater/updater.go                 Updater
--   internal/basepath/basepath.go               BasePath
--   internal/workspace/containment.go           Workspace
--
-- A message that a client queues waits in the chat queue's tables. When the status of a session
-- turns to idle, the server kicks the drainer, which takes the head of the session's queue and
-- sends it through the worker manager; the manager makes the worker with the factory of the
-- session's runtime, which the registry knows. The creation store records the creations of hosted
-- sessions by their idempotency key, so that a request can be retried.
--
-- The stores. ChatQueue/Table and SessionCreate/Table hold the rows of the SQL tables and the
-- effect of each statement; `Store.Add` is `add`, `Store.PopHead` is `pop_head`, `Store.Claim` is
-- `claim`, and so on. SQLite runs a write transaction without another write in between, so a
-- transaction of ChatQueue is one step: its body is a result that names the call that failed, and
-- `transaction` keeps the old tables when it is an error. Which calls fail is an argument,
-- `faults`. An operation of SessionCreate is a write and a read that are not in one transaction, so
-- statements of others may run between them, and a history is a list of statements. Times are
-- numbers that the caller gives. `Fingerprint` (a hash of a JSON text) is not modelled: a
-- fingerprint is a text.
--
-- The worker manager. Workers/Manager has the fields that the mutex guards, and each function is
-- what a goroutine does while it holds the mutex; the workers that it closes afterwards are
-- returned. A worker, a creation in progress and a cancel function are numbers, and what a worker
-- or the factory answers is an argument. Workers/Lifecycle and Workers/Sends run these sections in
-- every order, Workers/Calls composes them to `workerFor` and `Send`, and Workers/Requests has the
-- other calls. The loop of `workerFor` runs on fuel: 2 rounds, since a round that goes on has
-- dropped the session's worker. The loop that calls `reapOnce` is a timer and is left out.
--
-- The registry. Runtimes/Id is `ParseID`, on code points: every test of it looks at ASCII
-- characters only, which no byte of a longer code point equals. Runtimes/Registry is the map and
-- the list.
--
-- The server. Server/Drainer has the checks of `drainSession` with the rest of the server as an
-- argument, and the wake-ups of its loop; the call of `Send` is a value, since it runs in a
-- goroutine of its own. Server/Status computes whether a session runs, and what is broadcast.
--
-- Around the handlers stands the middleware of Auth: a request is a record of what it reads, its
-- answer is a value, and the encoding of a query (`url.Values.Encode`) is a parameter. RpcStream
-- accumulates the text events of an agent's message. BasePath is the prefix at which the server is
-- mounted, on bytes; what its handler does with a request is the path that the inner handler gets.
-- Workspace admits paths below a root; a cleaned absolute path is the list of its names, and what
-- the operating system answers is an argument.
--
-- The session files. Sessions/Incremental has the two cached parses as one, over the decoder of a
-- line, the fold of a decoded line into the running state and what makes the result of that state.
-- What a parse sees of a file is a record: its size, the bytes there when the header is read, and
-- those there for the scan. Sessions/Cache keeps parsed sessions by recency within a budget of
-- bytes: an operation is the sections for which it holds the lock, and what others do in between is
-- an argument. A list element is known by its key, the path. Sessions/Branch is the fork and the
-- clone of a session: JSON values are a data type, the encoder and decoder are parameters, and
-- which calls on the file system fail is an argument; the walk back to the root runs on fuel, for
-- which one round for each entry and one more is enough. Sessions/Names encodes the path of a
-- project. These work on bytes. Workers/Writer is the ring of the last bytes of a process's output;
-- its loop runs on fuel for each byte, since a round takes at least one.
--
-- Sessions/Fold has what a line does to the running state of either parse: Typed and Lines of the
-- summary, whose lines are decoded into a struct, and Whole of the whole session, whose lines are
-- maps. A line is a JSON object; a key is matched as it is written, a number is natural, and a
-- cost, a floating-point number in the code, counts some small unit. Finalize is the end of both
-- parses. Sessions/Order sorts summaries, which are any values with a time and a project;
-- `sort.Slice` is an insertion sort, since the code compares positions last. Sessions/Labels appends names and
-- labels to the bytes of a file; JSON and the random id are parameters.
--
-- Updater/Versions compares versions on bytes, with the overflow of `strconv.Atoi`; Updater/Checker
-- has the checker, whose answers from GitHub and times are arguments, each function with what
-- others do between its sections.
--
-- Base has what the modules share: tests on native numbers, lists, results, text, Go maps with text
-- keys. Go's `int` is a natural number where the code only counts up or compares; none of the
-- counts comes near 2 ^ 63.
--
-- Not modelled: the HTTP handlers, the adapters of the agents and their processes, the
-- creation of session files, the pages and the web client, git and the file system. They
-- are for the most part input and output around the parts above.
pub mod Base
pub mod Auth
pub mod BasePath
pub mod ChatQueue
pub mod SessionCreate
pub mod Workers
pub mod RpcStream
pub mod Runtimes
pub mod Server
pub mod Updater
pub mod Workspace
pub mod Sessions
