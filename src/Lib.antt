-- ===== src/Lib.antt =====
-- Gonex is a Go web framework. This library models the parts of it that keep state of their own: the
-- lifecycle of an application, the scheduler of jobs, the stores of sessions, and the file transactions
-- of its code generator.
--
-- lifecycle/lifecycle.go. An application registers hooks for four phases (start, started, shutdown,
-- stop) and starts background tasks; the server calls the phases. Lifecycle.antt has the state and,
-- for each method, the parts that hold the mutex: BeginStart is `begin_start_enter` and
-- `begin_start_leave`, and so on. Lifecycle/Interleaving.antt lets these parts of any number of calls
-- follow each other in any order, Lifecycle/Safety.antt says what no such schedule can break.
-- Lifecycle/Calls.antt puts the parts together again as whole calls of one goroutine, where the hooks
-- and the context are an environment, and Lifecycle/Calls/Outcomes.antt, with Passing and Startup
-- below it, says what a call returns.
--
-- scheduler/. Scheduler/Overlap.antt is the gate of a job (overlap.go), again cut at the points where
-- it gives up its mutex to run a handler; Schedules.antt below it has the goroutines, Guarantees.antt
-- the properties. Scheduler/Job.antt has jobs and their validation (job.go, validation.go).
-- Scheduler/Engine.antt is the engine github.com/go-co-op/gocron, which is not code of the repository:
-- a parameter with laws. Scheduler/Manager.antt and its children are the manager (scheduler.go,
-- options.go, engine_gocron.go, execution.go): job records, gates and their publication stand in the
-- manager's state by number, because the engine's tasks share them. Operations.antt has Add, Replace,
-- Validate and Remove, Lifetime.antt Start, Stop, Wait, Use and the entry of a triggered task.
--
-- scheduler/persistence.go and reconcile.go. Scheduler/Persistence.antt has persistent jobs and the
-- registry of their handlers, Scheduler/Prepare.antt which of them may run, Scheduler/Reconcile.antt the
-- loader's Sync: it brings a scheduler (any
-- that fills the interface MutableScheduler, as the manager does) to the state that a store
-- describes, or undoes what it did. Scheduler/Execution.antt is one run of such a job
-- (persistent_execution.go) as the sequence of its calls of the recorder, the locker and the handler.
--
-- session/storage.go. Session/Memory.antt is MemoryStorage, Session/Revocation.antt the revocation
-- store in memory, and Session/Cookie.antt CookieStorage over any revocation store. JSON, HMAC-SHA256,
-- SHA-256 and base64 are parameters. Session/Values.antt has internal/sessionvalue/value.go.
--
-- ghttp/session.go. Session/Managed.antt is the session of one request: Open and the calls on what it
-- returns, which write through to a storage and renew the client's cookie. The storage is an interface
-- whose laws say what an identifier stands for after each call; the answer of prepare of
-- ghttp/cookie.go, which refuses a cookie once the headers were written, and that of session.NewID are
-- arguments. Below it, Laws, Steps and Regenerate take each call apart, Runs and Ends have the
-- properties. Memory and Cookies put the models of MemoryStorage and CookieStorage (the latter with
-- the revocation store in memory) behind the interface, each at one instant, and prove the laws; for
-- cookies that takes a digest without collisions (Cookies/Sound has such a storage). That random
-- identifiers are new is a hypothesis of the calls that use them.
--
-- gx/internal/gen. The generators of gx write their output in one transaction. Fs/Paths.antt has the
-- paths below a project's root (fs/path.go). Fs/Root.antt is os.Root, a parameter: its calls over an
-- unknown state, each of which may fail at any time, and the laws of its documentation; and the walks of
-- validateRootPath and createRootTempDir over it. The laws speak of what stands at a path, directories
-- left out, while no other process writes below the root and no path leads through a symbolic link.
-- Fs/Root/Memory.antt is a root that meets them. Fs/Transaction.antt has NewTransaction, Delete, Write,
-- Rollback and close of fs/transaction.go, Fs/Commit.antt Commit with its own rollback, and
-- Fs/Outputs.antt StageOutputs (shared/write.go) and the pipeline of service/pipeline.go that stages,
-- commits and defers a Rollback. Below them, Staging, Prepared and Deleting say what a transaction keeps
-- true while it is staged; Turns, Backups and Installs what one turn of Commit's loops does; Undo, Loops
-- and Restore that it can be taken back; Published and Whole what the loops leave without an error. The
-- random bytes for a directory's name are a function of the round. That no path of the transaction lies
-- in one of its two directories, whose names are random, is a hypothesis.
--
-- Common.antt and its children hold what the components share: tests on the native numbers, Go maps
-- as association lists (Dict), texts (Text) and lists.
--
-- Bounds. Counters and times are natural numbers: none of them wraps around in the model, as none
-- does in a run of the program. There is no fuel: all loops are structural, and the
-- 100 rounds of createRootTempDir are those of the source. A map is ranged over in
-- the order of its entries, where Go has any order.
--
-- Not modelled: logging, the bodies of hooks, handlers and tasks, the router, the HTTP server, OpenAPI,
-- configuration, and the code generator but for its file transactions (not yet its transactions on whole
-- directories); the opening of the root and filepath.Abs before it; nil receivers; and the contexts, but
-- for what the code asks of them. Of a request's session: the cookie options, the readers Get and ID, and
-- its cache in Context.
pub mod Common
pub mod Fs
pub mod Lifecycle
pub mod Scheduler
pub mod Session
