-- ===== src/Lib.antt =====
-- VmOrbit: what decides in the backend, as functions on explicit state.
--
-- The backend takes HTTP requests, guards them by middlewares, turns operations on virtual machines
-- into tasks that workers take from lists in Redis, and tells browsers about them over WebSockets.
-- Policies may hold an operation until an approval request is decided.
--
-- Parts, and the files that model them:
--   Base: numbers, lists, maps and equality that the parts share.
--   Middleware: internal/api/middleware/ratelimit.go. RateLimit has memRateLimiter (Allow, cleanup) and
--     the middlewares over it; CircuitBreaker the breaker, its registry and ProviderCircuitBreaker;
--     SyncDedup has DeduplicateSync.
--   Hub: internal/websocket/hub.go. A client is a reference into a heap, since the hub, the rooms and
--     the pumps share it; a closed channel that is closed or sent to again is a panic, `none`.
--   Task: internal/task. Queue is RedisQueue over the interface Redis, Backoff retry.go, Throttle
--     throttle.go, Engine the methods Enqueue and processTask of engine.go, Recovery rehydrateFromDB,
--     queueDepthMonitor and the Cancel of internal/service/task_service.go, over the interface
--     Repository for internal/infrastructure/repository/task_repo.go.
--     Bulk is handleBulkParent of bulk_handlers.go and Bulk/Enqueue the enqueueBulkTask of
--     internal/service/vm_service.go, Payload reads payloads as handlers.go does.
--   Provider: internal/provider/errors.go (Errors), health_tracker.go (Health), manager.go and registry.go
--     (Manager), vmware/retry.go (Retry), and the score and snapshots of
--     internal/service/provider_health_service.go (Score).
--   Inventory: internal/service/hypervisor_service.go. The root has the data and the credentials, Database
--     the interface to the tables with the methods of VMRepo, Sync has SyncInventoryNow, Service has
--     Register, Update and TestConnection; Rows and Outcomes hold the theorems, Memory tables in memory.
--   Notification: internal/domain/model/notification.go and internal/notification/dispatcher.go.
--   EventBus: internal/infrastructure/messaging/eventbus.go.
--   Crypto: internal/crypto/secrets.go, over an interface to AES-GCM and base64.
--   Approvals: internal/service/approval_service.go, over an interface to its repositories; Create has
--     its Create.
--   Environment: internal/service/environment_service.go. The root has computeExecutionOrder, Run has
--     createOrchestrationRun, Orchestrate has handleEnvOperation of
--     internal/task/environment_handlers.go, Status has RefreshStatus; Release, Edges, Loop and Machines hold the
--     lemmas on Kahn's algorithm.
--   Policy: internal/policy/engine.go. Conditions has the matching of conditions and operations, Engine
--     the method Evaluate with its effects.
--   Scheduler: internal/scheduler. Cron has ParseCron and Next has Next of cron.go, Fire has fire,
--     dispatch and computeNextRun of engine.go.
--   Workflow: internal/scheduler/workflow_engine.go. Actions has runAction and executeAction over a world
--     that each call changes, Engine the events, manual triggers and executeRun. handleEvent is the order
--     of its own reads and writes; `admits` and `create_run` are the two steps that others may come between.
--
-- How they meet: Engine.process_task takes a lock and reads a cancellation flag through Queue, takes a
-- slot through Throttle, calls a handler, which is a parameter, and publishes events, which the hub
-- would send on. Recovery.cancel_task sets the flag that process_task reads. Recovery's monitor sets the
-- number that Engine.enqueue compares with the high-water mark. Environment.Run stores a task of a type of
-- Task.Model in the order that the root computes; Policy.Engine asks for the approval requests that
-- Approvals decides. Environment.Orchestrate takes the steps that Environment.Run stored, and dispatches a
-- task of a type of Task.Model for each. Inventory.Service takes the cipher that Crypto models as a
-- parameter, with the round trip as its law. Inventory.Sync gets its provider from the registry, whose one
-- object per type Provider.Manager shows to be shared.
--
-- Choices. Times and durations are nanoseconds, handed to each step, and wrap at 64 bits where a product
-- of a setting can. A method that holds a mutex is one
-- step; what runs between two steps is any sequence of others. The effect of a handler is arbitrary, and
-- stands for what other goroutines do meanwhile too. Redis, the database, the UUID library and the audit
-- service are parameters with their documented effects as laws; the modules Examples have instances.
-- sort.Slice, the functions on texts, regular expressions and the calendar of a location are parameters
-- too: SortSlice, TextOps, CronTexts, Calendar, WorkflowOps. Instants of the scheduler are whole minutes. Three loops
-- run on fuel: take_all with as many rounds as machines, find_month with 84 months, after which the
-- loop of the code has left the fifth year, and search with the minutes of four years, of which each
-- round takes one. All other recursion is structural. Counters are natural numbers: Go's int64 would
-- overflow only after 2^63 calls. A cron field whose index leaves the 64 bits, at which the
-- code panics, counts as refused. A worker's context ends at most while it waits for a slot. The order of keys in a Go map does not matter to what is modelled.
--
-- Loops that wait for others (the poll of a bulk task, waitForTask, the retry loop) recurse on the list of
-- what they see, or on the attempts that are left.
--
-- Not modelled: logging, the HTTP framework, sockets, JSON, the script of RedisRateLimit, task logs, the
-- worker goroutines themselves, the handlers of single operations, the clients of hypervisors, the senders
-- of notifications, the editing of environments, the polling loop of the scheduler, the timeouts of
-- workflow actions, the other services.
pub mod Base
pub mod Crypto
pub mod EventBus
pub mod Middleware
pub mod Hub
pub mod Inventory
pub mod Notification
pub mod Task
pub mod Provider
pub mod Approvals
pub mod Environment
pub mod Policy
pub mod Scheduler
pub mod Workflow
