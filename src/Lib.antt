-- ===== src/Lib.antt =====
-- A verification library for the bulk-action job system of libs/bulk-action, for the paging types of
-- libs/web-common, the web clients of libs/web-client, the signed messages of libs/crypto, and the
-- transactions of libs/entity with the events of libs/event-emitter.
--
-- The job system runs jobs in groups. Its services are stateless TypeScript classes; all state is in a
-- Redis server, which they reach by single commands and by Lua scripts that run whole. The server is a
-- parameter here, the record Redis of Redis/Commands.antt: a store, the commands that the program
-- sends, and a law for each that states its documented effect on what the store holds
-- (Redis/Contents.antt). Redis/Memory.antt is such a store, and Tests run on it.
-- Every operation is a function from the store to its answer and the next store. What other clients do
-- between two awaited calls is an argument `others`, an arbitrary function on the store, wherever a
-- theorem depends on it; where it is left out, the file says so.
--
-- The parts, and the files that model them:
-- - Model, Keys: the data that is stored and the names it is stored under (src/model,
--   src/key/RedisKeyBuilder.ts; paths that start with src are in libs/bulk-action).
-- - Watcher.StateMachine: the life cycle of a group (src/watcher/StateMachine.ts); Diagram describes
--   the life cycle independently and compares. Watcher.Service is the watcher, which
--   moves groups on by way of Lock and Aggregator (src/watcher/WatcherService.ts).
-- - Backpressure.RateLimiter, ReadyQueue, Admission, Dispatcher: how a job gets into the ready queue,
--   or waits in the non-ready queue (src/backpressure with rate-limit-check.lua, ready-queue-push.lua
--   and move-to-ready.lua). `admit` asks the rate limiter, and hands a limited job to Congestion.
--   ReadyQueue.Fifo compares the ready queue with a bounded first-in first-out queue.
-- - Congestion.Backoff, Control, Release, History: how long a job waits, the counts of what waits, and the
--   snapshots (src/congestion with congestion-backoff.lua and congestion-release.lua).
-- - ReliableQueue.InFlight, Orphans, OrphanRecovery, DeadLetters: taking a job, acknowledging it, and
--   what becomes of jobs that are not acknowledged, which Orphans.Rounds follows
--   over the rounds of the script (src/reliable-queue with reliable-dequeue.lua, reliable-ack.lua,
--   extend-deadline.lua and recover-orphans.lua).
-- - FairQueue: the groups' queues by priority (src/fair-queue with enqueue.lua and dequeue.lua), which
--   feed `admit`.
-- - Idempotency: keys that are processed once (src/idempotency).
-- - Lock: the lock over a group (src/lock with acquire-lock.lua and release-lock.lua).
-- - Aggregator.Scripts, Aggregator.Service: results of jobs, and the end of a group under the lock
--   (src/aggregator with transition-status.lua, record-job-result.lua and ack.lua). DefaultAggregator
--   is the aggregator that every list of aggregators begins with.
-- - WorkerPool.Fetcher, Worker, Completion, Pool: jobs from the fair queue through `admit`; one tick of a worker on a
--   job of the ready queue, by way of ReliableQueue.InFlight; what becomes of a job that succeeds, fails
--   or is given up, by way of Aggregator and Admission; the pool
--   (src/worker-pool). The record Meanwhile holds the surroundings of a processing: how long the reading of the job
--   takes, how late each heartbeat lands, and what others do in between. Worker.Ending is how a tick ends, Worker.States
--   is the life of a worker, whose start, stop and loop come in any order.
-- - Config: the options, their defaults and the merge (src/config/BulkActionConfig.ts and `register` of
--   src/BulkActionModule.ts). The services take the numbers that they read as arguments.
-- - Facade: the entry points, from the submission of jobs to the progress of a group
--   (src/BulkActionService.ts). Loops: start and stop of the periodic services.
-- - WebClient: retry policy and executor, and the two builders of requests (libs/web-client/src).
-- - Transactions: a transaction whose events are emitted before the commit, after it, or after the roll-back
--   (libs/entity/src/transaction, libs/event-emitter/src/TransactionEventContext.ts). The data source is a
--   parameter with its laws; of EventEmitter2 a listener's error is one. Transactions.Raising relates the buffer to the
--   events in the order in which they were raised.
-- - Web.Paging: pages and slices (libs/web-common/src/req and src/res).
-- - Crypto: signed messages (libs/crypto/src/hmac-encryption); Authenticity reads back what was signed. The
--   digest is an argument.
-- - Prelude: the library names and the lemmas on lists, tests and divisions that the parts share.
-- - Tests: each theorem that has conditions, applied at a concrete input.
--
-- Conventions. Numbers are natural numbers; a subtraction of the source is written where it cannot go
-- below 0, or moved to the other side of a comparison. Times are arguments, in milliseconds. JSON and
-- the printing of numbers are the identity. Scores of sorted sets are exact fractions.
--
-- Fuel. `search_queue` has one round more than the queue has groups, `load_batches` one round more than
-- there are results, and `retry_loop` one round more than there are dead letters. `fetch_loop` counts the
-- rounds of a batch, `attempts` those of the retries, and `heartbeats` the intervals within the processing
-- time, as the code does.
--
-- Not modelled: the expiry of keys (a step of the environment), the waits of the loops' timers, log
-- output, texts of reasons, dependency injection; the floating-point average of recordJobCompletion; the
-- response side of the web clients; symmetric and envelope encryption; and the other libraries, most of
-- which call services outside the repository.
pub mod Crypto
pub mod Config
pub mod Prelude
pub mod Model
pub mod Keys
pub mod Redis
pub mod Watcher
pub mod Aggregator
pub mod Backpressure
pub mod ReliableQueue
pub mod FairQueue
pub mod Idempotency
pub mod Lock
pub mod Congestion
pub mod Web
pub mod WorkerPool
pub mod Facade
pub mod Loops
pub mod WebClient
pub mod Transactions
pub mod Tests
