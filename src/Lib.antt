-- ===== src/Lib.antt =====
-- TraceRuntime runs tasks: an API (services/api) takes them over HTTP, stores a row for each in
-- PostgreSQL and sends it to an SQS queue; workers (services/worker) claim the rows, call an AI
-- runtime, store the output in S3 and settle the rows; a watchdog (services/watchdog) polls the table
-- and the queues for conditions that need healing; a hub in the API streams all events to browsers.
--
-- The parts, and the files on them:
--   Tasks        the table `tasks` and each statement on it: services/api/internal/db/tasks.go and
--                dlq.go, services/worker/internal/db/tasks.go, services/watchdog/internal/db/healing.go.
--                A row is a `TaskRow`, a table a list of rows, a statement a function on tables. What an
--                UPDATE does to a row that its condition admits is `dispatch`. Tasks/History runs the
--                statements of the API and of the worker in any interleaving; what the chaos tool does to
--                the table besides is in Chaos/Artifacts and Chaos/Checker. Tasks/Listing has the queries that list,
--                and the handler of services/api/internal/http/task_list.go.
--   Healing      the table `healing_events`: services/watchdog/internal/db/healing.go,
--                services/api/internal/db/alerts.go and dlq.go.
--   Processor    `Process`, `callAIRuntime` and `publishSSE` of
--                services/worker/internal/processor/processor.go: `process` takes a `World` (table, calls
--                of SQS, objects in S3, events, counters) to the world after one message.
--                Processor/Polling is the loop of services/worker/cmd/worker/main.go around it,
--                Processor/Gauges its queue gauges.
--   Detector     services/watchdog/internal/detector/detector.go: `poll` takes a `State` (dedup map, table
--                of events, events sent, failures) to the state after one poll. Detector/Startup is
--                services/watchdog/internal/config/config.go, Detector/Publisher is
--                services/watchdog/internal/publisher/sse.go.
--   Queue        services/api/internal/queue/queue.go, a bounded channel as a list.
--   Broker       services/api/internal/event/broker.go, and the stream handler of
--                services/api/internal/http/sse.go.
--   RateLimit    services/api/internal/http/ratelimit.go.
--   Api          the handlers that change something: services/api/internal/http/task.go and events.go,
--                services/api/internal/handlers/replay.go, dlq.go and alerts.go, the routes
--                and the token check of services/api/internal/http/router.go. Api/DeadLetters is what an
--                operator sees of the dead-letter queue.
--   InProcess    services/api/internal/worker/worker.go, which takes tasks from Queue where there is
--                no SQS. InProcess/Client is services/api/internal/ai/client.go.
--   Journeys     tasks that pass from the API to a worker, over the shared table.
--   LoadTest     cmd/loadtest: the collector (collector.go), its percentiles, the report and its verdict
--                (report.go), the queue's depths (queue.go), the sender (sender.go) and the run (main.go).
--   Chaos        cmd/chaos: the table of runs (internal/chaos/chaos_run.go), the verdicts (report.go), the
--                stages of a scenario and the suite (runner.go), and main.go. A scenario is a record of
--                functions on any type of worlds, as scenario.go asks for. The six of
--                internal/chaos/scenarios are Chaos/WorkerCrash, QueueFlood, AiFailure, RuntimeHang,
--                SlowInference and PostgresFailure, over the calls of Chaos/Ops and with what they
--                share (helpers.go) in Chaos/Helpers. Chaos/Waits and Chaos/Checker are
--                internal/chaos/checker/checker.go, Chaos/Docker is internal/chaos/docker/controller.go;
--                both give such calls from tables and from a Docker client.
--   Alerts       the alert list: ListAlerts of services/api/internal/db/alerts.go and its handler.
--   ChaosApi     services/api/internal/handlers/chaos.go over the directories of reports and requests.
--   Views        what the dashboard reads: operations.go, runtime_metrics.go, recent_events.go, capacity.go and
--                traces.go of services/api/internal/http, operations.go and metrics.go of
--                services/api/internal/db, services/api/internal/tempo.
--   Prelude      association lists, channels, Boolean tests, lists.
--   Examples     concrete runs.
--
-- What stands outside is given: a `Link` says for each statement whether it runs and whether its
-- answer arrives, an `Env` what the AI runtime, S3 and the API answer to one attempt, a `Reply` how
-- one write of the watchdog fares, an `Answers` what the queries of one poll answer. Fresh ids
-- (uuid.New) are part of these; a theorem that needs them apart says so (`Working`, `Fresh`). Loops
-- are structural recursion on lists, so that no fuel is needed, but for the endless loop of the
-- worker in the API: there the fuel is the number of tasks taken, and as many as wait are enough.
-- A loop that polls until a deadline is recursion on the list of its turns, the end of the list being
-- the deadline; a reader of pages has fuel for one page more than there are alerts, which is enough.
-- The rate limiter's float balance is exact: billionths of a token; so are the percentiles of the load
-- test, on whole measurements, where the source rounds in float64. Locks are modelled by each
-- method being one step.
--
-- Not modelled: chi and its choice of a route, the HTTP requests of the chaos scenarios, the printing of
-- the load test, telemetry, Prometheus metrics but for the worker's queue gauges, start-up and its
-- configuration but for the watchdog's, the Python runtime and the frontend.
pub mod Prelude
pub mod Tasks
pub mod Healing
pub mod Processor
pub mod Detector
pub mod Queue
pub mod Broker
pub mod RateLimit
pub mod Api
pub mod InProcess
pub mod Journeys
pub mod LoadTest
pub mod Chaos
pub mod Alerts
pub mod ChaosApi
pub mod Views
pub mod Examples
