-- ===== src/Lib.antt =====
-- Kaiion is a proxy that sends requests to an OpenAI-compatible provider, live or as durable Batch
-- jobs. This library models its two stateful cores and the path of a request from the caller to
-- them, and proves what makes them correct.
--
-- The proxy (src/proxy.rs, src/jobs.rs). A request is read and identified (src/request.rs), routed
-- (src/routing.rs), and then scheduled and sent live, with retries, or stored as a job whose caller
-- waits on a stream of events (src/sse.rs). Errors are answered by src/error.rs.
--
-- The durable jobs. A job is a row of SQLite. A worker (src/driver.rs) reads its state and takes
-- turns: each turn uploads a file, asks for a Batch, polls it or stores its outcome, and records the
-- step by one conditional UPDATE (src/db.rs). Clients enqueue jobs (src/job_store.rs). Several
-- workers may drive one job, with a stale view of it, and the process may die between two calls.
--
-- The live scheduler (src/scheduling.rs, src/scheduling_policy.rs). Requests wait in memory until
-- every limit that matches them has room; a dispatch reserves usage and gives a permit, which is
-- completed, aborted or dropped.
--
-- Files and the code that they model:
--   Prelude      what the modules share: results, options, lists, texts, Boolean tests
--   Json         serde_json's values and maps; its parser and printer are the parameter Codec
--   Domain       src/domain.rs: Job, JobState, StoredOutcome
--   Openai       src/openai.rs: ProviderError, BatchObject, classify_status
--   Openai/Headers, Openai/Paging   the headers that are passed on, retry_after, and find_batch
--   Openai/Paging/Listing   find_batch on a listing of several pages
--   Openai/Content   parse_json and get_file_content, with_auth and url
--   Errors       src/error.rs: ProxyError, its code, status and response
--   Http         header maps of the http crate
--   Request/Headers, Request/Bytes   src/request.rs: UpstreamAuth, identity headers, resolve_mode, and
--                the bytes that hash_bytes feeds to SHA-256
--   Request/Normalize, Request/Identity   batch_supported, upstream_body and
--                NormalizedRequest::from_headers
--   Request/Inputs   estimate_tokens, is_tool_output, is_user_prompt, response_usage
--   Request/Agreement, Request/Batch, Request/Injective, Request/Labels   their theorems
--   Routing      src/routing.rs: RoutingPolicy::decide and the test of load
--   Routing/Workload, Routing/Estimates   what it reads of a request, told without its tests
--   Routing/Allowance, Routing/Modes   when it chooses a live request
--   Sse          src/sse.rs: the events of a stream
--   Sse/Numbers, Sse/Texts, Sse/Deltas   their numbers, the texts of an output, and the deltas
--   Proxy/Route, Proxy/Handlers   src/proxy.rs: route, make_schedule_request, responses,
--                explain_route, the aliases of models, and the plain answer of batch_response
--   Proxy/BatchStream   the stream of batch_response, round by round
--   Proxy/Retry, Proxy/Answers   scheduled_direct_response and scheduled_upstream_response
--   Proxy/Usage   SseUsageTracker
--   Proxy/Route/Resolved, Proxy/Handlers/Modes, Proxy/BatchStream/Orderly,
--   Proxy/BatchStream/Delivered, Proxy/Retry/Permits,
--   Proxy/Retry/Runs, Proxy/Usage/Buffers, Proxy/Usage/Lines, Proxy/Usage/Stream   their theorems
--   Jobs         src/jobs.rs and list_owned of src/job_store.rs
--   Jobs/Isolation   who sees a job
--   Db/Rows      src/db.rs: PersistenceError, RawJob, Job::try_from (decode), status_of
--   Db/Table     migrations/0003_typed_job_state.sql and 0004_durable_requests.sql: the tables, the
--                CHECK of a row, and UPDATE
--   Db/Transitions, Db/Requests   the methods of Database in src/db.rs and src/job_store.rs
--   Db/Enqueue   enqueueing the same request again
--   Db/Decoding, Db/Machine, Db/Moves, Db/Refinement   the decoder against the CHECK, and the
--                abstract machine of one job that the methods implement
--   Db/Statements, Db/Safety, Db/Operations   lemmas on statements, and the budget of one Batch
--                for each job, which every operation keeps
--   Driver/Output, Driver/Advance, Driver/Turn   src/driver.rs: reading a Batch's files, `advance`,
--                and one round of the loop of `run`
--   Driver/Records   which record of an output file decides a job
--   Driver/World   the database with the trace of what was asked of the outside
--   Driver/Soundness, Driver/Submission, Driver/History   every turn keeps the budget; histories
--   Scheduling/Policy, Scheduling/Int   src/scheduling_policy.rs, and its signed settings
--   Scheduling/Types   the types of src/scheduling.rs
--   Scheduling/Quota, Scheduling/Pacing, Scheduling/Readiness   rolling windows, pacing, readiness
--   Scheduling/Priority, Scheduling/Dispatch   scores, dispatch_ready and dispatch_available
--   Scheduling/Scheduler   the blocks of acquire, complete, abort and the drops
--   Scheduling/Windows, Scheduling/Rolling, Scheduling/Paces, Scheduling/Room, Scheduling/Choice, Scheduling/Termination,
--   Scheduling/Concurrency, Scheduling/InFlight, Scheduling/Steps, Scheduling/Validation   their
--                theorems
--   Scheduling/Room/Counted, Scheduling/Room/Granted   what a limit has left for a request
--   Tests        runs of the model
--
-- How the code's state is modelled. One SQL statement, and one transaction of job_store, is one
-- atomic step on a list of rows; whether SQLite fails, its clock and its message for a refused row
-- are the parameter Engine, and job_store's methods are modelled where SQLite does not fail. The
-- provider is the parameter Outside, which answers by the trace so far. created_at and updated_at
-- are left out, since nothing reads them. A block of the scheduler that holds the lock is one step,
-- at any time of the clock; a HashMap is a list of pairs in the order in which it is iterated.
-- f64 is the parameter Floats, and Amounts in routing. Sums of u64 wrap as in a release build. What a
-- waiter was sent is kept in `delivered`; that a receiver is gone is `closed`, and that a send fails
-- is `refuses`. A turn of a worker is one step of the histories.
--
-- How a request is modelled. A header is a name with what `to_str` makes of its value. SHA-256, the
-- url crate and serde_json's texts are the parameter Crates; what is hashed is written out in bytes.
-- What a handler awaits is an argument: the answers of the scheduler, the provider and the clock in
-- each round of scheduled_direct_response are a Script, and what wakes the stream of batch_response
-- is a list of Rounds. The permits that the loop is granted, uses and settles are a list of
-- PermitActions. An event is kept as its kind and JSON, which event_text writes.
--
-- Bounds. find_batch runs on fuel, of which a listing needs one for each page, and the retries run
-- along a Script, of which one more than max_retries is enough. Sequence numbers are exact: a u64
-- would have to be counted to its end. dispatch_available runs on fuel one more than the number of waiting requests, which is
-- enough, since a round that is repeated at once has shortened the queue. u64 bounds are written
-- out; sums of tokens are assumed below 2 ^ 64 where a theorem says so.
--
-- Not modelled: start-up in src/proxy.rs, resume_from_env in src/jobs.rs,
-- configuration and process control (src/config.rs but for Mode, src/configure.rs, src/lifecycle.rs,
-- src/atomic_file.rs, src/job_cli.rs, src/main.rs), the transport of src/openai.rs, and the registry
-- of workers, in whose place the histories allow any number of workers for one job.
pub mod Prelude
pub mod Errors
pub mod Json
pub mod Domain
pub mod Sse
pub mod Http
pub mod Request
pub mod Routing
pub mod Proxy
pub mod Jobs
pub mod Openai
pub mod Db
pub mod Driver
pub mod Scheduling
pub mod Tests
