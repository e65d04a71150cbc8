-- ===== src/Lib.antt =====
-- The Conductor dashboard is a Next.js server over SQLite with a React client. Agents and people work
-- on tasks; a pipeline run spawns one agent process for each of its steps; events go to webhooks; a
-- client mirrors the server's lists in a store. This library models the parts that decide something.
--
-- Task: src/lib/task-status.ts, and the statuses of src/lib/db.ts. Status and assignee of a task.
-- Queue: src/app/api/tasks/queue/route.ts. The route's SQL is a choice from a list of rows and an UPDATE of
--   it; `poll` is the handler once the agent and the capacity are read, `get` with both. The loop of
--   five rounds is `pick_up`, recursion on the rounds that are left; what other processes do between a
--   SELECT and its UPDATE is an argument. Of rows that sort alike, SQLite may take any; the model takes
--   the last of the scan.
-- RateLimit: src/lib/rate-limit.ts. The map from addresses to windows is a function; the clock, the trusted
--   proxies and MC_DISABLE_RATE_LIMIT are arguments.
-- Review: src/app/api/quality-review/route.ts and the bulk PUT of src/app/api/tasks/route.ts. A task that is to
--   be done needs the approval of Aegis. The transaction is a fold that stops at the first round that
--   throws, and then the state before it stands.
-- Mentions: src/lib/mentions.ts. The pattern of a mention is matched by functions on the text, of which
--   `matches` goes through it once and skips what a match has taken. Resolve has the targets and who is
--   meant. toLowerCase is an argument.
-- Provision: src/lib/super-admin.ts and POST of src/app/api/super/provision-jobs/route.ts. Plan has the steps
--   of a job, Fields and Request what queues one, Jobs its approval, Run and Execute its execution, split
--   where it waits for a command. System plays requests, executions and the outcomes of commands in any
--   order; Rule has what holds of the executions that wait, Lifecycle the abstract course of a job, Finish the end of
--   executions, Restart the jobs that a stopped server leaves. toLowerCase, paths and the environment
--   are arguments; a row's runner_host, its keys and a tenant's config are left out.
-- Project: POST of src/app/api/tasks/route.ts, src/app/api/tasks/[id]/route.ts, the routes of src/app/api/projects
--   and createTask of src/app/api/integrations/nimbus/route.ts. Allocate has the counter of a project, Create
--   what makes a task, Changes and Edit what edits or deletes one, Slug and Manage the projects; History
--   plays their requests in any order. Ids are keys of the tables, and ORDER BY id LIMIT 1 is the first id below the next one.
-- Scheduler: src/lib/scheduler.ts. Tick has the loop that runs due tasks, split where it awaits a run, so that
--   other ticks may fire meanwhile; Check the heartbeat check. What a run does is an outcome that comes back.
-- Pipeline: src/app/api/pipelines/run/route.ts. A run is a row with its steps. Steps has what a run does to
--   its steps, Spawn the start of a child, Ops the exit of a child and the advance request, Control
--   cancel, start and the dispatch of POST. An operation that awaits a spawn is split where it waits, and
--   waits in a table of the model: History plays any sequence of requests, exits and spawns, so that
--   others come between. A step without a template is not spawned, and its operation goes on at once.
-- Webhook: src/lib/webhooks.ts. Deliver has one delivery with its circuit breaker and retry, Retry a batch
--   of due retries, Events the listener, the choice of targets and signatures. What fetch answers, the
--   clock, random numbers, the HMAC and the bytes of a text are arguments. MAX_RETRIES is an argument, 5 by default.
-- Auth: src/lib/auth.ts, src/lib/password.ts and the routes login, logout, me and users of src/app/api/auth. Headers
--   has the cookie and the key of a request, Sessions the accounts and sessions, Principal who a request
--   comes from and requireRole, Login, Users and Profile the routes; History plays them in any order. An
--   account is kept under its id, a join is the first row with a partner. scrypt, SHA-256, random texts, JSON.parse,
--   decodeURIComponent and toLowerCase are arguments; a handler that throws is a reply of its own.
--   The login with Google, access requests and the routes of agents' keys are left out.
-- DataRoom: src/lib/data-room.ts, the routes of src/app/api/data-rooms that change something, and those of
--   src/app/api/room. Tables has the rows and what a deletion cascades to, Manage and Links what administrators
--   do, Visit how a visitor enters, Read what a visitor is sent and reports; History plays them in any order. The
--   file system and random tokens are arguments, durations are whole numbers. Analytics and their CSV are left out.
-- Store: src/store/index.ts. Each action takes the slice of the state that it reads and gives the slice that
--   it sets.
-- Common: Boolean tests, lists over the native numbers, tables, and JavaScript's text functions.
--
-- The parts interact through the tables: tasks that Queue hands out and Review moves have the
-- statuses of Task, a pipeline's steps link tasks, and the events of both reach Webhook's listener.
-- The login of Auth asks RateLimit before it looks at a password.
--
-- Numbers of the source are natural numbers here, as ids, times and counts are; message ids, which may
-- be negative, are a type of their own. Subtraction stops at 0, as Math.max(0, ...) does where it is
-- used. A database that fails, the text of log lines, and the HTTP layer are left out, and so
-- are roles outside Auth.
-- Pages, components, the gateway's protocol and process control only call what is modelled, or lie
-- outside the library.
pub mod Auth
pub mod Common
pub mod DataRoom
pub mod Task
pub mod Queue
pub mod RateLimit
pub mod Review
pub mod Mentions
pub mod Provision
pub mod Project
pub mod Scheduler
pub mod Pipeline
pub mod Webhook
pub mod Store
