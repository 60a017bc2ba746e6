-- ===== src/Lib.antt =====
-- M365 Backup: the core of the program that backs up Microsoft 365 tenants.
--
-- The program's parts. The runner (internal/backup/job.go) queues jobs, each for a tenant
-- and service, and runs each in a goroutine. A service's run pulls items from the Graph API and
-- writes them to the tenant's catalog (internal/catalog/store.go), whose rows name encrypted blobs
-- by hash (internal/blobstore/store.go); at its end the job commits a generation with its manifest,
-- and Smart Recycle (internal/storage/retention.go, internal/catalog/retention.go) gives up old
-- generations and the blobs that nothing references. Delta tokens (internal/db/token.go,
-- internal/backup/delta.go) let the next run go on where the last one was, and the watchdog
-- (internal/backup/watchdog.go) kills runs that make no progress. Requests reach the program through
-- the middleware of internal/api/auth.go, and internal/notification tells about the ends of jobs.
--
-- Which file models which part:
--   Base       names, lists, Boolean tests, texts as lists of bytes, integers
--   Clock      Go's time package: instants in nanoseconds, calendar dates and ISO weeks
--   Paths      Go's path and strings functions that the catalog calls
--   Retention  internal/storage/retention.go: the policy, SelectSmartKeepIDs
--   Jobs       internal/db/job.go: CreateJob, UpdateJob, UpdateJobProgress, FailOrphanedJobs, counts
--   Tokens     internal/db/token.go and internal/backup/delta.go
--   Runner     internal/backup/job.go: Runner/Enqueue is EnqueueParams and enqueueLocked;
--              Runner/Life is Cancel, KillStale and the parts of runJob that write the job;
--              Runner/Threads lets the steps of all goroutines follow in any order
--   Watchdog   internal/backup/watchdog.go: check, evaluate, prune
--   Blobs      internal/blobstore/store.go
--   Catalog    internal/catalog: Item and Rows are the items and their table, Store the operations
--              on items, Commit the generations, Recycle the retention and GCBlobs, Restore is
--              Materialize with the path checks of internal/storage, Import the import of sync/,
--              Browse the listing, the search and the opening of files,
--              Overview the counts and lists, and EmptyLocalData
--   Auth       internal/api/auth.go, internal/db/user.go and the handlers of login, logout and API
--              tokens of internal/api/router.go: Users are the tables, Sessions is SessionStore,
--              Access the middleware and the handlers
--   Sync       internal/backup/onedrive.go, exchange.go and reuse.go, internal/graph/client.go: Fetch
--              is GetBytes, Pages the loop over the pages of a delta query, Drive and Mail what it
--              does with an item, Users is backupOneDrive
--   Notify     internal/notification: Message is the mail, Webhook the address filter, Send is Send,
--              Expiry is CheckSecretExpiry of internal/tenant/keycheck.go
--   Schedules  the table of schedules in internal/db/job.go, EnsureDefaultSchedules of
--              internal/tenant/manager.go and Reload of internal/backup/scheduler.go
--   Tests      runs at concrete inputs
--
-- State and operations. A table of the database is the list of its rows, a method is a function of
-- the state that returns the new state, and the calls of SQL are functions on rows that keep what
-- the schema's unique indexes keep. Go's maps are functions or lists. Errors are `none` or values
-- of a type of their own, as in Jobs (DbResult) and Runner/Enqueue (Enqueued). The state of the
-- runner is `World`; a run of a job is cut into the parts between its looks at the database, so
-- that calls of other goroutines can stand between them; commit_progress is the callback with which a
-- commit writes the row meanwhile. A login request has two parts, begin_login and end_login, between
-- which those of others can stand.
--
-- Bounds and fuel. No definition needs fuel: every loop runs over a list. The pages that the Graph
-- API gives one after the other are such a list, at the end of which the next request fails, and
-- get_bytes counts the rounds that mimeMaxAttempts allows. time.Duration is taken
-- modulo 2^64, as int64 wraps around, where the retention multiplies hours; the other counters are
-- natural numbers, far below 2^63 for any store that exists.
--
-- Parameters. SHA-256 and AES-GCM (Blobs.Crypto), the JSON decoder of the policy, the fresh UUIDs,
-- the clock, and the survey of the stores that Enqueue makes are arguments; what the theorems ask
-- of them is a hypothesis, which the tests fulfil with concrete functions. So are bcrypt, the answers
-- of the Graph API and of a download's requests, url.Parse, net.SplitHostPort and the decoder of MIME
-- headers.
--
-- Not modelled: the requests to the Graph API themselves, the handlers of pages and forms, the bodies
-- of webhooks, the encoding of manifests, PST exports, cron, zip archives, failures
-- of the disk and of the database other than refused writes, progress messages and loggers, and the
-- semaphores and file locks of the runner. White space outside of ASCII is not trimmed. The delta
-- token of a page is always written: that the context ends within the last item of a page, so that
-- the write is dropped, is left out. Enqueue is one step, but for the INSERT that Runner/Threads has
-- apart too, and the contexts of the requests that cancel jobs are not cancelled.
pub mod Base
pub mod Clock
pub mod Retention
pub mod Jobs
pub mod Tokens
pub mod Runner
pub mod Auth
pub mod Watchdog
pub mod Schedules
pub mod Paths
pub mod Blobs
pub mod Catalog
pub mod Sync
pub mod Notify
pub mod Tests
