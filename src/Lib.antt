-- ===== src/Lib.antt =====
-- Sendly, a server for files that are encrypted in the browser: uploads in chunks over several replicas
-- of the server, which share a PostgreSQL database and a volume; quick share sessions between devices;
-- the local cache of the accounts that the identity service CNS keeps, with what a status and a rate limit
-- let through; events over websockets; and the jobs that clean up.
--
-- The parts of the program and where they are modelled:
--
--   Models (internal/models): files, key envelopes, upload requests, durations, and the errors that
--     callers tell apart.
--   Uploads (internal/storage/upload_sessions.go, filesystem.go, postgres.go and tracker.go;
--     internal/services/upload.go): Session and Store hold the tables and one function for each
--     statement of upload_sessions.go, Files the statements of finalize, Disk the calls on the volume.
--     Serve, Receive, Background, Expiry and Finalize are the methods of the service, which run these
--     statements and calls one after another. Requests and Calls are what replicas and clients ask for,
--     and the other modules prove what follows.
--   AccountStatus (internal/accountstatus): statuses, what they allow, and their expiry.
--   Users (internal/storage/users.go, internal/models/user.go): User has the row and the two functions
--     that compute the next one, Store the statements, Changes what asks for them.
--   Tunnels (internal/storage/tunnels.go, internal/models/tunnel.go): quick share sessions, their
--     participants, key envelopes and rejections, and the statements that change them; Changes is what
--     the handlers ask for. Auth (internal/handlers/tunnel_auth.go) says who a caller is to a session, and
--     Confirm (internal/handlers/tunnels.go) is the handler that asks it before a session is started.
--   Transfers (internal/storage/transfers.go, internal/models/transfer.go, and the end of ShareFileToUser
--     in internal/handlers/sharing.go): sends of a file to a user and their answers. Store has the
--     statements, Changes what asks for them.
--   Coordination (internal/storage/coordination.go): the counters of rate limits, the results of token
--     refreshes and the runs of jobs that replicas share.
--   Retention (internal/storage/retention.go, internal/services/retention.go): Batch, Counts and Store
--     have the purges on the rows of the database, Run the loop over their batches.
--   Cleanup (internal/services/cleanup.go and the listings of internal/storage/filesystem.go): a cycle of
--     the cleanup on the tables and the volume of Uploads. The purges that it begins with are an argument
--     of it, and so is what other replicas do before it lists the disk, and between a lookup
--     and a deletion.
--   UserCache (internal/services/user_cache.go): the rounds that ask CNS about the users of the cache.
--     They run the statements of Users, and the answers of CNS are arguments.
--   Edge (internal/middleware/account_status.go, tiers.go and ratelimit.go): what of a request the status
--     and the tier of its account let through, by the rules of AccountStatus, and the three limiters, which
--     count with the statement of Coordination.
--   Realtime (internal/realtime/hub.go and conn.go): sockets with their queues, and the hub that registers
--     them and hands out events. Each step of a goroutine is a function, and they run in any order.
--
-- How code becomes a definition: a statement of SQL is a function on lists of rows, and takes effect at
-- once. Statements of several replicas are a list in the order in which the database runs them. A method
-- that runs several runs them one after another. What others do within it is an argument where the code
-- depends on it: between the lookup of a file and the deletion of its blob, between the checks of a
-- finalize and the row that it writes, and between the two listings of the cleanup. A statement may be
-- failed by the driver, and a system call by the operating system: `Db` (Common/Effects) has a list that
-- says which of those still to come are failed. A transaction that fails, or whose commit does, leaves the
-- tables as they were. An error is a value beside the state that was reached.
-- Time is the number of nanoseconds since Go's zero time, and the clock at a call is an argument of it.
-- Drawn identifiers, the collation of the database, the text in which it gives back a JSON document and
-- the cancellation of a context are arguments too.
--
-- Loops run on the lists they go through. The loop of InitUpload has two rounds after the first and the
-- one that draws a numeric code has ten, as the source bounds them. The loop that drops expired sessions
-- is bounded by an argument, and so is the one that records the outcome of an assembly, by the list of
-- its failures up to the deadline; the theorems are stated for any bound. Retention runs at most 100
-- batches of 500 rows, a pass over the directory of CNS at most 20 batches of 100 users, and the queue of a
-- socket holds 32 events: these are the constants of the source.
--
-- Not modelled: HTTP handlers, pages and clients of other services, which decode, render and transfer;
-- the configuration, the locale and the migrations; the list of transfers, device enrolment and what
-- the handlers of tunnels do once they know the caller, which would come next. The parsing of
-- network addresses, the encoding of events and the hashes of tokens and of a lock's key are code of Go's
-- and PostgreSQL's libraries. Column widths and the range of integers are not part of the model either:
-- sizes and counts are natural numbers.
pub mod Common
pub mod Models
pub mod Uploads
pub mod AccountStatus
pub mod Users
pub mod Tunnels
pub mod Coordination
pub mod Retention
pub mod Cleanup
pub mod UserCache
pub mod Edge
pub mod Realtime
pub mod Transfers
