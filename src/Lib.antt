-- ===== src/Lib.antt =====
-- natbox runs Incus or LXD containers behind one HTTP server. This library models its Go code and
-- proves what the parts promise. The program's parts, and the file of each:
--
-- Store (internal/store/store.go) keeps two SQLite tables, the managed containers and the audit log.
--   `Db` is their rows in insertion order; each method of the Go Store is a function of the same name in
--   snake case (UpsertContainer is upsert_container, ListAudit is list_audit). A statement first asks the
--   schedule `faults` whether the driver refuses it. Rows, Keys, Paging and Restored hold lemmas on the
--   tables; Declared, Restoring, Pages and Calls what the methods promise, and History how any use of them
--   changes the database. Schema is Open and the migration, over the tables and columns of a file.
-- Incus (internal/incus/client.go) drives the runtime's command line. `Runtime` in Incus/Runner is the
--   program that is run: its state, what a command line does, and how its JSON is decoded. Query has
--   List, Info, Stats and WaitIPv4; Lifecycle has Start, Stop, Restart, Delete and Create; Forwards the
--   port forwards (Endpoint, Listing, Adding); Ssh has ConfigureSSH.
-- App (main.go, policy.go, reconcile.go, host_linux.go) is the application over both: `System` in
--   App/Base pairs the runtime's state with the database. Capacity has hostView and checkCapacity; Host
--   reads /proc/meminfo and the file system, as readHostSnapshot does; Create, Names and Bulk have the
--   creations; Ssh has allocateSSH and checkSSHCapacity; Policy the quotas and their enforcement;
--   Reconcile the report, with Report on its lists and Shared on its ports; Actions start, stop, restart,
--   delete and the repair of drift, and Acting what they leave.
-- Auth (admin_auth.go, and authMiddleware in main.go) has the administrator's sessions, the limit on
--   failed logins, also where logins run at the same time (Sessions/Racing), the constant-time comparison
--   and the middleware; and internal/auth/password.go, which hashes, parses and verifies passwords
--   (Password; Command is cmd/natbox-hash/main.go).
-- Api (main.go) is the HTTP interface: Answer has requests and answers, Errors classifyError, Targets the
--   routes of the ServeMux and those inside containers and containerAction. Reading and Metrics have the
--   handlers that only read, Containers and Administration those that change something.
--   Serve takes a request through the middleware and the mux to its handler, over `Server`, the sessions
--   and the `System`; Startup has the checks of main before it serves. Reach, Open, Quiet, Safe, Guarded
--   and Protected say what requests can do.
-- Backups (backup_scheduler.go, and BackupDatabase of internal/store/store.go) has the copies of the
--   database: Files is the files and the calls of package os, which the system may refuse, Copying the
--   publishing of a copy, Pruning and Retaining what is taken away, and the parent module
--   pruneBackups, backupOnce and the runs of the timer.
-- Program (main.go and the schedulers of policy.go, reconcile.go and backup_scheduler.go) is the running
--   server: Timers has which timers run and how often, and `run` takes a list of events, the requests and
--   the runs of the timers, through the server, the runtime, the database and the files.
-- Prelude has what they share: Boolean tests, lists over the native numbers, int64, text, and functions
--   that return `(value, error)` as `Exec S A = S → Result A × S`, where what was changed before an
--   error stays changed.
--
-- The lock mutationMu makes each handler that writes one uninterrupted function of the state, as does
-- the mutex of adminAuth for each function that takes it. A map is an association list. int64 is ℤ with
-- the wrap-around `wrap64` written out.
--
-- Fuel and bounds: itoa takes its number plus one as fuel, and a number has no more digits than that.
-- WaitIPv4 loops until its context ends; the number of ticks that the context leaves is an argument.
-- The search for a free port takes the size of its range. versionedAPI calls the mux again with a path
-- that is three characters shorter, so the length of the path is fuel enough for the mux.
--
-- Parameters, for code outside the repository: the runtime and the JSON decoders (Runtime), package time
-- (TimeFormat), package net's addresses (Net), argon2 (Idkey), the random salt and tokens, the decoders
-- of bodies (Json), which statements the driver refuses and its text for a duplicate key (Db), which
-- calls the operating system refuses (Disk), and the lines and sizes that it gives of the host, which are
-- arguments of read_host_snapshot. formatBytes, which uses floating point, is a parameter too;
-- it is only shown in error texts.
--
-- Requests are those whose URL has no escaped character in its path, which the mux of net/http would match
-- as it is written. Their method is not CONNECT.
--
-- Not modelled: listening and the shutdown in main and the waiting of the timers (input and output; a tick
-- is an event), headers and the encoding of bodies, host_other.go (it only fails), the terminal of
-- natbox-hash, the static page.
pub mod Prelude
pub mod Store
pub mod Incus
pub mod App
pub mod Auth
pub mod Api
pub mod Backups
pub mod Program
