-- ===== src/Lib.antt =====
-- The hotload driver, package hotload of the repository (driver.go, conn.go, transaction.go) with
-- the file-watching strategy (fsnotify/filewatcher.go), the monitor of modification times (modtime),
-- the checksums of watched paths (metrics/pathchksum_metrics.go) and the helpers of package internal.
--
-- hotload is a database/sql driver. The driver's Open finds or makes a group (chanGroup) for a
-- location such as fsnotify://postgres/path. A strategy, named by the scheme, reports the
-- location's connection string and its changes; the group's thread, runLoop, receives them.
-- Connections of a group (managedConn) wrap those of the underlying driver, named by the host. A
-- change starts a new context and an empty list of connections; connections of the previous value
-- are marked, so that database/sql drops them at its next ResetSession or IsValid, and those of the
-- value before that are closed and their context is cancelled. With forceKill the previous
-- connections are closed and cancelled at once.
--
-- Files, and the code that each models:
--   State         the data of conn.go, driver.go and transaction.go, and the driver's calls
--   Conn          managedConn (conn.go): close, Close, IsValid, ResetSession, Prepare, Exec,
--                 ExecContext, Query, QueryContext, CheckNamedValue, the flags and the counters;
--                 Conn/Evolves and Conn/Frame hold what a method may change
--   Transaction   Begin and BeginTx (conn.go), managedTx and the labels (transaction.go);
--                 Transaction/Lifetime follows one from BeginTx to its end
--   Dsn           mergeConnStringOptions (driver.go); Dsn/Merging holds the query that it makes
--   ChanGroup     chanGroup (driver.go): Open, parseUrlValues, criticalSection, processNewValue,
--                 runLoop. ChanGroup/Reporting has the metrics of runLoop. ChanGroup/Steps
--                 interleaves runLoop with the calls of database/sql, one move of a thread at a
--                 time: `receive` is a value taken up to the end of the critical section and its
--                 metrics, `act` is one call that follows, `on_conn` a client's method,
--                 `see_parent` the end of the parent context. The other children hold the
--                 invariant, its preservation and what follows
--   Registry      the registries of drivers and strategies, WithDriverOptions (driver.go);
--                 Registry/Names holds SQLDrivers and Strategies
--   HDriver       hdriver.Open (driver.go)
--   Text          strings.TrimSpace and path.Clean of Go's library
--   Fsnotify      Strategy, pathWatch and queryWatch (fsnotify/filewatcher.go): Watch, CloseWatch,
--                 setVal and resync; Fsnotify/Close has processWatchClosure and Close, Fsnotify/Loop
--                 the thread runLoop with its failed paths, Fsnotify/OpLoop the thread opLoop with
--                 sendUpdate, Fsnotify/Locking the mutex, the threads that wait for it and the
--                 queries' receivers; Fsnotify/Channels puts the operations in sequence and
--                 counts the update channels
--   EndToEnd      that strategy's threads and the group that receives from its channel;
--                 EndToEnd/AllGroups has all queries of a call, with the mutex
--   PathChksum    metrics/pathchksum_metrics.go, whose set of paths the strategy's Watch adds to;
--                 Fsnotify/Channels/Labels follows its labels
--   ModTime       the options and the checks of modtime/modtime_monitor.go and
--                 modtime/modtime_options.go; ModTime/Running holds runLoop
--   Internal      internal/nonrandom_reader.go, internal/secret_sink.go, internal/url.go (Redact),
--                 internal/safe_mapfs.go (SafeMapFs), and internal/regexp_line_diff.go with
--                 internal/prometheus.go (LineDiff)
--   Logger        logger/logger.go and logger/errlogger.go
--   Metrics       metrics/prometheus.go
--   Prelude       Boolean tests, lists over the native numbers, association lists
--
-- A pointer is a number that indexes a heap or a table of contexts. A map is an association list,
-- nil is `none`, a panic is the outcome `panics`. The underlying driver is a record of
-- functions of the calls so far and of the call (SqlDriver), so that any behaviour of it, failures
-- included, is covered; net/url (UrlLib), a strategy's Watch, and the watcher and the files
-- (Environment) are parameters in the same way, and what RedactUrl answers is an argument. Counters
-- are int64, kept as the number that their 64 bits make, modulo 2^64, which is the count below 2^63.
-- Every loop of the source that is modelled runs over a list, so no fuel is needed; each runLoop runs
-- over the list of what its select receives, and opLoop is a relation between the states before and
-- after a move.
--
-- An operation that holds a mutex is one move, but for Fsnotify/Locking. The strategy's operations
-- take it that a buffer has room for what they send; Fsnotify/OpLoop bounds the buffer by 30, as
-- Watch makes it, and a thread there may be blocked. Fsnotify/Locking has the strategy's mutex with
-- such bounded buffers, for a fixed number of queries that are watched throughout, and leaves open
-- which of them a call concerns; its measure bounds the moves between two calls. Times and what uuid
-- answers are arguments.
--
-- Not modelled: the calls of logf and errlogf, which only write logs through package logger; the
-- declarations that metrics/prometheus.go registers with the client library; the integration tests.
pub mod Prelude
pub mod State
pub mod Conn
pub mod Transaction
pub mod Dsn
pub mod EndToEnd
pub mod ChanGroup
pub mod Registry
pub mod HDriver
pub mod Text
pub mod Fsnotify
pub mod PathChksum
pub mod Internal
pub mod ModTime
pub mod Logger
pub mod Metrics
