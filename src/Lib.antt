-- ===== src/Lib.antt =====
-- Verification of sequel, a Go library over database/sql that lets one SQL text run on MySQL, MariaDB,
-- PostgreSQL, CockroachDB, SQL Server and SQLite.
--
-- A statement passes through these parts, each a file here with its children:
--   Driver         db.go, physicalDriverName: the driver names that the branches of the program mention.
--   Lex            sqllex.go, skipNonCode: what in a statement is a string, a quoted name or a comment.
--   Placeholder    db.go, conformPlaceholders: from ? to $1, $2, ... over what Lex skips.
--   VirtualFunc    vf.go: the registry of virtual functions, the scan that expands their calls (Scan), the
--                  arguments of a call (Args), and the handlers of the six functions that are built in
--                  (Pairs, Dates, JsonField, TextSearch).
--   QueryCache     querycache.go: the cache of prepared statements with CLOCK eviction, and lookups that
--                  interleave with registrations of virtual functions (Interleaved).
--   Unpack         querycache.go, newPreparedQuery: the text that is sent, expanded and numbered.
--   Labels         telemetry.go: the verb and table that are reported of a statement (parseOperation, label).
--   Source         db.go: data source names (inferDriverName, pinSessionTimeZoneUTC, the names of SQLite), and, through
--                  the parsers of the drivers (Parsers), what Open makes of a name and the database in it (Setting).
--   Messages       db.go: the messages of errors, and stripLineComments.
--   Errors         db.go: IsLockContentionError and IsUndefinedTableError, by the codes of the drivers.
--   Nullify        nullify.go: the adapters for columns that may be null.
--   Migration      db.go, Migrate: the files and their statements (Files, Statements), the loop with its locks, and
--                  what its log says of what was run and completed (Guarded, Complete, Ends).
--   Pool           db.go, Open, OpenSingleton and Close: the handles, and the testing databases that they count
--                  (Counted) and drop (Dropped).
--   Transaction    tx.go, rows.go, stmt.go, and Row of telemetry.go: a transaction, what it latches, and how it ends
--                  (ShortCircuit); db.go, transactOnce and Transact (Transact).
--   Insert         db.go, insertReturnID: inserts that return an ID (Recorded), and the clause of SQL Server (Clause).
--   Batch          batch.go: a batch and its sending, as its transaction accounts for it (Account), and the rows
--                  that one round trip brought back (Rows); batchrows.go, batchrow.go: the rows that are handed
--                  out (Handed); batchresults.go: the reads and the closing (Reading); both ways of sending
--                  against one specification (OneTrip).
--   Base           what they share: lists, bytes, strconv; Tests: runs at concrete inputs.
--
-- A Go string is the list of its bytes. The functions of the packages strings and strconv are written out
-- in Base; letter case and blanks are those of ASCII. A position in a text is the pair of the bytes behind
-- it and those before it. A panic of an index out of range is `none`, an error is `err`. Scans that go
-- over a text run on fuel that counts bytes, and a text's length is enough, since every round consumes a
-- byte (Scan.Rewritten, Placeholder.Numbered). The repetition of expandVirtualFuncs is on fuel as well,
-- and no fuel is enough for every registry: a handler may write its own call again (Tests.Functions). The
-- generation of the cache wraps at 2^64.
--
-- A prepared query has an identity, and its one mutable field is kept by identity, so that the cache's map
-- and ring share it; hits mark entries while the hand sweeps. Goroutines are interleaved as atomic
-- actions; a generation is taken not to wrap around while a lookup is under way.
--
-- The database is a parameter: what it answers may depend on all that it was asked before, which the log
-- of a transaction keeps, newest first. The closure that Transact runs is a tree of calls that sees what
-- each returns, and may differ from attempt to attempt; it makes no batch, no InsertReturnID and no call
-- of Rows.Close. The log says of QueryRow that it was asked, and its error when the row is read. The
-- classification of an error as lock contention is a parameter too.
--
-- The objects that a batch's results share - items, results, rows that were handed out, transaction - are
-- one record, and rows are named by the order of their handing out, so that rows which a later read closes
-- stay in reach of the caller. The round trip of a batch is a parameter too: what the driver reports of
-- each statement.
--
-- Migrate runs against a server whose answers depend on the log as well; other runners, and the time that
-- a lock lasts, are the server's. A statement of the migrations table is named by what it does, and its
-- SQL is not interpreted. The polling is on fuel, and enough is given when other runners give up (Ends).
--
-- Opening and closing a handle are atomic actions. What the pools ask of a data source name is a parameter
-- that the parsed names fill (Pool.Driven); the drivers' parsers are parameters there, and hashStr is
-- taken not to collide.
--
-- Not modelled: panics, spans and metrics, the simulated round trips, redacted names in messages, and what
-- creates testing databases and sweeps those that were left over.
pub mod Base
pub mod Driver
pub mod Lex
pub mod Nullify
pub mod Placeholder
pub mod Pool
pub mod VirtualFunc
pub mod Unpack
pub mod Errors
pub mod Insert
pub mod Labels
pub mod Source
pub mod Messages
pub mod Migration
pub mod QueryCache
pub mod Transaction
pub mod Batch
pub mod Tests
