-- ===== src/Lib.antt =====
-- teaql-python: a model of the runtime's own logic, with the theorems that make it correct.
--
-- The program. Generated code builds queries and changes of an entity graph. The changes gather in a ledger
-- that the graph shares (core/entity.py); the runtime turns them into commands (core/mutation.py), which the
-- SQL dialect compiles into statements with bound values (sql/dialect.py); the rows that a query returns come
-- in a typed list (core/list.py). Beside this path stand the business identifiers, which a profile plans, an
-- allocator numbers, in memory or in a database, and a keyed permutation encodes (core/business_id.py,
-- runtime/business_id.py, sql/business_id.py), the stream that rows are read from (runtime/query_stream.py), and the
-- bounded queue between the application's threads and the telemetry exporter (runtime/telemetry_queue.py).
--
-- The files, with the code they model (paths under src/teaql/):
--   Base         Python's dictionaries, sets, strings, integers and lists over the native numbers; tests as
--                Boolean functions; bitwise operations. Shared by every part.
--   Telemetry    runtime/telemetry_queue.py. Queue has the state of ExportQueue and a function for every
--                method: handoff, begin_export with its completion, prefix, wait_prefix, wait_idle, close,
--                abort_queued, reject_late, snapshot. Books, Entries, Phases, Settling, Exports, Keeping,
--                Balance, Refusals and Withdrawal prove what each keeps; Runs has the calls in any order, Fair,
--                Excess, Once, Admissions and Offers what holds whatever a submit does before it raises;
--                Waiting the timed wait.
--   BusinessId   core/business_id.py and runtime/business_id.py. Core has the data classes with their checks,
--                Allocations the allocator in memory, Permutation the Feistel rounds, the cycle walk and the
--                base-36 digits, Profile the profile's plan, encode and format. HMAC is a parameter.
--   BusinessId/Store  sql/business_id.py: the allocator of the database. Table is the interface of the database,
--                Allocator a call from one await to the next and the concurrent calls of all processes.
--                Growth, Returns, Fresh and Unique are about its numbers, Bounds about the range, Counted and
--                Refinement about the allocator in memory, Progress about its end, Solo about a call alone.
--   Ledger       core/entity.py. Defs has EntityKey and EntityChangeSet, Root the methods of EntityRoot, Merge
--                its import of another root. Changes, Imports, Merging, Renaming, Reads and Soundness prove
--                what they do; Reachability has the roots that calls can make.
--   Sql          sql/dialect.py: Core has entities, commands and statements, Writes compile_insert,
--                compile_update, compile_delete and compile_recover. Numbering and Order are about the
--                placeholders, Ordinary and Versions about optimistic locking, Identifiers about their quoting. Exprs has
--                the expressions of core/expr.py and the queries of core/query.py; Operators, Clauses, Parts
--                and Select compile them. Texts, Counted, Silent, Assembly and SelectOrder are about the
--                placeholders of a SELECT, Plain about the queries they are proved for.
--   Query        core/query.py: Limits has the limits of a list and of a slice, Filters the filters and the
--                removal of the live-row filter; Limiting, Refusing and Deleted prove what they do.
--   Trace        core/trace.py: Paths has the canonical path and the readback path of a SQL statement, Canonical is
--                about making it twice, Readback about the readback of a statement's path.
--   Stream       runtime/query_stream.py: TypedStream is the stream from one await to the next, Ends is about what
--                its operation records.
--   Rows         core/list.py: SmartList has the typed list and its functions, Grouping group_by and the
--                identity map, Merging merge_by.
--
-- How the code is read. A method is a function from the state and its arguments to the new state; a raised
-- exception is a value. A lock that is held through a method makes it one step, and threads are the order of
-- the steps. Strings are lists of code points. Dictionaries keep their insertion order. The 32-bit arithmetic
-- of the permutation has its masks written out. Copies of values are the values.
--
-- Loops. Each loop over a list is a recursion on it. The cycle walk of the encoding, a `while` in the source,
-- has as fuel the 2 ^ 32 blocks of the permutation; the walk visits no block twice before it is back in the
-- domain, so the fuel is never used up, which is proved. The wait of the queue is a recursion on the
-- observations of the clock and the state that it makes. A call of the database's allocator has its hundred
-- attempts as its bound, as in the source, and ends by then whatever the other calls do, which is proved.
--
-- Not modelled: the wire clients, transports and web adapters, which pass data on; the exporters of logs and
-- traces; and the parts listed as such in the components of PROJECT.json, the executor above all. Of the
-- query compiler, what a log line retains of a LIKE operand is left out, and whether a statement is trusted.
pub mod Base
pub mod Telemetry
pub mod BusinessId
pub mod Ledger
pub mod Sql
pub mod Query
pub mod Rows
pub mod Trace
pub mod Stream
