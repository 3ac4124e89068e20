-- ===== src/Lib.antt =====
-- A verification library for Rhyda, a Cassandra-compatible database in Rust over RocksDB. Paths are
-- from the repository's root.
--
-- A client's CQL frame is read and handled (src/server.rs, with the third-party crates scylla-cql and
-- cql3-parser), executed against the schema and the rows (src/query.rs, src/schema.rs,
-- src/cql_value.rs), and answered by a frame (src/protocol.rs). Rows lie in one or more RocksDB engines
-- (src/storage.rs). A row's key is the prefix of its table and the encoding of its key parts, and a
-- write goes through the engine's collector thread and committer thread, with a row cache in front.
--
-- What models what:
--   Schema     src/schema.rs: column types, their wire ids and names (Types, TypeNames), identifiers
--              (Idents), table definitions (Build).
--   Value      src/cql_value.rs: values and their two encodings (Types), the decoder (Decode,
--              with Tested on its tests before each index and slice), literals (Literal). Typing says which values a column type holds; Wire, Reads and
--              RoundTrip relate the encoder and the decoder, Sound is about the decoder on any
--              bytes, and Quoting is about string literals.
--   Keys       src/storage.rs: encode_key, decode_key_data (Parts; RoundTrip and Total are about
--              the decoder), the prefixes and prefix_upper_bound.
--   Rows       src/storage.rs: encode_row_columns and decode_row_columns.
--   Storage    src/storage.rs: an engine with its two queues (Engine; spawn_writer, batch_apply), the
--              order of writes through it (Pipeline, Commits), which engine holds a row (Routing), and reads
--              and writes of rows with the row cache (Rows, Reads, Stale,
--              Overtaken), scans over the engines' iterators (Scan; Callbacks and Ordered say what a
--              scan meets), the removal of prefixes, tables and keyspaces (Removal, Truncation).
--              Catalogue has the definitions of keyspaces and tables with their caches; Seed makes the
--              keyspaces of the system with their tables (System, Tables, Objects), the identifiers of
--              the host and the schema being arguments, and Making and Seeded say what it
--              leaves in the catalogue and finds there later.
--   Query      src/query.rs: the parser's trees (Syntax), errors, bind values and operands (Binds),
--              the selection (Select), filters (Filters), the address of a row (Address), INSERT and
--              DELETE (Insert), UPDATE (Update), and the projections of a row (Project). Scan and
--              PointRead relate the two projections, Upsert the two paths of UPDATE; Written says what
--              INSERT and DELETE leave. SELECT is the scan page by page (Pages), the limits, the point
--              read and the continuation (Selection), and exec_select (SelectRun); Paging, PageRows,
--              ScanRows and SelectPage say what a page holds. Ddl has USE, CREATE, DROP and TRUNCATE with
--              the rows of system_schema (Mirror), as computations on the storage (Steps). Execute
--              dispatches statements, AstCache is the cache of parsed texts, Prepare is prepared_info
--              with BindSpecs on its bind variables, Guarded is about the system keyspaces.
--   Protocol   src/protocol.rs: the answers (Frames) and what a client reads in a header (Header).
--   Connection src/server.rs: the state of a connection (State), the requests and their answers
--              (Handle), a round of the loop over frames (Receive), the writer task (Writer), and what a
--              request keeps of the connection (Kept).
--
-- Prelude holds the shared notation: Outcome is Result with panics, Bytes are lists of numbers,
-- ℤ has the wrap-around of the machine integers. Examples applies the theorems to concrete data.
--
-- How the code is modelled:
--   A String is its UTF-8 bytes. A float is its bits. A usize is a natural number, since every length
--   that is added is that of a buffer in memory, but in the scan of project_fast_point, which adds
--   lengths that it has not compared and so wraps around; the casts `as i32`, `as u16`, `as usize` are written
--   out. HashMap and DashMap are functions from keys. An error carries a constructor of Fault where
--   the source has a message.
--   The two threads of an engine are steps on its state: `collect` is a round of the collector, with
--   the number of operations that it finds ready, and `commit` is a round of the committer, which
--   RocksDB may refuse. `drain` is the state once the threads of every engine have made their rounds,
--   which is what `Storage::settle` waits for. That a reader of the rows, a put_row_sync or a
--   delete_row_sync fails in RocksDB, or that a queue has lost its thread, is not modelled.
--   An index or a slice that the decoders of values, rows and keys take is checked, and panics out of
--   range (Prelude.Slices).
--   Loops over bytes have fuel: the length of the bytes, since every round takes at least two off.
--   RocksDB is a parameter (Rocks) with the documented meaning of its writes (IsRocks); Unicode case
--   mapping (CaseMap), the parsers of floats, addresses and hex digits (Parsers) and the JSON of the
--   catalogue (Json) are parameters, as are the writers and readers of scylla-cql (Wire, Requests)
--   and the parser of statements (Ast).
--
-- Not modelled: the accept loop of src/server.rs and its tasks, which run QUERY and EXECUTE concurrently;
-- src/server_monoio.rs, which has the same handler over another runtime; src/main.rs,
-- src/health.rs and the load generators in src/bin, which are input and output; RocksDB, cql3-parser
-- and scylla-cql, which are third-party code.
pub mod Connection
pub mod Examples
pub mod Fault
pub mod Keys
pub mod Prelude
pub mod Protocol
pub mod Query
pub mod Rows
pub mod Schema
pub mod Storage
pub mod Value
