-- ===== src/Connection/Handle.antt =====
-- src/server.rs: `handle_request` and `respond`. The deserializers of scylla-cql are parameters.
use rhyda.Prelude.{
  ℕ, Bool, not, ◌==◌, if◌then◌else◌, List, [], ◌∷◌, length, Option, none, some, Outcome, ok, err,
  panic,
}
use mathlib.Core.List.{map}
use rhyda.Prelude.Int.{ℤ}
use rhyda.Prelude.Bytes.{Bytes, bytes_eq, codes}
use rhyda.Schema.Types.{ColumnType}
use rhyda.Schema.Idents.{CaseMap}
use rhyda.Value.Literal.{Parsers}
use rhyda.Storage.Engine.{Rocks}
use rhyda.Storage.Rows.{Store, drain}
use rhyda.Storage.Catalogue.{Json}
use rhyda.Query.Errors.{
  QueryError, Reason, invalid_err, syntax_err, unknown_opcode, malformed_startup, malformed_query,
  malformed_prepare, malformed_execute, malformed_parameters, unprepared, bind_count, no_batches,
  no_authentication, bad_compression,
}
use rhyda.Query.Insert.{Context, Response, rows, void, set_keyspace, schema_change}
use rhyda.Query.AstCache.{Ast, parse_cached}
use rhyda.Query.Execute.{
  Statement, Server, Reply, execute_with_values_paged, execute_prepared_paged,
}
use rhyda.Query.Prepare.{PreparedInfo, prepared_info}
use rhyda.Protocol.Frames.{
  Wire, Opcode, Target, ready_frame, supported_frame, result_void, result_set_keyspace,
  result_schema_change, result_prepared, result_rows,
}
use rhyda.Connection.State.{ConnShared, PreparedStmt, decode_compression, set_keyspace_to, register}

pub data RequestOpcode : Type 0 where
  startup options query prepare execute register_events batch auth_response : RequestOpcode

-- `QueryParameters`, as far as the source reads them.
pub record QueryParameters : Type 0 where
  pub values : List (Option Bytes)
  pub page_size : Option ℤ
  pub paging_state : Option Bytes
  pub skip_metadata : Bool

-- What scylla-cql reads of the bytes of a request; `none` is an error.
pub record Requests (wire : Wire) : Type 0 where
  pub lz4 : wire.Compression
  pub snappy : wire.Compression
  pub opcode_of : ℕ → Option RequestOpcode
  pub opcode_byte : Opcode → ℕ
  pub startup_compression : Bytes → Option (Option Bytes)
  pub query_of : Bytes → Option (Bytes × QueryParameters)
  pub long_string : Bytes → Option Bytes
  pub short_bytes : Bytes → Option (Bytes × Bytes)
  pub parameters : Bytes → Option QueryParameters

-- What the handler of a request runs on. `ready` is how much a thread of an engine finds at hand in
-- its rounds, `order` is the order of a HashMap's entries, and `text_of` the text of an error.
pub record Env : Type 1 where
  pub rocks : Rocks
  pub json : Json
  pub wire : Wire
  pub requests : Requests wire
  pub parse : Bytes → Ast Statement
  pub text_of : Reason → Bytes
  pub order : List (Bytes × List Bytes) → List (Bytes × List Bytes)
  pub ready : ℕ

abbrev protocol_err : Reason → QueryError
protocol_err reason = record { code = 0x000A; message = reason }

abbrev pub spec_type : Bytes × ColumnType → ColumnType
spec_type (name, t) = t

module _ (env : Env) ⦃cases : CaseMap⦄ ⦃parsers : Parsers⦄ where
  abbrev pub Frame : Type 0
  Frame = Target env.wire.Compression

  pub record State : Type 0 where
    pub conn : ConnShared
    pub server : Server env.rocks

  -- The frame that a request gets, an error, or a panic.
  abbrev pub Handled : Type 0
  Handled = Outcome QueryError Bytes × State

  abbrev pub compression_of : ConnShared → Option env.wire.Compression
  compression_of conn = decode_compression env.requests.lz4 env.requests.snappy conn.compression

  -- A frame whose writer fails panics.
  abbrev pub framed : Option Bytes → Outcome QueryError Bytes
  framed none = panic
  framed (some frame) = ok frame

  unfoldable pub respond : Frame → Response → Bool → Option Bytes
  respond t (rows keyspace table cols rs paging_state) skip_metadata =
      result_rows env.wire env.requests.opcode_byte t keyspace table cols rs skip_metadata
        paging_state
  respond t void skip_metadata = result_void env.wire env.requests.opcode_byte t
  respond t (set_keyspace ks) skip_metadata =
      result_set_keyspace env.wire env.requests.opcode_byte t ks
  respond t (schema_change change target keyspace table) skip_metadata =
      result_schema_change env.wire env.requests.opcode_byte t change target keyspace table

  -- `storage.settle(gates)`: while the tickets are waited for, the threads of the engines make their
  -- rounds.
  abbrev pub settle : List ℕ → Store env.rocks → Store env.rocks
  settle [] s = s
  settle (t ∷ ts) s = drain env.rocks env.ready s

  abbrev settled : Server env.rocks → List ℕ → Server env.rocks
  settled server gates = record server { store = settle gates server.store }

  -- `settle_then` with the response of a statement; `keep` is what its closure does to the connection.
  abbrev pub settle_then :
      Frame
      → Bool
      → (Response → ConnShared → ConnShared)
      → ConnShared
      → Reply × Server env.rocks
      → Handled
  settle_then t skip_metadata keep conn (ok (response, gates), server) = (
    framed (respond t response skip_metadata),
    record { conn = keep response conn; server = settled server gates },
  )
  settle_then t skip_metadata keep conn (err e, server) =
      (err e, record { conn = conn; server = server })
  settle_then t skip_metadata keep conn (panic, server) =
      (panic, record { conn = conn; server = server })

  abbrev pub keep_keyspace : Response → ConnShared → ConnShared
  keep_keyspace (set_keyspace name) conn = set_keyspace_to name conn
  keep_keyspace response conn = conn

  unfoldable pub handle_query : Frame → Option (Bytes × QueryParameters) → State → Handled
  handle_query t none st = (err (protocol_err malformed_query), st)
  handle_query t (some (text, q)) st = settle_then t q.skip_metadata keep_keyspace st.conn (
      execute_with_values_paged env.rocks env.json env.parse st.conn.keyspace text q.values
        q.page_size q.paging_state st.server)

  -- The registration of a statement with its declared variables, and the frame with its id.
  abbrev pub prepared_as :
      Frame → Statement → ConnShared → Server env.rocks → PreparedInfo → Handled
  prepared_as t stmt conn server info =
      let (id, conn') =
        register (record { stmt = stmt; bind_types = map spec_type info.bind_specs }) conn in
      (
        framed (
            result_prepared env.wire env.requests.opcode_byte t id info.keyspace info.table
              info.bind_specs info.pk_indexes info.result_cols),
        record { conn = conn'; server = server },
      )

  abbrev pub prepare_info :
      Frame
      → Statement
      → ConnShared
      → Server env.rocks
      → Outcome QueryError PreparedInfo × Context env.rocks
      → Handled
  prepare_info t stmt conn server (ok info, c) =
      prepared_as t stmt conn (record server { store = c.store }) info
  prepare_info t stmt conn server (err e, c) =
      (err e, record { conn = conn; server = record server { store = c.store } })
  prepare_info t stmt conn server (panic, c) =
      (panic, record { conn = conn; server = record server { store = c.store } })

  -- `parse_cached`, whose errors all become syntax errors, and then `prepared_info`.
  abbrev pub prepare_parsed :
      Frame → State → Outcome QueryError Statement × List (Bytes × Statement) → Handled
  prepare_parsed t st (ok stmt, cache) =
      prepare_info t stmt st.conn (record st.server { ast_cache = cache })
        (prepared_info env.rocks env.json st.conn.keyspace stmt (record {
          store = st.server.store;
          binds = record { values = []; next = 0 };
          gates = [];
        }))
  prepare_parsed t st (err e, cache) =
      (err (syntax_err e.message), record st { server = record st.server { ast_cache = cache } })
  prepare_parsed t st (panic, cache) =
      (panic, record st { server = record st.server { ast_cache = cache } })

  unfoldable pub handle_prepare : Frame → Option Bytes → State → Handled
  handle_prepare t none st = (err (protocol_err malformed_prepare), st)
  handle_prepare t (some text) st =
      prepare_parsed t st (parse_cached env.parse text st.server.ast_cache)

  -- The run of a prepared statement, after the values are counted.
  abbrev pub execute_with : Frame → PreparedStmt → Option QueryParameters → State → Handled
  execute_with t p none st = (err (protocol_err malformed_parameters), st)
  execute_with t p (some params) st =
      let (reply, s) =
        execute_prepared_paged env.rocks env.json st.conn.keyspace p.stmt params.values
          params.page_size params.paging_state st.server.store in
      if not (length params.values == length p.bind_types)
      then (err (invalid_err bind_count), st)
      else settle_then t params.skip_metadata (λ response conn. conn) st.conn
          (reply, record st.server { store = s })

  abbrev pub execute_found : Frame → Bytes → Option PreparedStmt → State → Handled
  execute_found t rest none st = (err (invalid_err unprepared), st)
  execute_found t rest (some p) st = execute_with t p (env.requests.parameters rest) st

  unfoldable pub handle_execute : Frame → Option (Bytes × Bytes) → State → Handled
  handle_execute t none st = (err (protocol_err malformed_execute), st)
  handle_execute t (some (id, rest)) st = execute_found t rest (st.conn.prepared id) st

  -- The option COMPRESSION of a STARTUP, in lower case.
  abbrev pub with_compression : Option Bytes → ConnShared → Outcome QueryError ConnShared
  with_compression none conn = ok conn
  with_compression (some c) conn =
      if bytes_eq c (codes "lz4")
      then ok (record conn { compression = 1 })
      else if bytes_eq c (codes "snappy")
      then ok (record conn { compression = 2 })
      else err (protocol_err (bad_compression c))

  abbrev pub lower : Option Bytes → Option Bytes
  lower none = none
  lower (some c) = some (cases.to_lowercase c)

  abbrev pub started : Frame → State → Outcome QueryError ConnShared → Handled
  started t st (ok conn) = (
    framed (
        ready_frame env.wire env.requests.opcode_byte
          (record t { compression = compression_of conn })),
    record st { conn = conn },
  )
  started t st (err e) = (err e, st)
  started t st panic = (panic, st)

  unfoldable pub handle_startup : Frame → Option (Option Bytes) → State → Handled
  handle_startup t none st = (err (protocol_err malformed_startup), st)
  handle_startup t (some option) st = started t st (with_compression (lower option) st.conn)

  abbrev pub handle_opcode : Frame → Bytes → Option RequestOpcode → State → Handled
  handle_opcode t body none st = (err (protocol_err unknown_opcode), st)
  handle_opcode t body (some options) st =
      (framed (supported_frame env.wire env.requests.opcode_byte env.order t), st)
  handle_opcode t body (some startup) st =
      handle_startup t (env.requests.startup_compression body) st
  handle_opcode t body (some register_events) st =
      (framed (ready_frame env.wire env.requests.opcode_byte t), st)
  handle_opcode t body (some query) st = handle_query t (env.requests.query_of body) st
  handle_opcode t body (some prepare) st = handle_prepare t (env.requests.long_string body) st
  handle_opcode t body (some execute) st = handle_execute t (env.requests.short_bytes body) st
  handle_opcode t body (some batch) st = (err (invalid_err no_batches), st)
  handle_opcode t body (some auth_response) st = (err (protocol_err no_authentication), st)

  unfoldable pub handle_request : ℕ → Bytes → ℤ → State → Handled
  unfolding handle_query handle_prepare handle_execute handle_startup
  handle_request opcode body stream st =
      handle_opcode
        (record { version = 0x04; stream = stream; compression = compression_of st.conn }) body
        (env.requests.opcode_of opcode) st
