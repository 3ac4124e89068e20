-- ===== src/Examples/Requests.antt =====
-- Runs of the requests of a connection.
use rhyda.Prelude.{
  ℕ, ◌+◌, ◌%◌, ◌^◌, ◌≡◌, refl, false, List, [], ◌∷◌, Option, none, some, Outcome, ok, length, arith,
}
use rhyda.Prelude.Int.{pos}
use rhyda.Prelude.Bytes.{Bytes, bytes_eq, codes, to_be, ascii_lower}
use rhyda.Schema.Types.{ColumnType, column}
use rhyda.Schema.Idents.{unquoted, norm_id}
use rhyda.Query.AstCache.{parse_cached, ast_cache_get, ast_cache_put, statement_of}
use rhyda.Query.Execute.{Statement, use_keyspace, delete}
use rhyda.Query.Prepare.{prepared_info, collect_where_binds}
use rhyda.Query.Insert.{resolve_table}
use rhyda.Storage.Catalogue.{get_table}
use rhyda.Protocol.Frames.{Wire, response_frame, result_prepared, column_specs}
use rhyda.Connection.State.{PreparedStmt, new_conn, register}
use rhyda.Connection.Handle.{
  Env, Frame, State, RequestOpcode, query, prepare, QueryParameters, handle_prepare, handle_request,
}
use rhyda.Connection.Writer.{
  joined, coalesce, written, missed, written-joined, written-eq-joined_iff,
}
use rhyda.Connection.Kept.{IsKeptBut, question, handle_request-IsKeptBut, handle_prepare-registers}
use rhyda.Examples.Rocks.{mem_rocks}
use rhyda.Examples.Store.{busy_store}
use rhyda.Examples.Frames.{opcodes}
use rhyda.Examples.Wire.{users, ascii_cases, no_parsers}
use rhyda.Examples.Statements.{one_json, delete_five}

-- Writers that write no strings.
abbrev silent_wire : Wire
silent_wire = record {
  Compression = Unit {0};
  compress = λ c b. none;
  string = λ s. some [];
  short_bytes = λ s. some s;
  bytes = λ s. some s;
  string_multimap = λ m. none;
}

abbrev no_values : QueryParameters
no_values = record { values = []; page_size = none; paging_state = none; skip_metadata = false }

-- Every text is the one statement.
abbrev env_of : RequestOpcode → Statement → Env
env_of opcode stmt = record {
  rocks = mem_rocks;
  json = one_json;
  wire = silent_wire;
  requests = record {
    lz4 = tt;
    snappy = tt;
    opcode_of = λ b. some opcode;
    opcode_byte = opcodes;
    startup_compression = λ b. none;
    query_of = λ b. some (b, no_values);
    long_string = λ b. some b;
    short_bytes = λ b. none;
    parameters = λ b. none;
  };
  parse = λ q. record { has_error = false; statements = (false, stmt) ∷ [] };
  text_of = λ r. [];
  order = λ m. m;
  ready = 1;
}

-- USE app
abbrev use_env : Env
use_env = env_of query (use_keyspace (unquoted (codes "app")))

abbrev use_state : State use_env ⦃cases = ascii_cases⦄ ⦃parsers = no_parsers⦄
use_state = record { conn = new_conn; server = record { store = busy_store; ast_cache = [] } }

handle_request-IsKeptBut_example :
    IsKeptBut use_env ⦃cases = ascii_cases⦄ ⦃parsers = no_parsers⦄
      (question use_env ⦃cases = ascii_cases⦄ ⦃parsers = no_parsers⦄ (some query) (codes "use app"))
      use_state
      (handle_request use_env ⦃cases = ascii_cases⦄ ⦃parsers = no_parsers⦄ 7
        (codes "use app")
        (pos 1)
        use_state).1
handle_request-IsKeptBut_example =
    handle_request-IsKeptBut use_env ⦃cases = ascii_cases⦄ ⦃parsers = no_parsers⦄ 7
      (codes "use app") (pos 1) use_state

-- PREPARE of DELETE FROM app.users WHERE id = ?
abbrev prepare_env : Env
prepare_env = env_of prepare (delete delete_five)

abbrev prepare_state : State prepare_env ⦃cases = ascii_cases⦄ ⦃parsers = no_parsers⦄
prepare_state = record {
  conn = new_conn;
  server = record { store = record busy_store { tables = λ k t. some users }; ast_cache = [] };
}

abbrev target : Frame prepare_env ⦃cases = ascii_cases⦄ ⦃parsers = no_parsers⦄
target = record { version = 4; stream = pos 1; compression = none }

abbrev frame : Bytes
frame =
    132 ∷ 0 ∷ 0 ∷ 1 ∷ 8 ∷ 0 ∷ 0 ∷ 0 ∷ 28 ∷ 0 ∷ 0 ∷ 0 ∷ 4 ∷ 0 ∷ 1 ∷ 0 ∷ 0 ∷ 0 ∷ 1 ∷ 0 ∷ 0 ∷ 0 ∷ 1 ∷ 0
    ∷ 0 ∷ 0 ∷ 0 ∷ 0 ∷ 9 ∷ 0 ∷ 0 ∷ 0 ∷ 1 ∷ 0 ∷ 0 ∷ 0 ∷ 0 ∷ []

prepared_frame :
    handle_prepare prepare_env ⦃cases = ascii_cases⦄ ⦃parsers = no_parsers⦄ target
      (some (codes "q"))
      prepare_state
    ≡ (
      ok frame,
      (handle_prepare prepare_env ⦃cases = ascii_cases⦄ ⦃parsers = no_parsers⦄ target
          (some (codes "q"))
          prepare_state).1,
    )
unfolding handle_prepare parse_cached ast_cache_get ast_cache_put statement_of prepared_info
    collect_where_binds column norm_id ascii_lower resolve_table get_table register result_prepared
    column_specs response_frame to_be rhyda.Schema.Types.write_wire_type rhyda.Schema.Types.wire_id
    rhyda.Prelude.Int.wrap
prepared_frame = refl

handle_prepare-registers_example :
    (p : PreparedStmt) × ((handle_prepare prepare_env ⦃cases = ascii_cases⦄ ⦃parsers = no_parsers⦄
          target
          (some (codes "q"))
          prepare_state).1.conn.prepared
        (to_be 2 1)
      ≡ some p)
    × ((parse_cached prepare_env.parse (codes "q") []).0 ≡ ok p.stmt)
    × ((id : Bytes)
        → bytes_eq (to_be 2 1) id ≡ false
        → (handle_prepare prepare_env ⦃cases = ascii_cases⦄ ⦃parsers = no_parsers⦄ target
              (some (codes "q"))
              prepare_state).1.conn.prepared
            id
          ≡ none)
    × ((handle_prepare prepare_env ⦃cases = ascii_cases⦄ ⦃parsers = no_parsers⦄ target
          (some (codes "q"))
          prepare_state).1.conn.next_prepared_id
        ≡ (1 + 1) % 2 ^ 16)
handle_prepare-registers_example =
    handle_prepare-registers prepare_env ⦃cases = ascii_cases⦄ ⦃parsers = no_parsers⦄ target
      (codes "q") prepare_state
      (handle_prepare prepare_env ⦃cases = ascii_cases⦄ ⦃parsers = no_parsers⦄ target
        (some (codes "q")) prepare_state).1
      frame prepared_frame

-- A socket that takes every write whole, and one that takes two bytes of each.
abbrev whole_socket : Unit {0} → List Bytes → Option ℕ × Unit {0}
whole_socket s pending = (some (length (joined pending)), s)

abbrev short_socket : Unit {0} → List Bytes → Option ℕ × Unit {0}
short_socket s pending = (some 2, s)

abbrev answers : List Bytes
answers = (1 ∷ 2 ∷ 3 ∷ []) ∷ (4 ∷ []) ∷ (5 ∷ 6 ∷ []) ∷ []

written-joined_example :
    written whole_socket (1 ∷ 0 ∷ 7 ∷ []) answers tt ≡ 1 ∷ 2 ∷ 3 ∷ 4 ∷ 5 ∷ 6 ∷ []
written-joined_example =
    written-joined whole_socket (λ s pending. refl) (1 ∷ 0 ∷ 7 ∷ []) answers tt (omega arith)

short_run : written short_socket (1 ∷ 0 ∷ 7 ∷ []) answers tt ≡ 1 ∷ 2 ∷ 5 ∷ 6 ∷ []
unfolding written coalesce
short_run = refl

written-eq-joined_iff_example :
    (written short_socket (1 ∷ 0 ∷ 7 ∷ []) answers tt ≡ joined answers
      → missed short_socket (1 ∷ 0 ∷ 7 ∷ []) answers tt ≡ 0)
    × (missed short_socket (1 ∷ 0 ∷ 7 ∷ []) answers tt ≡ 0
        → written short_socket (1 ∷ 0 ∷ 7 ∷ []) answers tt ≡ joined answers)
written-eq-joined_iff_example = written-eq-joined_iff short_socket (1 ∷ 0 ∷ 7 ∷ []) answers tt
