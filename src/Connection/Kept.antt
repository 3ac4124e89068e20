-- ===== src/Connection/Kept.antt =====
-- What a request keeps of its connection: the session's keyspace and the prepared statements.
use rhyda.Prelude.{
  false, ℕ, ◌+◌, ◌%◌, ◌^◌, ◌≡◌, ◌⊎◌, inl, inr, refl, sym, ap, ◌∙◌, List, [], Option, none, some,
  Outcome, ok, err, panic, arith,
}
use mathlib.Core.List.{map}
use rhyda.Prelude.Int.{ℤ}
use rhyda.Prelude.Bytes.{Bytes, to_be, bytes_eq}
use rhyda.Schema.Idents.{CaseMap}
use rhyda.Value.Literal.{Parsers}
use rhyda.Storage.Reads.{bytes_eq_refl}
use rhyda.Query.Errors.{QueryError}
use rhyda.Query.Insert.{Context, rows, void, set_keyspace, schema_change}
use rhyda.Query.AstCache.{parse_cached}
use rhyda.Query.Execute.{Statement, Server, Reply, execute_with_values_paged}
use rhyda.Query.Prepare.{PreparedInfo, prepared_info}
use rhyda.Connection.State.{PreparedStmt, set_keyspace_to, register}
use rhyda.Connection.Handle.{
  Env, Frame, State, Handled, QueryParameters, RequestOpcode, startup, options, query, prepare,
  execute, register_events, batch, auth_response, keep_keyspace, spec_type, settle_then,
  compression_of, handle_opcode, prepare_info, prepare_parsed, prepared_as, handle_query,
  handle_prepare, handle_execute, handle_startup, handle_request,
}

module _ (env : Env) ⦃cases : CaseMap⦄ ⦃parsers : Parsers⦄ where
  -- The request was a QUERY that was answered by `SetKeyspace` with the name.
  abbrev pub UsedBy : Option (Bytes × QueryParameters) → State env → Bytes → Type 0
  UsedBy none st name = ⊥
  UsedBy (some (text, q)) st name =
      (gates : List ℕ) × ((execute_with_values_paged env.rocks env.json env.parse st.conn.keyspace
          text q.values q.page_size q.paging_state st.server).0
        ≡ ok (set_keyspace name, gates))

  -- The session's keyspace is kept, or the request was a USE that sets it.
  abbrev pub IsKeptBut : Option (Bytes × QueryParameters) → State env → State env → Type 0
  IsKeptBut q st st' =
      (st'.conn.keyspace ≡ st.conn.keyspace)
      ⊎ ((name : Bytes) × (st'.conn.keyspace ≡ some name) × UsedBy q st name)

  -- What a request of the opcode QUERY asks.
  abbrev pub question : Option RequestOpcode → Bytes → Option (Bytes × QueryParameters)
  question (some query) body = env.requests.query_of body
  question _ body = none

  query_kept :
      (t : Frame env) (q : Option (Bytes × QueryParameters)) (st : State env)
      → IsKeptBut q st (handle_query env t q st).1
  unfolding handle_query set_keyspace_to
  query_kept t none st = inl refl
  query_kept t (some (text, q)) st = go run.0 run.1 refl
    where
      run : Reply × Server env.rocks
      run =
          execute_with_values_paged env.rocks env.json env.parse st.conn.keyspace text q.values
            q.page_size q.paging_state st.server

      go :
          (r : Reply) (s : Server env.rocks)
          → run.0 ≡ r
          → IsKeptBut
              (some (text, q))
              st
              (settle_then env t q.skip_metadata (keep_keyspace env) st.conn (r, s)).1
      go (ok (set_keyspace name, gates)) s e = inr (name, refl, (gates, e))
      go (ok (rows k tb cols rs state, gates)) s e = inl refl
      go (ok (void, gates)) s e = inl refl
      go (ok (schema_change a b k tb, gates)) s e = inl refl
      go (err x) s e = inl refl
      go panic s e = inl refl

  prepare_kept :
      (t : Frame env) (text : Option Bytes) (st : State env)
      → (handle_prepare env t text st).1.conn.keyspace ≡ st.conn.keyspace
  unfolding handle_prepare register
  prepare_kept t none st = refl
  prepare_kept t (some text) st = ground arith

  execute_kept :
      (t : Frame env) (id : Option (Bytes × Bytes)) (st : State env)
      → (handle_execute env t id st).1.conn.keyspace ≡ st.conn.keyspace
  unfolding handle_execute
  execute_kept t none st = refl
  execute_kept t (some (id, rest)) st = ground arith

  startup_kept :
      (t : Frame env) (o : Option (Option Bytes)) (st : State env)
      → (handle_startup env t o st).1.conn.keyspace ≡ st.conn.keyspace
  unfolding handle_startup
  startup_kept t none st = refl
  startup_kept t (some o) st = ground arith

  -- For every request: the keyspace of the session stays what it was, or the request is a QUERY whose
  -- execution answers SetKeyspace, and the keyspace is the one of that answer.
  pub handle_request-IsKeptBut :
      (opcode : ℕ) (body : Bytes) (stream : ℤ) (st : State env)
      → IsKeptBut
          (question (env.requests.opcode_of opcode) body)
          st
          (handle_request env opcode body stream st).1
  unfolding handle_request
  handle_request-IsKeptBut opcode body stream st = by_opcode (env.requests.opcode_of opcode)
    where
      t : Frame env
      t = record { version = 0x04; stream = stream; compression = compression_of env st.conn }

      by_opcode :
          (o : Option RequestOpcode)
          → IsKeptBut (question o body) st (handle_opcode env t body o st).1
      by_opcode none = inl refl
      by_opcode (some options) = inl refl
      by_opcode (some register_events) = inl refl
      by_opcode (some batch) = inl refl
      by_opcode (some auth_response) = inl refl
      by_opcode (some startup) = inl (startup_kept t (env.requests.startup_compression body) st)
      by_opcode (some prepare) = inl (prepare_kept t (env.requests.long_string body) st)
      by_opcode (some execute) = inl (execute_kept t (env.requests.short_bytes body) st)
      by_opcode (some query) = query_kept t (env.requests.query_of body) st

  -- A PREPARE that is answered registers the statement that its text parses to under the next id, and
  -- leaves the statements under other ids as they were; the ids are counted modulo 2 ^ 16.
  pub handle_prepare-registers :
      (t : Frame env) (text : Bytes) (st st' : State env) (frame : Bytes)
      → handle_prepare env t (some text) st ≡ (ok frame, st')
      → (p : PreparedStmt) × (st'.conn.prepared (to_be 2 st.conn.next_prepared_id) ≡ some p)
        × ((parse_cached env.parse text st.server.ast_cache).0 ≡ ok p.stmt)
        × ((id : Bytes)
            → bytes_eq (to_be 2 st.conn.next_prepared_id) id ≡ false
            → st'.conn.prepared id ≡ st.conn.prepared id)
        × (st'.conn.next_prepared_id ≡ (st.conn.next_prepared_id + 1) % 2 ^ 16)
  unfolding handle_prepare register
  handle_prepare-registers t text st st' frame e =
      by_parse (parse_cached env.parse text st.server.ast_cache).0
        (parse_cached env.parse text st.server.ast_cache).1 refl e
    where
      Registers : Outcome QueryError Statement → Type 0
      Registers r =
          (p : PreparedStmt) × (st'.conn.prepared (to_be 2 st.conn.next_prepared_id) ≡ some p)
          × (r ≡ ok p.stmt)
          × ((id : Bytes)
              → bytes_eq (to_be 2 st.conn.next_prepared_id) id ≡ false
              → st'.conn.prepared id ≡ st.conn.prepared id)
          × (st'.conn.next_prepared_id ≡ (st.conn.next_prepared_id + 1) % 2 ^ 16)

      by_info :
          (stmt : Statement) (s : Server env.rocks) (o : Outcome QueryError PreparedInfo)
          (c : Context env.rocks)
          → Path (Handled env) (prepare_info env t stmt st.conn s (o, c)) (ok frame, st')
          → Registers (ok stmt)
      by_info stmt s (ok info) c q =
          let w : (prepared_as env t stmt st.conn (record s { store = c.store }) info).1 ≡ st' =
            ap (λ x. x.1) q in
          (
            record { stmt = stmt; bind_types = map spec_type info.bind_specs },
            sym (ap (λ (x : State env). x.conn.prepared (to_be 2 st.conn.next_prepared_id)) w)
                ∙ rw (bytes_eq_refl (to_be 2 st.conn.next_prepared_id)) refl,
            refl,
            λ id n. sym (ap (λ (x : State env). x.conn.prepared id) w) ∙ rw n refl,
            sym (ap (λ (x : State env). x.conn.next_prepared_id) w),
          )
      by_info stmt s (err x) c q =
          absurd
            (let z : Path (Outcome QueryError Bytes) (err x) (ok frame) = ap (λ y. y.0) q in cc)
      by_info stmt s panic c q =
          absurd (let z : Path (Outcome QueryError Bytes) panic (ok frame) = ap (λ y. y.0) q in cc)

      info_run : Statement → Outcome QueryError PreparedInfo × Context env.rocks
      info_run stmt =
          prepared_info env.rocks env.json st.conn.keyspace stmt (record {
            store = st.server.store;
            binds = record { values = []; next = 0 };
            gates = [];
          })

      by_parse :
          (r : Outcome QueryError Statement) (cache : List (Bytes × Statement))
          → (parse_cached env.parse text st.server.ast_cache).0 ≡ r
          → Path (Handled env) (prepare_parsed env t st (r, cache)) (ok frame, st')
          → Registers (parse_cached env.parse text st.server.ast_cache).0
      by_parse (ok stmt) cache r q = rw r (
          by_info stmt (record st.server { ast_cache = cache }) (info_run stmt).0 (info_run stmt).1
            q)
      by_parse (err x) cache r q =
          absurd (let z : Path (Outcome QueryError Bytes) _ (ok frame) = ap (λ y. y.0) q in cc)
      by_parse panic cache r q =
          absurd (let z : Path (Outcome QueryError Bytes) panic (ok frame) = ap (λ y. y.0) q in cc)
