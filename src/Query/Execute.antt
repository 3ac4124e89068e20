-- ===== src/Query/Execute.antt =====
-- src/query.rs: `execute_statement` and the functions that run a request on it.
use rhyda.Prelude.{ℕ, List, [], Option, none, Outcome, ok, err, panic}
use rhyda.Prelude.Int.{ℤ}
use rhyda.Prelude.Bytes.{Bytes}
use rhyda.Schema.Idents.{Identifier, CaseMap}
use rhyda.Value.Literal.{Parsers}
use rhyda.Storage.Engine.{Rocks}
use rhyda.Storage.Rows.{Store}
use rhyda.Storage.Catalogue.{Json}
use rhyda.Query.Syntax.{FqName}
use rhyda.Query.Errors.{QueryError, invalid_err, not_supported}
use rhyda.Query.Insert.{Insert, Delete, Context, Response, exec_insert, exec_delete}
use rhyda.Query.Update.{Update, exec_update}
use rhyda.Query.SelectRun.{Select, exec_select}
use rhyda.Query.Steps.{Step, give}
use rhyda.Query.Ddl.{
  CreateKeyspace, CreateTableAs, CommonDrop, exec_use, exec_create_keyspace, exec_create_table,
  exec_drop_keyspace, exec_drop_table, exec_truncate,
}
use rhyda.Query.AstCache.{Ast, AstCache, parse_cached}

-- `CassandraStatement`; `other` is a statement that the source does not support.
pub data Statement : Type 0 where
  use_keyspace : Identifier → Statement
  create_keyspace : CreateKeyspace → Statement
  create_table : CreateTableAs → Statement
  drop_keyspace : CommonDrop → Statement
  drop_table : CommonDrop → Statement
  insert : Insert → Statement
  select : Select → Statement
  delete : Delete → Statement
  update : Update → Statement
  truncate : FqName → Statement
  other : ℕ → Statement

-- What a request runs on: the storage with its cache of statements.
pub record Server (rocks : Rocks) : Type 0 where
  pub store : Store rocks
  pub ast_cache : AstCache Statement

-- The request's response with the tickets to wait for.
abbrev pub Reply : Type 0
Reply = Outcome QueryError (Response × List ℕ)

module _ (rocks : Rocks) (json : Json) ⦃cases : CaseMap⦄ ⦃parsers : Parsers⦄ where
  unfoldable pub execute_statement :
      Option Bytes → Statement → Option ℤ → Option Bytes → Step rocks Response
  execute_statement session (use_keyspace id) page_size paging_state = exec_use rocks json id
  execute_statement session (create_keyspace ks) page_size paging_state =
      exec_create_keyspace rocks json ks
  execute_statement session (create_table t) page_size paging_state =
      exec_create_table rocks json session t
  execute_statement session (drop_keyspace d) page_size paging_state =
      exec_drop_keyspace rocks json d
  execute_statement session (drop_table d) page_size paging_state =
      exec_drop_table rocks json session d
  execute_statement session (insert i) page_size paging_state = exec_insert rocks json session i
  execute_statement session (select s) page_size paging_state =
      exec_select rocks json session s page_size paging_state
  execute_statement session (delete d) page_size paging_state = exec_delete rocks json session d
  execute_statement session (update u) page_size paging_state = exec_update rocks json session u
  execute_statement session (truncate name) page_size paging_state =
      exec_truncate rocks json session name
  execute_statement session (other s) page_size paging_state =
      give (err (invalid_err (not_supported s)))

  -- On an error the gates are lost with the response.
  abbrev replied : Outcome QueryError Response × Context rocks → Reply × Store rocks
  replied (ok response, c) = (ok (response, c.gates), c.store)
  replied (err e, c) = (err e, c.store)
  replied (panic, c) = (panic, c.store)

  unfoldable pub execute_prepared_paged :
      Option Bytes
      → Statement
      → List (Option Bytes)
      → Option ℤ
      → Option Bytes
      → Store rocks
      → Reply × Store rocks
  unfolding execute_statement
  execute_prepared_paged session stmt values page_size paging_state s = replied (
      execute_statement session stmt page_size paging_state
        (record { store = s; binds = record { values = values; next = 0 }; gates = [] }))

  unfoldable pub execute_prepared :
      Option Bytes → Statement → List (Option Bytes) → Store rocks → Reply × Store rocks
  unfolding execute_prepared_paged
  execute_prepared session stmt values s = execute_prepared_paged session stmt values none none s

  module _ (parse : Bytes → Ast Statement) where
    abbrev parsed :
        Option Bytes
        → List (Option Bytes)
        → Option ℤ
        → Option Bytes
        → Store rocks
        → Outcome QueryError Statement × AstCache Statement
        → Reply × Server rocks
    parsed session values page_size paging_state s (ok stmt, cache) =
        let (r, t) = execute_prepared_paged session stmt values page_size paging_state s in
        (r, record { store = t; ast_cache = cache })
    parsed session values page_size paging_state s (err e, cache) =
        (err e, record { store = s; ast_cache = cache })
    parsed session values page_size paging_state s (panic, cache) =
        (panic, record { store = s; ast_cache = cache })

    unfoldable pub execute_with_values_paged :
        Option Bytes
        → Bytes
        → List (Option Bytes)
        → Option ℤ
        → Option Bytes
        → Server rocks
        → Reply × Server rocks
    unfolding execute_prepared_paged
    execute_with_values_paged session query values page_size paging_state server =
        parsed session values page_size paging_state server.store
          (parse_cached parse query server.ast_cache)

    unfoldable pub execute_with_values :
        Option Bytes → Bytes → List (Option Bytes) → Server rocks → Reply × Server rocks
    unfolding execute_with_values_paged
    execute_with_values session query values server =
        execute_with_values_paged session query values none none server

    unfoldable pub execute : Option Bytes → Bytes → Server rocks → Reply × Server rocks
    unfolding execute_with_values_paged
    execute session query server = execute_with_values_paged session query [] none none server
