-- ===== src/Query/SelectRun.antt =====
-- src/query.rs: `exec_select`.
use rhyda.Prelude.{
  Bool, false, if◌then◌else◌, List, [], Option, none, some, Outcome, ok, err, panic,
}
use rhyda.Prelude.Int.{ℤ}
use rhyda.Prelude.Bytes.{Bytes, bytes_eq, codes}
use rhyda.Schema.Types.{ColumnType, TableDef}
use rhyda.Schema.Idents.{Identifier, CaseMap, norm_id}
use rhyda.Value.Types.{Value}
use rhyda.Value.Literal.{Parsers}
use rhyda.Storage.Engine.{Rocks}
use rhyda.Storage.Rows.{Store, get_row}
use rhyda.Storage.Catalogue.{Json, get_table}
use rhyda.Query.Syntax.{FqName, SelectElement, RelationElement}
use rhyda.Query.Errors.{QueryError, internal_err}
use rhyda.Query.Binds.{Binds, Run, ◌>>=◌, lift, map_fault}
use rhyda.Query.Select.{select_columns}
use rhyda.Query.Filters.{Filter, parse_filters}
use rhyda.Query.Address.{point_key}
use rhyda.Query.Insert.{Context, Response, rows, resolve_table}
use rhyda.Query.Pages.{Selection, Page, scan}
use rhyda.Query.Selection.{page_limit_of, selection_of, point_rows, page_out}

pub record Select : Type 0 where
  pub table_name : FqName
  pub columns : List SelectElement
  pub where_clause : List RelationElement
  pub limit : Option ℤ

-- The rows of an answer and its paging state.
abbrev pub Answer : Type 0
Answer = List (List Value) × Option Bytes

abbrev pub no_next : Outcome QueryError (List (List Value)) → Outcome QueryError Answer
no_next (ok out_rows) = ok (out_rows, none)
no_next (err e) = err e
no_next panic = panic

abbrev pub out_of : Option ℤ → Option ℤ → Outcome QueryError Page → Outcome QueryError Answer
out_of page_size limit (ok p) = page_out page_size limit p
out_of page_size limit (err e) = err e
out_of page_size limit panic = panic

module _ (rocks : Rocks) where
  -- The point read of a known address, or else the scan. The read may fill the row cache.
  abbrev pub read_or_scan :
      Option ℤ
      → Option ℤ
      → List Filter
      → Option (List Bytes)
      → Store rocks
      → Outcome QueryError Selection
      → Outcome QueryError Answer × Store rocks
  read_or_scan page_size limit filters (some parts) s (ok c) =
      let (bytes, t) = get_row rocks c.keyspace c.table.name parts s in
      (no_next (map_fault internal_err (point_rows c parts bytes)), t)
  read_or_scan page_size limit filters none s (ok c) =
      (out_of page_size limit (map_fault internal_err (scan rocks c s filters)), s)
  read_or_scan page_size limit filters parts s (err e) = (err e, s)
  read_or_scan page_size limit filters parts s panic = (panic, s)

  -- `exec_select` behind the look-up of the table and the parsing of the filters.
  unfoldable pub select_rows :
      Bytes
      → TableDef
      → Option ℤ
      → Option ℤ
      → Option Bytes
      → List (Bytes × ColumnType)
      → List Filter
      → Store rocks
      → Outcome QueryError Answer × Store rocks
  unfolding point_rows page_out scan
  select_rows keyspace table limit page_size paging_state selected filters s =
      read_or_scan page_size limit filters (point_key table filters) s
        (selection_of keyspace table selected filters (page_limit_of page_size limit) paging_state)

-- `finish_select`
unfoldable pub finish_select :
    Bytes
    → TableDef
    → List (Bytes × ColumnType)
    → Outcome QueryError Answer
    → Outcome QueryError Response
finish_select keyspace table selected (ok (out_rows, next)) =
    ok (rows keyspace table.name selected out_rows next)
finish_select keyspace table selected (err e) = err e
finish_select keyspace table selected panic = panic

abbrev pub virtual_keyspace : Bytes
virtual_keyspace = codes "system_virtual_schema"

module _ (rocks : Rocks) (json : Json) ⦃cases : CaseMap⦄ ⦃parsers : Parsers⦄ where
  -- The columns and the filters that a SELECT asks for.
  unfoldable pub select_plan : TableDef → Select → Run (List (Bytes × ColumnType) × List Filter)
  select_plan table sel = do
    selected ← lift (select_columns table sel.columns)
    filters ← parse_filters table sel.where_clause
    lift (ok (selected, filters))

  abbrev pub planned :
      Bytes
      → TableDef
      → Option ℤ
      → Option ℤ
      → Option Bytes
      → Context rocks
      → Outcome QueryError (List (Bytes × ColumnType) × List Filter) × Binds
      → Outcome QueryError Response × Context rocks
  planned keyspace table limit page_size paging_state c (ok (selected, filters), binds) =
      let (r, s) =
        select_rows rocks keyspace table limit page_size paging_state selected filters c.store in
      (finish_select keyspace table selected r, record c { store = s; binds = binds })
  planned keyspace table limit page_size paging_state c (err e, binds) =
      (err e, record c { binds = binds })
  planned keyspace table limit page_size paging_state c (panic, binds) =
      (panic, record c { binds = binds })

  abbrev pub on_table :
      Select
      → Option ℤ
      → Option Bytes
      → Context rocks
      → Outcome QueryError (Bytes × TableDef)
      → Outcome QueryError Response × Context rocks
  on_table sel page_size paging_state c (ok (keyspace, table)) =
      planned keyspace table sel.limit page_size paging_state c (select_plan table sel c.binds)
  on_table sel page_size paging_state c (err e) = (err e, c)
  on_table sel page_size paging_state c panic = (panic, c)

  unfoldable pub select_from :
      Option Bytes
      → Select
      → Option ℤ
      → Option Bytes
      → Context rocks
      → Outcome QueryError Response × Context rocks
  unfolding select_rows finish_select select_plan
  select_from session sel page_size paging_state c =
      let (r, s) = resolve_table rocks json session sel.table_name c.store in
      on_table sel page_size paging_state (record c { store = s }) r

  -- Whether the table is named in the virtual keyspace, by its own name or by the session's.
  abbrev pub is_virtual : Option Bytes → Option Identifier → Bool
  is_virtual session (some ks) = bytes_eq (norm_id ks) virtual_keyspace
  is_virtual (some ks) none = bytes_eq ks virtual_keyspace
  is_virtual none none = false

  -- A table that the virtual keyspace does not have is empty.
  abbrev pub virtual_or :
      Option Bytes
      → Select
      → Option ℤ
      → Option Bytes
      → Context rocks
      → Outcome QueryError (Option TableDef)
      → Outcome QueryError Response × Context rocks
  virtual_or session sel page_size paging_state c (ok none) =
      (ok (rows virtual_keyspace (norm_id sel.table_name.name) [] [] none), c)
  virtual_or session sel page_size paging_state c (ok (some table)) =
      select_from session sel page_size paging_state c
  virtual_or session sel page_size paging_state c (err e) = (err e, c)
  virtual_or session sel page_size paging_state c panic = (panic, c)

  unfoldable pub exec_select :
      Option Bytes
      → Select
      → Option ℤ
      → Option Bytes
      → Context rocks
      → Outcome QueryError Response × Context rocks
  unfolding select_from
  exec_select session sel page_size paging_state c =
      let (r, s) = get_table rocks json virtual_keyspace (norm_id sel.table_name.name) c.store in
      if is_virtual session sel.table_name.keyspace
      then virtual_or session sel page_size paging_state (record c { store = s })
          (map_fault internal_err r)
      else select_from session sel page_size paging_state c
