-- ===== src/Query/Insert.antt =====
-- src/query.rs: `resolve_table`, `exec_insert` and `exec_delete`.
use rhyda.Prelude.{
  ℕ, suc, ◌%◌, ◌^◌, ◌||◌, ◌==◌, if◌then◌else◌, List, [], ◌∷◌, ◌++◌, length, set, get_elem?,
  replicate, position, Option, none, some, Outcome, ok, err, panic, unwrap,
}
use rhyda.Prelude.Bytes.{Bytes}
use rhyda.Schema.Types.{ColumnType, ColumnDef, TableDef}
use rhyda.Schema.Idents.{Identifier, CaseMap, norm_id, ident_eq}
use rhyda.Value.Types.{Value, null}
use rhyda.Value.Literal.{Parsers}
use rhyda.Rows.Columns.{encode_row_columns}
use rhyda.Storage.Engine.{Rocks}
use rhyda.Storage.Rows.{Store, put_row, delete_row}
use rhyda.Storage.Catalogue.{Json, get_table}
use rhyda.Query.Syntax.{FqName, Operand, RelationElement}
use rhyda.Query.Errors.{
  QueryError, invalid_err, syntax_err, internal_err, check_writable, no_keyspace, no_table,
  undefined_column, json_insert, wrong_number_of_values, column_delete,
}
use rhyda.Query.Binds.{Binds, Run, ◌>>=◌, lift, require, map_fault, operand_to_value}
use rhyda.Query.Filters.{parse_filters}
use rhyda.Query.Address.{insert_key_parts, key_parts_from_filters}

-- `InsertValues`
pub data InsertValues : Type 0 where
  values : List Operand → InsertValues
  json : Bytes → InsertValues

pub record Insert : Type 0 where
  pub table_name : FqName
  pub columns : List Identifier
  pub values : InsertValues

pub record Delete : Type 0 where
  pub table_name : FqName
  pub columns : List Identifier
  pub where_clause : List RelationElement

-- The columns of a row that are stored in its value, from the index `idx` on.
unfoldable pub row_columns_from : ℕ → List ColumnDef → List (Option Value) → List (ℕ × Value)
row_columns_from idx [] resolved = []
row_columns_from idx (col ∷ cols) resolved =
    let rest = row_columns_from (suc idx) cols resolved in
    if col.is_partition_key || col.is_clustering
    then rest
    else (idx % 2 ^ 16, taken (get_elem? resolved idx)) ∷ rest
  where
    taken : Option (Option Value) → Value
    taken (some (some v)) = v
    taken _ = null

module _ ⦃cases : CaseMap⦄ ⦃parsers : Parsers⦄ where
  abbrev index_or_undefined : Identifier → Option ℕ → Run ℕ
  index_or_undefined col_id none = lift (err (invalid_err (undefined_column (norm_id col_id))))
  index_or_undefined col_id (some idx) = lift (ok idx)

  -- `for (col_id, operand) in ins.columns.iter().zip(operands.iter())`
  unfoldable pub resolve_values :
      TableDef → List Identifier → List Operand → List (Option Value) → Run (List (Option Value))
  resolve_values table [] operands resolved = lift (ok resolved)
  resolve_values table (c ∷ cs) [] resolved = lift (ok resolved)
  resolve_values table (c ∷ cs) (o ∷ os) resolved = do
    idx ← index_or_undefined c (position (λ (d : ColumnDef). ident_eq c d.name) table.columns)
    col ← lift (unwrap (get_elem? table.columns idx))
    v ← operand_to_value o col.col_type
    resolve_values table cs os (set resolved idx (some v))

  abbrev operands_of : InsertValues → Run (List Operand)
  operands_of (values os) = lift (ok os)
  operands_of (json text) = lift (err (invalid_err json_insert))

  -- The address and the stored columns that an INSERT asks for.
  unfoldable pub insert_plan : TableDef → Insert → Run (List Bytes × List (ℕ × Value))
  unfolding resolve_values
  insert_plan table ins = do
    operands ← operands_of ins.values
    u ← require (length ins.columns == length operands) (syntax_err wrong_number_of_values)
    resolved ← resolve_values table ins.columns operands (replicate (length table.columns) none)
    key_parts ← lift (insert_key_parts table resolved)
    lift (ok (key_parts, row_columns_from 0 table.columns resolved))

  -- The address of the row that a DELETE asks for.
  unfoldable pub delete_plan : TableDef → Delete → Run (List Bytes)
  delete_plan table del = do
    u ← require (length del.columns == 0) (invalid_err column_delete)
    filters ← parse_filters table del.where_clause
    lift (key_parts_from_filters table filters)

-- What a statement changes: the storage, the bind values taken, and the tickets to wait for.
pub record Context (rocks : Rocks) : Type 0 where
  pub store : Store rocks
  pub binds : Binds
  pub gates : List ℕ

-- A `change` and a `target` are the texts of the protocol.
pub data Response : Type 0 where
  rows :
      (keyspace table : Bytes)
      → List (Bytes × ColumnType)
      → List (List Value)
      → Option Bytes
      → Response
  void : Response
  set_keyspace : Bytes → Response
  schema_change : (change target keyspace table : Bytes) → Response

module _ (rocks : Rocks) (json : Json) ⦃cases : CaseMap⦄ ⦃parsers : Parsers⦄ where
  abbrev pub keyspace_of : Option Bytes → Option Identifier → Outcome QueryError Bytes
  keyspace_of session (some k) = ok (norm_id k)
  keyspace_of none none = err (invalid_err no_keyspace)
  keyspace_of (some ks) none = ok ks

  abbrev pub table_or_missing :
      Bytes → Bytes → Outcome QueryError (Option TableDef) → Outcome QueryError (Bytes × TableDef)
  table_or_missing keyspace table (ok (some def)) = ok (keyspace, def)
  table_or_missing keyspace table (ok none) = err (invalid_err (no_table keyspace table))
  table_or_missing keyspace table (err e) = err e
  table_or_missing keyspace table panic = panic

  abbrev pub resolved_in :
      Bytes
      → Outcome QueryError Bytes
      → Store rocks
      → Outcome QueryError (Bytes × TableDef) × Store rocks
  resolved_in table (ok keyspace) s =
      let (r, s') = get_table rocks json keyspace table s in
      (table_or_missing keyspace table (map_fault internal_err r), s')
  resolved_in table (err e) s = (err e, s)
  resolved_in table panic s = (panic, s)

  unfoldable pub resolve_table :
      Option Bytes → FqName → Store rocks → Outcome QueryError (Bytes × TableDef) × Store rocks
  resolve_table session name s =
      resolved_in (norm_id name.name) (keyspace_of session name.keyspace) s

  -- The end of a write: `gates.push(ticket)`.
  abbrev pushed :
      Context rocks → Binds → ℕ × Store rocks → Outcome QueryError Response × Context rocks
  pushed c binds (ticket, s) =
      (ok void, record { store = s; binds = binds; gates = c.gates ++ ticket ∷ [] })

  abbrev pub inserted :
      Bytes
      → TableDef
      → Context rocks
      → Outcome QueryError (List Bytes × List (ℕ × Value)) × Binds
      → Outcome QueryError Response × Context rocks
  inserted keyspace table c (ok (key_parts, row), binds) =
      pushed c binds (put_row keyspace table.name key_parts (encode_row_columns row) c.store)
  inserted keyspace table c (err e, binds) = (err e, record c { binds = binds })
  inserted keyspace table c (panic, binds) = (panic, record c { binds = binds })

  abbrev deleted :
      Bytes
      → TableDef
      → Context rocks
      → Outcome QueryError (List Bytes) × Binds
      → Outcome QueryError Response × Context rocks
  deleted keyspace table c (ok key_parts, binds) =
      pushed c binds (delete_row keyspace table.name key_parts c.store)
  deleted keyspace table c (err e, binds) = (err e, record c { binds = binds })
  deleted keyspace table c (panic, binds) = (panic, record c { binds = binds })

  -- `check_writable(&keyspace)?` after the look-up of the table.
  abbrev pub on_writable :
      (Bytes → TableDef → Context rocks → Outcome QueryError Response × Context rocks)
      → Outcome QueryError (Bytes × TableDef)
      → Context rocks
      → Outcome QueryError Response × Context rocks
  on_writable run (ok (keyspace, table)) c = elim (check_writable keyspace) [
    | ok u ↦ run keyspace table c
    | err e ↦ (err e, c)
    | panic ↦ (panic, c)
  ]
  on_writable run (err e) c = (err e, c)
  on_writable run panic c = (panic, c)

  unfoldable pub exec_insert :
      Option Bytes → Insert → Context rocks → Outcome QueryError Response × Context rocks
  exec_insert session ins c =
      let (r, s) = resolve_table session ins.table_name c.store in
      on_writable (λ keyspace table d. inserted keyspace table d (insert_plan table ins d.binds)) r
        (record c { store = s })

  unfoldable pub exec_delete :
      Option Bytes → Delete → Context rocks → Outcome QueryError Response × Context rocks
  exec_delete session del c =
      let (r, s) = resolve_table session del.table_name c.store in
      on_writable (λ keyspace table d. deleted keyspace table d (delete_plan table del d.binds)) r
        (record c { store = s })
