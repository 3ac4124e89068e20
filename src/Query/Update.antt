-- ===== src/Query/Update.antt =====
-- src/query.rs: `exec_update`.
use rhyda.Prelude.{
  ℕ, suc, ◌%◌, ◌^◌, Bool, true, false, not, ◌&&◌, ◌||◌, ◌==◌, if◌then◌else◌, List, [], ◌∷◌, length,
  set, get_elem?, replicate, Option, none, some, Outcome, ok, err, panic, unwrap,
}
use rhyda.Prelude.Bytes.{Bytes}
use rhyda.Schema.Types.{ColumnDef, TableDef, column, column_index}
use rhyda.Schema.Idents.{Identifier, CaseMap, norm_id}
use rhyda.Fault.{Fault}
use rhyda.Value.Types.{Value, null}
use rhyda.Value.Literal.{Parsers}
use rhyda.Rows.Columns.{decode_row_columns}
use rhyda.Storage.Engine.{Rocks}
use rhyda.Storage.Rows.{get_row}
use rhyda.Storage.Catalogue.{Json}
use rhyda.Query.Syntax.{FqName, Operand, RelationElement}
use rhyda.Query.Errors.{QueryError, invalid_err, internal_err, increments, undefined_column}
use rhyda.Query.Binds.{Binds, Run, ◌>>=◌, lift, require, operand_to_value}
use rhyda.Query.Filters.{parse_filters}
use rhyda.Query.Address.{key_parts_from_filters}
use rhyda.Query.Insert.{Context, Response, inserted, on_writable, resolve_table}

-- `AssignmentElement`; `has_operator` says that the assignment is an increment or a decrement.
pub record Assignment : Type 0 where
  pub name : Identifier
  pub value : Operand
  pub has_operator : Bool

pub record Update : Type 0 where
  pub table_name : FqName
  pub assignments : List Assignment
  pub where_clause : List RelationElement

abbrev pub is_key : ColumnDef → Bool
is_key col = col.is_partition_key || col.is_clustering

-- `assigned[&idx]` and `row_columns[idx]`, where a missing index panics.
abbrev pub assigned : ℕ → List (ℕ × Value) → Option Value
assigned i [] = none
assigned i ((j, v) ∷ xs) = if j == i then some v else assigned i xs

abbrev pub stored_next :
    ℕ → Option Value → Outcome QueryError (List (ℕ × Value)) → Outcome QueryError (List (ℕ × Value))
stored_next idx none rest = panic
stored_next idx (some v) (ok vs) = ok ((idx % 2 ^ 16, v) ∷ vs)
stored_next idx (some v) (err e) = err e
stored_next idx (some v) panic = panic

-- The loops over the columns from the index `idx` on: from the assignments alone, and from the row.
-- The indices of the assignments are distinct where the first is used, so the map has each of them.
unfoldable pub assigned_columns :
    ℕ → List ColumnDef → List (ℕ × Value) → Outcome QueryError (List (ℕ × Value))
assigned_columns idx [] new_values = ok []
assigned_columns idx (col ∷ cols) new_values =
    let rest = assigned_columns (suc idx) cols new_values in
    if is_key col then rest else stored_next idx (assigned idx new_values) rest

unfoldable pub row_columns : ℕ → List ColumnDef → List Value → Outcome QueryError (List (ℕ × Value))
row_columns idx [] row = ok []
row_columns idx (col ∷ cols) row =
    let rest = row_columns (suc idx) cols row in
    if is_key col then rest else stored_next idx (get_elem? row idx) rest

abbrev pub regular_count : List ColumnDef → ℕ
regular_count [] = 0
regular_count (col ∷ cols) = let rest = regular_count cols in if is_key col then rest else suc rest

-- `new_values.iter().all(|(i, _)| seen.insert(*i))`
abbrev has_index : ℕ → List (ℕ × Value) → Bool
has_index i [] = false
has_index i ((j, v) ∷ xs) = j == i || has_index i xs

abbrev all_new : List (ℕ × Value) → Bool
all_new [] = true
all_new ((i, v) ∷ xs) = not (has_index i xs) && all_new xs

unfoldable pub covers_all_regular : TableDef → List (ℕ × Value) → Bool
covers_all_regular table new_values =
    length new_values == regular_count table.columns && all_new new_values

-- `for (idx, v) in new_values { row_columns[idx] = v; }`
abbrev pub set_values : List (ℕ × Value) → List Value → List Value
set_values [] row = row
set_values ((i, v) ∷ xs) row = set_values xs (set row i v)

-- The row before the update.
unfoldable pub existing_row : TableDef → Option Bytes → Outcome Fault (List Value)
existing_row table none = ok (replicate (length table.columns) null)
existing_row table (some bytes) = decode_row_columns bytes table

module _ ⦃cases : CaseMap⦄ ⦃parsers : Parsers⦄ where
  abbrev column_or_undefined : Bytes → Option ColumnDef → Run ColumnDef
  column_or_undefined name none = lift (err (invalid_err (undefined_column name)))
  column_or_undefined name (some col) = lift (ok col)

  unfoldable pub update_values : TableDef → List Assignment → Run (List (ℕ × Value))
  update_values table [] = lift (ok [])
  update_values table (a ∷ assignments) = do
    u ← require (not a.has_operator) (invalid_err increments)
    col ← column_or_undefined (norm_id a.name) (column table (norm_id a.name))
    v ← operand_to_value a.value col.col_type
    idx ← lift (unwrap (column_index table (norm_id a.name)))
    rest ← update_values table assignments
    lift (ok ((idx, v) ∷ rest))

  -- The address of the row and the values that an UPDATE asks for.
  unfoldable pub update_plan : TableDef → Update → Run (List Bytes × List (ℕ × Value))
  unfolding update_values
  update_plan table upd = do
    new_values ← update_values table upd.assignments
    filters ← parse_filters table upd.where_clause
    key_parts ← lift (key_parts_from_filters table filters)
    lift (ok (key_parts, new_values))

-- The stored columns of the row after the update, from the row before it.
abbrev merged :
    TableDef → List (ℕ × Value) → Outcome Fault (List Value) → Outcome QueryError (List (ℕ × Value))
merged table new_values (ok row) = row_columns 0 table.columns (set_values new_values row)
merged table new_values (err e) = err (internal_err e)
merged table new_values panic = panic

abbrev with_parts :
    List Bytes
    → Outcome QueryError (List (ℕ × Value))
    → Outcome QueryError (List Bytes × List (ℕ × Value))
with_parts key_parts (ok row) = ok (key_parts, row)
with_parts key_parts (err e) = err e
with_parts key_parts panic = panic

module _ (rocks : Rocks) (json : Json) ⦃cases : CaseMap⦄ ⦃parsers : Parsers⦄ where
  -- The read-modify-write, whose read may fill the row cache.
  abbrev read_and_merge :
      Bytes
      → TableDef
      → List Bytes
      → List (ℕ × Value)
      → Context rocks
      → Outcome QueryError Response × Context rocks
  read_and_merge keyspace table key_parts new_values c =
      let (existing, s) = get_row rocks keyspace table.name key_parts c.store in
      inserted rocks json keyspace table (record c { store = s })
        (with_parts key_parts (merged table new_values (existing_row table existing)), c.binds)

  abbrev updated :
      Bytes
      → TableDef
      → Context rocks
      → Outcome QueryError (List Bytes × List (ℕ × Value)) × Binds
      → Outcome QueryError Response × Context rocks
  updated keyspace table c (ok (key_parts, new_values), binds) =
      let d = record c { binds = binds } in
      if covers_all_regular table new_values
      then inserted rocks json keyspace table d
          (with_parts key_parts (assigned_columns 0 table.columns new_values), binds)
      else read_and_merge keyspace table key_parts new_values d
  updated keyspace table c (err e, binds) = (err e, record c { binds = binds })
  updated keyspace table c (panic, binds) = (panic, record c { binds = binds })

  unfoldable pub exec_update :
      Option Bytes → Update → Context rocks → Outcome QueryError Response × Context rocks
  exec_update session upd c =
      let (r, s) = resolve_table rocks json session upd.table_name c.store in
      on_writable rocks json
        (λ keyspace table d. updated keyspace table d (update_plan table upd d.binds)) r
        (record c { store = s })
