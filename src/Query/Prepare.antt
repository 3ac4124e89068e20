-- ===== src/Query/Prepare.antt =====
-- src/query.rs: `prepared_info` and `collect_where_binds`.
use rhyda.Prelude.{
  ℕ, ◌%◌, ◌^◌, List, [], ◌∷◌, ◌++◌, position, Option, none, some, Outcome, ok, err, panic, ok_or,
}
use mathlib.Core.List.{map}
use rhyda.Prelude.Bytes.{Bytes, bytes_eq}
use rhyda.Schema.Types.{ColumnType, ColumnDef, TableDef, column}
use rhyda.Schema.Idents.{Identifier, CaseMap, norm_id}
use rhyda.Value.Literal.{Parsers}
use rhyda.Storage.Engine.{Rocks}
use rhyda.Storage.Catalogue.{Json}
use rhyda.Query.Syntax.{Operand, Operands, nil, cons, RelationElement}
use rhyda.Query.Errors.{QueryError, invalid_err, undefined_column, where_columns_only, not_prepared}
use rhyda.Query.Address.{key_names}
use rhyda.Query.Select.{select_columns}
use rhyda.Query.Update.{Assignment}
use rhyda.Query.Steps.{Step, ◌>>=◌, give}
use rhyda.Query.Ddl.{resolved}
use rhyda.Query.Execute.{Statement, insert, select, delete, update}

pub record PreparedInfo : Type 0 where
  pub keyspace : Bytes
  pub table : Bytes
  pub bind_specs : List (Bytes × ColumnType)
  pub pk_indexes : List ℕ
  pub result_cols : List (Bytes × ColumnType)

abbrev pub Specs : Type 0
Specs = List (Bytes × ColumnType)

-- The bind variables among the items of a tuple, and in the value of a restriction.
abbrev pub item_specs : Bytes × ColumnType → Operands → Specs
item_specs spec nil = []
item_specs spec (cons (Operand.param p) items) = spec ∷ item_specs spec items
item_specs spec (cons item items) = item_specs spec items

abbrev pub value_specs : Bytes × ColumnType → Operand → Specs
value_specs spec (Operand.param p) = spec ∷ []
value_specs spec (Operand.tuple items) = item_specs spec items
value_specs spec value = []

module _ ⦃cases : CaseMap⦄ where
  abbrev pub column_of : TableDef → Bytes → Outcome QueryError ColumnDef
  column_of table name = ok_or (invalid_err (undefined_column name)) (column table name)

  abbrev pub restricted_name : Operand → Outcome QueryError Bytes
  restricted_name (Operand.column col) = ok (norm_id col)
  restricted_name obj = err (invalid_err where_columns_only)

  abbrev pub and_then {ℓ} :
      {A : Type 0} {B : Type ℓ}
      → Outcome QueryError A
      → (A → Outcome QueryError B)
      → Outcome QueryError B
  and_then (ok a) f = f a
  and_then (err e) f = err e
  and_then panic f = panic

  unfoldable pub collect_where_binds : TableDef → List RelationElement → Outcome QueryError Specs
  collect_where_binds table [] = ok []
  collect_where_binds table (rel ∷ where_clause) = and_then (restricted_name rel.obj) λ name.
      and_then (column_of table name) λ col.
        and_then (collect_where_binds table where_clause)
          λ specs. ok (value_specs (name, col.col_type) rel.value ++ specs)

  -- The loops over the columns of an INSERT and the assignments of an UPDATE, by their names.
  unfoldable pub specs_of : TableDef → List Bytes → Outcome QueryError Specs
  specs_of table [] = ok []
  specs_of table (name ∷ names) =
      and_then (column_of table name)
        λ col. and_then (specs_of table names) λ specs. ok ((name, col.col_type) ∷ specs)

  -- The positions of the key's columns among the columns of an INSERT.
  unfoldable pub pk_indexes_of : List Bytes → List Identifier → List ℕ
  pk_indexes_of [] columns = []
  pk_indexes_of (pk ∷ pks) columns =
      let rest = pk_indexes_of pks columns in
      elim (position (λ c. bytes_eq (norm_id c) pk) columns) [
        | none ↦ rest
        | some pos ↦ pos % 2 ^ 16 ∷ rest
      ]

module _ (rocks : Rocks) (json : Json) ⦃cases : CaseMap⦄ ⦃parsers : Parsers⦄ where
  abbrev info : Bytes × TableDef → Specs → List ℕ → Specs → PreparedInfo
  info (keyspace, table) specs pks cols = record {
    keyspace = keyspace;
    table = table.name;
    bind_specs = specs;
    pk_indexes = pks;
    result_cols = cols;
  }

  unfoldable pub prepared_info : Option Bytes → Statement → Step rocks PreparedInfo
  unfolding collect_where_binds specs_of pk_indexes_of
  prepared_info session (insert i) = do
    target ← resolved rocks json session i.table_name
    specs ← give (specs_of target.1 (map norm_id i.columns))
    give (ok (info target specs (pk_indexes_of (key_names target.1) i.columns) []))
  prepared_info session (update u) = do
    target ← resolved rocks json session u.table_name
    specs ← give (specs_of target.1 (map (λ (a : Assignment). norm_id a.name) u.assignments))
    more ← give (collect_where_binds target.1 u.where_clause)
    give (ok (info target (specs ++ more) [] []))
  prepared_info session (select s) = do
    target ← resolved rocks json session s.table_name
    specs ← give (collect_where_binds target.1 s.where_clause)
    cols ← give (select_columns target.1 s.columns)
    give (ok (info target specs [] cols))
  prepared_info session (delete d) = do
    target ← resolved rocks json session d.table_name
    specs ← give (collect_where_binds target.1 d.where_clause)
    give (ok (info target specs [] []))
  prepared_info session stmt = give (err (invalid_err not_prepared))
