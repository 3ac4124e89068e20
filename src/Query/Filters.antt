-- ===== src/Query/Filters.antt =====
-- src/query.rs: `parse_filters`.
use rhyda.Prelude.{List, [], ◌∷◌, find, Option, none, some, ok, err}
use rhyda.Prelude.Bytes.{Bytes}
use rhyda.Schema.Types.{ColumnType, ColumnDef, TableDef}
use rhyda.Schema.Idents.{Identifier, CaseMap, norm_id, ident_eq}
use rhyda.Value.Types.{Value}
use rhyda.Value.Literal.{Parsers}
use rhyda.Query.Syntax.{
  Operand, Operands, nil, cons, RelationOperator, equal, is_in, other_relation, RelationElement,
}
use rhyda.Query.Errors.{
  invalid_err, undefined_column, where_columns_only, where_literals_only, where_operators,
}
use rhyda.Query.Binds.{Run, ◌>>=◌, lift, take_bind, literal}

pub data Filter : Type 0 where
  eq_filter : Bytes → Value → Filter
  in_filter : Bytes → List Value → Filter

module _ ⦃cases : CaseMap⦄ ⦃parsers : Parsers⦄ where
  -- `table.columns.iter().find(|c| ident_eq(col, &c.name))`
  abbrev pub column_or_undefined : Identifier → Option ColumnDef → Run ColumnDef
  column_or_undefined col (some def) = lift (ok def)
  column_or_undefined col none = lift (err (invalid_err (undefined_column (norm_id col))))

  abbrev pub restricted : TableDef → Operand → Run ColumnDef
  restricted table (Operand.column col) =
      column_or_undefined col (find (λ (c : ColumnDef). ident_eq col c.name) table.columns)
  restricted table _ = lift (err (invalid_err where_columns_only))

  -- The value of `=`.
  unfoldable pub eq_value : Operand → ColumnType → Run Value
  unfolding take_bind
  eq_value Operand.null col_type = lift (ok Value.null)
  eq_value (Operand.const text) col_type = literal text col_type
  eq_value (Operand.param name) col_type = take_bind col_type
  eq_value _ col_type = lift (err (invalid_err where_literals_only))

  -- A value of `IN`.
  unfoldable pub in_value : Operand → ColumnType → Run Value
  unfolding take_bind
  in_value (Operand.const text) col_type = literal text col_type
  in_value (Operand.param name) col_type = take_bind col_type
  in_value _ col_type = lift (err (invalid_err where_literals_only))

  abbrev pub in_items : Operands → ColumnType → Run (List Value)
  in_items nil col_type = lift (ok [])
  in_items (cons item items) col_type = do
    v ← in_value item col_type
    vs ← in_items items col_type
    lift (ok (v ∷ vs))

  unfoldable pub in_values : Operand → ColumnType → Run (List Value)
  unfolding in_value
  in_values (Operand.tuple items) col_type = in_items items col_type
  in_values operand col_type = do v ← in_value operand col_type; lift (ok (v ∷ []))

  unfoldable pub filter_of : RelationOperator → Operand → ColumnDef → Run Filter
  unfolding eq_value in_values
  filter_of equal value def = do v ← eq_value value def.col_type; lift (ok (eq_filter def.name v))
  filter_of is_in value def = do
    vs ← in_values value def.col_type
    lift (ok (in_filter def.name vs))
  filter_of (other_relation o) value def = lift (err (invalid_err where_operators))

  unfoldable pub parse_filters : TableDef → List RelationElement → Run (List Filter)
  unfolding filter_of
  parse_filters table [] = lift (ok [])
  parse_filters table (rel ∷ where_clause) = do
    def ← restricted table rel.obj
    f ← filter_of rel.oper rel.value def
    fs ← parse_filters table where_clause
    lift (ok (f ∷ fs))
