-- ===== src/Query/Select.antt =====
-- src/query.rs: `select_columns`, and the indices that `exec_select` makes of its names.
use rhyda.Prelude.{
  ℕ, ◌≡◌, refl, Bool, true, false, if◌then◌else◌, List, [], ◌∷◌, ◌++◌, none, some, Outcome, ok, err,
  panic, ◌>>=◌, ok_or, unwrap,
}
use mathlib.Core.List.{map}
use rhyda.Prelude.Bytes.{Bytes}
use rhyda.Schema.Types.{ColumnType, ColumnDef, TableDef, column, column_index}
use rhyda.Schema.Idents.{Identifier, CaseMap, norm_id}
use rhyda.Query.Syntax.{SelectElement, star, column_element, function, alias_or_name}
use rhyda.Query.Errors.{QueryError, invalid_err, undefined_column, function_in_select}

abbrev name_and_type : ColumnDef → Bytes × ColumnType
name_and_type c = (c.name, c.col_type)

module _ ⦃cases : CaseMap⦄ where
  -- The loop, with whether a star was met and the columns so far.
  unfoldable pub select_loop :
      TableDef
      → Bool
      → List (Bytes × ColumnType)
      → List SelectElement
      → Outcome QueryError (Bool × List (Bytes × ColumnType))
  select_loop table all_columns selected [] = ok (all_columns, selected)
  select_loop table all_columns selected (star ∷ elems) = select_loop table true selected elems
  select_loop table all_columns selected (column_element named ∷ elems) =
      ok_or (invalid_err (undefined_column (norm_id named.name)))
        (column table (norm_id named.name))
      >>= λ col.
          select_loop table all_columns
            (selected ++ (norm_id (alias_or_name named), col.col_type) ∷ []) elems
  select_loop table all_columns selected (function f ∷ elems) = err (invalid_err function_in_select)

  unfoldable pub select_columns :
      TableDef → List SelectElement → Outcome QueryError (List (Bytes × ColumnType))
  unfolding select_loop
  select_columns table elems = select_loop table false [] elems >>= λ (all_columns, selected).
      ok (if all_columns then map name_and_type table.columns else selected)

-- `selected.iter().map(|(name, _)| table.column_index(name).unwrap())`
unfoldable pub selected_idxs : TableDef → List (Bytes × ColumnType) → Outcome QueryError (List ℕ)
selected_idxs table [] = ok []
selected_idxs table ((name, t) ∷ rest) =
    unwrap (column_index table name) >>= λ i. selected_idxs table rest >>= λ is. ok (i ∷ is)

module _ ⦃cases : CaseMap⦄ where
  -- A selection of one column under an alias that is no column's name is accepted, and the look-up of
  -- its index then panics.
  pub selected_idxs-alias :
      (table : TableDef) (name alias : Identifier) (col : ColumnDef)
      → column table (norm_id name) ≡ some col
      → column_index table (norm_id alias) ≡ none
      → (select_columns table (column_element (record { name = name; alias = some alias }) ∷ [])
          >>= selected_idxs table)
        ≡ panic
  unfolding select_columns select_loop selected_idxs
  selected_idxs-alias table name alias col c a = rw c (rw a refl)
