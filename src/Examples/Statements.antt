-- ===== src/Examples/Statements.antt =====
-- Runs of statements: the address and the columns of an INSERT, and rows as a SELECT projects them.
use mathlib.Core.List.{map}
use rhyda.Prelude.{
  ℕ, ◌≡◌, ◌↔◌, refl, true, false, List, [], ◌∷◌, length, Option, none, some, ok, panic, ◌>>=◌,
  arith,
}
use rhyda.Prelude.Int.{pos, signed, wrap}
use rhyda.Prelude.Slices.{slice_from}
use rhyda.Value.Decode.{
  from_raw_bytes, from_wire, with_payload, read_i32, i32_at, decode_payload, word,
}
use rhyda.Prelude.Bytes.{codes, to_be, from_be, from_be_acc, ascii_lower}
use rhyda.Schema.Types.{ColumnType, ColumnDef, KeyspaceDef, column, column_index}
use rhyda.Schema.Idents.{unquoted, norm_id, ident_eq}
use rhyda.Value.Types.{Value, null, raw_bytes, value_eq}
use rhyda.Rows.Columns.{encode_row_columns}
use rhyda.Storage.Rows.{Storage, get_row, drain}
use rhyda.Storage.Catalogue.{Json, get_table, put_table, forget, get_table-put_table}
use rhyda.Query.Syntax.{equal, FqName, Operand, column_element}
use rhyda.Query.Errors.{check_writable}
use rhyda.Query.Binds.{Binds, operand_to_value, take_bind}
use rhyda.Query.Select.{select_columns, selected_idxs, selected_idxs-alias}
use rhyda.Query.Filters.{parse_filters, filter_of, eq_value, Filter, eq_filter}
use rhyda.Query.Address.{
  filter_part, insert_part, point_key, key_parts_from_filters, insert_key_parts, filter_value,
  Agrees, point_key-eq-some_iff, insert_key_parts-eq-ok_iff,
}
use rhyda.Query.Insert.{
  resolve_values, row_columns_from, Insert, Delete, Context, void, values, insert_plan, delete_plan,
  resolve_table, exec_insert, exec_delete,
}
use rhyda.Query.Project.{project_fast_point, project_decoded}
use rhyda.Query.PointRead.{IsKey, index_of, part_of, value_at, project_fast_point-project_decoded}
use rhyda.Query.Update.{
  Update, update_plan, update_values, covers_all_regular, exec_update, assigned_columns,
  row_columns, set_values,
}
use rhyda.Query.Upsert.{assigned_columns-row_columns, exec_update-panic}
use rhyda.Query.Written.{exec_insert-get_row, exec_delete-get_row}
use rhyda.Examples.Rocks.{MemDb, mem_rocks, mem_laws}
use rhyda.Examples.Store.{busy_store}
use rhyda.Examples.Wire.{users, ascii_cases, no_parsers, stored, stored_h, stored_len}

abbrev id_key : List (ℕ × Value)
id_key = (0, Value.int (pos 5)) ∷ []

abbrev id_col : ColumnDef
id_col = record {
  name = codes "id";
  col_type = ColumnType.int;
  is_partition_key = true;
  is_clustering = false;
}

id_len : length (raw_bytes (Value.int (pos 5))) ≡ 4
unfolding raw_bytes to_be
id_len = refl

id-IsKey : IsKey users.columns 0 (Value.int (pos 5))
id-IsKey = record {
  col = id_col;
  at_index = refl;
  typed = omega arith;
  small = omega (arith, id_len);
}

project_fast_point-project_decoded_example :
    (project_fast_point users
        (2 ∷ 0 ∷ [])
        (map index_of id_key)
        (map part_of id_key)
        (encode_row_columns stored)
      ≡ ok (map (value_at id_key stored) (2 ∷ 0 ∷ [])))
    × (project_decoded users
          (2 ∷ 0 ∷ [])
          []
          []
          (map index_of id_key)
          (map part_of id_key)
          (encode_row_columns stored)
        ≡ ok (some (map (value_at id_key stored) (2 ∷ 0 ∷ []))))
project_fast_point-project_decoded_example =
    project_fast_point-project_decoded users (2 ∷ 0 ∷ []) id_key stored (id-IsKey, tt) stored_h
      (tt, tt) (((λ e. absurd (omega arith)), tt), (tt, tt)) (omega (arith, stored_len))
      (omega arith, (omega arith, tt))

abbrev id_filters : List Filter
id_filters = eq_filter (codes "id") (Value.int (pos 5)) ∷ []

point_key-eq-some_iff_example :
    (point_key users id_filters ≡ some ((0 ∷ 0 ∷ 0 ∷ 5 ∷ []) ∷ []))
    ↔ (key_parts_from_filters users id_filters ≡ ok ((0 ∷ 0 ∷ 0 ∷ 5 ∷ []) ∷ []))
point_key-eq-some_iff_example = point_key-eq-some_iff users id_filters ((0 ∷ 0 ∷ 0 ∷ 5 ∷ []) ∷ [])

abbrev id_resolved : List (Option Value)
id_resolved = some (Value.int (pos 5)) ∷ none ∷ none ∷ []

id-Agrees : Agrees users id_resolved id_filters (codes "id")
unfolding column_index filter_value
id-Agrees = record { pos = 0; is_column = refl; same = refl }

insert_key_parts-eq-ok_iff_example :
    (insert_key_parts users id_resolved ≡ ok ((0 ∷ 0 ∷ 0 ∷ 5 ∷ []) ∷ []))
    ↔ (key_parts_from_filters users id_filters ≡ ok ((0 ∷ 0 ∷ 0 ∷ 5 ∷ []) ∷ []))
insert_key_parts-eq-ok_iff_example =
    insert_key_parts-eq-ok_iff users id_resolved id_filters ((0 ∷ 0 ∷ 0 ∷ 5 ∷ []) ∷ [])
      (id-Agrees, tt)

selected_idxs-alias_example :
    (select_columns ⦃cases = ascii_cases⦄ users (
        column_element
          (record { name = unquoted (codes "id"); alias = some (unquoted (codes "x")) })
        ∷ [])
      >>= selected_idxs users)
    ≡ panic
selected_idxs-alias_example =
    selected_idxs-alias ⦃cases = ascii_cases⦄ users (unquoted (codes "id")) (unquoted (codes "x"))
      id_col (unfold column norm_id ascii_lower in refl)
      (unfold column_index norm_id ascii_lower in refl)

abbrev app : KeyspaceDef
app = record { name = codes "app"; replication = [] }

-- A codec that knows one keyspace and one table.
abbrev pub one_json : Json
one_json = record {
  of_keyspace = λ ks. codes "k";
  to_keyspace = λ b. some app;
  of_table = λ tb. codes "t";
  to_table = λ b. some users;
}

get_table-put_table_example :
    ((get_table mem_rocks one_json
        (codes "app")
        (codes "users")
        (put_table mem_rocks one_json users busy_store)).0
      ≡ ok (some users))
    × ((get_table mem_rocks one_json
          (codes "app")
          (codes "users")
          (forget (put_table mem_rocks one_json users busy_store))).0
        ≡ ok (some users))
get_table-put_table_example = get_table-put_table mem_rocks mem_laws one_json users busy_store refl

abbrev pub users_name : FqName
users_name = record { keyspace = some (unquoted (codes "app")); name = unquoted (codes "users") }

-- INSERT INTO app.users (id, age) VALUES (?, NULL)
abbrev insert_five : Insert
insert_five = record {
  table_name = users_name;
  columns = unquoted (codes "id") ∷ unquoted (codes "age") ∷ [];
  values = values (Operand.param [] ∷ Operand.null ∷ []);
}

abbrev pub five : Binds
five = record { values = some (0 ∷ 0 ∷ 0 ∷ 5 ∷ []) ∷ []; next = 0 }

abbrev known_store : Storage MemDb
known_store = record busy_store { tables = λ k t. some users }

abbrev pub context : Context mem_rocks
context = record { store = known_store; binds = five; gates = [] }

resolve_users :
    resolve_table mem_rocks one_json ⦃cases = ascii_cases⦄ ⦃parsers = no_parsers⦄ none users_name
      known_store
    ≡ (ok (codes "app", users), known_store)
unfolding resolve_table get_table norm_id ascii_lower
resolve_users = refl

writable_app : check_writable (codes "app") ≡ ok tt
unfolding check_writable
writable_app = refl

plan_five :
    insert_plan ⦃cases = ascii_cases⦄ ⦃parsers = no_parsers⦄ users insert_five five
    ≡ (ok ((0 ∷ 0 ∷ 0 ∷ 5 ∷ []) ∷ [], (1, null) ∷ (2, null) ∷ []), record five { next = 1 })
unfolding insert_plan resolve_values ident_eq ascii_lower operand_to_value take_bind from_raw_bytes
    from_wire with_payload read_i32 slice_from i32_at to_be from_be from_be_acc signed
    decode_payload word insert_key_parts insert_part column_index value_eq raw_bytes wrap
    row_columns_from
plan_five = refl

exec_insert-get_row_example :
    let (r, d) =
      exec_insert mem_rocks one_json ⦃cases = ascii_cases⦄ ⦃parsers = no_parsers⦄ none insert_five
        context in
    (r ≡ ok void)
    × (length d.gates ≡ 1)
    × ((get_row mem_rocks
          (codes "app")
          (codes "users")
          ((0 ∷ 0 ∷ 0 ∷ 5 ∷ []) ∷ [])
          (drain mem_rocks 7 d.store)).0
        ≡ some (encode_row_columns ((1, null) ∷ (2, null) ∷ [])))
exec_insert-get_row_example =
    exec_insert-get_row mem_rocks mem_laws one_json ⦃cases = ascii_cases⦄ ⦃parsers = no_parsers⦄
      none insert_five context 7 (codes "app") users known_store ((0 ∷ 0 ∷ 0 ∷ 5 ∷ []) ∷ [])
      ((1, null) ∷ (2, null) ∷ []) (record five { next = 1 }) resolve_users writable_app plan_five

-- DELETE FROM app.users WHERE id = ?
abbrev pub delete_five : Delete
delete_five = record {
  table_name = users_name;
  columns = [];
  where_clause =
      record {
        obj = Operand.column (unquoted (codes "id"));
        oper = equal;
        value = Operand.param [];
      }
      ∷ [];
}

plan_delete :
    delete_plan ⦃cases = ascii_cases⦄ ⦃parsers = no_parsers⦄ users delete_five five
    ≡ (ok ((0 ∷ 0 ∷ 0 ∷ 5 ∷ []) ∷ []), record five { next = 1 })
unfolding delete_plan parse_filters filter_of eq_value ident_eq ascii_lower take_bind from_raw_bytes
    from_wire with_payload read_i32 slice_from i32_at to_be from_be from_be_acc signed
    decode_payload word key_parts_from_filters filter_part filter_value value_eq raw_bytes wrap
plan_delete = refl

exec_delete-get_row_example :
    let (r, d) =
      exec_delete mem_rocks one_json ⦃cases = ascii_cases⦄ ⦃parsers = no_parsers⦄ none delete_five
        context in
    (r ≡ ok void)
    × (length d.gates ≡ 1)
    × ((get_row mem_rocks
          (codes "app")
          (codes "users")
          ((0 ∷ 0 ∷ 0 ∷ 5 ∷ []) ∷ [])
          (drain mem_rocks 7 d.store)).0
        ≡ none)
exec_delete-get_row_example =
    exec_delete-get_row mem_rocks mem_laws one_json ⦃cases = ascii_cases⦄ ⦃parsers = no_parsers⦄
      none delete_five context 7 (codes "app") users known_store ((0 ∷ 0 ∷ 0 ∷ 5 ∷ []) ∷ [])
      (record five { next = 1 }) resolve_users writable_app plan_delete

-- UPDATE app.users SET id = NULL, age = NULL WHERE id = ?
abbrev update_id : Update
update_id = record {
  table_name = users_name;
  assignments =
      record { name = unquoted (codes "id"); value = Operand.null; has_operator = false }
      ∷ record { name = unquoted (codes "age"); value = Operand.null; has_operator = false }
      ∷ [];
  where_clause = delete_five.where_clause;
}

abbrev both_null : List (ℕ × Value)
both_null = (0, null) ∷ (1, null) ∷ []

plan_update :
    update_plan ⦃cases = ascii_cases⦄ ⦃parsers = no_parsers⦄ users update_id five
    ≡ (ok ((0 ∷ 0 ∷ 0 ∷ 5 ∷ []) ∷ [], both_null), record five { next = 1 })
unfolding update_plan update_values norm_id column column_index operand_to_value parse_filters
    filter_of eq_value ident_eq ascii_lower take_bind from_raw_bytes from_wire with_payload read_i32
    slice_from i32_at to_be from_be from_be_acc signed decode_payload word key_parts_from_filters
    filter_part filter_value value_eq raw_bytes wrap
plan_update = refl

exec_update-panic_example :
    (exec_update mem_rocks one_json ⦃cases = ascii_cases⦄ ⦃parsers = no_parsers⦄ none update_id
      context).0
    ≡ panic
exec_update-panic_example =
    exec_update-panic mem_rocks one_json ⦃cases = ascii_cases⦄ ⦃parsers = no_parsers⦄ none update_id
      context (codes "app") users known_store ((0 ∷ 0 ∷ 0 ∷ 5 ∷ []) ∷ []) both_null
      (record five { next = 1 }) resolve_users writable_app plan_update
      (unfold covers_all_regular in refl) refl

abbrev three_nulls : List Value
three_nulls = null ∷ null ∷ null ∷ []

abbrev age_and_tags : List (ℕ × Value)
age_and_tags = (2, null) ∷ (1, Value.int (pos 9)) ∷ []

assigned_columns-row_columns_example :
    assigned_columns 0 users.columns age_and_tags
    ≡ row_columns 0 users.columns (set_values age_and_tags three_nulls)
assigned_columns-row_columns_example =
    assigned_columns-row_columns users age_and_tags three_nulls
      (((λ e. absurd (omega arith)), tt), (tt, tt)) refl refl
