-- ===== src/Examples/Selects.antt =====
-- Runs of SELECT, of the cache of statements and of the schema's statements.
use rhyda.Prelude.{
  ℕ, ◌≡◌, ◌≤◌, ◌<◌, ◌+◌, refl, ap, true, false, List, [], ◌∷◌, ◌++◌, length, take, Option, none,
  some, Outcome, ok, any, arith,
}
use rhyda.Prelude.Int.{pos, signed}
use rhyda.Prelude.Bytes.{
  Bytes, codes, bytes_eq, to_be, from_be, from_be_acc, ascii_lower, starts_with,
}
use rhyda.Schema.Types.{ColumnType, column_index, column}
use rhyda.Schema.Idents.{norm_id, ident_eq}
use rhyda.Value.Types.{Value, null}
use rhyda.Storage.Routing.{row_key, should_cache}
use rhyda.Storage.Rows.{Storage, put_row_sync, delete_row, get_row, drain}
use rhyda.Storage.Overtaken.{put_row_sync_overtaken}
use rhyda.Query.Syntax.{star}
use rhyda.Query.Binds.{take_bind}
use rhyda.Query.Filters.{eq_filter, parse_filters, filter_of, eq_value}
use rhyda.Query.Address.{point_key, point_parts, filter_value}
use rhyda.Query.Insert.{Context, Response, rows}
use rhyda.Query.Pages.{Selection}
use rhyda.Query.Selection.{page_limit_of, selection_of}
use rhyda.Query.SelectRun.{Select, exec_select, select_rows}
use rhyda.Query.SelectPage.{IsPage, select_rows-first_rows, exec_select-IsPage}
use rhyda.Query.PageRows.{rows_of}
use rhyda.Query.ScanRows.{entries}
use rhyda.Query.AstCache.{Ast, statement_of, parse_cached, IsCoherent, parse_cached-statement_of}
use rhyda.Query.Prepare.{collect_where_binds}
use rhyda.Query.BindSpecs.{parse_filters-collect_where_binds}
use rhyda.Query.Ddl.{keyspace_or}
use rhyda.Query.Execute.{truncate, execute_statement}
use rhyda.Query.Guarded.{IsRefused, execute_statement-IsRefused}
use rhyda.Examples.Rocks.{MemDb, mem_rocks, mem_laws}
use rhyda.Examples.Store.{busy_store}
use rhyda.Examples.Wire.{users, ascii_cases, no_parsers}
use rhyda.Examples.Statements.{users_name, five, delete_five, one_json, context}

put_row_sync_overtaken_example :
    let t =
      put_row_sync mem_rocks
        (codes "system_schema")
        (codes "tables")
        (codes "app" ∷ [])
        (codes "v")
        (delete_row (codes "system_schema") (codes "tables") (codes "app" ∷ []) busy_store).1 in
    ((get_row mem_rocks (codes "system_schema") (codes "tables") (codes "app" ∷ []) t).0
      ≡ some (codes "v"))
    × ((get_row mem_rocks
          (codes "system_schema")
          (codes "tables")
          (codes "app" ∷ [])
          (drain mem_rocks 5 t)).0
        ≡ none)
put_row_sync_overtaken_example =
    put_row_sync_overtaken mem_rocks mem_laws (codes "system_schema") (codes "tables")
      (codes "app" ∷ []) (unfold should_cache in refl) (codes "v") 5 busy_store

-- A parser that takes every text for one statement.
abbrev parse_seven : Bytes → Ast ℕ
parse_seven query = record { has_error = false; statements = (false, 7) ∷ [] }

parse_cached-statement_of_example :
    ((parse_cached parse_seven (codes "q") ((codes "p", 7) ∷ [])).0
      ≡ statement_of parse_seven (codes "q"))
    × IsCoherent parse_seven (parse_cached parse_seven (codes "q") ((codes "p", 7) ∷ [])).1
parse_cached-statement_of_example =
    parse_cached-statement_of parse_seven (codes "q") ((codes "p", 7) ∷ [])
      ((unfold statement_of in refl, tt), omega arith)

-- TRUNCATE system.users
execute_statement-IsRefused_example : IsRefused context (
    execute_statement mem_rocks one_json ⦃cases = ascii_cases⦄ ⦃parsers = no_parsers⦄
      (some (codes "system"))
      (truncate (record users_name { keyspace = none }))
      none
      none
      context)
execute_statement-IsRefused_example =
    execute_statement-IsRefused mem_rocks one_json ⦃cases = ascii_cases⦄ ⦃parsers = no_parsers⦄
      (some (codes "system")) (truncate (record users_name { keyspace = none })) none none
      (codes "system") context (unfold keyspace_or in refl) refl

parse_five :
    parse_filters ⦃cases = ascii_cases⦄ ⦃parsers = no_parsers⦄ users delete_five.where_clause five
    ≡ (ok (eq_filter (codes "id") (Value.int (pos 5)) ∷ []), record five { next = 1 })
unfolding parse_filters filter_of eq_value ident_eq ascii_lower take_bind
    rhyda.Value.Decode.from_raw_bytes rhyda.Value.Decode.from_wire rhyda.Value.Decode.with_payload
    rhyda.Value.Decode.read_i32 rhyda.Prelude.Slices.slice_from rhyda.Prelude.Slices.slice_to
    rhyda.Value.Decode.i32_at to_be from_be from_be_acc signed rhyda.Value.Decode.decode_payload
    rhyda.Value.Decode.word
parse_five = refl

collect_five :
    collect_where_binds ⦃cases = ascii_cases⦄ users delete_five.where_clause
    ≡ ok ((codes "id", ColumnType.int) ∷ [])
unfolding collect_where_binds column norm_id ascii_lower
collect_five = refl

parse_filters-collect_where_binds_example : 1 ≡ 0 + 1
parse_filters-collect_where_binds_example =
    parse_filters-collect_where_binds ⦃cases = ascii_cases⦄ ⦃parsers = no_parsers⦄ users
      delete_five.where_clause ((codes "id", ColumnType.int) ∷ []) five (record five { next = 1 })
      (eq_filter (codes "id") (Value.int (pos 5)) ∷ []) collect_five parse_five

-- Two rows of app.users on one engine.
abbrev two_store : Storage MemDb
two_store = record busy_store {
  shards = 1;
  engines = λ i. record {
    db =
        (row_key (codes "app") (codes "users") ((0 ∷ 0 ∷ 0 ∷ 5 ∷ []) ∷ []), [])
        ∷ (row_key (codes "app") (codes "users") ((0 ∷ 0 ∷ 0 ∷ 6 ∷ []) ∷ []), [])
        ∷ [];
    batches = [];
    ops = [];
  };
  tables = λ k t. some users;
}

-- SELECT * FROM app.users
abbrev select_all : Select
select_all = record {
  table_name = users_name;
  columns = star ∷ [];
  where_clause = [];
  limit = none;
}

abbrev user_cols : List (Bytes × ColumnType)
user_cols =
    (codes "id", ColumnType.int)
    ∷ (codes "age", ColumnType.int)
    ∷ (codes "tags", ColumnType.list ColumnType.int)
    ∷ []

abbrev user_row : ℕ → List Value
user_row n = Value.int (pos n) ∷ null ∷ null ∷ []

abbrev selection : Selection
selection = record {
  keyspace = codes "app";
  table = users;
  selected_idxs = 0 ∷ 1 ∷ 2 ∷ [];
  eq_filters = [];
  in_filters = [];
  key_col_idxs = 0 ∷ [];
  page_limit = 1;
  paging_bytes = none;
}

select_all_rows :
    rows_of selection (entries mem_rocks selection two_store []) ≡ ok (user_row 5 ∷ user_row 6 ∷ [])
unfolding row_key rhyda.Keys.Parts.data_prefix rhyda.Keys.Parts.encode_key
    rhyda.Keys.Parts.encode_parts to_be starts_with rhyda.Prelude.Bytes.bytes_lt
    rhyda.Query.Pages.pk_restricted rhyda.Keys.Parts.decode_key rhyda.Keys.Parts.decode_key_data
    rhyda.Keys.Parts.decode_parts from_be from_be_acc rhyda.Query.Project.project_decoded
    rhyda.Rows.Columns.decode_row_columns rhyda.Rows.Columns.decode_columns
    rhyda.Query.Project.set_keys rhyda.Query.Project.read_at rhyda.Value.Decode.from_raw_bytes
    rhyda.Value.Decode.from_wire rhyda.Value.Decode.with_payload rhyda.Value.Decode.read_i32
    rhyda.Prelude.Slices.slice_from rhyda.Prelude.Slices.slice_to rhyda.Value.Decode.i32_at signed
    rhyda.Value.Decode.decode_payload rhyda.Value.Decode.word rhyda.Query.Project.meets_eq
    rhyda.Query.Project.meets_in
select_all_rows = refl

select_all_selection :
    selection_of (codes "app") users user_cols [] (page_limit_of (some (pos 1)) none) none
    ≡ ok selection
unfolding selection_of page_limit_of rhyda.Query.Selection.effective_page_limit
    rhyda.Query.Select.selected_idxs column_index rhyda.Query.Selection.filter_idxs
    rhyda.Query.Selection.key_idxs
select_all_selection = refl

one_page : 0 < page_limit_of (some (pos 1)) none
unfolding page_limit_of rhyda.Query.Selection.effective_page_limit
one_page = omega arith

select_rows-first_rows_example :
    select_rows mem_rocks (codes "app") users none (some (pos 1)) none user_cols [] two_store ≡ (
      ok (take (page_limit_of (some (pos 1)) none) (user_row 5 ∷ user_row 6 ∷ []), none),
      two_store,
    )
select_rows-first_rows_example =
    select_rows-first_rows mem_rocks (codes "app") users none (some (pos 1)) none user_cols []
      two_store selection (user_row 5 ∷ user_row 6 ∷ [])
      (unfold point_key in unfold point_parts in unfold filter_value in refl) select_all_selection
      one_page select_all_rows

select_all_answer :
    (exec_select mem_rocks one_json ⦃cases = ascii_cases⦄ ⦃parsers = no_parsers⦄ none select_all
      (some (pos 1))
      none
      (record context { store = two_store })).0
    ≡ ok (rows (codes "app") (codes "users") user_cols (user_row 5 ∷ []) none)
unfolding exec_select rhyda.Query.SelectRun.select_from rhyda.Query.Insert.resolve_table
    rhyda.Storage.Catalogue.get_table norm_id ascii_lower rhyda.Query.SelectRun.select_plan
    rhyda.Query.Select.select_columns rhyda.Query.Select.select_loop parse_filters page_limit_of
    rhyda.Query.Selection.effective_page_limit rhyda.Query.SelectRun.finish_select
select_all_answer =
    ap (λ r. rhyda.Query.SelectRun.finish_select (codes "app") users user_cols r.0)
      select_rows-first_rows_example

exec_select-IsPage_example :
    IsPage
      (page_limit_of (some (pos 1)) none)
      (rows (codes "app") (codes "users") user_cols (user_row 5 ∷ []) none)
exec_select-IsPage_example =
    exec_select-IsPage mem_rocks one_json ⦃cases = ascii_cases⦄ ⦃parsers = no_parsers⦄ none
      select_all (some (pos 1)) none (record context { store = two_store })
      (rows (codes "app") (codes "users") user_cols (user_row 5 ∷ []) none) one_page
      select_all_answer
