-- ===== src/Query/SelectPage.antt =====
-- What `exec_select` answers: at most a page of rows, and never a paging state.
use rhyda.Prelude.{
  ℕ, ◌≤◌, ◌<◌, ◌≡◌, refl, ap, subst, Bool, true, false, List, [], ◌∷◌, length, take, Option, none,
  some, Outcome, ok, err, panic, ◌>>=◌, arith, Ensures, holds, raised, died, Ensures-bind,
  Ensures-ok, Ensures-if, if◌then◌else◌,
}
use rhyda.Prelude.Int.{ℤ}
use rhyda.Prelude.Bytes.{Bytes}
use rhyda.Schema.Types.{ColumnType, TableDef}
use rhyda.Schema.Idents.{CaseMap, norm_id}
use rhyda.Fault.{Fault}
use rhyda.Value.Types.{Value}
use rhyda.Value.Literal.{Parsers}
use rhyda.Storage.Engine.{Rocks}
use rhyda.Storage.Rows.{Store, get_row}
use rhyda.Storage.Catalogue.{Json, get_table}
use rhyda.Query.Errors.{QueryError, internal_err}
use rhyda.Query.Binds.{Binds, map_fault}
use rhyda.Query.Select.{selected_idxs}
use rhyda.Query.Filters.{Filter}
use rhyda.Query.Address.{key_names, point_key}
use rhyda.Query.Insert.{Context, Response, rows, resolve_table}
use rhyda.Query.Pages.{Selection, Page, scan}
use rhyda.Query.Selection.{
  page_limit_of, filter_idxs, key_idxs, selection_of, is_fast, one_row, point_rows,
  next_paging_state, page_or_error, page_out,
}
use rhyda.Query.Project.{project_fast_point, project_decoded}
use rhyda.Query.SelectRun.{
  Select, Answer, no_next, out_of, read_or_scan, select_rows, finish_select, select_plan, planned,
  on_table, select_from, is_virtual, virtual_keyspace, virtual_or, exec_select,
}
use rhyda.Query.Paging.{IsShort, scan-IsShort}
use rhyda.Query.PageRows.{page_of, rows_of}
use rhyda.Query.ScanRows.{entries, scan-rows_of}

abbrev IsAnswer : ℕ → Answer → Type 0
IsAnswer limit (out_rows, next) = (length out_rows ≤ limit) × (next ≡ none)

-- The response is a page of at most `limit` rows without a paging state.
abbrev pub IsPage : ℕ → Response → Type 0
IsPage limit (rows keyspace table cols out_rows next) = IsAnswer limit (out_rows, next)
IsPage limit _ = false ≡ true

-- Without a last key there is no paging state.
next_paging_state-none :
    (page_size limit : Option ℤ) (p : Page)
    → p.paging_last_key ≡ none
    → next_paging_state page_size limit p ≡ none
unfolding next_paging_state
next_paging_state-none page_size limit p e = ground (arith, e)

page_limit-selection_of :
    (keyspace : Bytes) (table : TableDef) (selected : List (Bytes × ColumnType))
    (filters : List Filter) (limit : ℕ) (state : Option Bytes)
    → Ensures Unit
        (λ (c : Selection). c.page_limit ≡ limit)
        (selection_of keyspace table selected filters limit state)
unfolding selection_of
page_limit-selection_of keyspace table selected filters limit state =
    Ensures-bind {P = λ _. Unit} (any_run (selected_idxs table selected)) λ is e u.
      Ensures-bind {P = λ _. Unit} (any_run (filter_idxs table filters)) λ fs d v.
        Ensures-bind {P = λ _. Unit} (any_run (key_idxs table (key_names table)))
          λ ks c w. holds refl
  where
    any_run : {A : Type 0} (r : Outcome QueryError A) → Ensures Unit (λ _. Unit {0}) r
    any_run (ok a) = holds tt
    any_run (err e) = raised
    any_run panic = died tt

Ensures-map_fault :
    {A : Type 0} {P : A → Type 0} (f : Fault → QueryError) {r : Outcome Fault A}
    → Ensures Unit P r
    → Ensures Unit P (map_fault f r)
Ensures-map_fault f (holds h) = holds h
Ensures-map_fault f raised = raised
Ensures-map_fault f (died q) = died q

-- A point read gives one row at most.
length-point_rows :
    (c : Selection) (parts : List Bytes) (o : Option Bytes)
    → Ensures Unit (λ (rs : List (List Value)). length rs ≤ 1) (point_rows c parts o)
unfolding point_rows
length-point_rows c parts none = holds (omega arith)
length-point_rows c parts (some bytes) =
    Ensures-if (is_fast c)
      (λ y. one (project_fast_point c.table c.selected_idxs c.key_col_idxs parts bytes))
      λ n. one_or_none (
        project_decoded c.table c.selected_idxs c.eq_filters c.in_filters c.key_col_idxs parts
          bytes)
  where
    one :
        (r : Outcome Fault (List Value))
        → Ensures Unit (λ (rs : List (List Value)). length rs ≤ 1) (r >>= λ row. ok (row ∷ []))
    one (ok row) = holds (omega arith)
    one (err e) = raised
    one panic = died tt

    one_or_none :
        (r : Outcome Fault (Option (List Value)))
        → Ensures Unit (λ (rs : List (List Value)). length rs ≤ 1) (r >>= λ o. ok (one_row o))
    one_or_none (ok none) = holds (omega arith)
    one_or_none (ok (some row)) = holds (omega arith)
    one_or_none (err e) = raised
    one_or_none panic = died tt

module _ (rocks : Rocks) (page_size limit : Option ℤ) (filters : List Filter) where
  page_out-IsAnswer :
      (n : ℕ) (p : Page)
      → p.paging_last_key ≡ none
      → length p.out_rows ≤ n
      → Ensures Unit (IsAnswer n) (page_out page_size limit p)
  unfolding page_out
  page_out-IsAnswer n p l h =
      or_error p.error_slot (next_paging_state page_size limit p)
        (next_paging_state-none page_size limit p l)
    where
      or_error :
          (e : Option Fault) (next : Option Bytes)
          → next ≡ none
          → Ensures Unit (IsAnswer n) (page_or_error e p.out_rows next)
      or_error none next q = holds (h, q)
      or_error (some e) next q = raised

  no_next-IsAnswer :
      (n : ℕ) {r : Outcome QueryError (List (List Value))}
      → 0 < n
      → Ensures Unit (λ rs. length rs ≤ 1) r
      → Ensures Unit (IsAnswer n) (no_next r)
  no_next-IsAnswer n h (holds k) = holds (omega arith, refl)
  no_next-IsAnswer n h raised = raised
  no_next-IsAnswer n h (died q) = died q

  out_of-IsAnswer :
      (c : Selection) {r : Outcome QueryError Page}
      → Ensures Unit (IsShort c) r
      → Ensures Unit (IsAnswer c.page_limit) (out_of page_size limit r)
  out_of-IsAnswer c (holds {a} (l, k)) = page_out-IsAnswer c.page_limit a l k
  out_of-IsAnswer c raised = raised
  out_of-IsAnswer c (died q) = died q

  read_or_scan-IsAnswer :
      (n : ℕ) (parts : Option (List Bytes)) (s : Store rocks) (r : Outcome QueryError Selection)
      → 0 < n
      → Ensures Unit (λ (c : Selection). c.page_limit ≡ n) r
      → Ensures Unit (IsAnswer n) (read_or_scan rocks page_size limit filters parts s r).0
  read_or_scan-IsAnswer n (some parts) s (ok c) h e = no_next-IsAnswer n h (
      Ensures-map_fault internal_err
        (length-point_rows c parts (get_row rocks c.keyspace c.table.name parts s).0))
  read_or_scan-IsAnswer n none s (ok c) h e =
      let q : c.page_limit ≡ n = Ensures-ok e refl in
      subst
        (λ m.
          Ensures Unit (IsAnswer m)
            (out_of page_size limit (map_fault internal_err (scan rocks c s filters))))
        q
        (out_of-IsAnswer c
          (Ensures-map_fault internal_err (scan-IsShort rocks c s filters (omega (arith, q)))))
  read_or_scan-IsAnswer n none s (err x) h e = raised
  read_or_scan-IsAnswer n (some parts) s (err x) h e = raised
  read_or_scan-IsAnswer n none s panic h e = died tt
  read_or_scan-IsAnswer n (some parts) s panic h e = died tt

module _ (rocks : Rocks) where
  select_rows-IsAnswer :
      (keyspace : Bytes) (table : TableDef) (limit page_size : Option ℤ) (state : Option Bytes)
      (selected : List (Bytes × ColumnType)) (filters : List Filter) (s : Store rocks)
      → 0 < page_limit_of page_size limit
      → Ensures Unit
          (IsAnswer (page_limit_of page_size limit))
          (select_rows rocks keyspace table limit page_size state selected filters s).0
  unfolding select_rows
  select_rows-IsAnswer keyspace table limit page_size state selected filters s h =
      read_or_scan-IsAnswer rocks page_size limit filters (page_limit_of page_size limit)
        (point_key table filters) s
        (selection_of keyspace table selected filters (page_limit_of page_size limit) state) h
        (page_limit-selection_of keyspace table selected filters (page_limit_of page_size limit)
          state)

  -- Where the address of the row is not known from the filters, the page limit is not 0, and every
  -- entry that the filters' partitions (or else all engines) hold behind the paging state can be
  -- decoded: a SELECT answers the first rows of those entries, as many as the page limit allows, and
  -- no paging state, however many rows there are behind.
  pub select_rows-first_rows :
      (keyspace : Bytes) (table : TableDef) (limit page_size : Option ℤ) (state : Option Bytes)
      (selected : List (Bytes × ColumnType)) (filters : List Filter) (s : Store rocks)
      (c : Selection) (all : List (List Value))
      → point_key table filters ≡ none
      → selection_of keyspace table selected filters (page_limit_of page_size limit) state ≡ ok c
      → 0 < page_limit_of page_size limit
      → rows_of c (entries rocks c s filters) ≡ ok all
      → select_rows rocks keyspace table limit page_size state selected filters s
        ≡ (ok (take (page_limit_of page_size limit) all, none), s)
  unfolding select_rows page_out
  select_rows-first_rows keyspace table limit page_size state selected filters s c all p e h d =
      let n = page_limit_of page_size limit in
      let q : c.page_limit ≡ n =
        Ensures-ok (page_limit-selection_of keyspace table selected filters n state) e in
      rw (p, e)
        (rw (scan-rows_of rocks c s filters all (omega (arith, q)) d) (
          rw (next_paging_state-none page_size limit (page_of c all) refl)
            (ap (λ m. (ok (take m all, none), s)) q)))

module _ (rocks : Rocks) (json : Json) ⦃cases : CaseMap⦄ ⦃parsers : Parsers⦄ where
  finish_select-IsPage :
      (n : ℕ) (keyspace : Bytes) (table : TableDef) (selected : List (Bytes × ColumnType))
      {r : Outcome QueryError Answer}
      → Ensures Unit (IsAnswer n) r
      → Ensures Unit (IsPage n) (finish_select keyspace table selected r)
  unfolding finish_select
  finish_select-IsPage n keyspace table selected (holds h) = holds h
  finish_select-IsPage n keyspace table selected raised = raised
  finish_select-IsPage n keyspace table selected (died q) = died q

  planned-IsPage :
      (keyspace : Bytes) (table : TableDef) (limit page_size : Option ℤ) (state : Option Bytes)
      (c : Context rocks) (plan : Outcome QueryError (List (Bytes × ColumnType) × List Filter))
      (binds : Binds)
      → 0 < page_limit_of page_size limit
      → Ensures Unit
          (IsPage (page_limit_of page_size limit))
          (planned rocks json keyspace table limit page_size state c (plan, binds)).0
  planned-IsPage keyspace table limit page_size state c (ok (selected, filters)) binds h =
      finish_select-IsPage (page_limit_of page_size limit) keyspace table selected
        (select_rows-IsAnswer rocks keyspace table limit page_size state selected filters c.store h)
  planned-IsPage keyspace table limit page_size state c (err e) binds h = raised
  planned-IsPage keyspace table limit page_size state c panic binds h = died tt

  module _ (session : Option Bytes) (sel : Select) (page_size : Option ℤ) (state : Option Bytes)
      (h : 0 < page_limit_of page_size sel.limit) where
    abbrev limit : ℕ
    limit = page_limit_of page_size sel.limit

    on_table-IsPage :
        (c : Context rocks) (r : Outcome QueryError (Bytes × TableDef))
        → Ensures Unit (IsPage limit) (on_table rocks json sel page_size state c r).0
    on_table-IsPage c (ok (keyspace, table)) =
        planned-IsPage keyspace table sel.limit page_size state c
          (select_plan rocks json table sel c.binds).0 (select_plan rocks json table sel c.binds).1
          h
    on_table-IsPage c (err e) = raised
    on_table-IsPage c panic = died tt

    select_from-IsPage :
        (c : Context rocks)
        → Ensures Unit (IsPage limit) (select_from rocks json session sel page_size state c).0
    unfolding select_from
    select_from-IsPage c =
        on_table-IsPage
          (record c { store = (resolve_table rocks json session sel.table_name c.store).1 })
          (resolve_table rocks json session sel.table_name c.store).0

    virtual_or-IsPage :
        (c : Context rocks) (r : Outcome QueryError (Option TableDef))
        → Ensures Unit (IsPage limit) (virtual_or rocks json session sel page_size state c r).0
    virtual_or-IsPage c (ok none) = holds (omega arith, refl)
    virtual_or-IsPage c (ok (some table)) = select_from-IsPage c
    virtual_or-IsPage c (err e) = raised
    virtual_or-IsPage c panic = died tt

  -- Where the page size and the LIMIT of the request are not 0: whatever answer a SELECT gives is a
  -- page of rows, no more than the smaller of the two allows (5000 with neither), and has no paging
  -- state, from which a client would ask for the rows behind.
  pub exec_select-IsPage :
      (session : Option Bytes) (sel : Select) (page_size : Option ℤ) (state : Option Bytes)
      (c : Context rocks) (response : Response)
      → 0 < page_limit_of page_size sel.limit
      → (exec_select rocks json session sel page_size state c).0 ≡ ok response
      → IsPage (page_limit_of page_size sel.limit) response
  unfolding exec_select
  exec_select-IsPage session sel page_size state c response h e =
      Ensures-ok (either (is_virtual rocks json session sel.table_name.keyspace)) e
    where
      looked : Outcome Fault (Option TableDef) × Store rocks
      looked = get_table rocks json virtual_keyspace (norm_id sel.table_name.name) c.store

      either :
          (b : Bool)
          → Ensures Unit
              (IsPage (page_limit_of page_size sel.limit))
              (if b
                then virtual_or rocks json session sel page_size state
                    (record c { store = looked.1 })
                    (map_fault internal_err looked.0)
                else select_from rocks json session sel page_size state c).0
      either true =
          virtual_or-IsPage session sel page_size state h (record c { store = looked.1 })
            (map_fault internal_err looked.0)
      either false = select_from-IsPage session sel page_size state h c
