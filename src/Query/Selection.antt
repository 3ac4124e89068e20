-- ===== src/Query/Selection.antt =====
-- src/query.rs: what `exec_select` computes before and after its scan or point read: the page limit,
-- the indices of the columns, the row of a point read, and the page's continuation.
use rhyda.Prelude.{
  ℕ, Bool, true, false, ◌&&◌, ◌==◌, leb, any, if◌then◌else◌, List, [], ◌∷◌, length, Option, none,
  some, Outcome, ok, err, ◌>>=◌, unwrap,
}
use rhyda.Prelude.Int.{ℤ, to_usize}
use rhyda.Prelude.Bytes.{Bytes}
use rhyda.Schema.Types.{ColumnType, TableDef, column_index}
use rhyda.Fault.{Fault}
use rhyda.Value.Types.{Value}
use rhyda.Query.Errors.{QueryError, internal_err}
use rhyda.Query.Select.{selected_idxs}
use rhyda.Query.Filters.{Filter, eq_filter, in_filter}
use rhyda.Query.Address.{key_names}
use rhyda.Query.Project.{project_fast_point, project_decoded}
use rhyda.Query.Pages.{Selection, Page}

abbrev pub hard_cap : ℕ
hard_cap = 5000

abbrev min : ℕ → ℕ → ℕ
min a b = if leb a b then a else b

-- The page limit of the request: none, or the smaller of the page size and the limit, each of them
-- cast from i32 to usize.
unfoldable pub effective_page_limit : Option ℤ → Option ℤ → Option ℕ
effective_page_limit (some ps) (some l) = some (min (to_usize ps) (to_usize l))
effective_page_limit (some ps) none = some (to_usize ps)
effective_page_limit none (some l) = some (to_usize l)
effective_page_limit none none = none

abbrev or_cap : Option ℕ → ℕ
or_cap none = hard_cap
or_cap (some l) = l

-- The page limit of the scan: that of the request, or else the hard cap.
unfoldable pub page_limit_of : Option ℤ → Option ℤ → ℕ
unfolding effective_page_limit
page_limit_of page_size limit = or_cap (effective_page_limit page_size limit)

abbrev add_filter :
    Filter → ℕ → List (ℕ × Value) × List (ℕ × List Value) → List (ℕ × Value) × List (ℕ × List Value)
add_filter (eq_filter name v) i (eqs, ins) = ((i, v) ∷ eqs, ins)
add_filter (in_filter name vs) i (eqs, ins) = (eqs, (i, vs) ∷ ins)

abbrev name_of : Filter → Bytes
name_of (eq_filter name v) = name
name_of (in_filter name vs) = name

-- `eq_filters` and `in_filters`
unfoldable pub filter_idxs :
    TableDef → List Filter → Outcome QueryError (List (ℕ × Value) × List (ℕ × List Value))
filter_idxs table [] = ok ([], [])
filter_idxs table (f ∷ fs) = unwrap (column_index table (name_of f)) >>= λ i.
    filter_idxs table fs >>= λ rest. ok (add_filter f i rest)

-- `key_col_idxs`
unfoldable pub key_idxs : TableDef → List Bytes → Outcome QueryError (List ℕ)
key_idxs table [] = ok []
key_idxs table (name ∷ names) =
    unwrap (column_index table name) >>= λ i. key_idxs table names >>= λ is. ok (i ∷ is)

unfoldable pub selection_of :
    Bytes
    → TableDef
    → List (Bytes × ColumnType)
    → List Filter
    → ℕ
    → Option Bytes
    → Outcome QueryError Selection
unfolding filter_idxs key_idxs
selection_of keyspace table selected filters limit paging_state =
    selected_idxs table selected >>= λ is. filter_idxs table filters >>= λ (eqs, ins).
    key_idxs table (key_names table) >>= λ keys. ok (record {
      keyspace = keyspace;
      table = table;
      selected_idxs = is;
      eq_filters = eqs;
      in_filters = ins;
      key_col_idxs = keys;
      page_limit = limit;
      paging_bytes = paging_state;
    })

abbrev is_nil {ℓ} : {A : Type ℓ} → List A → Bool
is_nil [] = true
is_nil (x ∷ xs) = false

abbrev all_keys : Selection → List (ℕ × Value) → Bool
all_keys c [] = true
all_keys c ((i, v) ∷ eqs) = any (λ k. k == i) c.key_col_idxs && all_keys c eqs

-- `fast`
unfoldable pub is_fast : Selection → Bool
is_fast c =
    is_nil c.in_filters
    && ((length c.eq_filters == length c.key_col_idxs)
        && (is_nil c.table.clustering_keys
            && ((length c.table.partition_keys == 1) && all_keys c c.eq_filters)))

abbrev pub one_row : Option (List Value) → List (List Value)
one_row none = []
one_row (some row) = row ∷ []

-- The rows of a point read, from what the storage has at the address.
unfoldable pub point_rows :
    Selection → List Bytes → Option Bytes → Outcome Fault (List (List Value))
unfolding is_fast project_fast_point project_decoded
point_rows c key_parts none = ok []
point_rows c key_parts (some bytes) =
    if is_fast c
    then (project_fast_point c.table c.selected_idxs c.key_col_idxs key_parts bytes >>= λ row.
        ok (row ∷ []))
    else (project_decoded c.table c.selected_idxs c.eq_filters c.in_filters c.key_col_idxs key_parts
          bytes
        >>= λ o. ok (one_row o))

abbrev reaches : Option ℤ → Option ℕ → ℕ → Bool
reaches (some ps) (some l) n = leb (to_usize ps) n
reaches none (some l) n = false
reaches page_size none n = leb hard_cap n

-- `next_paging_state`: the last key of the page where the page is full.
unfoldable pub next_paging_state : Option ℤ → Option ℤ → Page → Option Bytes
unfolding effective_page_limit
next_paging_state page_size limit p =
    if reaches page_size (effective_page_limit page_size limit) (length p.out_rows)
    then p.paging_last_key
    else none

abbrev pub page_or_error :
    Option Fault
    → List (List Value)
    → Option Bytes
    → Outcome QueryError (List (List Value) × Option Bytes)
page_or_error (some e) rows next = err (internal_err e)
page_or_error none rows next = ok (rows, next)

-- The rows and the paging state, from the page of a scan.
unfoldable pub page_out :
    Option ℤ → Option ℤ → Page → Outcome QueryError (List (List Value) × Option Bytes)
unfolding next_paging_state
page_out page_size limit p =
    page_or_error p.error_slot p.out_rows (next_paging_state page_size limit p)
