-- ===== src/Query/Pages.antt =====
-- src/query.rs: the scans of `exec_select`, page by page.
use rhyda.Prelude.{
  ℕ, Bool, true, false, not, ◌||◌, leb, if◌then◌else◌, List, [], ◌∷◌, ◌++◌, length, Option, none,
  some, Outcome, ok, ◌>>=◌,
}
use mathlib.Core.List.{map}
use rhyda.Prelude.Bytes.{Bytes, bytes_eq, bytes_lt}
use rhyda.Schema.Types.{TableDef}
use rhyda.Fault.{Fault}
use rhyda.Value.Types.{Value, raw_bytes}
use rhyda.Storage.Engine.{Rocks}
use rhyda.Storage.Rows.{Store}
use rhyda.Storage.Scan.{Callback, for_each_in_partition, for_each_in_table}
use rhyda.Query.Filters.{Filter, eq_filter, in_filter}
use rhyda.Query.Project.{handle_entry}

-- What the callbacks of a scan read: the table, the indices of the selected columns and of the key,
-- the filters, the page limit and the key to resume behind.
pub record Selection : Type 0 where
  pub keyspace : Bytes
  pub table : TableDef
  pub selected_idxs : List ℕ
  pub eq_filters : List (ℕ × Value)
  pub in_filters : List (ℕ × List Value)
  pub key_col_idxs : List ℕ
  pub page_limit : ℕ
  pub paging_bytes : Option Bytes

-- What they write: `out_rows`, `error_slot`, `paging_last_key` and `done`.
pub record Page : Type 0 where
  pub out_rows : List (List Value)
  pub error_slot : Option Fault
  pub paging_last_key : Option Bytes
  pub done : Bool

abbrev pub first_page : Page
first_page = record { out_rows = []; error_slot = none; paging_last_key = none; done = false }

-- `k <= *ps`
abbrev pub is_behind : Option Bytes → Bytes → Bool
is_behind none k = true
is_behind (some ps) k = bytes_lt ps k

abbrev pub is_full : Selection → List (List Value) → Bool
is_full c rows = leb c.page_limit (length rows)

-- The end of a callback, from the answer of `handle_entry`.
abbrev pub visited :
    Selection → Bytes → Page → Bool × List (List Value) × Option Fault → Bool × Page
visited c k p (cont, rows, error) =
    if not cont
    then (false, record p { out_rows = rows; error_slot = error; done = true })
    else if is_full c rows
    then (
      false,
      record { out_rows = rows; error_slot = error; paging_last_key = some k; done = true },
    )
    else (true, record p { out_rows = rows; error_slot = error })

-- The callback of a scan. That of a whole table keeps no `done`, which nothing reads after it.
unfoldable pub visit : Selection → Callback Fault Page
unfolding handle_entry
visit c k v p =
    let handled =
      handle_entry c.table c.selected_idxs c.eq_filters c.in_filters c.key_col_idxs c.keyspace
        (some c.page_limit) k v p.out_rows p.error_slot in
    if not (is_behind c.paging_bytes k)
    then ok (true, p)
    else if is_full c p.out_rows
    then ok (false, record p { paging_last_key = some k; done = true })
    else (handled >>= λ h. ok (visited c k p h))

-- The values that the filters allow for a column of the partition key.
abbrev allowed : Bytes → List Filter → List Bytes
allowed pk [] = []
allowed pk (eq_filter name v ∷ fs) =
    let rest = allowed pk fs in if bytes_eq name pk then raw_bytes v ∷ rest else rest
allowed pk (in_filter name vs ∷ fs) =
    let rest = allowed pk fs in if bytes_eq name pk then map raw_bytes vs ++ rest else rest

abbrev filter_name : Filter → Bytes
filter_name (eq_filter name v) = name
filter_name (in_filter name vs) = name

abbrev any_restricts : Bytes → List Filter → Bool
any_restricts pk [] = false
any_restricts pk (f ∷ fs) = bytes_eq (filter_name f) pk || any_restricts pk fs

-- `pk_restricted`
unfoldable pub pk_restricted : List Bytes → List Filter → Bool
pk_restricted [] filters = true
pk_restricted (pk ∷ pks) filters =
    if any_restricts pk filters then pk_restricted pks filters else false

-- `for combo in &partitions { for v in &values { … } }`
abbrev pub extend : List (List Bytes) → List Bytes → List (List Bytes)
extend [] values = []
extend (combo ∷ combos) values = map (λ v. combo ++ v ∷ []) values ++ extend combos values

-- The partitions that the filters allow, from the combinations of the columns before.
unfoldable pub partitions_from : List (List Bytes) → List Bytes → List Filter → List (List Bytes)
partitions_from combos [] filters = combos
partitions_from combos (pk ∷ pks) filters =
    partitions_from (extend combos (allowed pk filters)) pks filters

unfoldable pub partitions : TableDef → List Filter → List (List Bytes)
unfolding partitions_from
partitions table filters = partitions_from ([] ∷ []) table.partition_keys filters

abbrev is_some {ℓ} : {A : Type ℓ} → Option A → Bool
is_some none = false
is_some (some a) = true

module _ (rocks : Rocks) (c : Selection) (s : Store rocks) where
  abbrev pub stops : Page → Bool
  stops p = p.done || (is_some p.error_slot || is_full c p.out_rows)

  -- `'parts: for partition in partitions`
  unfoldable pub scan_partitions : List (List Bytes) → Page → Outcome Fault Page
  unfolding for_each_in_partition visit
  scan_partitions [] p = ok p
  scan_partitions (partition ∷ rest) p =
      for_each_in_partition rocks c.keyspace c.table.name partition (visit c) s p >>= λ (go_on, q).
      elim (stops q) [ true ↦ ok q | false ↦ scan_partitions rest q ]

  unfoldable pub scan_table : Page → Outcome Fault Page
  unfolding for_each_in_table visit
  scan_table p =
      for_each_in_table rocks c.keyspace c.table.name (visit c) s p >>= λ (go_on, q). ok q

  -- The scan that the filters call for, from the first page.
  unfoldable pub scan : List Filter → Outcome Fault Page
  unfolding scan_partitions scan_table pk_restricted partitions
  scan filters =
      if pk_restricted c.table.partition_keys filters
      then scan_partitions (partitions c.table filters) first_page
      else scan_table first_page
