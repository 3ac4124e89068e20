-- ===== src/Query/Project.antt =====
-- src/query.rs: `project_fast_point`, `project_decoded` and `handle_entry`, which turn a stored row
-- into a row of the result.
use rhyda.Prelude.{
  ℕ, zero, suc, ◌+◌, ◌-◌, ◌%◌, ◌^◌, Bool, true, false, not, ltb, ◌==◌, if◌then◌else◌, List, [], ◌∷◌,
  ◌++◌, length, take, drop, set, get_elem?, position, Option, none, some, Outcome, ok, err, panic,
  ◌>>=◌, unwrap,
}
use rhyda.Prelude.Int.{negsuc, int_eq, to_usize}
use rhyda.Prelude.Bytes.{Bytes, from_be}
use rhyda.Schema.Types.{TableDef}
use rhyda.Fault.{Fault, corrupt_row}
use rhyda.Value.Types.{Value, null, value_eq}
use rhyda.Value.Decode.{i32_at, from_raw_bytes}
use rhyda.Keys.Parts.{decode_key}
use rhyda.Rows.Columns.{decode_row_columns}

-- A loop that pushes what `f` gives for each index, and stops at the first error.
abbrev pub collect_values : (ℕ → Outcome Fault Value) → List ℕ → Outcome Fault (List Value)
collect_values f [] = ok []
collect_values f (i ∷ is) = f i >>= λ v. collect_values f is >>= λ vs. ok (v ∷ vs)

-- `table.columns[idx].col_type` with the bytes of the value.
unfoldable pub read_at : TableDef → ℕ → Bytes → Outcome Fault Value
read_at table idx raw =
    unwrap (get_elem? table.columns idx) >>= λ col. from_raw_bytes raw col.col_type

-- The entry of the column that is sought, from its length at `off` on. A negative length is cast to a
-- large usize, and the sums wrap around, as in a release build.
unfoldable pub found_at : TableDef → ℕ → Bytes → ℕ → Outcome Fault Value
found_at table idx data' off =
    let len = i32_at (drop off data') in
    let last = (off + 4 + to_usize len) % 2 ^ 64 in
    if int_eq len (negsuc 0)
    then ok null
    else if ltb (length data') last
    then err corrupt_row
    else if ltb last (off + 4)
    then panic
    else read_at table idx (take (last - (off + 4)) (drop (off + 4) data'))

-- Where the scan goes on after another column's entry, whose length is at `off`.
unfoldable pub skip_from : Bytes → ℕ → ℕ
skip_from data' off =
    let len = i32_at (drop off data') in
    if int_eq len (negsuc 0) then off + 4 else (off + 4 + to_usize len) % 2 ^ 64

-- `while off < value_bytes.len()`, with fuel. On a corrupt row the source can loop forever, and the
-- fuel then runs out.
unfoldable pub scan_column : ℕ → TableDef → ℕ → Bytes → ℕ → Outcome Fault Value
scan_column zero table idx data' off = panic
scan_column (suc fuel) table idx data' off =
    let more = scan_column fuel table idx data' (skip_from data' (off + 2)) in
    if not (ltb off (length data'))
    then ok null
    else if ltb (length data') (off + 2)
    then err corrupt_row
    else if ltb (length data') (off + 6)
    then err corrupt_row
    else if from_be (take 2 (drop off data')) == idx
    then found_at table idx data' (off + 2)
    else more

abbrev point_part : TableDef → List Bytes → Bytes → ℕ → Option ℕ → Outcome Fault Value
point_part table key_parts data' idx none = scan_column (suc (length data')) table idx data' 0
point_part table key_parts data' idx (some i) =
    unwrap (get_elem? key_parts i) >>= λ part. read_at table idx part

-- One round of the loop over `selected_idxs`.
unfoldable pub point_value : TableDef → List ℕ → List Bytes → Bytes → ℕ → Outcome Fault Value
point_value table key_col_idxs key_parts data' idx =
    point_part table key_parts data' idx (position (λ k. k == idx) key_col_idxs)

-- The row that is pushed to `out_rows`.
unfoldable pub project_fast_point :
    TableDef → List ℕ → List ℕ → List Bytes → Bytes → Outcome Fault (List Value)
project_fast_point table selected_idxs key_col_idxs key_parts data' =
    collect_values (point_value table key_col_idxs key_parts data') selected_idxs

-- The loop that puts the parts of the key into the row.
unfoldable pub set_keys : TableDef → List ℕ → List Bytes → List Value → Outcome Fault (List Value)
set_keys table [] parts row = ok row
set_keys table (i ∷ is) [] row = ok row
set_keys table (i ∷ is) (p ∷ ps) row = read_at table i p >>= λ v. set_keys table is ps (set row i v)

-- The two loops over the filters, up to the first that the row fails.
unfoldable pub meets_eq : List (ℕ × Value) → List Value → Outcome Fault Bool
meets_eq [] row = ok true
meets_eq ((idx, expected) ∷ filters) row =
    let rest = meets_eq filters row in
    unwrap (get_elem? row idx) >>= λ v. if value_eq expected v then rest else ok false

-- `vs.iter().find(|v| **v == row_columns[*idx])`
abbrev has_value : List Value → List Value → ℕ → Outcome Fault Bool
has_value [] row idx = ok false
has_value (v ∷ vs) row idx =
    let rest = has_value vs row idx in
    unwrap (get_elem? row idx) >>= λ w. if value_eq v w then ok true else rest

unfoldable pub meets_in : List (ℕ × List Value) → List Value → Outcome Fault Bool
meets_in [] row = ok true
meets_in ((idx, vs) ∷ filters) row =
    let rest = meets_in filters row in
    has_value vs row idx >>= λ found. if found then rest else ok false

-- `Ok(true)` with the row that is pushed, or `Ok(false)`.
unfoldable pub project_decoded :
    TableDef
    → List ℕ
    → List (ℕ × Value)
    → List (ℕ × List Value)
    → List ℕ
    → List Bytes
    → Bytes
    → Outcome Fault (Option (List Value))
project_decoded table selected_idxs eq_filters in_filters key_col_idxs key_parts data' =
    decode_row_columns data' table >>= λ decoded.
    set_keys table key_col_idxs key_parts decoded >>= λ row. meets_eq eq_filters row >>= λ eq_ok.
    if not eq_ok
    then ok none
    else (meets_in in_filters row >>= λ in_ok.
        if not in_ok
        then ok none
        else (collect_values (λ idx. unwrap (get_elem? row idx)) selected_idxs >>= λ out.
            ok (some out)))

abbrev below_limit : Option ℕ → List (List Value) → Bool
below_limit none out_rows = true
below_limit (some l) out_rows = ltb (length out_rows) l

abbrev pub keep_error : Option Fault → Fault → Option Fault
keep_error none e = some e
keep_error (some first) e = some first

abbrev pub handled :
    Option ℕ
    → List (List Value)
    → Option Fault
    → Outcome Fault (Option (List Value))
    → Outcome Fault (Bool × List (List Value) × Option Fault)
handled limit out_rows error_slot (ok (some row)) =
    let rows = out_rows ++ row ∷ [] in ok (below_limit limit rows, rows, error_slot)
handled limit out_rows error_slot (ok none) = ok (true, out_rows, error_slot)
handled limit out_rows error_slot (err e) = ok (false, out_rows, keep_error error_slot e)
handled limit out_rows error_slot panic = panic

-- Whether the scan goes on, the rows so far, and the first error.
unfoldable pub handle_entry :
    TableDef
    → List ℕ
    → List (ℕ × Value)
    → List (ℕ × List Value)
    → List ℕ
    → Bytes
    → Option ℕ
    → Bytes
    → Bytes
    → List (List Value)
    → Option Fault
    → Outcome Fault (Bool × List (List Value) × Option Fault)
handle_entry table selected eqs ins key_idxs keyspace limit key value out_rows error_slot =
    handled limit out_rows error_slot (
      decode_key keyspace table.name key >>= λ key_parts.
      project_decoded table selected eqs ins key_idxs key_parts value)
