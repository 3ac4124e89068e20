-- ===== src/Rows/Columns.antt =====
-- src/storage.rs: `encode_row_columns` and `decode_row_columns`.
use rhyda.Prelude.{
  ℕ, zero, suc, ◌+◌, ◌||◌, List, [], ◌∷◌, ◌++◌, length, drop, set, get_elem?, replicate, ltb,
  if◌then◌else◌, Outcome, ok, err, panic, ◌>>=◌, ok_or,
}
use rhyda.Prelude.Int.{negsuc, int_eq, is_negative, to_usize}
use rhyda.Prelude.Slices.{slice_to}
use rhyda.Prelude.Bytes.{Bytes, to_be, from_be}
use rhyda.Schema.Types.{ColumnDef, TableDef}
use rhyda.Fault.{Fault, corrupt_row, unknown_column_index}
use rhyda.Value.Types.{Value, null, write_wire}
use rhyda.Value.Decode.{read_i32, from_wire}

-- The loop of `encode_row_columns`.
unfoldable pub encode_columns : Bytes → List (ℕ × Value) → Bytes
encode_columns out [] = out
encode_columns out ((idx, v) ∷ rest) = encode_columns (write_wire v (out ++ to_be 2 idx)) rest

unfoldable pub encode_row_columns : List (ℕ × Value) → Bytes
encode_row_columns values = encode_columns [] values

-- What one round of the loop reads behind a column's index: the value and the bytes left.
unfoldable pub decode_column : ColumnDef → Bytes → Outcome Fault (Value × Bytes)
decode_column col rest = if ltb (length rest) 4 then err corrupt_row else (do
  len ← read_i32 rest
  if int_eq len (negsuc 0)
      then ok (null, drop 4 rest)
      else if is_negative len || ltb (length rest) (4 + to_usize len)
      then err corrupt_row
      else (do
        wire ← slice_to (4 + to_usize len) rest
        v ← from_wire wire col.col_type
        ok (v, drop (4 + to_usize len) rest)))

-- The loop, with fuel, over the bytes `data[off..]`; it never runs out of fuel.
unfoldable pub decode_columns : ℕ → List ColumnDef → List Value → Bytes → Outcome Fault (List Value)
decode_columns fuel columns out [] = ok out
decode_columns zero columns out (b ∷ bs) = panic
decode_columns (suc fuel) columns out (b ∷ bs) =
    let rest = b ∷ bs in
    if ltb (length rest) 2 then err corrupt_row else (do
      head ← slice_to 2 rest
      let idx = from_be head
      col ← ok_or (unknown_column_index idx) (get_elem? columns idx)
      (v, left) ← decode_column col (drop 2 rest)
      decode_columns fuel columns (set out idx v) left)

unfoldable pub decode_row_columns : Bytes → TableDef → Outcome Fault (List Value)
decode_row_columns input table =
    decode_columns (length input) table.columns (replicate (length table.columns) null) input
