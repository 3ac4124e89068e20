-- ===== src/Query/Scan.antt =====
-- The point lookup's scan of a stored row finds the column that it seeks.
use rhyda.Prelude.{
  ℕ, zero, suc, ◌+◌, ◌-◌, ◌≤◌, ◌<◌, ◌^◌, ◌%◌, ◌≡◌, refl, ap, ◌∙◌, ◌⊎◌, inl, inr, ◌==◌, ltb-eq-false,
  if◌then◌else◌, Bool-cases, List, [], ◌∷◌, ◌++◌, length, take, drop, length-append, drop-append,
  drop-drop, take-append, append_assoc, append-nil, All, arith, Option, none, some, ok,
}
use native.Mathlib.Nat.{mod-eq_of_lt}
use rhyda.Prelude.Int.{pos, negsuc}
use rhyda.Prelude.Bytes.{Bytes, to_be, from_be, take-to_be, drop-to_be, from_be-to_be, length-to_be}
use rhyda.Schema.Types.{ColumnType, TableDef}
use rhyda.Value.Types.{Value, null, to_wire, raw_bytes}
use rhyda.Value.Decode.{i32_at}
use rhyda.Value.Typing.{HasType}
use rhyda.Value.Wire.{to_wire-raw_bytes}
use rhyda.Value.Reads.{i32_max}
use rhyda.Value.RoundTrip.{from_raw_bytes-raw_bytes}
use rhyda.Rows.Columns.{encode_columns, encode_row_columns}
use rhyda.Rows.RoundTrip.{IsStored, Holds, wire_null, i32_at-wire, encode_row_columns-cons}
use rhyda.Query.Project.{read_at, found_at, skip_from, scan_column}

abbrev pub lookup : ℕ → List (ℕ × Value) → Option Value
lookup i [] = none
lookup i ((j, v) ∷ xs) = if j == i then some v else lookup i xs

abbrev pub or_null : Option Value → Value
or_null none = null
or_null (some v) = v

-- What the wire form of a value looks like from its length on.
abbrev WireCase : ColumnType → Value → Bytes → Type 0
WireCase t v more =
    ((v ≡ null) × (i32_at (to_wire v ++ more) ≡ negsuc 0) × (length (to_wire v) ≡ 4))
    ⊎ (HasType t v
        × (length (raw_bytes v) < i32_max)
        × (i32_at (to_wire v ++ more) ≡ pos (length (raw_bytes v)))
        × (to_wire v ≡ to_be 4 (length (raw_bytes v)) ++ raw_bytes v)
        × (length (to_wire v) ≡ 4 + length (raw_bytes v)))

wire_cases : (t : ColumnType) (v : Value) (more : Bytes) → Holds t v → WireCase t v more
wire_cases t v more (inl e) =
    let (i, d, l) = wire_null more in
    inl (e, rw e i, rw e (omega (arith, l, length-append (to_wire null) more)))
wire_cases t v more (inr (h, small)) =
    let w = to_wire-raw_bytes t v h in
    inr (
      h,
      small,
      i32_at-wire t v h small more,
      w,
      ap length w
          ∙ omega (
            arith,
            length-append (to_be 4 (length (raw_bytes v))) (raw_bytes v),
            length-to_be 4 (length (raw_bytes v)),
          ),
    )

-- An entry that lies inside the row is the bytes behind its length.
found_at_pos :
    (table : TableDef) (j : ℕ) (row : Bytes) (off len : ℕ)
    → i32_at (drop off row) ≡ pos len
    → off + 4 + len ≤ length row
    → length row < 2 ^ 64
    → found_at table j row off ≡ read_at table j (take len (drop (off + 4) row))
unfolding found_at
found_at_pos table j row off len l inside fits =
    let m : (off + 4 + len) % 2 ^ 64 ≡ off + 4 + len = mod-eq_of_lt (omega arith) in
    let d : off + 4 + len - (off + 4) ≡ len = omega arith in
    rw l (
      rw m (
        rw (
          ltb-eq-false (length row) (off + 4 + len) (omega arith),
          ltb-eq-false (off + 4 + len) (off + 4) (omega arith),
          d,
        )))

-- One entry of a row, behind the bytes that the scan has passed.
module _ (table : TableDef) (i : ℕ) (passed : Bytes) (j : ℕ) (v : Value) (vs : List (ℕ × Value))
    (stored : IsStored table.columns j v)
    (fits : length (passed ++ encode_row_columns ((j, v) ∷ vs)) < 2 ^ 64) where
  abbrev row : Bytes
  row = passed ++ encode_row_columns ((j, v) ∷ vs)

  abbrev more : Bytes
  more = to_wire v ++ encode_row_columns vs

  at_index : drop (length passed) row ≡ to_be 2 j ++ more
  at_index = drop-append passed (encode_row_columns ((j, v) ∷ vs)) ∙ encode_row_columns-cons j v vs

  at_length : drop (length passed + 2) row ≡ more
  at_length = drop-drop (length passed) 2 row ∙ rw at_index (drop-to_be 2 j more)

  index_read : from_be (take 2 (drop (length passed) row)) ≡ j
  index_read = rw at_index (rw (take-to_be 2 j more) (from_be-to_be 2 j stored.index))

  length-row : length row ≡ length passed + 2 + length (to_wire v) + length (encode_row_columns vs)
  length-row = omega (
    arith,
    length-append passed (encode_row_columns ((j, v) ∷ vs)),
    ap length (encode_row_columns-cons j v vs),
    length-append (to_be 2 j) more,
    length-to_be 2 j,
    length-append (to_wire v) (encode_row_columns vs),
  )

  skip_from-row : skip_from row (length passed + 2) ≡ length passed + 2 + length (to_wire v)
  unfolding skip_from
  skip_from-row = elim (wire_cases stored.col.col_type v (encode_row_columns vs) stored.holds) [
    | inl (e, l, n) ↦ rw (at_length) (rw l (omega (arith, n)))
    | inr (h, small, l, w, n) ↦
        rw (at_length) (rw l (mod-eq_of_lt (omega (arith, length-row, n)) ∙ omega (arith, n)))
  ]

  payload :
      to_wire v ≡ to_be 4 (length (raw_bytes v)) ++ raw_bytes v
      → take (length (raw_bytes v)) (drop (length passed + 2 + 4) row) ≡ raw_bytes v
  payload w = rw (drop-drop (length passed + 2) 4 row) (
      rw at_length (
        rw w (
          rw (append_assoc (to_be 4 (length (raw_bytes v))) (raw_bytes v) (encode_row_columns vs)) (
            rw (drop-to_be 4 (length (raw_bytes v)) (raw_bytes v ++ encode_row_columns vs))
              (take-append (raw_bytes v) (encode_row_columns vs))))))

  found_at-row : found_at table j row (length passed + 2) ≡ ok v
  found_at-row = elim (wire_cases stored.col.col_type v (encode_row_columns vs) stored.holds) [
    | inl (e, l, n) ↦ unfold found_at in rw at_length (rw l (rw e refl))
    | inr (h, small, l, w, n) ↦
        found_at_pos table j row (length passed + 2) (length (raw_bytes v)) (rw at_length l)
          (omega (arith, length-row, n)) fits
        ∙ rw (payload w) (
            unfold read_at in
            rw (stored.at_index, from_raw_bytes-raw_bytes stored.col.col_type v h small))
  ]

  wire_len : 4 ≤ length (to_wire v)
  wire_len = elim (wire_cases stored.col.col_type v (encode_row_columns vs) stored.holds) [
    | inl (e, l, n) ↦ omega (arith, n)
    | inr (h, small, l, w, n) ↦ omega (arith, n)
  ]

  -- The entry is what is sought, or the scan goes on behind it.
  scan_column-row :
      (fuel : ℕ)
      → scan_column (suc fuel) table i row (length passed) ≡ (
          if j == i
          then found_at table i row (length passed + 2)
          else scan_column fuel table i row (length passed + 2 + length (to_wire v)))
  unfolding scan_column
  scan_column-row fuel =
      rw (index_read, skip_from-row)
        (ground (
          arith,
          wire_len,
          length-row,
          ltb-eq-false (length row) (length passed + 2) (omega (arith, length-row)),
          ltb-eq-false (length row) (length passed + 6) (omega (arith, length-row, wire_len)),
        ))

  next : (passed ++ (to_be 2 j ++ to_wire v)) ++ encode_row_columns vs ≡ row
  next = rw (encode_row_columns-cons j v vs) (simp append_assoc)

  length_next : length (passed ++ (to_be 2 j ++ to_wire v)) ≡ length passed + 2 + length (to_wire v)
  length_next = omega (
    arith,
    length-append passed (to_be 2 j ++ to_wire v),
    length-append (to_be 2 j) (to_wire v),
    length-to_be 2 j,
  )

scan_column_end :
    (fuel : ℕ) (table : TableDef) (i : ℕ) (passed : Bytes)
    → scan_column (suc fuel) table i (passed ++ encode_row_columns []) (length passed) ≡ ok null
unfolding scan_column encode_row_columns encode_columns
scan_column_end fuel table i passed =
    rw (append-nil passed) (rw (ltb-eq-false (length passed) (length passed) (omega arith)))

-- The scan of a row, with fuel for its entries, gives the first value that was written for the
-- column, or null.
pub scan_column-encode_row_columns :
    (fuel : ℕ) (table : TableDef) (i : ℕ) (passed : Bytes) (vs : List (ℕ × Value))
    → All (λ (j, v). IsStored table.columns j v) vs
    → length (passed ++ encode_row_columns vs) < 2 ^ 64
    → length vs < fuel
    → scan_column fuel table i (passed ++ encode_row_columns vs) (length passed)
      ≡ ok (or_null (lookup i vs))
scan_column-encode_row_columns zero table i passed vs h fits l = absurd (omega arith)
scan_column-encode_row_columns (suc fuel) table i passed [] h fits l =
    scan_column_end fuel table i passed
scan_column-encode_row_columns (suc fuel) table i passed ((j, v) ∷ vs) (s, h) fits l =
    scan_column-row table i passed j v vs s fits fuel ∙ elim (Bool-cases (j == i)) [
      | inl y ↦
          let e : j ≡ i = ground arith in
          rw y (rw (← e) (found_at-row table j passed j v vs s fits))
      | inr n ↦ rw n (
          rw (next table i passed j v vs s fits, length_next table i passed j v vs s fits) at
            (scan_column-encode_row_columns fuel table i (passed ++ (to_be 2 j ++ to_wire v)) vs h
              (rw (next table i passed j v vs s fits) fits) (omega arith)))
    ]
