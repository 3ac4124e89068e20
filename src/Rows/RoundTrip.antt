-- ===== src/Rows/RoundTrip.antt =====
-- A stored row is read back: every column that was written has its value, and the others are null.
use rhyda.Prelude.{
  ℕ, zero, suc, ◌+◌, ◌≤◌, ◌<◌, ◌^◌, ◌≡◌, refl, sym, ◌∙◌, ◌⊎◌, inl, inr, List, [], ◌∷◌, ◌++◌, length,
  length-append, take, drop, set, get_elem?, replicate, append_assoc, append-nil, All, ltb-eq-false,
  ltb, false, ◌||◌, err, if◌then◌else◌, Bool-cases, arith, some, ok, ◌>>=◌, ok_or,
}
use rhyda.Prelude.Int.{pos, negsuc, signed, wrap, int_eq, is_negative, to_usize}
use rhyda.Prelude.Slices.{slice_to-ok}
use rhyda.Prelude.Bytes.{Bytes, to_be, from_be, take-to_be, drop-to_be, from_be-to_be, length-to_be}
use rhyda.Schema.Types.{ColumnType, ColumnDef, TableDef}
use rhyda.Fault.{Fault, Collection, corrupt_row}
use rhyda.Value.Types.{Value, null, write_wire, to_wire, raw_bytes}
use rhyda.Value.Decode.{i32_at, from_wire}
use rhyda.Value.Tested.{read_i32-ok}
use rhyda.Value.Typing.{HasType}
use rhyda.Value.Wire.{write_wire-append, to_wire-raw_bytes}
use rhyda.Value.Reads.{i32_max, i32_at-to_be, Reads, length-wire, take-wire, drop-wire}
use rhyda.Value.RoundTrip.{from_wire-to_wire}
use rhyda.Rows.Columns.{
  encode_columns, encode_row_columns, decode_column, decode_columns, decode_row_columns,
}

pub encode_columns-append :
    (out : Bytes) (vs : List (ℕ × Value)) → encode_columns out vs ≡ out ++ encode_row_columns vs
unfolding encode_columns encode_row_columns
encode_columns-append out [] = sym (append-nil out)
encode_columns-append out ((i, v) ∷ vs) =
    encode_columns-append (write_wire v (out ++ to_be 2 i)) vs
    ∙ rw (encode_columns-append (write_wire v (to_be 2 i)) vs)
        (simp (write_wire-append, append_assoc))

pub encode_row_columns-cons :
    (i : ℕ) (v : Value) (vs : List (ℕ × Value))
    → encode_row_columns ((i, v) ∷ vs) ≡ to_be 2 i ++ (to_wire v ++ encode_row_columns vs)
unfolding encode_columns encode_row_columns
encode_row_columns-cons i v vs =
    encode_columns-append (write_wire v (to_be 2 i)) vs ∙ simp (write_wire-append, append_assoc)

-- A value that a column can hold: null, or a value of its type with a payload below 2 ^ 31 bytes.
abbrev pub Holds : ColumnType → Value → Type 0
Holds t v = (v ≡ null) ⊎ (HasType t v × (length (raw_bytes v) < i32_max))

-- The index is that of a column, and the column can hold the value.
pub record IsStored (columns : List ColumnDef) (i : ℕ) (v : Value) : Type 0 where
  pub col : ColumnDef
  pub at_index : get_elem? columns i ≡ some col
  pub index : i < 2 ^ 16
  pub holds : Holds col.col_type v

-- The columns of a row after the written ones are set, in the order in which they were written.
abbrev pub assign : List (ℕ × Value) → List Value → List Value
assign [] out = out
assign ((i, v) ∷ vs) out = assign vs (set out i v)

pub wire_null :
    (more : Bytes)
    → (i32_at (to_wire null ++ more) ≡ negsuc 0)
      × (drop 4 (to_wire null ++ more) ≡ more)
      × (length (to_wire null ++ more) ≡ 4 + length more)
unfolding i32_at to_wire write_wire to_be wrap signed from_be
wire_null more = (refl, refl, omega arith)

-- A column that is read behind the tests, without the index and the slice that may panic.
decode_column_tested :
    (col : ColumnDef) (rest : Bytes)
    → decode_column col rest ≡ (
        if ltb (length rest) 4
        then err corrupt_row
        else if int_eq (i32_at rest) (negsuc 0)
        then ok (null, drop 4 rest)
        else if is_negative (i32_at rest) || ltb (length rest) (4 + to_usize (i32_at rest))
        then err corrupt_row
        else (from_wire (take (4 + to_usize (i32_at rest)) rest) col.col_type >>= λ v.
            ok (v, drop (4 + to_usize (i32_at rest)) rest)))
unfolding decode_column
decode_column_tested col rest = elim (Bool-cases (ltb (length rest) 4)) [
  | inl y ↦ rw y refl
  | inr n ↦
      rw (n, read_i32-ok rest n)
        (elim (Bool-cases (is_negative (i32_at rest) || ltb (length rest) (4 + len))) [
          | inl y ↦ rw y refl
          | inr m ↦ rw (m, slice_to-ok {E = Fault} (4 + len) rest (room m)) refl
        ])
]
  where
    len : ℕ
    len = to_usize (i32_at rest)

    room : is_negative (i32_at rest) || ltb (length rest) (4 + len) ≡ false → 4 + len ≤ length rest
    room m = ground arith

decode_column_null :
    (col : ColumnDef) (more : Bytes) → decode_column col (to_wire null ++ more) ≡ ok (null, more)
decode_column_null col more =
    let (i, d, l) = wire_null more in
    decode_column_tested col (to_wire null ++ more)
    ∙ rw (ltb-eq-false (length (to_wire null ++ more)) 4 (omega (arith, l)), i, d)

module _ (t : ColumnType) (v : Value) (h : HasType t v)
    (small : length (raw_bytes v) < i32_max) where
  value_reads : Reads (λ d. from_wire d t) v
  value_reads = record {
    raw = raw_bytes v;
    wire = to_wire-raw_bytes t v h;
    small = small;
    back = from_wire-to_wire t v h small;
  }

  pub i32_at-wire : (more : Bytes) → i32_at (to_wire v ++ more) ≡ pos (length (raw_bytes v))
  i32_at-wire more = rw (to_wire-raw_bytes t v h) (
      rw (append_assoc (to_be 4 (length (raw_bytes v))) (raw_bytes v) more)
        (i32_at-to_be (length (raw_bytes v)) (raw_bytes v ++ more) small))

decode_column_typed :
    (col : ColumnDef) (v : Value) (more : Bytes)
    → HasType col.col_type v
    → length (raw_bytes v) < i32_max
    → decode_column col (to_wire v ++ more) ≡ ok (v, more)
unfolding value_reads
decode_column_typed col v more h small =
    let r = value_reads col.col_type v h small in
    let n = length (raw_bytes v) in
    let l : length (to_wire v ++ more) ≡ 4 + n + length more =
      omega (arith, length-append (to_wire v) more, length-wire r Collection.set more) in
    decode_column_tested col (to_wire v ++ more)
    ∙ rw (i32_at-wire col.col_type v h small more) (
        rw
          (
            ltb-eq-false (length (to_wire v ++ more)) 4 (omega arith),
            ltb-eq-false (length (to_wire v ++ more)) (4 + n) (omega arith),
          )
          (rw (take-wire r Collection.set more, drop-wire r Collection.set more)
            (rw (from_wire-to_wire col.col_type v h small))))

pub decode_column-to_wire :
    (col : ColumnDef) (v : Value) (more : Bytes)
    → Holds col.col_type v
    → decode_column col (to_wire v ++ more) ≡ ok (v, more)
decode_column-to_wire col v more (inl e) = rw e (decode_column_null col more)
decode_column-to_wire col v more (inr (h, small)) = decode_column_typed col v more h small

abbrev AllStored : List ColumnDef → List (ℕ × Value) → Type 0
AllStored columns = All (λ (i, v). IsStored columns i v)

decode_columns_step :
    (fuel : ℕ) (columns : List ColumnDef) (out : List Value) (rest : Bytes)
    → 2 ≤ length rest
    → decode_columns (suc fuel) columns out rest ≡ (
        ok_or
          (Fault.unknown_column_index (from_be (take 2 rest)))
          (get_elem? columns (from_be (take 2 rest)))
        >>= λ col. decode_column col (drop 2 rest) >>= λ (v, left).
            decode_columns fuel columns (set out (from_be (take 2 rest)) v) left)
unfolding decode_columns
decode_columns_step fuel columns out [] l = absurd (omega arith)
decode_columns_step fuel columns out (b ∷ bs) l =
    rw (ltb-eq-false (length (b ∷ bs)) 2 l, slice_to-ok {E = Fault} 2 (b ∷ bs) l)

length-cons :
    (i : ℕ) (v : Value) (vs : List (ℕ × Value))
    → length (encode_row_columns ((i, v) ∷ vs))
      ≡ 2 + length (to_wire v) + length (encode_row_columns vs)
length-cons i v vs = rw (encode_row_columns-cons i v vs) (
    omega (
      arith,
      length-append (to_be 2 i) (to_wire v ++ encode_row_columns vs),
      length-append (to_wire v) (encode_row_columns vs),
      length-to_be 2 i,
    ))

decode_columns-encode :
    (fuel : ℕ) (columns : List ColumnDef) (out : List Value) (vs : List (ℕ × Value))
    → AllStored columns vs
    → length (encode_row_columns vs) ≤ fuel
    → decode_columns fuel columns out (encode_row_columns vs) ≡ ok (assign vs out)
decode_columns-encode fuel columns out [] h l =
    unfold encode_row_columns encode_columns decode_columns in refl
decode_columns-encode zero columns out ((i, v) ∷ vs) h l =
    absurd (omega (arith, length-cons i v vs))
decode_columns-encode (suc fuel) columns out ((i, v) ∷ vs) (s, h) l =
    let n = length-cons i v vs in
    let more = to_wire v ++ encode_row_columns vs in
    decode_columns_step fuel columns out (encode_row_columns ((i, v) ∷ vs)) (omega (arith, n))
    ∙ rw (encode_row_columns-cons i v vs) (
        rw (take-to_be 2 i more, drop-to_be 2 i more)
          (rw (from_be-to_be 2 i s.index) (
            rw s.at_index (
              rw (decode_column-to_wire s.col v (encode_row_columns vs) s.holds)
                (decode_columns-encode fuel columns (set out i v) vs h (omega (arith, n)))))))

-- A row of columns that hold their values is decoded, for any table that has these columns, to the
-- values at their indices and null at every index that was not written.
pub decode_row_columns-encode_row_columns :
    (table : TableDef) (vs : List (ℕ × Value))
    → All (λ (i, v). IsStored table.columns i v) vs
    → decode_row_columns (encode_row_columns vs) table
      ≡ ok (assign vs (replicate (length table.columns) null))
unfolding decode_row_columns
decode_row_columns-encode_row_columns table vs h =
    decode_columns-encode (length (encode_row_columns vs)) table.columns
      (replicate (length table.columns) null) vs h (omega arith)
