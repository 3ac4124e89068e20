-- ===== src/Value/Decode.antt =====
-- src/cql_value.rs: `from_wire` and `from_raw_bytes`.
use rhyda.Prelude.{
  ℕ, zero, suc, ◌+◌, ◌^◌, not, ◌||◌, ◌==◌, ltb, if◌then◌else◌, [], ◌∷◌, ◌++◌, length, take, drop,
  Outcome, ok, err, panic, ◌>>=◌,
}
use rhyda.Prelude.Int.{ℤ, signed, is_negative, to_usize}
use rhyda.Prelude.Slices.{slice_to, slice_from}
use rhyda.Prelude.Bytes.{Bytes, from_be}
use rhyda.Schema.Types.{ColumnType}
use rhyda.Fault.{
  Fault, Collection, value_too_short, length_mismatch, wrong_size, not_utf8, inet_length, too_short,
  negative_count, truncated,
}
use rhyda.Value.Types.{Value, Values, Entries, null, nil, cons, end, entry, v4, v6, put_len}
use rhyda.Value.Utf8.{is_utf8}

-- The number in the first four bytes.
unfoldable pub i32_at : Bytes → ℤ
i32_at d = signed (2 ^ 32) (from_be (take 4 d))

-- `i32::from_be_bytes([d[0], d[1], d[2], d[3]])`, which panics on fewer than four bytes.
unfoldable pub read_i32 : Bytes → Outcome Fault ℤ
read_i32 d = if ltb (length d) 4 then panic else ok (i32_at d)

-- `raw.try_into()?` into an array of n bytes, then `from_be_bytes`.
unfoldable pub word : ℕ → Bytes → Outcome Fault ℕ
word n raw = if length raw == n then ok (from_be raw) else err wrong_size

-- `raw[0]`, which panics on an empty slice.
unfoldable pub first_byte : Bytes → Outcome Fault ℕ
first_byte [] = panic
first_byte (b ∷ bs) = ok b

unfoldable pub inet_value : Bytes → Outcome Fault Value
inet_value raw =
    if length raw == 4
    then ok (Value.inet (v4 raw))
    else if length raw == 16
    then ok (Value.inet (v6 raw))
    else err (inet_length (length raw))

-- The tests of `from_wire` on the length prefix, with the match on the type as `decode`.
unfoldable pub with_payload : (Bytes → Outcome Fault Value) → Bytes → Outcome Fault Value
with_payload decode data' = if ltb (length data') 4 then err value_too_short else (do
  len ← read_i32 data'
  if is_negative len
      then ok null
      else if not (length data' == 4 + to_usize len)
      then err length_mismatch
      else (do raw ← slice_from 4 data'; decode raw))

-- The length prefix of an element in `rest`, which stands for `raw[off..]`.
unfoldable pub elem_len : Collection → Bytes → Outcome Fault ℕ
elem_len c rest = if ltb (length rest) 4 then err (truncated c) else (do
  len ← read_i32 rest
  if is_negative len || ltb (length rest) (4 + to_usize len)
      then err (truncated c)
      else ok (to_usize len))

-- `for _ in 0..count` of a set or a list; `one` is `from_wire` at the element type.
unfoldable pub read_elems :
    Collection → (Bytes → Outcome Fault Value) → ℕ → Bytes → Outcome Fault Values
read_elems c one zero rest = ok nil
read_elems c one (suc n) rest = do
  len ← elem_len c rest
  elem ← slice_to (4 + len) rest
  v ← one elem
  vs ← read_elems c one n (drop (4 + len) rest)
  ok (cons v vs)

unfoldable pub read_entries :
    (Bytes → Outcome Fault Value)
    → (Bytes → Outcome Fault Value)
    → ℕ
    → Bytes
    → Outcome Fault Entries
read_entries key val zero rest = ok end
read_entries key val (suc n) rest = do
  klen ← elem_len Collection.map rest
  entry_key ← slice_to (4 + klen) rest
  k ← key entry_key
  vlen ← elem_len Collection.map (drop (4 + klen) rest)
  entry_val ← slice_to (4 + vlen) (drop (4 + klen) rest)
  v ← val entry_val
  es ← read_entries key val n (drop (4 + vlen) (drop (4 + klen) rest))
  ok (entry k v es)

-- The count at the head of a collection's payload.
unfoldable pub read_count : Collection → Bytes → Outcome Fault ℕ
read_count c raw = if ltb (length raw) 4 then err (too_short c) else (do
  count ← read_i32 raw
  if is_negative count then err (negative_count c) else ok (to_usize count))

-- `match col_type` of `from_wire`.
unfoldable pub decode_payload : Bytes → ColumnType → Outcome Fault Value
decode_payload raw ColumnType.int = do u ← word 4 raw; ok (Value.int (signed (2 ^ 32) u))
decode_payload raw ColumnType.big_int = do u ← word 8 raw; ok (Value.big_int (signed (2 ^ 64) u))
decode_payload raw ColumnType.small_int = do
  u ← word 2 raw
  ok (Value.small_int (signed (2 ^ 16) u))
decode_payload raw ColumnType.tiny_int = do
  b ← first_byte raw
  ok (Value.tiny_int (signed (2 ^ 8) b))
decode_payload raw ColumnType.float = do u ← word 4 raw; ok (Value.float u)
decode_payload raw ColumnType.double = do u ← word 8 raw; ok (Value.double u)
decode_payload raw ColumnType.boolean = do b ← first_byte raw; ok (Value.boolean (not (b == 0)))
decode_payload raw ColumnType.text = if is_utf8 raw then ok (Value.text raw) else err not_utf8
decode_payload raw ColumnType.blob = ok (Value.blob raw)
decode_payload raw ColumnType.timestamp = do
  u ← word 8 raw
  ok (Value.timestamp (signed (2 ^ 64) u))
decode_payload raw ColumnType.uuid =
    if length raw == 16 then ok (Value.uuid raw) else err wrong_size
decode_payload raw ColumnType.inet = inet_value raw
decode_payload raw (ColumnType.set elem) = do
  n ← read_count Collection.set raw
  vs ← read_elems Collection.set (with_payload (λ r. decode_payload r elem)) n (drop 4 raw)
  ok (Value.set vs)
decode_payload raw (ColumnType.list elem) = do
  n ← read_count Collection.list raw
  vs ← read_elems Collection.list (with_payload (λ r. decode_payload r elem)) n (drop 4 raw)
  ok (Value.list vs)
decode_payload raw (ColumnType.map k v) = do
  n ← read_count Collection.map raw
  es ←
      read_entries (with_payload (λ r. decode_payload r k)) (with_payload (λ r. decode_payload r v))
        n (drop 4 raw)
  ok (Value.map es)

unfoldable pub from_wire : Bytes → ColumnType → Outcome Fault Value
from_wire data' col_type = with_payload (λ raw. decode_payload raw col_type) data'

unfoldable pub from_raw_bytes : Bytes → ColumnType → Outcome Fault Value
from_raw_bytes raw col_type = from_wire (put_len [] (length raw) ++ raw) col_type
