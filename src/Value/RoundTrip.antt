-- ===== src/Value/RoundTrip.antt =====
-- What the encoder writes, the decoder reads back.
use rhyda.Prelude.{
  ℕ, ◌+◌, ◌≤◌, ◌<◌, ◌^◌, ◌≡◌, refl, ap, ◌∙◌, [], ◌++◌, length, drop, length-append, true, false,
  arith, ok, ◌>>=◌,
}
use rhyda.Prelude.Int.{signed, wrap, wrap-lt, signed-wrap}
use rhyda.Prelude.Bytes.{Bytes, to_be, from_be, length-to_be, from_be-to_be, drop-to_be}
use rhyda.Schema.Types.{ColumnType}
use rhyda.Fault.{Collection}
use rhyda.Value.Types.{
  Value, Values, Entries, v4, v6, null, nil, cons, end, entry, count, count_entries, put_len,
  extend_values, extend_entries, write_wire, to_wire, raw_bytes,
}
use rhyda.Value.Decode.{
  i32_at, read_i32, with_payload, word, first_byte, inet_value, read_count, read_elems,
  read_entries, decode_payload, from_wire, from_raw_bytes,
}
use rhyda.Value.Typing.{HasType, AllValues, AllEntries}
use rhyda.Value.Wire.{
  wires, entry_wires, to_wire-raw_bytes, extend_values-wires, extend_entries-wires,
}
use rhyda.Value.Reads.{
  i32_max, with_payload-to_be, read_count-to_be, Reads, read_elems-wires, read_entries-wires,
}

word-to_be : (n u : ℕ) → u < 256 ^ n → word n (to_be n u) ≡ ok u
unfolding word
word-to_be n u h = ground (arith, length-to_be n u, from_be-to_be n u)

first_byte-to_be : (u : ℕ) → u < 256 → first_byte (to_be 1 u) ≡ ok u
unfolding first_byte to_be
first_byte-to_be u h = ground arith

abbrev Decodes : ColumnType → Type 0
Decodes t =
    (v : Value)
    → HasType t v
    → length (raw_bytes v) < i32_max
    → decode_payload (raw_bytes v) t ≡ ok v

-- A value read back from its wire form by the decoder of its type.
value-Reads :
    (t : ColumnType)
    → Decodes t
    → (v : Value) → HasType t v
    → length (to_wire v) < i32_max
    → Reads (with_payload (λ r. decode_payload r t)) v
value-Reads t ih v h small =
    let w = to_wire-raw_bytes t v h in
    let l : length (raw_bytes v) < i32_max =
      omega (arith, ap length w, length-append (to_be 4 (length (raw_bytes v))) (raw_bytes v)) in
    record {
      raw = raw_bytes v;
      wire = w;
      small = l;
      back = rw w (with_payload-to_be (λ r. decode_payload r t) (raw_bytes v) l ∙ ih v h l);
    }

values-Reads :
    (t : ColumnType)
    → Decodes t
    → (vs : Values) → AllValues (HasType t) vs
    → length (wires vs) < i32_max
    → AllValues (Reads (with_payload (λ r. decode_payload r t))) vs
unfolding wires
values-Reads t ih nil h small = tt
values-Reads t ih (cons v vs) (hv, hs) small =
    let l = length-append (to_wire v) (wires vs) in
    (value-Reads t ih v hv (omega (arith, l)), values-Reads t ih vs hs (omega (arith, l)))

entries-Reads :
    (k t : ColumnType)
    → Decodes k
    → Decodes t
    → (es : Entries) → AllEntries (HasType k) (HasType t) es
    → length (entry_wires es) < i32_max
    → AllEntries
        (Reads (with_payload (λ r. decode_payload r k)))
        (Reads (with_payload (λ r. decode_payload r t)))
        es
unfolding entry_wires
entries-Reads k t ihk iht end h small = tt
entries-Reads k t ihk iht (entry x v es) (hx, hv, hs) small =
    let l = length-append (to_wire x) (to_wire v ++ entry_wires es) in
    let m = length-append (to_wire v) (entry_wires es) in
    (
      value-Reads k ihk x hx (omega (arith, l, m)),
      value-Reads t iht v hv (omega (arith, l, m)),
      entries-Reads k t ihk iht es hs (omega (arith, l, m)),
    )

length-to_wire_pos : (v : Value) → 4 ≤ length (to_wire v)
unfolding to_wire write_wire to_be
length-to_wire_pos null = omega arith
length-to_wire_pos (Value.inet (v4 a)) =
    omega (arith, length-append (to_be 4 4) a, length-to_be 4 4)
length-to_wire_pos (Value.inet (v6 a)) =
    omega (arith, length-append (to_be 4 16) a, length-to_be 4 16)
length-to_wire_pos (Value.int z) =
    omega (arith, length-append (to_be 4 4) (to_be 4 (wrap (2 ^ 32) z)), length-to_be 4 4)
length-to_wire_pos _ = ground (arith)

count-le-wires : (vs : Values) → count vs ≤ length (wires vs)
unfolding wires
count-le-wires nil = omega arith
count-le-wires (cons v vs) =
    omega (arith, length-append (to_wire v) (wires vs), length-to_wire_pos v, count-le-wires vs)

count_entries-le-wires : (es : Entries) → count_entries es ≤ length (entry_wires es)
unfolding entry_wires
count_entries-le-wires end = omega arith
count_entries-le-wires (entry k v es) = omega (
  arith,
  length-append (to_wire k) (to_wire v ++ entry_wires es),
  length-append (to_wire v) (entry_wires es),
  length-to_wire_pos k,
  count_entries-le-wires es,
)

length-counted : (n : ℕ) (xs : Bytes) → length (put_len [] n ++ xs) ≡ 4 + length xs
length-counted n xs = omega (arith, length-append (to_be 4 n) xs, length-to_be 4 n)

length-extend_values :
    (vs : Values) → length (extend_values (put_len [] (count vs)) vs) ≡ 4 + length (wires vs)
length-extend_values vs = rw extend_values-wires (length-counted (count vs) (wires vs))

length-extend_entries :
    (es : Entries)
    → length (extend_entries (put_len [] (count_entries es)) es) ≡ 4 + length (entry_wires es)
length-extend_entries es =
    rw extend_entries-wires (length-counted (count_entries es) (entry_wires es))

-- The payload of a set or of a list is read back by the two steps that the decoder makes of it.
module _ (c : Collection) (t : ColumnType) (ih : Decodes t) (vs : Values)
    (h : AllValues (HasType t) vs)
    (small : length (extend_values (put_len [] (count vs)) vs) < i32_max) where
  fits : 4 + length (wires vs) < i32_max
  fits = omega (arith, length-extend_values vs)

  read_values :
      (wrap_up : Values → Value)
      → (read_count c (extend_values (put_len [] (count vs)) vs) >>= λ n.
          read_elems c
            (with_payload (λ r. decode_payload r t))
            n
            (drop 4 (extend_values (put_len [] (count vs)) vs))
          >>= λ us. ok (wrap_up us))
        ≡ ok (wrap_up vs)
  read_values wrap_up = rw extend_values-wires (
      rw (read_count-to_be c (count vs) (wires vs) (omega (arith, fits, count-le-wires vs))) (
        rw (drop-to_be 4 (count vs) (wires vs))
          (rw (read_elems-wires c _ vs (values-Reads t ih vs h (omega (arith, fits)))))))

read_map :
    (k t : ColumnType)
    → Decodes k
    → Decodes t
    → (es : Entries) → AllEntries (HasType k) (HasType t) es
    → length (extend_entries (put_len [] (count_entries es)) es) < i32_max
    → (read_count Collection.map (extend_entries (put_len [] (count_entries es)) es) >>= λ n.
        read_entries
          (with_payload (λ r. decode_payload r k))
          (with_payload (λ r. decode_payload r t))
          n
          (drop 4 (extend_entries (put_len [] (count_entries es)) es))
        >>= λ us. ok (Value.map us))
      ≡ ok (Value.map es)
read_map k t ihk iht es h small =
    let fits' : 4 + length (entry_wires es) < i32_max = omega (arith, length-extend_entries es) in
    rw extend_entries-wires (
      rw
        (read_count-to_be Collection.map (count_entries es) (entry_wires es)
          (omega (arith, count_entries-le-wires es)))
        (rw (drop-to_be 4 (count_entries es) (entry_wires es))
          (rw (read_entries-wires _ _ es (entries-Reads k t ihk iht es h (omega arith))))))

-- The decoder reads back the raw bytes of every value of its type.
pub decode_payload-raw_bytes : (t : ColumnType) → Decodes t
unfolding decode_payload raw_bytes inet_value
decode_payload-raw_bytes ColumnType.int (Value.int z) h small =
    rw (word-to_be 4 (wrap (2 ^ 32) z) (wrap-lt (2 ^ 32) z (omega arith)), signed-wrap (2 ^ 32) z h)
decode_payload-raw_bytes ColumnType.big_int (Value.big_int z) h small =
    rw (word-to_be 8 (wrap (2 ^ 64) z) (wrap-lt (2 ^ 64) z (omega arith)), signed-wrap (2 ^ 64) z h)
decode_payload-raw_bytes ColumnType.small_int (Value.small_int z) h small =
    rw (word-to_be 2 (wrap (2 ^ 16) z) (wrap-lt (2 ^ 16) z (omega arith)), signed-wrap (2 ^ 16) z h)
decode_payload-raw_bytes ColumnType.tiny_int (Value.tiny_int z) h small =
    rw
      (first_byte-to_be (wrap (2 ^ 8) z) (wrap-lt (2 ^ 8) z (omega arith)), signed-wrap (2 ^ 8) z h)
decode_payload-raw_bytes ColumnType.float (Value.float u) h small = rw (word-to_be 4 u h)
decode_payload-raw_bytes ColumnType.double (Value.double u) h small = rw (word-to_be 8 u h)
decode_payload-raw_bytes ColumnType.boolean (Value.boolean true) h small = unfold first_byte in refl
decode_payload-raw_bytes ColumnType.boolean (Value.boolean false) h small =
    unfold first_byte in refl
decode_payload-raw_bytes ColumnType.text (Value.text s) h small = rw h
decode_payload-raw_bytes ColumnType.blob (Value.blob s) h small = refl
decode_payload-raw_bytes ColumnType.timestamp (Value.timestamp z) h small =
    rw (word-to_be 8 (wrap (2 ^ 64) z) (wrap-lt (2 ^ 64) z (omega arith)), signed-wrap (2 ^ 64) z h)
decode_payload-raw_bytes ColumnType.uuid (Value.uuid s) h small = ground arith
decode_payload-raw_bytes ColumnType.inet (Value.inet (v4 s)) h small = ground arith
decode_payload-raw_bytes ColumnType.inet (Value.inet (v6 s)) h small = ground arith
decode_payload-raw_bytes (ColumnType.set t) (Value.set vs) h small =
    read_values Collection.set t (decode_payload-raw_bytes t) vs h small Value.set
decode_payload-raw_bytes (ColumnType.list t) (Value.list vs) h small =
    read_values Collection.list t (decode_payload-raw_bytes t) vs h small Value.list
decode_payload-raw_bytes (ColumnType.map k t) (Value.map es) h small =
    read_map k t (decode_payload-raw_bytes k) (decode_payload-raw_bytes t) es h small
decode_payload-raw_bytes _ _ h small = absurd h

-- A value of the column's type, with a payload below 2 ^ 31 bytes, is read back from its wire form.
pub from_wire-to_wire :
    (t : ColumnType) (v : Value)
    → HasType t v
    → length (raw_bytes v) < i32_max
    → from_wire (to_wire v) t ≡ ok v
unfolding from_wire
from_wire-to_wire t v h small = rw (to_wire-raw_bytes t v h) (
    with_payload-to_be (λ r. decode_payload r t) (raw_bytes v) small
    ∙ decode_payload-raw_bytes t v h small)

-- The raw bytes of a value of the type, if fewer than 2 ^ 31, are read back as the value.
pub from_raw_bytes-raw_bytes :
    (t : ColumnType) (v : Value)
    → HasType t v
    → length (raw_bytes v) < i32_max
    → from_raw_bytes (raw_bytes v) t ≡ ok v
unfolding from_raw_bytes from_wire
from_raw_bytes-raw_bytes t v h small =
    with_payload-to_be (λ r. decode_payload r t) (raw_bytes v) small
    ∙ decode_payload-raw_bytes t v h small

-- Null is written as length -1, and read back at every type.
pub from_wire-null : (t : ColumnType) → from_wire (to_wire null) t ≡ ok null
unfolding from_wire with_payload read_i32 to_wire write_wire i32_at to_be signed from_be wrap
from_wire-null t = refl
