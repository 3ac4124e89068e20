-- ===== src/Value/Wire.antt =====
-- The shape of the encoder's output: what `write_wire` appends does not depend on the buffer, and a
-- value that is not null is its length prefix followed by its raw bytes.
use rhyda.Prelude.{
  ◌^◌, ◌≡◌, refl, ap, sym, ◌∙◌, [], ◌++◌, length, append_assoc, append-nil, true, false,
}
use rhyda.Prelude.Int.{wrap}
use rhyda.Prelude.Bytes.{Bytes, to_be, length-to_be}
use rhyda.Schema.Types.{ColumnType}
use rhyda.Value.Types.{
  Value, Values, Entries, null, nil, cons, end, entry, v4, v6, write_wire, write_values,
  write_entries, to_wire, extend_values, extend_entries, raw_bytes,
}
use rhyda.Value.Typing.{HasType}

mutual
  unfolding write_wire to_wire

  write_wire_buffer : (v : Value) (out : Bytes) → write_wire v out ≡ out ++ write_wire v []
  write_wire_buffer null out = refl
  write_wire_buffer (Value.int z) out = append_assoc out _ _
  write_wire_buffer (Value.inet (v4 a)) out = append_assoc out _ _
  write_wire_buffer (Value.inet (v6 a)) out = append_assoc out _ _
  write_wire_buffer (Value.set vs) out = append_assoc out _ _
  write_wire_buffer (Value.list vs) out = append_assoc out _ _
  write_wire_buffer (Value.map es) out = append_assoc out _ _
  write_wire_buffer _ out = append_assoc out _ _

-- `write_wire` only appends, and what it appends is `to_wire`.
pub write_wire-append : (v : Value) (out : Bytes) → write_wire v out ≡ out ++ to_wire v
unfolding to_wire
write_wire-append = write_wire_buffer

-- The wire forms of the elements, one after the other.
unfoldable pub wires : Values → Bytes
wires nil = []
wires (cons v vs) = to_wire v ++ wires vs

unfoldable pub entry_wires : Entries → Bytes
entry_wires end = []
entry_wires (entry k v es) = to_wire k ++ (to_wire v ++ entry_wires es)

pub write_values-wires : (vs : Values) (p : Bytes) → write_values vs p ≡ p ++ wires vs
unfolding write_wire wires
write_values-wires nil p = sym (append-nil p)
write_values-wires (cons v vs) p =
    write_values-wires vs (write_wire v p)
    ∙ rw write_wire-append (append_assoc p (to_wire v) (wires vs))

pub write_entries-wires : (es : Entries) (p : Bytes) → write_entries es p ≡ p ++ entry_wires es
unfolding write_wire entry_wires
write_entries-wires end p = sym (append-nil p)
write_entries-wires (entry k v es) p =
    write_entries-wires es (write_wire v (write_wire k p)) ∙ simp (write_wire-append, append_assoc)

pub extend_values-wires : (vs : Values) (p : Bytes) → extend_values p vs ≡ p ++ wires vs
unfolding extend_values wires
extend_values-wires nil p = sym (append-nil p)
extend_values-wires (cons v vs) p =
    extend_values-wires vs (p ++ to_wire v) ∙ append_assoc p (to_wire v) (wires vs)

pub extend_entries-wires : (es : Entries) (p : Bytes) → extend_entries p es ≡ p ++ entry_wires es
unfolding extend_entries entry_wires
extend_entries-wires end p = sym (append-nil p)
extend_entries-wires (entry k v es) p =
    extend_entries-wires es ((p ++ to_wire k) ++ to_wire v) ∙ simp append_assoc

abbrev prefixed : Bytes → Bytes
prefixed raw = to_be 4 (length raw) ++ raw

-- A value of a type is its length prefix and its raw bytes.
pub to_wire-raw_bytes :
    (t : ColumnType) (v : Value)
    → HasType t v
    → to_wire v ≡ to_be 4 (length (raw_bytes v)) ++ raw_bytes v
unfolding to_wire raw_bytes write_wire
to_wire-raw_bytes ColumnType.int (Value.int z) h =
    ap (λ n. to_be 4 n ++ to_be 4 (wrap (2 ^ 32) z)) (sym (length-to_be 4 (wrap (2 ^ 32) z)))
to_wire-raw_bytes ColumnType.big_int (Value.big_int z) h = rw length-to_be
to_wire-raw_bytes ColumnType.small_int (Value.small_int z) h = rw length-to_be
to_wire-raw_bytes ColumnType.tiny_int (Value.tiny_int z) h = rw length-to_be
to_wire-raw_bytes ColumnType.float (Value.float u) h = rw length-to_be
to_wire-raw_bytes ColumnType.double (Value.double u) h = rw length-to_be
to_wire-raw_bytes ColumnType.boolean (Value.boolean true) h = refl
to_wire-raw_bytes ColumnType.boolean (Value.boolean false) h = refl
to_wire-raw_bytes ColumnType.text (Value.text s) h = refl
to_wire-raw_bytes ColumnType.blob (Value.blob s) h = refl
to_wire-raw_bytes ColumnType.timestamp (Value.timestamp z) h = rw length-to_be
to_wire-raw_bytes ColumnType.uuid (Value.uuid s) h = rw h
to_wire-raw_bytes ColumnType.inet (Value.inet (v4 s)) h = rw h
to_wire-raw_bytes ColumnType.inet (Value.inet (v6 s)) h = rw h
to_wire-raw_bytes (ColumnType.set t) (Value.set vs) h =
    simp (write_values-wires, extend_values-wires)
to_wire-raw_bytes (ColumnType.list t) (Value.list vs) h =
    simp (write_values-wires, extend_values-wires)
to_wire-raw_bytes (ColumnType.map k t) (Value.map es) h =
    simp (write_entries-wires, extend_entries-wires)
to_wire-raw_bytes _ _ h = absurd h
