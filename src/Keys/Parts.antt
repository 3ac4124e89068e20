-- ===== src/Keys/Parts.antt =====
-- src/storage.rs: `encode_key`, `decode_key_data`, `decode_key` and the prefixes of keys.
use rhyda.Prelude.{
  ℕ, zero, suc, ◌+◌, not, List, [], ◌∷◌, ◌++◌, length, ltb, if◌then◌else◌, Outcome, ok, err, panic,
  ◌>>=◌,
}
use rhyda.Prelude.Slices.{slice_to, slice_from}
use rhyda.Prelude.Bytes.{Bytes, to_be, from_be, starts_with, codes}
use rhyda.Fault.{Fault, foreign_key, corrupt_key}

abbrev pub ks_prefix : Bytes
ks_prefix = codes "ks!"

abbrev pub tb_prefix : Bytes
tb_prefix = codes "tb!"

abbrev pub dt_prefix : Bytes
dt_prefix = codes "dt!"

abbrev pub bang : Bytes
bang = codes "!"

-- The loop of `encode_key`. `p.len() as u16` keeps the two low bytes of the length.
unfoldable pub encode_parts : Bytes → List Bytes → Bytes
encode_parts out [] = out
encode_parts out (p ∷ ps) = encode_parts ((out ++ to_be 2 (length p)) ++ p) ps

unfoldable pub encode_key : List Bytes → Bytes
encode_key parts = encode_parts [] parts

-- `while !rest.is_empty()`, with fuel; without fuel it would panic, which `decode_key_data` never
-- does. `rest[0], rest[1]` and the slices of `rest` panic out of range.
unfoldable pub decode_parts : ℕ → Bytes → Outcome Fault (List Bytes)
decode_parts fuel [] = ok []
decode_parts zero (b ∷ bs) = panic
decode_parts (suc fuel) (b ∷ bs) =
    let rest = b ∷ bs in
    if ltb (length rest) 2 then err corrupt_key else (do
      head ← slice_to 2 rest
      let len = from_be head
      if ltb (length rest) (2 + len) then err corrupt_key else (do
        upto ← slice_to (2 + len) rest
        part ← slice_from 2 upto
        next ← slice_from (2 + len) rest
        ps ← decode_parts fuel next
        ok (part ∷ ps)))

unfoldable pub decode_key_data : Bytes → Bytes → Outcome Fault (List Bytes)
decode_key_data prefix full_key =
    if not (starts_with full_key prefix)
    then err foreign_key
    else (do rest ← slice_from (length prefix) full_key; decode_parts (length rest) rest)

-- `data_prefix`, `[dt_prefix, keyspace, b"!", table, b"!"].concat()`.
unfoldable pub data_prefix : Bytes → Bytes → Bytes
data_prefix keyspace table = dt_prefix ++ (keyspace ++ (bang ++ (table ++ bang)))

unfoldable pub decode_key : Bytes → Bytes → Bytes → Outcome Fault (List Bytes)
decode_key keyspace table full_key = decode_key_data (data_prefix keyspace table) full_key
