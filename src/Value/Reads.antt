-- ===== src/Value/Reads.antt =====
-- The decoder's steps on what the encoder writes: the length prefix, and the loops over elements.
use rhyda.Prelude.{
  ℕ, ◌+◌, ◌<◌, ◌^◌, ◌≡◌, refl, ◌∙◌, ◌++◌, length, take, drop, take-append, drop-append,
  length-append, append_assoc, arith, Outcome, ok,
}
use rhyda.Prelude.Int.{pos, signed}
use rhyda.Prelude.Bytes.{take-to_be, drop-to_be, Bytes, to_be, length-to_be, from_be-to_be}
use rhyda.Fault.{Fault, Collection}
use rhyda.Value.Types.{Value, Values, Entries, nil, cons, end, entry, count, count_entries, to_wire}
use rhyda.Value.Decode.{i32_at, with_payload, elem_len, read_elems, read_entries, read_count}
use rhyda.Value.Tested.{
  with_payload_tested, elem_len_tested, read_count_tested, read_elems_tested, read_entries_tested,
}
use rhyda.Value.Typing.{AllValues, AllEntries}
use rhyda.Value.Wire.{wires, entry_wires}

abbrev pub i32_max : ℕ
i32_max = 2 ^ 31

pub i32_at-to_be : (n : ℕ) (xs : Bytes) → n < i32_max → i32_at (to_be 4 n ++ xs) ≡ pos n
unfolding i32_at signed
i32_at-to_be n xs h = rw (take-to_be 4 n xs) (rw (from_be-to_be 4 n (omega arith)) (ground arith))

-- A written prefix is accepted, and the payload is handed on.
pub with_payload-to_be :
    (decode : Bytes → Outcome Fault Value) (raw : Bytes)
    → length raw < i32_max
    → with_payload decode (to_be 4 (length raw) ++ raw) ≡ decode raw
with_payload-to_be decode raw h =
    with_payload_tested decode (to_be 4 (length raw) ++ raw)
    ∙ rw (i32_at-to_be (length raw) raw h, drop-to_be 4 (length raw) raw)
        (ground (arith, length-append (to_be 4 (length raw)) raw, length-to_be 4 (length raw)))

pub elem_len-to_be :
    (c : Collection) (raw more : Bytes)
    → length raw < i32_max
    → elem_len c ((to_be 4 (length raw) ++ raw) ++ more) ≡ ok (length raw)
elem_len-to_be c raw more h = rw (append_assoc (to_be 4 (length raw)) raw more) (
    elem_len_tested c (to_be 4 (length raw) ++ (raw ++ more))
    ∙ rw (i32_at-to_be (length raw) (raw ++ more) h) (
        ground (
          arith,
          length-append (to_be 4 (length raw)) (raw ++ more),
          length-append raw more,
          length-to_be 4 (length raw),
        )))

pub read_count-to_be :
    (c : Collection) (n : ℕ) (xs : Bytes) → n < i32_max → read_count c (to_be 4 n ++ xs) ≡ ok n
read_count-to_be c n xs h =
    read_count_tested c (to_be 4 n ++ xs)
    ∙ rw (i32_at-to_be n xs h) (ground (arith, length-append (to_be 4 n) xs, length-to_be 4 n))

-- `one` reads back the wire form of `v`, which is a length prefix and a payload that it measures.
pub record Reads (one : Bytes → Outcome Fault Value) (v : Value) : Type 0 where
  pub raw : Bytes
  pub wire : to_wire v ≡ to_be 4 (length raw) ++ raw
  pub small : length raw < i32_max
  pub back : one (to_wire v) ≡ ok v

module _ {one : Bytes → Outcome Fault Value} {v : Value} (r : Reads one v) (c : Collection)
    (more : Bytes) where
  pub length-wire : length (to_wire v) ≡ 4 + length r.raw
  length-wire =
      rw r.wire
        (omega (arith, length-append (to_be 4 (length r.raw)) r.raw, length-to_be 4 (length r.raw)))

  elem_len-wire : elem_len c (to_wire v ++ more) ≡ ok (length r.raw)
  elem_len-wire = rw r.wire (elem_len-to_be c r.raw more r.small)

  pub take-wire : take (4 + length r.raw) (to_wire v ++ more) ≡ to_wire v
  take-wire = rw length-wire at (take-append (to_wire v) more)

  pub drop-wire : drop (4 + length r.raw) (to_wire v ++ more) ≡ more
  drop-wire = rw length-wire at (drop-append (to_wire v) more)

-- The loop over a set or a list reads back the elements.
pub read_elems-wires :
    (c : Collection) (one : Bytes → Outcome Fault Value) (vs : Values)
    → AllValues (Reads one) vs
    → read_elems c one (count vs) (wires vs) ≡ ok vs
unfolding read_elems wires
read_elems-wires c one nil h = refl
read_elems-wires c one (cons v vs) (r, rs) =
    read_elems_tested c one (count vs) (to_wire v ++ wires vs)
    ∙ rw (elem_len-wire r c (wires vs)) (
        rw (take-wire r c (wires vs), drop-wire r c (wires vs))
          (rw (r.back, read_elems-wires c one vs rs)))

-- The loop over a map reads back the entries.
pub read_entries-wires :
    (key val : Bytes → Outcome Fault Value) (es : Entries)
    → AllEntries (Reads key) (Reads val) es
    → read_entries key val (count_entries es) (entry_wires es) ≡ ok es
unfolding read_entries entry_wires
read_entries-wires key val end h = refl
read_entries-wires key val (entry k v es) (rk, rv, rs) =
    let m = to_wire v ++ entry_wires es in
    read_entries_tested key val (count_entries es) (to_wire k ++ m)
    ∙ rw (elem_len-wire rk Collection.map m) (
        rw (take-wire rk Collection.map m, drop-wire rk Collection.map m)
          (rw (rk.back, elem_len-wire rv Collection.map (entry_wires es))
            (rw
              (
                take-wire rv Collection.map (entry_wires es),
                drop-wire rv Collection.map (entry_wires es),
              )
              (rw (rv.back, read_entries-wires key val es rs)))))
