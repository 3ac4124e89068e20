-- ===== src/Value/Sound.antt =====
-- What the decoder returns, on any input: a value of the column's type or null; and when it panics.
use rhyda.Prelude.{
  ℕ, zero, suc, ◌+◌, ◌<◌, ◌^◌, ◌≡◌, refl, ◌∙◌, ◌⊎◌, inl, inr, ◌↔◌, [], ◌∷◌, length, not, ◌||◌, ltb,
  drop, take, take-take, All-drop, All-take, length-take, arith, Outcome, ok, panic, ◌==◌, Ensures,
  holds, raised, died, Ensures-if, Ensures-bind, Ensures-weaken,
}
use rhyda.Prelude.Int.{signed, Fits-signed, is_negative, to_usize}
use rhyda.Prelude.Bytes.{Bytes, IsByte, IsBytes, to_be, from_be, from_be-lt}
use rhyda.Schema.Types.{ColumnType}
use rhyda.Fault.{Fault, Collection}
use rhyda.Value.Types.{Value, null}
use rhyda.Value.Decode.{
  i32_at, read_i32, with_payload, elem_len, word, first_byte, inet_value, read_count, read_elems,
  read_entries, decode_payload, from_wire, from_raw_bytes,
}
use rhyda.Value.Tested.{
  with_payload_tested, elem_len_tested, read_count_tested, read_elems_tested, read_entries_tested,
}
use rhyda.Prelude.Slices.{slice_from}
use rhyda.Value.Typing.{HasType, AllValues, AllEntries}
use rhyda.Value.Utf8.{is_utf8}

-- The types at which the decoder may panic: those with a one-byte type in them.
abbrev pub HasByteType : ColumnType → Type 0
HasByteType ColumnType.tiny_int = Unit
HasByteType ColumnType.boolean = Unit
HasByteType (ColumnType.set t) = HasByteType t
HasByteType (ColumnType.list t) = HasByteType t
HasByteType (ColumnType.map k v) = HasByteType k ⊎ HasByteType v
HasByteType _ = ⊥

abbrev Sound : ColumnType → Type 0 → Type 0
Sound t Q = (raw : Bytes) → IsBytes raw → Ensures Q (HasType t) (decode_payload raw t)

-- A prefix that was tested is inside the rest, and `from_wire` goes straight to the payload.
with_payload-elem_len :
    (c : Collection) (one : Bytes → Outcome Fault Value) (rest : Bytes) (len : ℕ)
    → elem_len c rest ≡ ok len
    → with_payload one (take (4 + len) rest) ≡ one (drop 4 (take (4 + len) rest))
unfolding i32_at
with_payload-elem_len c one rest len h =
    let e = elem_len_tested c rest in
    with_payload_tested one (take (4 + len) rest)
    ∙ rw (take-take 4 (4 + len) rest (omega arith)) (ground (arith, length-take (4 + len) rest))

word_sound :
    (Q : Type 0) (n : ℕ) (raw : Bytes) → IsBytes raw → Ensures Q (λ u. u < 256 ^ n) (word n raw)
unfolding word
word_sound Q n raw h =
    Ensures-if (length raw == n) (λ e. holds (ground (arith, from_be-lt raw h))) (λ e. raised)

first_byte_sound : (raw : Bytes) → IsBytes raw → Ensures (raw ≡ []) (λ b. b < 256) (first_byte raw)
unfolding first_byte
first_byte_sound [] h = died refl
first_byte_sound (x ∷ raw) h = holds h.0

module _ (t : ColumnType) (Q : Type 0) (ih : Sound t Q) (c : Collection) where
  elem_sound :
      (rest : Bytes) (len : ℕ)
      → IsBytes rest
      → elem_len c rest ≡ ok len
      → Ensures Q (HasType t) (with_payload (λ r. decode_payload r t) (take (4 + len) rest))
  elem_sound rest len h e =
      rw (with_payload-elem_len c (λ r. decode_payload r t) rest len e)
        (ih _ (All-drop IsByte 4 (take (4 + len) rest) (All-take IsByte (4 + len) rest h)))

elem_len_sound :
    (Q : Type 0) (c : Collection) (rest : Bytes) → Ensures Q (λ (n : ℕ). Unit {0}) (elem_len c rest)
elem_len_sound Q c rest = rw (elem_len_tested c rest) (
    Ensures-if (ltb (length rest) 4) (λ _. raised)
      λ _.
        Ensures-if (is_negative (i32_at rest) || ltb (length rest) (4 + to_usize (i32_at rest)))
          (λ _. raised) λ _. holds tt)

read_count_sound :
    (Q : Type 0) (c : Collection) (rest : Bytes)
    → Ensures Q (λ (n : ℕ). Unit {0}) (read_count c rest)
read_count_sound Q c rest = rw (read_count_tested c rest) (
    Ensures-if (ltb (length rest) 4) (λ _. raised)
      λ _. Ensures-if (is_negative (i32_at rest)) (λ _. raised) λ _. holds tt)

read_elems_sound :
    (t : ColumnType) (Q : Type 0)
    → Sound t Q
    → (c : Collection) (n : ℕ) (rest : Bytes) → IsBytes rest
    → Ensures Q
        (AllValues (HasType t))
        (read_elems c (with_payload (λ r. decode_payload r t)) n rest)
unfolding read_elems
read_elems_sound t Q ih c zero rest h = holds tt
read_elems_sound t Q ih c (suc n) rest h =
    rw (read_elems_tested c (with_payload (λ r. decode_payload r t)) n rest) (
      Ensures-bind (elem_len_sound Q c rest) λ len e _.
        Ensures-bind (elem_sound t Q ih c rest len h e) λ v _ hv.
          Ensures-bind
            (read_elems_sound t Q ih c n (drop (4 + len) rest) (All-drop IsByte (4 + len) rest h))
            λ vs _ hs. holds (hv, hs))

read_entries_sound :
    (k t : ColumnType) (Q : Type 0)
    → Sound k Q
    → Sound t Q
    → (n : ℕ) (rest : Bytes) → IsBytes rest
    → Ensures Q (AllEntries (HasType k) (HasType t)) (
        read_entries
          (with_payload (λ r. decode_payload r k))
          (with_payload (λ r. decode_payload r t))
          n
          rest)
unfolding read_entries
read_entries_sound k t Q ihk iht zero rest h = holds tt
read_entries_sound k t Q ihk iht (suc n) rest h =
    rw
      (read_entries_tested (with_payload (λ r. decode_payload r k))
        (with_payload (λ r. decode_payload r t)) n rest)
      (Ensures-bind (elem_len_sound Q Collection.map rest) λ len e _.
        Ensures-bind (elem_sound k Q ihk Collection.map rest len h e) λ x _ hx.
          let h' = All-drop IsByte (4 + len) rest h in
          Ensures-bind (elem_len_sound Q Collection.map (drop (4 + len) rest)) λ len' e' _.
            Ensures-bind (elem_sound t Q iht Collection.map (drop (4 + len) rest) len' h' e')
              λ v _ hv.
                Ensures-bind
                  (read_entries_sound k t Q ihk iht n (drop (4 + len') (drop (4 + len) rest))
                    (All-drop IsByte (4 + len') (drop (4 + len) rest) h'))
                  λ es _ hs. holds (hx, hv, hs))

pub decode_payload_sound : (t : ColumnType) → Sound t (HasByteType t)
unfolding decode_payload inet_value
decode_payload_sound ColumnType.int raw h =
    Ensures-bind (word_sound _ 4 raw h) λ u _ lt. holds (Fits-signed (2 ^ 32) u lt refl)
decode_payload_sound ColumnType.big_int raw h =
    Ensures-bind (word_sound _ 8 raw h) λ u _ lt. holds (Fits-signed (2 ^ 64) u lt refl)
decode_payload_sound ColumnType.small_int raw h =
    Ensures-bind (word_sound _ 2 raw h) λ u _ lt. holds (Fits-signed (2 ^ 16) u lt refl)
decode_payload_sound ColumnType.tiny_int raw h =
    Ensures-bind (Ensures-weaken (λ _. tt) (λ b q. q) (first_byte_sound raw h))
      λ u _ lt. holds (Fits-signed (2 ^ 8) u lt refl)
decode_payload_sound ColumnType.float raw h = Ensures-bind (word_sound _ 4 raw h) λ u _ lt. holds lt
decode_payload_sound ColumnType.double raw h =
    Ensures-bind (word_sound _ 8 raw h) λ u _ lt. holds lt
decode_payload_sound ColumnType.boolean raw h =
    Ensures-bind (Ensures-weaken (λ _. tt) (λ b q. q) (first_byte_sound raw h)) λ u _ lt. holds tt
decode_payload_sound ColumnType.text raw h = Ensures-if (is_utf8 raw) (λ e. holds e) (λ _. raised)
decode_payload_sound ColumnType.blob raw h = holds tt
decode_payload_sound ColumnType.timestamp raw h =
    Ensures-bind (word_sound _ 8 raw h) λ u _ lt. holds (Fits-signed (2 ^ 64) u lt refl)
decode_payload_sound ColumnType.uuid raw h =
    Ensures-if (length raw == 16) (λ e. holds (ground arith)) (λ _. raised)
decode_payload_sound ColumnType.inet raw h =
    Ensures-if (length raw == 4) (λ e. holds (ground arith))
      λ _. Ensures-if (length raw == 16) (λ e. holds (ground arith)) λ _. raised
decode_payload_sound (ColumnType.set t) raw h =
    Ensures-bind (read_count_sound _ Collection.set raw) λ n _ _.
      Ensures-bind
        (read_elems_sound t _ (decode_payload_sound t) Collection.set n (drop 4 raw)
          (All-drop IsByte 4 raw h))
        λ vs _ hs. holds hs
decode_payload_sound (ColumnType.list t) raw h =
    Ensures-bind (read_count_sound _ Collection.list raw) λ n _ _.
      Ensures-bind
        (read_elems_sound t _ (decode_payload_sound t) Collection.list n (drop 4 raw)
          (All-drop IsByte 4 raw h))
        λ vs _ hs. holds hs
decode_payload_sound (ColumnType.map k t) raw h =
    Ensures-bind (read_count_sound _ Collection.map raw) λ n _ _.
      Ensures-bind
        (read_entries_sound k t _
          (λ r hr. Ensures-weaken inl (λ _ p. p) (decode_payload_sound k r hr))
          (λ r hr. Ensures-weaken inr (λ _ p. p) (decode_payload_sound t r hr)) n (drop 4 raw)
          (All-drop IsByte 4 raw h))
        λ es _ hs. holds hs

-- On any bytes, `from_wire` gives null, a value of the column's type or an error; it panics only at a
-- type with a tinyint or a boolean in it.
pub from_wire_sound :
    (t : ColumnType) (input : Bytes)
    → IsBytes input
    → Ensures (HasByteType t) (λ v. (v ≡ null) ⊎ HasType t v) (from_wire input t)
unfolding from_wire
from_wire_sound t input h = rw (with_payload_tested (λ raw. decode_payload raw t) input) (
    Ensures-if (ltb (length input) 4) (λ _. raised)
      λ _.
        Ensures-if (is_negative (i32_at input)) (λ _. holds (inl refl))
          λ _.
            Ensures-if (not (length input == 4 + to_usize (i32_at input))) (λ _. raised)
              λ _.
                Ensures-weaken (λ q. q) (λ v p. inr p)
                  (decode_payload_sound t (drop 4 input) (All-drop IsByte 4 input h)))

-- A bind value of no bytes panics exactly at the one-byte types, tinyint and boolean.
pub from_raw_bytes-nil :
    (t : ColumnType)
    → (from_raw_bytes [] t ≡ panic) ↔ ((t ≡ ColumnType.tiny_int) ⊎ (t ≡ ColumnType.boolean))
unfolding from_raw_bytes from_wire with_payload read_i32 slice_from i32_at to_be signed from_be
    decode_payload first_byte word inet_value is_utf8 read_count
from_raw_bytes-nil ColumnType.tiny_int = (λ _. inl refl, λ _. refl)
from_raw_bytes-nil ColumnType.boolean = (λ _. inr refl, λ _. refl)
from_raw_bytes-nil _ = (λ h. cc, λ h. ground arith)
