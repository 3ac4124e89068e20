-- ===== src/Value/Typing.antt =====
-- Which values a column of a type holds: the type of the encoder's and the decoder's contract.
use rhyda.Prelude.{◌<◌, ◌^◌, ◌≡◌, true, length}
use rhyda.Prelude.Int.{Fits}
use rhyda.Schema.Types.{ColumnType}
use rhyda.Value.Types.{Value, Values, Entries, nil, cons, end, entry, IpAddr, v4, v6}
use rhyda.Value.Utf8.{is_utf8}

abbrev pub IsAddress : IpAddr → Type 0
IsAddress (v4 o) = length o ≡ 4
IsAddress (v6 o) = length o ≡ 16

-- Every value of a list, and both halves of every entry.
abbrev pub AllValues : (Value → Type 0) → Values → Type 0
AllValues P nil = Unit
AllValues P (cons v vs) = P v × AllValues P vs

abbrev pub AllEntries : (Value → Type 0) → (Value → Type 0) → Entries → Type 0
AllEntries P Q end = Unit
AllEntries P Q (entry k v es) = P k × Q v × AllEntries P Q es

-- A value of the type that is not null; the elements of a collection are not null either.
abbrev pub HasType : ColumnType → Value → Type 0
HasType ColumnType.int (Value.int z) = Fits (2 ^ 32) z
HasType ColumnType.big_int (Value.big_int z) = Fits (2 ^ 64) z
HasType ColumnType.small_int (Value.small_int z) = Fits (2 ^ 16) z
HasType ColumnType.tiny_int (Value.tiny_int z) = Fits (2 ^ 8) z
HasType ColumnType.float (Value.float u) = u < 2 ^ 32
HasType ColumnType.double (Value.double u) = u < 2 ^ 64
HasType ColumnType.boolean (Value.boolean b) = Unit
HasType ColumnType.text (Value.text s) = is_utf8 s ≡ true
HasType ColumnType.blob (Value.blob s) = Unit
HasType ColumnType.timestamp (Value.timestamp z) = Fits (2 ^ 64) z
HasType ColumnType.uuid (Value.uuid s) = length s ≡ 16
HasType ColumnType.inet (Value.inet a) = IsAddress a
HasType (ColumnType.set t) (Value.set vs) = AllValues (HasType t) vs
HasType (ColumnType.list t) (Value.list vs) = AllValues (HasType t) vs
HasType (ColumnType.map k v) (Value.map es) = AllEntries (HasType k) (HasType v) es
HasType _ _ = ⊥
