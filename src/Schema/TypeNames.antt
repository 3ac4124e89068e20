-- ===== src/Schema/TypeNames.antt =====
-- src/schema.rs: `ColumnType::from_data_type`, from the parser's names of types.
use rhyda.Prelude.{ℕ, Option, none, some, List, [], get_elem?, ◌≡◌, refl}
use rhyda.Schema.Types.{ColumnType}

-- The names of cql3_parser's `DataTypeName` that the source tells apart; `other` is any other.
pub data DataTypeName : Type 0 where
  int big_int small_int tiny_int float double boolean : DataTypeName
  text var_char ascii blob timestamp uuid time_uuid inet : DataTypeName
  set list map frozen : DataTypeName
  other : ℕ → DataTypeName

-- `ColumnType::from_data_type(name, &[])`, the call that the source makes for an element: a
-- collection finds no element type in the empty definition.
unfoldable pub bare_type : DataTypeName → Option ColumnType
bare_type DataTypeName.int = some ColumnType.int
bare_type DataTypeName.big_int = some ColumnType.big_int
bare_type DataTypeName.small_int = some ColumnType.small_int
bare_type DataTypeName.tiny_int = some ColumnType.tiny_int
bare_type DataTypeName.float = some ColumnType.float
bare_type DataTypeName.double = some ColumnType.double
bare_type DataTypeName.boolean = some ColumnType.boolean
bare_type DataTypeName.text = some ColumnType.text
bare_type DataTypeName.var_char = some ColumnType.text
bare_type DataTypeName.ascii = some ColumnType.text
bare_type DataTypeName.blob = some ColumnType.blob
bare_type DataTypeName.timestamp = some ColumnType.timestamp
bare_type DataTypeName.uuid = some ColumnType.uuid
bare_type DataTypeName.time_uuid = some ColumnType.uuid
bare_type DataTypeName.inet = some ColumnType.inet
bare_type _ = none

infixl 5 ◌>>=◌
abbrev ◌>>=◌ {ℓ κ} : {A : Type ℓ} {B : Type κ} → Option A → (A → Option B) → Option B
none >>= f = none
some a >>= f = f a

-- The closure `elem` of the source.
abbrev elem_type : List DataTypeName → ℕ → Option ColumnType
elem_type definition i = do name ← get_elem? definition i; bare_type name

frozen_type : DataTypeName → List DataTypeName → Option ColumnType
unfolding bare_type
frozen_type DataTypeName.set definition = do e ← elem_type definition 1; some (ColumnType.set e)
frozen_type DataTypeName.list definition = do e ← elem_type definition 1; some (ColumnType.list e)
frozen_type DataTypeName.map definition = do
  k ← elem_type definition 1
  v ← elem_type definition 2
  some (ColumnType.map k v)
frozen_type inner definition = bare_type inner

unfoldable pub from_data_type : DataTypeName → List DataTypeName → Option ColumnType
unfolding bare_type frozen_type
from_data_type DataTypeName.set definition = do e ← elem_type definition 0; some (ColumnType.set e)
from_data_type DataTypeName.list definition = do
  e ← elem_type definition 0
  some (ColumnType.list e)
from_data_type DataTypeName.map definition = do
  k ← elem_type definition 0
  v ← elem_type definition 1
  some (ColumnType.map k v)
from_data_type DataTypeName.frozen definition = do
  inner ← get_elem? definition 0
  frozen_type inner definition
from_data_type name definition = bare_type name

-- The element call is the call of the whole function at the empty definition.
pub from_data_type-nil : (name : DataTypeName) → from_data_type name [] ≡ bare_type name
unfolding from_data_type
from_data_type-nil DataTypeName.set = refl
from_data_type-nil _ = refl
