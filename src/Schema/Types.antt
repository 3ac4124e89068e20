-- ===== src/Schema/Types.antt =====
-- src/schema.rs: `ColumnType` with its wire form and its CQL name; column, table and keyspace
-- definitions with their lookups by name.
use rhyda.Prelude.{ℕ, Option, Bool, List, ◌++◌, find, any, position}
use rhyda.Prelude.Bytes.{Bytes, bytes_eq, to_be, codes}

pub data ColumnType : Type 0 where
  int : ColumnType
  big_int : ColumnType
  small_int : ColumnType
  tiny_int : ColumnType
  float : ColumnType
  double : ColumnType
  boolean : ColumnType
  text : ColumnType
  blob : ColumnType
  timestamp : ColumnType
  uuid : ColumnType
  inet : ColumnType
  set : ColumnType → ColumnType
  list : ColumnType → ColumnType
  map : ColumnType → ColumnType → ColumnType

unfoldable pub wire_id : ColumnType → ℕ
wire_id ColumnType.int = 0x0009
wire_id ColumnType.big_int = 0x0002
wire_id ColumnType.small_int = 0x0013
wire_id ColumnType.tiny_int = 0x0014
wire_id ColumnType.float = 0x0008
wire_id ColumnType.double = 0x0007
wire_id ColumnType.boolean = 0x0004
wire_id ColumnType.text = 0x000D
wire_id ColumnType.blob = 0x0003
wire_id ColumnType.timestamp = 0x000B
wire_id ColumnType.uuid = 0x000C
wire_id ColumnType.inet = 0x0010
wire_id (ColumnType.set _) = 0x0022
wire_id (ColumnType.list _) = 0x0020
wire_id (ColumnType.map _ _) = 0x0021

-- `buf` is the buffer that the source extends. An element type is written by its id alone.
unfoldable pub write_wire_type : ColumnType → Bytes → Bytes
unfolding wire_id
write_wire_type (ColumnType.set elem) buf =
    (buf ++ to_be 2 (wire_id (ColumnType.set elem))) ++ to_be 2 (wire_id elem)
write_wire_type (ColumnType.list elem) buf =
    (buf ++ to_be 2 (wire_id (ColumnType.list elem))) ++ to_be 2 (wire_id elem)
write_wire_type (ColumnType.map k v) buf =
    ((buf ++ to_be 2 (wire_id (ColumnType.map k v))) ++ to_be 2 (wire_id k)) ++ to_be 2 (wire_id v)
write_wire_type t buf = buf ++ to_be 2 (wire_id t)

unfoldable pub cql_string : ColumnType → Bytes
cql_string ColumnType.int = codes "int"
cql_string ColumnType.big_int = codes "bigint"
cql_string ColumnType.small_int = codes "smallint"
cql_string ColumnType.tiny_int = codes "tinyint"
cql_string ColumnType.float = codes "float"
cql_string ColumnType.double = codes "double"
cql_string ColumnType.boolean = codes "boolean"
cql_string ColumnType.text = codes "text"
cql_string ColumnType.blob = codes "blob"
cql_string ColumnType.timestamp = codes "timestamp"
cql_string ColumnType.uuid = codes "uuid"
cql_string ColumnType.inet = codes "inet"
cql_string (ColumnType.set e) = codes "set<" ++ (cql_string e ++ codes ">")
cql_string (ColumnType.list e) = codes "list<" ++ (cql_string e ++ codes ">")
cql_string (ColumnType.map k v) =
    codes "map<" ++ (cql_string k ++ (codes ", " ++ (cql_string v ++ codes ">")))

pub record ColumnDef : Type 0 where
  pub name : Bytes
  pub col_type : ColumnType
  pub is_partition_key : Bool
  pub is_clustering : Bool

pub record TableDef : Type 0 where
  pub keyspace : Bytes
  pub name : Bytes
  pub columns : List ColumnDef
  pub partition_keys : List Bytes
  pub clustering_keys : List Bytes

unfoldable pub column : TableDef → Bytes → Option ColumnDef
column t name = find (λ c. bytes_eq c.name name) t.columns

unfoldable pub is_partition : TableDef → Bytes → Bool
is_partition t name = any (λ p. bytes_eq p name) t.partition_keys

unfoldable pub column_index : TableDef → Bytes → Option ℕ
column_index t name = position (λ c. bytes_eq c.name name) t.columns

pub record KeyspaceDef : Type 0 where
  pub name : Bytes
  pub replication : List (Bytes × Bytes)
