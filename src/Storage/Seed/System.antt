-- ===== src/Storage/Seed/System.antt =====
-- src/storage.rs: the tables of `system` and `system_virtual_schema` that `seed_system` makes.
use rhyda.Prelude.{Bool, true, false, [], ◌∷◌}
use rhyda.Prelude.Bytes.{Bytes, codes}
use rhyda.Schema.Types.{ColumnType, ColumnDef, TableDef}

-- `col`
abbrev pub col : Bytes → ColumnType → Bool → ColumnDef
col name col_type is_pk = record {
  name = name;
  col_type = col_type;
  is_partition_key = is_pk;
  is_clustering = false;
}

abbrev pub set_text : ColumnType
set_text = ColumnType.set ColumnType.text

abbrev pub list_text : ColumnType
list_text = ColumnType.list ColumnType.text

abbrev pub map_tt : ColumnType
map_tt = ColumnType.map ColumnType.text ColumnType.text

abbrev pub map_tb : ColumnType
map_tb = ColumnType.map ColumnType.text ColumnType.blob

abbrev pub local_def : TableDef
local_def = record {
  keyspace = codes "system";
  name = codes "local";
  columns =
      col (codes "key") ColumnType.text true
      ∷ col (codes "bootstrapped") ColumnType.text false
      ∷ col (codes "broadcast_address") ColumnType.inet false
      ∷ col (codes "cluster_name") ColumnType.text false
      ∷ col (codes "cql_version") ColumnType.text false
      ∷ col (codes "data_center") ColumnType.text false
      ∷ col (codes "gossip_generation") ColumnType.int false
      ∷ col (codes "host_id") ColumnType.uuid false
      ∷ col (codes "listen_address") ColumnType.inet false
      ∷ col (codes "native_protocol_version") ColumnType.text false
      ∷ col (codes "partitioner") ColumnType.text false
      ∷ col (codes "rack") ColumnType.text false
      ∷ col (codes "release_version") ColumnType.text false
      ∷ col (codes "rpc_address") ColumnType.inet false
      ∷ col (codes "schema_version") ColumnType.uuid false
      ∷ col (codes "tokens") set_text false
      ∷ [];
  partition_keys = codes "key" ∷ [];
  clustering_keys = [];
}

abbrev pub peers_def : TableDef
peers_def = record {
  keyspace = codes "system";
  name = codes "peers";
  columns =
      col (codes "peer") ColumnType.inet true
      ∷ col (codes "data_center") ColumnType.text false
      ∷ col (codes "host_id") ColumnType.uuid false
      ∷ col (codes "preferred_ip") ColumnType.inet false
      ∷ col (codes "rack") ColumnType.text false
      ∷ col (codes "release_version") ColumnType.text false
      ∷ col (codes "rpc_address") ColumnType.inet false
      ∷ col (codes "schema_version") ColumnType.uuid false
      ∷ col (codes "tokens") set_text false
      ∷ [];
  partition_keys = codes "peer" ∷ [];
  clustering_keys = [];
}

abbrev pub vs_keyspaces : TableDef
vs_keyspaces = record {
  keyspace = codes "system_virtual_schema";
  name = codes "keyspaces";
  columns =
      col (codes "keyspace_name") ColumnType.text true
      ∷ col (codes "durable_writes") ColumnType.boolean false
      ∷ col (codes "replication") map_tt false
      ∷ [];
  partition_keys = codes "keyspace_name" ∷ [];
  clustering_keys = [];
}
