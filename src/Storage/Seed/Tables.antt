-- ===== src/Storage/Seed/Tables.antt =====
-- src/storage.rs: the tables of `system_schema` on keyspaces, tables and columns.
use rhyda.Prelude.{true, false, [], ◌∷◌}
use rhyda.Prelude.Bytes.{codes}
use rhyda.Schema.Types.{ColumnType, TableDef}
use rhyda.Storage.Seed.System.{col, set_text, map_tt, map_tb}

abbrev pub schema_keyspaces : TableDef
schema_keyspaces = record {
  keyspace = codes "system_schema";
  name = codes "keyspaces";
  columns =
      col (codes "keyspace_name") ColumnType.text true
      ∷ col (codes "durable_writes") ColumnType.boolean false
      ∷ col (codes "replication") map_tt false
      ∷ [];
  partition_keys = codes "keyspace_name" ∷ [];
  clustering_keys = [];
}

abbrev pub schema_tables : TableDef
schema_tables = record {
  keyspace = codes "system_schema";
  name = codes "tables";
  columns =
      col (codes "keyspace_name") ColumnType.text true
      ∷ col (codes "table_name") ColumnType.text true
      ∷ col (codes "bloom_filter_fp_chance") ColumnType.double false
      ∷ col (codes "caching") map_tt false
      ∷ col (codes "comment") ColumnType.text false
      ∷ col (codes "compaction") map_tt false
      ∷ col (codes "compression") map_tt false
      ∷ col (codes "crc_check_chance") ColumnType.double false
      ∷ col (codes "dclocal_read_repair_chance") ColumnType.double false
      ∷ col (codes "default_time_to_live") ColumnType.int false
      ∷ col (codes "extensions") map_tb false
      ∷ col (codes "flags") set_text false
      ∷ col (codes "gc_grace_seconds") ColumnType.int false
      ∷ col (codes "max_index_interval") ColumnType.int false
      ∷ col (codes "memtable_flush_period_in_ms") ColumnType.int false
      ∷ col (codes "min_index_interval") ColumnType.int false
      ∷ col (codes "read_repair_chance") ColumnType.double false
      ∷ col (codes "speculative_retry") ColumnType.text false
      ∷ [];
  partition_keys = codes "keyspace_name" ∷ codes "table_name" ∷ [];
  clustering_keys = [];
}

abbrev pub schema_columns_table : TableDef
schema_columns_table = record {
  keyspace = codes "system_schema";
  name = codes "columns";
  columns =
      col (codes "keyspace_name") ColumnType.text true
      ∷ col (codes "table_name") ColumnType.text true
      ∷ col (codes "column_name") ColumnType.text true
      ∷ col (codes "clustering_order") ColumnType.text false
      ∷ col (codes "column_name_bytes") ColumnType.blob false
      ∷ col (codes "kind") ColumnType.text false
      ∷ col (codes "position") ColumnType.int false
      ∷ col (codes "type") ColumnType.text false
      ∷ [];
  partition_keys = codes "keyspace_name" ∷ codes "table_name" ∷ codes "column_name" ∷ [];
  clustering_keys = [];
}

abbrev pub schema_indexes : TableDef
schema_indexes = record {
  keyspace = codes "system_schema";
  name = codes "indexes";
  columns =
      col (codes "keyspace_name") ColumnType.text true
      ∷ col (codes "table_name") ColumnType.text true
      ∷ col (codes "index_name") ColumnType.text true
      ∷ col (codes "kind") ColumnType.text false
      ∷ col (codes "options") ColumnType.text false
      ∷ [];
  partition_keys = codes "keyspace_name" ∷ codes "table_name" ∷ codes "index_name" ∷ [];
  clustering_keys = [];
}

abbrev pub schema_triggers : TableDef
schema_triggers = record {
  keyspace = codes "system_schema";
  name = codes "triggers";
  columns =
      col (codes "keyspace_name") ColumnType.text true
      ∷ col (codes "table_name") ColumnType.text true
      ∷ col (codes "trigger_name") ColumnType.text true
      ∷ col (codes "options") ColumnType.text false
      ∷ [];
  partition_keys = codes "keyspace_name" ∷ codes "table_name" ∷ codes "trigger_name" ∷ [];
  clustering_keys = [];
}
