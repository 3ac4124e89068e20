-- ===== src/Storage/Seed/Objects.antt =====
-- src/storage.rs: the other tables of `system_schema`.
use rhyda.Prelude.{true, false, [], ◌∷◌}
use rhyda.Prelude.Bytes.{codes}
use rhyda.Schema.Types.{ColumnType, TableDef}
use rhyda.Storage.Seed.System.{col, set_text, list_text, map_tt, map_tb}

abbrev pub schema_types : TableDef
schema_types = record {
  keyspace = codes "system_schema";
  name = codes "types";
  columns =
      col (codes "keyspace_name") ColumnType.text true
      ∷ col (codes "type_name") ColumnType.text true
      ∷ col (codes "field_names") list_text false
      ∷ col (codes "field_types") list_text false
      ∷ [];
  partition_keys = codes "keyspace_name" ∷ codes "type_name" ∷ [];
  clustering_keys = [];
}

abbrev pub schema_functions : TableDef
schema_functions = record {
  keyspace = codes "system_schema";
  name = codes "functions";
  columns =
      col (codes "keyspace_name") ColumnType.text true
      ∷ col (codes "function_name") ColumnType.text true
      ∷ col (codes "argument_names") list_text false
      ∷ col (codes "argument_types") list_text false
      ∷ col (codes "body") ColumnType.text false
      ∷ col (codes "called_on_null_input") ColumnType.boolean false
      ∷ col (codes "language") ColumnType.text false
      ∷ col (codes "return_type") ColumnType.text false
      ∷ col (codes "deterministic") ColumnType.boolean false
      ∷ col (codes "monotonic") ColumnType.boolean false
      ∷ col (codes "monotonic_on") set_text false
      ∷ [];
  partition_keys = codes "keyspace_name" ∷ codes "function_name" ∷ codes "argument_types" ∷ [];
  clustering_keys = [];
}

abbrev pub schema_aggregates : TableDef
schema_aggregates = record {
  keyspace = codes "system_schema";
  name = codes "aggregates";
  columns =
      col (codes "keyspace_name") ColumnType.text true
      ∷ col (codes "aggregate_name") ColumnType.text true
      ∷ col (codes "argument_types") list_text true
      ∷ col (codes "deterministic") ColumnType.boolean false
      ∷ col (codes "final_func") ColumnType.text false
      ∷ col (codes "initcond") ColumnType.text false
      ∷ col (codes "return_type") ColumnType.text false
      ∷ col (codes "state_func") ColumnType.text false
      ∷ col (codes "state_type") ColumnType.text false
      ∷ [];
  partition_keys = codes "keyspace_name" ∷ codes "aggregate_name" ∷ codes "argument_types" ∷ [];
  clustering_keys = [];
}

abbrev pub schema_views : TableDef
schema_views = record {
  keyspace = codes "system_schema";
  name = codes "views";
  columns =
      col (codes "keyspace_name") ColumnType.text true
      ∷ col (codes "view_name") ColumnType.text true
      ∷ col (codes "base_table_name") ColumnType.text false
      ∷ col (codes "include_all_columns") ColumnType.boolean false
      ∷ col (codes "where_clause") ColumnType.text false
      ∷ col (codes "bloom_filter_fp_chance") ColumnType.double false
      ∷ col (codes "caching") map_tt false
      ∷ col (codes "comment") ColumnType.text false
      ∷ col (codes "compaction") map_tt false
      ∷ col (codes "compression") map_tt false
      ∷ col (codes "crc_check_chance") ColumnType.double false
      ∷ col (codes "dclocal_read_repair_chance") ColumnType.double false
      ∷ col (codes "default_time_to_live") ColumnType.int false
      ∷ col (codes "extensions") map_tb false
      ∷ col (codes "flags") set_text false
      ∷ col (codes "gc_grace_seconds") ColumnType.int false
      ∷ col (codes "max_index_interval") ColumnType.int false
      ∷ col (codes "memtable_flush_period_in_ms") ColumnType.int false
      ∷ col (codes "min_index_interval") ColumnType.int false
      ∷ col (codes "read_repair_chance") ColumnType.double false
      ∷ col (codes "speculative_retry") ColumnType.text false
      ∷ [];
  partition_keys = codes "keyspace_name" ∷ codes "view_name" ∷ [];
  clustering_keys = [];
}
