-- ===== src/Query/Mirror.antt =====
-- src/query.rs: the rows of `system_schema` that mirror keyspaces and tables.
use rhyda.Prelude.{
  ℕ, ◌%◌, ◌^◌, Bool, if◌then◌else◌, List, [], ◌∷◌, position, Option, none, some, Outcome, ok, err,
  panic, ok_or,
}
use rhyda.Prelude.Int.{ℤ, pos, negsuc, signed}
use rhyda.Prelude.Bytes.{Bytes, bytes_eq, codes}
use rhyda.Schema.Types.{ColumnDef, TableDef, column_index, cql_string}
use rhyda.Fault.{Fault, schema_table_missing, schema_column_missing}
use rhyda.Value.Types.{Value, Values, Entries}
use rhyda.Keys.Parts.{decode_key}
use rhyda.Rows.Columns.{encode_row_columns}
use rhyda.Storage.Engine.{Rocks}
use rhyda.Storage.Rows.{put_row_sync, delete_row, delete_row_sync}
use rhyda.Storage.Scan.{scan_partition}
use rhyda.Storage.Catalogue.{Json, get_table}
use rhyda.Query.Errors.{QueryError, internal_err}
use rhyda.Query.Binds.{map_fault}
use rhyda.Query.Steps.{Step, ◌>>=◌, give, on_store, change, unawaited}

abbrev pub system_schema : Bytes
system_schema = codes "system_schema"

-- The row of the values, each at the index of its column.
unfoldable pub schema_columns : TableDef → List (Bytes × Value) → Outcome Fault (List (ℕ × Value))
schema_columns def [] = ok []
schema_columns def ((name, v) ∷ cols) = elim (column_index def name) [
  | none ↦ err (schema_column_missing name)
  | some idx ↦ elim (schema_columns def cols) [
    | ok row ↦ ok ((idx % 2 ^ 16, v) ∷ row)
    | err e ↦ err e
    | panic ↦ panic
  ]
]

abbrev text : Bytes → Value
text t = Value.text t

-- The values of a row of `system_schema.tables`. A double is given by its bits.
unfoldable pub table_values : List (Bytes × Value)
table_values =
    (codes "bloom_filter_fp_chance", Value.double 0x3F847AE147AE147B)
    ∷ (codes "caching", Value.map Entries.end)
    ∷ (codes "comment", text [])
    ∷ (
      codes "compaction",
      Value.map (
          Entries.entry (text (codes "class"))
            (text (codes "org.apache.cassandra.db.compaction.SizeTieredCompactionStrategy"))
            Entries.end),
    )
    ∷ (codes "compression", Value.map Entries.end)
    ∷ (codes "crc_check_chance", Value.double 0x3FF0000000000000)
    ∷ (codes "dclocal_read_repair_chance", Value.double 0x3FB999999999999A)
    ∷ (codes "default_time_to_live", Value.int (pos 0))
    ∷ (codes "extensions", Value.map Entries.end)
    ∷ (codes "flags", Value.set (Values.cons (text (codes "compound")) Values.nil))
    ∷ (codes "gc_grace_seconds", Value.int (pos 864000))
    ∷ (codes "max_index_interval", Value.int (pos 2048))
    ∷ (codes "memtable_flush_period_in_ms", Value.int (pos 0))
    ∷ (codes "min_index_interval", Value.int (pos 128))
    ∷ (codes "read_repair_chance", Value.double 0)
    ∷ (codes "speculative_retry", text (codes "99PERCENTILE"))
    ∷ []

-- The kind of a column, its position in its key, cast from usize to i32, and its order.
unfoldable pub column_kind : TableDef → ColumnDef → Outcome QueryError (Bytes × ℤ × Bytes)
column_kind def c =
    if c.is_partition_key
    then key_kind (codes "partition_key") (codes "NONE") (index_in def.partition_keys)
    else if c.is_clustering
    then key_kind (codes "clustering") (codes "ASC") (index_in def.clustering_keys)
    else ok (codes "regular", negsuc 0, codes "NONE")
  where
    index_in : List Bytes → Option ℕ
    index_in names = position (λ p. bytes_eq p c.name) names

    key_kind : Bytes → Bytes → Option ℕ → Outcome QueryError (Bytes × ℤ × Bytes)
    key_kind kind order none = panic
    key_kind kind order (some i) = ok (kind, signed (2 ^ 32) (i % 2 ^ 32), order)

unfoldable pub column_values : ColumnDef → Bytes × ℤ × Bytes → List (Bytes × Value)
unfolding cql_string
column_values c (kind, position, clustering_order) =
    (codes "clustering_order", text clustering_order)
    ∷ (codes "column_name_bytes", Value.blob c.name)
    ∷ (codes "kind", text kind)
    ∷ (codes "position", Value.int position)
    ∷ (codes "type", text (cql_string c.col_type))
    ∷ []

module _ (rocks : Rocks) (json : Json) where
  unfoldable pub put_system_schema_row :
      Bytes → List Bytes → List (Bytes × Value) → Step rocks (Unit {0})
  unfolding schema_columns
  put_system_schema_row table pk cols = do
    found ← on_store (get_table rocks json system_schema table)
    def ← give (ok_or (internal_err (schema_table_missing table)) found)
    row ← give (map_fault internal_err (schema_columns def cols))
    change (put_row_sync rocks system_schema table pk (encode_row_columns row))

  -- The rows of a scan are deleted on the engine of their address, one after the other.
  unfoldable pub delete_rows : Bytes → List (Bytes × Bytes) → Step rocks (Unit {0})
  delete_rows table [] = give (ok tt)
  delete_rows table ((key, v) ∷ entries) = do
    parts ← give (map_fault internal_err (decode_key system_schema table key))
    u ← change (delete_row_sync rocks system_schema table parts)
    delete_rows table entries

  abbrev scanned : Bytes → List Bytes → Step rocks (Bool × List (Bytes × Bytes))
  scanned table partition_key c =
      (map_fault internal_err (scan_partition rocks system_schema table partition_key c.store), c)

  unfoldable pub delete_system_schema_partition : Bytes → List Bytes → Step rocks (Unit {0})
  unfolding delete_rows
  delete_system_schema_partition table partition_key = do
    found ← scanned table partition_key
    delete_rows table found.1

  unfoldable pub mirror_columns : TableDef → List ColumnDef → Step rocks (Unit {0})
  unfolding put_system_schema_row column_kind column_values
  mirror_columns def [] = give (ok tt)
  mirror_columns def (c ∷ cs) = do
    kind ← give (column_kind def c)
    u ←
        put_system_schema_row (codes "columns") (def.keyspace ∷ def.name ∷ c.name ∷ [])
          (column_values c kind)
    mirror_columns def cs

  unfoldable pub mirror_table_metadata : TableDef → Step rocks (Unit {0})
  unfolding put_system_schema_row table_values mirror_columns
  mirror_table_metadata def = do
    u ← put_system_schema_row (codes "tables") (def.keyspace ∷ def.name ∷ []) table_values
    mirror_columns def def.columns

  -- The delete of the table's row goes through the pipeline, and nothing waits for its ticket.
  unfoldable pub unmirror_table_metadata : Bytes → Bytes → Step rocks (Unit {0})
  unfolding delete_system_schema_partition
  unmirror_table_metadata keyspace table = do
    u ← unawaited (delete_row system_schema (codes "tables") (keyspace ∷ table ∷ []))
    delete_system_schema_partition (codes "columns") (keyspace ∷ table ∷ [])
