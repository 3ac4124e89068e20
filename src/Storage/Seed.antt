-- ===== src/Storage/Seed.antt =====
-- src/storage.rs: `seed_system`, which makes the keyspaces of the system when a storage is opened.
use rhyda.Prelude.{
  ℕ, ◌≡◌, refl, true, false, Bool-cases, inl, inr, if◌then◌else◌, List, [], ◌∷◌, Option, none, some,
  Outcome, ok, err, panic, arith,
}
use rhyda.Prelude.Int.{pos}
use rhyda.Prelude.Bytes.{Bytes, bytes_eq, codes}
use rhyda.Schema.Types.{KeyspaceDef, TableDef}
use rhyda.Fault.{Fault}
use rhyda.Value.Types.{Value, Values, v4}
use rhyda.Rows.Columns.{encode_row_columns}
use rhyda.Storage.Engine.{Rocks}
use rhyda.Storage.Rows.{Storage, Store, put_row_sync, write_now, cache_insert}
use rhyda.Storage.Catalogue.{
  Json, get_keyspace, put_keyspace, put_table, cache_keyspace, cache_table,
}
pub mod System
pub mod Tables
pub mod Objects
use rhyda.Storage.Seed.System.{local_def, peers_def, vs_keyspaces}
use rhyda.Storage.Seed.Tables.{
  schema_keyspaces, schema_tables, schema_columns_table, schema_indexes, schema_triggers,
}
use rhyda.Storage.Seed.Objects.{schema_types, schema_functions, schema_aggregates, schema_views}

-- The row of `system.local`; the two identifiers are drawn at random.
unfoldable pub local_row : Bytes → Bytes → List (ℕ × Value)
local_row host_id schema_version =
    (0, Value.text (codes "local"))
    ∷ (1, Value.text (codes "COMPLETED"))
    ∷ (2, localhost)
    ∷ (3, Value.text (codes "RhydaDB Cluster"))
    ∷ (4, Value.text (codes "3.4.5"))
    ∷ (5, Value.text (codes "datacenter1"))
    ∷ (6, Value.int (pos 0))
    ∷ (7, Value.uuid host_id)
    ∷ (8, localhost)
    ∷ (9, Value.text (codes "4"))
    ∷ (10, Value.text (codes "org.apache.cassandra.dht.Murmur3Partitioner"))
    ∷ (11, Value.text (codes "rack1"))
    ∷ (12, Value.text (codes "4.0.7"))
    ∷ (13, localhost)
    ∷ (14, Value.uuid schema_version)
    ∷ (15, Value.set (Values.cons (Value.text (codes "-9223372036854775808")) Values.nil))
    ∷ []
  where
    localhost : Value
    localhost = Value.inet (v4 (127 ∷ 0 ∷ 0 ∷ 1 ∷ []))

abbrev pub sys_schema_defs : List TableDef
sys_schema_defs =
    schema_keyspaces ∷ schema_tables ∷ schema_columns_table ∷ schema_indexes ∷ schema_triggers
    ∷ schema_types ∷ schema_functions ∷ schema_aggregates ∷ schema_views ∷ []

abbrev pub bare : Bytes → KeyspaceDef
bare name = record { name = name; replication = [] }

module _ (rocks : Rocks) (json : Json) where
  abbrev pub put_tables : List TableDef → Store rocks → Store rocks
  put_tables [] s = s
  put_tables (def ∷ defs) s = put_tables defs (put_table rocks json def s)

  -- What is made of each keyspace.
  unfoldable pub seed_local : Bytes → Bytes → Store rocks → Store rocks
  unfolding local_row
  seed_local host_id schema_version s =
      let t = put_table rocks json local_def (put_keyspace rocks json (bare (codes "system")) s) in
      put_table rocks json peers_def (
        put_row_sync rocks (codes "system") (codes "local") (codes "local" ∷ [])
          (encode_row_columns (local_row host_id schema_version)) t)

  unfoldable pub seed_schema : Store rocks → Store rocks
  seed_schema s =
      put_tables sys_schema_defs (put_keyspace rocks json (bare (codes "system_schema")) s)

  unfoldable pub seed_virtual : Store rocks → Store rocks
  seed_virtual s =
      put_table rocks json vs_keyspaces
        (put_keyspace rocks json (bare (codes "system_virtual_schema")) s)

  abbrev pub Seeded : Type 0
  Seeded = Outcome Fault (Unit {0}) × Store rocks

  -- `if self.get_keyspace(name)?.is_none()`
  abbrev pub made_if :
      (Store rocks → Store rocks) → Outcome Fault (Option KeyspaceDef) × Store rocks → Seeded
  made_if make (ok none, s) = (ok tt, make s)
  made_if make (ok (some ks), s) = (ok tt, s)
  made_if make (err e, s) = (err e, s)
  made_if make (panic, s) = (panic, s)

  unfoldable pub seed_missing : Bytes → (Store rocks → Store rocks) → Store rocks → Seeded
  seed_missing name make s = made_if make (get_keyspace rocks json name s)

  abbrev pub on_seeded : Seeded → (Store rocks → Seeded) → Seeded
  on_seeded (ok u, s) f = f s
  on_seeded (err e, s) f = (err e, s)
  on_seeded (panic, s) f = (panic, s)

  unfoldable pub seed_system : Bytes → Bytes → Store rocks → Seeded
  unfolding seed_missing seed_local seed_schema seed_virtual
  seed_system host_id schema_version s =
      on_seeded (seed_missing (codes "system") (seed_local host_id schema_version) s) λ t.
        on_seeded (seed_missing (codes "system_schema") seed_schema t)
          λ u. seed_missing (codes "system_virtual_schema") seed_virtual u
