-- ===== src/Storage/Catalogue.antt =====
-- src/storage.rs: keyspaces and tables, which are JSON under the keys of engine 0, with the caches in
-- front.
use rhyda.Prelude.{◌≡◌, refl, ◌&&◌, if◌then◌else◌, ◌++◌, Option, none, some, Outcome, ok, err}
use rhyda.Prelude.Bytes.{Bytes, bytes_eq, bytes_eq_iff}
use rhyda.Schema.Types.{KeyspaceDef, TableDef}
use rhyda.Fault.{Fault, bad_json}
use rhyda.Keys.Parts.{ks_prefix, tb_prefix, bang}
use rhyda.Storage.Engine.{Rocks, IsRocks, put}
use rhyda.Storage.Rows.{Storage, Store, write_now}

-- `serde_json::to_vec` and `serde_json::from_slice` at the two types of the catalogue.
pub record Json : Type 0 where
  pub of_keyspace : KeyspaceDef → Bytes
  pub to_keyspace : Bytes → Option KeyspaceDef
  pub of_table : TableDef → Bytes
  pub to_table : Bytes → Option TableDef

abbrev pub keyspace_key : Bytes → Bytes
keyspace_key name = ks_prefix ++ name

abbrev pub table_key : Bytes → Bytes → Bytes
table_key keyspace table = tb_prefix ++ (keyspace ++ (bang ++ table))

module _ {Db : Type 0} where
  unfoldable pub cache_keyspace : Bytes → KeyspaceDef → Storage Db → Storage Db
  cache_keyspace name ks s = record s {
    keyspaces = λ k. if bytes_eq name k then some ks else s.keyspaces k;
  }

  unfoldable pub cache_table : Bytes → Bytes → TableDef → Storage Db → Storage Db
  cache_table keyspace table def s = record s {
    tables = λ k t. if bytes_eq keyspace k && bytes_eq table t then some def else s.tables k t;
  }

  -- What a restart leaves of the caches.
  unfoldable pub forget : Storage Db → Storage Db
  forget s = record s { row_cache = none; keyspaces = λ k. none; tables = λ k t. none }

module _ (rocks : Rocks) (json : Json) where
  -- Metadata lies on engine 0.
  abbrev get_meta : Bytes → Store rocks → Option Bytes
  get_meta key s = rocks.get (s.engines 0).db key

  unfoldable pub put_keyspace : KeyspaceDef → Store rocks → Store rocks
  put_keyspace ks s =
      cache_keyspace ks.name ks
        (write_now rocks 0 (put (keyspace_key ks.name) (json.of_keyspace ks)) s)

  abbrev pub keyspace_parsed :
      Bytes → Store rocks → Option KeyspaceDef → Outcome Fault (Option KeyspaceDef) × Store rocks
  keyspace_parsed name s none = (err bad_json, s)
  keyspace_parsed name s (some ks) = (ok (some ks), cache_keyspace name ks s)

  abbrev pub keyspace_stored :
      Bytes → Store rocks → Option Bytes → Outcome Fault (Option KeyspaceDef) × Store rocks
  keyspace_stored name s none = (ok none, s)
  keyspace_stored name s (some bytes) = keyspace_parsed name s (json.to_keyspace bytes)

  abbrev pub keyspace_cached :
      Bytes → Store rocks → Option KeyspaceDef → Outcome Fault (Option KeyspaceDef) × Store rocks
  keyspace_cached name s (some ks) = (ok (some ks), s)
  keyspace_cached name s none = keyspace_stored name s (get_meta (keyspace_key name) s)

  unfoldable pub get_keyspace :
      Bytes → Store rocks → Outcome Fault (Option KeyspaceDef) × Store rocks
  get_keyspace name s = keyspace_cached name s (s.keyspaces name)

  unfoldable pub put_table : TableDef → Store rocks → Store rocks
  put_table tb s =
      cache_table tb.keyspace tb.name tb
        (write_now rocks 0 (put (table_key tb.keyspace tb.name) (json.of_table tb)) s)

  abbrev table_parsed :
      Bytes → Bytes → Store rocks → Option TableDef → Outcome Fault (Option TableDef) × Store rocks
  table_parsed keyspace table s none = (err bad_json, s)
  table_parsed keyspace table s (some tb) = (ok (some tb), cache_table keyspace table tb s)

  abbrev table_stored :
      Bytes → Bytes → Store rocks → Option Bytes → Outcome Fault (Option TableDef) × Store rocks
  table_stored keyspace table s none = (ok none, s)
  table_stored keyspace table s (some bytes) = table_parsed keyspace table s (json.to_table bytes)

  abbrev table_cached :
      Bytes → Bytes → Store rocks → Option TableDef → Outcome Fault (Option TableDef) × Store rocks
  table_cached keyspace table s (some tb) = (ok (some tb), s)
  table_cached keyspace table s none =
      table_stored keyspace table s (get_meta (table_key keyspace table) s)

  unfoldable pub get_table :
      Bytes → Bytes → Store rocks → Outcome Fault (Option TableDef) × Store rocks
  get_table keyspace table s = table_cached keyspace table s (s.tables keyspace table)

module _ (rocks : Rocks) (laws : IsRocks rocks) (json : Json) where
  -- A keyspace that was put, and whose JSON is parsed back to it, is what a look-up of its name gives,
  -- from the cache and, after the caches are lost, from the engine.
  pub get_keyspace-put_keyspace :
      (ks : KeyspaceDef) (s : Store rocks)
      → json.to_keyspace (json.of_keyspace ks) ≡ some ks
      → ((get_keyspace rocks json ks.name (put_keyspace rocks json ks s)).0 ≡ ok (some ks))
        × ((get_keyspace rocks json ks.name (forget (put_keyspace rocks json ks s))).0
            ≡ ok (some ks))
  unfolding get_keyspace put_keyspace cache_keyspace forget write_now
  get_keyspace-put_keyspace ks s h = (
    rw ((bytes_eq_iff ks.name ks.name).1 refl) refl,
    rw (laws.get-put, (bytes_eq_iff (keyspace_key ks.name) (keyspace_key ks.name)).1 refl)
        (rw h refl),
  )

  -- A table that was put, and whose JSON is parsed back to it, is what a look-up of its names gives,
  -- from the cache and, after the caches are lost, from the engine.
  pub get_table-put_table :
      (tb : TableDef) (s : Store rocks)
      → json.to_table (json.of_table tb) ≡ some tb
      → ((get_table rocks json tb.keyspace tb.name (put_table rocks json tb s)).0 ≡ ok (some tb))
        × ((get_table rocks json tb.keyspace tb.name (forget (put_table rocks json tb s))).0
            ≡ ok (some tb))
  unfolding get_table put_table cache_table forget write_now
  get_table-put_table tb s h = (
    rw ((bytes_eq_iff tb.keyspace tb.keyspace).1 refl, (bytes_eq_iff tb.name tb.name).1 refl) refl,
    rw
        (
          laws.get-put,
          (bytes_eq_iff (table_key tb.keyspace tb.name) (table_key tb.keyspace tb.name)).1 refl,
        )
        (rw h refl),
  )
