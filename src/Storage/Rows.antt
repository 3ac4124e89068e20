-- ===== src/Storage/Rows.antt =====
-- src/storage.rs: reads and writes of rows, with the row cache in front of the engines.
use rhyda.Prelude.{ℕ, ◌+◌, ◌==◌, if◌then◌else◌, List, ◌++◌, Option, none, some}
use rhyda.Prelude.Bytes.{Bytes, bytes_eq}
use rhyda.Schema.Types.{KeyspaceDef, TableDef}
use rhyda.Keys.Parts.{data_prefix, encode_key}
use rhyda.Storage.Engine.{Rocks, Write, put, delete, Engine, send}
use rhyda.Storage.Pipeline.{rounds, work}
use rhyda.Storage.Routing.{data_engine, first_part, should_cache}

-- `Storage`. The engines are numbered from 0 to `shards`; a write's ticket is a number, and
-- `next_ticket` is the next one.
pub record Storage (Db : Type 0) : Type 0 where
  pub shards : ℕ
  pub engines : ℕ → Engine Db
  pub row_cache : Option (Bytes → Option Bytes)
  pub keyspaces : Bytes → Option KeyspaceDef
  pub tables : Bytes → Bytes → Option TableDef
  pub next_ticket : ℕ

abbrev cache_entry : Option (Bytes → Option Bytes) → Bytes → Option Bytes
cache_entry none key = none
cache_entry (some cache) key = cache key

abbrev pub cache_with :
    (Bytes → Option Bytes → Option Bytes)
    → Option (Bytes → Option Bytes)
    → Option (Bytes → Option Bytes)
cache_with f none = none
cache_with f (some cache) = some (λ k. f k (cache k))

module _ {Db : Type 0} where
  abbrev pub update_engine : ℕ → (Engine Db → Engine Db) → (ℕ → Engine Db) → ℕ → Engine Db
  update_engine i f engines j = if i == j then f (engines j) else engines j

  -- `cache.get(&key)`, for a keyspace that is cached.
  unfoldable pub cached : Bytes → Bytes → Storage Db → Option Bytes
  cached keyspace key s = if should_cache keyspace then cache_entry s.row_cache key else none

  unfoldable pub cache_insert : Bytes → Bytes → Bytes → Storage Db → Storage Db
  cache_insert keyspace key v s =
      if should_cache keyspace
      then record s {
        row_cache = cache_with (λ k o. if bytes_eq key k then some v else o) s.row_cache;
      }
      else s

  unfoldable pub cache_remove : Bytes → Bytes → Storage Db → Storage Db
  cache_remove keyspace key s =
      if should_cache keyspace
      then record s {
        row_cache = cache_with (λ k o. if bytes_eq key k then none else o) s.row_cache;
      }
      else s

  -- `w.tx.send(op(Some(done_tx)))` on an engine, with the ticket of the new channel.
  unfoldable pub send_op : ℕ → Write → Storage Db → ℕ × Storage Db
  unfolding send
  send_op engine op s = (
    s.next_ticket,
    record s {
      engines =
          update_engine engine (λ e. send e (record { op = op; done = s.next_ticket })) s.engines;
      next_ticket = s.next_ticket + 1;
    },
  )

  unfoldable pub write_data_op : Bytes → Bytes → List Bytes → Write → Storage Db → ℕ × Storage Db
  write_data_op keyspace table key_parts op s =
      send_op (data_engine s.shards keyspace table (first_part key_parts)) op s

  unfoldable pub put_row : Bytes → Bytes → List Bytes → Bytes → Storage Db → ℕ × Storage Db
  put_row keyspace table key_parts value s =
      let key = data_prefix keyspace table ++ encode_key key_parts in
      write_data_op keyspace table key_parts (put key value) (cache_insert keyspace key value s)

  unfoldable pub delete_row : Bytes → Bytes → List Bytes → Storage Db → ℕ × Storage Db
  delete_row keyspace table key_parts s =
      let key = data_prefix keyspace table ++ encode_key key_parts in
      write_data_op keyspace table key_parts (delete key) (cache_remove keyspace key s)

module _ (rocks : Rocks) where
  abbrev pub Store : Type 0
  Store = Storage rocks.Db

  -- The answer of the engine to a read that the cache does not have, which then goes to the cache.
  abbrev read_through : Bytes → Bytes → Option Bytes → Store → Option Bytes × Store
  read_through keyspace key none s = (none, s)
  read_through keyspace key (some v) s = (some v, cache_insert keyspace key v s)

  abbrev cached_or : Bytes → Bytes → ℕ → Option Bytes → Store → Option Bytes × Store
  cached_or keyspace key engine (some v) s = (some v, s)
  cached_or keyspace key engine none s =
      read_through keyspace key (rocks.get (s.engines engine).db key) s

  unfoldable pub get_row : Bytes → Bytes → List Bytes → Store → Option Bytes × Store
  get_row keyspace table key_parts s =
      let key = data_prefix keyspace table ++ encode_key key_parts in
      cached_or keyspace key (data_engine s.shards keyspace table (first_part key_parts))
        (cached keyspace key s) s

  -- A write that goes to an engine at once, past its pipeline.
  unfoldable pub write_now : ℕ → Write → Store → Store
  write_now engine op s = record s {
    engines = update_engine engine (λ e. record e { db = rocks.write e.db op }) s.engines;
  }

  unfoldable pub put_row_sync : Bytes → Bytes → List Bytes → Bytes → Store → Store
  put_row_sync keyspace table key_parts value s =
      let key = data_prefix keyspace table ++ encode_key key_parts in
      let engine = data_engine s.shards keyspace table (first_part key_parts) in
      cache_insert keyspace key value (write_now engine (put key value) s)

  unfoldable pub delete_row_sync : Bytes → Bytes → List Bytes → Store → Store
  delete_row_sync keyspace table key_parts s =
      let key = data_prefix keyspace table ++ encode_key key_parts in
      let engine = data_engine s.shards keyspace table (first_part key_parts) in
      cache_remove keyspace key (write_now engine (delete key) s)

  -- The state that the tickets' receivers wait for: the threads of every engine have made their
  -- rounds, with every batch accepted by RocksDB, until the channels are empty.
  unfoldable pub drain : ℕ → Store → Store
  drain ready s = record s {
    engines = λ i. (rounds rocks (work rocks (s.engines i)) ready (s.engines i)).0;
  }
