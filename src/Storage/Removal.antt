-- ===== src/Storage/Removal.antt =====
-- src/storage.rs: the removal of a prefix's rows, of tables and of keyspaces.
use rhyda.Prelude.{ℕ, zero, suc, ◌&&◌, if◌then◌else◌, List, [], ◌∷◌, ◌++◌, Option, none, some}
use rhyda.Prelude.Bytes.{Bytes, bytes_eq, starts_with}
use rhyda.Keys.Parts.{ks_prefix, tb_prefix, dt_prefix, bang}
use rhyda.Keys.Bounds.{prefix_upper_bound}
use rhyda.Storage.Engine.{Rocks, delete, delete_range}
use rhyda.Storage.Rows.{Storage, Store, cache_with, send_op, write_now}

abbrev pub table_prefix : Bytes → Bytes → Bytes
table_prefix keyspace table = dt_prefix ++ (keyspace ++ (bang ++ (table ++ bang)))

module _ {Db : Type 0} where
  unfoldable pub cache_clear : Storage Db → Storage Db
  cache_clear s = record s { row_cache = cache_with (λ k o. none) s.row_cache }

  -- A range tombstone to each of `left` engines from `engine` on, with the tickets.
  unfoldable pub send_range : ℕ → ℕ → Bytes → Bytes → Storage Db → List ℕ × Storage Db
  unfolding send_op
  send_range engine zero start end s = ([], s)
  send_range engine (suc left) start end s =
      let (ticket, t) = send_op engine (delete_range start end) s in
      let (tickets, u) = send_range (suc engine) left start end t in (ticket ∷ tickets, u)

  -- A delete of each key that an engine's iterator gives up to the first without the prefix.
  unfoldable pub send_deletes : ℕ → Bytes → List (Bytes × Bytes) → Storage Db → List ℕ × Storage Db
  unfolding send_op
  send_deletes engine prefix [] s = ([], s)
  send_deletes engine prefix ((k, v) ∷ items) s =
      let (ticket, t) = send_op engine (delete k) s in
      let (tickets, u) = send_deletes engine prefix items t in
      if starts_with k prefix then (ticket ∷ tickets, u) else ([], s)

module _ (rocks : Rocks) where
  unfoldable pub delete_every : ℕ → ℕ → Bytes → Store rocks → List ℕ × Store rocks
  unfolding send_deletes
  delete_every engine zero prefix s = ([], s)
  delete_every engine (suc left) prefix s =
      let (tickets, t) =
        send_deletes engine prefix (rocks.iterator_from (s.engines engine).db prefix) s in
      let (more, u) = delete_every (suc engine) left prefix t in (tickets ++ more, u)

  -- The removal, by the upper bound of the prefix if it has one.
  abbrev removed : Bytes → Option Bytes → Store rocks → List ℕ × Store rocks
  removed prefix (some end) s = send_range 0 s.shards prefix end s
  removed prefix none s = delete_every 0 s.shards prefix s

  abbrev clear_for : Bytes → Store rocks → Store rocks
  clear_for prefix s = if starts_with prefix dt_prefix then cache_clear s else s

  unfoldable pub delete_data_prefix : Bytes → Store rocks → List ℕ × Store rocks
  delete_data_prefix prefix s =
      let (tickets, t) = removed prefix (prefix_upper_bound prefix) s in
      (tickets, clear_for prefix t)

  -- `self.delete(&k)` for each metadata key with the prefix.
  unfoldable pub delete_now : Bytes → List (Bytes × Bytes) → Store rocks → Store rocks
  unfolding write_now
  delete_now prefix [] s = s
  delete_now prefix ((k, v) ∷ items) s =
      let rest = delete_now prefix items (write_now rocks 0 (delete k) s) in
      if starts_with k prefix then rest else s

  abbrev removed_now : Bytes → Option Bytes → Store rocks → Store rocks
  removed_now prefix (some end) s = write_now rocks 0 (delete_range prefix end) s
  removed_now prefix none s = delete_now prefix (rocks.iterator_from (s.engines 0).db prefix) s

  unfoldable pub delete_prefix : Bytes → Store rocks → Store rocks
  unfolding delete_now write_now
  delete_prefix prefix s = removed_now prefix (prefix_upper_bound prefix) s

  unfoldable pub truncate_table : Bytes → Bytes → Store rocks → List ℕ × Store rocks
  truncate_table keyspace table s = delete_data_prefix (table_prefix keyspace table) s

  abbrev forget_table : Bytes → Bytes → Store rocks → Store rocks
  forget_table keyspace table s = record s {
    tables = λ k t. if bytes_eq keyspace k && bytes_eq table t then none else s.tables k t;
  }

  unfoldable pub delete_table : Bytes → Bytes → Store rocks → List ℕ × Store rocks
  unfolding write_now
  delete_table keyspace table s =
      let t = write_now rocks 0 (delete (tb_prefix ++ (keyspace ++ (bang ++ table)))) s in
      let (tickets, u) = delete_data_prefix (table_prefix keyspace table) t in
      (tickets, forget_table keyspace table u)

  -- The keyspace and its tables leave the caches.
  abbrev forget_keyspace : Bytes → Store rocks → Store rocks
  forget_keyspace name s = record s {
    keyspaces = λ k. if bytes_eq name k then none else s.keyspaces k;
    tables = λ k t. if bytes_eq name k then none else s.tables k t;
  }

  unfoldable pub delete_keyspace : Bytes → Store rocks → List ℕ × Store rocks
  unfolding write_now delete_prefix
  delete_keyspace name s =
      let t = write_now rocks 0 (delete (ks_prefix ++ name)) s in
      let u = delete_prefix (tb_prefix ++ (name ++ bang)) t in
      let (tickets, w) = delete_data_prefix (dt_prefix ++ (name ++ bang)) u in
      (tickets, forget_keyspace name w)
