-- ===== src/Storage/Overtaken.antt =====
-- A synchronous write that comes while a delete of the row is still pending.
use rhyda.Prelude.{ℕ, ◌≡◌, refl, ap, ap₂, ◌∙◌, false, List, none, some}
use rhyda.Prelude.Bytes.{Bytes}
use rhyda.Storage.Engine.{Rocks, IsRocks, put, delete, Engine, send}
use rhyda.Storage.Pipeline.{view, view-send}
use rhyda.Storage.Routing.{row_key, row_engine, should_cache}
use rhyda.Storage.Rows.{
  Store, cached, cache_insert, cache_remove, send_op, write_data_op, put_row_sync, delete_row,
  write_now, get_row, drain,
}
use rhyda.Storage.Reads.{answer, bytes_eq_refl, ==_refl, get_row_lem, db-drain, cached-drain}

module _ (rocks : Rocks) (laws : IsRocks rocks) (ks tb : Bytes) (parts : List Bytes)
    (uncached : should_cache ks ≡ false) where
  abbrev key : Bytes
  key = row_key ks tb parts

  cached-none : (s : Store rocks) → cached ks key s ≡ none
  unfolding cached
  cached-none s = rw uncached refl

  -- The store in which the row was put while its delete waits in the channel.
  abbrev rewritten : Bytes → Store rocks → Store rocks
  rewritten v s = put_row_sync rocks ks tb parts v (delete_row ks tb parts s).1

  shards-rewritten : (v : Bytes) (s : Store rocks) → (rewritten v s).shards ≡ s.shards
  unfolding put_row_sync delete_row write_data_op send_op write_now cache_insert cache_remove
  shards-rewritten v s = rw uncached refl

  engines-rewritten :
      (v : Bytes) (s : Store rocks)
      → let e = s.engines (row_engine s.shards ks tb parts) in
        (rewritten v s).engines (row_engine s.shards ks tb parts)
        ≡ send
            (record e { db = rocks.write e.db (put key v) })
            (record { op = delete key; done = s.next_ticket })
  unfolding put_row_sync delete_row write_data_op send_op write_now cache_insert cache_remove send
      row_key row_engine
  engines-rewritten v s = rw uncached (rw (==_refl (row_engine s.shards ks tb parts)) refl)

  -- Where RocksDB accepts every batch and the keyspace is not cached, as the schema's is not: a row
  -- that is put synchronously while a delete of it is pending can be read at once, and is gone once
  -- the delete has settled.
  pub put_row_sync_overtaken :
      (v : Bytes) (ready : ℕ) (s : Store rocks)
      → let t = put_row_sync rocks ks tb parts v (delete_row ks tb parts s).1 in
        ((get_row rocks ks tb parts t).0 ≡ some v)
        × ((get_row rocks ks tb parts (drain rocks ready t)).0 ≡ none)
  unfolding send drain
  put_row_sync_overtaken v ready s =
      let t = rewritten v s in
      let i = row_engine s.shards ks tb parts in
      let e = s.engines i in
      let put_e : Engine rocks.Db = record e { db = rocks.write e.db (put key v) } in
      let same : row_engine t.shards ks tb parts ≡ i =
        ap (λ n. row_engine n ks tb parts) (shards-rewritten v s) in
      let at_engine = ap t.engines same ∙ engines-rewritten v s in
      (
        get_row_lem rocks laws ks tb parts t
            ∙ ap₂ answer (cached-none t)
                (ap (λ (x : Engine rocks.Db). rocks.get x.db key) at_engine)
            ∙ laws.get-put e.db key v key
            ∙ rw (bytes_eq_refl key) refl,
        get_row_lem rocks laws ks tb parts (drain rocks ready t)
            ∙ ap₂ answer (cached-drain rocks laws ks key ready t ∙ cached-none t) (
                ap (λ d. rocks.get d key)
                  (db-drain rocks laws ready (row_engine t.shards ks tb parts) t
                    ∙ ap (view rocks) at_engine
                    ∙ view-send rocks put_e (record { op = delete key; done = s.next_ticket })))
            ∙ laws.get-delete (view rocks put_e) key key
            ∙ rw (bytes_eq_refl key) refl,
      )
