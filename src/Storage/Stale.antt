-- ===== src/Storage/Stale.antt =====
-- A read between a delete and its commit puts the deleted row back into the row cache.
use rhyda.Prelude.{ℕ, ◌≡◌, sym, ap, subst, ◌∙◌, true, List, Option, none, some, arith}
use rhyda.Prelude.Bytes.{Bytes}
use rhyda.Storage.Engine.{Rocks, IsRocks, delete, Engine, send}
use rhyda.Storage.Pipeline.{view}
use rhyda.Storage.Routing.{row_key, row_engine, should_cache}
use rhyda.Storage.Rows.{
  Store, cached, cache_insert, cache_remove, send_op, write_data_op, delete_row, get_row, drain,
}
use rhyda.Storage.Reads.{
  answer, known, bytes_eq_refl, cached-cache_insert, cached-cache_remove, cached-send_op,
  cached-drain, get_row_lem, db-drain, view-send_op,
}

answer-some : (a b : Option Bytes) (v : Bytes) → a ≡ some v → answer a b ≡ some v
answer-some a b v e = rw e

module _ (rocks : Rocks) (laws : IsRocks rocks) (ks tb : Bytes) (parts : List Bytes) where
  -- A read that misses the cache leaves the engine's value in it.
  get_row_miss :
      (v : Bytes) (s : Store rocks)
      → cached ks (row_key ks tb parts) s ≡ none
      → rocks.get (s.engines (row_engine s.shards ks tb parts)).db (row_key ks tb parts) ≡ some v
      → (get_row rocks ks tb parts s).1 ≡ cache_insert ks (row_key ks tb parts) v s
  unfolding get_row row_key row_engine
  get_row_miss v s c g = rw (c, g)

  -- The store after the delete was accepted: the cache does not know the row, and the engine still
  -- has it.
  deleting : Store rocks → Store rocks
  deleting s = (delete_row ks tb parts s).1

  cached-deleting : (s : Store rocks) → cached ks (row_key ks tb parts) (deleting s) ≡ none
  unfolding deleting delete_row write_data_op row_key
  cached-deleting s =
      cached-send_op ks (row_key ks tb parts) (cache_remove ks (row_key ks tb parts) s) _ _
      ∙ cached-cache_remove ks (row_key ks tb parts) s

  shards-deleting : (s : Store rocks) → (deleting s).shards ≡ s.shards
  unfolding deleting delete_row write_data_op send_op cache_remove
  shards-deleting s = ground arith

  db-deleting : (s : Store rocks) (i : ℕ) → ((deleting s).engines i).db ≡ (s.engines i).db
  unfolding deleting delete_row write_data_op send_op cache_remove send
  db-deleting s i = ground arith

  known-deleting :
      (s : Store rocks) (c : Bytes → Option Bytes) (v : Bytes)
      → s.row_cache ≡ some c
      → known true (deleting s).row_cache v ≡ some v
  unfolding deleting delete_row write_data_op send_op cache_remove
  known-deleting s c v e = ground arith

  view-deleting :
      (s : Store rocks)
      → rocks.get
          (view rocks ((deleting s).engines (row_engine (deleting s).shards ks tb parts)))
          (row_key ks tb parts)
        ≡ none
  unfolding deleting delete_row write_data_op row_key row_engine send_op
  view-deleting s =
      let key = row_key ks tb parts in
      let s' = cache_remove ks key s in
      let i = row_engine s'.shards ks tb parts in
      ap (λ d. rocks.get d key) (view-send_op rocks laws i (delete key) s')
      ∙ rw (laws.get-delete, bytes_eq_refl)

  -- The same engine, numbered by the shards of the store before.
  view-deleting_before :
      (s : Store rocks)
      → rocks.get
          (view rocks ((deleting s).engines (row_engine s.shards ks tb parts)))
          (row_key ks tb parts)
        ≡ none
  view-deleting_before s =
      subst
        (λ n.
          rocks.get (view rocks ((deleting s).engines (row_engine n ks tb parts)))
            (row_key ks tb parts)
          ≡ none)
        (shards-deleting s) (view-deleting s)

  engines-cache_insert :
      (v : Bytes) (s : Store rocks)
      → (cache_insert ks (row_key ks tb parts) v s).engines ≡ s.engines
  unfolding cache_insert
  engines-cache_insert v s = ground arith

  read_during :
      (v : Bytes) (s : Store rocks)
      → rocks.get (s.engines (row_engine s.shards ks tb parts)).db (row_key ks tb parts) ≡ some v
      → (get_row rocks ks tb parts (deleting s)).1
        ≡ cache_insert ks (row_key ks tb parts) v (deleting s)
  read_during v s g = get_row_miss v (deleting s) (cached-deleting s) (
      subst
        (λ n.
          rocks.get ((deleting s).engines (row_engine n ks tb parts)).db (row_key ks tb parts)
          ≡ some v)
        (sym (shards-deleting s))
        (ap (λ d. rocks.get d (row_key ks tb parts))
            (db-deleting s (row_engine s.shards ks tb parts))
          ∙ g))

  -- Where the keyspace is cached, the cache is on and the engine stores the row: a read that comes after
  -- a delete was accepted and before it is committed makes a read after the delete has settled return
  -- the deleted value, although the engine no longer has the row.
  pub stale_after_delete :
      (v : Bytes) (c : Bytes → Option Bytes) (ready : ℕ) (s : Store rocks)
      → should_cache ks ≡ true
      → s.row_cache ≡ some c
      → rocks.get (s.engines (row_engine s.shards ks tb parts)).db (row_key ks tb parts) ≡ some v
      → let read = (get_row rocks ks tb parts (delete_row ks tb parts s).1).1 in
        ((get_row rocks ks tb parts (drain rocks ready read)).0 ≡ some v)
        × (rocks.get
              ((drain rocks ready read).engines (row_engine s.shards ks tb parts)).db
              (row_key ks tb parts)
            ≡ none)
  unfolding deleting
  stale_after_delete v c ready s sc rc g =
      let key = row_key ks tb parts in
      let kept = cache_insert ks key v (deleting s) in
      let e : (get_row rocks ks tb parts (deleting s)).1 ≡ kept = read_during v s g in
      (
        get_row_lem rocks laws ks tb parts
              (drain rocks ready (get_row rocks ks tb parts (deleting s)).1)
            ∙ answer-some _ _ v (
                cached-drain rocks laws ks key ready (get_row rocks ks tb parts (deleting s)).1
                ∙ ap (cached ks key) e
                ∙ cached-cache_insert ks key (deleting s) v
                ∙ rw sc (known-deleting s c v rc)),
        ap (λ d. rocks.get d key)
              (db-drain rocks laws ready (row_engine s.shards ks tb parts)
                  (get_row rocks ks tb parts (deleting s)).1
                ∙ ap (λ (t : Store rocks). view rocks (t.engines (row_engine s.shards ks tb parts)))
                    e
                ∙ ap
                    (λ (es : ℕ → Engine rocks.Db).
                      view rocks (es (row_engine s.shards ks tb parts)))
                    (engines-cache_insert v (deleting s)))
            ∙ view-deleting_before s,
      )
