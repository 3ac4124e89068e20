-- ===== src/Storage/Reads.antt =====
-- What a read returns after writes: the writes themselves once the pipelines have settled, and where
-- the row cache goes wrong.
use rhyda.Prelude.{
  ℕ, ◌≡◌, refl, ap, ap₂, ◌∙◌, Bool, true, false, ◌==◌, List, Option, none, some, arith,
}
use rhyda.Prelude.Bytes.{Bytes, bytes_eq, bytes_eq_iff}
use rhyda.Prelude.{==_iff}
use rhyda.Storage.Engine.{Rocks, IsRocks, Write, put, delete}
use rhyda.Storage.Pipeline.{work, view, view-send, rounds_settle}
use rhyda.Storage.Routing.{row_key, row_engine, should_cache}
use rhyda.Storage.Rows.{
  Storage, Store, cached, cache_insert, cache_remove, send_op, write_data_op, put_row, delete_row,
  get_row, drain,
}

pub bytes_eq_refl : (k : Bytes) → bytes_eq k k ≡ true
bytes_eq_refl k = (bytes_eq_iff k k).1 refl

pub ==_refl : (n : ℕ) → (n == n) ≡ true
==_refl n = (==_iff n n).1 refl

-- The cache first, then the engine.
abbrev pub answer : Option Bytes → Option Bytes → Option Bytes
answer (some v) o = some v
answer none o = o

-- What the cache knows of a key after an insertion at it.
abbrev pub known : Bool → Option (Bytes → Option Bytes) → Bytes → Option Bytes
known true (some cache) v = some v
known true none v = none
known false cache v = none

answer-known :
    (b : Bool) (cache : Option (Bytes → Option Bytes)) (v : Bytes)
    → answer (known b cache v) (some v) ≡ some v
answer-known true none v = refl
answer-known true (some c) v = refl
answer-known false none v = refl
answer-known false (some c) v = refl

module _ {Db : Type 0} (ks key : Bytes) (s : Storage Db) where
  pub cached-cache_insert :
      (v : Bytes) → cached ks key (cache_insert ks key v s) ≡ known (should_cache ks) s.row_cache v
  unfolding cached cache_insert
  cached-cache_insert v = ground (arith, bytes_eq_refl key)

  pub cached-cache_remove : cached ks key (cache_remove ks key s) ≡ none
  unfolding cached cache_remove
  cached-cache_remove = ground (arith, bytes_eq_refl key)

  pub cached-send_op : (i : ℕ) (op : Write) → cached ks key (send_op i op s).1 ≡ cached ks key s
  unfolding cached send_op
  cached-send_op i op = refl

  shards-cache_insert :
      (v : Bytes)
      → ((cache_insert ks key v s).shards ≡ s.shards)
        × ((cache_insert ks key v s).engines ≡ s.engines)
  unfolding cache_insert
  shards-cache_insert v = ground arith

  shards-cache_remove :
      ((cache_remove ks key s).shards ≡ s.shards) × ((cache_remove ks key s).engines ≡ s.engines)
  unfolding cache_remove
  shards-cache_remove = ground arith

module _ (rocks : Rocks) (laws : IsRocks rocks) where
  -- After `drain` an engine stores its abstract state.
  pub db-drain :
      (ready i : ℕ) (s : Store rocks)
      → ((drain rocks ready s).engines i).db ≡ view rocks (s.engines i)
  unfolding drain
  db-drain ready i s =
      (rounds_settle rocks (work rocks (s.engines i)) ready (s.engines i) (omega arith)).1

  pub cached-drain :
      (ks key : Bytes) (ready : ℕ) (s : Store rocks)
      → cached ks key (drain rocks ready s) ≡ cached ks key s
  unfolding cached drain
  cached-drain ks key ready s = refl

  pub view-send_op :
      (i : ℕ) (op : Write) (s : Store rocks)
      → view rocks ((send_op i op s).1.engines i) ≡ rocks.write (view rocks (s.engines i)) op
  unfolding send_op
  view-send_op i op s =
      rw (==_refl i) (view-send rocks (s.engines i) (record { op = op; done = s.next_ticket }))

  module _ (ks tb : Bytes) (parts : List Bytes) where
    pub get_row_lem :
        (s : Store rocks)
        → (get_row rocks ks tb parts s).0
          ≡ answer
              (cached ks (row_key ks tb parts) s)
              (rocks.get (s.engines (row_engine s.shards ks tb parts)).db (row_key ks tb parts))
    unfolding get_row row_key row_engine
    get_row_lem s = ground arith

    shards-drain-send_op :
        (ready i : ℕ) (op : Write) (s : Store rocks)
        → (drain rocks ready (send_op i op s).1).shards ≡ s.shards
    unfolding drain send_op
    shards-drain-send_op ready i op s = refl

    -- A read of a row after a write was sent to the row's engine and has settled.
    read_after_send :
        (op : Write) (ready : ℕ) (s : Store rocks)
        → (get_row rocks ks tb parts
            (drain rocks ready (send_op (row_engine s.shards ks tb parts) op s).1)).0
          ≡ answer (cached ks (row_key ks tb parts) s) (
              rocks.get
                (rocks.write (view rocks (s.engines (row_engine s.shards ks tb parts))) op)
                (row_key ks tb parts))
    read_after_send op ready s =
        let i = row_engine s.shards ks tb parts in
        let sent = (send_op i op s).1 in
        get_row_lem (drain rocks ready sent)
        ∙ simp (shards-drain-send_op ready i op s) (
            ap₂ answer
              (cached-drain ks (row_key ks tb parts) ready sent
                ∙ cached-send_op ks (row_key ks tb parts) s i op)
              (ap (λ d. rocks.get d (row_key ks tb parts))
                (db-drain ready i sent ∙ view-send_op i op s)))

    -- Where RocksDB accepts every batch: once a put of a row has settled, a read of the row returns the
    -- value, with the row cache and without it, whatever was pending.
    pub get_row-put_row :
        (value : Bytes) (ready : ℕ) (s : Store rocks)
        → (get_row rocks ks tb parts (drain rocks ready (put_row ks tb parts value s).1)).0
          ≡ some value
    unfolding put_row write_data_op row_key row_engine
    get_row-put_row value ready s =
        let key = row_key ks tb parts in
        read_after_put key value (cache_insert ks key value s) ready s.row_cache
          (read_after_send (put key value) ready (cache_insert ks key value s))
          (cached-cache_insert ks key s value)
      where
        read_after_put :
            (key v : Bytes) (s' : Store rocks) (r : ℕ) (c : Option (Bytes → Option Bytes))
            {o : Option Bytes}
            → o
              ≡ answer (cached ks key s') (
                  rocks.get
                    (rocks.write
                      (view rocks (s'.engines (row_engine s'.shards ks tb parts)))
                      (put key v))
                    key)
            → cached ks key s' ≡ known (should_cache ks) c v
            → o ≡ some v
        read_after_put key v s' r c e k =
            e ∙ rw (laws.get-put, bytes_eq_refl, k) (answer-known (should_cache ks) c v)

    -- Where RocksDB accepts every batch: once a delete of a row has settled, a read of the row finds
    -- nothing, whatever was pending.
    pub get_row-delete_row :
        (ready : ℕ) (s : Store rocks)
        → (get_row rocks ks tb parts (drain rocks ready (delete_row ks tb parts s).1)).0 ≡ none
    unfolding delete_row write_data_op row_key row_engine
    get_row-delete_row ready s =
        let key = row_key ks tb parts in
        read_after_send (delete key) ready (cache_remove ks key s)
        ∙ rw (laws.get-delete, bytes_eq_refl, cached-cache_remove)
