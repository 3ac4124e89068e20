-- ===== src/Storage/Engine.antt =====
-- One engine of src/storage.rs: a RocksDB instance, which is a parameter, with the channel of write
-- operations to its collector and the channel of batches to its committer.
use rhyda.Prelude.{
  ℕ, ◌≡◌, Bool, ltb, if◌then◌else◌, List, [], ◌∷◌, ◌++◌, length, take, drop, Option, none, some,
}
use rhyda.Prelude.Bytes.{Bytes, bytes_eq}
use rhyda.Keys.Bounds.{in_range}

-- A write in a RocksDB `WriteBatch`, or one by itself.
pub data Write : Type 0 where
  put : Bytes → Bytes → Write
  delete : Bytes → Write
  delete_range : Bytes → Bytes → Write

-- What the source uses of RocksDB: point reads, writes, and the iterator from a key on.
pub record Rocks : Type 1 where
  pub Db : Type 0
  pub get : Db → Bytes → Option Bytes
  pub write : Db → Write → Db
  pub iterator_from : Db → Bytes → List (Bytes × Bytes)

-- The documented meaning of the writes for later reads.
pub record IsRocks (rocks : Rocks) : Type 0 where
  pub get-put :
      (db : rocks.Db) (k v j : Bytes)
      → rocks.get (rocks.write db (put k v)) j ≡ (if bytes_eq k j then some v else rocks.get db j)
  pub get-delete :
      (db : rocks.Db) (k j : Bytes)
      → rocks.get (rocks.write db (delete k)) j ≡ (if bytes_eq k j then none else rocks.get db j)
  pub get-delete_range :
      (db : rocks.Db) (start end j : Bytes)
      → rocks.get (rocks.write db (delete_range start end)) j
        ≡ (if in_range start end j then none else rocks.get db j)

-- `WriteOp`: a write with the ticket whose sender it carries (`done`).
pub record WriteOp : Type 0 where
  pub op : Write
  pub done : ℕ

abbrev pub max_batch_ops : ℕ
max_batch_ops = 2048

-- A batch with the tickets that its commit completes.
pub record Batch : Type 0 where
  pub writes : List Write
  pub done : List ℕ

abbrev pub empty_batch : Batch
empty_batch = record { writes = []; done = [] }

-- `batch_apply`
unfoldable pub batch_apply : Batch → WriteOp → Batch
batch_apply batch w = record {
  writes = batch.writes ++ w.op ∷ [];
  done = batch.done ++ w.done ∷ [];
}

-- `while batch.len() < max_batch_ops { match ops_rx.try_recv() … }`: `ready` are the operations that
-- arrive before the loop finds the channel empty or its window over. The operations that the loop
-- leaves in the channel come back beside the batch.
unfoldable pub fill : Batch → List WriteOp → Batch × List WriteOp
fill batch [] = (batch, [])
fill batch (w ∷ ready) =
    let more = fill (batch_apply batch w) ready in
    if ltb (length batch.writes) max_batch_ops then more else (batch, w ∷ ready)

pub record Engine (Db : Type 0) : Type 0 where
  pub db : Db
  pub batches : List Batch
  pub ops : List WriteOp

-- `w.tx.send(op)`
unfoldable pub send : {Db : Type 0} → Engine Db → WriteOp → Engine Db
send e w = record e { ops = e.ops ++ w ∷ [] }

unfoldable pub collect_ops : {Db : Type 0} → ℕ → Engine Db → List WriteOp → Engine Db
unfolding batch_apply
collect_ops ready e [] = e
collect_ops ready e (first ∷ rest) =
    let (batch, left) = fill (batch_apply empty_batch first) (take ready rest) in
    record e { batches = e.batches ++ batch ∷ []; ops = left ++ drop ready rest }

-- One round of the collector, with `ready` operations at hand behind the first. With no operation in
-- the channel it waits.
unfoldable pub collect : {Db : Type 0} → ℕ → Engine Db → Engine Db
unfolding collect_ops
collect ready e = collect_ops ready e e.ops

module _ (rocks : Rocks) where
  -- `db.write_opt(batch)`: the writes of a batch in their order.
  unfoldable pub write_batch : rocks.Db → List Write → rocks.Db
  write_batch db [] = db
  write_batch db (w ∷ ws) = write_batch (rocks.write db w) ws

  -- One round of the committer. `fails` says that RocksDB refuses the batch, which the committer
  -- reports on stderr; the tickets of the batch are completed in both cases.
  unfoldable pub commit_batches : Bool → Engine rocks.Db → List Batch → Engine rocks.Db × List ℕ
  unfolding write_batch
  commit_batches fails e [] = (e, [])
  commit_batches fails e (batch ∷ batches) = (
    record e { db = if fails then e.db else write_batch e.db batch.writes; batches = batches },
    batch.done,
  )

  unfoldable pub commit : Bool → Engine rocks.Db → Engine rocks.Db × List ℕ
  unfolding commit_batches
  commit fails e = commit_batches fails e e.batches
