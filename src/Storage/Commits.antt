-- ===== src/Storage/Commits.antt =====
-- The committer of an engine, src/storage.rs `spawn_writer`: which writes a commit stores and which
-- tickets it completes.
use rhyda.Prelude.{
  ℕ, ◌≤◌, ◌≡◌, ◌⊎◌, refl, sym, ap, Bool, ltb, if◌then◌else◌, Bool-cases, inl, inr, List, [], ◌∷◌,
  ◌++◌, length, take, drop, take-append, drop-append, append_assoc, length-append, All, arith,
}
use rhyda.Storage.Engine.{
  Rocks, WriteOp, Batch, empty_batch, batch_apply, fill, max_batch_ops, Engine, collect_ops,
  collect, write_batch, commit_batches, commit,
}
use rhyda.Storage.Pipeline.{pending, waiting}

-- A batch that the collector hands over: it has a write, and a ticket for every write.
abbrev pub IsPaired : Batch → Type 0
IsPaired b = (1 ≤ length b.writes) × (length b.writes ≡ length b.done)

abbrev pub IsFed : {Db : Type 0} → Engine Db → Type 0
IsFed e = All IsPaired e.batches

batch_apply-IsPaired :
    (b : Batch) (w : WriteOp) → length b.writes ≡ length b.done → IsPaired (batch_apply b w)
unfolding batch_apply
batch_apply-IsPaired b w h = (
  omega (arith, length-append b.writes (w.op ∷ [])),
  omega (arith, h, length-append b.writes (w.op ∷ []), length-append b.done (w.done ∷ [])),
)

fill-IsPaired : (b : Batch) (ready : List WriteOp) → IsPaired b → IsPaired (fill b ready).0
unfolding fill
fill-IsPaired b [] h = h
fill-IsPaired b (w ∷ ready) h = elim (Bool-cases (ltb (length b.writes) max_batch_ops)) [
  | inl y ↦ rw y (fill-IsPaired (batch_apply b w) ready (batch_apply-IsPaired b w h.1))
  | inr n ↦ rw n h
]

All-snoc :
    (bs : List Batch) (b : Batch) → All IsPaired bs → IsPaired b → All IsPaired (bs ++ b ∷ [])
All-snoc [] b h p = (p, tt)
All-snoc (x ∷ bs) b (q, h) p = (q, All-snoc bs b h p)

collect_ops-IsFed :
    {Db : Type 0} (ready : ℕ) (e : Engine Db) (ops : List WriteOp)
    → IsFed e
    → IsFed (collect_ops ready e ops)
unfolding collect_ops
collect_ops-IsFed ready e [] h = h
collect_ops-IsFed ready e (first ∷ rest) h = All-snoc e.batches _ h (
    fill-IsPaired (batch_apply empty_batch first) (take ready rest)
      (batch_apply-IsPaired empty_batch first refl))

-- The collector hands over such batches only.
pub collect-IsFed : {Db : Type 0} (ready : ℕ) (e : Engine Db) → IsFed e → IsFed (collect ready e)
unfolding collect
collect-IsFed ready e h = collect_ops-IsFed ready e e.ops h

-- The front of a list, by its length.
module _ {ℓ} {A : Type ℓ} {n : ℕ} (zs xs ys : List A) (h : length xs ≡ n) (e : zs ≡ xs ++ ys) where
  take-front : take n zs ≡ xs
  take-front = rw (e, ← h) (take-append xs ys)

  drop-front : drop n zs ≡ ys
  drop-front = rw (e, ← h) (drop-append xs ys)

-- What is pending behind the first batch.
module _ {Db : Type 0} (e : Engine Db) (b : Batch) (bs : List Batch) where
  pending_of : e.batches ≡ b ∷ bs → pending e ≡ b.writes ++ pending (record e { batches = bs })
  unfolding pending
  pending_of h = rw h (append_assoc b.writes _ _)

  waiting_of : e.batches ≡ b ∷ bs → waiting e ≡ b.done ++ waiting (record e { batches = bs })
  unfolding waiting
  waiting_of h = rw h (append_assoc b.done _ _)

module _ (rocks : Rocks) (fails : Bool) (e : Engine rocks.Db) where
  -- What a commit is to do with the first k of the accepted operations.
  abbrev pub Commits : Engine rocks.Db × List ℕ → Type 0
  Commits (e', done) =
      let k = length done in
      (e'.db ≡ (if fails then e.db else write_batch rocks e.db (take k (pending e))))
      × (done ≡ take k (waiting e))
      × (pending e' ≡ drop k (pending e))
      × (waiting e' ≡ drop k (waiting e))
      × ((e.batches ≡ []) ⊎ (1 ≤ k))
      × IsFed e'

  commit_batches-Commits :
      (bs : List Batch)
      → e.batches ≡ bs
      → All IsPaired bs
      → Commits (commit_batches rocks fails e bs)
  unfolding commit_batches write_batch pending waiting
  commit_batches-Commits [] h p = (ground arith, refl, refl, refl, inl h, rw h tt)
  commit_batches-Commits (b ∷ bs) h ((one, same), ps) = (
    ap (λ ws. if fails then e.db else write_batch rocks e.db ws)
        (sym (take-front _ b.writes _ same (pending_of e b bs h))),
    sym (take-front _ b.done _ refl (waiting_of e b bs h)),
    sym (drop-front _ b.writes _ same (pending_of e b bs h)),
    sym (drop-front _ b.done _ refl (waiting_of e b bs h)),
    inr (omega (arith, one, same)),
    ps,
  )

  -- A round of the committer on an engine whose batches have a ticket for every write, as the collector
  -- makes them: for some number k of the operations that were accepted first, at least one if a batch
  -- was queued, it completes the tickets of exactly these k, stores exactly their writes in their order
  -- unless RocksDB refuses the batch, in which case it stores none of them and completes their tickets
  -- all the same, and leaves the other operations pending in their order.
  pub commit-Commits : IsFed e → Commits (commit rocks fails e)
  unfolding commit
  commit-Commits h = commit_batches-Commits e.batches refl h
