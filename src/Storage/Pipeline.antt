-- ===== src/Storage/Pipeline.antt =====
-- The pipeline of an engine keeps the order of the writes: what it will have written when it is
-- empty is what applying every accepted operation at once would give.
use mathlib.Core.List.{map, map-append}
use rhyda.Prelude.{
  ℕ, zero, suc, ◌+◌, ◌-◌, ◌≤◌, ◌<◌, ◌≡◌, ◌⊎◌, refl, sym, ap, ◌∙◌, false, ltb, Bool-cases, inl, inr,
  List, [], ◌∷◌, ◌++◌, length, take, drop, take-append-drop, append_assoc, append-nil,
  length-append, length-zero, arith,
}
use rhyda.Storage.Engine.{
  Rocks, Write, WriteOp, Batch, empty_batch, batch_apply, fill, max_batch_ops, Engine, send,
  collect_ops, collect, write_batch, commit_batches, commit,
}

abbrev op_of : WriteOp → Write
op_of w = w.op

abbrev done_of : WriteOp → ℕ
done_of w = w.done

-- The writes of the batches, in their order, and the tickets that these hold.
abbrev pub batch_writes : List Batch → List Write
batch_writes [] = []
batch_writes (b ∷ bs) = b.writes ++ batch_writes bs

abbrev pub batch_tickets : List Batch → List ℕ
batch_tickets [] = []
batch_tickets (b ∷ bs) = b.done ++ batch_tickets bs

-- The accepted writes that the engine has not committed, and the tickets that wait for them.
unfoldable pub pending : {Db : Type 0} → Engine Db → List Write
pending e = batch_writes e.batches ++ map op_of e.ops

unfoldable pub waiting : {Db : Type 0} → Engine Db → List ℕ
waiting e = batch_tickets e.batches ++ map done_of e.ops

fill_writes :
    (b : Batch) (ready : List WriteOp)
    → (fill b ready).0.writes ++ map op_of (fill b ready).1 ≡ b.writes ++ map op_of ready
unfolding fill
fill_writes b [] = refl
fill_writes b (w ∷ ready) = elim (Bool-cases (ltb (length b.writes) max_batch_ops)) [
  | inl y ↦ rw y (
      fill_writes (batch_apply b w) ready
      ∙ (unfold batch_apply in append_assoc b.writes (w.op ∷ []) (map op_of ready)))
  | inr n ↦ rw n
]

fill_done :
    (b : Batch) (ready : List WriteOp)
    → (fill b ready).0.done ++ map done_of (fill b ready).1 ≡ b.done ++ map done_of ready
unfolding fill
fill_done b [] = refl
fill_done b (w ∷ ready) = elim (Bool-cases (ltb (length b.writes) max_batch_ops)) [
  | inl y ↦ rw y (
      fill_done (batch_apply b w) ready
      ∙ (unfold batch_apply in append_assoc b.done (w.done ∷ []) (map done_of ready)))
  | inr n ↦ rw n
]

-- A batch never passes max_batch_ops.
fill_bound :
    (b : Batch) (ready : List WriteOp)
    → length b.writes ≤ max_batch_ops
    → length (fill b ready).0.writes ≤ max_batch_ops
unfolding fill
fill_bound b [] h = h
fill_bound b (w ∷ ready) h = elim (Bool-cases (ltb (length b.writes) max_batch_ops)) [
  | inl y ↦ rw y (
      fill_bound (batch_apply b w) ready
        (unfold batch_apply in ground (arith, length-append b.writes (w.op ∷ []))))
  | inr n ↦ rw n h
]

batch_writes-append :
    (bs cs : List Batch) → batch_writes (bs ++ cs) ≡ batch_writes bs ++ batch_writes cs
batch_writes-append [] cs = refl
batch_writes-append (b ∷ bs) cs = rw (batch_writes-append bs cs) (simp append_assoc)

batch_tickets-append :
    (bs cs : List Batch) → batch_tickets (bs ++ cs) ≡ batch_tickets bs ++ batch_tickets cs
batch_tickets-append [] cs = refl
batch_tickets-append (b ∷ bs) cs = rw (batch_tickets-append bs cs) (simp append_assoc)

module _ {Db : Type 0} where
  pub pending-send : (e : Engine Db) (w : WriteOp) → pending (send e w) ≡ pending e ++ w.op ∷ []
  unfolding pending send
  pending-send e w = simp (map-append, append_assoc)

  pub waiting-send : (e : Engine Db) (w : WriteOp) → waiting (send e w) ≡ waiting e ++ w.done ∷ []
  unfolding waiting send
  waiting-send e w = simp (map-append, append_assoc)

-- A new batch and what is left in the channel, behind the older batches.
split_writes :
    (bs : List Batch) (b : Batch) (l d : List WriteOp) (ws : List Write)
    → b.writes ++ map op_of l ≡ ws
    → batch_writes (bs ++ b ∷ []) ++ map op_of (l ++ d) ≡ batch_writes bs ++ (ws ++ map op_of d)
split_writes bs b l d ws h =
    rw (← h) (simp (batch_writes-append, map-append, append_assoc, append-nil))

split_tickets :
    (bs : List Batch) (b : Batch) (l d : List WriteOp) (ws : List ℕ)
    → b.done ++ map done_of l ≡ ws
    → batch_tickets (bs ++ b ∷ []) ++ map done_of (l ++ d)
      ≡ batch_tickets bs ++ (ws ++ map done_of d)
split_tickets bs b l d ws h =
    rw (← h) (simp (batch_tickets-append, map-append, append_assoc, append-nil))

map-take-drop {ℓ} :
    {A : Type ℓ} (f : WriteOp → A) (n : ℕ) (ws : List WriteOp)
    → map f (take n ws) ++ map f (drop n ws) ≡ map f ws
map-take-drop f n ws =
    sym (map-append f (take n ws) (drop n ws)) ∙ ap (map f) (take-append-drop n ws)

module _ {Db : Type 0} (ready : ℕ) (e : Engine Db) where
  pending-collect_ops :
      (ops : List WriteOp)
      → e.ops ≡ ops
      → pending (collect_ops ready e ops) ≡ batch_writes e.batches ++ map op_of ops
  unfolding pending collect_ops
  pending-collect_ops [] h = rw h
  pending-collect_ops (first ∷ rest) h =
      let b = batch_apply empty_batch first in
      split_writes e.batches (fill b (take ready rest)).0 (fill b (take ready rest)).1
        (drop ready rest) (first.op ∷ map op_of (take ready rest)) (fill_writes b (take ready rest))
      ∙ ap (λ t. batch_writes e.batches ++ first.op ∷ t) (map-take-drop op_of ready rest)

  waiting-collect_ops :
      (ops : List WriteOp)
      → e.ops ≡ ops
      → waiting (collect_ops ready e ops) ≡ batch_tickets e.batches ++ map done_of ops
  unfolding waiting collect_ops
  waiting-collect_ops [] h = rw h
  waiting-collect_ops (first ∷ rest) h =
      let b = batch_apply empty_batch first in
      split_tickets e.batches (fill b (take ready rest)).0 (fill b (take ready rest)).1
        (drop ready rest) (first.done ∷ map done_of (take ready rest))
        (fill_done b (take ready rest))
      ∙ ap (λ t. batch_tickets e.batches ++ first.done ∷ t) (map-take-drop done_of ready rest)

  db-collect_ops : (ops : List WriteOp) → (collect_ops ready e ops).db ≡ e.db
  unfolding collect_ops
  db-collect_ops [] = refl
  db-collect_ops (first ∷ rest) = refl

  -- The collector moves operations and changes neither the writes to come, nor their order, nor who
  -- waits for them, nor what is stored.
  pub collect_keeps :
      (pending (collect ready e) ≡ pending e)
      × (waiting (collect ready e) ≡ waiting e)
      × ((collect ready e).db ≡ e.db)
  unfolding collect pending waiting
  collect_keeps =
      (pending-collect_ops e.ops refl, waiting-collect_ops e.ops refl, db-collect_ops e.ops)

module _ (rocks : Rocks) where
  write_batch-append :
      (db : rocks.Db) (ws vs : List Write)
      → write_batch rocks db (ws ++ vs) ≡ write_batch rocks (write_batch rocks db ws) vs
  unfolding write_batch
  write_batch-append db [] vs = refl
  write_batch-append db (w ∷ ws) vs = write_batch-append (rocks.write db w) ws vs

  -- The abstract state of an engine: the database with every accepted write.
  unfoldable pub view : Engine rocks.Db → rocks.Db
  view e = write_batch rocks e.db (pending e)

  -- To accept an operation is to write it in the abstract state.
  pub view-send : (e : Engine rocks.Db) (w : WriteOp) → view (send e w) ≡ rocks.write (view e) w.op
  unfolding view send
  view-send e w =
      rw pending-send (write_batch-append e.db (pending e) (w.op ∷ []) ∙ unfold write_batch in refl)

  pub view-collect : (ready : ℕ) (e : Engine rocks.Db) → view (collect ready e) ≡ view e
  unfolding view
  view-collect ready e = let (p, w, d) = collect_keeps ready e in rw (p, d)

  commit_batches_keeps :
      (e : Engine rocks.Db) (bs : List Batch)
      → e.batches ≡ bs
      → (view (commit_batches rocks false e bs).0 ≡ view e)
        × ((commit_batches rocks false e bs).1 ++ waiting (commit_batches rocks false e bs).0
            ≡ waiting e)
  unfolding commit_batches view pending waiting
  commit_batches_keeps e [] h = (refl, refl)
  commit_batches_keeps e (b ∷ bs) h = (
    rw h (
        rw (append_assoc b.writes (batch_writes bs) (map op_of e.ops))
          (sym (write_batch-append e.db b.writes (batch_writes bs ++ map op_of e.ops)))),
    rw h (sym (append_assoc b.done (batch_tickets bs) (map done_of e.ops))),
  )

  -- A commit that RocksDB accepts keeps the abstract state, and completes the tickets that waited
  -- first.
  pub commit_keeps :
      (e : Engine rocks.Db)
      → (view (commit rocks false e).0 ≡ view e)
        × ((commit rocks false e).1 ++ waiting (commit rocks false e).0 ≡ waiting e)
  unfolding commit
  commit_keeps e = commit_batches_keeps e e.batches refl

  -- Rounds of the two threads, with the tickets that they complete.
  unfoldable pub rounds : ℕ → ℕ → Engine rocks.Db → Engine rocks.Db × List ℕ
  rounds zero ready e = (e, [])
  rounds (suc n) ready e =
      let (e', done) = commit rocks false (collect ready e) in
      let (e'', more) = rounds n ready e' in (e'', done ++ more)

  pub rounds_keeps :
      (n ready : ℕ) (e : Engine rocks.Db)
      → (view (rounds n ready e).0 ≡ view e)
        × ((rounds n ready e).1 ++ waiting (rounds n ready e).0 ≡ waiting e)
  unfolding rounds
  rounds_keeps zero ready e = (refl, refl)
  rounds_keeps (suc n) ready e =
      let c = collect ready e in
      let e' = (commit rocks false c).0 in
      let (v, w) = commit_keeps c in
      let (v', w') = rounds_keeps n ready e' in
      let (k, l, m) = collect_keeps ready e in
      (
        v' ∙ v ∙ view-collect ready e,
        append_assoc (commit rocks false c).1 (rounds n ready e').1 (waiting (rounds n ready e').0)
            ∙ ap (λ t. (commit rocks false c).1 ++ t) w'
            ∙ w
            ∙ l,
      )

  -- How many rounds an engine needs at most.
  abbrev pub work : Engine rocks.Db → ℕ
  work e = length e.ops + length e.batches

fill_left : (b : Batch) (ready : List WriteOp) → length (fill b ready).1 ≤ length ready
unfolding fill
fill_left b [] = omega arith
fill_left b (w ∷ ready) = elim (Bool-cases (ltb (length b.writes) max_batch_ops)) [
  | inl y ↦ rw y (omega (arith, fill_left (batch_apply b w) ready))
  | inr n ↦ rw n (omega arith)
]

-- A round of the collector on an empty channel changes nothing; otherwise it takes an operation out.
module _ {Db : Type 0} (ready : ℕ) (e : Engine Db) where
  collect_ops_counts :
      (ops : List WriteOp)
      → e.ops ≡ ops
      → ((length ops ≡ 0) × (collect_ops ready e ops ≡ e))
        ⊎ ((length (collect_ops ready e ops).ops < length ops)
            × (length (collect_ops ready e ops).batches ≡ length e.batches + 1))
  unfolding collect_ops
  collect_ops_counts [] h = inl (refl, refl)
  collect_ops_counts (first ∷ rest) h =
      let b = batch_apply empty_batch first in
      let f = fill b (take ready rest) in
      inr (
        omega (
          arith,
          fill_left b (take ready rest),
          length-append f.1 (drop ready rest),
          length-append (take ready rest) (drop ready rest),
          ap length (take-append-drop ready rest),
        ),
        omega (arith, length-append e.batches (f.0 ∷ [])),
      )

module _ (rocks : Rocks) where
  commit_counts :
      (c : Engine rocks.Db) (bs : List Batch)
      → c.batches ≡ bs
      → ((commit_batches rocks false c bs).0.ops ≡ c.ops)
        × (length (commit_batches rocks false c bs).0.batches ≡ length bs - 1)
  unfolding commit_batches
  commit_counts c [] h = (refl, rw h (omega arith))
  commit_counts c (b ∷ bs) h = (refl, omega arith)

  round_works :
      (ready n : ℕ) (e : Engine rocks.Db)
      → work rocks e ≤ suc n
      → work rocks (commit rocks false (collect ready e)).0 ≤ n
  unfolding commit collect
  round_works ready n e h =
      let c = collect_ops ready e e.ops in
      let (o, b) = commit_counts c c.batches refl in
      elim (collect_ops_counts ready e e.ops refl) [
        | inl (z, same) ↦ omega (
          arith,
          b,
          ap length o,
          ap (λ (t : Engine rocks.Db). length t.ops) same,
          ap (λ (t : Engine rocks.Db). length t.batches) same,
        )
        | inr (l, m) ↦ omega (arith, b, ap length o)
      ]

  no_work : (e : Engine rocks.Db) → work rocks e ≤ 0 → (e.ops ≡ []) × (e.batches ≡ [])
  no_work e h = (length-zero e.ops (omega arith), length-zero e.batches (omega arith))

  rounds_empty :
      (n ready : ℕ) (e : Engine rocks.Db)
      → work rocks e ≤ n
      → work rocks (rounds rocks n ready e).0 ≤ 0
  unfolding rounds
  rounds_empty zero ready e h = h
  rounds_empty (suc n) ready e h =
      rounds_empty n ready (commit rocks false (collect ready e)).0 (round_works ready n e h)

  nothing_pending :
      (e : Engine rocks.Db) → e.ops ≡ [] → e.batches ≡ [] → (view rocks e ≡ e.db) × (waiting e ≡ [])
  unfolding view pending waiting write_batch
  nothing_pending e o b = (rw (o, b), rw (o, b))

  -- Where RocksDB accepts every batch: once the collector and the committer have made a round for
  -- every operation and batch, whatever the sizes of the batches, the channels are empty, the tickets
  -- are completed in the order of acceptance, and the engine stores every write that it had
  -- accepted, in that order.
  pub rounds_settle :
      (n ready : ℕ) (e : Engine rocks.Db)
      → work rocks e ≤ n
      → (work rocks (rounds rocks n ready e).0 ≡ 0)
        × ((rounds rocks n ready e).0.db ≡ view rocks e)
        × ((rounds rocks n ready e).1 ≡ waiting e)
  rounds_settle n ready e h =
      let e' = (rounds rocks n ready e).0 in
      let z = rounds_empty n ready e h in
      let (o, b) = no_work e' z in
      let (d, w) = nothing_pending e' o b in
      let (v, t) = rounds_keeps rocks n ready e in
      (
        omega arith,
        sym d ∙ v,
        sym (append-nil (rounds rocks n ready e).1)
            ∙ ap (λ t. (rounds rocks n ready e).1 ++ t) (sym w)
            ∙ t,
      )
