-- ===== src/Examples/Store.antt =====
-- Runs of the engines' pipelines and of reads and writes of rows, on the database in memory.
use rhyda.Prelude.{
  ℕ, ◌≢◌, ap, length, ◌≡◌, ◌↔◌, All, ok, refl, true, false, List, [], ◌∷◌, ◌++◌, none, some, arith,
}
use rhyda.Prelude.Bytes.{Bytes, codes}
use rhyda.Storage.Engine.{put, delete, Engine, collect, commit}
use rhyda.Storage.Pipeline.{pending, waiting, view, collect_keeps, rounds, work, rounds_settle}
use rhyda.Storage.Commits.{Commits, commit-Commits}
use rhyda.Storage.Routing.{row_engine, row_key, should_cache}
use rhyda.Storage.Rows.{Storage, put_row, delete_row, get_row, drain}
use rhyda.Storage.Reads.{get_row-put_row, get_row-delete_row, bytes_eq_refl}
use rhyda.Storage.Stale.{stale_after_delete}
use rhyda.Storage.Scan.{scan_partition}
use rhyda.Storage.Ordered.{entry_at, IsAscending, partition_db, scan_partition-row}
use rhyda.Storage.Removal.{truncate_table}
use rhyda.Storage.Truncation.{get_row-truncate_table, truncate_table_other}
use rhyda.Keys.RoundTrip.{Short}
use rhyda.Keys.Tables.{NoBang}
use rhyda.Examples.Rocks.{MemDb, mem_rocks, mem_laws, mem_rocks-Iterates}

abbrev busy : Engine MemDb
busy = record {
  db = [];
  batches = record { writes = put (codes "a") (codes "1") ∷ []; done = 0 ∷ [] } ∷ [];
  ops =
      record { op = put (codes "b") (codes "2"); done = 1 }
      ∷ record { op = delete (codes "a"); done = 2 }
      ∷ [];
}

collect_keeps_example :
    (pending (collect 1 busy) ≡ pending busy)
    × (waiting (collect 1 busy) ≡ waiting busy)
    × ((collect 1 busy).db ≡ busy.db)
collect_keeps_example = collect_keeps 1 busy

commit-Commits_example : Commits mem_rocks false busy (commit mem_rocks false busy)
commit-Commits_example = commit-Commits mem_rocks false busy ((omega arith, refl), tt)

rounds_settle_example :
    (work mem_rocks (rounds mem_rocks 3 1 busy).0 ≡ 0)
    × ((rounds mem_rocks 3 1 busy).0.db ≡ view mem_rocks busy)
    × ((rounds mem_rocks 3 1 busy).1 ≡ waiting busy)
rounds_settle_example = rounds_settle mem_rocks 3 1 busy (omega arith)

-- A storage of four engines, all busy, with the row cache on.
abbrev pub busy_store : Storage MemDb
busy_store = record {
  shards = 4;
  engines = λ i. busy;
  row_cache = some (λ k. none);
  keyspaces = λ k. none;
  tables = λ k t. none;
  next_ticket = 3;
}

abbrev row : List Bytes
row = codes "x" ∷ []

get_row-put_row_example :
    (get_row mem_rocks
      (codes "app")
      (codes "users")
      row
      (drain mem_rocks 5 (put_row (codes "app") (codes "users") row (codes "v") busy_store).1)).0
    ≡ some (codes "v")
get_row-put_row_example =
    get_row-put_row mem_rocks mem_laws (codes "app") (codes "users") row (codes "v") 5 busy_store

get_row-delete_row_example :
    (get_row mem_rocks
      (codes "app")
      (codes "users")
      row
      (drain mem_rocks 5 (delete_row (codes "app") (codes "users") row busy_store).1)).0
    ≡ none
get_row-delete_row_example =
    get_row-delete_row mem_rocks mem_laws (codes "app") (codes "users") row 5 busy_store

-- Every engine stores the row.
abbrev full_store : Storage MemDb
full_store = record busy_store {
  engines = λ i. record {
    db = (row_key (codes "app") (codes "users") row, codes "v") ∷ [];
    batches = [];
    ops = [];
  };
}

stale_after_delete_example :
    let read =
      (get_row mem_rocks
        (codes "app")
        (codes "users")
        row
        (delete_row (codes "app") (codes "users") row full_store).1).1 in
    ((get_row mem_rocks (codes "app") (codes "users") row (drain mem_rocks 5 read)).0
      ≡ some (codes "v"))
    × (mem_rocks.get
          ((drain mem_rocks 5 read).engines (row_engine 4 (codes "app") (codes "users") row)).db
          (row_key (codes "app") (codes "users") row)
        ≡ none)
stale_after_delete_example =
    stale_after_delete mem_rocks mem_laws (codes "app") (codes "users") row (codes "v") (λ k. none)
      5 full_store cached_ks refl stored
  where
    cached_ks : should_cache (codes "app") ≡ true
    cached_ks = unfold should_cache in refl

    stored :
        mem_rocks.get
          ((row_key (codes "app") (codes "users") row, codes "v") ∷ [])
          (row_key (codes "app") (codes "users") row)
        ≡ some (codes "v")
    stored = rw (bytes_eq_refl (row_key (codes "app") (codes "users") row)) refl

scan_partition-row_example :
    (rows : List (Bytes × Bytes)) × (scan_partition mem_rocks {E = Unit}
        (codes "app")
        (codes "users")
        row
        full_store
      ≡ ok (true, rows))
    × IsAscending rows
    × ((parts : List Bytes) (v : Bytes)
        → All Short parts
        → (entry_at (row_key (codes "app") (codes "users") parts) rows ≡ some v) ↔ (
            (mem_rocks.get
                (partition_db mem_rocks (codes "app") (codes "users") row full_store)
                (row_key (codes "app") (codes "users") parts)
              ≡ some v)
            × ((rest : List Bytes) × (parts ≡ row ++ rest))))
scan_partition-row_example =
    scan_partition-row mem_rocks (codes "app") (codes "users") row full_store
      (mem_rocks.iterator_from (partition_db mem_rocks (codes "app") (codes "users") row full_store)
        (row_key (codes "app") (codes "users") row))
      refl
      (mem_rocks-Iterates (partition_db mem_rocks (codes "app") (codes "users") row full_store)
        (row_key (codes "app") (codes "users") row) (tt, tt))
      (omega arith, tt)

get_row-truncate_table_example :
    (get_row mem_rocks
      (codes "app")
      (codes "users")
      row
      (drain mem_rocks 5 (truncate_table mem_rocks (codes "app") (codes "users") busy_store).1)).0
    ≡ none
get_row-truncate_table_example =
    get_row-truncate_table mem_rocks mem_laws (codes "app") (codes "users") row 5 busy_store
      (omega arith)

truncate_table_other_example :
    (get_row mem_rocks
      (codes "app")
      (codes "users")
      row
      (drain mem_rocks 5 (truncate_table mem_rocks (codes "app") (codes "logs") full_store).1)).0
    ≡ mem_rocks.get
        (view mem_rocks (full_store.engines (row_engine 4 (codes "app") (codes "users") row)))
        (row_key (codes "app") (codes "users") row)
truncate_table_other_example =
    truncate_table_other mem_rocks mem_laws (codes "app") (codes "logs") (codes "app")
      (codes "users") row 5 full_store (omega arith) app logs app users (λ (a, b). differ b)
  where
    app : NoBang (codes "app")
    app = (λ e. omega arith, (λ e. omega arith, (λ e. omega arith, tt)))

    five :
        (a b c d e : ℕ)
        → a ≢ 33
        → b ≢ 33
        → c ≢ 33
        → d ≢ 33
        → e ≢ 33
        → NoBang (a ∷ b ∷ c ∷ d ∷ e ∷ [])
    five a b c d e f g h i j = (f, (g, (h, (i, (j, tt)))))

    logs : NoBang (codes "logs")
    logs = (λ e. omega arith, (λ e. omega arith, (λ e. omega arith, (λ e. omega arith, tt))))

    users : NoBang (codes "users")
    users =
        five 117 115 101 114 115 (λ e. omega arith) (λ e. omega arith) (λ e. omega arith)
          (λ e. omega arith) (λ e. omega arith)

    differ : ¬ (codes "users" ≡ codes "logs")
    differ e = let l : length (codes "users") ≡ length (codes "logs") = ap length e in omega arith
