-- ===== src/Examples/Rocks.antt =====
-- A database in memory with the reads, the writes and the iterator that the source uses of RocksDB:
-- its entries in the order of their keys.
use rhyda.Prelude.{
  ◌≡◌, refl, sym, ◌∙◌, Bool, true, false, not, if◌then◌else◌, Bool-cases, inl, inr, List, [], ◌∷◌,
  Option, none, some, All, arith,
}
use rhyda.Prelude.Bytes.{Bytes, bytes_eq, bytes_eq_iff, bytes_lt}
use rhyda.Keys.Bounds.{in_range}
use rhyda.Storage.Engine.{Rocks, IsRocks, Write, put, delete, delete_range}
use rhyda.Storage.Ordered.{entry_at, IsAscending, AllFrom, Iterates}

abbrev pub MemDb : Type 0
MemDb = List (Bytes × Bytes)

abbrev insert : Bytes → Bytes → MemDb → MemDb
insert k v [] = (k, v) ∷ []
insert k v ((j, w) ∷ es) =
    let rest = insert k v es in
    if bytes_lt k j
    then (k, v) ∷ (j, w) ∷ es
    else if bytes_eq j k
    then (k, v) ∷ es
    else (j, w) ∷ rest

abbrev pub keep_keys : (Bytes → Bool) → MemDb → MemDb
keep_keys f [] = []
keep_keys f ((j, w) ∷ es) = let rest = keep_keys f es in if f j then (j, w) ∷ rest else rest

abbrev mem_write : MemDb → Write → MemDb
mem_write db (put k v) = insert k v db
mem_write db (delete k) = keep_keys (λ j. not (bytes_eq k j)) db
mem_write db (delete_range start end) = keep_keys (λ j. not (in_range start end j)) db

abbrev pub mem_rocks : Rocks
mem_rocks = record {
  Db = MemDb;
  get = λ db k. entry_at k db;
  write = mem_write;
  iterator_from = λ db start. keep_keys (λ j. not (bytes_lt j start)) db;
}

bytes_eq-true : (a b : Bytes) → bytes_eq a b ≡ true → a ≡ b
bytes_eq-true a b = (bytes_eq_iff a b).0

pub entry_at-keep_keys :
    (f : Bytes → Bool) (k : Bytes) (db : MemDb)
    → entry_at k (keep_keys f db) ≡ (if f k then entry_at k db else none)
entry_at-keep_keys f k [] = ground arith
entry_at-keep_keys f k ((j, w) ∷ es) = elim (Bool-cases (bytes_eq j k)) [
  | inl y ↦
      let e = bytes_eq-true j k y in
      elim (Bool-cases (f j)) [
        | inl t ↦ rw (t, y, rw e at t) refl
        | inr t ↦ rw (t) (entry_at-keep_keys f k es ∙ rw (rw e at t) refl)
      ]
  | inr n ↦ elim (Bool-cases (f j)) [
    | inl t ↦ rw (t, n) (entry_at-keep_keys f k es)
    | inr t ↦ rw (t, n) (entry_at-keep_keys f k es)
  ]
]

unequal : (i k j : Bytes) → i ≡ j → bytes_eq i k ≡ false → bytes_eq k j ≡ false
unequal i k j e m = elim (Bool-cases (bytes_eq k j)) [
  | inl y ↦ absurd (ground (arith, m, (bytes_eq_iff i k).1 (e ∙ sym (bytes_eq-true k j y))))
  | inr n ↦ n
]

if-not : (b : Bool) (o : Option Bytes) → (if not b then o else none) ≡ (if b then none else o)
if-not true o = refl
if-not false o = refl

entry_at-insert :
    (k v j : Bytes) (db : MemDb)
    → entry_at j (insert k v db) ≡ (if bytes_eq k j then some v else entry_at j db)
entry_at-insert k v j [] = refl
entry_at-insert k v j ((i, w) ∷ es) = elim (Bool-cases (bytes_lt k i)) [
  | inl y ↦ rw y refl
  | inr n ↦ elim (Bool-cases (bytes_eq i k)) [
    | inl e ↦ let q = bytes_eq-true i k e in rw (n, e) (ground (arith, q))
    | inr m ↦
        rw (n, m)
          (elim (Bool-cases (bytes_eq i j)) [
            | inl y ↦ let q = bytes_eq-true i j y in rw (y, unequal i k j q m) refl
            | inr o ↦ rw o (entry_at-insert k v j es)
          ])
  ]
]

pub mem_laws : IsRocks mem_rocks
mem_laws = record {
  get-put = λ db k v j. entry_at-insert k v j db;
  get-delete = λ db k j.
      entry_at-keep_keys (λ i. not (bytes_eq k i)) j db ∙ if-not (bytes_eq k j) (entry_at j db);
  get-delete_range = λ db start end j.
      entry_at-keep_keys (λ i. not (in_range start end i)) j db
      ∙ if-not (in_range start end j) (entry_at j db);
}

-- Of a database with ascending keys the iterator gives what RocksDB documents.
pub mem_rocks-Iterates :
    (db : MemDb) (start : Bytes)
    → IsAscending db
    → Iterates (mem_rocks.get db) start (mem_rocks.iterator_from db start)
mem_rocks-Iterates db start a = record {
  ascending = ascending_kept db a;
  from_start = from_kept db;
  complete = λ k.
      entry_at-keep_keys (λ j. not (bytes_lt j start)) k db
      ∙ if-not (bytes_lt k start) (entry_at k db);
}
  where
    above_kept :
        (j : Bytes) (es : MemDb)
        → All (λ (k, v). bytes_lt j k ≡ true) es
        → All (λ (k, v). bytes_lt j k ≡ true) (keep_keys (λ i. not (bytes_lt i start)) es)
    above_kept j [] h = tt
    above_kept j ((k, v) ∷ es) (h, hs) = elim (Bool-cases (bytes_lt k start)) [
      | inl y ↦ rw y (above_kept j es hs)
      | inr n ↦ rw n (h, above_kept j es hs)
    ]

    ascending_kept :
        (es : MemDb) → IsAscending es → IsAscending (keep_keys (λ i. not (bytes_lt i start)) es)
    ascending_kept [] h = tt
    ascending_kept ((k, v) ∷ es) (h, hs) = elim (Bool-cases (bytes_lt k start)) [
      | inl y ↦ rw y (ascending_kept es hs)
      | inr n ↦ rw n (above_kept k es h, ascending_kept es hs)
    ]

    from_kept : (es : MemDb) → AllFrom start (keep_keys (λ i. not (bytes_lt i start)) es)
    from_kept [] = tt
    from_kept ((k, v) ∷ es) = elim (Bool-cases (bytes_lt k start)) [
      | inl y ↦ rw y (from_kept es)
      | inr n ↦ rw n (n, from_kept es)
    ]
