-- ===== src/Query/ScanRows.antt =====
-- The rows of a SELECT that scans: the first of those that the entries of its partitions, or of all
-- engines, give.
use rhyda.Prelude.{
  ℕ, zero, suc, ◌<◌, ◌≡◌, refl, sym, ap, subst, bind_ok, ◌∙◌, Bool, true, false, leb, ltb,
  leb-eq-false, leb→le, leb-false→lt, Bool-cases, inl, inr, List, [], ◌∷◌, ◌++◌, length,
  append_assoc, append-nil, Outcome, ok, arith, if◌then◌else◌,
}
use rhyda.Prelude.Bytes.{Bytes}
use rhyda.Fault.{Fault}
use rhyda.Value.Types.{Value}
use rhyda.Keys.Parts.{data_prefix}
use rhyda.Storage.Engine.{Rocks}
use rhyda.Storage.Routing.{row_key, row_engine}
use rhyda.Storage.Rows.{Store}
use rhyda.Storage.Scan.{
  for_each_on_engine, for_each_engine, for_each_in_table, for_each_in_partition,
}
use rhyda.Storage.Ordered.{with_prefix}
use rhyda.Query.Filters.{Filter}
use rhyda.Query.Pages.{
  Selection, Page, first_page, is_behind, visit, pk_restricted, partitions, stops, scan_partitions,
  scan_table, scan,
}
use rhyda.Query.Selection.{one_row}
use rhyda.Query.Paging.{project}
use rhyda.Query.PageRows.{
  take_all, page_of, page_of_full, rows_of, Shows, Shows-same, Shows-next, stream-rows_of,
}

module _ (c : Selection) where
  rows_of-append :
      (es fs : List (Bytes × Bytes)) (all : List (List Value))
      → rows_of c (es ++ fs) ≡ ok all
      → (xs ys : List (List Value)) × (rows_of c es ≡ ok xs)
        × (rows_of c fs ≡ ok ys)
        × (xs ++ ys ≡ all)
  rows_of-append [] fs all e = ([], all, refl, e, refl)
  rows_of-append ((k, v) ∷ es) fs all e = elim (Bool-cases (is_behind c.paging_bytes k)) [
    | inl b ↦
        let (o, p, d) = bind_ok (project c k v) _ (rw b at e) in
        let (zs, g, q) = bind_ok (rows_of c (es ++ fs)) _ d in
        let (xs, ys, i, j, r) = rows_of-append es fs zs g in
        let w : one_row o ++ zs ≡ all = cc in
        (
          one_row o ++ xs,
          ys,
          rw (b, p) (rw i refl),
          j,
          append_assoc (one_row o) xs ys ∙ ap (λ ts. one_row o ++ ts) r ∙ w,
        )
    | inr m ↦ let (xs, ys, i, j, r) = rows_of-append es fs all (rw m at e) in (xs, ys, rw m i, j, r)
  ]

  stops-page_of :
      (rocks : Rocks) (s : Store rocks) (rows : List (List Value))
      → stops rocks c s (page_of c rows) ≡ leb c.page_limit (length rows)
  stops-page_of rocks s rows = elim (Bool-cases (leb c.page_limit (length rows))) [
    | inl y ↦ rw y refl
    | inr n ↦ rw (n, take_all c.page_limit rows (ground arith)) n
  ]

  parts_next :
      (rocks : Rocks) (s : Store rocks) (rows xs ys all : List (List Value))
      (r : Outcome Fault Page) (b : Bool)
      → stops rocks c s (page_of c (rows ++ xs)) ≡ b
      → xs ++ ys ≡ all
      → (length (rows ++ xs) < c.page_limit → r ≡ ok (page_of c ((rows ++ xs) ++ ys)))
      → Path
          (Outcome Fault Page)
          (elim b [ true ↦ ok (page_of c (rows ++ xs)) | false ↦ r ])
          (ok (page_of c (rows ++ all)))
  parts_next rocks s rows xs ys all r false l q k =
      subst (λ zs. r ≡ ok (page_of c (rows ++ zs))) q
        (rw (append_assoc rows xs ys) at (
          k (
            leb-false→lt c.page_limit (length (rows ++ xs))
              (sym (stops-page_of rocks s (rows ++ xs)) ∙ l))))
  parts_next rocks s rows xs ys all r true l q k =
      subst
        (λ zs.
          Path (Outcome Fault Page) (ok (page_of c (rows ++ xs))) (ok (page_of c (rows ++ zs))))
        q
        (rw (← append_assoc rows xs ys) (
          ap ok (
            sym (
              page_of_full c (rows ++ xs) ys (
                leb→le c.page_limit (length (rows ++ xs))
                  (sym (stops-page_of rocks s (rows ++ xs)) ∙ l))))))

module _ (rocks : Rocks) (c : Selection) (s : Store rocks) where
  abbrev entries_on : ℕ → Bytes → List (Bytes × Bytes)
  entries_on engine prefix = with_prefix prefix (rocks.iterator_from (s.engines engine).db prefix)

  -- The entries of `left` engines from `engine` on.
  abbrev entries_from : ℕ → ℕ → Bytes → List (Bytes × Bytes)
  entries_from engine zero prefix = []
  entries_from engine (suc left) prefix =
      entries_on engine prefix ++ entries_from (suc engine) left prefix

  abbrev entries_in : List (List Bytes) → List (Bytes × Bytes)
  entries_in [] = []
  entries_in (p ∷ ps) =
      entries_on (row_engine s.shards c.keyspace c.table.name p) (row_key c.keyspace c.table.name p)
      ++ entries_in ps

  -- What the storage holds for the filters: the entries of the partitions that they allow, one
  -- partition after the other, or else those of the table, one engine after the other.
  abbrev pub entries : List Filter → List (Bytes × Bytes)
  entries filters =
      if pk_restricted c.table.partition_keys filters
      then entries_in (partitions c.table filters)
      else entries_from 0 s.shards (data_prefix c.keyspace c.table.name)

  for_each_engine-rows_of :
      (engine left : ℕ) (prefix : Bytes) (rows all : List (List Value))
      → length rows < c.page_limit
      → rows_of c (entries_from engine left prefix) ≡ ok all
      → Shows c
          (for_each_engine rocks engine left prefix (visit c) s (page_of c rows))
          (rows ++ all)
  unfolding for_each_engine for_each_on_engine
  for_each_engine-rows_of engine zero prefix rows all h e = Shows-same c rows all h (cc)
  for_each_engine-rows_of engine (suc left) prefix rows all h e =
      let es = entries_on engine prefix in
      let (xs, ys, f, g, q) = rows_of-append c es (entries_from (suc engine) left prefix) all e in
      rw (stream-rows_of c prefix (rocks.iterator_from (s.engines engine).db prefix) rows xs h f) (
        Shows-next c rows xs ys all
          (for_each_engine rocks (suc engine) left prefix (visit c) s (page_of c (rows ++ xs)))
          (ltb (length (rows ++ xs)) c.page_limit) refl q
          λ l. for_each_engine-rows_of (suc engine) left prefix (rows ++ xs) ys l g)

  scan_partitions-rows_of :
      (ps : List (List Bytes)) (rows all : List (List Value))
      → length rows < c.page_limit
      → rows_of c (entries_in ps) ≡ ok all
      → scan_partitions rocks c s ps (page_of c rows) ≡ ok (page_of c (rows ++ all))
  unfolding scan_partitions for_each_in_partition for_each_on_engine row_key row_engine
  scan_partitions-rows_of [] rows all h e =
      let q : [] ≡ all = cc in
      subst (λ ys. Path (Outcome Fault Page) (ok (page_of c rows)) (ok (page_of c (rows ++ ys)))) q
        (rw (append-nil rows) refl)
  scan_partitions-rows_of (p ∷ ps) rows all h e =
      let prefix = row_key c.keyspace c.table.name p in
      let engine = row_engine s.shards c.keyspace c.table.name p in
      let (xs, ys, f, g, q) = rows_of-append c (entries_on engine prefix) (entries_in ps) all e in
      rw (stream-rows_of c prefix (rocks.iterator_from (s.engines engine).db prefix) rows xs h f) (
        parts_next c rocks s rows xs ys all (scan_partitions rocks c s ps (page_of c (rows ++ xs)))
          (stops rocks c s (page_of c (rows ++ xs))) refl q
          λ l. scan_partitions-rows_of ps (rows ++ xs) ys l g)

  page_of_nil : 0 < c.page_limit → first_page ≡ page_of c []
  page_of_nil h =
      rw (take_all {A = List Value} c.page_limit [] (omega arith), leb-eq-false c.page_limit 0 h)
        refl

  pub scan-rows_of :
      (filters : List Filter) (all : List (List Value))
      → 0 < c.page_limit
      → rows_of c (entries filters) ≡ ok all
      → scan rocks c s filters ≡ ok (page_of c all)
  unfolding scan scan_table for_each_in_table
  scan-rows_of filters all h e = elim (Bool-cases (pk_restricted c.table.partition_keys filters)) [
    | inl y ↦
        rw (y, page_of_nil h)
          (scan_partitions-rows_of (partitions c.table filters) [] all h (rw y at e))
    | inr n ↦
        rw (n, page_of_nil h)
          (rw
            (for_each_engine-rows_of 0 s.shards (data_prefix c.keyspace c.table.name) [] all h
              (rw n at e))
            refl)
  ]
