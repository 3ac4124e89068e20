-- ===== src/Query/Paging.antt =====
-- How many rows a page of `exec_select` has, and what it says of the rows behind.
use rhyda.Prelude.{
  leb-eq-false, ◌≤◌, ◌<◌, ◌≡◌, refl, Bool, true, false, ltb, Bool-cases, inl, inr, List, [], ◌∷◌,
  ◌++◌, length, length-append, Option, none, some, Outcome, ok, err, panic, ◌>>=◌, arith, Ensures,
  holds, died, Ensures-bind, Ensures-if, if◌then◌else◌,
}
use rhyda.Prelude.Bytes.{Bytes}
use rhyda.Fault.{Fault}
use rhyda.Value.Types.{Value}
use rhyda.Keys.Parts.{decode_key}
use rhyda.Storage.Engine.{Rocks}
use rhyda.Storage.Rows.{Store}
use rhyda.Storage.Callbacks.{Keeps, for_each_in_table-Keeps, for_each_in_partition-Keeps}
use rhyda.Query.Filters.{Filter}
use rhyda.Query.Project.{project_decoded, handled, keep_error, handle_entry}
use rhyda.Query.Pages.{
  Selection, Page, first_page, is_behind, visited, visit, pk_restricted, partitions, stops,
  scan_partitions, scan_table, scan,
}

module _ (c : Selection) where
  -- A page that has room, and one that may be full; neither has a key to go on behind.
  abbrev IsOpen : Page → Type 0
  IsOpen p = (p.paging_last_key ≡ none) × (length p.out_rows < c.page_limit)

  abbrev pub IsShort : Page → Type 0
  IsShort p = (p.paging_last_key ≡ none) × (length p.out_rows ≤ c.page_limit)

  -- The row that an entry gives.
  abbrev pub project : Bytes → Bytes → Outcome Fault (Option (List Value))
  project k v = decode_key c.keyspace c.table.name k >>= λ key_parts.
      project_decoded c.table c.selected_idxs c.eq_filters c.in_filters c.key_col_idxs key_parts v

  -- What the callback does with a row on a page that has room: it ends the page once it is full, so
  -- that no later entry is seen.
  abbrev pub step_of : Page → Outcome Fault (Option (List Value)) → Outcome Fault (Bool × Page)
  step_of p (ok none) = ok (true, p)
  step_of p (ok (some row)) =
      let rows = p.out_rows ++ row ∷ [] in
      if ltb (length rows) c.page_limit
      then ok (true, record p { out_rows = rows })
      else ok (false, record p { out_rows = rows; done = true })
  step_of p (err e) = ok (false, record p { error_slot = keep_error p.error_slot e; done = true })
  step_of p panic = panic

  pub visit-step_of :
      (k v : Bytes) (p : Page)
      → length p.out_rows < c.page_limit
      → visit c k v p
        ≡ (if is_behind c.paging_bytes k then step_of p (project k v) else ok (true, p))
  unfolding visit handle_entry
  visit-step_of k v p r = elim (Bool-cases (is_behind c.paging_bytes k)) [
    | inl y ↦ rw y (rw (leb-eq-false c.page_limit (length p.out_rows) r) (stepped (project k v)))
    | inr n ↦ rw n refl
  ]
    where
      stepped :
          (o : Outcome Fault (Option (List Value)))
          → (handled (some c.page_limit) p.out_rows p.error_slot o >>= λ h. ok (visited c k p h))
            ≡ step_of p o
      stepped (ok none) = rw (leb-eq-false c.page_limit (length p.out_rows) r) refl
      stepped (ok (some row)) = ground arith
      stepped (err e) = refl
      stepped panic = refl

  visit-Keeps : (k v : Bytes) (p : Page) → IsOpen p → Keeps IsOpen IsShort (visit c k v p)
  visit-Keeps k v p (l, r) = elim (Bool-cases (is_behind c.paging_bytes k)) [
    | inl y ↦ rw (visit-step_of k v p r, y) (stepped (project k v))
    | inr n ↦ rw (visit-step_of k v p r, n) (holds ((l, omega arith), λ _. (l, r)))
  ]
    where
      stepped : (o : Outcome Fault (Option (List Value))) → Keeps IsOpen IsShort (step_of p o)
      stepped (ok none) = holds ((l, omega arith), λ _. (l, r))
      stepped (ok (some row)) =
          let n = length-append p.out_rows (row ∷ []) in
          Ensures-if (ltb (length (p.out_rows ++ row ∷ [])) c.page_limit)
            (λ y. holds ((l, ground arith), λ _. (l, ground arith)))
            (λ y. holds ((l, omega (arith, n)), λ e. cc))
      stepped (err e) = holds ((l, omega arith), λ e. cc)
      stepped panic = died tt

module _ (rocks : Rocks) (c : Selection) (s : Store rocks) where
  IsOpen-IsShort : (p : Page) → IsOpen c p → IsShort c p
  IsOpen-IsShort p (l, r) = (l, omega arith)

  stops-eq-false : (q : Page) → stops rocks c s q ≡ false → length q.out_rows < c.page_limit
  stops-eq-false q e = ground arith

  scan_partitions-IsShort :
      (ps : List (List Bytes)) (p : Page)
      → IsOpen c p
      → Ensures Unit (IsShort c) (scan_partitions rocks c s ps p)
  unfolding scan_partitions
  scan_partitions-IsShort [] p h = holds (IsOpen-IsShort p h)
  scan_partitions-IsShort (partition ∷ ps) p h =
      Ensures-bind
        (for_each_in_partition-Keeps (IsOpen c) (IsShort c) (IsOpen-IsShort) (visit c)
          (visit-Keeps c) rocks s c.keyspace c.table.name partition p h)
        λ (go_on, q) e (short, more).
          next q (stops rocks c s q) refl short (λ h. scan_partitions-IsShort ps q h)
    where
      next :
          (q : Page) (b : Bool) {r : Outcome Fault Page}
          → stops rocks c s q ≡ b
          → IsShort c q
          → (IsOpen c q → Ensures Unit (IsShort c) r)
          → Ensures Unit (IsShort c) (elim b [ true ↦ ok q | false ↦ r ])
      next q true e h k = holds h
      next q false e (l, r) k = k (l, stops-eq-false q e)

  pub scan-IsShort :
      (filters : List Filter) → 0 < c.page_limit → Ensures Unit (IsShort c) (scan rocks c s filters)
  unfolding scan scan_table
  scan-IsShort filters h =
      Ensures-if (pk_restricted c.table.partition_keys filters)
        (λ y. scan_partitions-IsShort (partitions c.table filters) first_page (refl, h))
        λ n.
          Ensures-bind
            (for_each_in_table-Keeps (IsOpen c) (IsShort c) (IsOpen-IsShort) (visit c)
              (visit-Keeps c) rocks s c.keyspace c.table.name first_page (refl, h))
            λ (go_on, q) e (short, more). holds short
