-- ===== src/Storage/Scan.antt =====
-- src/storage.rs: the scans of an engine, of a table over all engines, and of a partition.
use rhyda.Prelude.{
  ℕ, zero, suc, Bool, true, false, not, if◌then◌else◌, List, [], ◌∷◌, ◌++◌, Outcome, ok, ◌>>=◌,
}
use rhyda.Prelude.Bytes.{Bytes, starts_with}
use rhyda.Keys.Parts.{data_prefix, encode_key}
use rhyda.Storage.Engine.{Rocks}
use rhyda.Storage.Routing.{data_engine, first_part}
use rhyda.Storage.Rows.{Store}

-- A callback on a key, a value and what it has gathered: whether the scan goes on, and the new state.
-- It can panic.
abbrev pub Callback : Type 0 → Type 0 → Type 0
Callback E S = Bytes → Bytes → S → Outcome E (Bool × S)

-- `for item in iter`: up to the first key without the prefix, or until the callback returns false.
-- The Boolean of the result says that the callback has not.
unfoldable pub stream :
    {E S : Type 0} → Callback E S → Bytes → List (Bytes × Bytes) → S → Outcome E (Bool × S)
stream f prefix [] s = ok (true, s)
stream f prefix ((k, v) ∷ items) s =
    if not (starts_with k prefix)
    then ok (true, s)
    else (f k v s >>= λ (go_on, t). elim go_on [
      | true ↦ stream f prefix items t
      | false ↦ ok (false, t)
    ])

-- `out.push((k, v)); true`
abbrev pub push_entry : {E : Type 0} → Callback E (List (Bytes × Bytes))
push_entry k v out = ok (true, out ++ (k, v) ∷ [])

module _ (rocks : Rocks) where
  unfoldable pub for_each_on_engine :
      {E S : Type 0} → ℕ → Bytes → Callback E S → Store rocks → S → Outcome E (Bool × S)
  unfolding stream
  for_each_on_engine engine prefix f s state =
      stream f prefix (rocks.iterator_from (s.engines engine).db prefix) state

  -- `for engine in 0..self.dbs.len()`: `left` engines from `engine` on, until the callback stops.
  unfoldable pub for_each_engine :
      {E S : Type 0} → ℕ → ℕ → Bytes → Callback E S → Store rocks → S → Outcome E (Bool × S)
  unfolding for_each_on_engine
  for_each_engine engine zero prefix f s state = ok (true, state)
  for_each_engine engine (suc left) prefix f s state =
      for_each_on_engine engine prefix f s state >>= λ (go_on, t). elim go_on [
        | true ↦ for_each_engine (suc engine) left prefix f s t
        | false ↦ ok (false, t)
      ]

  unfoldable pub for_each_in_table :
      {E S : Type 0} → Bytes → Bytes → Callback E S → Store rocks → S → Outcome E (Bool × S)
  unfolding for_each_engine
  for_each_in_table keyspace table f s = for_each_engine 0 s.shards (data_prefix keyspace table) f s

  unfoldable pub for_each_in_partition :
      {E S : Type 0}
      → Bytes
      → Bytes
      → List Bytes
      → Callback E S
      → Store rocks
      → S
      → Outcome E (Bool × S)
  unfolding for_each_on_engine
  for_each_in_partition keyspace table partition f s =
      for_each_on_engine (data_engine s.shards keyspace table (first_part partition))
        (data_prefix keyspace table ++ encode_key partition) f s

  -- Metadata lies on engine 0.
  unfoldable pub scan_prefix :
      {E : Type 0} → Bytes → Store rocks → Outcome E (Bool × List (Bytes × Bytes))
  unfolding for_each_on_engine
  scan_prefix prefix s = for_each_on_engine 0 prefix push_entry s []

  unfoldable pub scan_rows :
      {E : Type 0} → Bytes → Bytes → Store rocks → Outcome E (Bool × List (Bytes × Bytes))
  unfolding for_each_in_table
  scan_rows keyspace table s = for_each_in_table keyspace table push_entry s []

  unfoldable pub scan_partition :
      {E : Type 0}
      → Bytes
      → Bytes
      → List Bytes
      → Store rocks
      → Outcome E (Bool × List (Bytes × Bytes))
  unfolding for_each_in_partition
  scan_partition keyspace table partition s =
      for_each_in_partition keyspace table partition push_entry s []
