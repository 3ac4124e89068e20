-- ===== src/Storage/Truncation.antt =====
-- What a truncation leaves for later reads: no row of the table, and every row of other tables.
use rhyda.Prelude.{
  ℕ, zero, suc, ◌+◌, ◌≤◌, ◌<◌, ◌≡◌, ◌≢◌, refl, sym, ap, ap₂, subst, ◌∙◌, true, false, ◌==◌, ==_iff,
  if◌then◌else◌, Bool-cases, inl, inr, List, [], ◌∷◌, ◌++◌, append_assoc, none, some, arith,
}
use rhyda.Prelude.Bytes.{Bytes, starts_with, starts_with-append}
use rhyda.Keys.Parts.{dt_prefix, bang, data_prefix, encode_key}
use rhyda.Keys.Bounds.{prefix_upper_bound, in_range, prefix_upper_bound_exact}
use rhyda.Keys.Tables.{NoBang, data_prefix_disjoint}
use rhyda.Storage.Engine.{Rocks, IsRocks, Write, delete_range, Engine}
use rhyda.Storage.Pipeline.{view}
use rhyda.Storage.Routing.{row_key, row_engine, row_engine-lt}
use rhyda.Storage.Rows.{Storage, Store, cached, send_op, get_row, drain}
use rhyda.Storage.Reads.{answer, get_row_lem, db-drain, cached-drain, view-send_op}
use rhyda.Storage.Removal.{
  cache_clear, send_range, delete_data_prefix, table_prefix, truncate_table,
}

module _ {Db : Type 0} where
  engines-send_op :
      (i j : ℕ) (op : Write) (s : Storage Db) → i ≢ j → (send_op i op s).1.engines j ≡ s.engines j
  unfolding send_op
  engines-send_op i j op s h = ground (arith, ==_iff i j)

  engines-send_range :
      (e left i : ℕ) (start end : Bytes) (s : Storage Db)
      → i < e
      → (send_range e left start end s).1.engines i ≡ s.engines i
  unfolding send_range
  engines-send_range e zero i start end s h = refl
  engines-send_range e (suc left) i start end s h =
      engines-send_range (suc e) left i start end (send_op e (delete_range start end) s).1
        (omega arith)
      ∙ engines-send_op e i (delete_range start end) s λ p. omega arith

  send_range_rest :
      (e left : ℕ) (start end : Bytes) (s : Storage Db)
      → ((send_range e left start end s).1.shards ≡ s.shards)
        × ((send_range e left start end s).1.row_cache ≡ s.row_cache)
  unfolding send_range
  send_range_rest e zero start end s = (refl, refl)
  send_range_rest e (suc left) start end s =
      let t = (send_op e (delete_range start end) s).1 in
      let (a, b) = send_range_rest (suc e) left start end t in
      (a ∙ unfold send_op in refl, b ∙ unfold send_op in refl)

  cached-cache_clear : (ks key : Bytes) (s : Storage Db) → cached ks key (cache_clear s) ≡ none
  unfolding cached cache_clear
  cached-cache_clear ks key s = ground arith

module _ (rocks : Rocks) (laws : IsRocks rocks) where
  view-send_range :
      (e left i : ℕ) (start end : Bytes) (s : Store rocks)
      → e ≤ i
      → i < e + left
      → view rocks ((send_range e left start end s).1.engines i)
        ≡ rocks.write (view rocks (s.engines i)) (delete_range start end)
  unfolding send_range
  view-send_range e zero i start end s h l = absurd (omega arith)
  view-send_range e (suc left) i start end s h l =
      let t = (send_op e (delete_range start end) s).1 in
      elim (Bool-cases (e == i)) [
        | inl y ↦
            let q : e ≡ i = (==_iff e i).0 y in
            ap (view rocks) (engines-send_range (suc e) left i start end t (omega arith))
            ∙ subst
                (λ j.
                  view rocks ((send_op e (delete_range start end) s).1.engines j)
                  ≡ rocks.write (view rocks (s.engines j)) (delete_range start end))
                q (view-send_op rocks laws e (delete_range start end) s)
        | inr n ↦
            let q : e ≢ i = ground arith in
            view-send_range (suc e) left i start end t (omega arith) (omega arith)
            ∙ ap (λ (x : Engine rocks.Db). rocks.write (view rocks x) (delete_range start end))
                (engines-send_op e i (delete_range start end) s q)
      ]

  module _ (ks tb : Bytes) where
    table_prefix_shape : table_prefix ks tb ≡ (dt_prefix ++ (ks ++ (bang ++ tb))) ++ 33 ∷ []
    table_prefix_shape = simp append_assoc

    -- The range of the tombstones holds exactly the keys of the table.
    table_range :
        (end : Bytes) × (prefix_upper_bound (table_prefix ks tb) ≡ some end)
        × ((k : Bytes) → in_range (table_prefix ks tb) end k ≡ starts_with k (table_prefix ks tb))
    table_range =
        subst
          (λ p.
            (end : Bytes) × (prefix_upper_bound p ≡ some end)
            × ((k : Bytes) → in_range p end k ≡ starts_with k p))
          (sym table_prefix_shape)
          (prefix_upper_bound_exact (dt_prefix ++ (ks ++ (bang ++ tb))) 33 (omega arith))

    truncate_table_lem :
        (end : Bytes) (s : Store rocks)
        → prefix_upper_bound (table_prefix ks tb) ≡ some end
        → (truncate_table rocks ks tb s).1
          ≡ cache_clear (send_range 0 s.shards (table_prefix ks tb) end s).1
    unfolding truncate_table delete_data_prefix
    truncate_table_lem end s e =
        rw e (rw (starts_with-append dt_prefix (ks ++ (bang ++ (tb ++ bang)))) refl)

    -- A read of any row once the tombstones have settled.
    read_cleared :
        (ks' tb' end : Bytes) (parts : List Bytes) (ready : ℕ) (s : Store rocks)
        → 0 < s.shards
        → (get_row rocks ks' tb' parts (
            drain rocks ready (cache_clear (send_range 0 s.shards (table_prefix ks tb) end s).1))).0
          ≡ (if in_range (table_prefix ks tb) end (row_key ks' tb' parts)
              then none
              else rocks.get
                  (view rocks (s.engines (row_engine s.shards ks' tb' parts)))
                  (row_key ks' tb' parts))
    unfolding cache_clear drain
    read_cleared ks' tb' end parts ready s h =
        let sent = (send_range 0 s.shards (table_prefix ks tb) end s).1 in
        let i = row_engine s.shards ks' tb' parts in
        let key = row_key ks' tb' parts in
        let same : row_engine sent.shards ks' tb' parts ≡ i =
          ap (λ n. row_engine n ks' tb' parts)
            (send_range_rest 0 s.shards (table_prefix ks tb) end s).0 in
        get_row_lem rocks laws ks' tb' parts (drain rocks ready (cache_clear sent))
        ∙ ap₂ answer
            (cached-drain rocks laws ks' key ready (cache_clear sent)
              ∙ cached-cache_clear ks' key sent)
            (ap (λ d. rocks.get d key)
              (db-drain rocks laws ready (row_engine sent.shards ks' tb' parts) (cache_clear sent)
                ∙ ap (λ i. view rocks (sent.engines i)) same
                ∙ view-send_range 0 s.shards i (table_prefix ks tb) end s (omega arith)
                    (omega (arith, row_engine-lt s.shards ks' tb' parts h))))
        ∙ laws.get-delete_range (view rocks (s.engines i)) (table_prefix ks tb) end key

    -- Where RocksDB accepts every batch and there is an engine: once a truncation of a table has
    -- settled, a read of any row of the table finds nothing, whatever was stored, cached or pending.
    pub get_row-truncate_table :
        (parts : List Bytes) (ready : ℕ) (s : Store rocks)
        → 0 < s.shards
        → (get_row rocks ks tb parts (drain rocks ready (truncate_table rocks ks tb s).1)).0 ≡ none
    unfolding data_prefix row_key
    get_row-truncate_table parts ready s h =
        let (end, u, range) = table_range in
        let key = row_key ks tb parts in
        let inside : in_range (table_prefix ks tb) end key ≡ true =
          range key ∙ starts_with-append (table_prefix ks tb) (encode_key parts) in
        rw (truncate_table_lem end s u) (read_cleared ks tb end parts ready s h ∙ rw inside refl)

    -- Where RocksDB accepts every batch, there is an engine and the four names have no `!`: once a
    -- truncation of a table has settled, a read of a row of another table returns what the row's engine
    -- had accepted.
    pub truncate_table_other :
        (ks' tb' : Bytes) (parts : List Bytes) (ready : ℕ) (s : Store rocks)
        → 0 < s.shards
        → NoBang ks
        → NoBang tb
        → NoBang ks'
        → NoBang tb'
        → ¬ ((ks' ≡ ks) × (tb' ≡ tb))
        → (get_row rocks ks' tb' parts (drain rocks ready (truncate_table rocks ks tb s).1)).0
          ≡ rocks.get
              (view rocks (s.engines (row_engine s.shards ks' tb' parts)))
              (row_key ks' tb' parts)
    unfolding data_prefix row_key
    truncate_table_other ks' tb' parts ready s h a b c d n =
        let (end, u, range) = table_range in
        let key = row_key ks' tb' parts in
        let outside : in_range (table_prefix ks tb) end key ≡ false =
          range key ∙ elim (Bool-cases (starts_with key (table_prefix ks tb))) [
            | inl y ↦ absurd (n (data_prefix_disjoint ks' tb' ks tb (encode_key parts) c d a b y))
            | inr m ↦ m
          ] in
        rw (truncate_table_lem end s u) (read_cleared ks' tb' end parts ready s h ∙ rw outside refl)
