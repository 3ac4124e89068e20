-- ===== src/Storage/Making.antt =====
-- What the steps of `seed_system` in src/storage.rs leave in the catalogue.
use rhyda.Prelude.{
  ℕ, ◌≡◌, refl, sym, ap, ◌∙◌, subst, ◌==◌, Bool, true, false, Bool-cases, inl, inr, if◌then◌else◌,
  List, [], ◌∷◌, ◌++◌, some, arith,
}
use rhyda.Prelude.Bytes.{Bytes, bytes_eq, bytes_eq_iff, codes}
use rhyda.Schema.Types.{KeyspaceDef, TableDef}
use rhyda.Keys.Parts.{data_prefix, encode_key}
use rhyda.Storage.Engine.{Rocks, IsRocks, Write, put, Engine}
use rhyda.Storage.Routing.{data_engine, first_part}
use rhyda.Storage.Rows.{Store, put_row_sync, write_now, cache_insert}
use rhyda.Storage.Catalogue.{
  Json, keyspace_key, put_keyspace, put_table, cache_keyspace, cache_table,
}
use rhyda.Storage.Reads.{bytes_eq_refl}
use rhyda.Storage.Seed.{
  bare, put_tables, seed_local, seed_schema, seed_virtual, sys_schema_defs, local_row,
}
use rhyda.Storage.Seed.System.{local_def, peers_def, vs_keyspaces}
use rhyda.Rows.Columns.{encode_row_columns}

module _ (rocks : Rocks) where
  -- The database of engine 0, which has the catalogue.
  abbrev pub catalogue : Store rocks → rocks.Db
  catalogue s = (s.engines 0).db

  -- A write on some engine reaches the catalogue or does not.
  catalogue-write_now :
      (P : rocks.Db → Type 0) (i : ℕ) (op : Write) (s : Store rocks)
      → P (catalogue s)
      → P (rocks.write (catalogue s) op)
      → P (catalogue (write_now rocks i op s))
  unfolding write_now
  catalogue-write_now P i op s h w = either (i == 0)
    where
      either :
          (b : Bool)
          → P
              (if b
                then (record (s.engines 0) { db = rocks.write (catalogue s) op })
                else (s.engines 0)).db
      either true = w
      either false = h

  engines-cache_insert :
      (ks key v : Bytes) (s : Store rocks) → (cache_insert ks key v s).engines ≡ s.engines
  unfolding cache_insert
  engines-cache_insert ks key v s = ground arith

module _ (rocks : Rocks) (laws : IsRocks rocks) (json : Json) where
  -- The database has the JSON of a keyspace under the key of the name.
  abbrev pub Stored : rocks.Db → Bytes → Type 0
  Stored db name =
      (bytes : Bytes) × (ks : KeyspaceDef) × (rocks.get db (keyspace_key name) ≡ some bytes)
      × (json.to_keyspace bytes ≡ some ks)

  -- What the cache has of keyspaces is stored too.
  abbrev pub IsCoherent : Store rocks → Type 0
  IsCoherent s =
      (name : Bytes) (ks : KeyspaceDef)
      → s.keyspaces name ≡ some ks
      → Stored (catalogue rocks s) name

  abbrev pub Keeps : Store rocks → Store rocks → Type 0
  Keeps s t = (name : Bytes) → Stored (catalogue rocks s) name → Stored (catalogue rocks t) name

  -- A step that makes or forgets no keyspace.
  abbrev pub Passes : Store rocks → Store rocks → Type 0
  Passes s t = (t.keyspaces ≡ s.keyspaces) × Keeps s t

  Passes-Passes : (s t u : Store rocks) → Passes s t → Passes t u → Passes s u
  Passes-Passes s t u (e, k) (e', k') = (e' ∙ e, λ name h. k' name (k name h))

  -- A write under another key.
  write_other :
      (db : rocks.Db) (k v name : Bytes)
      → bytes_eq k (keyspace_key name) ≡ false
      → Stored db name
      → Stored (rocks.write db (put k v)) name
  write_other db k v name n (bytes, ks, g, p) =
      (bytes, ks, laws.get-put db k v (keyspace_key name) ∙ rw n g, p)

  put_table-Passes : (def : TableDef) (s : Store rocks) → Passes s (put_table rocks json def s)
  unfolding put_table cache_table
  put_table-Passes def s = (
    unfold write_now in refl,
    λ name h.
        catalogue-write_now rocks (λ db. Stored db name) 0 _ s h
          (write_other (catalogue rocks s) _ _ name refl h),
  )

  put_row_sync-Passes :
      (ks tb : Bytes) (parts : List Bytes) (v : Bytes) (s : Store rocks)
      → Passes s (put_row_sync rocks ks tb parts v s)
  unfolding put_row_sync data_prefix
  put_row_sync-Passes ks tb parts v s = (
    unfold write_now cache_insert in ground arith,
    λ name h.
        let key = data_prefix ks tb ++ encode_key parts in
        let engine = data_engine s.shards ks tb (first_part parts) in
        subst (λ (f : ℕ → Engine rocks.Db). Stored (f 0).db name)
          (sym (engines-cache_insert rocks ks key v (write_now rocks engine (put key v) s)))
          (catalogue-write_now rocks (λ db. Stored db name) engine (put key v) s h
            (write_other (catalogue rocks s) key v name refl h)),
  )

  put_tables-Passes :
      (defs : List TableDef) (s : Store rocks) → Passes s (put_tables rocks json defs s)
  put_tables-Passes [] s = (refl, λ name h. h)
  put_tables-Passes (def ∷ defs) s =
      Passes-Passes s (put_table rocks json def s)
        (put_tables rocks json defs (put_table rocks json def s)) (put_table-Passes def s)
        (put_tables-Passes defs (put_table rocks json def s))

  -- A step after which the keyspace is stored, the cache is coherent and no keyspace is lost.
  abbrev pub Makes : Bytes → Store rocks → Store rocks → Type 0
  Makes name s t = IsCoherent t × Stored (catalogue rocks t) name × Keeps s t

  Makes-Passes : (name : Bytes) (s t u : Store rocks) → Makes name s t → Passes t u → Makes name s u
  Makes-Passes name s t u (c, m, k) (e, k') = (
    λ other ks h. k' other (c other ks (ap (λ f. f other) (sym e) ∙ h)),
    k' name m,
    λ other h. k' other (k other h),
  )

  -- A keyspace of the catalogue that is put in the cache.
  pub cache_keyspace-IsCoherent :
      (name : Bytes) (ks : KeyspaceDef) (s : Store rocks)
      → IsCoherent s
      → Stored (catalogue rocks s) name
      → IsCoherent (cache_keyspace name ks s)
  unfolding cache_keyspace
  cache_keyspace-IsCoherent name ks s c m other d h = elim (Bool-cases (bytes_eq name other)) [
    | inl y ↦ rw (← (bytes_eq_iff name other).0 y) m
    | inr n ↦ c other d (rw n at h)
  ]

  -- The JSON of a keyspace without replication, as the system's are, is parsed to the keyspace.
  abbrev pub ParsesBack : Type 0
  ParsesBack = (name : Bytes) → json.to_keyspace (json.of_keyspace (bare name)) ≡ some (bare name)

  module _ (parses : ParsesBack) where
    put_keyspace-Makes :
        (name : Bytes) (s : Store rocks)
        → IsCoherent s
        → Makes name s (put_keyspace rocks json (bare name) s)
    unfolding put_keyspace write_now
    put_keyspace-Makes name s c = (
      cache_keyspace-IsCoherent name (bare name) _ (λ other d h. keeps other (c other d h)) own,
      unfold cache_keyspace in own,
      unfold cache_keyspace in keeps,
    )
      where
        db' : rocks.Db
        db' =
            rocks.write (catalogue rocks s) (put (keyspace_key name) (json.of_keyspace (bare name)))

        own : Stored db' name
        own = (
          json.of_keyspace (bare name),
          bare name,
          laws.get-put _ (keyspace_key name) _ (keyspace_key name)
              ∙ rw (bytes_eq_refl (keyspace_key name)) refl,
          parses name,
        )

        keeps : (other : Bytes) → Stored (catalogue rocks s) other → Stored db' other
        keeps other h = elim (Bool-cases (bytes_eq (keyspace_key name) (keyspace_key other))) [
          | inl y ↦ (
            json.of_keyspace (bare name),
            bare name,
            laws.get-put _ _ _ _ ∙ rw y refl,
            parses name,
          )
          | inr n ↦ write_other (catalogue rocks s) (keyspace_key name) _ other n h
        ]

    pub seed_local-Makes :
        (h v : Bytes) (s : Store rocks)
        → IsCoherent s
        → Makes (codes "system") s (seed_local rocks json h v s)
    unfolding seed_local
    seed_local-Makes h v s c =
        let name = codes "system" in
        let row = encode_row_columns (local_row h v) in
        let a = put_keyspace rocks json (bare name) s in
        let b = put_table rocks json local_def a in
        let d = put_row_sync rocks name (codes "local") (codes "local" ∷ []) row b in
        let made =
          Makes-Passes name s a b (put_keyspace-Makes name s c) (put_table-Passes local_def a) in
        let filled =
          Makes-Passes name s b d made
            (put_row_sync-Passes name (codes "local") (codes "local" ∷ []) row b) in
        Makes-Passes name s d (put_table rocks json peers_def d) filled
          (put_table-Passes peers_def d)

    pub seed_schema-Makes :
        (s : Store rocks)
        → IsCoherent s
        → Makes (codes "system_schema") s (seed_schema rocks json s)
    unfolding seed_schema
    seed_schema-Makes s c =
        let name = codes "system_schema" in
        let a = put_keyspace rocks json (bare name) s in
        Makes-Passes name s a (put_tables rocks json sys_schema_defs a)
          (put_keyspace-Makes name s c) (put_tables-Passes sys_schema_defs a)

    pub seed_virtual-Makes :
        (s : Store rocks)
        → IsCoherent s
        → Makes (codes "system_virtual_schema") s (seed_virtual rocks json s)
    unfolding seed_virtual
    seed_virtual-Makes s c =
        let name = codes "system_virtual_schema" in
        let a = put_keyspace rocks json (bare name) s in
        Makes-Passes name s a (put_table rocks json vs_keyspaces a) (put_keyspace-Makes name s c)
          (put_table-Passes vs_keyspaces a)
