-- ===== src/Storage/Seeded.antt =====
-- What `seed_system` in src/storage.rs finds when a storage is opened again.
use rhyda.Prelude.{ℕ, ◌≡◌, ◌≢◌, refl, sym, ap, ◌∙◌, subst, Option, none, some, ok, err, panic}
use rhyda.Prelude.Bytes.{Bytes, codes}
use rhyda.Schema.Types.{KeyspaceDef}
use rhyda.Storage.Engine.{Rocks, IsRocks, Engine}
use rhyda.Storage.Rows.{Store}
use rhyda.Storage.Catalogue.{
  Json, keyspace_key, get_keyspace, cache_keyspace, keyspace_parsed, keyspace_stored,
  keyspace_cached,
}
use rhyda.Storage.Seed.{made_if, seed_missing, seed_system, Seeded, on_seeded}
use rhyda.Storage.Making.{
  catalogue, Stored, IsCoherent, Makes, ParsesBack, cache_keyspace-IsCoherent, seed_local-Makes,
  seed_schema-Makes, seed_virtual-Makes,
}

module _ (rocks : Rocks) (laws : IsRocks rocks) (json : Json) where
  -- What a look-up does, and the making if it found nothing, by what the look-up meets.
  module _ (name : Bytes) (make : Store rocks → Store rocks) (s t : Store rocks)
      (makes : (u : Store rocks)
        → IsCoherent rocks laws json u
        → Makes rocks laws json name u (make u))
      (c : IsCoherent rocks laws json s) where
    parsed-Makes :
        (bytes : Bytes) (o : Option KeyspaceDef)
        → rocks.get (catalogue rocks s) (keyspace_key name) ≡ some bytes
        → json.to_keyspace bytes ≡ o
        → made_if rocks json make (keyspace_parsed rocks json name s o) ≡ (ok tt, t)
        → Makes rocks laws json name s t
    parsed-Makes bytes none g p e = cc
    parsed-Makes bytes (some ks) g p e =
        let m : Stored rocks laws json (catalogue rocks s) name = (bytes, ks, g, p) in
        subst (Makes rocks laws json name s) (ap (λ x. x.1) e) (
          cache_keyspace-IsCoherent rocks laws json name ks s c m,
          unfold cache_keyspace in m,
          unfold cache_keyspace in λ other h. h,
        )

    stored-Makes :
        (o : Option Bytes)
        → rocks.get (catalogue rocks s) (keyspace_key name) ≡ o
        → made_if rocks json make (keyspace_stored rocks json name s o) ≡ (ok tt, t)
        → Makes rocks laws json name s t
    stored-Makes none g e = subst (Makes rocks laws json name s) (ap (λ x. x.1) e) (makes s c)
    stored-Makes (some bytes) g e = parsed-Makes bytes (json.to_keyspace bytes) g refl e

    cached-Makes :
        (o : Option KeyspaceDef)
        → s.keyspaces name ≡ o
        → made_if rocks json make (keyspace_cached rocks json name s o) ≡ (ok tt, t)
        → Makes rocks laws json name s t
    cached-Makes none k e = stored-Makes _ refl e
    cached-Makes (some ks) k e =
        subst (Makes rocks laws json name s) (ap (λ x. x.1) e) (c, c name ks k, λ other h. h)

    seed_missing-Makes :
        seed_missing rocks json name make s ≡ (ok tt, t) → Makes rocks laws json name s t
    unfolding seed_missing get_keyspace
    seed_missing-Makes e = cached-Makes (s.keyspaces name) refl e

  -- A run that succeeds and writes nothing.
  abbrev Rests : Store rocks → Seeded rocks json → Type 0
  Rests s r = (t : Store rocks) × (r ≡ (ok tt, t)) × (t.engines ≡ s.engines)

  -- A keyspace that is stored is not made again.
  module _ (name : Bytes) (make : Store rocks → Store rocks) (s : Store rocks)
      (m : Stored rocks laws json (catalogue rocks s) name) where
    stored-Rests : Rests s (
        made_if rocks json make
          (keyspace_stored rocks json name s (rocks.get (catalogue rocks s) (keyspace_key name))))
    stored-Rests =
        let (bytes, ks, g, p) = m in
        rw (g, p) (cache_keyspace name ks s, refl, unfold cache_keyspace in refl)

    cached-Rests :
        (o : Option KeyspaceDef)
        → Rests s (made_if rocks json make (keyspace_cached rocks json name s o))
    cached-Rests none = stored-Rests
    cached-Rests (some ks) = (s, refl, refl)

    seed_missing-Rests : Rests s (seed_missing rocks json name make s)
    unfolding seed_missing get_keyspace
    seed_missing-Rests = cached-Rests (s.keyspaces name)

  on_seeded-ok :
      (r : Seeded rocks json) (f : Store rocks → Seeded rocks json) (t : Store rocks)
      → on_seeded rocks json r f ≡ (ok tt, t)
      → (u : Store rocks) × (r ≡ (ok tt, u)) × (f u ≡ (ok tt, t))
  on_seeded-ok (ok x, u) f t e = (u, refl, e)
  on_seeded-ok (err x, u) f t e = cc
  on_seeded-ok (panic, u) f t e = cc

  on_seeded-Rests :
      (s : Store rocks) (r : Seeded rocks json) (f : Store rocks → Seeded rocks json)
      → Rests s r
      → ((t : Store rocks) → t.engines ≡ s.engines → Rests t (f t))
      → Rests s (on_seeded rocks json r f)
  on_seeded-Rests s r f (t, e, k) g = let (u, e', k') = g t k in (u, rw e e', k' ∙ k)

  none-≢-some : {ks : KeyspaceDef} → ◌≢◌ {A = Option KeyspaceDef} none (some ks)
  none-≢-some e = cc

  Stored-same :
      (u x : Store rocks) (name : Bytes)
      → x.engines ≡ u.engines
      → Stored rocks laws json (catalogue rocks u) name
      → Stored rocks laws json (catalogue rocks x) name
  Stored-same u x name e m =
      subst (λ (f : ℕ → Engine rocks.Db). Stored rocks laws json (f 0).db name) (sym e) m

  -- The second store has every keyspace that the first has in its catalogue.
  abbrev pub Inherits : Store rocks → Store rocks → Type 0
  Inherits t u =
      (name bytes : Bytes)
      → rocks.get (catalogue rocks t) (keyspace_key name) ≡ some bytes
      → rocks.get (catalogue rocks u) (keyspace_key name) ≡ some bytes

  Inherits-Stored :
      (t u : Store rocks) (name : Bytes)
      → Inherits t u
      → Stored rocks laws json (catalogue rocks t) name
      → Stored rocks laws json (catalogue rocks u) name
  Inherits-Stored t u name i (bytes, ks, g, p) = (bytes, ks, i name bytes g, p)

  -- Let `seed_system` succeed on a storage that was opened, whose cache of keyspaces is empty, over any
  -- content of the engines. When a storage is opened later on engines whose catalogue still has the
  -- JSON of each keyspace that the catalogue had then, whatever else has changed and whatever is
  -- cached, `seed_system` succeeds again and writes nothing to any engine, with any identifiers
  -- drawn for the host and the schema. RocksDB reads what it was last given for a key, and the JSON of
  -- a keyspace without replication is parsed to the keyspace.
  pub seed_system_reopened :
      ParsesBack rocks laws json
      → (host_id schema_version host_id2 schema_version2 : Bytes) (s t u : Store rocks)
      → ((name : Bytes) → s.keyspaces name ≡ none)
      → seed_system rocks json host_id schema_version s ≡ (ok tt, t)
      → Inherits t u
      → (w : Store rocks) × (seed_system rocks json host_id2 schema_version2 u ≡ (ok tt, w))
        × (w.engines ≡ u.engines)
  unfolding seed_system
  seed_system_reopened parses h v h2 v2 s t u empty e i =
      let c0 : IsCoherent rocks laws json s =
        λ name ks k. absurd (none-≢-some (sym (empty name) ∙ k)) in
      let (a, ea, ra) = on_seeded-ok _ _ t e in
      let (b, eb, et) = on_seeded-ok _ _ t ra in
      let (ca, ma, ka) =
        seed_missing-Makes (codes "system") _ s a (seed_local-Makes rocks laws json parses h v) c0
          ea in
      let (cb, mb, kb) =
        seed_missing-Makes (codes "system_schema") _ a b (seed_schema-Makes rocks laws json parses)
          ca eb in
      let (ct, mt, kt) =
        seed_missing-Makes (codes "system_virtual_schema") _ b t
          (seed_virtual-Makes rocks laws json parses) cb et in
      let system : Stored rocks laws json (catalogue rocks u) (codes "system") =
        Inherits-Stored t u _ i (kt _ (kb _ ma)) in
      let schema : Stored rocks laws json (catalogue rocks u) (codes "system_schema") =
        Inherits-Stored t u _ i (kt _ mb) in
      let virtual : Stored rocks laws json (catalogue rocks u) (codes "system_virtual_schema") =
        Inherits-Stored t u _ i mt in
      on_seeded-Rests u _ _ (seed_missing-Rests (codes "system") _ u system) λ x kx.
        on_seeded-Rests x _ _
          (seed_missing-Rests (codes "system_schema") _ x (Stored-same u x _ kx schema))
          λ y ky.
            seed_missing-Rests (codes "system_virtual_schema") _ y
              (Stored-same u y _ (ky ∙ kx) virtual)
