-- ===== src/Examples/Seeds.antt =====
-- Runs of the seeding of the system keyspaces.
use rhyda.Prelude.{[], none, some, ◌≡◌, refl, ok}
use rhyda.Prelude.Bytes.{codes, bytes_lt}
use rhyda.Storage.Routing.{should_cache, data_engine, engine_of, fnv1a}
use rhyda.Storage.Rows.{Store, put_row_sync, write_now, cache_insert}
use rhyda.Storage.Catalogue.{
  Json, forget, get_keyspace, put_keyspace, put_table, cache_keyspace, cache_table,
}
use rhyda.Storage.Seed.{bare, seed_missing, seed_local, seed_schema, seed_virtual, seed_system}
use rhyda.Storage.Seeded.{Inherits, seed_system_reopened}
use rhyda.Examples.Rocks.{mem_rocks, mem_laws}
use rhyda.Examples.Store.{busy_store}

-- The JSON of a keyspace without replication, as if it were its name alone.
abbrev name_json : Json
name_json = record {
  of_keyspace = λ ks. ks.name;
  to_keyspace = λ b. some (bare b);
  of_table = λ tb. [];
  to_table = λ b. none;
}

abbrev seeded_store : Store mem_rocks
seeded_store = (seed_system mem_rocks name_json (codes "host") (codes "version") busy_store).1

seeds :
    seed_system mem_rocks name_json (codes "host") (codes "version") busy_store
    ≡ (ok tt, seeded_store)
unfolding seed_system seed_missing seed_local seed_schema seed_virtual get_keyspace put_keyspace
    put_table cache_keyspace cache_table put_row_sync write_now cache_insert should_cache
    data_engine engine_of fnv1a bytes_lt
seeds = refl

seed_system_reopened_example :
    (w : Store mem_rocks) × (seed_system mem_rocks name_json
        (codes "other")
        (codes "version")
        (forget seeded_store)
      ≡ (ok tt, w))
    × (w.engines ≡ (forget seeded_store).engines)
seed_system_reopened_example =
    seed_system_reopened mem_rocks mem_laws name_json (λ name. refl) (codes "host")
      (codes "version") (codes "other") (codes "version") busy_store seeded_store
      (forget seeded_store) (λ name. refl) seeds inherits
  where
    inherits : Inherits mem_rocks mem_laws name_json seeded_store (forget seeded_store)
    inherits = unfold forget in λ name bytes g. g
