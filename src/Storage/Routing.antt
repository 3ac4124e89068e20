-- ===== src/Storage/Routing.antt =====
-- src/storage.rs: which engine holds a row.
use Prim.Native.Nat.{bit_xor}
use rhyda.Prelude.{
  ℕ, ◌*◌, ◌%◌, ◌^◌, ◌<◌, ◌≡◌, refl, Bool, leb, not, ◌&&◌, if◌then◌else◌, List, [], ◌∷◌, ◌++◌, arith,
}
use rhyda.Prelude.Bytes.{Bytes, bytes_eq, codes}
use rhyda.Keys.Parts.{dt_prefix, bang, data_prefix, encode_key}

-- `h ^= b; h = h.wrapping_mul(0x100000001b3)`
unfoldable pub fnv1a_loop : ℕ → Bytes → ℕ
fnv1a_loop h [] = h
fnv1a_loop h (b ∷ bs) = fnv1a_loop (bit_xor h b * 0x100000001b3 % 2 ^ 64) bs

unfoldable pub fnv1a : Bytes → ℕ
unfolding fnv1a_loop
fnv1a bytes = fnv1a_loop 0xcbf29ce484222325 bytes

-- `engine_of` of a storage with `shards` engines.
unfoldable pub engine_of : ℕ → Bytes → ℕ
engine_of shards routing_key = if leb shards 1 then 0 else fnv1a routing_key % shards

unfoldable pub data_engine : ℕ → Bytes → Bytes → Bytes → ℕ
data_engine shards keyspace table first_part =
    engine_of shards (dt_prefix ++ (keyspace ++ (bang ++ (table ++ (bang ++ first_part)))))

-- `key_parts.first().map(|p| p.as_slice()).unwrap_or(&[])`
abbrev pub first_part : List Bytes → Bytes
first_part [] = []
first_part (p ∷ ps) = p

-- The address of a row: its key, and the engine that holds it.
unfoldable pub row_key : Bytes → Bytes → List Bytes → Bytes
row_key keyspace table key_parts = data_prefix keyspace table ++ encode_key key_parts

unfoldable pub row_engine : ℕ → Bytes → Bytes → List Bytes → ℕ
row_engine shards keyspace table key_parts =
    data_engine shards keyspace table (first_part key_parts)

unfoldable pub should_cache : Bytes → Bool
should_cache keyspace =
    not (bytes_eq keyspace (codes "system"))
    && (not (bytes_eq keyspace (codes "system_schema"))
        && not (bytes_eq keyspace (codes "system_virtual_schema")))

-- The index is that of an engine, whatever is routed.
engine_of-lt : (shards : ℕ) (k : Bytes) → 0 < shards → engine_of shards k < shards
unfolding engine_of
engine_of-lt shards k h = ground arith

-- All rows of a partition lie on one engine: the parts behind the first do not matter.
pub row_engine_partition :
    (shards : ℕ) (ks tb p : Bytes) (ps qs : List Bytes)
    → row_engine shards ks tb (p ∷ ps) ≡ row_engine shards ks tb (p ∷ qs)
unfolding row_engine
row_engine_partition shards ks tb p ps qs = refl

pub row_engine-lt :
    (shards : ℕ) (ks tb : Bytes) (parts : List Bytes)
    → 0 < shards
    → row_engine shards ks tb parts < shards
unfolding row_engine data_engine
row_engine-lt shards ks tb parts h = engine_of-lt shards _ h
