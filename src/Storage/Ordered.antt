-- ===== src/Storage/Ordered.antt =====
-- What a scan of an engine meets: the entries with the prefix, all of them, in the order of the keys.
use rhyda.Prelude.{
  ◌≡◌, ◌↔◌, refl, sym, ap, ◌∙◌, Bool, true, false, if◌then◌else◌, Bool-cases, inl, inr, List, [],
  ◌∷◌, ◌++◌, append_assoc, append-nil, All, Option, none, some, ok, arith,
}
use rhyda.Prelude.Bytes.{Bytes, bytes_eq, bytes_eq_iff, bytes_lt, starts_with}
use rhyda.Keys.Bounds.{starts_with_ge}
use rhyda.Keys.Parts.{data_prefix}
use rhyda.Keys.RoundTrip.{Short}
use rhyda.Keys.Prefixes.{partition_scan}
use rhyda.Storage.Engine.{Rocks}
use rhyda.Storage.Routing.{data_engine, first_part, row_key}
use rhyda.Storage.Rows.{Store}
use rhyda.Storage.Scan.{stream, push_entry, for_each_in_partition, scan_partition}

abbrev pub entry_at : Bytes → List (Bytes × Bytes) → Option Bytes
entry_at k [] = none
entry_at k ((j, w) ∷ es) = if bytes_eq j k then some w else entry_at k es

-- Ascending keys.
abbrev pub IsAscending : List (Bytes × Bytes) → Type 0
IsAscending [] = Unit
IsAscending ((j, w) ∷ es) = All (λ (k, v). bytes_lt j k ≡ true) es × IsAscending es

-- No key is below the start.
abbrev pub AllFrom : Bytes → List (Bytes × Bytes) → Type 0
AllFrom p = All (λ (k, v). bytes_lt k p ≡ false)

-- The documented answer of the iterator: the entries from the key `start` on, in ascending order.
pub record Iterates (get : Bytes → Option Bytes) (start : Bytes) (es : List (Bytes × Bytes))
    : Type 0 where
  pub ascending : IsAscending es
  pub from_start : AllFrom start es
  pub complete : (k : Bytes) → entry_at k es ≡ (if bytes_lt k start then none else get k)

abbrev pub with_prefix : Bytes → List (Bytes × Bytes) → List (Bytes × Bytes)
with_prefix p [] = []
with_prefix p ((k, v) ∷ es) =
    let rest = with_prefix p es in if starts_with k p then (k, v) ∷ rest else []

-- A scan that pushes every entry gathers those up to the first key without the prefix.
stream-push_entry :
    {E : Type 0} (p : Bytes) (es out : List (Bytes × Bytes))
    → stream {E = E} (push_entry) p es out ≡ ok (true, out ++ with_prefix p es)
unfolding stream
stream-push_entry p [] out = ap (λ t. ok (true, t)) (sym (append-nil out))
stream-push_entry p ((k, v) ∷ es) out = elim (Bool-cases (starts_with k p)) [
  | inl y ↦ rw y (
      stream-push_entry p es (out ++ (k, v) ∷ [])
      ∙ ap (λ t. ok (true, t)) (append_assoc out ((k, v) ∷ []) (with_prefix p es)))
  | inr n ↦ rw n (ap (λ t. ok (true, t)) (sym (append-nil out)))
]

-- Between the first key with the prefix and the first key behind them there is no other.
prefix_gap :
    (p j k : Bytes)
    → bytes_lt j p ≡ false
    → starts_with j p ≡ false
    → bytes_lt j k ≡ true
    → starts_with k p ≡ false
unfolding starts_with bytes_lt
prefix_gap [] j k a b c = cc
prefix_gap (x ∷ p) [] k a b c = cc
prefix_gap (x ∷ p) (y ∷ j) [] a b c = refl
prefix_gap (x ∷ p) (y ∷ j) (z ∷ k) a b c = ground (arith, prefix_gap p j k)

All-above :
    (p j k : Bytes) (es : List (Bytes × Bytes))
    → All (λ (i, v). bytes_lt j i ≡ true) es
    → bytes_lt j p ≡ false
    → starts_with j p ≡ false
    → starts_with k p ≡ true
    → entry_at k es ≡ none
All-above p j k [] h a b c = refl
All-above p j k ((i, v) ∷ es) (h, hs) a b c = elim (Bool-cases (bytes_eq i k)) [
  | inl y ↦
      let e : i ≡ k = (bytes_eq_iff i k).0 y in
      let g = prefix_gap p j i a b h in absurd (ground (arith, rw e at g))
  | inr n ↦ rw n (All-above p j k es hs a b c)
]

entry_at-with_prefix :
    (p k : Bytes) (es : List (Bytes × Bytes))
    → IsAscending es
    → AllFrom p es
    → entry_at k (with_prefix p es) ≡ (if starts_with k p then entry_at k es else none)
entry_at-with_prefix p k [] a f = ground arith
entry_at-with_prefix p k ((j, w) ∷ es) (h, a) (g, f) = elim (Bool-cases (starts_with j p)) [
  | inl y ↦ elim (Bool-cases (bytes_eq j k)) [
    | inl e ↦ let q : j ≡ k = (bytes_eq_iff j k).0 e in rw (y, e, rw q at y) refl
    | inr n ↦ rw (y, n) (entry_at-with_prefix p k es a f)
  ]
  | inr n ↦ elim (Bool-cases (starts_with k p)) [
    | inl y ↦ elim (Bool-cases (bytes_eq j k)) [
      | inl e ↦ let q : j ≡ k = (bytes_eq_iff j k).0 e in absurd (ground (arith, rw q at n))
      | inr m ↦ rw (n, y, m) (sym (All-above p j k es h g n y))
    ]
    | inr y ↦ rw (n, y) refl
  ]
]

with_prefix-All :
    (p j : Bytes) (es : List (Bytes × Bytes))
    → All (λ (k, v). bytes_lt j k ≡ true) es
    → All (λ (k, v). bytes_lt j k ≡ true) (with_prefix p es)
with_prefix-All p j [] h = tt
with_prefix-All p j ((k, v) ∷ es) (h, hs) = elim (Bool-cases (starts_with k p)) [
  | inl y ↦ rw y (h, with_prefix-All p j es hs)
  | inr n ↦ rw n tt
]

with_prefix-IsAscending :
    (p : Bytes) (es : List (Bytes × Bytes)) → IsAscending es → IsAscending (with_prefix p es)
with_prefix-IsAscending p [] a = tt
with_prefix-IsAscending p ((k, v) ∷ es) (h, a) = elim (Bool-cases (starts_with k p)) [
  | inl y ↦ rw y (with_prefix-All p k es h, with_prefix-IsAscending p es a)
  | inr n ↦ rw n tt
]

-- An iteration cut off at the first key without the prefix has exactly the entries with the prefix.
entry_at-Iterates :
    (get : Bytes → Option Bytes) (p k : Bytes) (es : List (Bytes × Bytes))
    → Iterates get p es
    → entry_at k (with_prefix p es) ≡ (if starts_with k p then get k else none)
entry_at-Iterates get p k es it =
    entry_at-with_prefix p k es it.ascending it.from_start ∙ elim (Bool-cases (starts_with k p)) [
      | inl y ↦ rw y (it.complete k ∙ rw (starts_with_ge k p y) refl)
      | inr n ↦ rw n refl
    ]

module _ (rocks : Rocks) (ks tb : Bytes) (partition : List Bytes) (s : Store rocks) where
  abbrev pub partition_db : rocks.Db
  partition_db = (s.engines (data_engine s.shards ks tb (first_part partition))).db

  -- Where the iterator of the partition's engine answers as documented and the parts of the keys are
  -- shorter than 2 ^ 16: a scan of a partition ends without an error, meets the keys in ascending
  -- order, and meets the row of an address with a value exactly when the engine has the value and the
  -- address begins with the partition's parts.
  pub scan_partition-row :
      {E : Type 0} (es : List (Bytes × Bytes))
      → rocks.iterator_from partition_db (row_key ks tb partition) ≡ es
      → Iterates (rocks.get partition_db) (row_key ks tb partition) es
      → All Short partition
      → (rows : List (Bytes × Bytes)) × (scan_partition rocks {E = E} ks tb partition s
          ≡ ok (true, rows))
        × IsAscending rows
        × ((parts : List Bytes) (v : Bytes)
            → All Short parts
            → (entry_at (row_key ks tb parts) rows ≡ some v) ↔ (
                (rocks.get partition_db (row_key ks tb parts) ≡ some v)
                × ((rest : List Bytes) × (parts ≡ partition ++ rest))))
  unfolding scan_partition for_each_in_partition row_key
  scan_partition-row {E} es e it short = (
    with_prefix (row_key ks tb partition) es,
    rw e (stream-push_entry (row_key ks tb partition) es []),
    with_prefix-IsAscending (row_key ks tb partition) es it.ascending,
    λ parts v sp. both parts v sp,
  )
    where
      if-some :
          (b : Bool) (o : Option Bytes) (v : Bytes)
          → ((if b then o else none) ≡ some v) ↔ ((o ≡ some v) × (b ≡ true))
      if-some true o v = (λ h. (h, refl), λ h. h.0)
      if-some false o v = (λ h. cc, λ h. cc)

      both :
          (parts : List Bytes) (v : Bytes)
          → All Short parts
          → (entry_at (row_key ks tb parts) (with_prefix (row_key ks tb partition) es) ≡ some v) ↔ (
              (rocks.get partition_db (row_key ks tb parts) ≡ some v)
              × ((rest : List Bytes) × (parts ≡ partition ++ rest)))
      both parts v sp =
          let (f, g) = partition_scan (data_prefix ks tb) partition parts short sp in
          let (i, j) =
            if-some (starts_with (row_key ks tb parts) (row_key ks tb partition))
              (rocks.get partition_db (row_key ks tb parts)) v in
          let a =
            entry_at-Iterates (rocks.get partition_db) (row_key ks tb partition)
              (row_key ks tb parts) es it in
          (λ h. let (u, w) = i (sym a ∙ h) in (u, f w), λ (u, w). a ∙ j (u, g w))
