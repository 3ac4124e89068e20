-- ===== src/Query/PointRead.antt =====
-- The point lookup's fast path and the general projection give the same row.
use mathlib.Core.List.{map}
use rhyda.Prelude.{
  ℕ, zero, suc, ◌+◌, ◌≤◌, ◌<◌, ◌^◌, ◌≡◌, ◌≢◌, refl, ap, subst, ◌∙◌, ◌⊎◌, inl, inr, ◌==◌, Bool-cases,
  List, [], ◌∷◌, ◌++◌, length, set, get_elem?, replicate, length-append, length-set,
  length-replicate, position_from, All, arith, Option, none, some, ok, unwrap,
}
use rhyda.Prelude.Bytes.{Bytes, to_be, length-to_be}
use rhyda.Schema.Types.{ColumnDef, TableDef}
use rhyda.Value.Types.{Value, null, to_wire, raw_bytes}
use rhyda.Value.Typing.{HasType}
use rhyda.Value.Reads.{i32_max}
use rhyda.Value.RoundTrip.{from_raw_bytes-raw_bytes}
use rhyda.Rows.Columns.{encode_row_columns}
use rhyda.Rows.RoundTrip.{
  IsStored, assign, encode_row_columns-cons, decode_row_columns-encode_row_columns,
}
use rhyda.Query.Scan.{lookup, or_null, scan_column-encode_row_columns}
use rhyda.Query.Project.{
  collect_values, read_at, point_value, project_fast_point, set_keys, meets_eq, meets_in,
  project_decoded,
}

-- The index is that of a column, and the value is of the column's type.
pub record IsKey (columns : List ColumnDef) (i : ℕ) (v : Value) : Type 0 where
  pub col : ColumnDef
  pub at_index : get_elem? columns i ≡ some col
  pub typed : HasType col.col_type v
  pub small : length (raw_bytes v) < i32_max

-- No two of the pairs have one index.
abbrev pub IsDistinct : List (ℕ × Value) → Type 0
IsDistinct [] = Unit
IsDistinct ((i, v) ∷ xs) = All (λ (j, w). j ≢ i) xs × IsDistinct xs

abbrev pub index_of : ℕ × Value → ℕ
index_of (i, v) = i

abbrev pub part_of : ℕ × Value → Bytes
part_of (i, v) = raw_bytes v

abbrev pub overlay {ℓ} : {A : Type ℓ} → Option A → Option A → Option A
overlay none o = o
overlay (some v) o = some v

-- The value of a column: that of the key, or else that of the row, or else null.
abbrev pub value_at : List (ℕ × Value) → List (ℕ × Value) → ℕ → Value
value_at keys vs i = or_null (overlay (lookup i keys) (lookup i vs))

get_elem?-set_same {ℓ} :
    {A : Type ℓ} (xs : List A) (i : ℕ) (v : A) → i < length xs → get_elem? (set xs i v) i ≡ some v
get_elem?-set_same [] i v h = absurd (omega arith)
get_elem?-set_same (x ∷ xs) zero v h = refl
get_elem?-set_same (x ∷ xs) (suc i) v h = get_elem?-set_same xs i v (omega arith)

get_elem?-set_other {ℓ} :
    {A : Type ℓ} (xs : List A) (i j : ℕ) (v : A) → j ≢ i → get_elem? (set xs j v) i ≡ get_elem? xs i
get_elem?-set_other [] i j v h = refl
get_elem?-set_other (x ∷ xs) zero zero v h = absurd (h refl)
get_elem?-set_other (x ∷ xs) zero (suc j) v h = refl
get_elem?-set_other (x ∷ xs) (suc i) zero v h = refl
get_elem?-set_other (x ∷ xs) (suc i) (suc j) v h = get_elem?-set_other xs i j v λ e. h (ap suc e)

get_elem?-replicate : (n i : ℕ) → i < n → get_elem? (replicate n null) i ≡ some null
get_elem?-replicate zero i h = absurd (omega arith)
get_elem?-replicate (suc n) zero h = refl
get_elem?-replicate (suc n) (suc i) h = get_elem?-replicate n i (omega arith)

lookup_absent : (i : ℕ) (xs : List (ℕ × Value)) → All (λ (j, w). j ≢ i) xs → lookup i xs ≡ none
lookup_absent i [] h = refl
lookup_absent i ((j, w) ∷ xs) (n, h) = ground (arith, lookup_absent i xs h)

-- The row after the pairs are put into it.
pub get_elem?-assign :
    (i : ℕ) (xs : List (ℕ × Value)) (out : List Value)
    → IsDistinct xs
    → i < length out
    → get_elem? (assign xs out) i ≡ overlay (lookup i xs) (get_elem? out i)
get_elem?-assign i [] out d h = refl
get_elem?-assign i ((j, v) ∷ xs) out (a, d) h = elim (Bool-cases (j == i)) [
  | inl y ↦
      let e : j ≡ i = ground arith in
      rw y (
        get_elem?-assign i xs (set out j v) d (omega (arith, length-set out j v))
        ∙ rw e (rw (lookup_absent i xs (rw e at a)) (get_elem?-set_same out i v h)))
  | inr n ↦ rw n (
      get_elem?-assign i xs (set out j v) d (omega (arith, length-set out j v))
      ∙ ap (overlay (lookup i xs)) (get_elem?-set_other out i j v λ e. ground arith))
]

-- One round of the loop over the keys puts a value at its index.
set_keys-raw_bytes :
    (table : TableDef) (keys : List (ℕ × Value)) (row : List Value)
    → All (λ (i, v). IsKey table.columns i v) keys
    → set_keys table (map index_of keys) (map part_of keys) row ≡ ok (assign keys row)
unfolding set_keys read_at
set_keys-raw_bytes table [] row h = refl
set_keys-raw_bytes table ((i, v) ∷ keys) row (k, h) =
    rw (k.at_index, from_raw_bytes-raw_bytes k.col.col_type v k.typed k.small)
      (set_keys-raw_bytes table keys (set row i v) h)

read_at-raw_bytes :
    (table : TableDef) (i : ℕ) (v : Value)
    → IsKey table.columns i v
    → read_at table i (raw_bytes v) ≡ ok v
unfolding read_at
read_at-raw_bytes table i v k =
    rw (k.at_index, from_raw_bytes-raw_bytes k.col.col_type v k.typed k.small)

-- A column of the key is found among the parts, and another is not.
module _ (table : TableDef) (i : ℕ) where
  abbrev KeyCase : ℕ → List (ℕ × Value) → Type 0
  KeyCase n keys =
      ((lookup i keys ≡ none) × (position_from n (λ k. k == i) (map index_of keys) ≡ none))
      ⊎ ((v : Value) × (p : ℕ) × (lookup i keys ≡ some v)
          × (position_from n (λ k. k == i) (map index_of keys) ≡ some (n + p))
          × (get_elem? (map part_of keys) p ≡ some (raw_bytes v))
          × IsKey table.columns i v)

  key_cases :
      (n : ℕ) (keys : List (ℕ × Value))
      → All (λ (j, v). IsKey table.columns j v) keys
      → KeyCase n keys
  key_cases n [] h = inl (refl, refl)
  key_cases n ((j, w) ∷ keys) (k, h) = elim (Bool-cases (j == i)) [
    | inl y ↦
        let e : j ≡ i = ground arith in
        inr
          (w, 0, rw y, rw y (ap some (omega arith)), refl, subst (λ t. IsKey table.columns t w) e k)
    | inr b ↦ elim (key_cases (suc n) keys h) [
      | inl (l, p) ↦ inl (rw b l, rw b p)
      | inr (v, p, l, q, g, c) ↦ inr (v, suc p, rw b l, rw b (q ∙ ap some (omega arith)), g, c)
    ]
  ]

length-assign : (xs : List (ℕ × Value)) (out : List Value) → length (assign xs out) ≡ length out
length-assign [] out = refl
length-assign ((j, v) ∷ xs) out = length-assign xs (set out j v) ∙ length-set out j v

overlay_null :
    (a b : Option Value) → overlay a (overlay b (some null)) ≡ some (or_null (overlay a b))
overlay_null none none = refl
overlay_null none (some v) = refl
overlay_null (some v) b = refl

-- The values that the two projections read of a stored row.
module _ (table : TableDef) (keys vs : List (ℕ × Value))
    (keys_h : All (λ (i, v). IsKey table.columns i v) keys)
    (vs_h : All (λ (i, v). IsStored table.columns i v) vs) (keys_d : IsDistinct keys)
    (vs_d : IsDistinct vs) (fits : length (encode_row_columns vs) < 2 ^ 64) where
  abbrev nulls : List Value
  nulls = replicate (length table.columns) null

  entries_le : (us : List (ℕ × Value)) → length us ≤ length (encode_row_columns us)
  entries_le [] = omega arith
  entries_le ((j, v) ∷ us) = rw (encode_row_columns-cons j v us) (
      omega (
        arith,
        entries_le us,
        length-append (to_be 2 j) (to_wire v ++ encode_row_columns us),
        length-append (to_wire v) (encode_row_columns us),
        length-to_be 2 j,
      ))

  point_value-stored :
      (i : ℕ)
      → point_value table (map index_of keys) (map part_of keys) (encode_row_columns vs) i
        ≡ ok (value_at keys vs i)
  unfolding point_value
  point_value-stored i = elim (key_cases table i 0 keys keys_h) [
    | inl (l, p) ↦
        rw (p, l)
          (scan_column-encode_row_columns (suc (length (encode_row_columns vs))) table i [] vs vs_h
            fits (omega (arith, entries_le vs)))
    | inr (v, p, l, q, g, k) ↦
        let q' = q ∙ ap some (let z : 0 + p ≡ p = omega arith in z) in
        rw (q', l) (rw g (read_at-raw_bytes table i v k))
  ]

  get_elem?-decoded :
      (i : ℕ)
      → i < length table.columns
      → get_elem? (assign keys (assign vs nulls)) i ≡ some (value_at keys vs i)
  get_elem?-decoded i h =
      let n : length nulls ≡ length table.columns = length-replicate (length table.columns) null in
      get_elem?-assign i keys (assign vs nulls) keys_d (omega (arith, length-assign vs nulls))
      ∙ ap (overlay (lookup i keys)) (
          get_elem?-assign i vs nulls vs_d (omega arith)
          ∙ ap (overlay (lookup i vs)) (get_elem?-replicate (length table.columns) i h))
      ∙ overlay_null (lookup i keys) (lookup i vs)

  values_agree :
      (selected : List ℕ)
      → All (λ i. i < length table.columns) selected
      → (collect_values
            (point_value table (map index_of keys) (map part_of keys) (encode_row_columns vs))
            selected
          ≡ ok (map (value_at keys vs) selected))
        × (collect_values (λ i. unwrap (get_elem? (assign keys (assign vs nulls)) i)) selected
            ≡ ok (map (value_at keys vs) selected))
  values_agree [] h = (refl, refl)
  values_agree (i ∷ is) (h, hs) =
      let (a, b) = values_agree is hs in
      (rw (point_value-stored i) (rw a refl), rw (get_elem?-decoded i h) (rw b refl))

-- For a stored row whose key columns and other columns hold values of their types, with distinct
-- indices and fewer than 2 ^ 64 bytes, the fast path of a point lookup and the general projection
-- without filters both succeed and give the same row: for every selected column the value of the
-- key, or else the value that was written, or else null.
pub project_fast_point-project_decoded :
    (table : TableDef) (selected : List ℕ) (keys vs : List (ℕ × Value))
    → All (λ (i, v). IsKey table.columns i v) keys
    → All (λ (i, v). IsStored table.columns i v) vs
    → IsDistinct keys
    → IsDistinct vs
    → length (encode_row_columns vs) < 2 ^ 64
    → All (λ i. i < length table.columns) selected
    → (project_fast_point table selected
          (map index_of keys)
          (map part_of keys)
          (encode_row_columns vs)
        ≡ ok (map (value_at keys vs) selected))
      × (project_decoded table selected [] []
            (map index_of keys)
            (map part_of keys)
            (encode_row_columns vs)
          ≡ ok (some (map (value_at keys vs) selected)))
unfolding project_fast_point project_decoded meets_eq meets_in
project_fast_point-project_decoded table selected keys vs kh vh kd vd fits sh =
    let (a, b) = values_agree table keys vs kh vh kd vd fits selected sh in
    (
      a,
      rw (decode_row_columns-encode_row_columns table vs vh) (
          rw (set_keys-raw_bytes table keys (assign vs (replicate (length table.columns) null)) kh)
            (rw b refl)),
    )
