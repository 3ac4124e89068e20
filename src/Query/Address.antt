-- ===== src/Query/Address.antt =====
-- src/query.rs: the key parts of the row that a statement is about, in `key_parts_from_filters` (DELETE
-- and UPDATE), `exec_select` (its point lookup) and `exec_insert`.
use rhyda.Prelude.{
  ℕ, ◌≡◌, refl, sym, ap₂, ◌∙◌, ◌↔◌, if◌then◌else◌, List, [], ◌∷◌, ◌++◌, get_elem?, All, Option,
  none, some, Outcome, ok, err, panic, ◌>>=◌, ok_or, unwrap, arith,
}
use rhyda.Prelude.Bytes.{Bytes, bytes_eq}
use rhyda.Schema.Types.{TableDef, column_index}
use rhyda.Fault.{key_column_missing}
use rhyda.Value.Types.{Value, null, value_eq, raw_bytes}
use rhyda.Query.Errors.{
  QueryError, Reason, invalid_err, internal_err, key_part_missing, key_part_null,
  restrictions_incomplete,
}
use rhyda.Query.Filters.{Filter, eq_filter, in_filter}

-- `filters.iter().find_map(…)`: the value of the first `=` filter on a column.
unfoldable pub filter_value : List Filter → Bytes → Option Value
filter_value [] name = none
filter_value (eq_filter n v ∷ fs) name =
    let rest = filter_value fs name in if bytes_eq n name then some v else rest
filter_value (in_filter n vs ∷ fs) name = filter_value fs name

abbrev pub key_part : Bytes → Reason → Option Value → Outcome QueryError Bytes
key_part name missing none = err (invalid_err missing)
key_part name missing (some v) =
    if value_eq v null then err (invalid_err (key_part_null name)) else ok (raw_bytes v)

-- A loop over the names of the key columns.
abbrev pub each_part :
    (Bytes → Outcome QueryError Bytes) → List Bytes → Outcome QueryError (List Bytes)
each_part f [] = ok []
each_part f (name ∷ names) = f name >>= λ p. each_part f names >>= λ ps. ok (p ∷ ps)

abbrev pub key_names : TableDef → List Bytes
key_names table = table.partition_keys ++ table.clustering_keys

unfoldable pub filter_part : List Filter → Bytes → Outcome QueryError Bytes
filter_part filters name = key_part name (restrictions_incomplete name) (filter_value filters name)

unfoldable pub key_parts_from_filters : TableDef → List Filter → Outcome QueryError (List Bytes)
key_parts_from_filters table filters = each_part (filter_part filters) (key_names table)

-- `point_key` of `exec_select`.
abbrev point_or : Option Value → Option (List Bytes) → Option (List Bytes)
point_or none rest = none
point_or (some v) none = none
point_or (some v) (some ps) = if value_eq v null then none else some (raw_bytes v ∷ ps)

unfoldable pub point_parts : List Filter → List Bytes → Option (List Bytes)
point_parts filters [] = some []
point_parts filters (name ∷ names) =
    point_or (filter_value filters name) (point_parts filters names)

unfoldable pub point_key : TableDef → List Filter → Option (List Bytes)
point_key table filters = point_parts filters (key_names table)

-- The key parts of `exec_insert`, from the values of the statement by the columns' indices.
unfoldable pub insert_part : TableDef → List (Option Value) → Bytes → Outcome QueryError Bytes
insert_part table resolved name =
    ok_or (internal_err key_column_missing) (column_index table name) >>= λ pos.
    unwrap (get_elem? resolved pos) >>= λ v. key_part name (key_part_missing name) v

unfoldable pub insert_key_parts : TableDef → List (Option Value) → Outcome QueryError (List Bytes)
insert_key_parts table resolved = each_part (insert_part table resolved) (key_names table)

-- What a run returns when it ends well.
abbrev result {ℓ} : {A : Type ℓ} → Outcome QueryError A → Option A
result (ok a) = some a
result (err e) = none
result panic = none

result-eq-some_iff {ℓ} :
    {A : Type ℓ} (r : Outcome QueryError A) (a : A) → (result r ≡ some a) ↔ (r ≡ ok a)
result-eq-some_iff (ok b) a = (λ e. ground arith, λ e. ground arith)
result-eq-some_iff (err e) a = (λ e. cc, λ e. cc)
result-eq-some_iff panic a = (λ e. cc, λ e. cc)

point_or-result :
    (name : Bytes) (missing : Reason) (o : Option Value) (r : Outcome QueryError (List Bytes))
    → point_or o (result r) ≡ result (key_part name missing o >>= λ p. r >>= λ ps. ok (p ∷ ps))
point_or-result name missing none r = refl
point_or-result name missing (some v) (ok ps) = ground arith
point_or-result name missing (some v) (err e) = ground arith
point_or-result name missing (some v) panic = ground arith

point_parts-result :
    (filters : List Filter) (names : List Bytes)
    → point_parts filters names ≡ result (each_part (filter_part filters) names)
unfolding point_parts filter_part
point_parts-result filters [] = refl
point_parts-result filters (name ∷ names) = rw (point_parts-result filters names) (
    point_or-result name (restrictions_incomplete name) (filter_value filters name)
      (each_part (filter_part filters) names))

-- SELECT's point lookup has the address `parts` exactly when DELETE and UPDATE with the same filters
-- have it.
pub point_key-eq-some_iff :
    (table : TableDef) (filters : List Filter) (parts : List Bytes)
    → (point_key table filters ≡ some parts) ↔ (key_parts_from_filters table filters ≡ ok parts)
unfolding point_key key_parts_from_filters
point_key-eq-some_iff table filters parts =
    rw (point_parts-result filters (key_names table))
      (result-eq-some_iff (each_part (filter_part filters) (key_names table)) parts)

-- The statement's value of a column is that of the filter on the column's name.
pub record Agrees (table : TableDef) (resolved : List (Option Value)) (filters : List Filter)
    (name : Bytes) : Type 0 where
  pub pos : ℕ
  pub is_column : column_index table name ≡ some pos
  pub same : get_elem? resolved pos ≡ some (filter_value filters name)

part_agrees :
    (name : Bytes) (m m' : Reason) (o : Option Value)
    → result (key_part name m o) ≡ result (key_part name m' o)
part_agrees name m m' none = refl
part_agrees name m m' (some v) = refl

insert_part-filter_part :
    (table : TableDef) (resolved : List (Option Value)) (filters : List Filter) (name : Bytes)
    → Agrees table resolved filters name
    → result (insert_part table resolved name) ≡ result (filter_part filters name)
unfolding insert_part filter_part
insert_part-filter_part table resolved filters name a = rw a.is_column (
    rw a.same (
      part_agrees name (key_part_missing name) (restrictions_incomplete name)
        (filter_value filters name)))

abbrev both : Option Bytes → Option (List Bytes) → Option (List Bytes)
both (some p) (some ps) = some (p ∷ ps)
both _ _ = none

result-cons :
    (a : Outcome QueryError Bytes) (r : Outcome QueryError (List Bytes))
    → result (a >>= λ p. r >>= λ ps. ok (p ∷ ps)) ≡ both (result a) (result r)
result-cons (ok p) (ok ps) = refl
result-cons (ok p) (err e) = refl
result-cons (ok p) panic = refl
result-cons (err e) r = refl
result-cons panic r = refl

each_part_congr :
    (f g : Bytes → Outcome QueryError Bytes) (names : List Bytes)
    → All (λ n. result (f n) ≡ result (g n)) names
    → result (each_part f names) ≡ result (each_part g names)
each_part_congr f g [] h = refl
each_part_congr f g (n ∷ names) (e, h) =
    result-cons (f n) (each_part f names)
    ∙ ap₂ both e (each_part_congr f g names h)
    ∙ sym (result-cons (g n) (each_part g names))

-- An INSERT and a WHERE that give every key column the same value, or neither a value, address the
-- same row, if they address one: the key parts of the one are `parts` exactly when those of the
-- other are.
pub insert_key_parts-eq-ok_iff :
    (table : TableDef) (resolved : List (Option Value)) (filters : List Filter) (parts : List Bytes)
    → All (Agrees table resolved filters) (key_names table)
    → (insert_key_parts table resolved ≡ ok parts)
      ↔ (key_parts_from_filters table filters ≡ ok parts)
unfolding insert_key_parts key_parts_from_filters
insert_key_parts-eq-ok_iff table resolved filters parts h =
    let e =
      each_part_congr (insert_part table resolved) (filter_part filters) (key_names table)
        (parts_agree (key_names table) h) in
    let (f, g) =
      result-eq-some_iff (each_part (insert_part table resolved) (key_names table)) parts in
    let (f', g') = result-eq-some_iff (each_part (filter_part filters) (key_names table)) parts in
    (λ p. f' (rw e at (g p)), λ p. f (rw (← e) at (g' p)))
  where
    parts_agree :
        (names : List Bytes)
        → All (Agrees table resolved filters) names
        → All (λ n. result (insert_part table resolved n) ≡ result (filter_part filters n)) names
    parts_agree [] k = tt
    parts_agree (n ∷ names) (a, k) =
        (insert_part-filter_part table resolved filters n a, parts_agree names k)
