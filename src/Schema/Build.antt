-- ===== src/Schema/Build.antt =====
-- src/schema.rs: `build_table_def`.
use mathlib.Core.List.{map}
use rhyda.Prelude.{Option, none, some, Bool, not, List, [], ◌∷◌, ◌&&◌, ◌||◌, if◌then◌else◌, any}
use rhyda.Prelude.Bytes.{Bytes, bytes_eq}
use rhyda.Schema.Types.{ColumnType, ColumnDef, TableDef}
use rhyda.Schema.TypeNames.{DataTypeName, from_data_type}
use rhyda.Schema.Idents.{Identifier, CaseMap, norm_id}

-- The fields of cql3_parser's statement that the source reads.
pub record ColumnSpec : Type 0 where
  pub name : Identifier
  pub type_name : DataTypeName
  pub definition : List DataTypeName
  pub primary_key : Bool

pub record KeySpec : Type 0 where
  pub partition : List Identifier
  pub clustering : List Identifier

pub record CreateTable : Type 0 where
  pub columns : List ColumnSpec
  pub key : Option KeySpec

abbrev pub contains : List Bytes → Bytes → Bool
contains names name = any (λ n. bytes_eq n name) names

module _ ⦃cases : CaseMap⦄ where
  abbrev pub key_partition : Option KeySpec → List Bytes
  key_partition none = []
  key_partition (some key) = map norm_id key.partition

  abbrev pub key_clustering : Option KeySpec → List Bytes
  key_clustering none = []
  key_clustering (some key) = map norm_id key.clustering

  -- One round of the loop over the columns.
  unfoldable pub column_def : List Bytes → List Bytes → ColumnSpec → ColumnType → ColumnDef
  unfolding norm_id
  column_def partition_keys clustering_keys cd col_type =
      let name = norm_id cd.name in
      let is_pk = cd.primary_key || contains partition_keys name in
      let is_ck = not is_pk && contains clustering_keys name in
      record { name = name; col_type = col_type; is_partition_key = is_pk; is_clustering = is_ck }

  unfoldable pub column_defs : List Bytes → List Bytes → List ColumnSpec → Option (List ColumnDef)
  unfolding column_def from_data_type
  column_defs pks cks [] = some []
  column_defs pks cks (cd ∷ cds) =
      let rest = column_defs pks cks cds in
      elim (from_data_type cd.type_name cd.definition) [
        | none ↦ none
        | some t ↦ elim rest [ none ↦ none | some ds ↦ some (column_def pks cks cd t ∷ ds) ]
      ]

-- The names of the columns that are marked as partition keys.
unfoldable pub marked_keys : List ColumnDef → List Bytes
marked_keys [] = []
marked_keys (c ∷ cs) =
    let rest = marked_keys cs in if c.is_partition_key then c.name ∷ rest else rest

abbrev partition_or : List Bytes → List ColumnDef → List Bytes
partition_or [] columns = marked_keys columns
partition_or (k ∷ ks) columns = k ∷ ks

unfoldable pub build_table_def : ⦃cases : CaseMap⦄ → Bytes → Bytes → CreateTable → Option TableDef
unfolding column_defs marked_keys
build_table_def keyspace table_name create =
    let pks = key_partition create.key in
    let cks = key_clustering create.key in
    elim (column_defs pks cks create.columns) [
      | none ↦ none
      | some columns ↦ some (record {
        keyspace = keyspace;
        name = table_name;
        columns = columns;
        partition_keys = partition_or pks columns;
        clustering_keys = cks;
      })
    ]
