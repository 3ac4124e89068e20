-- ===== src/Query/Ddl.antt =====
-- src/query.rs: the statements on keyspaces and whole tables.
use rhyda.Prelude.{
  Bool, true, false, any, if◌then◌else◌, List, [], ◌∷◌, Option, none, some, Outcome, ok, err, ok_or,
}
use rhyda.Prelude.Bytes.{Bytes, bytes_eq, codes}
use rhyda.Schema.Types.{KeyspaceDef, TableDef}
use rhyda.Schema.Idents.{Identifier, CaseMap, norm_id}
use rhyda.Schema.Build.{CreateTable, build_table_def}
use rhyda.Value.Types.{Value, Entries}
use rhyda.Value.Literal.{Parsers, trim, trim_start_quotes, trim_end_quotes}
use rhyda.Storage.Engine.{Rocks}
use rhyda.Storage.Removal.{delete_keyspace, delete_table, truncate_table}
use rhyda.Storage.Catalogue.{Json, get_keyspace, put_keyspace, get_table, put_table}
use rhyda.Query.Syntax.{FqName}
use rhyda.Query.Errors.{
  QueryError, invalid_err, already_exists_err, system_keyspaces, check_writable, no_keyspace,
  keyspace_missing, cannot_create, cannot_drop_keyspace, cannot_drop_table, unsupported_type,
  primary_key_required,
}
use rhyda.Query.Insert.{Response, void, set_keyspace, schema_change, resolve_table}
use rhyda.Query.Steps.{Step, ◌>>=◌, give, on_store, change, gated}
use rhyda.Query.Mirror.{
  put_system_schema_row, delete_system_schema_partition, mirror_table_metadata,
  unmirror_table_metadata,
}

pub record CreateKeyspace : Type 0 where
  pub name : Identifier
  pub if_not_exists : Bool
  pub replication : List (Bytes × Bytes)

-- `CreateTable`, whose columns and keys `build_table_def` reads.
pub record CreateTableAs : Type 0 where
  pub name : FqName
  pub if_not_exists : Bool
  pub create : CreateTable

pub record CommonDrop : Type 0 where
  pub name : FqName
  pub if_exists : Bool

-- The keyspace of a table's name, or else that of the session.
unfoldable pub keyspace_or :
    ⦃cases : CaseMap⦄ → Option Bytes → Option Identifier → Outcome QueryError Bytes
keyspace_or session (some k) = ok (norm_id k)
keyspace_or session none = ok_or (invalid_err no_keyspace) session

unfoldable pub strip_quotes : Bytes → Bytes
unfolding trim trim_start_quotes trim_end_quotes
strip_quotes s = trim_end_quotes (trim_start_quotes (trim s))

-- `Value::Map` of the replication's options.
unfoldable pub replication_entries : List (Bytes × Bytes) → Entries
unfolding strip_quotes
replication_entries [] = Entries.end
replication_entries ((k, v) ∷ rest) =
    Entries.entry (Value.text (strip_quotes k)) (Value.text (strip_quotes v))
      (replication_entries rest)

abbrev created : Bytes → Bytes → Bytes → Response
created target keyspace table = schema_change (codes "CREATED") target keyspace table

abbrev dropped : Bytes → Bytes → Bytes → Response
dropped target keyspace table = schema_change (codes "DROPPED") target keyspace table

module _ (rocks : Rocks) (json : Json) ⦃cases : CaseMap⦄ ⦃parsers : Parsers⦄ where
  -- What a statement answers that finds the name taken, or finds nothing of the name.
  abbrev pub unless : Bool → QueryError → Step rocks Response
  unless true e = give (ok void)
  unless false e = give (err e)

  abbrev used : Bytes → Option KeyspaceDef → Step rocks Response
  used ks none = give (err (invalid_err (keyspace_missing ks)))
  used ks (some def) = give (ok (set_keyspace ks))

  unfoldable pub exec_use : Identifier → Step rocks Response
  exec_use id = do found ← on_store (get_keyspace rocks json (norm_id id)); used (norm_id id) found

  abbrev pub new_keyspace : CreateKeyspace → Bytes → Option KeyspaceDef → Step rocks Response
  new_keyspace ks name (some def) = unless ks.if_not_exists (already_exists_err name [])
  new_keyspace ks name none = do
    u ← give (
        if any (λ k. bytes_eq k name) system_keyspaces
        then err (invalid_err (cannot_create name))
        else ok tt)
    v ← change (put_keyspace rocks json (record { name = name; replication = ks.replication }))
    w ← put_system_schema_row rocks json (codes "keyspaces") (name ∷ []) (
        (codes "durable_writes", Value.boolean true)
        ∷ (codes "replication", Value.map (replication_entries ks.replication))
        ∷ [])
    give (ok (created (codes "KEYSPACE") name []))

  unfoldable pub exec_create_keyspace : CreateKeyspace → Step rocks Response
  unfolding replication_entries
  exec_create_keyspace ks = do
    found ← on_store (get_keyspace rocks json (norm_id ks.name))
    new_keyspace ks (norm_id ks.name) found

  abbrev keyed : TableDef → Outcome QueryError TableDef
  keyed def = with_keys def.partition_keys def
    where
      with_keys : List Bytes → TableDef → Outcome QueryError TableDef
      with_keys [] def = err (invalid_err primary_key_required)
      with_keys (k ∷ ks) def = ok def

  abbrev pub new_table : CreateTableAs → Bytes → Bytes → Option TableDef → Step rocks Response
  new_table t keyspace table (some def) = unless t.if_not_exists (already_exists_err keyspace table)
  new_table t keyspace table none = do
    u ← give (check_writable keyspace)
    built ← give (ok_or (invalid_err unsupported_type) (build_table_def keyspace table t.create))
    def ← give (keyed built)
    v ← change (put_table rocks json def)
    w ← mirror_table_metadata rocks json def
    give (ok (created (codes "TABLE") keyspace table))

  unfoldable pub exec_create_table : Option Bytes → CreateTableAs → Step rocks Response
  unfolding keyspace_or
  exec_create_table session t = do
    keyspace ← give (keyspace_or session t.name.keyspace)
    found ← on_store (get_table rocks json keyspace (norm_id t.name.name))
    new_table t keyspace (norm_id t.name.name) found

  abbrev drop_mirrors : Bytes → List Bytes → Step rocks (Unit {0})
  drop_mirrors name [] = give (ok tt)
  drop_mirrors name (table ∷ tables) = do
    u ← delete_system_schema_partition rocks json table (name ∷ [])
    drop_mirrors name tables

  abbrev pub remove_keyspace : CommonDrop → Bytes → Option KeyspaceDef → Step rocks Response
  remove_keyspace d name none = unless d.if_exists (invalid_err (cannot_drop_keyspace name))
  remove_keyspace d name (some def) = do
    u ← give (check_writable name)
    v ← gated (delete_keyspace rocks name)
    w ← drop_mirrors name (codes "keyspaces" ∷ codes "tables" ∷ codes "columns" ∷ [])
    give (ok (dropped (codes "KEYSPACE") name []))

  unfoldable pub exec_drop_keyspace : CommonDrop → Step rocks Response
  exec_drop_keyspace d = do
    found ← on_store (get_keyspace rocks json (norm_id d.name.name))
    remove_keyspace d (norm_id d.name.name) found

  abbrev pub remove_table : CommonDrop → Bytes → Bytes → Option TableDef → Step rocks Response
  remove_table d keyspace table none =
      unless d.if_exists (invalid_err (cannot_drop_table keyspace table))
  remove_table d keyspace table (some def) = do
    u ← give (check_writable keyspace)
    v ← gated (delete_table rocks keyspace table)
    w ← unmirror_table_metadata rocks json keyspace table
    give (ok (dropped (codes "TABLE") keyspace table))

  unfoldable pub exec_drop_table : Option Bytes → CommonDrop → Step rocks Response
  unfolding keyspace_or
  exec_drop_table session d = do
    keyspace ← give (keyspace_or session d.name.keyspace)
    found ← on_store (get_table rocks json keyspace (norm_id d.name.name))
    remove_table d keyspace (norm_id d.name.name) found

  abbrev pub resolved : Option Bytes → FqName → Step rocks (Bytes × TableDef)
  resolved session name c =
      let (r, s) = resolve_table rocks json session name c.store in (r, record c { store = s })

  unfoldable pub exec_truncate : Option Bytes → FqName → Step rocks Response
  exec_truncate session name = do
    target ← resolved session name
    u ← give (check_writable target.0)
    v ← gated (truncate_table rocks target.0 (norm_id name.name))
    give (ok void)
