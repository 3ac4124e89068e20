-- ===== src/Fault.antt =====
-- The `anyhow` errors that src/cql_value.rs, src/storage.rs and src/query.rs raise, one constructor
-- for each message. The wording of a message is not modelled.
use rhyda.Prelude.{ℕ}
use rhyda.Prelude.Bytes.{Bytes}
use rhyda.Schema.Types.{ColumnType}

pub data Collection : Type 0 where
  set list map : Collection

pub data Fault : Type 0 where
  -- cql_value.rs: from_wire
  value_too_short : Fault
  length_mismatch : Fault
  wrong_size : Fault
  not_utf8 : Fault
  inet_length : ℕ → Fault
  too_short : Collection → Fault
  negative_count : Collection → Fault
  truncated : Collection → Fault
  -- cql_value.rs: parse_literal
  cannot_parse : Bytes → ColumnType → Fault
  collection_literal : Fault
  -- storage.rs: keys and rows
  foreign_key : Fault
  corrupt_key : Fault
  corrupt_row : Fault
  unknown_column_index : ℕ → Fault
  -- storage.rs: catalogue
  bad_json : Fault
  -- query.rs
  key_column_missing : Fault
  schema_table_missing : Bytes → Fault
  schema_column_missing : Bytes → Fault
