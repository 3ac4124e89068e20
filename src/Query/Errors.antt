-- ===== src/Query/Errors.antt =====
-- src/query.rs: `QueryError` and the guard of the system keyspaces.
use rhyda.Prelude.{ℕ, List, [], ◌∷◌, any, if◌then◌else◌, Outcome, ok, err}
use rhyda.Prelude.Bytes.{Bytes, bytes_eq, codes}
use rhyda.Fault.{Fault}

-- What the message of an error says.
pub data Reason : Type 0 where
  no_keyspace json_insert wrong_number_of_values missing_bind : Reason
  collection_mismatch literals_only where_literals_only where_columns_only : Reason
  where_operators function_in_select column_delete increments primary_key_required : Reason
  unsupported_type bad_syntax not_prepared : Reason
  unknown_opcode malformed_startup malformed_query malformed_prepare malformed_execute : Reason
  malformed_parameters unprepared bind_count no_batches no_authentication : Reason
  bad_version frame_too_large not_negotiated : Reason
  bad_compression : Bytes → Reason
  not_supported : ℕ → Reason
  keyspace_missing cannot_create cannot_drop_keyspace : Bytes → Reason
  cannot_drop_table : Bytes → Bytes → Reason
  not_writable : Bytes → Reason
  no_table : Bytes → Bytes → Reason
  undefined_column : Bytes → Reason
  bad_bind : Fault → Reason
  bad_literal : Fault → Reason
  key_part_missing : Bytes → Reason
  key_part_null : Bytes → Reason
  restrictions_incomplete : Bytes → Reason
  already_exists : Bytes → Bytes → Reason
  internal : Fault → Reason

pub record QueryError : Type 0 where
  pub code : ℕ
  pub message : Reason

abbrev pub syntax_err : Reason → QueryError
syntax_err reason = record { code = 0x2000; message = reason }

abbrev pub invalid_err : Reason → QueryError
invalid_err reason = record { code = 0x2200; message = reason }

abbrev pub already_exists_err : Bytes → Bytes → QueryError
already_exists_err keyspace table = record {
  code = 0x2400;
  message = already_exists keyspace table;
}

abbrev pub internal_err : Fault → QueryError
internal_err fault = record { code = 0x0000; message = internal fault }

abbrev pub system_keyspaces : List Bytes
system_keyspaces = codes "system" ∷ codes "system_schema" ∷ codes "system_virtual_schema" ∷ []

unfoldable pub check_writable : Bytes → Outcome QueryError (Unit {0})
check_writable keyspace =
    if any (λ k. bytes_eq k keyspace) system_keyspaces
    then err (invalid_err (not_writable keyspace))
    else ok tt
