-- ===== src/Connection/State.antt =====
-- src/server.rs: the state of a connection, and what it reads of a request's bytes.
use rhyda.Prelude.{
  ℕ, ◌+◌, ◌%◌, ◌^◌, Bool, false, ltb, ◌&&◌, ◌==◌, leb, if◌then◌else◌, List, length, take, drop,
  Option, none, some,
}
use mathlib.Core.List.{map}
use rhyda.Prelude.Bytes.{Bytes, bytes_eq, codes, from_be, to_be, starts_with}
use rhyda.Schema.Types.{ColumnType}
use rhyda.Query.Execute.{Statement}

pub record PreparedStmt : Type 0 where
  pub stmt : Statement
  pub bind_types : List ColumnType

-- `ConnShared`: the prepared statements by their ids.
pub record ConnShared : Type 0 where
  pub compression : ℕ
  pub keyspace : Option Bytes
  pub prepared : Bytes → Option PreparedStmt
  pub next_prepared_id : ℕ

abbrev pub new_conn : ConnShared
new_conn = record { compression = 0; keyspace = none; prepared = λ id. none; next_prepared_id = 1 }

-- `Lz4` and `Snappy`, for 1 and 2.
unfoldable pub decode_compression {ℓ} : {A : Type ℓ} → A → A → ℕ → Option A
decode_compression lz4 snappy v = if v == 1 then some lz4 else if v == 2 then some snappy else none

unfoldable pub set_keyspace_to : Bytes → ConnShared → ConnShared
set_keyspace_to ks conn = record conn { keyspace = some ks }

-- The id of a new prepared statement, and the state with the statement under it.
unfoldable pub register : PreparedStmt → ConnShared → Bytes × ConnShared
register p conn =
    let id = to_be 2 conn.next_prepared_id in
    (
      id,
      record conn {
        prepared = λ k. if bytes_eq id k then some p else conn.prepared k;
        next_prepared_id = (conn.next_prepared_id + 1) % 2 ^ 16;
      },
    )

-- Whether the body of a request starts like a QUERY with USE.
unfoldable pub is_session_use : Bytes → Bool
is_session_use body =
    let len = from_be (take 4 body) in
    let bytes = take len (drop 4 body) in
    if ltb (length body) 4
    then false
    else starts_with (map ascii_lower_byte (take 16 bytes)) (codes "use ")
  where
    ascii_lower_byte : ℕ → ℕ
    ascii_lower_byte c = if leb 65 c && leb c 90 then c + 32 else c
