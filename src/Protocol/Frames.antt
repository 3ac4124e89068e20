-- ===== src/Protocol/Frames.antt =====
-- src/protocol.rs. The writers and the compression of the crate scylla-cql are parameters; where they
-- fail, the source panics.
use rhyda.Prelude.{ℕ, ◌-◌, ◌^◌, Bool, true, false, List, [], ◌∷◌, ◌++◌, length, Option, none, some}
use rhyda.Prelude.Int.{ℤ, wrap}
use rhyda.Prelude.Bytes.{Bytes, to_be, codes}
use rhyda.Schema.Types.{ColumnType, write_wire_type}
use rhyda.Value.Types.{Value, write_wire}
use Prim.Native.Nat.{bit_or}

-- `types::write_string`, `types::write_short_bytes`, `types::write_bytes`,
-- `types::write_string_multimap` and `compress_append`, each with the bytes that it appends.
pub record Wire : Type 1 where
  pub Compression : Type 0
  pub compress : Compression → Bytes → Option Bytes
  pub string : Bytes → Option Bytes
  pub short_bytes : Bytes → Option Bytes
  pub bytes : Bytes → Option Bytes
  pub string_multimap : List (Bytes × List Bytes) → Option Bytes

-- `ResponseOpcode`, of the same crate.
pub data Opcode : Type 0 where
  error ready result supported : Opcode

-- The fields of a frame's header.
pub record Target (Compression : Type 0) : Type 0 where
  pub version : ℕ
  pub stream : ℤ
  pub compression : Option Compression

infixl 5 ◌>>=◌
abbrev pub ◌>>=◌ {ℓ κ} : {A : Type ℓ} {B : Type κ} → Option A → (A → Option B) → Option B
none >>= f = none
some a >>= f = f a

module _ (wire : Wire) (opcode_byte : Opcode → ℕ) where
  abbrev flags_of : Option wire.Compression → ℕ
  flags_of none = 0
  flags_of (some comp) = 0x01

  abbrev payload_of : Option wire.Compression → Bytes → Option Bytes
  payload_of none body = some body
  payload_of (some comp) body = wire.compress comp body

  -- The bytes of a frame, or `none` for a panic.
  unfoldable pub response_frame : Target wire.Compression → Opcode → Bytes → Option Bytes
  response_frame t opcode body = do
    payload ← payload_of t.compression body
    some (
        bit_or t.version 0x80
        ∷ flags_of t.compression
        ∷ (to_be 2 (wrap (2 ^ 16) t.stream)
            ++ opcode_byte opcode ∷ (to_be 4 (length payload) ++ payload)))

  unfoldable pub ready_frame : Target wire.Compression → Option Bytes
  unfolding response_frame
  ready_frame t = response_frame t Opcode.ready []

  abbrev pub supported_options : List (Bytes × List Bytes)
  supported_options =
      (codes "CQL_VERSION", codes "3.4.5" ∷ [])
      ∷ (codes "COMPRESSION", codes "lz4" ∷ codes "snappy" ∷ [])
      ∷ (codes "PROTOCOL_VERSIONS", codes "4" ∷ [])
      ∷ []

  -- The options go into a HashMap first: `order` is the order in which it is iterated.
  unfoldable pub supported_frame :
      (List (Bytes × List Bytes) → List (Bytes × List Bytes))
      → Target wire.Compression
      → Option Bytes
  unfolding response_frame
  supported_frame order t = do
    body ← wire.string_multimap (order supported_options)
    response_frame t Opcode.supported body

  unfoldable pub error_frame : Target wire.Compression → ℤ → Bytes → Option Bytes
  unfolding response_frame
  error_frame t code message = do
    text ← wire.string message
    response_frame t Opcode.error (to_be 4 (wrap (2 ^ 32) code) ++ text)

  unfoldable pub result_void : Target wire.Compression → Option Bytes
  unfolding response_frame
  result_void t = response_frame t Opcode.result (to_be 4 0x0001)

  unfoldable pub result_set_keyspace : Target wire.Compression → Bytes → Option Bytes
  unfolding response_frame
  result_set_keyspace t keyspace = do
    text ← wire.string keyspace
    response_frame t Opcode.result (to_be 4 0x0003 ++ text)

  unfoldable pub result_schema_change :
      Target wire.Compression → Bytes → Bytes → Bytes → Bytes → Option Bytes
  unfolding response_frame
  result_schema_change t change target keyspace table = do
    a ← wire.string change
    b ← wire.string target
    c ← wire.string keyspace
    d ← wire.string table
    response_frame t Opcode.result (to_be 4 0x0005 ++ (a ++ (b ++ (c ++ d))))

  -- `for (name, ty) in cols`
  unfoldable pub column_specs : List (Bytes × ColumnType) → Option Bytes
  column_specs [] = some []
  column_specs ((name, ty) ∷ cols) = do
    text ← wire.string name
    rest ← column_specs cols
    some (write_wire_type ty text ++ rest)

  abbrev index_bytes : List ℕ → Bytes
  index_bytes [] = []
  index_bytes (i ∷ is) = to_be 2 i ++ index_bytes is

  unfoldable pub result_prepared :
      Target wire.Compression
      → Bytes
      → Bytes
      → Bytes
      → List (Bytes × ColumnType)
      → List ℕ
      → List (Bytes × ColumnType)
      → Option Bytes
  unfolding response_frame column_specs
  result_prepared t id keyspace table bind_specs pk_indexes result_cols = do
    id_bytes ← wire.short_bytes id
    ks ← wire.string keyspace
    tb ← wire.string table
    binds ← column_specs bind_specs
    cols ← column_specs result_cols
    response_frame t Opcode.result (
        to_be 4 0x0004
        ++ (id_bytes
            ++ (to_be 4 0x0001
                ++ (to_be 4 (length bind_specs)
                    ++ (to_be 4 (length pk_indexes)
                        ++ (index_bytes pk_indexes
                            ++ (ks
                                ++ (tb
                                    ++ (binds
                                        ++ (to_be 4 0x0001
                                            ++ (to_be 4 (length result_cols)
                                                ++ (ks ++ (tb ++ cols)))))))))))))

  -- The optional paging state.
  abbrev paging_bytes : Option Bytes → Option Bytes
  paging_bytes none = some []
  paging_bytes (some state) = wire.bytes state

  abbrev more_flag : Option Bytes → ℕ
  more_flag none = 0
  more_flag (some state) = 0x0002

  -- The metadata, which `skip_metadata` cuts down to the flags and a column count of -1.
  unfoldable pub rows_metadata :
      Bool → Bytes → Bytes → List (Bytes × ColumnType) → Option Bytes → Option Bytes
  unfolding column_specs
  rows_metadata true keyspace table cols paging_state = do
    state ← paging_bytes paging_state
    some (to_be 4 (more_flag paging_state) ++ (to_be 4 (2 ^ 32 - 1) ++ state))
  rows_metadata false keyspace table cols paging_state = do
    state ← paging_bytes paging_state
    ks ← wire.string keyspace
    tb ← wire.string table
    specs ← column_specs cols
    some (
        to_be 4 (bit_or 0x0001 (more_flag paging_state))
        ++ (to_be 4 (length cols) ++ (state ++ (ks ++ (tb ++ specs)))))

  abbrev write_row : List Value → Bytes → Bytes
  write_row [] out = out
  write_row (v ∷ vs) out = write_row vs (write_wire v out)

  unfoldable pub write_rows : List (List Value) → Bytes → Bytes
  write_rows [] out = out
  write_rows (row ∷ rows) out = write_rows rows (write_row row out)

  unfoldable pub result_rows :
      Target wire.Compression
      → Bytes
      → Bytes
      → List (Bytes × ColumnType)
      → List (List Value)
      → Bool
      → Option Bytes
      → Option Bytes
  unfolding response_frame rows_metadata write_rows
  result_rows t keyspace table cols rows skip_metadata paging_state = do
    metadata ← rows_metadata skip_metadata keyspace table cols paging_state
    response_frame t Opcode.result
        (write_rows rows (to_be 4 0x0002 ++ (metadata ++ to_be 4 (length rows))))
