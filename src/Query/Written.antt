-- ===== src/Query/Written.antt =====
-- What an INSERT and a DELETE leave for later reads.
use rhyda.Prelude.{
  ℕ, suc, ◌≡◌, refl, List, [], ◌∷◌, length, length-append, arith, Option, none, some, ok,
}
use rhyda.Prelude.Bytes.{Bytes}
use rhyda.Schema.Types.{TableDef}
use rhyda.Schema.Idents.{CaseMap}
use rhyda.Value.Types.{Value}
use rhyda.Value.Literal.{Parsers}
use rhyda.Rows.Columns.{encode_row_columns}
use rhyda.Storage.Engine.{Rocks, IsRocks}
use rhyda.Storage.Rows.{Store, put_row, delete_row, get_row, drain}
use rhyda.Storage.Reads.{get_row-put_row, get_row-delete_row}
use rhyda.Storage.Catalogue.{Json}
use rhyda.Query.Errors.{check_writable}
use rhyda.Query.Binds.{Binds}
use rhyda.Query.Insert.{
  Insert, Delete, Context, void, insert_plan, delete_plan, resolve_table, exec_insert, exec_delete,
}

module _ (rocks : Rocks) (laws : IsRocks rocks) (json : Json) ⦃cases : CaseMap⦄
    ⦃parsers : Parsers⦄ where
  -- An INSERT whose table is found and writable and whose values are in order succeeds and adds one
  -- ticket. Once the writes have settled, with every batch accepted by RocksDB, a read of the address that the statement gives returns the
  -- encoding of the columns that it gives.
  pub exec_insert-get_row :
      (session : Option Bytes) (ins : Insert) (c : Context rocks) (ready : ℕ) (ks : Bytes)
      (table : TableDef) (s : Store rocks) (parts : List Bytes) (row : List (ℕ × Value)) (b : Binds)
      → resolve_table rocks json session ins.table_name c.store ≡ (ok (ks, table), s)
      → check_writable ks ≡ ok tt
      → insert_plan table ins c.binds ≡ (ok (parts, row), b)
      → let (r, d) = exec_insert rocks json session ins c in
        (r ≡ ok void)
        × (length d.gates ≡ suc (length c.gates))
        × ((get_row rocks ks table.name parts (drain rocks ready d.store)).0
            ≡ some (encode_row_columns row))
  unfolding exec_insert check_writable
  exec_insert-get_row session ins c ready ks table s parts row b r w p = (
    rw (r, w, p) refl,
    rw (r, w, p)
        (omega (
          arith,
          length-append c.gates ((put_row ks table.name parts (encode_row_columns row) s).0 ∷ []),
        )),
    rw (r, w, p) (get_row-put_row rocks laws ks table.name parts (encode_row_columns row) ready s),
  )

  -- A DELETE whose table is found and writable and whose filters give an address succeeds and adds
  -- one ticket. Once the writes have settled, with every batch accepted by RocksDB, a read of that address finds nothing.
  pub exec_delete-get_row :
      (session : Option Bytes) (del : Delete) (c : Context rocks) (ready : ℕ) (ks : Bytes)
      (table : TableDef) (s : Store rocks) (parts : List Bytes) (b : Binds)
      → resolve_table rocks json session del.table_name c.store ≡ (ok (ks, table), s)
      → check_writable ks ≡ ok tt
      → delete_plan table del c.binds ≡ (ok parts, b)
      → let (r, d) = exec_delete rocks json session del c in
        (r ≡ ok void)
        × (length d.gates ≡ suc (length c.gates))
        × ((get_row rocks ks table.name parts (drain rocks ready d.store)).0 ≡ none)
  unfolding exec_delete check_writable
  exec_delete-get_row session del c ready ks table s parts b r w p = (
    rw (r, w, p) refl,
    rw (r, w, p) (omega (arith, length-append c.gates ((delete_row ks table.name parts s).0 ∷ []))),
    rw (r, w, p) (get_row-delete_row rocks laws ks table.name parts ready s),
  )
