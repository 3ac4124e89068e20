-- ===== src/Query/Binds.antt =====
-- src/query.rs: `Binds` and `operand_to_value`.
use rhyda.Prelude.{
  ℕ, ◌+◌, Bool, true, false, List, [], ◌∷◌, get_elem?, Option, none, some, Outcome, ok, err, panic,
}
use rhyda.Prelude.Bytes.{Bytes}
use rhyda.Schema.Types.{ColumnType}
use rhyda.Schema.Idents.{CaseMap}
use rhyda.Fault.{Fault}
use rhyda.Value.Types.{Value, Values, Entries}
use rhyda.Value.Decode.{from_raw_bytes}
use rhyda.Value.Literal.{Parsers, parse_literal}
use rhyda.Query.Syntax.{Operand}
use rhyda.Query.Errors.{
  QueryError, invalid_err, missing_bind, bad_bind, bad_literal, collection_mismatch, literals_only,
}

-- The bind values of a request; null and unset values are `none`.
pub record Binds : Type 0 where
  pub values : List (Option Bytes)
  pub next : ℕ

-- A computation that takes bind values.
abbrev pub Run {ℓ} : Type ℓ → Type ℓ
Run A = Binds → Outcome QueryError A × Binds

module _ {ℓ κ} {A : Type ℓ} {B : Type κ} where
  abbrev pub continue : Outcome QueryError A × Binds → (A → Run B) → Outcome QueryError B × Binds
  continue (ok a, b) f = f a b
  continue (err e, b) f = (err e, b)
  continue (panic, b) f = (panic, b)

  infixl 5 ◌>>=◌
  abbrev pub ◌>>=◌ : Run A → (A → Run B) → Run B
  (m >>= f) b = continue (m b) f

abbrev pub lift {ℓ} : {A : Type ℓ} → Outcome QueryError A → Run A
lift r b = (r, b)

-- `return Err(e)` unless the test holds.
abbrev pub require : Bool → QueryError → Run (Unit {0})
require true e b = (ok tt, b)
require false e b = (err e, b)

abbrev pub map_fault {ℓ} :
    {A : Type ℓ} → (Fault → QueryError) → Outcome Fault A → Outcome QueryError A
map_fault f (ok a) = ok a
map_fault f (err e) = err (f e)
map_fault f panic = panic

-- The value of a bind, and the value when it is null.
abbrev bound : ColumnType → Option Bytes → Outcome QueryError Value
bound col_type none = ok Value.null
bound col_type (some raw) = map_fault (λ e. invalid_err (bad_bind e)) (from_raw_bytes raw col_type)

abbrev pub taken : ColumnType → Binds → Option (Option Bytes) → Outcome QueryError Value × Binds
taken col_type binds none = (err (invalid_err missing_bind), binds)
taken col_type binds (some rv) = (bound col_type rv, record binds { next = binds.next + 1 })

unfoldable pub take_bind : ColumnType → Run Value
take_bind col_type binds = taken col_type binds (get_elem? binds.values binds.next)

module _ ⦃cases : CaseMap⦄ ⦃parsers : Parsers⦄ where
  abbrev pub literal : Bytes → ColumnType → Run Value
  literal text col_type =
      lift (map_fault (λ e. invalid_err (bad_literal e)) (parse_literal text col_type))

  -- The loops over the items of a collection, each a constant.
  abbrev literals : List Bytes → ColumnType → Run Values
  literals [] t = lift (ok Values.nil)
  literals (i ∷ is) t = do v ← literal i t; vs ← literals is t; lift (ok (Values.cons v vs))

  abbrev literal_entries : List (Bytes × Bytes) → ColumnType → ColumnType → Run Entries
  literal_entries [] k t = lift (ok Entries.end)
  literal_entries ((a, b) ∷ es) k t = do
    x ← literal a k
    y ← literal b t
    rest ← literal_entries es k t
    lift (ok (Entries.entry x y rest))

  unfoldable pub operand_to_value : Operand → ColumnType → Run Value
  unfolding take_bind
  operand_to_value Operand.null col_type = lift (ok Value.null)
  operand_to_value (Operand.const text) col_type = literal text col_type
  operand_to_value (Operand.param name) col_type = take_bind col_type
  operand_to_value (Operand.set items) (ColumnType.set t) = do
    vs ← literals items t
    lift (ok (Value.set vs))
  operand_to_value (Operand.set items) _ = lift (err (invalid_err collection_mismatch))
  operand_to_value (Operand.list items) (ColumnType.list t) = do
    vs ← literals items t
    lift (ok (Value.list vs))
  operand_to_value (Operand.list items) _ = lift (err (invalid_err collection_mismatch))
  operand_to_value (Operand.map entries) (ColumnType.map k t) = do
    es ← literal_entries entries k t
    lift (ok (Value.map es))
  operand_to_value (Operand.map entries) _ = lift (err (invalid_err collection_mismatch))
  operand_to_value _ col_type = lift (err (invalid_err literals_only))
