-- ===== src/Query/Upsert.antt =====
-- The UPDATE that assigns every regular column, without a read of the row.
use rhyda.Prelude.{
  ℕ, suc, ◌+◌, ◌≤◌, ◌<◌, ◌^◌, ◌%◌, ◌≡◌, refl, Bool, true, false, if◌then◌else◌, List, [], ◌∷◌,
  length, set, get_elem?, Option, none, some, Outcome, ok, panic, arith,
}
use rhyda.Schema.Types.{ColumnDef, TableDef}
use rhyda.Value.Types.{Value}
use rhyda.Prelude.Bytes.{Bytes}
use rhyda.Schema.Idents.{CaseMap}
use rhyda.Value.Literal.{Parsers}
use rhyda.Rows.RoundTrip.{assign}
use rhyda.Storage.Engine.{Rocks}
use rhyda.Storage.Rows.{Store}
use rhyda.Storage.Catalogue.{Json}
use rhyda.Query.Binds.{Binds}
use rhyda.Query.Insert.{Context, resolve_table}
use rhyda.Query.Errors.{QueryError, check_writable}
use rhyda.Query.Scan.{lookup}
use rhyda.Query.PointRead.{IsDistinct, overlay, get_elem?-assign}
use rhyda.Query.Update.{
  is_key, assigned, stored_next, assigned_columns, row_columns, set_values, Update, update_plan,
  covers_all_regular, exec_update,
}

abbrev missing : Option Value → Bool → Bool
missing none rest = true
missing (some v) rest = rest

-- A regular column from the index `i` on is not assigned.
abbrev pub leaves_out : ℕ → List ColumnDef → List (ℕ × Value) → Bool
leaves_out i [] xs = false
leaves_out i (col ∷ cols) xs =
    let rest = leaves_out (suc i) cols xs in
    if is_key col then rest else missing (assigned i xs) rest

lookup-assigned : (i : ℕ) (xs : List (ℕ × Value)) → lookup i xs ≡ assigned i xs
lookup-assigned i [] = refl
lookup-assigned i ((j, v) ∷ xs) = rw (lookup-assigned i xs) refl

assign-set_values : (xs : List (ℕ × Value)) (row : List Value) → assign xs row ≡ set_values xs row
assign-set_values [] row = refl
assign-set_values ((j, v) ∷ xs) row = assign-set_values xs (set row j v)

get_elem?-set_values :
    (i : ℕ) (xs : List (ℕ × Value)) (row : List Value)
    → IsDistinct xs
    → i < length row
    → get_elem? (set_values xs row) i ≡ overlay (assigned i xs) (get_elem? row i)
get_elem?-set_values i xs row d h =
    rw (← assign-set_values xs row, ← lookup-assigned i xs) (get_elem?-assign i xs row d h)

stored_next_agree :
    (i : ℕ) (o p : Option Value) (b : Bool) (r r' : Outcome QueryError (List (ℕ × Value)))
    → missing o b ≡ false
    → (b ≡ false → r ≡ r')
    → stored_next i o r ≡ stored_next i (overlay o p) r'
stored_next_agree i none p b r r' m e = cc
stored_next_agree i (some v) p b r r' m e = rw (e m) refl

agree :
    (i : ℕ) (cols : List ColumnDef) (xs : List (ℕ × Value)) (row : List Value)
    → IsDistinct xs
    → i + length cols ≤ length row
    → leaves_out i cols xs ≡ false
    → assigned_columns i cols xs ≡ row_columns i cols (set_values xs row)
unfolding assigned_columns row_columns
agree i [] xs row d l h = refl
agree i (col ∷ cols) xs row d l h = rw (get_elem?-set_values i xs row d (omega arith)) (
    both (is_key col) (leaves_out (suc i) cols xs) _ _ h
      λ e. agree (suc i) cols xs row d (omega arith) e)
  where
    both :
        (k b : Bool) (r r' : Outcome QueryError (List (ℕ × Value)))
        → (if k then b else missing (assigned i xs) b) ≡ false
        → (b ≡ false → r ≡ r')
        → (if k then r else stored_next i (assigned i xs) r)
          ≡ (if k then r' else stored_next i (overlay (assigned i xs) (get_elem? row i)) r')
    both true b r r' m e = e m
    both false b r r' m e = stored_next_agree i (assigned i xs) (get_elem? row i) b r r' m e

-- Where the assignments have distinct columns and leave out no regular column, the columns that
-- UPDATE's fast path stores are those of the read-modify-write, whatever row was stored before.
pub assigned_columns-row_columns :
    (table : TableDef) (xs : List (ℕ × Value)) (row : List Value)
    → IsDistinct xs
    → length row ≡ length table.columns
    → leaves_out 0 table.columns xs ≡ false
    → assigned_columns 0 table.columns xs ≡ row_columns 0 table.columns (set_values xs row)
assigned_columns-row_columns table xs row d l h = agree 0 table.columns xs row d (omega arith) h

-- A run that panics if the test holds, and is fine if it does not.
abbrev PanicsIf : Bool → Outcome QueryError (List (ℕ × Value)) → Type 0
PanicsIf b r = (b ≡ true → r ≡ panic) × (b ≡ false → (vs : List (ℕ × Value)) × (r ≡ ok vs))

panics_step :
    (i : ℕ) (k b : Bool) (o : Option Value) (r : Outcome QueryError (List (ℕ × Value)))
    → PanicsIf b r
    → PanicsIf (if k then b else missing o b) (if k then r else stored_next i o r)
panics_step i true b o r f = f
panics_step i false b none r f = (λ h. refl, λ h. cc)
panics_step i false true (some v) r (p, q) = (λ h. rw (p refl) refl, λ h. cc)
panics_step i false false (some v) r (p, q) =
    (λ h. cc, λ h. let (vs, e) = q refl in ((i % 2 ^ 16, v) ∷ vs, rw e refl))

panics :
    (i : ℕ) (cols : List ColumnDef) (xs : List (ℕ × Value))
    → PanicsIf (leaves_out i cols xs) (assigned_columns i cols xs)
unfolding assigned_columns
panics i [] xs = (λ h. cc, λ h. ([], refl))
panics i (col ∷ cols) xs =
    panics_step i (is_key col) (leaves_out (suc i) cols xs) (assigned i xs)
      (assigned_columns (suc i) cols xs) (panics (suc i) cols xs)

module _ (rocks : Rocks) (json : Json) ⦃cases : CaseMap⦄ ⦃parsers : Parsers⦄ where
  -- An UPDATE whose table is found and writable, whose parts are in order, and whose assignments pass
  -- for all regular columns by their number, but leave one of them out, panics.
  pub exec_update-panic :
      (session : Option Bytes) (upd : Update) (c : Context rocks) (ks : Bytes) (table : TableDef)
      (s : Store rocks) (parts : List Bytes) (xs : List (ℕ × Value)) (b : Binds)
      → resolve_table rocks json session upd.table_name c.store ≡ (ok (ks, table), s)
      → check_writable ks ≡ ok tt
      → update_plan table upd c.binds ≡ (ok (parts, xs), b)
      → covers_all_regular table xs ≡ true
      → leaves_out 0 table.columns xs ≡ true
      → (exec_update rocks json session upd c).0 ≡ panic
  unfolding exec_update check_writable
  exec_update-panic session upd c ks table s parts xs b r w p k l =
      rw (r, w, p) (rw k (rw ((panics 0 table.columns xs).0 l) refl))
