-- ===== src/Query/BindSpecs.antt =====
-- The bind variables that a prepared statement declares for its WHERE clause, and those that its
-- execution takes.
use rhyda.Prelude.{
  ℕ, ◌+◌, ◌≡◌, refl, sym, ap, List, [], ◌∷◌, ◌++◌, length, length-append, get_elem?, find, Option,
  none, some, Outcome, ok, err, panic, arith,
}
use rhyda.Prelude.Bytes.{Bytes}
use rhyda.Schema.Types.{ColumnType, ColumnDef, TableDef}
use rhyda.Schema.Idents.{CaseMap, ident_eq}
use rhyda.Value.Types.{Value}
use rhyda.Value.Literal.{Parsers}
use rhyda.Query.Syntax.{
  Operand, Operands, nil, cons, RelationElement, RelationOperator, equal, is_in, other_relation,
}
use rhyda.Query.Errors.{QueryError}
use rhyda.Query.Binds.{Binds, Run, ◌>>=◌, continue, taken, lift, take_bind}
use rhyda.Query.Filters.{
  Filter, eq_value, in_value, in_items, in_values, restricted, column_or_undefined, filter_of,
  parse_filters,
}
use rhyda.Query.Prepare.{
  and_then, column_of, restricted_name, Specs, item_specs, value_specs, collect_where_binds,
}

-- A run that ends well takes `n` bind values.
abbrev Takes {ℓ} : {A : Type ℓ} → ℕ → Run A → Type ℓ
Takes {A} n m =
    (b : Binds) (a : A) (b' : Binds)
    → Path (Outcome QueryError A × Binds) (m b) (ok a, b')
    → b'.next ≡ b.next + n

Takes-lift {ℓ} : {A : Type ℓ} (r : Outcome QueryError A) → Takes 0 (lift r)
Takes-lift r b a b' e = let q : b ≡ b' = ap (λ t. t.1) e in rw q (omega arith)

Takes-bind :
    {A B : Type 0} (n k : ℕ) (m : Run A) (f : A → Run B)
    → Takes n m
    → ((a : A) → Takes k (f a))
    → Takes (n + k) (m >>= f)
Takes-bind {A} {B} n k m f h g b c b' e = go (m b) refl e
  where
    go :
        (r : Outcome QueryError A × Binds)
        → m b ≡ r
        → Path (Outcome QueryError B × Binds) (continue r f) (ok c, b')
        → b'.next ≡ b.next + (n + k)
    go (ok a, d) q p = omega (arith, h b a d q, g a d c b' p)
    go (err x, d) q p =
        absurd (let z : Path (Outcome QueryError B) (err x) (ok c) = ap (λ t. t.0) p in cc)
    go (panic, d) q p =
        absurd (let z : Path (Outcome QueryError B) panic (ok c) = ap (λ t. t.0) p in cc)

Takes-take_bind : (t : ColumnType) → Takes 1 (take_bind t)
unfolding take_bind
Takes-take_bind t b a b' e = go (get_elem? b.values b.next) e
  where
    go :
        (o : Option (Option Bytes))
        → Path (Outcome QueryError Value × Binds) (taken t b o) (ok a, b')
        → b'.next ≡ b.next + 1
    go none p = absurd (let z : Path (Outcome QueryError Value) _ (ok a) = ap (λ t. t.0) p in cc)
    go (some v) p = sym (ap (λ t. t.1.next) p)

Takes-err : {A : Type 0} (n : ℕ) (x : QueryError) → Takes {A = A} n (lift (err x))
Takes-err {A} n x b a b' e =
    absurd (let z : Path (Outcome QueryError A) (err x) (ok a) = ap (λ t. t.0) e in cc)

Takes-map :
    {A B : Type 0} (n : ℕ) (m : Run A) (f : A → B)
    → Takes n m
    → Takes n (m >>= λ a. lift (ok (f a)))
Takes-map n m f h b c b' e =
    omega (arith, Takes-bind n 0 m (λ a. lift (ok (f a))) h (λ a. Takes-lift (ok (f a))) b c b' e)

-- The specs of a tuple are those of its first item and those of the others.
item_specs-cons :
    (spec : Bytes × ColumnType) (o : Operand) (items : Operands)
    → length (item_specs spec (cons o items))
      ≡ length (item_specs spec (cons o nil)) + length (item_specs spec items)
item_specs-cons spec Operand.null items = omega arith
item_specs-cons spec (Operand.const x) items = omega arith
item_specs-cons spec (Operand.param x) items = omega arith
item_specs-cons spec (Operand.column x) items = omega arith
item_specs-cons spec (Operand.tuple x) items = omega arith
item_specs-cons spec (Operand.set x) items = omega arith
item_specs-cons spec (Operand.list x) items = omega arith
item_specs-cons spec (Operand.map x) items = omega arith
item_specs-cons spec (Operand.other x) items = omega arith

module _ ⦃cases : CaseMap⦄ ⦃parsers : Parsers⦄ (spec : Bytes × ColumnType) (t : ColumnType) where
  Takes-eq_value : (o : Operand) → Takes (length (value_specs spec o)) (eq_value o t)
  unfolding eq_value
  Takes-eq_value Operand.null = Takes-lift _
  Takes-eq_value (Operand.const x) = Takes-lift _
  Takes-eq_value (Operand.param x) = Takes-take_bind t
  Takes-eq_value (Operand.column x) = Takes-err _ _
  Takes-eq_value (Operand.tuple x) = Takes-err _ _
  Takes-eq_value (Operand.set x) = Takes-err _ _
  Takes-eq_value (Operand.list x) = Takes-err _ _
  Takes-eq_value (Operand.map x) = Takes-err _ _
  Takes-eq_value (Operand.other x) = Takes-err _ _

  Takes-in_value : (o : Operand) → Takes (length (item_specs spec (cons o nil))) (in_value o t)
  unfolding in_value
  Takes-in_value Operand.null = Takes-err _ _
  Takes-in_value (Operand.const x) = Takes-lift _
  Takes-in_value (Operand.param x) = Takes-take_bind t
  Takes-in_value (Operand.column x) = Takes-err _ _
  Takes-in_value (Operand.tuple x) = Takes-err _ _
  Takes-in_value (Operand.set x) = Takes-err _ _
  Takes-in_value (Operand.list x) = Takes-err _ _
  Takes-in_value (Operand.map x) = Takes-err _ _
  Takes-in_value (Operand.other x) = Takes-err _ _

  Takes-in_items : (items : Operands) → Takes (length (item_specs spec items)) (in_items items t)
  Takes-in_items nil = Takes-lift _
  Takes-in_items (cons o items) = rw (item_specs-cons spec o items) (
      Takes-bind _ _ (in_value o t) _ (Takes-in_value o)
        λ v. Takes-map _ (in_items items t) (λ vs. v ∷ vs) (Takes-in_items items))

  Takes-in_values : (o : Operand) → Takes (length (value_specs spec o)) (in_values o t)
  unfolding in_values
  Takes-in_values Operand.null =
      Takes-map _ (in_value Operand.null t) (λ v. v ∷ []) (Takes-in_value Operand.null)
  Takes-in_values (Operand.const x) =
      Takes-map _ (in_value (Operand.const x) t) (λ v. v ∷ []) (Takes-in_value (Operand.const x))
  Takes-in_values (Operand.param x) =
      Takes-map _ (in_value (Operand.param x) t) (λ v. v ∷ []) (Takes-in_value (Operand.param x))
  Takes-in_values (Operand.column x) =
      Takes-map _ (in_value (Operand.column x) t) (λ v. v ∷ []) (Takes-in_value (Operand.column x))
  Takes-in_values (Operand.tuple x) = Takes-in_items x
  Takes-in_values (Operand.set x) =
      Takes-map _ (in_value (Operand.set x) t) (λ v. v ∷ []) (Takes-in_value (Operand.set x))
  Takes-in_values (Operand.list x) =
      Takes-map _ (in_value (Operand.list x) t) (λ v. v ∷ []) (Takes-in_value (Operand.list x))
  Takes-in_values (Operand.map x) =
      Takes-map _ (in_value (Operand.map x) t) (λ v. v ∷ []) (Takes-in_value (Operand.map x))
  Takes-in_values (Operand.other x) =
      Takes-map _ (in_value (Operand.other x) t) (λ v. v ∷ []) (Takes-in_value (Operand.other x))

module _ ⦃cases : CaseMap⦄ ⦃parsers : Parsers⦄ where
  Takes-filter_of :
      (spec : Bytes × ColumnType) (op : RelationOperator) (o : Operand) (def : ColumnDef)
      → Takes (length (value_specs spec o)) (filter_of op o def)
  unfolding filter_of
  Takes-filter_of spec equal o def =
      Takes-map _ (eq_value o def.col_type) _ (Takes-eq_value spec def.col_type o)
  Takes-filter_of spec is_in o def =
      Takes-map _ (in_values o def.col_type) _ (Takes-in_values spec def.col_type o)
  Takes-filter_of spec (other_relation x) o def = Takes-err _ _

  Takes-restricted : (table : TableDef) (o : Operand) → Takes 0 (restricted table o)
  Takes-restricted table Operand.null = Takes-err _ _
  Takes-restricted table (Operand.const x) = Takes-err _ _
  Takes-restricted table (Operand.param x) = Takes-err _ _
  Takes-restricted table (Operand.column x) =
      found (find (λ (c : ColumnDef). ident_eq x c.name) table.columns)
    where
      found : (d : Option ColumnDef) → Takes 0 (column_or_undefined x d)
      found none = Takes-err _ _
      found (some d) = Takes-lift _
  Takes-restricted table (Operand.tuple x) = Takes-err _ _
  Takes-restricted table (Operand.set x) = Takes-err _ _
  Takes-restricted table (Operand.list x) = Takes-err _ _
  Takes-restricted table (Operand.map x) = Takes-err _ _
  Takes-restricted table (Operand.other x) = Takes-err _ _

  and_then_ok :
      {A B : Type 0} (r : Outcome QueryError A) (f : A → Outcome QueryError B) (b : B)
      → and_then r f ≡ ok b
      → (a : A) × (r ≡ ok a) × (f a ≡ ok b)
  and_then_ok (ok a) f b e = (a, refl, e)
  and_then_ok (err x) f b e = cc
  and_then_ok panic f b e = cc

  -- Where the bind variables of a WHERE clause can be collected for a prepared statement, and the
  -- clause is parsed for execution without an error, the parsing takes exactly as many bind values as
  -- there were variables collected.
  pub parse_filters-collect_where_binds :
      (table : TableDef) (where_clause : List RelationElement) (specs : Specs) (b b' : Binds)
      (filters : List Filter)
      → collect_where_binds table where_clause ≡ ok specs
      → parse_filters table where_clause b ≡ (ok filters, b')
      → b'.next ≡ b.next + length specs
  unfolding collect_where_binds parse_filters
  parse_filters-collect_where_binds table [] specs b b' filters e p =
      let q : [] ≡ specs = cc in omega (arith, Takes-lift (ok []) b filters b' p, ap length q)
  parse_filters-collect_where_binds table (rel ∷ rels) specs b b' filters e p =
      let (name, n, f) = and_then_ok (restricted_name rel.obj) _ specs e in
      let (col, m, g) = and_then_ok (column_of table name) _ specs f in
      let (rest, r, h) = and_then_ok (collect_where_binds table rels) _ specs g in
      let spec : Bytes × ColumnType = (name, col.col_type) in
      let q : value_specs spec rel.value ++ rest ≡ specs = cc in
      let taken =
        Takes-bind 0 _ (restricted table rel.obj) _ (Takes-restricted table rel.obj)
          (λ def.
            Takes-bind _ _ (filter_of rel.oper rel.value def) _
              (Takes-filter_of spec rel.oper rel.value def)
              λ f.
                Takes-map (length rest) (parse_filters table rels) (λ fs. f ∷ fs)
                  λ c gs c' k. parse_filters-collect_where_binds table rels rest c c' gs r k)
          b filters b' p in
      omega (arith, taken, ap length q, length-append (value_specs spec rel.value) rest)
