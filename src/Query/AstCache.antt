-- ===== src/Query/AstCache.antt =====
-- src/storage.rs and src/query.rs: the cache of parsed statements, `ast_cache_get`, `ast_cache_put`
-- and `parse_cached`. The parser is a parameter.
use rhyda.Prelude.{
  ℕ, ◌≤◌, ◌<◌, ◌+◌, ◌≡◌, refl, ap, sym, subst, ◌∙◌, Bool, leb, if◌then◌else◌, List, [], ◌∷◌, length,
  All, Option, none, some, Outcome, ok, err, panic, arith, Bool-cases, inl, inr,
}
use rhyda.Prelude.Bytes.{Bytes, bytes_eq, bytes_eq_iff}
use rhyda.Query.Errors.{QueryError, syntax_err, bad_syntax}

-- `CassandraAST`, with the statements of a text.
pub record Ast (S : Type 0) : Type 0 where
  pub has_error : Bool
  pub statements : List (Bool × S)

abbrev pub ast_cache_capacity : ℕ
ast_cache_capacity = 8192

-- The entries of the `HashMap`, one for each key.
abbrev pub AstCache : Type 0 → Type 0
AstCache S = List (Bytes × S)

module _ {S : Type 0} where
  unfoldable pub ast_cache_get : Bytes → AstCache S → Option S
  ast_cache_get query [] = none
  ast_cache_get query ((q, stmt) ∷ cache) =
      let rest = ast_cache_get query cache in if bytes_eq q query then some stmt else rest

  -- `HashMap::insert`
  abbrev insert : Bytes → S → AstCache S → AstCache S
  insert query stmt [] = (query, stmt) ∷ []
  insert query stmt ((q, old) ∷ cache) =
      let rest = insert query stmt cache in
      if bytes_eq q query then (q, stmt) ∷ cache else (q, old) ∷ rest

  unfoldable pub ast_cache_put : Bytes → S → AstCache S → AstCache S
  ast_cache_put query stmt cache =
      insert query stmt (if leb ast_cache_capacity (length cache) then [] else cache)

  -- `ast.statements.first().filter(|s| !s.has_error)`
  abbrev first_statement : List (Bool × S) → Outcome QueryError S
  first_statement [] = err (syntax_err bad_syntax)
  first_statement ((has_error, stmt) ∷ rest) =
      if has_error then err (syntax_err bad_syntax) else ok stmt

  -- The statement of a text, without the cache.
  unfoldable pub statement_of : (Bytes → Ast S) → Bytes → Outcome QueryError S
  statement_of parse query =
      if (parse query).has_error
      then err (syntax_err bad_syntax)
      else first_statement (parse query).statements

  abbrev kept : Bytes → AstCache S → Outcome QueryError S → Outcome QueryError S × AstCache S
  kept query cache (ok stmt) = (ok stmt, ast_cache_put query stmt cache)
  kept query cache (err e) = (err e, cache)
  kept query cache panic = (panic, cache)

  abbrev looked_up :
      (Bytes → Ast S) → Bytes → AstCache S → Option S → Outcome QueryError S × AstCache S
  looked_up parse query cache (some stmt) = (ok stmt, cache)
  looked_up parse query cache none = kept query cache (statement_of parse query)

  unfoldable pub parse_cached :
      (Bytes → Ast S) → Bytes → AstCache S → Outcome QueryError S × AstCache S
  unfolding ast_cache_get ast_cache_put statement_of
  parse_cached parse query cache = looked_up parse query cache (ast_cache_get query cache)

  module _ (parse : Bytes → Ast S) where
    -- Every entry is what its text parses to, and there are no more entries than the capacity.
    abbrev pub IsCoherent : AstCache S → Type 0
    IsCoherent cache =
        All (λ (q, stmt). statement_of parse q ≡ ok stmt) cache
        × (length cache ≤ ast_cache_capacity)

    ast_cache_get_lem :
        (query : Bytes) (stmt : S) (cache : AstCache S)
        → All (λ (q, t). statement_of parse q ≡ ok t) cache
        → ast_cache_get query cache ≡ some stmt
        → statement_of parse query ≡ ok stmt
    unfolding ast_cache_get
    ast_cache_get_lem query stmt [] h e = cc
    ast_cache_get_lem query stmt ((q, t) ∷ cache) (h, hs) e = elim (Bool-cases (bytes_eq q query)) [
      | inl y ↦
          let p : q ≡ query = (bytes_eq_iff q query).0 y in
          let r : some t ≡ some stmt = rw y at e in
          let w : t ≡ stmt = cc in subst (λ u. statement_of parse u ≡ ok stmt) p (h ∙ ap ok w)
      | inr n ↦ ast_cache_get_lem query stmt cache hs (rw n at e)
    ]

    insert_lem :
        (query : Bytes) (stmt : S) (cache : AstCache S)
        → All (λ (q, t). statement_of parse q ≡ ok t) cache
        → statement_of parse query ≡ ok stmt
        → All (λ (q, t). statement_of parse q ≡ ok t) (insert query stmt cache)
          × (length (insert query stmt cache) ≤ length cache + 1)
    insert_lem query stmt [] h e = ((e, tt), omega arith)
    insert_lem query stmt ((q, t) ∷ cache) (h, hs) e =
        let (a, b) = insert_lem query stmt cache hs e in
        elim (Bool-cases (bytes_eq q query)) [
          | inl y ↦
              let p : q ≡ query = (bytes_eq_iff q query).0 y in rw y ((rw p e, hs), omega arith)
          | inr n ↦ rw n ((h, a), omega arith)
        ]

    ast_cache_put-IsCoherent :
        (query : Bytes) (stmt : S) (cache : AstCache S)
        → IsCoherent cache
        → statement_of parse query ≡ ok stmt
        → IsCoherent (ast_cache_put query stmt cache)
    unfolding ast_cache_put
    ast_cache_put-IsCoherent query stmt cache (h, l) e =
        elim (Bool-cases (leb ast_cache_capacity (length cache))) [
          | inl y ↦ rw y ((e, tt), omega arith)
          | inr n ↦
              let (a, b) = insert_lem query stmt cache h e in
              let room : length cache < ast_cache_capacity = ground arith in
              rw n (a, omega (arith, room))
        ]

    -- With a coherent cache of statements, the cached parse of a text answers what the parser answers
    -- for it, errors included, and the cache stays coherent: every entry is the statement of its text,
    -- and there are 8192 entries at most.
    pub parse_cached-statement_of :
        (query : Bytes) (cache : AstCache S)
        → IsCoherent cache
        → ((parse_cached parse query cache).0 ≡ statement_of parse query)
          × IsCoherent (parse_cached parse query cache).1
    unfolding parse_cached
    parse_cached-statement_of query cache h = looked (ast_cache_get query cache) refl
      where
        fresh :
            (r : Outcome QueryError S)
            → statement_of parse query ≡ r
            → ((kept query cache r).0 ≡ r) × IsCoherent (kept query cache r).1
        fresh (ok stmt) e = (refl, ast_cache_put-IsCoherent query stmt cache h e)
        fresh (err x) e = (refl, h)
        fresh panic e = (refl, h)

        looked :
            (o : Option S)
            → ast_cache_get query cache ≡ o
            → ((looked_up parse query cache o).0 ≡ statement_of parse query)
              × IsCoherent (looked_up parse query cache o).1
        looked none e = fresh (statement_of parse query) refl
        looked (some stmt) e = (sym (ast_cache_get_lem query stmt cache h.0 e), h)
