-- ===== src/Query/Guarded.antt =====
-- Statements that name a system keyspace change nothing.
use rhyda.Prelude.{
  ◌≡◌, refl, Bool, true, false, any, Option, none, some, Outcome, ok, err, panic, arith,
}
use rhyda.Prelude.Int.{ℤ}
use rhyda.Prelude.Bytes.{Bytes, bytes_eq}
use rhyda.Schema.Types.{KeyspaceDef, TableDef}
use rhyda.Schema.Idents.{Identifier, CaseMap, norm_id}
use rhyda.Fault.{Fault}
use rhyda.Value.Literal.{Parsers}
use rhyda.Storage.Engine.{Rocks}
use rhyda.Storage.Rows.{Store}
use rhyda.Storage.Catalogue.{Json, get_keyspace, get_table, cache_keyspace, cache_table}
use rhyda.Query.Syntax.{FqName}
use rhyda.Query.Errors.{
  QueryError, invalid_err, not_writable, internal_err, check_writable, system_keyspaces,
}
use rhyda.Query.Binds.{map_fault}
use rhyda.Query.Insert.{
  Context, Response, void, keyspace_of, table_or_missing, resolve_table, on_writable, exec_insert,
  exec_delete,
}
use rhyda.Query.Update.{exec_update}
use rhyda.Query.Ddl.{
  keyspace_or, unless, new_keyspace, new_table, remove_keyspace, remove_table, CreateKeyspace,
  CreateTableAs, CommonDrop, exec_create_keyspace, exec_create_table, exec_drop_keyspace,
  exec_drop_table, exec_truncate,
}
use rhyda.Query.Steps.{Step, step_on, ◌>>=◌, give, on_store, gated}
use rhyda.Storage.Removal.{truncate_table}
use rhyda.Query.Execute.{
  Statement, use_keyspace, create_keyspace, create_table, drop_keyspace, drop_table, insert, select,
  delete, update, truncate, other, execute_statement,
}

-- The keyspace that a statement would change.
abbrev pub target : ⦃cases : CaseMap⦄ → Option Bytes → Statement → Outcome QueryError Bytes
target session (create_keyspace ks) = ok (norm_id ks.name)
target session (drop_keyspace d) = ok (norm_id d.name.name)
target session (create_table t) = keyspace_or session t.name.keyspace
target session (drop_table d) = keyspace_or session d.name.keyspace
target session (insert i) = keyspace_or session i.table_name.keyspace
target session (delete d) = keyspace_or session d.table_name.keyspace
target session (update u) = keyspace_or session u.table_name.keyspace
target session (truncate name) = keyspace_or session name.keyspace
target session _ = panic

-- Nothing is written, nothing is queued, and a response says that nothing happened.
abbrev pub IsRefused :
    {rocks : Rocks} → Context rocks → Outcome QueryError Response × Context rocks → Type 0
IsRefused c (ok response, d) =
    (response ≡ void) × (d.store.engines ≡ c.store.engines) × (d.gates ≡ c.gates)
IsRefused c (_, d) = (d.store.engines ≡ c.store.engines) × (d.gates ≡ c.gates)

module _ (rocks : Rocks) (json : Json) where
  engines-get_table :
      (ks tb : Bytes) (s : Store rocks) → (get_table rocks json ks tb s).1.engines ≡ s.engines
  unfolding get_table cache_table
  engines-get_table ks tb s = ground arith

  engines-get_keyspace :
      (ks : Bytes) (s : Store rocks) → (get_keyspace rocks json ks s).1.engines ≡ s.engines
  unfolding get_keyspace cache_keyspace
  engines-get_keyspace ks s = ground arith

module _ (rocks : Rocks) (json : Json) ⦃cases : CaseMap⦄ ⦃parsers : Parsers⦄ where
  keyspace_of-keyspace_or :
      (session : Option Bytes) (k : Option Identifier)
      → keyspace_of rocks json session k ≡ keyspace_or session k
  unfolding keyspace_or
  keyspace_of-keyspace_or none (some k) = refl
  keyspace_of-keyspace_or (some s) (some k) = refl
  keyspace_of-keyspace_or none none = refl
  keyspace_of-keyspace_or (some s) none = refl

module _ (rocks : Rocks) (json : Json) ⦃cases : CaseMap⦄ ⦃parsers : Parsers⦄
    (session : Option Bytes) (ks : Bytes) (x : QueryError) (c : Context rocks)
    (guarded : check_writable ks ≡ err x) where
  looked_up :
      (table : Bytes)
      (run : Bytes → TableDef → Context rocks → Outcome QueryError Response × Context rocks)
      (r : Outcome Fault (Option TableDef)) (s : Store rocks)
      → s.engines ≡ c.store.engines
      → IsRefused c (
          on_writable rocks json run
            (table_or_missing rocks json ks table (map_fault internal_err r))
            (record c { store = s }))
  unfolding check_writable
  looked_up table run (ok (some def)) s e = rw guarded (e, refl)
  looked_up table run (ok none) s e = (e, refl)
  looked_up table run (err y) s e = (e, refl)
  looked_up table run panic s e = (e, refl)

  -- A statement on a row or a truncation, which looks the table up and then checks the keyspace.
  row_refused :
      (name : FqName)
      (run : Bytes → TableDef → Context rocks → Outcome QueryError Response × Context rocks)
      → keyspace_or session name.keyspace ≡ ok ks
      → IsRefused c (
          on_writable rocks json run
            (resolve_table rocks json session name c.store).0
            (record c { store = (resolve_table rocks json session name c.store).1 }))
  unfolding resolve_table
  row_refused name run e =
      rw (keyspace_of-keyspace_or rocks json session name.keyspace, e)
        (looked_up (norm_id name.name) run (get_table rocks json ks (norm_id name.name) c.store).0
          (get_table rocks json ks (norm_id name.name) c.store).1
          (engines-get_table rocks json ks (norm_id name.name) c.store))

  -- A statement that goes on from what a look-up in the catalogue finds.
  found_refused :
      {A : Type 0} (look : Store rocks → Outcome Fault A × Store rocks)
      (go_on : A → Step rocks Response)
      → (look c.store).1.engines ≡ c.store.engines
      → ((a : A) (d : Context rocks)
          → d.store.engines ≡ c.store.engines
          → d.gates ≡ c.gates
          → IsRefused c (go_on a d))
      → IsRefused c ((on_store look >>= go_on) c)
  found_refused {A} look go_on e k = go (look c.store) e
    where
      go :
          (found : Outcome Fault A × Store rocks)
          → found.1.engines ≡ c.store.engines
          → IsRefused c
              (step_on (map_fault internal_err found.0, record c { store = found.1 }) go_on)
      go (ok a, s) q = k a (record c { store = s }) q refl
      go (err y, s) q = (q, refl)
      go (panic, s) q = (q, refl)

  unless_refused :
      (b : Bool) (y : QueryError) (d : Context rocks)
      → d.store.engines ≡ c.store.engines
      → d.gates ≡ c.gates
      → IsRefused c (unless rocks json b y d)
  unless_refused true y d e g = (refl, e, g)
  unless_refused false y d e g = (e, g)

  -- The statements on tables and keyspaces, whose check comes after a look-up.
  create_table_refused :
      (t : CreateTableAs)
      → keyspace_or session t.name.keyspace ≡ ok ks
      → IsRefused c (exec_create_table rocks json session t c)
  unfolding exec_create_table
  create_table_refused t e = rw e (
      found_refused (get_table rocks json ks (norm_id t.name.name)) _
        (engines-get_table rocks json ks (norm_id t.name.name) c.store) found)
    where
      found :
          (a : Option TableDef) (d : Context rocks)
          → d.store.engines ≡ c.store.engines
          → d.gates ≡ c.gates
          → IsRefused c (new_table rocks json t ks (norm_id t.name.name) a d)
      found (some def) d q g = unless_refused t.if_not_exists _ d q g
      found none d q g = rw (IsRefused, guarded) (q, g)

  drop_table_refused :
      (t : CommonDrop)
      → keyspace_or session t.name.keyspace ≡ ok ks
      → IsRefused c (exec_drop_table rocks json session t c)
  unfolding exec_drop_table
  drop_table_refused t e = rw e (
      found_refused (get_table rocks json ks (norm_id t.name.name)) _
        (engines-get_table rocks json ks (norm_id t.name.name) c.store) found)
    where
      found :
          (a : Option TableDef) (d : Context rocks)
          → d.store.engines ≡ c.store.engines
          → d.gates ≡ c.gates
          → IsRefused c (remove_table rocks json t ks (norm_id t.name.name) a d)
      found none d q g = unless_refused t.if_exists _ d q g
      found (some def) d q g = rw (IsRefused, guarded) (q, g)

  drop_keyspace_refused :
      (t : CommonDrop) → norm_id t.name.name ≡ ks → IsRefused c (exec_drop_keyspace rocks json t c)
  unfolding exec_drop_keyspace
  drop_keyspace_refused t e = rw e (
      found_refused (get_keyspace rocks json ks) _ (engines-get_keyspace rocks json ks c.store)
        found)
    where
      found :
          (a : Option KeyspaceDef) (d : Context rocks)
          → d.store.engines ≡ c.store.engines
          → d.gates ≡ c.gates
          → IsRefused c (remove_keyspace rocks json t ks a d)
      found none d q g = unless_refused t.if_exists _ d q g
      found (some def) d q g = rw (IsRefused, guarded) (q, g)

  create_keyspace_refused :
      (k : CreateKeyspace)
      → norm_id k.name ≡ ks
      → any (λ s. bytes_eq s ks) system_keyspaces ≡ true
      → IsRefused c (exec_create_keyspace rocks json k c)
  unfolding exec_create_keyspace
  create_keyspace_refused k e system = rw e (
      found_refused (get_keyspace rocks json ks) _ (engines-get_keyspace rocks json ks c.store)
        found)
    where
      found :
          (a : Option KeyspaceDef) (d : Context rocks)
          → d.store.engines ≡ c.store.engines
          → d.gates ≡ c.gates
          → IsRefused c (new_keyspace rocks json k ks a d)
      found (some def) d q g = unless_refused k.if_not_exists _ d q g
      found none d q g = rw (IsRefused, system) (q, g)

  truncate_refused :
      (name : FqName)
      → keyspace_or session name.keyspace ≡ ok ks
      → IsRefused c (exec_truncate rocks json session name c)
  unfolding exec_truncate resolve_table
  truncate_refused name e =
      rw (keyspace_of-keyspace_or rocks json session name.keyspace, e)
        (found (get_table rocks json ks (norm_id name.name) c.store).0
          (get_table rocks json ks (norm_id name.name) c.store).1
          (engines-get_table rocks json ks (norm_id name.name) c.store))
    where
      truncated : Bytes × TableDef → Step rocks Response
      truncated t = give (check_writable t.0) >>= λ u.
          gated (truncate_table rocks t.0 (norm_id name.name)) >>= λ v. give (ok void)

      found :
          (r : Outcome Fault (Option TableDef)) (s : Store rocks)
          → s.engines ≡ c.store.engines
          → IsRefused c (
              step_on
                (
                  table_or_missing rocks json ks (norm_id name.name) (map_fault internal_err r),
                  record c { store = s },
                )
                truncated)
      found (ok (some def)) s q = rw (IsRefused, guarded) (q, refl)
      found (ok none) s q = (q, refl)
      found (err y) s q = (q, refl)
      found panic s q = (q, refl)

  refused :
      (stmt : Statement) (page_size : Option ℤ) (state : Option Bytes)
      → any (λ s. bytes_eq s ks) system_keyspaces ≡ true
      → target session stmt ≡ ok ks
      → IsRefused c (execute_statement rocks json session stmt page_size state c)
  unfolding execute_statement exec_insert exec_delete exec_update
  refused (use_keyspace id) page_size state h e = cc
  refused (create_keyspace k) page_size state h e = create_keyspace_refused k (cc) h
  refused (create_table t) page_size state h e = create_table_refused t e
  refused (drop_keyspace d) page_size state h e = drop_keyspace_refused d (cc)
  refused (drop_table d) page_size state h e = drop_table_refused d e
  refused (insert i) page_size state h e = row_refused i.table_name _ e
  refused (select s) page_size state h e = cc
  refused (delete d) page_size state h e = row_refused d.table_name _ e
  refused (update u) page_size state h e = row_refused u.table_name _ e
  refused (truncate name) page_size state h e = truncate_refused name e
  refused (other s) page_size state h e = cc

module _ (rocks : Rocks) (json : Json) ⦃cases : CaseMap⦄ ⦃parsers : Parsers⦄ where
  -- A statement that would change a keyspace of the system, named by itself or by the session's
  -- keyspace: whatever it answers, no engine changes, nothing is queued and no ticket is waited for; it
  -- answers an error, panics, or answers Void.
  pub execute_statement-IsRefused :
      (session : Option Bytes) (stmt : Statement) (page_size : Option ℤ) (state : Option Bytes)
      (ks : Bytes) (c : Context rocks)
      → target session stmt ≡ ok ks
      → any (λ s. bytes_eq s ks) system_keyspaces ≡ true
      → IsRefused c (execute_statement rocks json session stmt page_size state c)
  unfolding check_writable
  execute_statement-IsRefused session stmt page_size state ks c e h =
      refused rocks json session ks (invalid_err (not_writable ks)) c (rw h refl) stmt page_size
        state h e
