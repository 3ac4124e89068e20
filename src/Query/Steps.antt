-- ===== src/Query/Steps.antt =====
-- Computations on the storage and the gates of a request, for the statements of src/query.rs that
-- change the schema.
use rhyda.Prelude.{ℕ, List, ◌++◌, Outcome, ok, err, panic}
use rhyda.Fault.{Fault}
use rhyda.Storage.Engine.{Rocks}
use rhyda.Storage.Rows.{Store}
use rhyda.Query.Errors.{QueryError, internal_err}
use rhyda.Query.Binds.{map_fault}
use rhyda.Query.Insert.{Context}

abbrev pub Step : Rocks → Type 0 → Type 0
Step rocks A = Context rocks → Outcome QueryError A × Context rocks

module _ {rocks : Rocks} where
  abbrev pub step_on :
      {A B : Type 0}
      → Outcome QueryError A × Context rocks
      → (A → Step rocks B)
      → Outcome QueryError B × Context rocks
  step_on (ok a, c) f = f a c
  step_on (err e, c) f = (err e, c)
  step_on (panic, c) f = (panic, c)

  infixl 5 ◌>>=◌
  abbrev pub ◌>>=◌ : {A B : Type 0} → Step rocks A → (A → Step rocks B) → Step rocks B
  (m >>= f) c = step_on (m c) f

  abbrev pub give : {A : Type 0} → Outcome QueryError A → Step rocks A
  give r c = (r, c)

  -- `.map_err(internal_err)?` on an operation of the storage.
  abbrev pub on_store : {A : Type 0} → (Store rocks → Outcome Fault A × Store rocks) → Step rocks A
  on_store f c = let (r, s) = f c.store in (map_fault internal_err r, record c { store = s })

  abbrev pub change : (Store rocks → Store rocks) → Step rocks (Unit {0})
  change f c = (ok tt, record c { store = f c.store })

  -- An operation whose tickets the statement drops, and one whose tickets go to the gates.
  abbrev pub unawaited : (Store rocks → ℕ × Store rocks) → Step rocks (Unit {0})
  unawaited f c = let (ticket, s) = f c.store in (ok tt, record c { store = s })

  abbrev pub gated : (Store rocks → List ℕ × Store rocks) → Step rocks (Unit {0})
  gated f c =
      let (tickets, s) = f c.store in (ok tt, record c { store = s; gates = c.gates ++ tickets })
