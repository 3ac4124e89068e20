-- ===== src/Prelude/Outcomes.antt =====
-- What a fallible Rust function gives: `Ok`, `Err`, or a panic of the thread that runs it.
use mathlib.Core.Path.{◌≡◌, refl, subst}
use rhyda.Prelude.Tests.{if◌then◌else◌}
use mathlib.Core.Bool.{Bool, true, false}
use mathlib.Core.Option.{Option, none, some}

pub data Outcome {ℓ} (E : Type 0) (A : Type ℓ) : Type ℓ where
  ok : A → Outcome E A
  err : E → Outcome E A
  panic : Outcome E A

module _ {ℓ κ} {E : Type 0} {A : Type ℓ} {B : Type κ} where
  infixl 5 ◌>>=◌
  abbrev pub ◌>>=◌ : Outcome E A → (A → Outcome E B) → Outcome E B
  ok a >>= f = f a
  err e >>= f = err e
  panic >>= f = panic

  -- The two runs of a sequence that ended well.
  pub bind_ok :
      (r : Outcome E A) (f : A → Outcome E B) {b : B}
      → (r >>= f) ≡ ok b
      → (a : A) × (r ≡ ok a) × (f a ≡ ok b)
  bind_ok (ok a) f e = (a, refl, e)
  bind_ok (err x) f e = cc
  bind_ok panic f e = cc

  -- Continuations that agree on what the run gives.
  pub bind_agrees :
      (r : Outcome E A) (f g : A → Outcome E B)
      → ((a : A) → r ≡ ok a → f a ≡ g a)
      → (r >>= f) ≡ (r >>= g)
  bind_agrees (ok a) f g h = h a refl
  bind_agrees (err e) f g h = refl
  bind_agrees panic f g h = refl

module _ {ℓ} {E : Type 0} {A : Type ℓ} where
  infixl 5 ◌>>◌
  abbrev pub ◌>>◌ : Outcome E (Unit {0}) → Outcome E A → Outcome E A
  ok u >> k = k
  err e >> k = err e
  panic >> k = panic

  -- `ok_or_else`
  abbrev pub ok_or : E → Option A → Outcome E A
  ok_or e none = err e
  ok_or e (some a) = ok a

  -- an index, a slice or an `unwrap` that panics on `None`
  abbrev pub unwrap : Option A → Outcome E A
  unwrap none = panic
  unwrap (some a) = ok a

-- `return Err(e)` unless the test holds
abbrev pub ensure : {E : Type 0} → Bool → E → Outcome E (Unit {0})
ensure true e = ok tt
ensure false e = err e

abbrev pub map_err {ℓ} : {E F : Type 0} {A : Type ℓ} → (E → F) → Outcome E A → Outcome F A
map_err f (ok a) = ok a
map_err f (err e) = err (f e)
map_err f panic = panic

-- A run that ends well has a value with `P`; one that panics shows `Q`.
pub data Ensures {ℓ κ} {E : Type 0} {A : Type ℓ} (Q : Type 0) (P : A → Type κ)
    : Outcome E A → Type (ℓ ⊔ κ) where
  holds : {a : A} → P a → Ensures Q P (ok a)
  raised : {e : E} → Ensures Q P (err e)
  died : Q → Ensures Q P panic

module _ {ℓ κ} {E : Type 0} {A : Type ℓ} {Q : Type 0} {P : A → Type κ} where
  pub Ensures-ok : {r : Outcome E A} {a : A} → Ensures Q P r → r ≡ ok a → P a
  Ensures-ok (holds h) e = subst P (cc) h
  Ensures-ok raised e = cc
  Ensures-ok (died q) e = cc

  pub Ensures-panic : {r : Outcome E A} → Ensures Q P r → r ≡ panic → Q
  Ensures-panic (holds h) e = cc
  Ensures-panic raised e = cc
  Ensures-panic (died q) e = q

  pub Ensures-if :
      (b : Bool) {x y : Outcome E A}
      → (b ≡ true → Ensures Q P x)
      → (b ≡ false → Ensures Q P y)
      → Ensures Q P (if b then x else y)
  Ensures-if true hx hy = hx refl
  Ensures-if false hx hy = hy refl

  pub Ensures-bind {ℓ' κ'} :
      {B : Type ℓ'} {R : B → Type κ'} {r : Outcome E A} {f : A → Outcome E B}
      → Ensures Q P r
      → ((a : A) → r ≡ ok a → P a → Ensures Q R (f a))
      → Ensures Q R (r >>= f)
  Ensures-bind (holds {a} h) k = k a refl h
  Ensures-bind raised k = raised
  Ensures-bind (died q) k = died q

  pub Ensures-weaken {κ'} :
      {R : Type 0} {P' : A → Type κ'} {r : Outcome E A}
      → (Q → R)
      → ((a : A) → P a → P' a)
      → Ensures Q P r
      → Ensures R P' r
  Ensures-weaken f g (holds {a} h) = holds (g a h)
  Ensures-weaken f g raised = raised
  Ensures-weaken f g (died q) = died (f q)
