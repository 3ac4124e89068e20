-- ===== src/Prelude/Int.antt =====
-- Rust's signed integers: ℤ with the two's complement conversions of a width, given by its modulus.
use Prim.Native.Nat.{ℕ, ◌+◌, ◌-◌, ◌%◌, ◌<◌, ◌^◌}
use mathlib.Core.Path.{◌≡◌}
use mathlib.Core.Bool.{Bool, true, false}
use native.Mathlib.Omega.{arith}
use native.Mathlib.Nat.{mod-eq_of_lt}
use rhyda.Prelude.Tests.{ltb, ◌==◌, if◌then◌else◌}

-- `negsuc n` is -(n + 1).
pub data ℤ : Type 0 where
  pos : ℕ → ℤ
  negsuc : ℕ → ℤ

abbrev pub int_eq : ℤ → ℤ → Bool
int_eq (pos a) (pos b) = a == b
int_eq (negsuc a) (negsuc b) = a == b
int_eq _ _ = false

abbrev pub is_negative : ℤ → Bool
is_negative (pos n) = false
is_negative (negsuc n) = true

-- `z as usize` of a non-negative z.
abbrev pub to_usize : ℤ → ℕ
to_usize (pos n) = n
to_usize (negsuc n) = 2 ^ 64 - 1 - n

-- The value lies in the range of a signed integer with modulus m = 2 ^ width.
abbrev pub Fits : ℕ → ℤ → Type 0
Fits m (pos n) = n + n < m
Fits m (negsuc n) = n + n + 1 < m

-- The bit pattern of a value, and the value of a bit pattern.
unfoldable pub wrap : ℕ → ℤ → ℕ
wrap m (pos n) = n % m
wrap m (negsuc n) = m - 1 - n % m

unfoldable pub signed : ℕ → ℕ → ℤ
signed m u = if ltb (u + u) m then pos u else negsuc (m - 1 - u)

pub wrap-lt : (m : ℕ) (z : ℤ) → 0 < m → wrap m z < m
unfolding wrap
wrap-lt m (pos n) h = grind arith
wrap-lt m (negsuc n) h = grind arith

pub signed-wrap : (m : ℕ) (z : ℤ) → Fits m z → signed m (wrap m z) ≡ z
unfolding signed wrap
signed-wrap m (pos n) h = let e : n % m ≡ n = mod-eq_of_lt (omega arith) in rw e (ground arith)
signed-wrap m (negsuc n) h = let e : n % m ≡ n = mod-eq_of_lt (omega arith) in rw e (ground arith)

pub Fits-signed : (m u : ℕ) → u < m → m % 2 ≡ 0 → Fits m (signed m u)
unfolding signed
Fits-signed m u h e = ground arith
