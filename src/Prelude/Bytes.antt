-- ===== src/Prelude/Bytes.antt =====
-- Byte strings and the big-endian encodings. A Rust `String` is its UTF-8 bytes.
use Prim.Native.Char.{code}
use Prim.Native.String.{String}
use native.Mathlib.Nat.{pow-suc}
use rhyda.Prelude.Tests.{◌==◌, leb, ltb, if◌then◌else◌}
use rhyda.Prelude.Lists.{length, take, drop, take-append, drop-append, All, length-append}
use Prim.Native.Nat.{ℕ, zero, suc, ◌+◌, ◌*◌, ◌/◌, ◌%◌, ◌^◌, ◌<◌}
use mathlib.Core.Path.{◌≡◌, refl, ◌∙◌}
use mathlib.Core.Logic.{◌↔◌}
use mathlib.Core.Bool.{Bool, true, false, ◌&&◌, ◌||◌}
use mathlib.Core.List.{List, [], ◌∷◌, ◌++◌, map}
use native.Mathlib.Omega.{arith}

abbrev pub Bytes : Type 0
Bytes = List ℕ

abbrev pub IsByte : ℕ → Type 0
IsByte b = b < 256

abbrev pub IsBytes : Bytes → Type 0
IsBytes = All IsByte

abbrev pub bytes_eq : Bytes → Bytes → Bool
bytes_eq [] [] = true
bytes_eq [] (y ∷ ys) = false
bytes_eq (x ∷ xs) [] = false
bytes_eq (x ∷ xs) (y ∷ ys) = x == y && bytes_eq xs ys

pub bytes_eq_iff : (xs ys : Bytes) → (bytes_eq xs ys ≡ true) ↔ (xs ≡ ys)
bytes_eq_iff [] [] = (λ _. refl, λ _. refl)
bytes_eq_iff [] (y ∷ ys) = (λ h. cc, λ h. cc)
bytes_eq_iff (x ∷ xs) [] = (λ h. cc, λ h. cc)
bytes_eq_iff (x ∷ xs) (y ∷ ys) =
    (λ h. ground (arith, bytes_eq_iff xs ys), λ h. ground (arith, bytes_eq_iff xs ys))

-- The `k` low bytes of a number, the highest first: `to_be_bytes` of a word of `k` bytes.
unfoldable pub to_be : ℕ → ℕ → Bytes
to_be zero n = []
to_be (suc k) n = to_be k (n / 256) ++ (n % 256) ∷ []

-- `from_be_bytes`, continued from the digits read so far.
unfoldable pub from_be_acc : ℕ → Bytes → ℕ
from_be_acc acc [] = acc
from_be_acc acc (b ∷ bs) = from_be_acc (acc * 256 + b) bs

unfoldable pub from_be : Bytes → ℕ
unfolding from_be_acc
from_be = from_be_acc 0

pub length-to_be : (k n : ℕ) → length (to_be k n) ≡ k
unfolding to_be
length-to_be zero n = refl
length-to_be (suc k) n =
    omega (arith, length-append (to_be k (n / 256)) ((n % 256) ∷ []), length-to_be k (n / 256))

pub to_be-IsBytes : (k n : ℕ) → IsBytes (to_be k n)
unfolding to_be
to_be-IsBytes zero n = tt
to_be-IsBytes (suc k) n =
    snoc (to_be k (n / 256)) (n % 256) (to_be-IsBytes k (n / 256)) (omega arith)
  where
    snoc : (xs : Bytes) (b : ℕ) → IsBytes xs → b < 256 → IsBytes (xs ++ b ∷ [])
    snoc [] b h hb = (hb, tt)
    snoc (x ∷ xs) b h hb = (h.0, snoc xs b h.1 hb)

from_be_acc-append :
    (acc : ℕ) (xs ys : Bytes) → from_be_acc acc (xs ++ ys) ≡ from_be_acc (from_be_acc acc xs) ys
unfolding from_be_acc
from_be_acc-append acc [] ys = refl
from_be_acc-append acc (x ∷ xs) ys = from_be_acc-append (acc * 256 + x) xs ys

pub from_be-to_be : (k n : ℕ) → n < 256 ^ k → from_be (to_be k n) ≡ n
unfolding from_be to_be from_be_acc
from_be-to_be zero n h = omega arith
from_be-to_be (suc k) n h =
    from_be_acc-append 0 (to_be k (n / 256)) ((n % 256) ∷ [])
    ∙ omega (arith, from_be-to_be k (n / 256) (below h))
  where
    below : n < 256 ^ suc k → n / 256 < 256 ^ k
    below p = let q : n < 256 ^ k * 256 = rw pow-suc at p in omega arith

from_be_acc-lt :
    (acc k : ℕ) (bs : Bytes) → IsBytes bs → acc < k → from_be_acc acc bs < k * 256 ^ length bs
unfolding from_be_acc
from_be_acc-lt acc k [] h lt = omega arith
from_be_acc-lt acc k (b ∷ bs) (hb, hs) lt =
    rw (pow-suc 256 (length bs)) (
      rw (arrange (256 ^ length bs)) (from_be_acc-lt (acc * 256 + b) (k * 256) bs hs (omega arith)))
  where
    arrange : (p : ℕ) → k * (p * 256) ≡ k * 256 * p
    arrange p = omega arith

pub from_be-lt : (bs : Bytes) → IsBytes bs → from_be bs < 256 ^ length bs
unfolding from_be
from_be-lt bs h = omega (arith, from_be_acc-lt 0 1 bs h (omega arith))

-- The bytes of an ASCII text literal.
abbrev pub codes : String → Bytes
codes String.[] = []
codes (String.◌∷◌ c s) = code c ∷ codes s

unfoldable pub ascii_lower : ℕ → ℕ
ascii_lower c = if leb 65 c && leb c 90 then c + 32 else c

-- `eq_ignore_ascii_case`
abbrev pub eq_ignore_ascii_case : Bytes → Bytes → Bool
eq_ignore_ascii_case xs ys = bytes_eq (map ascii_lower xs) (map ascii_lower ys)

-- `starts_with`
unfoldable pub starts_with : Bytes → Bytes → Bool
starts_with k [] = true
starts_with [] (p ∷ ps) = false
starts_with (x ∷ k) (p ∷ ps) = x == p && starts_with k ps

pub starts_with-append : (p r : Bytes) → starts_with (p ++ r) p ≡ true
unfolding starts_with
starts_with-append [] [] = refl
starts_with-append [] (x ∷ r) = refl
starts_with-append (x ∷ p) r = ground (arith, starts_with-append p r)

pub starts_with→append : (k p : Bytes) → starts_with k p ≡ true → k ≡ p ++ drop (length p) k
unfolding starts_with
starts_with→append k [] h = refl
starts_with→append [] (p ∷ ps) h = cc
starts_with→append (x ∷ k) (p ∷ ps) h = ground (arith, starts_with→append k ps)

pub take-to_be : (k n : ℕ) (xs : Bytes) → take k (to_be k n ++ xs) ≡ to_be k n
take-to_be k n xs = rw (length-to_be k n) at (take-append (to_be k n) xs)

pub drop-to_be : (k n : ℕ) (xs : Bytes) → drop k (to_be k n ++ xs) ≡ xs
drop-to_be k n xs = rw (length-to_be k n) at (drop-append (to_be k n) xs)

-- The order of byte strings: `Vec<u8>`'s, and that of the engines' keys.
unfoldable pub bytes_lt : Bytes → Bytes → Bool
bytes_lt xs [] = false
bytes_lt [] (y ∷ ys) = true
bytes_lt (x ∷ xs) (y ∷ ys) = ltb x y || (x == y && bytes_lt xs ys)
