-- ===== src/Prelude/Slices.antt =====
-- Slices of a `&[u8]`, which panic out of range.
use Prim.Native.Nat.{ℕ, zero, suc, ◌+◌, ◌≤◌}
use mathlib.Core.Path.{◌≡◌, refl, ap, ◌∙◌}
use mathlib.Core.List.{List, [], ◌∷◌}
use native.Mathlib.Omega.{arith}
use rhyda.Prelude.Tests.{ltb, ltb-eq-false, if◌then◌else◌}
use rhyda.Prelude.Lists.{length, take, drop, length-take}
use rhyda.Prelude.Outcomes.{Outcome, ok, panic}

drop-take {ℓ} :
    {A : Type ℓ} (m n k : ℕ) (d : List A) → k ≡ m + n → drop m (take k d) ≡ take n (drop m d)
drop-take zero n k d e = ap (λ t. take t d) (omega (arith, e))
drop-take (suc m) n zero d e = absurd (omega (arith, e))
drop-take (suc m) zero (suc k) [] e = refl
drop-take (suc m) (suc n) (suc k) [] e = refl
drop-take (suc m) n (suc k) (x ∷ d) e = drop-take m n k d (omega (arith, e))

module _ {ℓ} {E : Type 0} {A : Type ℓ} where
  -- `d[..n]`
  unfoldable pub slice_to : ℕ → List A → Outcome E (List A)
  slice_to n d = if ltb (length d) n then panic else ok (take n d)

  -- `d[n..]`
  unfoldable pub slice_from : ℕ → List A → Outcome E (List A)
  slice_from n d = if ltb (length d) n then panic else ok (drop n d)

  pub slice_to-ok : (n : ℕ) (d : List A) → n ≤ length d → slice_to n d ≡ ok (take n d)
  unfolding slice_to
  slice_to-ok n d h = rw (ltb-eq-false (length d) n h) refl

  pub slice_from-ok : (n : ℕ) (d : List A) → n ≤ length d → slice_from n d ≡ ok (drop n d)
  unfolding slice_from
  slice_from-ok n d h = rw (ltb-eq-false (length d) n h) refl

  -- `d[m..m + n]` in two slices.
  pub slice_from-take :
      (m n : ℕ) (d : List A)
      → m + n ≤ length d
      → slice_from m (take (m + n) d) ≡ ok (take n (drop m d))
  slice_from-take m n d h =
      slice_from-ok m (take (m + n) d) (omega (arith, length-take (m + n) d h))
      ∙ ap ok (drop-take m n (m + n) d refl)
