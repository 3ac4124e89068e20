-- ===== src/Keys/Bounds.antt =====
-- src/storage.rs: `prefix_upper_bound`, the end of the range that a range tombstone covers, against
-- the bytewise order of the engines' keys.
use rhyda.Prelude.{
  ℕ, ◌+◌, ◌≤◌, ◌<◌, ◌≡◌, refl, ◌↔◌, Bool, true, false, not, ◌&&◌, ltb, if◌then◌else◌, [], ◌∷◌, ◌++◌,
  Option, none, some, All, arith,
}
use rhyda.Prelude.Bytes.{Bytes, starts_with, bytes_lt}

-- `for b in end.iter_mut().rev()`: the last byte below 0xFF is incremented, and the bytes behind it
-- are left as they are.
unfoldable pub prefix_upper_bound : Bytes → Option Bytes
prefix_upper_bound [] = none
prefix_upper_bound (b ∷ bs) = elim (prefix_upper_bound bs) [
  | some end ↦ some (b ∷ end)
  | none ↦ if ltb b 0xFF then some ((b + 1) ∷ bs) else none
]

-- The range from `start` up to and without `end`.
unfoldable pub in_range : Bytes → Bytes → Bytes → Bool
in_range start end k = not (bytes_lt k start) && bytes_lt k end

snoc_bound :
    (p : Bytes) (b : ℕ) → b < 255 → prefix_upper_bound (p ++ b ∷ []) ≡ some (p ++ (b + 1) ∷ [])
unfolding prefix_upper_bound
snoc_bound [] b h = ground arith
snoc_bound (x ∷ p) b h = ground (arith, snoc_bound p b h)

-- What starts with a prefix is not below it.
pub starts_with_ge : (k p : Bytes) → starts_with k p ≡ true → bytes_lt k p ≡ false
unfolding starts_with bytes_lt
starts_with_ge k [] h = refl
starts_with_ge [] (x ∷ p) h = cc
starts_with_ge (y ∷ k) (x ∷ p) h = ground (arith, starts_with_ge k p)

-- For a prefix that ends in a byte below 0xFF, as every prefix that the program forms does, the range
-- holds exactly the keys that start with the prefix.
pub range_exact :
    (p : Bytes) (b : ℕ) (k : Bytes)
    → b < 255
    → in_range (p ++ b ∷ []) (p ++ (b + 1) ∷ []) k ≡ starts_with k (p ++ b ∷ [])
unfolding in_range bytes_lt starts_with
range_exact [] b [] h = refl
range_exact [] b (x ∷ []) h = ground arith
range_exact [] b (x ∷ y ∷ k) h = ground arith
range_exact (c ∷ p) b [] h = refl
range_exact (c ∷ p) b (x ∷ k) h = ground (arith, range_exact p b k h)

-- A prefix that ends in a byte below 0xFF has an upper bound, and the range up to it holds exactly
-- the keys that start with the prefix.
pub prefix_upper_bound_exact :
    (p : Bytes) (b : ℕ)
    → b < 255
    → (end : Bytes) × (prefix_upper_bound (p ++ b ∷ []) ≡ some end)
      × ((k : Bytes) → in_range (p ++ b ∷ []) end k ≡ starts_with k (p ++ b ∷ []))
prefix_upper_bound_exact p b h = (p ++ (b + 1) ∷ [], snoc_bound p b h, λ k. range_exact p b k h)

-- For any prefix that has an upper bound, the range holds every key that starts with the prefix.
pub prefix_upper_bound_covers :
    (p end k : Bytes)
    → prefix_upper_bound p ≡ some end
    → starts_with k p ≡ true
    → in_range p end k ≡ true
unfolding prefix_upper_bound in_range starts_with bytes_lt
prefix_upper_bound_covers [] end k e h = cc
prefix_upper_bound_covers (b ∷ p) [] k e h = ground arith
prefix_upper_bound_covers (b ∷ p) (c ∷ end) [] e h = cc
prefix_upper_bound_covers (b ∷ p) (c ∷ end) (x ∷ k) e h =
    ground (arith, prefix_upper_bound_covers p end k, starts_with_ge k p)

-- There is no upper bound exactly when every byte is 0xFF or more.
pub prefix_upper_bound-eq-none_iff :
    (p : Bytes) → (prefix_upper_bound p ≡ none) ↔ All (λ b. 255 ≤ b) p
unfolding prefix_upper_bound
prefix_upper_bound-eq-none_iff [] = (λ _. tt, λ _. refl)
prefix_upper_bound-eq-none_iff (b ∷ p) = (
  λ h. ground (arith, prefix_upper_bound-eq-none_iff p),
  λ h. ground (arith, prefix_upper_bound-eq-none_iff p),
)
