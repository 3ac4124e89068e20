-- ===== src/Storage/Callbacks.antt =====
-- Invariants of what a callback of a scan gathers.
use rhyda.Prelude.{
  ℕ, zero, suc, ◌≡◌, refl, Bool, true, false, Bool-cases, inl, inr, List, [], ◌∷◌, Outcome, ok,
  ◌>>=◌, Ensures, holds, Ensures-bind,
}
use rhyda.Prelude.Bytes.{Bytes, starts_with}
use rhyda.Storage.Engine.{Rocks}
use rhyda.Storage.Rows.{Store}
use rhyda.Storage.Scan.{
  Callback, stream, for_each_on_engine, for_each_engine, for_each_in_table, for_each_in_partition,
}

-- While the scan goes on, `I` holds of what is gathered; `J` holds of it in the end.
abbrev pub Keeps : {E S : Type 0} → (S → Type 0) → (S → Type 0) → Outcome E (Bool × S) → Type 0
Keeps I J = Ensures Unit (λ (go_on, t). J t × (go_on ≡ true → I t))

module _ {E S : Type 0} (I J : S → Type 0) (J_of : (t : S) → I t → J t) where
  Keeps-and :
      {r : Outcome E (Bool × S)} {f : S → Outcome E (Bool × S)}
      → Keeps I J r
      → ((t : S) → I t → Keeps I J (f t))
      → Keeps I J (r >>= λ (go_on, t). elim go_on [ true ↦ f t | false ↦ ok (false, t) ])
  Keeps-and {f} h k = Ensures-bind h λ (go_on, t) e (j, i). go go_on t j i
    where
      go :
          (b : Bool) (t : S)
          → J t
          → (b ≡ true → I t)
          → Keeps I J (elim b [ true ↦ f t | false ↦ ok (false, t) ])
      go true t j i = k t (i refl)
      go false t j i = holds (j, λ e. cc)

  module _ (f : Callback E S) (step : (k v : Bytes) (t : S) → I t → Keeps I J (f k v t)) where
    pub stream-Keeps :
        (prefix : Bytes) (es : List (Bytes × Bytes)) (t : S)
        → I t
        → Keeps I J (stream f prefix es t)
    unfolding stream
    stream-Keeps prefix [] t i = holds (J_of t i, λ e. i)
    stream-Keeps prefix ((k, v) ∷ es) t i = elim (Bool-cases (starts_with k prefix)) [
      | inl y ↦ rw y (Keeps-and (step k v t i) λ u j. stream-Keeps prefix es u j)
      | inr n ↦ rw n (holds (J_of t i, λ e. i))
    ]

    module _ (rocks : Rocks) (s : Store rocks) where
      for_each_on_engine-Keeps :
          (e : ℕ) (prefix : Bytes) (t : S)
          → I t
          → Keeps I J (for_each_on_engine rocks e prefix f s t)
      unfolding for_each_on_engine
      for_each_on_engine-Keeps e prefix t i = stream-Keeps prefix _ t i

      for_each_engine-Keeps :
          (e left : ℕ) (prefix : Bytes) (t : S)
          → I t
          → Keeps I J (for_each_engine rocks e left prefix f s t)
      unfolding for_each_engine
      for_each_engine-Keeps e zero prefix t i = holds (J_of t i, λ _. i)
      for_each_engine-Keeps e (suc left) prefix t i =
          Keeps-and (for_each_on_engine-Keeps e prefix t i)
            λ u j. for_each_engine-Keeps (suc e) left prefix u j

      pub for_each_in_table-Keeps :
          (ks tb : Bytes) (t : S) → I t → Keeps I J (for_each_in_table rocks ks tb f s t)
      unfolding for_each_in_table
      for_each_in_table-Keeps ks tb t i = for_each_engine-Keeps 0 s.shards _ t i

      pub for_each_in_partition-Keeps :
          (ks tb : Bytes) (partition : List Bytes) (t : S)
          → I t
          → Keeps I J (for_each_in_partition rocks ks tb partition f s t)
      unfolding for_each_in_partition
      for_each_in_partition-Keeps ks tb partition t i = for_each_on_engine-Keeps _ _ t i
