-- ===== src/Keys/Tables.antt =====
-- src/storage.rs: the data prefixes of tables, which `data_prefix` forms from the two names.
use rhyda.Prelude.{◌≡◌, ◌≢◌, refl, sym, ◌∙◌, true, [], ◌∷◌, ◌++◌, length, drop, append_assoc, All}
use rhyda.Prelude.Bytes.{Bytes, starts_with, starts_with→append}
use rhyda.Keys.Parts.{dt_prefix, bang, data_prefix}
use mathlib.Core.List.{append_cancel_left}

-- The name has no `!`, which separates the names in a key.
abbrev pub NoBang : Bytes → Type 0
NoBang = All (λ c. c ≢ 33)

split_bang : (x y r s : Bytes) → NoBang x → NoBang y → x ++ 33 ∷ r ≡ y ++ 33 ∷ s → (x ≡ y) × (r ≡ s)
split_bang [] [] r s hx hy e = (refl, (cc))
split_bang [] (b ∷ y) r s hx hy e = absurd (hy.0 (cc))
split_bang (a ∷ x) [] r s hx hy e = absurd (hx.0 (cc))
split_bang (a ∷ x) (b ∷ y) r s hx hy e = let (p, q) = split_bang x y r s hx.1 hy.1 (cc) in (cc, q)

-- Where the four names have no `!`, a key of one table starts with the data prefix of another only
-- if the two are one table.
pub data_prefix_disjoint :
    (ks tb ks' tb' r : Bytes)
    → NoBang ks
    → NoBang tb
    → NoBang ks'
    → NoBang tb'
    → starts_with (data_prefix ks tb ++ r) (data_prefix ks' tb') ≡ true
    → (ks ≡ ks') × (tb ≡ tb')
unfolding data_prefix
data_prefix_disjoint ks tb ks' tb' r hk ht hk' ht' h =
    let k = data_prefix ks tb ++ r in
    let t = drop (length (data_prefix ks' tb')) k in
    let e : ks ++ 33 ∷ (tb ++ 33 ∷ r) ≡ ks' ++ 33 ∷ (tb' ++ 33 ∷ t) =
      append_cancel_left dt_prefix _ _
        (shape ks tb r ∙ starts_with→append k (data_prefix ks' tb') h ∙ sym (shape ks' tb' t)) in
    let (p, q) = split_bang ks ks' _ _ hk hk' e in (p, (split_bang tb tb' r t ht ht' q).0)
  where
    shape : (a b s : Bytes) → dt_prefix ++ (a ++ 33 ∷ (b ++ 33 ∷ s)) ≡ data_prefix a b ++ s
    shape a b s = simp append_assoc

-- With a `!` in a name the prefixes of two tables can be one: for all a, b and c, table c of
-- keyspace a!b and table b!c of keyspace a keep their rows under the same prefix.
pub data_prefix_collision :
    (a b c : Bytes) → data_prefix (a ++ (bang ++ b)) c ≡ data_prefix a (b ++ (bang ++ c))
unfolding data_prefix
data_prefix_collision a b c = simp append_assoc
