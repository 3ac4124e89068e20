-- ===== src/Keys/Prefixes.antt =====
-- A scan by the encoding of a partition's parts meets exactly the rows of the partition.
use rhyda.Prelude.{
  ◌≡◌, refl, sym, ap, ap₂, ◌∙◌, ◌↔◌, true, List, [], ◌∷◌, ◌++◌, length, drop, take, append_assoc,
  drop-append, take-append, length-append, All, arith,
}
use rhyda.Prelude.Bytes.{
  Bytes, to_be, from_be, take-to_be, from_be-to_be, starts_with, starts_with-append,
  starts_with→append,
}
use rhyda.Keys.Parts.{encode_parts, encode_key}
use rhyda.Keys.RoundTrip.{Short, encode_key-cons, length-encode_key}
use mathlib.Core.List.{append_cancel_left}

encode_key-append : (ps qs : List Bytes) → encode_key (ps ++ qs) ≡ encode_key ps ++ encode_key qs
encode_key-append [] qs = unfold encode_key encode_parts in refl
encode_key-append (p ∷ ps) qs =
    rw (encode_key-cons p (ps ++ qs), encode_key-cons p ps)
      (rw (encode_key-append ps qs) (simp append_assoc))

-- Two encodings that agree at the front have the same first part.
same_head :
    (p q : Bytes) (xs ys : Bytes)
    → Short p
    → Short q
    → to_be 2 (length p) ++ (p ++ xs) ≡ to_be 2 (length q) ++ (q ++ ys)
    → (p ≡ q) × (xs ≡ ys)
same_head p q xs ys sp sq e =
    let l : length p ≡ length q =
      sym (from_be-to_be 2 (length p) sp)
      ∙ ap from_be (
          sym (take-to_be 2 (length p) (p ++ xs))
          ∙ ap (take 2) e
          ∙ take-to_be 2 (length q) (q ++ ys))
      ∙ from_be-to_be 2 (length q) sq in
    let r : p ++ xs ≡ q ++ ys =
      append_cancel_left (to_be 2 (length q)) (p ++ xs) (q ++ ys) (rw l at e) in
    (
      sym (take-append p xs) ∙ ap (take (length p)) r ∙ rw l (take-append q ys),
      sym (drop-append p xs) ∙ ap (drop (length p)) r ∙ rw l (drop-append q ys),
    )

encode_key-nil : encode_key [] ≡ []
unfolding encode_key encode_parts
encode_key-nil = refl

-- An encoding followed by bytes is the encoding of more parts only if these continue it.
encode_key_prefix :
    (partition parts : List Bytes) (r : Bytes)
    → All Short partition
    → All Short parts
    → encode_key parts ≡ encode_key partition ++ r
    → (rest : List Bytes) × (parts ≡ partition ++ rest)
encode_key_prefix [] parts r sp sq e = (parts, refl)
encode_key_prefix (p ∷ ps) [] r sp sq e = absurd (
    omega (
      arith,
      ap length e,
      length-encode_key p ps,
      length-append (encode_key (p ∷ ps)) r,
      ap length encode_key-nil,
    ))
encode_key_prefix (p ∷ ps) (q ∷ qs) r (sp, sps) (sq, sqs) e =
    let (h, t) =
      same_head q p (encode_key qs) (encode_key ps ++ r) sq sp
        (sym (encode_key-cons q qs) ∙ e ∙ rw (encode_key-cons p ps) (simp append_assoc)) in
    let (rest, d) = encode_key_prefix ps qs r sps sqs t in
    (rest, ap₂ (λ (x : Bytes) (xs : List Bytes). x ∷ xs) h d)

-- The key of a row lies in the scan of a partition exactly when the partition's parts are the first
-- parts of the row's key; all parts are shorter than 2 ^ 16.
pub partition_scan :
    (prefix : Bytes) (partition parts : List Bytes)
    → All Short partition
    → All Short parts
    → (starts_with (prefix ++ encode_key parts) (prefix ++ encode_key partition) ≡ true)
      ↔ ((rest : List Bytes) × (parts ≡ partition ++ rest))
partition_scan prefix partition parts sp sq = (fore, back)
  where
    fore :
        starts_with (prefix ++ encode_key parts) (prefix ++ encode_key partition) ≡ true
        → (rest : List Bytes) × (parts ≡ partition ++ rest)
    fore h =
        let r = drop (length (prefix ++ encode_key partition)) (prefix ++ encode_key parts) in
        encode_key_prefix partition parts r sp sq (
          append_cancel_left prefix (encode_key parts) (encode_key partition ++ r) (
            starts_with→append (prefix ++ encode_key parts) (prefix ++ encode_key partition) h
            ∙ append_assoc prefix (encode_key partition) r))

    back :
        (rest : List Bytes) × (parts ≡ partition ++ rest)
        → starts_with (prefix ++ encode_key parts) (prefix ++ encode_key partition) ≡ true
    back (rest, e) =
        rw (e, encode_key-append partition rest)
          (rw (← append_assoc prefix (encode_key partition) (encode_key rest))
            (starts_with-append (prefix ++ encode_key partition) (encode_key rest)))
