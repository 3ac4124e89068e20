-- ===== src/Keys/RoundTrip.antt =====
-- `decode_key_data` accepts exactly the keys that `encode_key` writes from parts of a length below
-- 2 ^ 16, and gives the parts back.
use rhyda.Prelude.{
  ℕ, zero, suc, ◌+◌, ◌≤◌, ◌<◌, ◌^◌, ◌≡◌, refl, sym, ap, ◌∙◌, ◌↔◌, true, not, List, [], ◌∷◌, ◌++◌,
  length, take, drop, take-append, drop-append, take-append-drop, drop-drop, ltb-eq-false,
  ltb-false→le, Bool-cases, inl, inr, if◌then◌else◌, err, length-take, length-drop, length-append,
  append_assoc, append-nil, All, All-drop, All-take, ltb, arith, ok, ◌>>=◌, Ensures, holds, raised,
  Ensures-ok, Ensures-if, Ensures-bind, Ensures-weaken,
}
use rhyda.Prelude.Bytes.{
  Bytes, IsByte, IsBytes, to_be, from_be, length-to_be, from_be-to_be, take-to_be, drop-to_be,
  from_be-lt, starts_with, starts_with-append, starts_with→append,
}
use rhyda.Prelude.Slices.{slice_to-ok, slice_from-ok, slice_from-take}
use rhyda.Fault.{Fault, corrupt_key}
use rhyda.Keys.Parts.{encode_parts, encode_key, decode_parts, decode_key_data}

abbrev pub Short : Bytes → Type 0
Short p = length p < 2 ^ 16

-- The encoding from the front, without the buffer.
pub encode_parts-append :
    (out : Bytes) (ps : List Bytes) → encode_parts out ps ≡ out ++ encode_key ps
unfolding encode_parts encode_key
encode_parts-append out [] = sym (append-nil out)
encode_parts-append out (p ∷ ps) =
    encode_parts-append ((out ++ to_be 2 (length p)) ++ p) ps
    ∙ (simp append_assoc
        (rw (encode_parts-append ((to_be 2 (length p)) ++ p) ps) (simp append_assoc)))

pub encode_key-cons :
    (p : Bytes) (ps : List Bytes) → encode_key (p ∷ ps) ≡ to_be 2 (length p) ++ (p ++ encode_key ps)
unfolding encode_key encode_parts
encode_key-cons p ps =
    encode_parts-append (to_be 2 (length p) ++ p) ps
    ∙ append_assoc (to_be 2 (length p)) p (encode_key ps)

-- The two bytes of a length below 2 ^ 16 are its two digits.
to_be-from_be_two :
    (rest : Bytes) → IsBytes rest → 2 ≤ length rest → to_be 2 (from_be (take 2 rest)) ≡ take 2 rest
unfolding to_be from_be
to_be-from_be_two [] h l = absurd (omega arith)
to_be-from_be_two (a ∷ []) h l = absurd (omega arith)
to_be-from_be_two (a ∷ b ∷ rest) h l = ground arith

module _ (p : Bytes) (ps : List Bytes) where
  drop_len : drop 2 (encode_key (p ∷ ps)) ≡ p ++ encode_key ps
  drop_len = rw encode_key-cons (drop-to_be 2 (length p) (p ++ encode_key ps))

  drop_part : drop (2 + length p) (encode_key (p ∷ ps)) ≡ encode_key ps
  drop_part =
      drop-drop 2 (length p) (encode_key (p ∷ ps)) ∙ rw drop_len (drop-append p (encode_key ps))

  pub length-encode_key : length (encode_key (p ∷ ps)) ≡ 2 + length p + length (encode_key ps)
  length-encode_key = rw encode_key-cons (
      omega (
        arith,
        length-append (to_be 2 (length p)) (p ++ encode_key ps),
        length-append p (encode_key ps),
        length-to_be 2 (length p),
      ))

  len_of : Short p → from_be (take 2 (encode_key (p ∷ ps))) ≡ length p
  len_of short =
      rw encode_key-cons
        (rw (take-to_be 2 (length p) (p ++ encode_key ps)) (from_be-to_be 2 (length p) short))

-- A round of the decoder without the slices: behind its two tests no slice is out of range.
pub decode_parts_tested :
    (fuel b : ℕ) (bs : Bytes)
    → let rest = b ∷ bs in
      let len = from_be (take 2 rest) in
      decode_parts (suc fuel) rest ≡ (
        if ltb (length rest) 2
        then err corrupt_key
        else if ltb (length rest) (2 + len)
        then err corrupt_key
        else (decode_parts fuel (drop (2 + len) rest) >>= λ ps. ok (take len (drop 2 rest) ∷ ps)))
unfolding decode_parts
decode_parts_tested fuel b bs = elim (Bool-cases (ltb (length rest) 2)) [
  | inl y ↦ rw y refl
  | inr n ↦
      rw (n, slice_to-ok {E = Fault} 2 rest (ltb-false→le (length rest) 2 n))
        (elim (Bool-cases (ltb (length rest) (2 + len))) [
          | inl y ↦ rw y refl
          | inr m ↦
              let room = ltb-false→le (length rest) (2 + len) m in
              rw (m, slice_to-ok {E = Fault} (2 + len) rest room)
                (rw (slice_from-take {E = Fault} 2 len rest room)
                  (rw (slice_from-ok {E = Fault} (2 + len) rest room) refl))
        ])
]
  where
    rest : Bytes
    rest = b ∷ bs

    len : ℕ
    len = from_be (take 2 rest)

-- One round of the decoder, on a part that lies inside the rest.
decode_parts_step :
    (fuel : ℕ) (rest : Bytes) (len : ℕ)
    → from_be (take 2 rest) ≡ len
    → 2 + len ≤ length rest
    → decode_parts (suc fuel) rest
      ≡ (decode_parts fuel (drop (2 + len) rest) >>= λ ps. ok (take len (drop 2 rest) ∷ ps))
decode_parts_step fuel [] len e l = absurd (omega arith)
decode_parts_step fuel (b ∷ bs) len e l = rw (← e) (
    decode_parts_tested fuel b bs
    ∙ rw
        (
          ltb-eq-false (length (b ∷ bs)) 2 (omega arith),
          ltb-eq-false (length (b ∷ bs)) (2 + from_be (take 2 (b ∷ bs))) (omega (arith, e)),
        )
        refl)

-- Enough fuel reads back the parts.
decode_parts-encode_key :
    (fuel : ℕ) (ps : List Bytes)
    → All Short ps
    → length (encode_key ps) ≤ fuel
    → decode_parts fuel (encode_key ps) ≡ ok ps
decode_parts-encode_key fuel [] h l = unfold encode_key encode_parts decode_parts in refl
decode_parts-encode_key zero (p ∷ ps) h l = absurd (omega (arith, length-encode_key p ps))
decode_parts-encode_key (suc fuel) (p ∷ ps) (short, h) l =
    let n = length-encode_key p ps in
    decode_parts_step fuel (encode_key (p ∷ ps)) (length p) (len_of p ps short) (omega (arith, n))
    ∙ rw (drop_part p ps, drop_len p ps)
        (rw (decode_parts-encode_key fuel ps h (omega (arith, n)), take-append p (encode_key ps)))

-- A table's key with parts of a length below 2 ^ 16 is decoded to these parts.
pub decode_key_data-encode_key :
    (prefix : Bytes) (ps : List Bytes)
    → All Short ps
    → decode_key_data prefix (prefix ++ encode_key ps) ≡ ok ps
unfolding decode_key_data
decode_key_data-encode_key prefix ps h = rw (starts_with-append prefix (encode_key ps)) (
    rw
      (slice_from-ok {E = Fault} (length prefix) (prefix ++ encode_key ps)
        (omega (arith, length-append prefix (encode_key ps))))
      (rw (drop-append prefix (encode_key ps))
        (decode_parts-encode_key (length (encode_key ps)) ps h (omega arith))))

abbrev Decoded : Bytes → List Bytes → Type 0
Decoded rest ps = (rest ≡ encode_key ps) × All Short ps

-- The part that a round of the decoder takes, in front of the encoding of the others.
module _ (rest : Bytes) (h : IsBytes rest) (two : 2 ≤ length rest)
    (room : 2 + from_be (take 2 rest) ≤ length rest) where
  part : Bytes
  part = take (from_be (take 2 rest)) (drop 2 rest)

  length-part : length part ≡ from_be (take 2 rest)
  unfolding part
  length-part =
      length-take (from_be (take 2 rest)) (drop 2 rest) (omega (arith, length-drop 2 rest))

  part-Short : Short part
  part-Short = omega (
    arith,
    length-part,
    length-take 2 rest two,
    rw (length-take 2 rest two) at (from_be-lt (take 2 rest) (All-take IsByte 2 rest h)),
  )

  reassemble :
      (ps : List Bytes)
      → drop (2 + from_be (take 2 rest)) rest ≡ encode_key ps
      → rest ≡ encode_key (part ∷ ps)
  reassemble ps e = rw (encode_key-cons part ps) (
      rw (length-part, to_be-from_be_two rest h two)
        (rw (← e) (
          rw (drop-drop 2 (from_be (take 2 rest)) rest) (
            unfold part in
            rw (take-append-drop (from_be (take 2 rest)) (drop 2 rest))
              (sym (take-append-drop 2 rest))))))

decode_parts_sound :
    (fuel : ℕ) (rest : Bytes)
    → IsBytes rest
    → length rest ≤ fuel
    → Ensures ⊥ (Decoded rest) (decode_parts fuel rest)
unfolding part decode_parts
decode_parts_sound fuel [] h l = holds (encode_key_nil, tt)
  where
    encode_key_nil : [] ≡ encode_key []
    encode_key_nil = unfold encode_key encode_parts in refl
decode_parts_sound zero (b ∷ bs) h l = absurd (omega arith)
decode_parts_sound (suc fuel) (b ∷ bs) h l =
    let rest : Bytes = b ∷ bs in
    let len = from_be (take 2 rest) in
    rw (decode_parts_tested fuel b bs) (
      Ensures-if (ltb (length rest) 2) (λ _. raised)
        λ two.
          Ensures-if (ltb (length rest) (2 + len)) (λ _. raised)
            λ room.
              Ensures-bind
                (decode_parts_sound fuel (drop (2 + len) rest) (All-drop IsByte (2 + len) rest h)
                  (omega (arith, length-drop (2 + len) rest)))
                λ ps _ q.
                  let t : 2 ≤ length rest = ground arith in
                  let r : 2 + len ≤ length rest = ground arith in
                  holds (reassemble rest h t r ps q.0, (part-Short rest h t r, q.1)))

pub prefix_fits :
    (prefix full_key : Bytes) → starts_with full_key prefix ≡ true → length prefix ≤ length full_key
prefix_fits prefix full_key st =
    let e = ap length (starts_with→append full_key prefix st) in
    omega (arith, e, length-append prefix (drop (length prefix) full_key))

-- On any key of bytes the decoder ends with an error or with parts of a length below 2 ^ 16 whose
-- encoding behind the prefix is the key, and never panics or lacks fuel.
pub decode_key_data_sound :
    (prefix full_key : Bytes)
    → IsBytes full_key
    → Ensures ⊥
        (λ ps. (full_key ≡ prefix ++ encode_key ps) × All Short ps)
        (decode_key_data prefix full_key)
unfolding decode_key_data
decode_key_data_sound prefix full_key h =
    let rest = drop (length prefix) full_key in
    Ensures-if (not (starts_with full_key prefix)) (λ _. raised)
      λ n.
        let st : starts_with full_key prefix ≡ true = ground arith in
        rw (slice_from-ok {E = Fault} (length prefix) full_key (prefix_fits prefix full_key st)) (
          Ensures-weaken (λ q. q)
            (λ ps (d, s). (starts_with→append full_key prefix st ∙ ap (λ r. prefix ++ r) d, s))
            (decode_parts_sound (length rest) rest (All-drop IsByte (length prefix) full_key h)
              (omega arith)))

-- The decoder accepts a key of bytes exactly when it is the prefix and the encoding of parts of a
-- length below 2 ^ 16, and these parts are what it returns.
pub decode_key_data-eq-ok_iff :
    (prefix full_key : Bytes) (ps : List Bytes)
    → IsBytes full_key
    → (decode_key_data prefix full_key ≡ ok ps)
      ↔ ((full_key ≡ prefix ++ encode_key ps) × All Short ps)
decode_key_data-eq-ok_iff prefix full_key ps h = (
  λ e. Ensures-ok (decode_key_data_sound prefix full_key h) e,
  λ (e, s). rw e (decode_key_data-encode_key prefix ps s),
)
