-- ===== src/Keys/Total.antt =====
-- Every end of `decode_key_data` in src/storage.rs, on any bytes.
use rhyda.Prelude.{
  ℕ, zero, suc, ◌+◌, ◌≡◌, ◌≢◌, refl, sym, ◌∙◌, ◌⊎◌, inl, inr, Bool, true, false, Bool-cases, List,
  [], ◌∷◌, ◌++◌, length, drop, take, ltb, if◌then◌else◌, All, Outcome, ok, err, panic, ◌>>=◌,
  Ensures-panic,
}
use rhyda.Prelude.Slices.{slice_from-ok}
use rhyda.Prelude.Bytes.{Bytes, IsBytes, from_be, starts_with}
use rhyda.Fault.{Fault, corrupt_key, foreign_key}
use rhyda.Keys.Parts.{encode_key, decode_parts, decode_key_data}
use rhyda.Keys.RoundTrip.{
  Short, decode_parts_tested, prefix_fits, decode_key_data_sound, decode_key_data-eq-ok_iff,
}

-- The error of a round is that of its tests or of the rounds behind it.
round_fault :
    (c d : Bool) (r : Outcome Fault (List Bytes)) (part : Bytes) (x : Fault)
    → ((y : Fault) → r ≡ err y → y ≡ corrupt_key)
    → (if c then err corrupt_key else if d then err corrupt_key else (r >>= λ ps. ok (part ∷ ps)))
      ≡ err x
    → x ≡ corrupt_key
round_fault true d r part x h e = cc
round_fault false true r part x h e = cc
round_fault false false (ok ps) part x h e = cc
round_fault false false (err y) part x h e = h x e
round_fault false false panic part x h e = cc

decode_parts_fault :
    (fuel : ℕ) (rest : Bytes) (x : Fault) → decode_parts fuel rest ≡ err x → x ≡ corrupt_key
unfolding decode_parts
decode_parts_fault fuel [] x e = cc
decode_parts_fault zero (b ∷ bs) x e = cc
decode_parts_fault (suc fuel) (b ∷ bs) x e =
    let rest = b ∷ bs in
    let len = from_be (take 2 rest) in
    let next = drop (2 + len) rest in
    round_fault (ltb (length rest) 2) (ltb (length rest) (2 + len)) (decode_parts fuel next)
      (take len (drop 2 rest)) x (λ y h. decode_parts_fault fuel next y h)
      (sym (decode_parts_tested fuel b bs) ∙ e)

ok-≢-err : (ps : List Bytes) (x : Fault) → ◌≢◌ {A = Outcome Fault (List Bytes)} (ok ps) (err x)
ok-≢-err ps x e = cc

module _ (prefix full_key : Bytes) where
  decode_key_data_foreign :
      starts_with full_key prefix ≡ false → decode_key_data prefix full_key ≡ err foreign_key
  unfolding decode_key_data
  decode_key_data_foreign n = rw n refl

  decode_key_data_fault :
      (x : Fault)
      → starts_with full_key prefix ≡ true
      → decode_key_data prefix full_key ≡ err x
      → x ≡ corrupt_key
  unfolding decode_key_data
  decode_key_data_fault x st e = decode_parts_fault _ (drop (length prefix) full_key) x (
      rw (st, slice_from-ok {E = Fault} (length prefix) full_key (prefix_fits prefix full_key st))
        at e)

  -- The three ends: a foreign key, the parts, or a corrupt key.
  abbrev pub IsForeign : Type 0
  IsForeign =
      (starts_with full_key prefix ≡ false) × (decode_key_data prefix full_key ≡ err foreign_key)

  abbrev pub IsDecoded : Type 0
  IsDecoded =
      (ps : List Bytes) × (full_key ≡ prefix ++ encode_key ps)
      × All Short ps
      × (decode_key_data prefix full_key ≡ ok ps)

  abbrev pub IsCorrupt : Type 0
  IsCorrupt =
      (starts_with full_key prefix ≡ true)
      × ((ps : List Bytes) → All Short ps → full_key ≢ prefix ++ encode_key ps)
      × (decode_key_data prefix full_key ≡ err corrupt_key)

  module _ (h : IsBytes full_key) (st : starts_with full_key prefix ≡ true) where
    apart :
        (ps : List Bytes) (x : Fault)
        → All Short ps
        → full_key ≡ prefix ++ encode_key ps
        → decode_key_data prefix full_key ≢ err x
    apart ps x s f e =
        let w = (decode_key_data-eq-ok_iff prefix full_key ps h).1 (f, s) in
        ok-≢-err ps x (sym w ∙ e)

    end_of :
        (r : Outcome Fault (List Bytes))
        → decode_key_data prefix full_key ≡ r
        → IsDecoded ⊎ IsCorrupt
    end_of (ok ps) e =
        let (f, s) = (decode_key_data-eq-ok_iff prefix full_key ps h).0 e in inl (ps, f, s, e)
    end_of (err x) e =
        inr (st, λ ps s f. apart ps x s f e, e ∙ rw (decode_key_data_fault x st e) refl)
    end_of panic e = absurd (Ensures-panic (decode_key_data_sound prefix full_key h) e)

  -- On any bytes the decoder ends in exactly one of three ways, never with a panic, of a slice out of
  -- range or for want of fuel: a key without the prefix is refused as foreign; one that is the
  -- prefix and the encoding of parts of a length below 2 ^ 16 gives these parts; any other key is
  -- refused as corrupt.
  pub decode_key_data_ends : IsBytes full_key → IsForeign ⊎ IsDecoded ⊎ IsCorrupt
  decode_key_data_ends h = elim (Bool-cases (starts_with full_key prefix)) [
    | inl y ↦ inr (end_of h y (decode_key_data prefix full_key) refl)
    | inr n ↦ inl (n, decode_key_data_foreign n)
  ]
