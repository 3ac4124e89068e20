-- ===== src/Value/Tested.antt =====
-- The decoder behind its tests: no index and no slice of `from_wire` in src/cql_value.rs is out of
-- range but `raw[0]`. Each step is stated without the indices and slices that may panic.
use rhyda.Prelude.{
  ℕ, suc, ◌+◌, ◌≤◌, ◌≡◌, refl, false, not, ◌||◌, ◌==◌, ltb, ltb-false→le, Bool-cases, inl, inr,
  if◌then◌else◌, length, take, drop, arith, Outcome, ok, err, ◌>>=◌, bind_agrees,
}
use rhyda.Prelude.Int.{is_negative, to_usize}
use rhyda.Prelude.Slices.{slice_to, slice_to-ok, slice_from-ok}
use rhyda.Prelude.Bytes.{Bytes}
use rhyda.Fault.{
  Fault, Collection, value_too_short, length_mismatch, too_short, negative_count, truncated,
}
use rhyda.Value.Types.{Value, null, cons, entry}
use rhyda.Value.Decode.{
  i32_at, read_i32, with_payload, elem_len, read_elems, read_entries, read_count,
}

pub read_i32-ok : (d : Bytes) → ltb (length d) 4 ≡ false → read_i32 d ≡ ok (i32_at d)
unfolding read_i32
read_i32-ok d h = rw h refl

pub with_payload_tested :
    (decode : Bytes → Outcome Fault Value) (input : Bytes)
    → with_payload decode input ≡ (
        if ltb (length input) 4
        then err value_too_short
        else if is_negative (i32_at input)
        then ok null
        else if not (length input == 4 + to_usize (i32_at input))
        then err length_mismatch
        else decode (drop 4 input))
unfolding with_payload
with_payload_tested decode input = elim (Bool-cases (ltb (length input) 4)) [
  | inl y ↦ rw y refl
  | inr n ↦
      rw (n, read_i32-ok input n)
        (rw (slice_from-ok {E = Fault} 4 input (ltb-false→le (length input) 4 n)) refl)
]

pub elem_len_tested :
    (c : Collection) (rest : Bytes)
    → elem_len c rest ≡ (
        if ltb (length rest) 4
        then err (truncated c)
        else if is_negative (i32_at rest) || ltb (length rest) (4 + to_usize (i32_at rest))
        then err (truncated c)
        else ok (to_usize (i32_at rest)))
unfolding elem_len
elem_len_tested c rest = elim (Bool-cases (ltb (length rest) 4)) [
  | inl y ↦ rw y refl
  | inr n ↦ rw (n, read_i32-ok rest n) refl
]

pub read_count_tested :
    (c : Collection) (raw : Bytes)
    → read_count c raw ≡ (
        if ltb (length raw) 4
        then err (too_short c)
        else if is_negative (i32_at raw)
        then err (negative_count c)
        else ok (to_usize (i32_at raw)))
unfolding read_count
read_count_tested c raw = elim (Bool-cases (ltb (length raw) 4)) [
  | inl y ↦ rw y refl
  | inr n ↦ rw (n, read_i32-ok raw n) refl
]

-- An element that `elem_len` accepts lies inside the rest.
elem_len-fits :
    (c : Collection) (rest : Bytes) (len : ℕ) → elem_len c rest ≡ ok len → 4 + len ≤ length rest
elem_len-fits c rest len h = let e = elem_len_tested c rest in ground (arith, e)

elem-slice :
    (c : Collection) (rest : Bytes) (len : ℕ)
    → elem_len c rest ≡ ok len
    → slice_to {E = Fault} (4 + len) rest ≡ ok (take (4 + len) rest)
elem-slice c rest len h = slice_to-ok {E = Fault} (4 + len) rest (elem_len-fits c rest len h)

pub read_elems_tested :
    (c : Collection) (one : Bytes → Outcome Fault Value) (n : ℕ) (rest : Bytes)
    → read_elems c one (suc n) rest ≡ (do
      len ← elem_len c rest
      v ← one (take (4 + len) rest)
      vs ← read_elems c one n (drop (4 + len) rest)
      ok (cons v vs))
unfolding read_elems
read_elems_tested c one n rest =
    bind_agrees (elem_len c rest) _ _ λ len h. rw (elem-slice c rest len h) refl

pub read_entries_tested :
    (key val : Bytes → Outcome Fault Value) (n : ℕ) (rest : Bytes)
    → read_entries key val (suc n) rest ≡ (do
      klen ← elem_len Collection.map rest
      k ← key (take (4 + klen) rest)
      vlen ← elem_len Collection.map (drop (4 + klen) rest)
      v ← val (take (4 + vlen) (drop (4 + klen) rest))
      es ← read_entries key val n (drop (4 + vlen) (drop (4 + klen) rest))
      ok (entry k v es))
unfolding read_entries
read_entries_tested key val n rest = bind_agrees (elem_len Collection.map rest) _ _ λ klen h.
    rw (elem-slice Collection.map rest klen h) (
      bind_agrees (key (take (4 + klen) rest)) _ _ λ k _.
        bind_agrees (elem_len Collection.map (drop (4 + klen) rest)) _ _
          λ vlen h'. rw (elem-slice Collection.map (drop (4 + klen) rest) vlen h') refl)
