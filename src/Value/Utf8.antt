-- ===== src/Value/Utf8.antt =====
-- `String::from_utf8` of Rust's standard library: which byte strings are well-formed UTF-8 (table
-- 3-7 of the Unicode standard).
use rhyda.Prelude.{ℕ, Bool, true, false, ◌&&◌, ◌||◌, ◌==◌, leb, ltb, [], ◌∷◌}
use rhyda.Prelude.Bytes.{Bytes}

abbrev between : ℕ → ℕ → ℕ → Bool
between lo hi b = leb lo b && leb b hi

abbrev tail_byte : ℕ → Bool
tail_byte = between 0x80 0xBF

-- The second byte of a three-byte or a four-byte character, by its first.
abbrev second_of_three : ℕ → ℕ → Bool
second_of_three a b =
    (a == 0xE0 && between 0xA0 0xBF b)
    || (a == 0xED && between 0x80 0x9F b)
    || (between 0xE1 0xEC a && tail_byte b)
    || (between 0xEE 0xEF a && tail_byte b)

abbrev second_of_four : ℕ → ℕ → Bool
second_of_four a b =
    (a == 0xF0 && between 0x90 0xBF b)
    || (between 0xF1 0xF3 a && tail_byte b)
    || (a == 0xF4 && between 0x80 0x8F b)

unfoldable pub is_utf8 : Bytes → Bool
is_utf8 [] = true
is_utf8 (a ∷ []) = ltb a 0x80
is_utf8 (a ∷ b ∷ []) =
    let one = is_utf8 (b ∷ []) in (ltb a 0x80 && one) || (between 0xC2 0xDF a && tail_byte b)
is_utf8 (a ∷ b ∷ c ∷ []) =
    let one = is_utf8 (b ∷ c ∷ []) in
    let two = is_utf8 (c ∷ []) in
    (ltb a 0x80 && one)
    || (between 0xC2 0xDF a && tail_byte b && two)
    || (second_of_three a b && tail_byte c)
is_utf8 (a ∷ b ∷ c ∷ d ∷ r) =
    let one = is_utf8 (b ∷ c ∷ d ∷ r) in
    let two = is_utf8 (c ∷ d ∷ r) in
    let three = is_utf8 (d ∷ r) in
    let four = is_utf8 r in
    elim (ltb a 0x80) [
      | true ↦ one
      | false ↦ elim (between 0xC2 0xDF a && tail_byte b) [
        | true ↦ two
        | false ↦ elim (second_of_three a b && tail_byte c) [
          | true ↦ three
          | false ↦ elim (second_of_four a b && tail_byte c && tail_byte d) [
            | true ↦ four
            | false ↦ false
          ]
        ]
      ]
    ]
