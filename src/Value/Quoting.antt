-- ===== src/Value/Quoting.antt =====
-- A quoted literal gives the text back, whatever the text holds.
use mathlib.Core.List.{reverse, reverse-append, reverse-reverse}
use rhyda.Prelude.{
  ℕ, zero, suc, ◌≡◌, refl, sym, ap, ap₂, ◌∙◌, Bool-cases, inl, inr, ok, true, false, ◌==◌,
  if◌then◌else◌, [], ◌∷◌, ◌++◌, length, length-append, arith,
}
use rhyda.Prelude.Bytes.{Bytes, starts_with-append}
use rhyda.Schema.Types.{ColumnType}
use rhyda.Schema.Idents.{CaseMap}
use rhyda.Value.Types.{Value}
use rhyda.Value.Literal.{
  Parsers, parse_literal, space_width, space_width_back, strip, trim, unquote, ends_with_quote,
  drop_last, unescape_string,
}

-- How a CQL client writes a text: every quote is doubled, and quotes stand around it.
unfoldable pub escape : Bytes → Bytes
escape [] = []
escape (c ∷ cs) = let rest = escape cs in if c == 39 then 39 ∷ 39 ∷ rest else c ∷ rest

abbrev pub quote : Bytes → Bytes
quote s = 39 ∷ (escape s ++ 39 ∷ [])

strip_front : (fuel : ℕ) (xs : Bytes) → strip space_width fuel (39 ∷ xs) ≡ 39 ∷ xs
unfolding strip
strip_front zero xs = refl
strip_front (suc fuel) [] = refl
strip_front (suc fuel) (b ∷ []) = refl
strip_front (suc fuel) (b ∷ c ∷ r) = refl

strip_back : (fuel : ℕ) (xs : Bytes) → strip space_width_back fuel (39 ∷ xs) ≡ 39 ∷ xs
unfolding strip
strip_back zero xs = refl
strip_back (suc fuel) [] = refl
strip_back (suc fuel) (b ∷ []) = ground arith
strip_back (suc fuel) (b ∷ c ∷ r) = ground arith

reverse-quoted : (xs : Bytes) → reverse (39 ∷ (xs ++ 39 ∷ [])) ≡ 39 ∷ reverse (39 ∷ xs)
reverse-quoted xs = reverse-append (39 ∷ xs) (39 ∷ [])

pub trim-quoted : (xs : Bytes) → trim (39 ∷ (xs ++ 39 ∷ [])) ≡ 39 ∷ (xs ++ 39 ∷ [])
unfolding trim
trim-quoted xs =
    let t : Bytes = 39 ∷ (xs ++ 39 ∷ []) in
    simp (strip_front (length t) (xs ++ 39 ∷ [])) (
      ap (λ b. reverse (strip space_width_back (length b) b)) (reverse-quoted xs)
      ∙ ap reverse (strip_back (suc (length (reverse (39 ∷ xs)))) (reverse (39 ∷ xs)))
      ∙ ap reverse (sym (reverse-quoted xs))
      ∙ reverse-reverse t)

unquote-cons : (c : ℕ) (r : Bytes) → (c == 39) ≡ false → unquote (c ∷ r) ≡ c ∷ unquote r
unfolding unquote
unquote-cons c [] h = refl
unquote-cons c (b ∷ r) h = rw h

unquote-escape : (s : Bytes) → unquote (escape s) ≡ s
unfolding escape
unquote-escape [] = unfold unquote in refl
unquote-escape (c ∷ s) = elim (Bool-cases (c == 39)) [
  | inl y ↦ rw y (
      unquote_pair (escape s)
      ∙ (let e : 39 ≡ c = ground arith in ap₂ (λ (x : ℕ) (t : Bytes). x ∷ t) e (unquote-escape s)))
  | inr n ↦ rw n (unquote-cons c (escape s) n ∙ ap (λ t. c ∷ t) (unquote-escape s))
]
  where
    unquote_pair : (r : Bytes) → unquote (39 ∷ 39 ∷ r) ≡ 39 ∷ unquote r
    unquote_pair r = unfold unquote in refl

drop_last-snoc : (xs : Bytes) (c : ℕ) → drop_last (xs ++ c ∷ []) ≡ xs
drop_last-snoc [] c = refl
drop_last-snoc (x ∷ []) c = refl
drop_last-snoc (x ∷ y ∷ xs) c = ap (λ t. x ∷ t) (drop_last-snoc (y ∷ xs) c)

ends_with_quote-snoc : (x : ℕ) (xs : Bytes) → ends_with_quote (x ∷ (xs ++ 39 ∷ [])) ≡ true
ends_with_quote-snoc x [] = refl
ends_with_quote-snoc x (y ∷ xs) = ends_with_quote-snoc y xs

pub unescape_string-quote : (s : Bytes) → unescape_string (quote s) ≡ s
unfolding unescape_string
unescape_string-quote s = rw (trim-quoted (escape s)) (
    rw (ends_with_quote-snoc 39 (escape s), drop_last-snoc (escape s) 39)
      (ground (
        arith,
        length-append (escape s) (39 ∷ []),
        starts_with-append (39 ∷ []) (escape s ++ 39 ∷ []),
        unquote-escape s,
      )))

-- Any text at all, written with its quotes doubled and between quotes, is the text value that
-- `parse_literal` makes of it.
pub parse_literal-quote :
    ⦃cases : CaseMap⦄ ⦃parsers : Parsers⦄ (s : Bytes)
    → parse_literal (quote s) ColumnType.text ≡ ok (Value.text s)
unfolding parse_literal
parse_literal-quote s = rw (trim-quoted (escape s), unescape_string-quote s)
