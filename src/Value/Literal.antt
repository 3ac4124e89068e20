-- ===== src/Value/Literal.antt =====
-- src/cql_value.rs: `parse_literal` and `unescape_string`, over UTF-8 bytes.
use mathlib.Core.List.{reverse}
use rhyda.Prelude.{
  ℕ, zero, suc, ◌+◌, ◌-◌, ◌*◌, ◌^◌, Bool, true, false, not, ◌&&◌, ◌||◌, ◌==◌, ltb, leb,
  if◌then◌else◌, [], ◌∷◌, length, drop, Option, none, some, Outcome, ok, err,
}
use rhyda.Prelude.Int.{ℤ, pos, negsuc}
use rhyda.Prelude.Bytes.{Bytes, bytes_eq, codes, starts_with}
use rhyda.Schema.Types.{ColumnType}
use rhyda.Schema.Idents.{CaseMap}
use rhyda.Fault.{Fault, cannot_parse, collection_literal}
use rhyda.Value.Types.{Value, IpAddr}

-- The parsers that the source calls and does not define: `str::parse` of floats and addresses of the
-- standard library, and `hex::decode` of the crate hex.
pub record Parsers : Type 0 where
  pub parse_f32 : Bytes → Option ℕ
  pub parse_f64 : Bytes → Option ℕ
  pub parse_ip : Bytes → Option IpAddr
  pub hex_decode : Bytes → Option Bytes

-- White space of one byte: the characters that `char::is_whitespace` accepts below 0x80.
abbrev pub is_space : ℕ → Bool
is_space c = (leb 9 c && leb c 13) || c == 32

-- White space of two bytes and of three bytes: U+0085, U+00A0; U+1680, U+2000 to U+200A, U+2028,
-- U+2029, U+202F, U+205F, U+3000.
abbrev pub is_space_two : ℕ → ℕ → Bool
is_space_two a b = a == 0xC2 && (b == 0x85 || b == 0xA0)

abbrev pub is_space_three : ℕ → ℕ → ℕ → Bool
is_space_three a b c =
    (a == 0xE1 && b == 0x9A && c == 0x80)
    || (a == 0xE2
        && b == 0x80
        && ((leb 0x80 c && leb c 0x8A) || c == 0xA8 || c == 0xA9 || c == 0xAF))
    || (a == 0xE2 && b == 0x81 && c == 0x9F)
    || (a == 0xE3 && b == 0x80 && c == 0x80)

-- `space` tests one, two and three bytes at the front; the number of bytes to take off there.
abbrev pub space_width : Bytes → ℕ
space_width [] = 0
space_width (a ∷ []) = if is_space a then 1 else 0
space_width (a ∷ b ∷ []) = if is_space a then 1 else if is_space_two a b then 2 else 0
space_width (a ∷ b ∷ c ∷ r) =
    if is_space a then 1 else if is_space_two a b then 2 else if is_space_three a b c then 3 else 0

-- The same at the end of a text that is given backwards.
abbrev pub space_width_back : Bytes → ℕ
space_width_back [] = 0
space_width_back (a ∷ []) = if is_space a then 1 else 0
space_width_back (b ∷ a ∷ []) = if is_space b then 1 else if is_space_two a b then 2 else 0
space_width_back (c ∷ b ∷ a ∷ r) =
    if is_space c then 1 else if is_space_two b c then 2 else if is_space_three a b c then 3 else 0

-- Takes white space off the front; the fuel is the length.
unfoldable pub strip : (Bytes → ℕ) → ℕ → Bytes → Bytes
strip width zero t = t
strip width (suc fuel) t =
    let more = strip width fuel (drop (width t) t) in if width t == 0 then t else more

-- `str::trim`
unfoldable pub trim : Bytes → Bytes
unfolding strip
trim t =
    let t' = strip space_width (length t) t in
    let back = reverse t' in reverse (strip space_width_back (length back) back)

-- The digits of an unsigned number, continued from `n`.
unfoldable pub digits_value : ℕ → Bytes → Option ℕ
digits_value n [] = some n
digits_value n (c ∷ cs) =
    let more = digits_value (n * 10 + (c - 48)) cs in if leb 48 c && leb c 57 then more else none

abbrev pub unsigned : Bytes → Option ℕ
unsigned [] = none
unsigned (c ∷ cs) = digits_value 0 (c ∷ cs)

abbrev pub at_most : ℕ → Option ℕ → Option ℤ
at_most limit none = none
at_most limit (some n) = if ltb n limit then some (pos n) else none

abbrev pub at_least : ℕ → Option ℕ → Option ℤ
at_least limit none = none
at_least limit (some zero) = some (pos 0)
at_least limit (some (suc n)) = if ltb n limit then some (negsuc n) else none

-- `str::parse` of a signed integer from -`half` up to and without `half`: a sign, and digits.
unfoldable pub parse_int : ℕ → Bytes → Option ℤ
unfolding digits_value
parse_int half [] = none
parse_int half (c ∷ cs) =
    if c == b'-'
    then at_least half (unsigned cs)
    else if c == b'+'
    then at_most half (unsigned cs)
    else at_most half (unsigned (c ∷ cs))

-- `replace("''", "'")`
unfoldable pub unquote : Bytes → Bytes
unquote [] = []
unquote (a ∷ []) = a ∷ []
unquote (a ∷ b ∷ r) =
    let both = unquote r in
    let one = unquote (b ∷ r) in if a == 39 && b == 39 then 39 ∷ both else a ∷ one

-- `ends_with('\'')`, and the text without its last byte.
abbrev pub ends_with_quote : Bytes → Bool
ends_with_quote [] = false
ends_with_quote (a ∷ []) = a == 39
ends_with_quote (a ∷ b ∷ r) = ends_with_quote (b ∷ r)

abbrev pub drop_last : Bytes → Bytes
drop_last [] = []
drop_last (a ∷ []) = []
drop_last (a ∷ b ∷ r) = a ∷ drop_last (b ∷ r)

unfoldable pub unescape_string : Bytes → Bytes
unfolding unquote
unescape_string text =
    let t = trim text in
    if leb 2 (length t) && (starts_with t (39 ∷ []) && ends_with_quote t)
    then unquote (drop_last (drop 1 t))
    else t

-- `trim_start_matches('\'')` and `trim_end_matches('\'')`
unfoldable pub trim_start_quotes : Bytes → Bytes
trim_start_quotes [] = []
trim_start_quotes (c ∷ cs) = let rest = trim_start_quotes cs in if c == 39 then rest else c ∷ cs

unfoldable pub trim_end_quotes : Bytes → Bytes
unfolding trim_start_quotes
trim_end_quotes t = reverse (trim_start_quotes (reverse t))

-- `chars().filter(|c| *c != '-')`
unfoldable pub without_dashes : Bytes → Bytes
without_dashes [] = []
without_dashes (c ∷ cs) = let rest = without_dashes cs in if c == b'-' then rest else c ∷ rest

-- `strip_prefix("0x").or_else(|| strip_prefix("0X")).unwrap_or(t)`
unfoldable pub strip_0x : Bytes → Bytes
strip_0x t = if starts_with t (codes "0x") || starts_with t (codes "0X") then drop 2 t else t

abbrev parsed {ℓ} : {A : Type ℓ} → (A → Value) → Bytes → ColumnType → Option A → Outcome Fault Value
parsed wrap text col_type none = err (cannot_parse text col_type)
parsed wrap text col_type (some a) = ok (wrap a)

module _ ⦃cases : CaseMap⦄ ⦃parsers : Parsers⦄ where
  unfoldable pub parse_boolean : Bytes → Bytes → Outcome Fault Value
  parse_boolean text t =
      if bytes_eq (cases.to_uppercase t) (codes "TRUE")
      then ok (Value.boolean true)
      else if bytes_eq (cases.to_uppercase t) (codes "FALSE")
      then ok (Value.boolean false)
      else err (cannot_parse text ColumnType.boolean)

  unfoldable pub parse_uuid : Bytes → Bytes → Outcome Fault Value
  parse_uuid text t =
      let cleaned = without_dashes (trim_end_quotes (trim_start_quotes t)) in
      if not (length cleaned == 32)
      then err (cannot_parse text ColumnType.uuid)
      else parsed Value.uuid text ColumnType.uuid (parsers.hex_decode cleaned)

  unfoldable pub parse_literal : Bytes → ColumnType → Outcome Fault Value
  parse_literal text ColumnType.int =
      parsed Value.int text ColumnType.int (parse_int (2 ^ 31) (trim text))
  parse_literal text ColumnType.big_int =
      parsed Value.big_int text ColumnType.big_int (parse_int (2 ^ 63) (trim text))
  parse_literal text ColumnType.small_int =
      parsed Value.small_int text ColumnType.small_int (parse_int (2 ^ 15) (trim text))
  parse_literal text ColumnType.tiny_int =
      parsed Value.tiny_int text ColumnType.tiny_int (parse_int (2 ^ 7) (trim text))
  parse_literal text ColumnType.float =
      parsed Value.float text ColumnType.float (parsers.parse_f32 (trim text))
  parse_literal text ColumnType.double =
      parsed Value.double text ColumnType.double (parsers.parse_f64 (trim text))
  parse_literal text ColumnType.boolean = parse_boolean text (trim text)
  parse_literal text ColumnType.text = ok (Value.text (unescape_string (trim text)))
  parse_literal text ColumnType.blob =
      parsed Value.blob text ColumnType.blob (parsers.hex_decode (strip_0x (trim text)))
  parse_literal text ColumnType.timestamp =
      parsed Value.timestamp text ColumnType.timestamp (parse_int (2 ^ 63) (trim text))
  parse_literal text ColumnType.uuid = parse_uuid text (trim text)
  parse_literal text ColumnType.inet =
      parsed Value.inet text ColumnType.inet (parsers.parse_ip (trim text))
  parse_literal text _ = err collection_literal
