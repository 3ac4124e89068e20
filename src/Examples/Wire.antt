-- ===== src/Examples/Wire.antt =====
-- Runs of the encoders and decoders of values, keys and rows.
use rhyda.Prelude.{
  ℕ, ◌≡◌, refl, ◌↔◌, ◌⊎◌, inl, inr, true, false, List, [], ◌∷◌, ◌++◌, length, All, ◌&&◌, leb, ◌-◌,
  if◌then◌else◌, none, Outcome, ok, Ensures, replicate, arith,
}
use rhyda.Prelude.Int.{wrap, pos, negsuc}
use rhyda.Prelude.Bytes.{Bytes, codes, starts_with, starts_with-append, to_be, IsBytes, ascii_lower}
use mathlib.Core.List.{map}
use rhyda.Schema.Types.{ColumnType, TableDef}
use rhyda.Schema.Idents.{CaseMap}
use rhyda.Value.Types.{Value, null, nil, cons, to_wire, write_wire, raw_bytes, extend_values}
use rhyda.Value.Decode.{from_wire, from_raw_bytes}
use rhyda.Value.Typing.{HasType}
use rhyda.Value.RoundTrip.{from_wire-to_wire}
use rhyda.Value.Sound.{HasByteType, from_wire_sound, from_raw_bytes-nil}
use rhyda.Value.Literal.{Parsers, parse_literal}
use rhyda.Value.Quoting.{quote, parse_literal-quote}
use rhyda.Keys.Parts.{encode_parts, encode_key, decode_key_data, data_prefix, bang}
use rhyda.Keys.RoundTrip.{Short, decode_key_data-eq-ok_iff}
use rhyda.Keys.Total.{IsForeign, IsDecoded, IsCorrupt, decode_key_data_ends}
use rhyda.Keys.Prefixes.{partition_scan}
use rhyda.Keys.Tables.{data_prefix_disjoint, data_prefix_collision}
use rhyda.Rows.Columns.{encode_columns, encode_row_columns, decode_row_columns}
use rhyda.Rows.RoundTrip.{IsStored, assign, decode_row_columns-encode_row_columns}

abbrev two_ints : Value
two_ints = Value.list (cons (Value.int (pos 7)) (cons (Value.int (negsuc 0)) nil))

abbrev int_list : ColumnType
int_list = ColumnType.list ColumnType.int

raw_len : length (raw_bytes two_ints) ≡ 20
unfolding raw_bytes extend_values write_wire to_be
raw_len = refl

from_wire-to_wire_example : from_wire (to_wire two_ints) int_list ≡ ok two_ints
from_wire-to_wire_example =
    from_wire-to_wire int_list two_ints (omega arith, (omega arith, tt)) (omega (arith, raw_len))

abbrev bad_input : Bytes
bad_input = 0 ∷ 0 ∷ 0 ∷ 2 ∷ 1 ∷ []

from_wire_sound_example :
    Ensures
      (HasByteType int_list)
      (λ v. (v ≡ null) ⊎ HasType int_list v)
      (from_wire bad_input int_list)
from_wire_sound_example =
    from_wire_sound int_list bad_input
      (omega arith, (omega arith, (omega arith, (omega arith, (omega arith, tt)))))

from_raw_bytes-nil_example :
    (from_raw_bytes [] ColumnType.tiny_int ≡ Outcome.panic)
    ↔ ((ColumnType.tiny_int ≡ ColumnType.tiny_int) ⊎ (ColumnType.tiny_int ≡ ColumnType.boolean))
from_raw_bytes-nil_example = from_raw_bytes-nil ColumnType.tiny_int

abbrev two_parts : List Bytes
two_parts = codes "ann" ∷ (0 ∷ 0 ∷ 0 ∷ 1 ∷ []) ∷ []

abbrev one_part : List Bytes
one_part = codes "ann" ∷ []

abbrev one_key : Bytes
one_key = 0 ∷ 3 ∷ 97 ∷ 110 ∷ 110 ∷ []

one_key_lem : encode_key one_part ≡ one_key
unfolding encode_key encode_parts to_be
one_key_lem = refl

one_key-IsBytes : IsBytes (codes "dt!k!t!" ++ one_key)
one_key-IsBytes = (
  omega arith,
  (
    omega arith,
    (
      omega arith,
      (
        omega arith,
        (
          omega arith,
          (
            omega arith,
            (
              omega arith,
              (omega arith, (omega arith, (omega arith, (omega arith, (omega arith, tt))))),
            ),
          ),
        ),
      ),
    ),
  ),
)

decode_key_data-eq-ok_iff_example :
    (decode_key_data (codes "dt!k!t!") (codes "dt!k!t!" ++ one_key) ≡ ok one_part)
    ↔ ((codes "dt!k!t!" ++ one_key ≡ codes "dt!k!t!" ++ encode_key one_part) × All Short one_part)
decode_key_data-eq-ok_iff_example =
    decode_key_data-eq-ok_iff (codes "dt!k!t!") (codes "dt!k!t!" ++ one_key) one_part
      one_key-IsBytes

decode_key_data_ends_example :
    IsForeign (codes "dt!k!t!") (codes "dt!k!t!" ++ one_key)
    ⊎ IsDecoded (codes "dt!k!t!") (codes "dt!k!t!" ++ one_key)
    ⊎ IsCorrupt (codes "dt!k!t!") (codes "dt!k!t!" ++ one_key)
decode_key_data_ends_example =
    decode_key_data_ends (codes "dt!k!t!") (codes "dt!k!t!" ++ one_key) one_key-IsBytes

two_parts-Short : All Short two_parts
two_parts-Short = (omega arith, (omega arith, tt))

partition_scan_example :
    (starts_with (codes "p" ++ encode_key two_parts) (codes "p" ++ encode_key one_part) ≡ true)
    ↔ ((rest : List Bytes) × (two_parts ≡ one_part ++ rest))
partition_scan_example =
    partition_scan (codes "p") one_part two_parts (omega arith, tt) two_parts-Short

data_prefix_disjoint_example : (codes "a" ≡ codes "a") × (codes "t" ≡ codes "t")
data_prefix_disjoint_example =
    data_prefix_disjoint (codes "a") (codes "t") (codes "a") (codes "t") one_key
      ((λ e. absurd (omega arith)), tt) ((λ e. absurd (omega arith)), tt)
      ((λ e. absurd (omega arith)), tt) ((λ e. absurd (omega arith)), tt) own
  where
    own :
        starts_with
          (data_prefix (codes "a") (codes "t") ++ one_key)
          (data_prefix (codes "a") (codes "t"))
        ≡ true
    own = starts_with-append (data_prefix (codes "a") (codes "t")) one_key

data_prefix_collision_example :
    data_prefix (codes "a" ++ (bang ++ codes "b")) (codes "c")
    ≡ data_prefix (codes "a") (codes "b" ++ (bang ++ codes "c"))
data_prefix_collision_example = data_prefix_collision (codes "a") (codes "b") (codes "c")

abbrev ascii_upper : ℕ → ℕ
ascii_upper c = if leb 97 c && leb c 122 then c - 32 else c

abbrev pub ascii_cases : CaseMap
ascii_cases = record { to_lowercase = map ascii_lower; to_uppercase = map ascii_upper }

abbrev pub no_parsers : Parsers
no_parsers = record {
  parse_f32 = λ t. none;
  parse_f64 = λ t. none;
  parse_ip = λ t. none;
  hex_decode = λ t. none;
}

parse_literal-quote_example :
    parse_literal ⦃cases = ascii_cases⦄ ⦃parsers = no_parsers⦄
      (quote (codes "it's"))
      ColumnType.text
    ≡ ok (Value.text (codes "it's"))
parse_literal-quote_example =
    parse_literal-quote ⦃cases = ascii_cases⦄ ⦃parsers = no_parsers⦄ (codes "it's")

abbrev pub users : TableDef
users = record {
  keyspace = codes "app";
  name = codes "users";
  columns =
      record {
        name = codes "id";
        col_type = ColumnType.int;
        is_partition_key = true;
        is_clustering = false;
      }
      ∷ record {
        name = codes "age";
        col_type = ColumnType.int;
        is_partition_key = false;
        is_clustering = false;
      }
      ∷ record {
        name = codes "tags";
        col_type = int_list;
        is_partition_key = false;
        is_clustering = false;
      }
      ∷ [];
  partition_keys = codes "id" ∷ [];
  clustering_keys = [];
}

abbrev pub stored : List (ℕ × Value)
stored = (1, null) ∷ (2, two_ints) ∷ []

tags-IsStored : IsStored users.columns 2 two_ints
tags-IsStored = record {
  col = record {
    name = codes "tags";
    col_type = int_list;
    is_partition_key = false;
    is_clustering = false;
  };
  at_index = refl;
  index = omega arith;
  holds = inr ((omega arith, (omega arith, tt)), omega (arith, raw_len));
}

age-IsStored : IsStored users.columns 1 null
age-IsStored = record {
  col = record {
    name = codes "age";
    col_type = ColumnType.int;
    is_partition_key = false;
    is_clustering = false;
  };
  at_index = refl;
  index = omega arith;
  holds = inl refl;
}

pub stored_h : All (λ (i, v). IsStored users.columns i v) stored
stored_h = (age-IsStored, (tags-IsStored, tt))

pub stored_len : length (encode_row_columns stored) ≡ 32
unfolding encode_row_columns encode_columns write_wire to_be wrap raw_bytes extend_values
stored_len = refl

decode_row_columns-encode_row_columns_example :
    decode_row_columns (encode_row_columns stored) users
    ≡ ok (assign stored (replicate (length users.columns) null))
decode_row_columns-encode_row_columns_example =
    decode_row_columns-encode_row_columns users stored stored_h
