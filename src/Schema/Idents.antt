-- ===== src/Schema/Idents.antt =====
-- src/schema.rs: `norm_id` and `ident_eq`. The Unicode tables of Rust's standard library are a
-- parameter.
use rhyda.Prelude.{Bool}
use rhyda.Prelude.Bytes.{Bytes, bytes_eq, eq_ignore_ascii_case}

pub data Identifier : Type 0 where
  quoted : Bytes → Identifier
  unquoted : Bytes → Identifier

-- `str::to_lowercase` and `str::to_uppercase`, which map by the Unicode tables.
pub record CaseMap : Type 0 where
  pub to_lowercase : Bytes → Bytes
  pub to_uppercase : Bytes → Bytes

unfoldable pub norm_id : ⦃cases : CaseMap⦄ → Identifier → Bytes
norm_id (quoted s) = s
norm_id ⦃cases⦄ (unquoted s) = cases.to_lowercase s

unfoldable pub ident_eq : Identifier → Bytes → Bool
ident_eq (quoted s) name = bytes_eq s name
ident_eq (unquoted s) name = eq_ignore_ascii_case s name
