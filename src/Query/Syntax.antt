-- ===== src/Query/Syntax.antt =====
-- The parts of cql3_parser's syntax trees that src/query.rs reads.
use rhyda.Prelude.{ℕ, List, Option, none, some}
use rhyda.Prelude.Bytes.{Bytes}
use rhyda.Schema.Idents.{Identifier}

pub record FqName : Type 0 where
  pub keyspace : Option Identifier
  pub name : Identifier

-- `Operand`; `other` is an operand that the source only rejects.
mutual
  pub data Operand : Type 0 where
    null : Operand
    const param : Bytes → Operand
    column : Identifier → Operand
    tuple : Operands → Operand
    set list : List Bytes → Operand
    map : List (Bytes × Bytes) → Operand
    other : ℕ → Operand

  pub data Operands : Type 0 where
    nil : Operands
    cons : Operand → Operands → Operands

pub data RelationOperator : Type 0 where
  equal is_in : RelationOperator
  other_relation : ℕ → RelationOperator

pub record RelationElement : Type 0 where
  pub obj : Operand
  pub oper : RelationOperator
  pub value : Operand

-- `Named`: a name with an alias.
pub record Named : Type 0 where
  pub name : Identifier
  pub alias : Option Identifier

pub data SelectElement : Type 0 where
  star : SelectElement
  column_element : Named → SelectElement
  function : ℕ → SelectElement

abbrev alias_or : Option Identifier → Identifier → Identifier
alias_or none name = name
alias_or (some alias) name = alias

abbrev pub alias_or_name : Named → Identifier
alias_or_name n = alias_or n.alias n.name
