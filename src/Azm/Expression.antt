-- ===== src/Azm/Expression.antt =====
-- packages/azm/src/model/expression.ts: constant expressions, which the encoder hands on unread.
use debug.Base.{ℕ, ℤ, Option, List}

-- A name as its character codes.
abbrev pub Name : Type 0
Name = List ℕ

pub record TypeExpr : Type 0 where
  pub name : Name
  pub length : Option ℕ

pub data OffsetPathPart : Type 0 where
  field : Name → OffsetPathPart
  index : ℕ → OffsetPathPart

pub data ByteFunction : Type 0 where
  lsb msb : ByteFunction

pub data UnaryOperator : Type 0 where
  plus minus complement : UnaryOperator

pub data BinaryOperator : Type 0 where
  mul div rem add sub and xor or shl shr : BinaryOperator

mutual
  pub data Expression : Type 0 where
    number : ℤ → Expression
    symbol : Name → Expression
    current_location : Expression
    type_size : TypeExpr → Expression
    sizeof : TypeExpr → Expression
    byte_function : ByteFunction → Expression → Expression
    offset : TypeExpr → List OffsetPathPart → Expression
    layout_cast : TypeExpr → Expression → LayoutCastPath → Expression
    unary : UnaryOperator → Expression → Expression
    binary : BinaryOperator → Expression → Expression → Expression

  pub data LayoutCastPath : Type 0 where
    path_end : LayoutCastPath
    cast_field : Name → LayoutCastPath → LayoutCastPath
    cast_index : Expression → LayoutCastPath → LayoutCastPath
