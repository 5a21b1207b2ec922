-- ===== src/Azm/Emission/Fixups.antt =====
-- packages/azm/src/model/fixup.ts and assembly/fixup-emission.ts: which expressions wait for the
-- address of a symbol.
use debug.Base.{ℕ, [], Option, none, some, ℤ}
use debug.Azm.Expression.{Name, Expression, BinaryOperator}
use debug.Azm.Instruction.{BranchMnemonic}
use debug.Azm.Operators.{negate, apply_unary_operator, apply_binary_operator}

-- Without the optional fields on source units, which emission only hands on.
pub record SourceSpan : Type 0 where
  pub source_name : Name
  pub line : ℕ
  pub column : ℕ

pub record FixupTarget : Type 0 where
  pub symbol : Name
  pub addend : ℤ

-- The offset of the bytes; a branch also has the address behind it.
pub data Fixup : Type 0 where
  abs16 : ℕ → FixupTarget → SourceSpan → Fixup
  rel8 : ℕ → ℕ → FixupTarget → BranchMnemonic → SourceSpan → Fixup

unfoldable pub constant_expression_value : Expression → Option ℤ
constant_expression_value (Expression.number value) = some value
constant_expression_value (Expression.unary operator expression) =
    elim (constant_expression_value expression) [
      | none ↦ none
      | some value ↦ some (apply_unary_operator operator value)
    ]
constant_expression_value (Expression.binary operator left right) =
    elim (constant_expression_value left) [
      | none ↦ none
      | some l ↦ elim (constant_expression_value right) [
        | none ↦ none
        | some r ↦ apply_binary_operator operator l r
      ]
    ]
constant_expression_value expression = none

-- `expressionSymbol`, of which the callers let no empty name through.
abbrev pub expression_symbol : Expression → Option Name
expression_symbol (Expression.symbol []) = none
expression_symbol (Expression.symbol name) = some name
expression_symbol expression = none

-- A symbol beside a constant.
abbrev pub symbol_with : Option Name → Option ℤ → Option FixupTarget
symbol_with (some symbol) (some addend) = some (record { symbol = symbol; addend = addend })
symbol_with symbol addend = none

abbrev pub negated_constant : Option ℤ → Option ℤ
negated_constant none = none
negated_constant (some value) = some (negate value)

abbrev pub right_symbol_fixup_target : Expression → Expression → Option FixupTarget
right_symbol_fixup_target left right =
    symbol_with (expression_symbol right) (constant_expression_value left)

abbrev pub fixup_target_from_expression : Expression → Option FixupTarget
fixup_target_from_expression (Expression.symbol name) =
    some (record { symbol = name; addend = ℤ.pos 0 })
fixup_target_from_expression (Expression.binary BinaryOperator.add left right) =
    elim (symbol_with (expression_symbol left) (constant_expression_value right)) [
      | none ↦ right_symbol_fixup_target left right
      | some target ↦ some target
    ]
fixup_target_from_expression (Expression.binary BinaryOperator.sub left right) =
    symbol_with (expression_symbol left) (negated_constant (constant_expression_value right))
fixup_target_from_expression expression = none
