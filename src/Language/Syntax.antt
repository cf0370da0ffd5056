-- ===== src/Language/Syntax.antt =====
-- language/syntax_tree.h and language/syntax_tree.cc: the nodes of the syntax tree. Their positions in
-- files are left out. A null list of arguments, which every function treats as an empty one, is one.
pub mod Print
pub mod Validate
pub mod Scoping
pub mod Validated
use hwpp.Prelude.{Option, List, Bytes, bytes_eq}
use hwpp.Language.Types.{LanguageType}
use hwpp.Language.Variable.{Datum}

pub record Identifier : Type 0 where
  pub m_module : Bytes
  pub m_symbol : Bytes

pub record Parameter : Type 0 where
  pub m_type : LanguageType
  pub m_ident : Identifier

pub data UnaryOperator : Type 0 where
  op_pos op_neg op_not op_bitnot op_preinc op_predec op_postinc op_postdec : UnaryOperator

pub data BinaryOperator : Type 0 where
  op_eq op_neq op_lt op_gt op_le op_ge op_mul op_div op_mod op_add op_sub : BinaryOperator
  op_shl op_shr op_and op_or op_xor op_comma op_assign op_mul_assign : BinaryOperator
  op_div_assign op_mod_assign op_add_assign op_sub_assign op_shl_assign : BinaryOperator
  op_shr_assign op_and_assign op_or_assign op_xor_assign : BinaryOperator

-- The subclasses of Expression and of Statement, whose labels stand first; Argument; Definition, with
-- an initializer or without.
mutual
  pub data Expression : Type 0 where
    identifier_expression : Identifier → Expression
    subscript_expression : Expression → Expression → Expression
    function_call_expression : Expression → Arguments → Expression
    unary_expression : UnaryOperator → Expression → Expression
    binary_expression : BinaryOperator → Expression → Expression → Expression
    conditional_expression : Expression → Expression → Expression → Expression
    value_expression : Datum → Expression
    function_literal_expression : List Parameter → Statement → Expression
    tuple_literal_expression : Arguments → Expression

  pub data Arguments : Type 0 where
    no_arguments : Arguments
    argument : Option Identifier → Expression → Arguments → Arguments

  pub data Statement : Type 0 where
    statement : List Identifier → Body → Statement

  pub data Body : Type 0 where
    empty_statement bare_return_statement : Body
    compound_statement : Statements → Body
    expression_statement : Expression → Body
    if_statement : Expression → Statement → Body
    if_else_statement : Expression → Statement → Statement → Body
    switch_statement while_statement : Expression → Statement → Body
    do_while_statement : Statement → Expression → Body
    goto_statement : Identifier → Body
    case_statement : Expression → Statement → Body
    return_statement : Expression → Body
    definition_statement : Definitions → Body
    import_statement module_statement : Bytes → Body
    discover_statement : Arguments → Body

  pub data Statements : Type 0 where
    no_statements : Statements
    next_statement : Statement → Statements → Statements

  pub data Definitions : Type 0 where
    no_definitions : Definitions
    uninitialized : LanguageType → Identifier → Definitions → Definitions
    initialized : LanguageType → Identifier → Expression → Definitions → Definitions
