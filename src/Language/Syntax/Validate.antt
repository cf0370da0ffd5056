-- ===== src/Language/Syntax/Validate.antt =====
-- language/syntax_tree.h and language/environment.h: `validate` of the nodes. It gives the number of
-- warnings and, of an expression, the type of its result and whether it is constant, which the source
-- keeps in the node. The operands of a `+` are validated from left to right. A node is reached once, but
-- for definitions that an identifier leads to: these are validated, or are that of `args`.
pub mod Operators
pub mod Classes
pub mod Nodes
use hwpp.Prelude.{
  ℕ, Bool, true, false, Option, none, some, if◌then◌else◌, Bytes, codes, bytes_eqb, bytes_eq,
  Outcome, ok, throw, undefined, ◌>>=◌, ◌>>◌,
}
use hwpp.Util.SymbolTable
use hwpp.Util.SymbolTable.{SymbolTable, StackError}
use hwpp.Language.Types.{
  LanguageType, typed, LanguageTypes, nil, cons, Primitive, prim_bool, prim_func, prim_int,
  prim_list, prim_tuple, prim_var, non_const, literal, prim_eqb, n_arguments, is_const, is_equal_to,
  is_assignable, is_initializable_from, is_comparable_to, add_argument,
}
use hwpp.Language.Variable.{
  VariableError, Variable, new_variable, int_value, primitive_of, arguments_of, type_of,
}
use hwpp.Language.Variable
use hwpp.Drivers.{as_uint}
use hwpp.Language.Syntax.{
  Identifier, UnaryOperator, op_not, op_preinc, op_predec, op_postinc, op_postdec, BinaryOperator,
  op_eq, op_neq, op_lt, op_gt, op_le, op_ge, op_comma, op_assign, op_mul_assign, op_div_assign,
  op_mod_assign, op_add_assign, op_sub_assign, op_shl_assign, op_shr_assign, op_and_assign,
  op_or_assign, op_xor_assign, Expression, identifier_expression, subscript_expression,
  function_call_expression, unary_expression, binary_expression, conditional_expression,
  value_expression, function_literal_expression, tuple_literal_expression, Arguments, no_arguments,
  argument, Statement, statement, Body, empty_statement, bare_return_statement, compound_statement,
  expression_statement, if_statement, if_else_statement, switch_statement, while_statement,
  do_while_statement, goto_statement, case_statement, return_statement, definition_statement,
  import_statement, module_statement, discover_statement, Statements, no_statements, next_statement,
  Definitions, no_definitions, uninitialized, initialized,
}

-- SyntaxError, Type's error of an argument too many, Variable::TypeError, and an empty symbol table.
pub data ValidateError : Type 0 where
  syntax_error type_error variable_error stack_error : ValidateError

-- What a symbol stands for: a definition by its final type, or the one of `args` in function literals.
pub data Symbol : Type 0 where
  definition : LanguageType → Symbol
  args_symbol : Symbol

-- `args_validated` is the flag in the definition of `args`, which all function literals share.
pub record Environment : Type 0 where
  pub m_symtab : SymbolTable Bytes Symbol
  pub args_validated : Bool

pub record Checked : Type 0 where
  pub warnings : ℕ
  pub result_type : LanguageType
  pub is_constexpr : Bool

abbrev pub Result : Type 0 → Type 0
Result A = Outcome ValidateError A

-- `Type(prim)`
abbrev pub plain : Primitive → LanguageType
plain p = typed p non_const nil

-- An operation of another part, with its errors.
abbrev pub lift : {E A : Type 0} → ValidateError → Outcome E A → Result A
lift e (ok a) = ok a
lift e (throw x) = throw e
lift e undefined = undefined

unfoldable pub new_symbol_scope : Environment → Environment
unfolding SymbolTable.push_context
new_symbol_scope env = record env { m_symtab = SymbolTable.push_context env.m_symtab }

unfoldable pub end_symbol_scope : Environment → Environment
unfolding SymbolTable.pop_context
end_symbol_scope env = record env { m_symtab = (SymbolTable.pop_context env.m_symtab).1 }

unfoldable pub add_symbol : Bytes → Symbol → Environment → Result (Bool × Environment)
unfolding SymbolTable.add_unique bytes_eqb
add_symbol name symbol env = do
  (added, table) ← lift stack_error (SymbolTable.add_unique name symbol env.m_symtab)
  ok (added, record env { m_symtab = table })

unfoldable pub lookup_symbol : Bytes → Environment → Option Symbol
unfolding SymbolTable.lookup bytes_eqb
lookup_symbol name env = SymbolTable.lookup name env.m_symtab

-- The symbol of a definition: an error where the current scope has it.
unfoldable pub declare : Bytes → Symbol → Environment → Result Environment
unfolding add_symbol
declare name symbol env = do
  (added, env') ← add_symbol name symbol env
  if added then ok env' else throw syntax_error

-- The loop of detect_final_type_from_init over the type arguments of a tuple.
unfoldable pub common_type : LanguageType → LanguageTypes → LanguageType
unfolding is_equal_to
common_type t nil = t
common_type t (cons a args) = if is_equal_to a t then common_type t args else plain prim_var

unfoldable pub add_arguments : LanguageTypes → LanguageType → Result LanguageType
unfolding add_argument
add_arguments nil t = ok t
add_arguments (cons a args) t = do t' ← lift type_error (add_argument a t); add_arguments args t'

-- `detect_final_type_from_init` of a list and of a tuple without type arguments, by the type of the
-- initializer. `argument(0)` of a type without arguments is undefined.
unfoldable pub final_list : LanguageType → Option LanguageType → Result LanguageType
unfolding add_argument common_type
final_list t none = lift type_error (add_argument (plain prim_var) t)
final_list t (some (typed prim_list c nil)) = undefined
final_list t (some (typed prim_list c (cons a args))) = lift type_error (add_argument a t)
final_list t (some (typed prim_tuple c nil)) = undefined
final_list t (some (typed prim_tuple c (cons a args))) =
    lift type_error (add_argument (common_type a args) t)
final_list t (some other) = ok t

unfoldable pub final_tuple : LanguageType → Option LanguageType → Result LanguageType
unfolding add_arguments
final_tuple t none = throw syntax_error
final_tuple t (some (typed prim_tuple c args)) = add_arguments args t
final_tuple t (some other) = ok t

unfoldable pub detect_final_type : LanguageType → Option LanguageType → Result LanguageType
unfolding final_list final_tuple
detect_final_type (typed prim_list c nil) init = final_list (typed prim_list c nil) init
detect_final_type (typed prim_tuple c nil) init = final_tuple (typed prim_tuple c nil) init
detect_final_type t init = ok t

-- `IdentifierExpression::validate`; the flag is error_on_unresolved_symbols.
unfoldable pub validate_identifier :
    Bool → Identifier → Environment → Result (Checked × Environment)
unfolding lookup_symbol declare is_const
validate_identifier error_on_unresolved i env = elim (lookup_symbol i.m_symbol env) [
  | none ↦
      if error_on_unresolved
      then throw syntax_error
      else ok (record { warnings = 1; result_type = plain prim_var; is_constexpr = false }, env)
  | some symbol ↦ elim symbol [
    | definition t ↦ ok (record { warnings = 0; result_type = t; is_constexpr = is_const t }, env)
    | args_symbol ↦
        (if env.args_validated
          then ok env
          else declare (codes "args") args_symbol (record env { args_validated = true }))
        >>= λ env'. ok (
          record {
            warnings = 0;
            result_type = typed prim_list non_const (cons (plain prim_var) nil);
            is_constexpr = false;
          },
          env',
        )
  ]
]
