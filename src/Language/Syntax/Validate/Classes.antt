-- ===== src/Language/Syntax/Validate/Classes.antt =====
-- language/syntax_tree.h: `validate` and `is_constexpr` of each class of nodes, over the validation of the
-- nodes that it has.
use hwpp.Prelude.{ℕ, ◌+◌, Bool, true, false, not, ◌&&◌, if◌then◌else◌, codes, bytes_eq, ok, ◌>>=◌}
use hwpp.Language.Types.{
  LanguageType, typed, nil, prim_func, prim_tuple, prim_var, literal, is_equal_to,
}
use hwpp.Language.Variable.{Datum, type_of}
use hwpp.Language.Syntax.{Expression, UnaryOperator, BinaryOperator}
use hwpp.Language.Syntax.Validate.{
  Environment, Checked, Result, plain, new_symbol_scope, end_symbol_scope, add_symbol, args_symbol,
}
use hwpp.Language.Syntax.Validate.Operators.{
  is_increment, unary_type, is_assignment, binary_type, subscript_type,
}

-- `validate` of an expression, of a statement, and of arguments, which adds their types to a tuple's.
abbrev pub ValidateExpression : Type 0
ValidateExpression = Environment → Result (Checked × Environment)

abbrev pub ValidateNode : Type 0
ValidateNode = Environment → Result (ℕ × Environment)

abbrev pub ValidateArguments : Type 0
ValidateArguments = LanguageType → Environment → Result (ℕ × LanguageType × Environment)

abbrev pub checked_as : ℕ → LanguageType → Bool → Environment → Result (Checked × Environment)
checked_as n t c env = ok (record { warnings = n; result_type = t; is_constexpr = c }, env)

-- SubscriptExpression; the index is evaluated where it is constant.
unfoldable pub validate_subscript :
    Expression → ValidateExpression → ValidateExpression → ValidateExpression
unfolding subscript_type
validate_subscript index validate_expr validate_index env = do
  (x, env1) ← validate_expr env
  (y, env2) ← validate_index env1
  t ← subscript_type x.result_type index y
  checked_as (x.warnings + y.warnings) t (x.is_constexpr && y.is_constexpr) env2

-- FunctionCallExpression
unfoldable pub validate_call : ValidateExpression → ValidateArguments → ValidateExpression
validate_call validate_callee validate_args env = do
  (x, env1) ← validate_callee env
  (n, t, env2) ← validate_args (typed prim_tuple literal nil) env1
  checked_as (x.warnings + n) (plain prim_var) false env2

-- UnaryExpression
unfoldable pub validate_unary : UnaryOperator → ValidateExpression → ValidateExpression
unfolding unary_type is_increment
validate_unary op validate_expr env = do
  (x, env1) ← validate_expr env
  t ← unary_type op x.result_type
  checked_as x.warnings t (x.is_constexpr && not (is_increment op)) env1

-- BinaryExpression
unfoldable pub validate_binary :
    BinaryOperator → ValidateExpression → ValidateExpression → ValidateExpression
unfolding binary_type is_assignment
validate_binary op validate_lhs validate_rhs env = do
  (x, env1) ← validate_lhs env
  (y, env2) ← validate_rhs env1
  t ← binary_type op x.result_type y.result_type
  checked_as (x.warnings + y.warnings) t
      (x.is_constexpr && y.is_constexpr && not (is_assignment op)) env2

-- ConditionalExpression
unfoldable pub validate_conditional :
    ValidateExpression → ValidateExpression → ValidateExpression → ValidateExpression
unfolding is_equal_to
validate_conditional validate_condition validate_true validate_false env = do
  (x, env1) ← validate_condition env
  (y, env2) ← validate_true env1
  (z, env3) ← validate_false env2
  checked_as (x.warnings + y.warnings + z.warnings)
      (if is_equal_to y.result_type z.result_type then y.result_type else plain prim_var)
      (x.is_constexpr && y.is_constexpr && z.is_constexpr) env3

-- ValueExpression
unfoldable pub validate_value : Datum → ValidateExpression
unfolding type_of
validate_value d env = checked_as 0 (type_of d) true env

-- FunctionLiteralExpression. The validation of its parameters does nothing.
unfoldable pub validate_function : ValidateNode → ValidateExpression
unfolding new_symbol_scope add_symbol end_symbol_scope
validate_function validate_code env = do
  (_, env1) ← add_symbol (codes "args") args_symbol (new_symbol_scope env)
  (n, env2) ← validate_code env1
  checked_as n (typed prim_func literal nil) true (end_symbol_scope env2)

-- TupleLiteralExpression
unfoldable pub validate_tuple : ValidateArguments → ValidateExpression
validate_tuple validate_contents env = do
  (n, t, env1) ← validate_contents (typed prim_tuple literal nil) env
  checked_as n t true env1

-- CompoundStatement
unfoldable pub validate_compound : ValidateNode → ValidateNode
unfolding new_symbol_scope end_symbol_scope
validate_compound validate_all env = do
  (n, env1) ← validate_all (new_symbol_scope env)
  ok (n, end_symbol_scope env1)

-- ExpressionStatement
unfoldable pub validate_expression_statement : ValidateExpression → ValidateNode
validate_expression_statement validate_expr env = do
  (x, env1) ← validate_expr env
  ok (x.warnings, env1)

-- ConditionalStatement, without and with an else.
unfoldable pub validate_if : ValidateExpression → ValidateNode → ValidateNode
validate_if validate_condition validate_true env = do
  (x, env1) ← validate_condition env
  (n, env2) ← validate_true env1
  ok (x.warnings + n, env2)

unfoldable pub validate_if_else : ValidateExpression → ValidateNode → ValidateNode → ValidateNode
validate_if_else validate_condition validate_true validate_false env = do
  (x, env1) ← validate_condition env
  (n, env2) ← validate_true env1
  (k, env3) ← validate_false env2
  ok (x.warnings + n + k, env3)

-- SwitchStatement
unfoldable pub validate_switch : ValidateExpression → ValidateNode → ValidateNode
validate_switch validate_condition validate_code env = do
  (x, env1) ← validate_condition env
  (n, env2) ← validate_code env1
  ok (x.warnings + n, env2)

-- LoopStatement, of either kind: the condition before the body.
unfoldable pub validate_loop : ValidateExpression → ValidateNode → ValidateNode
validate_loop validate_expr validate_code env = do
  (x, env1) ← validate_expr env
  (n, env2) ← validate_code env1
  ok (x.warnings + n, env2)

-- CaseStatement
unfoldable pub validate_case : ValidateExpression → ValidateNode → ValidateNode
validate_case validate_expr validate_inner env = do
  (x, env1) ← validate_expr env
  (n, env2) ← validate_inner env1
  ok (x.warnings + n, env2)

-- ReturnStatement with an expression.
unfoldable pub validate_return : ValidateExpression → ValidateNode
validate_return validate_expr env = do (x, env1) ← validate_expr env; ok (x.warnings, env1)

-- DiscoverStatement
unfoldable pub validate_discover : ValidateArguments → ValidateNode
validate_discover validate_args env = do
  (n, t, env1) ← validate_args (typed prim_tuple literal nil) env
  ok (n, env1)
