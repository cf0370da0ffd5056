-- ===== src/Language/Syntax/Validate/Operators.antt =====
-- language/syntax_tree.h: the types of operators and subscripts, by those of their operands.
use hwpp.Prelude.{
  ℕ, Bool, true, false, not, ◌&&◌, ◌||◌, leb, if◌then◌else◌, Outcome, ok, throw, ◌>>=◌,
}
use hwpp.Language.Types.{
  LanguageType, typed, LanguageTypes, nil, cons, Primitive, prim_bool, prim_int, prim_list,
  prim_tuple, prim_var, prim_eqb, n_arguments, is_const, is_equal_to, is_assignable,
  is_comparable_to,
}
use hwpp.Language.Variable.{
  VariableError, Variable, new_variable, int_value, primitive_of, arguments_of, type_of,
}
use hwpp.Language.Variable
use hwpp.Drivers.{as_uint}
use hwpp.Language.Syntax.{
  UnaryOperator, op_not, op_preinc, op_predec, op_postinc, op_postdec, BinaryOperator, op_eq,
  op_neq, op_lt, op_gt, op_le, op_ge, op_comma, op_assign, op_mul_assign, op_div_assign,
  op_mod_assign, op_add_assign, op_sub_assign, op_shl_assign, op_shr_assign, op_and_assign,
  op_or_assign, op_xor_assign, Expression,
}
use hwpp.Language.Syntax.Validate.{Checked, Result, plain, lift, variable_error, syntax_error}

-- Whether a type may stand where a primitive is expected: it is that, or `var`.
unfoldable pub is_or_var : Primitive → LanguageType → Bool
unfolding prim_eqb primitive_of
is_or_var p t = prim_eqb (primitive_of t) p || prim_eqb (primitive_of t) prim_var

-- `UnaryExpression::validate` and `is_constexpr`, by what the operand has.
unfoldable pub is_increment : UnaryOperator → Bool
is_increment op_preinc = true
is_increment op_predec = true
is_increment op_postinc = true
is_increment op_postdec = true
is_increment op = false

unfoldable pub unary_type : UnaryOperator → LanguageType → Result LanguageType
unfolding is_or_var is_increment is_const
unary_type op_not t = if is_or_var prim_bool t then ok (plain prim_bool) else throw syntax_error
unary_type op t =
    if is_increment op && is_const t
    then throw syntax_error
    else if is_or_var prim_int t
    then ok (plain prim_int)
    else throw syntax_error

-- `BinaryExpression::validate` and `is_constexpr`.
unfoldable pub is_assignment : BinaryOperator → Bool
is_assignment op_assign = true
is_assignment op_mul_assign = true
is_assignment op_div_assign = true
is_assignment op_mod_assign = true
is_assignment op_add_assign = true
is_assignment op_sub_assign = true
is_assignment op_shl_assign = true
is_assignment op_shr_assign = true
is_assignment op_and_assign = true
is_assignment op_or_assign = true
is_assignment op_xor_assign = true
is_assignment op = false

unfoldable pub numeric_type : LanguageType → LanguageType → LanguageType → Result LanguageType
unfolding is_or_var
numeric_type result l r =
    if is_or_var prim_int l && is_or_var prim_int r then ok result else throw syntax_error

unfoldable pub comparable_type : LanguageType → LanguageType → Result LanguageType
unfolding is_comparable_to
comparable_type l r = if is_comparable_to l r then ok (plain prim_bool) else throw syntax_error

unfoldable pub binary_type : BinaryOperator → LanguageType → LanguageType → Result LanguageType
unfolding numeric_type comparable_type is_const is_assignable is_equal_to
binary_type op_eq l r = comparable_type l r
binary_type op_neq l r = comparable_type l r
binary_type op_assign l r =
    if is_const l
    then throw syntax_error
    else if not (is_assignable l r)
    then throw syntax_error
    else ok (if not (is_equal_to l (plain prim_var)) then l else r)
binary_type op_lt l r = numeric_type (plain prim_bool) l r
binary_type op_gt l r = numeric_type (plain prim_bool) l r
binary_type op_le l r = numeric_type (plain prim_bool) l r
binary_type op_ge l r = numeric_type (plain prim_bool) l r
binary_type op_comma l r = ok r
binary_type op l r = numeric_type (plain prim_int) l r

-- `evaluate` of every expression, which leaves its result as it was.
unfoldable pub evaluate : Expression → Variable → Variable
evaluate e out_result = out_result

-- The index at which a tuple is subscripted: what evaluating the expression for it stores in a new
-- integer.
unfoldable pub evaluated_index : Expression → Outcome VariableError ℕ
unfolding evaluate new_variable int_value as_uint
evaluated_index e = do
  v ← int_value (evaluate e (new_variable (plain prim_int))).m_value
  ok (as_uint v)

-- The type argument at an index that has been compared with the number of arguments.
unfoldable pub member_type : LanguageTypes → ℕ → Result LanguageType
unfolding Variable.argument n_arguments
member_type args index =
    if leb (n_arguments args) index
    then throw syntax_error
    else lift variable_error (Variable.argument args index)

-- `SubscriptExpression::validate`, by the type of what is subscripted and what is known of the index.
unfoldable pub subscript_type : LanguageType → Expression → Checked → Result LanguageType
unfolding is_or_var prim_eqb primitive_of evaluated_index member_type
subscript_type (typed p c args) index checked =
    if not (prim_eqb p prim_list || is_or_var prim_tuple (typed p c args))
    then throw syntax_error
    else if not (is_or_var prim_int checked.result_type)
    then throw syntax_error
    else if prim_eqb p prim_list
    then (elim args [ nil ↦ ok (plain prim_var) | cons a rest ↦ ok a ])
    else if prim_eqb p prim_tuple && checked.is_constexpr
    then (lift syntax_error (evaluated_index index) >>= member_type args)
    else ok (plain prim_var)
