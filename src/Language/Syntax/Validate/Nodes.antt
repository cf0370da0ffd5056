-- ===== src/Language/Syntax/Validate/Nodes.antt =====
-- language/syntax_tree.h: the validation of whole syntax trees.
use hwpp.Prelude.{ℕ, ◌+◌, Bool, none, some, if◌then◌else◌, ok, throw, ◌>>=◌, ◌>>◌}
use hwpp.Language.Types.{LanguageType, is_initializable_from, add_argument}
use hwpp.Language.Syntax.{
  Expression, identifier_expression, subscript_expression, function_call_expression,
  unary_expression, binary_expression, conditional_expression, value_expression,
  function_literal_expression, tuple_literal_expression, Arguments, no_arguments, argument,
  Statement, statement, Body, empty_statement, bare_return_statement, compound_statement,
  expression_statement, if_statement, if_else_statement, switch_statement, while_statement,
  do_while_statement, goto_statement, case_statement, return_statement, definition_statement,
  import_statement, module_statement, discover_statement, Statements, no_statements, next_statement,
  Definitions, no_definitions, uninitialized, initialized,
}
use hwpp.Language.Syntax.Validate.{
  Environment, Checked, Result, lift, declare, detect_final_type, validate_identifier, type_error,
  syntax_error, definition,
}
use hwpp.Language.Syntax.Validate.Classes.{
  validate_subscript, validate_call, validate_unary, validate_binary, validate_conditional,
  validate_value, validate_function, validate_tuple, validate_compound,
  validate_expression_statement, validate_if, validate_if_else, validate_switch, validate_loop,
  validate_case, validate_return, validate_discover,
}

-- The virtual call of `validate`, which every node has by its class.
unfoldable mutual
  unfolding validate_identifier validate_subscript validate_call validate_unary validate_binary
      validate_conditional validate_value validate_function validate_tuple validate_compound
      validate_expression_statement validate_if validate_if_else validate_switch validate_loop
      validate_case validate_return validate_discover declare detect_final_type
      is_initializable_from add_argument

  pub validate : Bool → Expression → Environment → Result (Checked × Environment)
  validate strict (identifier_expression i) env = validate_identifier strict i env
  validate strict (subscript_expression e index) env =
      validate_subscript index (validate strict e) (validate strict index) env
  validate strict (function_call_expression callee args) env =
      validate_call (validate strict callee) (validate_arguments strict args) env
  validate strict (unary_expression op e) env = validate_unary op (validate strict e) env
  validate strict (binary_expression op l r) env =
      validate_binary op (validate strict l) (validate strict r) env
  validate strict (conditional_expression c t f) env =
      validate_conditional (validate strict c) (validate strict t) (validate strict f) env
  validate strict (value_expression d) env = validate_value d env
  validate strict (function_literal_expression ps body) env =
      validate_function (validate_statement strict body) env
  validate strict (tuple_literal_expression args) env =
      validate_tuple (validate_arguments strict args) env

  -- Arguments in order, with the loop that adds their types to a tuple's.
  pub validate_arguments :
      Bool → Arguments → LanguageType → Environment → Result (ℕ × LanguageType × Environment)
  validate_arguments strict no_arguments t env = ok (0, t, env)
  validate_arguments strict (argument name e args) t env = do
    (x, env1) ← validate strict e env
    t' ← lift type_error (add_argument x.result_type t)
    (n, t'', env2) ← validate_arguments strict args t' env1
    ok (x.warnings + n, t'', env2)

  pub validate_statement : Bool → Statement → Environment → Result (ℕ × Environment)
  validate_statement strict (statement labels body) env = validate_body strict body env

  pub validate_body : Bool → Body → Environment → Result (ℕ × Environment)
  validate_body strict empty_statement env = ok (0, env)
  validate_body strict bare_return_statement env = ok (0, env)
  validate_body strict (compound_statement ss) env =
      validate_compound (validate_statements strict ss) env
  validate_body strict (expression_statement e) env =
      validate_expression_statement (validate strict e) env
  validate_body strict (if_statement c t) env =
      validate_if (validate strict c) (validate_statement strict t) env
  validate_body strict (if_else_statement c t f) env =
      validate_if_else (validate strict c) (validate_statement strict t)
        (validate_statement strict f) env
  validate_body strict (switch_statement c body) env =
      validate_switch (validate strict c) (validate_statement strict body) env
  validate_body strict (while_statement c body) env =
      validate_loop (validate strict c) (validate_statement strict body) env
  validate_body strict (do_while_statement body c) env =
      validate_loop (validate strict c) (validate_statement strict body) env
  validate_body strict (goto_statement target) env = ok (0, env)
  validate_body strict (case_statement e s) env =
      validate_case (validate strict e) (validate_statement strict s) env
  validate_body strict (return_statement e) env = validate_return (validate strict e) env
  validate_body strict (definition_statement defs) env = validate_definitions strict defs env
  validate_body strict (import_statement arg) env = ok (0, env)
  validate_body strict (module_statement name) env = ok (0, env)
  validate_body strict (discover_statement args) env =
      validate_discover (validate_arguments strict args) env

  pub validate_statements : Bool → Statements → Environment → Result (ℕ × Environment)
  validate_statements strict no_statements env = ok (0, env)
  validate_statements strict (next_statement s ss) env = do
    (n, env1) ← validate_statement strict s env
    (k, env2) ← validate_statements strict ss env1
    ok (n + k, env2)

  pub validate_definitions : Bool → Definitions → Environment → Result (ℕ × Environment)
  validate_definitions strict no_definitions env = ok (0, env)
  validate_definitions strict (uninitialized t i defs) env = do
    t' ← detect_final_type t none
    env1 ← declare i.m_symbol (definition t') env
    validate_definitions strict defs env1
  validate_definitions strict (initialized t i e defs) env = do
    (x, env1) ← validate strict e env
    t' ← detect_final_type t (some x.result_type)
    if is_initializable_from t' x.result_type then ok tt else throw syntax_error
    env2 ← declare i.m_symbol (definition t') env1
    (n, env3) ← validate_definitions strict defs env2
    ok (x.warnings + n, env3)
