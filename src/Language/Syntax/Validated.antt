-- ===== src/Language/Syntax/Validated.antt =====
-- Validation of the nodes and the scopes of symbols, by induction on the syntax tree.
pub mod Blocks
use hwpp.Prelude.{
  ℕ, ◌≡◌, refl, Bool, true, false, Option, none, some, if◌then◌else◌, Bytes, codes, bytes_eq, ok,
  throw, ◌>>=◌,
}
use hwpp.Util.StdMap
use hwpp.Util.SymbolTable.{SymbolTable}
use hwpp.Language.Types.{
  LanguageType, typed, nil, prim_var, prim_func, prim_tuple, literal, is_const,
  is_initializable_from, add_argument,
}
use hwpp.Language.Syntax.{
  Identifier, Expression, identifier_expression, subscript_expression, function_call_expression,
  unary_expression, binary_expression, conditional_expression, value_expression,
  function_literal_expression, tuple_literal_expression, Arguments, no_arguments, argument,
  Statement, statement, Body, empty_statement, bare_return_statement, compound_statement,
  expression_statement, if_statement, if_else_statement, switch_statement, while_statement,
  do_while_statement, goto_statement, case_statement, return_statement, definition_statement,
  import_statement, module_statement, discover_statement, Statements, no_statements, next_statement,
  Definitions, no_definitions, uninitialized, initialized,
}
use hwpp.Language.Syntax.Validate.{
  ValidateError, syntax_error, type_error, Symbol, definition, args_symbol, Environment, Checked,
  Result, plain, lift, new_symbol_scope, end_symbol_scope, add_symbol, lookup_symbol, declare,
  detect_final_type, validate_identifier,
}
use hwpp.Language.Syntax.Validate.Operators.{
  unary_type, binary_type, subscript_type, is_increment, is_assignment,
}
use hwpp.Language.Syntax.Validate.Classes.{checked_as}
use hwpp.Language.Syntax.Validate.Nodes.{
  validate, validate_arguments, validate_statement, validate_body, validate_statements,
  validate_definitions,
}
use hwpp.Language.Syntax.Scoping.{
  Ensures, returned, threw, unknown, >>=-Ensures, Ensures-weaker, Ensures-ok, anything, SymbolScope,
  stack, Grows, Grows-refl, Sound, Sound-none, Sound-both, Sound-after, closed, Sound-closed,
  add_symbol-Grows, declare-Grows, declare-known,
}

abbrev SoundExpression : Bool → Environment → Checked × Environment → Type 0
SoundExpression strict env r = Sound strict env r.0.warnings r.1

abbrev SoundArguments : Bool → Environment → ℕ × LanguageType × Environment → Type 0
SoundArguments strict env r = Sound strict env r.0 r.2

abbrev pub SoundStatement : Bool → Environment → ℕ × Environment → Type 0
SoundStatement strict env r = Sound strict env r.0 r.1

-- The definition of `args`, where it is not validated yet.
abbrev with_flag : SymbolTable Bytes Symbol → Bool → Environment
with_flag table b = record { m_symtab = table; args_validated = b }

args-Grows :
    (table : SymbolTable Bytes Symbol) (b : Bool)
    → Ensures (Grows (with_flag table b)) (
        if b
        then ok (with_flag table b)
        else declare (codes "args") args_symbol (with_flag table true))
args-Grows table true = returned _ (Grows-refl (with_flag table true))
args-Grows table false =
    Ensures-weaker (declare-Grows (codes "args") args_symbol (with_flag table true))
      (λ env' g. record { grown = g.grown })

identifier-at :
    (strict : Bool) (i : Identifier) (env : Environment) (o : Option Symbol)
    → lookup_symbol i.m_symbol env ≡ o
    → Ensures (SoundExpression strict env) (validate_identifier strict i env)
unfolding validate_identifier
identifier-at true i env none e = rw (e, validate_identifier) (threw syntax_error)
identifier-at false i env none e =
    rw (e, validate_identifier) (returned _ (record { grows = Grows-refl env; silent = λ h. cc }))
identifier-at strict i env (some (definition t)) e =
    rw (e, validate_identifier) (returned _ (Sound-none env))
identifier-at strict i env (some args_symbol) e =
    rw (e, validate_identifier)
      (>>=-Ensures (args-Grows env.m_symtab env.args_validated)
        λ env' g. returned _ (Sound-after g (Sound-none env')))

identifier-Sound :
    (strict : Bool) (i : Identifier) (env : Environment)
    → Ensures (SoundExpression strict env) (validate_identifier strict i env)
identifier-Sound strict i env = identifier-at strict i env (lookup_symbol i.m_symbol env) refl

mutual
  unfolding validate validate_arguments validate_statement validate_body validate_statements
      validate_definitions

  pub validate-Sound :
      (strict : Bool) (e : Expression) (env : Environment)
      → Ensures (SoundExpression strict env) (validate strict e env)
  validate-Sound strict (identifier_expression i) env = identifier-Sound strict i env
  validate-Sound strict (subscript_expression e index) env =
      >>=-Ensures (validate-Sound strict e env) λ (x, env1) s1.
        >>=-Ensures (validate-Sound strict index env1) λ (y, env2) s2.
          >>=-Ensures (anything (subscript_type x.result_type index y))
            λ t u. returned _ (Sound-both s1 s2)
  validate-Sound strict (function_call_expression callee args) env =
      >>=-Ensures (validate-Sound strict callee env) λ (x, env1) s1.
        >>=-Ensures (arguments-Sound strict args (typed prim_tuple literal nil) env1)
          λ (n, t, env2) s2. returned _ (Sound-both s1 s2)
  validate-Sound strict (unary_expression op e) env =
      >>=-Ensures (validate-Sound strict e env)
        λ (x, env1) s1. >>=-Ensures (anything (unary_type op x.result_type)) λ t u. returned _ s1
  validate-Sound strict (binary_expression op l r) env =
      >>=-Ensures (validate-Sound strict l env) λ (x, env1) s1.
        >>=-Ensures (validate-Sound strict r env1) λ (y, env2) s2.
          >>=-Ensures (anything (binary_type op x.result_type y.result_type))
            λ t u. returned _ (Sound-both s1 s2)
  validate-Sound strict (conditional_expression c t f) env =
      >>=-Ensures (validate-Sound strict c env) λ (x, env1) s1.
        >>=-Ensures (validate-Sound strict t env1) λ (y, env2) s2.
          >>=-Ensures (validate-Sound strict f env2)
            λ (z, env3) s3. returned _ (Sound-both (Sound-both s1 s2) s3)
  validate-Sound strict (value_expression d) env = returned _ (Sound-none env)
  validate-Sound strict (function_literal_expression ps body) env =
      >>=-Ensures
        {next = λ r. validate_statement strict body r.1 >>= λ q.
          checked_as q.0 (typed prim_func literal nil) true (end_symbol_scope q.1)}
        (add_symbol-Grows (codes "args") args_symbol (new_symbol_scope env))
        λ (_, env1) g.
          >>=-Ensures (statement-Sound strict body env1)
            λ (n, env2) s. returned _ (Sound-closed (Sound-after g s))
  validate-Sound strict (tuple_literal_expression args) env =
      >>=-Ensures (arguments-Sound strict args (typed prim_tuple literal nil) env)
        λ (n, t, env1) s. returned _ s

  pub arguments-Sound :
      (strict : Bool) (args : Arguments) (t : LanguageType) (env : Environment)
      → Ensures (SoundArguments strict env) (validate_arguments strict args t env)
  arguments-Sound strict no_arguments t env = returned _ (Sound-none env)
  arguments-Sound strict (argument name e args) t env =
      >>=-Ensures (validate-Sound strict e env) λ (x, env1) s1.
        >>=-Ensures (anything (lift type_error (add_argument x.result_type t))) λ t' u.
          >>=-Ensures (arguments-Sound strict args t' env1)
            λ (n, t'', env2) s2. returned _ (Sound-both s1 s2)

  pub statement-Sound :
      (strict : Bool) (s : Statement) (env : Environment)
      → Ensures (SoundStatement strict env) (validate_statement strict s env)
  statement-Sound strict (statement labels body) env = body-Sound strict body env

  pub body-Sound :
      (strict : Bool) (s : Body) (env : Environment)
      → Ensures (SoundStatement strict env) (validate_body strict s env)
  body-Sound strict empty_statement env = returned _ (Sound-none env)
  body-Sound strict bare_return_statement env = returned _ (Sound-none env)
  body-Sound strict (compound_statement ss) env =
      >>=-Ensures (statements-Sound strict ss (new_symbol_scope env))
        λ (n, env1) s. returned _ (Sound-closed s)
  body-Sound strict (expression_statement e) env =
      >>=-Ensures (validate-Sound strict e env) λ (x, env1) s. returned _ s
  body-Sound strict (if_statement c t) env =
      >>=-Ensures (validate-Sound strict c env) λ (x, env1) s1.
        >>=-Ensures (statement-Sound strict t env1) λ (n, env2) s2. returned _ (Sound-both s1 s2)
  body-Sound strict (if_else_statement c t f) env =
      >>=-Ensures (validate-Sound strict c env) λ (x, env1) s1.
        >>=-Ensures (statement-Sound strict t env1) λ (n, env2) s2.
          >>=-Ensures (statement-Sound strict f env2)
            λ (k, env3) s3. returned _ (Sound-both (Sound-both s1 s2) s3)
  body-Sound strict (switch_statement c body) env =
      >>=-Ensures (validate-Sound strict c env) λ (x, env1) s1.
        >>=-Ensures (statement-Sound strict body env1) λ (n, env2) s2. returned _ (Sound-both s1 s2)
  body-Sound strict (while_statement c body) env =
      >>=-Ensures (validate-Sound strict c env) λ (x, env1) s1.
        >>=-Ensures (statement-Sound strict body env1) λ (n, env2) s2. returned _ (Sound-both s1 s2)
  body-Sound strict (do_while_statement body c) env =
      >>=-Ensures (validate-Sound strict c env) λ (x, env1) s1.
        >>=-Ensures (statement-Sound strict body env1) λ (n, env2) s2. returned _ (Sound-both s1 s2)
  body-Sound strict (goto_statement target) env = returned _ (Sound-none env)
  body-Sound strict (case_statement e s) env =
      >>=-Ensures (validate-Sound strict e env) λ (x, env1) s1.
        >>=-Ensures (statement-Sound strict s env1) λ (n, env2) s2. returned _ (Sound-both s1 s2)
  body-Sound strict (return_statement e) env =
      >>=-Ensures (validate-Sound strict e env) λ (x, env1) s. returned _ s
  body-Sound strict (definition_statement defs) env = definitions-Sound strict defs env
  body-Sound strict (import_statement arg) env = returned _ (Sound-none env)
  body-Sound strict (module_statement name) env = returned _ (Sound-none env)
  body-Sound strict (discover_statement args) env =
      >>=-Ensures (arguments-Sound strict args (typed prim_tuple literal nil) env)
        λ (n, t, env1) s. returned _ s

  pub statements-Sound :
      (strict : Bool) (ss : Statements) (env : Environment)
      → Ensures (SoundStatement strict env) (validate_statements strict ss env)
  statements-Sound strict no_statements env = returned _ (Sound-none env)
  statements-Sound strict (next_statement s ss) env =
      >>=-Ensures (statement-Sound strict s env) λ (n, env1) s1.
        >>=-Ensures (statements-Sound strict ss env1) λ (k, env2) s2. returned _ (Sound-both s1 s2)

  pub definitions-Sound :
      (strict : Bool) (defs : Definitions) (env : Environment)
      → Ensures (SoundStatement strict env) (validate_definitions strict defs env)
  definitions-Sound strict no_definitions env = returned _ (Sound-none env)
  definitions-Sound strict (uninitialized t i defs) env =
      >>=-Ensures (anything (detect_final_type t none)) λ t' u.
        >>=-Ensures (declare-Grows i.m_symbol (definition t') env) λ env1 g.
          Ensures-weaker (definitions-Sound strict defs env1) λ (n, env2) s. Sound-after g s
  definitions-Sound strict (initialized t i e defs) env =
      >>=-Ensures (validate-Sound strict e env) λ (x, env1) s1.
        >>=-Ensures (anything (detect_final_type t (some x.result_type))) λ t' u.
          >>=-Ensures
            (anything
              (if is_initializable_from t' x.result_type then ok tt else throw syntax_error))
            λ v w. >>=-Ensures (declare-Grows i.m_symbol (definition t') env1) λ env2 g.
              >>=-Ensures (definitions-Sound strict defs env2)
                λ (n, env3) s2. returned _ (Sound-both s1 (Sound-after g s2))
