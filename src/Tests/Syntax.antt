-- ===== src/Tests/Syntax.antt =====
-- language/syntax_tree.h and language/syntax_tree.cc on small trees.
use hwpp.Prelude.{
  ℕ, ◌≡◌, refl, inl, inr, Bool, true, false, none, some, [], ◌∷◌, if◌then◌else◌, ◌==◌, Bytes, codes,
  bytes_eqb, bytes_eq, ok, throw, undefined,
}
use hwpp.Prelude.Int.{pos}
use hwpp.Util.StdMap
use hwpp.Language.Types.{prim_int, prim_tuple, non_const, literal, LanguageType, typed, nil, cons}
use hwpp.Language.Variable.{datum, int_content}
use hwpp.Language.Syntax.{
  Identifier, Expression, identifier_expression, binary_expression, op_add, op_assign,
  value_expression, function_literal_expression, Statement, statement, Body, bare_return_statement,
  compound_statement, expression_statement, return_statement, definition_statement, Statements,
  no_statements, next_statement, Definitions, no_definitions, uninitialized, initialized,
}
use hwpp.Language.Syntax.Print.{to_string, statement_to_string}
use hwpp.Language.Syntax.Validate.{syntax_error, definition, Environment}
use hwpp.Language.Syntax.Validate.Operators.{subscript_type}
use hwpp.Language.Syntax.Validate.Nodes.{
  validate, validate_statement, validate_body, validate_definitions,
}
use hwpp.Language.Syntax.Scoping.{stack}
use hwpp.Language.Files.{ParsedFile, Files, parse_contents, validate_files, lookup_module}
use hwpp.Language.Files.Again.{validate_files-again}
use hwpp.Language.Files.Stored.{parse_contents-stored, named_module}
use hwpp.Language.Syntax.Validated.Blocks.{
  Defines, validate_body-compound, validate_definitions-again, validate_statement-strict,
}

abbrev named : Bytes → Identifier
named s = record { m_module = []; m_symbol = s }

abbrev an_int : LanguageType
an_int = typed prim_int non_const nil

abbrev seven : Expression
seven = value_expression (datum (typed prim_int literal nil) (int_content (pos 7)))

abbrev define_x : Definitions
define_x = uninitialized an_int (named (codes "x")) no_definitions

abbrev plainly : Body → Statement
plainly b = statement [] b

-- `int x; x = 7;` of a block
abbrev block : Statements
block = next_statement (plainly (definition_statement define_x)) (
    next_statement
      (plainly (
        expression_statement
          (binary_expression op_assign (identifier_expression (named (codes "x"))) seven)))
      no_statements)

abbrev empty_environment : Environment
empty_environment = record { m_symtab = record { m_stack = [] ∷ [] }; args_validated = false }

abbrev with_x : Environment
with_x = record {
  m_symtab = record { m_stack = ((codes "x", definition an_int) ∷ []) ∷ [] };
  args_validated = false;
}

x_found : StdMap.find (codes "x") ((codes "x", definition an_int) ∷ []) ≡ some (definition an_int)
unfolding StdMap.find bytes_eqb
x_found = refl

block_validates :
    validate_body true (compound_statement block) empty_environment ≡ ok (0, empty_environment)
unfolding validate_body
block_validates = refl

validate_body-compound_example : stack empty_environment ≡ [] ∷ []
validate_body-compound_example =
    validate_body-compound true block empty_environment empty_environment 0 [] [] refl
      block_validates

x_validates :
    validate_statement true
      (plainly (expression_statement (identifier_expression (named (codes "x")))))
      with_x
    ≡ ok (0, with_x)
unfolding validate_statement
x_validates = refl

validate_statement-strict_example : ◌≡◌ {A = ℕ} 0 0
validate_statement-strict_example =
    validate_statement-strict
      (plainly (expression_statement (identifier_expression (named (codes "x"))))) with_x with_x 0
      x_validates

-- The subscript 7 of a tuple that has one member is accepted, as if it were 0.
missing_member :
    subscript_type
      (typed prim_tuple non_const (cons an_int nil))
      seven
      (record { warnings = 0; result_type = typed prim_int literal nil; is_constexpr = true })
    ≡ ok an_int
unfolding subscript_type
missing_member = refl

-- `int y = 7, x = 7;`
abbrev define_again : Definitions
define_again =
    initialized an_int (named (codes "y")) seven
      (initialized an_int (named (codes "x")) seven no_definitions)

x_defined_again : Defines (codes "x") define_again
unfolding Defines
x_defined_again = inr (inl refl)

-- `int x; x; int y = 7, x = 7;`
validate_definitions-again_example :
    ¬ (validate_definitions true define_again with_x ≡ ok (0, empty_environment))
validate_definitions-again_example =
    validate_definitions-again true
      (plainly (expression_statement (identifier_expression (named (codes "x"))))) define_again
      (codes "x") with_x with_x 0 ((codes "x", definition an_int) ∷ []) [] (definition an_int)
      (0, empty_environment) refl x_found x_validates x_defined_again

-- What it is refused with.
refused_with : validate_definitions true define_again with_x ≡ throw syntax_error
unfolding validate_definitions
refused_with = refl

-- `$() return args;`: the definition of `args` is validated where it is used, in the scope that has it.
args_redefined :
    validate true
      (function_literal_expression []
        (plainly (return_statement (identifier_expression (named (codes "args"))))))
      empty_environment
    ≡ throw syntax_error
unfolding validate
args_redefined = refl

-- `$(int x) { x; }`: a parameter is not a symbol of the body.
parameter_unresolved :
    validate true
      (function_literal_expression (record { m_type = an_int; m_ident = named (codes "x") } ∷ []) (
        plainly (
          compound_statement (
            next_statement
              (plainly (expression_statement (identifier_expression (named (codes "x")))))
              no_statements))))
      empty_environment
    ≡ throw syntax_error
unfolding validate
parameter_unresolved = refl

-- A label on an expression statement is not printed, and a bare return has nothing to print.
label_lost :
    statement_to_string (statement (named (codes "l") ∷ []) (expression_statement seven))
    ≡ statement_to_string (plainly (expression_statement seven))
unfolding statement_to_string
label_lost = refl

bare_return : statement_to_string (plainly bare_return_statement) ≡ undefined
unfolding statement_to_string
bare_return = refl

sum_printed :
    to_string (binary_expression op_add (identifier_expression (named (codes "x"))) seven)
    ≡ ok (codes "x + 7")
unfolding to_string
sum_printed = refl

-- A parser that finds `int x;` in every file, of the module `m`.
abbrev x_file : Bool → ParsedFile
x_file flag = record {
  m_module = codes "m";
  m_statements =
      record { m_statement = plainly (definition_statement define_x); m_validated = flag } ∷ [];
  m_public_symbols = [];
  m_private_symbols = [];
}

abbrev one_file : Bool → Environment → Files
one_file flag symbols = record {
  symbols = symbols;
  m_parsed_files = (codes "f", x_file flag) ∷ [];
  m_modules = [];
}

file_validates :
    validate_files true (one_file false empty_environment) ≡ ok (0, one_file true with_x)
unfolding validate_files
file_validates = refl

validate_files-again_example :
    validate_files false (one_file true with_x) ≡ ok (0, one_file true with_x)
validate_files-again_example =
    validate_files-again true false (one_file false empty_environment) (one_file true with_x) 0
      file_validates

abbrev no_files : Files
no_files = record { symbols = empty_environment; m_parsed_files = []; m_modules = [] }

parse_contents-stored_example :
    (env' : Files) × (parse_contents (λ name contents. ok (x_file false)) (codes "f") [] no_files
      ≡ ok (some (x_file false), env'))
    × (env'.symbols ≡ empty_environment)
    × ((other : Bytes)
        → StdMap.find other env'.m_parsed_files
          ≡ (if codes "f" == other then some (x_file false) else none))
    × ((m : Bytes)
        → lookup_module m env'
          ≡ (if named_module (x_file false) m then some (x_file false) else none))
unfolding StdMap.find lookup_module
parse_contents-stored_example =
    parse_contents-stored (λ name contents. ok (x_file false)) (codes "f") [] (x_file false)
      no_files refl
