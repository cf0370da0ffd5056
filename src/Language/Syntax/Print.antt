-- ===== src/Language/Syntax/Print.antt =====
-- language/syntax_tree.cc: `to_string` of the nodes. The dereferenced null pointer of a return
-- statement with no value is `undefined`.
use hwpp.Prelude.{
  Option, none, some, List, [], ◌∷◌, ◌++◌, if◌then◌else◌, ◌==◌, Bytes, codes, bytes_eqb, bytes_eq,
  Outcome, ok, throw, undefined,
}
use Prim.Native.String.{String}
use hwpp.Prelude.Int.{int_to_string}
use hwpp.Language.Types.{
  LanguageType, Primitive, prim_bool, prim_fldfmt, prim_func, prim_int, prim_list, prim_string,
  prim_tuple, prim_var,
}
use hwpp.Language.Types
use hwpp.Language.Variable.{
  VariableError, Datum, datum, Content, bool_content, int_content, string_content, list_content,
  tuple_content, Contents, none_left, next_variable, primitive_of,
}
use hwpp.Language.Syntax.{
  Identifier, Parameter, UnaryOperator, op_pos, op_neg, op_not, op_bitnot, op_preinc, op_predec,
  op_postinc, op_postdec, BinaryOperator, op_eq, op_neq, op_lt, op_gt, op_le, op_ge, op_mul, op_div,
  op_mod, op_add, op_sub, op_shl, op_shr, op_and, op_or, op_xor, op_comma, op_assign, op_mul_assign,
  op_div_assign, op_mod_assign, op_add_assign, op_sub_assign, op_shl_assign, op_shr_assign,
  op_and_assign, op_or_assign, op_xor_assign, Expression, identifier_expression,
  subscript_expression, function_call_expression, unary_expression, binary_expression,
  conditional_expression, value_expression, function_literal_expression, tuple_literal_expression,
  Arguments, no_arguments, argument, Statement, statement, Body, empty_statement,
  bare_return_statement, compound_statement, expression_statement, if_statement, if_else_statement,
  switch_statement, while_statement, do_while_statement, goto_statement, case_statement,
  return_statement, definition_statement, import_statement, module_statement, discover_statement,
  Statements, no_statements, next_statement, Definitions, no_definitions, uninitialized,
  initialized,
}

-- A text that is put together.
abbrev pub Text : Type 0
Text = Outcome VariableError Bytes

infixr 64 ◌&◌
abbrev pub ◌&◌ : Text → Text → Text
ok a & ok b = ok (a ++ b)
ok a & throw e = throw e
ok a & undefined = undefined
throw e & rest = throw e
undefined & rest = undefined

abbrev pub text : String → Text
text s = ok (codes s)

unfoldable pub identifier_to_string : Identifier → Bytes
unfolding bytes_eqb
identifier_to_string i = i.m_module ++ (if i.m_module == [] then [] else codes ".") ++ i.m_symbol

-- What stands before and behind the operand.
unfoldable pub prefix_of : UnaryOperator → Bytes
prefix_of op_pos = codes "+"
prefix_of op_neg = codes "-"
prefix_of op_not = codes "!"
prefix_of op_bitnot = codes "~"
prefix_of op_preinc = codes "++"
prefix_of op_predec = codes "--"
prefix_of op_postinc = []
prefix_of op_postdec = []

unfoldable pub suffix_of : UnaryOperator → Bytes
suffix_of op_postinc = codes "++"
suffix_of op_postdec = codes "--"
suffix_of op = []

unfoldable pub operator_to_string : BinaryOperator → Bytes
operator_to_string op_eq = codes "=="
operator_to_string op_neq = codes "!="
operator_to_string op_lt = codes "<"
operator_to_string op_gt = codes ">"
operator_to_string op_le = codes "<="
operator_to_string op_ge = codes ">="
operator_to_string op_mul = codes "*"
operator_to_string op_div = codes "/"
operator_to_string op_mod = codes "%"
operator_to_string op_add = codes "+"
operator_to_string op_sub = codes "-"
operator_to_string op_shl = codes "<<"
operator_to_string op_shr = codes ">>"
operator_to_string op_and = codes "&"
operator_to_string op_or = codes "|"
operator_to_string op_xor = codes "^"
operator_to_string op_comma = codes ","
operator_to_string op_assign = codes "="
operator_to_string op_mul_assign = codes "*="
operator_to_string op_div_assign = codes "/="
operator_to_string op_mod_assign = codes "%="
operator_to_string op_add_assign = codes "+="
operator_to_string op_sub_assign = codes "-="
operator_to_string op_shl_assign = codes "<<="
operator_to_string op_shr_assign = codes ">>="
operator_to_string op_and_assign = codes "&="
operator_to_string op_or_assign = codes "|="
operator_to_string op_xor_assign = codes "^="

-- `datum_to_string`; a member that is not valid has no value in the model.
unfoldable mutual
  unfolding int_to_string primitive_of

  pub datum_to_string : Datum → Text
  datum_to_string (datum t content) = content_to_string (primitive_of t) content

  pub content_to_string : Primitive → Content → Text
  content_to_string prim_bool (bool_content value) = if value then text "true" else text "false"
  content_to_string prim_fldfmt content = ok []
  content_to_string prim_func content = ok []
  content_to_string prim_int (int_content value) = ok (int_to_string value)
  content_to_string prim_list (list_content cs) = text "[ " & (contents_to_string cs & text " ]")
  content_to_string prim_string (string_content value) = ok (b'"' ∷ value ++ b'"' ∷ [])
  content_to_string prim_tuple (tuple_content cs) = text "[ " & (contents_to_string cs & text " ]")
  content_to_string prim_var content = text "undef"
  content_to_string _ content = undefined

  pub contents_to_string : Contents → Text
  contents_to_string none_left = ok []
  contents_to_string (next_variable d ds) = datum_to_string d & contents_to_string ds

-- The labels of a statement, each on a line.
unfoldable pub labels_to_string : List Identifier → Bytes
unfolding identifier_to_string
labels_to_string [] = []
labels_to_string (l ∷ ls) = identifier_to_string l ++ codes ":\n" ++ labels_to_string ls

unfoldable pub parameters_to_string : Bytes → List Parameter → Bytes
unfolding identifier_to_string Types.to_string
parameters_to_string separator [] = []
parameters_to_string separator (p ∷ ps) =
    separator
    ++ Types.to_string p.m_type
    ++ codes " "
    ++ identifier_to_string p.m_ident
    ++ parameters_to_string (codes ", ") ps

unfoldable pub argument_name : Option Identifier → Bytes
unfolding identifier_to_string
argument_name none = []
argument_name (some name) = identifier_to_string name ++ codes ":"

-- `to_string`, and the loops over arguments, statements and definitions.
unfoldable mutual
  unfolding identifier_to_string prefix_of suffix_of operator_to_string datum_to_string
      labels_to_string parameters_to_string argument_name Types.to_string

  pub to_string : Expression → Text
  to_string (identifier_expression i) = ok (identifier_to_string i)
  to_string (subscript_expression e index) =
      text "(" & (to_string e & (text ")[" & (to_string index & text "]")))
  to_string (function_call_expression callee args) =
      text "(" & (to_string callee & (text ")(" & (arguments_to_string [] args & text ")")))
  to_string (unary_expression op e) =
      ok (prefix_of op) & (text "(" & (to_string e & (text ")" & ok (suffix_of op))))
  to_string (binary_expression op l r) =
      to_string l & (text " " & (ok (operator_to_string op) & (text " " & to_string r)))
  to_string (conditional_expression c t f) =
      text "("
      & (to_string c & (text ") ? (" & (to_string t & (text ") : (" & (to_string f & text ")")))))
  to_string (value_expression d) = datum_to_string d
  to_string (function_literal_expression ps body) =
      text "$(" & (ok (parameters_to_string [] ps) & (text ")" & statement_to_string body))
  to_string (tuple_literal_expression args) = text "[" & (arguments_to_string [] args & text "]")

  pub arguments_to_string : Bytes → Arguments → Text
  arguments_to_string separator no_arguments = ok []
  arguments_to_string separator (argument name e args) =
      ok (separator ++ argument_name name) & (to_string e & arguments_to_string (codes ", ") args)

  -- The labels come first, but for a statement that is an expression.
  pub statement_to_string : Statement → Text
  statement_to_string (statement labels body) = body_to_string (ok (labels_to_string labels)) body

  pub body_to_string : Text → Body → Text
  body_to_string labels empty_statement = labels & text "(undef);"
  body_to_string labels bare_return_statement = undefined
  body_to_string labels (compound_statement ss) =
      labels & (text "{\n" & (statements_to_string ss & text "}\n"))
  body_to_string labels (expression_statement e) = to_string e
  body_to_string labels (if_statement c t) =
      labels & (text "if (" & (to_string c & (text ") {\n" & (statement_to_string t & text "}\n"))))
  body_to_string labels (if_else_statement c t f) =
      labels
      & (text "if ("
          & (to_string c
              & (text ") {\n"
                  & (statement_to_string t
                      & (text "} else {\n" & (statement_to_string f & text "}\n"))))))
  body_to_string labels (switch_statement c body) =
      labels
      & (text "switch (" & (to_string c & (text ") {\n" & (statement_to_string body & text "}\n"))))
  body_to_string labels (while_statement c body) =
      labels
      & (text "while (" & (to_string c & (text ") {\n" & (statement_to_string body & text "}\n"))))
  body_to_string labels (do_while_statement body c) =
      labels
      & (text "do {\n"
          & (statement_to_string body & (text " } while (" & (to_string c & text ")\n"))))
  body_to_string labels (goto_statement target) =
      labels & ok (codes "goto " ++ identifier_to_string target ++ codes ";\n")
  body_to_string labels (case_statement e s) =
      labels & (text "case (" & (to_string e & text "):\n"))
  body_to_string labels (return_statement e) =
      labels & (text "return (" & (to_string e & text ");\n"))
  body_to_string labels (definition_statement defs) = labels & definitions_to_string defs
  body_to_string labels (import_statement arg) =
      labels & ok (codes "import \"" ++ arg ++ codes "\";\n")
  body_to_string labels (module_statement name) =
      labels & ok (codes "module " ++ name ++ codes ";\n")
  body_to_string labels (discover_statement args) =
      labels & (text "discover(" & (arguments_to_string [] args & text ");"))

  pub statements_to_string : Statements → Text
  statements_to_string no_statements = ok []
  statements_to_string (next_statement s ss) = statement_to_string s & statements_to_string ss

  pub definitions_to_string : Definitions → Text
  definitions_to_string no_definitions = ok []
  definitions_to_string (uninitialized t i defs) =
      ok (Types.to_string t ++ codes " " ++ identifier_to_string i ++ codes ";\n")
      & definitions_to_string defs
  definitions_to_string (initialized t i e defs) =
      ok (Types.to_string t ++ codes " " ++ identifier_to_string i ++ codes " = ")
      & (to_string e & (text ";\n" & definitions_to_string defs))
