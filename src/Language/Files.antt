-- ===== src/Language/Files.antt =====
-- language/parsed_file.h and language/environment.cc: the files that have been parsed, and their
-- validation. The parser, which is generated, and the opening of files are arguments. What a throw
-- leaves behind is not kept. A module is looked up as it was when it was parsed.
pub mod Again
pub mod Stored
use hwpp.Prelude.{
  ℕ, ◌+◌, Bool, true, false, not, ◌&&◌, Option, none, some, List, [], ◌∷◌, ◌++◌, if◌then◌else◌,
  ◌==◌, length, Bytes, bytes_eqb, bytes_ltb, bytes_eq, ok, ◌>>=◌, ◌>>◌,
}
use hwpp.Util.StdMap
use hwpp.Language.Types.{LanguageType}
use hwpp.Language.Syntax.{Statement}
use hwpp.Language.Syntax.Validate.{ValidateError, Result, Environment}
use hwpp.Language.Syntax.Validate.Nodes.{validate_statement}

-- A statement with the flag of SyntaxNode.
pub record Node : Type 0 where
  pub m_statement : Statement
  pub m_validated : Bool

-- The symbols are maps from a module and a name; a definition is that of its type.
pub record ParsedFile : Type 0 where
  pub m_module : Bytes
  pub m_statements : List Node
  pub m_public_symbols : List ((Bytes × Bytes) × LanguageType)
  pub m_private_symbols : List ((Bytes × Bytes) × LanguageType)

-- `Environment`, whose table of symbols is `symbols`. The files stand in the order of their names.
pub record Files : Type 0 where
  pub symbols : Environment
  pub m_parsed_files : List (Bytes × ParsedFile)
  pub m_modules : List (Bytes × ParsedFile)

-- `m_parsed_files[name] = file`
unfoldable pub store_file :
    Bytes → ParsedFile → List (Bytes × ParsedFile) → List (Bytes × ParsedFile)
unfolding bytes_ltb bytes_eqb
store_file name file [] = (name, file) ∷ []
store_file name file ((other, f) ∷ files) =
    if other == name
    then (name, file) ∷ files
    else if bytes_ltb name other
    then (name, file) ∷ (other, f) ∷ files
    else (other, f) ∷ store_file name file files

unfoldable pub add_statement : Statement → ParsedFile → ParsedFile
add_statement s f = record f {
  m_statements = f.m_statements ++ record { m_statement = s; m_validated = false } ∷ [];
}

-- The map of symbols with a definition stored, and whether the symbol already existed.
unfoldable pub store_symbol :
    Bytes
    → Bytes
    → LanguageType
    → List ((Bytes × Bytes) × LanguageType)
    → Bool × List ((Bytes × Bytes) × LanguageType)
unfolding bytes_eqb
store_symbol home symbol definition [] = (false, ((home, symbol), definition) ∷ [])
store_symbol home symbol definition (((m, s), d) ∷ symbols) =
    let (existed, rest) = store_symbol home symbol definition symbols in
    if m == home && s == symbol
    then (true, ((m, s), definition) ∷ symbols)
    else (existed, ((m, s), d) ∷ rest)

unfoldable pub add_public_symbol : Bytes → LanguageType → ParsedFile → Bool × ParsedFile
unfolding store_symbol
add_public_symbol name definition f =
    let (existed, symbols) = store_symbol f.m_module name definition f.m_public_symbols in
    (existed, record f { m_public_symbols = symbols })

unfoldable pub add_private_symbol : Bytes → LanguageType → ParsedFile → Bool × ParsedFile
unfolding store_symbol
add_private_symbol name definition f =
    let (existed, symbols) = store_symbol f.m_module name definition f.m_private_symbols in
    (existed, record f { m_private_symbols = symbols })

unfoldable pub n_symbols : ParsedFile → ℕ
n_symbols f = length f.m_public_symbols + length f.m_private_symbols

module _ (parser : Bytes → Bytes → Result ParsedFile) where
  -- `parse_file(name, file)` of what a file contains.
  unfoldable pub parse_contents : Bytes → Bytes → Files → Result (Option ParsedFile × Files)
  unfolding store_file StdMap.insert StdMap.find bytes_eqb
  parse_contents name contents env = do
    current_file ← parser name contents
    let files = store_file name current_file env.m_parsed_files in
        let modules =
          if not (current_file.m_module == [])
          then StdMap.insert current_file.m_module current_file env.m_modules
          else env.m_modules in
        ok (StdMap.find name files, record env { m_parsed_files = files; m_modules = modules })

  -- `parse_file(name)` and `parse_string(name, data)`, given what opening a file gives.
  unfoldable pub parse_file :
      (Bytes → Option Bytes) → Bytes → Files → Result (Option ParsedFile × Files)
  unfolding parse_contents
  parse_file fopen name env = elim (fopen name) [
    | none ↦ ok (none, env)
    | some contents ↦ parse_contents name contents env
  ]

unfoldable pub lookup_module : Bytes → Files → Option ParsedFile
unfolding StdMap.find bytes_eqb
lookup_module name env = StdMap.find name env.m_modules

unfoldable pub validate_once : Bool → Node → Environment → Result (ℕ × Node × Environment)
unfolding validate_statement
validate_once strict node env = if node.m_validated then ok (0, node, env) else do
  (n, env') ← validate_statement strict node.m_statement env
  ok (n, record node { m_validated = true }, env')

-- The loops of `Environment::validate`.
unfoldable pub validate_nodes :
    Bool → List Node → Environment → Result (ℕ × List Node × Environment)
unfolding validate_once
validate_nodes strict [] env = ok (0, [], env)
validate_nodes strict (node ∷ nodes) env = do
  (n, node', env1) ← validate_once strict node env
  (k, nodes', env2) ← validate_nodes strict nodes env1
  ok (n + k, node' ∷ nodes', env2)

unfoldable pub validate_each :
    Bool
    → List (Bytes × ParsedFile)
    → Environment
    → Result (ℕ × List (Bytes × ParsedFile) × Environment)
unfolding validate_nodes
validate_each strict [] env = ok (0, [], env)
validate_each strict ((name, file) ∷ files) env = do
  (n, nodes, env1) ← validate_nodes strict file.m_statements env
  (k, files', env2) ← validate_each strict files env1
  ok (n + k, (name, record file { m_statements = nodes }) ∷ files', env2)

unfoldable pub validate_files : Bool → Files → Result (ℕ × Files)
unfolding validate_each
validate_files strict env = do
  (n, files, symbols) ← validate_each strict env.m_parsed_files env.symbols
  ok (n, record env { m_parsed_files = files; symbols = symbols })
