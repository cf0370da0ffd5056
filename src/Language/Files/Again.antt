-- ===== src/Language/Files/Again.antt =====
-- Validation of the files: what has been validated is not validated again.
use hwpp.Prelude.{ℕ, ◌≡◌, refl, Bool, true, false, List, [], ◌∷◌, Bytes, bytes_eq, ok}
use hwpp.Language.Syntax.{Statement}
use hwpp.Language.Syntax.Scoping.{Ensures, returned, >>=-Ensures, Ensures-ok, anything}
use hwpp.Language.Syntax.Validate.{Environment}
use hwpp.Language.Syntax.Validate.Nodes.{validate_statement}
use hwpp.Language.Files.{
  Node, ParsedFile, Files, validate_once, validate_nodes, validate_each, validate_files,
}

pub AllValidated : List Node → Type 0
AllValidated [] = Unit {0}
AllValidated (node ∷ nodes) = (node.m_validated ≡ true) × AllValidated nodes

pub EachValidated : List (Bytes × ParsedFile) → Type 0
EachValidated [] = Unit {0}
EachValidated ((name, file) ∷ files) = AllValidated file.m_statements × EachValidated files

abbrev Once : ℕ × Node × Environment → Type 0
Once r = r.1.m_validated ≡ true

abbrev Nodes : ℕ × List Node × Environment → Type 0
Nodes r = AllValidated r.1

abbrev Each : ℕ × List (Bytes × ParsedFile) × Environment → Type 0
Each r = EachValidated r.1

validate_once-validated :
    (strict : Bool) (s : Statement) (flag : Bool) (env : Environment)
    → Ensures Once (validate_once strict (record { m_statement = s; m_validated = flag }) env)
unfolding validate_once
validate_once-validated strict s true env = returned _ refl
validate_once-validated strict s false env =
    >>=-Ensures (anything (validate_statement strict s env)) λ (n, env') u. returned _ refl

validate_nodes-validated :
    (strict : Bool) (nodes : List Node) (env : Environment)
    → Ensures Nodes (validate_nodes strict nodes env)
unfolding validate_nodes AllValidated
validate_nodes-validated strict [] env = returned _ tt
validate_nodes-validated strict (node ∷ nodes) env =
    >>=-Ensures (validate_once-validated strict node.m_statement node.m_validated env)
      λ (n, node', env1) flag.
        >>=-Ensures (validate_nodes-validated strict nodes env1)
          λ (k, nodes', env2) flags. returned _ (flag, flags)

validate_each-validated :
    (strict : Bool) (files : List (Bytes × ParsedFile)) (env : Environment)
    → Ensures Each (validate_each strict files env)
unfolding validate_each EachValidated
validate_each-validated strict [] env = returned _ tt
validate_each-validated strict ((name, file) ∷ files) env =
    >>=-Ensures (validate_nodes-validated strict file.m_statements env) λ (n, nodes, env1) flags.
      >>=-Ensures (validate_each-validated strict files env1)
        λ (k, files', env2) rest. returned _ (flags, rest)

nodes-again :
    (strict : Bool) (nodes : List Node) (env : Environment)
    → AllValidated nodes
    → validate_nodes strict nodes env ≡ ok (0, nodes, env)
unfolding validate_nodes validate_once AllValidated
nodes-again strict [] env flags = refl
nodes-again strict (node ∷ nodes) env flags =
    rw (flags.0, nodes-again strict nodes env flags.1) refl

each-again :
    (strict : Bool) (files : List (Bytes × ParsedFile)) (env : Environment)
    → EachValidated files
    → validate_each strict files env ≡ ok (0, files, env)
unfolding validate_each EachValidated
each-again strict [] env flags = refl
each-again strict ((name, file) ∷ files) env flags =
    rw (nodes-again strict file.m_statements env flags.0, each-again strict files env flags.1) refl

-- Validation of the files that has returned is done: to validate them again, with either flag, gives no
-- warnings and changes nothing.
pub validate_files-again :
    (strict again : Bool) (env env' : Files) (n : ℕ)
    → validate_files strict env ≡ ok (n, env')
    → validate_files again env' ≡ ok (0, env')
unfolding validate_files
validate_files-again strict again env env' n h =
    let validated : EachValidated env'.m_parsed_files =
      Ensures-ok (λ (r : ℕ × Files). EachValidated r.1.m_parsed_files) (validate_files strict env)
        (n, env')
        (>>=-Ensures (validate_each-validated strict env.m_parsed_files env.symbols)
          λ (k, files, symbols) flags. returned _ flags)
        h in
    rw (each-again again env'.m_parsed_files env'.symbols validated) refl
