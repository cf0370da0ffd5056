-- ===== src/Language/Syntax/Validated/Blocks.antt =====
-- Blocks and definitions: what validation does to the scopes of symbols.
use hwpp.Prelude.{
  ℕ, ◌≡◌, refl, ◌⊎◌, inl, inr, Bool, true, none, some, List, ◌∷◌, if◌then◌else◌, Bytes, bytes_eq,
  ok, throw,
}
use hwpp.Util.StdMap
use hwpp.Language.Types.{is_initializable_from}
use hwpp.Language.Syntax.{
  Statement, compound_statement, Statements, Definitions, no_definitions, uninitialized,
  initialized,
}
use hwpp.Language.Syntax.Validate.{
  syntax_error, Symbol, definition, Environment, new_symbol_scope, detect_final_type,
}
use hwpp.Language.Syntax.Validate.Nodes.{validate_statement, validate_body, validate_definitions}
use hwpp.Language.Syntax.Scoping.{
  Ensures, returned, threw, anything, declare-Grows, >>=-Ensures, Ensures-ok, SymbolScope, stack,
  closed, declare-known,
}
use hwpp.Language.Syntax.Validated.{
  SoundStatement, validate-Sound, statement-Sound, statements-Sound,
}

-- A compound statement that validates leaves the scopes of the symbols as they
-- were, where there is one: what is defined inside it is gone.
pub validate_body-compound :
    (strict : Bool) (ss : Statements) (env env' : Environment) (n : ℕ) (c : SymbolScope)
    (rest : List SymbolScope)
    → stack env ≡ c ∷ rest
    → validate_body strict (compound_statement ss) env ≡ ok (n, env')
    → stack env' ≡ stack env
unfolding validate_body
validate_body-compound strict ss env env' n c rest h returns =
    Ensures-ok (λ (r : ℕ × Environment). stack r.1 ≡ stack env)
      (validate_body strict (compound_statement ss) env) (n, env') left returns
  where
    left :
        Ensures
          (λ (r : ℕ × Environment). stack r.1 ≡ stack env)
          (validate_body strict (compound_statement ss) env)
    left =
        >>=-Ensures (statements-Sound strict ss (new_symbol_scope env))
          λ (n, env1) s. returned _ (closed env env1 c rest s.grows h)

-- Validating a statement changes the current scope only, and only by new symbols: one that it has
-- keeps its meaning, and the scopes around it stay as they were.
pub validate_statement-grown :
    (strict : Bool) (s : Statement) (env env' : Environment) (n : ℕ) (c : SymbolScope)
    (rest : List SymbolScope)
    → stack env ≡ c ∷ rest
    → validate_statement strict s env ≡ ok (n, env')
    → (c' : SymbolScope) × (stack env' ≡ c' ∷ rest)
      × ((name : Bytes) (symbol : Symbol)
          → StdMap.find name c ≡ some symbol
          → StdMap.find name c' ≡ some symbol)
validate_statement-grown strict s env env' n c rest h returns =
    (Ensures-ok (SoundStatement strict env) (validate_statement strict s env) (n, env')
        (statement-Sound strict s env) returns).grows.grown
      c rest h

-- With the flag error_on_unresolved_symbols, a statement whose validation returns has no warnings.
pub validate_statement-strict :
    (s : Statement) (env env' : Environment) (n : ℕ)
    → validate_statement true s env ≡ ok (n, env')
    → n ≡ 0
validate_statement-strict s env env' n returns =
    (Ensures-ok (SoundStatement true env) (validate_statement true s env) (n, env')
        (statement-Sound true s env) returns).silent
      refl

-- Whether a list of definitions, of either form, has one of this name.
unfoldable pub Defines : Bytes → Definitions → Type 0
Defines name no_definitions = ⊥
Defines name (uninitialized t i defs) = (i.m_symbol ≡ name) ⊎ Defines name defs
Defines name (initialized t i e defs) = (i.m_symbol ≡ name) ⊎ Defines name defs

refused_again :
    (strict : Bool) (defs : Definitions) (name : Bytes) (env : Environment) (c : SymbolScope)
    (rest : List SymbolScope) (known : Symbol)
    → stack env ≡ c ∷ rest
    → StdMap.find name c ≡ some known
    → Defines name defs
    → Ensures (λ (r : ℕ × Environment). ⊥) (validate_definitions strict defs env)
unfolding validate_definitions Defines
refused_again strict no_definitions name env c rest known h found d = absurd d
refused_again strict (uninitialized t i defs) name env c rest known h found (inl same) =
    >>=-Ensures (anything (detect_final_type t none)) λ t' u.
      rw (declare-known i.m_symbol (definition t') known c rest env h (rw same found))
        (threw syntax_error)
refused_again strict (uninitialized t i defs) name env c rest known h found (inr later) =
    >>=-Ensures (anything (detect_final_type t none)) λ t' u.
      >>=-Ensures (declare-Grows i.m_symbol (definition t') env) λ env1 g.
        let (c', h', keeps) = g.grown c rest h in
        refused_again strict defs name env1 c' rest known h' (keeps name known found) later
refused_again strict (initialized t i e defs) name env c rest known h found (inl same) =
    >>=-Ensures (validate-Sound strict e env) λ (x, env1) s.
      >>=-Ensures (anything (detect_final_type t (some x.result_type))) λ t' u.
        >>=-Ensures
          (anything (if is_initializable_from t' x.result_type then ok tt else throw syntax_error))
          λ v w.
            let (c', h', keeps) = s.grows.grown c rest h in
            rw
              (declare-known i.m_symbol (definition t') known c' rest env1 h'
                (rw same (keeps name known found)))
              (threw syntax_error)
refused_again strict (initialized t i e defs) name env c rest known h found (inr later) =
    >>=-Ensures (validate-Sound strict e env) λ (x, env1) s.
      >>=-Ensures (anything (detect_final_type t (some x.result_type))) λ t' u.
        >>=-Ensures
          (anything (if is_initializable_from t' x.result_type then ok tt else throw syntax_error))
          λ v w. >>=-Ensures (declare-Grows i.m_symbol (definition t') env1) λ env2 g.
            let (c', h', keeps) = s.grows.grown c rest h in
            let (c2, h2, keeps2) = g.grown c' rest h' in
            >>=-Ensures
              (refused_again strict defs name env2 c2 rest known h2
                (keeps2 name known (keeps name known found)) later)
              λ r none_left. absurd none_left

-- A list of definitions that has, at any place and with or without an initializer, one of a symbol
-- that the current scope has does not validate, whatever statement is validated in between.
pub validate_definitions-again :
    (strict : Bool) (s : Statement) (defs : Definitions) (name : Bytes) (env env1 : Environment)
    (n : ℕ) (c : SymbolScope) (rest : List SymbolScope) (known : Symbol) (r : ℕ × Environment)
    → stack env ≡ c ∷ rest
    → StdMap.find name c ≡ some known
    → validate_statement strict s env ≡ ok (n, env1)
    → Defines name defs
    → ¬ (validate_definitions strict defs env1 ≡ ok r)
validate_definitions-again strict s defs name env env1 n c rest known r h found returns d accepted =
    let (c', h', keeps) = validate_statement-grown strict s env env1 n c rest h returns in
    Ensures-ok (λ (q : ℕ × Environment). ⊥) (validate_definitions strict defs env1) r
      (refused_again strict defs name env1 c' rest known h' (keeps name known found) d) accepted
