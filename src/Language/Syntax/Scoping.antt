-- ===== src/Language/Syntax/Scoping.antt =====
-- Validation and the scopes of symbols.
use hwpp.Prelude.{
  ℕ, ◌+◌, ◌≡◌, refl, sym, ap, ◌∙◌, subst, inl, inr, Bool, true, false, Option, none, some, List, [],
  ◌∷◌, arith, if◌then◌else◌, Bool-cases, ◌==◌, ==_iff, Bytes, bytes_eq, ok, throw, undefined, ◌>>=◌,
  ok-inj,
}
use hwpp.Util.StdMap
use hwpp.Util.StdMap.{find-insert}
use hwpp.Util.SymbolTable
use hwpp.Util.SymbolTable.{SymbolTable, StackError}
use hwpp.Language.Syntax.Validate.{
  ValidateError, syntax_error, Symbol, Environment, Result, new_symbol_scope, end_symbol_scope,
  add_symbol, declare,
}

abbrev pub SymbolScope : Type 0
SymbolScope = List (Bytes × Symbol)

abbrev pub stack : Environment → List SymbolScope
stack env = env.m_symtab.m_stack

-- The outer scopes stay as they are, and the current one gains symbols at most: those that it has
-- keep their meaning.
pub record Grows (env env' : Environment) : Type 0 where
  pub grown :
      (c : SymbolScope) (rest : List SymbolScope)
      → stack env ≡ c ∷ rest
      → (c' : SymbolScope) × (stack env' ≡ c' ∷ rest)
        × ((name : Bytes) (symbol : Symbol)
            → StdMap.find name c ≡ some symbol
            → StdMap.find name c' ≡ some symbol)

pub Grows-refl : (env : Environment) → Grows env env
Grows-refl env = record { grown = λ c rest h. (c, h, (λ name symbol found. found)) }

pub Grows-trans : {env env1 env2 : Environment} → Grows env env1 → Grows env1 env2 → Grows env env2
Grows-trans {env} {env1} {env2} g1 g2 = record { grown = both }
  where
    both :
        (c : SymbolScope) (rest : List SymbolScope)
        → stack env ≡ c ∷ rest
        → (c' : SymbolScope) × (stack env2 ≡ c' ∷ rest)
          × ((name : Bytes) (symbol : Symbol)
              → StdMap.find name c ≡ some symbol
              → StdMap.find name c' ≡ some symbol)
    both c rest h =
        let (c1, h1, keeps1) = g1.grown c rest h in
        let (c2, h2, keeps2) = g2.grown c1 rest h1 in
        (c2, h2, (λ name symbol found. keeps2 name symbol (keeps1 name symbol found)))

-- What holds of a result, if there is one.
pub data Ensures {A : Type 0} (P : A → Type 0) : Result A → Type 0 where
  returned : (a : A) → P a → Ensures P (ok a)
  threw : (e : ValidateError) → Ensures P (throw e)
  unknown : Ensures P undefined

module _ {A B : Type 0} where
  pub >>=-Ensures :
      {P : A → Type 0} {Q : B → Type 0} {first : Result A} {next : A → Result B}
      → Ensures P first
      → ((a : A) → P a → Ensures Q (next a))
      → Ensures Q (first >>= next)
  >>=-Ensures (returned a p) then_ensures = then_ensures a p
  >>=-Ensures (threw e) then_ensures = threw e
  >>=-Ensures unknown then_ensures = unknown

pub Ensures-weaker :
    {A : Type 0} {P Q : A → Type 0} {r : Result A}
    → Ensures P r
    → ((a : A) → P a → Q a)
    → Ensures Q r
Ensures-weaker (returned a p) weaker = returned a (weaker a p)
Ensures-weaker (threw e) weaker = threw e
Ensures-weaker unknown weaker = unknown

pub anything : {A : Type 0} (r : Result A) → Ensures (λ _. Unit {0}) r
anything (ok a) = returned a tt
anything (throw e) = threw e
anything undefined = unknown

pub Ensures-ok : {A : Type 0} (P : A → Type 0) (r : Result A) (a : A) → Ensures P r → r ≡ ok a → P a
Ensures-ok P _ a (returned b p) h = subst P (ok-inj h) p
Ensures-ok P _ a (threw e) h = cc
Ensures-ok P _ a unknown h = cc

none-ne-some : {A : Type 0} {a : A} → ¬ (none ≡ some a)
none-ne-some e = cc

insert-keeps :
    (name other : Bytes) (symbol found : Symbol) (c : SymbolScope)
    → StdMap.find name c ≡ none
    → StdMap.find other c ≡ some found
    → StdMap.find other (StdMap.insert name symbol c) ≡ some found
insert-keeps name other symbol found c new h = elim (Bool-cases (name == other)) [
  | inl same ↦
      absurd (none-ne-some (sym new ∙ ap (λ k. StdMap.find k c) ((==_iff name other).0 same) ∙ h))
  | inr differs ↦ find-insert name other symbol c ∙ rw differs h
]

abbrev with_scopes : List SymbolScope → Bool → Environment
with_scopes st b = record { m_symtab = record { m_stack = st }; args_validated = b }

∷-inj : {A : Type 0} {a b : A} {l k : List A} → a ∷ l ≡ b ∷ k → (a ≡ b) × (l ≡ k)
∷-inj e = (cc, cc)

add_symbol-at :
    (name : Bytes) (symbol : Symbol) (c : SymbolScope) (cs : List SymbolScope) (b : Bool)
    (o : Option Symbol)
    → StdMap.find name c ≡ o
    → Ensures
        (λ (r : Bool × Environment). Grows (with_scopes (c ∷ cs) b) r.1)
        (add_symbol name symbol (with_scopes (c ∷ cs) b))
unfolding add_symbol SymbolTable.add_unique SymbolTable.current_context SymbolTable.set_current
add_symbol-at name symbol c cs b (some v) known =
    let same : add_symbol name symbol (with_scopes (c ∷ cs) b)
        ≡ ok (false, with_scopes (c ∷ cs) b) =
      ground (arith, known) in
    subst (Ensures (λ (r : Bool × Environment). Grows (with_scopes (c ∷ cs) b) r.1)) (sym same)
      (returned (false, with_scopes (c ∷ cs) b) (Grows-refl (with_scopes (c ∷ cs) b)))
add_symbol-at name symbol c cs b none new =
    let same : add_symbol name symbol (with_scopes (c ∷ cs) b)
        ≡ ok (true, with_scopes (StdMap.insert name symbol c ∷ cs) b) =
      ground (arith, new) in
    subst (Ensures (λ (r : Bool × Environment). Grows (with_scopes (c ∷ cs) b) r.1)) (sym same) (
      returned (true, with_scopes (StdMap.insert name symbol c ∷ cs) b)
        (record {
          grown = λ d rest h. (
            StdMap.insert name symbol c,
            ap (λ l. StdMap.insert name symbol c ∷ l) (∷-inj h).1,
            (λ other found known.
                insert-keeps name other symbol found c new
                  (subst (λ k. StdMap.find other k ≡ some found) (sym (∷-inj h).0) known)),
          );
        }))

at-Grows :
    (name : Bytes) (symbol : Symbol) (st : List SymbolScope) (b : Bool)
    → Ensures
        (λ (r : Bool × Environment). Grows (with_scopes st b) r.1)
        (add_symbol name symbol (with_scopes st b))
unfolding add_symbol SymbolTable.add_unique SymbolTable.current_context
at-Grows name symbol [] b = unknown
at-Grows name symbol (c ∷ cs) b = add_symbol-at name symbol c cs b (StdMap.find name c) refl

pub add_symbol-Grows :
    (name : Bytes) (symbol : Symbol) (env : Environment)
    → Ensures (λ (r : Bool × Environment). Grows env r.1) (add_symbol name symbol env)
add_symbol-Grows name symbol env = at-Grows name symbol (stack env) env.args_validated

-- Opening a scope, growing, and closing it leaves the scopes as they were.
pub closed :
    (env env' : Environment) (c : SymbolScope) (rest : List SymbolScope)
    → Grows (new_symbol_scope env) env'
    → stack env ≡ c ∷ rest
    → stack (end_symbol_scope env') ≡ stack env
unfolding new_symbol_scope end_symbol_scope SymbolTable.push_context SymbolTable.pop_context
closed env env' c rest g h =
    let (c', h', keeps) = g.grown [] (stack env) refl in
    let inner : stack env' ≡ c' ∷ c ∷ rest = h' ∙ ap (λ l. c' ∷ l) h in ground (arith, inner, h)

-- What validation has when it returns: the scopes have grown, and no warning where it is strict.
pub record Sound (strict : Bool) (env : Environment) (n : ℕ) (env' : Environment) : Type 0 where
  pub grows : Grows env env'
  pub silent : strict ≡ true → n ≡ 0

module _ {strict : Bool} where
  pub Sound-none : (env : Environment) → Sound strict env 0 env
  Sound-none env = record { grows = Grows-refl env; silent = λ h. refl }

  pub Sound-both :
      {env env1 env2 : Environment} {n k : ℕ}
      → Sound strict env n env1
      → Sound strict env1 k env2
      → Sound strict env (n + k) env2
  Sound-both {n} {k} s t = record {
    grows = Grows-trans s.grows t.grows;
    silent = λ h. both (s.silent h) (t.silent h);
  }
    where
      both : n ≡ 0 → k ≡ 0 → n + k ≡ 0
      both a b = omega arith

  pub Sound-after :
      {env env1 env2 : Environment} {n : ℕ}
      → Grows env env1
      → Sound strict env1 n env2
      → Sound strict env n env2
  Sound-after g s = record { grows = Grows-trans g s.grows; silent = s.silent }

-- What is validated inside a new scope leaves the scopes around it as they were.
pub Sound-closed :
    {strict : Bool} {env env1 : Environment} {n : ℕ}
    → Sound strict (new_symbol_scope env) n env1
    → Sound strict env n (end_symbol_scope env1)
Sound-closed {env} {env1} s = record {
  grows = record {
    grown = λ c rest h. (c, closed env env1 c rest s.grows h ∙ h, (λ name symbol found. found));
  };
  silent = s.silent;
}

pub declare-Grows :
    (name : Bytes) (symbol : Symbol) (env : Environment)
    → Ensures (Grows env) (declare name symbol env)
unfolding declare
declare-Grows name symbol env = >>=-Ensures (add_symbol-Grows name symbol env) kept
  where
    kept :
        (r : Bool × Environment)
        → Grows env r.1
        → Ensures (Grows env) (if r.0 then ok r.1 else throw syntax_error)
    kept (true, env') g = returned env' g
    kept (false, env') g = threw syntax_error

-- A symbol that the current scope has cannot be declared again.
pub declare-known :
    (name : Bytes) (symbol known : Symbol) (c : SymbolScope) (cs : List SymbolScope)
    (env : Environment)
    → stack env ≡ c ∷ cs
    → StdMap.find name c ≡ some known
    → declare name symbol env ≡ throw syntax_error
unfolding declare add_symbol SymbolTable.add_unique SymbolTable.current_context
declare-known name symbol known c cs env h found =
    ap (λ st. declare name symbol (with_scopes st env.args_validated)) h
    ∙ in_scope env.args_validated
  where
    in_scope : (b : Bool) → declare name symbol (with_scopes (c ∷ cs) b) ≡ throw syntax_error
    in_scope b = ground (arith, found)
