-- ===== src/Util/SymbolTable.antt =====
-- util/symbol_table.h: util::SymbolTable, a stack of maps.
pub mod Scoping
use hwpp.Prelude.{
  ℕ, Bool, true, false, Option, none, some, List, [], ◌∷◌, ltb, if◌then◌else◌, Eq, length, Outcome,
  ok, undefined, ◌>>=◌, ◌>>◌,
}
use hwpp.Util.StdMap

-- The contexts stand innermost first, so the back of the vector is the head of the list.
pub record SymbolTable (K V : Type 0) : Type 0 where
  pub m_stack : List (List (K × V))

-- The assertion of `current_context`, which the source states but does not throw.
pub data StackError : Type 0 where
  empty_stack : StackError

module _ {K V : Type 0} where
  unfoldable pub root : SymbolTable K V
  root = record { m_stack = [] ∷ [] }

  unfoldable pub push_context : SymbolTable K V → SymbolTable K V
  push_context t = record { m_stack = [] ∷ t.m_stack }

  -- `m_stack.pop_back()`
  unfoldable pub pop_back : List (List (K × V)) → List (List (K × V))
  pop_back [] = []
  pop_back (c ∷ cs) = cs

  unfoldable pub pop_context : SymbolTable K V → Bool × SymbolTable K V
  unfolding pop_back
  pop_context t =
      if ltb 1 (length t.m_stack)
      then (true, record { m_stack = pop_back t.m_stack })
      else (false, t)

  unfoldable pub depth : SymbolTable K V → ℕ
  depth t = length t.m_stack

  -- `&m_stack.back()`
  unfoldable pub current_context : SymbolTable K V → Outcome StackError (List (K × V))
  current_context t = elim t.m_stack [ [] ↦ undefined | c ∷ cs ↦ ok c ]

  -- The current context is replaced by what an operation made of it.
  unfoldable pub set_current : List (K × V) → SymbolTable K V → SymbolTable K V
  unfolding pop_back
  set_current c t = record { m_stack = c ∷ pop_back t.m_stack }

  unfoldable pub context_size : SymbolTable K V → Outcome StackError ℕ
  unfolding current_context
  context_size t = do c ← current_context t; ok (length c)

module _ {K V : Type 0} ⦃e : Eq K⦄ where
  unfoldable pub add : K → V → SymbolTable K V → Outcome StackError (SymbolTable K V)
  unfolding current_context set_current StdMap.insert
  add key val t = do c ← current_context t; ok (set_current (StdMap.insert key val c) t)

  unfoldable pub add_unique : K → V → SymbolTable K V → Outcome StackError (Bool × SymbolTable K V)
  unfolding current_context set_current StdMap.insert StdMap.find
  add_unique key val t = do
    c ← current_context t
    elim (StdMap.find key c) [
      | some v ↦ ok (false, t)
      | none ↦ ok (true, set_current (StdMap.insert key val c) t)
    ]

  -- The loop of `lookup`, from the back of the stack.
  unfoldable pub lookup_in : K → List (List (K × V)) → Option V
  unfolding StdMap.find
  lookup_in key [] = none
  lookup_in key (c ∷ cs) = elim (StdMap.find key c) [ some v ↦ some v | none ↦ lookup_in key cs ]

  unfoldable pub lookup : K → SymbolTable K V → Option V
  unfolding lookup_in
  lookup key t = lookup_in key t.m_stack
