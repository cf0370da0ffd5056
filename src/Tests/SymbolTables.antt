-- ===== src/Tests/SymbolTables.antt =====
-- util/symbol_table.h on a table of two contexts.
use hwpp.Prelude.{
  ℕ, ◌≡◌, true, some, List, [], ◌∷◌, arith, if◌then◌else◌, ◌==◌, Bytes, codes, bytes_eq, ok,
}
use hwpp.Util.SymbolTable.{SymbolTable, push_context, pop_context, depth, add, lookup}
use hwpp.Util.SymbolTable.Scoping.{
  IsRooted, lookup-add, Op, op_add, op_add_unique, apply_all, pop_context-push_context,
}

abbrev globals : SymbolTable Bytes ℕ
globals = record { m_stack = ((codes "x", 1) ∷ []) ∷ [] }

abbrev locals : SymbolTable Bytes ℕ
locals = record { m_stack = ((codes "x", 2) ∷ []) ∷ ((codes "x", 1) ∷ (codes "y", 7) ∷ []) ∷ [] }

globals-IsRooted : IsRooted globals
unfolding depth
globals-IsRooted = omega arith

lookup-add_example :
    (t' : SymbolTable Bytes ℕ) × (add (codes "y") 5 globals ≡ ok t')
    × (depth t' ≡ depth globals)
    × (lookup (codes "x") t'
        ≡ (if codes "y" == codes "x" then some 5 else lookup (codes "x") globals))
lookup-add_example = lookup-add (codes "y") (codes "x") 5 globals globals-IsRooted

abbrev block : List (Op Bytes ℕ)
block = op_add (codes "x") 3 ∷ op_add_unique (codes "z") 4 ∷ []

pop_context-push_context_example :
    (t' : SymbolTable Bytes ℕ) × (apply_all block (push_context globals) ≡ ok t')
    × (pop_context t' ≡ (true, globals))
pop_context-push_context_example = pop_context-push_context block globals globals-IsRooted
