-- ===== src/Util/SymbolTable/Scoping.antt =====
-- The scoping of util::SymbolTable: contexts shadow the ones below them and leave them alone.
use hwpp.Prelude.{
  ◌≤◌, ◌≡◌, refl, inl, inr, true, false, none, some, List, [], ◌∷◌, ◌++◌, arith, if◌then◌else◌,
  Option-cases, Eq, ◌==◌, length, Outcome, ok, ◌>>=◌,
}
use hwpp.Util.StdMap
use hwpp.Util.SymbolTable.{
  SymbolTable, StackError, push_context, pop_back, pop_context, depth, current_context, set_current,
  add, add_unique, lookup_in, lookup,
}

-- What a block of code does to a table: any number of `add` and `add_unique`.
pub data Op (K V : Type 0) : Type 0 where
  op_add op_add_unique : K → V → Op K V

module _ {K V : Type 0} ⦃e : Eq K⦄ where
  -- There is always a context, the root.
  abbrev pub IsRooted : SymbolTable K V → Type 0
  IsRooted t = 1 ≤ depth t

  pub find-append :
      (k : K) (xs ys : List (K × V))
      → StdMap.find k (xs ++ ys)
        ≡ (elim (StdMap.find k xs) [ some v ↦ some v | none ↦ StdMap.find k ys ])
  unfolding StdMap.find
  find-append k [] ys = refl
  find-append k ((j, w) ∷ xs) ys = ground (arith, find-append k xs ys)

  -- All entries that are in scope, the innermost first.
  abbrev pub concat : List (List (K × V)) → List (K × V)
  concat [] = []
  concat (c ∷ cs) = c ++ concat cs

  lookup_in-concat : (k : K) (cs : List (List (K × V))) → lookup_in k cs ≡ StdMap.find k (concat cs)
  unfolding lookup_in StdMap.find
  lookup_in-concat k [] = refl
  lookup_in-concat k (c ∷ cs) = ground (arith, find-append k c (concat cs), lookup_in-concat k cs)

  -- `lookup` finds what the first entry of the key in the list of all entries, those of the
  -- innermost context first, is bound to.
  lookup-concat : (k : K) (t : SymbolTable K V) → lookup k t ≡ StdMap.find k (concat t.m_stack)
  unfolding lookup
  lookup-concat k t = lookup_in-concat k t.m_stack

  abbrev pub apply : Op K V → SymbolTable K V → Outcome StackError (SymbolTable K V)
  apply (op_add k v) t = add k v t
  apply (op_add_unique k v) t = do (added, t') ← add_unique k v t; ok t'

  abbrev pub apply_all : List (Op K V) → SymbolTable K V → Outcome StackError (SymbolTable K V)
  apply_all [] t = ok t
  apply_all (o ∷ os) t = apply o t >>= apply_all os

  -- A table that has a context is one on top of others.
  nonempty-cons :
      (s : List (List (K × V)))
      → 1 ≤ length s
      → (c : List (K × V)) × (cs : List (List (K × V))) × (s ≡ c ∷ cs)
  nonempty-cons [] h = absurd (omega (arith, h))
  nonempty-cons (c ∷ cs) h = (c, cs, refl)

  -- On a table with a context, `add` returns, keeps the depth, binds the key, hiding every older
  -- binding of it, and leaves what the other keys are bound to.
  pub lookup-add :
      (k j : K) (v : V) (t : SymbolTable K V)
      → IsRooted t
      → (t' : SymbolTable K V) × (add k v t ≡ ok t')
        × (depth t' ≡ depth t)
        × (lookup j t' ≡ (if k == j then some v else lookup j t))
  unfolding depth add lookup lookup_in current_context set_current pop_back
  lookup-add k j v t r =
      let (c, cs, stack) = nonempty-cons t.m_stack r in
      (
        record { m_stack = StdMap.insert k v c ∷ cs },
        rw stack refl,
        rw stack refl,
        rw stack (ground (arith, StdMap.find-insert k j v c)),
      )

  -- On a table with a context, `add_unique` returns; if the current context binds the key it
  -- answers false and changes nothing, and otherwise it answers true and does what `add` does.
  add_unique-add :
      (k : K) (v : V) (t : SymbolTable K V)
      → IsRooted t
      → (c : List (K × V)) × (current_context t ≡ ok c)
        × (add_unique k v t ≡ (elim (StdMap.find k c) [
          | some w ↦ ok (false, t)
          | none ↦ add k v t >>= λ t'. ok (true, t')
        ]))
  unfolding add add_unique current_context set_current pop_back depth
  add_unique-add k v t r =
      let (c, cs, stack) = nonempty-cons t.m_stack r in (c, rw stack refl, ground (arith, stack))

  apply-current :
      (o : Op K V) (c : List (K × V)) (cs : List (List (K × V)))
      → (c' : List (K × V)) × (apply o (record { m_stack = c ∷ cs })
          ≡ ok (record { m_stack = c' ∷ cs }))
  unfolding add add_unique current_context set_current pop_back
  apply-current (op_add k v) c cs = (StdMap.insert k v c, refl)
  apply-current (op_add_unique k v) c cs = elim (Option-cases (StdMap.find k c)) [
    | inl fresh ↦ (StdMap.insert k v c, ground (arith, fresh))
    | inr (w, bound) ↦ (c, ground (arith, bound))
  ]

  apply_all-current :
      (os : List (Op K V)) (c : List (K × V)) (cs : List (List (K × V)))
      → (c' : List (K × V)) × (apply_all os (record { m_stack = c ∷ cs })
          ≡ ok (record { m_stack = c' ∷ cs }))
  apply_all-current [] c cs = (c, refl)
  apply_all-current (o ∷ os) c cs =
      let (c1, first) = apply-current o c cs in
      let (c2, rest) = apply_all-current os c1 cs in (c2, rw first rest)

  -- On a table with a context, a block that pushes a context, adds whatever it likes and pops
  -- again returns true and leaves the table as it was.
  pub pop_context-push_context :
      (os : List (Op K V)) (t : SymbolTable K V)
      → IsRooted t
      → (t' : SymbolTable K V) × (apply_all os (push_context t) ≡ ok t')
        × (pop_context t' ≡ (true, t))
  unfolding push_context pop_context pop_back depth
  pop_context-push_context os t r =
      let (c, done) = apply_all-current os [] t.m_stack in
      (record { m_stack = c ∷ t.m_stack }, done, ground (arith, r))
