-- ===== src/Scope/Climbs.antt =====
-- The loops of scope.cc that climb from a scope to its parents.
use hwpp.Prelude.{
  ℕ, zero, suc, ◌+◌, ◌≤◌, ◌<◌, ◌≡◌, refl, sym, ap, ◌∙◌, subst, inl, inr, Bool, true, false, ◌||◌,
  Option, none, some, arith, if◌then◌else◌, Bool-cases, Option-cases, length, Bytes, bytes_eq,
  Outcome, ok, raw, raw-lt, >>=-eq-ok, ok-inj,
}
use hwpp.Scope.{
  Scope, Store, ScopeError, scope_from_dirent, scope_at, is_root, is_bound, parent, datatype,
}
use hwpp.Scope.Walk.{climb, binding, resolve_datatype}

module _ {B D L : Type 0} (st : Store B D L) where
  -- The scopes form a tree: the parent of a scope is a scope, and was made before it.
  abbrev pub IsTree : Type 0
  IsTree =
      (r p : ℕ) (s : Scope B D)
      → scope_at st r ≡ ok s
      → s.m_parent ≡ some p
      → (p < r) × (t : Scope B D) × (scope_at st p ≡ ok t)

  -- Climbing from one scope passes parents at which the test fails, and ends at the first scope that
  -- meets it, or else at the root.
  pub data Climbed (stop : Scope B D → Bool) : ℕ → ℕ → ℕ → Type 0 where
    arrived :
        {r : ℕ} (s : Scope B D)
        → scope_at st r ≡ ok s
        → (stop s || is_root s) ≡ true
        → Climbed stop r 0 r
    up :
        {r n top : ℕ} (s : Scope B D)
        → scope_at st r ≡ ok s
        → (stop s || is_root s) ≡ false
        → Climbed stop (parent r s) n top
        → Climbed stop r (suc n) top

  pub scope_at-lt : (r : ℕ) (s : Scope B D) → scope_at st r ≡ ok s → r < length st
  unfolding scope_at
  scope_at-lt r s h = raw-lt st r (>>=-eq-ok (raw st r) scope_from_dirent h).1

  parent-IsTree :
      IsTree
      → (r : ℕ) (s : Scope B D) → scope_at st r ≡ ok s
      → is_root s ≡ false
      → (parent r s < r) × (t : Scope B D) × (scope_at st (parent r s) ≡ ok t)
  unfolding is_root parent
  parent-IsTree tree r s h inner = elim (Option-cases s.m_parent) [
    | inl missing ↦ absurd (root (sym (rw missing refl) ∙ inner))
    | inr (p, e) ↦ rw e (tree r p s h e)
  ]
    where
      root : ¬ (true ≡ false)
      root e = cc

  or-false : (a b : Bool) → (a || b) ≡ false → b ≡ false
  or-false true b h = cc
  or-false false b h = h

  climb-Climbed_from :
      IsTree
      → (stop : Scope B D → Bool) (f r k : ℕ) (s : Scope B D) → r < f
      → scope_at st r ≡ ok s
      → (top n : ℕ) × (climb st f stop r k ≡ ok (top, n + k)) × Climbed stop r n top × (n ≤ r)
  unfolding climb
  climb-Climbed_from tree stop zero r k s below h = absurd (omega arith)
  climb-Climbed_from tree stop (suc f) r k s below h = elim (Bool-cases (stop s || is_root s)) [
    | inl ends ↦
        (r, 0, rw (h, ends) (ap (λ m. ok (r, m)) (omega arith)), arrived s h ends, omega arith)
    | inr goes ↦
        let (nearer, t, above) = parent-IsTree tree r s h (or-false (stop s) (is_root s) goes) in
        let (top, n, e, path, few) =
          climb-Climbed_from tree stop f (parent r s) (suc k) t (omega arith) above in
        (
          top,
          suc n,
          rw (h, goes) (e ∙ ap (λ m. ok (top, m)) (omega arith)),
          up s h goes path,
          omega arith,
        )
  ]

  -- In a tree, climbing from any scope returns, with as much fuel as there are objects: at the first
  -- scope on the way up at which the test holds, or at the root, after at most as many steps as the
  -- place of the scope says.
  pub climb-Climbed :
      IsTree
      → (stop : Scope B D → Bool) (r : ℕ) (s : Scope B D) → scope_at st r ≡ ok s
      → (top n : ℕ) × (climb st (length st) stop r 0 ≡ ok (top, n)) × Climbed stop r n top × (n ≤ r)
  climb-Climbed tree stop r s h =
      let (top, n, e, path, few) =
        climb-Climbed_from tree stop (length st) r 0 s (scope_at-lt r s h) h in
      (top, n, e ∙ ap (λ m. ok (top, m)) (omega arith), path, few)

  -- The scope at which a climb ends.
  pub Climbed-end :
      {stop : Scope B D → Bool} {r n top : ℕ}
      → Climbed stop r n top
      → (t : Scope B D) × (scope_at st top ≡ ok t) × ((stop t || is_root t) ≡ true)
  Climbed-end (arrived s h ends) = (s, h, ends)
  Climbed-end (up s h goes path) = Climbed-end path

  -- In a tree, `binding()` returns for every scope: the binding of the nearest scope on the way up
  -- that is bound, or that of the root.
  binding-Climbed :
      IsTree
      → (r : ℕ) (s : Scope B D) → scope_at st r ≡ ok s
      → (top n : ℕ) × (t : Scope B D) × (binding st r ≡ ok t.m_binding)
        × (scope_at st top ≡ ok t)
        × Climbed is_bound r n top
  unfolding binding
  binding-Climbed tree r s h =
      let (top, n, e, path, few) = climb-Climbed tree is_bound r s h in
      let (t, found, ends) = Climbed-end path in (top, n, t, rw (e, found) refl, found, path)

  unfoldable pub defines : Bytes → Scope B D → Bool
  defines name s = elim (datatype name s) [ none ↦ false | some d ↦ true ]

  -- What `resolve_datatype` does once it has looked in the scope itself.
  abbrev fall_through :
      Option D → Bool → Outcome ScopeError (Option D) → Outcome ScopeError (Option D)
  fall_through (some d) root above = ok (some d)
  fall_through none root above = if root then ok none else above

  resolve_datatype-fall_through :
      (name : Bytes) (f r : ℕ) (s : Scope B D)
      → scope_at st r ≡ ok s
      → resolve_datatype st (suc f) name r
        ≡ fall_through (datatype name s) (is_root s) (resolve_datatype st f name (parent r s))
  unfolding resolve_datatype
  resolve_datatype-fall_through name f r s h = rw h (split (datatype name s))
    where
      split :
          (o : Option D)
          → elim o [
            | some d ↦ ok (some d)
            | none ↦ if is_root s then ok none else resolve_datatype st f name (parent r s)
          ]
            ≡ fall_through o (is_root s) (resolve_datatype st f name (parent r s))
      split none = refl
      split (some d) = refl

  resolve_datatype-Climbed_path :
      (name : Bytes) (f : ℕ) {r n top : ℕ}
      → Climbed (defines name) r n top
      → n < f
      → (t : Scope B D) → scope_at st top ≡ ok t
      → resolve_datatype st f name r ≡ ok (datatype name t)
  unfolding defines
  resolve_datatype-Climbed_path name zero path few t found = absurd (omega arith)
  resolve_datatype-Climbed_path name (suc f) {r} (arrived s h ends) few t found =
      resolve_datatype-fall_through name f r s h ∙ here
    where
      same : datatype name s ≡ datatype name t
      same = ap (datatype name) (ok-inj (sym h ∙ found))

      here :
          fall_through (datatype name s) (is_root s) (resolve_datatype st f name (parent r s))
          ≡ ok (datatype name t)
      here = elim (Option-cases (datatype name s)) [
        | inl missing ↦
            let lacks : defines name s ≡ false = rw (missing, defines) refl in
            let root : is_root s ≡ true = subst (λ b. (b || is_root s) ≡ true) lacks ends in
            rw (missing, root) (ap ok (sym missing ∙ same))
        | inr (d, e) ↦ rw e (ap ok (sym e ∙ same))
      ]
  resolve_datatype-Climbed_path name (suc f) {r} (up s h goes path) few t found =
      resolve_datatype-fall_through name f r s h
      ∙ above (resolve_datatype-Climbed_path name f path (omega arith) t found)
    where
      true≢false : ¬ (true ≡ false)
      true≢false e = cc

      above :
          resolve_datatype st f name (parent r s) ≡ ok (datatype name t)
          → fall_through (datatype name s) (is_root s) (resolve_datatype st f name (parent r s))
            ≡ ok (datatype name t)
      above up_there = elim (Option-cases (datatype name s)) [
        | inl missing ↦ rw (missing, or-false (defines name s) (is_root s) goes) up_there
        | inr (d, e) ↦
            let has : defines name s ≡ true = rw (e, defines) refl in
            absurd (true≢false (subst (λ b. (b || is_root s) ≡ false) has goes))
      ]

  -- In a tree, `resolve_datatype` returns for every scope and name, with as much fuel as there are
  -- objects: the datatype that the nearest scope on the way up has under the name, or none if no scope
  -- up to the root has one.
  pub resolve_datatype-Climbed :
      IsTree
      → (name : Bytes) (r : ℕ) (s : Scope B D) → scope_at st r ≡ ok s
      → (top n : ℕ) × (t : Scope B D) × (resolve_datatype st (length st) name r
          ≡ ok (datatype name t))
        × (scope_at st top ≡ ok t)
        × Climbed (defines name) r n top
  resolve_datatype-Climbed tree name r s h =
      let (top, n, e, path, few) = climb-Climbed tree (defines name) r s h in
      let (t, found, ends) = Climbed-end path in
      let inside = scope_at-lt r s h in
      (
        top,
        n,
        t,
        resolve_datatype-Climbed_path name (length st) path (omega arith) t found,
        found,
        path,
      )
