-- ===== src/Scope/Lookup.antt =====
-- Looking up what `resolve_path` returns.
use hwpp.Prelude.{
  ℕ, ◌≡◌, refl, sym, ap, ◌∙◌, subst, inl, inr, Bool, true, false, not, ◌&&◌, ◌||◌, Option, none,
  some, List, [], ◌∷◌, ◌++◌, append_assoc, arith, eqb, if◌then◌else◌, Bool-cases, length,
  length-append, Outcome, ok, ◌>>=◌, raw, if-false, >>=-ok, if-cases, found-inj, found-inversion,
  >>=-eq-ok, and-true,
}
use hwpp.Path.Element.{Element}
use hwpp.Path.Sequence.{HwppPath}
use hwpp.Scope.{Scope, Dirent, Store, ScopeError, scope_at, has_bookmark}
use hwpp.Scope.Walk.{is_dotdot, step_name, step_array, step, follow, walk_path_internal, walk_path}
use hwpp.Scope.Steps.{
  Found, step_up-inversion, step_name-inversion, step_bookmark-inversion, step-access, access-cases,
  step_array-inversion,
}
use hwpp.Scope.Canonical.{is_plain_access, IsLinked, Arrives, begin, next, climb-scope}
use hwpp.Scope.Resolve.{IsPlace, step-Kept, step-step_up, step-step_bookmark}

abbrev pub all_plain : List Element → Bool
all_plain [] = true
all_plain (e ∷ es) = is_plain_access e && all_plain es

module _ {B D L : Type 0} (st : Store B D L) where
  -- Every step starts at a scope.
  pub step-scope :
      (e : Element) (q r : ℕ)
      → step st e q none ≡ ok (some (r, none))
      → (c : Scope B D) × (scope_at st q ≡ ok c)
  step-scope e q r h = elim (Bool-cases (is_dotdot e)) [
    | inl dotted ↦
        let (c, hc, up, out) =
          step_up-inversion st e q none none r (sym (step-step_up st e q none dotted) ∙ h) in
        (c, hc)
    | inr named ↦ elim (Bool-cases e.m_is_bookmark) [
      | inl mark ↦
          let (n, t, climbed, there, has, out) =
            step_bookmark-inversion st e q none none r
              (sym (step-step_bookmark st e q none named mark) ∙ h) in
          climb-scope st (length st) (has_bookmark e.m_name) q 0 climbed
      | inr plain ↦
          elim (access-cases st e.m_array_mode (step_name st e q none) (step_array st e q none)
            (sym (step-access st e q none named plain) ∙ h)) [
              | inl (mode, by_name) ↦
                  let (c, hc, found, out) = step_name-inversion st e q none none r by_name in
                  (c, hc)
              | inr (by_index, mode) ↦
                  let (c, de, hc, found, access) =
                    step_array-inversion st e q none none r by_index in
                  (c, hc)
            ]
    ]
  ]

  -- Where there is no alias, nothing is followed.
  pub follow-no_alias :
      IsLinked st
      → (look : ℕ → HwppPath → Outcome ScopeError (Option ℕ)) (more : Bool) (this de : ℕ)
        (d : Dirent B D L)
      → IsPlace st de d
      → follow st look more this de ≡ ok (some de)
  unfolding follow
  follow-no_alias linked look more this de d there = rw there (rw (linked.no_alias de d there) refl)

  follow-IsPlace :
      (look : ℕ → HwppPath → Outcome ScopeError (Option ℕ)) (more : Bool) (this de : ℕ)
      (target : Option ℕ)
      → follow st look more this de ≡ ok target
      → (d : Dirent B D L) × IsPlace st de d
  unfolding follow
  follow-IsPlace look more this de target h = let (d, hd, e) = >>=-eq-ok (raw st de) _ h in (d, hd)

  -- One step of a walk that puts no path together.
  module _ (linked : IsLinked st) (look : ℕ → HwppPath → Outcome ScopeError (Option ℕ))
      (resolve : Bool) where
    -- What is left of a walk after a step.
    abbrev pub go_on : List Element → ℕ → Option HwppPath → Found st
    go_on rest de out =
        if eqb (length rest) 0
        then ok (some (de, out))
        else (scope_at st de >>= λ s. walk_path_internal st look resolve rest de out)

    pub walk-go_on :
        (e : Element) (rest : List Element) (q de : ℕ) (out o : Option HwppPath) (d : Dirent B D L)
        → step st e q out ≡ ok (some (de, o))
        → IsPlace st de d
        → walk_path_internal st look resolve (e ∷ rest) q out ≡ go_on rest de o
    unfolding walk_path_internal
    walk-go_on e rest q de out o d found there =
        >>=-ok (step st e q out) _ found
        ∙ >>=-ok (follow st look (not (eqb (length rest) 0) || resolve) q de) _
            (follow-no_alias linked look _ q de d there)

    pub walk-inversion :
        (e : Element) (rest : List Element) (q : ℕ) (out : Option HwppPath)
        {end : ℕ × Option HwppPath}
        → walk_path_internal st look resolve (e ∷ rest) q out ≡ ok (some end)
        → (de : ℕ) × (o : Option HwppPath) × (d : Dirent B D L) × (step st e q out
            ≡ ok (some (de, o)))
          × IsPlace st de d
          × (go_on rest de o ≡ ok (some end))
    unfolding walk_path_internal
    walk-inversion e rest q out h =
        let (first, stepped, h') = >>=-eq-ok (step st e q out) _ h in
        let ((de, o), is_some, h'') = found-inversion first _ h' in
        let (target, followed, left) =
          >>=-eq-ok (follow st look (not (eqb (length rest) 0) || resolve) q de) _ h'' in
        let (d, there) =
          follow-IsPlace look (not (eqb (length rest) 0) || resolve) q de target followed in
        let found = stepped ∙ ap ok is_some in
        (de, o, d, found, there, sym (walk-go_on e rest q de out o d found there) ∙ h)

    walk-more :
        (e x : Element) (rest : List Element) (q r : ℕ) (d : Dirent B D L) (c : Scope B D)
        → step st e q none ≡ ok (some (r, none))
        → IsPlace st r d
        → scope_at st r ≡ ok c
        → walk_path_internal st look resolve (e ∷ x ∷ rest) q none
          ≡ walk_path_internal st look resolve (x ∷ rest) r none
    walk-more e x rest q r d c found there here =
        walk-go_on e (x ∷ rest) q r none none d found there
        ∙ if-false (eqb (length (x ∷ rest)) 0) _ _ (ground arith)
        ∙ >>=-ok (scope_at st r) _ here

    -- Walking the elements that lead to a scope leaves the rest to walk from there.
    walk-Arrives :
        (s r : ℕ) (es : List Element) (x : Element) (rest : List Element) (c : Scope B D)
        → Arrives st s es r
        → scope_at st r ≡ ok c
        → walk_path_internal st look resolve (es ++ x ∷ rest) s none
          ≡ walk_path_internal st look resolve (x ∷ rest) r none
    walk-Arrives s r es x rest c begin here = refl
    walk-Arrives s r es x rest c (next before e q d path eq kind found there) here =
        let (b, at) = step-scope e q r found in
        ap (λ xs. walk_path_internal st look resolve (xs ++ x ∷ rest) s none) eq
        ∙ ap (λ xs. walk_path_internal st look resolve xs s none)
            (append_assoc before (e ∷ []) (x ∷ rest))
        ∙ walk-Arrives s q before e (x ∷ rest) b path at
        ∙ walk-more e x rest q r d c found there here

    -- Elements that lead from a scope to a place are a path by which the place is found.
    pub walk_path-Arrives :
        (s r : ℕ) (es : List Element)
        → Arrives st s es r
        → walk_path st look resolve (record { m_list = es; m_absolute = false }) s none
          ≡ ok (some (r, none))
    unfolding walk_path
    walk_path-Arrives s r es begin = refl
    walk_path-Arrives s r es (next before e q d path eq kind found there) =
        let (b, at) = step-scope e q r found in
        if-false (eqb (length es) 0) _ _ (filled before es eq)
        ∙ ap (λ xs. walk_path_internal st look resolve xs s none) eq
        ∙ walk-Arrives s q before e [] b path at
        ∙ walk-go_on e [] q r none none d found there
      where
        filled : (before es : List Element) → es ≡ before ++ e ∷ [] → eqb (length es) 0 ≡ false
        filled before es eq = rw eq (ground (arith, length-append before (e ∷ [])))

    -- What a walk leaves that puts a path together.
    pub record Walked (s r : ℕ) (p : HwppPath) (o : Option HwppPath) (bare : Found st)
        : Type 0 where
      pub path : HwppPath
      pub made : some path ≡ o
      pub leads : Arrives st s path.m_list r
      pub same_start : path.m_absolute ≡ p.m_absolute
      pub found : bare ≡ ok (some (r, none))

    pub walk_path_internal-Walked :
        (s this r : ℕ) (es : List Element) (p : HwppPath) (o : Option HwppPath)
        → all_plain es ≡ true
        → walk_path_internal st look resolve es this (some p) ≡ ok (some (r, o))
        → Arrives st s p.m_list this
        → Walked s r p o (walk_path_internal st look resolve es this none)
    unfolding walk_path_internal
    walk_path_internal-Walked s this r [] p o plain h path = cc
    walk_path_internal-Walked s this r (front ∷ rest) p o plain h path =
        let (access, others) = and-true (is_plain_access front) (all_plain rest) plain in
        let (de, o', d, found, there, left) = walk-inversion front rest this (some p) h in
        let kept = step-Kept st linked s this de front d p o' access found there path in
        let bare = walk-go_on front rest this de none none d kept.bare there in
        elim (if-cases (eqb (length rest) 0) left) [
          | inl (empty_, ends) ↦
              let (same, out) = found-inj ends in
              record {
                path = kept.path;
                made = kept.made ∙ out;
                leads = subst (λ x. Arrives st s kept.path.m_list x) same kept.leads;
                same_start = kept.same_start;
                found = bare ∙ rw empty_ (ap (λ x. ok (some (x, none))) same);
              }
          | inr (more, goes) ↦
              let (c, here, walk) = >>=-eq-ok (scope_at st de) _ goes in
              let later =
                walk_path_internal-Walked s de r rest kept.path o others
                  (ap (λ x. walk_path_internal st look resolve rest de x) kept.made ∙ walk)
                  kept.leads in
              record {
                path = later.path;
                made = later.made;
                leads = later.leads;
                same_start = later.same_start ∙ kept.same_start;
                found =
                    bare
                    ∙ if-false (eqb (length rest) 0) _ _ more
                    ∙ >>=-ok (scope_at st de) _ here
                    ∙ later.found;
              }
        ]
